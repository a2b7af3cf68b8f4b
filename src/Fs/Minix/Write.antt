-- ===== src/Fs/Minix/Write.antt =====
-- `minix_write` changes the bytes of the file, for files of direct blocks.
use nbos.Base.{
  ℕ, zero, suc, ◌+◌, ◌-◌, ◌*◌, ◌/◌, ◌%◌, ◌≤◌, ◌<◌, ◌≡◌, refl, ◌∙◌, ap, ap₂, sym, arith, ◌&&◌,
  if◌then◌else◌, min, List, [], ◌∷◌, ◌++◌, take, drop, length, length-take, length-drop,
  take-append-drop, some, ok, and_then, ◌==◌, ==_ne, ==_refl, lt→ltb, fun_ext, Bool-cases, inl, inr,
  subst,
}
use nbos.Base.Int.{pos}
use nbos.Fs.{Fs, Inode, Block, block_sz}
use nbos.Fs.Buffer.{get_blk, put_block}
use nbos.Fs.Buffer.Coherent.{IsCoherent, Frame, Frame-trans, get_blk-IsCoherent}
use nbos.Fs.Buffer.Single.{IsSingle, get_blk-IsSingle, store_through-IsCoherent, remove-IsSingle}
use nbos.Fs.Inodes.{get_ref}
use nbos.Fs.Minix.{inode_get_blk, inode_blk_no, paste, write_from, minix_write}
use nbos.Fs.Minix.Read.{file_bytes}

-- Byte `a` of block `n` set to `c`.
abbrev pub put_byte : (ℕ → Block) → (n a c : ℕ) → ℕ → Block
put_byte view n a c k i = if (k == n) && (i == a) then c else view k i

-- The content after the bytes are put into the file from offset `p` on, one after the other.
unfoldable pub put_bytes : (view : ℕ → Block) (blk : ℕ → ℕ) (p : ℕ) → List ℕ → ℕ → Block
put_bytes view blk p [] = view
put_bytes view blk p (c ∷ cs) =
    put_bytes (put_byte view (blk (p / block_sz)) (p % block_sz) c) blk (p + 1) cs

put_bytes-append :
    (view : ℕ → Block) (blk : ℕ → ℕ) (p : ℕ) (cs ds : List ℕ)
    → put_bytes view blk p (cs ++ ds) ≡ put_bytes (put_bytes view blk p cs) blk (p + length cs) ds
unfolding put_bytes
put_bytes-append view blk p [] ds = ap (λ k. put_bytes view blk k ds) (omega arith)
put_bytes-append view blk p (c ∷ cs) ds =
    put_bytes-append (put_byte view (blk (p / block_sz)) (p % block_sz) c) blk (p + 1) cs ds
    ∙ ap
        (λ k.
          put_bytes (put_bytes (put_byte view (blk (p / block_sz)) (p % block_sz) c) blk (p + 1) cs)
            blk k ds)
        (omega arith)

-- Within one block, storing the bytes in the block is putting them into the file.
paste-put_bytes :
    (view : ℕ → Block) (blk : ℕ → ℕ) (p k a : ℕ) (cs : List ℕ)
    → p ≡ k * block_sz + a
    → a + length cs ≤ block_sz
    → put_block view (blk k) (paste cs a (view (blk k))) ≡ put_bytes view blk p cs
unfolding put_bytes
paste-put_bytes view blk p k a [] e h =
    fun_ext λ n. elim (Bool-cases (n == blk k)) [
      | inl eq ↦ rw eq (ap view (ground arith))
      | inr ne ↦ rw ne
    ]
paste-put_bytes view blk p k a (c ∷ cs) e h =
    ap (λ b. put_block view (blk k) (paste cs (a + 1) b)) first
    ∙ outside (paste cs (a + 1) (put_byte view (blk k) a c (blk k)))
    ∙ paste-put_bytes (put_byte view (blk k) a c) blk (p + 1) k (a + 1) cs (omega arith)
        (omega arith)
    ∙ ap₂ (λ q r. put_bytes (put_byte view (blk q) r c) blk (p + 1) cs) (omega arith) (omega arith)
  where
    first : (λ i. if i == a then c else view (blk k) i) ≡ put_byte view (blk k) a c (blk k)
    first = fun_ext λ i. rw (==_refl (blk k))

    outside :
        (b : Block) → put_block view (blk k) b ≡ put_block (put_byte view (blk k) a c) (blk k) b
    outside b =
        fun_ext λ n. elim (Bool-cases (n == blk k)) [
          | inl eq ↦ rw eq
          | inr ne ↦ rw ne (fun_ext λ i. rw ne)
        ]

inode_get_blk-direct :
    (inode : Inode) (p : ℕ) (s : Fs)
    → p < 7 * block_sz
    → inode_get_blk inode p s
      ≡ and_then (get_blk (inode.i_data (p / block_sz)) s) (λ (bh, t). ok (some bh, t))
unfolding inode_get_blk inode_blk_no
inode_get_blk-direct inode p s h = rw (lt→ltb (p / block_sz) 7 (omega arith))

module _ (inode : Inode) (lo : ℕ) (data_blk : (k : ℕ) → k < 7 → lo ≤ inode.i_data k) where
  write_from-put_bytes :
      (k : ℕ) (view : ℕ → Block) (s : Fs) (buf : List ℕ) (p left count : ℕ)
      → IsCoherent view s
      → IsSingle lo s
      → length buf ≡ left
      → p + left ≤ 7 * block_sz
      → left ≤ count
      → 0 < count
      → left < k
      → (t : Fs) × (write_from k inode buf p left count s ≡ ok (pos count, t))
        × IsCoherent (put_bytes view inode.i_data p buf) t
        × IsSingle lo t
        × Frame s t
  unfolding write_from
  write_from-put_bytes zero view s buf p left count c m b h l z f = absurd (omega arith)
  write_from-put_bytes (suc k) view s [] p zero count c m b h l z f = (
    s,
    let e : count - 0 ≡ count = omega arith in rw (e, ==_ne count 0 (omega arith)),
    unfold put_bytes in c,
    m,
    refl,
  )
  write_from-put_bytes (suc k) view s (x ∷ xs) p zero count c m b h l z f = absurd (omega arith)
  write_from-put_bytes (suc k) view s buf p (suc r) count c m b h l z f =
      let left = suc r in
      let nr = p % block_sz in
      let chars = min (block_sz - nr) left in
      let n = inode.i_data (p / block_sz) in
      let taken : length (take chars buf) ≡ chars = length-take chars buf (omega arith) in
      let change = paste (take chars buf) nr in
      let (id, t, bh, run, c₁, held, v, f₁) = get_blk-IsCoherent view s n c in
      let m₁ = get_blk-IsSingle lo n id s t m run in
      let (u, run', c₂, gone, f₂) =
        store_through-IsCoherent view t id n bh change c₁ held
          (m₁ n (data_blk (p / block_sz) (omega arith))) in
      let m₂ = remove-IsSingle lo id t u bh m₁ held.found gone in
      let view' = put_bytes view inode.i_data p (take chars buf) in
      let c₃ : IsCoherent view' u =
        subst (λ (z : ℕ → Block). IsCoherent z u)
          (paste-put_bytes view inode.i_data p (p / block_sz) nr (take chars buf) (omega arith)
            (omega (arith, taken)))
          c₂ in
      let (w, run'', c₄, m₃, f₃) =
        write_from-put_bytes k view' u (drop chars buf) (p + chars) (left - chars) count c₃ m₂
          (omega (arith, length-drop chars buf)) (omega arith) (omega arith) z (omega arith) in
      (
        w,
        rw (
          ==_ne (suc r) 0 (omega arith),
          inode_get_blk-direct inode p s (omega arith),
          run,
          run',
          run'',
        ),
        subst (λ (z : ℕ → Block). IsCoherent z w)
            (ap (λ q. put_bytes view' inode.i_data (p + q) (drop chars buf)) (sym taken)
              ∙ sym (put_bytes-append view inode.i_data p (take chars buf) (drop chars buf))
              ∙ ap (put_bytes view inode.i_data p) (take-append-drop chars buf))
            c₄,
        m₃,
        Frame-trans s t w f₁ (Frame-trans t u w f₂ f₃),
      )

  -- Over coherent buffers, with at most one buffer for each data block, `minix_write` of a live inode
  -- within its seven direct blocks, which are data blocks, returns the number of bytes given, and
  -- the content afterwards is the old one with those bytes put into the file, in order; all else but
  -- the buffer list and the device is unchanged.
  pub minix_write-put_bytes :
      (view : ℕ → Block) (s : Fs) (id : ℕ) (buf : List ℕ) (p count : ℕ)
      → get_ref id s ≡ ok (inode, s)
      → IsCoherent view s
      → IsSingle lo s
      → length buf ≡ count
      → p + count ≤ 7 * block_sz
      → 0 < count
      → (t : Fs) × (minix_write id buf p count s ≡ ok (pos count, t))
        × IsCoherent (put_bytes view inode.i_data p buf) t
        × IsSingle lo t
        × Frame s t
  unfolding minix_write
  minix_write-put_bytes view s id buf p count live c m b h z =
      let (t, run, rest, single, f) =
        write_from-put_bytes (count + 1) view s buf p count count c m b h (omega arith) z
          (omega arith) in
      (t, rw (live, run), rest, single, f)

-- Different parts of the file lie in different blocks.
abbrev pub Injective7 : (ℕ → ℕ) → Type 0
Injective7 blk = (j k : ℕ) → j < 7 → k < 7 → blk j ≡ blk k → j ≡ k

put_bytes-before :
    (view : ℕ → Block) (blk : ℕ → ℕ) (o p : ℕ) (cs : List ℕ)
    → Injective7 blk
    → o < p
    → p + length cs ≤ 7 * block_sz
    → put_bytes view blk p cs (blk (o / block_sz)) (o % block_sz)
      ≡ view (blk (o / block_sz)) (o % block_sz)
unfolding put_bytes
put_bytes-before view blk o p [] inj l h = refl
put_bytes-before view blk o p (c ∷ cs) inj l h =
    put_bytes-before (put_byte view (blk (p / block_sz)) (p % block_sz) c) blk o (p + 1) cs inj
      (omega arith) (omega arith)
    ∙ ground (arith, inj (o / block_sz) (p / block_sz) (omega arith) (omega arith))

-- Bytes that were put into a file of distinct direct blocks are the bytes of the file there.
pub file_bytes-put_bytes :
    (view : ℕ → Block) (blk : ℕ → ℕ) (p : ℕ) (cs : List ℕ)
    → Injective7 blk
    → p + length cs ≤ 7 * block_sz
    → file_bytes (put_bytes view blk p cs) blk p (length cs) ≡ cs
unfolding put_bytes
file_bytes-put_bytes view blk p [] inj h = refl
file_bytes-put_bytes view blk p (c ∷ cs) inj h =
    let view' = put_byte view (blk (p / block_sz)) (p % block_sz) c in
    ap₂ ◌∷◌
      (put_bytes-before view' blk p (p + 1) cs inj (omega arith) (omega arith)
        ∙ rw (==_refl (blk (p / block_sz)), ==_refl (p % block_sz)))
      (file_bytes-put_bytes view' blk (p + 1) cs inj (omega arith))
