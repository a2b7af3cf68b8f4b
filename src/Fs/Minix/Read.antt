-- ===== src/Fs/Minix/Read.antt =====
-- `minix_read` returns the bytes of the file.
use nbos.Base.{
  ℕ, zero, suc, ◌+◌, ◌-◌, ◌*◌, ◌/◌, ◌%◌, ◌≤◌, ◌<◌, ◌≡◌, refl, ◌∙◌, ap, ap₂, sym, arith, min, List,
  [], ◌∷◌, ◌++◌, some, ok, ==_ne,
}
use nbos.Base.Int.{pos}
use nbos.Fs.{Fs, Inode, Block, block_sz}
use nbos.Fs.Buffer.{get_buf-ok}
use nbos.Fs.Buffer.Coherent.{IsCoherent, Frame, Frame-trans, brelse-IsCoherent}
use nbos.Fs.Inodes.{get_ref}
use nbos.Fs.Minix.{slice, read_from, minix_read}
use nbos.Fs.Minix.Map.{OnChip, bmap, bmap-direct, inode_get_blk-bmap}

-- The `n` bytes of a file from offset `p` on, where `blk` gives the block of each part of the file.
abbrev pub file_bytes : (view : ℕ → Block) (blk : ℕ → ℕ) (p n : ℕ) → List ℕ
file_bytes view blk p zero = []
file_bytes view blk p (suc n) =
    view (blk (p / block_sz)) (p % block_sz) ∷ file_bytes view blk (p + 1) n

file_bytes-append :
    (view : ℕ → Block) (blk : ℕ → ℕ) (p a b : ℕ)
    → file_bytes view blk p (a + b) ≡ file_bytes view blk p a ++ file_bytes view blk (p + a) b
file_bytes-append view blk p zero b = ap₂ (file_bytes view blk) (omega arith) (omega arith)
file_bytes-append view blk p (suc a) b =
    ap (file_bytes view blk p) {x = suc a + b} {y = suc (a + b)} (omega arith)
    ∙ ap (λ r. view (blk (p / block_sz)) (p % block_sz) ∷ r)
        (file_bytes-append view blk (p + 1) a b
          ∙ ap (λ k. file_bytes view blk (p + 1) a ++ file_bytes view blk k b) (omega arith))

-- Within one block the bytes of the file are those of the block.
slice-file_bytes :
    (view : ℕ → Block) (blk : ℕ → ℕ) (p n k a : ℕ)
    → p / block_sz ≡ k
    → p % block_sz ≡ a
    → a + n ≤ block_sz
    → slice (view (blk k)) a n ≡ file_bytes view blk p n
slice-file_bytes view blk p zero k a e f h = refl
slice-file_bytes view blk p (suc zero) k a e f h = rw (e, f)
slice-file_bytes view blk p (suc (suc n)) k a e f h =
    rw (e, f)
      (ap (λ r. view (blk k) a ∷ r)
        (slice-file_bytes view blk (p + 1) (suc n) k (a + 1) (omega arith) (omega arith)
          (omega arith)))

-- The map takes the offsets from `p` up to `q` to the blocks that `blk` gives.
abbrev pub Mapped : (view : ℕ → Block) → Inode → (blk : ℕ → ℕ) (p q : ℕ) → Type 0
Mapped view inode blk p q =
    (o : ℕ) → p ≤ o → o < q → bmap view inode o ≡ ok (some (blk (o / block_sz)))

module _ (view : ℕ → Block) (inode : Inode) (blk : ℕ → ℕ) where
  read_from-file_bytes :
      (k : ℕ) (s : Fs) (p left count : ℕ)
      → IsCoherent view s
      → Mapped view inode blk p (p + left)
      → left ≤ count
      → 0 < count
      → left < k
      → (t : Fs) × (read_from k inode p left count s
          ≡ ok ((pos count, file_bytes view blk p left), t))
        × IsCoherent view t
        × Frame s t
  unfolding read_from
  read_from-file_bytes zero s p left count c m h z f = absurd (omega arith)
  read_from-file_bytes (suc k) s p zero count c m h z f =
      (s, let e : count - 0 ≡ count = omega arith in rw (e, ==_ne count 0 (omega arith)), c, refl)
  read_from-file_bytes (suc k) s p (suc l) count c m h z f =
      let left = suc l in
      let chars = min (block_sz - p % block_sz) left in
      let n = blk (p / block_sz) in
      let (id, t, b, run, c₁, held, v, f₁) =
        inode_get_blk-bmap view s inode p n c (m p (omega arith) (omega arith)) in
      let (u, run', c₂, _, f₂) = brelse-IsCoherent view t id n b c₁ held in
      let (w, run'', c₃, f₃) =
        read_from-file_bytes k u (p + chars) (left - chars) count c₂
          (λ o a b. m o (omega arith) (omega arith)) (omega arith) z (omega arith) in
      (
        w,
        rw (==_ne (suc l) 0 (omega arith), run, get_buf-ok id t b held.found, run', run'', v)
            (ap (λ l. ok ((pos count, l), w))
              (ap (λ l. l ++ file_bytes view blk (p + chars) (left - chars))
                  (slice-file_bytes view blk p chars (p / block_sz) (p % block_sz) refl refl
                    (omega arith))
                ∙ sym (file_bytes-append view blk p chars (left - chars))
                ∙ ap (file_bytes view blk p) {x = chars + (left - chars)} {y = left}
                    (omega arith))),
        c₃,
        Frame-trans s t w f₁ (Frame-trans t u w f₂ f₃),
      )

  -- Over coherent buffers, `minix_read` of a live inode, at offsets that `bmap` covers, returns
  -- the number of bytes asked for and stores exactly the bytes of the blocks that `bmap` gives, in order; the content
  -- of every block is unchanged, and so is everything but the buffer list and the device.
  pub minix_read-file_bytes :
      (s : Fs) (id p count : ℕ)
      → get_ref id s ≡ ok (inode, s)
      → IsCoherent view s
      → Mapped view inode blk p (p + count)
      → 0 < count
      → (t : Fs) × (minix_read id p count s ≡ ok ((pos count, file_bytes view blk p count), t))
        × IsCoherent view t
        × Frame s t
  unfolding minix_read
  minix_read-file_bytes s id p count live c m z =
      let (t, run, rest, f) =
        read_from-file_bytes (count + 1) s p count count c m (omega arith) z (omega arith) in
      (t, rw (live, run), rest, f)

-- Over coherent buffers, `minix_read` of a live inode whose direct zones lie on the chip, in its direct
-- blocks, at any offset and across their bounds, returns the number of bytes asked for and stores
-- exactly the bytes of its zones at the offset, in order, also beyond `i_size`; the content of every
-- block is unchanged, and so is everything but the buffer list and the device.
pub minix_read-zones :
    (view : ℕ → Block) (inode : Inode) (s : Fs) (id p count : ℕ)
    → get_ref id s ≡ ok (inode, s)
    → IsCoherent view s
    → OnChip inode
    → p + count ≤ 7 * block_sz
    → 0 < count
    → (t : Fs) × (minix_read id p count s
        ≡ ok ((pos count, file_bytes view inode.i_data p count), t))
      × IsCoherent view t
      × Frame s t
minix_read-zones view inode s id p count live c on h z =
    minix_read-file_bytes view inode inode.i_data s id p count live c
      (λ o a b. bmap-direct view inode o (omega (arith, b, h))) z
