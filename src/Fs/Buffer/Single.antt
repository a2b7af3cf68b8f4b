-- ===== src/Fs/Buffer/Single.antt =====
-- Blocks that have at most one buffer: changes to them are changes of the content.
use nbos.Base.{
  ℕ, ◌+◌, ◌≤◌, ◌≡◌, refl, ap, ◌∙◌, true, false, ◌==◌, if◌then◌else◌, List, [], ◌∷◌, Option, none,
  some, arith, ok, ==_refl, Bool-cases, inl, inr, ==→eq, some-inj, subst,
}
use nbos.Fs.{Fs, Buf, Block}
use nbos.Fs.Buffer.{
  find_buf, remove_buf, replace_buf, find_blk, get_buf-ok, get_blk, put_block, brelse, write_buf,
  mark_buffer_dirty, store_through,
}
use nbos.Fs.Buffer.Coherent.{
  IsCoherent, BufsAgree, Holds, Frame, has_dirty, find_buf-agree, remove-agree, has_dirty-remove,
}

abbrev pub count_blk : ℕ → List Buf → ℕ
count_blk n [] = 0
count_blk n (b ∷ bs) = (if b.blk_no == n then 1 else 0) + count_blk n bs

-- From block `lo` on no block has two buffers.
abbrev pub IsSingle : ℕ → Fs → Type 0
IsSingle lo s = (n : ℕ) → lo ≤ n → count_blk n s.bufs ≤ 1

count-none : (n : ℕ) (bs : List Buf) → find_blk n bs ≡ none → count_blk n bs ≡ 0
count-none n [] h = refl
count-none n (b ∷ bs) h = ground (arith, count-none n bs)

pub get_blk-IsSingle :
    (lo n id : ℕ) (s t : Fs) → IsSingle lo s → get_blk n s ≡ ok (id, t) → IsSingle lo t
get_blk-IsSingle lo n id s t h e k l = go (find_blk n s.bufs) refl
  where
    added :
        (k : ℕ)
        → lo ≤ k
        → count_blk n s.bufs ≡ 0
        → (if n == k then 1 else 0) + count_blk k s.bufs ≤ 1
    added k l z = elim (Bool-cases (n == k)) [
      | inl eq ↦ rw eq (ground (arith, ap (λ j. count_blk j s.bufs) (==→eq n k eq)))
      | inr ne ↦ rw ne (omega (arith, h k l))
    ]

    go : (r : Option Buf) → find_blk n s.bufs ≡ r → count_blk k t.bufs ≤ 1
    go (some b) f =
        let run : get_blk n s ≡ ok (b.id, s) = unfold get_blk in rw (f, get_blk) in
        let same : s ≡ t = cc in subst (λ (z : Fs). count_blk k z.bufs ≤ 1) same (h k l)
    go none f =
        let u : Fs = record s {
          bufs = record { id = s.next; blk_no = n; dirty = false; bytes = s.disk n } ∷ s.bufs;
          next = s.next + 1;
        } in
        let run : get_blk n s ≡ ok (s.next, u) = unfold get_blk in rw (f, get_blk) in
        let same : u ≡ t = cc in
        subst (λ (z : Fs). count_blk k z.bufs ≤ 1) same (added k l (count-none n s.bufs f))

count-remove :
    (n id : ℕ) (bs : List Buf) (b : Buf)
    → find_buf id bs ≡ some b
    → count_blk n (remove_buf id bs) + (if b.blk_no == n then 1 else 0) ≡ count_blk n bs
count-remove n id [] b f = absurd (ground arith)
count-remove n id (c ∷ bs) b f = elim (Bool-cases (c.id == id)) [
  | inl hit ↦ rw hit (
      subst (λ (z : Buf). count_blk n bs + (if z.blk_no == n then 1 else 0) ≡ count_blk n (c ∷ bs))
        (some-inj (rw hit at f)) (omega arith))
  | inr miss ↦ ground (arith, count-remove n id bs b)
]

-- Where no buffer is for the block, its content may change.
agree-other :
    (view : ℕ → Block) (m n : ℕ) (x : Block) (bs : List Buf)
    → BufsAgree view m bs
    → count_blk n bs ≡ 0
    → BufsAgree (put_block view n x) m bs
agree-other view m n x [] a h = tt
agree-other view m n x (b ∷ bs) (e, l, d, a) h =
    (ground arith, l, d, agree-other view m n x bs a (ground arith))

find-replace :
    (id : ℕ) (bs : List Buf) (b c : Buf)
    → find_buf id bs ≡ some b
    → c.id ≡ id
    → find_buf id (replace_buf id c bs) ≡ some c
find-replace id [] b c f e = absurd (ground arith)
find-replace id (d ∷ bs) b c f e = ground (arith, find-replace id bs b c)

remove-replace :
    (id : ℕ) (bs : List Buf) (c : Buf)
    → c.id ≡ id
    → remove_buf id (replace_buf id c bs) ≡ remove_buf id bs
remove-replace id [] c e = refl
remove-replace id (d ∷ bs) c e = ground (arith, remove-replace id bs c)

-- What `store_through` leaves.
abbrev pub stored : Fs → ℕ → Buf → (Block → Block) → Fs
stored s id b change = record s {
  disk = put_block s.disk b.blk_no (change b.bytes);
  bufs = remove_buf id s.bufs;
}

pub store_through-ok :
    (s : Fs) (id : ℕ) (b : Buf) (change : Block → Block)
    → find_buf id s.bufs ≡ some b
    → b.id ≡ id
    → store_through id change s ≡ ok (0, stored s id b change)
unfolding store_through write_buf mark_buffer_dirty brelse
store_through-ok s id b change f e =
    let c : Buf = record b { bytes = change b.bytes } in
    let d : Buf = record c { dirty = true } in
    let s₁ : Fs = record s { bufs = replace_buf id c s.bufs } in
    let s₂ : Fs = record s { bufs = replace_buf id d (replace_buf id c s.bufs) } in
    let f₁ : find_buf id s₁.bufs ≡ some c = find-replace id s.bufs b c f e in
    let f₂ : find_buf id s₂.bufs ≡ some d = find-replace id s₁.bufs c d f₁ e in
    rw (
      get_buf-ok id s b f,
      get_buf-ok id s₁ c f₁,
      get_buf-ok id s₂ d f₂,
      remove-replace id s₁.bufs d e,
      remove-replace id s.bufs c e,
    )

-- A change of a block that has one buffer, marked and released, succeeds and becomes the block's
-- content; the content of the other blocks is kept, the buffer is gone, and only the buffer list
-- and the device change.
pub store_through-IsCoherent :
    (view : ℕ → Block) (s : Fs) (id n : ℕ) (b : Buf) (change : Block → Block)
    → IsCoherent view s
    → Holds s id n b
    → count_blk n s.bufs ≤ 1
    → (t : Fs) × (store_through id change s ≡ ok (0, t))
      × IsCoherent (put_block view n (change (view n))) t
      × (t.bufs ≡ remove_buf id s.bufs)
      × Frame s t
store_through-IsCoherent view s id n b change c h one = (
  stored s id b change,
  store_through-ok s id b change h.found h.named,
  record {
    agree =
        agree-other view s.next n (change (view n)) (remove_buf id s.bufs)
          (remove-agree view s.next id s.bufs c.agree)
          (ground (arith, count-remove n id s.bufs b h.found, ==_refl n));
    backed = λ k clean. backs k clean;
  },
  refl,
  refl,
)
  where
    content : b.bytes ≡ view n
    content = find_buf-agree view s.next id s.bufs b c.agree h.found ∙ ap view h.block

    backs :
        (k : ℕ)
        → has_dirty k (remove_buf id s.bufs) ≡ false
        → put_block s.disk b.blk_no (change b.bytes) k ≡ put_block view n (change (view n)) k
    backs k clean =
        rw (h.block, content)
          (elim (Bool-cases (k == n)) [
            | inl eq ↦ rw eq
            | inr ne ↦
                rw ne (c.backed k (has_dirty-remove k id s.bufs b h.found clean (ground arith)))
          ])

-- Releasing a buffer leaves no block with more buffers.
pub remove-IsSingle :
    (lo id : ℕ) (s t : Fs) (b : Buf)
    → IsSingle lo s
    → find_buf id s.bufs ≡ some b
    → t.bufs ≡ remove_buf id s.bufs
    → IsSingle lo t
remove-IsSingle lo id s t b h f e n l = rw e (ground (arith, h n l, count-remove n id s.bufs b f))
