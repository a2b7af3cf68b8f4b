-- ===== src/Fs/Buffer/Coherent.antt =====
-- The buffer list over the device stands for one content of every block, which the operations keep.
use nbos.Base.{
  ℕ, ◌+◌, ◌≤◌, ◌<◌, ◌≡◌, refl, sym, ap, ◌∙◌, true, false, Bool, ◌||◌, ◌&&◌, subst, some-inj, ◌==◌,
  if◌then◌else◌, List, [], ◌∷◌, Option, none, some, arith, ok, ==_refl, Bool-cases, inl, inr, ==→eq,
}
use nbos.Fs.{Fs, Buf, Block}
use nbos.Fs.Buffer.{get_buf-ok, find_buf, remove_buf, find_blk, get_blk, put_block, brelse}

-- A buffer of the block holds changes.
abbrev pub has_dirty : ℕ → List Buf → Bool
has_dirty n [] = false
has_dirty n (b ∷ bs) = (b.dirty && (b.blk_no == n)) || has_dirty n bs

abbrev pub has_id : ℕ → List Buf → Bool
has_id id [] = false
has_id id (b ∷ bs) = (b.id == id) || has_id id bs

-- Every buffer holds the content of its block, and the names are distinct and in use.
abbrev pub BufsAgree : (ℕ → Block) → ℕ → List Buf → Type 0
BufsAgree view next [] = Unit
BufsAgree view next (b ∷ bs) =
    (b.bytes ≡ view b.blk_no) × (b.id < next) × (has_id b.id bs ≡ false) × BufsAgree view next bs

-- `view` is the content of every block: the buffers hold it, and the device does wherever no buffer
-- has changes.
pub record IsCoherent (view : ℕ → Block) (s : Fs) : Type 0 where
  pub agree : BufsAgree view s.next s.bufs
  pub backed : (n : ℕ) → has_dirty n s.bufs ≡ false → s.disk n ≡ view n

-- The buffer `id` is in the list, for block `n`.
pub record Holds (s : Fs) (id n : ℕ) (b : Buf) : Type 0 where
  pub found : find_buf id s.bufs ≡ some b
  pub named : b.id ≡ id
  pub block : b.blk_no ≡ n

agree_mono :
    (view : ℕ → Block) (m : ℕ) (bs : List Buf) → BufsAgree view m bs → BufsAgree view (m + 1) bs
agree_mono view m [] a = tt
agree_mono view m (b ∷ bs) (e, l, d, a) = (e, omega arith, d, agree_mono view m bs a)

fresh_id :
    (view : ℕ → Block) (m : ℕ) (bs : List Buf) (id : ℕ)
    → BufsAgree view m bs
    → m ≤ id
    → has_id id bs ≡ false
fresh_id view m [] id a h = refl
fresh_id view m (b ∷ bs) id (e, l, d, a) h = ground (arith, fresh_id view m bs id a h)

-- What `find_blk` finds can be found by its name.
find_blk-Holds :
    (view : ℕ → Block) (m n : ℕ) (bs : List Buf) (b : Buf)
    → BufsAgree view m bs
    → find_blk n bs ≡ some b
    → (find_buf b.id bs ≡ some b) × (b.blk_no ≡ n) × (b.bytes ≡ view n) × (has_id b.id bs ≡ true)
find_blk-Holds view m n [] b a h = absurd (ground arith)
find_blk-Holds view m n (c ∷ bs) b (e, l, d, a) h = elim (Bool-cases (c.blk_no == n)) [
  | inl hit ↦
      subst
        (λ (z : Buf).
          (find_buf z.id (c ∷ bs) ≡ some z)
          × (z.blk_no ≡ n)
          × (z.bytes ≡ view n)
          × (has_id z.id (c ∷ bs) ≡ true))
        (some-inj (rw hit at h))
        (
          ground (arith, ==_refl c.id),
          ==→eq c.blk_no n hit,
          e ∙ ap view (==→eq c.blk_no n hit),
          ground (arith, ==_refl c.id),
        )
  | inr miss ↦
      let (f, g, v, i) = find_blk-Holds view m n bs b a (rw miss at h) in
      (ground arith, g, v, ground arith)
]

none_dirty : (n : ℕ) (bs : List Buf) → find_blk n bs ≡ none → has_dirty n bs ≡ false
none_dirty n [] h = refl
none_dirty n (b ∷ bs) h = ground (arith, none_dirty n bs)

-- What a call leaves alone: all but the buffers, the device and the names in use.
abbrev pub Frame : Fs → Fs → Type 0
Frame s t = t ≡ record s { disk = t.disk; bufs = t.bufs; next = t.next }

pub Frame-trans : (s t u : Fs) → Frame s t → Frame t u → Frame s u
Frame-trans s t u f g =
    g ∙ ap (λ (z : Fs). record z { disk = u.disk; bufs = u.bufs; next = u.next }) f

-- `get_blk` succeeds and returns a buffer for the block that holds the block's content; coherence is
-- kept, and only the buffer list changes.
pub get_blk-IsCoherent :
    (view : ℕ → Block) (s : Fs) (n : ℕ)
    → IsCoherent view s
    → (id : ℕ) × (t : Fs) × (b : Buf) × (get_blk n s ≡ ok (id, t))
      × IsCoherent view t
      × Holds t id n b
      × (b.bytes ≡ view n)
      × Frame s t
unfolding get_blk
get_blk-IsCoherent view s n c = go (find_blk n s.bufs) refl
  where
    go :
        (r : Option Buf)
        → find_blk n s.bufs ≡ r
        → (id : ℕ) × (t : Fs) × (b : Buf) × (get_blk n s ≡ ok (id, t))
          × IsCoherent view t
          × Holds t id n b
          × (b.bytes ≡ view n)
          × Frame s t
    go (some b) e =
        let (f, g, v, _) = find_blk-Holds view s.next n s.bufs b c.agree e in
        (b.id, s, b, rw (e, get_blk), c, record { found = f; named = refl; block = g }, v, refl)
    go none e =
        let same : s.disk n ≡ view n = c.backed n (none_dirty n s.bufs e) in
        let b : Buf = record { id = s.next; blk_no = n; dirty = false; bytes = s.disk n } in
        (
          s.next,
          record s { bufs = b ∷ s.bufs; next = s.next + 1 },
          b,
          rw (e, get_blk),
          record {
            agree = (
              same,
              omega arith,
              fresh_id view s.next s.bufs s.next c.agree (omega arith),
              agree_mono view s.next s.bufs c.agree,
            );
            backed = c.backed;
          },
          record { found = rw (==_refl s.next); named = refl; block = refl },
          same,
          refl,
        )

pub find_buf-agree :
    (view : ℕ → Block) (m id : ℕ) (bs : List Buf) (b : Buf)
    → BufsAgree view m bs
    → find_buf id bs ≡ some b
    → b.bytes ≡ view b.blk_no
find_buf-agree view m id [] b a h = absurd (ground arith)
find_buf-agree view m id (c ∷ bs) b (e, l, d, a) h = elim (Bool-cases (c.id == id)) [
  | inl hit ↦ subst (λ (z : Buf). z.bytes ≡ view z.blk_no) (some-inj (rw hit at h)) e
  | inr miss ↦ find_buf-agree view m id bs b a (rw miss at h)
]

has_id-remove :
    (id j : ℕ) (bs : List Buf) → has_id j bs ≡ false → has_id j (remove_buf id bs) ≡ false
has_id-remove id j [] h = refl
has_id-remove id j (b ∷ bs) h = ground (arith, has_id-remove id j bs)

pub remove-agree :
    (view : ℕ → Block) (m id : ℕ) (bs : List Buf)
    → BufsAgree view m bs
    → BufsAgree view m (remove_buf id bs)
remove-agree view m id [] a = tt
remove-agree view m id (b ∷ bs) (e, l, d, a) = elim (Bool-cases (b.id == id)) [
  | inl hit ↦ rw hit a
  | inr miss ↦ rw miss (e, l, has_id-remove id b.id bs d, remove-agree view m id bs a)
]

-- Taking a buffer away takes at most its own changes away.
pub has_dirty-remove :
    (k id : ℕ) (bs : List Buf) (b : Buf)
    → find_buf id bs ≡ some b
    → has_dirty k (remove_buf id bs) ≡ false
    → (b.dirty && (b.blk_no == k)) ≡ false
    → has_dirty k bs ≡ false
has_dirty-remove k id [] b f h e = refl
has_dirty-remove k id (c ∷ bs) b f h e = elim (Bool-cases (c.id == id)) [
  | inl hit ↦
      let same : c ≡ b = some-inj (rw hit at f) in
      let clean : (c.dirty && (c.blk_no == k)) ≡ false =
        subst (λ (z : Buf). (z.dirty && (z.blk_no == k)) ≡ false) (sym same) e in
      rw clean (rw hit at h)
  | inr miss ↦ ground (arith, has_dirty-remove k id bs b)
]

abbrev written : Buf → (ℕ → Block) → ℕ → Block
written b disk = if b.dirty then put_block disk b.blk_no b.bytes else disk

-- `brelse` of a buffer in the list returns 0; the block's content is on the device or in another
-- buffer afterwards: coherence with the same content is kept, and the buffer is gone.
pub brelse-IsCoherent :
    (view : ℕ → Block) (s : Fs) (id n : ℕ) (b : Buf)
    → IsCoherent view s
    → Holds s id n b
    → (t : Fs) × (brelse id s ≡ ok (0, t))
      × IsCoherent view t
      × (t.bufs ≡ remove_buf id s.bufs)
      × Frame s t
unfolding brelse
brelse-IsCoherent view s id n b c h = (
  record s { disk = written b s.disk; bufs = remove_buf id s.bufs },
  rw (get_buf-ok id s b h.found),
  record { agree = remove-agree view s.next id s.bufs c.agree; backed = λ k clean. backs k clean },
  refl,
  refl,
)
  where
    backs : (k : ℕ) → has_dirty k (remove_buf id s.bufs) ≡ false → written b s.disk k ≡ view k
    backs k clean = elim (Bool-cases (b.dirty && (b.blk_no == k))) [
      | inl changed ↦ ground (arith, find_buf-agree view s.next id s.bufs b c.agree h.found)
      | inr same ↦ ground (arith, c.backed k, has_dirty-remove k id s.bufs b h.found clean same)
    ]
