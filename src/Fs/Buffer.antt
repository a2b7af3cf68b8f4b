-- ===== src/Fs/Buffer.antt =====
-- fs/fs.c: the list of buffer heads, over the device operations `read` and `write`, which move one
-- block (`Fs.Pflash` has their code).
pub mod Coherent
pub mod Single
use nbos.Base.{
  ℕ, suc, ◌+◌, Bool, true, false, ◌==◌, if◌then◌else◌, List, [], ◌∷◌, Option, none, some, M, ok,
  fault, pure, ◌>>=◌, ◌>>◌, ◌≡◌,
}
use nbos.Fs.{Fs, Buf, Block}

abbrev pub find_buf : ℕ → List Buf → Option Buf
find_buf id [] = none
find_buf id (b ∷ bs) = if b.id == id then some b else find_buf id bs

abbrev pub remove_buf : ℕ → List Buf → List Buf
remove_buf id [] = []
remove_buf id (b ∷ bs) = if b.id == id then bs else b ∷ remove_buf id bs

abbrev pub replace_buf : ℕ → Buf → List Buf → List Buf
replace_buf id c [] = []
replace_buf id c (b ∷ bs) = if b.id == id then c ∷ bs else b ∷ replace_buf id c bs

-- The walk of `get_blk`: the first buffer of the block.
abbrev pub find_blk : ℕ → List Buf → Option Buf
find_blk blk_no [] = none
find_blk blk_no (b ∷ bs) = if b.blk_no == blk_no then some b else find_blk blk_no bs

-- What a pointer to a buffer head leads to; one that was released is a fault.
unfoldable pub get_buf : ℕ → M Fs Buf
get_buf id s = elim (find_buf id s.bufs) [ none ↦ fault | some b ↦ ok (b, s) ]

pub get_buf-ok :
    (id : ℕ) (s : Fs) (b : Buf) → find_buf id s.bufs ≡ some b → get_buf id s ≡ ok (b, s)
unfolding get_buf
get_buf-ok id s b e = rw (e, get_buf)

-- A new buffer for the block, read from the device, at the front of the list. Behind the last block
-- of the chip, 65535, the code faults; here the device has a block for every number.
unfoldable pub bread : ℕ → M Fs ℕ
bread blk_no s =
    let bh : Buf = record { id = s.next; blk_no = blk_no; dirty = false; bytes = s.disk blk_no } in
    ok (s.next, record s { bufs = bh ∷ s.bufs; next = s.next + 1 })

unfoldable pub get_blk : ℕ → M Fs ℕ
unfolding bread
get_blk blk_no s = elim (find_blk blk_no s.bufs) [ some b ↦ ok (b.id, s) | none ↦ bread blk_no s ]

abbrev pub put_block : (ℕ → Block) → ℕ → Block → ℕ → Block
put_block disk n b k = if k == n then b else disk k

-- A dirty buffer is written to the device first.
unfoldable pub brelse : ℕ → M Fs ℕ
brelse id = do
  bh ← get_buf id
  λ s. ok (
    0,
    record s {
      disk = if bh.dirty then put_block s.disk bh.blk_no bh.bytes else s.disk;
      bufs = remove_buf id s.bufs;
    },
  )

-- Stores through `bh->data`, and `mark_buffer_dirty`.
unfoldable pub write_buf : (id : ℕ) → (Block → Block) → M Fs (Unit {0})
write_buf id change = do
  bh ← get_buf id
  λ s. ok (tt, record s { bufs = replace_buf id (record bh { bytes = change bh.bytes }) s.bufs })

unfoldable pub mark_buffer_dirty : ℕ → M Fs (Unit {0})
mark_buffer_dirty id = do
  bh ← get_buf id
  λ s. ok (tt, record s { bufs = replace_buf id (record bh { dirty = true }) s.bufs })

-- Stores through `bh->data`, `mark_buffer_dirty(bh)` and `brelse(bh)`, as every writer ends.
unfoldable pub store_through : (id : ℕ) → (Block → Block) → M Fs ℕ
store_through id change = do write_buf id change; mark_buffer_dirty id; brelse id
