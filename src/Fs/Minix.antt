-- ===== src/Fs/Minix.antt =====
-- fs/minix_fs.c: the map from file offsets to blocks, directory lookup, reading, writing, and the
-- super block. Byte buffers of the caller are lists: what `minix_read` stores, and what
-- `minix_write` is given.
pub mod Map
pub mod Read
pub mod Write
pub mod Entry
pub mod RoundTrip
use nbos.Base.{
  ℕ, zero, suc, ◌+◌, ◌-◌, ◌*◌, ◌/◌, ◌%◌, ◌^◌, Bool, true, false, not, ◌==◌, ltb, leb, if◌then◌else◌,
  min, List, [], ◌∷◌, ◌++◌, take, drop, length, Option, none, some, M, Run, ok, fault, out_of_fuel,
  pure, raise, ◌>>=◌, ◌>>◌, deref, get_state, and_then,
}
use nbos.Base.Int.{ℤ, pos, negsuc}
use nbos.Str.{Reader, strlen, strcmp}
use nbos.Fs.{Fs, Inode, InodeOps, Block, Super, Buf, block_sz}
use nbos.Fs.Buffer.{bread, brelse, get_blk, get_buf, store_through}
use nbos.Fs.Layout.{le16, le32, le64, is_dir}
use nbos.Fs.Inodes.{get_ref, minix_iget}

-- `*addr` for an `unsigned long *addr` at an offset of a block: eight bytes.
unfoldable pub load_entry : (blk offset : ℕ) → M Fs ℕ
load_entry blk offset = do
  bh ← get_blk blk
  b ← get_buf bh
  if ltb block_sz (offset + 8) then raise else pure (le64 b.bytes offset)

-- `blk_no = *addr;`
unfoldable pub load_indirect : (blk offset : ℕ) → M Fs (Option ℕ)
load_indirect blk offset = do n ← load_entry blk offset; pure (some n)

-- The block number for a byte offset of the inode; `none` where the size is not supported.
unfoldable pub inode_blk_no : Inode → (offset : ℕ) → M Fs (Option ℕ)
inode_blk_no inode offset =
    let k = offset / block_sz in
    if ltb k 7
    then pure (some (inode.i_data k))
    else if ltb k (7 + 512)
    then load_indirect (inode.i_data 7) (2 * (k - 7))
    else if ltb k (7 + 512 + 512 * 512)
    then load_indirect (inode.i_data 8) (2 * (k - 7 - 512) / 512)
    else pure none

-- `none` is `NULL`.
unfoldable pub inode_get_blk : Inode → (offset : ℕ) → M Fs (Option ℕ)
inode_get_blk inode offset = do
  blk_no ← inode_blk_no inode offset
  elim blk_no [ none ↦ pure none | some n ↦ do bh ← get_blk n; pure (some bh) ]

abbrev pub name_len : ℕ
name_len = 30

abbrev pub dir_per_blk : ℕ
dir_per_blk = 32

-- The loop over the `n` directory entries from offset `a` of a block on: the inode number of the
-- first entry with the name. `fuel` is for `strcmp`.
unfoldable pub scan_block : (fuel n a : ℕ) → Reader → Block → Run (Option ℕ)
scan_block fuel zero a name b = ok none
scan_block fuel (suc n) a name b =
    let rest = scan_block fuel n (a + 32) name b in
    and_then (strcmp fuel name (λ i. b (a + 2 + i)))
      λ r. elim r [ pos zero ↦ ok (some (le16 b a)) | _ ↦ rest ]

-- The loop over the blocks of a directory, with `k` rounds of fuel.
unfoldable pub scan_dir : (fuel k offset : ℕ) → Inode → Reader → M Fs (Option ℕ)
unfolding scan_block
scan_dir fuel zero offset dir name = λ s. out_of_fuel
scan_dir fuel (suc k) offset dir name =
    let rest = scan_dir fuel k (offset + block_sz) dir name in
    let here = (do
      blk ← inode_get_blk dir offset
      bh ← deref blk
      b ← get_buf bh
      found ← λ s. and_then (scan_block fuel dir_per_blk 0 name b.bytes) λ r. ok (r, s)
      elim found [ none ↦ rest | some ino ↦ minix_iget ino ]) in
    if ltb offset dir.i_size then here else pure none

unfoldable pub minix_lookup : (fuel dir : ℕ) → Reader → M Fs (Option ℕ)
unfolding scan_dir
minix_lookup fuel dir name = do
  d ← get_ref dir
  if not (is_dir d.i_mode) then pure none else do
    n ← λ s. and_then (strlen fuel name) λ r. ok (r, s)
    if ltb name_len n then pure none else scan_dir fuel (d.i_size / block_sz + 2) 0 d name

-- `n` bytes of a block from offset `a` on
abbrev pub slice : Block → ℕ → ℕ → List ℕ
slice b a zero = []
slice b a (suc n) = b a ∷ slice b (a + 1) n

-- The loop of `minix_read`: the return value and the bytes stored. `left` falls in every round.
unfoldable pub read_from : (k : ℕ) → Inode → (p left count : ℕ) → M Fs (ℤ × List ℕ)
read_from zero inode p left count = λ s. out_of_fuel
read_from (suc k) inode p left count =
    let nr = p % block_sz in
    let chars = min (block_sz - nr) left in
    let rest = read_from k inode (p + chars) (left - chars) count in
    let round = (do
      blk ← inode_get_blk inode p
      elim blk [
        | none ↦ pure (negsuc 0, [])
        | some bh ↦ do
          b ← get_buf bh
          brelse bh
          (r, out) ← rest
          pure (r, slice b.bytes nr chars ++ out)
      ]) in
    if left == 0
    then pure ((if count - left == 0 then negsuc 0 else pos (count - left)), [])
    else round

unfoldable pub minix_read : (inode p count : ℕ) → M Fs (ℤ × List ℕ)
unfolding read_from
minix_read inode p count = do i ← get_ref inode; read_from (count + 1) i p count count

-- The bytes `src` are stored from offset `a` on.
abbrev pub paste : List ℕ → ℕ → Block → Block
paste [] a b = b
paste (c ∷ cs) a b = paste cs (a + 1) (λ i. if i == a then c else b i)

unfoldable pub write_from : (k : ℕ) → Inode → List ℕ → (p left count : ℕ) → M Fs ℤ
write_from zero inode buf p left count = λ s. out_of_fuel
write_from (suc k) inode buf p left count =
    let nr = p % block_sz in
    let chars = min (block_sz - nr) left in
    let rest = write_from k inode (drop chars buf) (p + chars) (left - chars) count in
    let round = (do
      blk ← inode_get_blk inode p
      elim blk [
        | none ↦ pure (negsuc 0)
        | some bh ↦ do store_through bh (paste (take chars buf) nr); rest
      ]) in
    if left == 0 then pure (if count - left == 0 then negsuc 0 else pos (count - left)) else round

unfoldable pub minix_write : (inode : ℕ) → List ℕ → (p count : ℕ) → M Fs ℤ
unfolding write_from
minix_write inode buf p count = do i ← get_ref inode; write_from (count + 1) i buf p count count

-- The loops of `init_minix_bitmap`.
unfoldable pub get_blks : (n blk : ℕ) → M Fs (List ℕ)
get_blks zero blk = pure []
get_blks (suc n) blk = do bh ← get_blk blk; rest ← get_blks n (blk + 1); pure (bh ∷ rest)

unfoldable pub init_minix_bitmap : M Fs (Unit {0})
unfolding get_blks
init_minix_bitmap = do
  s ← get_state
  imap ← get_blks s.sb.s_imap_blocks 2
  zmap ← get_blks s.sb.s_zmap_blocks (1 + s.sb.s_imap_blocks + 1)
  λ t. ok (tt, record t { sb = record t.sb { s_imap = imap; s_zmap = zmap } })

unfoldable pub minix_fill_super : M Fs (Unit {0})
unfolding init_minix_bitmap
minix_fill_super = do
  bh ← get_blk 1
  b ← get_buf bh
  λ s. ok (
    tt,
    record s {
      sb = record s.sb {
        s_ninodes = le16 b.bytes 0;
        s_nzones = le16 b.bytes 2;
        s_imap_blocks = le16 b.bytes 4;
        s_zmap_blocks = le16 b.bytes 6;
        s_firstdatazone = le16 b.bytes 8;
        s_log_zone_size = le16 b.bytes 10;
        s_max_size = le32 b.bytes 12;
        s_sbh = bh;
      };
      inodes = [];
    },
  )
  init_minix_bitmap

unfoldable pub brelse_all : List ℕ → M Fs (Unit {0})
brelse_all [] = pure tt
brelse_all (bh ∷ bhs) = do brelse bh; brelse_all bhs

unfoldable pub minix_put_super : M Fs (Unit {0})
unfolding brelse_all
minix_put_super = do
  s ← get_state
  brelse_all s.sb.s_imap
  brelse_all s.sb.s_zmap
  brelse s.sb.s_sbh
  pure tt
