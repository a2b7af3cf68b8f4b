-- ===== src/Fs/Inodes.antt =====
-- fs/fs.c and fs/minix_fs.c: inodes in memory, counted, and their copies on disk.
pub mod Raw
pub mod Count
pub mod Write
use nbos.Base.{
  ℕ, suc, ◌+◌, ◌-◌, ◌*◌, ◌%◌, true, false, not, ◌||◌, ◌==◌, ltb, if◌then◌else◌, List, [], ◌∷◌,
  Option, none, some, M, ok, fault, pure, ◌>>=◌, ◌>>◌, deref, get_state, Run, and_then,
}
use nbos.Base.Int.{ℤ, pos, negsuc}
use nbos.Fs.{Fs, Inode, InodeOps, no_ops, file_ops, dir_ops, Block}
use nbos.Fs.Buffer.{bread, get_buf, store_through}
use nbos.Fs.Layout.{
  le16, le32, put8, put16, put32, raw_zone, inode_sz, inodes_per_block, is_dir, is_reg,
  ino_to_blk_no,
}

abbrev pub find_inode : ℕ → List Inode → Option Inode
find_inode id [] = none
find_inode id (i ∷ is) = if i.id == id then some i else find_inode id is

abbrev pub replace_inode : ℕ → Inode → List Inode → List Inode
replace_inode id c [] = []
replace_inode id c (i ∷ is) = if i.id == id then c ∷ is else i ∷ replace_inode id c is

-- What a pointer to an inode leads to; a freed inode is a fault.
unfoldable pub get_ref : ℕ → M Fs Inode
get_ref id s = elim (find_inode id s.inodes) [
  | none ↦ fault
  | some i ↦ if i.live then ok (i, s) else fault
]

unfoldable pub put_ref : ℕ → Inode → M Fs (Unit {0})
put_ref id i s = ok (tt, record s { inodes = replace_inode id i s.inodes })

-- `minix_alloc_inode` and `get_new_inode`; the fields that are not set hold what the memory held.
unfoldable pub get_new_inode : ℕ → M Fs ℕ
get_new_inode ino s =
    let inode : Inode = record {
      id = s.next;
      live = true;
      i_mode = s.junk;
      i_uid = s.junk;
      i_gid = s.junk;
      i_size = s.junk;
      i_atime = s.junk;
      i_mtime = s.junk;
      i_ctime = s.junk;
      is_new = true;
      i_nlink = s.junk;
      i_ino = ino;
      i_op = no_ops;
      i_count = 1;
      i_data = λ k. s.junk;
    } in
    ok (s.next, record s { inodes = inode ∷ s.inodes; next = s.next + 1 })

-- The walk of `s_inodes` in `get_inode`. Each node is read, so a freed one on the way is a fault.
unfoldable pub find_ino : ℕ → List Inode → Run (Option Inode)
find_ino ino [] = ok none
find_ino ino (i ∷ is) =
    let rest = find_ino ino is in
    if not i.live then fault else if i.i_ino == ino then ok (some i) else rest

unfoldable pub get_inode : ℕ → M Fs ℕ
get_inode ino s = and_then (find_ino ino s.inodes) λ found. elim found [
  | none ↦ get_new_inode ino s
  | some i ↦ ok (
    i.id,
    record s { inodes = replace_inode i.id (record i { i_count = i.i_count + 1 }) s.inodes },
  )
]

-- The buffer with the inode's block, and the offset of the inode in it; `none` is `NULL`.
unfoldable pub minix_raw_inode : ℕ → M Fs (Option (ℕ × ℕ))
unfolding ino_to_blk_no
minix_raw_inode ino = do
  s ← get_state
  if (ino == 0) || ltb s.sb.s_ninodes ino then pure none else do
    bh ← bread (ino_to_blk_no s.sb ino)
    pure (some (bh, (ino - 1) % inodes_per_block * inode_sz))

abbrev pub ops_of : ℕ → InodeOps
ops_of mode = if is_dir mode then dir_ops else if is_reg mode then file_ops else no_ops

-- The fields that `minix_iget` fills from the raw inode at offset `a` of the block. `i_nlink` is not
-- among them.
unfoldable pub fill_inode : Block → ℕ → Inode → Inode
fill_inode b a i = record i {
  i_data = raw_zone b a;
  i_mode = le16 b a;
  i_uid = le16 b (a + 2);
  i_gid = b (a + 12);
  i_size = le32 b (a + 4);
  i_atime = le32 b (a + 8);
  i_ctime = le32 b (a + 8);
  i_mtime = le32 b (a + 8);
  i_op = ops_of (le16 b a);
  is_new = false;
}

-- The raw inode is not checked against `NULL`.
unfoldable pub fill_from_disk : ℕ → Inode → M Fs (Unit {0})
unfolding fill_inode
fill_from_disk ino i = do
  raw ← minix_raw_inode ino
  (bh, a) ← deref raw
  b ← get_buf bh
  put_ref i.id (fill_inode b.bytes a i)

unfoldable pub minix_iget : ℕ → M Fs (Option ℕ)
minix_iget ino = if ino == 0 then pure none else do
  id ← get_inode ino
  i ← get_ref id
  (if i.is_new then fill_from_disk ino i else pure tt)
  pure (some id)

-- The stores of `minix_write_inode` to the raw inode at offset `a`.
unfoldable pub zones_to_raw : (n k : ℕ) → ℕ → (ℕ → ℕ) → Block → Block
zones_to_raw ℕ.zero k a zones b = b
zones_to_raw (suc n) k a zones b =
    zones_to_raw n (k + 1) a zones (put16 (a + 14 + 2 * k) (zones k) b)

unfoldable pub inode_to_raw : ℕ → Inode → Block → Block
unfolding zones_to_raw
inode_to_raw a i b = zones_to_raw 9 0 a i.i_data (
    put32 (a + 8) i.i_mtime (
      put32 (a + 4) i.i_size (
        put8 (a + 13) i.i_nlink
          (put8 (a + 12) i.i_gid (put16 (a + 2) i.i_uid (put16 a i.i_mode b))))))

unfoldable pub minix_write_inode : ℕ → M Fs ℕ
unfolding inode_to_raw
minix_write_inode id = do
  i ← get_ref id
  raw ← minix_raw_inode i.i_ino
  elim raw [ none ↦ pure 0 | some (bh, a) ↦ do store_through bh (inode_to_raw a i); pure 0 ]

-- `minix_destroy_inode`: the memory is freed; the node stays in `s_inodes`.
unfoldable pub minix_destroy_inode : ℕ → M Fs (Unit {0})
unfolding get_ref put_ref
minix_destroy_inode id = do i ← get_ref id; put_ref id (record i { live = false })

unfoldable pub generic_drop_inode : ℕ → M Fs (Unit {0})
generic_drop_inode id = do minix_write_inode id; minix_destroy_inode id

unfoldable pub put_inode : ℕ → M Fs ℤ
put_inode id = do
  i ← get_ref id
  if i.i_count == 0 then pure (negsuc 0) else do
    put_ref id (record i { i_count = i.i_count - 1 })
    (if i.i_count - 1 == 0 then generic_drop_inode id else pure tt)
    pure (pos 0)
