-- ===== src/Fs/Layout.antt =====
-- include/fs/minix_fs.h: where the fields of the on-disk structures lie, little endian.
use nbos.Base.{ℕ, ◌+◌, ◌*◌, ◌-◌, ◌/◌, ◌%◌, ◌^◌, Bool, ◌==◌, ltb, if◌then◌else◌}
use nbos.Fs.{Block, Super}

abbrev pub le16 : Block → ℕ → ℕ
le16 b a = b a + 2 ^ 8 * b (a + 1)

abbrev pub le32 : Block → ℕ → ℕ
le32 b a = le16 b a + 2 ^ 16 * le16 b (a + 2)

abbrev pub le64 : Block → ℕ → ℕ
le64 b a = le32 b a + 2 ^ 32 * le32 b (a + 4)

abbrev pub put8 : ℕ → ℕ → Block → Block
put8 a v b k = if k == a then v % 2 ^ 8 else b k

abbrev pub put16 : ℕ → ℕ → Block → Block
put16 a v b = put8 (a + 1) (v / 2 ^ 8) (put8 a v b)

abbrev pub put32 : ℕ → ℕ → Block → Block
put32 a v b = put16 (a + 2) (v / 2 ^ 16) (put16 a v b)

-- `sizeof (struct minix_inode)`
abbrev pub inode_sz : ℕ
inode_sz = 32

abbrev pub inodes_per_block : ℕ
inodes_per_block = 1024 / inode_sz

-- `S_ISDIR` and `S_ISREG`: the four bits from bit 12 on
abbrev pub is_dir : ℕ → Bool
is_dir mode = mode / 2 ^ 12 % 16 == 4

abbrev pub is_reg : ℕ → Bool
is_reg mode = mode / 2 ^ 12 % 16 == 8

-- `ino_to_blk_no`, as `minix_raw_inode` computes it too
unfoldable pub ino_to_blk_no : Super → ℕ → ℕ
ino_to_blk_no sb inode_no =
    2 + sb.s_imap_blocks + sb.s_zmap_blocks + (inode_no - 1) / inodes_per_block

-- `struct minix_inode` at offset `a`: the zone numbers
abbrev pub raw_zone : Block → ℕ → ℕ → ℕ
raw_zone b a k = if ltb k 9 then le16 b (a + 14 + 2 * k) else 0
