-- ===== src/Fs.antt =====
-- include/fs/fs.h and include/fs/minix_fs.h: the data of the file system. There is one block device
-- (`init_fs` makes the only one) and one super block, so the tests `bh->bd == bd` and
-- `inode->sb == sb` always hold and are left out. Objects from `kmalloc` are named by a number,
-- `next` being the first that is not in use.
pub mod Buffer
pub mod Layout
pub mod Inodes
pub mod Minix
pub mod Name
pub mod Files
pub mod Init
pub mod Seek
pub mod Frame
pub mod Pflash
pub mod Print
use nbos.Base.{ℕ, ◌+◌, ◌/◌, ◌%◌, ◌^◌, ◌==◌, Bool, List, Option, M, ok}

-- The bytes of a block, or of any buffer, by their offsets.
abbrev pub Block : Type 0
Block = ℕ → ℕ

abbrev pub block_sz : ℕ
block_sz = 1024

-- `struct buffer_head`; `dirty` is `b_state == BH_Dirty`.
pub record Buf : Type 0 where
  pub id : ℕ
  pub blk_no : ℕ
  pub dirty : Bool
  pub bytes : Block

-- `i_op`: not set, `minix_inode_operations`, `minix_dir_inode_operations`
pub data InodeOps : Type 0 where
  no_ops file_ops dir_ops : InodeOps

-- `struct minix_inode_info` with the `struct inode` inside it. `live` is false once it is freed;
-- `is_new` is the flag `I_NEW` of `i_state`, the only one.
pub record Inode : Type 0 where
  pub id : ℕ
  pub live : Bool
  pub i_mode : ℕ
  pub i_uid : ℕ
  pub i_gid : ℕ
  pub i_size : ℕ
  pub i_atime : ℕ
  pub i_mtime : ℕ
  pub i_ctime : ℕ
  pub is_new : Bool
  pub i_nlink : ℕ
  pub i_ino : ℕ
  pub i_op : InodeOps
  pub i_count : ℕ
  pub i_data : ℕ → ℕ

-- `struct minix_sb_info`
pub record Super : Type 0 where
  pub s_ninodes : ℕ
  pub s_nzones : ℕ
  pub s_imap_blocks : ℕ
  pub s_zmap_blocks : ℕ
  pub s_firstdatazone : ℕ
  pub s_log_zone_size : ℕ
  pub s_max_size : ℕ
  pub s_imap : List ℕ
  pub s_zmap : List ℕ
  pub s_sbh : ℕ

-- `struct file`
pub record File : Type 0 where
  pub f_inode : ℕ
  pub f_count : ℕ
  pub f_flags : ℕ
  pub f_pos : ℕ

-- `disk` is the device behind `blkdev_op`, block by block; `bufs` is the list at `bh_head` and
-- `inodes` the one at `s_inodes`, each from its head on. `filp` is the array of the current task,
-- by indices of `file_tbl`. `junk` is what freshly allocated memory holds.
pub record Fs : Type 0 where
  pub disk : ℕ → Block
  pub bufs : List Buf
  pub next : ℕ
  pub junk : ℕ
  pub sb : Super
  pub inodes : List Inode
  pub root_inode : Option ℕ
  pub file_tbl : List File
  pub filp : List (Option ℕ)
