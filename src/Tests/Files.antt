-- ===== src/Tests/Files.antt =====
-- A file of the Minix file system in blocks 20 to 26, the blocks of the device being numbered bytes.
use nbos.Base.{
  ℕ, ◌+◌, ◌*◌, ◌/◌, ◌<◌, ◌≤◌, ◌≡◌, refl, arith, true, false, ◌==◌, if◌then◌else◌, [], ◌∷◌, none,
  some, ok,
}
use nbos.Base.Int.{ℤ, pos, negsuc, ◌+ℤ◌}
use nbos.Fs.Files.{file_lseek}
use nbos.Fs.Seek.{Sought, from_end, file_lseek-Sought}
use nbos.Fs.{Fs, File, Inode, Super, Buf, Block, block_sz, file_ops}
use nbos.Fs.Buffer.{get_blk, store_through, remove_buf, put_block}
use nbos.Fs.Buffer.Coherent.{IsCoherent, Holds, Frame, get_blk-IsCoherent}
use nbos.Fs.Buffer.Single.{IsSingle, store_through-IsCoherent}
use nbos.Fs.Inodes.{get_ref}
use nbos.Fs.Minix.{inode_get_blk, minix_read, minix_write}
use nbos.Fs.Minix.Map.{OnChip, inode_get_blk-direct}
use nbos.Fs.Minix.Read.{file_bytes, minix_read-zones}
use nbos.Fs.Minix.Write.{put_bytes, minix_write-put_bytes}
use nbos.Fs.Minix.RoundTrip.{minix_read-minix_write}

abbrev pub inode : Inode
inode = record {
  id = 5;
  live = true;
  i_mode = 0x81a4;
  i_uid = 0;
  i_gid = 0;
  i_size = 3000;
  i_atime = 0;
  i_mtime = 0;
  i_ctime = 0;
  is_new = false;
  i_nlink = 1;
  i_ino = 2;
  i_op = file_ops;
  i_count = 1;
  i_data = λ k. 20 + k;
}

abbrev device : ℕ → Block
device n i = n

abbrev super : Super
super = record {
  s_ninodes = 32;
  s_nzones = 100;
  s_imap_blocks = 1;
  s_zmap_blocks = 1;
  s_firstdatazone = 5;
  s_log_zone_size = 0;
  s_max_size = 7168;
  s_imap = [];
  s_zmap = [];
  s_sbh = 0;
}

abbrev file : File
file = record { f_inode = 5; f_count = 1; f_flags = 0; f_pos = 100 }

-- One buffer, for block 20.
abbrev buf : Buf
buf = record { id = 0; blk_no = 20; dirty = false; bytes = device 20 }

abbrev pub fs : Fs
fs = record {
  disk = device;
  bufs = buf ∷ [];
  next = 1;
  junk = 0;
  sb = super;
  inodes = inode ∷ [];
  root_inode = none;
  file_tbl = file ∷ [];
  filp = some 0 ∷ none ∷ [];
}

fs-IsCoherent : IsCoherent device fs
fs-IsCoherent = record { agree = (refl, omega arith, refl, tt); backed = λ n h. refl }

buf-Holds : Holds fs 0 20 buf
buf-Holds = record { found = refl; named = refl; block = refl }

fs-IsSingle : IsSingle 20 fs
fs-IsSingle n h = ground arith

live : get_ref 5 fs ≡ ok (inode, fs)
unfolding get_ref
live = refl

get_blk-IsCoherent_example :
    (id : ℕ) × (t : Fs) × (b : Buf) × (get_blk 21 fs ≡ ok (id, t))
    × IsCoherent device t
    × Holds t id 21 b
    × (b.bytes ≡ device 21)
    × Frame fs t
get_blk-IsCoherent_example = get_blk-IsCoherent device fs 21 fs-IsCoherent

-- A store to the first byte of a block.
abbrev first_byte : Block → Block
first_byte b i = if i == 0 then 7 else b i

store_through-IsCoherent_example :
    (t : Fs) × (store_through 0 first_byte fs ≡ ok (0, t))
    × IsCoherent (put_block device 20 (first_byte (device 20))) t
    × (t.bufs ≡ remove_buf 0 fs.bufs)
    × Frame fs t
store_through-IsCoherent_example =
    store_through-IsCoherent device fs 0 20 buf first_byte fs-IsCoherent buf-Holds (omega arith)

on_chip : OnChip inode
on_chip k h = omega (arith, h)

inode_get_blk-direct_example :
    (2000 < 7 * block_sz
      → (id : ℕ) × (t : Fs) × (b : Buf) × (inode_get_blk inode 2000 fs ≡ ok (some id, t))
        × IsCoherent device t
        × Holds t id (inode.i_data (2000 / block_sz)) b
        × (b.bytes ≡ device (inode.i_data (2000 / block_sz)))
        × Frame fs t)
    × ((7 + 512 + 512 * 512) * block_sz ≤ 2000 → inode_get_blk inode 2000 fs ≡ ok (none, fs))
inode_get_blk-direct_example = inode_get_blk-direct device fs inode 2000 fs-IsCoherent on_chip

-- Across the boundary of two blocks.
minix_read-zones_example :
    (t : Fs) × (minix_read 5 1022 4 fs ≡ ok ((pos 4, file_bytes device inode.i_data 1022 4), t))
    × IsCoherent device t
    × Frame fs t
minix_read-zones_example =
    minix_read-zones device inode fs 5 1022 4 live fs-IsCoherent on_chip (omega arith) (omega arith)

minix_write-put_bytes_example :
    (t : Fs) × (minix_write 5 (1 ∷ 2 ∷ 3 ∷ []) 1022 3 fs ≡ ok (pos 3, t))
    × IsCoherent (put_bytes device inode.i_data 1022 (1 ∷ 2 ∷ 3 ∷ [])) t
    × IsSingle 20 t
    × Frame fs t
minix_write-put_bytes_example =
    minix_write-put_bytes inode 20 (λ k l. omega arith) device fs 5 (1 ∷ 2 ∷ 3 ∷ []) 1022 3 live
      fs-IsCoherent fs-IsSingle refl (omega arith) (omega arith)

minix_read-minix_write_example :
    (t : Fs) × (u : Fs) × (minix_write 5 (1 ∷ 2 ∷ 3 ∷ []) 1022 3 fs ≡ ok (pos 3, t))
    × (minix_read 5 1022 3 t ≡ ok ((pos 3, 1 ∷ 2 ∷ 3 ∷ []), u))
minix_read-minix_write_example =
    minix_read-minix_write inode 20 device fs 5 (1 ∷ 2 ∷ 3 ∷ []) 1022 3 (λ k l. omega arith)
      (λ j k a b e. omega (arith, e)) live fs-IsCoherent fs-IsSingle refl (omega arith)
      (omega arith)

-- From the end of the file.
file_lseek-Sought_example :
    (r : ℤ) × (t : Fs) × (file_lseek 0 (negsuc 9) 2 fs ≡ ok (r, t))
    × Sought fs t 0 file inode (pos inode.i_size +ℤ negsuc 9) r
file_lseek-Sought_example =
    file_lseek-Sought fs 0 (negsuc 9) 2 file inode (pos inode.i_size +ℤ negsuc 9) refl live
      (omega arith) (omega arith) from_end refl
