-- ===== src/Fs/Init.antt =====
-- fs/fs.c: `init_fs` mounts the device and finds the root directory. The objects that it allocates
-- for the one device and the one super block are part of `Fs`.
use nbos.Base.{ℕ, M, ok, ◌>>=◌, ◌>>◌}
use nbos.Fs.{Fs}
use nbos.Fs.Inodes.{minix_iget}
use nbos.Fs.Minix.{minix_fill_super}

abbrev pub minix_root_ino : ℕ
minix_root_ino = 1

unfoldable pub init_fs : M Fs (Unit {0})
init_fs = do
  minix_fill_super
  root ← minix_iget minix_root_ino
  λ s. ok (tt, record s { root_inode = root })
