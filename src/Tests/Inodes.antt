-- ===== src/Tests/Inodes.antt =====
-- The inode of `Files` that is in memory: it is read, counted, written back and freed.
use nbos.Base.{ℕ, ◌<◌, ◌≡◌, ◌≢◌, refl, arith, [], some, ok, fault}
use nbos.Base.Int.{pos}
use nbos.Fs.{Fs, Inode}
use nbos.Fs.Layout.{inode_sz, ino_to_blk_no}
use nbos.Fs.Inodes.{
  minix_iget, find_inode, find_ino, get_inode, put_inode, minix_write_inode, fill_inode,
}
use nbos.Fs.Inodes.Raw.{FitsRaw, Restored}
use nbos.Fs.Inodes.Write.{forgotten, raw_offset, raw_byte, minix_write_inode-Restored}
use nbos.Fs.Inodes.Count.{Without, put_inode-last}
use nbos.Tests.Files.{fs, inode}

inode-FitsRaw : FitsRaw inode
inode-FitsRaw = record {
  mode = omega arith;
  uid = omega arith;
  gid = omega arith;
  size = omega arith;
  mtime = omega arith;
  zones = λ k h. omega (arith, h);
}

minix_write_inode-Restored_example :
    (t : Fs) × (minix_write_inode 5 fs ≡ ok (0, t))
    × ((u : Fs) × (r : Inode) × (minix_iget 2 (forgotten t) ≡ ok (some t.next, u))
        × (find_inode t.next u.inodes ≡ some r)
        × Restored inode r)
    × ((other x : ℕ)
        → 0 < other
        → other ≢ 2
        → x < inode_sz
        → raw_byte t other x ≡ raw_byte fs other x)
    × ((n : ℕ) → n ≢ ino_to_blk_no fs.sb 2 → t.disk n ≡ fs.disk n)
    × (t.inodes ≡ fs.inodes)
    × (t.bufs ≡ fs.bufs)
minix_write_inode-Restored_example =
    minix_write_inode-Restored fs 5 inode refl refl (omega arith) (omega arith) inode-FitsRaw

found : find_ino 2 fs.inodes ≡ ok (some inode)
unfolding find_ino
found = refl

put_inode-last_example :
    (t : Fs) × (put_inode 5 fs ≡ ok (pos 0, t))
    × ((j : Inode) → Restored inode (fill_inode (t.disk (ino_to_blk_no fs.sb 2)) (raw_offset 2) j))
    × ((ino : ℕ) → Without ino [] → get_inode ino t ≡ fault)
put_inode-last_example =
    put_inode-last fs [] [] inode refl tt refl refl (omega arith) (omega arith) inode-FitsRaw
