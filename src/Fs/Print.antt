-- ===== src/Fs/Print.antt =====
-- fs/minix_fs.c: what `init_main` prints of the file system. The operations that this takes stay
-- visible in the state: buffers that are never released, and references to inodes that are never
-- given back.
pub mod Listing
use nbos.Base.{
  ℕ, zero, suc, ◌+◌, ◌-◌, ◌*◌, ◌/◌, ◌%◌, ◌==◌, not, ◌&&◌, if◌then◌else◌, List, [], ◌∷◌, Option,
  none, some, M, ok, pure, raise, ◌>>=◌, ◌>>◌, deref, get_state,
}
use nbos.Str.{Reader}
use nbos.Console.{Arg, num, str, Printed, printf, quiet, text}
use nbos.Fs.{Fs, Block, block_sz}
use nbos.Fs.Layout.{le16, le32}
use nbos.Fs.Buffer.{get_blk, get_buf}
use nbos.Fs.Inodes.{get_ref, minix_iget}
use nbos.Fs.Name.{namei}

-- The rounds of the loop from word `i` on.
unfoldable pub print_words : (n i : ℕ) → Block → M (Printed Fs) (Unit {0})
print_words zero i b = pure tt
print_words (suc n) i b = do
  printf "addr: %#lx, val: %#lx; " (num (4 * i) ∷ num (le32 b (4 * i)) ∷ [])
  (if (4 * i % 20 == 0) && not (i == 0) then printf "\n" [] else pure tt)
  print_words n (i + 1) b

unfoldable pub print_block : (bh : ℕ) → M (Printed Fs) (Unit {0})
unfolding print_words
print_block bh = do b ← quiet (get_buf bh); print_words (block_sz / 4) 0 b.bytes; printf "\n" []

-- `m_ii->i_data[i]` from index `i` on.
unfoldable pub print_zones : (n i : ℕ) → (ℕ → ℕ) → M (Printed Fs) (Unit {0})
print_zones zero i zones = pure tt
print_zones (suc n) i zones = do
  printf "i_data[%d]: %d\n" (num i ∷ num (zones i) ∷ [])
  print_zones n (i + 1) zones

unfoldable pub print_minix_inode : (inode_no : ℕ) → M (Printed Fs) (Unit {0})
unfolding print_zones
print_minix_inode inode_no = do
  id ← quiet (minix_iget inode_no)
  p ← deref id
  inode ← quiet (get_ref p)
  printf "i_mode: %#x\n" (num inode.i_mode ∷ [])
  printf "i_size: %d\n" (num inode.i_size ∷ [])
  print_zones 9 0 inode.i_data

unfoldable pub print_minix_sb : M (Printed Fs) (Unit {0})
print_minix_sb = do
  (out, s) ← get_state
  printf "ninodes: %d, nzones: %d, imap_blocks: %d, zmap_blocks: %d\n" (
      num s.sb.s_ninodes ∷ num s.sb.s_nzones ∷ num s.sb.s_imap_blocks ∷ num s.sb.s_zmap_blocks ∷ [])
  printf "s_firstdatazone: %d, s_max_size: %d\n"
      (num s.sb.s_firstdatazone ∷ num s.sb.s_max_size ∷ [])

-- `dir->inode` and `dir->name` of entry `k` of a block.
abbrev pub entry_inode : Block → ℕ → ℕ
entry_inode b k = le16 b (32 * k)

abbrev pub entry_name : Block → ℕ → Reader
entry_name b k i = b (32 * k + 2 + i)

unfoldable pub print_dir_entry : Block → ℕ → M (Printed Fs) (Unit {0})
print_dir_entry b k =
    printf "ino: %d, file name: %s\n" (num (entry_inode b k) ∷ str (entry_name b k) ∷ [])

-- The loop, with `n` entries of the block left from entry `k` on; it does not stop at the end of the
-- block.
unfoldable pub print_from : (n k : ℕ) → Block → M (Printed Fs) (Unit {0})
unfolding print_dir_entry
print_from zero k b = raise
print_from (suc n) k b =
    let rest = print_dir_entry b k >> print_from n (k + 1) b in
    if entry_inode b k == 0 then pure tt else rest

-- The first entry is skipped.
unfoldable pub print_dir_entries : (bh : ℕ) → M (Printed Fs) (Unit {0})
unfolding print_from
print_dir_entries bh = do b ← quiet (get_buf bh); print_from 31 1 b.bytes

unfoldable pub print_minix : (fuel : ℕ) → M (Printed Fs) (Unit {0})
unfolding print_minix_sb print_minix_inode print_dir_entries
print_minix fuel = do
  print_minix_sb
  bh ← quiet (get_blk 696)
  print_dir_entries bh
  print_minix_inode 1
  print_minix_inode 2
  print_minix_inode 3
  bh ← quiet (get_blk 698)
  print_dir_entries bh
  root ← quiet (minix_iget 1)
  inode ← quiet (namei fuel root (some (text "./dir1/dir2/user_code.bin")))
  elim inode [
    | some i ↦ do v ← quiet (get_ref i); printf "==========ino: %d=========\n" (num v.i_ino ∷ [])
    | none ↦ printf "not found\n" []
  ]

abbrev pub print_root_bdev : (fuel : ℕ) → M (Printed Fs) (Unit {0})
print_root_bdev fuel = print_minix fuel
