-- ===== src/Fs/Files.antt =====
-- fs/fs.c: the table of open files and the descriptors of the current task.
pub mod Open
pub mod Close
use nbos.Base.{
  ℕ, zero, suc, ◌+◌, ◌-◌, ◌%◌, ◌^◌, Bool, true, ◌||◌, ◌==◌, leb, if◌then◌else◌, List, [], ◌∷◌,
  get_elem?, set, Option, none, some, M, Run, ok, fault, and_then, pure, raise, ◌>>=◌, ◌>>◌, deref,
  get_state,
}
use nbos.Base.Int.{ℤ, pos, negsuc, ◌+ℤ◌, is_neg, gtb_ℤ, to_int, is_int}
use nbos.Str.{Reader}
use nbos.Fs.{Fs, File, file_ops}
use nbos.Fs.Inodes.{get_ref, put_inode}
use nbos.Fs.Minix.{minix_read, minix_write}
use nbos.Fs.Name.{namei}

abbrev pub nr_open : ℕ
nr_open = 32

abbrev pub nr_file : ℕ
nr_file = 64

-- The loop `for (fd = 0; fd < NR_OPEN; fd++) if (!current->filp[fd]) break;`, from index `i` on.
unfoldable pub free_fd : List (Option ℕ) → ℕ → ℕ
free_fd [] i = i
free_fd (none ∷ fs) i = i
free_fd (some f ∷ fs) i = free_fd fs (i + 1)

-- The loop over `file_tbl`.
unfoldable pub free_file : List File → ℕ → ℕ
free_file [] i = i
free_file (f ∷ fs) i = if f.f_count == 0 then i else free_file fs (i + 1)

-- `current->filp[fd] = p`
abbrev pub set_filp : ℕ → Option ℕ → M Fs (Unit {0})
set_filp fd p s = ok (tt, record s { filp = set s.filp fd p })

abbrev pub set_file : ℕ → File → M Fs (Unit {0})
set_file f v s = ok (tt, record s { file_tbl = set s.file_tbl f v })

-- `file_tbl[f]`; out of range is a fault.
abbrev pub get_file : ℕ → M Fs File
get_file f s = deref (get_elem? s.file_tbl f) s

-- The part of `file_open` after the two searches.
unfoldable pub open_at : (fuel fd f : ℕ) → Option Reader → (flag : ℕ) → M Fs ℤ
open_at fuel fd f filename flag = do
  set_filp fd (some f)
  inode ← namei fuel none filename
  file ← get_file f
  elim inode [
    | none ↦ do set_filp fd none; set_file f (record file { f_count = 0 }); pure (negsuc 2)
    | some i ↦ do
      set_file f (record { f_flags = flag; f_count = 1; f_inode = i; f_pos = 0 })
      pure (pos fd)
  ]

unfoldable pub file_open : ℕ → Option Reader → (flag : ℕ) → M Fs ℤ
unfolding free_fd free_file open_at
file_open fuel filename flag = do
  s ← get_state
  if leb nr_open (free_fd s.filp 0)
      then pure (negsuc 0)
      else if leb nr_file (free_file s.file_tbl 0)
      then pure (negsuc 1)
      else open_at fuel (free_fd s.filp 0) (free_file s.file_tbl 0) filename flag

-- `fd >= NR_OPEN || fd < 0`
abbrev pub bad_fd : ℤ → Bool
bad_fd (pos n) = leb nr_open n
bad_fd (negsuc n) = true

-- The index of a descriptor that is in range.
abbrev pub fd_index : ℤ → ℕ
fd_index (pos n) = n
fd_index (negsuc n) = 0

-- `current->filp[fd]`; `NULL` is `none`.
abbrev pub get_filp : ℕ → M Fs (Option ℕ)
get_filp fd s = deref (get_elem? s.filp fd) s

-- The descriptor is cleared before its file is looked at, and the file is not checked.
unfoldable pub file_close : ℤ → M Fs ℤ
file_close fd = if bad_fd fd then pure (negsuc 0) else do
  filp ← get_filp (fd_index fd)
  set_filp (fd_index fd) none
  f ← deref filp
  file ← get_file f
  (if file.f_count == 0 then pure tt else set_file f (record file { f_count = file.f_count - 1 }))
  put_inode file.f_inode
  pure (pos 0)

-- `filp->f_pos += ret` if `ret > 0`, and the result `ret ? ret : -1`
abbrev pub moved : ℤ → File → File
moved (pos n) file = record file { f_pos = (file.f_pos + n) % 2 ^ 64 }
moved (negsuc n) file = file

abbrev pub result_of : ℤ → ℤ
result_of (pos zero) = negsuc 0
result_of r = r

-- `inode->i_op->read`: only the operations of a regular file have `read` and `write`.
unfoldable pub call_read : (inode p count : ℕ) → M Fs (ℤ × List ℕ)
call_read inode p count = do
  i ← get_ref inode
  elim i.i_op [ file_ops ↦ minix_read inode p count | _ ↦ raise ]

unfoldable pub call_write : (inode : ℕ) → List ℕ → (p count : ℕ) → M Fs ℤ
call_write inode buf p count = do
  i ← get_ref inode
  elim i.i_op [ file_ops ↦ minix_write inode buf p count | _ ↦ raise ]

-- The result is paired with the bytes stored in the caller's buffer.
unfoldable pub file_read : (filp : ℕ) → ℤ → M Fs (ℤ × List ℕ)
unfolding call_read
file_read filp (negsuc n) = pure (pos 0, [])
file_read filp (pos zero) = pure (pos 0, [])
file_read filp (pos (suc n)) = do
  file ← get_file filp
  (ret, out) ← call_read file.f_inode file.f_pos (suc n)
  set_file filp (moved ret file)
  pure (result_of ret, out)

unfoldable pub file_write : (filp : ℕ) → List ℕ → ℤ → M Fs ℤ
unfolding call_write
file_write filp buf (negsuc n) = pure (pos 0)
file_write filp buf (pos zero) = pure (pos 0)
file_write filp buf (pos (suc n)) = do
  file ← get_file filp
  ret ← call_write file.f_inode buf file.f_pos (suc n)
  set_file filp (moved ret file)
  pure (result_of ret)

-- `pos += offset`, whose overflow is undefined.
abbrev pub add_int : (a offset : ℤ) → Run ℤ
add_int a offset = if is_int (a +ℤ offset) then ok (a +ℤ offset) else fault

-- The `switch` of `file_lseek`.
unfoldable pub seek_pos : (f_pos i_size : ℕ) → (offset : ℤ) → (whence : ℕ) → Run ℤ
seek_pos f_pos i_size offset whence =
    if whence == 0
    then ok offset
    else if whence == 1
    then add_int (to_int f_pos) offset
    else if whence == 2
    then add_int (to_int i_size) offset
    else ok (to_int f_pos)

unfoldable pub file_lseek : (filp : ℕ) → (offset : ℤ) → (whence : ℕ) → M Fs ℤ
file_lseek filp offset whence = do
  file ← get_file filp
  inode ← get_ref file.f_inode
  p ← λ s. and_then (seek_pos file.f_pos inode.i_size offset whence) λ p. ok (p, s)
  if is_neg p || gtb_ℤ p inode.i_size
      then pure (negsuc 0)
      else do set_file filp (record file { f_pos = fd_index p }); pure p
