-- ===== src/Syscall.antt =====
-- kernel/syscall.c: the system calls on files, over the descriptors of the current task, `sys_exit`
-- on the tasks and `sys_execv` on the whole system, with the table they are called through.
pub mod Checks
pub mod Exec
pub mod Exit
use nbos.Base.{
  ℕ, Bool, true, ◌||◌, if◌then◌else◌, leb, get_elem?, List, [], ◌∷◌, Option, none, some, M, ok,
  pure, raise, deref, ◌>>◌, ◌>>=◌, and_then,
}
use nbos.Base.Int.{ℤ, pos, negsuc, is_neg}
use nbos.Str.{Reader}
use nbos.Console.{str, Printed, printf}
use nbos.Fs.{Fs}
use nbos.Fs.Files.{
  bad_fd, fd_index, get_filp, file_open, file_read, file_write, file_lseek, file_close,
}
use nbos.Task.{Kernel, zombie, set_task, schedule}
use nbos.Task.Exec.{System, Mmu, on_fs, execv}

-- The result is that of `printf`.
unfoldable pub sys_put : {S : Type 0} → (result : ℤ) → (buf : Reader) → M (Printed S) ℤ
sys_put result buf = do printf "%s" (str buf ∷ []); pure result

abbrev pub sys_fork : ℤ
sys_fork = pos 0

abbrev pub sys_malloc : ℤ
sys_malloc = pos 0

-- `mode` is not used.
unfoldable pub sys_open : ℕ → Option Reader → (flag : ℕ) → M Fs ℤ
sys_open fuel filename flag = file_open fuel filename flag

-- A buffer is `none` for `NULL`. The result is paired with the bytes stored in the buffer.
unfoldable pub sys_read : (fd : ℤ) → (buf : Option (Unit {0})) → (count : ℤ) → M Fs (ℤ × List ℕ)
sys_read fd none count = pure (negsuc 0, [])
sys_read fd (some buf) count = if bad_fd fd || is_neg count then pure (negsuc 0, []) else do
  filp ← get_filp (fd_index fd)
  elim filp [ none ↦ pure (negsuc 0, []) | some f ↦ file_read f count ]

unfoldable pub sys_write : (fd : ℤ) → (buf : Option (List ℕ)) → (count : ℤ) → M Fs ℤ
sys_write fd none count = pure (negsuc 0)
sys_write fd (some buf) count = if bad_fd fd || is_neg count then pure (negsuc 0) else do
  filp ← get_filp (fd_index fd)
  elim filp [ none ↦ pure (negsuc 0) | some f ↦ file_write f buf count ]

unfoldable pub sys_lseek : (fd offset : ℤ) → (whence : ℕ) → M Fs ℤ
sys_lseek fd offset whence = if bad_fd fd then pure (negsuc 0) else do
  filp ← get_filp (fd_index fd)
  elim filp [ none ↦ pure (negsuc 0) | some f ↦ file_lseek f offset whence ]

-- `current->state = TASK_ZOMBIE`, and `schedule`; the caller goes on if no other task can run.
unfoldable pub sys_exit : M Kernel ℤ
sys_exit s =
    and_then (schedule (set_task s.current (record (s.task s.current) { state = zombie }) s))
      λ (_, t). ok (pos 0, t)

-- `current->filp[fd]`; in front of the array is out of bounds.
unfoldable pub filp_at : ℤ → M Fs (Option ℕ)
filp_at (pos n) = get_filp n
filp_at (negsuc n) = raise

-- The result of `file_open` is not checked.
unfoldable pub sys_execv : Mmu → ℕ → (file_path : Option Reader) → M System ℤ
unfolding filp_at
sys_execv mmu fuel none = pure (negsuc 0)
sys_execv mmu fuel (some path) = do
  fd ← on_fs (file_open fuel (some path) 0)
  filp ← on_fs (filp_at fd)
  f ← deref filp
  execv mmu fuel f
  on_fs (file_close fd)
  pure (pos 0)

pub data Call : Type 0 where
  put_call fork_call malloc_call exit_call open_call read_call write_call lseek_call execv_call :
      Call

abbrev pub syscall_table : List Call
syscall_table =
    put_call ∷ fork_call ∷ malloc_call ∷ exit_call ∷ open_call ∷ read_call ∷ write_call ∷ lseek_call
    ∷ execv_call ∷ []

abbrev pub syscall_nr : ℕ
syscall_nr = 9

-- `el0_svc`: the function for the number in `x8`; `none` is the branch to `put_exception`.
unfoldable pub el0_svc : ℕ → Option Call
el0_svc x8 = if leb syscall_nr x8 then none else get_elem? syscall_table x8
