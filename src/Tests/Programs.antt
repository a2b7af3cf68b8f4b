-- ===== src/Tests/Programs.antt =====
-- Programs that cannot be started: a name without a file, and a file of more than a page.
use nbos.Base.{◌+◌, ◌%◌, ◌≡◌, refl, arith, inr, [], ◌∷◌, none, some, ok, fault}
use nbos.Base.Int.{pos}
use nbos.Str.{Reader, strlen}
use nbos.Fs.{Fs, File, Inode}
use nbos.Fs.Files.{file_open, free_fd, free_file}
use nbos.Fs.Name.{namei}
use nbos.Fs.Name.Components.{text}
use nbos.Page.{page_size, pa_of}
use nbos.Page.Address.{page_va}
use nbos.Task.Exec.{System, Mmu}
use nbos.Syscall.{sys_execv}
use nbos.Syscall.Exec.{sys_execv-unopened, sys_execv-oversize}
use nbos.Tests.Files.{fs, inode}
use nbos.Tests.Tasks.{kernel}

-- All of user memory lies in page 5.
abbrev one_page : Mmu
one_page mem pgd addr = some (pa_of (page_va 5) + addr % page_size)

abbrev big : Inode
big = record inode { i_size = 5000 }

abbrev closed : File
closed = record { f_inode = 0; f_count = 0; f_flags = 0; f_pos = 0 }

-- The file is the root.
abbrev system : System
system = record {
  kernel = kernel;
  desc = λ p. record { page = 0; next = 0; freeptr = 0; refcnt = 0; bucket_size = 0 };
  chain = λ b. 0;
  free_bucket_desc = 0;
  fs = record fs { inodes = big ∷ []; root_inode = some 5; file_tbl = closed ∷ [] };
}

abbrev root_path : Reader
root_path = text (b'/' ∷ [])

missing :
    namei 3 none (some (text (b'a' ∷ []))) (record system.fs { filp = some 0 ∷ some 0 ∷ [] })
    ≡ ok (none, record system.fs { filp = some 0 ∷ some 0 ∷ [] })
unfolding namei
missing = refl

sys_execv-unopened_example : sys_execv one_page 3 (some (text (b'a' ∷ []))) system ≡ fault
unfolding free_fd free_file
sys_execv-unopened_example =
    sys_execv-unopened one_page 3 (text (b'a' ∷ [])) system (inr (inr (_, missing)))

abbrev root_file : File
root_file = record { f_inode = 5; f_count = 1; f_flags = 0; f_pos = 0 }

abbrev after_open : Fs
after_open = record system.fs { filp = some 0 ∷ some 0 ∷ []; file_tbl = root_file ∷ [] }

opened : file_open 3 (some root_path) 0 system.fs ≡ ok (pos 1, after_open)
unfolding file_open namei strlen
opened = refl

sys_execv-oversize_example : sys_execv one_page 3 (some root_path) system ≡ fault
sys_execv-oversize_example =
    sys_execv-oversize one_page 3 1 0 root_path system after_open root_file big opened refl refl
      refl refl (omega arith) refl (omega arith)
