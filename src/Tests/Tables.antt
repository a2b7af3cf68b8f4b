-- ===== src/Tests/Tables.antt =====
-- Page tables: the top table of the kernel lies in the image and is empty, and all pages are free.
use nbos.Base.{
  ◌*◌, ◌==◌, ◌<◌, ◌≤◌, if◌then◌else◌, ltb, Bool-cases, ℕ, zero, suc, ◌+◌, ◌-◌, ◌%◌, ◌^◌, ◌≡◌, refl,
  arith, some, inl, inr, ok,
}
use nbos.Page.Address.{page_va}
use nbos.Paging.Room.{HasRoom}
use nbos.Task.Exec.Load.{IsLoaded}
use nbos.Task.{Kernel}
use nbos.Task.Exec.{copy_to_user}
use nbos.Task.Exec.Program.{copy_to_user-UserPage}
use nbos.Tests.Tasks.{kernel}
use nbos.Paging.User.{user_translate, UserPage, alloc_user_page-UserPage}
use nbos.Page.{pa_of, update, page_size, Pages, kernel_va_start}
use nbos.Page.Free.{IsTaken, free_pages, free_below-update, free_below}
use nbos.Paging.{alloc_user_page, map_kernel_section}
use nbos.Paging.Walk.{IsMapped, slot_of, translate}
use nbos.Paging.Section.{levels, map_kernel_section-translate}

abbrev pub pages : Pages
pages = record { flags = λ _. 0; count = λ _. 0; mem = λ _. 0 }

abbrev pub pgd : ℕ
pgd = kernel_va_start + 0x90000

pub all_free : (n : ℕ) → free_below n (λ _. 0) ≡ n
unfolding free_below
all_free zero = refl
all_free (suc n) = omega (arith, all_free n)

map_kernel_section-translate_example :
    (t : Pages) × (map_kernel_section pgd 0x9000000 0xffff_0000_3fc0_0000 0x401 pages ≡ ok (tt, t))
    × (translate t.mem pgd 0xffff_0000_3fc0_0000
        ≡ some (0x9000000 - 0x9000000 % 2 ^ 21 + 0xffff_0000_3fc0_0000 % 2 ^ 21))
    × ((other e : ℕ)
        → IsMapped pages other levels (slot_of pgd other 39) e
        → translate t.mem pgd other ≡ translate pages.mem pgd other)
    × ((pa' : ℕ) → map_kernel_section pgd pa' 0xffff_0000_3fc0_0000 0x401 t ≡ ok (tt, t))
map_kernel_section-translate_example =
    map_kernel_section-translate pages pgd 0x9000000 0xffff_0000_3fc0_0000 0x401 (inr refl)
      ((λ j h z. inl (omega arith)), inl refl) (omega (arith, all_free 3840))

-- Page 0 holds the `struct mm_struct` of a process, and page 1 its top table, which is empty.
abbrev process : Pages
process = record {
  flags = λ _. 0;
  count = update (update (λ _. 0) 0 1) 1 1;
  mem = λ a. if a == page_va 0 then pa_of (page_va 1) else 0;
}

process-IsTaken : (a : ℕ) → page_va 0 ≤ a → a < page_va 0 + 2 * page_size → IsTaken process a
process-IsTaken a p q j l z = elim (Bool-cases (ltb 1 j)) [
  | inl e ↦ inl (ground arith)
  | inr e ↦ absurd (ground arith)
]

process-HasRoom : HasRoom process (page_va 0) 0 0 3
process-HasRoom = record {
  taken = λ a p q. process-IsTaken a p (omega arith);
  pages_used = λ j h. elim h [ ];
  pages_free = λ j p q. ground arith;
  pages_bound = omega arith;
  vmas_used = λ j h. elim h [ ];
  vma_free = refl;
  vma_free_pa = refl;
  vma_bound = omega arith;
}

process_free : 4 ≤ free_pages process
process_free = omega (
  arith,
  all_free 3840,
  free_below-update 3840 0 (λ _. 0) (omega arith) refl,
  free_below-update 3840 1 (update (λ _. 0) 0 1) (omega arith) refl,
)

alloc_user_page-UserPage_example :
    (f : ℕ) × (t : Pages) × (alloc_user_page 0x3ffff000 (page_va 0) process ≡ ok (tt, t))
    × UserPage process (page_va 0) 0 0x3ffff000 f t
alloc_user_page-UserPage_example =
    alloc_user_page-UserPage process (page_va 0) 0 0 0x3ffff000 process-HasRoom
      (process-IsTaken (page_va 1) (omega arith) (omega arith), inl (inr (omega arith), refl))
      process_free

-- The process with a page at user address 0.
abbrev mapped :
    (f : ℕ) × (t : Pages) × (alloc_user_page 0 (page_va 0) process ≡ ok (tt, t))
    × UserPage process (page_va 0) 0 0 f t
mapped =
    alloc_user_page-UserPage process (page_va 0) 0 0 0 process-HasRoom
      (process-IsTaken (page_va 1) (omega arith) (omega arith), inl (inr (omega arith), refl))
      process_free

abbrev loading : Kernel
loading = record kernel { pages = mapped.1; pgd = process.mem (page_va 0) }

-- The buffer lies behind the `struct mm_struct`.
copy_to_user-UserPage_example :
    (mem : ℕ → ℕ) × (copy_to_user user_translate 100 0 (page_va 0 + 1024) loading
      ≡ ok (tt, record loading { pages = record loading.pages { mem = mem } }))
    × IsLoaded user_translate loading (page_va 0 + 1024) 100 (λ j. page_va mapped.0 + j) mem
copy_to_user-UserPage_example =
    copy_to_user-UserPage loading process (page_va 0) 0 mapped.0 (page_va 0 + 1024) 100 mapped.3
      refl (omega arith)
      (λ j h.
        process-IsTaken (page_va 0 + 1024 + j) (omega arith) (omega (arith, h)) mapped.0
          mapped.3.below mapped.3.fresh)
