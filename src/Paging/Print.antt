-- ===== src/Paging/Print.antt =====
-- mm/mm.c: the listing of the memory of a process.
use nbos.Base.{ℕ, zero, suc, ◌+◌, ◌==◌, if◌then◌else◌, [], ◌∷◌, M, pure, ◌>>=◌, ◌>>◌}
use nbos.Console.{num, Printed, printf, quiet}
use nbos.Page.{Pages, pa_of, load}
use nbos.Paging.{max_user_pages, max_pgtbl_pages, vma_at, pgtbl_page_at}

unfoldable pub print_vmas : (n i mm : ℕ) → M (Printed Pages) (Unit {0})
print_vmas zero i mm = pure tt
print_vmas (suc n) i mm = do
  va ← quiet (load (vma_at mm i))
  pa ← quiet (load (vma_at mm i + 8))
  (if pa == 0 then pure tt else printf "va: 0x%p,\t pa: 0x%p\n" (num va ∷ num pa ∷ []))
  print_vmas n (i + 1) mm

unfoldable pub print_tables : (n i mm : ℕ) → M (Printed Pages) (Unit {0})
print_tables zero i mm = pure tt
print_tables (suc n) i mm = do
  va ← quiet (load (pgtbl_page_at mm i))
  (if va == 0 then pure tt else printf "va: 0x%p,\t pa: 0x%p\n" (num va ∷ num (pa_of va) ∷ []))
  print_tables n (i + 1) mm

-- A null `mm` prints nothing.
unfoldable pub print_process_page : (mm : ℕ) → M (Printed Pages) (Unit {0})
unfolding print_vmas print_tables
print_process_page mm = if mm == 0 then pure tt else do
  printf "user page:\n" []
  print_vmas max_user_pages 0 mm
  printf "pgtbl page:\n" []
  print_tables max_pgtbl_pages 0 mm
