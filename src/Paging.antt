-- ===== src/Paging.antt =====
-- mm/mm.c: the page tables of the kernel and of user processes, as 64-bit words of `Pages.mem`.
-- A `struct mm_struct` lies in memory too, at the address `mm`: `pgd`, then sixteen `vma` pairs,
-- then eight `pgtbl_page` slots.
pub mod Walk
pub mod Books
pub mod User
pub mod Room
pub mod Section
pub mod Flash
pub mod Print
pub mod Level
use Prim.Native.Nat.{bit_or}
use nbos.Console.{Printed, printf, quiet}
use nbos.Base.{
  ℕ, zero, suc, ◌+◌, ◌-◌, ◌*◌, ◌/◌, ◌%◌, ◌^◌, not, ◌&&◌, ◌==◌, ltb, if◌then◌else◌, Option, none,
  some, [], M, pure, raise, ◌>>=◌, ◌>>◌,
}
use nbos.Page.{high_mem, Pages, page_size, va_of, pa_of, load, store, get_free_page}

abbrev pub section_shift : ℕ
section_shift = 21

abbrev pub mm_type_page_table : ℕ
mm_type_page_table = 3

abbrev pub mmu_flags : ℕ
mmu_flags = 0x405

abbrev pub mmu_device_flags : ℕ
mmu_device_flags = 0x401

abbrev pub mmu_pte_flags : ℕ
mmu_pte_flags = 0x447

-- `(addr >> shift) & TABLE_MASK`
abbrev pub table_index : (addr shift : ℕ) → ℕ
table_index addr shift = addr / 2 ^ shift % 512

-- `ENTRY_GET_ADDR`
abbrev pub entry_addr : ℕ → ℕ
entry_addr m = m - m % page_size

-- An empty entry gets a new page: `*entry = __pa(get_free_page()) | flags`. The result is that page.
unfoldable pub ensure_page : (entry flags : ℕ) → M Pages (Option ℕ)
ensure_page entry flags = do
  e ← load entry
  if e == 0
      then (do va ← get_free_page; store entry (bit_or (pa_of va) flags); pure (some va))
      else pure none

-- The entry for `addr` of the table that an entry leads to.
unfoldable pub next_entry : (entry addr shift : ℕ) → M Pages ℕ
next_entry entry addr shift = do
  e ← load entry
  pure (va_of (entry_addr e) + table_index addr shift * 8)

-- `pgd` is the address of the kernel's top table.
unfoldable pub map_kernel_section : (pgd pa addr flags : ℕ) → M Pages (Unit {0})
unfolding ensure_page next_entry
map_kernel_section pgd pa addr flags =
    if not (flags == mmu_flags) && not (flags == mmu_device_flags) then pure tt else do
      let pgd_entry = pgd + table_index addr 39 * 8
      ensure_page pgd_entry mm_type_page_table
      pud_entry ← next_entry pgd_entry addr 30
      ensure_page pud_entry mm_type_page_table
      pmd_entry ← next_entry pud_entry addr 21
      e ← load pmd_entry
      if e == 0 then store pmd_entry (bit_or (pa - pa % 2 ^ section_shift) flags) else pure tt

-- The number of units of `2 ^ shift` bytes that cover `size` bytes.
abbrev pub round_up : (size shift : ℕ) → ℕ
round_up size shift = if size % 2 ^ shift == 0 then size / 2 ^ shift else size / 2 ^ shift + 1

unfoldable pub map_from : (n i pgd pa addr flags : ℕ) → M Pages (Unit {0})
map_from zero i pgd pa addr flags = pure tt
map_from (suc n) i pgd pa addr flags = do
  map_kernel_section pgd (pa + i * 2 ^ section_shift) (addr + i * 2 ^ section_shift) flags
  map_from n (i + 1) pgd pa addr flags

unfoldable pub map_kernel_sections : (pgd pa addr size flags : ℕ) → M Pages (Unit {0})
unfolding map_from
map_kernel_sections pgd pa addr size flags =
    map_from (round_up size section_shift) 0 pgd pa addr flags

-- `PFLASH1_PA_BASE`, `PFLASH1_BASE`, `PFLASH1_SIZE`
abbrev pub pflash1_pa_base : ℕ
pflash1_pa_base = 0x04000000

abbrev pub pflash1_base : ℕ
pflash1_base = 0xffff000400000000

abbrev pub pflash1_size : ℕ
pflash1_size = 64 * 1024 * 1024

-- `img_end` is the address of the end of the image, which the linker sets.
unfoldable pub init_mm : (pgd img_end : ℕ) → M (Printed Pages) (Unit {0})
unfolding map_kernel_sections
init_mm pgd img_end = do
  quiet (map_kernel_sections pgd pflash1_pa_base pflash1_base pflash1_size mmu_device_flags)
  if ltb high_mem (pa_of img_end) then printf "image is too large\n" [] else pure tt

abbrev pub max_user_pages : ℕ
max_user_pages = 16

abbrev pub max_pgtbl_pages : ℕ
max_pgtbl_pages = 8

-- `&mm->vma[i].va` and `&mm->pgtbl_page[i]`; `&mm->vma[i].pa` is 8 bytes further.
abbrev pub vma_at : (mm i : ℕ) → ℕ
vma_at mm i = mm + 8 + 16 * i

abbrev pub pgtbl_page_at : (mm i : ℕ) → ℕ
pgtbl_page_at mm i = mm + 8 + 16 * max_user_pages + 8 * i

-- The first empty slot of `pgtbl_page`, from index `i` on with `n` left.
unfoldable pub free_slot : (n i mm : ℕ) → M Pages ℕ
free_slot zero i mm = pure i
free_slot (suc n) i mm =
    let rest = free_slot n (i + 1) mm in
    (do v ← load (pgtbl_page_at mm i); if v == 0 then pure i else rest)

-- `mm->pgtbl_page[idx++] = va` if a page was allocated; a slot past the array is out of bounds.
unfoldable pub record_page : (mm idx : ℕ) → Option ℕ → M Pages ℕ
record_page mm idx none = pure idx
record_page mm idx (some va) =
    if ltb idx max_pgtbl_pages then (do store (pgtbl_page_at mm idx) va; pure (idx + 1)) else raise

-- The loop that enters the page in `vma`; it is not entered when the array is full.
unfoldable pub record_vma : (n i mm addr pte_entry : ℕ) → M Pages (Unit {0})
record_vma zero i mm addr pte_entry = pure tt
record_vma (suc n) i mm addr pte_entry =
    let rest = record_vma n (i + 1) mm addr pte_entry in
    (do
      pa ← load (vma_at mm i + 8)
      if pa == 0
          then (do
            store (vma_at mm i) addr
            e ← load pte_entry
            store (vma_at mm i + 8) (entry_addr e))
          else rest)

unfoldable pub alloc_user_page : (addr mm : ℕ) → M Pages (Unit {0})
unfolding ensure_page next_entry free_slot record_page record_vma
alloc_user_page addr mm = do
  idx ← free_slot max_pgtbl_pages 0 mm
  pgd ← load mm
  let pgd_entry = va_of pgd + table_index addr 39 * 8
  new ← ensure_page pgd_entry mm_type_page_table
  idx ← record_page mm idx new
  pud_entry ← next_entry pgd_entry addr 30
  new ← ensure_page pud_entry mm_type_page_table
  idx ← record_page mm idx new
  pmd_entry ← next_entry pud_entry addr 21
  new ← ensure_page pmd_entry mm_type_page_table
  record_page mm idx new
  pte_entry ← next_entry pmd_entry addr 12
  ensure_page pte_entry mmu_pte_flags
  record_vma max_user_pages 0 mm addr pte_entry

unfoldable pub alloc_from : (n i start mm : ℕ) → M Pages (Unit {0})
alloc_from zero i start mm = pure tt
alloc_from (suc n) i start mm = do
  alloc_user_page (start + i * page_size) mm
  alloc_from n (i + 1) start mm

unfoldable pub alloc_user_pages : (start size mm : ℕ) → M Pages (Unit {0})
unfolding alloc_from
alloc_user_pages start size mm = alloc_from (round_up size 12) 0 start mm
