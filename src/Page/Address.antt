-- ===== src/Page/Address.antt =====
-- The address macros of include/mm.h on the pages that `mem_map` manages.
use nbos.Base.{ℕ, ◌+◌, ◌-◌, ◌*◌, ◌%◌, ◌≤◌, ◌<◌, ◌≡◌, arith}
use nbos.Page.{
  page_size, low_mem, mem_base, paging_pages, kernel_va_start, pa_to_pfn, pfn_to_pa, va_of, pa_of,
}

-- The kernel address of page frame `i`.
abbrev pub page_va : ℕ → ℕ
page_va i = va_of (pfn_to_pa i)

-- It does not wrap.
pub page_va_lem :
    (i : ℕ) → i < paging_pages → page_va i ≡ kernel_va_start + (low_mem - mem_base) + i * page_size
page_va_lem i h = omega arith

-- From the kernel address of a managed page the macros lead back to its frame number; the address
-- is a multiple of the page size above the image, and below the end of the paged memory.
pub page_va_round_trip :
    (i : ℕ)
    → i < paging_pages
    → (pa_to_pfn (pa_of (page_va i)) ≡ i)
      × (page_va i % page_size ≡ 0)
      × (kernel_va_start + (low_mem - mem_base) ≤ page_va i)
      × (page_va i + page_size ≤ kernel_va_start + (low_mem - mem_base) + paging_pages * page_size)
page_va_round_trip i h = omega arith

-- Two pages are disjoint.
pub page_va-apart : (i j : ℕ) → i < j → j < paging_pages → page_va i + page_size ≤ page_va j
page_va-apart i j h k = omega arith
