-- ===== src/Page.antt =====
-- mm/mm.c and include/mm.h: the physical page manager. `mem_map` is a pair of functions from page
-- frame numbers, `count` as its 32-bit pattern. `mem` is the 64-bit word at each byte address of
-- the kernel's linear map; a page is cleared word by word.
pub mod Alloc
pub mod Address
pub mod Free
use nbos.Base.{
  ℕ, zero, suc, ◌+◌, ◌-◌, ◌*◌, ◌/◌, ◌%◌, ◌^◌, ◌==◌, ltb, leb, ◌&&◌, if◌then◌else◌, Option, none,
  some, M, Run, ok, fault,
}

pub record Pages : Type 0 where
  pub flags : ℕ → ℕ
  pub count : ℕ → ℕ
  pub mem : ℕ → ℕ

abbrev pub page_size : ℕ
page_size = 4096

abbrev pub mem_base : ℕ
mem_base = 0x40000000

abbrev pub image_start : ℕ
image_start = mem_base + 0x80000

abbrev pub low_mem : ℕ
low_mem = image_start + 2 ^ 20

abbrev pub paging_memory : ℕ
paging_memory = 15 * 2 ^ 20

abbrev pub high_mem : ℕ
high_mem = image_start + paging_memory - 1

abbrev pub paging_pages : ℕ
paging_pages = paging_memory / page_size

abbrev pub kernel_va_start : ℕ
kernel_va_start = 0xffff_0000_0000_0000

-- `unsigned long` arithmetic wraps at 2^64.
abbrev pub pa_to_pfn : ℕ → ℕ
pa_to_pfn pa = (pa + 2 ^ 64 - low_mem) % 2 ^ 64 / page_size

abbrev pub pfn_to_pa : ℕ → ℕ
pfn_to_pa pfn = (pfn * page_size + low_mem) % 2 ^ 64

-- `__va` and `__pa`
abbrev pub va_of : ℕ → ℕ
va_of pa = (pa + 2 ^ 64 - mem_base + kernel_va_start) % 2 ^ 64

abbrev pub pa_of : ℕ → ℕ
pa_of va = (va + 2 ^ 64 - kernel_va_start + mem_base) % 2 ^ 64

abbrev pub update : (ℕ → ℕ) → ℕ → ℕ → ℕ → ℕ
update f i v j = if j == i then v else f j

-- The loop of `alloc_page`, over the pages below `i`, from the highest down.
unfoldable pub alloc_from : ℕ → Pages → Option ℕ × Pages
alloc_from zero s = (none, s)
alloc_from (suc i) s =
    let rest = alloc_from i s in
    if s.count i == 0 then (some i, record s { count = update s.count i 1 }) else rest

-- The result is the page's index in `mem_map`, or `none` for `NULL`.
unfoldable pub alloc_page : Pages → Option ℕ × Pages
alloc_page s = alloc_from paging_pages s

-- `__free_page`, with `atomic_add(-1, …)` on the 32-bit counter
unfoldable pub put_page : ℕ → Pages → Pages
put_page i s = record s { count = update s.count i ((s.count i + 2 ^ 32 - 1) % 2 ^ 32) }

-- A page frame outside `mem_map` is an access out of bounds.
unfoldable pub free_page : ℕ → M Pages (Unit {0})
unfolding put_page
free_page addr s =
    let pfn = pa_to_pfn (pa_of addr) in
    if ltb pfn paging_pages then ok (tt, put_page pfn s) else fault

-- `memset(va, 0, PAGE_SIZE)`
abbrev pub clear_page : (ℕ → ℕ) → ℕ → ℕ → ℕ
clear_page mem va a = if leb va a && ltb a (va + page_size) then 0 else mem a

-- `alloc_page` is not checked: on `NULL` the page number that is computed lies outside `mem_map`.
unfoldable pub cleared : Option ℕ × Pages → Run (ℕ × Pages)
cleared (none, t) = fault
cleared (some i, t) =
    ok (va_of (pfn_to_pa i), record t { mem = clear_page t.mem (va_of (pfn_to_pa i)) })

unfoldable pub get_free_page : M Pages ℕ
unfolding cleared
get_free_page s = cleared (alloc_page s)

unfoldable pub load : ℕ → M Pages ℕ
load a s = ok (s.mem a, s)

unfoldable pub store : ℕ → ℕ → M Pages (Unit {0})
store a v s = ok (tt, record s { mem = update s.mem a v })

-- `atomic_set(&pa_to_page(__pa(addr))->flags, f)`
unfoldable pub set_page_flags : (addr f : ℕ) → M Pages (Unit {0})
set_page_flags addr f s =
    let pfn = pa_to_pfn (pa_of addr) in
    if ltb pfn paging_pages then ok (tt, record s { flags = update s.flags pfn f }) else fault
