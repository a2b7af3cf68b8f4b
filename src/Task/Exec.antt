-- ===== src/Task/Exec.antt =====
-- kernel/task.c: new processes (`copy_process`, `execv`). A `System` is the kernel with its heap and
-- the file system; the heap and the tasks share the pages. The translation of user addresses by the
-- hardware is a parameter.
pub mod Bytes
pub mod Load
pub mod Program
use nbos.Base.{
  ℕ, zero, suc, ◌+◌, ◌-◌, ◌*◌, ◌/◌, ◌%◌, ◌^◌, List, [], ◌∷◌, Option, none, some, M, ok, fault, pure,
  raise, ◌>>=◌, ◌>>◌, deref, get_state, and_then,
}
use nbos.Base.Int.{ℤ, pos, negsuc}
use nbos.Page.{Pages, page_size, va_of, pa_of, update, load, store, get_free_page}
use nbos.Kmalloc.{Heap, Desc, kmalloc, kfree}
use nbos.Paging.{max_user_pages, max_pgtbl_pages, alloc_user_pages}
use nbos.Fs.{Fs}
use nbos.Fs.Files.{get_file, file_read}
use nbos.Fs.Inodes.{get_ref}
use nbos.Task.{
  Kernel, Task, new_task, allocate_node, set_task, on_pages, stack_sz, canary_magic_num, task_add,
  switch_mm, preempt_disable, preempt_enable,
}

pub record System : Type 0 where
  pub kernel : Kernel
  pub desc : ℕ → Desc
  pub chain : ℕ → ℕ
  pub free_bucket_desc : ℕ
  pub fs : Fs

abbrev pub heap_of : System → Heap
heap_of s = record {
  pages = s.kernel.pages;
  desc = s.desc;
  chain = s.chain;
  free_bucket_desc = s.free_bucket_desc;
}

abbrev pub with_heap : System → Heap → System
with_heap s h = record s {
  kernel = record s.kernel { pages = h.pages };
  desc = h.desc;
  chain = h.chain;
  free_bucket_desc = h.free_bucket_desc;
}

abbrev pub on_heap : {A : Type 0} → M Heap A → M System A
on_heap m s = and_then (m (heap_of s)) λ (a, h). ok (a, with_heap s h)

abbrev pub on_kernel : {A : Type 0} → M Kernel A → M System A
on_kernel m s = and_then (m s.kernel) λ (a, k). ok (a, record s { kernel = k })

abbrev pub on_fs : {A : Type 0} → M Fs A → M System A
on_fs m s = and_then (m s.fs) λ (a, f). ok (a, record s { fs = f })

abbrev pub modify : (Kernel → Kernel) → M System (Unit {0})
modify f s = ok (tt, record s { kernel = f s.kernel })

-- Byte `k` of a word, from the lowest on, and a store to it.
unfoldable pub byte_of : (k w : ℕ) → ℕ
byte_of zero w = w % 2 ^ 8
byte_of (suc k) w = byte_of k (w / 2 ^ 8)

unfoldable pub set_byte_of : (k v w : ℕ) → ℕ
set_byte_of zero v w = w / 2 ^ 8 * 2 ^ 8 + v % 2 ^ 8
set_byte_of (suc k) v w = set_byte_of k v (w / 2 ^ 8) * 2 ^ 8 + w % 2 ^ 8

-- The byte at an address of the kernel's linear map, and a store to it.
abbrev pub byte_at : (ℕ → ℕ) → ℕ → ℕ
byte_at mem a = byte_of (a % 8) (mem (a - a % 8))

abbrev pub put_byte : (ℕ → ℕ) → (a v : ℕ) → ℕ → ℕ
put_byte mem a v = update mem (a - a % 8) (set_byte_of (a % 8) v (mem (a - a % 8)))

abbrev pub put_bytes_at : (ℕ → ℕ) → (a : ℕ) → List ℕ → ℕ → ℕ
put_bytes_at mem a [] = mem
put_bytes_at mem a (v ∷ vs) = put_bytes_at (put_byte mem a v) (a + 1) vs

-- The physical address of a user address under the top table at `pgd`; `none` is a data abort.
abbrev pub Mmu : Type 0
Mmu = (mem : ℕ → ℕ) → (pgd addr : ℕ) → Option ℕ

abbrev pub user_start : ℕ
user_start = 0

abbrev pub user_max : ℕ
user_max = 2 ^ 30

abbrev pub user_stack_sz : ℕ
user_stack_sz = stack_sz

abbrev pub psr_mode_el0t : ℕ
psr_mode_el0t = 0

-- `sizeof(struct mm_struct)` and `sizeof(struct pt_regs)`; the offsets of `sp`, `pc` and `spsr` in the
-- latter.
abbrev pub mm_struct_size : ℕ
mm_struct_size = 8 + 16 * max_user_pages + 8 * max_pgtbl_pages

abbrev pub pt_regs_size : ℕ
pt_regs_size = 8 * 34

abbrev pub regs_sp : ℕ
regs_sp = 8 * 31

abbrev pub regs_pc : ℕ
regs_pc = 8 * 32

abbrev pub regs_spsr : ℕ
regs_spsr = 8 * 33

-- `memcpy` to user memory from index `i` on, with `n` bytes left.
unfoldable pub copy_to_user : Mmu → (n i start : ℕ) → M Kernel (Unit {0})
copy_to_user mmu zero i start = pure tt
copy_to_user mmu (suc n) i start = do
  s ← get_state
  pa ← deref (mmu s.pages.mem s.pgd (user_start + i))
  on_pages λ t. ok (tt, record t { mem = put_byte t.mem (va_of pa) (byte_at t.mem (start + i)) })
  copy_to_user mmu n (i + 1) start

-- The page of the new task is cleared already, so `memset` changes nothing.
unfoldable pub new_process : M System ℕ
new_process = do
  p ← on_kernel (on_pages get_free_page)
  modify λ k. record (set_task p (record (new_task 0) { sp = p + stack_sz - pt_regs_size }) k) {
    ring = allocate_node p k.ring;
  }
  pure p

-- `p->mm` and `p->cpu_context.x20`
unfoldable pub new_mm : (fuel p : ℕ) → M System ℕ
new_mm fuel p = do
  mm ← on_heap (kmalloc fuel mm_struct_size)
  pgd ← on_kernel (on_pages get_free_page)
  on_kernel (on_pages (store mm (pa_of pgd)))
  x20 ← on_kernel (on_pages (load mm))
  modify λ k. set_task p (record (k.task p) { mm = mm; x20 = x20 }) k
  pure mm

-- The stack, the program and the registers of the new process.
unfoldable pub load_process : Mmu → (p mm start size : ℕ) → M Kernel (Unit {0})
unfolding copy_to_user
load_process mmu p mm start size = do
  let regs = p + stack_sz - pt_regs_size
  on_pages (alloc_user_pages (user_max - user_stack_sz) user_stack_sz mm)
  on_pages (store (regs + regs_sp) user_max)
  on_pages (alloc_user_pages user_start size mm)
  on_pages (store (regs + regs_pc) user_start)
  λ k. ok (tt, switch_mm mm k)
  copy_to_user mmu size 0 start
  λ k. ok (tt, switch_mm (k.task k.current).mm k)
  on_pages (store (regs + regs_spsr) psr_mode_el0t)

unfoldable pub copy_process : Mmu → (fuel start size : ℕ) → M System (Unit {0})
unfolding new_process new_mm load_process
copy_process mmu fuel start size = do
  modify preempt_disable
  p ← new_process
  mm ← new_mm fuel p
  on_kernel (load_process mmu p mm start size)
  modify λ k. set_task p (record (k.task p) { canary = canary_magic_num }) k
  on_kernel (task_add p)
  modify preempt_enable

-- `filp` is an index of `file_tbl`. What `file_read` stores goes to the buffer; its result is not
-- looked at. The size of an inode on disk has 32 bits, and
-- `kmalloc` returns for at most a page, so it fits an `int`.
unfoldable pub execv : Mmu → (fuel filp : ℕ) → M System (Unit {0})
unfolding copy_process
execv mmu fuel filp = do
  file ← on_fs (get_file filp)
  inode ← on_fs (get_ref file.f_inode)
  buf ← on_heap (kmalloc fuel inode.i_size)
  (ret, out) ← on_fs (file_read filp (pos inode.i_size))
  on_kernel (on_pages λ t. ok (tt, record t { mem = put_bytes_at t.mem buf out }))
  copy_process mmu fuel buf inode.i_size
  on_heap (kfree fuel buf)
