-- ===== src/Tests/Starting.antt =====
-- The start: the mapping of the flash chip, the first tasks, a directory that is printed, and the
-- interrupt controller.
use nbos.Base.Bits.{all_below, all_below-lt}
use nbos.Gic.{gic_v3_initialize, timer_irq, spurious_intr, all_ones}
use nbos.Gic.Gicd
use nbos.Gic.Start.{IsController, gic_v3_initialize-enabled}
use nbos.Base.{
  Bool, true, not, ◌&&◌, ◌||◌, ◌/◌, ◌%◌, ◌^◌, ℕ, ◌+◌, ◌*◌, ◌<◌, ◌≤◌, ◌≡◌, ◌≢◌, refl, arith, inl,
  inr, Bool-cases, subst, ==→eq, false, ◌==◌, if◌then◌else◌, List, [], ◌∷◌, ◌++◌, some, ok, fault,
  ◌>>◌,
}
use nbos.Console.{Line}
use nbos.Page.{Pages, pa_of, high_mem, page_size}
use nbos.Paging.{init_mm, pflash1_base, pflash1_pa_base, pflash1_size}
use nbos.Paging.Walk.{IsMapped, slot_of, translate}
use nbos.Paging.Section.{levels}
use nbos.Paging.Flash.{init_mm-translate}
use nbos.Task.{Kernel, fresh, kthread_create}
use nbos.Task.Rotation.{schedule_times}
use nbos.Boot.{init_init_task}
use nbos.Boot.Tasks.{init_init_task-turn}
use nbos.Fs.{Fs, Buf}
use nbos.Fs.Print.{entry_inode, print_dir_entries}
use nbos.Fs.Print.Listing.{entry_lines, print_dir_entries-lines}
use nbos.Tests.Files.{fs}
use nbos.Tests.Tables.{all_free, pages, pgd}
use nbos.Tests.Tasks.{kernel, kernel-IsBalanced}

-- The top table leads to a table behind it in the image, which is empty.
abbrev start : Pages
start = record pages {
  mem = λ a. if a == slot_of pgd pflash1_base 39 then pa_of (pgd + page_size) + 3 else 0;
}

init_mm-translate_example :
    (out' : List Line) × (t : Pages) × (init_mm pgd (pgd + 2 * page_size) ([], start)
      ≡ ok (tt, (out', t)))
    × (pa_of (pgd + 2 * page_size) ≤ high_mem → out' ≡ [])
    × ((x : ℕ)
        → x < pflash1_size
        → translate t.mem pgd (pflash1_base + x) ≡ some (pflash1_pa_base + x))
    × ((other e : ℕ)
        → IsMapped start other levels (slot_of pgd other 39) e
        → translate t.mem pgd other ≡ translate start.mem pgd other)
init_mm-translate_example =
    init_mm-translate start [] pgd (pgd + 2 * page_size) (λ j h z. inl (omega arith)) refl
      (λ j h z. inl (omega arith)) refl (omega (arith, all_free 3840))

init_init_task-turn_example :
    (p : ℕ) × (t : Kernel) × (u : Kernel) × ((init_init_task 4096 >> kthread_create 7) kernel
      ≡ ok (tt, t))
    × ((t.task p).x19 ≡ 7)
    × ((t.task p).resume ≡ fresh)
    × (schedule_times 1 t ≡ ok (tt, u))
    × (u.current ≡ p)
init_init_task-turn_example =
    init_init_task-turn 4096 7 kernel 5 refl (λ e. omega (arith, e)) kernel-IsBalanced refl
      (λ j h z. inl (omega arith)) (λ j h z. inl (omega arith)) (omega arith) refl

-- A directory of two entries behind the first.
abbrev directory : Buf
directory = record {
  id = 0;
  blk_no = 696;
  dirty = false;
  bytes = λ i. if i == 32 then 2 else if i == 64 then 3 else 0;
}

abbrev with_directory : Fs
with_directory = record fs { bufs = directory ∷ [] }

entries_used : (j : ℕ) → 1 ≤ j → j < 1 + 2 → entry_inode directory.bytes j ≢ 0
entries_used j p q z = elim (Bool-cases (j == 1)) [
  | inl e ↦ used_at 1 (==→eq j 1 e) (λ w. omega (arith, w))
  | inr e ↦ used_at 2 (ground (arith, p, q)) (λ w. omega (arith, w))
]
  where
    used_at : (k : ℕ) → j ≡ k → entry_inode directory.bytes k ≢ 0 → ⊥
    used_at k e u = u (subst (λ (i : ℕ). entry_inode directory.bytes i ≡ 0) e z)

print_dir_entries-lines_example :
    (2 < 31
      → entry_inode directory.bytes (1 + 2) ≡ 0
      → print_dir_entries 0 ([], with_directory)
        ≡ ok (tt, ([] ++ entry_lines directory.bytes 2 1, with_directory)))
    × (◌≡◌ {A = ℕ} 2 31 → print_dir_entries 0 ([], with_directory) ≡ fault)
print_dir_entries-lines_example =
    print_dir_entries-lines 2 0 directory [] with_directory refl entries_used

-- A controller that is the interrupts it has enabled.
abbrev Interrupts : Type 0
Interrupts = ℕ → Bool

abbrev read : Interrupts → ℕ → ℕ × Interrupts
read d a = (spurious_intr, d)

abbrev clears : (a v i : ℕ) → Bool
clears a v i = (a == Gicd.icenabler (i / 32)) && (v == all_ones)

abbrev sets : (a v i : ℕ) → Bool
sets a v i = (a == Gicd.isenabler (i / 32)) && (v == 2 ^ (i % 32))

abbrev write : Interrupts → ℕ → ℕ → Interrupts
write d a v i = if clears a v i then false else if sets a v i then true else d i

abbrev is_bit : (irq i : ℕ) → Bool
is_bit irq i =
    let set = sets (Gicd.isenabler (irq / 32)) (2 ^ (irq % 32)) i in
    not (clears (Gicd.isenabler (irq / 32)) (2 ^ (irq % 32)) i)
    && (if i == irq then set else not set)

bits : all_below 64 (λ irq. all_below 64 (λ i. is_bit irq i)) ≡ true
unfolding all_below
bits = refl

bits-lt : (irq i : ℕ) → irq < 64 → i < 64 → is_bit irq i ≡ true
bits-lt irq i l m =
    all_below-lt 64 (λ i. is_bit irq i) i
      (all_below-lt 64 (λ irq. all_below 64 (λ i. is_bit irq i)) irq bits l) m

enable_law :
    (c s h x : Bool)
    → (not c && (if h then s else not s)) ≡ true
    → (if c then false else if s then true else x) ≡ (h || x)
enable_law c s h x e = ground (arith, e)

interrupts-IsController : IsController read write (λ d i. d i) (λ d. Unit)
interrupts-IsController = record {
  enable = λ d irq i l _ m. let b = bits-lt irq i l m in enable_law _ _ _ (d i) b;
  disable = λ d k i l _ m. ground (arith, l, m);
  other = λ d a v i o _ l. ground (arith, o, l);
  quiet = λ d a i _ l. refl;
  silent = λ d a v q r. tt;
  spurious = λ d q o. refl;
}

gic_v3_initialize-enabled_example :
    (e : Interrupts) × (gic_v3_initialize read write 1 (λ _. true) ≡ ok e)
    × ((i : ℕ) → 16 ≤ i → i < 64 → e i ≡ (i == timer_irq))
gic_v3_initialize-enabled_example =
    gic_v3_initialize-enabled read write (λ d i. d i) (λ d. Unit) interrupts-IsController 0
      (λ _. true) tt
