-- ===== src/Boot/Tasks.antt =====
-- The first tasks.
use nbos.Base.{
  ℕ, ◌<◌, ◌≡◌, refl, ◌≢◌, sym, ◌∙◌, ap, subst, arith, true, ◌==◌, ==→eq, ==_refl, [], ok, ◌>>◌,
  Bool-cases, inl, inr,
}
use nbos.LinkedList
use nbos.LinkedList.{init_list_head, set_next, set_prev, update}
use nbos.LinkedList.Chain.{IsRing}
use nbos.Page.{paging_pages}
use nbos.Page.Free.{IsTaken}
use nbos.Task.{Kernel, running, fresh, node_of, task_of, set_task, kthread_create, canary_magic_num}
use nbos.Task.Switch.{IsBalanced, parked}
use nbos.Task.Rotation.{schedule_times}
use nbos.Task.Start.{kthread_create-turn}
use nbos.Boot.{init_init_task}

-- The ring of one node.
init_list_head-IsRing :
    (h : LinkedList.Heap) (head : ℕ)
    → h.live head ≡ true
    → (g : LinkedList.Heap) × (init_list_head head h ≡ ok (tt, g)) × IsRing g head []
unfolding init_list_head set_next set_prev
init_list_head-IsRing h head l = (
  record h { prev = update h.prev head head; next = update h.next head head },
  rw (l, l),
  record { chain = (rw (==_refl head), rw (==_refl head)); nodup = (refl, tt); live = (l, tt) },
)

-- The first task takes over the code that runs on its stack since the start.
abbrev first_task : (stack : ℕ) → Kernel → LinkedList.Heap → Kernel
first_task stack s g =
    set_task stack (record (s.task stack) { state = running; canary = canary_magic_num })
      (record s { init_task = stack; ring = g })

init_init_task-IsRing :
    (stack : ℕ) (s : Kernel)
    → s.ring.live (node_of stack) ≡ true
    → (g : LinkedList.Heap) × (init_init_task stack s ≡ ok (tt, first_task stack s g))
      × IsRing g (node_of stack) []
unfolding init_init_task
init_init_task-IsRing stack s l =
    let (g, run, ring) = init_list_head-IsRing s.ring (node_of stack) l in (g, rw run, ring)

first_task_kept :
    (stack : ℕ) (s : Kernel) (g : LinkedList.Heap) (q : ℕ)
    → (((first_task stack s g).task q).preempt_count ≡ (s.task q).preempt_count)
      × (((first_task stack s g).task q).resume ≡ (s.task q).resume)
first_task_kept stack s g q = elim (Bool-cases (q == stack)) [
  | inl e ↦ (
    rw e (ap (λ p. (s.task p).preempt_count) (sym (==→eq q stack e))),
    rw e (ap (λ p. (s.task p).resume) (sym (==→eq q stack e))),
  )
  | inr e ↦ (rw e, rw e)
]

first_task-IsBalanced :
    (stack : ℕ) (s : Kernel) (g : LinkedList.Heap)
    → IsBalanced s
    → IsBalanced (first_task stack s g)
first_task-IsBalanced stack s g b = record {
  running = (first_task_kept stack s g s.current).0 ∙ b.running;
  others = λ p n.
      let (count, resume) = first_task_kept stack s g p in
      count ∙ b.others p n ∙ ap parked (sym resume);
}

-- The code that runs on the stack of the first task becomes that task and creates the idle thread:
-- the next call of `schedule` runs that thread, for the first time. The stack must not lie in a free
-- page, and a page must be free.
pub init_init_task-turn :
    (stack idle : ℕ) (s : Kernel) (j : ℕ)
    → s.current ≡ stack
    → stack ≢ 0
    → IsBalanced s
    → s.ring.live (node_of stack) ≡ true
    → IsTaken s.pages stack
    → IsTaken s.pages (node_of stack)
    → j < paging_pages
    → s.pages.count j ≡ 0
    → (p : ℕ) × (t : Kernel) × (u : Kernel) × ((init_init_task stack >> kthread_create idle) s
        ≡ ok (tt, t))
      × ((t.task p).x19 ≡ idle)
      × ((t.task p).resume ≡ fresh)
      × (schedule_times 1 t ≡ ok (tt, u))
      × (u.current ≡ p)
init_init_task-turn stack idle s j c nz b l ts tn below free =
    let (g, run, ring) = init_init_task-IsRing stack s l in
    let k = first_task stack s g in
    let there : task_of (node_of s.current) ≡ s.current = omega arith in
    let same : task_of (node_of s.current) ≡ stack = there ∙ c in
    let (p, t, u, made, entry, res, turn, done) =
      kthread_create-turn k idle [] j (first_task-IsBalanced stack s g b) c ring
        (subst (λ (p : ℕ). IsTaken s.pages p) (sym c) ts, (tn, tt))
        (
          omega arith,
          (λ z. nz (sym c ∙ omega (arith, z))),
          ap (λ p. (k.task p).state) same ∙ rw (==_refl stack),
          tt,
        )
        below free in
    (p, t, u, rw run made, entry, res, turn, done)
