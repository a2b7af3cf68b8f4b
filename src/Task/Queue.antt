-- ===== src/Task/Queue.antt =====
-- The queue of tasks: the ring behind the node of the first task.
use nbos.Base.{
  ℕ, ◌+◌, ◌<◌, ◌≡◌, refl, arith, true, false, ok, List, [], ◌∷◌, ◌++◌, length, and_then, ◌==◌,
  if◌then◌else◌, ◌∙◌, ap,
}
use nbos.LinkedList.Chain.{IsRing, has}
use nbos.LinkedList.Insert.{list_add_tail-IsRing}
use nbos.LinkedList.Walk.{list_for_each_lem, visit_all}
use nbos.Task.{
  Kernel, running, node_of, task_add, task_nums, counted_ring, count_up, count_task, set_task,
}

-- `task_add` of a task whose node is allocated and not in the queue puts it at the end of the queue,
-- behind all others, and makes it runnable; all other tasks keep their states.
pub task_add-IsRing :
    (s : Kernel) (new : ℕ) (xs : List ℕ)
    → IsRing s.ring (node_of s.init_task) xs
    → s.ring.live (node_of new) ≡ true
    → has (node_of new) (node_of s.init_task ∷ xs) ≡ false
    → (t : Kernel) × (task_add new s ≡ ok (tt, t))
      × IsRing t.ring (node_of s.init_task) (xs ++ node_of new ∷ [])
      × ((p : ℕ) → (t.task p).state ≡ (if p == new then running else (s.task p).state))
unfolding task_add
task_add-IsRing s new xs r l o =
    let (g, run, ring, _) =
      list_add_tail-IsRing s.ring (node_of new) (node_of s.init_task) xs r l o in
    (
      set_task new (record (s.task new) { state = running }) (record s { ring = g }),
      rw run,
      ring,
      λ p. ground arith,
    )

visit_all-count :
    (xs : List ℕ) (n : ℕ) (s : Kernel)
    → visit_all counted_ring count_task count_up xs (n, s) ≡ (n + length xs, s)
visit_all-count [] n s = ap (λ k. (k, s)) (omega arith)
visit_all-count (x ∷ xs) n s = visit_all-count xs (n + 1) s ∙ ap (λ k. (k, s)) (omega arith)

-- `task_nums`, given more fuel than the queue is long, counts the tasks of the queue and the first
-- task, and changes nothing.
pub task_nums-length :
    (s : Kernel) (xs : List ℕ) (fuel : ℕ)
    → IsRing s.ring (node_of s.init_task) xs
    → length xs < fuel
    → task_nums fuel s ≡ ok (length xs + 1, s)
unfolding task_nums
task_nums-length s xs fuel r f =
    ap (λ r. and_then r λ (_, (count, t)). ok (count + 1, t))
      (list_for_each_lem counted_ring count_task count_up s.ring (node_of s.init_task) xs fuel
          (0, s) (λ x (n, t) e. (refl, e)) refl r f
        ∙ ap (λ c. ok (tt, c)) (visit_all-count xs 0 s))
    ∙ ap (λ k. ok (k, s)) (omega arith)
