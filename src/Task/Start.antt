-- ===== src/Task/Start.antt =====
-- A new kernel thread gets its turn.
use nbos.Base.{
  ℕ, suc, ◌+◌, ◌<◌, ◌≡◌, refl, sym, ◌∙◌, ap, arith, true, false, ◌==◌, ==→eq, ==_refl, List, [],
  ◌∷◌, ◌++◌, get_elem?, some, length, ok, Bool-cases, inl, inr, subst, ◌⊎◌,
}
use nbos.LinkedList.Chain.{IsRing}
use nbos.Page.{paging_pages}
use nbos.Page.Address.{page_va}
use nbos.Task.{Kernel, Task, running, fresh, node_of, task_of, kthread_create}
use nbos.Task.Switch.{IsBalanced}
use nbos.Task.Create.{AllTaken, Created, kthread_create-Created}
use nbos.Task.Rotation.{AllRunnable, schedule_times, schedule_times-turn}

get_elem?-behind : (xs ys : List ℕ) (n : ℕ) → get_elem? ((xs ++ n ∷ []) ++ ys) (length xs) ≡ some n
get_elem?-behind [] ys n = refl
get_elem?-behind (x ∷ xs) ys n = get_elem?-behind xs ys n

-- The other tasks can run as before, and so can the new one.
runnable_after :
    (s : Kernel) (main i : ℕ) (xs ys : List ℕ) (t : Kernel)
    → Created s main xs i t
    → AllRunnable s ys
    → AllRunnable t ys
runnable_after s main i xs [] t c a = tt
runnable_after s main i xs (y ∷ ys) t c (n, z, r, a) =
    (n, z, state (Bool-cases (task_of y == page_va i)), runnable_after s main i xs ys t c a)
  where
    state :
        ((task_of y == page_va i) ≡ true) ⊎ ((task_of y == page_va i) ≡ false)
        → (t.task (task_of y)).state ≡ running
    state (inl e) = ap (λ p. (t.task p).state) (==→eq (task_of y) (page_va i) e) ∙ c.state
    state (inr e) =
        ap (λ (u : Task). u.state) (c.others (task_of y) (λ h. cc (e, h, ==_refl (page_va i)))) ∙ r

AllRunnable-insert :
    (t : Kernel) (xs ys : List ℕ) (n : ℕ)
    → AllRunnable t (xs ++ ys)
    → AllRunnable t (n ∷ [])
    → AllRunnable t ((xs ++ n ∷ []) ++ ys)
AllRunnable-insert t [] ys n a (e, z, r, _) = (e, z, r, a)
AllRunnable-insert t (x ∷ xs) ys n (e, z, r, a) b = (e, z, r, AllRunnable-insert t xs ys n a b)

new_runnable :
    (s : Kernel) (main i : ℕ) (xs : List ℕ) (t : Kernel)
    → Created s main xs i t
    → AllRunnable t (node_of (page_va i) ∷ [])
new_runnable s main i xs t c = (
  omega arith,
  (λ z. omega (arith, z, c.page.below)),
  ap (λ p. (t.task p).state) same ∙ c.state,
  tt,
)
  where
    same : task_of (node_of (page_va i)) ≡ page_va i
    same = omega arith

-- When the first task creates a thread while all tasks of the queue can run, the thread runs, for the
-- first time, after each task of the queue had its turn: after one call of `schedule` for each of
-- them and one more. A page must be free, and none of the tasks may lie in a free page.
pub kthread_create-turn :
    (s : Kernel) (main : ℕ) (xs : List ℕ) (j : ℕ)
    → IsBalanced s
    → s.current ≡ s.init_task
    → IsRing s.ring (node_of s.init_task) xs
    → AllTaken s.pages (s.current ∷ node_of s.init_task ∷ xs)
    → AllRunnable s (xs ++ node_of s.current ∷ [])
    → j < paging_pages
    → s.pages.count j ≡ 0
    → (p : ℕ) × (t : Kernel) × (u : Kernel) × (kthread_create main s ≡ ok (tt, t))
      × ((t.task p).x19 ≡ main)
      × ((t.task p).resume ≡ fresh)
      × (schedule_times (length xs + 1) t ≡ ok (tt, u))
      × (u.current ≡ p)
kthread_create-turn s main xs j b first r taken a l z =
    let (i, t, run, c) = kthread_create-Created s main xs j b r taken l z in
    let n = node_of (page_va i) in
    let (u, turns, done) =
      schedule_times-turn t (xs ++ n ∷ []) (length xs) n c.balanced
        (subst (λ (p : ℕ). IsRing t.ring (node_of p) (xs ++ n ∷ [])) (sym (c.current ∙ first))
          c.queue)
        (AllRunnable-insert t xs (node_of t.current ∷ []) n
          (runnable_after s main i xs (xs ++ node_of t.current ∷ []) t c
            (subst (λ (p : ℕ). AllRunnable s (xs ++ node_of p ∷ [])) (sym c.current) a))
          (new_runnable s main i xs t c))
        (get_elem?-behind xs (node_of t.current ∷ []) n) in
    (
      page_va i,
      t,
      u,
      run,
      c.entry,
      c.resume,
      ap (λ (k : ℕ). schedule_times k t) {x = length xs + 1} {y = suc (length xs)} (omega arith)
          ∙ turns,
      done ∙ omega arith,
    )
