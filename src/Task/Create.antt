-- ===== src/Task/Create.antt =====
-- A new kernel thread.
use nbos.Base.{
  ℕ, ◌+◌, ◌<◌, ◌≡◌, refl, ◌≢◌, sym, ◌∙◌, ap, arith, false, ◌==◌, ==→eq, ==_ne, ==_refl, List, [],
  ◌∷◌, ◌++◌, ok, Bool-cases, inl, inr, subst,
}
use nbos.LinkedList
use nbos.LinkedList.Chain.{has, AllLive, IsRing}
use nbos.LinkedList.Insert.{list_add_tail-IsRing}
use nbos.Page.{Pages, page_size, paging_pages}
use nbos.Page.Address.{page_va}
use nbos.Page.Alloc.{Got, get_free_page-Got}
use nbos.Page.Free.{IsTaken}
use nbos.Task.{
  Kernel, Task, dead, running, fresh, node_of, stack_sz, canary_magic_num, new_task, allocate_node,
  set_task, task_add, kthread_create, preempt_disable, preempt_enable,
}
use nbos.Task.Switch.{IsBalanced, parked, with_count}

AllLive-allocate :
    (h : LinkedList.Heap) (p : ℕ) (xs : List ℕ) → AllLive h xs → AllLive (allocate_node p h) xs
AllLive-allocate h p [] l = tt
AllLive-allocate h p (x ∷ xs) (l, ls) = (ground arith, AllLive-allocate h p xs ls)

IsRing-allocate :
    (h : LinkedList.Heap) (p head : ℕ) (xs : List ℕ)
    → IsRing h head xs
    → IsRing (allocate_node p h) head xs
IsRing-allocate h p head xs r = record {
  chain = r.chain;
  nodup = r.nodup;
  live = AllLive-allocate h p (head ∷ xs) r.live;
}

-- The nodes lie in no free page.
abbrev pub AllTaken : Pages → List ℕ → Type 0
AllTaken s [] = Unit
AllTaken s (x ∷ xs) = IsTaken s x × AllTaken s xs

free_node :
    (s : Pages) (i : ℕ) (xs : List ℕ)
    → i < paging_pages
    → s.count i ≡ 0
    → AllTaken s xs
    → has (node_of (page_va i)) xs ≡ false
free_node s i [] l z h = refl
free_node s i (x ∷ xs) l z (h, hs) = let away = h i l z in ground (arith, free_node s i xs)

-- `t` is `s` with a new task in page `i`.
pub record Created (s : Kernel) (main : ℕ) (xs : List ℕ) (i : ℕ) (t : Kernel) : Type 0 where
  pub page : Got s.pages t.pages i
  pub queue : IsRing t.ring (node_of s.init_task) (xs ++ node_of (page_va i) ∷ [])
  pub state : (t.task (page_va i)).state ≡ running
  pub resume : (t.task (page_va i)).resume ≡ fresh
  pub entry : (t.task (page_va i)).x19 ≡ main
  pub stack : (t.task (page_va i)).sp ≡ page_va i + page_size
  pub others : (p : ℕ) → p ≢ page_va i → t.task p ≡ s.task p
  pub current : t.current ≡ s.current
  pub balanced : IsBalanced t

abbrev thread : (main p : ℕ) → Task
thread main p = record (new_task main) {
  sp = p + stack_sz;
  canary = canary_magic_num;
  state = running;
}

-- The kernel after the run, with the pages and the ring from its parts.
abbrev created : Kernel → (main p : ℕ) → Pages → LinkedList.Heap → Kernel
unfolding preempt_disable preempt_enable
created s main p pages g =
    let u =
      record (set_task p (record (thread main p) { state = dead })
        (record (preempt_disable s) { pages = pages })) { ring = g } in
    preempt_enable (set_task p (record (u.task p) { state = running }) u)

created-new :
    (s : Kernel) (main p : ℕ) (pages : Pages) (g : LinkedList.Heap)
    → p ≢ s.current
    → (created s main p pages g).task p ≡ thread main p
unfolding preempt_disable preempt_enable
created-new s main p pages g n = rw (==_ne p s.current n, ==_refl p)

created-old :
    (s : Kernel) (main p : ℕ) (pages : Pages) (g : LinkedList.Heap) (q : ℕ)
    → (s.task s.current).preempt_count ≡ 0
    → p ≢ s.current
    → q ≢ p
    → (created s main p pages g).task q ≡ s.task q
unfolding preempt_disable preempt_enable
created-old s main p pages g q z n o = elim (Bool-cases (q == s.current)) [
  | inl e ↦
      rw (==→eq q s.current e, ==_ne s.current p (λ h. n (sym h)), ==_refl s.current)
        (ap (with_count (s.task s.current)) (omega (arith, z)))
  | inr e ↦ rw (e, ==_ne q p o)
]

created-Created :
    (s : Kernel) (main : ℕ) (xs : List ℕ) (i : ℕ) (pages : Pages) (g : LinkedList.Heap)
    → IsBalanced s
    → page_va i ≢ s.current
    → Got s.pages pages i
    → IsRing g (node_of s.init_task) (xs ++ node_of (page_va i) ∷ [])
    → Created s main xs i (created s main (page_va i) pages g)
unfolding preempt_disable preempt_enable
created-Created s main xs i pages g b n got ring = record {
  page = got;
  queue = ring;
  state = ap (λ (u : Task). u.state) new;
  resume = ap (λ (u : Task). u.resume) new;
  entry = ap (λ (u : Task). u.x19) new;
  stack = ap (λ (u : Task). u.sp) new;
  others = old;
  current = refl;
  balanced = record {
    running = ap (λ (u : Task). u.preempt_count) (old s.current (λ e. n (sym e))) ∙ b.running;
    others = λ q o. elim (Bool-cases (q == page_va i)) [
      | inl h ↦
          subst (λ (k : ℕ). (after.task k).preempt_count ≡ parked (after.task k).resume)
            (sym (==→eq q (page_va i) h))
            (ap (λ (u : Task). u.preempt_count) new ∙ ap (λ (u : Task). parked u.resume) (sym new))
      | inr h ↦
          let same = old q (λ e. cc (h, e, ==_refl (page_va i))) in
          ap (λ (u : Task). u.preempt_count) same
          ∙ b.others q o
          ∙ ap (λ (u : Task). parked u.resume) (sym same)
    ];
  };
}
  where
    after : Kernel
    after = created s main (page_va i) pages g

    new : after.task (page_va i) ≡ thread main (page_va i)
    new = created-new s main (page_va i) pages g n

    old : (q : ℕ) → q ≢ page_va i → after.task q ≡ s.task q
    old q o = created-old s main (page_va i) pages g q b.running n o

-- With a free page, `kthread_create` succeeds and creates the task in the highest one: the new task
-- is the last of the queue, can run, and starts at `main` on the stack at the end of its page; the
-- other tasks are as before, to every field, the caller goes on, and the preemption counts stay balanced. Neither
-- the running task nor a node of the queue may lie in a free page.
pub kthread_create-Created :
    (s : Kernel) (main : ℕ) (xs : List ℕ) (j : ℕ)
    → IsBalanced s
    → IsRing s.ring (node_of s.init_task) xs
    → AllTaken s.pages (s.current ∷ node_of s.init_task ∷ xs)
    → j < paging_pages
    → s.pages.count j ≡ 0
    → (i : ℕ) × (t : Kernel) × (kthread_create main s ≡ ok (tt, t)) × Created s main xs i t
unfolding kthread_create task_add preempt_disable preempt_enable
kthread_create-Created s main xs j b r (c, a) l z =
    let (i, pages, run, got) = get_free_page-Got s.pages j l z in
    let p = page_va i in
    let apart = c i got.below got.was_free in
    let (g, added, ring, _) =
      list_add_tail-IsRing (allocate_node p s.ring) (node_of p) (node_of s.init_task) xs
        (IsRing-allocate s.ring p (node_of s.init_task) xs r) (rw (==_refl (node_of p)) refl)
        (free_node s.pages i (node_of s.init_task ∷ xs) got.below got.was_free a) in
    (
      i,
      created s main p pages g,
      rw (run, added),
      created-Created s main xs i pages g b (λ e. omega (arith, apart, e)) got ring,
    )
