-- ===== src/LinkedList/Walk.antt =====
-- `list_for_each` with a body that leaves the links alone visits the nodes of the ring in order.
use nbos.Base.{ℕ, zero, suc, ◌<◌, ◌≡◌, false, List, [], ◌∷◌, arith, ok, M, ◌==◌, ==_refl, length}
use nbos.LinkedList.{Heap, for_each_from, list_for_each, advance}
use nbos.LinkedList.Chain.{has, AllLive, Chain, IsRing}

module _ {S : Type 0} (heap : S → Heap) (body : ℕ → M S (Unit {0})) (step : ℕ → S → S) where
  abbrev pub visit_all : List ℕ → S → S
  visit_all [] s = s
  visit_all (x ∷ xs) s = visit_all xs (step x s)

  -- The body succeeds, with the effect `step`, wherever the links are those of `h`.
  abbrev pub Keeps : Heap → Type 0
  Keeps h = (x : ℕ) (s : S) → heap s ≡ h → (body x s ≡ ok (tt, step x s)) × (heap (step x s) ≡ h)

  for_each_from_lem :
      (h : Heap) (head p : ℕ) (xs : List ℕ) (k : ℕ) (s : S)
      → Keeps h
      → heap s ≡ h
      → Chain h p xs head
      → has head xs ≡ false
      → AllLive h xs
      → length xs < k
      → for_each_from heap body k head (h.next p) s ≡ ok (tt, visit_all xs s)
  unfolding for_each_from
  for_each_from_lem h head p xs zero s keep e c o l f = absurd (omega arith)
  for_each_from_lem h head p [] (suc k) s keep e c o l f = rw (c.0, ==_refl head)
  for_each_from_lem h head p (x ∷ xs) (suc k) s keep e (a, b, c) o (live, l) f =
      let (run, same) = keep x s e in
      rw (a, other, run, moves same)
        (for_each_from_lem h head x xs k (step x s) keep same c (ground arith) l (omega arith))
    where
      other : (x == head) ≡ false
      other = ground arith

      moves : heap (step x s) ≡ h → advance heap body x (step x s) ≡ ok (h.next x, step x s)
      moves same = unfold advance in rw (same, live)

  -- Over a ring of `xs`, with more fuel than there are nodes, `list_for_each` runs the body on each
  -- node of `xs` once, in order, and ends without a fault.
  pub list_for_each_lem :
      (h : Heap) (head : ℕ) (xs : List ℕ) (fuel : ℕ) (s : S)
      → Keeps h
      → heap s ≡ h
      → IsRing h head xs
      → length xs < fuel
      → list_for_each heap body fuel head s ≡ ok (tt, visit_all xs s)
  unfolding list_for_each advance
  list_for_each_lem h head xs fuel s keep e r f =
      rw (e, r.live.0) (for_each_from_lem h head head xs fuel s keep e r.chain r.nodup.0 r.live.1 f)
