-- ===== src/Tests/Rings.antt =====
-- Rings of include/list.h: head 1 and nodes 2 and 3, with node 4 outside.
use nbos.Base.{ℕ, ◌+◌, ◌≡◌, refl, arith, ltb, ◌==◌, if◌then◌else◌, [], ◌∷◌, ok, M}
use nbos.LinkedList.{Heap, list_del, list_for_each}
use nbos.LinkedList.Chain.{IsRing}
use nbos.LinkedList.Delete.{list_del-IsRing}
use nbos.LinkedList.Walk.{list_for_each_lem}

abbrev pub heap : Heap
heap = record {
  live = λ p. ltb 0 p;
  prev = λ p. if p == 1 then 3 else if p == 2 then 1 else if p == 3 then 2 else 0;
  next = λ p. if p == 1 then 2 else if p == 2 then 3 else if p == 3 then 1 else 0;
}

pub heap-IsRing : IsRing heap 1 (2 ∷ 3 ∷ [])
heap-IsRing = record {
  chain = (refl, refl, (refl, refl, (refl, refl)));
  nodup = (refl, (refl, (refl, tt)));
  live = (refl, (refl, (refl, tt)));
}

list_del-IsRing_example :
    (g : Heap) × (list_del 2 heap ≡ ok (tt, g))
    × IsRing g 1 (3 ∷ [])
    × (g.prev 2 ≡ 0)
    × (g.next 2 ≡ 0)
    × (g.live ≡ heap.live)
list_del-IsRing_example = list_del-IsRing heap 1 2 [] (3 ∷ []) heap-IsRing

-- The sum of the visited addresses, beside the heap.
abbrev sum_heap : ℕ × Heap → Heap
sum_heap (n, h) = h

abbrev add_address : ℕ → ℕ × Heap → ℕ × Heap
add_address x (n, h) = (n + x, h)

abbrev sum_body : ℕ → M (ℕ × Heap) (Unit {0})
sum_body x s = ok (tt, add_address x s)

list_for_each_example : list_for_each sum_heap sum_body 3 1 (0, heap) ≡ ok (tt, (5, heap))
list_for_each_example =
    list_for_each_lem sum_heap sum_body add_address heap 1 (2 ∷ 3 ∷ []) 3 (0, heap)
      (λ x (n, h) e. (refl, e)) refl heap-IsRing (omega arith)
