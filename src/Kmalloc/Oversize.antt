-- ===== src/Kmalloc/Oversize.antt =====
-- Requests that are larger than a page.
use nbos.Base.{
  ℕ, zero, suc, ◌<◌, ◌≡◌, refl, ◌≢◌, inl, inr, arith, Run, ok, fault, out_of_fuel, ◌==◌, M, Option,
  none, some, ◌>>=◌, ◌>>◌, Bool-cases, and_then,
}
use nbos.Page.{Pages, get_free_page, cleared, alloc_page, set_page_flags}
use nbos.Kmalloc.{
  Heap, find_space, grow, kmalloc, init_bucket_desc, lift, set_free_desc, new_object,
}
use nbos.Kmalloc.Buckets.{find_bucket-oversize}

-- A run that needs no fuel.
abbrev Ends : {A : Type 0} → Run A → Type 0
Ends r = r ≢ out_of_fuel

get_free_page-Ends : (s : Pages) → Ends (get_free_page s)
unfolding get_free_page
get_free_page-Ends s = go (alloc_page s)
  where
    go : (r : Option ℕ × Pages) → Ends (cleared r)
    go (none, t) = λ e. cc
    go (some i, t) = λ e. cc

and_then-Ends :
    {A B : Type 0} (r : Run A) (k : A → Run B)
    → Ends r
    → ((a : A) → Ends (k a))
    → Ends (and_then r k)
and_then-Ends (ok a) k e f = f a
and_then-Ends fault k e f = λ h. cc
and_then-Ends out_of_fuel k e f = absurd (e refl)

-- What faults after every successful run faults.
and_then-fault :
    {A B : Type 0} (r : Run A) (k : A → Run B)
    → Ends r
    → ((a : A) → k a ≡ fault)
    → and_then r k ≡ fault
and_then-fault (ok a) k e f = f a
and_then-fault fault k e f = refl
and_then-fault out_of_fuel k e f = absurd (e refl)

set_page_flags-Ends : (a f : ℕ) (s : Pages) → Ends (set_page_flags a f s)
unfolding set_page_flags
set_page_flags-Ends a f s = ground arith

lift-Ends : {A : Type 0} (m : M Pages A) (s : Heap) → Ends (m s.pages) → Ends (lift m s)
lift-Ends m s e = and_then-Ends (m s.pages) _ e (λ (a, p) h. cc)

init_bucket_desc-Ends : (s : Heap) → Ends (init_bucket_desc s)
unfolding init_bucket_desc
init_bucket_desc-Ends s =
    and_then-Ends (lift get_free_page s) _ (lift-Ends get_free_page s (get_free_page-Ends s.pages))
      λ (first, t).
        and_then-Ends (lift (set_page_flags first 1) t) _
          (lift-Ends (set_page_flags first 1) t (set_page_flags-Ends first 1 t.pages))
          (λ (_, u) h. cc)

grow-end_marker : (b : ℕ) (s : Heap) → grow b 0 s ≡ fault
unfolding grow new_object
grow-end_marker b s = elim (Bool-cases (s.free_bucket_desc == 0)) [
  | inl empty ↦
      rw empty
        (and_then-fault (init_bucket_desc s) _ (init_bucket_desc-Ends s) λ (_, t). new_page t)
  | inr left ↦ rw left (new_page s)
]
  where
    new_page :
        (t : Heap)
        → (set_free_desc (t.desc t.free_bucket_desc).next
              >> (lift get_free_page >>= λ cp. new_object t.free_bucket_desc b 0 cp))
            t
          ≡ fault
    new_page t =
        let u : Heap = record t { free_bucket_desc = (t.desc t.free_bucket_desc).next } in
        and_then-fault (lift get_free_page u) _
          (lift-Ends get_free_page u (get_free_page-Ends u.pages)) λ (cp, v). refl

-- A request for more than a page does not return: after its message `kmalloc` goes on with the end
-- marker, whose chain is empty, and divides by its size.
pub kmalloc-oversize :
    (fuel len : ℕ) (s : Heap) → 4096 < len → s.chain 9 ≡ 0 → 0 < fuel → kmalloc fuel len s ≡ fault
unfolding kmalloc find_space
kmalloc-oversize zero len s h c f = absurd (omega arith)
kmalloc-oversize (suc k) len s h c f = rw (find_bucket-oversize len h, c, grow-end_marker 9 s)
