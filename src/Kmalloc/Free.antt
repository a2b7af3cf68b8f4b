-- ===== src/Kmalloc/Free.antt =====
-- `free_s` of an object of a page that stays in use.
use nbos.Base.{
  ℕ, ◌+◌, ◌-◌, ◌%◌, ◌<◌, ◌≤◌, ◌≡◌, refl, ◌≢◌, sym, ◌∙◌, ap, subst, arith, true, ◌==◌, ==_ne, ==→eq,
  ==_refl, Bool-cases, inl, inr, List, [], ◌∷◌, length, ok, some, fun_ext, ap₂, ◌^◌, get_elem?,
}
use nbos.LinkedList.Chain.{has}
use nbos.Page.{page_size, update}
use nbos.Kmalloc.{Heap, Desc, find_bucket, bucket_sizes, kmalloc, free_s, give_object, update_desc}
use nbos.Kmalloc.Find.{has-tail, Owner, find_owner-found}
use nbos.Kmalloc.Slots.{IsSlab, taken, take-run}
use nbos.Kmalloc.Chains.{DescChain, first_space, find_space-first_space}

-- The chain of each bucket, and that no page is in two places of them.
pub record Chained (s : Heap) (fuel : ℕ) (chains : ℕ → List ℕ) : Type 0 where
  pub links : (b : ℕ) → b ≤ 8 → DescChain s.desc (chains b) (s.chain b)
  pub short : (b : ℕ) → b ≤ 8 → length (chains b) < fuel
  pub apart :
      (b c d e : ℕ)
      → b ≤ 8
      → c ≤ 8
      → has d (chains b) ≡ true
      → has e (chains c) ≡ true
      → (s.desc d).page ≡ (s.desc e).page
      → (b ≡ c) × (d ≡ e)

pub bucket_at :
    (len : ℕ)
    → len ≤ 4096
    → (get_elem? bucket_sizes (find_bucket len).0 ≡ some (find_bucket len).1)
      × (len ≤ (find_bucket len).1)
      × ((find_bucket len).0 ≤ 8)
unfolding find_bucket
bucket_at len h = (ground arith, ground arith, ground arith)

first_space-has :
    (f : ℕ → Desc) (ds : List ℕ) → first_space f ds ≢ 0 → has (first_space f ds) ds ≡ true
unfolding first_space
first_space-has f [] n = absurd (n refl)
first_space-has f (d ∷ ds) n = elim (Bool-cases ((f d).freeptr == 0)) [
  | inl full ↦
      let step : first_space f (d ∷ ds) ≡ first_space f ds = rw full in
      subst (λ (k : ℕ). has k (d ∷ ds) ≡ true) (sym step)
        (has-tail d ds (first_space f ds) (first_space-has f ds (λ z. n (step ∙ z))))
  | inr room ↦ rw (room, ==_refl d)
]

kmalloc-run :
    (fuel len : ℕ) (s : Heap) (ds : List ℕ) (total x : ℕ) (xs : List ℕ)
    → DescChain s.desc ds (s.chain (find_bucket len).0)
    → length ds < fuel
    → first_space s.desc ds ≢ 0
    → IsSlab s (first_space s.desc ds) total (x ∷ xs)
    → kmalloc fuel len s ≡ ok (x, taken s (first_space s.desc ds))
unfolding kmalloc
kmalloc-run fuel len s ds total x xs c h ne i =
    let d = first_space s.desc ds in
    rw (find_space-first_space fuel s.desc ds (s.chain (find_bucket len).0) c h, ==_ne d 0 ne)
      (take-run s d ∙ ap (λ (p : ℕ). ok (p, taken s d)) i.free.0)

-- The object goes back to where it was.
give_object-taken :
    (s : Heap) (d total x : ℕ) (xs : List ℕ)
    → IsSlab s d total (x ∷ xs)
    → give_object x d (taken s d) ≡ ok (tt, s)
unfolding give_object
give_object-taken s d total x xs i =
    let t = taken s d in
    let mem : update s.pages.mem x (t.desc d).freeptr ≡ s.pages.mem = fun_ext λ a.
      elim (Bool-cases (a == x)) [
        | inl e ↦ rw (e, ==_refl d, i.free.0) (ap s.pages.mem (sym (==→eq a x e)))
        | inr e ↦ rw e
      ] in
    let desc : update_desc t.desc d
          (record (t.desc d) { freeptr = x; refcnt = ((t.desc d).refcnt + 2 ^ 16 - 1) % 2 ^ 16 })
        ≡ s.desc =
      fun_ext λ c. elim (Bool-cases (c == d)) [
        | inl e ↦
            rw (e, ==_refl d)
              (ap₂ (λ (p r : ℕ). record (s.desc d) { freeptr = p; refcnt = r }) (sym i.free.0)
                  (omega (arith, i.count, i.small))
                ∙ ap s.desc (sym (==→eq c d e)))
        | inr e ↦ rw e
      ] in
    ap₂
      (λ (m : ℕ → ℕ) (f : ℕ → Desc).
        ok (tt, record s { pages = record s.pages { mem = m }; desc = f }))
      mem desc

-- What `taken` leaves alone.
taken_same :
    (s : Heap) (d c : ℕ)
    → (((taken s d).desc c).next ≡ (s.desc c).next) × (((taken s d).desc c).page ≡ (s.desc c).page)
taken_same s d c = elim (Bool-cases (c == d)) [
  | inl e ↦ (
    rw e (ap (λ (k : ℕ). (s.desc k).next) (sym (==→eq c d e))),
    rw e (ap (λ (k : ℕ). (s.desc k).page) (sym (==→eq c d e))),
  )
  | inr e ↦ (rw e, rw e)
]

DescChain-next :
    (f g : ℕ → Desc) (ds : List ℕ) (p : ℕ)
    → ((c : ℕ) → (g c).next ≡ (f c).next)
    → DescChain f ds p
    → DescChain g ds p
DescChain-next f g [] p same c = c
DescChain-next f g (d ∷ ds) p same (e, n, c) =
    (e, n, DescChain-next f g ds (g d).next same (subst (DescChain f ds) (sym (same d)) c))

taken-Owner :
    (s : Heap) (fuel b d : ℕ) (chains : ℕ → List ℕ)
    → Chained s fuel chains
    → b ≤ 8
    → has d (chains b) ≡ true
    → d ≢ 0
    → Owner (taken s d).desc s.chain fuel 0 b (s.desc d).page d chains
taken-Owner s fuel b d chains h l there ne = record {
  links = λ c _ m.
      DescChain-next s.desc (taken s d).desc (chains c) (s.chain c) (λ k. (taken_same s d k).0)
        (h.links c (omega (arith, l, m)));
  short = λ c _ m. h.short c (omega (arith, l, m));
  before = λ c _ m e there' page. omega (
    arith,
    m,
    (h.apart c b e d (omega (arith, l, m)) l there' there (sym (taken_same s d e).1 ∙ page)).0,
  );
  there = there;
  only = λ e there' page. (h.apart b b e d l l there' there (sym (taken_same s d e).1 ∙ page)).1;
  same_page = (taken_same s d d).1;
  some_desc = ne;
}

-- Freeing the object that `kmalloc` took from a page in use undoes `kmalloc`: the heap is as before,
-- to the last free list and count. The size that is given is at most the one asked for, and 0 for
-- `kfree`; each page is in one place of the chains, and the fuel is more than each chain is long.
pub free_s-kmalloc :
    (fuel len size : ℕ) (s : Heap) (chains : ℕ → List ℕ) (total x : ℕ) (xs : List ℕ)
    → let d = first_space s.desc (chains (find_bucket len).0) in
      len ≤ 4096
      → size ≤ len
      → Chained s fuel chains
      → d ≢ 0
      → IsSlab s d total (x ∷ xs)
      → (s.desc d).page ≡ x - x % page_size
      → 0 < (s.desc d).refcnt
      → (t : Heap) × (kmalloc fuel len s ≡ ok (x, t)) × (free_s fuel x size t ≡ ok (tt, s))
unfolding free_s
free_s-kmalloc fuel len size s chains total x xs l z h ne i page used =
    let b = (find_bucket len).0 in
    let d = first_space s.desc (chains b) in
    let (bucket, big, last) = bucket_at len l in
    let owner = taken-Owner s fuel b d chains h last (first_space-has s.desc (chains b) ne) ne in
    let (q, found, _) =
      find_owner-found fuel bucket_sizes 0 b b (taken s d) (s.desc d).page size d
        (find_bucket len).1 chains (omega arith) bucket (omega (arith, z, big)) owner in
    (
      taken s d,
      kmalloc-run fuel len s (chains b) total x xs (h.links b last) (h.short b last) ne i,
      rw (sym page, found, ==_ne d 0 ne)
          (rw (
            give_object-taken s d total x xs i,
            ==_ne (s.desc d).refcnt 0 (λ r. omega (arith, used, r)),
          )),
    )
