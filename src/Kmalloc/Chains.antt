-- ===== src/Kmalloc/Chains.antt =====
-- The chain of page descriptors of a bucket, and what `kmalloc` does with it.
use nbos.Base.{
  ℕ, zero, suc, ◌+◌, ◌<◌, ◌≡◌, ◌≢◌, arith, ok, List, [], ◌∷◌, length, ◌==◌, if◌then◌else◌, ==_ne,
  Bool-cases, inl, inr,
}
use nbos.Kmalloc.{Heap, Desc, find_space, find_bucket, kmalloc}
use nbos.Kmalloc.Slots.{IsSlab, take_object-IsSlab}

-- From `p` the descriptors lead through `ds` to `NULL`.
abbrev pub DescChain : (ℕ → Desc) → List ℕ → ℕ → Type 0
DescChain f [] p = p ≡ 0
DescChain f (d ∷ ds) p = (p ≡ d) × (d ≢ 0) × DescChain f ds (f d).next

-- The first descriptor of a list whose page has a free object, or 0.
unfoldable pub first_space : (ℕ → Desc) → List ℕ → ℕ
first_space f [] = 0
first_space f (d ∷ ds) = if (f d).freeptr == 0 then first_space f ds else d

-- The search of a chain, given more fuel than the chain is long, ends and finds that descriptor.
pub find_space-first_space :
    (k : ℕ) (f : ℕ → Desc) (ds : List ℕ) (p : ℕ)
    → DescChain f ds p
    → length ds < k
    → find_space k f p ≡ ok (first_space f ds)
unfolding find_space first_space
find_space-first_space zero f ds p c h = absurd (omega arith)
find_space-first_space (suc k) f [] p c h = rw c
find_space-first_space (suc k) f (d ∷ ds) p (e, ne, c) h =
    rw (e, ==_ne d 0 ne)
      (elim (Bool-cases ((f d).freeptr == 0)) [
        | inl full ↦ rw full (find_space-first_space k f ds (f d).next c (omega arith))
        | inr room ↦ rw room
      ])

-- Where the bucket of the request has a page with a free object, `kmalloc` hands out the first free
-- object of the first such page: it is not null, the page's other objects stay free, and the page
-- counts one more object in use.
pub kmalloc-IsSlab :
    (fuel len : ℕ) (s : Heap) (ds : List ℕ) (total x : ℕ) (xs : List ℕ)
    → DescChain s.desc ds (s.chain (find_bucket len).0)
    → length ds < fuel
    → first_space s.desc ds ≢ 0
    → IsSlab s (first_space s.desc ds) total (x ∷ xs)
    → (t : Heap) × (kmalloc fuel len s ≡ ok (x, t))
      × (x ≢ 0)
      × IsSlab t (first_space s.desc ds) total xs
      × ((t.desc (first_space s.desc ds)).refcnt ≡ (s.desc (first_space s.desc ds)).refcnt + 1)
unfolding kmalloc
kmalloc-IsSlab fuel len s ds total x xs c h ne i =
    let b = first_space s.desc ds in
    let (t, run, some_object, slab, count) = take_object-IsSlab s b total x xs i in
    (
      t,
      rw (find_space-first_space fuel s.desc ds (s.chain (find_bucket len).0) c h, ==_ne b 0 ne)
          run,
      some_object,
      slab,
      count,
    )
