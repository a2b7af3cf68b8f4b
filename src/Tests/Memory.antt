-- ===== src/Tests/Memory.antt =====
-- Pages of mm/mm.c and objects of mm/kmalloc.c.
use nbos.Base.{
  sym, ◌∙◌, List, true, Bool-cases, inl, inr, ℕ, ◌≡◌, refl, arith, ◌==◌, if◌then◌else◌, [], ◌∷◌, ok,
}
use nbos.Page.{Pages, get_free_page}
use nbos.Page.Address.{page_va}
use nbos.Page.Alloc.{Got, get_free_page-Got}
use nbos.Kmalloc.{Heap, Desc, find_bucket, kmalloc, free_s}
use nbos.Kmalloc.Release.{Restored, free_s-Restored}
use nbos.Kmalloc.Free.{Chained, free_s-kmalloc}
use nbos.LinkedList.Chain.{has}
use nbos.Kmalloc.Slots.{IsSlab}
use nbos.Kmalloc.Chains.{first_space}

-- All pages free.
abbrev pub free_pages : Pages
free_pages = record { flags = λ _. 0; count = λ _. 0; mem = λ _. 0 }

get_free_page-Got_example :
    (i : ℕ) × (t : Pages) × (get_free_page free_pages ≡ ok (page_va i, t)) × Got free_pages t i
get_free_page-Got_example = get_free_page-Got free_pages 0 (omega arith) refl

-- Bucket 0 has one page, whose descriptor is 1: the objects at 64 and 80 are free, three are in use.
abbrev desc : Desc
desc = record { page = 64; next = 0; freeptr = 64; refcnt = 3; bucket_size = 16 }

abbrev pub heap : Heap
heap = record {
  pages = record { flags = λ _. 0; count = λ _. 0; mem = λ a. if a == 64 then 80 else 0 };
  desc = λ _. desc;
  chain = λ b. if b == 0 then 1 else 0;
  free_bucket_desc = 0;
}

heap-IsSlab : IsSlab heap 1 5 (64 ∷ 80 ∷ [])
heap-IsSlab = record {
  free = (refl, omega arith, (refl, omega arith, refl));
  count = refl;
  small = omega arith;
}

-- Bucket 0 has one page, at 4096, with descriptor 1.
abbrev small_objects : Heap
small_objects = record heap {
  pages = record free_pages { mem = λ a. if a == 4160 then 4176 else 0 };
  desc = λ _. record desc { page = 4096; freeptr = 4160 };
}

abbrev small_chains : ℕ → List ℕ
small_chains b = if b == 0 then 1 ∷ [] else []

small_only : (b d : ℕ) → has d (small_chains b) ≡ true → (b ≡ 0) × (d ≡ 1)
small_only b d h = elim (Bool-cases (b == 0)) [
  | inl e ↦ ground (arith, e, h)
  | inr e ↦ ground (arith, e, h)
]

small_objects-Chained : Chained small_objects 2 small_chains
small_objects-Chained = record {
  links = λ b l. elim (Bool-cases (b == 0)) [
    | inl e ↦ rw e (refl, omega arith, refl)
    | inr e ↦ rw e refl
  ];
  short = λ b l. ground arith;
  apart = λ b c d e l m h k p.
      let (b0, d1) = small_only b d h in
      let (c0, e1) = small_only c e k in (b0 ∙ sym c0, d1 ∙ sym e1);
}

free_s-kmalloc_example :
    (t : Heap) × (kmalloc 2 10 small_objects ≡ ok (4160, t))
    × (free_s 2 4160 10 t ≡ ok (tt, small_objects))
unfolding first_space find_bucket
free_s-kmalloc_example =
    free_s-kmalloc 2 10 10 small_objects small_chains 5 4160 (4176 ∷ []) (omega arith) (omega arith)
      small_objects-Chained (omega arith)
      (record {
        free = (refl, omega arith, (refl, omega arith, refl));
        count = refl;
        small = omega arith;
      })
      refl (omega arith)

-- Bucket 1 has no page yet, and descriptor 2 is free.
abbrev to_grow : Heap
to_grow = record small_objects { free_bucket_desc = 2 }

to_grow-Chained : Chained to_grow 2 small_chains
to_grow-Chained = record {
  links = small_objects-Chained.links;
  short = small_objects-Chained.short;
  apart = small_objects-Chained.apart;
}

free_s-Restored_example :
    (i : ℕ) × (t : Heap) × (u : Heap) × (kmalloc 2 20 to_grow ≡ ok (page_va i, t))
    × (free_s 2 (page_va i) 20 t ≡ ok (tt, u))
    × Restored to_grow u small_chains
unfolding find_bucket first_space
free_s-Restored_example =
    free_s-Restored 2 20 20 to_grow small_chains 0 (omega arith) (omega arith) to_grow-Chained
      (omega arith) refl (λ e. omega (arith, e)) (λ c l. ground arith)
      (λ c e k l there h page. absurd (omega (arith, h, page))) (omega arith) refl
