-- ===== src/Kmalloc/Grow.antt =====
-- `kmalloc` where no page of the bucket has a free object: a new page joins it.
use nbos.Base.{
  ℕ, zero, suc, ◌+◌, ◌-◌, ◌/◌, ◌^◌, ◌<◌, ◌≤◌, ◌≡◌, refl, ◌≢◌, sym, ◌∙◌, ap, subst, arith, false,
  ==_ne, ==_refl, List, [], ◌∷◌, length, ok, ok-inj,
}
use nbos.LinkedList.Chain.{has}
use nbos.Page.{Pages, page_size, paging_pages, update, get_free_page}
use nbos.Page.Address.{page_va}
use nbos.Page.Alloc.{Got, get_free_page-Got}
use nbos.Kmalloc.{Heap, Desc, find_bucket, update_desc, carve, kmalloc, grow, new_object}
use nbos.Kmalloc.Carve.{FreeList, objects, carve-FreeList}
use nbos.Kmalloc.Slots.{IsSlab, taken, take-run, take_object-IsSlab}
use nbos.Kmalloc.Chains.{DescChain, first_space, find_space-first_space}

-- The objects behind the first one.
abbrev pub other_objects : (n cp size : ℕ) → List ℕ
other_objects zero cp size = []
other_objects (suc n) cp size = objects n (cp + size) size

objects_first : (n cp size : ℕ) → objects n cp size ≡ cp ∷ other_objects n cp size
objects_first zero cp size = refl
objects_first (suc n) cp size = refl

-- The sizes divide a page.
size_bounds :
    (len : ℕ)
    → len ≤ 4096
    → (0 < (find_bucket len).1)
      × (page_size / (find_bucket len).1 - 1 + 1 ≡ page_size / (find_bucket len).1)
      × (page_size / (find_bucket len).1 < 2 ^ 16)
unfolding find_bucket
size_bounds len h = (ground arith, ground arith, ground arith)

DescChain-update :
    (f : ℕ → Desc) (ds : List ℕ) (p d : ℕ) (c : Desc)
    → DescChain f ds p
    → has d ds ≡ false
    → DescChain (update_desc f d c) ds p
DescChain-update f [] p d c l o = l
DescChain-update f (x ∷ ds) p d c (e, ne, l) o =
    (e, ne, DescChain-update f ds _ d c (rw other l) (ground arith))
  where
    other : update_desc f d c x ≡ f x
    other = ground arith

-- The heap with the new page `cp` at the front of bucket `b`, before the first object is taken.
abbrev joined : (s : Heap) (p : Pages) (b size cp : ℕ) → Heap
joined s p b size cp = record s {
  pages = record p { mem = carve (page_size / size - 1) cp size p.mem };
  desc =
      update_desc s.desc s.free_bucket_desc
        (record { page = cp; next = s.chain b; freeptr = cp; refcnt = 0; bucket_size = size });
  chain = update s.chain b s.free_bucket_desc;
  free_bucket_desc = (s.desc s.free_bucket_desc).next;
}

grow-run :
    (s : Heap) (p : Pages) (b size cp : ℕ)
    → s.free_bucket_desc ≢ 0
    → 0 < size
    → get_free_page s.pages ≡ ok (cp, p)
    → grow b size s ≡ ok (s.free_bucket_desc, joined s p b size cp)
unfolding grow new_object
grow-run s p b size cp n z e =
    rw (==_ne s.free_bucket_desc 0 n, e, ==_ne size 0 (λ h. omega (arith, z, h)))

joined-IsSlab :
    (s : Heap) (p : Pages) (b cp size : ℕ)
    → 0 < cp
    → 0 < size
    → page_size / size - 1 + 1 ≡ page_size / size
    → page_size / size < 2 ^ 16
    → IsSlab
        (joined s p b size cp)
        s.free_bucket_desc
        (page_size / size)
        (cp ∷ other_objects (page_size / size - 1) cp size)
joined-IsSlab s p b cp size h z e small =
    let (list, count, _, _) = carve-FreeList (page_size / size - 1) cp size p.mem h z in
    let first = objects_first (page_size / size - 1) cp size in
    record {
      free = rw (==_refl s.free_bucket_desc) (
          subst (λ (xs : List ℕ). FreeList (carve (page_size / size - 1) cp size p.mem) xs cp) first
            list);
      count = rw (==_refl s.free_bucket_desc) (omega (arith, ap length first, count, e));
      small = small;
    }

-- The heap after a page joined bucket `b` of objects of `size` bytes and its first object was taken.
pub record Joined (s : Heap) (ds : List ℕ) (b size i : ℕ) (t : Heap) : Type 0 where
  pub slab :
      IsSlab t s.free_bucket_desc
        (page_size / size)
        (other_objects (page_size / size - 1) (page_va i) size)
  pub used : (t.desc s.free_bucket_desc).refcnt ≡ 1
  pub page : (t.desc s.free_bucket_desc).page ≡ page_va i
  pub bucket_size : (t.desc s.free_bucket_desc).bucket_size ≡ size
  pub chain : DescChain t.desc (s.free_bucket_desc ∷ ds) (t.chain b)
  pub others : (c : ℕ) → c ≢ b → t.chain c ≡ s.chain c
  pub kept : (e : ℕ) → e ≢ s.free_bucket_desc → t.desc e ≡ s.desc e
  pub descs : t.free_bucket_desc ≡ (s.desc s.free_bucket_desc).next
  pub counts : t.pages.count ≡ update s.pages.count i 1

taken-Joined :
    (s : Heap) (p : Pages) (ds : List ℕ) (b size i : ℕ) (t : Heap)
    → DescChain s.desc ds (s.chain b)
    → s.free_bucket_desc ≢ 0
    → has s.free_bucket_desc ds ≡ false
    → Got s.pages p i
    → t ≡ taken (joined s p b size (page_va i)) s.free_bucket_desc
    → IsSlab t s.free_bucket_desc
        (page_size / size)
        (other_objects (page_size / size - 1) (page_va i) size)
    → (t.desc s.free_bucket_desc).refcnt ≡ 1
    → Joined s ds b size i t
taken-Joined s p ds b size i t c n o got e slab used =
    let d = s.free_bucket_desc in
    let u = joined s p b size (page_va i) in
    record {
      slab = slab;
      used = used;
      page = ap (λ (h : Heap). (h.desc d).page) e ∙ rw (==_refl d);
      bucket_size = ap (λ (h : Heap). (h.desc d).bucket_size) e ∙ rw (==_refl d);
      chain =
          subst (λ (h : Heap). DescChain h.desc (d ∷ ds) (h.chain b)) (sym e)
            (
              rw (==_refl b) refl,
              n,
              rw (==_refl d) (
                  DescChain-update u.desc ds (s.chain b) d _
                    (DescChain-update s.desc ds (s.chain b) d _ c o) o),
            );
      others = λ k ne. ap (λ (h : Heap). h.chain k) e ∙ rw (==_ne k b ne);
      kept = λ k ne. ap (λ (h : Heap). h.desc k) e ∙ rw (==_ne k d ne);
      descs = ap (λ (h : Heap). h.free_bucket_desc) e;
      counts = ap (λ (h : Heap). h.pages.count) e ∙ got.counts;
    }

-- Where no page of the bucket of the request has a free object, `kmalloc`, with a free page and a
-- free descriptor that is not in the chain of the bucket, succeeds and returns the first object of a
-- page that was free. That page is the new first one of the bucket, with objects of its size, of which
-- one is in use and all others are free, in order; the other pages of the bucket follow it, and the
-- other buckets are as before.
pub kmalloc-Joined :
    (fuel len : ℕ) (s : Heap) (ds : List ℕ) (j : ℕ)
    → len ≤ 4096
    → DescChain s.desc ds (s.chain (find_bucket len).0)
    → length ds < fuel
    → first_space s.desc ds ≡ 0
    → s.free_bucket_desc ≢ 0
    → has s.free_bucket_desc ds ≡ false
    → j < paging_pages
    → s.pages.count j ≡ 0
    → (i : ℕ) × (t : Heap) × (kmalloc fuel len s ≡ ok (page_va i, t))
      × (i < paging_pages)
      × (s.pages.count i ≡ 0)
      × Joined s ds (find_bucket len).0 (find_bucket len).1 i t
unfolding kmalloc
kmalloc-Joined fuel len s ds j h c k full n o l z =
    let b = (find_bucket len).0 in
    let size = (find_bucket len).1 in
    let d = s.free_bucket_desc in
    let (i, p, page, got) = get_free_page-Got s.pages j l z in
    let (positive, total, small) = size_bounds len h in
    let u = joined s p b size (page_va i) in
    let (t, take, _, slab, used) =
      take_object-IsSlab u d (page_size / size) (page_va i)
        (other_objects (page_size / size - 1) (page_va i) size)
        (joined-IsSlab s p b (page_va i) size (omega (arith, got.below)) positive total small) in
    let same : t ≡ taken u d = ap (λ (r : ℕ × Heap). r.1) (ok-inj (sym take ∙ take-run u d)) in
    (
      i,
      t,
      rw
          (
            find_space-first_space fuel s.desc ds (s.chain b) c k,
            full,
            grow-run s p b size (page_va i) n positive page,
          )
          take,
      got.below,
      got.was_free,
      taken-Joined s p ds b size i t c n o got same slab (used ∙ rw (==_refl d)),
    )
