-- ===== src/Kmalloc/Release.antt =====
-- `free_s` of the only object in use of the first page of a bucket: the page goes back.
use nbos.Base.{
  ℕ, Bool, ◌+◌, ◌-◌, ◌%◌, ◌^◌, ◌<◌, ◌≤◌, ◌≡◌, refl, ◌≢◌, sym, ◌∙◌, ap, subst, arith, true, false,
  ◌==◌, ==_ne, ==→eq, ==_refl, lt→ltb, Bool-cases, inl, inr, if◌then◌else◌, List, [], ◌∷◌, length,
  ok, fun_ext,
}
use nbos.LinkedList.Chain.{has, first}
use nbos.Page.{
  page_size, paging_pages, update, put_page, set_page_flags, free_page, pa_to_pfn, pa_of,
}
use nbos.Page.Address.{page_va, page_va_round_trip}
use nbos.Kmalloc.{
  Heap, Desc, find_bucket, bucket_sizes, find_owner, kmalloc, free_s, give_object, release_page,
  update_desc,
}
use nbos.Kmalloc.Find.{has-head, has-tail, Owner, find_owner-found}
use nbos.Kmalloc.Free.{Chained, bucket_at}
use nbos.Kmalloc.Chains.{DescChain, first_space}
use nbos.Kmalloc.Grow.{Joined, kmalloc-Joined}

-- The first page of bucket `b`, page frame `i`, leaves it.
abbrev released : Heap → (b d i : ℕ) → Heap
released s b d i = record s {
  pages = put_page i (record s.pages { flags = update s.pages.flags i 0 });
  desc = update_desc s.desc d (record (s.desc d) { next = s.free_bucket_desc });
  chain = update s.chain b (s.desc d).next;
  free_bucket_desc = d;
}

release-run :
    (fuel b d i : ℕ) (s : Heap)
    → s.chain b ≡ d
    → (s.desc d).page ≡ page_va i
    → i < paging_pages
    → release_page fuel b d 0 s ≡ ok (tt, released s b d i)
unfolding release_page set_page_flags free_page
release-run fuel b d i s c e l =
    let pfn : pa_to_pfn (pa_of (s.desc d).page) ≡ i =
      ap (λ (a : ℕ). pa_to_pfn (pa_of a)) e ∙ (page_va_round_trip i l).0 in
    rw (c, ==_refl d) (rw (pfn, lt→ltb i paging_pages l))

-- The heap after the only object of page frame `i` in use was given back.
abbrev given : Heap → (d x : ℕ) → Heap
given t d x = record t {
  pages = record t.pages { mem = update t.pages.mem x (t.desc d).freeptr };
  desc =
      update_desc t.desc d
        (record (t.desc d) { freeptr = x; refcnt = ((t.desc d).refcnt + 2 ^ 16 - 1) % 2 ^ 16 });
}

free_s-run :
    (fuel x size b d q i : ℕ) (t : Heap)
    → find_owner fuel bucket_sizes 0 t (x - x % page_size) size ≡ ok (b, d, q)
    → q ≡ 0
    → d ≢ 0
    → t.chain b ≡ d
    → (t.desc d).page ≡ page_va i
    → (t.desc d).refcnt ≡ 1
    → i < paging_pages
    → free_s fuel x size t ≡ ok (tt, released (given t d x) b d i)
unfolding free_s give_object
free_s-run fuel x size b d q i t found z ne c page one l =
    let page' : ((given t d x).desc d).page ≡ page_va i = rw (==_refl d) page in
    let last : ((given t d x).desc d).refcnt ≡ 0 = rw (==_refl d, one) refl in
    let test : (((given t d x).desc d).refcnt == 0) ≡ true = ap (λ (r : ℕ). r == 0) last in
    rw (found, ==_ne d 0 ne) (rw (test, z) (release-run fuel b d i (given t d x) c page' l))

-- What is as before when an object was allocated in a new page and freed again: the pages in use, the
-- chains of the buckets, the descriptors in them, and the free descriptors.
pub record Restored (s u : Heap) (chains : ℕ → List ℕ) : Type 0 where
  pub counts : u.pages.count ≡ s.pages.count
  pub chain : u.chain ≡ s.chain
  pub chained : (c : ℕ) → c ≤ 8 → (e : ℕ) → has e (chains c) ≡ true → u.desc e ≡ s.desc e
  pub first_free : u.free_bucket_desc ≡ s.free_bucket_desc
  pub next_free : (u.desc s.free_bucket_desc).next ≡ (s.desc s.free_bucket_desc).next

-- The chains of the buckets up to `b` when descriptor `d` joined bucket `b`.
abbrev with_first : (b d : ℕ) → (ℕ → List ℕ) → ℕ → List ℕ
with_first b d chains c = if c == b then d ∷ chains c else chains c

same_DescChain :
    (f g : ℕ → Desc) (ds : List ℕ) (p : ℕ)
    → ((e : ℕ) → has e ds ≡ true → g e ≡ f e)
    → DescChain f ds p
    → DescChain g ds p
same_DescChain f g [] p same c = c
same_DescChain f g (d ∷ ds) p same (e, n, c) = (
  e,
  n,
  same_DescChain f g ds (g d).next (λ y h. same y (has-tail d ds y h))
      (subst (λ (x : Desc). DescChain f ds x.next) (sym (same d (has-head d ds))) c),
)

DescChain-first : (f : ℕ → Desc) (ds : List ℕ) (p : ℕ) → DescChain f ds p → p ≡ first ds 0
DescChain-first f [] p c = c
DescChain-first f (d ∷ ds) p c = c.0

module _ (s t : Heap) (fuel b size i : ℕ) (chains : ℕ → List ℕ) (h : Chained s fuel chains)
    (last : b ≤ 8) (joined : Joined s (chains b) b size i t) (room : length (chains b) + 1 < fuel)
    (ne : s.free_bucket_desc ≢ 0)
    (unused : (c : ℕ) → c ≤ 8 → has s.free_bucket_desc (chains c) ≡ false)
    (new_page : (c e : ℕ) → c ≤ 8 → has e (chains c) ≡ true → (s.desc e).page ≢ page_va i) where
  kept : (c e : ℕ) → c ≤ 8 → has e (chains c) ≡ true → t.desc e ≡ s.desc e
  kept c e l there = joined.kept e (λ same. cc (unused c l, there, same))

  joined-Owner :
      Owner t.desc t.chain fuel 0 b
        (page_va i)
        s.free_bucket_desc
        (with_first b s.free_bucket_desc chains)
  joined-Owner = record {
    links = λ c _ m. elim (Bool-cases (c == b)) [
      | inl e ↦
          subst (λ (k : ℕ). DescChain t.desc (with_first b s.free_bucket_desc chains k) (t.chain k))
            (sym (==→eq c b e)) (rw (==_refl b) joined.chain)
      | inr e ↦ rw e (
          subst (DescChain t.desc (chains c)) (sym (joined.others c (λ q. cc (e, q, ==_refl b)))) (
            same_DescChain s.desc t.desc (chains c) (s.chain c)
              (λ y there. kept c y (omega (arith, m, last)) there)
              (h.links c (omega (arith, m, last)))))
    ];
    short = λ c _ m. elim (Bool-cases (c == b)) [
      | inl e ↦
          rw e (let q = ap (λ (k : ℕ). length (chains k)) (==→eq c b e) in omega (arith, q, room))
      | inr e ↦ rw e (h.short c (omega (arith, m, last)))
    ];
    before = λ c _ m e there page.
        let off : (c == b) ≡ false = ground (arith, m) in
        let there' =
          subst (λ (x : Bool). has e (if x then s.free_bucket_desc ∷ chains c else chains c) ≡ true)
            off there in
        let l : c ≤ 8 = omega (arith, m, last) in
        new_page c e l there' (ap (λ (x : Desc). x.page) (sym (kept c e l there')) ∙ page);
    there = rw (==_refl b, ==_refl s.free_bucket_desc) refl;
    only = λ e there page.
        let here =
          subst (λ (x : Bool). has e (if x then s.free_bucket_desc ∷ chains b else chains b) ≡ true)
            (==_refl b) there in
        elim (Bool-cases (e == s.free_bucket_desc)) [
          | inl q ↦ ==→eq e s.free_bucket_desc q
          | inr q ↦
              let there' : has e (chains b) ≡ true = ground (arith, here, q) in
              absurd (
                new_page b e last there'
                  (ap (λ (x : Desc). x.page) (sym (kept b e last there')) ∙ page))
        ];
    same_page = joined.page;
    some_desc = ne;
  }

  first_used : t.chain b ≡ s.free_bucket_desc
  first_used = joined.chain.0

  behind : (t.desc s.free_bucket_desc).next ≡ s.chain b
  behind =
      DescChain-first t.desc (chains b) _ joined.chain.2
      ∙ sym (DescChain-first s.desc (chains b) _ (h.links b last))

  released-Restored :
      (x : ℕ)
      → s.pages.count i ≡ 0
      → Restored s (released (given t s.free_bucket_desc x) b s.free_bucket_desc i) chains
  unfolding put_page
  released-Restored x z =
      let d = s.free_bucket_desc in
      record {
        counts = fun_ext λ a. elim (Bool-cases (a == i)) [
          | inl e ↦ rw (e, joined.counts, ==_refl i) (sym (ap s.pages.count (==→eq a i e) ∙ z))
          | inr e ↦ rw (e, joined.counts, e) refl
        ];
        chain = fun_ext λ c. elim (Bool-cases (c == b)) [
          | inl e ↦ rw (e, ==_refl d) (behind ∙ ap s.chain (sym (==→eq c b e)))
          | inr e ↦ rw e (joined.others c (λ q. cc (e, q, ==_refl b)))
        ];
        chained = λ c l e there.
            let other : e ≢ d = λ q. cc (unused c l, there, q) in
            rw (==_ne e d other) (kept c e l there);
        first_free = refl;
        next_free = rw (==_refl d) joined.descs;
      }

-- Where no page of the bucket has a free object, `kmalloc` takes a new page, and freeing the object
-- gives it back: the pages in use, the chains of the buckets and the free descriptors are as
-- before. A page and a descriptor must be free, the descriptor in no chain; each page of the chains
-- is in use and in one place of them. The size that is given is at most the one asked for.
pub free_s-Restored :
    (fuel len size : ℕ) (s : Heap) (chains : ℕ → List ℕ) (j : ℕ)
    → let b = (find_bucket len).0 in
      len ≤ 4096
      → size ≤ len
      → Chained s fuel chains
      → length (chains b) + 1 < fuel
      → first_space s.desc (chains b) ≡ 0
      → s.free_bucket_desc ≢ 0
      → ((c : ℕ) → c ≤ 8 → has s.free_bucket_desc (chains c) ≡ false)
      → ((c e k : ℕ)
          → c ≤ 8
          → has e (chains c) ≡ true
          → k < paging_pages
          → (s.desc e).page ≡ page_va k
          → s.pages.count k ≢ 0)
      → j < paging_pages
      → s.pages.count j ≡ 0
      → (i : ℕ) × (t : Heap) × (u : Heap) × (kmalloc fuel len s ≡ ok (page_va i, t))
        × (free_s fuel (page_va i) size t ≡ ok (tt, u))
        × Restored s u chains
free_s-Restored fuel len size s chains j l z h room full ne unused in_use below free =
    let b = (find_bucket len).0 in
    let d = s.free_bucket_desc in
    let (bucket, big, last) = bucket_at len l in
    let (i, t, run, below', free', joined) =
      kmalloc-Joined fuel len s (chains b) j l (h.links b last) (h.short b last) full ne
        (unused b last) below free in
    let apart : (c e : ℕ) → c ≤ 8 → has e (chains c) ≡ true → (s.desc e).page ≢ page_va i =
      λ c e m there page. in_use c e i m there below' page free' in
    let owner =
      joined-Owner s t fuel b (find_bucket len).1 i chains h last joined room ne unused apart in
    let (q, found, front) =
      find_owner-found fuel bucket_sizes 0 b b t (page_va i) size d (find_bucket len).1
        (with_first b d chains) (omega arith) bucket (omega (arith, z, big)) owner in
    let aligned : page_va i - page_va i % page_size ≡ page_va i =
      omega (arith, (page_va_round_trip i below').1) in
    let first =
      first_used s t fuel b (find_bucket len).1 i chains h last joined room ne unused apart in
    (
      i,
      t,
      released (given t d (page_va i)) b d i,
      run,
      free_s-run fuel (page_va i) size b d q i t
          (ap (λ (a : ℕ). find_owner fuel bucket_sizes 0 t a size) aligned ∙ found) (front first) ne
          first joined.page joined.used below',
      released-Restored s t fuel b (find_bucket len).1 i chains h last joined room ne unused apart
          (page_va i) free',
    )
