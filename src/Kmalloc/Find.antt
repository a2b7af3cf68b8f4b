-- ===== src/Kmalloc/Find.antt =====
-- How `free_s` finds the page of an object, through the chains of the buckets.
use nbos.Base.{
  ℕ, zero, suc, ◌+◌, ◌<◌, ◌≤◌, ◌≡◌, refl, ◌≢◌, sym, ◌∙◌, ap, subst, arith, true, false, ◌==◌, ==_ne,
  ==→eq, ==_refl, Bool-cases, inl, inr, List, [], ◌∷◌, length, ok, some, ltb, get_elem?,
}
use nbos.LinkedList.Chain.{has}
use nbos.Kmalloc.{Heap, Desc, find_page, find_owner}
use nbos.Kmalloc.Chains.{DescChain}

pub has-head : (x : ℕ) (ds : List ℕ) → has x (x ∷ ds) ≡ true
has-head x ds = rw (==_refl x)

pub has-tail : (x : ℕ) (ds : List ℕ) (y : ℕ) → has y ds ≡ true → has y (x ∷ ds) ≡ true
has-tail x ds y h = ground (arith, h)

has-behind :
    (f : ℕ → Desc) (page x d : ℕ) (ds : List ℕ)
    → has d (x ∷ ds) ≡ true
    → ((f x).page == page) ≡ false
    → (f d).page ≡ page
    → has d ds ≡ true
has-behind f page x d ds h on e = elim (Bool-cases (d == x)) [
  | inl same ↦
      let off = subst (λ (y : ℕ). ((f y).page == page) ≡ false) (sym (==→eq d x same)) on in
      absurd (ground (arith, off, e))
  | inr other ↦ ground (arith, h, other)
]

-- `d` is the only descriptor of the list with this page, or the list has none with it.
abbrev pub OnlyPage : (ℕ → Desc) → (page d : ℕ) → List ℕ → Type 0
OnlyPage f page d ds = (c : ℕ) → has c ds ≡ true → (f c).page ≡ page → c ≡ d

find_page-found :
    (k : ℕ) (f : ℕ → Desc) (page prev : ℕ) (ds : List ℕ) (p d : ℕ)
    → DescChain f ds p
    → length ds < k
    → has d ds ≡ true
    → (f d).page ≡ page
    → OnlyPage f page d ds
    → (q : ℕ) × (find_page k f page prev p ≡ ok (d, q)) × (p ≡ d → q ≡ prev)
unfolding find_page
find_page-found zero f page prev ds p d c h m e o = absurd (omega (arith, h))
find_page-found (suc k) f page prev [] p d c h m e o = absurd (ground (arith, m))
find_page-found (suc k) f page prev (x ∷ ds) p d (same, ne, c) h m e o =
    elim (Bool-cases ((f x).page == page)) [
      | inl here ↦ (
        prev,
        rw (same, ==_ne x 0 ne, here)
            (ap (λ (y : ℕ). ok (y, prev)) (o x (has-head x ds) (==→eq (f x).page page here))),
        λ _. refl,
      )
      | inr on ↦
          let (q, run, _) =
            find_page-found k f page x ds (f x).next d c (omega (arith, h))
              (has-behind f page x d ds m on e) e (λ y n. o y (has-tail x ds y n)) in
          (
            q,
            rw (same, ==_ne x 0 ne, on) run,
            λ first. absurd (
                let off = subst (λ (y : ℕ). ((f y).page == page) ≡ false) (sym same ∙ first) on in
                ground (arith, off, e)),
          )
    ]

find_page-none :
    (k : ℕ) (f : ℕ → Desc) (page prev : ℕ) (ds : List ℕ) (p : ℕ)
    → DescChain f ds p
    → length ds < k
    → ((c : ℕ) → has c ds ≡ true → (f c).page ≢ page)
    → (q : ℕ) × (find_page k f page prev p ≡ ok (0, q))
unfolding find_page
find_page-none zero f page prev ds p c h o = absurd (omega (arith, h))
find_page-none (suc k) f page prev [] p c h o = (prev, rw c refl)
find_page-none (suc k) f page prev (x ∷ ds) p (same, ne, c) h o =
    let (q, run) =
      find_page-none k f page x ds (f x).next c (omega (arith, h))
        (λ y n. o y (has-tail x ds y n)) in
    (q, rw (same, ==_ne x 0 ne, ==_ne (f x).page page (o x (has-head x ds))) run)

-- The chains of the buckets from `b` to `m`: bucket `m` has `d`, the only descriptor of the page.
pub record Owner (f : ℕ → Desc) (chain : ℕ → ℕ) (fuel b m page d : ℕ) (chains : ℕ → List ℕ)
    : Type 0 where
  pub links : (c : ℕ) → b ≤ c → c ≤ m → DescChain f (chains c) (chain c)
  pub short : (c : ℕ) → b ≤ c → c ≤ m → length (chains c) < fuel
  pub before : (c : ℕ) → b ≤ c → c < m → (e : ℕ) → has e (chains c) ≡ true → (f e).page ≢ page
  pub there : has d (chains m) ≡ true
  pub only : OnlyPage f page d (chains m)
  pub same_page : (f d).page ≡ page
  pub some_desc : d ≢ 0

Owner-behind :
    (f : ℕ → Desc) (chain : ℕ → ℕ) (fuel b m page d : ℕ) (chains : ℕ → List ℕ)
    → Owner f chain fuel b m page d chains
    → Owner f chain fuel (b + 1) m page d chains
Owner-behind f chain fuel b m page d chains o = record {
  links = λ c l. o.links c (omega (arith, l));
  short = λ c l. o.short c (omega (arith, l));
  before = λ c l. o.before c (omega (arith, l));
  there = o.there;
  only = o.only;
  same_page = o.same_page;
  some_desc = o.some_desc;
}

pub find_owner-found :
    (fuel : ℕ) (sizes : List ℕ) (b n m : ℕ) (s : Heap) (page size d z : ℕ) (chains : ℕ → List ℕ)
    → b + n ≡ m
    → get_elem? sizes n ≡ some z
    → size ≤ z
    → Owner s.desc s.chain fuel b m page d chains
    → (q : ℕ) × (find_owner fuel sizes b s page size ≡ ok (m, d, q)) × (s.chain m ≡ d → q ≡ 0)
unfolding find_owner
find_owner-found fuel [] b n m s page size d z chains e g l o = absurd (ground (arith, g))
find_owner-found fuel (y ∷ sizes) b zero m s page size d z chains e g l o =
    let at : b ≡ m = omega (arith, e) in
    let found =
      find_page-found fuel s.desc page 0 (chains b) (s.chain b) d
        (o.links b (omega arith) (omega (arith, at))) (o.short b (omega arith) (omega (arith, at)))
        (subst (λ (c : ℕ). has d (chains c) ≡ true) (sym at) o.there) o.same_page
        (subst (λ (c : ℕ). OnlyPage s.desc page d (chains c)) (sym at) o.only) in
    let big : ltb y size ≡ false = ground (arith, g, l) in
    let (q, run, front) = found in
    (
      q,
      rw (big, run, ==_ne d 0 o.some_desc) (ap (λ (c : ℕ). ok (c, d, q)) at),
      λ first. front (ap s.chain at ∙ first),
    )
find_owner-found fuel (y ∷ sizes) b (suc n) m s page size d z chains e g l o =
    let rest =
      find_owner-found fuel sizes (b + 1) n m s page size d z chains (omega (arith, e)) g l
        (Owner-behind s.desc s.chain fuel b m page d chains o) in
    let none_here =
      find_page-none fuel s.desc page 0 (chains b) (s.chain b)
        (o.links b (omega arith) (omega (arith, e))) (o.short b (omega arith) (omega (arith, e)))
        (o.before b (omega arith) (omega (arith, e))) in
    elim (Bool-cases (ltb y size)) [
      | inl skip ↦ (rest.0, rw skip rest.1, rest.2)
      | inr look ↦ (rest.0, rw (look, none_here.1) rest.1, rest.2)
    ]
