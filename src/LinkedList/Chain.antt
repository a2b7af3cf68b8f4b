-- ===== src/LinkedList/Chain.antt =====
-- What a ring of `struct list_head` nodes stands for: the addresses after the head, in order.
use nbos.Base.{
  ℕ, ◌≡◌, refl, ◌≢◌, Bool, true, false, ◌||◌, List, [], ◌∷◌, ◌++◌, ◌==◌, arith, ==_refl, ◌∙◌,
}
use nbos.LinkedList.{Heap}

abbrev pub has : ℕ → List ℕ → Bool
has a [] = false
has a (x ∷ xs) = (a == x) || has a xs

abbrev pub Nodup : List ℕ → Type 0
Nodup [] = Unit
Nodup (x ∷ xs) = (has x xs ≡ false) × Nodup xs

abbrev pub AllLive : Heap → List ℕ → Type 0
AllLive h [] = Unit
AllLive h (x ∷ xs) = (h.live x ≡ true) × AllLive h xs

-- From `p` the links lead through `xs` to `q`, and back.
abbrev pub Chain : Heap → ℕ → List ℕ → ℕ → Type 0
Chain h p [] q = (h.next p ≡ q) × (h.prev q ≡ p)
Chain h p (x ∷ xs) q = (h.next p ≡ x) × (h.prev x ≡ p) × Chain h x xs q

-- `head` heads a ring whose other nodes are `xs`, all distinct and allocated.
pub record IsRing (h : Heap) (head : ℕ) (xs : List ℕ) : Type 0 where
  pub chain : Chain h head xs head
  pub nodup : Nodup (head ∷ xs)
  pub live : AllLive h (head ∷ xs)

-- The node before the end of `p ∷ xs`, and the node after its start.
abbrev pub last : ℕ → List ℕ → ℕ
last p [] = p
last p (x ∷ xs) = last x xs

abbrev pub first : List ℕ → ℕ → ℕ
first [] q = q
first (x ∷ xs) q = x

pub ne_of_has : (a b : ℕ) (xs : List ℕ) → has a xs ≡ true → has b xs ≡ false → a ≢ b
ne_of_has a b xs h o e = cc

pub has-append : (a : ℕ) (xs ys : List ℕ) → has a (xs ++ ys) ≡ (has a xs || has a ys)
has-append a [] ys = refl
has-append a (x ∷ xs) ys = ground (arith, has-append a xs ys)

pub next-first : (h : Heap) (p : ℕ) (xs : List ℕ) (q : ℕ) → Chain h p xs q → h.next p ≡ first xs q
next-first h p [] q c = c.0
next-first h p (x ∷ xs) q c = c.0

pub prev-last : (h : Heap) (p : ℕ) (xs : List ℕ) (q : ℕ) → Chain h p xs q → h.prev q ≡ last p xs
prev-last h p [] q c = c.1
prev-last h p (x ∷ xs) q c = prev-last h x xs q c.2

-- `last p xs` is `p` or one of `xs`; the same of `first`.
pub last-ne : (a p : ℕ) (xs : List ℕ) → has a (p ∷ xs) ≡ false → a ≢ last p xs
last-ne a p [] h = ground arith
last-ne a p (x ∷ xs) h = last-ne a x xs (ground arith)

pub first-ne : (a : ℕ) (xs : List ℕ) (q : ℕ) → has a xs ≡ false → a ≢ q → a ≢ first xs q
first-ne a [] q h e = e
first-ne a (x ∷ xs) q h e = ground arith

pub live-last : (h : Heap) (p : ℕ) (xs : List ℕ) → AllLive h (p ∷ xs) → h.live (last p xs) ≡ true
live-last h p [] l = l.0
live-last h p (x ∷ xs) l = live-last h x xs l.1

pub live-first :
    (h : Heap) (xs : List ℕ) (q : ℕ) → AllLive h xs → h.live q ≡ true → h.live (first xs q) ≡ true
live-first h [] q l e = e
live-first h (x ∷ xs) q l e = l.0

-- A chain through `xs ++ ys` is a chain up to the start of `ys`, and one on from the end of `xs`.
pub split-Chain :
    (h : Heap) (p : ℕ) (xs ys : List ℕ) (q : ℕ)
    → Chain h p (xs ++ ys) q
    → Chain h p xs (first ys q) × Chain h (last p xs) ys q
split-Chain h p [] [] q c = (c, c)
split-Chain h p [] (y ∷ ys) q c = ((c.0, c.1), c)
split-Chain h p (x ∷ xs) ys q (e, f, c) = let (l, r) = split-Chain h x xs ys q c in ((e, f, l), r)

pub join-Chain :
    (h : Heap) (p : ℕ) (xs : List ℕ) (x : ℕ) (ys : List ℕ) (q : ℕ)
    → Chain h p xs x
    → Chain h x ys q
    → Chain h p (xs ++ x ∷ ys) q
join-Chain h p [] x ys q (e, f) c = (e, f, c)
join-Chain h p (y ∷ xs) x ys q (e, f, l) c = (e, f, join-Chain h y xs x ys q l c)

pub join-Chain_end :
    (h : Heap) (p : ℕ) (xs ys : List ℕ) (q : ℕ)
    → Chain h p xs (first ys q)
    → Chain h (last p xs) ys q
    → Chain h p (xs ++ ys) q
join-Chain_end h p [] ys q l c = c
join-Chain_end h p (x ∷ xs) ys q (e, f, l) c = (e, f, join-Chain_end h x xs ys q l c)

pub Nodup-append_left : (xs ys : List ℕ) → Nodup (xs ++ ys) → Nodup xs
Nodup-append_left [] ys d = tt
Nodup-append_left (x ∷ xs) ys (o, d) =
    (ground (arith, has-append x xs ys), Nodup-append_left xs ys d)

pub Nodup-append_right : (xs ys : List ℕ) → Nodup (xs ++ ys) → Nodup ys
Nodup-append_right [] ys d = d
Nodup-append_right (x ∷ xs) ys d = Nodup-append_right xs ys d.1

-- The parts of a list with no duplicates are disjoint.
pub Nodup-apart : (a : ℕ) (xs ys : List ℕ) → Nodup (xs ++ ys) → has a xs ≡ true → has a ys ≡ false
Nodup-apart a [] ys d i = cc
Nodup-apart a (x ∷ xs) ys (o, d) i = ground (arith, has-append x xs ys, Nodup-apart a xs ys d)

pub Nodup-insert :
    (x : ℕ) (xs ys : List ℕ) → Nodup (xs ++ ys) → has x (xs ++ ys) ≡ false → Nodup (xs ++ x ∷ ys)
Nodup-insert x [] ys d o = (o, d)
Nodup-insert x (y ∷ xs) ys (e, d) o = (
  ground (arith, has-append y xs ys, has-append y xs (x ∷ ys)),
  Nodup-insert x xs ys d (ground arith),
)

pub Nodup-remove : (x : ℕ) (xs ys : List ℕ) → Nodup (xs ++ x ∷ ys) → Nodup (xs ++ ys)
Nodup-remove x [] ys d = d.1
Nodup-remove x (y ∷ xs) ys (e, d) =
    (ground (arith, has-append y xs ys, has-append y xs (x ∷ ys)), Nodup-remove x xs ys d)

pub AllLive-insert :
    (h g : Heap) (x : ℕ) (xs ys : List ℕ)
    → g.live ≡ h.live
    → AllLive h (xs ++ ys)
    → h.live x ≡ true
    → AllLive g (xs ++ x ∷ ys)
AllLive-insert h g x [] [] e l i = (ground arith, tt)
AllLive-insert h g x [] (y ∷ ys) e (a, l) i =
    let (b, m) = AllLive-insert h g y [] ys e l a in (ground arith, (b, m))
AllLive-insert h g x (y ∷ xs) ys e (a, l) i = (ground arith, AllLive-insert h g x xs ys e l i)

pub AllLive-remove :
    (h g : Heap) (x : ℕ) (xs ys : List ℕ)
    → g.live ≡ h.live
    → AllLive h (xs ++ x ∷ ys)
    → AllLive g (xs ++ ys)
AllLive-remove h g x [] [] e l = tt
AllLive-remove h g x [] (y ∷ ys) e (a, l) = (ground arith, AllLive-remove h g y [] ys e l)
AllLive-remove h g x (y ∷ xs) ys e (a, l) = (ground arith, AllLive-remove h g x xs ys e l)

pub first-apart :
    (xs ys : List ℕ) (q : ℕ)
    → Nodup (xs ++ ys)
    → has q (xs ++ ys) ≡ false
    → has (first ys q) xs ≡ false
first-apart xs [] q d o = ground (arith, has-append q xs [])
first-apart xs (y ∷ ys) q d o = ground (arith, Nodup-apart y xs (y ∷ ys) d, ==_refl y)

pub last-apart : (p : ℕ) (xs ys : List ℕ) → Nodup (p ∷ xs ++ ys) → has (last p xs) ys ≡ false
last-apart p [] ys d = d.0
last-apart p (x ∷ xs) ys d = last-apart x xs ys d.1

pub AllLive-append :
    (h : Heap) (xs ys : List ℕ) → AllLive h (xs ++ ys) → AllLive h xs × AllLive h ys
AllLive-append h [] ys l = (tt, l)
AllLive-append h (x ∷ xs) ys (a, l) = let (b, c) = AllLive-append h xs ys l in ((a, b), c)

-- A chain survives when its end is turned elsewhere: `next` of its last node and `prev` of the new
-- end are set, all other links of its nodes stay.
pub relink :
    (h g : Heap) (p : ℕ) (xs : List ℕ) (q r : ℕ)
    → Chain h p xs q
    → Nodup (p ∷ xs)
    → ((a : ℕ) → has a (p ∷ xs) ≡ true → a ≢ last p xs → g.next a ≡ h.next a)
    → ((a : ℕ) → has a xs ≡ true → g.prev a ≡ h.prev a)
    → g.next (last p xs) ≡ r
    → g.prev r ≡ last p xs
    → Chain g p xs r
relink h g p [] q r c d n v e f = (e, f)
relink h g p (x ∷ xs) q r (a, b, c) (o, d) n v e f = (
  n p (ground (arith, ==_refl p)) (last-ne p x xs o) ∙ a,
  v x (ground (arith, ==_refl x)) ∙ b,
  relink h g x xs q r c d (λ y i ne. n y (ground arith) ne) (λ y i. v y (ground arith)) e f,
)

-- A chain survives when its start is moved from `p` to `s`.
pub restart :
    (h g : Heap) (p s : ℕ) (xs : List ℕ) (q : ℕ)
    → Chain h p xs q
    → has q xs ≡ false
    → ((a : ℕ) → has a xs ≡ true → g.next a ≡ h.next a)
    → ((a : ℕ) → has a (q ∷ xs) ≡ true → a ≢ first xs q → g.prev a ≡ h.prev a)
    → Nodup xs
    → g.next s ≡ first xs q
    → g.prev (first xs q) ≡ s
    → Chain g s xs q
restart h g p s [] q c o n v d e f = (e, f)
restart h g p s (x ∷ []) q (a, b, c) o n v d e f = (
  e,
  f,
  (n x (ground (arith, ==_refl x)) ∙ c.0, v q (ground (arith, ==_refl q)) (ground arith) ∙ c.1),
)
restart h g p s (x ∷ y ∷ xs) q (a, b, c) o n v d e f = (
  e,
  f,
  restart h g x x (y ∷ xs) q c (ground arith) (λ z i. n z (ground arith))
      (λ z i ne. v z (ground arith) (ground arith)) d.1 (n x (ground (arith, ==_refl x)) ∙ c.0)
      (v y (ground (arith, ==_refl y)) (ground arith) ∙ c.1),
)

pub AllLive-split :
    (h : Heap) (xs : List ℕ) (x : ℕ) (ys : List ℕ) → AllLive h (xs ++ x ∷ ys) → h.live x ≡ true
AllLive-split h [] x ys (l, _) = l
AllLive-split h (z ∷ xs) x ys (_, l) = AllLive-split h xs x ys l

pub AllLive-front : (h : Heap) (xs ys : List ℕ) → AllLive h (xs ++ ys) → AllLive h xs
AllLive-front h [] ys l = tt
AllLive-front h (z ∷ xs) ys (l, ls) = (l, AllLive-front h xs ys ls)

pub has-front : (a : ℕ) (xs ys : List ℕ) → has a (xs ++ ys) ≡ false → has a xs ≡ false
has-front a xs ys h = ground (arith, has-append a xs ys)

-- A node of a list without repetition is not among the nodes before it.
pub Nodup-front : (xs : List ℕ) (x : ℕ) (ys : List ℕ) → Nodup (xs ++ x ∷ ys) → has x xs ≡ false
Nodup-front [] x ys n = refl
Nodup-front (y ∷ xs) x ys (o, n) = ground (arith, Nodup-front xs x ys n, has-append y xs (x ∷ ys))
