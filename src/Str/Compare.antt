-- ===== src/Str/Compare.antt =====
-- `strcmp` and `strlen` against the strings that their arguments hold.
use nbos.Base.{
  ℕ, zero, suc, ◌+◌, ◌%◌, ◌^◌, ◌<◌, ◌≤◌, ◌≡◌, refl, ◌≢◌, List, [], ◌∷◌, arith, ◌==◌, if◌then◌else◌,
  ok, length, ap, ◌∙◌,
}
use nbos.Base.Int.{ℤ, pos, sub_ℕ}
use nbos.Str.{Reader, tail, strcmp, strlen, strlen_from}

-- The reader starts with the bytes `cs`, none of them 0, and then the terminator.
abbrev pub Holds : Reader → List ℕ → Type 0
Holds p [] = p 0 ≡ 0
Holds p (c ∷ cs) = (p 0 ≡ c) × (c ≢ 0) × Holds (tail p) cs

pub Holds-agree :
    (p q : Reader) (cs : List ℕ) → Holds p cs → ((i : ℕ) → i ≤ length cs → q i ≡ p i) → Holds q cs
Holds-agree p q [] h e = e 0 (omega arith) ∙ h
Holds-agree p q (c ∷ cs) (a, b, h) e =
    (e 0 (omega arith) ∙ a, b, Holds-agree (tail p) (tail q) cs h (λ i l. e (suc i) (omega arith)))

-- The lexicographic order: the difference of the first bytes that differ, the end counting as 0.
unfoldable pub lex : List ℕ → List ℕ → ℤ
lex [] [] = pos 0
lex [] (d ∷ ds) = sub_ℕ 0 d
lex (c ∷ cs) [] = sub_ℕ c 0
lex (c ∷ cs) (d ∷ ds) = if c == d then lex cs ds else sub_ℕ c d

-- `strcmp` of two terminated strings, given more fuel than the second is long, returns their
-- lexicographic comparison.
pub strcmp-lex :
    (fuel : ℕ) (src dst : Reader) (cs ds : List ℕ)
    → Holds src cs
    → Holds dst ds
    → length ds < fuel
    → strcmp fuel src dst ≡ ok (lex cs ds)
unfolding strcmp lex
strcmp-lex zero src dst cs ds p q f = absurd (omega arith)
strcmp-lex (suc k) src dst [] [] p q f = ground arith
strcmp-lex (suc k) src dst [] (d ∷ ds) p q f = ground arith
strcmp-lex (suc k) src dst (c ∷ cs) [] p q f = ground arith
strcmp-lex (suc k) src dst (c ∷ cs) (d ∷ ds) p q f =
    ground (arith, strcmp-lex k (tail src) (tail dst) cs ds p.2 q.2 (omega arith))

-- No byte of the string is the terminator.
abbrev pub NoZero : List ℕ → Type 0
NoZero [] = Unit
NoZero (c ∷ cs) = (c ≢ 0) × NoZero cs

pub Holds-NoZero : (p : Reader) (cs : List ℕ) → Holds p cs → NoZero cs
Holds-NoZero p [] h = tt
Holds-NoZero p (c ∷ cs) h = (h.1, Holds-NoZero (tail p) cs h.2)

pub lex_zero : (cs ds : List ℕ) → NoZero cs → NoZero ds → lex cs ds ≡ pos 0 → cs ≡ ds
unfolding lex
lex_zero [] [] m n e = refl
lex_zero [] (d ∷ ds) m n e = absurd (ground arith)
lex_zero (c ∷ cs) [] m n e = absurd (ground arith)
lex_zero (c ∷ cs) (d ∷ ds) m n e = ground (arith, lex_zero cs ds m.1 n.1)

pub lex_refl : (cs : List ℕ) → lex cs cs ≡ pos 0
unfolding lex
lex_refl [] = refl
lex_refl (c ∷ cs) = ground (arith, lex_refl cs)

strlen_from-length :
    (k : ℕ) (p : Reader) (cs : List ℕ) (len : ℕ)
    → Holds p cs
    → length cs < k
    → len < 2 ^ 32
    → strlen_from k p len ≡ ok ((len + length cs) % 2 ^ 32)
unfolding strlen_from
strlen_from-length zero p cs len h f b = absurd (omega arith)
strlen_from-length (suc k) p [] len h f b = rw h (ap ok (omega arith))
strlen_from-length (suc k) p (c ∷ cs) len h f b =
    ground (arith, strlen_from-length k (tail p) cs ((len + 1) % 2 ^ 32) h.2 (omega arith))

-- `strlen` of a terminated string, given more fuel than the string is long, returns its length
-- modulo 2^32.
pub strlen-length :
    (fuel : ℕ) (p : Reader) (cs : List ℕ)
    → Holds p cs
    → length cs < fuel
    → strlen fuel p ≡ ok (length cs % 2 ^ 32)
unfolding strlen
strlen-length fuel p cs h f = ground (arith, strlen_from-length fuel p cs 0 h f (omega arith))
