-- ===== src/Fs/Name/Components.antt =====
-- The components of a path, and the loops of `path_len` on it.
use nbos.Base.{
  ℕ, zero, suc, ◌+◌, ◌<◌, ◌≤◌, ◌≡◌, refl, sym, ◌∙◌, ap, ap₂, arith, true, ◌==◌, if◌then◌else◌, List,
  [], ◌∷◌, ◌++◌, length, ok, Bool-cases, inl, inr, fun_ext, append_assoc, append-nil,
}
use nbos.Str.{Reader, tail}
use nbos.Str.Compare.{Holds}
use nbos.Fs.Name.{skip, count_slashes, count_name, name_of}

abbrev pub close : List ℕ → List (List ℕ) → List (List ℕ)
close [] names = names
close (c ∷ cs) names = (c ∷ cs) ∷ names

-- The parts of `cs` between slashes that are not empty, the first one with `cur` in front.
unfoldable pub components_from : (cur cs : List ℕ) → List (List ℕ)
components_from cur [] = close cur []
components_from cur (c ∷ cs) =
    let closed = close cur (components_from [] cs) in
    let longer = components_from (cur ++ c ∷ []) cs in if c == b'/' then closed else longer

abbrev pub components : List ℕ → List (List ℕ)
components cs = components_from [] cs

-- The bytes of a name, then zeros.
abbrev pub text : List ℕ → Reader
text [] i = 0
text (c ∷ cs) zero = c
text (c ∷ cs) (suc i) = text cs i

-- The leading slashes, the name behind them, and what follows each.
abbrev pub slashes : List ℕ → ℕ
slashes [] = 0
slashes (c ∷ cs) = if c == b'/' then suc (slashes cs) else 0

abbrev pub behind_slashes : List ℕ → List ℕ
behind_slashes [] = []
behind_slashes (c ∷ cs) = if c == b'/' then behind_slashes cs else c ∷ cs

abbrev pub word : List ℕ → List ℕ
word [] = []
word (c ∷ cs) = if c == b'/' then [] else c ∷ word cs

abbrev pub behind_word : List ℕ → List ℕ
behind_word [] = []
behind_word (c ∷ cs) = if c == b'/' then c ∷ cs else behind_word cs

skip-suc : (n : ℕ) (p : Reader) → skip (suc n) p ≡ skip n (tail p)
skip-suc n p = fun_ext λ i. ap p (omega arith)

skip_zero : (p : Reader) → skip 0 p ≡ p
skip_zero p = fun_ext λ i. ap p (omega arith)

pub count_slashes-run :
    (k n : ℕ) (p : Reader) (cs : List ℕ)
    → Holds p cs
    → length cs < k
    → count_slashes k p n ≡ ok (n + slashes cs)
unfolding count_slashes
count_slashes-run zero n p cs h f = absurd (omega arith)
count_slashes-run (suc k) n p [] h f = ground arith
count_slashes-run (suc k) n p (c ∷ cs) (a, z, h) f =
    ground (arith, count_slashes-run k (n + 1) (tail p) cs h (omega arith))

pub count_name-run :
    (k n : ℕ) (p : Reader) (cs : List ℕ)
    → Holds p cs
    → length cs < k
    → count_name k p n ≡ ok (n + length (word cs))
unfolding count_name
count_name-run zero n p cs h f = absurd (omega arith)
count_name-run (suc k) n p [] h f = ground arith
count_name-run (suc k) n p (c ∷ cs) (a, z, h) f =
    ground (arith, count_name-run k (n + 1) (tail p) cs h (omega arith))

pub Holds-slashes :
    (p : Reader) (cs : List ℕ) → Holds p cs → Holds (skip (slashes cs) p) (behind_slashes cs)
Holds-slashes p [] h = h
Holds-slashes p (c ∷ cs) (a, z, h) = elim (Bool-cases (c == b'/')) [
  | inl e ↦ rw (e, skip-suc (slashes cs) p) (Holds-slashes (tail p) cs h)
  | inr e ↦ rw (e, skip_zero p) (a, z, h)
]

pub Holds-word :
    (p : Reader) (cs : List ℕ) → Holds p cs → Holds (skip (length (word cs)) p) (behind_word cs)
Holds-word p [] h = h
Holds-word p (c ∷ cs) (a, z, h) = elim (Bool-cases (c == b'/')) [
  | inl e ↦ rw (e, skip_zero p) (a, z, h)
  | inr e ↦ rw (e, skip-suc (length (word cs)) p) (Holds-word (tail p) cs h)
]

name_of_at :
    (p : Reader) (cs : List ℕ) (i : ℕ)
    → Holds p cs
    → name_of (length (word cs)) p i ≡ text (word cs) i
name_of_at p [] i h = ground arith
name_of_at p (c ∷ cs) zero (a, z, h) = ground arith
name_of_at p (c ∷ cs) (suc i) (a, z, h) = ground (arith, name_of_at (tail p) cs i h)

pub name_of-text :
    (p : Reader) (cs : List ℕ) → Holds p cs → name_of (length (word cs)) p ≡ text (word cs)
name_of-text p cs h = fun_ext λ i. name_of_at p cs i h

components_slash : (c : ℕ) (cs : List ℕ) → (c == b'/') ≡ true → components (c ∷ cs) ≡ components cs
unfolding components_from
components_slash c cs e = rw e

components_from-word :
    (cs cur : List ℕ)
    → components_from cur cs ≡ close (cur ++ word cs) (components (behind_word cs))
unfolding components_from
components_from-word [] cur = ap (λ (n : List ℕ). close n []) (sym (append-nil cur))
components_from-word (c ∷ cs) cur = elim (Bool-cases (c == b'/')) [
  | inl e ↦ rw e (ap₂ close (sym (append-nil cur)) (sym (components_slash c cs e)))
  | inr e ↦ rw e (
      components_from-word cs (cur ++ c ∷ [])
      ∙ ap (λ (n : List ℕ). close n (components (behind_word cs)))
          (append_assoc cur (c ∷ []) (word cs)))
]

components-slashes : (cs : List ℕ) → components cs ≡ components (behind_slashes cs)
components-slashes [] = refl
components-slashes (c ∷ cs) = elim (Bool-cases (c == b'/')) [
  | inl e ↦
      components_slash c cs e
      ∙ components-slashes cs
      ∙ ap components {x = behind_slashes cs} {y = behind_slashes (c ∷ cs)} (rw e)
  | inr e ↦ ap components {x = c ∷ cs} {y = behind_slashes (c ∷ cs)} (rw e)
]

-- The first component, and the others.
pub components_step :
    (cs : List ℕ)
    → components cs
      ≡ close (word (behind_slashes cs)) (components (behind_word (behind_slashes cs)))
components_step cs = components-slashes cs ∙ components_from-word (behind_slashes cs) []

-- Behind the slashes no name is left only at the end.
pub no_word : (cs : List ℕ) → length (word (behind_slashes cs)) ≡ 0 → components cs ≡ []
unfolding components_from
no_word [] e = refl
no_word (c ∷ cs) e = elim (Bool-cases (c == b'/')) [
  | inl h ↦ components_slash c cs h ∙ no_word cs (rw h at e)
  | inr h ↦ absurd (ground arith)
]

pub behind-le : (cs : List ℕ) → length (behind_slashes cs) ≤ length cs
behind-le [] = omega arith
behind-le (c ∷ cs) = ground (arith, behind-le cs)

pub behind_word-add : (cs : List ℕ) → length (word cs) + length (behind_word cs) ≡ length cs
behind_word-add [] = refl
behind_word-add (c ∷ cs) = ground (arith, behind_word-add cs)
