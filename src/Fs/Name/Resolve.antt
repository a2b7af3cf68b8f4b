-- ===== src/Fs/Name/Resolve.antt =====
-- `namei` against the components of the path.
use nbos.Base.{
  ◌+◌, ◌%◌, ◌^◌, ltb, fault, ℕ, zero, suc, ◌<◌, ◌≤◌, ◌≡◌, sym, ◌∙◌, ap, ap₂, arith, Bool, false,
  ◌&&◌, ◌==◌, ==_ne, if◌then◌else◌, List, [], ◌∷◌, length, Option, none, some, M, Run, ok, pure,
  deref, ◌>>=◌, and_then, Bool-cases, inl, inr, ==→eq, fun_ext,
}
use native.Mathlib.Nat.{zero-add}
use nbos.Page.{page_size}
use nbos.Str.{Reader, tail, strlen}
use nbos.Str.Compare.{Holds, strlen-length}
use nbos.Fs.{Fs}
use nbos.Fs.Name.{count_slashes, count_name, skip, path_len, lookup, name_of, namei_from, namei}
use nbos.Fs.Name.Components.{
  close, components, text, slashes, behind_slashes, word, behind_word, count_slashes-run,
  count_name-run, Holds-slashes, Holds-word, name_of-text, components_step, no_word, behind-le,
  behind_word-add,
}

-- The names are looked up one after the other, each in the directory that the one before led to. The
-- walk ends with the first name that is not there.
unfoldable pub resolve : (fuel : ℕ) → Option ℕ → List (List ℕ) → M Fs (Option ℕ)
resolve fuel dir [] = pure dir
resolve fuel dir (n ∷ ns) = do
  d ← deref dir
  found ← lookup fuel d (text n)
  elim found [ none ↦ pure none | some e ↦ resolve fuel (some e) ns ]

path_len-run :
    (fuel : ℕ) (p : Reader) (cs : List ℕ)
    → Holds p cs
    → length cs < fuel
    → path_len fuel p ≡ ok (length (word (behind_slashes cs)), slashes cs)
unfolding path_len
path_len-run fuel p [] h f = rw h
path_len-run fuel p (c ∷ cs) (a, z, h) f = rw (a, ==_ne c 0 z) (loops (c ∷ cs) (a, z, h) f)
  where
    loops :
        (bs : List ℕ)
        → Holds p bs
        → length bs < fuel
        → and_then {B = ℕ × ℕ}
            (count_slashes fuel p 0)
            (λ offset. and_then {B = ℕ × ℕ} (count_name fuel (skip offset p) 0) λ i. ok (i, offset))
          ≡ ok (length (word (behind_slashes bs)), slashes bs)
    loops bs h f =
        let name =
          count_name-run fuel 0 (skip (slashes bs) p) (behind_slashes bs) (Holds-slashes p bs h)
            (omega (arith, behind-le bs)) in
        rw (count_slashes-run fuel 0 p bs h f, zero-add, name)
          (ap (λ (n : ℕ). and_then {B = ℕ × ℕ} (ok n) (λ i. ok (i, slashes bs))) (zero-add _))

-- One name, with what the walk does behind it.
follow :
    (fuel : ℕ) (dir : Option ℕ) (w : List ℕ) (names : List (List ℕ)) (name : Reader)
    (g : ℕ → M Fs (Option ℕ)) (s : Fs)
    → (length w == 0) ≡ false
    → name ≡ text w
    → ((e : ℕ) (t : Fs) → g e t ≡ resolve fuel (some e) names t)
    → (do d ← deref dir; found ← lookup fuel d name; elim found [ none ↦ pure none | some e ↦ g e ])
        s
      ≡ resolve fuel dir (close w names) s
unfolding resolve
follow fuel dir [] names name g s n q e = absurd (cc n)
follow fuel dir (c ∷ cs) names name g s n q e =
    ap
      (λ (r : Reader).
        (do d ← deref dir; found ← lookup fuel d r; elim found [ none ↦ pure none | some e ↦ g e ])
          s)
      q
    ∙ ap
        (λ (g : ℕ → M Fs (Option ℕ)).
          (do
            d ← deref dir
            found ← lookup fuel d (text (c ∷ cs))
            elim found [ none ↦ pure none | some e ↦ g e ])
            s)
        (fun_ext λ e'. fun_ext λ t. e e' t)

namei_from-resolve :
    (k fuel : ℕ) (dir : Option ℕ) (p : Reader) (cs : List ℕ) (s : Fs)
    → Holds p cs
    → length cs < fuel
    → length cs < k
    → namei_from fuel k dir p s ≡ resolve fuel dir (components cs) s
unfolding namei_from resolve
namei_from-resolve zero fuel dir p cs s h f l = absurd (omega arith)
namei_from-resolve (suc k) fuel dir p cs s h f l =
    elim (Bool-cases (length (word (behind_slashes cs)) == 0)) [
      | inl e ↦ rw (path_len-run fuel p cs h f, e, no_word cs (==→eq _ 0 e))
      | inr e ↦
          rw (path_len-run fuel p cs h f, e, components_step cs)
            (follow fuel dir (word (behind_slashes cs))
              (components (behind_word (behind_slashes cs)))
              (name_of (length (word (behind_slashes cs))) (skip (slashes cs) p))
              (λ (d : ℕ).
                namei_from fuel k (some d)
                  (skip (length (word (behind_slashes cs))) (skip (slashes cs) p)))
              s e (name_of-text (skip (slashes cs) p) (behind_slashes cs) (Holds-slashes p cs h))
              (λ d t.
                namei_from-resolve k fuel (some d) _ (behind_word (behind_slashes cs)) t
                  (Holds-word (skip (slashes cs) p) (behind_slashes cs) (Holds-slashes p cs h))
                  (omega (arith, behind-le cs, behind_word-add (behind_slashes cs)))
                  (ground (arith, behind-le cs, behind_word-add (behind_slashes cs)))))
    ]

abbrev pub is_absolute : List ℕ → Bool
is_absolute [] = false
is_absolute (c ∷ cs) = c == b'/'

-- A path without the `./` at its front, if there is one.
abbrev pub without_dot : List ℕ → List ℕ
without_dot [] = []
without_dot (c ∷ []) = c ∷ []
without_dot (c ∷ d ∷ cs) = if (c == b'.') && (d == b'/') then cs else c ∷ d ∷ cs

-- The file of a path: from the root for an absolute one, else from `cur_dir`, which may be `NULL`.
abbrev pub resolve_path : (fuel : ℕ) → (cur_dir : Option ℕ) → List ℕ → M Fs (Option ℕ)
resolve_path fuel cur_dir cs s =
    if is_absolute cs
    then resolve fuel s.root_inode (components (without_dot cs)) s
    else elim cur_dir [
      | none ↦ ok (none, s)
      | some d ↦ resolve fuel (some d) (components (without_dot cs)) s
    ]

-- The path that the walk starts from holds the rest behind `./`.
undotted :
    (p : Reader) (cs : List ℕ)
    → Holds p cs
    → Holds (if (p 0 == b'.') && (p 1 == b'/') then skip 2 p else p) (without_dot cs)
undotted p [] h = rw h h
undotted p (c ∷ []) (a, z, h) = elim (Bool-cases ((p 0 == b'.') && (p 1 == b'/'))) [
  | inl e ↦ absurd (ground arith)
  | inr e ↦ rw e (a, z, h)
]
undotted p (c ∷ d ∷ cs) (a, z, (b, w, h)) = elim (Bool-cases ((p 0 == b'.') && (p 1 == b'/'))) [
  | inl e ↦ rw (e, sym same ∙ e, behind) h
  | inr e ↦ rw (e, sym same ∙ e) (a, z, (b, w, h))
]
  where
    same : ((p 0 == b'.') && (p 1 == b'/')) ≡ ((c == b'.') && (d == b'/'))
    same = ap₂ (λ (x y : ℕ). (x == b'.') && (y == b'/')) a b

    behind : skip 2 p ≡ tail (tail p)
    behind = fun_ext λ i. ap p (omega arith)

undotted-le : (cs : List ℕ) → length (without_dot cs) ≤ length cs
undotted-le [] = omega arith
undotted-le (c ∷ []) = omega arith
undotted-le (c ∷ d ∷ cs) = ground arith

is_absolute-at : (p : Reader) (cs : List ℕ) → Holds p cs → (p 0 == b'/') ≡ is_absolute cs
is_absolute-at p [] h = rw h
is_absolute-at p (c ∷ cs) (a, z, h) = rw a

fits : (n : ℕ) → n + 4 ≤ page_size → ltb page_size (n + 4) ≡ false
fits n h = ground (arith, h)

from_start :
    (fuel : ℕ) (dir : Option ℕ) (p : Reader) (cs : List ℕ) (s : Fs)
    → Holds p cs
    → length cs < fuel
    → length cs + 4 ≤ page_size
    → and_then
        (strlen fuel p)
        (λ n. if ltb page_size (n + 4) then fault else namei_from fuel fuel dir p s)
      ≡ resolve fuel dir (components cs) s
from_start fuel dir p cs s h f small =
    ap
      (λ (r : Run ℕ).
        and_then r (λ n. if ltb page_size (n + 4) then fault else namei_from fuel fuel dir p s))
      (strlen-length fuel p cs h f)
    ∙ ap (λ (b : Bool). if b then fault else namei_from fuel fuel dir p s)
        (fits (length cs % 2 ^ 32) (omega (arith, small)))
    ∙ namei_from-resolve fuel fuel dir p cs s h f f

start :
    (fuel : ℕ) (dir : Option ℕ) (p : Reader) (cs : List ℕ) (s : Fs)
    → Holds p cs
    → length cs < fuel
    → length cs + 4 ≤ page_size
    → and_then (strlen fuel (if (p 0 == b'.') && (p 1 == b'/') then skip 2 p else p)) (λ n.
      if ltb page_size (n + 4)
      then fault
      else namei_from fuel fuel dir (if (p 0 == b'.') && (p 1 == b'/') then skip 2 p else p) s)
      ≡ resolve fuel dir (components (without_dot cs)) s
start fuel dir p cs s h f small =
    from_start fuel dir (if (p 0 == b'.') && (p 1 == b'/') then skip 2 p else p) (without_dot cs) s
      (undotted p cs h) (omega (arith, undotted-le cs)) (omega (arith, undotted-le cs, small))

-- `namei` of a terminated path that fits its buffer, given more fuel than the path is long, looks up the components of the
-- path one after the other, each in the directory that the one before led to, from the root for an
-- absolute path and else from `cur_dir`; slashes that repeat or stand at the end mean nothing, and
-- neither does a `./` at the front. Without a directory to start from it finds nothing.
pub namei-resolve_path :
    (fuel : ℕ) (cur_dir : Option ℕ) (p : Reader) (cs : List ℕ) (s : Fs)
    → Holds p cs
    → length cs < fuel
    → length cs + 4 ≤ page_size
    → namei fuel cur_dir (some p) s ≡ resolve_path fuel cur_dir cs s
unfolding namei
namei-resolve_path fuel none p cs s h f small = elim (Bool-cases (p 0 == b'/')) [
  | inl e ↦ rw (e, sym (is_absolute-at p cs h) ∙ e) (start fuel s.root_inode p cs s h f small)
  | inr e ↦ rw (e, sym (is_absolute-at p cs h) ∙ e)
]
namei-resolve_path fuel (some d) p cs s h f small = elim (Bool-cases (p 0 == b'/')) [
  | inl e ↦ rw (e, sym (is_absolute-at p cs h) ∙ e) (start fuel s.root_inode p cs s h f small)
  | inr e ↦ rw (e, sym (is_absolute-at p cs h) ∙ e) (start fuel (some d) p cs s h f small)
]
