-- ===== src/Str/Copy.antt =====
-- `memset`, `memcpy`, `strcpy` and `pow`: what memory holds afterwards.
use nbos.Base.{
  ℕ, zero, suc, ◌+◌, ◌-◌, ◌*◌, ◌%◌, ◌^◌, ◌<◌, ◌≤◌, ◌≡◌, ◌≢◌, ◌⊎◌, List, [], ◌∷◌, arith, ap,
  if◌then◌else◌, ok, some, length, ◌∙◌, ◌/◌, sym, ==_ne, ltb, leb, ◌&&◌,
}
use nbos.Str.{
  Mem, store, memset, memset_from, memcpy, memcpy_from, strcpy, strcpy_from, pow, pow_from,
}
use native.Mathlib.Nat.{pow-zero, pow-suc, mul_assoc, mul_comm, div-add-mod, mul-add-mod_self_left}
use nbos.Str.Compare.{Holds, Holds-agree}

memset_from_lem :
    (n s c : ℕ) (m : Mem) (a : ℕ)
    → memset_from n s c m a ≡ (if leb s a && ltb a (s + n) then c % 256 else m a)
unfolding memset_from
memset_from_lem zero s c m a = ground arith
memset_from_lem (suc n) s c m a = memset_from_lem n (s + 1) c (store m s (c % 256)) a ∙ ground arith

-- `memset` at a non-null address returns that address; the `n` bytes from there on hold the low
-- byte of `c`, and all other bytes are unchanged.
pub memset_lem :
    (s c n : ℕ) (m : Mem)
    → s ≢ 0
    → ((memset s c n m).0 ≡ some s)
      × ((a : ℕ) → (memset s c n m).1 a ≡ (if leb s a && ltb a (s + n) then c % 256 else m a))
unfolding memset
memset_lem s c n m h = (ground arith, λ a. ground (arith, memset_from_lem n s c m a))

-- One store of the forward copy, for a byte that is read later.
memcpy_from_lem :
    (n i dst src : ℕ) (m : Mem) (a : ℕ)
    → (dst ≤ src) ⊎ (src + i + n ≤ dst)
    → memcpy_from n i dst src m a
      ≡ (if leb (dst + i) a && ltb a (dst + i + n) then m (src + (a - dst)) else m a)
unfolding memcpy_from
memcpy_from_lem zero i dst src m a h = ground arith
memcpy_from_lem (suc n) i dst src m a h =
    memcpy_from_lem n (i + 1) dst src (store m (dst + i) (m (src + i))) a later ∙ ground arith
  where
    later : (dst ≤ src) ⊎ (src + (i + 1) + n ≤ dst)
    later = omega arith

-- `memcpy` to an area that starts at or below the source, or behind its end, copies: byte
-- `dst + i` holds what byte `src + i` held before, for every `i` below `size`, and all bytes
-- outside the target are unchanged.
pub memcpy_lem :
    (dst src size : ℕ) (m : Mem) (a : ℕ)
    → (dst ≤ src) ⊎ (src + size ≤ dst)
    → memcpy dst src size m a
      ≡ (if leb dst a && ltb a (dst + size) then m (src + (a - dst)) else m a)
unfolding memcpy
memcpy_lem dst src size m a h = memcpy_from_lem size 0 dst src m a (omega arith) ∙ ground arith

abbrev pub Copied : (dst src n : ℕ) → Mem → Mem → Type 0
Copied dst src n m g =
    (a : ℕ) → g a ≡ (if leb dst a && ltb a (dst + n) then m (src + (a - dst)) else m a)

strcpy_from_lem :
    (k dst src : ℕ) (cs : List ℕ) (m : Mem)
    → Holds (λ i. m (src + i)) cs
    → (dst ≤ src) ⊎ (src + length cs < dst)
    → length cs < k
    → (g : Mem) × (strcpy_from k dst src m ≡ ok g) × Copied dst src (length cs + 1) m g
unfolding strcpy_from
strcpy_from_lem zero dst src cs m h d f = absurd (omega arith)
strcpy_from_lem (suc k) dst src [] m h d f =
    (store m dst (m src), rw (ap m {x = src} {y = src + 0} (omega arith) ∙ h), λ a. ground arith)
strcpy_from_lem (suc k) dst src (c ∷ cs) m (e, ne, h) d f =
    let m' : Mem = store m dst (m src) in
    let here : m src ≡ c = ap m (omega arith) ∙ e in
    let kept : (i : ℕ) → i ≤ length cs → m' (src + 1 + i) ≡ m (src + suc i) = λ i l. ground arith in
    let (g, run, copied) =
      strcpy_from_lem k (dst + 1) (src + 1) cs m'
        (Holds-agree (λ i. m (src + suc i)) (λ i. m' (src + 1 + i)) cs h kept) (omega arith)
        (omega arith) in
    (g, ground arith, λ a. copied a ∙ ground arith)

-- `strcpy` of a terminated string to a non-null address that does not lie inside the string, given
-- more fuel than the string is long, returns that address; the string and its terminator are
-- copied there, and all other bytes are unchanged.
pub strcpy_lem :
    (fuel dst src : ℕ) (cs : List ℕ) (m : Mem)
    → Holds (λ i. m (src + i)) cs
    → dst ≢ 0
    → src ≢ 0
    → (dst ≤ src) ⊎ (src + length cs < dst)
    → length cs < fuel
    → (g : Mem) × (strcpy fuel dst src m ≡ ok (some dst, g)) × Copied dst src (length cs + 1) m g
unfolding strcpy
strcpy_lem fuel dst src cs m h nd ns d f =
    let (g, run, copied) = strcpy_from_lem fuel dst src cs m h d f in
    (g, rw (==_ne dst 0 nd, ==_ne src 0 ns, run), copied)

-- A product modulo `n` may be reduced in its first factor.
mul-mod_reduce : (a b n : ℕ) → a % n * b % n ≡ a * b % n
mul-mod_reduce a b n =
    let whole : a * b ≡ n * (a / n * b) + a % n * b =
      omega (arith, ap (λ (t : ℕ). t * b) (div-add-mod a n)) in
    sym (ap (λ t. t % n) whole ∙ mul-add-mod_self_left n (a / n * b) (a % n * b))

pow_from_lem : (m x y : ℕ) → pow_from m x (y % 2 ^ 64) ≡ y * x ^ m % 2 ^ 64
unfolding pow_from
pow_from_lem zero x y = ap (λ t. t % 2 ^ 64) (rw (pow-zero x) (omega arith))
pow_from_lem (suc m) x y =
    pow_from_lem m x (y % 2 ^ 64 * x)
    ∙ ap (λ t. t % 2 ^ 64) (mul_assoc (y % 2 ^ 64) x (x ^ m))
    ∙ mul-mod_reduce y (x * x ^ m) (2 ^ 64)
    ∙ ap (λ t. y * t % 2 ^ 64) (mul_comm x (x ^ m) ∙ sym (pow-suc x m))

-- `pow` returns the power modulo 2^64.
pub pow_lem : (x m : ℕ) → pow x m ≡ x ^ m % 2 ^ 64
unfolding pow
pow_lem x m = pow_from_lem m x 1 ∙ ap (λ t. t % 2 ^ 64) (omega arith)
