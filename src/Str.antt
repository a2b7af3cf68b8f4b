-- ===== src/Str.antt =====
-- lib/lib.c: the C string and memory routines. Memory is a function from addresses to bytes, and
-- `char` is unsigned, as it is on AArch64. A string argument that is only read is the reader of the
-- bytes from its pointer on: `p i` is `p[i]`. Loops that stop at a byte take fuel.
pub mod Compare
pub mod Copy
use nbos.Base.{
  ℕ, zero, suc, ◌+◌, ◌*◌, ◌%◌, ◌^◌, Bool, not, ◌&&◌, ◌==◌, if◌then◌else◌, Option, none, some, Run,
  ok, out_of_fuel, and_then,
}
use nbos.Base.Int.{ℤ, sub_ℕ}

abbrev pub Mem : Type 0
Mem = ℕ → ℕ

abbrev pub Reader : Type 0
Reader = ℕ → ℕ

-- `p + 1`
abbrev pub tail : Reader → Reader
tail p i = p (suc i)

abbrev pub store : Mem → ℕ → ℕ → Mem
store m p v a = if a == p then v else m a

unfoldable pub strcmp : ℕ → Reader → Reader → Run ℤ
strcmp zero src dst = out_of_fuel
strcmp (suc k) src dst =
    let rest = strcmp k (tail src) (tail dst) in
    if (src 0 == dst 0) && not (dst 0 == 0) then rest else ok (sub_ℕ (src 0) (dst 0))

-- The loop of `strlen`; `len` is an `unsigned int`.
unfoldable pub strlen_from : ℕ → Reader → ℕ → Run ℕ
strlen_from zero str len = out_of_fuel
strlen_from (suc k) str len =
    let rest = strlen_from k (tail str) ((len + 1) % 2 ^ 32) in if str 0 == 0 then ok len else rest

unfoldable pub strlen : ℕ → Reader → Run ℕ
unfolding strlen_from
strlen fuel str = strlen_from fuel str 0

-- The loop of `strcpy`: each byte is copied before it is tested.
unfoldable pub strcpy_from : ℕ → (dst src : ℕ) → Mem → Run Mem
strcpy_from zero dst src m = out_of_fuel
strcpy_from (suc k) dst src m =
    let m' = store m dst (m src) in
    let rest = strcpy_from k (dst + 1) (src + 1) m' in if m src == 0 then ok m' else rest

-- `none` is the `NULL` that `strcpy` returns for a null argument.
unfoldable pub strcpy : ℕ → (dst src : ℕ) → Mem → Run (Option ℕ × Mem)
unfolding strcpy_from
strcpy fuel dst src m =
    if dst == 0
    then ok (none, m)
    else if src == 0
    then ok (none, m)
    else and_then (strcpy_from fuel dst src m) (λ m'. ok (some dst, m'))

unfoldable pub memset_from : ℕ → (s c : ℕ) → Mem → Mem
memset_from zero s c m = m
memset_from (suc n) s c m = memset_from n (s + 1) c (store m s (c % 256))

-- `n < 0` is never true of an `unsigned long`.
unfoldable pub memset : (s c n : ℕ) → Mem → Option ℕ × Mem
unfolding memset_from
memset s c n m = if s == 0 then (none, m) else (some s, memset_from n s c m)

-- The loop of `memcpy` from index `i` on, with `n` bytes left; the index is an `int`, so sizes are
-- below 2^31.
unfoldable pub memcpy_from : ℕ → (i dst src : ℕ) → Mem → Mem
memcpy_from zero i dst src m = m
memcpy_from (suc n) i dst src m = memcpy_from n (i + 1) dst src (store m (dst + i) (m (src + i)))

unfoldable pub memcpy : (dst src size : ℕ) → Mem → Mem
unfolding memcpy_from
memcpy dst src size m = memcpy_from size 0 dst src m

-- `long` is kept as its 64-bit pattern.
unfoldable pub pow_from : ℕ → (x y : ℕ) → ℕ
pow_from zero x y = y
pow_from (suc m) x y = pow_from m x (y * x % 2 ^ 64)

unfoldable pub pow : (x m : ℕ) → ℕ
unfolding pow_from
pow x m = pow_from m x 1
