-- ===== src/Task/Exec/Bytes.antt =====
-- The bytes of the words of memory.
use nbos.Base.{
  ℕ, zero, suc, ◌-◌, ◌/◌, ◌%◌, ◌^◌, ◌<◌, ◌≡◌, refl, ◌≢◌, sym, ◌∙◌, ap, arith, ◌==◌, ==→eq, ==_refl,
  Bool-cases, inl, inr,
}
use nbos.Task.Exec.{byte_of, set_byte_of, byte_at, put_byte}

pub byte_of_bound : (k w : ℕ) → byte_of k w < 2 ^ 8
unfolding byte_of
byte_of_bound zero w = omega arith
byte_of_bound (suc k) w = byte_of_bound k (w / 2 ^ 8)

byte_of-same : (k v w : ℕ) → byte_of k (set_byte_of k v w) ≡ v % 2 ^ 8
unfolding byte_of set_byte_of
byte_of-same zero v w = omega arith
byte_of-same (suc k) v w = ap (byte_of k) (omega arith) ∙ byte_of-same k v (w / 2 ^ 8)

byte_of-other : (j k v w : ℕ) → j ≢ k → byte_of j (set_byte_of k v w) ≡ byte_of j w
unfolding byte_of set_byte_of
byte_of-other zero zero v w n = absurd (n refl)
byte_of-other zero (suc k) v w n = omega arith
byte_of-other (suc j) zero v w n = ap (byte_of j) (omega arith)
byte_of-other (suc j) (suc k) v w n =
    ap (byte_of j) (omega arith) ∙ byte_of-other j k v (w / 2 ^ 8) (λ e. n (ap suc e))

pub byte_at-same : (mem : ℕ → ℕ) (a v : ℕ) → v < 2 ^ 8 → byte_at (put_byte mem a v) a ≡ v
byte_at-same mem a v h =
    rw (==_refl (a - a % 8)) (byte_of-same (a % 8) v (mem (a - a % 8)) ∙ omega (arith, h))

pub byte_at-other : (mem : ℕ → ℕ) (a v b : ℕ) → b ≢ a → byte_at (put_byte mem a v) b ≡ byte_at mem b
byte_at-other mem a v b n = elim (Bool-cases (b - b % 8 == a - a % 8)) [
  | inl e ↦
      let same = ==→eq (b - b % 8) (a - a % 8) e in
      rw e (
        byte_of-other (b % 8) (a % 8) v (mem (a - a % 8)) (λ h. n (omega (arith, h, same)))
        ∙ ap (λ (w : ℕ). byte_of (b % 8) (mem w)) (sym same))
  | inr e ↦ rw e
]
