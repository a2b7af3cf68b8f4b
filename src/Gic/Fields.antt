-- ===== src/Gic/Fields.antt =====
-- Priorities, targets and triggers are fields of registers: setting one writes back the others.
use Prim.Native.Nat.{bit_and, bit_or}
use nbos.Base.{
  ℕ, ◌*◌, ◌/◌, ◌%◌, ◌^◌, ◌<◌, ◌≡◌, refl, ◌∙◌, ap, ◌≢◌, ==_ne, arith, Bool, true, ◌&&◌, ◌==◌, ==→eq,
  ==_refl, and_left, and_right, if◌then◌else◌, Bool-cases, inl, inr,
}
use nbos.Base.Bits.{
  field, ones, field-bit_and, field-bit_or, bit_and-zero, bit_and-ones, bit_or-zero, zero-bit_or,
  all_below, all_below-lt,
}
use nbos.Cpu.{complement}
use nbos.Gic.{put_field, update_field, gicd_set_target, gicd_set_priority, gicd_config}
use nbos.Gic.Gicd

-- Field `j` of `w` bits.
abbrev pub part : (w j reg : ℕ) → ℕ
part w j reg = field (j * w) w reg

-- What the mask and the value of field `i` have in field `j`.
abbrev agrees : (w n i j v : ℕ) → Bool
agrees w n i j v =
    (part w j (complement (ones w * 2 ^ (i * w))) == (if j == i then 0 else ones w))
    && (part w j (v * 2 ^ (i * w) % 2 ^ 32) == (if j == i then v else 0))

abbrev table : (w n : ℕ) → Bool
table w n = all_below n (λ i. all_below n (λ j. all_below (2 ^ w) (λ v. agrees w n i j v)))

bytes : table 8 4 ≡ true
unfolding all_below
bytes = refl

pairs : table 2 16 ≡ true
unfolding all_below
pairs = refl

table-lt : (w n i j v : ℕ) → table w n ≡ true → i < n → j < n → v < 2 ^ w → agrees w n i j v ≡ true
table-lt w n i j v t p q r =
    all_below-lt (2 ^ w) (λ v. agrees w n i j v) v
      (all_below-lt n (λ j. all_below (2 ^ w) (λ v. agrees w n i j v)) j
        (all_below-lt n (λ i. all_below n (λ j. all_below (2 ^ w) (λ v. agrees w n i j v))) i t p)
        q)
      r

put_field-part :
    (w n i j v reg : ℕ)
    → table w n ≡ true
    → i < n
    → j < n
    → v < 2 ^ w
    → part w j (put_field (ones w) (i * w) v reg) ≡ (if j == i then v else part w j reg)
unfolding put_field
put_field-part w n i j v reg t p q r =
    field-bit_or (j * w) w (bit_and reg mask) value
    ∙ ap (λ x. bit_or x (part w j value)) (field-bit_and (j * w) w reg mask)
    ∙ elim (Bool-cases (j == i)) [
      | inl e ↦ rw (kept e, stored e, e) (ap (λ x. bit_or x v) (bit_and-zero w _) ∙ zero-bit_or v)
      | inr e ↦ rw (kept e, stored e, e) (ap (λ x. bit_or x 0) (bit_and-ones w _) ∙ bit_or-zero w _)
    ]
  where
    mask : ℕ
    mask = complement (ones w * 2 ^ (i * w))

    value : ℕ
    value = v * 2 ^ (i * w) % 2 ^ 32

    agree : agrees w n i j v ≡ true
    agree = table-lt w n i j v t p q r

    kept : {b : Bool} → (j == i) ≡ b → part w j mask ≡ (if b then 0 else ones w)
    kept e =
        ==→eq (part w j mask) (if j == i then 0 else ones w) (
          and_left (part w j mask == (if j == i then 0 else ones w))
            (part w j value == (if j == i then v else 0)) agree)
        ∙ ap (λ (b : Bool). if b then 0 else ones w) e

    stored : {b : Bool} → (j == i) ≡ b → part w j value ≡ (if b then v else 0)
    stored e =
        ==→eq (part w j value) (if j == i then v else 0) (
          and_right (part w j mask == (if j == i then 0 else ones w))
            (part w j value == (if j == i then v else 0)) agree)
        ∙ ap (λ (b : Bool). if b then v else 0) e

-- What the driver writes to the register at `addr` to set field `j` of `w` bits to `v`: the register as
-- it read it, with `v` in that field and every other of its `n` fields as read.
pub record SetsField {Dev : Type 0} (read : Dev → ℕ → ℕ × Dev) (write : Dev → ℕ → ℕ → Dev)
    (addr w n j v : ℕ) (d e : Dev) : Type 0 where
  pub word : ℕ
  pub done : e ≡ write (read d addr).1 addr word
  pub here : part w j word ≡ v
  pub others : (k : ℕ) → k < n → k ≢ j → part w k word ≡ part w k (read d addr).0

module _ {Dev : Type 0} (read : Dev → ℕ → ℕ × Dev) (write : Dev → ℕ → ℕ → Dev) where
  update_field-SetsField :
      (addr w n i v : ℕ) (d : Dev)
      → table w n ≡ true
      → i < n
      → v < 2 ^ w
      → SetsField read write addr w n i v d (update_field read write addr (ones w) (i * w) v d)
  unfolding update_field
  update_field-SetsField addr w n i v d t p r =
      let reg = (read d addr).0 in
      record {
        word = put_field (ones w) (i * w) v reg;
        done = refl;
        here =
            put_field-part w n i i v reg t p p r
            ∙ ap (λ (b : Bool). if b then v else part w i reg) (==_refl i);
        others = λ k q ne.
            put_field-part w n i k v reg t p q r
            ∙ ap (λ (b : Bool). if b then v else part w k reg) (==_ne k i ne);
      }

  -- Interrupt `irq` has byte `irq % 4` of register `irq / 4` for its priority and its targets, and bits
  -- `irq % 16 * 2` and the next of register `irq / 16` for its trigger. `gicd_set_priority`,
  -- `gicd_set_target` and `gicd_config` read that register once and write it once: with the new value in
  -- the field of the interrupt, and the fields of all other interrupts as they were read.
  pub gicd_set-SetsField :
      (d : Dev) (irq prio target config : ℕ)
      → prio < 256
      → target < 256
      → config < 4
      → SetsField read write
          (Gicd.ipriorityr (irq / 4))
          8
          4
          (irq % 4)
          prio
          d
          (gicd_set_priority read write irq prio d)
        × SetsField read write
            (Gicd.itargetsr (irq / 4))
            8
            4
            (irq % 4)
            target
            d
            (gicd_set_target read write irq target d)
        × SetsField read write
            (Gicd.icfgr (irq / 16))
            2
            16
            (irq % 16)
            config
            d
            (gicd_config read write irq config d)
  unfolding gicd_set_priority gicd_set_target gicd_config
  gicd_set-SetsField d irq prio target config a b c = (
    update_field-SetsField (Gicd.ipriorityr (irq / 4)) 8 4 (irq % 4) prio d bytes (omega arith) a,
    update_field-SetsField (Gicd.itargetsr (irq / 4)) 8 4 (irq % 4) target d bytes (omega arith) b,
    update_field-SetsField (Gicd.icfgr (irq / 16)) 2 16 (irq % 16) config d pairs (omega arith) c,
  )
