-- ===== src/Cpu/Masks.antt =====
-- The interrupt masks: critical sections restore them, however they are nested.
use Prim.Native.Nat.{bit_and, bit_or}
use nbos.Base.{
  ℕ, ◌+◌, ◌*◌, ◌/◌, ◌%◌, ◌<◌, ◌≡◌, refl, ◌∙◌, sym, subst, ap, arith, Bool, true, ◌==◌, ==→eq,
  if◌then◌else◌, Bool-cases, inl, inr, ◌&&◌, not,
}
use nbos.Base.Bits.{all_below, all_below-lt}
use nbos.Cpu.{Cpu, complement, daif_set, daif_clr, disable_irqsave, enable_irqsave}

-- The register holds the four mask bits at bits 6 to 9 and nothing else.
abbrev pub IsDaif : Cpu → Type 0
IsDaif c = (m : ℕ) × (m < 16) × (c.daif ≡ m * 64)

-- Interrupts are masked.
abbrev pub masked : Cpu → Bool
masked c = not (bit_and c.daif 128 == 0)

-- The mask that `enable_irqsave` leaves after `disable_irqsave`.
abbrev restored : ℕ → ℕ
restored d =
    if bit_and (bit_and d 128) 128 == 0
    then bit_and (bit_or d 128) (complement 128)
    else bit_or d 128

-- The mask bits with that of interrupts set.
abbrev with_irq : ℕ → ℕ
with_irq m = if m / 2 % 2 == 0 then m + 2 else m

abbrev restores : ℕ → Bool
restores m =
    (restored (m * 64) == (m * 64))
    && not (bit_and (bit_or (m * 64) 128) 128 == 0)
    && (bit_or (m * 64) 128 == (with_irq m * 64))

table : all_below 16 restores ≡ true
unfolding all_below
table = refl

enable-disable :
    (c : Cpu)
    → enable_irqsave (disable_irqsave c).0 (disable_irqsave c).1
      ≡ record c { daif = restored c.daif }
unfolding disable_irqsave enable_irqsave daif_set daif_clr
enable-disable c = elim (Bool-cases (bit_and (bit_and c.daif 128) 128 == 0)) [
  | inl h ↦ rw h
  | inr h ↦ rw h
]

-- `disable_irqsave` masks interrupts, and `enable_irqsave` with its flag gives the processor the state
-- from before, whether interrupts were masked then or not; the mask register stays well-formed.
pub irqsave_round_trip :
    (c : Cpu)
    → IsDaif c
    → (masked (disable_irqsave c).1 ≡ true)
      × IsDaif (disable_irqsave c).1
      × (enable_irqsave (disable_irqsave c).0 (disable_irqsave c).1 ≡ c)
unfolding disable_irqsave enable_irqsave daif_set daif_clr
irqsave_round_trip c (m, l, e) =
    let t = all_below-lt 16 restores m table l in
    (
      rw e (ground arith),
      (with_irq m, ground arith, rw e (ground arith)),
      enable-disable c ∙ ap (λ (d : ℕ). record c { daif = d }) (same t),
    )
  where
    same : restores m ≡ true → restored c.daif ≡ c.daif
    same t = rw e (==→eq (restored (m * 64)) (m * 64) (ground arith))

-- Critical sections inside one another: each part between two of them keeps the masks, as code that
-- only enters and leaves sections does.
pub data Sections : Type 0 where
  leaf : Sections
  nest : Sections → Sections → Sections

-- The sections in order; `nest s t` enters one, runs `s` in it, leaves it, and goes on with `t`.
unfoldable pub run_sections : Sections → Cpu → Cpu
run_sections leaf c = c
run_sections (nest s t) c =
    let d = run_sections s (disable_irqsave c).1 in
    run_sections t (enable_irqsave (disable_irqsave c).0 d)

-- Interrupts are masked from where a section is entered on, also where an inner one was left.
abbrev pub Inside : Sections → Cpu → Type 0
Inside leaf c = masked c ≡ true
Inside (nest s t) c =
    (masked c ≡ true)
    × Inside s (disable_irqsave c).1
    × Inside t (enable_irqsave (disable_irqsave c).0 (run_sections s (disable_irqsave c).1))

-- The outermost sections are masked inside.
abbrev pub Masked : Sections → Cpu → Type 0
Masked leaf c = Unit
Masked (nest s t) c =
    Inside s (disable_irqsave c).1
    × Masked t (enable_irqsave (disable_irqsave c).0 (run_sections s (disable_irqsave c).1))

run_sections-same : (s : Sections) (c : Cpu) → IsDaif c → run_sections s c ≡ c
unfolding run_sections
run_sections-same leaf c h = refl
run_sections-same (nest s t) c h =
    let (_, h', back) = irqsave_round_trip c h in
    rw (run_sections-same s (disable_irqsave c).1 h', back) (run_sections-same t c h)

-- The state in which a section is left.
left_section :
    (s : Sections) (c : Cpu)
    → IsDaif c
    → enable_irqsave (disable_irqsave c).0 (run_sections s (disable_irqsave c).1) ≡ c
left_section s c h =
    let (_, h', back) = irqsave_round_trip c h in
    ap (enable_irqsave (disable_irqsave c).0) (run_sections-same s (disable_irqsave c).1 h') ∙ back

sections-Inside : (s : Sections) (c : Cpu) → IsDaif c → masked c ≡ true → Inside s c
sections-Inside leaf c h m = m
sections-Inside (nest s t) c h m =
    let (on, h', _) = irqsave_round_trip c h in
    (
      m,
      sections-Inside s (disable_irqsave c).1 h' on,
      subst (Inside t) (sym (left_section s c h)) (sections-Inside t c h m),
    )

sections-Masked : (s : Sections) (c : Cpu) → IsDaif c → Masked s c
sections-Masked leaf c h = tt
sections-Masked (nest s t) c h =
    let (on, h', _) = irqsave_round_trip c h in
    (
      sections-Inside s (disable_irqsave c).1 h' on,
      subst (Masked t) (sym (left_section s c h)) (sections-Masked t c h),
    )

-- However critical sections are nested and follow one another, interrupts are masked everywhere inside
-- an outermost one, also behind the inner ones, and the processor is in the state from before when it
-- is left.
pub run_sections-Masked : (s : Sections) (c : Cpu) → IsDaif c → Masked s c × (run_sections s c ≡ c)
run_sections-Masked s c h = (sections-Masked s c h, run_sections-same s c h)
