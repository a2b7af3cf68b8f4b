-- ===== src/Tests/Flash.antt =====
-- A flash chip as a state machine: in read mode, behind a write command, or showing its status. A byte
-- that is written only loses bits.
use Prim.Native.Nat.{bit_and}
use nbos.Base.Bits.{all_below, all_below-lt}
use nbos.Base.{
  true, ◌<◌, ◌≢◌, ==_refl, ==_ne, ==→eq, ℕ, ◌+◌, ◌*◌, ◌/◌, ◌%◌, ◌^◌, ◌≡◌, refl, arith, false, ◌==◌,
  if◌then◌else◌, ok,
}
use nbos.Fs.{Block, block_sz}
use nbos.Fs.Pflash.{pflash_read, pflash_write, pflash_read-pflash_write}

data Mode : Type 0 where
  reading setup status : Mode

record Chip : Type 0 where
  cells : ℕ → ℕ
  mode : Mode

abbrev load_in : Mode → (ℕ → ℕ) → ℕ → ℕ
load_in reading cells a = cells a
load_in setup cells a = 0x80
load_in status cells a = 0x80

abbrev chip_load : Chip → ℕ → ℕ
chip_load d a = load_in d.mode d.cells a

abbrev command : ℕ → Mode
command v = if v == 0xff then reading else if v == 0x10 then setup else status

abbrev store_in : Mode → (ℕ → ℕ) → ℕ → ℕ → Chip
store_in reading cells a v = record { cells = cells; mode = command v }
store_in setup cells a v = record {
  cells = λ b. if b == a then bit_and (cells a) v else cells b;
  mode = status;
}
store_in status cells a v = record { cells = cells; mode = command v }

abbrev chip_store : Chip → ℕ → ℕ → Chip
chip_store d a v = store_in d.mode d.cells a v

abbrev IsIdle : Mode → Type 0
IsIdle reading = Unit
IsIdle setup = ⊥
IsIdle status = Unit

abbrev IsReading : Mode → Type 0
IsReading reading = Unit
IsReading setup = ⊥
IsReading status = ⊥

abbrev Idle : Chip → Type 0
Idle d = IsIdle d.mode

abbrev Reading : Chip → Type 0
Reading d = IsReading d.mode

-- Checked for all bytes.
all_bytes : all_below (2 ^ 8) (λ v. bit_and 0xff v == v) ≡ true
unfolding all_below
all_bytes = refl

erased_byte : (v : ℕ) → v < 2 ^ 8 → bit_and 0xff v ≡ v
erased_byte v l =
    ==→eq (bit_and 0xff v) v (all_below-lt (2 ^ 8) (λ v. bit_and 0xff v == v) v all_bytes l)

program :
    (d : Chip) (a v : ℕ)
    → Idle d
    → v < 2 ^ 8
    → Idle (chip_store (chip_store d a 0x10) a v)
      × (d.cells a ≡ 0xff → (chip_store (chip_store d a 0x10) a v).cells a ≡ v)
      × ((b : ℕ) → b ≢ a → (chip_store (chip_store d a 0x10) a v).cells b ≡ d.cells b)
program d a v q l = go d.mode d.cells q
  where
    go :
        (m : Mode) (cells : ℕ → ℕ)
        → IsIdle m
        → Idle (chip_store (store_in m cells a 0x10) a v)
          × (cells a ≡ 0xff → (chip_store (store_in m cells a 0x10) a v).cells a ≡ v)
          × ((b : ℕ) → b ≢ a → (chip_store (store_in m cells a 0x10) a v).cells b ≡ cells b)
    go reading cells i = (tt, (λ e. rw (==_refl a, e) (erased_byte v l)), λ b n. rw (==_ne b a n))
    go setup cells i = absurd i
    go status cells i = (tt, (λ e. rw (==_refl a, e) (erased_byte v l)), λ b n. rw (==_ne b a n))

read_mode :
    (d : Chip)
    → Idle d
    → Reading (chip_store d 0 0xff) × ((b : ℕ) → (chip_store d 0 0xff).cells b ≡ d.cells b)
read_mode d q = go d.mode d.cells q
  where
    go :
        (m : Mode) (cells : ℕ → ℕ)
        → IsIdle m
        → Reading (store_in m cells 0 0xff)
          × ((b : ℕ) → (store_in m cells 0 0xff).cells b ≡ cells b)
    go reading cells i = (tt, λ b. refl)
    go setup cells i = absurd i
    go status cells i = (tt, λ b. refl)

read_cell : (d : Chip) (a : ℕ) → Reading d → chip_load d a ≡ d.cells a
read_cell d a q = go d.mode d.cells q
  where
    go : (m : Mode) (cells : ℕ → ℕ) → IsReading m → load_in m cells a ≡ cells a
    go reading cells i = refl
    go setup cells i = absurd i
    go status cells i = absurd i

ready :
    (d : Chip) (a v : ℕ)
    → Idle d
    → v < 2 ^ 8
    → (chip_load (chip_store (chip_store d a 0x10) a v) 0x70 / 2 ^ 7 % 2 == 0) ≡ false
ready d a v q l = go d.mode d.cells q
  where
    go :
        (m : Mode) (cells : ℕ → ℕ)
        → IsIdle m
        → (chip_load (chip_store (store_in m cells a 0x10) a v) 0x70 / 2 ^ 7 % 2 == 0) ≡ false
    go reading cells i = refl
    go setup cells i = absurd i
    go status cells i = refl

abbrev chip : Chip
chip = record { cells = λ a. 0xff; mode = reading }

abbrev content : Block
content i = i

pflash_read-pflash_write_example :
    (e : Chip) × (pflash_write chip_load chip_store 1 3 content chip ≡ ok (block_sz, e))
    × ((i : ℕ) → i < block_sz → pflash_read chip_load chip_store 3 e i ≡ content i % 2 ^ 8)
    × ((other i : ℕ)
        → other ≢ 3
        → i < block_sz
        → pflash_read chip_load chip_store other e i ≡ chip.cells (other * block_sz + i))
pflash_read-pflash_write_example =
    pflash_read-pflash_write chip_load chip_store (λ d. d.cells) Idle Reading program read_mode
      read_cell ready 1 3 content chip tt (λ i h. refl) (omega arith)
