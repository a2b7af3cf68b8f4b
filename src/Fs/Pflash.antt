-- ===== src/Fs/Pflash.antt =====
-- fs/fs.c: `pflash_read` and `pflash_write` over the flash chip, which is a parameter: `load` and
-- `store` are the accesses to its address range. `poll` bounds the wait for the chip.
use nbos.Base.{
  refl, ◌≤◌, ◌≢◌, ◌⊎◌, sym, ==→eq, ℕ, zero, suc, ◌+◌, ◌*◌, ◌/◌, ◌%◌, ◌^◌, ◌<◌, ◌≡◌, ◌∙◌, ap,
  and_then, arith, false, ltb, ◌==◌, if◌then◌else◌, Run, ok, out_of_fuel, Bool-cases, inl, inr,
}
use nbos.Fs.{Block, block_sz}

module _ {Dev : Type 0} (load : Dev → ℕ → ℕ) (store : Dev → ℕ → ℕ → Dev) where
  -- `memcpy(bh->data, PFLASH1_BASE + sect * BLOCK_SZ, BLOCK_SZ)`
  unfoldable pub pflash_read : ℕ → Dev → Block
  pflash_read sect d i = load d (sect * block_sz + i)

  abbrev pub cmd_wr : ℕ
  cmd_wr = 0x10

  abbrev pub cmd_wr_end : ℕ
  cmd_wr_end = 0xff

  abbrev pub cmd_state_reg : ℕ
  cmd_state_reg = 0x70

  -- `val` is an `unsigned char`.
  unfoldable pub pflash_write_byte : (addr val : ℕ) → Dev → Dev
  pflash_write_byte addr val d = store (store d addr cmd_wr) addr (val % 2 ^ 8)

  -- The loop over the bytes, from index `i` on, with `n` left.
  unfoldable pub write_bytes : (n i base : ℕ) → Block → Dev → Dev
  unfolding pflash_write_byte
  write_bytes zero i base b d = d
  write_bytes (suc n) i base b d =
      write_bytes n (i + 1) base b (pflash_write_byte (base + i) (b i) d)

  -- `while (!(*pflash1_addr(CMD_STATE_REG) & SR_7));`
  unfoldable pub wait_ready : ℕ → Dev → Run (Unit {0})
  wait_ready zero d = out_of_fuel
  wait_ready (suc k) d =
      let rest = wait_ready k d in if load d cmd_state_reg / 2 ^ 7 % 2 == 0 then rest else ok tt

  unfoldable pub pflash_write : (poll sect : ℕ) → Block → Dev → Run (ℕ × Dev)
  pflash_write poll sect b d =
      let d' = write_bytes block_sz 0 (sect * block_sz) b d in
      and_then (wait_ready poll d') λ _. ok (block_sz, store d' 0 cmd_wr_end)

  apart :
      (sect other i : ℕ)
      → other ≢ sect
      → i < block_sz
      → (other * block_sz + i < sect * block_sz + 0)
        ⊎ (sect * block_sz + 0 + block_sz ≤ other * block_sz + i)
  apart sect other i n h = elim (Bool-cases (ltb other sect)) [
    | inl l ↦ inl (ground (arith, l, h))
    | inr l ↦ inr (ground (arith, l, n))
  ]

  wait_ready-ok :
      (k : ℕ) (d : Dev)
      → (load d cmd_state_reg / 2 ^ 7 % 2 == 0) ≡ false
      → wait_ready (suc k) d ≡ ok tt
  unfolding wait_ready
  wait_ready-ok k d e = rw e

  -- What the code relies on, with `cell` the stored byte of an address. `Idle` holds of a chip that
  -- is not between a write command and its value, and `Reading` of one in read mode. For an idle
  -- chip, a write command and a value leave it idle and change at most the byte at the address, which
  -- is the value if it was erased; the status register reports ready then; the last command enters
  -- read mode, in which loads see the stored bytes.
  module _ (cell : Dev → ℕ → ℕ) (Idle Reading : Dev → Type 0)
      (program : (d : Dev) (a v : ℕ)
        → Idle d
        → v < 2 ^ 8
        → Idle (store (store d a cmd_wr) a v)
          × (cell d a ≡ 0xff → cell (store (store d a cmd_wr) a v) a ≡ v)
          × ((b : ℕ) → b ≢ a → cell (store (store d a cmd_wr) a v) b ≡ cell d b))
      (read_mode : (d : Dev)
        → Idle d
        → Reading (store d 0 cmd_wr_end) × ((b : ℕ) → cell (store d 0 cmd_wr_end) b ≡ cell d b))
      (read_cell : (d : Dev) (a : ℕ) → Reading d → load d a ≡ cell d a)
      (ready : (d : Dev) (a v : ℕ)
        → Idle d
        → v < 2 ^ 8
        → (load (store (store d a cmd_wr) a v) cmd_state_reg / 2 ^ 7 % 2 == 0) ≡ false) where
    write_bytes-Idle :
        (n i base : ℕ) (b : Block) (d : Dev) → Idle d → Idle (write_bytes n i base b d)
    unfolding write_bytes
    write_bytes-Idle zero i base b d q = q
    write_bytes-Idle (suc n) i base b d q =
        write_bytes-Idle n (i + 1) base b (pflash_write_byte (base + i) (b i) d)
          (program d (base + i) (b i % 2 ^ 8) q (omega arith)).0

    -- The bytes outside stay.
    write_bytes-other :
        (n i base : ℕ) (b : Block) (d : Dev) (a : ℕ)
        → Idle d
        → (a < base + i) ⊎ (base + i + n ≤ a)
        → cell (write_bytes n i base b d) a ≡ cell d a
    unfolding write_bytes
    write_bytes-other zero i base b d a q o = refl
    write_bytes-other (suc n) i base b d a q o =
        let (idle, _, other) = program d (base + i) (b i % 2 ^ 8) q (omega arith) in
        write_bytes-other n (i + 1) base b (pflash_write_byte (base + i) (b i) d) a idle
          (behind a o)
        ∙ other a (λ e. ground (arith, o, e))
      where
        behind :
            (a : ℕ)
            → (a < base + i) ⊎ (base + i + suc n ≤ a)
            → (a < base + (i + 1)) ⊎ (base + (i + 1) + n ≤ a)
        behind a (inl h) = inl (omega (arith, h))
        behind a (inr h) = inr (omega (arith, h))

    -- The erased bytes get the bytes of the block.
    write_bytes-cell :
        (n i base : ℕ) (b : Block) (d : Dev) (k : ℕ)
        → Idle d
        → ((j : ℕ) → i ≤ j → j < i + n → cell d (base + j) ≡ 0xff)
        → i ≤ k
        → k < i + n
        → cell (write_bytes n i base b d) (base + k) ≡ b k % 2 ^ 8
    unfolding write_bytes
    write_bytes-cell zero i base b d k q erased l h = absurd (omega (arith, l, h))
    write_bytes-cell (suc n) i base b d k q erased l h =
        let (idle, here, other) = program d (base + i) (b i % 2 ^ 8) q (omega arith) in
        elim (Bool-cases (k == i)) [
          | inl e ↦
              let same : k ≡ i = ==→eq k i e in
              ap
                (λ (x : ℕ).
                  cell (write_bytes n (i + 1) base b (pflash_write_byte (base + i) (b i) d))
                    (base + x))
                same
              ∙ write_bytes-other n (i + 1) base b (pflash_write_byte (base + i) (b i) d) (base + i)
                  idle (inl (omega arith))
              ∙ here (erased i (omega arith) (omega arith))
              ∙ ap (λ (x : ℕ). b x % 2 ^ 8) (sym same)
          | inr e ↦
              write_bytes-cell n (i + 1) base b (pflash_write_byte (base + i) (b i) d) k idle
                (λ j p r.
                  other (base + j) (λ c. omega (arith, p, c))
                  ∙ erased j (omega (arith, p)) (omega (arith, r)))
                (ground (arith, e, l)) (omega (arith, h))
        ]

    write_bytes-ready :
        (n i base : ℕ) (b : Block) (d : Dev)
        → Idle d
        → (load (write_bytes (suc n) i base b d) cmd_state_reg / 2 ^ 7 % 2 == 0) ≡ false
    unfolding write_bytes
    write_bytes-ready zero i base b d q = ready d (base + i) (b i % 2 ^ 8) q (omega arith)
    write_bytes-ready (suc n) i base b d q =
        write_bytes-ready n (i + 1) base b (pflash_write_byte (base + i) (b i) d)
          (program d (base + i) (b i % 2 ^ 8) q (omega arith)).0

    -- On an idle chip that behaves so, `pflash_write` to a block that is erased, given one poll, ends and
    -- returns the block size; reading the block afterwards gives the bytes written, and reading any
    -- other block gives the bytes stored before.
    pub pflash_read-pflash_write :
        (poll sect : ℕ) (b : Block) (d : Dev)
        → Idle d
        → ((i : ℕ) → i < block_sz → cell d (sect * block_sz + i) ≡ 0xff)
        → 0 < poll
        → (e : Dev) × (pflash_write poll sect b d ≡ ok (block_sz, e))
          × ((i : ℕ) → i < block_sz → pflash_read sect e i ≡ b i % 2 ^ 8)
          × ((other i : ℕ)
              → other ≢ sect
              → i < block_sz
              → pflash_read other e i ≡ cell d (other * block_sz + i))
    unfolding pflash_read pflash_write
    pflash_read-pflash_write zero sect b d q erased p = absurd (omega arith)
    pflash_read-pflash_write (suc k) sect b d q erased p =
        let d' = write_bytes block_sz 0 (sect * block_sz) b d in
        let idle = write_bytes-Idle block_sz 0 (sect * block_sz) b d q in
        let kept = λ (a : ℕ).
          read_cell (store d' 0 cmd_wr_end) a (read_mode d' idle).0 ∙ (read_mode d' idle).1 a in
        (
          store d' 0 cmd_wr_end,
          ap (λ r. and_then r λ _. ok (block_sz, store d' 0 cmd_wr_end))
              (wait_ready-ok k d' (write_bytes-ready 1023 0 (sect * block_sz) b d q)),
          λ i h.
              kept (sect * block_sz + i)
              ∙ write_bytes-cell block_sz 0 (sect * block_sz) b d i q
                  (λ j _ l. erased j (omega (arith, l))) (omega arith) (omega (arith, h)),
          λ other i n h.
              kept (other * block_sz + i)
              ∙ write_bytes-other block_sz 0 (sect * block_sz) b d (other * block_sz + i) q
                  (apart sect other i n h),
        )
