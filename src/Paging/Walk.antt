-- ===== src/Paging/Walk.antt =====
-- What the hardware finds in the page tables, independently of the code that fills them, and what
-- survives when they grow.
use nbos.Base.{
  ℕ, ◌+◌, ◌-◌, ◌*◌, ◌%◌, ◌^◌, ◌<◌, ◌≤◌, ◌≡◌, refl, ◌≢◌, sym, ◌∙◌, ap, arith, Bool, true, ◌==◌,
  if◌then◌else◌, List, [], ◌∷◌, Option, none, some, inl, ◌⊎◌,
}
use nbos.Page.{Pages, page_size, va_of}
use nbos.Page.Free.{IsTaken}
use nbos.Paging.{table_index, entry_addr}

-- The entry of a table at address `table`, and of the table that the entry at `slot` leads to.
abbrev pub slot_of : (table addr shift : ℕ) → ℕ
slot_of table addr shift = table + table_index addr shift * 8

abbrev pub next_slot : (mem : ℕ → ℕ) → (slot addr shift : ℕ) → ℕ
next_slot mem slot addr shift = slot_of (va_of (entry_addr (mem slot))) addr shift

-- Bits 1 and 0 of an entry: 3 for a table, 1 for a block.
abbrev pub is_table : ℕ → Bool
is_table e = e % 4 == 3

abbrev pub is_block : ℕ → Bool
is_block e = e % 4 == 1

-- The entry that a walk ends at, over tables indexed by these shifts behind the first one.
unfoldable pub walk : (mem : ℕ → ℕ) → (addr : ℕ) → List ℕ → (slot : ℕ) → Option ℕ
walk mem addr [] slot = some (mem slot)
walk mem addr (sh ∷ shs) slot =
    let rest = walk mem addr shs (next_slot mem slot addr sh) in
    if is_table (mem slot) then rest else none

-- The physical address of a block of `2 ^ 21` bytes, and of `addr` in it.
abbrev pub in_block : (addr e : ℕ) → Option ℕ
in_block addr e = if is_block e then some (e - e % 2 ^ 21 + addr % 2 ^ 21) else none

abbrev pub in_block_found : (addr : ℕ) → Option ℕ → Option ℕ
in_block_found addr none = none
in_block_found addr (some e) = in_block addr e

-- The physical address of a kernel address, from the top table at `pgd`.
abbrev pub translate : (mem : ℕ → ℕ) → (pgd addr : ℕ) → Option ℕ
translate mem pgd addr = in_block_found addr (walk mem addr (30 ∷ 21 ∷ []) (slot_of pgd addr 39))

-- The tables on the way to `addr` are no free pages, and its last entry, or one before it, is empty.
abbrev pub IsOpen : Pages → (addr : ℕ) → List ℕ → (slot : ℕ) → Type 0
IsOpen s addr [] slot = IsTaken s slot × (s.mem slot ≡ 0)
IsOpen s addr (sh ∷ shs) slot =
    IsTaken s slot
    × ((s.mem slot ≡ 0)
        ⊎ ((is_table (s.mem slot) ≡ true) × IsOpen s addr shs (next_slot s.mem slot addr sh)))

pub IsOpen-empty :
    (s : Pages) (addr : ℕ) (shs : List ℕ) (slot : ℕ)
    → IsTaken s slot
    → s.mem slot ≡ 0
    → IsOpen s addr shs slot
IsOpen-empty s addr [] slot h z = (h, z)
IsOpen-empty s addr (sh ∷ shs) slot h z = (h, inl z)

-- The way to `addr` is complete, over tables that are no free pages, and ends at the entry `e`.
abbrev pub IsMapped : Pages → (addr : ℕ) → List ℕ → (slot e : ℕ) → Type 0
IsMapped s addr [] slot e = IsTaken s slot × (s.mem slot ≡ e) × (e ≢ 0)
IsMapped s addr (sh ∷ shs) slot e =
    IsTaken s slot
    × (is_table (s.mem slot) ≡ true)
    × IsMapped s addr shs (next_slot s.mem slot addr sh) e

pub IsMapped-walk :
    (s : Pages) (addr : ℕ) (shs : List ℕ) (slot e : ℕ)
    → IsMapped s addr shs slot e
    → walk s.mem addr shs slot ≡ some e
unfolding walk
IsMapped-walk s addr [] slot e (_, m, _) = ap some m
IsMapped-walk s addr (sh ∷ shs) slot e (_, t, m) = rw t (IsMapped-walk s addr shs _ e m)

-- From `s` to `t` no page becomes free, and the words outside the free pages that are not zero stay.
pub record Keeps (s t : Pages) : Type 0 where
  pub busy : (j : ℕ) → t.count j ≡ 0 → s.count j ≡ 0
  pub taken : (a : ℕ) → IsTaken s a → IsTaken t a
  pub words : (a : ℕ) → IsTaken s a → s.mem a ≢ 0 → t.mem a ≡ s.mem a

pub Keeps-refl : (s : Pages) → Keeps s s
Keeps-refl s = record { busy = λ j z. z; taken = λ a h. h; words = λ a h n. refl }

pub Keeps-trans : (s t u : Pages) → Keeps s t → Keeps t u → Keeps s u
Keeps-trans s t u k l = record {
  busy = λ j z. k.busy j (l.busy j z);
  taken = λ a h. l.taken a (k.taken a h);
  words = λ a h n. l.words a (k.taken a h) (λ z. n (sym (k.words a h n) ∙ z)) ∙ k.words a h n;
}

pub table_ne : (e : ℕ) → is_table e ≡ true → e ≢ 0
table_ne e t z = ground arith

-- One table more, at the front of a way that is complete in a later state.
pub extend :
    (s t : Pages) (addr sh : ℕ) (shs : List ℕ) (slot e : ℕ)
    → Keeps s t
    → IsTaken s slot
    → is_table (s.mem slot) ≡ true
    → IsMapped t addr shs (next_slot s.mem slot addr sh) e
    → IsMapped t addr (sh ∷ shs) slot e
extend s t addr sh shs slot e k h b m =
    let same = k.words slot h (table_ne (s.mem slot) b) in
    (k.taken slot h, ap is_table same ∙ b, rw same m)

pub Keeps-IsMapped :
    (s t : Pages) (addr : ℕ) (shs : List ℕ) (slot e : ℕ)
    → Keeps s t
    → IsMapped s addr shs slot e
    → IsMapped t addr shs slot e
Keeps-IsMapped s t addr [] slot e k (h, m, n) =
    (k.taken slot h, k.words slot h (λ z. n (sym m ∙ z)) ∙ m, n)
Keeps-IsMapped s t addr (sh ∷ shs) slot e k (h, b, m) =
    extend s t addr sh shs slot e k h b (Keeps-IsMapped s t addr shs _ e k m)

-- A word is stored where there was zero.
pub Keeps-store :
    (s : Pages) (slot v : ℕ)
    → s.mem slot ≡ 0
    → Keeps s (record s { mem = λ a. if a == slot then v else s.mem a })
Keeps-store s slot v z = record { busy = λ j h. h; taken = λ a h. h; words = λ a h n. ground arith }

-- The entries on the way to `addr` lie outside the page at `page`.
abbrev pub IsWayBeside : (mem : ℕ → ℕ) → (page addr : ℕ) → List ℕ → (slot : ℕ) → Type 0
IsWayBeside mem page addr [] slot = (slot < page) ⊎ (page + page_size ≤ slot)
IsWayBeside mem page addr (sh ∷ shs) slot =
    ((slot < page) ⊎ (page + page_size ≤ slot))
    × IsWayBeside mem page addr shs (next_slot mem slot addr sh)

-- One entry more at the front, in a later state.
pub extend_beside :
    (s t : Pages) (page addr sh : ℕ) (shs : List ℕ) (slot : ℕ)
    → Keeps s t
    → IsTaken s slot
    → is_table (s.mem slot) ≡ true
    → (slot < page) ⊎ (page + page_size ≤ slot)
    → IsWayBeside t.mem page addr shs (next_slot s.mem slot addr sh)
    → IsWayBeside t.mem page addr (sh ∷ shs) slot
extend_beside s t page addr sh shs slot k h b o m =
    let same = k.words slot h (table_ne (s.mem slot) b) in (o, rw same m)

-- A walk over entries outside a page does not depend on its content.
pub walk-beside :
    (mem mem' : ℕ → ℕ) (page addr : ℕ) (shs : List ℕ) (slot : ℕ)
    → ((a : ℕ) → (a < page) ⊎ (page + page_size ≤ a) → mem' a ≡ mem a)
    → IsWayBeside mem page addr shs slot
    → walk mem' addr shs slot ≡ walk mem addr shs slot
unfolding walk
walk-beside mem mem' page addr [] slot same w = ap some (same slot w)
walk-beside mem mem' page addr (sh ∷ shs) slot same (o, w) = rw (same slot o) (
    ap (λ (r : Option ℕ). if is_table (mem slot) then r else none)
      (walk-beside mem mem' page addr shs (next_slot mem slot addr sh) same w))
