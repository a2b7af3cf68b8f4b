-- ===== src/LinkedList.antt =====
-- include/list.h: circular doubly linked lists threaded through `struct list_head` nodes. The
-- nodes live in a heap: `live` tells the allocated addresses, and `NULL` is 0, which is never live.
pub mod Chain
pub mod Insert
pub mod Delete
pub mod Walk
use nbos.Base.{
  ℕ, zero, suc, Bool, ◌==◌, ◌≡◌, true, if◌then◌else◌, List, [], ◌∷◌, Run, ok, fault, out_of_fuel, M,
  pure, ◌>>=◌, ◌>>◌,
}

pub record Heap : Type 0 where
  pub live : ℕ → Bool
  pub prev : ℕ → ℕ
  pub next : ℕ → ℕ

abbrev pub update : (ℕ → ℕ) → ℕ → ℕ → ℕ → ℕ
update f p v q = if q == p then v else f q

abbrev pub null : ℕ
null = 0

unfoldable pub get_prev : ℕ → M Heap ℕ
get_prev p h = if h.live p then ok (h.prev p, h) else fault

unfoldable pub get_next : ℕ → M Heap ℕ
get_next p h = if h.live p then ok (h.next p, h) else fault

unfoldable pub set_prev : ℕ → ℕ → M Heap (Unit {0})
set_prev p v h = if h.live p then ok (tt, record h { prev = update h.prev p v }) else fault

unfoldable pub set_next : ℕ → ℕ → M Heap (Unit {0})
set_next p v h = if h.live p then ok (tt, record h { next = update h.next p v }) else fault

module _ (h : Heap) (p : ℕ) (l : h.live p ≡ true) where
  pub get_prev-ok : get_prev p h ≡ ok (h.prev p, h)
  unfolding get_prev
  get_prev-ok = rw l

  pub get_next-ok : get_next p h ≡ ok (h.next p, h)
  unfolding get_next
  get_next-ok = rw l

  pub set_prev-ok : (v : ℕ) → set_prev p v h ≡ ok (tt, record h { prev = update h.prev p v })
  unfolding set_prev
  set_prev-ok v = rw l

  pub set_next-ok : (v : ℕ) → set_next p v h ≡ ok (tt, record h { next = update h.next p v })
  unfolding set_next
  set_next-ok v = rw l

-- `INIT_LIST_HEAD`
unfoldable pub init_list_head : ℕ → M Heap (Unit {0})
init_list_head list = do set_next list list; set_prev list list

-- `__list_add`
unfoldable pub list_insert : (new prev next : ℕ) → M Heap (Unit {0})
list_insert new prev next = do
  set_prev next new
  set_next new next
  set_prev new prev
  set_next prev new

unfoldable pub list_add : (new head : ℕ) → M Heap (Unit {0})
unfolding list_insert
list_add new head = do next ← get_next head; list_insert new head next

unfoldable pub list_add_tail : (new head : ℕ) → M Heap (Unit {0})
unfolding list_insert
list_add_tail new head = do prev ← get_prev head; list_insert new prev head

unfoldable pub list_del : ℕ → M Heap (Unit {0})
list_del entry = do
  prev ← get_prev entry
  next ← get_next entry
  set_prev next prev
  set_next prev next
  set_prev entry null
  set_next entry null

unfoldable pub list_empty : ℕ → M Heap Bool
list_empty head = do next ← get_next head; pure (next == head)

-- `list_for_each`: `body` runs on a state that carries the heap; the link is read after it.
module _ {S : Type 0} (heap : S → Heap) (body : ℕ → M S (Unit {0})) where
  -- `pos = pos->next`, from the heap that the state holds now
  unfoldable pub advance : ℕ → M S ℕ
  advance pos s = if (heap s).live pos then ok ((heap s).next pos, s) else fault

  unfoldable pub for_each_from : ℕ → (head pos : ℕ) → M S (Unit {0})
  for_each_from zero head pos = λ _. out_of_fuel
  for_each_from (suc k) head pos =
      let rest = (do body pos; pos' ← advance pos; for_each_from k head pos') in
      if pos == head then pure tt else rest

  unfoldable pub list_for_each : ℕ → (head : ℕ) → M S (Unit {0})
  unfolding for_each_from advance
  list_for_each fuel head = do first ← advance head; for_each_from fuel head first
