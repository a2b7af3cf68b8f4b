-- ===== src/Fs/Print/Listing.antt =====
-- What is printed of a block of directory entries.
use nbos.Base.{
  ℕ, zero, suc, ◌+◌, ◌<◌, ◌≤◌, ◌≡◌, refl, ◌≢◌, ◌∙◌, ap, arith, ==_ne, List, [], ◌∷◌, ◌++◌, ok,
  fault, some,
}
use nbos.Console.{Line, num, str}
use nbos.Fs.{Fs, Buf, Block}
use nbos.Fs.Buffer.{find_buf, get_buf-ok}
use nbos.Fs.Print.{entry_inode, entry_name, print_dir_entry, print_from, print_dir_entries}

abbrev pub entry_line : Block → ℕ → Line
entry_line b k = record {
  format = "ino: %d, file name: %s\n";
  args = num (entry_inode b k) ∷ str (entry_name b k) ∷ [];
}

-- The lines of the `n` entries from entry `k` on.
abbrev pub entry_lines : Block → (n k : ℕ) → List Line
entry_lines b zero k = []
entry_lines b (suc n) k = entry_line b k ∷ entry_lines b n (k + 1)

append_assoc : (xs : List Line) (y : Line) (ys : List Line) → (xs ++ y ∷ []) ++ ys ≡ xs ++ y ∷ ys
append_assoc [] y ys = refl
append_assoc (x ∷ xs) y ys = ap (λ (zs : List Line). x ∷ zs) (append_assoc xs y ys)

append_nil : (xs : List Line) → xs ++ [] ≡ xs
append_nil [] = refl
append_nil (x ∷ xs) = ap (λ (zs : List Line). x ∷ zs) (append_nil xs)

-- Of `m` entries `n` are not empty, and an empty one stands behind them.
print_from-lines :
    (m n k : ℕ) (b : Block) (out : List Line) (s : Fs)
    → n < m
    → ((j : ℕ) → k ≤ j → j < k + n → entry_inode b j ≢ 0)
    → entry_inode b (k + n) ≡ 0
    → print_from m k b (out, s) ≡ ok (tt, (out ++ entry_lines b n k, s))
unfolding print_from print_dir_entry
print_from-lines zero n k b out s l h z = absurd (omega (arith, l))
print_from-lines (suc m) zero k b out s l h z =
    let here : entry_inode b k ≡ 0 = ap (entry_inode b) (omega arith) ∙ z in
    rw (here, append_nil out) refl
print_from-lines (suc m) (suc n) k b out s l h z =
    rw (==_ne (entry_inode b k) 0 (h k (omega arith) (omega arith))) (
      print_from-lines m n (k + 1) b (out ++ entry_line b k ∷ []) s (omega (arith, l))
        (λ j p q. h j (omega (arith, p)) (omega (arith, q))) (ap (entry_inode b) (omega arith) ∙ z)
      ∙ ap (λ (ls : List Line). ok (tt, (ls, s)))
          (append_assoc out (entry_line b k) (entry_lines b n (k + 1))))

-- All entries of the block are in use.
print_from-past :
    (n k : ℕ) (b : Block) (out : List Line) (s : Fs)
    → ((j : ℕ) → k ≤ j → j < k + n → entry_inode b j ≢ 0)
    → print_from n k b (out, s) ≡ fault
unfolding print_from print_dir_entry
print_from-past zero k b out s h = refl
print_from-past (suc n) k b out s h =
    rw (==_ne (entry_inode b k) 0 (h k (omega arith) (omega arith)))
      (print_from-past n (k + 1) b _ s (λ j p q. h j (omega (arith, p)) (omega (arith, q))))

-- With `n` entries behind the first one that are not empty, `print_dir_entries` prints these, in
-- order, when an empty entry of the block follows them. When the block has no empty entry behind the
-- first, it reads past the end of the block.
pub print_dir_entries-lines :
    (n id : ℕ) (buf : Buf) (out : List Line) (s : Fs)
    → find_buf id s.bufs ≡ some buf
    → ((j : ℕ) → 1 ≤ j → j < 1 + n → entry_inode buf.bytes j ≢ 0)
    → (n < 31
        → entry_inode buf.bytes (1 + n) ≡ 0
        → print_dir_entries id (out, s) ≡ ok (tt, (out ++ entry_lines buf.bytes n 1, s)))
      × (n ≡ 31 → print_dir_entries id (out, s) ≡ fault)
unfolding print_dir_entries
print_dir_entries-lines n id buf out s f h = (
  λ l z. rw (get_buf-ok id s buf f) (print_from-lines 31 n 1 buf.bytes out s l h z),
  λ e.
      rw (get_buf-ok id s buf f)
        (print_from-past 31 1 buf.bytes out s (λ j p q. h j p (omega (arith, q, e)))),
)
