-- ===== src/Task/Dump.antt =====
-- kernel/task.c: the words of the page of a task.
use nbos.Base.{ℕ, zero, suc, ◌+◌, ◌/◌, [], ◌∷◌, M, pure, ◌>>=◌, ◌>>◌}
use nbos.Console.{num, Printed, printf, quiet}
use nbos.Page.{Pages, load}
use nbos.Task.{stack_sz}

-- A round of the loop prints four words, the last one with the end of the line.
unfoldable pub dump_from : (n tmp : ℕ) → M (Printed Pages) (Unit {0})
dump_from zero tmp = pure tt
dump_from (suc n) tmp = do
  a ← quiet (load tmp)
  printf "%#p: %#x\t" (num tmp ∷ num a ∷ [])
  b ← quiet (load (tmp + 8))
  printf "%#p: %#x\t" (num (tmp + 8) ∷ num b ∷ [])
  c ← quiet (load (tmp + 16))
  printf "%#p: %#x\t" (num (tmp + 16) ∷ num c ∷ [])
  d ← quiet (load (tmp + 24))
  printf "%#p: %#x\t\n" (num (tmp + 24) ∷ num d ∷ [])
  dump_from n (tmp + 32)

unfoldable pub dump_stack : (p : ℕ) → M (Printed Pages) (Unit {0})
unfolding dump_from
dump_stack p = dump_from (stack_sz / 32) p
