-- ===== src/Console.antt =====
-- What the kernel prints: the calls of `printf` (lib/printf.c), by their formats and arguments, in
-- order. `putc` and `_putchar` of lib/lib.c, which `printf` ends in, store to the serial port.
use Prim.Native.String.{String}
use Prim.Native.Char.{code}
use nbos.Base.{ℕ, zero, suc, ◌^◌, ◌%◌, List, [], ◌∷◌, ◌++◌, M, ok, and_then}
use nbos.Str.{Reader}

-- An argument: a number, also for a pointer, or a string.
pub data Arg : Type 0 where
  num : ℕ → Arg
  str : Reader → Arg

pub record Line : Type 0 where
  pub format : String
  pub args : List Arg

-- What was printed, beside the state of the code that prints.
abbrev pub Printed : Type 0 → Type 0
Printed S = List Line × S

abbrev pub printf : {S : Type 0} → String → List Arg → M (Printed S) (Unit {0})
printf format args (out, s) = ok (tt, (out ++ record { format = format; args = args } ∷ [], s))

-- Code that does not print.
abbrev pub quiet : {S A : Type 0} → M S A → M (Printed S) A
quiet m (out, s) = and_then (m s) λ (a, t). ok (a, (out, t))

-- The bytes of a text, behind which there are zeros.
abbrev pub text : String → Reader
text String.[] i = 0
text (String.◌∷◌ c s) zero = code c
text (String.◌∷◌ c s) (suc i) = text s i

-- `putc` and `_putchar`, `UART_DATA = c`: the bytes that the serial port was sent, in order.
abbrev pub putc : ℕ → List ℕ → List ℕ
putc c port = port ++ (c % 2 ^ 8) ∷ []

-- `log`
unfoldable pub log : List ℕ → List ℕ
log port = putc b'\n' (putc b'#' (putc b'#' (putc b'#' (putc b'#' (putc b'#' port)))))
