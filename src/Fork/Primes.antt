-- ===== src/Fork/Primes.antt =====
-- fork/primes.c: a chain of processes, each of which keeps from its right neighbour the multiples of the first
-- number that it gets. A pipe is the numbers written to it, in their order, and ends when it is closed. What
-- the processes print is listed in the order in which it is written out.
pub mod Sieve
use tps_sistemas_operativos.Base.{
  ℕ, zero, suc, ◌+◌, ◌-◌, ◌%◌, Bool, not, Option, none, some, List, [], ◌∷◌, ◌++◌, ◌==◌, ltb,
  if◌then◌else◌, length,
}

-- The loop of the parent that feeds the pipe, `rounds` numbers from `buf` on.
unfoldable pub feed : ℕ → ℕ → List ℕ
feed zero buf = []
feed (suc rounds) buf = buf ∷ feed rounds (buf + 1)

-- What a process writes of what it reads.
unfoldable pub filter_pipe : ℕ → List ℕ → List ℕ
filter_pipe n [] = []
filter_pipe n (buf ∷ rest) = if buf % n == 0 then filter_pipe n rest else buf ∷ filter_pipe n rest

-- Standard output: a terminal takes each line when it is printed. Anything else gets what is printed when the
-- process exits; the buffer of stdio has room for it.
pub data Stdout : Type 0 where
  terminal : Stdout
  redirected : Stdout

-- What a printf writes out, and what it leaves in the buffer.
unfoldable pub print_line : Stdout → List ℕ → ℕ → List ℕ × List ℕ
print_line terminal buffered n = (buffered ++ n ∷ [], [])
print_line redirected buffered n = ([], buffered ++ n ∷ [])

-- What a process and those behind it write out.
abbrev pub flushed : List ℕ → List ℕ → Option (List ℕ) → Option (List ℕ)
flushed out buffered none = none
flushed out buffered (some later) = some (out ++ later ++ buffered)

-- A process in the loop with the buffer that it has from its parent, its pipe, and the processes that it
-- forks. It waits for its child, and then exits. `none` is the end of the fuel.
unfoldable pub child : Stdout → ℕ → List ℕ → List ℕ → Option (List ℕ)
child stdout zero buffered pipe = none
child stdout (suc fuel) buffered [] = some buffered
child stdout (suc fuel) buffered (n ∷ pipe) =
    let (out, kept) = print_line stdout buffered n in
    flushed out kept (child stdout fuel kept (filter_pipe n pipe))

-- How the program ends: by _exit for a wrong call, or with what is printed, in this order.
pub data Run : Type 0 where
  wrong_format : Run
  invalid_number : Run
  printed : Option (List ℕ) → Run

-- `n` is what atoi gives for the argument, at least 0.
unfoldable pub main : Stdout → ℕ → ℕ → Run
unfolding feed filter_pipe print_line child
main stdout argc n =
    if not (argc == 2)
    then wrong_format
    else if ltb n 2
    then invalid_number
    else printed (child stdout n [] (feed (n - 1) 2))
