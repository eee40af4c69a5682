-- ===== src/Shell/Parsing/Ends.antt =====
-- The parser of shell/parsing.c ends: fuel as long as its input is enough.
use tps_sistemas_operativos.Base.{
  ℕ, zero, suc, ◌<◌, ◌≤◌, Bool, true, false, Option, none, some, [], ◌∷◌, length, drop, arith, ltb,
  Bool-cases, inl, inr, if◌then◌else◌, ◌==◌, get_or, ◌||◌, take,
}
use tps_sistemas_operativos.Shell.Parsing.{
  Line, Bytes, Run, done, fault, ◌>>=◌, Environ, ExecCmd, ShellCmd, split_line, skip_spaces,
  split_here, split_cons, get_token, add_token, or_environ, or_argument, parse_redir_flow,
  parse_environ_var, expand_environ_var, expand_value, push_arg, skip_one, parse_args, parse_exec,
  parse_cmd, parse_back, parse_right, parse_line, exec_cmd_create, block_contains,
}

-- The run does not stop for want of fuel.
pub data Ends {ℓ} {A : Type ℓ} : Run A → Type ℓ where
  valued : (a : A) → Ends (done a)
  faulted : Ends fault

Ends-bind {ℓ} :
    {A : Type ℓ} {B : Type ℓ} (m : Run A) (k : A → Run B)
    → Ends m
    → ((a : A) → Ends (k a))
    → Ends (m >>= k)
Ends-bind m k (valued a) f = f a
Ends-bind m k faulted f = faulted

Ends-if {ℓ} : {A : Type ℓ} (b : Bool) (m n : Run A) → Ends m → Ends n → Ends (if b then m else n)
Ends-if true m n h g = h
Ends-if false m n h g = g

push_arg-Ends : (c : ExecCmd) (tok : Line) → Ends (push_arg c tok)
push_arg-Ends c [] = valued _
push_arg-Ends c (x ∷ tok) = Ends-if (ltb (length (c.argv)) 20) _ _ (valued _) faulted

expand_value-Ends : (v : Option Line) → Ends (expand_value v)
expand_value-Ends none = valued _
expand_value-Ends (some v) = Ends-if (ltb (length v) 1024) _ _ (valued _) faulted

expand_environ_var-Ends : (env : Environ) (arg : Line) → Ends (expand_environ_var env arg)
unfolding expand_environ_var
expand_environ_var-Ends env arg =
    Ends-if _ _ _ (Ends-if _ _ _ (valued _) (expand_value-Ends (env.getenv (drop 1 arg))))
      (valued _)

parse_environ_var-Ends : (c : ExecCmd) (arg : Line) → Ends (parse_environ_var c arg)
unfolding parse_environ_var
parse_environ_var-Ends c arg = Ends-if _ _ _ (Ends-if _ _ _ (valued _) faulted) (valued _)

or_argument-Ends :
    (env : Environ) (c : ExecCmd) (tok : Line) (r : Option ExecCmd) → Ends (or_argument env c tok r)
or_argument-Ends env c tok none =
    Ends-bind (expand_environ_var env tok) (push_arg c) (expand_environ_var-Ends env tok)
      (push_arg-Ends c)
or_argument-Ends env c tok (some c') = valued _

or_environ-Ends :
    (env : Environ) (c : ExecCmd) (tok : Line) (r : Option ExecCmd) → Ends (or_environ env c tok r)
or_environ-Ends env c tok none =
    Ends-bind (parse_environ_var c tok) (or_argument env c tok) (parse_environ_var-Ends c tok)
      (or_argument-Ends env c tok)
or_environ-Ends env c tok (some c') = valued _

add_token-Ends : (env : Environ) (c : ExecCmd) (tok : Line) → Ends (add_token env c tok)
unfolding add_token
add_token-Ends env c tok = or_environ-Ends env c tok (parse_redir_flow c tok)

-- What is left behind a token and one space.
length-drop : (n : ℕ) (s : Line) → length (drop n s) ≤ length s
length-drop zero s = omega arith
length-drop (suc n) [] = omega arith
length-drop (suc n) (x ∷ s) = omega (arith, length-drop n s)

length-skip_one : (s : Line) → length (skip_one s) ≤ length s
length-skip_one [] = omega arith
length-skip_one (x ∷ s) = omega arith

length-left : (x : ℕ) (s : Line) (n : ℕ) → length (skip_one (drop n (x ∷ s))) ≤ length s
length-left x s zero = omega arith
length-left x s (suc n) = omega (arith, length-skip_one (drop n s), length-drop n s)

get_token-Ends : (s : Line) → Ends (get_token s)
unfolding get_token
get_token-Ends s = Ends-if _ _ _ (valued _) faulted

parse_args-Ends :
    (env : Environ) (fuel : ℕ) (s : Line) (c : ExecCmd)
    → length s ≤ fuel
    → Ends (parse_args env fuel s c)
unfolding parse_args
parse_args-Ends env zero [] c h = Ends-if _ _ _ (valued _) faulted
parse_args-Ends env (suc fuel) [] c h = Ends-if _ _ _ (valued _) faulted
parse_args-Ends env zero (x ∷ s) c h = absurd (omega arith)
parse_args-Ends env (suc fuel) (x ∷ s) c h =
    Ends-bind (get_token (x ∷ s)) _ (get_token-Ends (x ∷ s)) (λ tok.
      Ends-bind (add_token env c tok) _ (add_token-Ends env c tok)
        (λ c'. parse_args-Ends env fuel _ c' (omega (arith, h, length-left x s (length tok)))))

parse_exec-Ends : (env : Environ) (s : Line) → Ends (parse_exec env s)
unfolding parse_exec
parse_exec-Ends env s =
    Ends-bind (exec_cmd_create s) _ (Ends-if (ltb (length s) 1024) _ _ (valued _) faulted)
      (λ c. parse_args-Ends env (length s) s c (omega arith))

parse_back-Ends :
    (env : Environ) (first : Bool) (s : Line) (r : Option ℕ) → Ends (parse_back env first s r)
parse_back-Ends env first s none =
    Ends-bind (parse_exec env s) _ (parse_exec-Ends env s) (λ _. valued _)
parse_back-Ends env first s (some zero) = Ends-if first _ _ faulted (
    Ends-bind (parse_exec env [] >>= λ c. done (ShellCmd.exec c)) _
      (Ends-bind (parse_exec env []) _ (parse_exec-Ends env []) (λ _. valued _)) (λ _. valued _))
parse_back-Ends env first s (some (suc i)) =
    Ends-if _ _ _ (Ends-bind (parse_exec env s) _ (parse_exec-Ends env s) (λ _. valued _)) (
      Ends-bind (parse_exec env (take (suc i) s) >>= λ c. done (ShellCmd.exec c)) _
        (Ends-bind (parse_exec env (take (suc i) s)) _ (parse_exec-Ends env (take (suc i) s))
          (λ _. valued _))
        (λ _. valued _))

pub parse_cmd-Ends : (env : Environ) (first : Bool) (s : Line) → Ends (parse_cmd env first s)
unfolding parse_cmd
parse_cmd-Ends env first [] = valued _
parse_cmd-Ends env first (x ∷ s) = parse_back-Ends env first (x ∷ s) (block_contains (x ∷ s) b'&')

-- What split_line leaves on the right is shorter than its buffer.
abbrev RightBelow : ℕ → Option (Line × Bytes) → Type 0
RightBelow n none = Unit
RightBelow n (some (left, right)) = length right < n

abbrev AtMost : ℕ → Option Bytes → Type 0
AtMost n none = Unit
AtMost n (some b) = length b ≤ n

AtMost-suc : (n : ℕ) (r : Option Bytes) → AtMost n r → AtMost (suc n) r
AtMost-suc n none h = tt
AtMost-suc n (some b) h = omega arith

skip_spaces-AtMost : (b : Bytes) → AtMost (length b) (skip_spaces b)
skip_spaces-AtMost [] = tt
skip_spaces-AtMost (x ∷ b) = elim (Bool-cases (x == 32)) [
  | inl blank ↦ rw blank (AtMost-suc (length b) (skip_spaces b) (skip_spaces-AtMost b))
  | inr other ↦ rw other (omega arith)
]

RightBelow-here : (n : ℕ) (r : Option Bytes) → AtMost n r → RightBelow (suc n) (split_here r)
RightBelow-here n none h = tt
RightBelow-here n (some b) h = omega arith

RightBelow-cons :
    (n x : ℕ) (r : Option (Line × Bytes)) → RightBelow n r → RightBelow (suc n) (split_cons x r)
RightBelow-cons n x none h = tt
RightBelow-cons n x (some (left, right)) h = omega arith

split_line-RightBelow : (b : Bytes) (c : ℕ) → RightBelow (length b) (split_line b c)
unfolding split_line
split_line-RightBelow [] c = tt
split_line-RightBelow (x ∷ b) c = elim (Bool-cases (x == c || x == 0)) [
  | inl stop ↦ rw stop (RightBelow-here (length b) (skip_spaces b) (skip_spaces-AtMost b))
  | inr go ↦ rw go (RightBelow-cons (length b) x (split_line b c) (split_line-RightBelow b c))
]

parse_right-Ends :
    (env : Environ) (first : Bool) (n : ℕ) (rest : Bytes → Run ShellCmd)
    → ((b : Bytes) → length b < n → Ends (rest b))
    → (r : Option (Line × Bytes)) → RightBelow n r
    → Ends (parse_right env first rest r)
parse_right-Ends env first n rest f none h = faulted
parse_right-Ends env first n rest f (some (left, right)) h =
    Ends-bind (parse_cmd env first left) _ (parse_cmd-Ends env first left) (λ l.
      Ends-if (get_or right 0 0 == 0) _ _ (valued _)
        (Ends-bind (rest right) _ (f right h) (λ _. valued _)))

-- With more fuel than the buffer has bytes, parse_line ends, for every content of the buffer and every
-- environment: in a command, or in an access outside an array.
pub parse_line-Ends :
    (env : Environ) (first : Bool) (fuel : ℕ) (buf : Bytes)
    → length buf < fuel
    → Ends (parse_line env first fuel buf)
unfolding parse_line
parse_line-Ends env first zero buf h = absurd (omega arith)
parse_line-Ends env first (suc fuel) buf h =
    parse_right-Ends env first (length buf) (parse_line env false fuel)
      (λ b lt. parse_line-Ends env false fuel b (omega arith)) (split_line buf b'|')
      (split_line-RightBelow buf b'|')
