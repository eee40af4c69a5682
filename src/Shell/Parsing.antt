-- ===== src/Shell/Parsing.antt =====
-- shell/parsing.c, with what it uses of utils.c and createcmd.c: the parser of a command line.
pub mod Ends
pub mod Pipes
pub mod Words
use tps_sistemas_operativos.Base.{
  ℕ, zero, suc, ◌+◌, Bool, true, false, not, ◌&&◌, ◌||◌, Option, none, some, List, [], ◌∷◌, ◌++◌,
  length, get_or, take, drop, ltb, ◌==◌, if◌then◌else◌,
}

-- The characters of a string, without the NUL that ends it.
abbrev pub Line : Type 0
Line = List ℕ

-- The bytes of the line buffer from a pointer on.
abbrev pub Bytes : Type 0
Bytes = List ℕ

abbrev pub space : ℕ
space = 32

abbrev pub maxargs : ℕ
maxargs = 20

abbrev pub argsize : ℕ
argsize = 1024

abbrev pub buflen : ℕ
buflen = 1024

-- A run ends in a value, in an access outside an array or through a stale pointer, or out of fuel.
pub data Run {ℓ} (A : Type ℓ) : Type ℓ where
  done : A → Run A
  fault : Run A
  starved : Run A

infixl 5 ◌>>=◌
abbrev pub ◌>>=◌ {ℓ κ} : {A : Type ℓ} {B : Type κ} → Run A → (A → Run B) → Run B
done a >>= k = k a
fault >>= k = fault
starved >>= k = starved

-- `getenv`, and the decimal digits of the global `status`.
pub record Environ : Type 0 where
  pub getenv : Line → Option Line
  pub status : Line

-- `argc` and `eargc` are the lengths of the two lists.
pub record ExecCmd : Type 0 where
  pub redir : Bool
  pub scmd : Line
  pub argv : List Line
  pub eargv : List Line
  pub out_file : Line
  pub in_file : Line
  pub err_file : Line

pub data ShellCmd : Type 0 where
  null : ShellCmd
  exec : ExecCmd → ShellCmd
  back : ShellCmd → ShellCmd
  pipe : ShellCmd → ShellCmd → ShellCmd

-- The first index of a character; none is -1.
abbrev pub suc_of : Option ℕ → Option ℕ
suc_of none = none
suc_of (some i) = some (suc i)

unfoldable pub block_contains : Line → ℕ → Option ℕ
block_contains [] c = none
block_contains (x ∷ s) c = if x == c then some 0 else suc_of (block_contains s c)

abbrev pub skip_spaces : Bytes → Option Bytes
skip_spaces [] = none
skip_spaces (x ∷ b) = if x == space then skip_spaces b else some (x ∷ b)

abbrev pub split_here : Option Bytes → Option (Line × Bytes)
split_here none = none
split_here (some b) = some ([], b)

abbrev pub split_cons : ℕ → Option (Line × Bytes) → Option (Line × Bytes)
split_cons x none = none
split_cons x (some (l, b)) = some (x ∷ l, b)

-- The string before the splitter or the NUL, and the bytes behind it and the spaces that follow. It runs
-- over the bytes behind the NUL too; none is a read behind the buffer.
unfoldable pub split_line : Bytes → ℕ → Option (Line × Bytes)
split_line [] splitter = none
split_line (x ∷ b) splitter =
    if x == splitter || x == 0
    then split_here (skip_spaces b)
    else split_cons x (split_line b splitter)

-- The characters up to a space or the NUL.
unfoldable pub copy_token : Line → Line
copy_token [] = []
copy_token (x ∷ s) = if x == space then [] else x ∷ copy_token s

-- The token has a block of `ARGSIZE` zeros: `ARGSIZE` characters leave it without a NUL, and more are
-- written behind it.
unfoldable pub get_token : Line → Run Line
get_token s = if ltb (length (copy_token s)) argsize then done (copy_token s) else fault

abbrev pub new_cmd : Line → ExecCmd
new_cmd buf_cmd = record {
  redir = false;
  scmd = buf_cmd;
  argv = [];
  eargv = [];
  out_file = [];
  in_file = [];
  err_file = [];
}

-- The copy to `scmd` with its NUL.
abbrev pub exec_cmd_create : Line → Run ExecCmd
exec_cmd_create buf_cmd = if ltb (length buf_cmd) buflen then done (new_cmd buf_cmd) else fault

abbrev pub out_redir : ExecCmd → Line → ℕ → ExecCmd
out_redir c arg idx =
    if idx == 0
    then record c { out_file = drop 1 arg; redir = true }
    else if idx == 1
    then record c { err_file = drop 2 arg; redir = true }
    else record c { redir = true }

abbrev pub in_redir : ExecCmd → Line → Option ℕ → Option ExecCmd
in_redir c arg none = none
in_redir c arg (some idx) = some (record c { in_file = drop 1 arg; redir = true })

abbrev pub redir_by : ExecCmd → Line → Option ℕ → Option ExecCmd
redir_by c arg none = in_redir c arg (block_contains arg b'<')
redir_by c arg (some idx) = some (out_redir c arg idx)

-- none is false.
unfoldable pub parse_redir_flow : ExecCmd → Line → Option ExecCmd
parse_redir_flow c arg = redir_by c arg (block_contains arg b'>')

abbrev pub positive : Option ℕ → Bool
positive none = false
positive (some i) = ltb 0 i

abbrev pub is_none : Option ℕ → Bool
is_none none = true
is_none (some i) = false

unfoldable pub parse_environ_var : ExecCmd → Line → Run (Option ExecCmd)
parse_environ_var c arg =
    if positive (block_contains arg b'=') && is_none (block_contains arg b'-')
    then (if ltb (length (c.eargv)) maxargs
        then done (some (record c { eargv = c.eargv ++ arg ∷ [] }))
        else fault)
    else done none

-- A value of `ARGSIZE` characters is ended outside the token. A longer one goes to a block that realloc
-- gives, while the caller keeps the pointer to the old block.
abbrev pub expand_value : Option Line → Run Line
expand_value none = done []
expand_value (some value) = if ltb (length value) argsize then done value else fault

abbrev pub is_dollar : Option ℕ → Bool
is_dollar none = false
is_dollar (some i) = i == 0

abbrev pub is_status : Line → Bool
is_status arg = length arg == 2 && get_or arg 1 0 == b'?'

unfoldable pub expand_environ_var : Environ → Line → Run Line
expand_environ_var env arg =
    if is_dollar (block_contains arg b'$')
    then (if is_status arg then done (env.status) else expand_value (env.getenv (drop 1 arg)))
    else done arg

abbrev pub push_arg : ExecCmd → Line → Run ExecCmd
push_arg c [] = done c
push_arg c (x ∷ tok) =
    if ltb (length (c.argv)) maxargs
    then done (record c { argv = c.argv ++ (x ∷ tok) ∷ [] })
    else fault

abbrev pub or_argument : Environ → ExecCmd → Line → Option ExecCmd → Run ExecCmd
or_argument env c tok none = expand_environ_var env tok >>= push_arg c
or_argument env c tok (some c') = done c'

abbrev pub or_environ : Environ → ExecCmd → Line → Option ExecCmd → Run ExecCmd
or_environ env c tok none = parse_environ_var c tok >>= or_argument env c tok
or_environ env c tok (some c') = done c'

-- The body of the loop of parse_exec on a token.
unfoldable pub add_token : Environ → ExecCmd → Line → Run ExecCmd
add_token env c tok = or_environ env c tok (parse_redir_flow c tok)

abbrev pub skip_one : Line → Line
skip_one [] = []
skip_one (x ∷ s) = s

-- `argv[argc] = NULL`.
abbrev pub end_args : ExecCmd → Run ExecCmd
end_args c = if ltb (length (c.argv)) maxargs then done c else fault

unfoldable pub parse_args : Environ → ℕ → Line → ExecCmd → Run ExecCmd
parse_args env fuel [] c = end_args c
parse_args env zero (x ∷ s) c = starved
parse_args env (suc fuel) (x ∷ s) c = get_token (x ∷ s) >>= λ tok.
    add_token env c tok >>= parse_args env fuel (skip_one (drop (length tok) (x ∷ s)))

unfoldable pub parse_exec : Environ → Line → Run ExecCmd
parse_exec env buf_cmd = exec_cmd_create buf_cmd >>= parse_args env (length buf_cmd) buf_cmd

abbrev pub exec_of : Run ExecCmd → Run ShellCmd
exec_of r = r >>= λ c. done (exec c)

abbrev pub back_of : Run ShellCmd → Run ShellCmd
back_of r = r >>= λ c. done (back c)

-- `buf_cmd[idx - 1]` before the first character of the whole buffer is outside it. In a later command it
-- is the NUL or a space that split_line left there.
abbrev pub parse_back : Environ → Bool → Line → Option ℕ → Run ShellCmd
parse_back env first buf_cmd none = exec_of (parse_exec env buf_cmd)
parse_back env first buf_cmd (some zero) =
    if first then fault else back_of (exec_of (parse_exec env []))
parse_back env first buf_cmd (some (suc i)) =
    if get_or buf_cmd i 0 == b'>'
    then exec_of (parse_exec env buf_cmd)
    else back_of (exec_of (parse_exec env (take (suc i) buf_cmd)))

unfoldable pub parse_cmd : Environ → Bool → Line → Run ShellCmd
parse_cmd env first [] = done null
parse_cmd env first (x ∷ buf_cmd) =
    parse_back env first (x ∷ buf_cmd) (block_contains (x ∷ buf_cmd) b'&')

abbrev pub pipe_cmd_create : ShellCmd → ShellCmd → ShellCmd
pipe_cmd_create left null = left
pipe_cmd_create left (exec c) = pipe left (exec c)
pipe_cmd_create left (back c) = pipe left (back c)
pipe_cmd_create left (pipe c d) = pipe left (pipe c d)

-- The part behind split_line, which gave the string and the bytes on the right.
abbrev pub parse_right :
    Environ → Bool → (Bytes → Run ShellCmd) → Option (Line × Bytes) → Run ShellCmd
parse_right env first rest none = fault
parse_right env first rest (some (left, right)) = parse_cmd env first left >>= λ l.
    if get_or right 0 0 == 0 then done l else (rest right >>= λ r. done (pipe_cmd_create l r))

-- parse_line on a buffer; `first` says that the pointer is the start of it.
unfoldable pub parse_line : Environ → Bool → ℕ → Bytes → Run ShellCmd
parse_line env first zero buf = starved
parse_line env first (suc fuel) buf =
    parse_right env first (parse_line env false fuel) (split_line buf b'|')
