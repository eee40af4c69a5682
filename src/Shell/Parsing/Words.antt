-- ===== src/Shell/Parsing/Words.antt =====
-- The arguments that parse_exec of shell/parsing.c takes from a command of plain words.
use tps_sistemas_operativos.Base.{
  ℕ, zero, suc, ◌+◌, ◌<◌, ◌≤◌, ◌≡◌, refl, ◌≢◌, none, List, [], ◌∷◌, ◌++◌, length, arith, ne→==,
  lt→ltb, All, ap, ◌∙◌, length-append, append_assoc, drop,
}
use tps_sistemas_operativos.Shell.Parsing.{
  Line, done, Environ, ExecCmd, block_contains, copy_token, get_token, parse_redir_flow,
  parse_environ_var, expand_environ_var, add_token, parse_args, parse_exec, end_args, buflen,
  new_cmd,
}

-- A word that the parser takes as it is: not empty, and without a space and the characters that redirect,
-- set or expand.
abbrev pub Plain : Line → Type 0
Plain = All (λ c. (c ≢ 32) × (c ≢ 62) × (c ≢ 60) × (c ≢ 61) × (c ≢ 36))

-- The words with one space between each two.
abbrev pub spaced : Line → List Line → Line
spaced w [] = w
spaced w (v ∷ vs) = w ++ 32 ∷ spaced v vs

module _ (c : ℕ) where
  block_contains-none : (w : Line) → All (λ x. x ≢ c) w → block_contains w c ≡ none
  unfolding block_contains
  block_contains-none [] h = refl
  block_contains-none (x ∷ w) h = rw (ne→== x c (h.0), block_contains-none w (h.1))

All-map {ℓ κ κ'} :
    {A : Type ℓ} {P : A → Type κ} {Q : A → Type κ'} (f : (a : A) → P a → Q a) (xs : List A)
    → All P xs
    → All Q xs
All-map f [] h = tt
All-map f (x ∷ xs) h = (f x (h.0), All-map f xs (h.1))

copy_token-spaced : (w rest : Line) → Plain w → copy_token (w ++ 32 ∷ rest) ≡ w
unfolding copy_token
copy_token-spaced [] rest h = refl
copy_token-spaced (x ∷ w) rest h = rw (ne→== x 32 (h.0.0), copy_token-spaced w rest (h.1))

copy_token-all : (w : Line) → Plain w → copy_token w ≡ w
unfolding copy_token
copy_token-all [] h = refl
copy_token-all (x ∷ w) h = rw (ne→== x 32 (h.0.0), copy_token-all w (h.1))

get_token-copy_token : (s w : Line) → copy_token s ≡ w → length w < 1024 → get_token s ≡ done w
unfolding get_token
get_token-copy_token s w is fits = rw (is, lt→ltb (length w) 1024 fits)

drop-length : (w rest : Line) → drop (length w) (w ++ rest) ≡ rest
drop-length [] rest = refl
drop-length (x ∷ w) rest = drop-length w rest

drop-all : (w : Line) → drop (length w) w ≡ []
drop-all [] = refl
drop-all (x ∷ w) = drop-all w

abbrev pushed : ExecCmd → Line → ExecCmd
pushed c w = record c { argv = c.argv ++ w ∷ [] }

add_token-Plain :
    (env : Environ) (c : ExecCmd) (x : ℕ) (w : Line)
    → Plain (x ∷ w)
    → length (c.argv) < 20
    → add_token env c (x ∷ w) ≡ done (pushed c (x ∷ w))
unfolding add_token parse_redir_flow parse_environ_var expand_environ_var
add_token-Plain env c x w h room = rw (
  block_contains-none 62 (x ∷ w) (All-map (λ _ p. p.1) (x ∷ w) h),
  block_contains-none 60 (x ∷ w) (All-map (λ _ p. p.2) (x ∷ w) h),
  block_contains-none 61 (x ∷ w) (All-map (λ _ p. p.3) (x ∷ w) h),
  block_contains-none 36 (x ∷ w) (All-map (λ _ p. p.4) (x ∷ w) h),
  lt→ltb (length (c.argv)) 20 room,
)

-- The words stand behind the arguments that are there.
abbrev with_args : ExecCmd → List Line → ExecCmd
with_args c ws = record c { argv = c.argv ++ ws }

abbrev pub Word : Line → Type 0
Word w = Plain w × (0 < length w)

parse_args-nil : (env : Environ) (fuel : ℕ) (c : ExecCmd) → parse_args env fuel [] c ≡ end_args c
unfolding parse_args
parse_args-nil env zero c = refl
parse_args-nil env (suc fuel) c = refl

parse_args-spaced :
    (env : Environ) (fuel : ℕ) (w : Line) (ws : List Line) (c : ExecCmd)
    → Word w
    → All Word ws
    → length (c.argv) + suc (length ws) < 20
    → length (spaced w ws) ≤ fuel
    → length (spaced w ws) < 1024
    → parse_args env fuel (spaced w ws) c ≡ done (with_args c (w ∷ ws))
unfolding parse_args
parse_args-spaced env fuel [] ws c h hs few le fits = absurd (omega (arith, h.1))
parse_args-spaced env zero (x ∷ w) [] c h hs few le fits = absurd (omega arith)
parse_args-spaced env zero (x ∷ w) (v ∷ vs) c h hs few le fits = absurd (omega arith)
parse_args-spaced env (suc fuel) (x ∷ w) [] c h hs few le fits = rw (
  get_token-copy_token (x ∷ w) (x ∷ w) (copy_token-all (x ∷ w) (h.0)) fits,
  add_token-Plain env c x w (h.0) (omega arith),
  drop-all w,
  parse_args-nil env fuel (pushed c (x ∷ w)),
  lt→ltb (length (c.argv ++ (x ∷ w) ∷ [])) 20
      (omega (arith, length-append (c.argv) ((x ∷ w) ∷ []))),
)
parse_args-spaced env (suc fuel) (x ∷ w) (v ∷ vs) c h hs few le fits =
    rw
      (
        get_token-copy_token (x ∷ w ++ 32 ∷ spaced v vs) (x ∷ w)
            (copy_token-spaced (x ∷ w) (spaced v vs) (h.0))
            (omega (arith, fits, length-append w (32 ∷ spaced v vs))),
        add_token-Plain env c x w (h.0) (omega arith),
        drop-length w (32 ∷ spaced v vs),
      )
      (parse_args-spaced env fuel v vs (pushed c (x ∷ w)) (hs.0) (hs.1)
          (omega (arith, length-append (c.argv) ((x ∷ w) ∷ [])))
          (omega (arith, length-append w (32 ∷ spaced v vs)))
          (omega (arith, fits, length-append w (32 ∷ spaced v vs)))
        ∙ ap (λ v. done (record c { argv = v })) (append_assoc (c.argv) ((x ∷ w) ∷ []) (v ∷ vs)))

-- A command of one to nineteen plain words with one space between each two, of fewer than BUFLEN
-- characters together, becomes the command with just these words as its arguments.
pub parse_exec-spaced :
    (env : Environ) (w : Line) (ws : List Line)
    → Word w
    → All Word ws
    → length ws < 19
    → length (spaced w ws) < buflen
    → parse_exec env (spaced w ws) ≡ done (record (new_cmd (spaced w ws)) { argv = w ∷ ws })
unfolding parse_exec
parse_exec-spaced env w ws h hs few fits = rw (lt→ltb (length (spaced w ws)) 1024 fits) (
    parse_args-spaced env (length (spaced w ws)) w ws (new_cmd (spaced w ws)) h hs (omega arith)
      (omega arith) fits)
