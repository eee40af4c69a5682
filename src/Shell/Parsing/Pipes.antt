-- ===== src/Shell/Parsing/Pipes.antt =====
-- The commands that parse_line of shell/parsing.c makes of a buffer.
use tps_sistemas_operativos.Base.{
  ℕ, zero, suc, ◌<◌, ◌≡◌, refl, ◌≢◌, ◌⊎◌, inl, inr, Bool, true, false, some, List, [], ◌∷◌, ◌++◌,
  length, replicate, arith, ◌==◌, ◌||◌, if◌then◌else◌, eq→==, ne→==, All, ap, ◌∙◌,
}
use tps_sistemas_operativos.Shell.Parsing.{
  Line, Bytes, Run, done, fault, starved, ◌>>=◌, Environ, ShellCmd, split_line, skip_spaces,
  split_here, split_cons, parse_cmd, parse_right, parse_line, pipe_cmd_create,
}

-- The text of one command: no pipe character, and no NUL.
abbrev pub Segment : Line → Type 0
Segment = All (λ c. (c ≢ 124) × (c ≢ 0))

-- A command behind a pipe character starts with something else than a space.
abbrev pub Starts : Line → Type 0
Starts [] = ⊥
Starts (x ∷ t) = x ≢ 32

-- The buffer of commands with a pipe character and `k` spaces between each two, a NUL at the end, and
-- `tail` behind it.
abbrev pub render : ℕ → Line → List Line → Bytes → Bytes
render k s [] tail = s ++ 0 ∷ tail
render k s (t ∷ ts) tail = s ++ 124 ∷ (replicate k 32 ++ render k t ts tail)

-- What the commands make one by one.
pub pipeline : Environ → Bool → Line → List Line → Run ShellCmd
pipeline env first s [] = parse_cmd env first s
pipeline env first s (t ∷ ts) =
    parse_cmd env first s >>= λ l. pipeline env false t ts >>= λ r. done (pipe_cmd_create l r)

split_line-append :
    (s : Line) (z : ℕ) (b right : Bytes)
    → Segment s
    → (z ≡ 124) ⊎ (z ≡ 0)
    → skip_spaces b ≡ some right
    → split_line (s ++ z ∷ b) 124 ≡ some (s, right)
unfolding split_line
split_line-append [] z b right h (inl e) skip = rw (eq→== z 124 e, skip)
split_line-append [] z b right h (inr e) skip = stop_zero (z == 124) (eq→== z 0 e)
  where
    stop_zero :
        (d : Bool)
        → (z == 0) ≡ true
        → (if d || z == 0 then split_here (skip_spaces b) else split_cons z (split_line b 124))
          ≡ some ([], right)
    stop_zero true e' = rw skip
    stop_zero false e' = rw (e', skip)
split_line-append (x ∷ s) z b right h e skip =
    rw (ne→== x 124 (h.0.0), ne→== x 0 (h.0.1), split_line-append s z b right (h.1) e skip)

skip_spaces-replicate :
    (k x : ℕ) (b : Bytes) → x ≢ 32 → skip_spaces (replicate k 32 ++ x ∷ b) ≡ some (x ∷ b)
skip_spaces-replicate zero x b h = rw (ne→== x 32 h)
skip_spaces-replicate (suc k) x b h = skip_spaces-replicate k x b h

-- A command behind a pipe character: its text starts with something else than a space or a NUL.
render-head :
    (k : ℕ) (t : Line) (ts : List Line) (tail : Bytes)
    → Segment t
    → Starts t
    → (x : ℕ) × (b : Bytes) × (render k t ts tail ≡ x ∷ b) × (x ≢ 32) × (x ≢ 0)
render-head k [] ts tail h g = absurd g
render-head k (x ∷ t) [] tail h g = (x, _, refl, g, h.0.1)
render-head k (x ∷ t) (u ∷ us) tail h g = (x, _, refl, g, h.0.1)

parse_right-some :
    (env : Environ) (first : Bool) (rest : Bytes → Run ShellCmd) (left : Line) (x : ℕ) (b : Bytes)
    → x ≢ 0
    → parse_right env first rest (some (left, x ∷ b))
      ≡ (parse_cmd env first left >>= λ l. rest (x ∷ b) >>= λ r. done (pipe_cmd_create l r))
parse_right-some env first rest left x b h = rw (ne→== x 0 h)

parse_right-head :
    (env : Environ) (first : Bool) (rest : Bytes → Run ShellCmd) (left : Line) (right : Bytes)
    (x : ℕ) (b : Bytes)
    → right ≡ x ∷ b
    → x ≢ 0
    → parse_right env first rest (some (left, right))
      ≡ (parse_cmd env first left >>= λ l. rest right >>= λ r. done (pipe_cmd_create l r))
parse_right-head env first rest left right x b e h =
    rw e (parse_right-some env first rest left x b h)

-- On a buffer of commands between pipe characters, with a second NUL behind the one that ends the line,
-- parse_line gives the commands of the texts, each joined by a pipe with those behind it.
pub parse_line-render :
    (env : Environ) (k : ℕ) (rest : Bytes) (first : Bool) (fuel : ℕ) (s : Line) (ts : List Line)
    → Segment s
    → All (λ t. Segment t × Starts t) ts
    → length ts < fuel
    → parse_line env first fuel (render k s ts (0 ∷ rest)) ≡ pipeline env first s ts
unfolding parse_line pipeline
parse_line-render env k rest first zero s ts h hs lt = absurd (omega arith)
parse_line-render env k rest first (suc fuel) s [] h hs lt =
    rw (split_line-append s 0 (0 ∷ rest) (0 ∷ rest) h (inr refl) refl)
      (last (parse_cmd env first s))
  where
    last : (m : Run ShellCmd) → (m >>= λ l. done l) ≡ m
    last (done l) = refl
    last fault = refl
    last starved = refl
parse_line-render env k rest first (suc fuel) s (t ∷ ts) h hs lt =
    let head = render-head k t ts (0 ∷ rest) (hs.0.0) (hs.0.1) in
    let skip : skip_spaces (replicate k 32 ++ render k t ts (0 ∷ rest))
        ≡ some (render k t ts (0 ∷ rest)) =
      rw (head.2) (skip_spaces-replicate k (head.0) (head.1) (head.3)) in
    ap (λ r. parse_right env first (parse_line env false fuel) r)
      (split_line-append s 124 (replicate k 32 ++ render k t ts (0 ∷ rest))
        (render k t ts (0 ∷ rest)) h (inl refl) skip)
    ∙ parse_right-head env first (parse_line env false fuel) s (render k t ts (0 ∷ rest)) (head.0)
        (head.1) (head.2) (head.4)
    ∙ ap (λ m. parse_cmd env first s >>= λ l. m >>= λ r. done (pipe_cmd_create l r))
        (parse_line-render env k rest false fuel t ts (hs.0.0) (hs.1) (omega arith))

-- Where bytes of an older line stand behind the NUL, parse_line takes them for a command behind a pipe
-- character.
parse_line-stale :
    (env : Environ) (first : Bool) (fuel : ℕ) (s : Line) (x : ℕ) (rest : Bytes)
    → Segment s
    → x ≢ 32
    → x ≢ 0
    → parse_line env first (suc fuel) (s ++ 0 ∷ x ∷ rest) ≡ (
        parse_cmd env first s >>= λ l.
        parse_line env false fuel (x ∷ rest) >>= λ r. done (pipe_cmd_create l r))
unfolding parse_line
parse_line-stale env first fuel s x rest h space nul =
    ap (λ r. parse_right env first (parse_line env false fuel) r)
      (split_line-append s 0 (x ∷ rest) (x ∷ rest) h (inr refl) (rw (ne→== x 32 space)))
    ∙ parse_right-some env first (parse_line env false fuel) s x rest nul
