-- ===== src/Shell/History/Recall.antt =====
-- What shell/history.c shows after a command is saved.
use tps_sistemas_operativos.Base.{
  ℕ, suc, ◌-◌, ◌<◌, ◌≤◌, ◌≡◌, refl, ap, none, some, List, [], ◌∷◌, ◌++◌, length, set, get_or, arith,
  lt→ltb, lt→leb, ne→==, get_or-set_self, get_or-set_ne, length-set, length-append,
}
use tps_sistemas_operativos.Shell.History.Holds.{
  Holds, write-some, write-none, loaded-Holds, closed-Holds,
}
use tps_sistemas_operativos.Shell.History.{
  loaded, Line, newline, buflen, unset, null, line, History, text, init, chop, at,
  get_previous_command, get_next_command, saved, save_command_in_memory,
}

-- The state after a command is saved: it, and NULL behind it, at the end of the array.
abbrev after_save : Line → History → History
after_save cmd h = saved h (
    set (set (h.history_arr) (h.last_line_pos) (line (cmd ++ newline ∷ []))) (suc (h.last_line_pos))
      null)

init-append : (l : Line) (x : ℕ) → init (l ++ x ∷ []) ≡ l
init-append [] x = refl
init-append (y ∷ []) x = refl
init-append (y ∷ z ∷ l) x = ap (λ t. y ∷ t) (init-append (z ∷ l) x)

suc-minus : (n : ℕ) → suc n - 1 ≡ n
suc-minus n = omega arith

chop-append : (l : Line) (x : ℕ) → suc (length l) < buflen → chop (l ++ x ∷ []) ≡ some l
chop-append [] x h = refl
chop-append (y ∷ l) x h = rw (
  lt→ltb (suc (length (l ++ x ∷ []))) buflen (omega (arith, length-append l (x ∷ []), h)),
  init-append (y ∷ l) x,
)

module _ (h : History) (cmd : Line) (sized : length (h.history_arr) ≡ h.alloc_size) where
  save_command_in_memory-some :
      suc (h.last_line_pos) < h.alloc_size → save_command_in_memory cmd h ≡ some (after_save cmd h)
  unfolding save_command_in_memory
  save_command_in_memory-some lt = rw (
    lt→leb (h.alloc_size) (h.last_line_pos) (omega arith),
    write-some (h.history_arr) (h.last_line_pos) (line (cmd ++ newline ∷ [])) (omega arith),
    write-some (set (h.history_arr) (h.last_line_pos) (line (cmd ++ newline ∷ [])))
        (suc (h.last_line_pos)) null
        (omega (arith, length-set (h.history_arr) (h.last_line_pos) (line (cmd ++ newline ∷ [])))),
  )

module _ (h : History) (cmd : Line) (sized : length (h.history_arr) ≡ h.alloc_size) where
  save_command_in_memory-none :
      suc (h.last_line_pos) ≡ h.alloc_size → save_command_in_memory cmd h ≡ none
  unfolding save_command_in_memory
  save_command_in_memory-none e = rw (
    lt→leb (h.alloc_size) (h.last_line_pos) (omega arith),
    write-some (h.history_arr) (h.last_line_pos) (line (cmd ++ newline ∷ [])) (omega arith),
    write-none (set (h.history_arr) (h.last_line_pos) (line (cmd ++ newline ∷ [])))
        (suc (h.last_line_pos)) null
        (omega (arith, length-set (h.history_arr) (h.last_line_pos) (line (cmd ++ newline ∷ [])))),
  )

  previous-after_save :
      suc (h.last_line_pos) < h.alloc_size
      → suc (length cmd) < buflen
      → get_previous_command (after_save cmd h)
        ≡ some (cmd, at (after_save cmd h) (h.last_line_pos))
  unfolding get_previous_command
  previous-after_save lt short = rw (
    ne→== (suc (h.last_line_pos)) 0 (omega arith),
    suc-minus (h.last_line_pos),
    get_or-set_ne (set (h.history_arr) (h.last_line_pos) (line (cmd ++ newline ∷ [])))
        (suc (h.last_line_pos)) (h.last_line_pos) null unset (omega arith),
    get_or-set_self (h.history_arr) (h.last_line_pos) (line (cmd ++ newline ∷ [])) unset
        (omega arith),
    chop-append cmd newline short,
  )

  module _
      (unused : (i : ℕ) → h.last_line_pos ≤ i → text (get_or (h.history_arr) i unset) ≡ none) where
    beyond-after_save :
        (i : ℕ)
        → suc (suc (h.last_line_pos)) ≤ i
        → text (get_or ((after_save cmd h).history_arr) i unset) ≡ none
    beyond-after_save i le = rw (
      get_or-set_ne (set (h.history_arr) (h.last_line_pos) (line (cmd ++ newline ∷ [])))
          (suc (h.last_line_pos)) i null unset (omega arith),
      get_or-set_ne (h.history_arr) (h.last_line_pos) i (line (cmd ++ newline ∷ [])) unset
          (omega arith),
      unused i (omega arith),
    )

    next-after_save : get_next_command (after_save cmd h) ≡ none
    unfolding get_next_command
    next-after_save = rw (
      ne→== (suc (suc (h.last_line_pos))) (suc (h.last_line_pos)) (omega arith),
      ne→== (suc (h.last_line_pos)) 0 (omega arith),
      beyond-after_save (suc (suc (h.last_line_pos))) (omega arith),
    )

after_save-Holds :
    (h : History) (ls : List Line) (cmd : Line)
    → Holds h ls
    → suc (h.last_line_pos) < h.alloc_size
    → Holds (after_save cmd h) (ls ++ (cmd ++ newline ∷ []) ∷ [])
after_save-Holds h ls cmd k lt =
    let new = set (h.history_arr) (h.last_line_pos) (line (cmd ++ newline ∷ [])) in
    let next = loaded-Holds h ls (cmd ++ newline ∷ []) k lt in
    let shut = closed-Holds (loaded h new) (ls ++ (cmd ++ newline ∷ []) ∷ []) next in
    record {
      sized = shut.sized;
      inside = shut.inside;
      counted = shut.counted;
      kept = shut.kept;
      beyond = shut.beyond;
    }

-- Saving a command that fits the buffer together with a newline, while the array has room for it and for
-- the NULL behind it, succeeds: the array then holds the lines from before and the command with a newline,
-- in this order, and the arrow up shows the command itself.
pub save_command-previous :
    (h : History) (ls : List Line) (cmd : Line)
    → Holds h ls
    → suc (h.last_line_pos) < h.alloc_size
    → suc (length cmd) < buflen
    → (g : History) × (save_command_in_memory cmd h ≡ some g)
      × Holds g (ls ++ (cmd ++ newline ∷ []) ∷ [])
      × (get_previous_command g ≡ some (cmd, at g (h.last_line_pos)))
save_command-previous h ls cmd k lt short = (
  after_save cmd h,
  save_command_in_memory-some h cmd (k.sized) lt,
  after_save-Holds h ls cmd k lt,
  previous-after_save h cmd (k.sized) lt short,
)

-- Saving a command when the array has one place left and the lines fill the others fails: the string
-- takes the last place, and the NULL is written behind the array.
save_command-overflow :
    (h : History) (ls : List Line) (cmd : Line)
    → Holds h ls
    → suc (length ls) ≡ h.alloc_size
    → save_command_in_memory cmd h ≡ none
save_command-overflow h ls cmd k e =
    save_command_in_memory-none h cmd (k.sized) (omega (arith, k.counted, e))

-- Right after a command is saved in an array with room for it, the arrow down fails: it moves two
-- places behind the newest line, where no string stands.
pub save_command-next :
    (h : History) (ls : List Line) (cmd : Line)
    → Holds h ls
    → suc (h.last_line_pos) < h.alloc_size
    → (g : History) × (save_command_in_memory cmd h ≡ some g) × (get_next_command g ≡ none)
save_command-next h ls cmd k lt = (
  after_save cmd h,
  save_command_in_memory-some h cmd (k.sized) lt,
  next-after_save h cmd (k.sized) (k.beyond),
)
