-- ===== src/Shell/Tests.antt =====
-- Histories at concrete lines, and the theorems at them.
use tps_sistemas_operativos.Base.{
  ℕ, zero, suc, ◌<◌, ◌≤◌, ◌≡◌, refl, true, none, some, List, [], ◌∷◌, ◌++◌, arith, get_or,
}
use tps_sistemas_operativos.Shell.Parsing.{done, Environ, parse_exec, parse_line, new_cmd}
use tps_sistemas_operativos.Shell.Parsing.Ends.{Ends, parse_line-Ends}
use tps_sistemas_operativos.Shell.Parsing.Pipes.{render, pipeline, parse_line-render}
use tps_sistemas_operativos.Shell.Parsing.Words.{parse_exec-spaced}
use tps_sistemas_operativos.Shell.History.{
  Line, newline, Slot, unset, null, line, History, load_history, save_command_in_memory,
  get_previous_command, at, text,
}
use tps_sistemas_operativos.Shell.History.Holds.{Holds, load_history-Holds}
use tps_sistemas_operativos.Shell.History.Recall.{save_command-previous}

abbrev ls_line : Line
ls_line = 108 ∷ 115 ∷ newline ∷ []

abbrev pwd : Line
pwd = 112 ∷ 119 ∷ 100 ∷ []

-- A history of one line, with `n` places behind its NULL.
abbrev one_line : List Slot → ℕ → History
one_line spare n = record {
  history_arr = line ls_line ∷ null ∷ spare;
  alloc_size = n;
  last_line_pos = 1;
  history_print_pos = 1;
}

abbrev spare_slots : List Slot
spare_slots = unset ∷ unset ∷ []

first-kept :
    (spare : List Slot) (i : ℕ)
    → i < 1
    → get_or (line ls_line ∷ null ∷ spare) i unset ≡ line (get_or (ls_line ∷ []) i [])
first-kept spare zero lt = refl
first-kept spare (suc i) lt = absurd (omega arith)

spare-beyond : (i : ℕ) → 1 ≤ i → text (get_or (line ls_line ∷ null ∷ spare_slots) i unset) ≡ none
spare-beyond zero le = absurd (omega arith)
spare-beyond (suc zero) le = refl
spare-beyond (suc (suc zero)) le = refl
spare-beyond (suc (suc (suc zero))) le = refl
spare-beyond (suc (suc (suc (suc i)))) le = refl

spare-Holds : Holds (one_line spare_slots 4) (ls_line ∷ [])
spare-Holds = record {
  sized = refl;
  inside = omega arith;
  counted = refl;
  kept = first-kept spare_slots;
  beyond = spare-beyond;
}

load_history-Holds_example :
    (g : History) × (load_history (some (ls_line ∷ pwd ∷ [])) ≡ some g)
    × Holds g (ls_line ∷ pwd ∷ [])
    × (g.history_print_pos ≡ 2)
load_history-Holds_example = load_history-Holds (ls_line ∷ pwd ∷ []) (omega arith)

save_command-previous_example :
    (g : History) × (save_command_in_memory pwd (one_line spare_slots 4) ≡ some g)
    × Holds g (ls_line ∷ (pwd ++ newline ∷ []) ∷ [])
    × (get_previous_command g ≡ some (pwd, at g 1))
save_command-previous_example =
    save_command-previous (one_line spare_slots 4) (ls_line ∷ []) pwd spare-Holds (omega arith)
      (omega arith)

abbrev env : Environ
env = record { getenv = λ _. none; status = b'0' ∷ [] }

-- "ls", "-l" and "wc".
abbrev ls : Line
ls = 108 ∷ 115 ∷ []

abbrev dash_l : Line
dash_l = 45 ∷ 108 ∷ []

abbrev wc : Line
wc = 119 ∷ 99 ∷ []

parse_exec-spaced_example :
    parse_exec env (ls ++ 32 ∷ dash_l)
    ≡ done (record (new_cmd (ls ++ 32 ∷ dash_l)) { argv = ls ∷ dash_l ∷ [] })
parse_exec-spaced_example =
    parse_exec-spaced env ls (dash_l ∷ []) (omega arith) (omega arith) (omega arith) (omega arith)

parse_line-Ends_example : Ends (parse_line env true 5 (ls ++ 124 ∷ 0 ∷ []))
parse_line-Ends_example = parse_line-Ends env true 5 (ls ++ 124 ∷ 0 ∷ []) (omega arith)

parse_line-render_example :
    parse_line env true 2 (render 1 ls (wc ∷ []) (0 ∷ 0 ∷ [])) ≡ pipeline env true ls (wc ∷ [])
parse_line-render_example =
    parse_line-render env 1 (0 ∷ []) true 2 ls (wc ∷ []) (omega arith) (omega arith) (omega arith)
