-- ===== src/Shell/History.antt =====
-- shell/history.c: the commands that the shell remembers, without the file that keeps them.
pub mod Holds
pub mod Recall
use tps_sistemas_operativos.Base.{
  ℕ, zero, suc, ◌+◌, ◌-◌, ◌*◌, ◌<◌, ◌≤◌, ◌≡◌, refl, sym, ap, ◌∙◌, Bool, true, false, Option, none,
  some, List, [], ◌∷◌, ◌++◌, length, set, get_or, replicate, ltb, leb, ◌==◌, if◌then◌else◌, arith,
  lt→ltb, le→ltb, lt→leb, ne→==, le→leb, eq→==, get_or-set_self, get_or-set_ne, length-set,
  length-append,
}

-- The characters of a string, without the NUL that ends it.
abbrev pub Line : Type 0
Line = List ℕ

abbrev pub newline : ℕ
newline = 10

abbrev pub buflen : ℕ
buflen = 1024

abbrev pub initial_history_lines : ℕ
initial_history_lines = 50

abbrev pub history_growing_factor : ℕ
history_growing_factor = 2

-- The first number that an `int` does not hold.
abbrev pub int_limit : ℕ
int_limit = 2147483648

-- A `char *` of the array: never written, NULL, or a string.
pub data Slot : Type 0 where
  unset : Slot
  null : Slot
  line : Line → Slot

pub record History : Type 0 where
  pub history_arr : List Slot
  pub alloc_size : ℕ
  pub last_line_pos : ℕ
  pub history_print_pos : ℕ

-- An access outside the array, or to the string of a pointer that was not set, has no result, nor has an
-- `int` that overflows.
infixl 20 ◌>>=◌
abbrev pub ◌>>=◌ {ℓ} : {A B : Type ℓ} → Option A → (A → Option B) → Option B
none >>= f = none
some a >>= f = f a

abbrev pub write : List Slot → ℕ → Slot → Option (List Slot)
write s i v = if ltb i (length s) then some (set s i v) else none

abbrev pub text : Slot → Option Line
text unset = none
text null = none
text (line l) = some l

abbrev pub init : Line → Line
init [] = []
init (x ∷ []) = []
init (x ∷ y ∷ l) = x ∷ init (y ∷ l)

-- The copy through `command`: its last character becomes the end of the string.
abbrev pub chop : Line → Option Line
chop [] = none
chop (x ∷ l) = if ltb (length (x ∷ l)) buflen then some (init (x ∷ l)) else none

abbrev pub show : History → Option Line
show h = text (get_or (h.history_arr) (h.history_print_pos) unset) >>= chop

abbrev pub at : History → ℕ → History
at h i = record {
  history_arr = h.history_arr;
  alloc_size = h.alloc_size;
  last_line_pos = h.last_line_pos;
  history_print_pos = i;
}

abbrev pub with_buf : History → Option Line → Option (Line × History)
with_buf h none = none
with_buf h (some l) = some (l, h)

unfoldable pub get_previous_command : History → Option (Line × History)
get_previous_command h =
    if h.history_print_pos == 0
    then (if h.last_line_pos == 0 then some ([], at h 0) else with_buf (at h 0) (show (at h 0)))
    else with_buf (at h (h.history_print_pos - 1)) (show (at h (h.history_print_pos - 1)))

-- `last_line_pos - 1` is -1 for an empty history, which no position equals.
abbrev pub is_newest : History → Bool
is_newest h = suc (h.history_print_pos) == h.last_line_pos

unfoldable pub get_next_command : History → Option (Line × History)
get_next_command h =
    if is_newest h
    then some ([], h)
    else if h.last_line_pos == 0
    then some ([], h)
    else with_buf (at h (suc (h.history_print_pos))) (show (at h (suc (h.history_print_pos))))

abbrev pub grown : History → History
grown h = record {
  history_arr =
      h.history_arr ++ replicate (h.alloc_size * history_growing_factor - h.alloc_size) unset;
  alloc_size = h.alloc_size * history_growing_factor;
  last_line_pos = h.last_line_pos;
  history_print_pos = h.history_print_pos;
}

-- `alloc_size` is an `int`: the product must be one too.
abbrev pub grow : History → Option History
grow h = if ltb (h.alloc_size * history_growing_factor) int_limit then some (grown h) else none

abbrev pub room : History → Option History
room h = if leb (h.alloc_size) (h.last_line_pos) then grow h else some h

abbrev pub saved : History → List Slot → History
saved h s = record {
  history_arr = s;
  alloc_size = h.alloc_size;
  last_line_pos = suc (h.last_line_pos);
  history_print_pos = suc (h.last_line_pos);
}

abbrev pub append : History → Line → Option History
append h cmd = write (h.history_arr) (h.last_line_pos) (line (cmd ++ newline ∷ [])) >>= λ s.
    write s (suc (h.last_line_pos)) null >>= λ t. some (saved h t)

unfoldable pub save_command_in_memory : Line → History → Option History
save_command_in_memory cmd h = room h >>= λ g. append g cmd

abbrev pub load_room : History → Option History
load_room h = if leb (h.alloc_size - 1) (h.last_line_pos) then grow h else some h

abbrev pub loaded : History → List Slot → History
loaded h s = record {
  history_arr = s;
  alloc_size = h.alloc_size;
  last_line_pos = suc (h.last_line_pos);
  history_print_pos = h.history_print_pos;
}

abbrev pub load_line : Line → History → Option History
load_line l h =
    load_room h >>= λ g. write (g.history_arr) (g.last_line_pos) (line l) >>= λ s. some (loaded g s)

abbrev pub load_lines : List Line → History → Option History
load_lines [] h = some h
load_lines (l ∷ ls) h = load_line l h >>= λ g. load_lines ls g

abbrev pub fresh : History
fresh = record {
  history_arr = replicate (suc initial_history_lines) unset;
  alloc_size = suc initial_history_lines;
  last_line_pos = 0;
  history_print_pos = 0;
}

abbrev pub closed : History → List Slot → History
closed h s = record {
  history_arr = s;
  alloc_size = h.alloc_size;
  last_line_pos = h.last_line_pos;
  history_print_pos = h.last_line_pos;
}

-- The argument is what `fgets` reads, one string a round, or none where the file does not open.
unfoldable pub load_history : Option (List Line) → Option History
load_history none = some fresh
load_history (some ls) = load_lines ls fresh >>= λ h.
    write (h.history_arr) (h.last_line_pos) null >>= λ s. some (closed h s)
