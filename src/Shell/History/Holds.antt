-- ===== src/Shell/History/Holds.antt =====
-- The lines that the array of shell/history.c holds, and how loading a file keeps them.
use tps_sistemas_operativos.Base.{
  ℕ, zero, suc, ◌+◌, ◌-◌, ◌*◌, ◌<◌, ◌≤◌, ◌≡◌, refl, sym, ap, ◌∙◌, inl, inr, true, false, none, some,
  List, [], ◌∷◌, ◌++◌, length, set, get_or, replicate, leb, ltb, arith, lt→ltb, ltb→lt, ltb→le,
  Bool-cases, append_assoc, le→ltb, get_or-set_self, get_or-set_ne, length-set, length-append,
}
use tps_sistemas_operativos.Shell.History.{
  Line, Slot, unset, null, line, History, write, text, grown, load_room, loaded, load_lines, fresh,
  closed, load_history,
}

-- Below `last_line_pos` stand the lines `ls` in their order, and no string stands from there on.
pub record Holds (h : History) (ls : List Line) : Type 0 where
  pub sized : length (h.history_arr) ≡ h.alloc_size
  pub inside : h.last_line_pos < h.alloc_size
  pub counted : length ls ≡ h.last_line_pos
  pub kept : (i : ℕ) → i < length ls → get_or (h.history_arr) i unset ≡ line (get_or ls i [])
  pub beyond : (i : ℕ) → h.last_line_pos ≤ i → text (get_or (h.history_arr) i unset) ≡ none

pub write-some : (s : List Slot) (i : ℕ) (v : Slot) → i < length s → write s i v ≡ some (set s i v)
write-some s i v h = rw (lt→ltb i (length s) h)

pub write-none : (s : List Slot) (i : ℕ) (v : Slot) → length s ≤ i → write s i v ≡ none
write-none s i v h = rw (le→ltb i (length s) h)

module _ {ℓ} {A : Type ℓ} where
  get_or-append_left :
      (xs ys : List A) (i : ℕ) (d : A) → i < length xs → get_or (xs ++ ys) i d ≡ get_or xs i d
  get_or-append_left [] ys i d h = absurd (omega arith)
  get_or-append_left (x ∷ xs) ys zero d h = refl
  get_or-append_left (x ∷ xs) ys (suc i) d h = get_or-append_left xs ys i d (omega arith)

  get_or-append_last : (xs : List A) (y d : A) → get_or (xs ++ y ∷ []) (length xs) d ≡ y
  get_or-append_last [] y d = refl
  get_or-append_last (x ∷ xs) y d = get_or-append_last xs y d

  get_or-replicate : (n i : ℕ) (d : A) → get_or (replicate n d) i d ≡ d
  get_or-replicate zero i d = refl
  get_or-replicate (suc n) zero d = refl
  get_or-replicate (suc n) (suc i) d = get_or-replicate n i d

  get_or-append_replicate :
      (xs : List A) (n i : ℕ) (d : A) → get_or (xs ++ replicate n d) i d ≡ get_or xs i d
  get_or-append_replicate [] n i d = get_or-replicate n i d
  get_or-append_replicate (x ∷ xs) n zero d = refl
  get_or-append_replicate (x ∷ xs) n (suc i) d = get_or-append_replicate xs n i d

  length-replicate : (n : ℕ) (d : A) → length (replicate n d) ≡ n
  length-replicate zero d = refl
  length-replicate (suc n) d = ap suc (length-replicate n d)

append_nil : (xs : List Line) → xs ++ [] ≡ xs
append_nil [] = refl
append_nil (x ∷ xs) = ap (λ t. x ∷ t) (append_nil xs)

grown-Holds : (h : History) (ls : List Line) → Holds h ls → Holds (grown h) ls
grown-Holds h ls k = record {
  sized = omega (
    arith,
    length-append (h.history_arr) (replicate (h.alloc_size * 2 - h.alloc_size) unset),
    length-replicate (h.alloc_size * 2 - h.alloc_size) unset,
    k.sized,
  );
  inside = omega (arith, k.inside);
  counted = k.counted;
  kept = λ i lt. get_or-append_replicate (h.history_arr) _ i unset ∙ k.kept i lt;
  beyond = λ i le. ap text (get_or-append_replicate (h.history_arr) _ i unset) ∙ k.beyond i le;
}

leb→le : (a b : ℕ) → leb a b ≡ true → a ≤ b
leb→le a b h = ground arith

leb→lt : (a b : ℕ) → leb a b ≡ false → b < a
leb→lt a b h = ground arith

-- There is a place for one more line and the NULL behind it.
load_room-Holds :
    (h : History) (ls : List Line)
    → Holds h ls
    → suc (h.last_line_pos) < 1073741824
    → (g : History) × (load_room h ≡ some g) × Holds g ls × (suc (g.last_line_pos) < g.alloc_size)
load_room-Holds h ls k few = elim (Bool-cases (leb (h.alloc_size - 1) (h.last_line_pos))) [
  | inl full ↦
      let low = leb→le (h.alloc_size - 1) (h.last_line_pos) full in
      (
        grown h,
        rw (full, lt→ltb (h.alloc_size * 2) 2147483648 (omega (arith, low, few))) refl,
        grown-Holds h ls k,
        omega (arith, k.inside, low),
      )
  | inr space ↦
      (h, rw space refl, k, omega (arith, leb→lt (h.alloc_size - 1) (h.last_line_pos) space))
]

pub loaded-Holds :
    (h : History) (ls : List Line) (l : Line)
    → Holds h ls
    → suc (h.last_line_pos) < h.alloc_size
    → Holds (loaded h (set (h.history_arr) (h.last_line_pos) (line l))) (ls ++ l ∷ [])
loaded-Holds h ls l k lt = record {
  sized = length-set (h.history_arr) (h.last_line_pos) (line l) ∙ k.sized;
  inside = lt;
  counted = omega (arith, length-append ls (l ∷ []), k.counted);
  kept = λ i below. elim (Bool-cases (ltb i (length ls))) [
    | inl old ↦
        get_or-set_ne (h.history_arr) (h.last_line_pos) i (line l) unset
          (λ e. absurd (omega (arith, k.counted, ltb→lt i (length ls) old, e)))
        ∙ k.kept i (ltb→lt i (length ls) old)
        ∙ ap line (sym (get_or-append_left ls (l ∷ []) i [] (ltb→lt i (length ls) old)))
    | inr new ↦
        let e : i ≡ length ls =
          omega (arith, length-append ls (l ∷ []), ltb→le i (length ls) new) in
        ap (λ j. get_or (set (h.history_arr) (h.last_line_pos) (line l)) j unset) (e ∙ k.counted)
        ∙ get_or-set_self (h.history_arr) (h.last_line_pos) (line l) unset
            (omega (arith, k.sized, k.inside))
        ∙ ap line (sym (ap (λ j. get_or (ls ++ l ∷ []) j []) e ∙ get_or-append_last ls l []))
  ];
  beyond = λ i le.
      ap text (get_or-set_ne (h.history_arr) (h.last_line_pos) i (line l) unset (omega arith))
      ∙ k.beyond i (omega arith);
}

pub closed-Holds :
    (h : History) (ls : List Line)
    → Holds h ls
    → Holds (closed h (set (h.history_arr) (h.last_line_pos) null)) ls
closed-Holds h ls k = record {
  sized = length-set (h.history_arr) (h.last_line_pos) null ∙ k.sized;
  inside = k.inside;
  counted = k.counted;
  kept = λ i below.
      get_or-set_ne (h.history_arr) (h.last_line_pos) i null unset
        (λ e. absurd (omega (arith, k.counted, below, e)))
      ∙ k.kept i below;
  beyond = λ i le. elim (Bool-cases (ltb (h.last_line_pos) i)) [
    | inl past ↦
        ap text (
          get_or-set_ne (h.history_arr) (h.last_line_pos) i null unset
            (λ e. absurd (omega (arith, ltb→lt (h.last_line_pos) i past, e))))
        ∙ k.beyond i le
    | inr here ↦
        let e : i ≡ h.last_line_pos = omega (arith, le, ltb→le (h.last_line_pos) i here) in
        ap (λ j. text (get_or (set (h.history_arr) (h.last_line_pos) null) j unset)) e
        ∙ ap text (
            get_or-set_self (h.history_arr) (h.last_line_pos) null unset
              (omega (arith, k.sized, k.inside)))
  ];
}

fresh-Holds : Holds fresh []
fresh-Holds = record {
  sized = refl;
  inside = omega arith;
  counted = refl;
  kept = λ i lt. absurd (omega arith);
  beyond = λ i le. ap text (get_or-replicate 51 i unset);
}

load_lines-Holds :
    (ls : List Line) (h : History) (before : List Line)
    → Holds h before
    → length before + length ls < 1073741824
    → (g : History) × (load_lines ls h ≡ some g) × Holds g (before ++ ls)
load_lines-Holds [] h before k few = (h, refl, rw (append_nil before) k)
load_lines-Holds (l ∷ ls) h before k few =
    let (g, makes_room, kept, space) = load_room-Holds h before k (omega (arith, few, k.counted)) in
    let next = loaded-Holds g before l kept space in
    let rest =
      load_lines-Holds ls _ (before ++ l ∷ []) next
        (omega (arith, few, length-append before (l ∷ []))) in
    (
      rest.0,
      rw
          (
            makes_room,
            write-some (g.history_arr) (g.last_line_pos) (line l)
                (omega (arith, kept.sized, kept.inside)),
          )
          (rest.1),
      rw append_assoc at (rest.2),
    )

-- For a file of fewer than 2^30 lines loading succeeds within the array, and no `int` overflows: its lines
-- stand in it in their order, no string stands behind them, and the position to print is behind the last
-- of them.
pub load_history-Holds :
    (ls : List Line)
    → length ls < 1073741824
    → (g : History) × (load_history (some ls) ≡ some g)
      × Holds g ls
      × (g.history_print_pos ≡ length ls)
unfolding load_history
load_history-Holds ls few =
    let r = load_lines-Holds ls fresh [] fresh-Holds (omega (arith, few)) in
    let h : History = r.0 in
    let k : Holds h ls = r.2 in
    (
      closed h (set (h.history_arr) (h.last_line_pos) null),
      rw (r.1, write-some (h.history_arr) (h.last_line_pos) null (omega (arith, k.sized, k.inside)))
          refl,
      closed-Holds h ls k,
      sym (k.counted),
    )
