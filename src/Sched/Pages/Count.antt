-- ===== src/Sched/Pages/Count.antt =====
-- How often the page tables refer to a page.
use tps_sistemas_operativos.Base.{
  ℕ, zero, suc, ◌+◌, ◌/◌, ◌<◌, ◌≤◌, ◌≡◌, ◌≢◌, refl, Bool, true, false, inl, inr, Bool-cases, ◌==◌,
  ==→eq, if◌then◌else◌, arith, ap, sym, ◌∙◌, update, update_self, update-ne,
}

-- f 0 + … + f (n - 1)
pub sum : ℕ → (ℕ → ℕ) → ℕ
sum zero f = 0
sum (suc n) f = f n + sum n f

pub sum_same : (n : ℕ) (f g : ℕ → ℕ) → ((j : ℕ) → f j ≡ g j) → sum n f ≡ sum n g
unfolding sum
sum_same zero f g same = refl
sum_same (suc n) f g same = omega (arith, same n, sum_same n f g same)

below_same : (n k : ℕ) (f g : ℕ → ℕ) → n ≤ k → ((j : ℕ) → k ≢ j → f j ≡ g j) → sum n f ≡ sum n g
unfolding sum
below_same zero k f g le same = refl
below_same (suc n) k f g le same =
    let here : f n ≡ g n = same n (λ e. omega (arith, le, e)) in
    omega (arith, here, below_same n k f g (omega (arith, le)) same)

-- Two functions that differ at one place only.
pub sum_change :
    (n k : ℕ) (f g : ℕ → ℕ) → k < n → ((j : ℕ) → k ≢ j → f j ≡ g j) → sum n g + f k ≡ sum n f + g k
unfolding sum
sum_change zero k f g lt same = absurd (omega (arith, lt))
sum_change (suc n) k f g lt same = elim (Bool-cases (n == k)) [
  | inl e ↦
      let is : n ≡ k = ==→eq n k e in
      let rest = below_same n k f g (omega (arith, is)) same in
      rw (← is) (omega (arith, ap f is, ap g is, rest))
  | inr e ↦
      let ne : k ≢ n = (λ (h : k ≡ n). ground (arith)) in
      omega (arith, same n ne, sum_change n k f g (ground arith) same)
]

pub le-sum : (n k : ℕ) (f : ℕ → ℕ) → k < n → f k ≤ sum n f
unfolding sum
le-sum zero k f lt = absurd (omega (arith, lt))
le-sum (suc n) k f lt = elim (Bool-cases (n == k)) [
  | inl e ↦ omega (arith, ap f (==→eq n k e))
  | inr e ↦ let rest = le-sum n k f (ground arith) in omega (arith, rest)
]

-- What a page is used for: by an environment, as its directory, or as the table of that entry of that
-- directory.
pub data Kind : Type 0 where
  plain : Kind
  directory : Kind
  table : ℕ → ℕ → Kind

abbrev pub is_table : Kind → Bool
is_table (table d i) = true
is_table k = false

-- Whether an entry refers to the page.
pub hit : ℕ → ℕ → ℕ
hit v p = if v == 0 then 0 else if v / 4096 == p then 1 else 0

pub row : (ℕ → ℕ → ℕ) → (ℕ → Kind) → ℕ → ℕ → ℕ
row words kind p t = if is_table (kind t) then sum 1024 (λ j. hit (words t j) p) else 0

-- The entries of tables, among the first `n` pages, that refer to the page.
pub refs : ℕ → (ℕ → ℕ → ℕ) → (ℕ → Kind) → ℕ → ℕ
refs n words kind p = sum n (row words kind p)

sum-zeros : (n : ℕ) (f : ℕ → ℕ) → ((j : ℕ) → f j ≡ 0) → sum n f ≡ 0
unfolding sum
sum-zeros zero f none_there = refl
sum-zeros (suc n) f none_there = omega (arith, none_there n, sum-zeros n f none_there)

pub hit-zero : (v p : ℕ) → v ≢ 0 → hit v p ≡ 0 → p ≢ v / 4096
unfolding hit
hit-zero v p nonzero none_there same = ground arith

pub hit_self : (v p : ℕ) → v ≢ 0 → v / 4096 ≡ p → hit v p ≡ 1
unfolding hit
hit_self v p nonzero same = ground arith

pub hit_ne : (v p : ℕ) → v / 4096 ≢ p → hit v p ≡ 0
unfolding hit
hit_ne v p other = ground arith

pub hit-no_entry : (p : ℕ) → hit 0 p ≡ 0
unfolding hit
hit-no_entry p = refl

module _ (words words' : ℕ → ℕ → ℕ) (kind kind' : ℕ → Kind) (p t : ℕ) where
  pub row_same : kind' t ≡ kind t → words' t ≡ words t → row words' kind' p t ≡ row words kind p t
  unfolding row
  row_same k w = rw (k, w) refl

pub row-no_table :
    (words : ℕ → ℕ → ℕ) (kind : ℕ → Kind) (p t : ℕ)
    → is_table (kind t) ≡ false
    → row words kind p t ≡ 0
unfolding row
row-no_table words kind p t no_table = rw no_table refl

pub row_empty :
    (words : ℕ → ℕ → ℕ) (kind : ℕ → Kind) (p t : ℕ)
    → ((j : ℕ) → words t j ≡ 0)
    → row words kind p t ≡ 0
unfolding row
row_empty words kind p t zeros =
    let none_there =
      sum-zeros 1024 (λ j. hit (words t j) p) (λ j. ap (λ w. hit w p) (zeros j) ∙ hit-no_entry p) in
    elim (Bool-cases (is_table (kind t))) [ inl is ↦ rw is none_there | inr is ↦ rw is refl ]

pub refs-no_table :
    (n : ℕ) (words : ℕ → ℕ → ℕ) (kind : ℕ → Kind) (p : ℕ)
    → ((t : ℕ) → is_table (kind t) ≡ false)
    → refs n words kind p ≡ 0
unfolding refs
refs-no_table n words kind p none_there =
    sum-zeros n (row words kind p) (λ t. row-no_table words kind p t (none_there t))

pub refs_zero :
    (n : ℕ) (words : ℕ → ℕ → ℕ) (kind : ℕ → Kind) (p : ℕ)
    → ((t : ℕ) → row words kind p t ≡ 0)
    → refs n words kind p ≡ 0
unfolding refs
refs_zero n words kind p none_there = sum-zeros n (row words kind p) none_there

pub refs_same :
    (n : ℕ) (words words' : ℕ → ℕ → ℕ) (kind kind' : ℕ → Kind) (p : ℕ)
    → ((t : ℕ) → row words' kind' p t ≡ row words kind p t)
    → refs n words' kind' p ≡ refs n words kind p
unfolding refs
refs_same n words words' kind kind' p same = sum_same n (row words' kind' p) (row words kind p) same

module _ (n : ℕ) (words : ℕ → ℕ → ℕ) (kind : ℕ → Kind) where
  -- A page that nothing refers to is in no entry.
  pub hit-le-refs :
      (t j p : ℕ)
      → t < n
      → j < 1024
      → is_table (kind t) ≡ true
      → hit (words t j) p ≤ refs n words kind p
  unfolding refs row
  hit-le-refs t j p lt lt' is =
      let outer = le-sum n t (row words kind p) lt in
      let inner = le-sum 1024 j (λ k. hit (words t k) p) lt' in
      let at : row words kind p t ≡ sum 1024 (λ k. hit (words t k) p) = rw is refl in
      omega (arith, outer, inner, at)

  -- One entry of a table is written.
  pub refs-store :
      (t j v p : ℕ)
      → t < n
      → j < 1024
      → is_table (kind t) ≡ true
      → refs n (update words t (update (words t) j v)) kind p + hit (words t j) p
        ≡ refs n words kind p + hit v p
  unfolding refs row
  refs-store t j v p lt lt' is =
      let words' = update words t (update (words t) j v) in
      let outer = sum_change n t (row words kind p) (row words' kind p) lt (λ k ne.
        ap (λ (r : ℕ → ℕ). if is_table (kind k) then sum 1024 (λ i. hit (r i) p) else 0)
          (sym (update-ne words t _ k ne))) in
      let inner =
        sum_change 1024 j (λ k. hit (words t k) p) (λ k. hit (words' t k) p) lt'
          (λ k ne.
            ap (λ w. hit w p)
              (sym (
                ap (λ (r : ℕ → ℕ). r k) (update_self words t _) ∙ update-ne (words t) j v k ne))) in
      let written : hit (words' t j) p ≡ hit v p =
        ap (λ w. hit w p)
          (ap (λ (r : ℕ → ℕ). r j) (update_self words t _) ∙ update_self (words t) j v) in
      let before : row words kind p t ≡ sum 1024 (λ k. hit (words t k) p) = rw is refl in
      let after : row words' kind p t ≡ sum 1024 (λ k. hit (words' t k) p) = rw is refl in
      omega (arith, outer, inner, written, before, after)
