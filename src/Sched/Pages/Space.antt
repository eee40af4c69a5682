-- ===== src/Sched/Pages/Space.antt =====
-- What an address of an environment is mapped to, and that an entry that is written and a new table leave the
-- other addresses, and those of the other environments, as they are.
use tps_sistemas_operativos.Base.{
  ℕ, ◌*◌, ◌/◌, ◌<◌, ◌≡◌, ◌≢◌, refl, false, inl, inr, Bool-cases, ◌==◌, ==→eq, eq→==, if◌then◌else◌,
  arith, ap, sym, ◌∙◌, update, update_self, update-ne, List, or32,
}
use tps_sistemas_operativos.Sched.Pages.{Memory, store, utop, pdx, ptx, pgnum}
use tps_sistemas_operativos.Sched.Pages.Count.{Kind, plain, directory, table}
use tps_sistemas_operativos.Sched.Pages.Sound.{Has, Sound}
use tps_sistemas_operativos.Sched.Pages.NewTable.{tabled, word_new, word_ne, row_dir, page_of_value}

-- The entry for the address, and 0 where there is no table for it.
unfoldable pub mapping : Memory → ℕ → ℕ → ℕ
mapping m d va =
    if m.words d (pdx va) == 0 then 0 else m.words (pgnum (m.words d (pdx va))) (ptx va)

-- An address in another page, or of another directory.
abbrev pub Elsewhere : ℕ → ℕ → ℕ → ℕ → Type 0
Elsewhere d va d' va' = d ≡ d' → va / 4096 ≡ va' / 4096 → ⊥

-- Every environment's addresses below UTOP but one page of one are mapped as before.
abbrev pub KeepsOthers : Memory → Memory → (ℕ → Kind) → ℕ → ℕ → Type 0
KeepsOthers m m' kind d va =
    (d' va' : ℕ)
    → kind d' ≡ directory
    → va' < utop
    → Elsewhere d va d' va'
    → mapping m' d' va' ≡ mapping m d' va'

pub pdx-lt : (va : ℕ) → va < utop → pdx va < 955
pdx-lt va lt = omega (arith, lt)

same_page :
    (va va' : ℕ)
    → va < utop
    → va' < utop
    → pdx va ≡ pdx va'
    → ptx va ≡ ptx va'
    → va / 4096 ≡ va' / 4096
same_page va va' lt lt' high low = omega (arith, lt, lt', high, low)

pub no_table : (m : Memory) (d va : ℕ) → m.words d (pdx va) ≡ 0 → mapping m d va ≡ 0
unfolding mapping
no_table m d va zero_entry = rw (eq→== _ 0 zero_entry) refl

pub in_table :
    (m : Memory) (d va : ℕ)
    → m.words d (pdx va) ≢ 0
    → mapping m d va ≡ m.words (pgnum (m.words d (pdx va))) (ptx va)
unfolding mapping
in_table m d va nonzero =
    let some_table : (m.words d (pdx va) == 0) ≡ false = ground arith in rw some_table refl

-- Two memories with the same entry of the directory and the same entry of its table.
pub mapping_same :
    (m m' : Memory) (d va : ℕ)
    → m'.words d (pdx va) ≡ m.words d (pdx va)
    → (m.words d (pdx va) ≢ 0
        → m'.words (pgnum (m.words d (pdx va))) (ptx va)
          ≡ m.words (pgnum (m.words d (pdx va))) (ptx va))
    → mapping m' d va ≡ mapping m d va
unfolding mapping
mapping_same m m' d va up low = elim (Bool-cases (m.words d (pdx va) == 0)) [
  | inl e ↦ rw (up, e) refl
  | inr e ↦ rw (up, e) (low (λ z. ground arith))
]

pub mapping-words :
    (m m' : Memory) (d va : ℕ) → m'.words ≡ m.words → mapping m' d va ≡ mapping m d va
unfolding mapping
mapping-words m m' d va same =
    ap (λ (w : ℕ → ℕ → ℕ). if w d (pdx va) == 0 then 0 else w (pgnum (w d (pdx va))) (ptx va)) same

module _ {m : Memory} {held : ℕ → ℕ} {kind : ℕ → Kind} {free : List ℕ} (ok : Sound m held kind free)
    (d va : ℕ) (is_dir : kind d ≡ directory) (user : va < utop) where
  module _ (t v : ℕ) (use_ : kind t ≡ table d (pdx va)) where
    abbrev written : ℕ → ℕ → ℕ
    written = (store t (ptx va) v m).words

    dir_kept : (d' : ℕ) → kind d' ≡ directory → written d' ≡ m.words d'
    dir_kept d' k = update-ne (m.words) t _ d' (λ e. cc (ap kind e, use_, k))

    -- The address itself.
    pub mapping-store :
        m.words d (pdx va) ≢ 0
        → t ≡ pgnum (m.words d (pdx va))
        → mapping (store t (ptx va) v m) d va ≡ v
    mapping-store nonzero is =
        let up : written d (pdx va) ≡ m.words d (pdx va) =
          ap (λ (r : ℕ → ℕ). r (pdx va)) (dir_kept d is_dir) in
        in_table (store t (ptx va) v m) d va (λ z. nonzero (sym up ∙ z))
        ∙ ap (λ w. written (pgnum w) (ptx va)) up
        ∙ ap (λ x. written x (ptx va)) (sym is)
        ∙ ap (λ (r : ℕ → ℕ). r (ptx va)) (update_self (m.words) t _)
        ∙ update_self (m.words t) (ptx va) v

    low_kept :
        (d' va' : ℕ)
        → kind d' ≡ directory
        → va' < utop
        → Elsewhere d va d' va'
        → m.words d' (pdx va') ≢ 0
        → written (pgnum (m.words d' (pdx va'))) (ptx va')
          ≡ m.words (pgnum (m.words d' (pdx va'))) (ptx va')
    low_kept d' va' k user' other nonzero =
        let t' = pgnum (m.words d' (pdx va')) in
        let use_' : kind t' ≡ table d' (pdx va') =
          (ok.tables d' (pdx va') k (pdx-lt va' user') nonzero).1 in
        elim (Bool-cases (t == t')) [
          | inl e ↦
              let same : t ≡ t' = ==→eq t t' e in
              let tables_same : table d (pdx va) ≡ table d' (pdx va') =
                sym use_ ∙ ap kind same ∙ use_' in
              let ne : ptx va ≢ ptx va' = (λ (h : ptx va ≡ ptx va').
                other (cc (tables_same)) (same_page va va' user user' (cc (tables_same)) h)) in
              ap (λ x. written x (ptx va')) (sym same)
              ∙ ap (λ (r : ℕ → ℕ). r (ptx va')) (update_self (m.words) t _)
              ∙ update-ne (m.words t) (ptx va) v (ptx va') ne
              ∙ ap (λ x. m.words x (ptx va')) same
          | inr e ↦
              let ne : t ≢ t' = (λ (h : t ≡ t'). ground arith) in
              ap (λ (r : ℕ → ℕ). r (ptx va')) (update-ne (m.words) t _ t' ne)
        ]

    pub store-KeepsOthers : KeepsOthers m (store t (ptx va) v m) kind d va
    store-KeepsOthers d' va' k user' other =
        mapping_same m (store t (ptx va) v m) d' va'
          (ap (λ (r : ℕ → ℕ). r (pdx va')) (dir_kept d' k)) (low_kept d' va' k user' other)

  -- A new table maps nothing, and no other address is touched.
  module _ (p : ℕ) (inside : p < m.npages) (unused : kind p ≡ plain)
      (none_left : (m.pages p).pp_ref ≡ 0) (out : Has p free → ⊥)
      (empty : m.words d (pdx va) ≡ 0) where
    abbrev words_tabled : ℕ → ℕ → ℕ
    words_tabled = (tabled m d (pdx va) p).words

    tabled_ne :
        (d' va' : ℕ)
        → kind d' ≡ directory
        → va' < utop
        → words_tabled d' (pdx va') ≡ m.words d' (pdx va')
        → mapping (tabled m d (pdx va) p) d' va' ≡ mapping m d' va'
    tabled_ne d' va' k user' up = mapping_same m (tabled m d (pdx va) p) d' va' up (λ nonzero.
        let t' = pgnum (m.words d' (pdx va')) in
        let use_' : kind t' ≡ table d' (pdx va') =
          (ok.tables d' (pdx va') k (pdx-lt va' user') nonzero).1 in
        ap (λ (r : ℕ → ℕ). r (ptx va'))
          (word_ne ok d (pdx va) p is_dir inside out unused none_left t'
            (λ e. cc (ap kind e, is_dir, use_')) (λ e. cc (ap kind e, unused, use_'))))

    tabled_here : (va' : ℕ) → pdx va ≡ pdx va' → mapping (tabled m d (pdx va) p) d va' ≡ 0
    tabled_here va' same = elim (Bool-cases (words_tabled d (pdx va') == 0)) [
      | inl e ↦ no_table (tabled m d (pdx va) p) d va' (==→eq _ 0 e)
      | inr e ↦
          let at : words_tabled d (pdx va') ≡ or32 (p * 4096) 7 =
            ap (λ (r : ℕ → ℕ). r (pdx va'))
              (row_dir ok d (pdx va) p is_dir inside out unused none_left)
            ∙ ap (λ x. update (m.words d) (pdx va) (or32 (p * 4096) 7) x) (sym same)
            ∙ update_self (m.words d) (pdx va) (or32 (p * 4096) 7) in
          in_table (tabled m d (pdx va) p) d va' (λ z. ground arith)
          ∙ ap (λ w. words_tabled (pgnum w) (ptx va')) at
          ∙ ap (λ x. words_tabled x (ptx va'))
              (page_of_value ok d (pdx va) p is_dir inside out unused none_left)
          ∙ word_new ok d (pdx va) p is_dir inside out unused none_left (ptx va')
    ]

    pub mapping-tabled :
        (d' va' : ℕ)
        → kind d' ≡ directory
        → va' < utop
        → mapping (tabled m d (pdx va) p) d' va' ≡ mapping m d' va'
    mapping-tabled d' va' k user' = elim (Bool-cases (d == d')) [
      | inl e ↦
          let same : d ≡ d' = ==→eq d d' e in
          rw (← same) (elim (Bool-cases (pdx va == pdx va')) [
            | inl f ↦
                let same' : pdx va ≡ pdx va' = ==→eq _ _ f in
                tabled_here va' same' ∙ sym (no_table m d va' (ap (m.words d) (sym same') ∙ empty))
            | inr f ↦
                let ne : pdx va ≢ pdx va' = (λ (h : pdx va ≡ pdx va'). ground arith) in
                tabled_ne d va' is_dir user' (
                  ap (λ (r : ℕ → ℕ). r (pdx va'))
                    (row_dir ok d (pdx va) p is_dir inside out unused none_left)
                  ∙ update-ne (m.words d) (pdx va) _ (pdx va') ne)
          ])
      | inr e ↦
          let ne : d ≢ d' = (λ (h : d ≡ d'). ground arith) in
          tabled_ne d' va' k user' (
            ap (λ (r : ℕ → ℕ). r (pdx va'))
              (word_ne ok d (pdx va) p is_dir inside out unused none_left d' ne
                (λ h. cc (ap kind h, unused, k))))
    ]
