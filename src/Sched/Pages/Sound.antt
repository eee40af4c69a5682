-- ===== src/Sched/Pages/Sound.antt =====
-- When the free list, the tables and the reference counts of pmap.c fit together; and that a new count and
-- a freed page keep it so.
use tps_sistemas_operativos.Base.{
  ℕ, ◌+◌, ◌/◌, ◌<◌, ◌≤◌, ◌≡◌, ◌≢◌, ◌⊎◌, refl, inl, inr, Bool-cases, ◌==◌, ==→eq, arith, ap, sym,
  ◌∙◌, update, update_self, update-ne, update-elim, Option, none, some, List, [], ◌∷◌,
}
use tps_sistemas_operativos.Sched.Pages.{PageInfo, Memory, put_page, set_ref}
use tps_sistemas_operativos.Sched.Pages.Count.{Kind, plain, directory, table, refs}

abbrev pub Has : ℕ → List ℕ → Type 0
Has p [] = ⊥
Has p (x ∷ xs) = (p ≡ x) ⊎ Has p xs

abbrev pub Once : List ℕ → Type 0
Once [] = Unit {0}
Once (x ∷ xs) = (Has x xs → ⊥) × Once xs

-- The links lead from the head through these pages, in this order, to NULL.
abbrev pub Chain : (ℕ → PageInfo) → Option ℕ → List ℕ → Type 0
Chain pages head [] = head ≡ none
Chain pages head (p ∷ ps) = (head ≡ some p) × Chain pages ((pages p).pp_link) ps

-- An entry that refers to a page of that use.
abbrev pub Refers : Memory → (ℕ → Kind) → ℕ → Kind → Type 0
Refers m kind v use_ = (v / 4096 < m.npages) × (kind (v / 4096) ≡ use_)

-- `free` lists the free pages, `kind` says what each page is used for, and `held` counts the references
-- to a page that do not come from tables. Below UTOP, each entry of a directory leads to a table that
-- no other entry leads to, and each entry of a table to a page that is neither table nor directory.
pub record Sound (m : Memory) (held : ℕ → ℕ) (kind : ℕ → Kind) (free : List ℕ) : Type 0 where
  pub memory : m.npages ≤ 1048576
  pub chain : Chain (m.pages) (m.page_free_list) free
  pub once : Once free
  pub free_ok : (p : ℕ) → Has p free → (p < m.npages) × (kind p ≡ plain) × ((m.pages p).pp_ref ≡ 0)
  pub unlinked : (p : ℕ) → (Has p free → ⊥) → (m.pages p).pp_link ≡ none
  pub small : (p : ℕ) → (m.pages p).pp_ref < 65536
  pub placed : (t d i : ℕ) → kind t ≡ table d i → t < m.npages
  pub tables :
      (d i : ℕ)
      → kind d ≡ directory
      → i < 955
      → m.words d i ≢ 0
      → Refers m kind (m.words d i) (table d i)
  pub mapped :
      (t d i j : ℕ)
      → kind t ≡ table d i
      → j < 1024
      → m.words t j ≢ 0
      → Refers m kind (m.words t j) plain
  pub counted :
      (p : ℕ) → kind p ≡ plain → (m.pages p).pp_ref ≡ held p + refs (m.npages) (m.words) kind p

pub Has_ne : (p q : ℕ) (free : List ℕ) → (Has p free → ⊥) → Has q free → p ≢ q
Has_ne p q [] out at = absurd at
Has_ne p q (x ∷ xs) out (inl e) = λ same. out (inl (same ∙ e))
Has_ne p q (x ∷ xs) out (inr at) = Has_ne p q xs (λ h. out (inr h)) at

-- What is written to a page outside the list leaves the list.
pub Chain-update :
    (pages : ℕ → PageInfo) (p : ℕ) (info : PageInfo) (head : Option ℕ) (free : List ℕ)
    → (Has p free → ⊥)
    → Chain pages head free
    → Chain (update pages p info) head free
Chain-update pages p info head [] out c = c
Chain-update pages p info head (x ∷ xs) out (to, c) =
    let other : update pages p info x ≡ pages x = update-ne pages p info x (λ e. out (inl e)) in
    (to, rw other (Chain-update pages p info ((pages x).pp_link) xs (λ h. out (inr h)) c))

module _ {m : Memory} {held : ℕ → ℕ} {kind : ℕ → Kind} {free : List ℕ}
    (ok : Sound m held kind free) where
  module _ (p : ℕ) (info : PageInfo) (out : Has p free → ⊥) where
    -- Another page's fields.
    pub other_page : (q : ℕ) → p ≢ q → update (m.pages) p info q ≡ m.pages q
    other_page q ne = update-ne (m.pages) p info q ne

    free-put_page :
        (q : ℕ)
        → Has q free
        → (q < m.npages) × (kind q ≡ plain) × ((update (m.pages) p info q).pp_ref ≡ 0)
    free-put_page q at =
        let (inside, use_, none_left) = ok.free_ok q at in
        (
          inside,
          use_,
          ap (λ (x : PageInfo). x.pp_ref) (other_page q (Has_ne p q free out at)) ∙ none_left,
        )

  -- A page outside the list gets another count, and as many references that do not come from tables.
  pub set_ref-Sound :
      (p r h : ℕ)
      → r < 65536
      → (Has p free → ⊥)
      → (kind p ≡ plain → r ≡ h + refs (m.npages) (m.words) kind p)
      → Sound (set_ref p r m) (update held p h) kind free
  set_ref-Sound p r h lt out fits =
      let info : PageInfo = record (m.pages p) { pp_ref = r } in
      record {
        memory = ok.memory;
        chain = Chain-update (m.pages) p info (m.page_free_list) free out (ok.chain);
        once = ok.once;
        free_ok = free-put_page p info out;
        unlinked = λ q out'.
            update-elim (λ (q' : ℕ) (x : PageInfo). (Has q' free → ⊥) → x.pp_link ≡ none) (m.pages)
              p info (ok.unlinked p) (λ q' ne. ok.unlinked q') q out';
        small =
            update-elim (λ (q' : ℕ) (x : PageInfo). x.pp_ref < 65536) (m.pages) p info lt
              (λ q' ne. ok.small q');
        placed = ok.placed;
        tables = ok.tables;
        mapped = ok.mapped;
        counted = λ q use_. elim (Bool-cases (p == q)) [
          | inl same ↦ let e : p ≡ q = ==→eq p q same in rw (same, ← e) (fits (ap kind e ∙ use_))
          | inr other ↦ rw other (ok.counted q use_)
        ];
      }

  -- A page without references goes to the head of the list.
  pub free-Sound :
      (p : ℕ)
      → p < m.npages
      → (Has p free → ⊥)
      → kind p ≡ plain
      → (m.pages p).pp_ref ≡ 0
      → Sound
          (put_page p
            (record (m.pages p) { pp_link = m.page_free_list })
            (record m { page_free_list = some p }))
          held
          kind
          (p ∷ free)
  free-Sound p inside out use_ none_left =
      let info : PageInfo = record (m.pages p) { pp_link = m.page_free_list } in
      let self : update (m.pages) p info p ≡ info = update_self (m.pages) p info in
      record {
        memory = ok.memory;
        chain =
            (refl, rw self (Chain-update (m.pages) p info (m.page_free_list) free out (ok.chain)));
        once = (out, ok.once);
        free_ok = λ q at. elim at [
          | inl e ↦ rw e (inside, use_, ap (λ (x : PageInfo). x.pp_ref) self ∙ none_left)
          | inr h ↦ free-put_page p info out q h
        ];
        unlinked = λ q out'.
            ap (λ (x : PageInfo). x.pp_link) (other_page p info out q (λ e. out' (inl (sym e))))
            ∙ ok.unlinked q (λ h. out' (inr h));
        small =
            update-elim (λ (q' : ℕ) (x : PageInfo). x.pp_ref < 65536) (m.pages) p info (ok.small p)
              (λ q' ne. ok.small q');
        placed = ok.placed;
        tables = ok.tables;
        mapped = ok.mapped;
        counted =
            update-elim
              (λ (q' : ℕ) (x : PageInfo).
                kind q' ≡ plain → x.pp_ref ≡ held q' + refs (m.npages) (m.words) kind q')
              (m.pages) p info (ok.counted p) (λ q' ne. ok.counted q');
      }

-- Only what `held` says of each page counts.
pub held-Sound :
    {m : Memory} {kind : ℕ → Kind} {free : List ℕ} (held held' : ℕ → ℕ)
    → ((p : ℕ) → held p ≡ held' p)
    → Sound m held kind free
    → Sound m held' kind free
held-Sound held held' same ok = record {
  memory = ok.memory;
  chain = ok.chain;
  once = ok.once;
  free_ok = ok.free_ok;
  unlinked = ok.unlinked;
  small = ok.small;
  placed = ok.placed;
  tables = ok.tables;
  mapped = ok.mapped;
  counted = λ p k. omega (arith, ok.counted p k, same p);
}
