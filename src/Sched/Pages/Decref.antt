-- ===== src/Sched/Pages/Decref.antt =====
-- page_decref of pmap.c gives up a reference, and the page with the last one.
use tps_sistemas_operativos.Base.{
  ℕ, suc, ◌+◌, ◌%◌, ◌<◌, ◌≡◌, refl, true, inl, inr, Bool-cases, ◌==◌, ==→eq, arith, ap, ◌∙◌, update,
  update_self, some, List, ◌∷◌,
}
use tps_sistemas_operativos.Sched.Pages.{
  PageInfo, Memory, put_page, store, decref, is_null, page_free, page_decref, ◌>>=◌,
}
use tps_sistemas_operativos.Sched.Pages.Count.{Kind, plain}
use tps_sistemas_operativos.Sched.Pages.Sound.{Has, Sound, set_ref-Sound, free-Sound}

-- The memory behind a reference given up: a page that has none left is free.
pub record Released (m m' : Memory) (held : ℕ → ℕ) (kind : ℕ → Kind) (free' : List ℕ) (p : ℕ)
    : Type 0 where
  pub sound : Sound m' held kind free'
  pub same_words : m'.words ≡ m.words
  pub same_npages : m'.npages ≡ m.npages
  pub one_less : (m'.pages p).pp_ref + 1 ≡ (m.pages p).pp_ref
  pub freed : (m'.pages p).pp_ref ≡ 0 → Has p free'

-- The pages are counted apart from the entries.
pub page_decref-store :
    (p t j v : ℕ) (m : Memory)
    → page_decref p (store t j v m) ≡ (page_decref p m >>= λ m'. some (store t j v m'))
unfolding page_decref page_free
page_decref-store p t j v m = elim (Bool-cases (((decref p m).pages p).pp_ref == 0)) [
  | inl last ↦ elim (Bool-cases (is_null (((decref p m).pages p).pp_link))) [
    | inl null ↦ rw (last, null) refl
    | inr link ↦ rw (last, link) refl
  ]
  | inr more ↦ rw more refl
]

module _ {m : Memory} {held : ℕ → ℕ} {kind : ℕ → Kind} {free : List ℕ} (ok : Sound m held kind free)
    (p h : ℕ) (use_ : kind p ≡ plain) (inside : p < m.npages) (one : held p ≡ suc h) where
  abbrev r : ℕ
  r = ((m.pages p).pp_ref + 65535) % 65536

  r-pred : r + 1 ≡ (m.pages p).pp_ref
  r-pred = omega (arith, ok.counted p use_, one, ok.small p)

  out : Has p free → ⊥
  out at = omega (arith, (ok.free_ok p at).2, ok.counted p use_, one)

  lowered : Sound (decref p m) (update held p h) kind free
  lowered =
      set_ref-Sound ok p r h (omega arith) out (λ k. omega (arith, r-pred, ok.counted p use_, one))

  self : (decref p m).pages p ≡ record (m.pages p) { pp_ref = r }
  self = update_self (m.pages) p _

  ref_now : ((decref p m).pages p).pp_ref ≡ r
  ref_now = ap (λ (x : PageInfo). x.pp_ref) self

  null_link : is_null (((decref p m).pages p).pp_link) ≡ true
  null_link = ap (λ (x : PageInfo). is_null (x.pp_link)) self ∙ ap is_null (ok.unlinked p out)

  abbrev pushed : Memory
  pushed =
      put_page p (record ((decref p m).pages p) { pp_link = m.page_free_list })
        (record (decref p m) { page_free_list = some p })

  ref_pushed : (pushed.pages p).pp_ref ≡ r
  ref_pushed = ap (λ (x : PageInfo). x.pp_ref) (update_self ((decref p m).pages) p _) ∙ ref_now

  pub page_decref-Released :
      (m' : Memory) × (free' : List ℕ) × (page_decref p m ≡ some m')
      × Released m m' (update held p h) kind free' p
  unfolding page_decref page_free
  page_decref-Released = elim (Bool-cases (((decref p m).pages p).pp_ref == 0)) [
    | inl last ↦
        let gone : ((decref p m).pages p).pp_ref ≡ 0 = ==→eq _ 0 last in
        (
          pushed,
          p ∷ free,
          rw (last, null_link) refl,
          record {
            sound = free-Sound lowered p inside out use_ gone;
            same_words = refl;
            same_npages = refl;
            one_less = omega (arith, ref_pushed, r-pred);
            freed = λ z. inl refl;
          },
        )
    | inr more ↦ (
      decref p m,
      free,
      rw more refl,
      record {
        sound = lowered;
        same_words = refl;
        same_npages = refl;
        one_less = omega (arith, ref_now, r-pred);
        freed = λ z. absurd (ground arith);
      },
    )
  ]
