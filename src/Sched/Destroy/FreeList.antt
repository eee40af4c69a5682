-- ===== src/Sched/Destroy/FreeList.antt =====
-- The free list of env.c: env_alloc takes its head, and env_free puts a slot before it.
use mathlib.Core.Path.{subst}
use tps_sistemas_operativos.Base.{
  ℕ, ◌<◌, ◌≡◌, refl, ◌≢◌, ◌⊎◌, inl, inr, true, false, Option, some, List, length, get_or, set,
  arith, ◌==◌, Bool-cases, ==→eq, get_or-set_self, get_or-set_ne, length-set, ap, ◌∙◌, sym,
}
use tps_sistemas_operativos.Sched.Env.{no_env, is_free, Env}

-- The slot is in the table and free.
abbrev pub Free : List Env → ℕ → Type 0
Free es i = (i < length es) × (is_free ((get_or es i no_env).env_status) ≡ true)

abbrev pub link : List Env → ℕ → Option ℕ
link es i = (get_or es i no_env).env_link

-- The list leads from free slots to free slots, to none of them twice, and to its head from none.
pub record FreeOk (es : List Env) (head : Option ℕ) : Type 0 where
  pub head_free : (i : ℕ) → head ≡ some i → Free es i
  pub link_free : (i j : ℕ) → Free es i → link es i ≡ some j → Free es j
  pub head_first : (i j : ℕ) → Free es i → head ≡ some j → link es i ≢ some j
  pub once :
      (i i' j : ℕ) → Free es i → Free es i' → link es i ≡ some j → link es i' ≡ some j → i ≡ i'

same_or_not : (i j : ℕ) → (i ≡ j) ⊎ (i ≢ j)
same_or_not i j = elim (Bool-cases (i == j)) [
  | inl same ↦ inl (==→eq i j same)
  | inr other ↦ inr (ground arith)
]

module _ (es : List Env) (h : ℕ) (e : Env) (inside : h < length es) where
  Free-set_ne : (x : ℕ) → h ≢ x → Free es x → Free (set es h e) x
  Free-set_ne x d (lt, f) = (
    omega (arith, length-set es h e),
    ap (λ (v : Env). is_free (v.env_status)) (get_or-set_ne es h x e no_env d) ∙ f,
  )

  Free-of_set : (x : ℕ) → h ≢ x → Free (set es h e) x → Free es x
  Free-of_set x d (lt, f) = (
    omega (arith, length-set es h e),
    sym (ap (λ (v : Env). is_free (v.env_status)) (get_or-set_ne es h x e no_env d)) ∙ f,
  )

  link-set_ne : (x : ℕ) → h ≢ x → link (set es h e) x ≡ link es x
  link-set_ne x d = ap (λ (v : Env). v.env_link) (get_or-set_ne es h x e no_env d)

  set_self : get_or (set es h e) h no_env ≡ e
  set_self = get_or-set_self es h e no_env inside

  -- The head becomes an environment that is not free.
  module _ (busy : is_free (e.env_status) ≡ false) (ok : FreeOk es (some h)) where
    busy_ne : (x : ℕ) → Free (set es h e) x → h ≢ x
    busy_ne x f same = cc (
      f.1,
      busy,
      ap (λ k. is_free ((get_or (set es h e) k no_env).env_status)) (sym same),
      ap (λ (v : Env). is_free (v.env_status)) set_self,
    )

    old : (x : ℕ) → Free (set es h e) x → Free es x
    old x f = Free-of_set x (busy_ne x f) f

    head_linked : (x : ℕ) → Free es x → link es x ≢ some h
    head_linked x f = ok.head_first x h f refl

    pub take-FreeOk : FreeOk (set es h e) (link es h)
    take-FreeOk =
        let first : Free es h = ok.head_free h refl in
        record {
          head_free = λ i to.
              Free-set_ne i (λ same. head_linked h first (to ∙ ap (λ k. some k) (sym same)))
                (ok.link_free h i first to);
          link_free = λ i j f to.
              let to' : link es i ≡ some j = sym (link-set_ne i (busy_ne i f)) ∙ to in
              Free-set_ne j (λ same. head_linked i (old i f) (to' ∙ ap (λ k. some k) (sym same)))
                (ok.link_free i j (old i f) to');
          head_first = λ i j f to from.
              busy_ne i f
                (ok.once h i j first (old i f) to (sym (link-set_ne i (busy_ne i f)) ∙ from));
          once = λ i i' j f f' to to'.
              ok.once i i' j (old i f) (old i' f') (sym (link-set_ne i (busy_ne i f)) ∙ to)
                (sym (link-set_ne i' (busy_ne i' f')) ∙ to');
        }

  -- A slot that was not free becomes the head, with a link to the old one.
  module _ (head : Option ℕ) (was : is_free ((get_or es h no_env).env_status) ≡ false)
      (now : is_free (e.env_status) ≡ true) (linked : e.env_link ≡ head) (ok : FreeOk es head) where
    was_ne : (x : ℕ) → Free es x → h ≢ x
    was_ne x f same = cc (f.1, was, ap (λ k. is_free ((get_or es k no_env).env_status)) same)

    new_head : Free (set es h e) h
    new_head =
        (omega (arith, length-set es h e), ap (λ (v : Env). is_free (v.env_status)) set_self ∙ now)

    link-head : link (set es h e) h ≡ head
    link-head = ap (λ (v : Env). v.env_link) set_self ∙ linked

    stays : (x : ℕ) → Free es x → Free (set es h e) x
    stays x f = Free-set_ne x (was_ne x f) f

    -- A free slot now is the new head, or it was free with the same link.
    origin :
        (x : ℕ) → Free (set es h e) x → (h ≡ x) ⊎ (Free es x × (link es x ≡ link (set es h e) x))
    origin x f = elim (same_or_not h x) [
      | inl same ↦ inl same
      | inr other ↦ inr (Free-of_set x other f, sym (link-set_ne x other))
    ]

    -- What the new head links to was the old one.
    via_head : (x j : ℕ) → h ≡ x → link (set es h e) x ≡ some j → head ≡ some j
    via_head x j same to = sym link-head ∙ ap (λ k. link (set es h e) k) same ∙ to

    give_linked :
        (i j : ℕ) → Free (set es h e) i → link (set es h e) i ≡ some j → Free (set es h e) j
    give_linked i j f to = elim (origin i f) [
      | inl same ↦ stays j (ok.head_free j (via_head i j same to))
      | inr (g, e') ↦ stays j (ok.link_free i j g (e' ∙ to))
    ]

    give_head_first : (i : ℕ) → Free (set es h e) i → link (set es h e) i ≢ some h
    give_head_first i f to = elim (origin i f) [
      | inl same ↦ was_ne h (ok.head_free h (via_head i h same to)) refl
      | inr (g, e') ↦ was_ne h (ok.link_free i h g (e' ∙ to)) refl
    ]

    give_once :
        (i i' j : ℕ)
        → Free (set es h e) i
        → Free (set es h e) i'
        → link (set es h e) i ≡ some j
        → link (set es h e) i' ≡ some j
        → i ≡ i'
    give_once i i' j f f' to to' = elim (origin i f) [
      | inl same ↦ elim (origin i' f') [
        | inl same' ↦ sym same ∙ same'
        | inr (g', e') ↦ absurd (ok.head_first i' j g' (via_head i j same to) (e' ∙ to'))
      ]
      | inr (g, e1) ↦ elim (origin i' f') [
        | inl same' ↦ absurd (ok.head_first i j g (via_head i' j same' to') (e1 ∙ to))
        | inr (g', e') ↦ ok.once i i' j g g' (e1 ∙ to) (e' ∙ to')
      ]
    ]

    pub give-FreeOk : FreeOk (set es h e) (some h)
    give-FreeOk = record {
      head_free =
          λ i to. let same : h ≡ i = cc (to) in subst (λ k. Free (set es h e) k) same new_head;
      link_free = give_linked;
      head_first = λ i j f to from.
          let same : h ≡ j = cc (to) in give_head_first i f (from ∙ ap (λ k. some k) (sym same));
      once = give_once;
    }
