-- ===== src/Sched/Yield/RoundRobin/Next.antt =====
-- Which environment one call of the round robin `sched_yield` runs.
use mathlib.Core.Bool.{false≢true}
use tps_sistemas_operativos.Base.{
  ℕ, zero, suc, ◌+◌, ◌-◌, ◌≤◌, ◌<◌, ◌≡◌, refl, sym, ◌∙◌, true, false, ◌⊎◌, inl, inr, Bool-cases,
  none, some, List, ltb, ltb→lt, ltb→le, if◌then◌else◌, arith, get_or,
}
use tps_sistemas_operativos.Sched.Env.{
  nenv, envx, no_env, is_runnable, Env, Kernel, env_at, env_run,
}
use tps_sistemas_operativos.Sched.Yield.{
  runs, get_next_runnable_process, counted, sched_yield_rr, start_pos,
}

abbrev pub Runnable : List Env → ℕ → Type 0
Runnable es i = is_runnable (get_or es i no_env).env_status ≡ true

-- No slot from `lo` up to `hi` is runnable.
abbrev pub NoneIn : List Env → ℕ → ℕ → Type 0
NoneIn es lo hi = (i : ℕ) → lo ≤ i → i < hi → is_runnable (get_or es i no_env).env_status ≡ false

-- The slot that the search from `pos` up to `hi` finds is the first runnable one.
pub record IsFirst (es : List Env) (pos hi j : ℕ) : Type 0 where
  pub from : pos ≤ j
  pub upto : j < hi
  pub ready : Runnable es j
  pub others : NoneIn es pos j

NoneIn-cons :
    (es : List Env) (pos hi : ℕ)
    → is_runnable (get_or es pos no_env).env_status ≡ false
    → NoneIn es (pos + 1) hi
    → NoneIn es pos hi
NoneIn-cons es pos hi not_ready rest i a b = elim (Bool-cases (ltb pos i)) [
  | inl lt ↦ rest i (omega (arith, ltb→lt)) b
  | inr ge ↦ let e : i ≡ pos = omega (arith, ltb→le) in rw e not_ready
]

search_cases :
    (es : List Env) (n pos : ℕ)
    → (get_next_runnable_process es n pos ≡ none) × NoneIn es pos (pos + n)
      ⊎ ((j : ℕ) × (get_next_runnable_process es n pos ≡ some j) × IsFirst es pos (pos + n) j)
unfolding get_next_runnable_process
search_cases es zero pos = inl (refl, λ i a b. absurd (omega arith))
search_cases es (suc n) pos = elim (Bool-cases (is_runnable (get_or es pos no_env).env_status)) [
  | inl ready ↦ inr (
    pos,
    rw ready,
    record {
      from = omega arith;
      upto = omega arith;
      ready = ready;
      others = λ i a b. absurd (omega arith);
    },
  )
  | inr not_ready ↦ elim (search_cases es n (pos + 1)) [
    | inl (e, rest) ↦
        inl (rw not_ready e, NoneIn-cons es pos _ not_ready (λ i a b. rest i a (omega arith)))
    | inr (j, e, f) ↦ inr (
      j,
      rw not_ready e,
      record {
        from = omega (arith, f.from);
        upto = omega (arith, f.upto);
        ready = f.ready;
        others = NoneIn-cons es pos j not_ready f.others;
      },
    )
  ]
]

-- How far `j` is behind `c`, going round the table.
abbrev pub dist : ℕ → ℕ → ℕ
dist c j = if ltb c j then j - c - 1 else j + nenv - c - 1

-- `j` is the runnable environment that comes next after `c`.
pub record IsNext (es : List Env) (c j : ℕ) : Type 0 where
  pub ready : Runnable es j
  pub small : j < nenv
  pub nearest : (i : ℕ) → i < nenv → Runnable es i → dist c j ≤ dist c i

module _ (es : List Env) (c : ℕ) (small : c < nenv) where
  pub outside : (lo hi i : ℕ) → NoneIn es lo hi → Runnable es i → lo ≤ i → hi ≤ i
  outside lo hi i none_in ready a = elim (Bool-cases (ltb i hi)) [
    | inl lt ↦ absurd (false≢true (sym (none_in i a (ltb→lt i hi lt)) ∙ ready))
    | inr ge ↦ ltb→le i hi ge
  ]

  first_half : (j : ℕ) → IsFirst es (c + 1) (c + 1 + (nenv - (c + 1))) j → IsNext es c j
  first_half j f = record {
    ready = f.ready;
    small = omega (arith, f.upto);
    nearest = λ i a ready. ground (arith, f.from, f.upto, outside (c + 1) j i f.others ready);
  }

  second_half :
      (j : ℕ)
      → NoneIn es (c + 1) (c + 1 + (nenv - (c + 1)))
      → IsFirst es 0 (0 + (c + 1)) j
      → IsNext es c j
  second_half j none_in f = record {
    ready = f.ready;
    small = omega (arith, f.upto);
    nearest = λ i a ready. ground (
      arith,
      f.upto,
      outside (c + 1) (c + 1 + (nenv - (c + 1))) i none_in ready,
      outside 0 j i f.others ready,
    );
  }

module _ (k : Kernel) (c : ℕ) (small : c < nenv) where
  pos : k.curenv ≡ some c → envx (env_at k c).env_id ≡ c → start_pos k ≡ c + 1
  unfolding start_pos
  pos cur valid = rw (cur, valid)

  -- With a current environment whose id names its slot, and some environment runnable, `sched_yield`
  -- runs the runnable environment that comes next in the table, going round.
  pub sched_yield_rr-IsNext :
      (i : ℕ)
      → k.curenv ≡ some c
      → envx (env_at k c).env_id ≡ c
      → i < nenv
      → Runnable k.envs i
      → (j : ℕ) × (sched_yield_rr k ≡ runs j (env_run j (counted k))) × IsNext k.envs c j
  unfolding sched_yield_rr
  sched_yield_rr-IsNext i cur valid small_i ready =
      elim (search_cases k.envs (nenv - (c + 1)) (c + 1)) [
        | inr (j, e, f) ↦ (j, rw (pos cur valid, e), first_half k.envs c small j f)
        | inl (e, none_in) ↦ elim (search_cases k.envs (c + 1) 0) [
          | inr (j, e', f) ↦
              (j, rw (pos cur valid, e, cur, valid, e'), second_half k.envs c small j none_in f)
          | inl (e', none_in') ↦
              let before = outside k.envs c small 0 (0 + (c + 1)) i none_in' ready (omega arith) in
              let behind = outside k.envs c small (c + 1) _ i none_in ready (omega arith) in
              absurd (omega arith)
        ]
      ]

-- Without a current environment `sched_yield` runs the first runnable one of the table.
module _ (k : Kernel) (idle : k.curenv ≡ none) where
  from_zero : start_pos k ≡ 0
  unfolding start_pos
  from_zero = rw idle

  pub sched_yield_rr-IsFirst :
      (i : ℕ)
      → i < nenv
      → Runnable k.envs i
      → (j : ℕ) × (sched_yield_rr k ≡ runs j (env_run j (counted k))) × IsFirst k.envs 0 nenv j
  unfolding sched_yield_rr
  sched_yield_rr-IsFirst i small ready = elim (search_cases k.envs nenv 0) [
    | inr (j, e, f) ↦ (j, rw (from_zero, e), f)
    | inl (e, none_in) ↦ absurd (false≢true (sym (none_in i (omega arith) small) ∙ ready))
  ]
