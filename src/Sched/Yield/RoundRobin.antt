-- ===== src/Sched/Yield/RoundRobin.antt =====
-- Round robin: every runnable environment gets its turn.
pub mod Next
use mathlib.Core.Bool.{false≢true}
use tps_sistemas_operativos.Base.{
  ℕ, zero, suc, ◌+◌, ◌-◌, ◌≤◌, ◌<◌, ◌≡◌, ◌≢◌, refl, sym, ◌∙◌, ap, Bool, true, false, ◌||◌, ◌⊎◌, inl,
  inr, Bool-cases, none, some, List, [], ◌∷◌, ◌==◌, ltb, ltb→lt, ltb→le, if◌then◌else◌, arith,
  length, get_or,
}
use tps_sistemas_operativos.Sched.Env.{
  nenv, envx, no_env, Status, is_runnable, is_active, Env, Kernel, env_at, env_run,
}
use tps_sistemas_operativos.Sched.Env.Run.{
  env_id-env_run, Runnable-env_run, length-env_run, is_active-env_run, curenv-env_run,
}
use tps_sistemas_operativos.Sched.Yield.{
  runs, halts, monitors, get_next_runnable_process, counted, sched_yield_rr, start_pos,
}
use tps_sistemas_operativos.Sched.Yield.RoundRobin.Next.{
  Runnable, dist, IsNext, IsFirst, outside, sched_yield_rr-IsNext, sched_yield_rr-IsFirst,
}

-- What the scheduler's proofs need of the table: it has NENV entries, and the id of an environment
-- that can run names its slot.
pub record IsTable (k : Kernel) : Type 0 where
  pub full : length k.envs ≡ nenv
  pub ids :
      (i : ℕ) → i < nenv → is_active (env_at k i).env_status ≡ true → envx (env_at k i).env_id ≡ i

ready_active : (s : Status) → is_runnable s ≡ true → is_active s ≡ true
ready_active s h = rw h

IsTable-env_run :
    (k : Kernel) (j : ℕ) → Runnable k.envs j → IsTable k → IsTable (env_run j (counted k))
IsTable-env_run k j ready t = record {
  full = length-env_run (counted k) j ∙ t.full;
  ids = λ i small act.
      rw env_id-env_run
        (t.ids i small (sym (is_active-env_run (counted k) j i (ready_active _ ready)) ∙ act));
}

dist-injective : (c i j : ℕ) → c < nenv → i < nenv → j < nenv → dist c i ≡ dist c j → i ≡ j
dist-injective c i j hc hi hj e = ground arith

dist-closer :
    (c i j : ℕ) → c < nenv → i < nenv → j < nenv → dist c j < dist c i → dist j i < dist c i
dist-closer c i j hc hi hj lt = ground arith

-- The environments that `n` calls of `sched_yield` run one after the other, when the time slices
-- between them change nothing.
pub turns : ℕ → Kernel → List ℕ
turns zero k = []
turns (suc n) k = elim (sched_yield_rr k) [
  | runs j k' ↦ j ∷ turns n k'
  | halts k' ↦ []
  | monitors k' ↦ []
]

turns-runs :
    (n : ℕ) (k : Kernel) {j : ℕ} {k' : Kernel}
    → sched_yield_rr k ≡ runs j k'
    → turns (suc n) k ≡ j ∷ turns n k'
unfolding turns
turns-runs n k e = rw (e, turns)

abbrev pub contains : ℕ → List ℕ → Bool
contains i [] = false
contains i (j ∷ js) = i == j || contains i js

rr_serves :
    (n : ℕ) (k : Kernel) (c i : ℕ)
    → IsTable k
    → c < nenv
    → k.curenv ≡ some c
    → envx (env_at k c).env_id ≡ c
    → i < nenv
    → Runnable k.envs i
    → dist c i < n
    → contains i (turns n k) ≡ true
rr_serves zero k c i t hc cur valid hi ready near = absurd (omega arith)
rr_serves (suc n) k c i t hc cur valid hi ready near =
    let (j, e, next) = sched_yield_rr-IsNext k c hc i cur valid hi ready in
    rw (turns-runs n k e) (elim (Bool-cases (i == j)) [
      | inl this ↦ rw this
      | inr other ↦
          let ne : j ≢ i = ground arith in
          let far : dist c j ≢ dist c i = λ p. ne (dist-injective c j i hc next.small hi p) in
          let less : dist c j < dist c i = omega (arith, next.nearest i hi ready) in
          let closer = dist-closer c i j hc hi next.small less in
          let t' = IsTable-env_run k j next.ready t in
          let valid' =
            ap envx (env_id-env_run (counted k) j j)
            ∙ t.ids j next.small (ready_active _ next.ready) in
          rw other (
            rr_serves n (env_run j (counted k)) j i t' next.small (curenv-env_run (counted k) j)
              valid' hi (Runnable-env_run (counted k) j i ne ready) (omega arith))
    ])

module _ (k : Kernel) (idle : k.curenv ≡ none) where
  serves_after :
      (n i : ℕ)
      → IsTable k
      → i < nenv
      → Runnable k.envs i
      → nenv ≤ suc n
      → contains i (turns (suc n) k) ≡ true
  serves_after n i t hi ready enough =
      let (j, e, first) = sched_yield_rr-IsFirst k idle i hi ready in
      rw (turns-runs n k e) (elim (Bool-cases (i == j)) [
        | inl this ↦ rw this
        | inr other ↦
            let ne : j ≢ i = ground arith in
            let behind = outside k.envs 0 (omega arith) 0 j i first.others ready (omega arith) in
            let valid =
              ap envx (env_id-env_run (counted k) j j)
              ∙ t.ids j first.upto (ready_active _ first.ready) in
            rw other (
              rr_serves n (env_run j (counted k)) j i (IsTable-env_run k j first.ready t) first.upto
                (curenv-env_run (counted k) j) valid hi (Runnable-env_run (counted k) j i ne ready)
                (ground (arith, hi, behind, ne, enough)))
      ])

-- No environment is the current one, or one whose id names its slot.
abbrev pub HasCurrent : Kernel → Type 0
HasCurrent k =
    (k.curenv ≡ none)
    ⊎ ((c : ℕ) × (c < nenv) × (k.curenv ≡ some c) × (envx (env_at k c).env_id ≡ c))

-- In a table of NENV environments where the ids of those that can run name their slots, and where the
-- current environment, if there is one, has an id that names its slot, each runnable environment is among
-- those that NENV calls of `sched_yield` run, if the time slices between them change nothing.
pub rr_fair :
    (k : Kernel) (i : ℕ)
    → IsTable k
    → HasCurrent k
    → i < nenv
    → Runnable k.envs i
    → contains i (turns nenv k) ≡ true
rr_fair k i t (inl idle) hi ready = serves_after k idle 1023 i t hi ready (omega arith)
rr_fair k i t (inr (c, hc, cur, valid)) hi ready =
    rr_serves nenv k c i t hc cur valid hi ready (ground arith)
