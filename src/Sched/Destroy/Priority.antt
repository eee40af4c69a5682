-- ===== src/Sched/Destroy/Priority.antt =====
-- SYS_reduce_priority in the dispatch of syscall.c, which goes on into SYS_env_destroy.
use tps_sistemas_operativos.Base.{
  ℕ, ◌<◌, ◌≡◌, ◌≢◌, refl, Bool, true, false, some, inl, inr, Bool-cases, ◌==◌, eq→==, arith, ap,
  ◌∙◌, sym, zero, suc, signed_ltb, signed_div, mul32, if◌then◌else◌,
}
use tps_sistemas_operativos.Sched.Env.{
  is_running, env_found, Kernel, env_at, envx, envid2env, same_env,
}
use tps_sistemas_operativos.Sched.Env.Run.{field-set}
use tps_sistemas_operativos.Sched.Yield.{Outcome, sys_reduce_priority}
use tps_sistemas_operativos.Sched.Destroy.{
  error, leaves, e_bad_env, destroyed, env_destroy, sys_env_destroy, reduce_priority, syscall,
  destroy_found,
}
use tps_sistemas_operativos.Sched.Destroy.Reuse.{not_id}

-- What the call keeps of the kernel.
module _ (k : Kernel) (c a : ℕ) where
  reduces : Bool
  reduces = signed_ltb 0 (signed_div (mul32 ((env_at k c).tickets) a) 100)

  curenv-reduce_priority : (sys_reduce_priority c a k).curenv ≡ k.curenv
  unfolding sys_reduce_priority reduces
  curenv-reduce_priority = elim (Bool-cases reduces) [
    | inl more ↦ rw more refl
    | inr few ↦ rw few refl
  ]

  env_id-reduce_priority :
      (i : ℕ) → (env_at (sys_reduce_priority c a k) i).env_id ≡ (env_at k i).env_id
  unfolding sys_reduce_priority reduces
  env_id-reduce_priority i = elim (Bool-cases reduces) [
    | inl more ↦ rw more (field-set (λ e. e.env_id) (k.envs) c i _ refl)
    | inr few ↦ rw few (field-set (λ e. e.env_id) (k.envs) c i _ refl)
  ]

env_destroy_self :
    (sched : Kernel → Outcome) (k : Kernel) (c : ℕ)
    → same_env (k.curenv) c ≡ true
    → env_destroy sched c k ≡ leaves (sched (destroyed c k))
unfolding env_destroy
env_destroy_self sched k c is = elim (Bool-cases (is_running ((env_at k c).env_status))) [
  | inl running ↦ rw (running, is) refl
  | inr not_running ↦ rw (not_running, is) refl
]

-- A destroyed current environment: the call does not come back to it.
sys_env_destroy_self :
    (sched : Kernel → Outcome) (k : Kernel) (c : ℕ)
    → k.curenv ≡ some c
    → sys_env_destroy sched 0 k ≡ leaves (sched (destroyed c k))
unfolding sys_env_destroy envid2env
sys_env_destroy_self sched k c current =
    ap (λ o. destroy_found sched (env_found o) k) current
    ∙ env_destroy_self sched k c (ap (λ o. same_env o c) current ∙ eq→== c c refl)

sys_env_destroy-bad :
    (sched : Kernel → Outcome) (k : Kernel) (a : ℕ)
    → 0 < a
    → (env_at k (envx a)).env_id ≢ a
    → sys_env_destroy sched a k ≡ error e_bad_env k
unfolding sys_env_destroy
sys_env_destroy-bad sched k a pos other =
    ap (λ f. destroy_found sched f k) (not_id k a true pos other)

-- The percentage that SYS_reduce_priority takes is then an id for sys_env_destroy. With 0 the calling
-- environment itself is destroyed and the CPU goes to sched_yield; with another number that is not the
-- id in its slot of the table the call reduces the tickets and returns -E_BAD_ENV.
pub reduce_priority-destroys :
    (sched : Kernel → Outcome) (k : Kernel) (c a : ℕ)
    → k.curenv ≡ some c
    → (0 < a → (env_at k (envx a)).env_id ≢ a)
    → syscall sched (reduce_priority a) c k ≡ (
        if a == 0
        then leaves (sched (destroyed c (sys_reduce_priority c a k)))
        else error e_bad_env (sys_reduce_priority c a k))
unfolding syscall
reduce_priority-destroys sched k c zero current no_id =
    sys_env_destroy_self sched (sys_reduce_priority c 0 k) c
      (curenv-reduce_priority k c 0 ∙ current)
reduce_priority-destroys sched k c (suc n) current no_id =
    let nonzero : (suc n == 0) ≡ false = ground arith in
    rw nonzero (
      sys_env_destroy-bad sched (sys_reduce_priority c (suc n) k) (suc n) (omega arith) (λ same.
        no_id (omega arith) (sym (env_id-reduce_priority k c (suc n) (envx (suc n))) ∙ same)))
