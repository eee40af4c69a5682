-- ===== src/Sched/Destroy/Tests.antt =====
-- Runs of the end of an environment, and the theorems at them.
use tps_sistemas_operativos.Base.{
  ℕ, zero, suc, ◌+◌, ◌%◌, ◌≡◌, refl, false, none, some, List, [], ◌∷◌, arith, word, ◌==◌,
  if◌then◌else◌,
}
use tps_sistemas_operativos.Sched.Env.{
  no_env, Status, dying, running, runnable, not_runnable, Env, Kernel, bad_env, allocated,
  env_alloc, envid2env,
}
use tps_sistemas_operativos.Sched.Yield.{halts, sys_reduce_priority}
use tps_sistemas_operativos.Sched.Destroy.{
  error, leaves, e_bad_env, destroyed, collect_zombie, reduce_priority, syscall,
}
use tps_sistemas_operativos.Sched.Destroy.FreeList.{Free}
use tps_sistemas_operativos.Sched.Destroy.Counted.{
  held_tickets, Consistent, env_alloc-Consistent, destroyed-Consistent, collect_zombie_leak,
}
use tps_sistemas_operativos.Sched.Destroy.Reuse.{envid2env-reused}
use tps_sistemas_operativos.Sched.Destroy.Priority.{reduce_priority-destroys}

abbrev env : ℕ → Status → ℕ → Env
env id s tickets = record no_env { env_id = id; env_status = s; tickets = tickets }

-- All four slots are in use.
abbrev full : List Env
full =
    env 4096 running 50 ∷ env 4097 dying 30 ∷ env 4098 runnable 20 ∷ env 4099 not_runnable 100 ∷ []

abbrev full_kernel : Kernel
full_kernel = record {
  envs = full;
  env_free_list = none;
  curenv = some 0;
  halted = false;
  total_tickets = 200;
  prev_random = 1234;
  sched_calls = 0;
  boost_calls = 0;
  timer_int_counter = 0;
}

all_taken : (i : ℕ) → Free full i → ⊥
all_taken zero f = cc (f.1)
all_taken (suc zero) f = cc (f.1)
all_taken (suc (suc zero)) f = cc (f.1)
all_taken (suc (suc (suc zero))) f = cc (f.1)
all_taken (suc (suc (suc (suc i)))) f = omega (arith, f.0)

full-Consistent : Consistent full_kernel
unfolding held_tickets
full-Consistent = record {
  free_list = record {
    head_free = λ i to. cc (to);
    link_free = λ i j f to. absurd (all_taken i f);
    head_first = λ i j f to. absurd (all_taken i f);
    once = λ i i' j f f' to to'. absurd (all_taken i f);
  };
  total = refl;
}

destroyed-Consistent_example : Consistent (destroyed 2 full_kernel)
destroyed-Consistent_example = destroyed-Consistent full_kernel 2 (omega arith) refl full-Consistent

env_alloc-Consistent_example : Consistent ((env_alloc 0 4096 (destroyed 2 full_kernel)).1)
env_alloc-Consistent_example =
    env_alloc-Consistent (destroyed 2 full_kernel) 0 4096
      (destroyed-Consistent full_kernel 2 (omega arith) refl full-Consistent)

collect_zombie_leak_example :
    (collect_zombie 1 full_kernel).total_tickets % word
    ≡ (held_tickets ((collect_zombie 1 full_kernel).envs) + 30) % word
collect_zombie_leak_example = collect_zombie_leak full_kernel 1 (omega arith) refl full-Consistent

envid2env-reused_example :
    ((env_alloc 0 4096 (destroyed 2 full_kernel)).0 ≡ allocated 2)
    × (envid2env 4098 false ((env_alloc 0 4096 (destroyed 2 full_kernel)).1) ≡ bad_env)
envid2env-reused_example =
    envid2env-reused full_kernel 2 4096 false (omega arith) refl (omega arith) (omega arith)

reduce_priority-destroys_example : syscall halts (reduce_priority 0) 0 full_kernel ≡ (
    if 0 == 0
    then leaves (halts (destroyed 0 (sys_reduce_priority 0 0 full_kernel)))
    else error e_bad_env (sys_reduce_priority 0 0 full_kernel))
reduce_priority-destroys_example =
    reduce_priority-destroys halts full_kernel 0 0 refl (λ pos. omega arith)
