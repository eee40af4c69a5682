-- ===== src/Sched/Tests.antt =====
-- Runs of the scheduler on a table of two environments, and the theorems at it.
use tps_sistemas_operativos.Base.{
  inr, ℕ, zero, suc, ◌<◌, ◌≡◌, refl, true, false, ◌⊎◌, none, some, List, [], ◌∷◌, arith, ◌%◌, word,
  half_word, replicate, get_or,
}
use tps_sistemas_operativos.Sched.Env.{
  nenv, envx, no_env, Status, runnable, running, is_active, Env, Kernel, env_at, envid2env, env_run,
  bad_env,
}
use tps_sistemas_operativos.Sched.Yield.{
  runs, counted, get_next_runnable_process, sched_yield_rr, lottery, sched_boost,
}
use tps_sistemas_operativos.Sched.Yield.RoundRobin.{IsTable, turns, contains, rr_fair}
use tps_sistemas_operativos.Sched.Yield.Tickets.{active_tickets, sched_boost_total}
use tps_sistemas_operativos.Sched.Yield.Winner.{NoneRunnable, IsWinner, tickets_of, lottery_lem}

abbrev env : ℕ → Status → ℕ → Env
env id s tickets = record no_env { env_id = id; env_status = s; tickets = tickets }

abbrev table : List Env
table = env 4096 running 50 ∷ env 4097 runnable 30 ∷ env 4098 runnable 20 ∷ replicate 1021 no_env

abbrev kernel : Kernel
kernel = record {
  envs = table;
  env_free_list = some 3;
  curenv = some 0;
  halted = false;
  total_tickets = 100;
  prev_random = 1234;
  sched_calls = 0;
  boost_calls = 0;
  timer_int_counter = 0;
}

spare_ids : (n i : ℕ) → is_active (get_or (replicate n no_env) i no_env).env_status ≡ true → ⊥
spare_ids zero i h = cc
spare_ids (suc n) zero h = cc
spare_ids (suc n) (suc i) h = spare_ids n i h

table_ids :
    (i : ℕ)
    → i < nenv
    → is_active (get_or table i no_env).env_status ≡ true
    → envx (get_or table i no_env).env_id ≡ i
table_ids zero small act = refl
table_ids (suc zero) small act = refl
table_ids (suc (suc zero)) small act = refl
table_ids (suc (suc (suc i))) small act = absurd (spare_ids 1021 i act)

kernel-IsTable : IsTable kernel
kernel-IsTable = record { full = refl; ids = table_ids }

runs_next : (sched_yield_rr kernel) ≡ runs 1 (env_run 1 (counted kernel))
unfolding sched_yield_rr get_next_runnable_process
runs_next = refl

rr_fair_example : contains 2 (turns nenv kernel) ≡ true
rr_fair_example =
    rr_fair kernel 2 kernel-IsTable (inr (0, omega arith, refl, refl)) (omega arith) refl

stale_id : envid2env 5121 false kernel ≡ bad_env
unfolding envid2env
stale_id = refl

draws_second : lottery 31 table 0 0 none ≡ some 2
unfolding lottery
draws_second = refl

abbrev two : List Env
two = env 4097 runnable 30 ∷ env 4098 runnable 20 ∷ []

two_small : tickets_of two < half_word
unfolding tickets_of
two_small = omega arith

lottery_lem_example :
    NoneRunnable two × (lottery 31 two 0 0 none ≡ none)
    ⊎ IsWinner 31 0 0 two (lottery 31 two 0 0 none)
lottery_lem_example = lottery_lem 31 two none (omega arith) two_small

sched_boost_total_example :
    ((sched_boost kernel).total_tickets % word ≡ active_tickets (sched_boost kernel).envs % word)
    × ((i : ℕ)
        → is_active (env_at (sched_boost kernel) i).env_status ≡ true
        → (env_at (sched_boost kernel) i).tickets ≡ 100)
    × ((i : ℕ)
        → is_active (env_at kernel i).env_status ≡ false
        → env_at (sched_boost kernel) i ≡ env_at kernel i)
sched_boost_total_example = sched_boost_total kernel
