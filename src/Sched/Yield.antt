-- ===== src/Sched/Yield.antt =====
-- sched.c, and the timer interrupt of `trap_dispatch`.
pub mod RoundRobin
pub mod Tickets
pub mod Winner
use tps_sistemas_operativos.Base.{
  ℕ, zero, suc, ◌+◌, ◌-◌, ◌*◌, ◌/◌, ◌%◌, ◌^◌, Bool, true, false, ◌||◌, Option, none, some, List, [],
  ◌∷◌, ◌==◌, if◌then◌else◌, get_or, add32, sub32, mul32, signed_leb, signed_ltb, signed_div,
}
use tps_sistemas_operativos.Sched.Env.{
  nenv, envx, no_env, Status, is_runnable, is_running, is_dying, is_active, Env, Kernel, env_at,
  put_env, env_run,
}

-- How `sched_yield` leaves the kernel.
pub data Outcome : Type 0 where
  -- into the environment of that index
  runs : ℕ → Kernel → Outcome
  -- the CPU waits for an interrupt
  halts : Kernel → Outcome
  -- into the kernel monitor, for good
  monitors : Kernel → Outcome

-- The slot that `get_next_runnable_process` runs, among the `n` from `pos` on.
unfoldable pub get_next_runnable_process : List Env → ℕ → ℕ → Option ℕ
get_next_runnable_process envs zero pos = none
get_next_runnable_process envs (suc n) pos =
    let rest = get_next_runnable_process envs n (pos + 1) in
    if is_runnable (get_or envs pos no_env).env_status then some pos else rest

-- The loop of `sched_halt` that looks for an environment that is alive.
any_alive : List Env → Bool
any_alive [] = false
any_alive (e ∷ es) =
    is_runnable e.env_status || is_running e.env_status || is_dying e.env_status || any_alive es

unfoldable pub sched_halt : Kernel → Outcome
unfolding any_alive
sched_halt k =
    if any_alive k.envs then halts (record k { curenv = none; halted = true }) else monitors k

abbrev pub counted : Kernel → Kernel
counted k = record k { sched_calls = add32 k.sched_calls 1 }

-- `if (idle && idle->env_status == ENV_RUNNING) env_run(idle);`
run_idle : Option ℕ → Kernel → Outcome
run_idle none k = sched_halt k
run_idle (some c) k =
    if is_running (env_at k c).env_status then runs c (env_run c k) else sched_halt k

-- The slot behind the current environment.
pos_behind : Option ℕ → Kernel → ℕ
pos_behind none k = 0
pos_behind (some c) k = envx (env_at k c).env_id + 1

unfoldable pub start_pos : Kernel → ℕ
unfolding pos_behind
start_pos k = pos_behind k.curenv k

run_second : Option ℕ → Kernel → Outcome
run_second (some i) k = runs i (env_run i k)
run_second none k = run_idle k.curenv k

run_first : Option ℕ → Kernel → Outcome
unfolding run_second run_idle sched_halt
run_first (some i) k = runs i (env_run i k)
run_first none k = run_second (get_next_runnable_process k.envs (start_pos k) 0) k

-- `sched_yield` under SCHED_ROUND_ROBIN.
unfoldable pub sched_yield_rr : Kernel → Outcome
unfolding run_first start_pos
sched_yield_rr k =
    run_first (get_next_runnable_process k.envs (nenv - start_pos k) (start_pos k)) (counted k)

-- The constants of `generate_pseudorandom_value`.
abbrev pub rand_a : ℕ
rand_a = 4294967296

abbrev pub rand_c : ℕ
rand_c = 1013904223

abbrev pub rand_m : ℕ
rand_m = 1664525

-- `(a * prev_random + c) % m` in 64 bits; a negative `prev_random` would be sign-extended.
unfoldable pub random : ℕ → ℕ
random prev_random = (rand_a * prev_random + rand_c) % 2 ^ 64 % rand_m

unfoldable pub generate_pseudorandom_value : Kernel → ℕ × Kernel
unfolding random
generate_pseudorandom_value k = (
  mul32 (random k.prev_random) k.total_tickets / rand_m,
  record k { prev_random = random k.prev_random },
)

-- The loop of `sched_yield` over the slots from `i` on.
unfoldable pub lottery : ℕ → List Env → ℕ → ℕ → Option ℕ → Option ℕ
lottery winner [] i counter idle = idle
lottery winner (e ∷ es) i counter idle =
    let counter' = add32 counter e.tickets in
    let next = lottery winner es (i + 1) counter' (some i) in
    let skip = lottery winner es (i + 1) counter idle in
    if is_runnable e.env_status then (if signed_leb winner counter' then some i else next) else skip

-- `curenv`, if it is running.
idle_env : Option ℕ → Kernel → Option ℕ
idle_env none k = none
idle_env (some c) k = if is_running (env_at k c).env_status then some c else none

run_winner : Option ℕ → Kernel → Outcome
run_winner none k = sched_halt k
run_winner (some i) k = runs i (env_run i k)

-- `sched_yield` under SCHED_PROPORTIONAL_SHARE.
unfoldable pub sched_yield : Kernel → Outcome
unfolding run_winner idle_env sched_halt
sched_yield k =
    let (winner, k') = generate_pseudorandom_value (counted k) in
    run_winner (lottery winner k'.envs 0 0 (idle_env k.curenv k)) k'

abbrev pub put_tickets : ℕ → ℕ → Kernel → Kernel
put_tickets i t k = put_env i (record (env_at k i) { tickets = t }) k

-- The body of `reduce_current_env_prio` at the slot of `curenv`.
unfoldable pub reduce_prio : ℕ → Kernel → Kernel
reduce_prio c k =
    let t = (env_at k c).tickets in
    if signed_ltb 10 t
    then record (put_tickets c (sub32 t 10) k) { total_tickets = sub32 k.total_tickets 10 }
    else record (put_tickets c 1 k) { total_tickets = sub32 k.total_tickets (sub32 t 1) }

unfoldable pub reduce_current_env_prio : Kernel → Kernel
reduce_current_env_prio k = elim k.curenv [ none ↦ k | some c ↦ reduce_prio c k ]

-- The loop of `sched_boost`: the table, and `total_tickets` from `total` on.
unfoldable pub boost_envs : List Env → List Env
boost_envs [] = []
boost_envs (e ∷ es) =
    (if is_active e.env_status then record e { tickets = 100 } else e) ∷ boost_envs es

unfoldable pub boost_total : ℕ → List Env → ℕ
boost_total total [] = total
boost_total total (e ∷ es) =
    boost_total (if is_active e.env_status then add32 total 100 else total) es

unfoldable pub sched_boost : Kernel → Kernel
sched_boost k = record k {
  boost_calls = add32 k.boost_calls 1;
  envs = boost_envs k.envs;
  total_tickets = boost_total 0 k.envs;
}

-- The syscall `sys_reduce_priority` at the slot of `curenv`.
unfoldable pub sys_reduce_priority : ℕ → ℕ → Kernel → Kernel
sys_reduce_priority c relative_percent k =
    let t = (env_at k c).tickets in
    let n = signed_div (mul32 t relative_percent) 100 in
    if signed_ltb 0 n
    then record (put_tickets c (sub32 t n) k) { total_tickets = sub32 k.total_tickets n }
    else record (put_tickets c 1 k) { total_tickets = sub32 k.total_tickets (sub32 t 1) }

-- `timer_int_counter++; if (timer_int_counter == INTS2BOOST) …`
abbrev pub ints2boost : ℕ
ints2boost = 10

count_interrupt : Kernel → Kernel
count_interrupt k =
    let n = add32 k.timer_int_counter 1 in
    if n == ints2boost
    then sched_boost (record k { timer_int_counter = 0 })
    else record k { timer_int_counter = n }

-- IRQ_TIMER under SCHED_PROPORTIONAL_SHARE.
unfoldable pub timer_interrupt : Kernel → Outcome
unfolding count_interrupt
timer_interrupt k = sched_yield (count_interrupt (reduce_current_env_prio k))
