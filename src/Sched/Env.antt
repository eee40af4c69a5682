-- ===== src/Sched/Env.antt =====
-- `struct Env`, the table `envs` and the scheduler's globals, as one CPU sees them under the big
-- kernel lock; and the functions of env.c that the scheduler's state goes through.
pub mod Run
use tps_sistemas_operativos.Base.{
  ℕ, zero, suc, ◌+◌, ◌-◌, ◌*◌, ◌/◌, ◌%◌, Bool, true, false, not, ◌&&◌, ◌||◌, Option, none, some,
  List, ◌==◌, if◌then◌else◌, get_or, set, add32, signed_leb,
}

abbrev pub nenv : ℕ
nenv = 1024

-- ENVX
abbrev pub envx : ℕ → ℕ
envx envid = envid % nenv

pub data Status : Type 0 where
  free dying runnable running not_runnable : Status

abbrev pub is_runnable : Status → Bool
is_runnable runnable = true
is_runnable _ = false

abbrev pub is_running : Status → Bool
is_running running = true
is_running _ = false

abbrev pub is_active : Status → Bool
is_active s = is_runnable s || is_running s

abbrev pub is_dying : Status → Bool
is_dying dying = true
is_dying _ = false

abbrev pub is_free : Status → Bool
is_free free = true
is_free _ = false

-- The fields that the scheduler reads or writes. An `int` is its bit pattern.
pub record Env : Type 0 where
  pub env_link : Option ℕ
  pub env_id : ℕ
  pub env_parent_id : ℕ
  pub env_status : Status
  pub env_runs : ℕ
  pub tickets : ℕ

-- An entry outside the table is never read by the code.
abbrev pub no_env : Env
no_env = record {
  env_link = none;
  env_id = 0;
  env_parent_id = 0;
  env_status = free;
  env_runs = 0;
  tickets = 0;
}

pub record Kernel : Type 0 where
  pub envs : List Env
  pub env_free_list : Option ℕ
  pub curenv : Option ℕ
  pub halted : Bool
  pub total_tickets : ℕ
  pub prev_random : ℕ
  pub sched_calls : ℕ
  pub boost_calls : ℕ
  pub timer_int_counter : ℕ

-- `envs[i]`
abbrev pub env_at : Kernel → ℕ → Env
env_at k i = get_or k.envs i no_env

abbrev pub put_env : ℕ → Env → Kernel → Kernel
put_env i e k = record k { envs = set k.envs i e }

abbrev pub set_status : ℕ → Status → Kernel → Kernel
set_status i s k = put_env i (record (env_at k i) { env_status = s }) k

-- What `envid2env` stores and returns; `bad_env` is -E_BAD_ENV.
pub data Found : Type 0 where
  bad_env : Found
  env_found : Option ℕ → Found

abbrev pub same_env : Option ℕ → ℕ → Bool
same_env none i = false
same_env (some c) i = c == i

-- `curenv->env_id`; the code reads it only while an environment runs.
abbrev pub current_id : Kernel → ℕ
current_id k = elim k.curenv [ none ↦ 0 | some c ↦ (env_at k c).env_id ]

unfoldable pub envid2env : ℕ → Bool → Kernel → Found
envid2env envid checkperm k =
    if envid == 0
    then env_found k.curenv
    else let e = env_at k (envx envid) in
      if is_free e.env_status || not (e.env_id == envid)
      then bad_env
      else if checkperm
          && not (same_env k.curenv (envx envid))
          && not (e.env_parent_id == current_id k)
      then bad_env
      else env_found (some (envx envid))

-- The loop of `env_init` over the slots from `i` on, `n` of them.
init_from : ℕ → ℕ → List Env → List Env
init_from zero i envs = envs
init_from (suc n) i envs = init_from n (i + 1) (
    set envs i
      (record (get_or envs i no_env) { env_id = 0; env_status = free; env_link = some (i + 1) }))

unfoldable pub env_init : Kernel → Kernel
unfolding init_from
env_init k =
    let envs = init_from nenv 0 k.envs in
    record k {
      envs = set envs (nenv - 1) (record (get_or envs (nenv - 1) no_env) { env_link = none });
      env_free_list = some 0;
    }

-- What `env_alloc` returns: -E_NO_FREE_ENV, the error of `env_setup_vm`, or the slot.
pub data Alloc : Type 0 where
  no_free_env : Alloc
  vm_error : ℕ → Alloc
  allocated : ℕ → Alloc

-- `(env_id + (1 << 12)) & ~(NENV - 1)`, and 1 << 12 if that is not positive as an `int32_t`.
unfoldable pub generation : ℕ → ℕ
generation env_id = let g = add32 env_id 4096 / nenv * nenv in if signed_leb g 0 then 4096 else g

unfoldable pub new_env : ℕ → ℕ → Env → Env
unfolding generation
new_env i parent_id e = record {
  env_link = e.env_link;
  env_id = generation e.env_id + i;
  env_parent_id = parent_id;
  env_status = runnable;
  env_runs = 0;
  tickets = 100;
}

-- `vm` is what `env_setup_vm` returns for the slot at the head of the free list.
unfoldable pub alloc_head : Option ℕ → ℕ → ℕ → Kernel → Alloc × Kernel
unfolding new_env
alloc_head none vm parent_id k = (no_free_env, k)
alloc_head (some i) vm parent_id k =
    if vm == 0
    then (
      allocated i,
      record (put_env i (new_env i parent_id (env_at k i)) k) {
        total_tickets = add32 k.total_tickets 100;
        env_free_list = (env_at k i).env_link;
      },
    )
    else (vm_error vm, k)

unfoldable pub env_alloc : ℕ → ℕ → Kernel → Alloc × Kernel
unfolding alloc_head
env_alloc vm parent_id k = alloc_head k.env_free_list vm parent_id k

-- `if (curenv != NULL && curenv->env_status == ENV_RUNNING)` of `env_run`
preempt : Option ℕ → Kernel → Kernel
preempt none k = k
preempt (some c) k = if is_running (env_at k c).env_status then set_status c runnable k else k

-- An environment as `env_run` enters it.
abbrev pub entered : Env → Env
entered e = record e { env_status = running; env_runs = add32 e.env_runs 1 }

-- `env_run` does not return: the state in which it enters the environment.
unfoldable pub env_run : ℕ → Kernel → Kernel
unfolding preempt
env_run i k =
    let k' = preempt k.curenv k in record (put_env i (entered (env_at k' i)) k') { curenv = some i }
