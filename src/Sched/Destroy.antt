-- ===== src/Sched/Destroy.antt =====
-- The end of an environment: env_free and env_destroy of env.c and the zombie's case of trap.c; and the
-- system calls of syscall.c on environments.
pub mod FreeList
pub mod Counted
pub mod Priority
pub mod Reuse
mod Tests
use tps_sistemas_operativos.Base.{
  ℕ, zero, suc, ◌+◌, Bool, true, false, not, ◌&&◌, ◌||◌, Option, none, some, List, [], ◌∷◌, ◌==◌,
  if◌then◌else◌, sub32,
}
use tps_sistemas_operativos.Sched.Env.{
  Status, free, dying, runnable, not_runnable, is_running, is_dying, Env, Kernel, env_at, put_env,
  set_status, Found, bad_env, env_found, same_env, current_id, envid2env, Alloc, no_free_env,
  vm_error, allocated, env_alloc,
}
use tps_sistemas_operativos.Sched.Yield.{Outcome, sys_reduce_priority}

-- The slot returns to the free list. Its address space is not modelled.
unfoldable pub env_free : ℕ → Kernel → Kernel
env_free i k =
    record (put_env i (record (env_at k i) { env_status = free; env_link = k.env_free_list }) k) {
      env_free_list = some i;
    }

-- How a function of the kernel ends: it returns, or sched_yield leaves it. A read through NULL faults.
pub data Sys : Type 0 where
  value : ℕ → Kernel → Sys
  error : ℕ → Kernel → Sys
  leaves : Outcome → Sys
  fault : Sys

abbrev pub e_bad_env : ℕ
e_bad_env = 2

abbrev pub e_inval : ℕ
e_inval = 3

abbrev pub e_no_free_env : ℕ
e_no_free_env = 5

-- The state of env_destroy behind env_free, with `curenv = NULL` if that was the environment.
abbrev pub without : Bool → Kernel → Kernel
without true k = record k { curenv = none }
without false k = k

unfoldable pub destroyed : ℕ → Kernel → Kernel
destroyed i k =
    without (same_env (k.curenv) i)
      (env_free i (record k { total_tickets = sub32 (k.total_tickets) ((env_at k i).tickets) }))

-- `sched` is sched_yield under one of the two macros.
unfoldable pub env_destroy : (Kernel → Outcome) → ℕ → Kernel → Sys
env_destroy sched i k =
    if is_running ((env_at k i).env_status) && not (same_env (k.curenv) i)
    then value 0 (set_status i dying k)
    else if same_env (k.curenv) i
    then leaves (sched (destroyed i k))
    else value 0 (destroyed i k)

-- trap: the current environment is a zombie.
unfoldable pub collect_zombie : ℕ → Kernel → Kernel
collect_zombie c k = record (env_free c k) { curenv = none }

abbrev pub destroy_found : (Kernel → Outcome) → Found → Kernel → Sys
destroy_found sched bad_env k = error e_bad_env k
destroy_found sched (env_found none) k = fault
destroy_found sched (env_found (some i)) k = env_destroy sched i k

unfoldable pub sys_env_destroy : (Kernel → Outcome) → ℕ → Kernel → Sys
sys_env_destroy sched envid k = destroy_found sched (envid2env envid true k) k

abbrev pub forked : Alloc × Kernel → Sys
forked (no_free_env, k) = error e_no_free_env k
forked (vm_error r, k) = error r k
forked (allocated i, k) = value ((env_at k i).env_id) (set_status i not_runnable k)

-- `vm` is what env_setup_vm returns. The registers are not modelled.
unfoldable pub sys_exofork : ℕ → Kernel → Sys
sys_exofork vm k = forked (env_alloc vm (current_id k) k)

abbrev pub is_settable : Status → Bool
is_settable runnable = true
is_settable not_runnable = true
is_settable _ = false

abbrev pub set_found : Status → Found → Kernel → Sys
set_found s bad_env k = error e_bad_env k
set_found s (env_found none) k = fault
set_found s (env_found (some i)) k = value 0 (set_status i s k)

unfoldable pub sys_env_set_status : ℕ → Status → Kernel → Sys
sys_env_set_status envid s k =
    if is_settable s then set_found s (envid2env envid true k) k else error e_inval k

-- The calls of the dispatch on environments, with their arguments.
pub data Call : Type 0 where
  getenvid getpriority yield : Call
  reduce_priority env_destroy_of : ℕ → Call
  exofork : ℕ → Call
  env_set_status : ℕ → Status → Call

-- `c` is the slot of curenv. SYS_reduce_priority has no return: it goes on into SYS_env_destroy.
unfoldable pub syscall : (Kernel → Outcome) → Call → ℕ → Kernel → Sys
syscall sched getenvid c k = value ((env_at k c).env_id) k
syscall sched getpriority c k = value ((env_at k c).tickets) k
syscall sched yield c k = leaves (sched k)
syscall sched (reduce_priority a) c k = sys_env_destroy sched a (sys_reduce_priority c a k)
syscall sched (env_destroy_of a) c k = sys_env_destroy sched a k
syscall sched (exofork vm) c k = sys_exofork vm k
syscall sched (env_set_status a s) c k = sys_env_set_status a s k
