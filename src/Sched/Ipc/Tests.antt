-- ===== src/Sched/Ipc/Tests.antt =====
-- A message between two environments, and the theorems at it.
use tps_sistemas_operativos.Base.{ℕ, ◌≡◌, refl, false, none, some, [], ◌∷◌, arith}
use tps_sistemas_operativos.Sched.Env.{no_env, Status, running, runnable, Env}
use tps_sistemas_operativos.Sched.Ipc.{no_ipc, System, waits, failed, Pages, sys_ipc_recv}
use tps_sistemas_operativos.Sched.Pages.{utop}
use tps_sistemas_operativos.Sched.Ipc.Deliver.{
  Named, Delivery, sys_ipc_try_send-sys_ipc_recv, sys_ipc_recv_marks,
}
use tps_sistemas_operativos.Sched.Destroy.{e_inval}

abbrev env : ℕ → Status → Env
env id s = record no_env { env_id = id; env_status = s; tickets = 100 }

abbrev both : System
both = record {
  kernel = record {
    envs = env 4096 running ∷ env 5121 runnable ∷ [];
    env_free_list = none;
    curenv = some 0;
    halted = false;
    total_tickets = 200;
    prev_random = 1234;
    sched_calls = 0;
    boost_calls = 0;
    timer_int_counter = 0;
  };
  ipcs = no_ipc ∷ no_ipc ∷ [];
}

abbrev pages : Pages
pages = record { srcpte = none; allocs = 0; maps = 0 }

first-Named : Named (both.kernel) 0
first-Named = record { inside = omega arith; slot = refl; positive = omega arith }

sys_ipc_try_send-sys_ipc_recv_example :
    (s' : System) × (sys_ipc_recv 0 8192 both ≡ waits s') × Delivery s' 1 0 4096 42 utop 0 pages
sys_ipc_try_send-sys_ipc_recv_example =
    sys_ipc_try_send-sys_ipc_recv both 0 1 8192 42 utop 0 pages first-Named (omega arith)
      (omega arith) refl (omega arith)

sys_ipc_recv_marks_example :
    (s' : System) × (sys_ipc_recv 0 utop both ≡ failed e_inval s')
    × Delivery s' 1 0 4096 42 utop 0 pages
sys_ipc_recv_marks_example =
    sys_ipc_recv_marks both 0 1 utop 42 utop 0 pages first-Named refl (omega arith) (omega arith)
      (omega arith)
