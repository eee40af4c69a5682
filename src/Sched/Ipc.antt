-- ===== src/Sched/Ipc.antt =====
-- The messages between environments: sys_ipc_recv and sys_ipc_try_send of syscall.c, and the IPC fields of
-- `struct Env`.
pub mod Deliver
mod Tests
use tps_sistemas_operativos.Base.{
  ℕ, ◌+◌, ◌/◌, ◌%◌, Bool, true, false, not, ◌&&◌, ◌||◌, Option, none, some, List, ◌==◌, leb,
  if◌then◌else◌, get_or, set,
}
use tps_sistemas_operativos.Sched.Env.{
  runnable, not_runnable, Kernel, env_at, set_status, Found, bad_env, env_found, envid2env,
}
use tps_sistemas_operativos.Sched.Destroy.{e_bad_env, e_inval}
use tps_sistemas_operativos.Sched.Pages.{utop, pgsize}

abbrev pub e_ipc_not_recv : ℕ
e_ipc_not_recv = 7

pub record Ipc : Type 0 where
  pub env_ipc_recving : Bool
  pub env_ipc_dstva : ℕ
  pub env_ipc_value : ℕ
  pub env_ipc_from : ℕ
  pub env_ipc_perm : ℕ

abbrev pub no_ipc : Ipc
no_ipc = record {
  env_ipc_recving = false;
  env_ipc_dstva = 0;
  env_ipc_value = 0;
  env_ipc_from = 0;
  env_ipc_perm = 0;
}

-- The kernel, and the IPC fields of `envs[i]` at place i.
pub record System : Type 0 where
  pub kernel : Kernel
  pub ipcs : List Ipc

abbrev pub ipc_at : System → ℕ → Ipc
ipc_at s i = get_or (s.ipcs) i no_ipc

abbrev pub put_ipc : ℕ → Ipc → System → System
put_ipc i x s = record s { ipcs = set (s.ipcs) i x }

-- A call returns 0 or an error, or it goes to sched_yield. A read through NULL or a pointer that
-- was never set has no outcome.
pub data Reply : Type 0 where
  sent : System → Reply
  failed : ℕ → System → Reply
  waits : System → Reply
  faults : Reply

abbrev pub recving : ℕ → System → System
recving c s = put_ipc c (record (ipc_at s c) { env_ipc_recving = true }) s

abbrev pub waiting : ℕ → ℕ → System → System
waiting c dstva s = record (put_ipc c (record (ipc_at s c) { env_ipc_dstva = dstva }) s) {
  kernel = set_status c not_runnable (s.kernel);
}

-- `c` is the slot of curenv.
unfoldable pub sys_ipc_recv : ℕ → ℕ → System → Reply
sys_ipc_recv c dstva s =
    if leb utop dstva || not (dstva % pgsize == 0)
    then failed e_inval (recving c s)
    else waits (waiting c dstva (recving c s))

-- PTE_P, PTE_W and PTE_U of a table entry or of permissions.
abbrev pub is_present : ℕ → Bool
is_present pte = pte % 2 == 1

abbrev pub is_writeable : ℕ → Bool
is_writeable pte = pte / 2 % 2 == 1

-- `perm | PTE_U | PTE_P`
abbrev pub user_present : ℕ → ℕ
user_present perm = perm + (if is_present perm then 0 else 1) + (if perm / 4 % 2 == 1 then 0 else 4)

-- What the page tables answer: the entry that page_lookup stores, if it stores one, and what
-- env_page_alloc and env_page_map return.
pub record Pages : Type 0 where
  pub srcpte : Option ℕ
  pub allocs : ℕ
  pub maps : ℕ

-- From the label `bail` on.
unfoldable pub bail : ℕ → ℕ → ℕ → System → Reply
bail c i value s =
    sent
      (record (put_ipc i
        (record (ipc_at s i) {
          env_ipc_from = (env_at (s.kernel) c).env_id;
          env_ipc_recving = false;
          env_ipc_value = value;
        })
        s) { kernel = set_status i runnable (s.kernel) })

abbrev pub set_perm : ℕ → ℕ → System → System
set_perm i perm s = put_ipc i (record (ipc_at s i) { env_ipc_perm = perm }) s

-- The page goes to the address that the receiver gave, unless that is 0.
unfoldable pub send_page : ℕ → ℕ → ℕ → ℕ → Pages → System → Reply
unfolding bail
send_page c i value perm pages s =
    if (ipc_at s i).env_ipc_dstva == 0
    then bail c i value s
    else if not (pages.allocs == 0)
    then failed (pages.allocs) s
    else if not (pages.maps == 0)
    then failed (pages.maps) s
    else bail c i value (set_perm i (user_present perm) s)

check_page : Option ℕ → ℕ → ℕ → ℕ → ℕ → Pages → System → Reply
unfolding send_page
check_page none c i value perm pages s = faults
check_page (some pte) c i value perm pages s =
    if not (pte == 0) && not (is_present pte)
    then failed e_inval s
    else if is_writeable perm && not (is_writeable pte)
    then failed e_inval s
    else send_page c i value perm pages s

unfoldable pub send_to : ℕ → ℕ → ℕ → ℕ → ℕ → Pages → System → Reply
unfolding check_page bail
send_to c i value srcva perm pages s =
    if not ((ipc_at s i).env_ipc_recving)
    then failed e_ipc_not_recv s
    else if leb utop srcva
    then bail c i value (set_perm i 0 s)
    else if not (srcva % pgsize == 0)
    then failed e_inval s
    else check_page (pages.srcpte) c i value perm pages s

unfoldable pub send_found : Found → ℕ → ℕ → ℕ → ℕ → Pages → System → Reply
unfolding send_to
send_found bad_env c value srcva perm pages s = failed e_bad_env s
send_found (env_found none) c value srcva perm pages s = faults
send_found (env_found (some i)) c value srcva perm pages s = send_to c i value srcva perm pages s

unfoldable pub sys_ipc_try_send : ℕ → ℕ → ℕ → ℕ → ℕ → Pages → System → Reply
unfolding send_found
sys_ipc_try_send c envid value srcva perm pages s =
    send_found (envid2env envid false (s.kernel)) c value srcva perm pages s
