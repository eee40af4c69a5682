-- ===== src/Sched/Ipc/Deliver.antt =====
-- A message that goes from sys_ipc_try_send to an environment in sys_ipc_recv.
use tps_sistemas_operativos.Base.{
  ℕ, ◌%◌, ◌<◌, ◌≤◌, ◌≡◌, refl, true, false, length, length-set, arith, ◌==◌, eq→==, leb, ap, ◌∙◌,
  sym, get_or-set_self, some,
}
use tps_sistemas_operativos.Sched.Env.{
  no_env, Status, runnable, not_runnable, is_free, Env, Kernel, env_at, envx, set_status, env_found,
  envid2env,
}
use tps_sistemas_operativos.Sched.Env.Run.{field-set}
use tps_sistemas_operativos.Sched.Ipc.{
  Ipc, no_ipc, System, ipc_at, put_ipc, sent, failed, waits, e_ipc_not_recv, recving, waiting,
  sys_ipc_recv, Pages, bail, set_perm, send_to, send_found, sys_ipc_try_send,
}
use tps_sistemas_operativos.Sched.Pages.{utop, pgsize}
use tps_sistemas_operativos.Sched.Destroy.{e_inval}

-- The environment of slot i is in use, and its id is its own.
pub record Named (k : Kernel) (i : ℕ) : Type 0 where
  pub inside : i < length (k.envs)
  pub slot : envx ((env_at k i).env_id) ≡ i
  pub positive : 0 < (env_at k i).env_id

-- Slot i has got the message `value` of the environment in slot c, and can run.
pub record Got (s : System) (c i value : ℕ) : Type 0 where
  pub value_there : (ipc_at s i).env_ipc_value ≡ value
  pub from_sender : (ipc_at s i).env_ipc_from ≡ (env_at (s.kernel) c).env_id
  pub can_run : (env_at (s.kernel) i).env_status ≡ runnable
  pub no_page : (ipc_at s i).env_ipc_perm ≡ 0

found :
    (k : Kernel) (i : ℕ)
    → Named k i
    → is_free ((env_at k i).env_status) ≡ false
    → envid2env ((env_at k i).env_id) false k ≡ env_found (some i)
unfolding envid2env
found k i named busy =
    let id = (env_at k i).env_id in
    let slot = named.slot in
    let nonzero : (id == 0) ≡ false = ground (arith, named.positive) in
    let busy' : is_free ((env_at k (envx id)).env_status) ≡ false =
      ap (λ j. is_free ((env_at k j).env_status)) slot ∙ busy in
    let same : ((env_at k (envx id)).env_id == id) ≡ true =
      eq→== _ id (ap (λ j. (env_at k j).env_id) slot) in
    rw (nonzero, busy', same) (ap (λ j. env_found (some j)) slot)

-- The state behind `bail`.
abbrev delivered : ℕ → ℕ → ℕ → System → System
delivered c i value s =
    record (put_ipc i
      (record (ipc_at (set_perm i 0 s) i) {
        env_ipc_from = (env_at (s.kernel) c).env_id;
        env_ipc_recving = false;
        env_ipc_value = value;
      })
      (set_perm i 0 s)) { kernel = set_status i runnable (s.kernel) }

-- A status that is written leaves the ids, and the slot in use if the status is not ENV_FREE.
module _ (k : Kernel) (i : ℕ) (status : Status) where
  id-set_status : (j : ℕ) → (env_at (set_status i status k) j).env_id ≡ (env_at k j).env_id
  id-set_status j =
      field-set (λ e. e.env_id) (k.envs) i j (record (env_at k i) { env_status = status }) refl

  Named-set_status : Named k i → Named (set_status i status k) i
  Named-set_status named = record {
    inside =
        omega (
          arith,
          named.inside,
          length-set (k.envs) i (record (env_at k i) { env_status = status }),
        );
    slot = ap envx (id-set_status i) ∙ named.slot;
    positive = omega (arith, named.positive, id-set_status i);
  }

  status-set_status : Named k i → (env_at (set_status i status k) i).env_status ≡ status
  status-set_status named =
      ap (λ (e : Env). e.env_status)
        (get_or-set_self (k.envs) i (record (env_at k i) { env_status = status }) no_env
          (named.inside))

module _ (s : System) (i c value : ℕ) (named : Named (s.kernel) i)
    (inside : i < length (s.ipcs)) where
  ipc-delivered : ipc_at (delivered c i value s) i ≡ record (ipc_at (set_perm i 0 s) i) {
    env_ipc_from = (env_at (s.kernel) c).env_id;
    env_ipc_recving = false;
    env_ipc_value = value;
  }
  ipc-delivered =
      get_or-set_self ((set_perm i 0 s).ipcs) i _ no_ipc
        (omega (arith, inside, length-set (s.ipcs) i (record (ipc_at s i) { env_ipc_perm = 0 })))

  delivered-Got : Got (delivered c i value s) c i value
  delivered-Got = record {
    value_there = ap (λ (x : Ipc). x.env_ipc_value) ipc-delivered;
    from_sender =
        ap (λ (x : Ipc). x.env_ipc_from) ipc-delivered
        ∙ sym (id-set_status (s.kernel) i runnable c);
    can_run = status-set_status (s.kernel) i runnable named;
    no_page =
        ap (λ (x : Ipc). x.env_ipc_perm) ipc-delivered
        ∙ ap (λ (x : Ipc). x.env_ipc_perm) (get_or-set_self (s.ipcs) i _ no_ipc inside);
  }

  -- The next message is refused.
  again :
      (srcva perm : ℕ) (pages : Pages) (v : ℕ)
      → send_to c i v srcva perm pages (delivered c i value s)
        ≡ failed e_ipc_not_recv (delivered c i value s)
  unfolding send_to
  again srcva perm pages v =
      let idle : (ipc_at (delivered c i value s) i).env_ipc_recving ≡ false =
        ap (λ (x : Ipc). x.env_ipc_recving) ipc-delivered in
      rw idle refl

  accepts :
      (srcva perm : ℕ) (pages : Pages)
      → (ipc_at s i).env_ipc_recving ≡ true
      → utop ≤ srcva
      → send_to c i value srcva perm pages s ≡ sent (delivered c i value s)
  unfolding send_to bail
  accepts srcva perm pages ready high =
      let is_high : leb utop srcva ≡ true = ground arith in rw (ready, is_high) refl

-- A message to `envid` succeeds, its receiver has it, and the same message again is refused.
pub Delivery : System → ℕ → ℕ → ℕ → ℕ → ℕ → ℕ → Pages → Type 0
Delivery s c i envid value srcva perm pages =
    (s' : System) × (sys_ipc_try_send c envid value srcva perm pages s ≡ sent s')
    × Got s' c i value
    × (sys_ipc_try_send c envid value srcva perm pages s' ≡ failed e_ipc_not_recv s')

module _ (s : System) (i c envid value srcva perm : ℕ) (pages : Pages) where
  finds :
      (k : Kernel)
      → Named k i
      → is_free ((env_at k i).env_status) ≡ false
      → (env_at k i).env_id ≡ envid
      → envid2env envid false k ≡ env_found (some i)
  finds k named busy is_id = ap (λ j. envid2env j false k) (sym is_id) ∙ found k i named busy

  -- An environment in use that is marked as receiving gets the message.
  receiving-Delivery :
      Named (s.kernel) i
      → (env_at (s.kernel) i).env_id ≡ envid
      → is_free ((env_at (s.kernel) i).env_status) ≡ false
      → i < length (s.ipcs)
      → (ipc_at s i).env_ipc_recving ≡ true
      → utop ≤ srcva
      → Delivery s c i envid value srcva perm pages
  unfolding Delivery sys_ipc_try_send send_found
  receiving-Delivery named is_id busy inside ready high =
      let k' = set_status i runnable (s.kernel) in
      let finds' =
        finds k' (Named-set_status (s.kernel) i runnable named)
          (ap is_free (status-set_status (s.kernel) i runnable named))
          (id-set_status (s.kernel) i runnable i ∙ is_id) in
      (
        delivered c i value s,
        ap (λ f. send_found f c value srcva perm pages s) (finds (s.kernel) named busy is_id)
            ∙ accepts s i c value named inside srcva perm pages ready high,
        delivered-Got s i c value named inside,
        ap (λ f. send_found f c value srcva perm pages (delivered c i value s)) finds'
            ∙ again s i c value named inside srcva perm pages value,
      )

module _ (s : System) (i : ℕ) (inside : i < length (s.ipcs)) where
  recving-ready : (ipc_at (recving i s) i).env_ipc_recving ≡ true
  recving-ready = ap (λ (x : Ipc). x.env_ipc_recving) (get_or-set_self (s.ipcs) i _ no_ipc inside)

  recving-inside : i < length ((recving i s).ipcs)
  recving-inside =
      omega (arith, inside, length-set (s.ipcs) i (record (ipc_at s i) { env_ipc_recving = true }))

  waiting-inside : (dstva : ℕ) → i < length ((waiting i dstva (recving i s)).ipcs)
  waiting-inside dstva = omega (
    arith,
    recving-inside,
    length-set ((recving i s).ipcs) i (record (ipc_at (recving i s) i) { env_ipc_dstva = dstva }),
  )

  waiting-ready : (dstva : ℕ) → (ipc_at (waiting i dstva (recving i s)) i).env_ipc_recving ≡ true
  waiting-ready dstva =
      ap (λ (x : Ipc). x.env_ipc_recving)
        (get_or-set_self ((recving i s).ipcs) i _ no_ipc recving-inside)
      ∙ recving-ready

-- sys_ipc_recv with a page-aligned address below UTOP leaves the caller waiting. A message without a page
-- (an address from UTOP on) then succeeds: the receiver has the value, the sender's id and no page, it can run,
-- and the same message again returns -E_IPC_NOT_RECV.
pub sys_ipc_try_send-sys_ipc_recv :
    (s : System) (i c dstva value srcva perm : ℕ) (pages : Pages)
    → Named (s.kernel) i
    → i < length (s.ipcs)
    → dstva < utop
    → dstva % pgsize ≡ 0
    → utop ≤ srcva
    → (s' : System) × (sys_ipc_recv i dstva s ≡ waits s')
      × Delivery s' c i ((env_at (s.kernel) i).env_id) value srcva perm pages
unfolding sys_ipc_recv
sys_ipc_try_send-sys_ipc_recv s i c dstva value srcva perm pages named inside low aligned high =
    let is_low : leb utop dstva ≡ false = ground arith in
    let is_aligned : (dstva % pgsize == 0) ≡ true = eq→== (dstva % pgsize) 0 aligned in
    (
      waiting i dstva (recving i s),
      rw (is_low, is_aligned) refl,
      receiving-Delivery (waiting i dstva (recving i s)) i c ((env_at (s.kernel) i).env_id) value
          srcva perm pages (Named-set_status (s.kernel) i not_runnable named)
          (id-set_status (s.kernel) i not_runnable i)
          (ap is_free (status-set_status (s.kernel) i not_runnable named))
          (waiting-inside s i inside dstva) (waiting-ready s i inside dstva) high,
    )

-- sys_ipc_recv with an address from UTOP on returns -E_INVAL and leaves the caller marked as receiving:
-- a message without a page still succeeds and overwrites the IPC fields and the status of the caller.
pub sys_ipc_recv_marks :
    (s : System) (i c dstva value srcva perm : ℕ) (pages : Pages)
    → Named (s.kernel) i
    → is_free ((env_at (s.kernel) i).env_status) ≡ false
    → i < length (s.ipcs)
    → utop ≤ dstva
    → utop ≤ srcva
    → (s' : System) × (sys_ipc_recv i dstva s ≡ failed e_inval s')
      × Delivery s' c i ((env_at (s.kernel) i).env_id) value srcva perm pages
unfolding sys_ipc_recv
sys_ipc_recv_marks s i c dstva value srcva perm pages named busy inside high_dst high =
    let is_high : leb utop dstva ≡ true = ground arith in
    (
      recving i s,
      rw is_high refl,
      receiving-Delivery (recving i s) i c ((env_at (s.kernel) i).env_id) value srcva perm pages
          named refl busy (recving-inside s i inside) (recving-ready s i inside) high,
    )
