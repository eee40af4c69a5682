-- ===== src/Sched/Env/Run.antt =====
-- What `env_run` does to the status and the ids of the environments.
use tps_sistemas_operativos.Base.{
  ℕ, zero, suc, ◌<◌, ◌≡◌, ◌≢◌, refl, sym, ◌∙◌, ap, Bool, true, inl, inr, Bool-cases, Option, none,
  some, List, [], ◌∷◌, arith, length, length-set, get_or, set, get_or-set_self, get_or-set_ne,
}
use tps_sistemas_operativos.Sched.Env.{
  no_env, running, runnable, is_runnable, is_running, is_active, Env, Kernel, env_at, set_status,
  preempt, entered, env_run,
}

-- A write that keeps a field of the entry keeps that field everywhere.
pub field-set {ℓ} :
    {B : Type ℓ} (f : Env → B) (xs : List Env) (c i : ℕ) (v : Env)
    → f v ≡ f (get_or xs c no_env)
    → f (get_or (set xs c v) i no_env) ≡ f (get_or xs i no_env)
field-set f [] c i v e = refl
field-set f (x ∷ xs) zero zero v e = e
field-set f (x ∷ xs) zero (suc i) v e = refl
field-set f (x ∷ xs) (suc c) zero v e = refl
field-set f (x ∷ xs) (suc c) (suc i) v e = field-set f xs c i v e

-- A write of an entry that passes a test makes no entry fail it.
pub keeps-set :
    (f : Env → Bool) (xs : List Env) (c i : ℕ) (v : Env)
    → f v ≡ true
    → f (get_or xs i no_env) ≡ true
    → f (get_or (set xs c v) i no_env) ≡ true
keeps-set f [] c i v e h = h
keeps-set f (x ∷ xs) zero zero v e h = e
keeps-set f (x ∷ xs) zero (suc i) v e h = h
keeps-set f (x ∷ xs) (suc c) zero v e h = h
keeps-set f (x ∷ xs) (suc c) (suc i) v e h = keeps-set f xs c i v e h

abbrev active_entry : Env → Bool
active_entry e = is_active e.env_status

abbrev runnable_entry : Env → Bool
runnable_entry e = is_runnable e.env_status

-- What holds of both states that `preempt` may leave.
preempt-cases {ℓ} :
    (P : Kernel → Type ℓ) (o : Option ℕ) (k : Kernel)
    → P k
    → ((c : ℕ) → is_running (env_at k c).env_status ≡ true → P (set_status c runnable k))
    → P (preempt o k)
unfolding preempt
preempt-cases P none k same other = same
preempt-cases P (some c) k same other = elim (Bool-cases (is_running (env_at k c).env_status)) [
  | inl is ↦ rw is (other c is)
  | inr not ↦ rw not same
]

module _ (k : Kernel) (j : ℕ) where
  pub length-env_run : length (env_run j k).envs ≡ length k.envs
  unfolding env_run
  length-env_run =
      preempt-cases (λ k'. length (set k'.envs j (entered (env_at k' j))) ≡ length k.envs) k.curenv
        k (length-set k.envs j _) (λ c is. length-set _ j _ ∙ length-set k.envs c _)

  pub env_id-env_run : (i : ℕ) → (env_at (env_run j k) i).env_id ≡ (env_at k i).env_id
  unfolding env_run
  env_id-env_run i =
      preempt-cases
        (λ k'.
          (get_or (set k'.envs j (entered (env_at k' j))) i no_env).env_id ≡ (env_at k i).env_id)
        k.curenv k (field-set (λ e. e.env_id) k.envs j i (entered (env_at k j)) refl)
        (λ c is.
          field-set (λ e. e.env_id) (set_status c runnable k).envs j i
            (entered (env_at (set_status c runnable k) j)) refl
          ∙ field-set (λ e. e.env_id) k.envs c i (record (env_at k c) { env_status = runnable })
              refl)

  -- A runnable environment other than the one that is run stays runnable.
  pub Runnable-env_run :
      (i : ℕ)
      → j ≢ i
      → is_runnable (env_at k i).env_status ≡ true
      → is_runnable (env_at (env_run j k) i).env_status ≡ true
  unfolding env_run
  Runnable-env_run i ne ready =
      preempt-cases
        (λ k'. runnable_entry (get_or (set k'.envs j (entered (env_at k' j))) i no_env) ≡ true)
        k.curenv k (ap runnable_entry (get_or-set_ne k.envs j i _ no_env ne) ∙ ready)
        (λ c is.
          ap runnable_entry (get_or-set_ne _ j i _ no_env ne)
          ∙ keeps-set runnable_entry k.envs c i (record (env_at k c) { env_status = runnable }) refl
              ready)

  pub curenv-env_run : (env_run j k).curenv ≡ some j
  unfolding env_run
  curenv-env_run = refl

  -- The environment that is run is the running one.
  pub running-env_run : j < length k.envs → (env_at (env_run j k) j).env_status ≡ running
  unfolding env_run
  running-env_run small =
      preempt-cases
        (λ k'. (get_or (set k'.envs j (entered (env_at k' j))) j no_env).env_status ≡ running)
        k.curenv k (ap (λ e. e.env_status) (get_or-set_self k.envs j _ no_env small))
        (λ c is.
          ap (λ e. e.env_status)
            (get_or-set_self _ j _ no_env (omega (arith, length-set k.envs c _))))

  -- Running an active environment changes which ones are active nowhere.
  pub is_active-env_run :
      (i : ℕ)
      → is_active (env_at k j).env_status ≡ true
      → is_active (env_at (env_run j k) i).env_status ≡ is_active (env_at k i).env_status
  unfolding env_run
  is_active-env_run i act =
      preempt-cases
        (λ k'.
          active_entry (get_or (set k'.envs j (entered (env_at k' j))) i no_env)
          ≡ active_entry (env_at k i))
        k.curenv k (field-set active_entry k.envs j i (entered (env_at k j)) (sym act))
        (λ c is.
          let before = λ (m : ℕ).
            field-set active_entry k.envs c m (record (env_at k c) { env_status = runnable })
              (ground arith) in
          field-set active_entry (set_status c runnable k).envs j i
            (entered (env_at (set_status c runnable k) j)) (sym (before j ∙ act))
          ∙ before i)
