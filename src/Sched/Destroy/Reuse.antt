-- ===== src/Sched/Destroy/Reuse.antt =====
-- A slot that is used again: env_alloc behind env_destroy, and envid2env on the old id.
use tps_sistemas_operativos.Base.{
  ℕ, ◌+◌, ◌*◌, ◌/◌, ◌%◌, ◌<◌, ◌≡◌, ◌≢◌, refl, inl, inr, Bool-cases, Bool, true, false, some, List,
  length, length-set, get_or, set, arith, ◌==◌, ne→==, half_word, add32, signed_leb, ap, ◌∙◌, sym,
  get_or-set_self,
}
use tps_sistemas_operativos.Sched.Env.{
  nenv, envx, no_env, is_free, free, Env, Kernel, env_at, generation, new_env, allocated,
  alloc_head, env_alloc, bad_env, envid2env, same_env,
}
use tps_sistemas_operativos.Sched.Destroy.{env_free, destroyed}

onward_ne :
    (id i : ℕ)
    → id < half_word
    → id % nenv ≡ i
    → signed_leb (add32 id 4096 / nenv * nenv) 0 ≡ false
    → add32 id 4096 / nenv * nenv + i ≢ id
onward_ne id i small slot onward same = omega arith

wrapped_ne :
    (id i : ℕ)
    → id < half_word
    → id % nenv ≡ i
    → signed_leb (add32 id 4096 / nenv * nenv) 0 ≡ true
    → 4096 + i ≢ id
wrapped_ne id i small slot wrapped same = ground arith

-- The next id of a slot is another one.
generation_ne : (id i : ℕ) → id < half_word → id % nenv ≡ i → generation id + i ≢ id
unfolding generation
generation_ne id i small slot = elim (Bool-cases (signed_leb (add32 id 4096 / nenv * nenv) 0)) [
  | inl wrapped ↦ rw wrapped (wrapped_ne id i small slot wrapped)
  | inr onward ↦ rw onward (onward_ne id i small slot onward)
]

module _ (k : Kernel) (i : ℕ) (inside : i < length (k.envs)) where
  head-destroyed : (destroyed i k).env_free_list ≡ some i
  unfolding destroyed env_free
  head-destroyed = elim (Bool-cases (same_env (k.curenv) i)) [
    | inl is ↦ rw is refl
    | inr not_it ↦ rw not_it refl
  ]

  envs-destroyed :
      (destroyed i k).envs
      ≡ set (k.envs) i (record (env_at k i) { env_status = free; env_link = k.env_free_list })
  unfolding destroyed env_free
  envs-destroyed = elim (Bool-cases (same_env (k.curenv) i)) [
    | inl is ↦ rw is refl
    | inr not_it ↦ rw not_it refl
  ]

  env_id-destroyed : (env_at (destroyed i k) i).env_id ≡ (env_at k i).env_id
  env_id-destroyed =
      ap (λ (es : List Env). (get_or es i no_env).env_id) envs-destroyed
      ∙ ap (λ (e : Env). e.env_id) (get_or-set_self (k.envs) i _ no_env inside)

  inside-destroyed : i < length ((destroyed i k).envs)
  inside-destroyed =
      let same : length ((destroyed i k).envs) ≡ length (k.envs) =
        ap length envs-destroyed ∙ length-set (k.envs) i _ in
      omega (arith, inside, same)

  new_id :
      (parent_id : ℕ)
      → (env_at ((env_alloc 0 parent_id (destroyed i k)).1) i).env_id
        ≡ generation ((env_at k i).env_id) + i
  unfolding env_alloc alloc_head new_env
  new_id parent_id =
      ap (λ o. (env_at ((alloc_head o 0 parent_id (destroyed i k)).1) i).env_id) head-destroyed
      ∙ ap (λ (e : Env). e.env_id)
          (get_or-set_self ((destroyed i k).envs) i (new_env i parent_id (env_at (destroyed i k) i))
            no_env inside-destroyed)
      ∙ ap (λ id. generation id + i) env_id-destroyed

pub not_id :
    (k : Kernel) (envid : ℕ) (checkperm : Bool)
    → 0 < envid
    → (env_at k (envx envid)).env_id ≢ envid
    → envid2env envid checkperm k ≡ bad_env
unfolding envid2env
not_id k envid checkperm pos other =
    let nonzero : (envid == 0) ≡ false = ground arith in
    let not_it : ((env_at k (envx envid)).env_id == envid) ≡ false = ne→== _ envid other in
    elim (Bool-cases (is_free ((env_at k (envx envid)).env_status))) [
      | inl is ↦ rw (nonzero, is) refl
      | inr is ↦ rw (nonzero, is, not_it) refl
    ]

-- Once a slot is destroyed, the next env_alloc gives that slot, and the id that it had before no longer
-- finds an environment, with or without the permission check. The slot's id is its own (its number
-- modulo NENV), positive and below 2^31.
pub envid2env-reused :
    (k : Kernel) (i parent_id : ℕ) (checkperm : Bool)
    → i < length (k.envs)
    → envx ((env_at k i).env_id) ≡ i
    → 0 < (env_at k i).env_id
    → (env_at k i).env_id < half_word
    → ((env_alloc 0 parent_id (destroyed i k)).0 ≡ allocated i)
      × (envid2env ((env_at k i).env_id) checkperm ((env_alloc 0 parent_id (destroyed i k)).1)
          ≡ bad_env)
unfolding env_alloc alloc_head
envid2env-reused k i parent_id checkperm inside slot pos small =
    let id = (env_at k i).env_id in
    (
      rw (head-destroyed k i inside) refl,
      not_id ((env_alloc 0 parent_id (destroyed i k)).1) id checkperm pos (λ same.
          generation_ne id i small slot (
            sym (new_id k i inside parent_id)
            ∙ ap (λ j. (env_at ((env_alloc 0 parent_id (destroyed i k)).1) j).env_id) (sym slot)
            ∙ same)),
    )
