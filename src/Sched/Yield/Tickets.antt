-- ===== src/Sched/Yield/Tickets.antt =====
-- The tickets of the proportional share scheduler: who loses or gains them, and what is drawn.
use tps_sistemas_operativos.Base.{
  ℕ, zero, suc, ◌+◌, ◌-◌, ◌*◌, ◌%◌, ◌≤◌, ◌<◌, ◌≡◌, ◌≢◌, refl, ap, ◌∙◌, true, false, inl, inr,
  Bool-cases, List, [], ◌∷◌, if◌then◌else◌, arith, length, get_or, get_or-set_self, get_or-set_ne,
  word, half_word, add32, sub32, ltb, signed_ltb,
}
use tps_sistemas_operativos.Sched.Env.{no_env, is_active, Env, Kernel, env_at}
use tps_sistemas_operativos.Sched.Yield.{
  random, reduce_prio, boost_envs, boost_total, sched_boost, generate_pseudorandom_value, rand_m,
}

-- What is left of `t` tickets: 10 fewer, and 1 where there were at most 10.
abbrev pub reduced : ℕ → ℕ
reduced t = if ltb 10 t then t - 10 else 1

module _ (t total : ℕ) (pos : 0 < t) (bound : t < half_word) where
  more_tickets : signed_ltb 10 t ≡ true → sub32 t 10 ≡ reduced t
  more_tickets more = ground arith

  few_tickets : signed_ltb 10 t ≡ false → 1 ≡ reduced t
  few_tickets few = ground arith

  more_total : signed_ltb 10 t ≡ true → (sub32 total 10 + t) % word ≡ (total + reduced t) % word
  more_total more = ground arith

  few_total :
      signed_ltb 10 t ≡ false → (sub32 total (sub32 t 1) + t) % word ≡ (total + reduced t) % word
  few_total few = ground arith

-- A clock interrupt leaves the current environment, of 1 to 2^31 - 1 tickets, 10 fewer of them, but 1
-- at least; `total_tickets` falls by as many (modulo 2^32), and no other environment changes.
pub reduce_prio_lem :
    (k : Kernel) (c : ℕ)
    → c < length k.envs
    → 0 < (env_at k c).tickets
    → (env_at k c).tickets < half_word
    → ((env_at (reduce_prio c k) c).tickets ≡ reduced (env_at k c).tickets)
      × (((reduce_prio c k).total_tickets + (env_at k c).tickets) % word
          ≡ (k.total_tickets + reduced (env_at k c).tickets) % word)
      × ((i : ℕ) → c ≢ i → env_at (reduce_prio c k) i ≡ env_at k i)
unfolding reduce_prio
reduce_prio_lem k c small pos bound =
    let t = (env_at k c).tickets in
    elim (Bool-cases (signed_ltb 10 t)) [
      | inl more ↦ (
        rw more (
            ap (λ (e : Env). e.tickets)
              (get_or-set_self k.envs c (record (env_at k c) { tickets = sub32 t 10 }) no_env small)
            ∙ more_tickets t k.total_tickets pos bound more),
        rw more (more_total t k.total_tickets pos bound more),
        λ i ne. rw more (get_or-set_ne k.envs c i _ no_env ne),
      )
      | inr few ↦ (
        rw few (
            ap (λ (e : Env). e.tickets)
              (get_or-set_self k.envs c (record (env_at k c) { tickets = 1 }) no_env small)
            ∙ few_tickets t k.total_tickets pos bound few),
        rw few (few_total t k.total_tickets pos bound few),
        λ i ne. rw few (get_or-set_ne k.envs c i _ no_env ne),
      )
    ]

-- The tickets of the active environments.
pub active_tickets : List Env → ℕ
active_tickets [] = 0
active_tickets (e ∷ es) =
    if is_active e.env_status then e.tickets + active_tickets es else active_tickets es

boost_total-active :
    (total : ℕ) (es : List Env)
    → boost_total total es % word ≡ (total + active_tickets (boost_envs es)) % word
unfolding boost_total boost_envs active_tickets
boost_total-active total [] = omega arith
boost_total-active total (e ∷ es) = elim (Bool-cases (is_active e.env_status)) [
  | inl act ↦ rw (act, act, boost_total-active (add32 total 100) es) (omega arith)
  | inr not ↦ rw (not, not, boost_total-active total es) refl
]

boosted :
    (es : List Env) (i : ℕ)
    → is_active (get_or (boost_envs es) i no_env).env_status ≡ true
    → (get_or (boost_envs es) i no_env).tickets ≡ 100
unfolding boost_envs
boosted [] i act = cc
boosted (e ∷ es) zero act = ground arith
boosted (e ∷ es) (suc i) act = boosted es i act

left_alone :
    (es : List Env) (i : ℕ)
    → is_active (get_or es i no_env).env_status ≡ false
    → get_or (boost_envs es) i no_env ≡ get_or es i no_env
unfolding boost_envs
left_alone [] i not = refl
left_alone (e ∷ es) zero not = rw not refl
left_alone (e ∷ es) (suc i) not = left_alone es i not

-- What is drawn is at most 2580, however many tickets there are: the product wraps at 2^32.
pub winner_bound : (k : Kernel) → (generate_pseudorandom_value k).0 ≤ 2580
unfolding generate_pseudorandom_value
winner_bound k = omega arith

random-lt : (p : ℕ) → random p < rand_m
unfolding random
random-lt p = omega arith

mul-le : (r t : ℕ) → r < rand_m → r * t ≤ 1664524 * t
mul-le r t h = grind arith

-- With at most 2580 tickets in all, the number drawn is below their number.
pub winner-lt-total :
    (k : Kernel)
    → 0 < k.total_tickets
    → k.total_tickets ≤ 2580
    → (generate_pseudorandom_value k).0 < k.total_tickets
unfolding generate_pseudorandom_value
winner-lt-total k pos few =
    let r = random k.prev_random in
    let small : r < rand_m = random-lt k.prev_random in
    let product = mul-le r k.total_tickets small in omega arith

-- After `sched_boost` each environment that is runnable or running has 100 tickets, and `total_tickets` is
-- what these have together (modulo 2^32). Every other environment is as it was, and its tickets are not in
-- the total, also if it is not free.
pub sched_boost_total :
    (k : Kernel)
    → ((sched_boost k).total_tickets % word ≡ active_tickets (sched_boost k).envs % word)
      × ((i : ℕ)
          → is_active (env_at (sched_boost k) i).env_status ≡ true
          → (env_at (sched_boost k) i).tickets ≡ 100)
      × ((i : ℕ)
          → is_active (env_at k i).env_status ≡ false
          → env_at (sched_boost k) i ≡ env_at k i)
unfolding sched_boost
sched_boost_total k = (
  boost_total-active 0 k.envs ∙ ap (λ n. n % word) (omega arith),
  λ i act. boosted k.envs i act,
  λ i not. left_alone k.envs i not,
)
