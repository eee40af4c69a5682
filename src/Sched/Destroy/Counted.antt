-- ===== src/Sched/Destroy/Counted.antt =====
-- `total_tickets` against the table, when an environment comes (env_alloc) and goes (env_destroy; trap
-- for a zombie).
use mathlib.Core.Path.{subst}
use tps_sistemas_operativos.Base.{
  ℕ, zero, suc, ◌+◌, ◌%◌, ◌<◌, ◌≡◌, refl, inl, inr, Bool-cases, Bool, true, false, Option, none,
  some, List, [], ◌∷◌, length, get_or, set, arith, ◌==◌, if◌then◌else◌, word, add32, sub32, ap, ◌∙◌,
}
use tps_sistemas_operativos.Sched.Env.{
  no_env, is_free, free, dying, Env, Kernel, env_at, put_env, new_env, alloc_head, env_alloc,
  same_env,
}
use tps_sistemas_operativos.Sched.Destroy.{env_free, destroyed, without, collect_zombie}
use tps_sistemas_operativos.Sched.Destroy.FreeList.{FreeOk, take-FreeOk, give-FreeOk}

abbrev pub held_by : Env → ℕ
held_by e = if is_free (e.env_status) then 0 else e.tickets

-- The tickets of the environments that are not free.
unfoldable pub held_tickets : List Env → ℕ
held_tickets [] = 0
held_tickets (e ∷ es) = held_by e + held_tickets es

held_tickets-set :
    (es : List Env) (i : ℕ) (v : Env)
    → i < length es
    → held_tickets (set es i v) + held_by (get_or es i no_env) ≡ held_tickets es + held_by v
unfolding held_tickets
held_tickets-set [] i v lt = absurd (omega (arith, lt))
held_tickets-set (e ∷ es) zero v lt = omega arith
held_tickets-set (e ∷ es) (suc i) v lt =
    let rest = held_tickets-set es i v (omega (arith, lt)) in omega (arith, rest)

-- The free list is in order, and `total_tickets` is what the environments hold, as an `int`.
pub record Consistent (k : Kernel) : Type 0 where
  pub free_list : FreeOk (k.envs) (k.env_free_list)
  pub total : k.total_tickets % word ≡ held_tickets (k.envs) % word

held_by-free : (e : Env) → is_free (e.env_status) ≡ true → held_by e ≡ 0
held_by-free e f = rw f refl

held_by-busy : (e : Env) → is_free (e.env_status) ≡ false → held_by e ≡ e.tickets
held_by-busy e f = rw f refl

total-added :
    (total h h' f : ℕ)
    → total % word ≡ h % word
    → f ≡ 0
    → h' + f ≡ h + 100
    → add32 total 100 % word ≡ h' % word
total-added total h h' f same none_held moved = omega arith

total-taken :
    (total h h' f t : ℕ)
    → total % word ≡ h % word
    → f ≡ t
    → h' + f ≡ h + 0
    → sub32 total t % word ≡ h' % word
total-taken total h h' f t same of_it moved = omega arith

-- The slot at the head, with the environment that env_alloc makes of it.
taken-Consistent :
    (k : Kernel) (i parent_id : ℕ)
    → k.env_free_list ≡ some i
    → Consistent k
    → Consistent (record (put_env i (new_env i parent_id (env_at k i)) k) {
      total_tickets = add32 (k.total_tickets) 100;
      env_free_list = (env_at k i).env_link;
    })
unfolding new_env
taken-Consistent k i parent_id head ok =
    let list : FreeOk (k.envs) (some i) = subst (λ l. FreeOk (k.envs) l) head (ok.free_list) in
    let (inside, was) = list.head_free i refl in
    let e = new_env i parent_id (env_at k i) in
    record {
      free_list = take-FreeOk (k.envs) i e inside refl list;
      total =
          total-added (k.total_tickets) (held_tickets (k.envs)) (held_tickets (set (k.envs) i e))
            (held_by (env_at k i)) (ok.total) (held_by-free (env_at k i) was)
            (held_tickets-set (k.envs) i e inside);
    }

alloc_head-Consistent :
    (o : Option ℕ) (k : Kernel) (vm parent_id : ℕ)
    → k.env_free_list ≡ o
    → Consistent k
    → Consistent ((alloc_head o vm parent_id k).1)
unfolding alloc_head
alloc_head-Consistent none k vm parent_id head ok = ok
alloc_head-Consistent (some i) k vm parent_id head ok = elim (Bool-cases (vm == 0)) [
  | inl good ↦ rw good (taken-Consistent k i parent_id head ok)
  | inr bad ↦ rw bad ok
]

-- env_alloc keeps the free list in order and `total_tickets` equal to the tickets of the environments
-- that are not free (modulo 2^32), also where it fails.
pub env_alloc-Consistent :
    (k : Kernel) (vm parent_id : ℕ) → Consistent k → Consistent ((env_alloc vm parent_id k).1)
unfolding env_alloc
env_alloc-Consistent k vm parent_id ok =
    alloc_head-Consistent (k.env_free_list) k vm parent_id refl ok

without-Consistent : (b : Bool) (k : Kernel) → Consistent k → Consistent (without b k)
without-Consistent true k ok = record { free_list = ok.free_list; total = ok.total }
without-Consistent false k ok = ok

-- The end of an environment that is not free keeps the free list in order and `total_tickets` equal to
-- the tickets of the environments that are not free (modulo 2^32).
pub destroyed-Consistent :
    (k : Kernel) (i : ℕ)
    → i < length (k.envs)
    → is_free ((env_at k i).env_status) ≡ false
    → Consistent k
    → Consistent (destroyed i k)
unfolding destroyed env_free
destroyed-Consistent k i inside was ok =
    let e = record (env_at k i) { env_status = free; env_link = k.env_free_list } in
    without-Consistent (same_env (k.curenv) i)
      (env_free i (record k { total_tickets = sub32 (k.total_tickets) ((env_at k i).tickets) }))
      (record {
        free_list = give-FreeOk (k.envs) i e inside (k.env_free_list) was refl refl (ok.free_list);
        total =
            total-taken (k.total_tickets) (held_tickets (k.envs)) (held_tickets (set (k.envs) i e))
              (held_by (env_at k i)) ((env_at k i).tickets) (ok.total)
              (held_by-busy (env_at k i) was) (held_tickets-set (k.envs) i e inside);
      })

left_over : (h h' f t : ℕ) → f ≡ t → h' + f ≡ h + 0 → h ≡ h' + t
left_over h h' f t held moved = omega arith

-- trap frees a zombie and leaves its tickets in `total_tickets`: if the free list was in order and the total
-- right before, the total is too large by them (modulo 2^32) right after.
pub collect_zombie_leak :
    (k : Kernel) (c : ℕ)
    → c < length (k.envs)
    → (env_at k c).env_status ≡ dying
    → Consistent k
    → (collect_zombie c k).total_tickets % word
      ≡ (held_tickets ((collect_zombie c k).envs) + (env_at k c).tickets) % word
unfolding collect_zombie env_free
collect_zombie_leak k c inside zombie ok =
    let was : is_free ((env_at k c).env_status) ≡ false = ap is_free zombie in
    let e = record (env_at k c) { env_status = free; env_link = k.env_free_list } in
    let moved = held_tickets-set (k.envs) c e inside in
    let held = held_by-busy (env_at k c) was in
    ok.total
    ∙ ap (λ n. n % word)
        (left_over (held_tickets (k.envs)) (held_tickets (set (k.envs) c e)) (held_by (env_at k c))
          ((env_at k c).tickets) held moved)
