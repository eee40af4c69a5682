-- ===== src/Sched/Yield/Winner.antt =====
-- The draw of `sched_yield` under SCHED_PROPORTIONAL_SHARE: who holds the ticket of a number.
use tps_sistemas_operativos.Base.{
  ℕ, ◌+◌, ◌≤◌, ◌<◌, ◌≡◌, refl, ap, ◌∙◌, true, false, ◌⊎◌, inl, inr, Bool-cases, Option, some, List,
  [], ◌∷◌, ◌++◌, if◌then◌else◌, arith, length, All, half_word, add32, signed_leb,
}
use tps_sistemas_operativos.Sched.Env.{is_runnable, Env}
use tps_sistemas_operativos.Sched.Yield.{lottery}

abbrev pub NoneRunnable : List Env → Type 0
NoneRunnable = All (λ e. is_runnable e.env_status ≡ false)

-- The tickets of the runnable environments.
unfoldable pub tickets_of : List Env → ℕ
tickets_of [] = 0
tickets_of (e ∷ es) = if is_runnable e.env_status then e.tickets + tickets_of es else tickets_of es

-- `r` is the slot of the runnable environment at which the tickets, counted from `counter` on, reach
-- `winner`, or of the last runnable one. The slots of `es` begin at `i`.
pub record IsWinner (winner counter i : ℕ) (es : List Env) (r : Option ℕ) : Type 0 where
  pub before : List Env
  pub env : Env
  pub behind : List Env
  pub splits : es ≡ before ++ env ∷ behind
  pub slot : r ≡ some (i + length before)
  pub ready : is_runnable env.env_status ≡ true
  pub not_reached : NoneRunnable before ⊎ (counter + tickets_of before < winner)
  pub reached : (winner ≤ counter + tickets_of before + env.tickets) ⊎ NoneRunnable behind

none-tickets : (es : List Env) → NoneRunnable es → tickets_of es ≡ 0
unfolding tickets_of
none-tickets [] h = refl
none-tickets (e ∷ es) h = rw h.0 (none-tickets es h.1)

skip_idle :
    {winner counter i : ℕ} {es : List Env} {r : Option ℕ} (e : Env)
    → is_runnable e.env_status ≡ false
    → IsWinner winner counter (i + 1) es r
    → IsWinner winner counter i (e ∷ es) r
unfolding tickets_of
skip_idle {winner} {counter} {i} e idle w = record {
  before = e ∷ w.before;
  env = w.env;
  behind = w.behind;
  splits = ap (λ l. e ∷ l) w.splits;
  slot = w.slot ∙ ap (λ n. some n) (omega arith);
  ready = w.ready;
  not_reached = elim w.not_reached [
    | inl none_in ↦ inl (idle, none_in)
    | inr lt ↦ inr (rw idle lt)
  ];
  reached = rw idle w.reached;
}

count_on :
    {winner counter i : ℕ} {es : List Env} {r : Option ℕ} (e : Env)
    → is_runnable e.env_status ≡ true
    → counter + e.tickets < winner
    → IsWinner winner (counter + e.tickets) (i + 1) es r
    → IsWinner winner counter i (e ∷ es) r
unfolding tickets_of
count_on {winner} {counter} {i} e ready lt w = record {
  before = e ∷ w.before;
  env = w.env;
  behind = w.behind;
  splits = ap (λ l. e ∷ l) w.splits;
  slot = w.slot ∙ ap (λ n. some n) (omega arith);
  ready = w.ready;
  not_reached = inr (
      rw ready (elim w.not_reached [
        | inl none_in ↦ omega (arith, none-tickets w.before none_in)
        | inr less ↦ omega arith
      ]));
  reached = elim w.reached [ inl le ↦ inl (rw ready (omega arith)) | inr none_in ↦ inr none_in ];
}

enough :
    (winner n : ℕ) → winner < half_word → n < half_word → signed_leb winner n ≡ true → winner ≤ n
enough winner n a b h = ground arith

few : (winner n : ℕ) → winner < half_word → n < half_word → signed_leb winner n ≡ false → n < winner
few winner n a b h = ground arith

-- What the loop returns: `idle` if no environment is runnable, or else the winner.
pub Drawn : ℕ → ℕ → ℕ → List Env → Option ℕ → Option ℕ → Type 0
Drawn winner counter i es idle r = NoneRunnable es × (r ≡ idle) ⊎ IsWinner winner counter i es r

module _ (winner : ℕ) (e : Env) (es : List Env) (i counter : ℕ) (idle r : Option ℕ) where
  Drawn-skip :
      is_runnable e.env_status ≡ false
      → Drawn winner counter (i + 1) es idle r
      → Drawn winner counter i (e ∷ es) idle r
  unfolding Drawn
  Drawn-skip not (inl (none_in, same)) = inl ((not, none_in), same)
  Drawn-skip not (inr w) = inr (skip_idle e not w)

  Drawn-next :
      is_runnable e.env_status ≡ true
      → counter + e.tickets < winner
      → Drawn winner (counter + e.tickets) (i + 1) es (some i) r
      → Drawn winner counter i (e ∷ es) idle r
  unfolding Drawn tickets_of
  Drawn-next ready lt (inl (none_in, same)) = inr (record {
    before = [];
    env = e;
    behind = es;
    splits = refl;
    slot = same ∙ ap (λ n. some n) (omega arith);
    ready = ready;
    not_reached = inl tt;
    reached = inr none_in;
  })
  Drawn-next ready lt (inr w) = inr (count_on e ready lt w)

  Drawn-here :
      is_runnable e.env_status ≡ true
      → winner ≤ counter + e.tickets
      → Drawn winner counter i (e ∷ es) idle (some i)
  unfolding Drawn tickets_of
  Drawn-here ready le = inr (record {
    before = [];
    env = e;
    behind = es;
    splits = refl;
    slot = ap (λ n. some n) (omega arith);
    ready = ready;
    not_reached = inl tt;
    reached = inl (omega arith);
  })

tickets-cons :
    (e : Env) (es : List Env)
    → is_runnable e.env_status ≡ true
    → tickets_of (e ∷ es) ≡ e.tickets + tickets_of es
unfolding tickets_of
tickets-cons e es ready = rw ready

tickets-skip :
    (e : Env) (es : List Env)
    → is_runnable e.env_status ≡ false
    → tickets_of (e ∷ es) ≡ tickets_of es
unfolding tickets_of
tickets-skip e es not = rw not

lottery-Drawn :
    (winner : ℕ) (es : List Env) (i counter : ℕ) (idle : Option ℕ)
    → winner < half_word
    → counter + tickets_of es < half_word
    → Drawn winner counter i es idle (lottery winner es i counter idle)
unfolding lottery
lottery-Drawn winner [] i counter idle small bound = unfold Drawn in inl (tt, refl)
lottery-Drawn winner (e ∷ es) i counter idle small bound =
    elim (Bool-cases (is_runnable e.env_status)) [
      | inr not ↦
          let rest =
            lottery-Drawn winner es (i + 1) counter idle small
              (omega (arith, tickets-skip e es not)) in
          rw not (Drawn-skip winner e es i counter idle _ not rest)
      | inl ready ↦
          let sum = tickets-cons e es ready in
          let same : add32 counter e.tickets ≡ counter + e.tickets = omega arith in
          elim (Bool-cases (signed_leb winner (counter + e.tickets))) [
            | inl stop ↦
                rw (ready, same, stop)
                  (Drawn-here winner e es i counter idle idle ready
                    (enough winner (counter + e.tickets) small (omega arith) stop))
            | inr on ↦
                let rest =
                  lottery-Drawn winner es (i + 1) (counter + e.tickets) (some i) small
                    (omega arith) in
                rw (ready, same, on)
                  (Drawn-next winner e es i counter idle _ ready
                    (few winner (counter + e.tickets) small (omega arith) on) rest)
          ]
    ]

-- Where the number drawn is below 2^31, and the tickets of the runnable environments, as bit patterns, add up
-- to less than 2^31, so that none is negative and no sum overflows an `int`, the loop of `sched_yield` picks
-- the runnable environment with whose tickets the count reaches the number drawn, or the last runnable one
-- if the number is never reached, and `idle` if no environment is runnable.
pub lottery_lem :
    (winner : ℕ) (es : List Env) (idle : Option ℕ)
    → winner < half_word
    → tickets_of es < half_word
    → NoneRunnable es × (lottery winner es 0 0 idle ≡ idle)
      ⊎ IsWinner winner 0 0 es (lottery winner es 0 0 idle)
lottery_lem winner es idle small bound =
    unfold Drawn in lottery-Drawn winner es 0 0 idle small (omega arith)
