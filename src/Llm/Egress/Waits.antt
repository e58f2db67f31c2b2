-- ===== src/Llm/Egress/Waits.antt =====
-- packages/llm/src/egress.ts: how long the loop goes on, in a world that records its sleeps.
use albusforge.Prelude.{
  ℕ, zero, suc, ◌+◌, ◌-◌, ◌*◌, ap, ◌≤◌, ◌<◌, min, max, ◌≡◌, refl, ◌∙◌, String, false, List, [], ◌∷◌,
  Option, none, some, arith, leb, Bool-cases, inl, inr, length,
}
use albusforge.Llm.Call.{Thrown}
use albusforge.Llm.Egress.{
  EgressWait, backoff, transport_code, Env, newer_code, on_failure, on_fetch, loop, attempts_for,
  await_egress,
}

-- The same world with its sleeps, newest first.
abbrev pub logged : Env → Env
logged env = record {
  World = env.World × List ℕ;
  now = λ s. env.now s.0;
  fetch = λ s. let (e, w) = env.fetch s.0 in (e, (w, s.1));
  sleep = λ ms s. (env.sleep ms s.0, ms ∷ s.1);
}

abbrev pub total : List ℕ → ℕ
total [] = 0
total (ms ∷ l) = ms + total l

-- The backoff planned for after a number of attempts.
unfoldable pub planned_after : ℕ → ℕ
planned_after zero = 0
planned_after (suc n) = planned_after n + backoff (suc n)

backoff-ge : (n : ℕ) → 250 ≤ backoff (suc n)
unfolding backoff
backoff-ge zero = omega arith
backoff-ge (suc zero) = omega arith
backoff-ge (suc (suc zero)) = omega arith
backoff-ge (suc (suc (suc zero))) = omega arith
backoff-ge (suc (suc (suc (suc n)))) =
    let last : min (suc (suc (suc (suc (suc n)))) - 1) 4 ≡ 4 = omega arith in
    rw (last, backoff) (omega arith)

planned_after-ge : (n : ℕ) → 250 * n ≤ planned_after n
unfolding planned_after
planned_after-ge zero = omega arith
planned_after-ge (suc n) = omega (arith, planned_after-ge n, backoff-ge n)

planned_after_mono : (m n : ℕ) → m ≤ n → planned_after m ≤ planned_after n
unfolding planned_after
planned_after_mono m zero h = let none_yet : m ≡ 0 = omega (arith, h) in rw none_yet (omega arith)
planned_after_mono m (suc n) h = elim (Bool-cases (leb m n)) [
  | inl before ↦ omega (arith, planned_after_mono m n (ground arith))
  | inr past ↦ let same : m ≡ suc n = ground (arith, h) in rw same (omega arith)
]

planned_after-lt : (m n : ℕ) → planned_after m < planned_after n → m < n
planned_after-lt m n h = elim (Bool-cases (leb n m)) [
  | inl above ↦ absurd (omega (arith, h, planned_after_mono n m (ground arith)))
  | inr below ↦ ground arith
]

module _ (env : Env) (budget_ms started n : ℕ) where
  -- A result within `n` attempts, and what it slept; a failure has used up the budget.
  pub record IsWithin (r : EgressWait) (slept : List ℕ) : Type 0 where
    pub earlier : ℕ
    pub attempted : r.attempts ≡ suc earlier
    pub few : suc earlier ≤ n
    pub slept_planned : total slept ≡ planned_after earlier
    pub each_waited : length slept ≡ earlier
    pub spent_up : r.ok ≡ false → budget_ms ≤ max r.waited_ms (planned_after (suc earlier))

  abbrev pub Stops : Option (EgressWait × (env.World × List ℕ)) → Type 0
  Stops outcome =
      (r : EgressWait) × (w : env.World × List ℕ) × (outcome ≡ some (r, w)) × IsWithin r w.1

  abbrev Loop : Type 0
  Loop = ℕ → ℕ → Option String → env.World × List ℕ → Option (EgressWait × (env.World × List ℕ))

  -- Before the attempt after `past` ones.
  record IsPlanned (past planned : ℕ) (slept : List ℕ) : Type 0 where
    plan : planned ≡ planned_after past
    waits : total slept ≡ planned
    each_waited : length slept ≡ past
    left : past < n

  abbrev Continues : ℕ → Loop → Type 0
  Continues past go =
      (planned : ℕ) (code : Option String) (w : env.World × List ℕ)
      → IsPlanned past planned w.1
      → Stops (go past planned code w)

  on_failure-Stops :
      (go : Loop) (past planned : ℕ) (code : Option String) (w : env.World × List ℕ)
      → budget_ms ≤ planned_after n
      → Continues (suc past) go
      → IsPlanned past planned w.1
      → Stops (
          on_failure
            (logged env)
            budget_ms
            started
            go
            (suc past)
            (planned + backoff (suc past))
            code
            w)
  unfolding on_failure planned_after
  on_failure-Stops go past planned code w h next k =
      let total_planned : ℕ = planned + backoff (suc past) in
      let clock : ℕ = env.now w.0 - started in
      elim (Bool-cases (leb budget_ms (max clock total_planned))) [
        | inl over ↦
            rw (over, on_failure)
              (
                _,
                _,
                refl,
                record {
                  earlier = past;
                  attempted = refl;
                  few = omega (arith, k.left);
                  slept_planned = k.waits ∙ k.plan;
                  each_waited = k.each_waited;
                  spent_up = λ e. ground (arith, k.plan);
                },
              )
        | inr under ↦
            let short : total_planned < budget_ms = ground arith in
            let plan : total_planned ≡ planned_after (suc past) = omega (arith, k.plan) in
            rw (under, on_failure)
              (next total_planned code _ (record {
                plan = plan;
                waits = omega (arith, k.waits);
                each_waited = ap suc k.each_waited;
                left = planned_after-lt (suc past) n (omega (arith, h));
              }))
      ]

  on_fetch-Stops :
      (go : Loop) (past planned : ℕ) (code : Option String) (e : Option Thrown)
      (w : env.World × List ℕ)
      → budget_ms ≤ planned_after n
      → Continues (suc past) go
      → IsPlanned past planned w.1
      → Stops (on_fetch (logged env) budget_ms started go (suc past) planned code e w)
  unfolding on_fetch
  on_fetch-Stops go past planned code none w h next k = (
    _,
    _,
    refl,
    record {
      earlier = past;
      attempted = refl;
      few = omega (arith, k.left);
      slept_planned = k.waits ∙ k.plan;
      each_waited = k.each_waited;
      spent_up = λ e. ground arith;
    },
  )
  on_fetch-Stops go past planned code (some e) w h next k =
      on_failure-Stops go past planned (newer_code (transport_code e) code) w h next k

  loop-Stops :
      (fuel past planned : ℕ) (code : Option String) (w : env.World × List ℕ)
      → budget_ms ≤ planned_after n
      → n ≤ past + fuel
      → IsPlanned past planned w.1
      → Stops (loop (logged env) budget_ms started fuel past planned code w)
  unfolding loop
  loop-Stops zero past planned code w h f k = absurd (omega (arith, k.left))
  loop-Stops (suc fuel) past planned code w h f k =
      on_fetch-Stops (loop (logged env) budget_ms started fuel) past planned code (env.fetch w.0).0
        ((env.fetch w.0).1, w.1) h
        (λ planned' code' w' k'.
          loop-Stops fuel (suc past) planned' code' w' h (omega (arith, f)) k')
        k

-- The fuel is enough for any budget.
attempts_for-enough : (budget_ms : ℕ) → budget_ms ≤ planned_after (attempts_for budget_ms)
attempts_for-enough budget_ms = omega (arith, planned_after-ge (attempts_for budget_ms))

IsWithin-le :
    (env : Env) (budget_ms started m n : ℕ) (r : EgressWait) (slept : List ℕ)
    → m ≤ n
    → IsWithin env budget_ms started m r slept
    → IsWithin env budget_ms started n r slept
IsWithin-le env budget_ms started m n r slept h k = record {
  earlier = k.earlier;
  attempted = k.attempted;
  few = omega (arith, h, k.few);
  slept_planned = k.slept_planned;
  each_waited = k.each_waited;
  spent_up = k.spent_up;
}

await_egress-Stops_few :
    (env : Env) (budget_ms n : ℕ) (w : env.World)
    → 0 < n
    → n ≤ attempts_for budget_ms
    → budget_ms ≤ planned_after n
    → Stops env budget_ms (env.now w) n (await_egress (logged env) budget_ms (w, []))
unfolding await_egress planned_after
await_egress-Stops_few env budget_ms n w some_left few enough =
    loop-Stops env budget_ms (env.now w) n (attempts_for budget_ms) 0 0 none (w, []) enough
      (omega (arith, few))
      (record { plan = refl; waits = refl; each_waited = refl; left = some_left })

-- `awaitEgress` always stops, and after how many attempts its budget tells: with `n` attempts, one
-- or more, whose backoffs would plan for the budget, it makes at most `n`. It sleeps once before
-- every attempt but the first, exactly what the backoff table plans; when it gives up, the clock or
-- the plan has reached the budget.
pub await_egress-Stops :
    (env : Env) (budget_ms n : ℕ) (w : env.World)
    → 0 < n
    → budget_ms ≤ planned_after n
    → Stops env budget_ms (env.now w) n (await_egress (logged env) budget_ms (w, []))
await_egress-Stops env budget_ms n w some_left enough =
    elim (Bool-cases (leb n (attempts_for budget_ms))) [
      | inl few ↦ await_egress-Stops_few env budget_ms n w some_left (ground arith) enough
      | inr many ↦
          let (r, w', stops, within) =
            await_egress-Stops_few env budget_ms (attempts_for budget_ms) w (omega arith)
              (omega arith) (attempts_for-enough budget_ms) in
          (
            r,
            w',
            stops,
            IsWithin-le env budget_ms (env.now w) (attempts_for budget_ms) n r w'.1 (ground arith)
                within,
          )
    ]
