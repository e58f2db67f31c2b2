-- ===== src/Llm/Egress.antt =====
-- packages/llm/src/egress.ts: asking until the route to the API is open. The clock, `fetch` and
-- `sleep` act on a state of the world. A difference of times stops at 0, where the source's is
-- negative once the clock was set back; the test against the budget comes out the same.
pub mod Waits
mod Tests
use albusforge.Prelude.{
  ℕ, zero, suc, ◌+◌, ◌-◌, ◌/◌, min, max, String, Bool, true, false, List, [], ◌∷◌, Option, none,
  some, if◌then◌else◌, leb, get_elem?, length,
}
use albusforge.Llm.Call.{Thrown}

pub record EgressWait : Type 0 where
  pub ok : Bool
  pub attempts : ℕ
  pub waited_ms : ℕ
  pub last_code : Option String

abbrev pub default_budget_ms : ℕ
default_budget_ms = 120000

abbrev pub backoff_ms : List ℕ
backoff_ms = 250 ∷ 500 ∷ 1000 ∷ 2000 ∷ 3000 ∷ []

pub transport_code_from : ℕ → Thrown → Option String
transport_code_from zero e = none
transport_code_from (suc depth) (Thrown.not_error f) = none
transport_code_from (suc depth) (Thrown.error f cause) =
    let deeper = transport_code_from depth cause in
    elim f.code [ none ↦ deeper | some code ↦ some code ]

pub transport_code : Thrown → Option String
transport_code e = transport_code_from 5 e

-- `BACKOFF_MS[Math.min(attempts - 1, BACKOFF_MS.length - 1)]`, which is always there.
unfoldable pub backoff : (attempts : ℕ) → ℕ
backoff attempts = elim (get_elem? backoff_ms (min (attempts - 1) (length backoff_ms - 1))) [
  | none ↦ 0
  | some ms ↦ ms
]

pub record Env : Type 1 where
  pub World : Type 0
  pub now : World → ℕ
  -- What `fetch` throws; `none` if an answer comes.
  pub fetch : World → Option Thrown × World
  pub sleep : ℕ → World → World

-- `code ?? last_code`
pub newer_code : Option String → Option String → Option String
newer_code none last = last
newer_code (some code) last = some code

module _ (env : Env) (budget_ms started : ℕ) where
  open env use {World, now, fetch, sleep}

  abbrev spent : World → ℕ
  spent w = now w - started

  -- After a failure: give up, or sleep and go on with `go`.
  pub on_failure :
      (ℕ → ℕ → Option String → World → Option (EgressWait × World))
      → (attempts planned : ℕ) → Option String
      → World
      → Option (EgressWait × World)
  on_failure go attempts planned code w =
      let next = go attempts planned code (sleep (backoff attempts) w) in
      if leb budget_ms (max (spent w) planned)
      then some
          (record { ok = false; attempts = attempts; waited_ms = spent w; last_code = code }, w)
      else next

  pub on_fetch :
      (ℕ → ℕ → Option String → World → Option (EgressWait × World))
      → (attempts planned : ℕ) → Option String
      → Option Thrown
      → World
      → Option (EgressWait × World)
  on_fetch go attempts planned code none w =
      some (record { ok = true; attempts = attempts; waited_ms = spent w; last_code = code }, w)
  on_fetch go attempts planned code (some e) w =
      on_failure go attempts (planned + backoff attempts) (newer_code (transport_code e) code) w

  -- The `for (;;)`, on fuel.
  pub loop : ℕ → ℕ → ℕ → Option String → World → Option (EgressWait × World)
  loop zero attempts planned code w = none
  loop (suc fuel) attempts planned code w =
      on_fetch (loop fuel) (suc attempts) planned code (fetch w).0 (fetch w).1

-- No backoff is shorter than 250 ms, so that the budget is planned for after as many attempts.
abbrev pub attempts_for : ℕ → ℕ
attempts_for budget_ms = budget_ms / 250 + 1

pub await_egress : (env : Env) → ℕ → env.World → Option (EgressWait × env.World)
await_egress env budget_ms w = loop env budget_ms (env.now w) (attempts_for budget_ms) 0 0 none w
