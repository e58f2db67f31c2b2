-- ===== src/Llm/Egress/Tests.antt =====
-- A concrete environment for packages/llm/src/egress.ts: a route that opens at the third attempt, with
-- a clock that only sleeping moves.
use albusforge.Prelude.{◌≡◌, refl, ℕ, suc, ◌+◌, [], none, some, true, if◌then◌else◌, ltb, arith}
use albusforge.Llm.Call.{Thrown}
use albusforge.Llm.Egress.{
  Env, default_budget_ms, backoff, await_egress, loop, on_fetch, on_failure, backoff, newer_code,
  transport_code, transport_code_from,
}
use albusforge.Llm.Egress.Waits.{logged, planned_after, Stops, await_egress-Stops}

abbrev not_found : Thrown
not_found =
    Thrown.error
      (record {
        name = "Error";
        constructor_name = none;
        code = some "ENOTFOUND";
        status = none;
        request_id = none;
      })
      (Thrown.not_error (record {
        name = "";
        constructor_name = none;
        code = none;
        status = none;
        request_id = none;
      }))

-- The clock and the number of attempts so far.
abbrev cold_start : Env
cold_start = record {
  World = ℕ × ℕ;
  now = λ w. w.0;
  fetch = λ w. (if ltb w.1 2 then some not_found else none, (w.0, suc w.1));
  sleep = λ ms w. (w.0 + ms, w.1);
}

await_egress_run :
    await_egress cold_start default_budget_ms (7, 0)
    ≡ some (
      record { ok = true; attempts = 3; waited_ms = 750; last_code = some "ENOTFOUND" },
      (757, 3),
    )
unfolding await_egress loop on_fetch on_failure backoff newer_code transport_code
    transport_code_from
await_egress_run = refl

planned_after_budget : planned_after 43 ≡ 120750
unfolding planned_after backoff
planned_after_budget = refl

await_egress-Stops_example :
    Stops cold_start default_budget_ms 7 43
      (await_egress (logged cold_start) default_budget_ms ((7, 0), []))
await_egress-Stops_example =
    await_egress-Stops cold_start default_budget_ms 43 (7, 0) (omega arith)
      (omega (arith, planned_after_budget))
