-- ===== src/Llm/Call/Loop.antt =====
-- packages/llm/src/call.ts, `validate` and `callStructured`: the loop, over an `Env`.
pub mod Ledger
pub mod Budget
pub mod Account
mod Tests
use albusforge.Prelude.{
  ℕ, zero, suc, ◌+◌, String, Bool, true, false, not, ◌&&◌, ◌||◌, List, [], ◌∷◌, ◌++◌, Option, none,
  some, leb, ltb, eqb, max, if◌then◌else◌, get_elem?, map, join, ◌+++◌,
}
use albusforge.Llm.Types.{LlmMessage, LlmRoute, LlmRequest, build_request, StopReason, LlmResponse}
use albusforge.Llm.Call.{
  CallFailure, Reason, CallDiagnostic, CallResult, ok, fail, max_calls, connection_backoff_ms,
  response_text, Issue, Parsed, SafeParse, Validation, valid, invalid, bare, issue_detail, mismatch,
  Thrown, is_abort, provider_diagnostic, repair_turn, Answer, answered, threw, Env, Options,
  CallState, Next, again, done, reject, Outcome, returned, rejected, start,
}

-- An HTTP status marks an error that the API answered.
abbrev unanswered : Option ℕ → Bool
unanswered none = true
unanswered (some status) = false

-- `attempts > 1 ? { attempts } : {}`
abbrev with_attempts : ℕ → CallDiagnostic → CallDiagnostic
with_attempts n d = record d { attempts = if ltb 1 n then some n else none }

-- The fuel: three reconnections, two further calls and the first one.
abbrev pub rounds : ℕ
rounds = 6

module _ {T : Type 0} (env : Env T) (o : Options) where
  open env use {
    World, Json, json_parse, safe_parse, is_aborted, tokens_used, create, meter, on_meter_error,
    pause,
  }

  check_value : SafeParse T → Validation T
  check_value (SafeParse.success v) = valid v
  check_value (SafeParse.error issues) =
      invalid ("Schema mismatch: " +++ join "; " (map issue_detail issues)) (mismatch issues)

  check_json : Parsed Json → Validation T
  check_json (Parsed.thrown message) =
      invalid ("Not valid JSON: " +++ message) (bare Reason.invalid_json)
  check_json (Parsed.json j) = check_value (safe_parse j)

  pub validate : String → Validation T
  unfolding check_json check_value
  validate text = check_json (json_parse text)

  pub request_of : CallState → LlmRequest
  request_of s = build_request o.route o.model s.max_tokens s.transcript

  -- The `catch` of the request: a connection that failed is tried again after its backoff.
  pub on_throw : Thrown → CallState → World → Next T World
  on_throw e s w =
      let gone = is_abort (is_aborted w) e in
      let diagnostic = provider_diagnostic e gone in
      let failure = if gone then CallFailure.deadline else CallFailure.provider_error in
      let give_up : Next T World =
        done (fail failure s.calls (some (with_attempts s.attempts diagnostic))) w in
      elim (get_elem? connection_backoff_ms s.reconnects) [
        | none ↦ give_up
        | some backoff ↦
            if not gone && unanswered diagnostic.status
            then again (record s { reconnects = suc s.reconnects }) (pause backoff w)
            else give_up
      ]

  on_validation : Validation T → String → CallState → World → Next T World
  on_validation (valid v) text s w = done (ok v s.calls) w
  on_validation (invalid detail diagnostic) text s w =
      if s.repaired
      then done (fail CallFailure.invalid_output s.calls (some diagnostic)) w
      else again (record s { repaired = true; transcript = o.messages ++ repair_turn text detail })
          w

  -- The `switch` on the stop reason.
  pub on_stop : StopReason → LlmResponse → CallState → World → Next T World
  unfolding on_validation
  on_stop StopReason.refusal response s w = done (fail CallFailure.refusal s.calls none) w
  on_stop StopReason.max_tokens response s w =
      if s.truncation_retried
      then done (fail CallFailure.max_tokens s.calls none) w
      else again
          (record s {
            truncation_retried = true;
            max_tokens = max s.max_tokens o.route.retry_max_tokens;
          })
          w
  on_stop StopReason.context_window_exceeded response s w =
      done (fail CallFailure.max_tokens s.calls none) w
  on_stop stop response s w =
      let text = response_text response in on_validation (validate text) text s w

  -- The meter first: its failure is reported and passed over.
  pub metered : LlmResponse → World → World
  metered response w =
      let (stored, w') = meter response w in if stored then w' else on_meter_error w'

  pub on_answer : Answer → CallState → World → Next T World
  on_answer (threw e) s w = on_throw e s w
  on_answer (answered response) s w =
      on_stop response.stop_reason response (record s { calls = suc s.calls }) (metered response w)

  -- `tokenCeiling && (await tokenCeiling.used()) >= tokenCeiling.limit`
  pub ceiling_reached : World → Option Bool × World
  ceiling_reached w = elim o.ceiling [
    | none ↦ (some false, w)
    | some limit ↦
        let (used, w') = tokens_used w in
        (elim used [ none ↦ none | some n ↦ some (leb limit n) ], w')
  ]

  pub ask : CallState → World → Next T World
  ask s w =
      let (answer, w') = create (request_of s) w in
      on_answer answer (record s { attempts = suc s.attempts }) w'

  -- The read of the ceiling is outside of every `try`.
  pub on_ceiling : Option Bool → CallState → World → Next T World
  on_ceiling none s w = reject w
  on_ceiling (some spent) s w =
      if spent then done (fail CallFailure.token_ceiling s.calls none) w else ask s w

  -- One round of the loop's body.
  pub turn : CallState → World → Next T World
  turn s w =
      let (spent, w') = ceiling_reached w in
      if is_aborted w
      then done (fail CallFailure.deadline s.calls none) w
      else on_ceiling spent s w'

  -- The failure that is returned past the loop.
  abbrev out_of_calls : CallState → CallResult T
  out_of_calls s =
      let failure =
        if s.truncation_retried then CallFailure.max_tokens else CallFailure.invalid_output in
      fail failure s.calls none

  -- `while (calls < MAX_CALLS)`, on fuel; `none` means that the fuel ran out.
  pub loop : ℕ → CallState → World → Option (Outcome T × World)
  loop zero s w = none
  loop (suc fuel) s w =
      if ltb s.calls max_calls
      then elim (turn s w) [
        | done r w' ↦ some (returned r, w')
        | reject w' ↦ some (rejected, w')
        | again s' w' ↦ loop fuel s' w'
      ]
      else some (returned (out_of_calls s), w)

  pub call_structured : World → Option (Outcome T × World)
  call_structured w = loop rounds (start o) w
