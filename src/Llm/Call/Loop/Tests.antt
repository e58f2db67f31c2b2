-- ===== src/Llm/Call/Loop/Tests.antt =====
-- A concrete environment for packages/llm/src/call.ts: a model that is cut off once, then gives
-- something that is not JSON, then something that is.
use albusforge.Prelude.{
  ◌≡◌, refl, ℕ, zero, suc, ◌==◌, String, [], ◌∷◌, none, some, true, false, if◌then◌else◌, join,
}
use albusforge.Llm.Types.{Role, Effort, StopReason, Block, LlmResponse}
use albusforge.Llm.Call.{response_text, Parsed, SafeParse, answered, Env, Options, ok, returned}
use albusforge.Llm.Call.Loop.{
  call_structured, loop, turn, ceiling_reached, on_ceiling, ask, on_answer, on_stop, metered,
  validate,
}
use albusforge.Llm.Call.Loop.Ledger.{logged}
use albusforge.Llm.Call.Loop.Account.{Ends, call_structured-accounted}

abbrev says : ℕ → LlmResponse
says zero = record { stop_reason = StopReason.max_tokens; content = [] }
says (suc zero) = record { stop_reason = StopReason.end_turn; content = Block.text "No" ∷ [] }
says (suc (suc n)) = record { stop_reason = StopReason.end_turn; content = Block.text "{}" ∷ [] }

-- The world is the number of requests so far.
abbrev model : Env ℕ
model = record {
  World = ℕ;
  Json = String;
  json_parse = λ s. if s == "{}" then Parsed.json s else Parsed.thrown "Unexpected token";
  safe_parse = λ j. SafeParse.success 7;
  is_aborted = λ n. false;
  tokens_used = λ n. (some 0, n);
  create = λ r n. (answered (says n), suc n);
  meter = λ r n. (true, n);
  on_meter_error = λ n. n;
  pause = λ ms n. n;
}

abbrev options : Options
options = record {
  route = record {
    name = "intake.spec";
    stage = "intake";
    prompt = "p";
    cached_context = none;
    effort = Effort.low;
    max_tokens = 1000;
    retry_max_tokens = 2000;
  };
  model = "claude-opus-5";
  messages = record { role = Role.user; content = "a thermometer" } ∷ [];
  ceiling = some 100000;
}

call_structured_run : call_structured model options 0 ≡ some (returned (ok 7 3), 3)
unfolding call_structured loop turn ceiling_reached on_ceiling ask on_answer on_stop metered
    validate response_text join
call_structured_run = refl

call_structured-accounted_example :
    Ends model options (call_structured (logged model) options (0, []))
call_structured-accounted_example = call_structured-accounted model options 0
