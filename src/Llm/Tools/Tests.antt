-- ===== src/Llm/Tools/Tests.antt =====
-- A concrete environment for packages/llm/src/tools.ts: a model that asks for two tools at once, one
-- of them unknown, and then answers.
use albusforge.Prelude.{
  ◌≡◌, refl, ℕ, zero, suc, ◌==◌, String, [], ◌∷◌, none, some, false, trim, join,
}
use albusforge.Llm.Types.{Role, Effort, StopReason}
use albusforge.Llm.Tools.{
  ToolBlock, Message, ToolResponse, Executed, ToolLoopOutcome, finished, Env, Options,
  run_tool_loop, iterations, iterate, on_created, on_stop_reason, after_uses, run_uses, use_tool,
  on_executed, finish, text_of,
}

abbrev two_uses : ToolResponse String
two_uses = record {
  stop_reason = StopReason.tool_use;
  content =
      ToolBlock.other "thinking"
      ∷ ToolBlock.use_of (record { id = "a"; name = "range"; input = "{}" })
      ∷ ToolBlock.use_of (record { id = "b"; name = "drop_table"; input = "{}" })
      ∷ [];
}

abbrev says : ℕ → ToolResponse String
says zero = two_uses
says (suc n) = record { stop_reason = StopReason.end_turn; content = ToolBlock.text " 21 °C " ∷ [] }

-- The world is the number of requests so far.
abbrev model : Env
model = record {
  World = ℕ;
  Json = String;
  stringify = λ j. j;
  error_object = λ code. code;
  is_aborted = λ n. false;
  create = λ r n. (some (says n), suc n);
  on_response = λ r n. n;
  has_executor = λ name. name == "range";
  execute = λ name input n. (Executed.returned "[21]" "1 row", n);
  on_tool_call = λ name note n. n;
}

abbrev options : Options String
options = record {
  model = "claude-opus-5";
  route = record {
    name = "ask.answer";
    stage = "ask";
    prompt = "p";
    cached_context = none;
    effort = Effort.low;
    max_tokens = 1000;
    retry_max_tokens = 2000;
  };
  tools = "[]";
  messages = Message.given (record { role = Role.user; content = "how warm is it?" }) ∷ [];
  max_iterations = 4;
  max_tokens = 1000;
}

run_tool_loop_run : run_tool_loop model options 0 ≡ finished (ToolLoopOutcome.ok "21 °C" 2 2) 2
unfolding run_tool_loop iterations iterate on_created on_stop_reason after_uses run_uses use_tool
    on_executed finish text_of trim join
run_tool_loop_run = refl
