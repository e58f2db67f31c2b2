-- ===== src/Llm/Tools.antt =====
-- packages/llm/src/tools.ts: the cycle of a request, the tools that it asks for and the next
-- request. The provider, the executors, the signal and the callbacks act on a state of the world;
-- the callbacks are taken to return. The SDK's types keep the fields that the package reads.
pub mod Exchange
mod Tests
use albusforge.Prelude.{
  ℕ, zero, suc, String, Bool, true, false, List, [], ◌∷◌, ◌++◌, Option, none, some, if◌then◌else◌,
  ◌==◌, trim, join,
}
use albusforge.Llm.Types.{Effort, LlmMessage, LlmRoute, SystemBlock, system_blocks, StopReason}

-- `ToolUseBlock`
pub record ToolUse (J : Type 0) : Type 0 where
  pub id : String
  pub name : String
  pub input : J

-- A block of an answer; `other` is a thinking block, say, which goes back as it came.
pub data ToolBlock (J : Type 0) : Type 0 where
  text : String → ToolBlock J
  use_of : ToolUse J → ToolBlock J
  other : J → ToolBlock J

-- `ToolResultBlock`, its content written as text.
pub record ToolResult : Type 0 where
  pub tool_use_id : String
  pub is_error : Bool
  pub content : String

-- A message of the transcript: one that the caller gave, an answer, or the results of its tools.
pub data Message (J : Type 0) : Type 0 where
  given : LlmMessage → Message J
  assistant : List (ToolBlock J) → Message J
  results_of : List ToolResult → Message J

pub record ToolRequest (J : Type 0) : Type 0 where
  pub model : String
  pub max_tokens : ℕ
  pub effort : Effort
  pub system : List SystemBlock
  pub tools : J
  pub messages : List (Message J)

pub record ToolResponse (J : Type 0) : Type 0 where
  pub stop_reason : StopReason
  pub content : List (ToolBlock J)

-- What an executor returns, or the `code` of the error that it throws.
pub data Executed (J : Type 0) : Type 0 where
  returned : (result note : J) → Executed J
  threw : Option String → Executed J

pub data LoopFailure : Type 0 where
  max_iterations refusal max_tokens no_text provider_error : LoopFailure

pub data ToolLoopOutcome : Type 0 where
  ok : String → (tool_calls iterations : ℕ) → ToolLoopOutcome
  fail : LoopFailure → (tool_calls iterations : ℕ) → ToolLoopOutcome

-- The promise of the loop: its outcome, or a rejection once the signal is aborted.
pub data Run (W : Type 0) : Type 0 where
  finished : ToolLoopOutcome → W → Run W
  rejected : W → Run W

pub record Env : Type 1 where
  pub World : Type 0
  pub Json : Type 0
  pub stringify : Json → String
  -- `{ error: code }`
  pub error_object : String → Json
  pub is_aborted : World → Bool
  -- `none` if the provider throws.
  pub create : ToolRequest Json → World → Option (ToolResponse Json) × World
  pub on_response : ToolResponse Json → World → World
  pub has_executor : String → Bool
  pub execute : String → Json → World → Executed Json × World
  pub on_tool_call : String → Json → World → World

pub record Options (J : Type 0) : Type 0 where
  pub model : String
  pub route : LlmRoute
  pub tools : J
  pub messages : List (Message J)
  pub max_iterations : ℕ
  pub max_tokens : ℕ

abbrev pub uses : {J : Type 0} → List (ToolBlock J) → List (ToolUse J)
uses [] = []
uses (ToolBlock.use_of u ∷ bs) = u ∷ uses bs
uses (ToolBlock.text t ∷ bs) = uses bs
uses (ToolBlock.other j ∷ bs) = uses bs

abbrev texts : {J : Type 0} → List (ToolBlock J) → List String
texts [] = []
texts (ToolBlock.text t ∷ bs) = t ∷ texts bs
texts (ToolBlock.use_of u ∷ bs) = texts bs
texts (ToolBlock.other j ∷ bs) = texts bs

pub text_of : {J : Type 0} → ToolResponse J → String
text_of response = trim (join "\n" (texts response.content))

abbrev pub build_tool_request : {J : Type 0} → Options J → List (Message J) → ToolRequest J
build_tool_request o messages = record {
  model = o.model;
  max_tokens = o.max_tokens;
  effort = o.route.effort;
  system = system_blocks o.route;
  tools = o.tools;
  messages = messages;
}

-- The results of one answer's tools, and the number of calls so far.
pub data Uses (W : Type 0) : Type 0 where
  ran : List ToolResult → ℕ → W → Uses W
  stopped : W → Uses W

module _ (env : Env) (o : Options env.Json) where
  open env use {
    World, Json, stringify, error_object, is_aborted, create, on_response, has_executor, execute,
    on_tool_call,
  }

  abbrev error_result : ToolUse Json → String → ToolResult
  error_result u code = record {
    tool_use_id = u.id;
    is_error = true;
    content = stringify (error_object code);
  }

  -- `"code" in error ? String(error.code) : "failed"`
  abbrev code_or_failed : Option String → String
  code_or_failed none = "failed"
  code_or_failed (some code) = code

  -- The `try` around an executor; `none` where its error is thrown on.
  pub on_executed : ToolUse Json → Executed Json → World → Option ToolResult × World
  on_executed u (Executed.returned result note) w = (
    some (record { tool_use_id = u.id; is_error = false; content = stringify result }),
    on_tool_call u.name note w,
  )
  on_executed u (Executed.threw code) w =
      if is_aborted w then (none, w) else (some (error_result u (code_or_failed code)), w)

  pub use_tool : ToolUse Json → World → Option ToolResult × World
  use_tool u w =
      let (executed, w') = execute u.name u.input w in
      if has_executor u.name
      then on_executed u executed w'
      else (some (error_result u "unknown_tool"), w)

  -- The `for` over the tool uses of an answer.
  pub run_uses : List (ToolUse Json) → List ToolResult → ℕ → World → Uses World
  run_uses [] results calls w = ran results calls w
  run_uses (u ∷ us) results calls w = elim (use_tool u w).0 [
    | none ↦ stopped (use_tool u w).1
    | some result ↦ run_uses us (results ++ result ∷ []) (suc calls) (use_tool u w).1
  ]

  -- An answer without tools: its text is the outcome.
  pub finish : ToolResponse Json → ℕ → ℕ → ToolLoopOutcome
  finish response calls iteration =
      let text = text_of response in
      if text == ""
      then ToolLoopOutcome.fail LoopFailure.no_text calls iteration
      else ToolLoopOutcome.ok text calls iteration

  -- After the tools: `go` is the next iteration.
  pub after_uses :
      (List (Message Json) → ℕ → World → Run World)
      → List (Message Json)
      → List (ToolBlock Json)
      → Uses World
      → Run World
  after_uses go messages content (ran results calls w) =
      go (messages ++ Message.assistant content ∷ Message.results_of results ∷ []) calls w
  after_uses go messages content (stopped w) = rejected w

  pub on_stop_reason :
      (List (Message Json) → ℕ → World → Run World)
      → StopReason
      → ToolResponse Json
      → (iteration : ℕ) → List (Message Json)
      → (calls : ℕ) → World
      → Run World
  on_stop_reason go StopReason.refusal response iteration messages calls w =
      finished (ToolLoopOutcome.fail LoopFailure.refusal calls iteration) w
  on_stop_reason go StopReason.max_tokens response iteration messages calls w =
      finished (ToolLoopOutcome.fail LoopFailure.max_tokens calls iteration) w
  on_stop_reason go StopReason.tool_use response iteration messages calls w =
      after_uses go messages response.content (run_uses (uses response.content) [] calls w)
  on_stop_reason go stop response iteration messages calls w =
      finished (finish response calls iteration) w

  pub on_created :
      (List (Message Json) → ℕ → World → Run World)
      → (iteration : ℕ) → List (Message Json)
      → (calls : ℕ) → Option (ToolResponse Json)
      → World
      → Run World
  on_created go iteration messages calls none w =
      finished (ToolLoopOutcome.fail LoopFailure.provider_error calls iteration) w
  on_created go iteration messages calls (some response) w =
      on_stop_reason go response.stop_reason response iteration messages calls
        (on_response response w)

  -- The body of the `for`.
  pub iterate :
      (List (Message Json) → ℕ → World → Run World)
      → (iteration : ℕ) → List (Message Json)
      → (calls : ℕ) → World
      → Run World
  iterate go iteration messages calls w =
      let (created, w') = create (build_tool_request o messages) w in
      if is_aborted w then rejected w else on_created go iteration messages calls created w'

  -- `left` iterations are left after `past` ones.
  pub iterations : (left past : ℕ) → List (Message Json) → (calls : ℕ) → World → Run World
  iterations zero past messages calls w =
      finished (ToolLoopOutcome.fail LoopFailure.max_iterations calls o.max_iterations) w
  iterations (suc left) past messages calls w =
      iterate (iterations left (suc past)) (suc past) messages calls w

  pub run_tool_loop : World → Run World
  run_tool_loop w = iterations o.max_iterations 0 o.messages 0 w
