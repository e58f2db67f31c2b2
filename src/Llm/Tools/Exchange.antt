-- ===== src/Llm/Tools/Exchange.antt =====
-- packages/llm/src/tools.ts: the loop in a world that records the requests, the answers and the
-- answers that were reported.
use albusforge.Prelude.{
  ℕ, ◌+◌, ◌≤◌, ◌≡◌, String, true, List, [], ◌∷◌, ◌++◌, Option, none, some, map, All, length,
}
use albusforge.Llm.Types.{StopReason}
use albusforge.Llm.Tools.{
  ToolUse, ToolBlock, ToolResult, Message, ToolRequest, ToolResponse, ToolLoopOutcome, Run,
  finished, rejected, Env, Options, uses, Uses, ran, stopped,
}

pub data Effect (J : Type 0) : Type 0 where
  sent : ToolRequest J → Option (ToolResponse J) → Effect J
  reported : ToolResponse J → Effect J

-- The same world with a record of the requests and of the reported answers, newest first.
abbrev pub logged : Env → Env
logged env = record {
  World = env.World × List (Effect env.Json);
  Json = env.Json;
  stringify = env.stringify;
  error_object = env.error_object;
  is_aborted = λ s. env.is_aborted s.0;
  create = λ r s. let (a, w) = env.create r s.0 in (a, (w, sent r a ∷ s.1));
  on_response = λ r s. (env.on_response r s.0, reported r ∷ s.1);
  has_executor = env.has_executor;
  execute = λ name input s. let (e, w) = env.execute name input s.0 in (e, (w, s.1));
  on_tool_call = λ name note s. (env.on_tool_call name note s.0, s.1);
}

abbrev result_ids : List ToolResult → List String
result_ids rs = map (λ (r : ToolResult). r.tool_use_id) rs

abbrev pub tool_calls_of : ToolLoopOutcome → ℕ
tool_calls_of (ToolLoopOutcome.ok text calls n) = calls
tool_calls_of (ToolLoopOutcome.fail failure calls n) = calls

abbrev pub iterations_of : ToolLoopOutcome → ℕ
iterations_of (ToolLoopOutcome.ok text calls n) = n
iterations_of (ToolLoopOutcome.fail failure calls n) = n

module _ {J : Type 0} where
  abbrev pub requests : List (Effect J) → List (ToolRequest J)
  requests [] = []
  requests (sent r a ∷ l) = r ∷ requests l
  requests (reported a ∷ l) = requests l

  abbrev pub answers : List (Effect J) → List (ToolResponse J)
  answers [] = []
  answers (sent r none ∷ l) = answers l
  answers (sent r (some a) ∷ l) = a ∷ answers l
  answers (reported a ∷ l) = answers l

  abbrev pub reports : List (Effect J) → List (ToolResponse J)
  reports [] = []
  reports (sent r a ∷ l) = reports l
  reports (reported a ∷ l) = a ∷ reports l

  -- The tool uses of an answer that stopped for them.
  abbrev uses_asked : StopReason → List (ToolBlock J) → ℕ
  uses_asked StopReason.tool_use content = length (uses content)
  uses_asked stop content = 0

  abbrev pub asked : List (ToolResponse J) → ℕ
  asked [] = 0
  asked (a ∷ l) = uses_asked a.stop_reason a.content + asked l

  abbrev use_ids : List (ToolUse J) → List String
  use_ids us = map (λ (u : ToolUse J). u.id) us

  -- A transcript grows by exchanges: an answer, then one message with a result for each of its tool
  -- uses, in their order.
  pub data IsExchange (first : List (Message J)) : List (Message J) → Type 0 where
    opening : IsExchange first first
    exchange :
        {messages : List (Message J)} (content : List (ToolBlock J)) (results : List ToolResult)
        → IsExchange first messages
        → result_ids results ≡ use_ids (uses content)
        → IsExchange first (messages ++ Message.assistant content ∷ Message.results_of results ∷ [])

module _ (env : Env) (o : Options env.Json) where
  abbrev Log : Type 0
  Log = List (Effect env.Json)

  -- Between iterations.
  record IsKept (past calls : ℕ) (messages : List (Message env.Json)) (l : Log) : Type 0 where
    paired : IsExchange o.messages messages
    each_paired : All (λ (r : ToolRequest env.Json). IsExchange o.messages r.messages) (requests l)
    sends : length (requests l) ≡ past
    each_reported : reports l ≡ answers l
    counted : asked (answers l) ≡ calls

  -- What the loop leaves: how many requests there were is bounded, and every one holds up.
  pub record IsSettled (l : Log) : Type 0 where
    pub within : length (requests l) ≤ o.max_iterations
    pub each_paired :
        All (λ (r : ToolRequest env.Json). IsExchange o.messages r.messages) (requests l)
    pub each_reported : reports l ≡ answers l

  abbrev pub Settles : Run (env.World × Log) → Type 0
  Settles (finished outcome w) =
      IsSettled w.1
      × (iterations_of outcome ≡ length (requests w.1))
      × (tool_calls_of outcome ≡ asked (answers w.1))
  Settles (rejected w) = IsSettled w.1 × (env.is_aborted w.0 ≡ true)

  Names : ToolUse env.Json → Option ToolResult → env.World → Type 0
  Names u none w = env.is_aborted w ≡ true
  Names u (some r) w = r.tool_use_id ≡ u.id

  abbrev Runs :
      List (ToolUse env.Json) → List ToolResult → ℕ → Log → Uses (env.World × Log) → Type 0
  Runs us results calls l (ran rs n w) =
      (result_ids rs ≡ result_ids results ++ use_ids us) × (n ≡ calls + length us) × (w.1 ≡ l)
  Runs us results calls l (stopped w) = (w.1 ≡ l) × (env.is_aborted w.0 ≡ true)

  -- What the loop needs of the iterations that are left.
  abbrev Continues :
      ℕ → (List (Message env.Json) → ℕ → env.World × Log → Run (env.World × Log)) → Type 0
  Continues past go =
      (messages : List (Message env.Json)) (calls : ℕ) (w : env.World × Log)
      → IsKept past calls messages w.1
      → Settles (go messages calls w)
