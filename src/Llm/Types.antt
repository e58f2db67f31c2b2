-- ===== src/Llm/Types.antt =====
-- packages/llm/src/types.ts and request.ts: what goes to the model and what comes back. The SDK's
-- types are kept to the fields that the package reads.
use albusforge.Prelude.{ℕ, String, List, [], ◌∷◌, Option, none, some, Bool, true, false}

pub data Effort : Type 0 where
  low medium high xhigh max : Effort

pub data Role : Type 0 where
  user assistant system : Role

pub record LlmMessage : Type 0 where
  pub role : Role
  pub content : String

pub record LlmRoute : Type 0 where
  pub name : String
  pub stage : String
  pub prompt : String
  pub cached_context : Option String
  pub effort : Effort
  pub max_tokens : ℕ
  pub retry_max_tokens : ℕ

-- A text block of the system prompt, and whether the cache breakpoint stands on it.
pub record SystemBlock : Type 0 where
  pub text : String
  pub cached : Bool

pub system_blocks : LlmRoute → List SystemBlock
system_blocks route = elim route.cached_context [
  | none ↦ record { text = route.prompt; cached = true } ∷ []
  | some context ↦
      record { text = route.prompt; cached = false } ∷ record { text = context; cached = true } ∷ []
]

-- The constant fields (betas, fallbacks, thinking) are left out, as is the JSON schema of the
-- output format, which the SDK derives.
pub record LlmRequest : Type 0 where
  pub model : String
  pub max_tokens : ℕ
  pub effort : Effort
  pub system : List SystemBlock
  pub messages : List LlmMessage

pub build_request : LlmRoute → String → ℕ → List LlmMessage → LlmRequest
build_request route model max_tokens messages = record {
  model = model;
  max_tokens = max_tokens;
  effort = route.effort;
  system = system_blocks route;
  messages = messages;
}

pub data StopReason : Type 0 where
  refusal max_tokens context_window_exceeded tool_use end_turn : StopReason

pub data Block : Type 0 where
  text : String → Block
  other : Block

pub record LlmResponse : Type 0 where
  pub stop_reason : StopReason
  pub content : List Block
