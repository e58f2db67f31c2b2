-- ===== src/Tables.antt =====
-- packages/db/src/schema/builds.ts: the tables of builds, their messages and their specs, as lists of
-- rows; times are in microseconds. A jsonb column that the code parses again is of a type `J`.
use albusforge.Prelude.{ℕ, String, Option, List}
use albusforge.Intake.Spec.{OpenQuestion}

pub data BuildStatus : Type 0 where
  asking specifying planning coding bodying ready ordered : BuildStatus

pub data MessageRole : Type 0 where
  user assistant : MessageRole

pub record Build : Type 0 where
  pub id : String
  pub tenant_id : Option String
  pub anon_owner_hash : Option String
  pub status : BuildStatus
  pub ask_text : String
  pub created_at : ℕ
  pub updated_at : ℕ

pub record BuildMessage : Type 0 where
  pub id : String
  pub build_id : String
  pub role : MessageRole
  pub text : String
  pub client_message_id : Option String
  pub created_at : ℕ

-- The confidence is in sixths.
pub record SpecVersion (J : Type 0) : Type 0 where
  pub build_id : String
  pub version : ℕ
  pub content : J
  pub confidence : ℕ
  pub open_questions : List OpenQuestion

-- The cost is in millionths of a dollar, as Llm.Pricing has it.
pub record LlmCall : Type 0 where
  pub build_id : Option String
  pub tenant_id : Option String
  pub anon_owner_hash : Option String
  pub stage : String
  pub model : String
  pub input_tokens : ℕ
  pub output_tokens : ℕ
  pub cache_read_input_tokens : ℕ
  pub cache_creation_input_tokens : ℕ
  pub cost_usd : ℕ
  pub stop_reason : Option String

pub record Tables (J : Type 0) : Type 0 where
  pub builds : List Build
  pub build_messages : List BuildMessage
  pub specs : List (SpecVersion J)
