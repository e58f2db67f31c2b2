-- ===== src/Llm/Call.antt =====
-- packages/llm/src/call.ts: one structured model call with its retries.
-- The provider, the meter, the abort signal, the clock and the schema library are an `Env`: their
-- operations act on a state of the world. A thrown value keeps the fields that the source reads.
pub mod Loop
use albusforge.Prelude.{
  ℕ, zero, suc, ◌+◌, String, Bool, true, false, not, ◌&&◌, ◌||◌, List, [], ◌∷◌, ◌++◌, Option, none,
  some, leb, ltb, eqb, max, ◌==◌, if◌then◌else◌, take, get_elem?, map, unique, trim, clip, join,
  ◌+++◌,
}
use albusforge.Llm.Types.{
  Role, LlmMessage, LlmRoute, LlmRequest, build_request, StopReason, Block, LlmResponse,
}

pub data CallFailure : Type 0 where
  refusal max_tokens invalid_output token_ceiling deadline provider_error : CallFailure

pub data Reason : Type 0 where
  invalid_json schema_mismatch provider_error aborted : Reason

pub record CallDiagnostic : Type 0 where
  pub reason : Reason
  pub paths : List String
  pub codes : List String
  pub error_name : Option String
  pub status : Option ℕ
  pub request_id : Option String
  pub cause_code : Option String
  pub attempts : Option ℕ

pub data CallResult (T : Type 0) : Type 0 where
  ok : T → (calls : ℕ) → CallResult T
  fail : CallFailure → (calls : ℕ) → Option CallDiagnostic → CallResult T

abbrev pub max_calls : ℕ
max_calls = 3

abbrev pub connection_backoff_ms : List ℕ
connection_backoff_ms = 1000 ∷ 3000 ∷ 6000 ∷ []

abbrev pub max_repair_detail : ℕ
max_repair_detail = 1500

abbrev pub max_diagnostic_paths : ℕ
max_diagnostic_paths = 10

text_blocks : List Block → List String
text_blocks [] = []
text_blocks (Block.text t ∷ bs) = t ∷ text_blocks bs
text_blocks (Block.other ∷ bs) = text_blocks bs

unfoldable pub response_text : LlmResponse → String
unfolding text_blocks
response_text response = join "" (text_blocks response.content)

-- An issue that the schema library reports; the elements of `path` are texts already.
pub record Issue : Type 0 where
  pub path : List String
  pub message : String
  pub code : String

-- `JSON.parse` either returns a value or throws, with the message that it throws.
pub data Parsed (J : Type 0) : Type 0 where
  json : J → Parsed J
  thrown : String → Parsed J

pub data SafeParse (T : Type 0) : Type 0 where
  success : T → SafeParse T
  error : List Issue → SafeParse T

pub data Validation (T : Type 0) : Type 0 where
  valid : T → Validation T
  invalid : (detail : String) → CallDiagnostic → Validation T

abbrev pub bare : Reason → CallDiagnostic
bare reason = record {
  reason = reason;
  paths = [];
  codes = [];
  error_name = none;
  status = none;
  request_id = none;
  cause_code = none;
  attempts = none;
}

issue_path : Issue → String
issue_path issue = let p = join "." issue.path in if p == "" then "(root)" else p

issue_detail : Issue → String
issue_detail issue = issue_path issue +++ ": " +++ issue.message

mismatch : List Issue → CallDiagnostic
mismatch issues = record (bare Reason.schema_mismatch) {
  paths = take max_diagnostic_paths (unique (map issue_path issues));
  codes = unique (map (λ (i : Issue). i.code) issues);
}

-- A thrown value: an `Error` with its cause, or anything else.
pub record Fields : Type 0 where
  pub name : String
  pub constructor_name : Option String
  pub code : Option String
  pub status : Option ℕ
  pub request_id : Option String

pub data Thrown : Type 0 where
  error : Fields → Thrown → Thrown
  not_error : Fields → Thrown

abbrev fields : Thrown → Fields
fields (error f cause) = f
fields (not_error f) = f

-- `error.constructor?.name ?? error.name`
or_else : Option String → String → String
or_else none s = s
or_else (some t) s = t

error_class : Thrown → Option String
unfolding or_else
error_class (error f cause) =
    some (if f.name == "Error" then or_else f.constructor_name f.name else f.name)
error_class (not_error f) = none

has_class : String → Option String → Bool
has_class s none = false
has_class s (some t) = t == s

-- `isAbort`, of what the signal says.
pub is_abort : Bool → Thrown → Bool
unfolding error_class has_class
is_abort signalled e = signalled || has_class "APIUserAbortError" (error_class e)

-- The first `code` in the cause chain, five deep.
cause_code : ℕ → Thrown → Option String
cause_code zero e = none
cause_code (suc d) (not_error f) = none
cause_code (suc d) (error f cause) =
    let rest = cause_code d cause in elim f.code [ none ↦ rest | some c ↦ some c ]

pub provider_diagnostic : Thrown → Bool → CallDiagnostic
unfolding error_class cause_code
provider_diagnostic e is_aborted =
    record (bare (if is_aborted then Reason.aborted else Reason.provider_error)) {
      error_name = error_class e;
      status = (fields e).status;
      request_id = (fields e).request_id;
      cause_code = cause_code 5 e;
    }

pub repair_turn : String → String → List LlmMessage
repair_turn text detail =
    record { role = Role.assistant; content = if trim text == "" then "{}" else text }
    ∷ record {
      role = Role.user;
      content =
          "That output was rejected. "
          +++ clip max_repair_detail detail
          +++ "\nReturn the whole corrected JSON object, matching the schema exactly.";
    }
    ∷ []

pub data Answer : Type 0 where
  answered : LlmResponse → Answer
  threw : Thrown → Answer

-- What the call is given: the schema library, and the world that it acts on.
pub record Env (T : Type 0) : Type 1 where
  pub World : Type 0
  pub Json : Type 0
  pub json_parse : String → Parsed Json
  pub safe_parse : Json → SafeParse T
  -- `signal?.aborted`
  pub is_aborted : World → Bool
  -- `tokenCeiling.used()`: `none` if it rejects.
  pub tokens_used : World → Option ℕ × World
  pub create : LlmRequest → World → Answer × World
  -- `meter.record`: false if it rejects.
  pub meter : LlmResponse → World → Bool × World
  pub on_meter_error : World → World
  pub pause : ℕ → World → World

pub record Options : Type 0 where
  pub route : LlmRoute
  pub model : String
  pub messages : List LlmMessage
  -- `tokenCeiling?.limit`
  pub ceiling : Option ℕ

-- The local variables of the loop.
pub record CallState : Type 0 where
  pub transcript : List LlmMessage
  pub max_tokens : ℕ
  pub truncation_retried : Bool
  pub repaired : Bool
  pub calls : ℕ
  pub attempts : ℕ
  pub reconnects : ℕ

pub data Next (T W : Type 0) : Type 0 where
  again : CallState → W → Next T W
  done : CallResult T → W → Next T W
  reject : W → Next T W

-- How a call ends: the promise resolves with a result, or rejects, with what `tokenCeiling.used` threw.
pub data Outcome (T : Type 0) : Type 0 where
  returned : CallResult T → Outcome T
  rejected : Outcome T

abbrev pub start : Options → CallState
start o = record {
  transcript = o.messages;
  max_tokens = o.route.max_tokens;
  truncation_retried = false;
  repaired = false;
  calls = 0;
  attempts = 0;
  reconnects = 0;
}
