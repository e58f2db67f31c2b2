-- ===== src/Intake/Turn.antt =====
-- apps/intake/src/turn.ts: one turn without the database. The scope filter of policy.ts, the template's
-- rendering, the catalogue and `callStructured` are operations of a `Context`, of which the last
-- two act on a state of the world; logging is left out.
pub mod Told
pub mod Conversation
mod Tests
use albusforge.Prelude.{
  ℕ, ◌-◌, min, String, Bool, true, false, ◌||◌, List, [], ◌∷◌, ◌++◌, Option, none, some, ◌==◌,
  if◌then◌else◌, eqb, any, map,
}
use albusforge.Tables.{MessageRole}
use albusforge.Llm.Types.{Effort, Role, LlmMessage, LlmRoute}
use albusforge.Llm.Call.{CallFailure, CallResult, ok, fail}
use albusforge.Intake.Spec.{Spec, ReplyKind, SpecTurn}
use albusforge.Intake.Replies.{
  ScopeCategory, out_of_scope_reply, refusal_reply, off_topic_reply, fallback_reply,
  token_ceiling_reply,
}
use albusforge.Intake.Questions.{max_clarification_rounds}
use albusforge.Intake.Merge.{Vocabulary}
use albusforge.Intake.Decide.{Decision, DecideInput, SpecCodec, decide}

pub record TranscriptMessage : Type 0 where
  pub role : MessageRole
  pub text : String

pub record TurnInput : Type 0 where
  pub transcript : List TranscriptMessage
  pub previous : Option Spec
  pub rounds_used : ℕ

pub data Reason : Type 0 where
  out_of_scope : ScopeCategory → Reason
  failed : CallFailure → Reason
  off_topic error : Reason

pub data TurnOutcome : Type 0 where
  spec : Decision → TurnOutcome
  reply : Reason → String → TurnOutcome

pub record Catalogue : Type 0 where
  pub text : String
  pub vocabulary : Vocabulary

pub record Context : Type 1 where
  pub World : Type 0
  pub effort : Effort
  pub extract_prompt : String
  pub turn_prompt : String
  pub screen : String → Option ScopeCategory
  -- `renderTemplate`; `none` is its throw, for a placeholder without a value.
  pub render : String → List (String × String) → Option String
  -- `String(n)` and `JSON.stringify(previous, null, 2)`
  pub show : ℕ → String
  pub spec_json : Option Spec → String
  pub codec : SpecCodec
  -- `none` if the catalogue cannot be read.
  pub catalogue : World → Option Catalogue × World
  -- `callStructured`: `none` if it rejects, as it does where `tokensUsed` cannot be read.
  pub call : LlmRoute → List LlmMessage → World → Option (CallResult SpecTurn) × World

abbrev pub extract_max_tokens : ℕ
extract_max_tokens = 8000

abbrev pub extract_retry_max_tokens : ℕ
extract_retry_max_tokens = 16000

pub extract_route : (extract_prompt catalogue_text : String) → Effort → LlmRoute
extract_route prompt catalogue_text effort = record {
  name = "intake.extract.v2";
  stage = "intake";
  prompt = prompt;
  cached_context = some catalogue_text;
  effort = effort;
  max_tokens = extract_max_tokens;
  retry_max_tokens = extract_retry_max_tokens;
}

abbrev is_settled : Option Spec → Bool
is_settled none = false
is_settled (some previous) = previous.settled

round_rule : Option Spec → (left : ℕ) → String
round_rule previous left =
    if is_settled previous || eqb left 0
    then "No rounds are left: ask no questions, and settle with stated assumptions."
    else "You may ask questions this turn if an answer would change the parts."

abbrev pub is_user : MessageRole → Bool
is_user MessageRole.user = true
is_user MessageRole.assistant = false

abbrev role_of : MessageRole → Role
role_of MessageRole.user = Role.user
role_of MessageRole.assistant = Role.assistant

abbrev pub message_of : TranscriptMessage → LlmMessage
message_of m = record { role = role_of m.role; content = m.text }

-- The transcript from its first user message on.
unfoldable pub from_user : List TranscriptMessage → List TranscriptMessage
from_user [] = []
from_user (m ∷ ms) = if is_user m.role then m ∷ ms else from_user ms

-- `slice(Math.max(firstUser, 0))`: all of it, where there is no user message.
unfoldable pub conversation : List TranscriptMessage → List TranscriptMessage
conversation ms = if any (λ (m : TranscriptMessage). is_user m.role) ms then from_user ms else ms

unfoldable pub model_messages : List TranscriptMessage → (turn_context : String) → List LlmMessage
model_messages transcript turn_context =
    map message_of (conversation transcript)
    ++ record { role = Role.system; content = turn_context } ∷ []

abbrev newer_reply : TranscriptMessage → Option String → Option String
newer_reply m (some text) = some text
newer_reply m none = if is_user m.role then none else some m.text

-- `filter(...).at(-1)`, of the assistant's messages.
unfoldable pub previous_reply : List TranscriptMessage → Option String
previous_reply [] = none
previous_reply (m ∷ ms) = newer_reply m (previous_reply ms)

abbrev is_off_topic : Option String → Bool
is_off_topic none = false
is_off_topic (some text) = text == off_topic_reply false || text == off_topic_reply true

unfoldable pub was_off_topic : List TranscriptMessage → Bool
was_off_topic transcript = is_off_topic (previous_reply transcript)

pub failure_reply : CallFailure → String
failure_reply CallFailure.refusal = refusal_reply
failure_reply CallFailure.token_ceiling = token_ceiling_reply
failure_reply CallFailure.max_tokens = fallback_reply
failure_reply CallFailure.invalid_output = fallback_reply
failure_reply CallFailure.deadline = fallback_reply
failure_reply CallFailure.provider_error = fallback_reply

-- `transcript.at(-1)`
unfoldable pub last {ℓ} : {A : Type ℓ} → List A → Option A
last [] = none
last (m ∷ ms) = elim (last ms) [ none ↦ some m | some n ↦ some n ]

module _ (ctx : Context) where
  open ctx use {World, render, show, spec_json, codec, screen, catalogue, call}

  unfoldable pub render_turn_context : Option Spec → (rounds_used : ℕ) → Option String
  unfolding round_rule
  render_turn_context previous rounds_used =
      let left = max_clarification_rounds - rounds_used in
      render ctx.turn_prompt (
        ("rounds_used", show (min rounds_used max_clarification_rounds))
        ∷ ("max_rounds", show max_clarification_rounds)
        ∷ ("round_rule", round_rule previous left)
        ∷ ("spec_json", spec_json previous)
        ∷ [])

  abbrev decided : Option Decision → Option TurnOutcome
  decided none = none
  decided (some decision) = some (TurnOutcome.spec decision)

  unfoldable pub on_kind : TurnInput → Vocabulary → SpecTurn → ReplyKind → Option TurnOutcome
  on_kind input vocabulary turn ReplyKind.off_topic =
      some (TurnOutcome.reply Reason.off_topic (off_topic_reply (was_off_topic input.transcript)))
  on_kind input vocabulary turn ReplyKind.spec = decided (
      decide codec (record {
        previous = input.previous;
        turn = turn;
        vocabulary = vocabulary;
        rounds_used = input.rounds_used;
      }))

  unfoldable pub on_result : TurnInput → Vocabulary → CallResult SpecTurn → Option TurnOutcome
  on_result input vocabulary (fail failure calls diagnostic) =
      some (TurnOutcome.reply (Reason.failed failure) (failure_reply failure))
  on_result input vocabulary (ok turn calls) = on_kind input vocabulary turn turn.reply_kind

  unfoldable pub on_call :
      TurnInput → Vocabulary → Option (CallResult SpecTurn) → Option TurnOutcome
  on_call input vocabulary none = none
  on_call input vocabulary (some result) = on_result input vocabulary result

  -- The model is asked, once the catalogue is read and the context rendered.
  unfoldable pub ask_model :
      TurnInput → Option Catalogue → Option String → World → Option TurnOutcome × World
  ask_model input none turn_context w = (none, w)
  ask_model input (some listing) none w = (none, w)
  ask_model input (some listing) (some turn_context) w =
      let route = extract_route ctx.extract_prompt listing.text ctx.effort in
      let (result, w') = call route (model_messages input.transcript turn_context) w in
      (on_call input listing.vocabulary result, w')

  unfoldable pub on_scope : TurnInput → Option ScopeCategory → World → Option TurnOutcome × World
  on_scope input (some category) w =
      (some (TurnOutcome.reply (Reason.out_of_scope category) (out_of_scope_reply category)), w)
  on_scope input none w =
      let (listing, w') = catalogue w in
      ask_model input listing (render_turn_context input.previous input.rounds_used) w'

  -- `none` where the source throws.
  unfoldable pub run_turn : TurnInput → World → Option TurnOutcome × World
  run_turn input w = elim (last input.transcript) [
    | none ↦ (none, w)
    | some latest ↦ if is_user latest.role then on_scope input (screen latest.text) w else (none, w)
  ]
