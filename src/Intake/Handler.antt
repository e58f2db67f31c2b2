-- ===== src/Intake/Handler.antt =====
-- apps/intake/src/handler.ts: `answerLatest`, which answers the latest message of a build under the
-- build's lock. The tables and a state of the world go in and come out; what other requests commit
-- while the model is asked, which of two timers fires first and whether a connection is left clean are
-- operations of `Deps`. The pool, the lock and the loop over further messages are not modelled.
pub mod Rows
pub mod Latest
pub mod Once
pub mod Unanswered
pub mod Writes
mod Tests
use albusforge.Prelude.{
  ℕ, suc, ◌+◌, String, Bool, true, false, not, ◌&&◌, List, [], ◌∷◌, ◌++◌, Option, none, some,
  if◌then◌else◌, ◌==◌, eqb, any, find, count_of, map,
}
use albusforge.Prelude.Sort.{sort_by}
use albusforge.Tables.{BuildStatus, MessageRole, Build, BuildMessage, SpecVersion, Tables}
use albusforge.Gateway.ChatStore.Cursors.{same_uuid}
use albusforge.Gateway.ChatStore.{is_before, messages_of, specs_of, latest_spec}
use albusforge.Llm.Call.{CallFailure}
use albusforge.Intake.Spec.{Spec, OpenQuestion}
use albusforge.Intake.Replies.{fallback_reply}
use albusforge.Intake.Decide.{TurnStatus, Decision, SpecCodec}
use albusforge.Intake.Turn.{
  TranscriptMessage, TurnInput, Reason, TurnOutcome, Context, is_user, last, run_turn,
}

-- How the final write ends: in time, or given up on, after which it was rolled back or had committed.
pub data WriteEnd : Type 0 where
  in_time rolled_back committed_late : WriteEnd

pub record Deps (W : Type 0) : Type 0 where
  -- `new Date()`, in microseconds.
  pub now : W → ℕ
  -- The statements up to the status being set all succeed.
  pub readable : W → Bool
  -- The tables as the other requests have left them when the turn is over.
  pub meanwhile : W → Tables Spec → Tables Spec
  -- The deadline's timer comes before the turn.
  pub expired : W → Bool
  pub closed_clean : W → Bool
  pub write_end : W → WriteEnd
  pub new_id : W → String

pub record Answered : Type 0 where
  pub message_id : String
  pub spec_version : Option ℕ
  pub status : BuildStatus

pub data HandlerError : Type 0 where
  retryable : Reason → HandlerError
  unavailable not_parsed rejected : HandlerError

pub data Answer : Type 0 where
  answered : Answered → Answer
  nothing : Answer
  threw : HandlerError → Answer

-- `RETRYABLE_REASONS.has(outcome.reason)`, of an outcome that is a reply.
pub is_retryable : TurnOutcome → Option Reason
is_retryable (TurnOutcome.reply (Reason.failed CallFailure.provider_error) text) =
    some (Reason.failed CallFailure.provider_error)
is_retryable (TurnOutcome.reply Reason.error text) = some Reason.error
is_retryable outcome = none

abbrev asks : SpecVersion Spec → Bool
asks v = elim v.open_questions [ [] ↦ false | q ∷ qs ↦ true ]

abbrev version_of : Option (SpecVersion Spec) → ℕ
version_of none = 0
version_of (some v) = v.version

abbrev version_or_null : Option (SpecVersion Spec) → Option ℕ
version_or_null none = none
version_or_null (some v) = some v.version

-- `previous?.settled ? "planning" : "asking"`
abbrev idle_status : Option Spec → BuildStatus
idle_status none = BuildStatus.asking
idle_status (some spec) = if spec.settled then BuildStatus.planning else BuildStatus.asking

abbrev status_of : TurnStatus → BuildStatus
status_of TurnStatus.asking = BuildStatus.asking
status_of TurnStatus.planning = BuildStatus.planning

pub reply_text : TurnOutcome → String
reply_text (TurnOutcome.spec decision) = decision.reply
reply_text (TurnOutcome.reply reason text) = text

pub outcome_status : Option Spec → TurnOutcome → BuildStatus
outcome_status previous (TurnOutcome.spec decision) = status_of decision.status
outcome_status previous (TurnOutcome.reply reason text) = idle_status previous

-- The decision that publishes a new version.
pub published : TurnOutcome → Option Decision
published (TurnOutcome.spec decision) = if decision.new_version then some decision else none
published (TurnOutcome.reply reason text) = none

-- `update(builds).set({ status, updatedAt })`
unfoldable pub set_status : String → BuildStatus → ℕ → Tables Spec → Tables Spec
set_status build_id status now db = record db {
  builds =
      map
        (λ (b : Build).
          if same_uuid b.id build_id then record b { status = status; updated_at = now } else b)
        db.builds;
}

abbrev pub reply_message : String → String → BuildMessage → String → BuildMessage
reply_message id build_id target text = record {
  id = id;
  build_id = build_id;
  role = MessageRole.assistant;
  text = text;
  client_message_id = none;
  created_at = target.created_at + 1;
}

abbrev next_spec : String → Option (SpecVersion Spec) → Decision → SpecVersion Spec
next_spec build_id latest decision = record {
  build_id = build_id;
  version = version_of latest + 1;
  content = decision.spec;
  confidence = decision.confidence;
  open_questions = decision.spec.open_questions;
}

abbrev pub spec_rows :
    String → Option (SpecVersion Spec) → Option Decision → List (SpecVersion Spec)
spec_rows build_id latest none = []
spec_rows build_id latest (some decision) = next_spec build_id latest decision ∷ []

abbrev pub spec_version_after : Option (SpecVersion Spec) → Option Decision → Option ℕ
spec_version_after latest none = version_or_null latest
spec_version_after latest (some decision) = some (version_of latest + 1)

-- The primary key of a spec.
abbrev has_key : SpecVersion Spec → SpecVersion Spec → Bool
has_key v u = v.build_id == u.build_id && eqb v.version u.version

-- What the turn read before the model was asked.
pub record Reading : Type 0 where
  pub target : BuildMessage
  pub latest : Option (SpecVersion Spec)
  pub previous : Option Spec

abbrev line_of : BuildMessage → TranscriptMessage
line_of m = record { role = m.role; text = m.text }

unfoldable pub transcript_of : String → Tables Spec → List BuildMessage
transcript_of build_id db = sort_by is_before (messages_of build_id db)

unfoldable pub rounds_used : String → Tables Spec → ℕ
rounds_used build_id db = count_of asks (specs_of build_id db)

module _ (ctx : Context) (deps : Deps ctx.World) (build_id : String) (may_retry : Bool) where
  open ctx use {World, codec}
  open deps use {now, readable, meanwhile, expired, closed_clean, write_end, new_id}

  -- `withDeadline`: an error becomes the fallback reply, and so does the deadline.
  unfoldable pub with_deadline : Bool → Option TurnOutcome → TurnOutcome
  with_deadline true outcome = TurnOutcome.reply (Reason.failed CallFailure.deadline) fallback_reply
  with_deadline false none = TurnOutcome.reply Reason.error fallback_reply
  with_deadline false (some outcome) = outcome

  -- The transaction: the reply directly after the message that it answers, a new version if there is
  -- one, and the build's status.
  unfoldable pub written : Reading → TurnOutcome → World → Tables Spec → Tables Spec
  written r outcome w db =
      set_status build_id (outcome_status r.previous outcome) (now w) (record db {
        build_messages =
            db.build_messages
            ++ reply_message (new_id w) build_id r.target (reply_text outcome) ∷ [];
        specs = db.specs ++ spec_rows build_id r.latest (published outcome);
      })

  abbrev pub answer_of : Reading → TurnOutcome → World → Answered
  answer_of r outcome w = record {
    message_id = new_id w;
    spec_version = spec_version_after r.latest (published outcome);
    status = outcome_status r.previous outcome;
  }

  -- The constraints that the inserts can break: the build and the answered message are still there, and
  -- nobody else published the version.
  unfoldable pub can_write : Reading → TurnOutcome → Tables Spec → Bool
  can_write r outcome db =
      any (λ (b : Build). same_uuid b.id build_id) db.builds
      && any (λ (m : BuildMessage). m.id == r.target.id) db.build_messages
      && not (
          any
            (λ (v : SpecVersion Spec).
              any (has_key v) (spec_rows build_id r.latest (published outcome)))
            db.specs)

  unfoldable pub write : Reading → TurnOutcome → World → Tables Spec → Answer × Tables Spec
  write r outcome w db = elim (write_end w) [
    | WriteEnd.in_time ↦
        if can_write r outcome db
        then (Answer.answered (answer_of r outcome w), written r outcome w db)
        else (Answer.threw HandlerError.rejected, db)
    | WriteEnd.rolled_back ↦ (Answer.threw HandlerError.unavailable, db)
    | WriteEnd.committed_late ↦ (
      Answer.threw HandlerError.unavailable,
      if can_write r outcome db then written r outcome w db else db,
    )
  ]

  abbrev retry_reason : TurnOutcome → Option Reason
  retry_reason outcome = if may_retry then is_retryable outcome else none

  -- Once the turn is over.
  unfoldable pub finish : Reading → TurnOutcome → World → Tables Spec → Answer × Tables Spec
  finish r outcome w db =
      if closed_clean w
      then elim (retry_reason outcome) [
        | some reason ↦ (Answer.threw (HandlerError.retryable reason), db)
        | none ↦ write r outcome w db
      ]
      else (Answer.threw HandlerError.unavailable, db)

  abbrev input_of : Reading → Tables Spec → TurnInput
  input_of r db = record {
    transcript = map line_of (transcript_of build_id db);
    previous = r.previous;
    rounds_used = rounds_used build_id db;
  }

  -- The turn itself, of a build that is marked as being specified.
  unfoldable pub answer_turn : Reading → Tables Spec × World → Answer × (Tables Spec × World)
  answer_turn r (db, w) =
      let specifying = set_status build_id BuildStatus.specifying (now w) db in
      let (outcome, w') = run_turn ctx (input_of r db) w in
      let (answer, db') =
        finish r (with_deadline (expired w) outcome) w' (meanwhile w specifying) in
      (answer, (db', w'))

  abbrev previous_of : Option (SpecVersion Spec) → Option (Option Spec)
  previous_of none = some none
  previous_of (some v) = elim (codec.parse v.content) [ none ↦ none | some spec ↦ some (some spec) ]

  unfoldable pub answer_target : BuildMessage → Tables Spec × World → Answer × (Tables Spec × World)
  answer_target target (db, w) =
      let latest = latest_spec db build_id in
      elim (previous_of latest) [
        | none ↦ (Answer.threw HandlerError.not_parsed, (db, w))
        | some previous ↦
            answer_turn (record { target = target; latest = latest; previous = previous }) (db, w)
      ]

  unfoldable pub answer_last :
      Option BuildMessage → Tables Spec × World → Answer × (Tables Spec × World)
  answer_last none s = (Answer.nothing, s)
  answer_last (some target) s =
      if is_user target.role then answer_target target s else (Answer.nothing, s)

  unfoldable pub answer_latest : Tables Spec × World → Answer × (Tables Spec × World)
  answer_latest (db, w) =
      if readable w
      then elim (find (λ (b : Build). same_uuid b.id build_id) db.builds) [
        | none ↦ (Answer.nothing, (db, w))
        | some b ↦ answer_last (last (transcript_of build_id db)) (db, w)
      ]
      else (Answer.threw HandlerError.rejected, (db, w))
