-- ===== src/Intake/Handler/Writes.antt =====
-- apps/intake/src/handler.ts: what `answerLatest` leaves in the tables, row by row.
use albusforge.Prelude.{◌≡◌, ◌⊎◌, String, Bool, true, false, none, some, find}
use albusforge.Tables.{BuildStatus, Build, BuildMessage, Tables}
use albusforge.Llm.Call.{CallFailure}
use albusforge.Gateway.ChatStore.Cursors.{same_uuid}
use albusforge.Gateway.ChatStore.{latest_spec}
use albusforge.Intake.Spec.{Spec}
use albusforge.Intake.Turn.{Reason, TurnOutcome, Context, is_user, last}
use albusforge.Intake.Handler.{
  WriteEnd, Deps, HandlerError, Answered, Answer, Reading, transcript_of, can_write, previous_of,
}
use albusforge.Intake.Handler.Once.{Reads, outcome_of, world_after}
use albusforge.Intake.Handler.Rows.{HasStatus, IsAnswer}

module _ (ctx : Context) (deps : Deps ctx.World) (build_id : String) (may_retry : Bool) where
  -- The build is marked, and nothing else changes, before the turn; then others have written.
  pub record IsMarked (s : Tables Spec × ctx.World) (after : Tables Spec) : Type 0 where
    pub begun : Tables Spec
    pub status : HasStatus build_id BuildStatus.specifying s.0.builds begun.builds
    pub same_messages : begun.build_messages ≡ s.0.build_messages
    pub same_specs : begun.specs ≡ s.0.specs
    pub others : after ≡ deps.meanwhile s.1 begun

  abbrev CanRetry : TurnOutcome → Reason → Type 0
  CanRetry outcome reason =
      (text : String) × (outcome ≡ TurnOutcome.reply reason text)
      × ((reason ≡ Reason.error) ⊎ (reason ≡ Reason.failed CallFailure.provider_error))

  -- What is left, by the answer: the tables that others have left when the turn is over come between.
  abbrev pub Leaves : Tables Spec × ctx.World → Answer → Tables Spec × ctx.World → Type 0
  Leaves s Answer.nothing s' =
      (s' ≡ s)
      × ((find (λ (b : Build). same_uuid b.id build_id) s.0.builds ≡ none)
          ⊎ ((t : BuildMessage)
              → last (transcript_of build_id s.0) ≡ some t
              → is_user t.role ≡ false))
  Leaves s (Answer.answered a) s' =
      (r : Reading) × Reads ctx deps build_id may_retry s.0 r
      × (before : Tables Spec) × IsMarked s before
      × IsAnswer build_id r (outcome_of ctx deps build_id may_retry r s) before s'.0 a
  Leaves s (Answer.threw HandlerError.not_parsed) s' =
      (s' ≡ s) × (previous_of ctx deps build_id may_retry (latest_spec s.0 build_id) ≡ none)
  Leaves s (Answer.threw (HandlerError.retryable reason)) s' =
      (r : Reading) × Reads ctx deps build_id may_retry s.0 r
      × (may_retry ≡ true)
      × CanRetry (outcome_of ctx deps build_id may_retry r s) reason
      × IsMarked s s'.0
  Leaves s (Answer.threw HandlerError.unavailable) s' =
      (r : Reading) × Reads ctx deps build_id may_retry s.0 r
      × (IsMarked s s'.0
          ⊎ ((before : Tables Spec) × IsMarked s before
              × (a : Answered) × IsAnswer build_id r (outcome_of ctx deps build_id may_retry r s)
                  before s'.0 a
              × (deps.write_end (world_after ctx deps build_id may_retry r s)
                  ≡ WriteEnd.committed_late)))
  Leaves s (Answer.threw HandlerError.rejected) s' =
      ((s' ≡ s) × (deps.readable s.1 ≡ false))
      ⊎ ((r : Reading) × Reads ctx deps build_id may_retry s.0 r
          × IsMarked s s'.0
          × (can_write ctx deps build_id may_retry r (outcome_of ctx deps build_id may_retry r s)
                s'.0
              ≡ false))
