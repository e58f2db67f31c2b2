-- ===== src/Intake/Handler/Once.antt =====
-- apps/intake/src/handler.ts: what `answerLatest` leaves, whatever comes of the turn.
use albusforge.Prelude.{
  ◌≡◌, refl, sym, ap, ◌∙◌, ◌⊎◌, String, Bool, true, false, Option, none, some, if◌then◌else◌, find,
  arith, Bool-cases, Option-cases, inl, inr,
}
use albusforge.Tables.{BuildStatus, Build, BuildMessage, Tables}
use albusforge.Gateway.ChatStore.Cursors.{same_uuid}
use albusforge.Gateway.ChatStore.{latest_spec}
use albusforge.Intake.Spec.{Spec}
use albusforge.Intake.Turn.{Reason, TurnOutcome, Context, is_user, last, run_turn}
use albusforge.Intake.Handler.{
  WriteEnd, Deps, HandlerError, Answer, is_retryable, set_status, Reading, input_of, transcript_of,
  with_deadline, written, answer_of, write, retry_reason, finish, answer_turn, previous_of,
  can_write, answer_target, answer_last, answer_latest,
}
use albusforge.Intake.Handler.Latest.{some-inj}

none-some : {A : Type 0} (x : A) → Path (Option A) none (some x) → ⊥
none-some x h = ground (arith, h)

if-some :
    (b : Bool) (o : Option Reason) (reason : Reason)
    → (if b then o else none) ≡ some reason
    → (b ≡ true) × (o ≡ some reason)
if-some true o reason h = (refl, h)
if-some false o reason h = absurd (ground (arith, h))

module _ (ctx : Context) (deps : Deps ctx.World) (build_id : String) (may_retry : Bool) where
  -- The tables when the turn is over: the build is marked, and others have written.
  abbrev pub after_turn : Tables Spec × ctx.World → Tables Spec
  after_turn (db, w) = deps.meanwhile w (set_status build_id BuildStatus.specifying (deps.now w) db)

  abbrev pub outcome_of : Reading → Tables Spec × ctx.World → TurnOutcome
  outcome_of r (db, w) =
      with_deadline ctx deps build_id may_retry (deps.expired w)
        (run_turn ctx (input_of ctx deps build_id may_retry r db) w).0

  abbrev pub world_after : Reading → Tables Spec × ctx.World → ctx.World
  world_after r (db, w) = (run_turn ctx (input_of ctx deps build_id may_retry r db) w).1

  -- The turn answers the user's message that is the last of the transcript, from the latest spec.
  abbrev pub Reads : Tables Spec → Reading → Type 0
  Reads db r =
      (last (transcript_of build_id db) ≡ some r.target)
      × (is_user r.target.role ≡ true)
      × (r.latest ≡ latest_spec db build_id)
      × (previous_of ctx deps build_id may_retry r.latest ≡ some r.previous)

  abbrev pub Wrote : Reading → Tables Spec × ctx.World → Tables Spec × ctx.World → Type 0
  Wrote r s s' = s' ≡ (
    written ctx deps build_id may_retry r (outcome_of r s) (world_after r s) (after_turn s),
    world_after r s,
  )

  -- What is left, by the answer.
  abbrev pub Traces : Tables Spec × ctx.World → Answer → Tables Spec × ctx.World → Type 0
  Traces s Answer.nothing s' =
      (s' ≡ s)
      × ((find (λ (b : Build). same_uuid b.id build_id) s.0.builds ≡ none)
          ⊎ ((t : BuildMessage)
              → last (transcript_of build_id s.0) ≡ some t
              → is_user t.role ≡ false))
  Traces s (Answer.answered a) s' =
      (r : Reading) × Reads s.0 r
      × Wrote r s s'
      × (a ≡ answer_of ctx deps build_id may_retry r (outcome_of r s) (world_after r s))
  Traces s (Answer.threw HandlerError.not_parsed) s' =
      (s' ≡ s) × (previous_of ctx deps build_id may_retry (latest_spec s.0 build_id) ≡ none)
  Traces s (Answer.threw HandlerError.rejected) s' =
      ((s' ≡ s) × (deps.readable s.1 ≡ false))
      ⊎ ((r : Reading) × Reads s.0 r
          × (s' ≡ (after_turn s, world_after r s))
          × (can_write ctx deps build_id may_retry r (outcome_of r s) (after_turn s) ≡ false))
  Traces s (Answer.threw (HandlerError.retryable reason)) s' =
      (r : Reading) × Reads s.0 r
      × (may_retry ≡ true)
      × (is_retryable (outcome_of r s) ≡ some reason)
      × (s' ≡ (after_turn s, world_after r s))
  Traces s (Answer.threw HandlerError.unavailable) s' =
      (r : Reading) × Reads s.0 r
      × ((s' ≡ (after_turn s, world_after r s))
          ⊎ (Wrote r s s' × (deps.write_end (world_after r s) ≡ WriteEnd.committed_late)))

  WriteEnd-cases :
      (e : WriteEnd)
      → (e ≡ WriteEnd.in_time) ⊎ ((e ≡ WriteEnd.rolled_back) ⊎ (e ≡ WriteEnd.committed_late))
  WriteEnd-cases WriteEnd.in_time = inl refl
  WriteEnd-cases WriteEnd.rolled_back = inr (inl refl)
  WriteEnd-cases WriteEnd.committed_late = inr (inr refl)

  write-Traces :
      (s : Tables Spec × ctx.World) (r : Reading)
      → Reads s.0 r
      → (let e =
            write ctx deps build_id may_retry r (outcome_of r s) (world_after r s) (after_turn s) in
          Traces s e.0 (e.1, world_after r s))
  unfolding write
  write-Traces s r reads = elim (WriteEnd-cases (deps.write_end (world_after r s))) [
    | inl good ↦
        elim (Bool-cases
          (can_write ctx deps build_id may_retry r (outcome_of r s) (after_turn s))) [
            | inl fits ↦ rw (good, write) (rw fits (r, reads, refl, refl))
            | inr clash ↦ rw (good, write) (rw clash (inr (r, reads, refl, clash)))
          ]
    | inr (inl gone) ↦ rw (gone, write) (r, reads, inl refl)
    | inr (inr late) ↦
        elim (Bool-cases
          (can_write ctx deps build_id may_retry r (outcome_of r s) (after_turn s))) [
            | inl fits ↦ rw (late, write) (rw fits (r, reads, inr (refl, late)))
            | inr clash ↦ rw (late, write) (rw clash (r, reads, inl refl))
          ]
  ]

  finish-Traces :
      (s : Tables Spec × ctx.World) (r : Reading)
      → Reads s.0 r
      → (let e =
            finish ctx deps build_id may_retry r
              (outcome_of r s)
              (world_after r s)
              (after_turn s) in
          Traces s e.0 (e.1, world_after r s))
  unfolding finish
  finish-Traces s r reads = elim (Bool-cases (deps.closed_clean (world_after r s))) [
    | inr broken ↦ rw (broken, finish) (r, reads, inl refl)
    | inl clean ↦ elim (Option-cases (retry_reason ctx deps build_id may_retry (outcome_of r s))) [
      | inl final ↦ rw (clean, final, finish) (write-Traces s r reads)
      | inr (reason, again) ↦
          let (may, retryable) = if-some may_retry (is_retryable (outcome_of r s)) reason again in
          rw (clean, again, finish) (r, reads, may, retryable, refl)
    ]
  ]

  answer_turn-Traces :
      (s : Tables Spec × ctx.World) (r : Reading)
      → Reads s.0 r
      → (let e = answer_turn ctx deps build_id may_retry r s in Traces s e.0 e.1)
  unfolding answer_turn
  answer_turn-Traces s r reads = finish-Traces s r reads

  answer_target-Traces :
      (s : Tables Spec × ctx.World) (target : BuildMessage)
      → last (transcript_of build_id s.0) ≡ some target
      → is_user target.role ≡ true
      → (let e = answer_target ctx deps build_id may_retry target s in Traces s e.0 e.1)
  unfolding answer_target
  answer_target-Traces s target h u =
      elim (Option-cases (previous_of ctx deps build_id may_retry (latest_spec s.0 build_id))) [
        | inl broken ↦ rw (broken, answer_target) (refl, broken)
        | inr (previous, parsed) ↦
            rw (parsed, answer_target)
              (answer_turn-Traces s
                (record { target = target; latest = latest_spec s.0 build_id; previous = previous })
                (h, u, refl, parsed))
      ]

  answer_last-Traces :
      (s : Tables Spec × ctx.World) (end : Option BuildMessage)
      → last (transcript_of build_id s.0) ≡ end
      → (let e = answer_last ctx deps build_id may_retry end s in Traces s e.0 e.1)
  unfolding answer_last
  answer_last-Traces s none h = (refl, inr (λ t e. absurd (none-some t (sym h ∙ e))))
  answer_last-Traces s (some target) h = elim (Bool-cases (is_user target.role)) [
    | inl mine ↦ rw (mine, answer_last) (answer_target-Traces s target h mine)
    | inr theirs ↦
        rw (theirs, answer_last)
          (
            refl,
            inr (λ t e.
                let same : target ≡ t = some-inj target t (sym h ∙ e) in
                sym (ap (λ (m : BuildMessage). is_user m.role) same) ∙ theirs),
          )
  ]

-- Every call, in the terms of its steps.
pub answer_latest-Traces :
    (ctx : Context) (deps : Deps ctx.World) (build_id : String) (may_retry : Bool)
    (s : Tables Spec × ctx.World)
    → Traces ctx deps build_id may_retry s
        (answer_latest ctx deps build_id may_retry s).0
        (answer_latest ctx deps build_id may_retry s).1
unfolding answer_latest
answer_latest-Traces ctx deps build_id may_retry s = elim (Bool-cases (deps.readable s.1)) [
  | inr down ↦ rw (down, answer_latest) (inl (refl, down))
  | inl up ↦ elim (Option-cases (find (λ (b : Build). same_uuid b.id build_id) s.0.builds)) [
    | inl gone ↦ rw (up, gone, answer_latest) (refl, inl gone)
    | inr (b, here) ↦
        rw (up, here, answer_latest)
          (answer_last-Traces ctx deps build_id may_retry s (last (transcript_of build_id s.0))
            refl)
  ]
]
