-- ===== src/Intake/Handler/Unanswered.antt =====
-- apps/intake/src/handler.ts: whether a build has a message left to answer after an answer.
use albusforge.Prelude.{
  ℕ, ◌+◌, ◌≤◌, ◌<◌, ◌≡◌, refl, sym, ap, ◌∙◌, String, Bool, true, false, List, [], ◌∷◌, ◌++◌, some,
  find, any, leb, All, All-imp, arith, Bool-cases, Option-cases, inl, inr, ◌||◌, any-append,
}
use albusforge.Tables.{MessageRole, Build, BuildMessage, Tables}
use albusforge.Gateway.ChatStore.Cursors.{same_uuid}
use albusforge.Gateway.ChatStore.{messages_of}
use albusforge.Gateway.ChatStore.Replays.{messages_of-append}
use albusforge.Intake.Spec.{Spec}
use albusforge.Intake.Turn.{TurnOutcome, Context, is_user, last}
use albusforge.Intake.Handler.{
  Deps, Answered, Answer, reply_text, set_status, reply_message, Reading, transcript_of, written,
  answer_last, answer_latest,
}
use albusforge.Intake.Handler.Latest.{some-inj, last-sort_by_le, last-sort_by_append}
use albusforge.Intake.Handler.Once.{
  after_turn, outcome_of, world_after, Traces, answer_latest-Traces,
}

module _ (ctx : Context) (deps : Deps ctx.World) (build_id : String) (may_retry : Bool) where
  written-messages :
      (r : Reading) (outcome : TurnOutcome) (w : ctx.World) (db : Tables Spec)
      → messages_of build_id (written ctx deps build_id may_retry r outcome w db)
        ≡ messages_of build_id db
          ++ reply_message (deps.new_id w) build_id r.target (reply_text outcome) ∷ []
  unfolding written set_status
  written-messages r outcome w db =
      messages_of-append build_id db
        (reply_message (deps.new_id w) build_id r.target (reply_text outcome)) refl

  answered-nothing :
      (s : Tables Spec × ctx.World) (t : BuildMessage)
      → deps.readable s.1 ≡ true
      → last (transcript_of build_id s.0) ≡ some t
      → is_user t.role ≡ false
      → answer_latest ctx deps build_id may_retry s ≡ (Answer.nothing, s)
  unfolding answer_latest answer_last
  answered-nothing s t up h theirs =
      elim (Option-cases (find (λ (b : Build). same_uuid b.id build_id) s.0.builds)) [
        | inl gone ↦ rw (up, gone, answer_latest) refl
        | inr (b, here) ↦ rw (up, here, h, answer_latest) (rw (theirs, answer_last) refl)
      ]

  not_later :
      (db : Tables Spec) (t : BuildMessage)
      → last (transcript_of build_id db) ≡ some t
      → All (λ (m : BuildMessage). m.created_at ≤ t.created_at) (messages_of build_id db)
  unfolding transcript_of
  not_later db t h = last-sort_by_le (messages_of build_id db) t h

  reply-last :
      (db : Tables Spec) (ms : List BuildMessage) (t reply : BuildMessage)
      → messages_of build_id db ≡ ms ++ reply ∷ []
      → All (λ (m : BuildMessage). m.created_at ≤ t.created_at) ms
      → reply.created_at ≡ t.created_at + 1
      → last (transcript_of build_id db) ≡ some reply
  unfolding transcript_of
  reply-last db ms t reply e h time = rw e (
      last-sort_by_append ms reply (
        All-imp (λ (m : BuildMessage). m.created_at ≤ t.created_at)
          (λ (m : BuildMessage). m.created_at < reply.created_at) ms (λ m k. omega (arith, k, time))
          h))

-- A message is answered once: after an answer during which nobody else wrote to the build, the next call,
-- in any world in which the database can be read, finds nothing to answer and changes nothing.
pub answer_latest-twice :
    (ctx : Context) (deps : Deps ctx.World) (build_id : String) (may_retry : Bool)
    (s s' : Tables Spec × ctx.World) (a : Answered) (w : ctx.World)
    → messages_of build_id (after_turn ctx deps build_id may_retry s) ≡ messages_of build_id s.0
    → answer_latest ctx deps build_id may_retry s ≡ (Answer.answered a, s')
    → deps.readable w ≡ true
    → answer_latest ctx deps build_id may_retry (s'.0, w) ≡ (Answer.nothing, (s'.0, w))
answer_latest-twice ctx deps build_id may_retry s s' a w alone answered up =
    let left : Traces ctx deps build_id may_retry s (Answer.answered a) s' =
      rw answered at (answer_latest-Traces ctx deps build_id may_retry s) in
    let r = left.0 in
    let w' = world_after ctx deps build_id may_retry r s in
    let outcome = outcome_of ctx deps build_id may_retry r s in
    let reply = reply_message (deps.new_id w') build_id r.target (reply_text outcome) in
    let rows : messages_of build_id s'.0 ≡ messages_of build_id s.0 ++ reply ∷ [] =
      ap (λ (x : Tables Spec × ctx.World). messages_of build_id x.0) left.2
      ∙ written-messages ctx deps build_id may_retry r outcome w'
          (after_turn ctx deps build_id may_retry s)
      ∙ ap (λ ms. ms ++ reply ∷ []) alone in
    answered-nothing ctx deps build_id may_retry (s'.0, w) reply up
      (reply-last ctx deps build_id may_retry s'.0 (messages_of build_id s.0) r.target reply rows
        (not_later ctx deps build_id may_retry s.0 r.target left.1.0) refl)
      refl

any-late :
    (t e : ℕ) (ms : List BuildMessage)
    → any (λ (m : BuildMessage). leb t m.created_at) ms ≡ true
    → All (λ (m : BuildMessage). m.created_at ≤ e) ms
    → t ≤ e
any-late t e [] h a = absurd (ground (arith, h))
any-late t e (m ∷ ms) h (k, ks) = elim (Bool-cases (leb t m.created_at)) [
  | inl here ↦ ground (arith, here, k)
  | inr early ↦ any-late t e ms (ground (arith, h, early)) ks
]

-- A message that others sent during the turn, at least two microseconds after the one that is answered,
-- is not hidden by the reply: the answer adds one message of the assistant to those that others have
-- left, and the transcript ends with a message that is later than it.
pub answer_latest-late :
    (ctx : Context) (deps : Deps ctx.World) (build_id : String) (may_retry : Bool)
    (s s' : Tables Spec × ctx.World) (a : Answered) (target end : BuildMessage)
    → last (transcript_of build_id s.0) ≡ some target
    → any
        (λ (m : BuildMessage). leb (target.created_at + 2) m.created_at)
        (messages_of build_id (after_turn ctx deps build_id may_retry s))
      ≡ true
    → answer_latest ctx deps build_id may_retry s ≡ (Answer.answered a, s')
    → last (transcript_of build_id s'.0) ≡ some end
    → (reply : BuildMessage) × (messages_of build_id s'.0
        ≡ messages_of build_id (after_turn ctx deps build_id may_retry s) ++ reply ∷ [])
      × (reply.id ≡ a.message_id)
      × (reply.role ≡ MessageRole.assistant)
      × (reply.created_at < end.created_at)
answer_latest-late ctx deps build_id may_retry s s' a target end h late answered e =
    let left : Traces ctx deps build_id may_retry s (Answer.answered a) s' =
      rw answered at (answer_latest-Traces ctx deps build_id may_retry s) in
    let r = left.0 in
    let w' = world_after ctx deps build_id may_retry r s in
    let outcome = outcome_of ctx deps build_id may_retry r s in
    let others = messages_of build_id (after_turn ctx deps build_id may_retry s) in
    let reply = reply_message (deps.new_id w') build_id r.target (reply_text outcome) in
    let is_late : BuildMessage → Bool = λ m. leb (target.created_at + 2) m.created_at in
    let rows : messages_of build_id s'.0 ≡ others ++ reply ∷ [] =
      ap (λ (x : Tables Spec × ctx.World). messages_of build_id x.0) left.2
      ∙ written-messages ctx deps build_id may_retry r outcome w'
          (after_turn ctx deps build_id may_retry s) in
    let still : any is_late (messages_of build_id s'.0) ≡ true =
      ap (any is_late) rows
      ∙ any-append is_late others (reply ∷ [])
      ∙ ap (λ b. b || any is_late (reply ∷ [])) late in
    let after : target.created_at + 2 ≤ end.created_at =
      any-late (target.created_at + 2) end.created_at (messages_of build_id s'.0) still
        (not_later ctx deps build_id may_retry s'.0 end e) in
    let same : r.target ≡ target = some-inj r.target target (sym left.1.0 ∙ h) in
    let time : reply.created_at ≡ target.created_at + 1 =
      ap (λ (m : BuildMessage). m.created_at + 1) same in
    (
      reply,
      rows,
      sym (ap (λ (x : Answered). x.message_id) left.3),
      refl,
      omega (arith, after, time),
    )
