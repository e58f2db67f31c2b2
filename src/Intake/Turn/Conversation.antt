-- ===== src/Intake/Turn/Conversation.antt =====
-- apps/intake/src/turn.ts: what is sent to the model, and what a turn's outcome rests on.
use albusforge.Prelude.{
  ◌≡◌, ◌≢◌, refl, ap, ◌∙◌, String, Bool, true, false, List, [], ◌∷◌, ◌++◌, Option, none, some, ◌⊎◌,
  All, any, map, arith, Bool-cases, Option-cases, inl, inr,
}
use albusforge.Tables.{MessageRole}
use albusforge.Llm.Types.{Role, LlmMessage}
use albusforge.Llm.Call.{CallResult, ok, fail}
use albusforge.Intake.Spec.{ReplyKind, SpecTurn}
use albusforge.Intake.Replies.{ScopeCategory, out_of_scope_reply, off_topic_reply}
use albusforge.Intake.Merge.{Vocabulary}
use albusforge.Intake.Decide.{Decision, decide}
use albusforge.Intake.Turn.{
  TranscriptMessage, TurnInput, Reason, TurnOutcome, Catalogue, Context, extract_route, is_user,
  role_of, message_of, from_user, conversation, model_messages, last, render_turn_context,
}
use albusforge.Intake.Turn.Told.{Recalls, Tells}

-- A transcript is what came before the first user message, and the conversation from it on.
pub record IsSplit (transcript kept : List TranscriptMessage) : Type 0 where
  pub before : List TranscriptMessage
  pub first : TranscriptMessage
  pub rest : List TranscriptMessage
  pub whole : transcript ≡ before ++ kept
  pub opens : kept ≡ first ∷ rest
  pub by_user : is_user first.role ≡ true
  pub none_before : All (λ (m : TranscriptMessage). is_user m.role ≡ false) before

from_user-IsSplit :
    (ms : List TranscriptMessage)
    → any (λ (m : TranscriptMessage). is_user m.role) ms ≡ true
    → IsSplit ms (from_user ms)
unfolding from_user
from_user-IsSplit [] h = absurd (ground (arith, h))
from_user-IsSplit (m ∷ ms) h = elim (Bool-cases (is_user m.role)) [
  | inl mine ↦
      rw (mine, from_user)
        (record {
          before = [];
          first = m;
          rest = ms;
          whole = refl;
          opens = refl;
          by_user = mine;
          none_before = tt;
        })
  | inr theirs ↦
      let later : any (λ (m : TranscriptMessage). is_user m.role) ms ≡ true =
        ground (arith, h, theirs) in
      let s = from_user-IsSplit ms later in
      rw (theirs, from_user)
        (record {
          before = m ∷ s.before;
          first = s.first;
          rest = s.rest;
          whole = ap (λ xs. m ∷ xs) s.whole;
          opens = s.opens;
          by_user = s.by_user;
          none_before = (theirs, s.none_before);
        })
]

last-any :
    (ms : List TranscriptMessage) (m : TranscriptMessage)
    → last ms ≡ some m
    → is_user m.role ≡ true
    → any (λ (x : TranscriptMessage). is_user x.role) ms ≡ true
unfolding last
last-any [] m h u = absurd (ground (arith, h))
last-any (x ∷ ms) m h u = elim (Option-cases (last ms)) [
  | inl only ↦
      let same : x ≡ m = ground (arith, h, only) in
      let mine : is_user x.role ≡ true = ap (λ (y : TranscriptMessage). is_user y.role) same ∙ u in
      ground (arith, mine)
  | inr (n, more) ↦
      let same : n ≡ m = ground (arith, h, more) in
      ground (arith, last-any ms m (more ∙ ap some same) u)
]

role_of-system : (r : MessageRole) → role_of r ≢ Role.system
role_of-system MessageRole.user e = ground (arith, e)
role_of-system MessageRole.assistant e = ground (arith, e)

-- Only the turn's context speaks as the system.
message_of-role : (m : TranscriptMessage) → (message_of m).role ≢ Role.system
message_of-role m = role_of-system m.role

messages-role :
    (ms : List TranscriptMessage)
    → All (λ (m : LlmMessage). m.role ≢ Role.system) (map message_of ms)
messages-role [] = tt
messages-role (m ∷ ms) = (message_of-role m, messages-role ms)

-- Of a transcript that ends with the user's message, the model is sent the conversation from the first
-- user message on, each message's words under its own role and none of them as the system, and
-- then the turn's context, as the system.
pub model_messages-IsSplit :
    (transcript : List TranscriptMessage) (turn_context : String) (latest : TranscriptMessage)
    → last transcript ≡ some latest
    → is_user latest.role ≡ true
    → (kept : List TranscriptMessage) × IsSplit transcript kept
      × (model_messages transcript turn_context
          ≡ map message_of kept ++ record { role = Role.system; content = turn_context } ∷ [])
      × All (λ (m : LlmMessage). m.role ≢ Role.system) (map message_of kept)
unfolding model_messages conversation
model_messages-IsSplit transcript turn_context latest h u =
    let someone = last-any transcript latest h u in
    (
      from_user transcript,
      from_user-IsSplit transcript someone,
      rw someone refl,
      messages-role (from_user transcript),
    )

module _ (ctx : Context) (input : TurnInput) where
  unfoldable pub decision_of : Vocabulary → SpecTurn → Option Decision
  decision_of vocabulary turn = decide ctx.codec (record {
    previous = input.previous;
    turn = turn;
    vocabulary = vocabulary;
    rounds_used = input.rounds_used;
  })

  -- What becomes of the model's result; `none` where something throws.
  abbrev Rests : Vocabulary → Option (CallResult SpecTurn) → Option TurnOutcome → Type 0
  Rests vocabulary none outcome = outcome ≡ none
  Rests vocabulary (some (fail failure calls diagnostic)) outcome =
      (text : String) × (outcome ≡ some (TurnOutcome.reply (Reason.failed failure) text))
      × Tells failure text
  Rests vocabulary (some (ok turn calls)) none =
      (turn.reply_kind ≡ ReplyKind.spec) × (decision_of vocabulary turn ≡ none)
  Rests vocabulary (some (ok turn calls)) (some (TurnOutcome.spec decision)) =
      (turn.reply_kind ≡ ReplyKind.spec) × (decision_of vocabulary turn ≡ some decision)
  Rests vocabulary (some (ok turn calls)) (some (TurnOutcome.reply reason text)) =
      (turn.reply_kind ≡ ReplyKind.off_topic)
      × (reason ≡ Reason.off_topic)
      × (again : Bool) × (text ≡ off_topic_reply again)
      × Recalls input.transcript again

  -- The scope filter stopped the message, before anything was read or asked.
  abbrev Stopped : TranscriptMessage → ctx.World → Option TurnOutcome × ctx.World → Type 0
  Stopped latest w r =
      (category : ScopeCategory) × (ctx.screen latest.text ≡ some category)
      × (r ≡ (
        some (TurnOutcome.reply (Reason.out_of_scope category) (out_of_scope_reply category)),
        w,
      ))

  -- The model was asked once, with the catalogue and the rendered context.
  abbrev Asked : ctx.World → Option TurnOutcome × ctx.World → Type 0
  Asked w (outcome, w') =
      (listing : Catalogue) × (turn_context : String) × (result : Option (CallResult SpecTurn))
      × ((ctx.catalogue w).0 ≡ some listing)
      × (render_turn_context ctx input.previous input.rounds_used ≡ some turn_context)
      × (ctx.call (extract_route ctx.extract_prompt listing.text ctx.effort)
            (model_messages input.transcript turn_context) (ctx.catalogue w).1
          ≡ (result, w'))
      × Rests listing.vocabulary result outcome

  -- The catalogue could not be read, or the prompt not rendered.
  abbrev Unread : ctx.World → Option TurnOutcome × ctx.World → Type 0
  Unread w r =
      (r ≡ (none, (ctx.catalogue w).1))
      × (((ctx.catalogue w).0 ≡ none)
          ⊎ (render_turn_context ctx input.previous input.rounds_used ≡ none))

  abbrev pub Explains : TranscriptMessage → ctx.World → Option TurnOutcome × ctx.World → Type 0
  Explains latest w r = Stopped latest w r ⊎ (Asked w r ⊎ Unread w r)
