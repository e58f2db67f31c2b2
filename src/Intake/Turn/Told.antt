-- ===== src/Intake/Turn/Told.antt =====
-- apps/intake/src/turn.ts: what the person is told of a failure, and again of an off-topic message.
use albusforge.Prelude.{
  ◌≡◌, refl, ap, String, Bool, true, false, ◌==◌, ◌||◌, List, [], ◌∷◌, ◌++◌, Option, none, some,
  ◌⊎◌, All, Bool-cases, inl, inr,
}
use albusforge.Llm.Call.{CallFailure}
use albusforge.Intake.Replies.{off_topic_reply, refusal_reply, token_ceiling_reply, fallback_reply}
use albusforge.Intake.Turn.{
  TranscriptMessage, newer_reply, previous_reply, is_off_topic, is_user, was_off_topic,
  failure_reply,
}

-- Whether the assistant's newest message is one of the replies for an off-topic message.
abbrev pub Recalls : List TranscriptMessage → Bool → Type 0
Recalls ms again =
    (All (λ (m : TranscriptMessage). is_user m.role ≡ true) ms × (again ≡ false))
    ⊎ ((before : List TranscriptMessage) × (m : TranscriptMessage) × (after : List
          TranscriptMessage)
        × (ms ≡ before ++ m ∷ after)
        × (is_user m.role ≡ false)
        × All (λ (n : TranscriptMessage). is_user n.role ≡ true) after
        × ((m.text == off_topic_reply false || m.text == off_topic_reply true) ≡ again))

-- The assistant's newest message, if it has one.
abbrev Newest : List TranscriptMessage → Option String → Type 0
Newest ms none = All (λ (m : TranscriptMessage). is_user m.role ≡ true) ms
Newest ms (some text) =
    (before : List TranscriptMessage) × (m : TranscriptMessage) × (after : List TranscriptMessage)
    × (ms ≡ before ++ m ∷ after)
    × (is_user m.role ≡ false)
    × All (λ (n : TranscriptMessage). is_user n.role ≡ true) after
    × (m.text ≡ text)

newer_reply-Newest :
    (m : TranscriptMessage) (ms : List TranscriptMessage) (found : Option String)
    → Newest ms found
    → Newest (m ∷ ms) (newer_reply m found)
newer_reply-Newest m ms (some text) (before, n, after, whole, theirs, rest, says) =
    (m ∷ before, n, after, ap (λ xs. m ∷ xs) whole, theirs, rest, says)
newer_reply-Newest m ms none h = elim (Bool-cases (is_user m.role)) [
  | inl mine ↦ rw mine (mine, h)
  | inr theirs ↦ rw theirs ([], m, ms, refl, theirs, h, refl)
]

previous_reply-Newest : (ms : List TranscriptMessage) → Newest ms (previous_reply ms)
unfolding previous_reply
previous_reply-Newest [] = tt
previous_reply-Newest (m ∷ ms) =
    newer_reply-Newest m ms (previous_reply ms) (previous_reply-Newest ms)

is_off_topic-Recalls :
    (ms : List TranscriptMessage) (found : Option String)
    → Newest ms found
    → Recalls ms (is_off_topic found)
is_off_topic-Recalls ms none h = inl (h, refl)
is_off_topic-Recalls ms (some text) (before, m, after, whole, theirs, rest, says) = inr (
  before,
  m,
  after,
  whole,
  theirs,
  rest,
  ap (λ t. t == off_topic_reply false || t == off_topic_reply true) says,
)

pub was_off_topic-Recalls : (ms : List TranscriptMessage) → Recalls ms (was_off_topic ms)
unfolding was_off_topic
was_off_topic-Recalls ms = is_off_topic-Recalls ms (previous_reply ms) (previous_reply-Newest ms)

-- What the person is told of each failure.
abbrev pub Tells : CallFailure → String → Type 0
Tells CallFailure.refusal text = text ≡ refusal_reply
Tells CallFailure.token_ceiling text = text ≡ token_ceiling_reply
Tells _ text = text ≡ fallback_reply

pub failure_reply-Tells : (failure : CallFailure) → Tells failure (failure_reply failure)
unfolding failure_reply
failure_reply-Tells CallFailure.refusal = refl
failure_reply-Tells CallFailure.max_tokens = refl
failure_reply-Tells CallFailure.invalid_output = refl
failure_reply-Tells CallFailure.token_ceiling = refl
failure_reply-Tells CallFailure.deadline = refl
failure_reply-Tells CallFailure.provider_error = refl
