-- ===== src/Intake/Decide/Rounds.antt =====
-- apps/intake/src/decide.ts: a conversation over many turns.
use albusforge.Prelude.{
  ℕ, ◌+◌, ◌≤◌, ◌≡◌, refl, true, List, [], ◌∷◌, Option, none, some, leb, if◌then◌else◌, arith,
  Option-cases, inl, inr, ap,
}
use albusforge.Intake.Spec.{OpenQuestion, Spec, SpecTurn}
use albusforge.Intake.Questions.{filter_questions, max_clarification_rounds}
use albusforge.Intake.Questions.Laws.{fields, kept-filter_questions}
use albusforge.Intake.Merge.{Vocabulary}
use albusforge.Intake.Decide.{
  DecideInput, SpecCodec, has_none, rounds_of, questions_of, drafted, decide,
}
use albusforge.Intake.Decide.Laws.{ParsesInPlace, decide-spec}

-- A conversation between turns: the latest spec, and how many versions asked questions.
pub record Conversation : Type 0 where
  pub latest : Option Spec
  pub rounds : ℕ

abbrev asks : Spec → ℕ
asks spec = if has_none spec.open_questions then 0 else 1

-- A turn that throws stores nothing.
pub next : SpecCodec → Vocabulary → Conversation → SpecTurn → Conversation
next codec v c turn =
    elim (decide codec
      (record { previous = c.latest; turn = turn; vocabulary = v; rounds_used = c.rounds })) [
        | none ↦ c
        | some d ↦ record { latest = some d.spec; rounds = c.rounds + asks d.spec }
      ]

pub converse : SpecCodec → Vocabulary → Conversation → List SpecTurn → Conversation
converse codec v c [] = c
converse codec v c (turn ∷ turns) = converse codec v (next codec v c turn) turns

fields-nil : (qs : List OpenQuestion) → fields qs ≡ [] → qs ≡ []
fields-nil [] h = refl
fields-nil (q ∷ qs) h = cc

filter_questions-spent :
    (candidates : List OpenQuestion) (n : ℕ) → 4 ≤ n → (filter_questions candidates n).kept ≡ []
filter_questions-spent candidates n h =
    let spent : leb max_clarification_rounds n ≡ true = ground arith in
    fields-nil _ (rw spent at (kept-filter_questions candidates n))

kept-nil : (input : DecideInput) → 4 ≤ input.rounds_used → (questions_of input).kept ≡ []
unfolding questions_of rounds_of
kept-nil input h =
    filter_questions-spent input.turn.candidate_questions (rounds_of input) (ground arith)

drafted-questions :
    (input : DecideInput) → (drafted input).open_questions ≡ (questions_of input).kept
unfolding drafted
drafted-questions input = refl

next-rounds :
    (codec : SpecCodec) (v : Vocabulary) (c : Conversation) (turn : SpecTurn)
    → ParsesInPlace codec
    → c.rounds ≤ 4
    → (next codec v c turn).rounds ≤ 4
unfolding next has_none
next-rounds codec v c turn h r =
    let input : DecideInput = record {
      previous = c.latest;
      turn = turn;
      vocabulary = v;
      rounds_used = c.rounds;
    } in
    elim (Option-cases (decide codec input)) [
      | inl thrown ↦ rw (thrown, next) r
      | inr (d, ok) ↦ ground (
        arith,
        ok,
        kept-nil input,
        drafted-questions input,
        ap (λ (s : Spec). s.open_questions) (decide-spec codec input d h ok),
      )
    ]

converse-rounds_lem :
    (codec : SpecCodec) (v : Vocabulary) (turns : List SpecTurn) (c : Conversation)
    → ParsesInPlace codec
    → c.rounds ≤ 4
    → (converse codec v c turns).rounds ≤ 4
unfolding converse
converse-rounds_lem codec v [] c h r = r
converse-rounds_lem codec v (turn ∷ turns) c h r =
    converse-rounds_lem codec v turns (next codec v c turn) h (next-rounds codec v c turn h r)

pub empty_conversation : Conversation
empty_conversation = record { latest = none; rounds = 0 }

-- However the model answers, at most four turns of a conversation that starts empty leave a spec
-- with an open question; parsing changes nothing. The turns that ask are counted as the caller counts
-- them.
pub converse-rounds :
    (codec : SpecCodec) (v : Vocabulary) (turns : List SpecTurn)
    → ParsesInPlace codec
    → (converse codec v empty_conversation turns).rounds ≤ 4
unfolding empty_conversation
converse-rounds codec v turns h = converse-rounds_lem codec v turns _ h (omega arith)
