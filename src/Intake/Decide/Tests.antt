-- ===== src/Intake/Decide/Tests.antt =====
-- Turns of apps/intake/src/decide.ts on concrete input.
use albusforge.Prelude.{
  ◌≡◌, refl, ◌≤◌, String, List, [], ◌∷◌, none, some, leb, take, if◌then◌else◌, arith,
}
use albusforge.Intake.Spec.{OpenQuestion, SpecTurn, ReplyKind}
use albusforge.Intake.Questions.{filter_questions, max_clarification_rounds}
use albusforge.Intake.Questions.Laws.{
  fields, relevant, asked_fields, fields-filter_questions, kept-filter_questions,
}
use albusforge.Intake.Merge.{Vocabulary, empty_spec}
use albusforge.Intake.Decide.{
  Decision, DecideInput, SpecCodec, questions_of, merged_of, drafted, reply_of, finish, decide,
}
use albusforge.Intake.Decide.Laws.{IsWellFormed, ParsesInPlace, decide-IsWellFormed}
use albusforge.Intake.Decide.Rounds.{converse, empty_conversation, converse-rounds}

abbrev asking_about : String → OpenQuestion
asking_about field = record { field = field; question = "What about it?"; options = none }

abbrev candidates : List OpenQuestion
candidates =
    asking_about "colour"
    ∷ asking_about " power.source "
    ∷ asking_about "power.source"
    ∷ asking_about "sense.what"
    ∷ []

fields-filter_questions_example :
    fields (relevant (filter_questions candidates 1)) ≡ asked_fields candidates
fields-filter_questions_example = fields-filter_questions candidates 1

kept-filter_questions_example :
    fields (filter_questions candidates 1).kept
    ≡ take (if leb max_clarification_rounds 1 then 0 else 1) (asked_fields candidates)
kept-filter_questions_example = kept-filter_questions candidates 1

-- The schema accepts every spec.
abbrev codec : SpecCodec
codec = record { parse = λ s. some s; stringify = λ s. s.environment.location }

codec-ParsesInPlace : ParsesInPlace codec
codec-ParsesInPlace s t h = ground arith

abbrev vocabulary : Vocabulary
vocabulary = record { capabilities = "sense.temperature" ∷ []; environment_flags = "outdoor" ∷ [] }

abbrev turn : SpecTurn
turn = record {
  reply_kind = ReplyKind.spec;
  spec_patch = record {
    sense = none;
    act = none;
    environment = none;
    connect = none;
    power = none;
    experience = none;
    capabilities = some ("sense.temperature" ∷ " sense.magic" ∷ []);
    assumptions = none;
  };
  candidate_questions = candidates;
  assumptions = "It stays dry." ∷ [];
  reply = "Where does the power come from?";
}

abbrev input : DecideInput
input = record { previous = none; turn = turn; vocabulary = vocabulary; rounds_used = 1 }

converse-rounds_example :
    (converse codec vocabulary empty_conversation
      (turn ∷ turn ∷ turn ∷ turn ∷ turn ∷ turn ∷ [])).rounds
    ≤ 4
converse-rounds_example =
    converse-rounds codec vocabulary (turn ∷ turn ∷ turn ∷ turn ∷ turn ∷ turn ∷ [])
      codec-ParsesInPlace

abbrev decision : Decision
decision =
    let questions = questions_of input in
    let draft = drafted input in
    finish codec none questions (merged_of input)
      (reply_of questions draft.settled turn.reply draft.assumptions) draft.settled draft

decide_run : decide codec input ≡ some decision
unfolding decide
decide_run = refl

decide-IsWellFormed_example : IsWellFormed vocabulary decision.spec
unfolding empty_spec
decide-IsWellFormed_example =
    decide-IsWellFormed codec input decision codec-ParsesInPlace tt decide_run
