-- ===== src/Intake/Decide.antt =====
-- apps/intake/src/decide.ts: merging the model's patch into the spec and deciding the turn.
pub mod Laws
pub mod Rounds
mod Tests
use albusforge.Prelude.{
  ℕ, ◌+◌, ◌-◌, String, Bool, true, false, not, ◌&&◌, ◌||◌, List, [], ◌∷◌, ◌++◌, Option, none, some,
  ltb, ◌==◌, if◌then◌else◌, length, keep, any, map, includes, unique, trim, ◌+++◌,
}
use albusforge.Prelude.Assoc.{lookup}
use albusforge.Intake.Spec.{
  Transport, PowerSource, OpenQuestion, Sense, Environment, Connect, Power, Experience, Spec,
  SensePatch, EnvironmentPatch, ConnectPatch, PowerPatch, SpecPatch, SpecTurn,
}
use albusforge.Intake.Shapes.{is_capability_id, is_flag_shape}
use albusforge.Intake.Replies.{questions_reply, settled_reply, needs_more_reply, take_last}
use albusforge.Intake.Questions.{QuestionFilter, filter_questions, max_clarification_rounds}
use albusforge.Intake.Merge.{max_assumptions, Vocabulary, empty_spec, MergeResult, merge_patch}

field_label : List (String × String)
field_label =
    ("sense.what", "what it measures")
    ∷ ("act.what", "what it does")
    ∷ ("power.source", "how it's powered")
    ∷ ("connect.transport", "how it connects")
    ∷ ("power.target_life_days", "how long the battery should last")
    ∷ ("environment.flags", "the conditions where it lives")
    ∷ []

-- `FIELD_LABEL[field] ?? field`
label_of : String → String
unfolding field_label
label_of field = elim (lookup field field_label) [ none ↦ field | some label ↦ label ]

pub data TurnStatus : Type 0 where
  asking planning : TurnStatus

-- `confidence` in sixths, the number of solver-relevant fields.
pub record Decision : Type 0 where
  pub spec : Spec
  pub reply : String
  pub status : TurnStatus
  pub new_version : Bool
  pub confidence : ℕ
  pub dropped_capabilities : List String
  pub dropped_flags : List String

describe_dropped : String → Bool → String → String
describe_dropped value shaped kind = if shaped then value else "an unrecognised " +++ kind

notes_of : MergeResult → List String
unfolding describe_dropped
notes_of merged =
    map
      (λ (c : String).
        "Left out, not in the parts catalogue: "
        +++ describe_dropped c (is_capability_id c) "capability")
      merged.dropped_capabilities
    ++ map
        (λ (f : String).
          "Left out, not a known environment condition: "
          +++ describe_dropped f (is_flag_shape f) "condition")
        merged.dropped_flags

defaults_taken : Bool → List OpenQuestion → List String
defaults_taken settled capped =
    if settled
    then map
        (λ (field : String).
          "No answer on " +++ label_of field +++ "; the spec uses a default for it")
        (unique (map (λ (q : OpenQuestion). q.field) capped))
    else []

has_none : {A : Type 0} → List A → Bool
has_none [] = true
has_none (x ∷ xs) = false

-- The model's reply stands only if every question that it asked survived.
reply_of : QuestionFilter → Bool → String → List String → String
unfolding has_none
reply_of questions settled reply assumptions =
    if has_none questions.capped_out && has_none questions.irrelevant
    then reply
    else if not (has_none questions.kept)
    then questions_reply questions.kept
    else if settled
    then settled_reply assumptions
    else needs_more_reply

pub record DecideInput : Type 0 where
  pub previous : Option Spec
  pub turn : SpecTurn
  pub vocabulary : Vocabulary
  pub rounds_used : ℕ

-- `Spec.parse` (`none` is the error that it throws) and `JSON.stringify`.
pub record SpecCodec : Type 0 where
  pub parse : Spec → Option Spec
  pub stringify : Spec → String

abbrev base_of : Option Spec → Spec
base_of none = empty_spec
base_of (some spec) = spec

-- The rounds that count: all of them once the spec has settled.
pub rounds_of : DecideInput → ℕ
rounds_of input =
    if (base_of input.previous).settled then max_clarification_rounds else input.rounds_used

pub questions_of : DecideInput → QuestionFilter
questions_of input = filter_questions input.turn.candidate_questions (rounds_of input)

pub merged_of : DecideInput → MergeResult
merged_of input = merge_patch (base_of input.previous) input.turn.spec_patch input.vocabulary

-- The spec before it is parsed.
pub drafted : DecideInput → Spec
unfolding has_none defaults_taken notes_of
drafted input =
    let merged = merged_of input in
    let spec = merged.spec in
    let questions = questions_of input in
    let capped =
      keep (λ q. not (any (λ (k : OpenQuestion). k.field == q.field) questions.kept))
        questions.capped_out in
    let settled = not (has_none spec.capabilities) && has_none questions.kept in
    record spec {
      assumptions = take_last max_assumptions (
          unique (
            spec.assumptions
            ++ input.turn.assumptions
            ++ notes_of merged
            ++ defaults_taken settled capped));
      open_questions = questions.kept;
      settled = settled;
    }

module _ (codec : SpecCodec) where
  is_changed : Option Spec → Spec → Bool
  is_changed none parsed = true
  is_changed (some previous) parsed = not (codec.stringify previous == codec.stringify parsed)

  finish : Option Spec → QuestionFilter → MergeResult → String → Bool → Spec → Decision
  unfolding has_none
  finish previous questions merged reply settled parsed = record {
    spec = parsed;
    reply = reply;
    status = if settled then planning else asking;
    new_version = is_changed previous parsed || not (has_none questions.kept);
    confidence = if settled then 6 else 6 - length questions.kept;
    dropped_capabilities = merged.dropped_capabilities;
    dropped_flags = merged.dropped_flags;
  }

  -- `none` where the source throws, as `Spec.parse` does.
  pub decide : DecideInput → Option Decision
  unfolding reply_of finish
  decide input =
      let draft = drafted input in
      let questions = questions_of input in
      let reply = reply_of questions draft.settled input.turn.reply draft.assumptions in
      elim (codec.parse draft) [
        | none ↦ none
        | some parsed ↦
            some (finish input.previous questions (merged_of input) reply draft.settled parsed)
      ]
