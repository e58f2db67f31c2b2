-- ===== src/Intake/Questions.antt =====
-- apps/intake/src/decide.ts, `filterQuestions`: which of the model's questions survive a turn.
pub mod Laws
use albusforge.Prelude.{
  ℕ, suc, ◌+◌, String, Bool, true, false, not, ◌&&◌, ◌||◌, List, [], ◌∷◌, ◌++◌, Option, none, some,
  leb, ltb, eqb, ◌==◌, if◌then◌else◌, length, take, keep, map, includes, unique, trim,
}
use albusforge.Intake.Spec.{OpenQuestion}

abbrev pub solver_relevant_fields : List String
solver_relevant_fields =
    "sense.what" ∷ "act.what" ∷ "power.source" ∷ "connect.transport" ∷ "power.target_life_days"
    ∷ "environment.flags" ∷ []

abbrev pub max_clarification_rounds : ℕ
max_clarification_rounds = 4

abbrev pub max_questions_per_round : ℕ
max_questions_per_round = 1

pub record QuestionFilter : Type 0 where
  pub kept : List OpenQuestion
  pub capped_out : List OpenQuestion
  pub irrelevant : List OpenQuestion

is_filled : String → Bool
is_filled s = not (s == "")

-- The options that are offered: trimmed, not empty, each once, at most four; none for no option.
clean_options : Option (List String) → Option (List String)
clean_options none = none
clean_options (some options) =
    let distinct = unique (keep is_filled (map trim options)) in
    if ltb 0 (length distinct) then some (take 4 distinct) else none

pub clean : OpenQuestion → OpenQuestion
unfolding clean_options is_filled
clean candidate = record {
  field = trim candidate.field;
  question = trim candidate.question;
  options = clean_options candidate.options;
}

pub is_relevant : String → Bool
is_relevant field = includes solver_relevant_fields field

-- One relevant question whose field is new: kept while there is room, else capped out.
pub place : Bool → OpenQuestion → QuestionFilter → QuestionFilter
place cap_reached question f =
    if cap_reached || leb max_questions_per_round (length f.kept)
    then record f { capped_out = f.capped_out ++ question ∷ [] }
    else record f { kept = f.kept ++ question ∷ [] }

-- The loop over the candidates; `seen` holds the fields already asked about.
pub filter_from : Bool → List String → QuestionFilter → List OpenQuestion → QuestionFilter
filter_from cap_reached seen f [] = f
filter_from cap_reached seen f (candidate ∷ rest) =
    let field = trim candidate.field in
    let irrelevant =
      filter_from cap_reached seen (record f { irrelevant = f.irrelevant ++ candidate ∷ [] })
        rest in
    let again = filter_from cap_reached seen f rest in
    let placed =
      filter_from cap_reached (field ∷ seen) (place cap_reached (clean candidate) f) rest in
    if not (is_relevant field) then irrelevant else if includes seen field then again else placed

pub filter_questions : List OpenQuestion → ℕ → QuestionFilter
filter_questions candidates rounds_used =
    filter_from (leb max_clarification_rounds rounds_used) []
      (record { kept = []; capped_out = []; irrelevant = [] }) candidates
