-- ===== src/Intake/Decide/Laws.antt =====
-- apps/intake/src/decide.ts: the spec of a decided turn.
use albusforge.Prelude.{
  ℕ, suc, ◌-◌, ◌≤◌, ◌≡◌, refl, ◌≢◌, String, Bool, true, false, List, [], ◌∷◌, some, leb,
  if◌then◌else◌, length, take, length-drop, All, arith, Option-cases, inl, inr, ◌↔◌, ap,
}
use albusforge.Intake.Spec.{OpenQuestion, Spec}
use albusforge.Intake.Replies.{take_last}
use albusforge.Intake.Questions.{filter_questions, max_clarification_rounds}
use albusforge.Intake.Questions.Laws.{fields, kept-filter_questions, asked_fields}
use albusforge.Intake.Merge.{Vocabulary, is_known_capability, is_known_flag}
use albusforge.Intake.Merge.Laws.{merge_patch-known_capabilities, merge_patch-known_flags}
use albusforge.Intake.Decide.{
  Decision, DecideInput, SpecCodec, base_of, has_none, rounds_of, questions_of, merged_of, drafted,
  finish, decide,
}

-- What intake promises of every spec that it stores.
pub record IsWellFormed (v : Vocabulary) (spec : Spec) : Type 0 where
  pub known_capabilities : All (λ id. is_known_capability v id ≡ true) spec.capabilities
  pub known_flags : All (λ flag. is_known_flag v flag ≡ true) spec.environment.flags
  pub few_assumptions : length spec.assumptions ≤ 20
  pub one_question : length spec.open_questions ≤ 1
  pub settled_iff : (spec.settled ≡ true) ↔ ((spec.capabilities ≢ []) × (spec.open_questions ≡ []))

length-take_last : (xs : List String) (n : ℕ) → length (take_last n xs) ≤ n
unfolding take_last
length-take_last xs n = omega (arith, length-drop (length xs - n) xs)

pub length-fields : (qs : List OpenQuestion) → length (fields qs) ≡ length qs
length-fields [] = refl
length-fields (q ∷ qs) = ap suc (length-fields qs)

length-take-one : (b : Bool) (xs : List String) → length (take (if b then 0 else 1) xs) ≤ 1
length-take-one true xs = omega arith
length-take-one false [] = omega arith
length-take-one false (x ∷ xs) = omega arith

questions_of-few : (input : DecideInput) → length (questions_of input).kept ≤ 1
unfolding questions_of
questions_of-few input =
    let n = rounds_of input in
    omega (
      arith,
      length-fields (filter_questions input.turn.candidate_questions n).kept,
      ap length (kept-filter_questions input.turn.candidate_questions n),
      length-take-one (leb max_clarification_rounds n)
          (asked_fields input.turn.candidate_questions),
    )

has_none_iff : {A : Type 0} (xs : List A) → (has_none xs ≡ true) ↔ (xs ≡ [])
unfolding has_none
has_none_iff [] = ground arith
has_none_iff (x ∷ xs) = ground arith

drafted-IsWellFormed :
    (input : DecideInput)
    → All
        (λ id. is_known_capability input.vocabulary id ≡ true)
        (base_of input.previous).capabilities
    → IsWellFormed input.vocabulary (drafted input)
unfolding drafted merged_of
drafted-IsWellFormed input h = record {
  known_capabilities =
      merge_patch-known_capabilities (base_of input.previous) input.turn.spec_patch input.vocabulary
        h;
  known_flags =
      merge_patch-known_flags (base_of input.previous) input.turn.spec_patch input.vocabulary;
  few_assumptions = length-take_last _ 20;
  one_question = questions_of-few input;
  settled_iff = ground (
    arith,
    has_none_iff (merged_of input).spec.capabilities,
    has_none_iff (questions_of input).kept,
  );
}

-- `Spec.parse` returns the spec that it is given, or throws: the schema transforms nothing.
abbrev pub ParsesInPlace : SpecCodec → Type 0
ParsesInPlace codec = (s t : Spec) → codec.parse s ≡ some t → t ≡ s

pub decide-spec :
    (codec : SpecCodec) (input : DecideInput) (d : Decision)
    → ParsesInPlace codec
    → decide codec input ≡ some d
    → d.spec ≡ drafted input
unfolding decide finish
decide-spec codec input d h e = elim (Option-cases (codec.parse (drafted input))) [
  | inl thrown ↦ ground (arith, thrown)
  | inr (parsed, ok) ↦ ground (arith, ok, h (drafted input) parsed ok)
]

-- A decided turn leaves a well-formed spec: only capabilities and flags that the registry knows, at
-- most twenty assumptions and one open question, and settled exactly when it names a capability
-- and asks nothing. It starts from no spec, or from one with known capabilities; parsing changes
-- nothing.
pub decide-IsWellFormed :
    (codec : SpecCodec) (input : DecideInput) (d : Decision)
    → ParsesInPlace codec
    → All
        (λ id. is_known_capability input.vocabulary id ≡ true)
        (base_of input.previous).capabilities
    → decide codec input ≡ some d
    → IsWellFormed input.vocabulary d.spec
decide-IsWellFormed codec input d h k e =
    rw (decide-spec codec input d h e) (drafted-IsWellFormed input k)
