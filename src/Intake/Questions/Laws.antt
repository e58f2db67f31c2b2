-- ===== src/Intake/Questions/Laws.antt =====
-- apps/intake/src/decide.ts: `filterQuestions` beside a description of it without loop state.
use albusforge.Prelude.{
  ℕ, ◌≡◌, refl, String, Bool, true, false, List, [], ◌∷◌, ◌++◌, leb, if◌then◌else◌, length, keep,
  map, includes, unique, unique_from, trim, arith, Bool-cases, inl, inr, ◌⊎◌, append_assoc,
  map-append, append-nil, ◌∙◌, take, sym,
}
use albusforge.Intake.Spec.{OpenQuestion}
use albusforge.Intake.Questions.{
  max_clarification_rounds, QuestionFilter, clean, is_relevant, place, filter_from,
  filter_questions,
}

abbrev pub fields : List OpenQuestion → List String
fields = map (λ (q : OpenQuestion). q.field)

-- The relevant fields that the candidates ask about, each once, in the order of asking.
abbrev pub asked_fields : List OpenQuestion → List String
asked_fields candidates = unique (keep is_relevant (map trim (fields candidates)))

-- The two lists that questions go to, the kept one first.
abbrev pub relevant : QuestionFilter → List OpenQuestion
relevant f = f.kept ++ f.capped_out

-- Either nothing may be kept, or the kept list has filled before anything is capped out.
abbrev IsOrdered : Bool → QuestionFilter → Type 0
IsOrdered true f = f.kept ≡ []
IsOrdered false f = ((f.kept ≡ []) × (f.capped_out ≡ [])) ⊎ (length f.kept ≡ 1)

place-IsOrdered :
    (full : Bool) (q : OpenQuestion) (f : QuestionFilter)
    → IsOrdered full f
    → IsOrdered full (place full q f)
unfolding place
place-IsOrdered true q f h = h
place-IsOrdered false q f (inl (none_kept, none_out)) = ground (arith, none_kept, none_out)
place-IsOrdered false q f (inr one) = ground (arith, one)

place-relevant :
    (full : Bool) (q : OpenQuestion) (f : QuestionFilter)
    → IsOrdered full f
    → relevant (place full q f) ≡ relevant f ++ q ∷ []
unfolding place
place-relevant true q f h = sym (append_assoc f.kept f.capped_out (q ∷ []))
place-relevant false q f (inl (none_kept, none_out)) = ground (arith, none_kept, none_out)
place-relevant false q f (inr one) = ground (arith, one, append_assoc f.kept f.capped_out (q ∷ []))

-- The fields that a run of the filter still adds, after those in `seen`.
abbrev new_fields : List String → List OpenQuestion → List String
new_fields seen candidates = unique_from seen (keep is_relevant (map trim (fields candidates)))

fields-append : (xs ys : List OpenQuestion) → fields (xs ++ ys) ≡ fields xs ++ fields ys
fields-append xs ys = map-append _ xs ys

IsOrdered-irrelevant :
    (full : Bool) (f : QuestionFilter) (qs : List OpenQuestion)
    → IsOrdered full f
    → IsOrdered full (record f { irrelevant = qs })
IsOrdered-irrelevant true f qs h = h
IsOrdered-irrelevant false f qs h = h

start-IsOrdered :
    (full : Bool) → IsOrdered full (record { kept = []; capped_out = []; irrelevant = [] })
start-IsOrdered true = refl
start-IsOrdered false = inl (refl, refl)

filter_from-fields :
    (full : Bool) (candidates : List OpenQuestion) (seen : List String) (f : QuestionFilter)
    → IsOrdered full f
    → fields (relevant (filter_from full seen f candidates))
      ≡ fields (relevant f) ++ new_fields seen candidates
unfolding filter_from clean
filter_from-fields full [] seen f h = sym (append-nil _)
filter_from-fields full (c ∷ rest) seen f h = elim (Bool-cases (is_relevant (trim c.field))) [
  | inr off ↦
      rw (off, filter_from)
        (filter_from-fields full rest seen (record f { irrelevant = f.irrelevant ++ c ∷ [] })
          (IsOrdered-irrelevant full f (f.irrelevant ++ c ∷ []) h))
  | inl on ↦ elim (Bool-cases (includes seen (trim c.field))) [
    | inl old ↦ rw (on, filter_from) (rw old (filter_from-fields full rest seen f h))
    | inr new ↦
        rw (on, filter_from)
          (rw new (
            filter_from-fields full rest (trim c.field ∷ seen) (place full (clean c) f)
              (place-IsOrdered full (clean c) f h)
            ∙ rw (place-relevant full (clean c) f h) (
                rw (fields-append (relevant f) (clean c ∷ []))
                  (append_assoc (fields (relevant f)) (trim c.field ∷ []) _))))
  ]
]

filter_from-IsOrdered :
    (full : Bool) (candidates : List OpenQuestion) (seen : List String) (f : QuestionFilter)
    → IsOrdered full f
    → IsOrdered full (filter_from full seen f candidates)
unfolding filter_from
filter_from-IsOrdered full [] seen f h = h
filter_from-IsOrdered full (c ∷ rest) seen f h = elim (Bool-cases (is_relevant (trim c.field))) [
  | inr off ↦
      rw (off, filter_from)
        (filter_from-IsOrdered full rest seen (record f { irrelevant = f.irrelevant ++ c ∷ [] })
          (IsOrdered-irrelevant full f (f.irrelevant ++ c ∷ []) h))
  | inl on ↦ elim (Bool-cases (includes seen (trim c.field))) [
    | inl old ↦ rw (on, filter_from) (rw old (filter_from-IsOrdered full rest seen f h))
    | inr new ↦
        rw (on, filter_from)
          (rw new (
            filter_from-IsOrdered full rest (trim c.field ∷ seen) (place full (clean c) f)
              (place-IsOrdered full (clean c) f h)))
  ]
]

-- Every relevant field that the candidates ask about is in the result exactly once: the kept
-- questions' fields, then the capped-out ones', are the relevant fields of the candidates, trimmed,
-- without repeats and in order.
pub fields-filter_questions :
    (candidates : List OpenQuestion) (rounds_used : ℕ)
    → fields (relevant (filter_questions candidates rounds_used)) ≡ asked_fields candidates
unfolding filter_questions unique
fields-filter_questions candidates rounds_used =
    filter_from-fields (leb max_clarification_rounds rounds_used) candidates [] _
      (start-IsOrdered (leb max_clarification_rounds rounds_used))

one_in_front :
    (qs rest : List OpenQuestion) → length qs ≡ 1 → fields qs ≡ take 1 (fields (qs ++ rest))
one_in_front [] rest h = ground arith
one_in_front (q ∷ []) rest h = refl
one_in_front (q ∷ r ∷ qs) rest h = absurd (omega arith)

fields-kept :
    (full : Bool) (f : QuestionFilter)
    → IsOrdered full f
    → fields f.kept ≡ take (if full then 0 else 1) (fields (relevant f))
fields-kept true f h = rw h
fields-kept false f (inl (none_kept, none_out)) = rw (none_kept, none_out)
fields-kept false f (inr one) = one_in_front f.kept f.capped_out one

-- What is asked: nothing once four rounds are used, and before that just one question, about the
-- first relevant field that a candidate asks about, if there is one.
pub kept-filter_questions :
    (candidates : List OpenQuestion) (rounds_used : ℕ)
    → fields (filter_questions candidates rounds_used).kept
      ≡ take (if leb max_clarification_rounds rounds_used then 0 else 1) (asked_fields candidates)
unfolding filter_questions
kept-filter_questions candidates rounds_used =
    let full = leb max_clarification_rounds rounds_used in
    let empty : QuestionFilter = record { kept = []; capped_out = []; irrelevant = [] } in
    rw (← fields-filter_questions candidates rounds_used) (
      fields-kept full (filter_questions candidates rounds_used)
        (filter_from-IsOrdered full candidates [] empty (start-IsOrdered full)))
