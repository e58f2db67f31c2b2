-- ===== src/Matcher/Solve/Conflict.antt =====
-- apps/matcher/src/solver.ts: the conflict set of a request that has no plan.
use albusforge.Prelude.{
  ℕ, ◌≡◌, subst, String, Bool, true, false, not, ◌&&◌, List, [], ◌∷◌, eqb, All, All-keep,
  Bool-cases, inl, inr, arith,
}
use albusforge.Matcher.Types.{Arith, Failure, SolveInput}
use albusforge.Matcher.Ports.{Search, found, limit, crash, ◌>>=◌}
use albusforge.Matcher.Ports.Visits.{Ends, Ends->>=}
use albusforge.Matcher.Plans.{Requirement, same_requirement, SolveState}
use albusforge.Matcher.Solver.{search}
use albusforge.Matcher.Solver.Feasible.{Ends-self}
use albusforge.Matcher.Solve.{
  SolveResult, solved, infeasible, search_limit, invalid_input, is_battery, requirements_of,
  without, minimize, explained, report, conclude, caught, start, has_target, solve,
}

-- A search for these requirements has ended, and found no plan.
pub record IsStuck (N : Arith) (runs : String → String → Bool) (input : SolveInput N)
    (needs : List Requirement) : Type 0 where
  pub first_only : Bool
  pub before : SolveState N
  pub after : SolveState N
  pub searched : search N runs input needs first_only before ≡ found after
  pub no_plan : after.count ≡ 0

module _ (N : Arith) (runs : String → String → Bool) (input : SolveInput N)
    (P : Requirement → Type 0) where
  -- `P`: anything that holds of every requirement.
  IsConflict : List Requirement → Type 0
  IsConflict conflict = IsStuck N runs input conflict × All P conflict

  minimize-IsConflict :
      (rs conflict : List Requirement) (st : SolveState N)
      → IsConflict conflict
      → Ends
          (minimize N runs input rs conflict st)
          (λ (r : List Requirement × SolveState N). IsConflict r.0)
  unfolding minimize Ends IsConflict
  minimize-IsConflict [] conflict st h = h
  minimize-IsConflict (r ∷ rs) conflict st h =
      let less = without N runs r conflict in
      let tried = search N runs input less true st in
      Ends->>= tried _ (λ (st' : SolveState N). tried ≡ found st')
        (λ (q : List Requirement × SolveState N). IsConflict q.0) (Ends-self tried)
        (λ st' e. elim (Bool-cases (eqb st'.count 0)) [
          | inl zero_found ↦ rw zero_found (
              minimize-IsConflict rs less st' (
                record {
                  first_only = true;
                  before = st;
                  after = st';
                  searched = e;
                  no_plan = ground (arith, zero_found);
                },
                All-keep P (λ x. not (same_requirement x r)) conflict h.1,
              ))
          | inr some_found ↦ rw some_found (minimize-IsConflict rs conflict st' h)
        ])

  Accepts : SolveResult N runs → Type 0
  Accepts (infeasible conflict diagnostics steps) = IsConflict conflict
  Accepts (solved plans count steps) = Unit
  Accepts (search_limit steps) = Unit
  Accepts (invalid_input issues) = Unit

  conclude-Accepts :
      (st : SolveState N)
      → search N runs input (requirements_of N runs input) false (start N runs) ≡ found st
      → All P (requirements_of N runs input)
      → Ends (conclude N runs input st) Accepts
  unfolding conclude Ends Accepts report IsConflict
  conclude-Accepts st e h = elim (Bool-cases (eqb st.count 0)) [
    | inl failed ↦
        let all = requirements_of N runs input in
        rw (failed, conclude)
          (Ends->>= (minimize N runs input all all (explained N runs input st))
            (λ r. found (report N runs r)) (λ (r : List Requirement × SolveState N). IsConflict r.0)
            Accepts
            (minimize-IsConflict all all (explained N runs input st) (
              record {
                first_only = false;
                before = start N runs;
                after = st;
                searched = e;
                no_plan = ground (arith, failed);
              },
              h,
            ))
            (λ r c. c))
    | inr some_found ↦ rw (some_found, conclude) tt
  ]

  caught-Ends : (s : Search (SolveResult N runs)) → Ends s Accepts → Ends (caught N runs s) Accepts
  unfolding caught Ends Accepts
  caught-Ends (found r) h = h
  caught-Ends (limit n) h = tt
  caught-Ends crash h = tt

  solve-Accepts : All P (requirements_of N runs input) → Ends (solve N runs input) Accepts
  unfolding solve Ends Accepts
  solve-Accepts h =
      elim (Bool-cases (
        has_target N runs input.spec.target_life_days
        && not (is_battery input.spec.power_source))) [
          | inl bad ↦ rw (bad, solve) tt
          | inr good ↦
              let first = search N runs input (requirements_of N runs input) false (start N runs) in
              rw (good, solve)
                (caught-Ends (first >>= conclude N runs input) (
                  Ends->>= first (conclude N runs input) (λ (st : SolveState N). first ≡ found st)
                    Accepts (Ends-self first) (λ st e. conclude-Accepts st e h)))
        ]

-- The conflict set of a request without a plan is a conflict: a search for those requirements alone
-- ended and found no plan; and whatever holds of every requirement of the request holds of its
-- members.
pub solve-IsStuck :
    (N : Arith) (runs : String → String → Bool) (input : SolveInput N) (P : Requirement → Type 0)
    (conflict : List Requirement) (diagnostics : List Failure) (steps : ℕ)
    → All P (requirements_of N runs input)
    → solve N runs input ≡ found (infeasible conflict diagnostics steps)
    → IsStuck N runs input conflict × All P conflict
unfolding Accepts Ends IsConflict
solve-IsStuck N runs input P conflict diagnostics steps h e =
    subst (λ s. Ends s (Accepts N runs input P)) e (solve-Accepts N runs input P h)
