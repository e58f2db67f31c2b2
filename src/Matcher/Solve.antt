-- ===== src/Matcher/Solve.antt =====
-- apps/matcher/src/solver.ts, `solve` around its searches: the requirements, the diagnostics, the
-- minimal conflict and the result. The explanation is a text about the result and is left out.
pub mod Soundness
pub mod Conflict
mod Tests
use albusforge.Prelude.{
  ℕ, suc, eqb, String, Bool, true, false, not, ◌&&◌, ◌||◌, List, [], ◌∷◌, ◌++◌, Option, none, some,
  ◌==◌, if◌then◌else◌, find, any, keep, map, length, includes, unique, ◌+++◌, clip, drop,
}
use albusforge.Prelude.Sort.{sort_by}
use albusforge.Matcher.Types.{
  Arith, Interface, same_interface, Status, PowerSource, Failure, Constraint, pin_key, text_le,
  Supply, Part, AssemblyProfile, SolveInput,
}
use albusforge.Matcher.Constraints.{provided, is_peripheral, check_parts}
use albusforge.Matcher.Ports.{Search, found, limit, crash, ◌>>=◌, step}
use albusforge.Matcher.Plans.{
  Requirement, capability, target_life_days, same_requirement, power_capability, network_capability,
  is_requires, failure_key, note, required_of, Plan, SolveState, Setup, covers, by_pin, note_state,
  complete,
}
use albusforge.Matcher.Solver.{active_parts, search}

is_battery : PowerSource → Bool
is_battery PowerSource.battery = true
is_battery _ = false

module _ (N : Arith) (runs : String → String → Bool) where
  open N use {Num}

  pub data SolveResult : Type 0 where
    solved : List (Plan N) → (feasible_count steps : ℕ) → SolveResult
    infeasible :
        (conflict_set : List Requirement) → (diagnostics : List Failure) → (steps : ℕ) → SolveResult
    search_limit : (steps : ℕ) → SolveResult
    invalid_input : List String → SolveResult

  pub caps_of : SolveInput N → List String
  caps_of input =
      sort_by text_le (unique (input.spec.capabilities ++ network_capability input.spec.transport))

  target_requirement : Option Num → List Requirement
  target_requirement none = []
  target_requirement (some days) = target_life_days ∷ []

  pub requirements_of : SolveInput N → List Requirement
  unfolding target_requirement
  requirements_of input =
      map (λ c. capability c) (caps_of input) ++ target_requirement input.spec.target_life_days

  -- The loop over the capabilities that no active part provides.
  uncovered : List (Part N) → List String → List Failure
  uncovered parts [] = []
  uncovered parts (c ∷ caps) =
      let rest = uncovered parts caps in
      if any (λ (p : Part N). includes p.capabilities c) parts
      then rest
      else record { constraint = Constraint.coverage; detail = "No active part provides " +++ c }
        ∷ rest

  abbrev without : Requirement → List Requirement → List Requirement
  without r rs = keep (λ x. not (same_requirement x r)) rs

  -- The deletion loop: a requirement goes if the others stay infeasible without it.
  pub minimize :
      SolveInput N
      → List Requirement
      → List Requirement
      → SolveState N
      → Search (List Requirement × SolveState N)
  minimize input [] conflict st = found (conflict, st)
  minimize input (r ∷ rs) conflict st =
      search N runs input (without r conflict) true st >>= (λ (st' : SolveState N).
        minimize input rs (if eqb st'.count 0 then without r conflict else conflict) st')

  has_target : Option Num → Bool
  has_target none = false
  has_target (some days) = true

  sorted_failures : List (String × Failure) → List Failure
  sorted_failures seen =
      sort_by (λ f g. text_le (failure_key f) (failure_key g))
        (map (λ (e : String × Failure). e.1) seen)

  -- The diagnostics after a search that found nothing.
  explained : SolveInput N → SolveState N → SolveState N
  explained input st =
      let noted = note_state N (uncovered (active_parts N runs input) (caps_of input)) st in
      if eqb (length noted.diagnostics) 0
      then note_state N
          (record {
            constraint = Constraint.catalogue;
            detail = "No active host/source/profile combination can cover this request";
          }
            ∷ [])
          noted
      else noted

  report : List Requirement × SolveState N → SolveResult
  report (conflict, st) = infeasible conflict (sorted_failures st.diagnostics) st.steps

  -- What follows the first search.
  pub conclude : SolveInput N → SolveState N → Search SolveResult
  conclude input st =
      let requirements = requirements_of input in
      if eqb st.count 0
      then minimize input requirements requirements (explained input st)
        >>= (λ (r : List Requirement × SolveState N). found (report r))
      else found (solved st.plans st.count st.steps)

  -- The `catch`.
  pub caught : Search SolveResult → Search SolveResult
  caught (found r) = found r
  caught (limit n) = found (search_limit n)
  caught crash = crash

  pub start : SolveState N
  start = record { steps = 0; diagnostics = []; plans = []; count = 0 }

  -- `solve`, on an input that its schema has parsed.
  pub solve : SolveInput N → Search SolveResult
  solve input =
      if has_target input.spec.target_life_days && not (is_battery input.spec.power_source)
      then found (invalid_input ("target_life_days requires a battery power source" ∷ []))
      else caught (search N runs input (requirements_of input) false start >>= conclude input)
