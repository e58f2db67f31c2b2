-- ===== src/Matcher/Solve/Soundness.antt =====
-- apps/matcher/src/solver.ts: the plans of a solved request.
use albusforge.Prelude.{
  ℕ, ◌≡◌, refl, ap, subst, ◌≤◌, String, Bool, true, false, not, if◌then◌else◌, any, ◌&&◌, List, [],
  ◌∷◌, ◌++◌, map, Option, none, some, length, drop, All, Bool-cases, inl, inr, eqb,
}
use albusforge.Matcher.Types.{Arith, Part, AssemblyProfile, SolveInput}
use albusforge.Matcher.Constraints.{check_parts}
use albusforge.Matcher.Ports.{Search, found, limit, crash, ◌>>=◌, Wired}
use albusforge.Matcher.Ports.Visits.{Ends, Ends->>=, Ends-Unit}
use albusforge.Matcher.Wiring.{ok, wire}
use albusforge.Matcher.Plans.{
  Requirement, capability, required_of, Plan, SolveState, covers, plan_of, by_pin, total_of,
}
use albusforge.Matcher.Solver.{setup_of, search, is_target}
use albusforge.Matcher.Solver.Offers.{IsChoice, IsGiven}
use albusforge.Matcher.Solver.Feasible.{IsKept, IsChosen, Yields}
use albusforge.Matcher.Solver.Searches.{YieldsAll, search-Holds}
use albusforge.Matcher.Solve.{
  SolveResult, solved, infeasible, search_limit, invalid_input, is_battery, caps_of,
  target_requirement, requirements_of, minimize, explained, report, conclude, caught, start,
  has_target, solve,
}

-- A plan stands on parts of the input: the brain and the source that one of the input's profiles names, and
-- active peripherals. Together they cover every capability asked for, fail no check, and have been
-- wired for the target that the input sets; and the plan says just that.
pub record IsFeasible (N : Arith) (runs : String → String → Bool) (input : SolveInput N)
    (plan : Plan N) : Type 0 where
  pub profile : AssemblyProfile N
  pub brain : Part N
  pub source : Part N
  pub chosen : List (Part N)
  pub wired : Wired N
  pub before : ℕ
  pub after : ℕ
  pub given : IsGiven N runs input profile brain source
  pub offered : All (IsChoice N runs input) chosen
  pub covered : covers N (caps_of N runs input) (brain ∷ source ∷ chosen) ≡ true
  pub passed : check_parts N runs (brain ∷ source ∷ chosen) brain input ≡ []
  pub wires :
      wire N brain source chosen profile input input.spec.target_life_days before
      ≡ found (ok wired, after)
  pub parts : plan.part_versions ≡ map (λ (p : Part N). p.pin) (by_pin N (brain ∷ source ∷ chosen))
  pub priced :
      plan.bom ≡ map (λ (p : Part N). (p.pin, p.unit_cost_usd)) (by_pin N (brain ∷ source ∷ chosen))
  pub total : plan.total_cost_usd ≡ total_of N (by_pin N (brain ∷ source ∷ chosen)) N.zero_num
  pub names_profile : plan.profile ≡ profile.pin
  pub names_brain : plan.brain ≡ brain.pin
  pub names_source : plan.source ≡ source.pin
  pub names_wiring : plan.wiring ≡ wired.wiring
  pub names_budget : plan.power_budget ≡ wired.budget
  pub names_runtime : plan.runtime ≡ input.spec.runtime

module _ (N : Arith) (runs : String → String → Bool) (input : SolveInput N) where
  Accepts : SolveResult N runs → Type 0
  Accepts (solved plans count steps) =
      All (IsFeasible N runs input) plans × (length plans ≤ input.max_plans)
  Accepts (infeasible conflict diagnostics steps) = Unit
  Accepts (search_limit steps) = Unit
  Accepts (invalid_input issues) = Unit

  required_of-capabilities :
      (caps : List String) (more : List Requirement)
      → required_of more ≡ []
      → required_of (map (λ c. capability c) caps ++ more) ≡ caps
  unfolding required_of
  required_of-capabilities [] more h = h
  required_of-capabilities (c ∷ caps) more h =
      ap (λ cs. c ∷ cs) (required_of-capabilities caps more h)

  required_of-target : (days : Option N.Num) → required_of (target_requirement N runs days) ≡ []
  unfolding required_of target_requirement
  required_of-target none = refl
  required_of-target (some d) = refl

  required_of-requirements_of : required_of (requirements_of N runs input) ≡ caps_of N runs input
  unfolding requirements_of
  required_of-requirements_of =
      required_of-capabilities (caps_of N runs input)
        (target_requirement N runs input.spec.target_life_days)
        (required_of-target input.spec.target_life_days)

  any_target-capabilities :
      (caps : List String) (more : List Requirement)
      → any is_target (map (λ c. capability c) caps ++ more) ≡ any is_target more
  unfolding is_target
  any_target-capabilities [] more = refl
  any_target-capabilities (c ∷ caps) more = any_target-capabilities caps more

  target-own :
      (days : Option N.Num)
      → (if any is_target (target_requirement N runs days) then days else none) ≡ days
  unfolding is_target target_requirement
  target-own none = refl
  target-own (some d) = refl

  -- The target of the first search is the input's.
  target_of-requirements_of :
      (if any is_target (requirements_of N runs input) then input.spec.target_life_days else none)
      ≡ input.spec.target_life_days
  unfolding requirements_of
  target_of-requirements_of =
      rw
        (any_target-capabilities (caps_of N runs input)
          (target_requirement N runs input.spec.target_life_days))
        (target-own input.spec.target_life_days)

  solve-YieldsAll :
      YieldsAll N runs
        (IsFeasible N runs input)
        input.max_plans
        input
        (requirements_of N runs input)
        false
  unfolding YieldsAll Yields IsChosen setup_of plan_of
  solve-YieldsAll profile brain source g = (
    refl,
    λ selected w steps n f c p e.
        let (chosen, whole, offered) = f in
        let target : Option N.Num =
          if any is_target (requirements_of N runs input)
          then input.spec.target_life_days
          else none in
        let wires : wire N brain source chosen profile input target steps ≡ found (ok w, n) =
          subst (λ ps. wire N brain source (drop 2 ps) profile input target steps ≡ found (ok w, n))
            whole e in
        record {
          profile = profile;
          brain = brain;
          source = source;
          chosen = chosen;
          wired = w;
          before = steps;
          after = n;
          given = g;
          offered = offered;
          covered =
              subst (λ ps. covers N (caps_of N runs input) ps ≡ true) whole
                (subst (λ cs. covers N cs selected ≡ true) required_of-requirements_of c);
          passed = subst (λ ps. check_parts N runs ps brain input ≡ []) whole p;
          wires =
              subst (λ t. wire N brain source chosen profile input t steps ≡ found (ok w, n))
                target_of-requirements_of wires;
          parts = ap (λ ps. map (λ (p : Part N). p.pin) (by_pin N ps)) whole;
          priced = ap (λ ps. map (λ (p : Part N). (p.pin, p.unit_cost_usd)) (by_pin N ps)) whole;
          total = ap (λ ps. total_of N (by_pin N ps) N.zero_num) whole;
          names_profile = refl;
          names_brain = refl;
          names_source = refl;
          names_wiring = refl;
          names_budget = refl;
          names_runtime = refl;
        },
  )

  conclude-Accepts :
      (st : SolveState N)
      → IsKept N runs (IsFeasible N runs input) input.max_plans (IsChoice N runs input) st
      → Ends (conclude N runs input st) Accepts
  unfolding conclude Ends IsKept Accepts report
  conclude-Accepts st k = elim (Bool-cases (eqb st.count 0)) [
    | inl failed ↦
        let requirements = requirements_of N runs input in
        let search = minimize N runs input requirements requirements (explained N runs input st) in
        rw (failed, conclude)
          (Ends->>= search (λ r. found (report N runs r)) (λ r. Unit {0}) Accepts (Ends-Unit search)
            (λ r t. tt))
    | inr some_found ↦ rw (some_found, conclude) k
  ]

  caught-Ends : (s : Search (SolveResult N runs)) → Ends s Accepts → Ends (caught N runs s) Accepts
  unfolding caught Ends Accepts
  caught-Ends (found r) h = h
  caught-Ends (limit n) h = tt
  caught-Ends crash h = tt

  solve-Accepts : Ends (solve N runs input) Accepts
  unfolding solve Ends Accepts
  solve-Accepts =
      elim (Bool-cases (
        has_target N runs input.spec.target_life_days
        && not (is_battery input.spec.power_source))) [
          | inl bad ↦ rw (bad, solve) tt
          | inr good ↦
              let first = search N runs input (requirements_of N runs input) false (start N runs) in
              rw (good, solve)
                (caught-Ends (first >>= conclude N runs input) (
                  Ends->>= first (conclude N runs input)
                    (IsKept N runs (IsFeasible N runs input) input.max_plans
                      (IsChoice N runs input))
                    Accepts
                    (search-Holds N runs (IsFeasible N runs input) input.max_plans input
                      (requirements_of N runs input) false (start N runs) solve-YieldsAll)
                    conclude-Accepts))
        ]

-- Every plan that `solve` returns stands on parts of the input, each active: the brain and the source that
-- one of its profiles names, a host and a supply of the power asked for, and peripherals. They cover
-- every capability asked for, the network's included, fail no check, and `wire` wired them within the
-- target life that the input sets; the plan's parts, bill, cost, wiring and budget are those. And
-- there are no more plans than the input allows.
pub solve-IsFeasible :
    (N : Arith) (runs : String → String → Bool) (input : SolveInput N) (plans : List (Plan N))
    (count steps : ℕ)
    → solve N runs input ≡ found (solved plans count steps)
    → All (IsFeasible N runs input) plans × (length plans ≤ input.max_plans)
unfolding Accepts Ends
solve-IsFeasible N runs input plans count steps e =
    subst (λ s. Ends s (Accepts N runs input)) e (solve-Accepts N runs input)
