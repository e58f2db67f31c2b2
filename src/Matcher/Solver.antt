-- ===== src/Matcher/Solver.antt =====
-- apps/matcher/src/solver.ts, `search`: over the profiles, and over the subsets of parts for each.
pub mod Offers
pub mod Feasible
pub mod Searches
use albusforge.Prelude.{
  ℕ, suc, eqb, String, Bool, true, false, not, ◌&&◌, ◌||◌, List, [], ◌∷◌, ◌++◌, Option, none, some,
  ◌==◌, if◌then◌else◌, find, any, keep, map, length, includes, unique, ◌+++◌, clip, drop,
}
use albusforge.Prelude.Sort.{sort_by}
use albusforge.Matcher.Types.{
  Arith, Interface, same_interface, Status, PowerSource, Failure, Constraint, pin_key, text_le,
  Supply, Part, AssemblyProfile, SolveInput,
}
use albusforge.Matcher.Constraints.{provided, is_peripheral, check_parts}
use albusforge.Matcher.Ports.{Search, found, limit, crash, ◌>>=◌, step}
use albusforge.Matcher.Plans.{
  Requirement, capability, target_life_days, same_requirement, power_capability, network_capability,
  is_requires, failure_key, note, required_of, Plan, SolveState, Setup, covers, by_pin, note_state,
  complete,
}

unfoldable pub is_active : Status → Bool
is_active Status.active = true
is_active _ = false

unfoldable pub is_battery : PowerSource → Bool
is_battery PowerSource.battery = true
is_battery _ = false

unfoldable pub is_target : Requirement → Bool
is_target target_life_days = true
is_target (capability c) = false

unfoldable pub has_none : {A : Type 0} → List A → Bool
has_none [] = true
has_none (x ∷ xs) = false

module _ (N : Arith) (runs : String → String → Bool) where
  open N use {Num, lt, zero_num}

  abbrev counted : ℕ → SolveState N → Search (SolveState N)
  counted max_steps st = step max_steps st.steps >>= λ n. found (record st { steps = n })

  -- `selected.some(p => p.id === candidate.id)`
  unfoldable pub is_selected : List (Part N) → Part N → Bool
  is_selected selected candidate = any (λ (p : Part N). p.pin.id == candidate.pin.id) selected

  -- `visit(index + 1)`, as a function of what is selected.
  abbrev Visit : Type 0
  Visit = List (Part N) → SolveState N → Search (Bool × SolveState N)

  -- The candidate is tried, unless a part with its id is selected.
  unfoldable pub include :
      Setup N → Visit → Part N → List (Part N) → SolveState N → Search (Bool × SolveState N)
  include s go candidate selected st =
      if is_selected selected candidate
      then found (false, st)
      else go (selected ++ candidate ∷ []) st
        >>= (λ (r : Bool × SolveState N). found (r.0 && s.first_only, r.1))

  -- Past the visit without the candidate.
  unfoldable pub after_exclude :
      Setup N → Visit → Part N → List (Part N) → Bool × SolveState N → Search (Bool × SolveState N)
  after_exclude s go candidate selected (had, st) =
      if had && s.first_only then found (true, st) else include s go candidate selected st

  unfoldable pub explore :
      Setup N
      → Visit
      → Part N
      → List (Part N)
      → List (Part N)
      → SolveState N
      → Search (Bool × SolveState N)
  explore s go candidate rest selected st =
      if covers N s.required (selected ++ candidate ∷ rest)
      then go selected st >>= after_exclude s go candidate selected
      else found (false, st)

  unfoldable pub finish : Setup N → List (Part N) → SolveState N → Search (Bool × SolveState N)
  finish s selected st =
      if covers N s.required selected then complete N runs s selected st else found (false, st)

  -- `visit(index)`, on the candidates from `index` on: whether it found a plan.
  unfoldable pub visit :
      Setup N → List (Part N) → List (Part N) → SolveState N → Search (Bool × SolveState N)
  visit s [] selected st = counted s.input.max_steps st >>= finish s selected
  visit s (candidate ∷ rest) selected st =
      counted s.input.max_steps st >>= explore s (visit s rest) candidate rest selected

  -- `!source.electrical.supply?.capacity_mah`, of a capacity that is not NaN.
  unfoldable pub no_capacity : Option (Supply N) → Bool
  no_capacity none = true
  no_capacity (some supply) = elim supply.capacity_mah [
    | none ↦ true
    | some c ↦ not (lt zero_num c || lt c zero_num)
  ]

  unfoldable pub brain_of : List (Part N) → AssemblyProfile N → Option (Part N)
  brain_of parts profile =
      find
        (λ (p : Part N).
          pin_key p.pin == pin_key profile.brain && same_interface p.interface Interface.host)
        parts

  unfoldable pub source_of : List (Part N) → AssemblyProfile N → PowerSource → Option (Part N)
  source_of parts profile power =
      find
        (λ (p : Part N).
          pin_key p.pin == pin_key profile.source
          && same_interface p.interface Interface.power
          && includes p.capabilities (power_capability power))
        parts

  unfoldable pub candidates_of : List (Part N) → Part N → Part N → List (Part N)
  candidates_of parts brain source =
      keep
        (λ (p : Part N).
          is_peripheral p.interface
          && not (p.pin.id == brain.pin.id)
          && not (p.pin.id == source.pin.id))
        parts

  unfoldable pub is_unfit : SolveInput N → Part N → Part N → Bool
  unfolding no_capacity is_battery
  is_unfit input brain source =
      brain.pin.id == source.pin.id
      || is_battery input.spec.power_source && no_capacity source.supply

  -- What is left of the loop's body once brain and source are found.
  unfoldable pub on_setup : List (Part N) → Setup N → SolveState N → Search (Bool × SolveState N)
  on_setup parts s st =
      let selected = s.brain ∷ s.source ∷ [] in
      let base = keep (λ f. not (is_requires f)) (check_parts N runs selected s.brain s.input) in
      if is_unfit s.input s.brain s.source
      then found (false, st)
      else if has_none base
      then visit s (candidates_of parts s.brain s.source) selected st
      else found (false, note_state N base st)

  unfoldable pub setup_of :
      SolveInput N → List Requirement → Bool → AssemblyProfile N → Part N → Part N → Setup N
  setup_of input needs first_only profile brain source = record {
    input = input;
    profile = profile;
    brain = brain;
    source = source;
    required = required_of needs;
    target = if any is_target needs then input.spec.target_life_days else none;
    first_only = first_only;
  }

  unfoldable pub on_profile :
      SolveInput N
      → List (Part N)
      → List Requirement
      → Bool
      → AssemblyProfile N
      → SolveState N
      → Search (Bool × SolveState N)
  on_profile input parts needs first_only profile st = elim (brain_of parts profile) [
    | none ↦ found (false, st)
    | some brain ↦ elim (source_of parts profile input.spec.power_source) [
      | none ↦ found (false, st)
      | some source ↦ on_setup parts (setup_of input needs first_only profile brain source) st
    ]
  ]

  unfoldable pub stop_or :
      Bool → (SolveState N → Search (SolveState N)) → Bool × SolveState N → Search (SolveState N)
  stop_or first_only next (had, st) = if had && first_only then found st else next st

  unfoldable pub search_profiles :
      SolveInput N
      → List (Part N)
      → List Requirement
      → Bool
      → List (AssemblyProfile N)
      → SolveState N
      → Search (SolveState N)
  search_profiles input parts needs first_only [] st = found st
  search_profiles input parts needs first_only (profile ∷ profiles) st =
      counted input.max_steps st
      >>= on_profile input parts needs first_only profile
      >>= stop_or first_only (search_profiles input parts needs first_only profiles)

  abbrev pub fresh : SolveState N → SolveState N
  fresh st = record st { plans = []; count = 0 }

  unfoldable pub active_parts : SolveInput N → List (Part N)
  active_parts input = by_pin N (keep (λ (p : Part N). is_active p.status) input.parts)

  unfoldable pub sorted_profiles : SolveInput N → List (AssemblyProfile N)
  sorted_profiles input =
      sort_by (λ (a b : AssemblyProfile N). text_le (pin_key a.pin) (pin_key b.pin)) input.profiles

  -- `search(needs, firstOnly)`
  unfoldable pub search :
      SolveInput N → List Requirement → Bool → SolveState N → Search (SolveState N)
  search input needs first_only st =
      search_profiles input (active_parts input) needs first_only (sorted_profiles input) (fresh st)
