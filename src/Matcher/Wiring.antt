-- ===== src/Matcher/Wiring.antt =====
-- apps/matcher/src/constraints.ts, `wire` around its search: the power path, the refusals, the
-- starting state and the result.
pub mod Allocation
pub mod Promises
pub mod Tests
use albusforge.Prelude.{
  true, ℕ, String, Bool, false, not, ◌&&◌, ◌||◌, List, [], Option, none, some, ◌==◌, if◌then◌else◌,
  find, includes, ◌+++◌,
}
use albusforge.Prelude.Sort.{sort_by}
use albusforge.Matcher.Types.{
  Arith, Failure, Constraint, text_le, Window, Supply, PowerInput, Part, ConnectorDefinition, Port,
  AssemblyProfile, SolveInput,
}
use albusforge.Matcher.Power.{max_num}
use albusforge.Matcher.Constraints.{find_connector}
use albusforge.Matcher.Ports.{Search, found, ◌>>=◌, need, Wired, WireState, Bench, stands, visit}

module _ (N : Arith) where
  open N use {Num, lt}

  pub data WiringResult : Type 0 where
    ok : Wired N → WiringResult
    refused : Failure → WiringResult

  -- `profile.brain_input` names the primary input or one of the others.
  unfoldable pub input_window : Part N → String → Option (Window N)
  input_window brain name =
      if name == "primary"
      then some brain.voltage_range
      else elim (find (λ (i : PowerInput N). i.name == name) brain.alt_inputs) [
        | none ↦ none
        | some i ↦ some i.voltage_range
      ]

  unfoldable pub is_battery : Supply N → Part N → Bool
  is_battery output source = elim output.capacity_mah [
    | none ↦ false
    | some c ↦ includes source.capabilities "power.battery"
  ]

  -- The source plugs into the profile's source connector, which stands its voltage.
  unfoldable pub source_fits : SolveInput N → AssemblyProfile N → Part N → Supply N → Bool
  source_fits input profile source output =
      source.connector == profile.source_connector
      && stands N (find_connector N input profile.source_connector) output.output_v.high

  unfoldable pub source_powers : Part N → Supply N → Window N → Bool
  unfolding is_battery
  source_powers source output window = not (
      lt window.high output.output_v.high
      || lt output.output_v.high window.low
      || not (is_battery output source) && lt output.output_v.low window.low)

  -- Whether the primary input's connector is overvolted; a missing connector throws.
  unfoldable pub overvolted : SolveInput N → AssemblyProfile N → Part N → Supply N → Search Bool
  overvolted input profile brain output =
      if profile.brain_input == "primary"
      then (need (find_connector N input brain.connector)
          >>= (λ (c : ConnectorDefinition N). found (lt c.max_voltage output.output_v.high)))
      else found false

  abbrev refuse : Constraint → String → ℕ → Search (WiringResult × ℕ)
  refuse constraint detail steps =
      found (refused (record { constraint = constraint; detail = detail }), steps)

  -- The search on the bench, from `visit(0)` on, and the step count after it.
  unfoldable pub result_of : WireState N → WiringResult × ℕ
  result_of st = elim st.best [ none ↦ (refused st.failure, st.steps) | some w ↦ (ok w, st.steps) ]

  unfoldable pub start_of : Bench N → ℕ → WireState N
  start_of bench steps = record {
    steps = steps;
    best = none;
    failure = record {
      constraint = Constraint.wiring;
      detail = bench.profile.pin.id +++ " has no complete connector/port assignment";
    };
  }

  unfoldable pub search_wiring : Bench N → ℕ → Search (WiringResult × ℕ)
  unfolding start_of
  search_wiring bench steps =
      visit N bench (sort_by (λ (p q : Port N). text_le p.id q.id) bench.profile.ports)
        bench.peripherals [] (start_of bench steps)
      >>= λ st. found (result_of st)

  unfoldable pub over_or_search : Bench N → ℕ → Bool → Search (WiringResult × ℕ)
  over_or_search bench steps true =
      refuse Constraint.voltage (bench.brain.pin.id +++ " input connector is overvolted") steps
  over_or_search bench steps false = search_wiring bench steps

  unfoldable pub bench_of :
      Part N
      → Part N
      → List (Part N)
      → AssemblyProfile N
      → SolveInput N
      → Option Num
      → Supply N
      → Supply N
      → Window N
      → Bench N
  bench_of brain source peripherals profile input target_days output rail window = record {
    input = input;
    profile = profile;
    brain = brain;
    source = source;
    peripherals = peripherals;
    output = output;
    rail = rail;
    brain_input = window;
    source_window = record {
      low = max_num N output.output_v.low window.low;
      high = output.output_v.high;
    };
    target_days = target_days;
  }

  -- The refusals after the lookups, in the source's order, and the search.
  unfoldable pub wire_on : Bench N → ℕ → Search (WiringResult × ℕ)
  unfolding source_fits source_powers
  wire_on bench steps =
      if not (source_fits bench.input bench.profile bench.source bench.output)
      then refuse Constraint.wiring
          (bench.profile.pin.id +++ " does not match the source connector or voltage rating") steps
      else if not (source_powers bench.source bench.output bench.brain_input)
      then refuse Constraint.voltage
          (bench.source.pin.id +++ " cannot power " +++ bench.brain.pin.id +++ "/"
            +++ bench.profile.brain_input)
          steps
      else overvolted bench.input bench.profile bench.brain bench.output
        >>= over_or_search bench steps

  -- `!output || !rail || !brainInput` refuses.
  unfoldable pub powered :
      Option (Supply N)
      → Option (Supply N)
      → Option (Window N)
      → Option (Supply N × Supply N × Window N)
  powered (some output) (some rail) (some window) = some (output, rail, window)
  powered _ _ _ = none

  -- `steps` is the counter that the caller's `step` closes over.
  unfoldable pub wire :
      Part N
      → Part N
      → List (Part N)
      → AssemblyProfile N
      → SolveInput N
      → Option Num
      → ℕ
      → Search (WiringResult × ℕ)
  unfolding bench_of wire_on
  wire brain source peripherals profile input target_days steps =
      elim (powered source.supply brain.supply (input_window brain profile.brain_input)) [
        | none ↦ refuse Constraint.voltage (profile.pin.id +++ " has no modeled power path") steps
        | some (output, rail, window) ↦
            wire_on (bench_of brain source peripherals profile input target_days output rail window)
              steps
      ]
