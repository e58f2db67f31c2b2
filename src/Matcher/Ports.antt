-- ===== src/Matcher/Ports.antt =====
-- apps/matcher/src/constraints.ts, the search inside `wire`: the backtracking allocation of ports.
-- A search ends with a value, at the step limit (an exception in the source), or where the source
-- would throw a TypeError on a missing element. The detail of a battery failure does not print the
-- number of target days.
pub mod Limits
pub mod Visits
use albusforge.Prelude.{
  ℕ, suc, String, Bool, true, false, not, ◌&&◌, ◌||◌, List, [], ◌∷◌, ◌++◌, Option, none, some, ◌==◌,
  leb, if◌then◌else◌, find, any, keep, every, length, includes, ◌+++◌,
}
use albusforge.Prelude.Sort.{sort_by}
use text.Mathlib.Text.{starts_with}
use albusforge.Matcher.Types.{
  Arith, same_interface, Rail, Failure, Constraint, pin_key, text_le, Window, Supply, Part,
  ConnectorDefinition, Port, AssemblyProfile, SolveInput, WiringEdge,
}
use albusforge.Matcher.Power.{contains_voltage, PowerBudget, power_budget}
use albusforge.Matcher.Constraints.{find_connector, carries}

pub data Search {ℓ} (A : Type ℓ) : Type ℓ where
  found : A → Search A
  limit : (steps : ℕ) → Search A
  crash : Search A

infixl 5 ◌>>=◌
abbrev pub ◌>>=◌ {ℓ κ} : {A : Type ℓ} {B : Type κ} → Search A → (A → Search B) → Search B
found a >>= f = f a
limit n >>= f = limit n
crash >>= f = crash

-- `step()`: throws at the limit.
unfoldable pub step : ℕ → ℕ → Search ℕ
step max_steps steps = if leb max_steps steps then limit steps else found (suc steps)

-- Wherever the value is missing the source throws.
abbrev pub need {ℓ} : {A : Type ℓ} → Option A → Search A
need none = crash
need (some a) = found a

abbrev pub shares : List String → List String → Bool
shares rs ss = any (λ r. includes ss r) rs

module _ (N : Arith) where
  open N use {Num, lt, add, is_finite}

  pub record Wired : Type 0 where
    pub wiring : List WiringEdge
    pub budget : PowerBudget N

  -- The variables that the nested `visit` changes.
  pub record WireState : Type 0 where
    pub steps : ℕ
    pub best : Option Wired
    pub failure : Failure

  -- What `wire` has looked up before it searches.
  pub record Bench : Type 0 where
    pub input : SolveInput N
    pub profile : AssemblyProfile N
    pub brain : Part N
    pub source : Part N
    pub peripherals : List (Part N)
    pub output : Supply N
    pub rail : Supply N
    pub brain_input : Window N
    pub source_window : Window N
    pub target_days : Option Num

  finite_or_null : Option Num → Bool
  finite_or_null none = true
  finite_or_null (some n) = is_finite n

  is_finite_budget : PowerBudget N → Bool
  unfolding finite_or_null
  is_finite_budget b =
      is_finite b.average_source_ma
      && is_finite b.peak_source_ma
      && is_finite b.peak_brain_rail_ma
      && finite_or_null b.usable_capacity_mah
      && finite_or_null b.estimated_life_days

  -- `targetDays !== undefined && (days === null || days < targetDays)`
  misses_target : Option Num → Option Num → Bool
  misses_target none days = false
  misses_target (some target) none = true
  misses_target (some target) (some days) = lt days target

  -- Why a budget is no good, if so.
  unfoldable pub budget_failure : Bench → PowerBudget N → Option Failure
  unfolding is_finite_budget misses_target
  budget_failure bench b =
      if not (is_finite_budget b)
      then some (record {
        constraint = Constraint.current;
        detail = "Power calculation exceeds the numeric range";
      })
      else if lt bench.rail.max_output_ma b.peak_brain_rail_ma
          || lt bench.output.max_output_ma b.peak_source_ma
      then some (record {
        constraint = Constraint.current;
        detail = bench.profile.pin.id +++ " exceeds a source or regulator peak-current limit";
      })
      else if misses_target bench.target_days b.estimated_life_days
      then some (record {
        constraint = Constraint.battery;
        detail = bench.profile.pin.id +++ " does not meet the target days of battery life";
      })
      else none

  pub draws_less : PowerBudget N → Option Wired → Bool
  draws_less b none = true
  draws_less b (some best) = lt b.average_source_ma best.budget.average_source_ma

  -- The leaf of the search: every peripheral has a port.
  unfoldable pub settle : Bench → List WiringEdge → PowerBudget N → WireState → WireState
  unfolding draws_less
  settle bench wiring b st = elim (budget_failure bench b) [
    | some f ↦ record st { failure = f }
    | none ↦
        if draws_less b st.best
        then record st { best = some (record { wiring = wiring; budget = b }) }
        else st
  ]

  unfoldable pub leaf : Bench → List WiringEdge → WireState → Search WireState
  leaf bench wiring st =
      elim (power_budget N bench.brain bench.source bench.peripherals wiring bench.profile
        bench.input.spec bench.output bench.brain_input bench.rail) [
          | none ↦ crash
          | some b ↦ found (settle bench wiring b st)
        ]

  unfoldable pub voltage_at : Bench → Rail → Window N
  voltage_at bench Rail.brain = bench.rail.output_v
  voltage_at bench Rail.source = bench.source_window

  unfoldable pub provider_at : Bench → Rail → Part N
  provider_at bench Rail.brain = bench.brain
  provider_at bench Rail.source = bench.source

  unfoldable pub stands : Option (ConnectorDefinition N) → Num → Bool
  stands none v = false
  stands (some c) v = not (lt c.max_voltage v)

  -- The checks of a port that do not look at the wiring.
  unfoldable pub port_suits : Bench → Part N → Port N → Bool
  unfolding stands
  port_suits bench part port =
      let connector = find_connector N bench.input port.connector in
      let voltage = voltage_at bench port.rail in
      same_interface port.interface part.interface
      && port.connector == part.connector
      && carries N connector port.interface
      && stands connector voltage.high
      && contains_voltage N part.voltage_range voltage
      && every
          (λ c.
            not (starts_with c "power.") || includes (provider_at bench port.rail).capabilities c)
          part.needs

  abbrev pub occupants : List WiringEdge → Port N → List WiringEdge
  occupants wiring port = keep (λ (e : WiringEdge). e.port == port.id) wiring

  -- The checks of the port against what is already wired.
  unfoldable pub port_free : List WiringEdge → Port N → Bool
  port_free wiring port =
      not (leb port.capacity (length (occupants wiring port)))
      && not (
          any (λ (e : WiringEdge). not (e.port == port.id) && shares e.resources port.resources)
            wiring)

  unfoldable pub draw_of : Bench → WiringEdge → Option Num
  draw_of bench e =
      elim (find (λ (p : Part N). pin_key p.pin == pin_key e.part) bench.peripherals) [
        | none ↦ none
        | some p ↦ some p.active_ma
      ]

  -- The `reduce` of the occupants' currents.
  unfoldable pub current_from : Bench → Num → List WiringEdge → Option Num
  current_from bench sum [] = some sum
  current_from bench sum (e ∷ es) = elim (draw_of bench e) [
    | none ↦ none
    | some ma ↦ current_from bench (add sum ma) es
  ]

  unfoldable pub edge_of : Part N → Port N → WiringEdge
  edge_of part port = record {
    part = part.pin;
    port = port.id;
    rail = port.rail;
    connector = port.connector;
    resources = sort_by text_le port.resources;
  }

  -- The loop over the ports; `go` is `visit(index + 1)`.
  unfoldable pub try_ports :
      Bench
      → Part N
      → (List WiringEdge → WireState → Search WireState)
      → List WiringEdge
      → List (Port N)
      → WireState
      → Search WireState
  try_ports bench part go wiring [] st = found st
  try_ports bench part go wiring (port ∷ ports) st =
      let skip = try_ports bench part go wiring ports st in
      let enter = go (wiring ++ edge_of part port ∷ []) st >>= λ st'.
      try_ports bench part go wiring ports st' in
      if port_suits bench part port && port_free wiring port
      then elim (current_from bench part.active_ma (occupants wiring port)) [
        | none ↦ crash
        | some ma ↦ if lt port.max_current_ma ma then skip else enter
      ]
      else skip

  abbrev pub counted : ℕ → WireState → Search WireState
  counted max_steps st = step max_steps st.steps >>= λ n. found (record st { steps = n })

  -- `visit(index)`, on the peripherals from `index` on.
  unfoldable pub visit :
      Bench → List (Port N) → List (Part N) → List WiringEdge → WireState → Search WireState
  visit bench ports [] wiring st = counted bench.input.max_steps st >>= leaf bench wiring
  visit bench ports (part ∷ rest) wiring st =
      counted bench.input.max_steps st
      >>= try_ports bench part (visit bench ports rest) wiring ports
