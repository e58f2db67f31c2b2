-- ===== src/Matcher/Power.antt =====
-- apps/matcher/src/power.ts: voltages and the power budget.
use albusforge.Prelude.{
  Bool, true, false, not, ◌&&◌, List, [], ◌∷◌, Option, none, some, ◌==◌, if◌then◌else◌, find,
}
use albusforge.Matcher.Types.{
  Arith, Rail, pin_key, Window, Supply, Part, Activity, AssemblyProfile, SolveSpec, WiringEdge,
}

unfoldable pub is_brain : Rail → Bool
is_brain Rail.brain = true
is_brain Rail.source = false

module _ (N : Arith) where
  open N use {Num, lt, zero_num, one, hours_per_day, add, sub, mul, div}

  -- `a <= b` and `a === b`, of numbers that are not NaN.
  abbrev pub le : Num → Num → Bool
  le a b = not (lt b a)

  abbrev pub same_num : Num → Num → Bool
  same_num a b = le a b && le b a

  abbrev pub max_num : Num → Num → Num
  max_num a b = if lt a b then b else a

  abbrev pub min_num : Num → Num → Num
  min_num a b = if lt b a then b else a

  unfoldable pub contains_voltage : Window N → Window N → Bool
  contains_voltage input source = le input.low source.low && le source.high input.high

  duty_of : Option (Activity N) → Num → Num
  duty_of none interval = one
  duty_of (some a) interval = min_num one (div a.active_s interval)

  unfoldable pub average_current : Part N → Num → AssemblyProfile N → Num
  unfolding duty_of
  average_current part interval profile =
      let activity =
        find (λ (x : Activity N). pin_key x.part == pin_key part.pin) profile.activity in
      add part.idle_ma (mul (sub part.active_ma part.idle_ma) (duty_of activity interval))

  pub record PowerBudget : Type 0 where
    pub average_source_ma : Num
    pub peak_source_ma : Num
    pub peak_brain_rail_ma : Num
    pub usable_capacity_mah : Option Num
    pub estimated_life_days : Option Num

  -- The running sums of `powerBudget`.
  pub record Loads : Type 0 where
    pub rail_peak : Num
    pub rail_average : Num
    pub direct_peak : Num
    pub direct_average : Num

  unfoldable pub load_part : Part N → Num → AssemblyProfile N → Rail → Loads → Loads
  load_part part interval profile Rail.brain l = record l {
    rail_peak = add l.rail_peak part.active_ma;
    rail_average = add l.rail_average (average_current part interval profile);
  }
  load_part part interval profile Rail.source l = record l {
    direct_peak = add l.direct_peak part.active_ma;
    direct_average = add l.direct_average (average_current part interval profile);
  }

  -- `none` where a peripheral has no edge, on which the source would throw.
  unfoldable pub loads_of :
      List (Part N) → List WiringEdge → Num → AssemblyProfile N → Loads → Option Loads
  loads_of [] edges interval profile l = some l
  loads_of (part ∷ parts) edges interval profile l =
      elim (find (λ (x : WiringEdge). pin_key x.part == pin_key part.pin) edges) [
        | none ↦ none
        | some edge ↦
            loads_of parts edges interval profile (load_part part interval profile edge.rail l)
      ]

  usable_of : Option Num → Num → Option Num
  usable_of none fraction = none
  usable_of (some capacity) fraction = some (mul capacity fraction)

  life_of : Option Num → Num → Option Num
  life_of none average = none
  life_of (some usable) average =
      if same_num average zero_num then none else some (div (div usable average) hours_per_day)

  unfoldable pub budget_of :
      Supply N → Window N → Supply N → AssemblyProfile N → Loads → PowerBudget
  unfolding usable_of life_of
  budget_of output input rail profile l =
      let source_min = max_num output.output_v.low input.low in
      let factor = div rail.output_v.high (mul source_min profile.regulator_efficiency) in
      let average =
        add (add l.direct_average (mul l.rail_average factor)) profile.quiescent_source_ma in
      let peak = add (add l.direct_peak (mul l.rail_peak factor)) profile.quiescent_source_ma in
      let usable = usable_of output.capacity_mah profile.battery_usable_fraction in
      record {
        average_source_ma = average;
        peak_source_ma = peak;
        peak_brain_rail_ma = l.rail_peak;
        usable_capacity_mah = usable;
        estimated_life_days = life_of usable average;
      }

  -- The supplies and the input are handed in by `wire`, which has looked them up.
  unfoldable pub power_budget :
      Part N
      → Part N
      → List (Part N)
      → List WiringEdge
      → AssemblyProfile N
      → SolveSpec N
      → Supply N
      → Window N
      → Supply N
      → Option PowerBudget
  unfolding budget_of usable_of life_of
  power_budget brain source peripherals wiring profile spec output input rail =
      let start : Loads = record {
        rail_peak = brain.active_ma;
        rail_average = average_current brain spec.interval_s profile;
        direct_peak = source.active_ma;
        direct_average = average_current source spec.interval_s profile;
      } in
      elim (loads_of peripherals wiring spec.interval_s profile start) [
        | none ↦ none
        | some l ↦ some (budget_of output input rail profile l)
      ]
