-- ===== src/Matcher/Plans.antt =====
-- apps/matcher/src/solver.ts and rank.ts: what the search keeps, and the end of its `visit`. The input
-- is parsed already, a requirement is a value where the source has a tagged string, and a plan is kept
-- without its log, which only prints. The runtime range test is a parameter, `runs`.
use albusforge.Prelude.{
  ℕ, suc, String, Bool, true, false, not, List, [], ◌∷◌, ◌++◌, Option, ◌==◌, ltb, if◌then◌else◌,
  every, drop, map, length, includes, join, ◌+++◌,
}
use albusforge.Prelude.Assoc.{insert}
use albusforge.Prelude.Sort.{sort_by}
use albusforge.Matcher.Types.{
  Arith, PowerSource, Transport, Failure, Constraint, Pin, pin_key, text_le, Part, AssemblyProfile,
  SolveInput, WiringEdge,
}
use albusforge.Matcher.Power.{PowerBudget}
use albusforge.Matcher.Constraints.{provided, check_parts}
use albusforge.Matcher.Ports.{Search, found, ◌>>=◌, Wired}
use albusforge.Matcher.Wiring.{WiringResult, ok, refused, wire}

pub data Requirement : Type 0 where
  capability : String → Requirement
  target_life_days : Requirement

unfoldable pub same_requirement : Requirement → Requirement → Bool
same_requirement (capability a) (capability b) = a == b
same_requirement target_life_days target_life_days = true
same_requirement _ _ = false

unfoldable pub power_capability : PowerSource → String
power_capability PowerSource.battery = "power.battery"
power_capability PowerSource.usb = "power.5v"
power_capability PowerSource.solar = "power.solar"

unfoldable pub network_capability : Transport → List String
network_capability Transport.wifi = "net.wifi" ∷ []
network_capability Transport.ble = "net.ble" ∷ []
network_capability Transport.lora = "net.lora" ∷ []
network_capability Transport.no_transport = []

unfoldable pub constraint_name : Constraint → String
constraint_name Constraint.coverage = "coverage"
constraint_name Constraint.requires = "requires"
constraint_name Constraint.conflict = "conflict"
constraint_name Constraint.i2c = "i2c"
constraint_name Constraint.runtime = "runtime"
constraint_name Constraint.compatibility = "compatibility"
constraint_name Constraint.logic = "logic"
constraint_name Constraint.wiring = "wiring"
constraint_name Constraint.voltage = "voltage"
constraint_name Constraint.current = "current"
constraint_name Constraint.battery = "battery"
constraint_name Constraint.catalogue = "catalogue"

unfoldable pub is_requires : Failure → Bool
is_requires f = constraint_name f.constraint == "requires"

unfoldable pub failure_key : Failure → String
failure_key f = constraint_name f.constraint +++ ":" +++ f.detail

-- `record`, on the map of diagnostics.
unfoldable pub note : Failure → List (String × Failure) → List (String × Failure)
note f seen =
    let more = insert (failure_key f) f seen in if ltb (length seen) 100 then more else seen

unfoldable pub note_all : List Failure → List (String × Failure) → List (String × Failure)
note_all [] seen = seen
note_all (f ∷ fs) seen = note_all fs (note f seen)

-- `Array.prototype.pop`
unfoldable pub drop_last {ℓ} : {A : Type ℓ} → List A → List A
drop_last [] = []
drop_last (x ∷ []) = []
drop_last (x ∷ y ∷ ys) = x ∷ drop_last (y ∷ ys)

unfoldable pub required_of : List Requirement → List String
required_of [] = []
required_of (capability c ∷ needs) = c ∷ required_of needs
required_of (target_life_days ∷ needs) = required_of needs

module _ (N : Arith) where
  open N use {Num, lt, add, zero_num, is_finite}

  pub record Plan : Type 0 where
    pub part_versions : List Pin
    pub runtime : String
    pub profile : Pin
    pub source : Pin
    pub brain : Pin
    pub brain_input : String
    pub wiring : List WiringEdge
    pub power_budget : PowerBudget N
    pub bom : List (Pin × Num)
    pub total_cost_usd : Num

  -- `comparePlans(a, b) <= 0`, of finite numbers.
  unfoldable pub plan_le : Plan → Plan → Bool
  plan_le a b =
      if lt a.total_cost_usd b.total_cost_usd
      then true
      else if lt b.total_cost_usd a.total_cost_usd
      then false
      else if lt a.power_budget.average_source_ma b.power_budget.average_source_ma
      then true
      else if lt b.power_budget.average_source_ma a.power_budget.average_source_ma
      then false
      else if ltb (length a.part_versions) (length b.part_versions)
      then true
      else if ltb (length b.part_versions) (length a.part_versions)
      then false
      else let a_parts = join "," (map pin_key a.part_versions) in
        let b_parts = join "," (map pin_key b.part_versions) in
        if not (a_parts == b_parts)
        then text_le a_parts b_parts
        else text_le (pin_key a.profile) (pin_key b.profile)

  -- The variables of `solve` and of the running `search`.
  pub record SolveState : Type 0 where
    pub steps : ℕ
    pub diagnostics : List (String × Failure)
    pub plans : List Plan
    pub count : ℕ

  -- What `search` has chosen before it visits subsets.
  pub record Setup : Type 0 where
    pub input : SolveInput N
    pub profile : AssemblyProfile N
    pub brain : Part N
    pub source : Part N
    pub required : List String
    pub target : Option Num
    pub first_only : Bool

  unfoldable pub covers : List String → List (Part N) → Bool
  covers required parts = every (λ c. includes (provided N parts) c) required

  unfoldable pub by_pin : List (Part N) → List (Part N)
  by_pin parts = sort_by (λ (a b : Part N). text_le (pin_key a.pin) (pin_key b.pin)) parts

  unfoldable pub total_of : List (Part N) → Num → Num
  total_of [] sum = sum
  total_of (p ∷ ps) sum = total_of ps (add sum p.unit_cost_usd)

  unfoldable pub plan_of : Setup → List (Part N) → Wired N → Plan
  plan_of g selected w = record {
    part_versions = map (λ (p : Part N). p.pin) (by_pin selected);
    runtime = g.input.spec.runtime;
    profile = g.profile.pin;
    source = g.source.pin;
    brain = g.brain.pin;
    brain_input = g.profile.brain_input;
    wiring = w.wiring;
    power_budget = w.budget;
    bom = map (λ (p : Part N). (p.pin, p.unit_cost_usd)) (by_pin selected);
    total_cost_usd = total_of (by_pin selected) zero_num;
  }

  -- `plans.push`, `sort` and `pop` past the limit.
  unfoldable pub rank_in : ℕ → Plan → List Plan → List Plan
  rank_in max_plans plan plans =
      let ranked = sort_by plan_le (plans ++ plan ∷ []) in
      if ltb max_plans (length ranked) then drop_last ranked else ranked

  unfoldable pub note_state : List Failure → SolveState → SolveState
  note_state fs st = record st { diagnostics = note_all fs st.diagnostics }

  unfoldable pub keep_plan : Setup → List (Part N) → Wired N → SolveState → Bool × SolveState
  keep_plan g selected w st =
      let plan = plan_of g selected w in
      if not (is_finite plan.total_cost_usd)
      then (
        false,
        note_state
            (record {
              constraint = Constraint.catalogue;
              detail = "BOM cost exceeds the numeric range";
            }
              ∷ [])
            st,
      )
      else (
        true,
        record st { count = suc st.count; plans = rank_in g.input.max_plans plan st.plans },
      )

  -- What `wire` says of a subset that passes its checks.
  unfoldable pub on_wired :
      Setup → List (Part N) → SolveState → WiringResult N × ℕ → Bool × SolveState
  on_wired g selected st (refused f, n) = (false, note_state (f ∷ []) (record st { steps = n }))
  on_wired g selected st (ok w, n) = keep_plan g selected w (record st { steps = n })

  -- The end of `visit`, with every candidate in or out; `selected` starts with brain and source.
  unfoldable pub complete :
      (runs : String → String → Bool)
      → Setup
      → List (Part N)
      → SolveState
      → Search (Bool × SolveState)
  complete runs g selected st = elim (check_parts N runs selected g.brain g.input) [
    | f ∷ fs ↦ found (false, note_state (f ∷ fs) st)
    | [] ↦ wire N g.brain g.source (drop 2 selected) g.profile g.input g.target st.steps >>= λ r.
        found (on_wired g selected st r)
  ]
