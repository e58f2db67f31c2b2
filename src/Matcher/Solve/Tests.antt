-- ===== src/Matcher/Solve/Tests.antt =====
-- One request on a small catalogue: a USB source, a brain and a thermometer.
use albusforge.Prelude.{◌≡◌, refl, ◌≤◌, [], ◌∷◌, none, some, true, length, All}
use albusforge.Matcher.Types.{Interface, Transport, PowerSource, Rail, SolveInput}
use albusforge.Matcher.Ports.{found}
use albusforge.Matcher.Plans.{Plan}
use albusforge.Matcher.Solve.Conflict.{IsStuck, solve-IsStuck}
use albusforge.Matcher.Types.{Failure, Constraint}
use albusforge.Matcher.Plans.{Requirement, capability}
use albusforge.Matcher.Solve.{
  infeasible, minimize, uncovered, explained, sorted_failures, report, solved, requirements_of,
  conclude, caught, start, caps_of, has_target, target_requirement, solve,
}
use albusforge.Matcher.Solve.Soundness.{IsFeasible, solve-IsFeasible}
use albusforge.Prelude.Sort.{sort_by, insert_sorted}
use albusforge.Prelude.{unique, join}
use albusforge.Prelude.Assoc.{insert}
use albusforge.Matcher.Solver.{include}
use albusforge.Matcher.Types.{same_interface, pin_key, text_le}
use albusforge.Matcher.Power.{
  is_brain, contains_voltage, average_current, load_part, loads_of, budget_of, power_budget,
}
use albusforge.Matcher.Constraints.{
  is_peripheral, provided, find_connector, carries, on_brain, need_failures, needs_failures,
  conflict_failures, address_of, address_failures, compat_row, has_compat, fits_window,
  part_failures, check_from, check_parts,
}
use albusforge.Matcher.Ports.{
  step, budget_failure, settle, leaf, voltage_at, provider_at, stands, port_suits, port_free,
  draw_of, current_from, edge_of, try_ports, visit,
}
use albusforge.Matcher.Plans.{
  same_requirement, power_capability, network_capability, constraint_name, is_requires, failure_key,
  note, note_all, drop_last, required_of, plan_le, covers, by_pin, total_of, plan_of, rank_in,
  note_state, keep_plan, on_wired, complete,
}
use albusforge.Matcher.Solver.{
  is_active, is_target, has_none, is_selected, after_exclude, explore, finish, no_capacity,
  brain_of, source_of, candidates_of, is_unfit, on_setup, setup_of, on_profile, stop_or,
  search_profiles, active_parts, sorted_profiles, search,
}
use albusforge.Matcher.Wiring.{
  input_window, source_fits, source_powers, overvolted, result_of, start_of, search_wiring,
  over_or_search, bench_of, wire_on, powered, wire,
}
use albusforge.Matcher.Wiring.Tests.{whole, part, brain, source, profile}

abbrev input : SolveInput whole
input = record {
  spec = record {
    capabilities = "read.temperature_c" ∷ [];
    transport = Transport.no_transport;
    power_source = PowerSource.usb;
    interval_s = 60;
    target_life_days = none;
    runtime = "1.0.0";
  };
  parts =
      record brain { logic_v = some (record { low = 3; high = 3 }) }
      ∷ record source { capabilities = "power.5v" ∷ [] }
      ∷ record (part "warm" Interface.i2c none) {
        logic_v = some (record { low = 3; high = 5 });
        capabilities = "read.temperature_c" ∷ [];
      }
      ∷ [];
  connectors =
      record {
        id = "qwiic";
        interfaces = Interface.i2c ∷ Interface.host ∷ Interface.power ∷ [];
        max_voltage = 5;
      }
      ∷ [];
  profiles = profile ∷ [];
  compat = [];
  max_steps = 100;
  max_plans = 2;
}

abbrev plan : Plan whole
plan = record {
  part_versions =
      record { id = "brain"; version = "1" }
      ∷ record { id = "usb"; version = "1" }
      ∷ record { id = "warm"; version = "1" }
      ∷ [];
  runtime = "1.0.0";
  profile = record { id = "board"; version = "1" };
  source = record { id = "usb"; version = "1" };
  brain = record { id = "brain"; version = "1" };
  brain_input = "primary";
  wiring =
      record {
        part = record { id = "warm"; version = "1" };
        port = "p1";
        rail = Rail.brain;
        connector = "qwiic";
        resources = "gpio1" ∷ "gpio2" ∷ [];
      }
      ∷ [];
  power_budget = record {
    average_source_ma = 21;
    peak_source_ma = 21;
    peak_brain_rail_ma = 40;
    usable_capacity_mah = none;
    estimated_life_days = none;
  };
  bom =
      (record { id = "brain"; version = "1" }, 4)
      ∷ (record { id = "usb"; version = "1" }, 4)
      ∷ (record { id = "warm"; version = "1" }, 4)
      ∷ [];
  total_cost_usd = 12;
}

solve_run : solve whole (λ a b. true) input ≡ found (solved (plan ∷ []) 1 7)
unfolding same_interface pin_key text_le is_brain contains_voltage average_current load_part
    loads_of budget_of power_budget is_peripheral provided find_connector carries on_brain
    need_failures needs_failures conflict_failures address_of address_failures compat_row has_compat
    fits_window part_failures check_from check_parts step budget_failure settle leaf voltage_at
    provider_at stands port_suits port_free draw_of current_from edge_of try_ports visit
    same_requirement power_capability network_capability constraint_name is_requires failure_key
    note note_all drop_last required_of plan_le covers by_pin total_of plan_of rank_in note_state
    keep_plan on_wired complete is_active is_target has_none is_selected after_exclude explore
    finish no_capacity brain_of source_of candidates_of is_unfit on_setup setup_of on_profile
    stop_or search_profiles active_parts sorted_profiles search input_window source_fits
    source_powers overvolted result_of start_of search_wiring over_or_search bench_of wire_on
    powered wire include sort_by insert_sorted unique join insert caps_of target_requirement
    requirements_of has_target conclude caught start solve albusforge.Matcher.Solver.visit
solve_run = refl

solve-IsFeasible_example :
    All (IsFeasible whole (λ a b. true) input) (plan ∷ []) × (length (plan ∷ []) ≤ 2)
solve-IsFeasible_example = solve-IsFeasible whole (λ a b. true) input (plan ∷ []) 1 7 solve_run

-- Nothing on the catalogue reads humidity.
abbrev humid : SolveInput whole
humid = record input { spec = record input.spec { capabilities = "read.humidity_pct" ∷ [] } }

abbrev missing : Failure
missing = record {
  constraint = Constraint.coverage;
  detail = "No active part provides read.humidity_pct";
}

abbrev AsksHumidity : Requirement → Type 0
AsksHumidity r = same_requirement r (capability "read.humidity_pct") ≡ true

humid_run :
    solve whole (λ a b. true) humid
    ≡ found (infeasible (capability "read.humidity_pct" ∷ []) (missing ∷ []) 6)
unfolding same_interface pin_key text_le is_brain contains_voltage average_current load_part
    loads_of budget_of power_budget is_peripheral provided find_connector carries on_brain
    need_failures needs_failures conflict_failures address_of address_failures compat_row has_compat
    fits_window part_failures check_from check_parts step budget_failure settle leaf voltage_at
    provider_at stands port_suits port_free draw_of current_from edge_of try_ports visit
    same_requirement power_capability network_capability constraint_name is_requires failure_key
    note note_all drop_last required_of plan_le covers by_pin total_of plan_of rank_in note_state
    keep_plan on_wired complete is_active is_target has_none is_selected after_exclude explore
    finish no_capacity brain_of source_of candidates_of is_unfit on_setup setup_of on_profile
    stop_or search_profiles active_parts sorted_profiles search input_window source_fits
    source_powers overvolted result_of start_of search_wiring over_or_search bench_of wire_on
    powered wire include sort_by insert_sorted unique join insert caps_of target_requirement
    requirements_of has_target conclude caught start solve albusforge.Matcher.Solver.visit minimize
    uncovered explained sorted_failures report
humid_run = refl

humid_requirements : All AsksHumidity (requirements_of whole (λ a b. true) humid)
unfolding requirements_of caps_of target_requirement unique sort_by insert_sorted same_requirement
    network_capability
humid_requirements = (refl, tt)

solve-IsStuck_example :
    IsStuck whole (λ a b. true) humid (capability "read.humidity_pct" ∷ [])
    × All AsksHumidity (capability "read.humidity_pct" ∷ [])
solve-IsStuck_example =
    solve-IsStuck whole (λ a b. true) humid AsksHumidity (capability "read.humidity_pct" ∷ [])
      (missing ∷ []) 6 humid_requirements humid_run
