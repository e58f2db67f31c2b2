-- ===== src/Matcher/Wiring/Tests.antt =====
-- A small assembly on whole numbers: a USB source, a brain, and two sensors on the two I2C ports.
use albusforge.Prelude.{
  ◌≡◌, refl, ℕ, ◌≤◌, ◌+◌, ◌-◌, ◌*◌, ◌/◌, String, List, [], ◌∷◌, Option, none, some, true, ltb,
  length, All, arith,
}
use albusforge.Matcher.Types.{
  Arith, Interface, Status, Rail, PowerSource, Transport, Supply, Part, Port, AssemblyProfile,
  SolveInput, same_interface, pin_key, text_le,
}
use albusforge.Matcher.Power.{contains_voltage, average_current, load_part, loads_of, power_budget}
use albusforge.Matcher.Ports.{
  found, Wired, Bench, step, budget_failure, settle, leaf, voltage_at, provider_at, port_suits,
  port_free, edge_of, draw_of, current_from, try_ports, visit, stands,
}
use albusforge.Matcher.Constraints.{find_connector, carries}
use albusforge.Prelude.Sort.{sort_by, insert_sorted}
use albusforge.Matcher.Ports.Limits.{IsWithin}
use albusforge.Matcher.Ports.Visits.{parts_of, pins_of, budget_on}
use albusforge.Matcher.Wiring.{
  ok, search_wiring, bench_of, powered, input_window, overvolted, over_or_search, result_of, wire,
}
use albusforge.Matcher.Wiring.Promises.{
  edges_at, Allows, IsExclusive, wire-within-capacity, wire-IsExclusive, search_wiring-budget,
}

abbrev pub whole : Arith
whole = record {
  Num = ℕ;
  lt = ltb;
  zero_num = 0;
  one = 1;
  hours_per_day = 24;
  add = λ a b. a + b;
  sub = λ a b. a - b;
  mul = λ a b. a * b;
  div = λ a b. a / b;
  is_finite = λ a. true;
}

abbrev pub part : String → Interface → Option (Supply whole) → Part whole
part id interface supply = record {
  pin = record { id = id; version = "1" };
  status = Status.active;
  interface = interface;
  connector = "qwiic";
  voltage_range = record { low = 3; high = 5 };
  alt_inputs = [];
  idle_ma = 1;
  active_ma = 20;
  needs = [];
  conflicts = [];
  i2c_address = none;
  logic_v = none;
  supply = supply;
  driver = none;
  capabilities = [];
  min_runtime = "1.0.0";
  unit_cost_usd = 4;
}

abbrev pub supply : ℕ → Option (Supply whole)
supply v =
    some
      (record { output_v = record { low = v; high = v }; max_output_ma = 500; capacity_mah = none })

abbrev pub brain : Part whole
brain = part "brain" Interface.host (supply 3)

abbrev pub source : Part whole
source = part "usb" Interface.power (supply 5)

abbrev pub sensors : List (Part whole)
sensors = part "warm" Interface.i2c none ∷ part "damp" Interface.i2c none ∷ []

abbrev pub port : String → List String → Port whole
port id resources = record {
  id = id;
  interface = Interface.i2c;
  connector = "qwiic";
  rail = Rail.brain;
  max_current_ma = 100;
  resources = resources;
  capacity = 1;
}

abbrev pub profile : AssemblyProfile whole
profile = record {
  pin = record { id = "board"; version = "1" };
  evidence = "";
  brain = record { id = "brain"; version = "1" };
  source = record { id = "usb"; version = "1" };
  source_connector = "qwiic";
  brain_input = "primary";
  regulator_efficiency = 1;
  quiescent_source_ma = 1;
  battery_usable_fraction = 1;
  ports = port "p2" ("gpio3" ∷ []) ∷ port "p1" ("gpio1" ∷ "gpio2" ∷ []) ∷ [];
  activity = [];
}

abbrev pub input : SolveInput whole
input = record {
  spec = record {
    capabilities = [];
    transport = Transport.wifi;
    power_source = PowerSource.usb;
    interval_s = 60;
    target_life_days = none;
    runtime = "1.0.0";
  };
  parts = [];
  connectors = record { id = "qwiic"; interfaces = Interface.i2c ∷ []; max_voltage = 5 } ∷ [];
  profiles = [];
  compat = [];
  max_steps = 100;
  max_plans = 10;
}

abbrev pub wired : Wired whole
wired = record {
  wiring =
      record {
        part = record { id = "warm"; version = "1" };
        port = "p1";
        rail = Rail.brain;
        connector = "qwiic";
        resources = "gpio1" ∷ "gpio2" ∷ [];
      }
      ∷ record {
        part = record { id = "damp"; version = "1" };
        port = "p2";
        rail = Rail.brain;
        connector = "qwiic";
        resources = "gpio3" ∷ [];
      }
      ∷ [];
  budget = record {
    average_source_ma = 21;
    peak_source_ma = 21;
    peak_brain_rail_ma = 60;
    usable_capacity_mah = none;
    estimated_life_days = none;
  };
}

wire_run : wire whole brain source sensors profile input none 0 ≡ found (ok wired, 5)
unfolding wire powered input_window search_wiring step budget_failure settle leaf voltage_at
    provider_at port_suits port_free edge_of draw_of current_from try_ports visit stands
    contains_voltage average_current load_part loads_of power_budget find_connector carries
    same_interface pin_key text_le sort_by insert_sorted overvolted over_or_search result_of
wire_run = refl

abbrev bench : Bench whole
bench =
    bench_of whole brain source sensors profile input none
      (record { output_v = record { low = 5; high = 5 }; max_output_ma = 500; capacity_mah = none })
      (record { output_v = record { low = 3; high = 3 }; max_output_ma = 500; capacity_mah = none })
      (record { low = 3; high = 5 })

search_wiring_run : search_wiring whole bench 0 ≡ found (ok wired, 5)
unfolding bench_of search_wiring step budget_failure settle leaf voltage_at provider_at port_suits
    port_free edge_of draw_of current_from try_ports visit stands contains_voltage average_current
    load_part loads_of power_budget find_connector carries same_interface pin_key text_le sort_by
    insert_sorted overvolted over_or_search result_of
search_wiring_run = refl

ports-Allow : All (Allows "p1" 1) profile.ports
unfolding Allows
ports-Allow = ((λ e. omega arith), ((λ e. omega arith), tt))

wire-within-capacity_example : length (edges_at "p1" wired.wiring) ≤ 1
wire-within-capacity_example =
    wire-within-capacity whole brain source sensors profile input none 0 5 1 "p1" wired ports-Allow
      wire_run

wire-IsExclusive_example :
    IsExclusive wired.wiring × (parts_of wired.wiring ≡ pins_of {N = whole} sensors)
wire-IsExclusive_example =
    wire-IsExclusive whole brain source sensors profile input none 0 5 wired wire_run

search_wiring-budget_example :
    (budget_on whole bench wired.wiring ≡ some wired.budget)
    × (budget_failure whole bench wired.budget ≡ none)
    × IsWithin whole bench wired.budget
search_wiring-budget_example = search_wiring-budget whole bench 0 5 wired search_wiring_run
