-- ===== src/Matcher/Types.antt =====
-- apps/matcher/src/types.ts, with the fields of packages/schema/src/part.ts, connector.ts and
-- build-plan.ts that the matcher reads. Voltages, currents, times and prices are JavaScript numbers:
-- their type and operations are a parameter, `Arith`.
use Prim.Native.String
use albusforge.Prelude.{ℕ, String, Bool, true, false, List, Option, Ordering, ◌+++◌}

pub record Arith : Type 1 where
  pub Num : Type 0
  -- `a < b`
  pub lt : Num → Num → Bool
  pub zero_num : Num
  pub one : Num
  pub hours_per_day : Num
  pub add : Num → Num → Num
  pub sub : Num → Num → Num
  pub mul : Num → Num → Num
  pub div : Num → Num → Num
  pub is_finite : Num → Bool

pub data Interface : Type 0 where
  i2c spi uart one_wire pwm adc gpio power host : Interface

unfoldable pub same_interface : Interface → Interface → Bool
same_interface Interface.i2c Interface.i2c = true
same_interface Interface.spi Interface.spi = true
same_interface Interface.uart Interface.uart = true
same_interface Interface.one_wire Interface.one_wire = true
same_interface Interface.pwm Interface.pwm = true
same_interface Interface.adc Interface.adc = true
same_interface Interface.gpio Interface.gpio = true
same_interface Interface.power Interface.power = true
same_interface Interface.host Interface.host = true
same_interface _ _ = false

pub data Status : Type 0 where
  draft active deprecated retired : Status

pub data Rail : Type 0 where
  brain source : Rail

pub data PowerSource : Type 0 where
  battery usb solar : PowerSource

pub data Transport : Type 0 where
  wifi ble lora no_transport : Transport

pub data Constraint : Type 0 where
  coverage requires conflict i2c runtime compatibility logic wiring voltage current battery
        catalogue :
      Constraint

pub record Failure : Type 0 where
  pub constraint : Constraint
  pub detail : String

pub record Pin : Type 0 where
  pub id : String
  pub version : String

-- `pinKey`
unfoldable pub pin_key : Pin → String
pin_key p = p.id +++ "@" +++ p.version

-- `compareText(a, b) <= 0`
unfoldable pub text_le : String → String → Bool
text_le a b = elim (String.compare a b) [ Ordering.gt ↦ false | _ ↦ true ]

pub record CompatEntry : Type 0 where
  pub driver_pkg : String
  pub driver_ver : String
  pub runtime_ver : String
  pub brain_id : String
  pub passed : Bool

module _ (N : Arith) where
  open N use {Num}

  -- `[min, max]` volts.
  pub record Window : Type 0 where
    pub low : Num
    pub high : Num

  pub record Supply : Type 0 where
    pub output_v : Window
    pub max_output_ma : Num
    pub capacity_mah : Option Num

  pub record PowerInput : Type 0 where
    pub name : String
    pub voltage_range : Window

  pub record Part : Type 0 where
    pub pin : Pin
    pub status : Status
    pub interface : Interface
    pub connector : String
    pub voltage_range : Window
    pub alt_inputs : List PowerInput
    pub idle_ma : Num
    pub active_ma : Num
    pub needs : List String
    pub conflicts : List String
    pub i2c_address : Option String
    pub logic_v : Option Window
    pub supply : Option Supply
    pub driver : Option (String × String)
    pub capabilities : List String
    pub min_runtime : String
    pub unit_cost_usd : Num

  pub record ConnectorDefinition : Type 0 where
    pub id : String
    pub interfaces : List Interface
    pub max_voltage : Num

  pub record Port : Type 0 where
    pub id : String
    pub interface : Interface
    pub connector : String
    pub rail : Rail
    pub max_current_ma : Num
    pub resources : List String
    pub capacity : ℕ

  pub record Activity : Type 0 where
    pub part : Pin
    pub active_s : Num
    pub evidence : String

  pub record AssemblyProfile : Type 0 where
    pub pin : Pin
    pub evidence : String
    pub brain : Pin
    pub source : Pin
    pub source_connector : String
    pub brain_input : String
    pub regulator_efficiency : Num
    pub quiescent_source_ma : Num
    pub battery_usable_fraction : Num
    pub ports : List Port
    pub activity : List Activity

  pub record SolveSpec : Type 0 where
    pub capabilities : List String
    pub transport : Transport
    pub power_source : PowerSource
    pub interval_s : Num
    pub target_life_days : Option Num
    pub runtime : String

  pub record SolveInput : Type 0 where
    pub spec : SolveSpec
    pub parts : List Part
    pub connectors : List ConnectorDefinition
    pub profiles : List AssemblyProfile
    pub compat : List CompatEntry
    pub max_steps : ℕ
    pub max_plans : ℕ

pub record WiringEdge : Type 0 where
  pub part : Pin
  pub port : String
  pub rail : Rail
  pub connector : String
  pub resources : List String
