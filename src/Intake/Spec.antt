-- ===== src/Intake/Spec.antt =====
-- packages/schema/src/spec.ts: the spec that intake keeps, the patch and the turn that the model
-- returns. Intervals and battery lives are only copied here, so they are whole numbers.
use albusforge.Prelude.{ℕ, String, Bool, List, Option}

pub data Transport : Type 0 where
  wifi ble lora no_transport : Transport

pub data PowerSource : Type 0 where
  battery solar usb unknown : PowerSource

pub record OpenQuestion : Type 0 where
  pub field : String
  pub question : String
  pub options : Option (List String)

pub record Sense : Type 0 where
  pub what : List String
  pub accuracy : Option String
  pub interval_s : Option ℕ

pub record Environment : Type 0 where
  pub location : String
  pub flags : List String

pub record Connect : Type 0 where
  pub transport : Transport
  pub experience : List String

pub record Power : Type 0 where
  pub source : PowerSource
  pub target_life_days : Option ℕ

pub record Experience : Type 0 where
  pub alerts : Option (List String)
  pub dashboard : Option Bool

-- `act` is its list of words, the only field.
pub record Spec : Type 0 where
  pub sense : Sense
  pub act : Option (List String)
  pub environment : Environment
  pub connect : Connect
  pub power : Power
  pub experience : Experience
  pub capabilities : List String
  pub assumptions : List String
  pub open_questions : List OpenQuestion
  pub settled : Bool

pub record SensePatch : Type 0 where
  pub what : Option (List String)
  pub accuracy : Option String
  pub interval_s : Option ℕ

pub record EnvironmentPatch : Type 0 where
  pub location : Option String
  pub flags : Option (List String)

pub record ConnectPatch : Type 0 where
  pub transport : Option Transport
  pub experience : Option (List String)

pub record PowerPatch : Type 0 where
  pub source : Option PowerSource
  pub target_life_days : Option ℕ

-- `act` is absent, present without words, or present with them.
pub record SpecPatch : Type 0 where
  pub sense : Option SensePatch
  pub act : Option (Option (List String))
  pub environment : Option EnvironmentPatch
  pub connect : Option ConnectPatch
  pub power : Option PowerPatch
  pub experience : Option Experience
  pub capabilities : Option (List String)
  pub assumptions : Option (List String)

pub data ReplyKind : Type 0 where
  spec off_topic : ReplyKind

pub record SpecTurn : Type 0 where
  pub reply_kind : ReplyKind
  pub spec_patch : SpecPatch
  pub candidate_questions : List OpenQuestion
  pub assumptions : List String
  pub reply : String
