-- ===== src/Intake/Merge.antt =====
-- apps/intake/src/decide.ts, `emptySpec` and `mergePatch`: the model's patch goes into the spec, and
-- what the registry does not know is dropped.
pub mod Laws
use albusforge.Prelude.{
  ℕ, ◌+◌, ◌-◌, String, Bool, true, false, not, ◌&&◌, ◌||◌, List, [], ◌∷◌, ◌++◌, Option, none, some,
  ltb, ◌==◌, if◌then◌else◌, length, keep, any, map, includes, unique, trim, ◌+++◌,
}
use albusforge.Prelude.Assoc.{lookup}
use albusforge.Intake.Spec.{
  Transport, PowerSource, OpenQuestion, Sense, Environment, Connect, Power, Experience, Spec,
  SensePatch, EnvironmentPatch, ConnectPatch, PowerPatch, SpecPatch, SpecTurn,
}
use albusforge.Intake.Shapes.{is_capability_id, is_flag_shape}
use albusforge.Intake.Replies.{questions_reply, settled_reply, needs_more_reply, take_last}
use albusforge.Intake.Questions.{QuestionFilter, filter_questions, max_clarification_rounds}

abbrev pub max_assumptions : ℕ
max_assumptions = 20

pub record Vocabulary : Type 0 where
  pub capabilities : List String
  pub environment_flags : List String

unfoldable pub empty_spec : Spec
empty_spec = record {
  sense = record { what = []; accuracy = none; interval_s = none };
  act = none;
  environment = record { location = "unspecified"; flags = [] };
  connect = record { transport = Transport.wifi; experience = [] };
  power = record { source = PowerSource.unknown; target_life_days = none };
  experience = record { alerts = none; dashboard = none };
  capabilities = [];
  assumptions = [];
  open_questions = [];
  settled = false;
}

-- A field spread over another: the new value where it is defined.
abbrev over : {A : Type 0} → Option A → A → A
over none old = old
over (some new) old = new

abbrev over_optional : {A : Type 0} → Option A → Option A → Option A
over_optional none old = old
over_optional (some new) old = some new

abbrev or_empty : Option (List String) → List String
or_empty none = []
or_empty (some xs) = xs

merge_sense : Option SensePatch → Sense → Sense
merge_sense none s = s
merge_sense (some p) s = record {
  what = over p.what s.what;
  accuracy = over_optional p.accuracy s.accuracy;
  interval_s = over_optional p.interval_s s.interval_s;
}

merge_environment : Option EnvironmentPatch → Environment → Environment
merge_environment none s = s
merge_environment (some p) s = record {
  location = over p.location s.location;
  flags = over p.flags s.flags;
}

merge_connect : Option ConnectPatch → Connect → Connect
merge_connect none s = s
merge_connect (some p) s = record {
  transport = over p.transport s.transport;
  experience = over p.experience s.experience;
}

merge_power : Option PowerPatch → Power → Power
merge_power none s = s
merge_power (some p) s = record {
  source = over p.source s.source;
  target_life_days = over_optional p.target_life_days s.target_life_days;
}

merge_experience : Option Experience → Experience → Experience
merge_experience none s = s
merge_experience (some p) s = record {
  alerts = over_optional p.alerts s.alerts;
  dashboard = over_optional p.dashboard s.dashboard;
}

-- `act` is removed where it would be left without words.
drop_empty : List String → Option (List String)
drop_empty [] = none
drop_empty (w ∷ ws) = some (w ∷ ws)

merge_act : Option (Option (List String)) → Option (List String) → Option (List String)
unfolding drop_empty
merge_act none none = none
merge_act none (some what) = drop_empty what
merge_act (some p) act = drop_empty (over p (or_empty act))

pub record MergeResult : Type 0 where
  pub spec : Spec
  pub dropped_capabilities : List String
  pub dropped_flags : List String

pub is_known_capability : Vocabulary → String → Bool
is_known_capability v id = is_capability_id id && includes v.capabilities id

pub is_known_flag : Vocabulary → String → Bool
is_known_flag v flag = includes v.environment_flags flag

merged_capabilities : Vocabulary → Option (List String) → List String → List String
merged_capabilities v none old = old
merged_capabilities v (some ids) old = keep (is_known_capability v) (unique (map trim ids))

unknown_capabilities : Vocabulary → Option (List String) → List String
unknown_capabilities v none = []
unknown_capabilities v (some ids) =
    keep (λ id. not (is_known_capability v id)) (unique (map trim ids))

pub merge_patch : Spec → SpecPatch → Vocabulary → MergeResult
merge_patch base patch v =
    let environment = merge_environment patch.environment base.environment in
    let flags = unique environment.flags in
    record {
      spec = record base {
        sense = merge_sense patch.sense base.sense;
        act = merge_act patch.act base.act;
        environment = record environment { flags = keep (is_known_flag v) flags };
        connect = merge_connect patch.connect base.connect;
        power = merge_power patch.power base.power;
        experience = merge_experience patch.experience base.experience;
        capabilities = merged_capabilities v patch.capabilities base.capabilities;
        assumptions =
            take_last max_assumptions (unique (base.assumptions ++ or_empty patch.assumptions));
      };
      dropped_capabilities = unknown_capabilities v patch.capabilities;
      dropped_flags = keep (λ flag. not (is_known_flag v flag)) flags;
    }
