-- ===== src/Matcher/Constraints.antt =====
-- apps/matcher/src/constraints.ts, `checkParts`. The runtime range test (runtime.ts) is a parameter,
-- `runs`. A host's `logic_v` is never null in a part that the schema passes; the model reports a
-- `logic` failure where the source would throw on one.
use albusforge.Prelude.{
  String, Bool, true, false, not, ◌&&◌, ◌||◌, List, [], ◌∷◌, ◌++◌, Option, none, some, ◌==◌,
  if◌then◌else◌, find, any, includes, ◌+++◌,
}
use text.Mathlib.Text.{starts_with}
use albusforge.Matcher.Types.{
  Arith, Interface, same_interface, Failure, Constraint, pin_key, CompatEntry, Window, Part,
  ConnectorDefinition, SolveInput,
}
use albusforge.Matcher.Power.{contains_voltage}

abbrev fail_if : Bool → Constraint → String → List Failure
fail_if bad constraint detail =
    if bad then record { constraint = constraint; detail = detail } ∷ [] else []

unfoldable pub is_peripheral : Interface → Bool
is_peripheral interface =
    not (same_interface interface Interface.host) && not (same_interface interface Interface.power)

module _ (N : Arith) where
  -- The capabilities of all the parts together.
  unfoldable pub provided : List (Part N) → List String
  provided [] = []
  provided (p ∷ ps) = p.capabilities ++ provided ps

  unfoldable pub find_connector : SolveInput N → String → Option (ConnectorDefinition N)
  find_connector input id = find (λ (c : ConnectorDefinition N). c.id == id) input.connectors

  unfoldable pub carries : Option (ConnectorDefinition N) → Interface → Bool
  carries none interface = false
  carries (some c) interface = any (λ i. same_interface i interface) c.interfaces

module _ (N : Arith) (runs : String → String → Bool) where
  unfoldable pub on_brain : String → Bool
  on_brain need = starts_with need "bus." || starts_with need "gpio."

  unfoldable pub need_failures : List String → Part N → Part N → String → List Failure
  unfolding on_brain
  need_failures capabilities brain part need =
      fail_if (not (includes capabilities need)) Constraint.requires
        (pin_key part.pin +++ " needs " +++ need)
      ++ fail_if (on_brain need && not (includes brain.capabilities need)) Constraint.requires
          (brain.pin.id +++ " does not provide " +++ need +++ "; bus expanders are not modeled")

  unfoldable pub needs_failures : List String → Part N → Part N → List String → List Failure
  needs_failures capabilities brain part [] = []
  needs_failures capabilities brain part (need ∷ needs) =
      need_failures capabilities brain part need ++ needs_failures capabilities brain part needs

  unfoldable pub conflict_failures : List (Part N) → Part N → List String → List Failure
  conflict_failures parts part [] = []
  conflict_failures parts part (conflict ∷ conflicts) =
      fail_if (any (λ (p : Part N). p.pin.id == conflict) parts) Constraint.conflict
        (part.pin.id +++ " conflicts with " +++ conflict)
      ++ conflict_failures parts part conflicts

  -- An absent address and an empty one are both falsy.
  unfoldable pub address_of : Option String → List String
  address_of none = []
  address_of (some a) = if a == "" then [] else a ∷ []

  unfoldable pub address_failures : List String → List String → List Failure
  address_failures used [] = []
  address_failures used (a ∷ as') =
      fail_if (includes used a) Constraint.i2c ("I2C address " +++ a +++ " is used twice")
      ++ address_failures used as'

  unfoldable pub compat_row : SolveInput N → Part N → String × String → CompatEntry → Bool
  compat_row input brain (pkg, ver) row =
      row.driver_pkg == pkg
      && row.driver_ver == ver
      && row.runtime_ver == input.spec.runtime
      && row.brain_id == brain.pin.id
      && row.passed

  -- A part with no driver package needs no row.
  unfoldable pub has_compat : SolveInput N → Part N → Option (String × String) → Bool
  unfolding compat_row
  has_compat input brain none = true
  has_compat input brain (some driver) = any (compat_row input brain driver) input.compat

  unfoldable pub fits_window : Option (Window N) → Option (Window N) → Bool
  fits_window (some range) (some io) = contains_voltage N range io
  fits_window _ _ = false

  -- The body of the loop; `used` holds the addresses of the parts before.
  unfoldable pub part_failures :
      List (Part N) → Part N → SolveInput N → List String → Part N → List Failure
  unfolding needs_failures conflict_failures address_failures address_of has_compat fits_window
  part_failures parts brain input used part =
      needs_failures (provided N parts) brain part part.needs
      ++ (conflict_failures parts part part.conflicts
          ++ (address_failures used (address_of part.i2c_address)
              ++ (fail_if (not (runs input.spec.runtime part.min_runtime)) Constraint.runtime
                    (pin_key part.pin +++ " needs runtime " +++ part.min_runtime)
                  ++ (fail_if (not (has_compat input brain part.driver)) Constraint.compatibility (
                        "No passed compile for "
                        +++ pin_key part.pin
                        +++ " on "
                        +++ brain.pin.id
                        +++ "/"
                        +++ input.spec.runtime)
                      ++ (fail_if
                            (is_peripheral part.interface
                              && not (fits_window part.logic_v brain.logic_v))
                            Constraint.logic
                            (pin_key part.pin
                              +++ " cannot use "
                              +++ brain.pin.id
                              +++ "'s IO voltage without a modeled level shifter")
                          ++ fail_if
                              (not
                                (carries N (find_connector N input part.connector) part.interface))
                              Constraint.wiring
                              ("Missing or incompatible connector definition for "
                                +++ pin_key part.pin))))))

  unfoldable pub check_from :
      List (Part N) → Part N → SolveInput N → List String → List (Part N) → List Failure
  check_from parts brain input used [] = []
  check_from parts brain input used (part ∷ rest) =
      part_failures parts brain input used part
      ++ check_from parts brain input (address_of part.i2c_address ++ used) rest

  unfoldable pub check_parts : List (Part N) → Part N → SolveInput N → List Failure
  unfolding check_from
  check_parts parts brain input = check_from parts brain input [] parts
