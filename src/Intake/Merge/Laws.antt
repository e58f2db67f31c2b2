-- ===== src/Intake/Merge/Laws.antt =====
-- apps/intake/src/decide.ts: lemmas on what `mergePatch` leaves in a spec.
use albusforge.Prelude.{
  ◌≡◌, String, true, List, Option, none, some, All, keep-All, unique, map, trim,
}
use albusforge.Intake.Spec.{Spec, SpecPatch}
use albusforge.Intake.Merge.{
  Vocabulary, is_known_capability, is_known_flag, merged_capabilities, merge_patch,
  merge_environment,
}

merged_capabilities-All :
    (v : Vocabulary) (ids : Option (List String)) (old : List String)
    → All (λ id. is_known_capability v id ≡ true) old
    → All (λ id. is_known_capability v id ≡ true) (merged_capabilities v ids old)
unfolding merged_capabilities
merged_capabilities-All v none old h = h
merged_capabilities-All v (some ids) old h =
    keep-All (is_known_capability v) (unique (map trim ids))

pub merge_patch-known_capabilities :
    (base : Spec) (patch : SpecPatch) (v : Vocabulary)
    → All (λ id. is_known_capability v id ≡ true) base.capabilities
    → All (λ id. is_known_capability v id ≡ true) (merge_patch base patch v).spec.capabilities
unfolding merge_patch
merge_patch-known_capabilities base patch v h =
    merged_capabilities-All v patch.capabilities base.capabilities h

pub merge_patch-known_flags :
    (base : Spec) (patch : SpecPatch) (v : Vocabulary)
    → All (λ flag. is_known_flag v flag ≡ true) (merge_patch base patch v).spec.environment.flags
unfolding merge_patch
merge_patch-known_flags base patch v =
    keep-All (is_known_flag v) (unique (merge_environment patch.environment base.environment).flags)
