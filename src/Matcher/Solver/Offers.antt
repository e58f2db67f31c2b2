-- ===== src/Matcher/Solver/Offers.antt =====
-- apps/matcher/src/solver.ts: where the parts and the profile of a search come from.
use albusforge.Prelude.{
  ◌≡◌, refl, subst, String, Bool, true, false, not, ◌&&◌, List, [], ◌∷◌, some, ◌==◌, find, keep,
  All, All-imp, All-keep, All-both, keep-All, Memᴰ, arith, Bool-cases, inl, inr, includes,
}
use albusforge.Prelude.Sort.{All-sort_by}
use albusforge.Matcher.Types.{
  Arith, Part, AssemblyProfile, SolveInput, Interface, same_interface, pin_key,
}
use albusforge.Matcher.Constraints.{is_peripheral}
use albusforge.Matcher.Plans.{by_pin, power_capability}
use albusforge.Matcher.Solver.{
  is_active, brain_of, source_of, candidates_of, active_parts, sorted_profiles,
}

All-later {ℓ} :
    {A : Type ℓ} (y : A) (xs ys : List A) → All (λ x. Memᴰ x xs) ys → All (λ x. Memᴰ x (y ∷ xs)) ys
All-later y xs ys h = All-imp (λ x. Memᴰ x xs) (λ x. Memᴰ x (y ∷ xs)) ys (λ x m. Memᴰ.tail m) h

All-Mem {ℓ} : {A : Type ℓ} (xs : List A) → All (λ x. Memᴰ x xs) xs
All-Mem [] = tt
All-Mem (x ∷ xs) = (Memᴰ.head refl, All-later x xs xs (All-Mem xs))

-- What is found passes the test, and is one of the list.
find-All {ℓ κ} :
    {A : Type ℓ} (P : A → Type κ) (p : A → Bool) (xs : List A) (x : A)
    → All P xs
    → find p xs ≡ some x
    → P x × (p x ≡ true)
find-All P p [] x h e = absurd (ground (arith, e))
find-All P p (y ∷ ys) x h e = elim (Bool-cases (p y)) [
  | inl found ↦
      let same : y ≡ x = ground (arith, e, found) in
      subst (λ z. P z × (p z ≡ true)) same (h.0, found)
  | inr other ↦ find-All P p ys x h.1 (ground (arith, e, other))
]

both : (b c : Bool) → (b && c) ≡ true → (b ≡ true) × (c ≡ true)
both true c h = (refl, h)
both false c h = absurd (ground (arith, h))

module _ (N : Arith) (runs : String → String → Bool) (input : SolveInput N) where
  -- An active part of the input.
  abbrev pub IsOffered : Part N → Type 0
  IsOffered p = Memᴰ p input.parts × (is_active p.status ≡ true)

  -- A part that is offered and can be wired to a brain.
  abbrev pub IsChoice : Part N → Type 0
  IsChoice p = IsOffered p × (is_peripheral p.interface ≡ true)

  -- The brain and the source that a profile of the input names.
  pub record IsGiven (profile : AssemblyProfile N) (brain source : Part N) : Type 0 where
    pub profile_offered : Memᴰ profile input.profiles
    pub brain_offered : IsOffered brain
    pub brain_pin : (pin_key brain.pin == pin_key profile.brain) ≡ true
    pub brain_hosts : same_interface brain.interface Interface.host ≡ true
    pub source_offered : IsOffered source
    pub source_pin : (pin_key source.pin == pin_key profile.source) ≡ true
    pub source_powers : same_interface source.interface Interface.power ≡ true
    pub source_suits :
        includes source.capabilities (power_capability input.spec.power_source) ≡ true

  active_parts-IsOffered : All IsOffered (active_parts N runs input)
  unfolding active_parts by_pin
  active_parts-IsOffered =
      let test = λ (p : Part N). is_active p.status in
      let kept = keep test input.parts in
      All-sort_by IsOffered _ kept (
        All-both (λ (p : Part N). Memᴰ p input.parts) (λ (p : Part N). is_active p.status ≡ true)
          kept
          (All-keep (λ (p : Part N). Memᴰ p input.parts) test input.parts (All-Mem input.parts))
          (keep-All test input.parts))

  pub sorted_profiles-Mem :
      All (λ (p : AssemblyProfile N). Memᴰ p input.profiles) (sorted_profiles N runs input)
  unfolding sorted_profiles
  sorted_profiles-Mem =
      All-sort_by (λ (p : AssemblyProfile N). Memᴰ p input.profiles) _ input.profiles
        (All-Mem input.profiles)

  pub given :
      (profile : AssemblyProfile N) (brain source : Part N)
      → Memᴰ profile input.profiles
      → brain_of N runs (active_parts N runs input) profile ≡ some brain
      → source_of N runs (active_parts N runs input) profile input.spec.power_source ≡ some source
      → IsGiven profile brain source
  unfolding brain_of source_of
  given profile brain source m b s =
      let (b_offered, b_test) =
        find-All IsOffered _ (active_parts N runs input) brain active_parts-IsOffered b in
      let (s_offered, s_test) =
        find-All IsOffered _ (active_parts N runs input) source active_parts-IsOffered s in
      let (b_pin, b_hosts) =
        both (pin_key brain.pin == pin_key profile.brain)
          (same_interface brain.interface Interface.host) b_test in
      let (s_both, s_suits) =
        both
          (pin_key source.pin == pin_key profile.source
            && same_interface source.interface Interface.power)
          (includes source.capabilities (power_capability input.spec.power_source)) s_test in
      let (s_pin, s_powers) =
        both (pin_key source.pin == pin_key profile.source)
          (same_interface source.interface Interface.power) s_both in
      record {
        profile_offered = m;
        brain_offered = b_offered;
        brain_pin = b_pin;
        brain_hosts = b_hosts;
        source_offered = s_offered;
        source_pin = s_pin;
        source_powers = s_powers;
        source_suits = s_suits;
      }

  pub candidates_of-IsChoice :
      (brain source : Part N)
      → All IsChoice (candidates_of N runs (active_parts N runs input) brain source)
  unfolding candidates_of
  candidates_of-IsChoice brain source =
      let parts = active_parts N runs input in
      let test = λ (p : Part N).
        is_peripheral p.interface
        && not (p.pin.id == brain.pin.id)
        && not (p.pin.id == source.pin.id) in
      All-imp (λ (p : Part N). IsOffered p × (test p ≡ true)) IsChoice (keep test parts)
        (λ p h. (h.0, (both (is_peripheral p.interface) _ (both _ _ h.1).0).0))
        (All-both IsOffered (λ (p : Part N). test p ≡ true) (keep test parts)
          (All-keep IsOffered test parts active_parts-IsOffered) (keep-All test parts))
