-- ===== src/Matcher/Ports/Limits.antt =====
-- apps/matcher/src/constraints.ts: what a power budget that fails no check keeps to.
use albusforge.Prelude.{
  ◌≡◌, refl, Bool, true, false, ◌||◌, Option, none, some, Bool-cases, inl, inr, and-true, arith, ap,
  sym, ◌∙◌,
}
use albusforge.Matcher.Types.{Arith}
use albusforge.Matcher.Power.{PowerBudget}
use albusforge.Matcher.Ports.{Bench, is_finite_budget, misses_target, budget_failure}

module _ (N : Arith) (bench : Bench N) where
  -- Finite currents, peaks that the rail and the source can carry, and the target life, if one is set.
  pub record IsWithin (b : PowerBudget N) : Type 0 where
    pub finite_average : N.is_finite b.average_source_ma ≡ true
    pub finite_source : N.is_finite b.peak_source_ma ≡ true
    pub finite_rail : N.is_finite b.peak_brain_rail_ma ≡ true
    pub within_rail : N.lt bench.rail.max_output_ma b.peak_brain_rail_ma ≡ false
    pub within_source : N.lt bench.output.max_output_ma b.peak_source_ma ≡ false
    pub lasts :
        (target : N.Num)
        → bench.target_days ≡ some target
        → (days : N.Num) × (b.estimated_life_days ≡ some days) × (N.lt days target ≡ false)

  or-false : (a b : Bool) → (a || b) ≡ false → (a ≡ false) × (b ≡ false)
  or-false true b h = absurd (ground (arith, h))
  or-false false b h = (refl, h)

  meets :
      (target : N.Num) (life : Option N.Num)
      → misses_target N (some target) life ≡ false
      → (days : N.Num) × (life ≡ some days) × (N.lt days target ≡ false)
  unfolding misses_target
  meets target none h = absurd (ground (arith, h))
  meets target (some days) h = (days, refl, h)

  pub budget_failure-IsWithin : (b : PowerBudget N) → budget_failure N bench b ≡ none → IsWithin b
  unfolding budget_failure is_finite_budget
  budget_failure-IsWithin b h = elim (Bool-cases (is_finite_budget N b)) [
    | inr huge ↦ absurd (ground (arith, h, huge))
    | inl finite ↦
        elim (Bool-cases (
          N.lt bench.rail.max_output_ma b.peak_brain_rail_ma
          || N.lt bench.output.max_output_ma b.peak_source_ma)) [
            | inl over ↦ absurd (ground (arith, h, finite, over))
            | inr fits ↦
                elim (Bool-cases (misses_target N bench.target_days b.estimated_life_days)) [
                  | inl short ↦ absurd (ground (arith, h, finite, fits, short))
                  | inr long ↦
                      let (rail, source) = or-false _ _ fits in
                      let (four, life) = and-true _ _ finite in
                      let (three, capacity) = and-true _ _ four in
                      let (two, on_rail) = and-true _ _ three in
                      let (average, peak) = and-true _ _ two in
                      record {
                        finite_average = average;
                        finite_source = peak;
                        finite_rail = on_rail;
                        within_rail = rail;
                        within_source = source;
                        lasts = λ target set.
                            meets target b.estimated_life_days
                              (ap (λ t. misses_target N t b.estimated_life_days) (sym set) ∙ long);
                      }
                ]
          ]
  ]
