-- ===== src/Matcher/Wiring/Allocation.antt =====
-- apps/matcher/src/constraints.ts: from the search to the result of `wire`.
use albusforge.Prelude.{
  ℕ, ◌≡◌, refl, subst, Bool, true, false, List, [], Option, All, Bool-cases, Option-cases, inl, inr,
}
use albusforge.Prelude.Sort.{sort_by, All-sort_by}
use albusforge.Matcher.Types.{Arith, Part, Port, AssemblyProfile, SolveInput, WiringEdge, text_le}
use albusforge.Matcher.Ports.{found, WireState, Bench, visit}
use albusforge.Matcher.Ports.Visits.{
  Ends, Ends->>=, Ends-Unit, Ends-imp, IsSound, IsGood, Grows, visit-IsSound, parts_of, pins_of,
}
use albusforge.Matcher.Wiring.{
  WiringResult, ok, refused, start_of, over_or_search, search_wiring, result_of, source_fits,
  source_powers, overvolted, bench_of, wire_on, powered, input_window, wire,
}

module _ (N : Arith) (P : List WiringEdge → Type 0) (Q : Port N → Type 0) where
  unfoldable pub Accepts : Bench N → WiringResult N × ℕ → Type 0
  Accepts bench (ok w, n) = IsGood N bench P Q w
  Accepts bench (refused f, n) = Unit

  result_of-Accepts :
      (bench : Bench N) (st : WireState N)
      → IsSound N bench P Q st.best
      → Accepts bench (result_of N st)
  unfolding result_of Accepts IsSound
  result_of-Accepts bench st v = elim (Option-cases st.best) [
    | inl none_there ↦ rw (none_there, result_of) tt
    | inr (w, e) ↦ rw (e, result_of) (subst (IsSound N bench P Q) e v)
  ]

  pub search_wiring-Accepts :
      (bench : Bench N) (steps : ℕ)
      → Grows N bench P Q
      → All Q bench.profile.ports
      → P []
      → Ends (search_wiring N bench steps) (Accepts bench)
  unfolding search_wiring start_of Ends IsSound pins_of parts_of
  search_wiring-Accepts bench steps grow q p =
      Ends->>=
        (visit N bench (sort_by (λ (a b : Port N). text_le a.id b.id) bench.profile.ports)
          bench.peripherals [] (start_of N bench steps))
        (λ st. found (result_of N st)) (λ (st : WireState N). IsSound N bench P Q st.best)
        (Accepts bench)
        (visit-IsSound N bench P Q
          (sort_by (λ (a b : Port N). text_le a.id b.id) bench.profile.ports) bench.peripherals []
          (start_of N bench steps) grow
          (All-sort_by Q (λ (a b : Port N). text_le a.id b.id) bench.profile.ports q) p refl tt)
        (λ st v. result_of-Accepts bench st v)

  over_or_search-Accepts :
      (bench : Bench N) (steps : ℕ) (over : Bool)
      → Grows N bench P Q
      → All Q bench.profile.ports
      → P []
      → Ends (over_or_search N bench steps over) (Accepts bench)
  unfolding over_or_search Ends Accepts
  over_or_search-Accepts bench steps true grow q p = tt
  over_or_search-Accepts bench steps false grow q p = search_wiring-Accepts bench steps grow q p

  wire_on-Accepts :
      (bench : Bench N) (steps : ℕ)
      → Grows N bench P Q
      → All Q bench.profile.ports
      → P []
      → Ends (wire_on N bench steps) (Accepts bench)
  unfolding wire_on Ends Accepts
  wire_on-Accepts bench steps grow q p =
      elim (Bool-cases (source_fits N bench.input bench.profile bench.source bench.output)) [
        | inr misfit ↦ rw (misfit, wire_on) tt
        | inl fits ↦
            elim (Bool-cases (source_powers N bench.source bench.output bench.brain_input)) [
              | inr weak ↦ rw (fits, weak, wire_on) tt
              | inl strong ↦
                  rw (fits, strong, wire_on)
                    (Ends->>= (overvolted N bench.input bench.profile bench.brain bench.output)
                      (over_or_search N bench steps) (λ o. Unit) (Accepts bench)
                      (Ends-Unit (overvolted N bench.input bench.profile bench.brain bench.output))
                      (λ o t. over_or_search-Accepts bench steps o grow q p))
            ]
      ]

  -- What holds of an accepted wiring, whatever bench it was found on.
  unfoldable pub Delivers : List (Part N) → WiringResult N × ℕ → Type 0
  Delivers peripherals (ok w, n) = P w.wiring × (parts_of w.wiring ≡ pins_of peripherals)
  Delivers peripherals (refused f, n) = Unit

  Accepts-Delivers :
      (bench : Bench N) (r : WiringResult N × ℕ) → Accepts bench r → Delivers bench.peripherals r
  unfolding Accepts Delivers IsGood
  Accepts-Delivers bench (ok w, n) a = (a.0, a.1)
  Accepts-Delivers bench (refused f, n) a = tt

  pub wire-Delivers :
      (brain source : Part N) (peripherals : List (Part N)) (profile : AssemblyProfile N)
      (input : SolveInput N) (target_days : Option N.Num) (steps : ℕ)
      → ((bench : Bench N) → Grows N bench P Q)
      → All Q profile.ports
      → P []
      → Ends
          (wire N brain source peripherals profile input target_days steps)
          (Delivers peripherals)
  unfolding wire Ends Delivers bench_of
  wire-Delivers brain source peripherals profile input target_days steps grow q p =
      elim (Option-cases
        (powered N source.supply brain.supply (input_window N brain profile.brain_input))) [
          | inl none_there ↦ rw (none_there, wire) tt
          | inr ((output, rail, window), there) ↦
              let bench =
                bench_of N brain source peripherals profile input target_days output rail window in
              rw (there, wire)
                (Ends-imp (wire_on N bench steps) (Accepts bench) (Delivers peripherals)
                  (wire_on-Accepts bench steps (grow bench) q p) (Accepts-Delivers bench))
        ]
