-- ===== src/Matcher/Solver/Searches.antt =====
-- apps/matcher/src/solver.ts: the search over the profiles, from its visits.
use albusforge.Prelude.{
  ℕ, refl, Memᴰ, All, Bool, not, ◌&&◌, List, [], ◌∷◌, keep, Bool-cases, Option-cases, inl, inr,
  arith, String,
}
use albusforge.Matcher.Types.{Arith, Part, AssemblyProfile, SolveInput}
use albusforge.Matcher.Constraints.{check_parts}
use albusforge.Matcher.Ports.{◌>>=◌}
use albusforge.Matcher.Ports.Visits.{Ends, Ends->>=}
use albusforge.Matcher.Plans.{Requirement, is_requires, Plan, SolveState, Setup, note_state}
use albusforge.Matcher.Solver.{
  counted, is_unfit, candidates_of, on_setup, setup_of, brain_of, source_of, on_profile, stop_or,
  search_profiles, search, active_parts, sorted_profiles, fresh, has_none,
}
use albusforge.Matcher.Solver.Offers.{
  IsChoice, IsGiven, given, sorted_profiles-Mem, candidates_of-IsChoice,
}
use albusforge.Matcher.Solver.Feasible.{
  IsKept, Keeps, Yields, IsChosen, visit-Keeps, counted-IsKept,
}

module _ (N : Arith) (runs : String → String → Bool) (Q : Plan N → Type 0) (most : ℕ)
    (input : SolveInput N) where
  abbrev pub Yielding : Setup N → Type 0
  Yielding s = Yields N runs Q most (IsChoice N runs input) s

  abbrev Holds : SolveState N → Type 0
  Holds st = IsKept N runs Q most (IsChoice N runs input) st

  on_setup-Keeps :
      (s : Setup N) (st : SolveState N)
      → Yielding s
      → Holds st
      → Keeps N runs Q most
          (IsChoice N runs input)
          (on_setup N runs (active_parts N runs input) s st)
  unfolding on_setup Ends IsKept IsChosen note_state
  on_setup-Keeps s st y k =
      let selected = s.brain ∷ s.source ∷ [] in
      let base = keep (λ f. not (is_requires f)) (check_parts N runs selected s.brain s.input) in
      elim (Bool-cases (is_unfit N runs s.input s.brain s.source)) [
        | inl unfit ↦ rw (unfit, on_setup) k
        | inr fit ↦ elim (Bool-cases (has_none base)) [
          | inl clean ↦
              rw (fit, clean, on_setup)
                (visit-Keeps N runs Q most (IsChoice N runs input) s
                  (candidates_of N runs (active_parts N runs input) s.brain s.source) selected st y
                  (candidates_of-IsChoice N runs input s.brain s.source) ([], refl, tt) k)
          | inr bad ↦ rw (fit, bad, on_setup) k
        ]
      ]

  -- Whatever profile, brain and source the input gives.
  unfoldable pub YieldsAll : List Requirement → Bool → Type 0
  YieldsAll needs first_only =
      (profile : AssemblyProfile N) (brain source : Part N)
      → IsGiven N runs input profile brain source
      → Yielding (setup_of N runs input needs first_only profile brain source)

  on_profile-Keeps :
      (needs : List Requirement) (first_only : Bool) (profile : AssemblyProfile N)
      (st : SolveState N)
      → Memᴰ profile input.profiles
      → YieldsAll needs first_only
      → Holds st
      → Keeps N runs Q most
          (IsChoice N runs input)
          (on_profile N runs input (active_parts N runs input) needs first_only profile st)
  unfolding on_profile Ends YieldsAll
  on_profile-Keeps needs first_only profile st m y k =
      elim (Option-cases (brain_of N runs (active_parts N runs input) profile)) [
        | inl no_brain ↦ rw (no_brain, on_profile) k
        | inr (brain, b) ↦
            elim (Option-cases
              (source_of N runs (active_parts N runs input) profile input.spec.power_source)) [
                | inl no_source ↦ rw (b, no_source, on_profile) k
                | inr (source, s) ↦
                    rw (b, s, on_profile)
                      (on_setup-Keeps (setup_of N runs input needs first_only profile brain source)
                        st (y profile brain source (given N runs input profile brain source m b s))
                        k)
              ]
      ]

  search_profiles-Holds :
      (needs : List Requirement) (first_only : Bool) (profiles : List (AssemblyProfile N))
      (st : SolveState N)
      → All (λ (p : AssemblyProfile N). Memᴰ p input.profiles) profiles
      → YieldsAll needs first_only
      → Holds st
      → Ends
          (search_profiles N runs input (active_parts N runs input) needs first_only profiles st)
          Holds
  unfolding search_profiles Ends stop_or
  search_profiles-Holds needs first_only [] st m y k = k
  search_profiles-Holds needs first_only (profile ∷ profiles) st m y k =
      Ends->>=
        (counted N runs input.max_steps st
          >>= on_profile N runs input (active_parts N runs input) needs first_only profile)
        (stop_or N runs first_only
          (search_profiles N runs input (active_parts N runs input) needs first_only profiles))
        (λ (r : Bool × SolveState N). Holds r.1) Holds
        (Ends->>= (counted N runs input.max_steps st)
          (on_profile N runs input (active_parts N runs input) needs first_only profile) Holds
          (λ (r : Bool × SolveState N). Holds r.1)
          (counted-IsKept N runs Q most (IsChoice N runs input) input.max_steps st k)
          (λ st' k'. on_profile-Keeps needs first_only profile st' m.0 y k'))
        (λ r k'. elim (Bool-cases (r.0 && first_only)) [
          | inl stop ↦ rw (stop, stop_or) k'
          | inr more ↦
              rw (more, stop_or) (search_profiles-Holds needs first_only profiles r.1 m.1 y k')
        ])

  -- A search starts with no plans, so what it ends with holds from the start.
  pub search-Holds :
      (needs : List Requirement) (first_only : Bool) (st : SolveState N)
      → YieldsAll needs first_only
      → Ends (search N runs input needs first_only st) Holds
  unfolding search IsKept
  search-Holds needs first_only st y =
      search_profiles-Holds needs first_only (sorted_profiles N runs input) (fresh N runs st)
        (sorted_profiles-Mem N runs input) y (tt, omega arith)
