-- ===== src/Matcher/Solver/Feasible.antt =====
-- apps/matcher/src/solver.ts: invariants of the plans that a visit keeps.
use albusforge.Prelude.{
  ℕ, suc, ◌≡◌, refl, ap, ◌≤◌, String, Bool, true, ◌&&◌, List, [], ◌∷◌, ◌++◌, ltb, leb, length,
  length-append, drop, All, All-append, Bool-cases, inl, inr, ◌⊎◌, arith,
}
use albusforge.Prelude.Sort.{sort_by, All-sort_by, length-sort_by}
use albusforge.Matcher.Types.{Arith, Part}
use albusforge.Matcher.Constraints.{check_parts}
use albusforge.Matcher.Ports.{Search, found, limit, crash, step, Wired}
use albusforge.Matcher.Ports.Visits.{Ends, Ends->>=}
use albusforge.Matcher.Wiring.{WiringResult, ok, refused, wire}
use albusforge.Matcher.Plans.{
  Plan, plan_le, SolveState, Setup, covers, plan_of, drop_last, rank_in, keep_plan, note_state,
  on_wired, complete,
}
use albusforge.Matcher.Solver.{
  counted, is_selected, Visit, include, after_exclude, explore, finish, visit,
}

List-cases {ℓ} :
    {A : Type ℓ} (xs : List A) → (xs ≡ []) ⊎ ((x : A) × (rest : List A) × (xs ≡ x ∷ rest))
List-cases [] = inl refl
List-cases (x ∷ xs) = inr (x, xs, refl)

pub Ends-self {ℓ} : {A : Type ℓ} (s : Search A) → Ends s (λ a. s ≡ found a)
unfolding Ends
Ends-self (found a) = refl
Ends-self (limit n) = tt
Ends-self crash = tt

length-drop_last {ℓ} : {A : Type ℓ} (x : A) (xs : List A) → length (drop_last (x ∷ xs)) ≡ length xs
unfolding drop_last
length-drop_last x [] = refl
length-drop_last x (y ∷ ys) = omega (arith, length-drop_last y ys)

All-drop_last {ℓ κ} : {A : Type ℓ} (P : A → Type κ) (xs : List A) → All P xs → All P (drop_last xs)
unfolding drop_last
All-drop_last P [] h = tt
All-drop_last P (x ∷ []) h = tt
All-drop_last P (x ∷ y ∷ ys) h = (h.0, All-drop_last P (y ∷ ys) h.1)

length-drop_last-le {ℓ} :
    {A : Type ℓ} (n : ℕ) (xs : List A) → length xs ≤ suc n → length (drop_last xs) ≤ n
unfolding drop_last
length-drop_last-le n [] h = omega arith
length-drop_last-le n (x ∷ xs) h = omega (arith, length-drop_last x xs)

module _ (N : Arith) (runs : String → String → Bool) (Q : Plan N → Type 0) (most : ℕ)
    (C : Part N → Type 0) where
  -- Every plan kept satisfies `Q`, and there are not too many.
  unfoldable pub IsKept : SolveState N → Type 0
  IsKept st = All Q st.plans × (length st.plans ≤ most)

  abbrev pub Keeps : Search (Bool × SolveState N) → Type 0
  Keeps s = Ends s (λ (r : Bool × SolveState N). IsKept r.1)

  rank_in-All :
      (plan : Plan N) (plans : List (Plan N))
      → Q plan
      → All Q plans
      → All Q (rank_in N most plan plans)
  unfolding rank_in
  rank_in-All plan plans q h =
      let ranked =
        All-sort_by Q (plan_le N) (plans ++ plan ∷ []) (All-append Q plans (plan ∷ []) h (q, tt)) in
      elim (Bool-cases (ltb most (length (sort_by (plan_le N) (plans ++ plan ∷ []))))) [
        | inl over ↦ rw (over, rank_in) (All-drop_last Q _ ranked)
        | inr fits ↦ rw (fits, rank_in) ranked
      ]

  length-rank_in-le :
      (plan : Plan N) (plans : List (Plan N))
      → length plans ≤ most
      → length (rank_in N most plan plans) ≤ most
  unfolding rank_in
  length-rank_in-le plan plans h =
      let sorted = sort_by (plan_le N) (plans ++ plan ∷ []) in
      ground (
        arith,
        length-sort_by (plan_le N) (plans ++ plan ∷ []),
        length-append plans (plan ∷ []),
        length-drop_last-le most sorted,
        h,
      )

  -- The brain, the source and some of the parts that may be chosen.
  unfoldable pub IsChosen : Setup N → List (Part N) → Type 0
  IsChosen s selected =
      (chosen : List (Part N)) × (selected ≡ s.brain ∷ s.source ∷ chosen) × All C chosen

  IsChosen-append :
      (s : Setup N) (selected : List (Part N)) (p : Part N)
      → IsChosen s selected
      → C p
      → IsChosen s (selected ++ p ∷ [])
  unfolding IsChosen
  IsChosen-append s selected p (chosen, whole, all) c =
      (chosen ++ p ∷ [], ap (λ ps. ps ++ p ∷ []) whole, All-append C chosen (p ∷ []) all (c, tt))

  -- Whatever a complete subset leads to satisfies `Q`.
  unfoldable pub Yields : Setup N → Type 0
  Yields s =
      (s.input.max_plans ≡ most)
      × ((selected : List (Part N)) (w : Wired N) (steps n : ℕ)
          → IsChosen s selected
          → covers N s.required selected ≡ true
          → check_parts N runs selected s.brain s.input ≡ []
          → wire N s.brain s.source (drop 2 selected) s.profile s.input s.target steps
            ≡ found (ok w, n)
          → Q (plan_of N s selected w))

  keep_plan-IsKept :
      (s : Setup N) (selected : List (Part N)) (w : Wired N) (st : SolveState N)
      → s.input.max_plans ≡ most
      → Q (plan_of N s selected w)
      → IsKept st
      → IsKept (keep_plan N s selected w st).1
  unfolding keep_plan IsKept plan_of note_state
  keep_plan-IsKept s selected w st m q k =
      elim (Bool-cases (N.is_finite (plan_of N s selected w).total_cost_usd)) [
        | inl finite ↦
            rw (finite, keep_plan)
              (rw m (
                rank_in-All (plan_of N s selected w) st.plans q k.0,
                length-rank_in-le (plan_of N s selected w) st.plans k.1,
              ))
        | inr huge ↦ rw (huge, keep_plan) k
      ]

  on_wired-IsKept :
      (s : Setup N) (selected : List (Part N)) (st : SolveState N) (r : WiringResult N × ℕ)
      → Yields s
      → IsChosen s selected
      → covers N s.required selected ≡ true
      → check_parts N runs selected s.brain s.input ≡ []
      → wire N s.brain s.source (drop 2 selected) s.profile s.input s.target st.steps ≡ found r
      → IsKept st
      → IsKept (on_wired N s selected st r).1
  unfolding on_wired IsKept note_state Yields
  on_wired-IsKept s selected st (refused f, n) y d c p e k = k
  on_wired-IsKept s selected st (ok w, n) y d c p e k =
      keep_plan-IsKept s selected w (record st { steps = n }) y.0
        (y.1 selected w st.steps n d c p e) k

  complete-Keeps :
      (s : Setup N) (selected : List (Part N)) (st : SolveState N)
      → Yields s
      → IsChosen s selected
      → covers N s.required selected ≡ true
      → IsKept st
      → Keeps (complete N runs s selected st)
  unfolding complete Ends IsKept note_state
  complete-Keeps s selected st y d c k =
      elim (List-cases (check_parts N runs selected s.brain s.input)) [
        | inr (f, fs, e) ↦ rw (e, complete) k
        | inl pass ↦
            let wired =
              wire N s.brain s.source (drop 2 selected) s.profile s.input s.target st.steps in
            rw (pass, complete)
              (Ends->>= wired (λ r. found (on_wired N s selected st r)) (λ r. wired ≡ found r)
                (λ (r : Bool × SolveState N). IsKept r.1) (Ends-self wired)
                (λ r e. on_wired-IsKept s selected st r y d c pass e k))
      ]

  finish-Keeps :
      (s : Setup N) (selected : List (Part N)) (st : SolveState N)
      → Yields s
      → IsChosen s selected
      → IsKept st
      → Keeps (finish N runs s selected st)
  unfolding finish Ends
  finish-Keeps s selected st y d k = elim (Bool-cases (covers N s.required selected)) [
    | inl c ↦ rw (c, finish) (complete-Keeps s selected st y d c k)
    | inr c ↦ rw (c, finish) k
  ]

  -- The visits that come after keep what is kept.
  Carries : Setup N → Visit N runs → Type 0
  Carries s go =
      (selected : List (Part N)) (st : SolveState N)
      → IsChosen s selected
      → IsKept st
      → Keeps (go selected st)

  include-Keeps :
      (s : Setup N) (go : Visit N runs) (candidate : Part N) (selected : List (Part N))
      (st : SolveState N)
      → Carries s go
      → IsChosen s selected
      → C candidate
      → IsKept st
      → Keeps (include N runs s go candidate selected st)
  unfolding include Ends Carries
  include-Keeps s go candidate selected st c d a k =
      elim (Bool-cases (is_selected N runs selected candidate)) [
        | inl there ↦ rw (there, include) k
        | inr new ↦
            rw (new, include)
              (Ends->>= (go (selected ++ candidate ∷ []) st)
                (λ (r : Bool × SolveState N). found (r.0 && s.first_only, r.1))
                (λ (r : Bool × SolveState N). IsKept r.1) (λ (r : Bool × SolveState N). IsKept r.1)
                (c (selected ++ candidate ∷ []) st (IsChosen-append s selected candidate d a) k)
                (λ r h. h))
      ]

  after_exclude-Keeps :
      (s : Setup N) (go : Visit N runs) (candidate : Part N) (selected : List (Part N))
      (r : Bool × SolveState N)
      → Carries s go
      → IsChosen s selected
      → C candidate
      → IsKept r.1
      → Keeps (after_exclude N runs s go candidate selected r)
  unfolding after_exclude Ends
  after_exclude-Keeps s go candidate selected (had, st) c d a k =
      elim (Bool-cases (had && s.first_only)) [
        | inl stop ↦ rw (stop, after_exclude) k
        | inr more ↦ rw (more, after_exclude) (include-Keeps s go candidate selected st c d a k)
      ]

  explore-Keeps :
      (s : Setup N) (go : Visit N runs) (candidate : Part N) (rest selected : List (Part N))
      (st : SolveState N)
      → Carries s go
      → IsChosen s selected
      → C candidate
      → IsKept st
      → Keeps (explore N runs s go candidate rest selected st)
  unfolding explore Ends Carries
  explore-Keeps s go candidate rest selected st c d a k =
      elim (Bool-cases (covers N s.required (selected ++ candidate ∷ rest))) [
        | inl open' ↦
            rw (open', explore)
              (Ends->>= (go selected st) (after_exclude N runs s go candidate selected)
                (λ (r : Bool × SolveState N). IsKept r.1) (λ (r : Bool × SolveState N). IsKept r.1)
                (c selected st d k) (λ r h. after_exclude-Keeps s go candidate selected r c d a h))
        | inr shut ↦ rw (shut, explore) k
      ]

  pub counted-IsKept :
      (max_steps : ℕ) (st : SolveState N) → IsKept st → Ends (counted N runs max_steps st) IsKept
  unfolding step Ends IsKept
  counted-IsKept max_steps st k = elim (Bool-cases (leb max_steps st.steps)) [
    | inl full ↦ rw (full, step) tt
    | inr room ↦ rw (room, step) k
  ]

  pub visit-Keeps :
      (s : Setup N) (candidates selected : List (Part N)) (st : SolveState N)
      → Yields s
      → All C candidates
      → IsChosen s selected
      → IsKept st
      → Keeps (visit N runs s candidates selected st)
  unfolding visit Carries
  visit-Keeps s [] selected st y a d k =
      Ends->>= (counted N runs s.input.max_steps st) (finish N runs s selected) IsKept
        (λ (r : Bool × SolveState N). IsKept r.1) (counted-IsKept s.input.max_steps st k)
        (λ st' k'. finish-Keeps s selected st' y d k')
  visit-Keeps s (candidate ∷ rest) selected st y a d k =
      Ends->>= (counted N runs s.input.max_steps st)
        (explore N runs s (visit N runs s rest) candidate rest selected) IsKept
        (λ (r : Bool × SolveState N). IsKept r.1) (counted-IsKept s.input.max_steps st k)
        (λ st' k'.
          explore-Keeps s (visit N runs s rest) candidate rest selected st'
            (λ selected' st'' d' k''. visit-Keeps s rest selected' st'' y a.1 d' k'') d a.0 k')
