-- ===== src/Matcher/Ports/Visits.antt =====
-- apps/matcher/src/constraints.ts: invariants of the allocation of ports while it backtracks.
use albusforge.Prelude.{
  ℕ, ◌≡◌, sym, ap, ◌∙◌, true, ◌&&◌, List, [], ◌∷◌, ◌++◌, map, map-append, append_assoc, append-nil,
  Option, none, some, All, Bool-cases, Option-cases, inl, inr, and-true, leb,
}
use albusforge.Matcher.Types.{Arith, Pin, Part, Port, WiringEdge}
use albusforge.Matcher.Power.{PowerBudget, power_budget}
use albusforge.Matcher.Ports.{
  Search, found, limit, crash, ◌>>=◌, step, Wired, WireState, Bench, budget_failure, settle, leaf,
  port_suits, port_free, occupants, current_from, edge_of, draws_less, try_ports, counted, visit,
}

-- Every value that a search ends with satisfies `P`.
unfoldable pub Ends {ℓ κ} : {A : Type ℓ} → Search A → (A → Type κ) → Type κ
Ends (found a) P = P a
Ends (limit n) P = Unit
Ends crash P = Unit

pub Ends->>= {ℓ κ λ'} :
    {A : Type ℓ} {B : Type κ} (s : Search A) (f : A → Search B) (P : A → Type λ') (Q : B → Type λ')
    → Ends s P
    → ((a : A) → P a → Ends (f a) Q)
    → Ends (s >>= f) Q
unfolding Ends
Ends->>= (found a) f P Q e k = k a e
Ends->>= (limit n) f P Q e k = tt
Ends->>= crash f P Q e k = tt

pub Ends-imp {ℓ κ λ'} :
    {A : Type ℓ} (s : Search A) (P : A → Type κ) (Q : A → Type λ')
    → Ends s P
    → ((a : A) → P a → Q a)
    → Ends s Q
unfolding Ends
Ends-imp (found a) P Q e k = k a e
Ends-imp (limit n) P Q e k = tt
Ends-imp crash P Q e k = tt

pub Ends-Unit {ℓ} : {A : Type ℓ} (s : Search A) → Ends {ℓ, 0} s (λ a. Unit)
unfolding Ends
Ends-Unit (found a) = tt
Ends-Unit (limit n) = tt
Ends-Unit crash = tt

unfoldable pub parts_of : List WiringEdge → List Pin
parts_of wiring = map (λ (e : WiringEdge). e.part) wiring

unfoldable pub pins_of : {N : Arith} → List (Part N) → List Pin
pins_of {N} parts = map (λ (p : Part N). p.pin) parts

module _ (N : Arith) (bench : Bench N) where
  open N use {lt}

  pub budget_on : List WiringEdge → Option (PowerBudget N)
  budget_on wiring =
      power_budget N bench.brain bench.source bench.peripherals wiring bench.profile
        bench.input.spec bench.output bench.brain_input bench.rail

  -- `P`: what holds of the wiring; `Q`: of the ports.
  module _ (P : List WiringEdge → Type 0) (Q : Port N → Type 0) where
    unfoldable pub IsGood : Wired N → Type 0
    IsGood w =
        P w.wiring
        × (parts_of w.wiring ≡ pins_of bench.peripherals)
        × (budget_on w.wiring ≡ some w.budget)
        × (budget_failure N bench w.budget ≡ none)

    unfoldable pub IsSound : Option (Wired N) → Type 0
    IsSound none = Unit
    IsSound (some w) = IsGood w

    settle-IsSound :
        (wiring : List WiringEdge) (b : PowerBudget N) (st : WireState N)
        → P wiring
        → parts_of wiring ≡ pins_of bench.peripherals
        → budget_on wiring ≡ some b
        → IsSound st.best
        → IsSound (settle N bench wiring b st).best
    unfolding settle IsSound IsGood
    settle-IsSound wiring b st p e pb v = elim (Option-cases (budget_failure N bench b)) [
      | inl fine ↦ elim (Bool-cases (draws_less N b st.best)) [
        | inl less ↦ rw (fine, less, settle) (p, e, pb, fine)
        | inr more ↦ rw (fine, more, settle) v
      ]
      | inr (f, bad) ↦ rw (bad, settle) v
    ]

    abbrev Keeps : Search (WireState N) → Type 0
    Keeps s = Ends s (λ (st : WireState N). IsSound st.best)

    leaf-IsSound :
        (wiring : List WiringEdge) (st : WireState N)
        → P wiring
        → parts_of wiring ≡ pins_of bench.peripherals
        → IsSound st.best
        → Keeps (leaf N bench wiring st)
    unfolding leaf Ends budget_on
    leaf-IsSound wiring st p e v = elim (Option-cases (budget_on wiring)) [
      | inl none_there ↦ rw (none_there, leaf) tt
      | inr (b, found_b) ↦ rw (found_b, leaf) (settle-IsSound wiring b st p e found_b v)
    ]

    -- Wiring a part to a port that its checks let through keeps `P`.
    abbrev pub Grows : Type 0
    Grows =
        (part : Part N) (port : Port N) (wiring : List WiringEdge)
        → Q port
        → port_suits N bench part port ≡ true
        → port_free N wiring port ≡ true
        → P wiring
        → P (wiring ++ edge_of N part port ∷ [])

    Continues :
        Part N → List WiringEdge → (List WiringEdge → WireState N → Search (WireState N)) → Type 0
    Continues part wiring go =
        (next : List WiringEdge) (st : WireState N)
        → P next
        → parts_of next ≡ parts_of wiring ++ part.pin ∷ []
        → IsSound st.best
        → Keeps (go next st)

    try_ports-IsSound :
        (part : Part N) (go : List WiringEdge → WireState N → Search (WireState N))
        (wiring : List WiringEdge) (ports : List (Port N)) (st : WireState N)
        → Grows
        → Continues part wiring go
        → All Q ports
        → P wiring
        → IsSound st.best
        → Keeps (try_ports N bench part go wiring ports st)
    unfolding try_ports Ends Continues edge_of parts_of
    try_ports-IsSound part go wiring [] st grow k q p v = v
    try_ports-IsSound part go wiring (port ∷ ports) st grow k q p v =
        let skip = try_ports-IsSound part go wiring ports st grow k q.1 p v in
        elim (Bool-cases (port_suits N bench part port && port_free N wiring port)) [
          | inr shut ↦ rw (shut, try_ports) skip
          | inl open' ↦
              let (suits, free) =
                and-true (port_suits N bench part port) (port_free N wiring port) open' in
              elim (Option-cases (current_from N bench part.active_ma (occupants N wiring port))) [
                | inl none_there ↦ rw (open', none_there, try_ports) tt
                | inr (ma, draws) ↦ elim (Bool-cases (lt port.max_current_ma ma)) [
                  | inl over ↦ rw (open', draws, over, try_ports) skip
                  | inr within ↦
                      rw (open', draws, within, try_ports)
                        (Ends->>= (go (wiring ++ edge_of N part port ∷ []) st)
                          (λ st'. try_ports N bench part go wiring ports st')
                          (λ (st' : WireState N). IsSound st'.best)
                          (λ (st' : WireState N). IsSound st'.best)
                          (k (wiring ++ edge_of N part port ∷ []) st
                            (grow part port wiring q.0 suits free p)
                            (map-append (λ (e : WiringEdge). e.part) wiring
                              (edge_of N part port ∷ []))
                            v)
                          (λ st' v'. try_ports-IsSound part go wiring ports st' grow k q.1 p v'))
                ]
              ]
        ]

    counted-IsSound :
        (max_steps : ℕ) (st : WireState N) → IsSound st.best → Keeps (counted N max_steps st)
    unfolding step Ends
    counted-IsSound max_steps st v = elim (Bool-cases (leb max_steps st.steps)) [
      | inl full ↦ rw (full, step) tt
      | inr room ↦ rw (room, step) v
    ]

    pub visit-IsSound :
        (ports : List (Port N)) (rest : List (Part N)) (wiring : List WiringEdge) (st : WireState N)
        → Grows
        → All Q ports
        → P wiring
        → parts_of wiring ++ pins_of rest ≡ pins_of bench.peripherals
        → IsSound st.best
        → Keeps (visit N bench ports rest wiring st)
    unfolding visit Continues pins_of
    visit-IsSound ports [] wiring st grow q p e v =
        Ends->>= (counted N bench.input.max_steps st) (leaf N bench wiring)
          (λ (st' : WireState N). IsSound st'.best) (λ (st' : WireState N). IsSound st'.best)
          (counted-IsSound bench.input.max_steps st v)
          (λ st' v'. leaf-IsSound wiring st' p (sym (append-nil (parts_of wiring)) ∙ e) v')
    visit-IsSound ports (part ∷ rest) wiring st grow q p e v =
        Ends->>= (counted N bench.input.max_steps st)
          (try_ports N bench part (visit N bench ports rest) wiring ports)
          (λ (st' : WireState N). IsSound st'.best) (λ (st' : WireState N). IsSound st'.best)
          (counted-IsSound bench.input.max_steps st v)
          (λ st' v'.
            try_ports-IsSound part (visit N bench ports rest) wiring ports st' grow
              (λ next st'' p' e' v''.
                visit-IsSound ports rest next st'' grow q p'
                  (ap (λ xs. xs ++ pins_of rest) e'
                    ∙ append_assoc (parts_of wiring) (part.pin ∷ []) (pins_of rest)
                    ∙ e)
                  v'')
              q p v')
