-- ===== src/Matcher/Wiring/Promises.antt =====
-- The contract of `wire` in apps/matcher/src/constraints.ts: ports, resources, parts and budget.
use albusforge.Prelude.{
  ℕ, ◌≡◌, refl, ap, subst, ◌∙◌, ◌≤◌, String, Bool, true, false, not, ◌&&◌, ◌||◌, ◌==◌, eq_iff, List,
  [], ◌∷◌, ◌++◌, Option, none, some, keep, keep-append, length, length-append, leb, All, All-append,
  any, any-ext, includes, Bool-cases, inl, inr, arith, and-true,
}
use albusforge.Prelude.Sort.{sort_by, any-sort_by}
use albusforge.Matcher.Types.{Arith, Part, Port, AssemblyProfile, SolveInput, WiringEdge, text_le}
use albusforge.Matcher.Ports.{
  found, Wired, Bench, port_free, shares, edge_of, budget_failure, occupants,
}
use albusforge.Matcher.Ports.Limits.{IsWithin, budget_failure-IsWithin}
use albusforge.Matcher.Ports.Visits.{Ends, IsGood, Grows, parts_of, pins_of, budget_on}
use albusforge.Matcher.Wiring.{ok, search_wiring, wire}
use albusforge.Matcher.Wiring.Allocation.{Accepts, Delivers, search_wiring-Accepts, wire-Delivers}

-- The edges that end at the port of that name.
pub edges_at : String → List WiringEdge → List WiringEdge
edges_at id wiring = keep (λ (e : WiringEdge). e.port == id) wiring

-- A port of that name has room for at most so many.
unfoldable pub Allows : {N : Arith} → String → ℕ → Port N → Type 0
Allows id room port = (port.id == id) ≡ true → port.capacity ≤ room

-- No resource is shared by edges at two ports.
pub IsExclusive : List WiringEdge → Type 0
IsExclusive [] = Unit
IsExclusive (e ∷ es) =
    All (λ (f : WiringEdge). (not (e.port == f.port) && shares e.resources f.resources) ≡ false) es
    × IsExclusive es

or-false : (a b : Bool) → (a || b) ≡ false → (a ≡ false) × (b ≡ false)
or-false a b h = ground arith

IsExclusive-append :
    (f : WiringEdge) (es : List WiringEdge)
    → IsExclusive es
    → any (λ (e : WiringEdge). not (e.port == f.port) && shares e.resources f.resources) es ≡ false
    → IsExclusive (es ++ f ∷ [])
unfolding IsExclusive
IsExclusive-append f [] x h = (tt, tt)
IsExclusive-append f (e ∷ es) x h =
    let (here, there) =
      or-false (not (e.port == f.port) && shares e.resources f.resources)
        (any (λ (d : WiringEdge). not (d.port == f.port) && shares d.resources f.resources) es) h in
    (
      All-append
          (λ (d : WiringEdge). (not (e.port == d.port) && shares e.resources d.resources) ≡ false)
          es (f ∷ []) x.0 (here, tt),
      IsExclusive-append f es x.1 there,
    )

shares-sort_by : (rs ss : List String) → shares rs (sort_by text_le ss) ≡ shares rs ss
shares-sort_by [] ss = refl
shares-sort_by (r ∷ rs) ss =
    ap (λ b. b || shares rs (sort_by text_le ss)) (any-sort_by (λ t. t == r) text_le ss)
    ∙ ap (λ b. includes ss r || b) (shares-sort_by rs ss)

module _ (N : Arith) where
  capacity-Grows :
      (id : String) (room : ℕ) (bench : Bench N)
      → Grows N bench (λ wiring. length (edges_at id wiring) ≤ room) (Allows id room)
  unfolding edges_at Allows port_free edge_of
  capacity-Grows id room bench part port wiring q suits free p =
      let (vacant, apart) =
        and-true (not (leb port.capacity (length (occupants N wiring port))))
          (not (
            any (λ (e : WiringEdge). not (e.port == port.id) && shares e.resources port.resources)
              wiring))
          free in
      let grown =
        ap (λ es. length es)
          (keep-append (λ (e : WiringEdge). e.port == id) wiring (edge_of N part port ∷ []))
        ∙ length-append (edges_at id wiring) (edges_at id (edge_of N part port ∷ [])) in
      elim (Bool-cases (port.id == id)) [
        | inl same ↦
            let below =
              subst (λ i. not (leb port.capacity (length (edges_at i wiring))) ≡ true)
                ((eq_iff port.id id).0 same) vacant in
            ground (arith, grown, below, q same, same)
        | inr other ↦ ground (arith, grown, other, p)
      ]

  IsExclusive-Grows : (bench : Bench N) → Grows N bench IsExclusive (λ port. Unit)
  unfolding port_free edge_of
  IsExclusive-Grows bench part port wiring q suits free p =
      let (vacant, apart) =
        and-true (not (leb port.capacity (length (occupants N wiring port))))
          (not (
            any (λ (e : WiringEdge). not (e.port == port.id) && shares e.resources port.resources)
              wiring))
          free in
      IsExclusive-append (edge_of N part port) wiring p (
        any-ext
          (λ (e : WiringEdge).
            not (e.port == port.id) && shares e.resources (sort_by text_le port.resources))
          (λ (e : WiringEdge). not (e.port == port.id) && shares e.resources port.resources) wiring
          (λ e. ap (λ b. not (e.port == port.id) && b) (shares-sort_by e.resources port.resources))
        ∙ ground (arith, apart))

All-trivial {ℓ} : {A : Type ℓ} (xs : List A) → All (λ (x : A). Unit {0}) xs
All-trivial [] = tt
All-trivial (x ∷ xs) = (tt, All-trivial xs)

-- Of the wiring that `wire` returns, no more edges end at the ports of a name than each port of
-- that name in the profile allows.
pub wire-within-capacity :
    (N : Arith) (brain source : Part N) (peripherals : List (Part N)) (profile : AssemblyProfile N)
    (input : SolveInput N) (target_days : Option N.Num) (steps n room : ℕ) (id : String)
    (w : Wired N)
    → All (Allows id room) profile.ports
    → wire N brain source peripherals profile input target_days steps ≡ found (ok w, n)
    → length (edges_at id w.wiring) ≤ room
unfolding Ends Delivers edges_at
wire-within-capacity N brain source peripherals profile input target_days steps n room id w fits e =
    let P : List WiringEdge → Type 0 = λ wiring. length (edges_at id wiring) ≤ room in
    (subst (λ s. Ends s (Delivers N P (Allows id room) peripherals)) e
      (wire-Delivers N P (Allows id room) brain source peripherals profile input target_days steps
        (λ bench. capacity-Grows N id room bench) fits (omega arith))).0

-- In the wiring that `wire` returns, edges at two different ports share no resource, and the
-- parts wired are the peripherals, each once and in their order.
pub wire-IsExclusive :
    (N : Arith) (brain source : Part N) (peripherals : List (Part N)) (profile : AssemblyProfile N)
    (input : SolveInput N) (target_days : Option N.Num) (steps n : ℕ) (w : Wired N)
    → wire N brain source peripherals profile input target_days steps ≡ found (ok w, n)
    → IsExclusive w.wiring × (parts_of w.wiring ≡ pins_of peripherals)
unfolding Ends Delivers IsExclusive
wire-IsExclusive N brain source peripherals profile input target_days steps n w e =
    subst (λ s. Ends s (Delivers N IsExclusive (λ p. Unit) peripherals)) e
      (wire-Delivers N IsExclusive (λ p. Unit) brain source peripherals profile input target_days
        steps (λ bench. IsExclusive-Grows N bench) (All-trivial profile.ports) tt)

-- The budget returned with a wiring is the power budget of that wiring, and it fails none of the
-- checks: its currents are finite, its peaks are within those of the rail and of the source, and where a
-- target life is set, the estimated life is known and not below it.
pub search_wiring-budget :
    (N : Arith) (bench : Bench N) (steps n : ℕ) (w : Wired N)
    → search_wiring N bench steps ≡ found (ok w, n)
    → (budget_on N bench w.wiring ≡ some w.budget)
      × (budget_failure N bench w.budget ≡ none)
      × IsWithin N bench w.budget
unfolding Ends Accepts IsGood
search_wiring-budget N bench steps n w e =
    let ends =
      subst (λ s. Ends s (Accepts N (λ ws. Unit) (λ p. Unit) bench)) e
        (search_wiring-Accepts N (λ ws. Unit) (λ p. Unit) bench steps
          (λ part port ws q suits free p. tt) (All-trivial bench.profile.ports) tt) in
    (ends.2, ends.3, budget_failure-IsWithin N bench w.budget ends.3)
