-- ===== src/Gateway/Streams/Runs.antt =====
-- apps/gateway/src/sse.ts: any calls on the registry, in any order, by any number of streams.
use albusforge.Prelude.{
  ℕ, leb, ◌||◌, ◌≤◌, ◌≡◌, ◌⊎◌, ◌↔◌, inl, inr, String, true, List, [], ◌∷◌, none, some, get_elem?,
  get_elem?-set_self, arith, Option-cases, Bool-cases,
}
use albusforge.Prelude.Assoc.{lookup}
use albusforge.Gateway.Streams.{
  StreamLimits, StreamRegistry, create_stream_registry, count_or, reserve, on_close, end_lease,
  release,
}
use albusforge.Gateway.Streams.Ledger.{
  IsBalanced, open_leases, open_of, create-IsBalanced, open_lease-IsBalanced, release-IsBalanced,
  on_close-IsBalanced,
}

-- What a caller may do with the registry: reserve for an owner, register a callback on a lease,
-- release a lease. Leases are named by position, so a call on a lease that was never handed out,
-- a second release and a release after any other calls are all included.
pub data Call : Type 0 where
  reserves : String → Call
  registers : ℕ → ℕ → Call
  releases : ℕ → Call

pub step : StreamRegistry → Call → StreamRegistry
step reg (reserves owner) = elim (reserve owner reg) [ none ↦ reg | some (i, reg') ↦ reg' ]
step reg (registers i close) = on_close i close reg
step reg (releases i) = release i reg

pub run : StreamRegistry → List Call → StreamRegistry
run reg [] = reg
run reg (c ∷ cs) = run (step reg c) cs

reserves-IsBalanced :
    (owner : String) (reg : StreamRegistry)
    → IsBalanced reg
    → IsBalanced (step reg (reserves owner))
unfolding step reserve
reserves-IsBalanced owner reg v =
    let owned = count_or 0 (lookup owner reg.per_owner) in
    elim (Bool-cases (leb reg.limits.per_owner owned || leb reg.limits.per_instance reg.total)) [
      | inl full ↦ rw (full, step) v
      | inr room ↦ rw (room, step) (open_lease-IsBalanced owner reg (ground arith) (ground arith) v)
    ]

step-IsBalanced : (reg : StreamRegistry) (c : Call) → IsBalanced reg → IsBalanced (step reg c)
unfolding step
step-IsBalanced reg (reserves owner) v = reserves-IsBalanced owner reg v
step-IsBalanced reg (registers i close) v = on_close-IsBalanced i close reg v
step-IsBalanced reg (releases i) v = release-IsBalanced i reg v

run-step-IsBalanced :
    (reg : StreamRegistry) (cs : List Call) → IsBalanced reg → IsBalanced (run reg cs)
unfolding run
run-step-IsBalanced reg [] v = v
run-step-IsBalanced reg (c ∷ cs) v = run-step-IsBalanced (step reg c) cs (step-IsBalanced reg c v)

-- After any calls on a new registry its total is the number of leases not yet released, the count
-- of each owner is the number of that owner's, no owner holds more than its limit and the
-- instance no more than its own.
pub run-IsBalanced :
    (limits : StreamLimits) (cs : List Call) → IsBalanced (run (create_stream_registry limits) cs)
run-IsBalanced limits cs =
    run-step-IsBalanced (create_stream_registry limits) cs (create-IsBalanced limits)

-- A stream is refused exactly when its owner, or the instance, has as many open leases as its
-- limit allows, in a registry that only calls have changed.
pub reserve-none_iff :
    (owner : String) (reg : StreamRegistry)
    → IsBalanced reg
    → (reserve owner reg ≡ none)
      ↔ ((reg.limits.per_owner ≤ open_of owner reg) ⊎ (reg.limits.per_instance ≤ open_leases reg))
unfolding reserve
reserve-none_iff owner reg v = ground (arith, v.counted, v.owned owner)

-- Releasing a lease a second time changes nothing, whatever lease it is.
pub release-release : (i : ℕ) (reg : StreamRegistry) → release i (release i reg) ≡ release i reg
unfolding release end_lease
release-release i reg = elim (Option-cases (get_elem? reg.leases i)) [
  | inl none_there ↦ ground (arith, none_there)
  | inr (l, found) ↦
      ground (arith, get_elem?-set_self reg.leases i l (record l { released = true }) found)
]
