-- ===== src/Gateway/Streams/Tests.antt =====
-- Runs of the stream registry of apps/gateway/src/sse.ts on concrete calls.
use albusforge.Prelude.{◌≡◌, ◌≤◌, ◌↔◌, ◌⊎◌, List, [], ◌∷◌, none}
use albusforge.Gateway.Streams.{
  StreamRegistry, default_stream_limits, create_stream_registry, reserve, release,
}
use albusforge.Gateway.Streams.Ledger.{IsBalanced, open_leases, open_of}
use albusforge.Gateway.Streams.Runs.{
  Call, reserves, registers, releases, run, run-IsBalanced, reserve-none_iff, release-release,
}

-- Three streams of one owner, one closed twice, and one of another owner with a callback.
abbrev calls : List Call
calls =
    reserves "o"
    ∷ reserves "o"
    ∷ reserves "p"
    ∷ registers 2 7
    ∷ reserves "o"
    ∷ releases 0
    ∷ releases 0
    ∷ reserves "o"
    ∷ []

abbrev after : StreamRegistry
after = run (create_stream_registry default_stream_limits) calls

run-IsBalanced_example : IsBalanced after
run-IsBalanced_example = run-IsBalanced default_stream_limits calls

reserve-none_iff_example : (reserve "o" after ≡ none) ↔ (
    (after.limits.per_owner ≤ open_of "o" after) ⊎ (after.limits.per_instance ≤ open_leases after))
reserve-none_iff_example = reserve-none_iff "o" after run-IsBalanced_example

release-release_example : release 2 (release 2 after) ≡ release 2 after
release-release_example = release-release 2 after
