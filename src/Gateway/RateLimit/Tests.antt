-- ===== src/Gateway/RateLimit/Tests.antt =====
-- Runs of the limiter of apps/gateway/src/rate-limit.ts on concrete requests.
use albusforge.Prelude.{◌≡◌, refl, ℕ, ◌≤◌, String, List, [], ◌∷◌, true, false, length, keep, arith}
use albusforge.Prelude.Assoc.{lookup, insert}
use albusforge.Gateway.RateLimit.{take, admit, counted, wait_from, new_limiter, is_recent}
use albusforge.Gateway.RateLimit.History.{no_hits}
use albusforge.Gateway.RateLimit.Window.{
  IsMonotone, EndsBy, decisions, reference, granted, decisions-eq-reference, granted-within-limit,
}

-- Two calls a second from one address, a third at once, another address, and the first one later.
abbrev requests : List (String × ℕ)
requests = ("a", 10) ∷ ("a", 20) ∷ ("a", 30) ∷ ("b", 40) ∷ ("a", 1015) ∷ []

requests-IsMonotone : IsMonotone 0 requests
requests-IsMonotone = omega arith

requests-EndsBy : EndsBy 1015 requests
requests-EndsBy = omega arith

decisions_run : decisions (new_limiter 2 1000) requests ≡ true ∷ true ∷ false ∷ true ∷ true ∷ []
unfolding decisions take admit counted new_limiter lookup insert wait_from
decisions_run = refl

decisions-eq-reference_example :
    decisions (new_limiter 2 1000) requests ≡ reference 2 1000 no_hits requests
decisions-eq-reference_example = decisions-eq-reference 2 1000 0 requests requests-IsMonotone

granted-within-limit_example :
    length (keep (is_recent 1000 1015) (granted "a" (new_limiter 2 1000) requests)) ≤ 2
granted-within-limit_example =
    granted-within-limit 2 1000 0 1015 "a" requests requests-IsMonotone requests-EndsBy
