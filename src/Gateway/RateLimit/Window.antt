-- ===== src/Gateway/RateLimit/Window.antt =====
-- apps/gateway/src/rate-limit.ts along a whole schedule of requests.
use albusforge.Prelude.{
  ℕ, ◌≤◌, ◌≡◌, refl, String, Bool, List, [], ◌∷◌, ◌++◌, ◌==◌, if◌then◌else◌, length, keep, ◌&&◌,
  arith, eq_iff, keep-append, append_assoc, length-append, append-nil,
}
use albusforge.Gateway.RateLimit.{RateLimiter, new_limiter, is_recent, take}
use albusforge.Gateway.RateLimit.History.{
  is_admitted, History, no_hits, add_hit, Refines, new_limiter-Refines, allows,
}
use albusforge.Gateway.RateLimit.Steps.{take-Decides}

-- A schedule of requests, each a key and the clock's reading, which does not go back.
abbrev pub IsMonotone : ℕ → List (String × ℕ) → Type 0
IsMonotone from [] = Unit
IsMonotone from ((key, now) ∷ rest) = (from ≤ now) × IsMonotone now rest

-- The decisions of the limiter along a schedule.
unfoldable pub decisions : RateLimiter → List (String × ℕ) → List Bool
decisions r [] = []
decisions r ((key, now) ∷ rest) = is_admitted (take key now r).1 ∷ decisions (take key now r).0 rest

-- The decisions of the reference, which keeps every admitted hit for ever.
pub reference : ℕ → ℕ → History → List (String × ℕ) → List Bool
reference limit window_ms H [] = []
reference limit window_ms H ((key, now) ∷ rest) =
    let ok = allows limit window_ms now (H key) in
    ok ∷ reference limit window_ms (if ok then add_hit key now H else H) rest

decisions_lem :
    (reqs : List (String × ℕ)) (H : History) (now : ℕ) (r : RateLimiter)
    → Refines H now r
    → IsMonotone now reqs
    → decisions r reqs ≡ reference r.limit r.window_ms H reqs
unfolding decisions reference
decisions_lem [] H now r v m = refl
decisions_lem ((key, now') ∷ rest) H now r v m =
    let d = take-Decides H key now now' r v m.0 in
    let ih = decisions_lem rest _ now' (take key now' r).0 d.refines m.1 in
    cc (d.decision, (rw (d.limit_kept, d.window_kept, d.decision) at ih))

-- The limiter answers every request as the reference that never forgets a hit does: a request
-- goes through exactly when fewer than `limit` admitted hits of its key lie in the window that
-- ends at it. The clock may not go back along the schedule; the limiter starts empty.
pub decisions-eq-reference :
    (limit window_ms from : ℕ) (reqs : List (String × ℕ))
    → IsMonotone from reqs
    → decisions (new_limiter limit window_ms) reqs ≡ reference limit window_ms no_hits reqs
unfolding new_limiter
decisions-eq-reference limit window_ms from reqs m =
    decisions_lem reqs no_hits from (new_limiter limit window_ms)
      (new_limiter-Refines limit window_ms from) m

-- The times at which the limiter let `k` through.
pub granted : String → RateLimiter → List (String × ℕ) → List ℕ
granted k r [] = []
granted k r ((key, now) ∷ rest) =
    let later = granted k (take key now r).0 rest in
    if is_admitted (take key now r).1 && key == k then now ∷ later else later

-- No request of the schedule comes after `t`.
abbrev pub EndsBy : ℕ → List (String × ℕ) → Type 0
EndsBy t [] = Unit
EndsBy t ((key, now) ∷ rest) = (now ≤ t) × EndsBy t rest

length-recent-falls :
    (w t t' : ℕ) (xs : List ℕ)
    → t ≤ t'
    → length (keep (is_recent w t') xs) ≤ length (keep (is_recent w t) xs)
length-recent-falls w t t' [] h = omega arith
length-recent-falls w t t' (x ∷ xs) h = ground (arith, length-recent-falls w t t' xs h)

-- The window of `k` never holds more than `limit` hits, with the history so far in front.
granted_lem :
    (k : String) (t : ℕ) (reqs : List (String × ℕ)) (H : History) (now : ℕ) (r : RateLimiter)
    → Refines H now r
    → now ≤ t
    → IsMonotone now reqs
    → EndsBy t reqs
    → length (keep (is_recent r.window_ms now) (H k)) ≤ r.limit
    → length (keep (is_recent r.window_ms t) (H k ++ granted k r reqs)) ≤ r.limit
unfolding granted
granted_lem k t [] H now r v h m e b =
    rw (append-nil (H k)) (omega (arith, length-recent-falls r.window_ms now t (H k) h))
granted_lem k t ((key, now') ∷ rest) H now r v h m e b =
    let d = take-Decides H key now now' r v m.0 in
    let falls = length-recent-falls r.window_ms now now' (H k) m.0 in
    let ih = granted_lem k t rest _ now' (take key now' r).0 d.refines e.0 m.1 e.1 in
    let ih' = rw (d.limit_kept, d.window_kept, d.decision) at ih in
    rw d.decision (
      ground (
        arith,
        ih',
        falls,
        eq_iff key k,
        append_assoc (H k) (now' ∷ []) (granted k (take key now' r).0 rest),
        keep-append (is_recent r.window_ms now') (H k) (now' ∷ []),
        length-append (keep (is_recent r.window_ms now') (H k))
            (keep (is_recent r.window_ms now') (now' ∷ [])),
      ))

-- Whatever the callers do, no key is let through more than `limit` times within any `window_ms`
-- that ends when the schedule does or later (every prefix of a schedule is a schedule, so this is
-- any window). The clock may not go back along the schedule; the limiter starts empty.
pub granted-within-limit :
    (limit window_ms from t : ℕ) (k : String) (reqs : List (String × ℕ))
    → IsMonotone from reqs
    → EndsBy t reqs
    → length (keep (is_recent window_ms t) (granted k (new_limiter limit window_ms) reqs)) ≤ limit
unfolding new_limiter granted
granted-within-limit limit window_ms from t k [] m e = omega arith
granted-within-limit limit window_ms from t k ((key, now) ∷ rest) m e =
    granted_lem k t ((key, now) ∷ rest) no_hits 0 (new_limiter limit window_ms)
      (new_limiter-Refines limit window_ms 0) (omega arith) (omega arith, m.1) e (omega arith)
