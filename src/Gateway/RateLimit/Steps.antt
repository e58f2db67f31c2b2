-- ===== src/Gateway/RateLimit/Steps.antt =====
-- apps/gateway/src/rate-limit.ts: one call of `take` beside the full history.
use albusforge.Prelude.{
  ℕ, ◌≤◌, ◌≡◌, refl, ap, String, [], ◌∷◌, ◌++◌, Option, if◌then◌else◌, length, keep, leb, arith,
  eq_iff, keep-append, Bool-cases, inl, inr, ◌∙◌,
}
use albusforge.Prelude.Assoc.{insert, lookup-insert, HasDistinctKeys-insert}
use albusforge.Gateway.RateLimit.{RateLimiter, is_recent, hits_of, sweep, admit, counted, take}
use albusforge.Gateway.RateLimit.History.{
  is_admitted, History, add_hit, Refines, keep-is_recent-twice, wait_from-positive, counted-Refines,
  allows,
}

-- What one step establishes: the decision is the reference's, and the history goes on with it.
pub record Decides (H : History) (key : String) (now : ℕ) (r : RateLimiter)
    (step : RateLimiter × Option ℕ) : Type 0 where
  pub decision : is_admitted step.1 ≡ allows r.limit r.window_ms now (H key)
  pub refines : Refines (if is_admitted step.1 then add_hit key now H else H) now step.0
  pub limit_kept : step.0.limit ≡ r.limit
  pub window_kept : step.0.window_ms ≡ r.window_ms

refused-Refines :
    (H : History) (key : String) (now : ℕ) (r : RateLimiter)
    → Refines H now r
    → Refines H now
        (record r { hits = insert key (keep (is_recent r.window_ms now) (hits_of key r)) r.hits })
refused-Refines H key now r v = record {
  distinct = HasDistinctKeys-insert key _ r.hits v.distinct;
  same = λ k t h. ground (
    arith,
    lookup-insert key k (keep (is_recent r.window_ms now) (hits_of key r)) r.hits,
    keep-is_recent-twice r.window_ms now t (hits_of key r) h,
    eq_iff key k,
    v.same k t h,
  );
}

admitted-Refines :
    (H : History) (key : String) (now : ℕ) (r : RateLimiter)
    → Refines H now r
    → Refines (add_hit key now H) now (record r {
      hits = insert key (keep (is_recent r.window_ms now) (hits_of key r) ++ now ∷ []) r.hits;
    })
admitted-Refines H key now r v = record {
  distinct = HasDistinctKeys-insert key _ r.hits v.distinct;
  same = λ k t h. ground (
    arith,
    lookup-insert key k (keep (is_recent r.window_ms now) (hits_of key r) ++ now ∷ []) r.hits,
    keep-append (is_recent r.window_ms t) (keep (is_recent r.window_ms now) (hits_of key r))
        (now ∷ []),
    keep-append (is_recent r.window_ms t) (H key) (now ∷ []),
    keep-is_recent-twice r.window_ms now t (hits_of key r) h,
    eq_iff key k,
    v.same k t h,
  );
}

admit-Decides :
    (H : History) (key : String) (now : ℕ) (r : RateLimiter)
    → Refines H now r
    → Decides H key now r (admit key now r)
unfolding admit
admit-Decides H key now r v =
    let recent = keep (is_recent r.window_ms now) (hits_of key r) in
    let same : length recent ≡ length (keep (is_recent r.window_ms now) (H key)) =
      ap length (v.same key now (omega arith)) in
    elim (Bool-cases (leb r.limit (length recent))) [
      | inl full ↦ rw full (record {
        decision = ground (arith, wait_from-positive r.window_ms now (hits_of key r));
        refines =
            rw (wait_from-positive r.window_ms now (hits_of key r)) (refused-Refines H key now r v);
        limit_kept = refl;
        window_kept = refl;
      })
      | inr room ↦ rw room (record {
        decision = ground arith;
        refines = admitted-Refines H key now r v;
        limit_kept = refl;
        window_kept = refl;
      })
    ]

counted-limit : (now : ℕ) (r : RateLimiter) → (counted now r).limit ≡ r.limit
unfolding counted sweep
counted-limit now r = ground arith

counted-window : (now : ℕ) (r : RateLimiter) → (counted now r).window_ms ≡ r.window_ms
unfolding counted sweep
counted-window now r = ground arith

Refines-later :
    (H : History) (now now' : ℕ) (r : RateLimiter) → Refines H now r → now ≤ now' → Refines H now' r
Refines-later H now now' r v h = record {
  distinct = v.distinct;
  same = λ k t p. v.same k t (omega arith);
}

pub take-Decides :
    (H : History) (key : String) (now now' : ℕ) (r : RateLimiter)
    → Refines H now r
    → now ≤ now'
    → Decides H key now' r (take key now' r)
unfolding take counted
take-Decides H key now now' r v h =
    let d =
      admit-Decides H key now' (counted now' r)
        (counted-Refines H now' r (Refines-later H now now' r v h)) in
    record {
      decision = rw (counted-limit now' r, counted-window now' r) at d.decision;
      refines = d.refines;
      limit_kept = d.limit_kept ∙ counted-limit now' r;
      window_kept = d.window_kept ∙ counted-window now' r;
    }
