-- ===== src/Gateway/RateLimit.antt =====
-- apps/gateway/src/rate-limit.ts: the sliding-window limiter. The clock is an argument of `take`.
-- `at > now - windowMs` is written `now < at + windowMs`, since the source's difference is signed.
mod History
mod Steps
pub mod Window
mod Tests
use albusforge.Prelude.{
  ℕ, suc, ◌+◌, ◌-◌, ◌%◌, String, Bool, List, [], ◌∷◌, ◌++◌, Option, none, some, ltb, leb, eqb,
  if◌then◌else◌, length, keep, every, not,
}
use albusforge.Prelude.Assoc.{lookup, insert}

pub record RateLimiter : Type 0 where
  pub limit : ℕ
  pub window_ms : ℕ
  pub hits : List (String × List ℕ)
  pub takes : ℕ

pub new_limiter : ℕ → ℕ → RateLimiter
new_limiter limit window_ms = record { limit = limit; window_ms = window_ms; hits = []; takes = 0 }

-- A hit at `at` is inside the window that ends at `now`.
abbrev pub is_recent : ℕ → ℕ → ℕ → Bool
is_recent window_ms now at = ltb now (at + window_ms)

abbrev has_recent : ℕ → ℕ → String × List ℕ → Bool
has_recent window_ms now (key, times) = not (every (λ at. leb (at + window_ms) now) times)

-- Drops keys with no hit inside the window.
pub sweep : ℕ → RateLimiter → RateLimiter
sweep now r = record r { hits = keep (has_recent r.window_ms now) r.hits }

-- `this.hits.get(key) ?? []`
abbrev pub hits_of : String → RateLimiter → List ℕ
hits_of key r = elim (lookup key r.hits) [ none ↦ [] | some times ↦ times ]

-- `recent[0]! + windowMs - now`; `none` is the NaN of a missing element.
pub wait_from : ℕ → ℕ → List ℕ → Option ℕ
wait_from window_ms now [] = none
wait_from window_ms now (at ∷ _) = some (at + window_ms - now)

-- Lines 21 to 29 of `take`, after the sweep.
pub admit : String → ℕ → RateLimiter → RateLimiter × Option ℕ
admit key now r =
    let recent = keep (is_recent r.window_ms now) (hits_of key r) in
    if leb r.limit (length recent)
    then (record r { hits = insert key recent r.hits }, wait_from r.window_ms now recent)
    else (record r { hits = insert key (recent ++ now ∷ []) r.hits }, some 0)

-- `++this.takes % 1000 === 0`
pub counted : ℕ → RateLimiter → RateLimiter
counted now r =
    let r' = record r { takes = suc r.takes } in
    if eqb (suc r.takes % 1000) 0 then sweep now r' else r'

pub take : String → ℕ → RateLimiter → RateLimiter × Option ℕ
take key now r = admit key now (counted now r)

pub size : RateLimiter → ℕ
size r = length r.hits
