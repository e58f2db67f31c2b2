-- ===== src/Gateway/RateLimit/History.antt =====
-- apps/gateway/src/rate-limit.ts against the full history of granted hits: the relation between the
-- two, and its preservation by a sweep.
use albusforge.Prelude.{
  ℕ, suc, ◌+◌, ◌≤◌, ◌≡◌, refl, String, Bool, true, false, List, [], ◌∷◌, ◌++◌, Option, none, some,
  ltb, eqb, ◌==◌, if◌then◌else◌, length, keep, every, leb, arith, eq_iff, Bool-cases, inl, inr, ◌%◌,
  ◌∙◌,
}
use albusforge.Prelude.Assoc.{lookup, HasDistinctKeys, HasDistinctKeys-keep, lookup-IsFresh}
use albusforge.Gateway.RateLimit.{
  RateLimiter, new_limiter, is_recent, has_recent, hits_of, sweep, wait_from, counted,
}

-- The answer 0, by which the caller goes on.
abbrev pub is_admitted : Option ℕ → Bool
is_admitted none = false
is_admitted (some d) = eqb d 0

pub keep-is_recent-twice :
    (w t t' : ℕ) (xs : List ℕ)
    → t ≤ t'
    → keep (is_recent w t') (keep (is_recent w t) xs) ≡ keep (is_recent w t') xs
keep-is_recent-twice w t t' [] h = refl
keep-is_recent-twice w t t' (x ∷ xs) h = ground (arith, keep-is_recent-twice w t t' xs h)

-- A list with no recent hit has none later either.
keep-is_recent-expired :
    (w now t : ℕ) (xs : List ℕ)
    → every (λ at. leb (at + w) now) xs ≡ true
    → now ≤ t
    → keep (is_recent w t) xs ≡ []
keep-is_recent-expired w now t [] e h = refl
keep-is_recent-expired w now t (x ∷ xs) e h = ground (arith, keep-is_recent-expired w now t xs)

stored : String → List (String × List ℕ) → List ℕ
stored k m = elim (lookup k m) [ none ↦ [] | some times ↦ times ]

keep-stored-swept :
    (w now t : ℕ) (k : String) (m : List (String × List ℕ))
    → HasDistinctKeys m
    → now ≤ t
    → keep (is_recent w t) (stored k (keep (has_recent w now) m))
      ≡ keep (is_recent w t) (stored k m)
unfolding stored lookup
keep-stored-swept w now t k [] d h = refl
keep-stored-swept w now t k ((j, times) ∷ m) d h = ground (
  arith,
  eq_iff j k,
  keep-stored-swept w now t k m d.1 h,
  keep-is_recent-expired w now t times,
  lookup-IsFresh j m d.0,
)

-- `H k` is every hit that was ever admitted for `k`, oldest first.
abbrev pub History : Type 0
History = String → List ℕ

abbrev pub no_hits : History
no_hits k = []

abbrev pub add_hit : String → ℕ → History → History
add_hit key now H k = if key == k then H k ++ now ∷ [] else H k

-- From `now` on the limiter's lists and the history show the same recent hits.
pub record Refines (H : History) (now : ℕ) (r : RateLimiter) : Type 0 where
  pub distinct : HasDistinctKeys r.hits
  pub same :
      (k : String) (t : ℕ)
      → now ≤ t
      → keep (is_recent r.window_ms t) (hits_of k r) ≡ keep (is_recent r.window_ms t) (H k)

pub new_limiter-Refines :
    (limit window_ms now : ℕ) → Refines no_hits now (new_limiter limit window_ms)
unfolding new_limiter lookup
new_limiter-Refines limit window_ms now = record { distinct = tt; same = λ k t h. refl }

sweep-Refines :
    (H : History) (now : ℕ) (r : RateLimiter) → Refines H now r → Refines H now (sweep now r)
unfolding sweep stored
sweep-Refines H now r v = record {
  distinct = HasDistinctKeys-keep (has_recent r.window_ms now) r.hits v.distinct;
  same = λ k t h. keep-stored-swept r.window_ms now t k r.hits v.distinct h ∙ v.same k t h;
}

pub counted-Refines :
    (H : History) (now : ℕ) (r : RateLimiter) → Refines H now r → Refines H now (counted now r)
unfolding counted
counted-Refines H now r v = elim (Bool-cases (eqb (suc r.takes % 1000) 0)) [
  | inl e ↦ rw e (sweep-Refines H now _ same_hits)
  | inr e ↦ rw e same_hits
]
  where
    same_hits : Refines H now (record r { takes = suc r.takes })
    same_hits = record { distinct = v.distinct; same = v.same }

-- The reference decision, over the full history.
abbrev pub allows : ℕ → ℕ → ℕ → List ℕ → Bool
allows limit window_ms now times = ltb (length (keep (is_recent window_ms now) times)) limit

pub wait_from-positive :
    (w now : ℕ) (xs : List ℕ) → is_admitted (wait_from w now (keep (is_recent w now) xs)) ≡ false
unfolding wait_from
wait_from-positive w now [] = refl
wait_from-positive w now (x ∷ xs) = ground (arith, wait_from-positive w now xs)
