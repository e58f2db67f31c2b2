-- ===== src/Llm/Pricing.antt =====
-- packages/llm/src/pricing.ts. Prices are in hundredths of a dollar per million tokens, so that every
-- row of the table is whole; a cost is in millionths of a dollar, which is what `round6` keeps. The
-- source computes with floating point, whose error is not modelled, nor are the keys that a
-- JavaScript object inherits.
pub mod Bounds
mod Tests
use albusforge.Prelude.{
  ℕ, ◌+◌, ◌*◌, ◌/◌, max, String, Bool, true, false, not, ◌&&◌, List, [], ◌∷◌, Option, none, some,
  if◌then◌else◌, map,
}
use albusforge.Prelude.Assoc.{lookup}

pub record ModelPrice : Type 0 where
  pub input : ℕ
  pub cache_write_5m : ℕ
  pub cache_write_1h : ℕ
  pub cache_read : ℕ
  pub output : ℕ

abbrev price : ℕ → ℕ → ℕ → ℕ → ℕ → ModelPrice
price input write_5m write_1h read output = record {
  input = input;
  cache_write_5m = write_5m;
  cache_write_1h = write_1h;
  cache_read = read;
  output = output;
}

pub prices : List (String × ModelPrice)
prices =
    ("claude-fable-5-1", price 1000 1250 2000 25 5000)
    ∷ ("claude-opus-5", price 500 625 1000 50 2500)
    ∷ ("claude-opus-4-8", price 500 625 1000 50 2500)
    ∷ ("claude-sonnet-5", price 200 250 400 20 1000)
    ∷ ("claude-haiku-4-5-20251001", price 100 125 200 10 500)
    ∷ ("claude-haiku-4-5", price 100 125 200 10 500)
    ∷ []

pub max_price : ModelPrice → ModelPrice → ModelPrice
max_price p q = record {
  input = max p.input q.input;
  cache_write_5m = max p.cache_write_5m q.cache_write_5m;
  cache_write_1h = max p.cache_write_1h q.cache_write_1h;
  cache_read = max p.cache_read q.cache_read;
  output = max p.output q.output;
}

-- `reduce` without an initial value; on an empty table it would throw.
pub reduce_prices : ModelPrice → List (String × ModelPrice) → ModelPrice
reduce_prices acc [] = acc
reduce_prices acc ((model, p) ∷ rest) = reduce_prices (max_price acc p) rest

pub reduce_table : List (String × ModelPrice) → Option ModelPrice
reduce_table [] = none
reduce_table ((model, p) ∷ rest) = some (reduce_prices p rest)

-- The reduction of `prices`, which is not empty.
pub unknown_model_price : ModelPrice
unknown_model_price = elim (reduce_table prices) [ none ↦ price 0 0 0 0 0 | some p ↦ p ]

pub record PriceFor : Type 0 where
  pub price : ModelPrice
  pub known : Bool

pub price_for : String → PriceFor
price_for model = elim (lookup model prices) [
  | none ↦ record { price = unknown_model_price; known = false }
  | some p ↦ record { price = p; known = true }
]

pub record CacheCreation : Type 0 where
  pub ephemeral_5m : ℕ
  pub ephemeral_1h : ℕ

pub record TokenCounts : Type 0 where
  pub input_tokens : ℕ
  pub output_tokens : ℕ
  pub cache_read_input_tokens : Option ℕ
  pub cache_creation_input_tokens : Option ℕ
  pub cache_creation : Option CacheCreation

-- `n ?? 0`
abbrev pub or_zero : Option ℕ → ℕ
or_zero none = 0
or_zero (some n) = n

write_1h_of : Option CacheCreation → ℕ
write_1h_of none = 0
write_1h_of (some c) = c.ephemeral_1h

write_5m_of : Option CacheCreation → ℕ → ℕ
write_5m_of none created = created
write_5m_of (some c) created = c.ephemeral_5m

-- Before the division by a million.
pub cost_of : TokenCounts → ModelPrice → ℕ
cost_of counts p =
    counts.input_tokens * p.input
    + write_5m_of counts.cache_creation (or_zero counts.cache_creation_input_tokens)
      * p.cache_write_5m
    + write_1h_of counts.cache_creation * p.cache_write_1h
    + or_zero counts.cache_read_input_tokens * p.cache_read
    + counts.output_tokens * p.output

-- `Math.round`, from hundredths of a millionth to millionths: halves go up.
pub round6 : ℕ → ℕ
round6 n = (n + 50) / 100

-- An entry of `usage.iterations`: the model is absent where the entry has no such key.
pub record Iteration : Type 0 where
  pub is_compaction : Bool
  pub model : Option String
  pub counts : TokenCounts

pub record LlmUsage : Type 0 where
  pub counts : TokenCounts
  pub iterations : Option (List Iteration)

pub record PricedIteration : Type 0 where
  pub model : String
  pub counts : TokenCounts

priced_iteration : Bool → Option String → TokenCounts → List PricedIteration → List PricedIteration
priced_iteration false (some model) counts rest = record { model = model; counts = counts } ∷ rest
priced_iteration _ _ counts rest = rest

keep_priced : List Iteration → List PricedIteration
keep_priced [] = []
keep_priced (e ∷ es) = priced_iteration e.is_compaction e.model e.counts (keep_priced es)

pub priced_iterations : LlmUsage → List PricedIteration
priced_iterations usage = elim usage.iterations [ none ↦ [] | some es ↦ keep_priced es ]

models_of : List PricedIteration → String → List String
models_of [] served = served ∷ []
models_of (e ∷ es) served = map (λ (i : PricedIteration). i.model) (e ∷ es)

pub priced_models : LlmUsage → String → List String
unfolding models_of
priced_models usage served = models_of (priced_iterations usage) served

pub sum_costs : List PricedIteration → ℕ
sum_costs [] = 0
sum_costs (e ∷ es) = cost_of e.counts (price_for e.model).price + sum_costs es

cost_from : List PricedIteration → TokenCounts → String → ℕ
cost_from [] counts served = round6 (cost_of counts (price_for served).price)
cost_from (e ∷ es) counts served = round6 (sum_costs (e ∷ es))

pub cost_usd : LlmUsage → String → ℕ
unfolding cost_from
cost_usd usage served = cost_from (priced_iterations usage) usage.counts served
