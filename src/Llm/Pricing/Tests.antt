-- ===== src/Llm/Pricing/Tests.antt =====
-- The prices of packages/llm/src/pricing.ts on concrete usages.
use albusforge.Prelude.{◌≡◌, refl, ◌≤◌, [], ◌∷◌, none, some, true, false}
use albusforge.Prelude.Assoc.{lookup}
use albusforge.Llm.Pricing.{
  cost_from, priced_iterations, keep_priced, priced_iteration, round6, sum_costs, cost_of,
  price_for, write_5m_of, write_1h_of, TokenCounts, LlmUsage, cost_usd, prices,
}
use albusforge.Llm.Pricing.Bounds.{IsUnlisted, relabelled, cost_usd-le-unlisted}

abbrev counts : TokenCounts
counts = record {
  input_tokens = 1000;
  output_tokens = 200;
  cache_read_input_tokens = some 5000;
  cache_creation_input_tokens = none;
  cache_creation = none;
}

-- A fallback: one model declined, and another served.
abbrev usage : LlmUsage
usage = record {
  counts = counts;
  iterations = some (
      record { is_compaction = false; model = some "claude-opus-5"; counts = counts }
      ∷ record { is_compaction = false; model = some "claude-sonnet-5"; counts = counts }
      ∷ record { is_compaction = true; model = none; counts = counts }
      ∷ []);
}

usage_cost : cost_usd usage "claude-sonnet-5" ≡ 17500
unfolding cost_usd cost_from priced_iterations keep_priced priced_iteration round6 sum_costs cost_of
    price_for lookup prices write_5m_of write_1h_of
usage_cost = refl

new_model-IsUnlisted : IsUnlisted "some-new-model"
unfolding lookup prices
new_model-IsUnlisted = refl

cost_usd-le-unlisted_example :
    cost_usd usage "claude-sonnet-5" ≤ cost_usd (relabelled "some-new-model" usage) "some-new-model"
cost_usd-le-unlisted_example =
    cost_usd-le-unlisted "some-new-model" "claude-sonnet-5" usage new_model-IsUnlisted
