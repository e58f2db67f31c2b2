-- ===== src/Llm/Pricing/Bounds.antt =====
-- packages/llm/src/pricing.ts: bounds on prices and costs.
use albusforge.Prelude.{
  ℕ, ◌*◌, ◌≤◌, ◌≡◌, refl, String, List, [], ◌∷◌, Option, none, some, arith, Option-cases,
  Bool-cases, inl, inr, ◌==◌, map,
}
use albusforge.Prelude.Assoc.{lookup}
use albusforge.Llm.Pricing.{
  ModelPrice, prices, max_price, reduce_prices, reduce_table, unknown_model_price, price_for,
  TokenCounts, or_zero, write_1h_of, write_5m_of, cost_of, round6, Iteration, LlmUsage,
  PricedIteration, priced_iteration, keep_priced, priced_iterations, sum_costs, cost_from, cost_usd,
}

-- Category by category.
pub record IsAtMost (p q : ModelPrice) : Type 0 where
  pub input : p.input ≤ q.input
  pub cache_write_5m : p.cache_write_5m ≤ q.cache_write_5m
  pub cache_write_1h : p.cache_write_1h ≤ q.cache_write_1h
  pub cache_read : p.cache_read ≤ q.cache_read
  pub output : p.output ≤ q.output

mul_mono : (n : ℕ) {a b : ℕ} → a ≤ b → n * a ≤ n * b
mul_mono n h = grind arith

IsAtMost-reduce :
    (q acc : ModelPrice) (rest : List (String × ModelPrice))
    → IsAtMost q acc
    → IsAtMost q (reduce_prices acc rest)
unfolding reduce_prices max_price
IsAtMost-reduce q acc [] h = h
IsAtMost-reduce q acc ((model, p) ∷ rest) h =
    IsAtMost-reduce q (max_price acc p) rest (omega (arith, h))

lookup-IsAtMost_reduce :
    (model : String) (p acc : ModelPrice) (rest : List (String × ModelPrice))
    → lookup model rest ≡ some p
    → IsAtMost p (reduce_prices acc rest)
unfolding lookup reduce_prices max_price
lookup-IsAtMost_reduce model p acc [] e = ground arith
lookup-IsAtMost_reduce model p acc ((other, q) ∷ rest) e = elim (Bool-cases (other == model)) [
  | inl here ↦
      let same : q ≡ p = ground arith in
      IsAtMost-reduce p (max_price acc q) rest (rw same (omega arith))
  | inr later ↦ lookup-IsAtMost_reduce model p (max_price acc q) rest (ground arith)
]

lookup-IsAtMost_table :
    (model : String) (p q : ModelPrice) (table : List (String × ModelPrice))
    → lookup model table ≡ some p
    → reduce_table table ≡ some q
    → IsAtMost p q
unfolding lookup reduce_table
lookup-IsAtMost_table model p q [] e r = ground arith
lookup-IsAtMost_table model p q ((other, first) ∷ rest) e r =
    let reduced : reduce_prices first rest ≡ q = ground arith in
    rw (← reduced) (elim (Bool-cases (other == model)) [
      | inl here ↦
          let same : first ≡ p = ground arith in
          IsAtMost-reduce p first rest (rw same (omega arith))
      | inr later ↦ lookup-IsAtMost_reduce model p first rest (ground arith)
    ])

unknown_model_price-reduces : reduce_table prices ≡ some unknown_model_price
unfolding unknown_model_price reduce_table prices
unknown_model_price-reduces = refl

-- Whatever model it is asked for, the price found is at most the one for unknown models.
price_for-IsAtMost : (model : String) → IsAtMost (price_for model).price unknown_model_price
unfolding price_for
price_for-IsAtMost model = elim (Option-cases (lookup model prices)) [
  | inl missing ↦ rw (missing, price_for) (omega arith)
  | inr (p, found) ↦
      rw (found, price_for)
        (lookup-IsAtMost_table model p unknown_model_price prices found unknown_model_price-reduces)
]

pub cost_of_mono : (c : TokenCounts) (p q : ModelPrice) → IsAtMost p q → cost_of c p ≤ cost_of c q
unfolding cost_of
cost_of_mono c p q h = omega (
  arith,
  mul_mono c.input_tokens h.input,
  mul_mono (write_5m_of c.cache_creation (or_zero c.cache_creation_input_tokens)) h.cache_write_5m,
  mul_mono (write_1h_of c.cache_creation) h.cache_write_1h,
  mul_mono (or_zero c.cache_read_input_tokens) h.cache_read,
  mul_mono c.output_tokens h.output,
)

-- The same list of priced iterations, all by one model.
abbrev pub all_by : String → List PricedIteration → List PricedIteration
all_by m = map (λ (i : PricedIteration). record i { model = m })

abbrev pub IsUnlisted : String → Type 0
IsUnlisted model = lookup model prices ≡ none

price_for-IsUnlisted : (m : String) → IsUnlisted m → (price_for m).price ≡ unknown_model_price
unfolding price_for
price_for-IsUnlisted m h = rw (h, price_for) refl

sum_costs-le :
    (m : String) (es : List PricedIteration) → IsUnlisted m → sum_costs es ≤ sum_costs (all_by m es)
unfolding sum_costs
sum_costs-le m [] h = omega arith
sum_costs-le m (e ∷ es) h = rw (price_for-IsUnlisted m h) (
    omega (
      arith,
      sum_costs-le m es h,
      cost_of_mono e.counts (price_for e.model).price unknown_model_price
          (price_for-IsAtMost e.model),
    ))

abbrev relabel_model : String → Option String → Option String
relabel_model m none = none
relabel_model m (some old) = some m

-- The same iteration with another model's name, where it has one.
abbrev pub relabel : String → Iteration → Iteration
relabel m i = record i { model = relabel_model m i.model }

abbrev pub relabel_all : String → Option (List Iteration) → Option (List Iteration)
relabel_all m none = none
relabel_all m (some es) = some (map (relabel m) es)

abbrev pub relabelled : String → LlmUsage → LlmUsage
relabelled m usage = record usage { iterations = relabel_all m usage.iterations }

keep_priced-relabel :
    (m : String) (es : List Iteration)
    → keep_priced (map (relabel m) es) ≡ all_by m (keep_priced es)
unfolding keep_priced priced_iteration
keep_priced-relabel m [] = refl
keep_priced-relabel m (e ∷ es) = ground (arith, keep_priced-relabel m es)

priced_iterations-relabelled :
    (m : String) (usage : LlmUsage) (its : Option (List Iteration))
    → usage.iterations ≡ its
    → priced_iterations (relabelled m usage) ≡ all_by m (priced_iterations usage)
unfolding priced_iterations keep_priced
priced_iterations-relabelled m usage none e = rw (e, priced_iterations) refl
priced_iterations-relabelled m usage (some es) e =
    rw (e, priced_iterations) (keep_priced-relabel m es)

round6_mono : (a b : ℕ) → a ≤ b → round6 a ≤ round6 b
unfolding round6
round6_mono a b h = omega arith

cost_from-le :
    (m served : String) (es : List PricedIteration) (counts : TokenCounts)
    → IsUnlisted m
    → cost_from es counts served ≤ cost_from (all_by m es) counts m
unfolding cost_from
cost_from-le m served [] counts h = rw (price_for-IsUnlisted m h) (
    round6_mono _ _ (
      cost_of_mono counts (price_for served).price unknown_model_price (price_for-IsAtMost served)))
cost_from-le m served (e ∷ es) counts h = round6_mono _ _ (sum_costs-le m (e ∷ es) h)

-- The cost of a response never falls when the models that served it, the fallback iterations'
-- included, are renamed to one that the price table does not list: an unknown model is priced
-- at or above every listed model, token category by token category.
pub cost_usd-le-unlisted :
    (m served : String) (usage : LlmUsage)
    → IsUnlisted m
    → cost_usd usage served ≤ cost_usd (relabelled m usage) m
unfolding cost_usd
cost_usd-le-unlisted m served usage h =
    rw (priced_iterations-relabelled m usage usage.iterations refl)
      (cost_from-le m served (priced_iterations usage) usage.counts h)
