-- ===== src/Llm/Meter.antt =====
-- packages/llm/src/meter.ts: the record of a metered call, and the row that is inserted for it. The
-- record's cost is that of Llm.Pricing; its log line and the hash of the prompt's prefix are left out.
use albusforge.Prelude.{String, List, [], ◌∷◌, ◌++◌, Option, none, some, ◌==◌, find}
use albusforge.Tables.{Build, LlmCall}
use albusforge.Llm.Pricing.{LlmUsage, or_zero, cost_usd}

pub record CallAttribution : Type 0 where
  pub build_id : Option String
  pub tenant_id : Option String
  pub anon_owner_hash : Option String

-- What the meter reads of a response.
pub record MeteredResponse : Type 0 where
  pub model : String
  pub usage : LlmUsage
  pub stop_reason : Option String

unfoldable pub to_record : (stage : String) → MeteredResponse → CallAttribution → LlmCall
to_record stage response attribution = record {
  stage = stage;
  model = response.model;
  cost_usd = cost_usd response.usage response.model;
  input_tokens = response.usage.counts.input_tokens;
  output_tokens = response.usage.counts.output_tokens;
  cache_read_input_tokens = or_zero response.usage.counts.cache_read_input_tokens;
  cache_creation_input_tokens = or_zero response.usage.counts.cache_creation_input_tokens;
  stop_reason = response.stop_reason;
  build_id = attribution.build_id;
  tenant_id = attribution.tenant_id;
  anon_owner_hash = attribution.anon_owner_hash;
}

abbrev owned_as : Option Build → LlmCall → LlmCall
owned_as none call = call
owned_as (some b) call = record call {
  tenant_id = b.tenant_id;
  anon_owner_hash = b.anon_owner_hash;
}

-- The owner is read again under the lock of the build's row.
unfoldable pub with_owner : List Build → LlmCall → LlmCall
with_owner builds call = elim call.build_id [
  | none ↦ call
  | some id ↦ owned_as (find (λ (b : Build). b.id == id) builds) call
]

-- `llmCallsInserter`
unfoldable pub insert_call : LlmCall → List Build → List LlmCall → List LlmCall
insert_call call builds calls = calls ++ with_owner builds call ∷ []
