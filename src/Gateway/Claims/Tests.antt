-- ===== src/Gateway/Claims/Tests.antt =====
-- Tests of the claim in apps/gateway/src/auth-store.ts, and a witness.
use albusforge.Prelude.{◌≡◌, refl, String, Option, List, [], ◌∷◌, none, some, map}
use albusforge.Tables.{Build, LlmCall, asking}
use albusforge.Llm.Meter.{MeteredResponse, CallAttribution, to_record, with_owner, insert_call}
use albusforge.Gateway.Claims.{is_anonymous, claim_build, claim_call, claim}
use albusforge.Gateway.Claims.Spend.{
  Transaction, claims, meters, commits, IsAttributed, commits-IsAttributed,
}

abbrev lamp : Build
lamp = record {
  id = "lamp";
  tenant_id = none;
  anon_owner_hash = some "cookie";
  status = asking;
  ask_text = "a lamp";
  created_at = 1;
  updated_at = 1;
}

abbrev answer : MeteredResponse
answer = record {
  model = "claude-sonnet-5";
  usage = record {
    counts = record {
      input_tokens = 1000;
      output_tokens = 200;
      cache_read_input_tokens = none;
      cache_creation_input_tokens = none;
      cache_creation = none;
    };
    iterations = none;
  };
  stop_reason = some "end_turn";
}

-- Taken while the build was anonymous.
abbrev before_sign_in : CallAttribution
before_sign_in = record {
  build_id = some "lamp";
  tenant_id = none;
  anon_owner_hash = some "cookie";
}

-- The sign-in commits between the two inserts of calls that were both attributed before it.
abbrev sign_in : List Transaction
sign_in =
    meters "intake" answer before_sign_in
    ∷ claims "cookie" "acme" 7
    ∷ meters "intake" answer before_sign_in
    ∷ []

abbrev tenants : List Build × List LlmCall → List (Option String)
tenants (builds, calls) = map (λ (call : LlmCall). call.tenant_id) calls

sign_in-tenants : tenants (commits sign_in (lamp ∷ [], [])) ≡ some "acme" ∷ some "acme" ∷ []
unfolding insert_call to_record with_owner claim claim_build claim_call is_anonymous
sign_in-tenants = refl

commits-IsAttributed_example : IsAttributed (commits sign_in (lamp ∷ [], []))
commits-IsAttributed_example = commits-IsAttributed sign_in (lamp ∷ [], []) tt
