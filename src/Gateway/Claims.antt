-- ===== src/Gateway/Claims.antt =====
-- apps/gateway/src/auth-store.ts, in `verifyCode`: a sign-in claims the anonymous builds of its cookie
-- and the calls that were stored for them, in one transaction.
pub mod Spend
mod Tests
use albusforge.Prelude.{ℕ, String, Bool, ◌&&◌, List, Option, none, some, if◌then◌else◌, ◌==◌, map}
use albusforge.Tables.{Build, LlmCall}
use albusforge.Gateway.ChatStore.{is_value, is_null}

-- The `where` of both updates.
unfoldable pub is_anonymous : String → (tenant_id anon_owner_hash : Option String) → Bool
is_anonymous hash tenant_id anon_owner_hash = is_value anon_owner_hash hash && is_null tenant_id

unfoldable pub claim_build : (hash tenant : String) → (now : ℕ) → Build → Build
claim_build hash tenant now b =
    if is_anonymous hash b.tenant_id b.anon_owner_hash
    then record b { tenant_id = some tenant; anon_owner_hash = none; updated_at = now }
    else b

unfoldable pub claim_call : (hash tenant : String) → LlmCall → LlmCall
claim_call hash tenant call =
    if is_anonymous hash call.tenant_id call.anon_owner_hash
    then record call { tenant_id = some tenant; anon_owner_hash = none }
    else call

unfoldable pub claim :
    (hash tenant : String) → (now : ℕ) → List Build × List LlmCall → List Build × List LlmCall
claim hash tenant now (builds, calls) =
    (map (claim_build hash tenant now) builds, map (claim_call hash tenant) calls)
