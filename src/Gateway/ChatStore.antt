-- ===== src/Gateway/ChatStore.antt =====
-- apps/gateway/src/chat-store.ts: what the store reads. A query is a function of the tables; `now` is
-- the database's clock. The order of ids is that of their characters, as for lower-case uuids it is.
pub mod Cursors
pub mod Writes
pub mod Ownership
pub mod Replays
pub mod Creation
mod Tests
use Prim.Native.String
use albusforge.Prelude.{
  ℕ, ◌+◌, ◌*◌, String, Bool, true, false, not, ◌&&◌, ◌||◌, List, [], ◌∷◌, Option, none, some,
  Ordering, compare, if◌then◌else◌, leb, ltb, ◌==◌, keep, any, find, ◌+++◌, max,
}
use albusforge.Prelude.Sort.{sort_by}
use albusforge.Tables.{BuildStatus, MessageRole, Build, BuildMessage, SpecVersion, Tables}
use albusforge.Gateway.ChatStore.Cursors.{Cursor, is_uuid, same_uuid}

pub record Owner : Type 0 where
  pub tenant_id : Option String
  pub anon_hash : Option String

-- `anonHash ?? ""`
abbrev or_empty : Option String → String
or_empty none = ""
or_empty (some s) = s

pub owner_key : Owner → String
owner_key owner = elim owner.tenant_id [
  | some tenant ↦ "tenant:" +++ tenant
  | none ↦ "anon:" +++ or_empty owner.anon_hash
]

-- `column = value` in SQL: false for a null column.
abbrev pub is_value : Option String → String → Bool
is_value none value = false
is_value (some s) value = s == value

abbrev pub is_null : Option String → Bool
is_null none = true
is_null (some s) = false

abbrev by_tenant : Option String → Build → Bool
by_tenant none b = false
by_tenant (some tenant) b = is_value b.tenant_id tenant

abbrev by_hash : Option String → Build → Bool
by_hash none b = false
by_hash (some hash) b = is_value b.anon_owner_hash hash && is_null b.tenant_id

unfoldable pub owned_by : Owner → Build → Bool
owned_by owner b = by_tenant owner.tenant_id b || by_hash owner.anon_hash b

-- `(created_at, id)` order, ascending.
unfoldable pub is_before : BuildMessage → BuildMessage → Bool
is_before m n = elim (compare m.created_at n.created_at) [
  | Ordering.lt ↦ true
  | Ordering.gt ↦ false
  | Ordering.eq ↦ elim (String.compare m.id n.id) [ Ordering.gt ↦ false | _ ↦ true ]
]

abbrev later : BuildMessage → Option BuildMessage → Option BuildMessage
later m none = some m
later m (some n) = if is_before m n then some n else some m

-- `ORDER BY created_at DESC, id DESC LIMIT 1`
unfoldable pub newest : List BuildMessage → Option BuildMessage
newest [] = none
newest (m ∷ ms) = later m (newest ms)

pub record BuildState : Type 0 where
  pub status : BuildStatus
  pub spec_version : Option ℕ

pub record EventBatch : Type 0 where
  pub state : BuildState
  pub messages : List BuildMessage

-- `ORDER BY updated_at DESC, id DESC`
abbrev is_fresher : Build → Build → Bool
is_fresher b c = elim (compare b.updated_at c.updated_at) [
  | Ordering.gt ↦ true
  | Ordering.lt ↦ false
  | Ordering.eq ↦ elim (String.compare b.id c.id) [ Ordering.lt ↦ false | _ ↦ true ]
]

-- `created_at > after - lookback`, without the rounding of the source's floating point.
abbrev pub is_since : Option Cursor → (lookback_ms : ℕ) → BuildMessage → Bool
is_since none lookback_ms m = true
is_since (some after) lookback_ms m = ltb after.micros (m.created_at + lookback_ms * 1000)

module _ {J : Type 0} where
  abbrev pub messages_of : String → Tables J → List BuildMessage
  messages_of build_id db =
      keep (λ (m : BuildMessage). same_uuid m.build_id build_id) db.build_messages

  -- The newest message, and whether it is less than `within_s` seconds old.
  unfoldable pub last_message_of :
      Tables J → String → (within_s now : ℕ) → Option (BuildMessage × Bool)
  last_message_of db build_id within_s now = elim (newest (messages_of build_id db)) [
    | none ↦ none
    | some m ↦ some (m, ltb now (m.created_at + within_s * 1000000))
  ]

  -- The build with this id, if the owner holds it.
  unfoldable pub owned_build : Tables J → String → Owner → Option Build
  owned_build db id owner = find (λ (b : Build). same_uuid b.id id && owned_by owner b) db.builds

  unfoldable pub find_owned_build : Tables J → String → Owner → Option Build
  find_owned_build db id owner = if is_uuid id then owned_build db id owner else none

  unfoldable pub list_builds : Tables J → (tenant_id : String) → List Build
  list_builds db tenant =
      sort_by is_fresher (keep (λ (b : Build). is_value b.tenant_id tenant) db.builds)

  abbrev higher : SpecVersion J → Option (SpecVersion J) → Option (SpecVersion J)
  higher v none = some v
  higher v (some w) = if ltb v.version w.version then some w else some v

  abbrev pub highest : List (SpecVersion J) → Option (SpecVersion J)
  highest [] = none
  highest (v ∷ vs) = higher v (highest vs)

  abbrev pub specs_of : String → Tables J → List (SpecVersion J)
  specs_of build_id db = keep (λ (v : SpecVersion J). same_uuid v.build_id build_id) db.specs

  unfoldable pub latest_spec : Tables J → String → Option (SpecVersion J)
  latest_spec db build_id = highest (specs_of build_id db)

  abbrev version_of : Option (SpecVersion J) → Option ℕ
  version_of none = none
  version_of (some v) = some v.version

  -- `max(version)` is the version of the latest spec.
  -- The id of this query and of those below is one that `findOwnedBuild` has found, so a uuid: Postgres
  -- throws for anything else.
  unfoldable pub build_state : Tables J → String → Owner → Option BuildState
  build_state db id owner = elim (owned_build db id owner) [
    | none ↦ none
    | some b ↦ some (record { status = b.status; spec_version = version_of (latest_spec db b.id) })
  ]

  -- The inner join on the build that the owner holds.
  unfoldable pub held_messages : Tables J → String → Owner → List BuildMessage
  held_messages db build_id owner = elim (owned_build db build_id owner) [
    | none ↦ []
    | some b ↦ messages_of build_id db
  ]

  unfoldable pub list_messages : Tables J → String → Owner → List BuildMessage
  list_messages db build_id owner = sort_by is_before (held_messages db build_id owner)

  unfoldable pub messages_since :
      Tables J → String → Owner → Option Cursor → (lookback_ms : ℕ) → List BuildMessage
  messages_since db build_id owner after lookback_ms =
      sort_by is_before (keep (is_since after lookback_ms) (held_messages db build_id owner))

  -- Of the state and the messages that one snapshot holds; `tenant_id` is that of the session's
  -- token, which `sessionTenantIn` looks up in the same snapshot.
  unfoldable pub read_event_batch :
      Tables J → String → Owner → Option Cursor → (lookback_ms : ℕ) → Option EventBatch
  read_event_batch db build_id owner after lookback_ms =
      if is_null owner.tenant_id && is_null owner.anon_hash
      then none
      else elim (build_state db build_id owner) [
        | none ↦ none
        | some state ↦ some (record {
          state = state;
          messages = messages_since db build_id owner after lookback_ms;
        })
      ]
