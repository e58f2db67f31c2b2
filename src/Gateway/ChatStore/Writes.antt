-- ===== src/Gateway/ChatStore/Writes.antt =====
-- apps/gateway/src/chat-store.ts: `createBuild` and `submitUserMessage`, each one transaction under its
-- lock, so that they act on the tables one after another. The ids and the times that the database
-- gives out are arguments. `admit` refuses with a reason, which rolls back.
use albusforge.Prelude.{
  ℕ, ◌+◌, String, Bool, true, false, ◌&&◌, List, [], ◌∷◌, ◌++◌, Option, none, some, if◌then◌else◌,
  leb, ◌==◌, keep, any, find, max,
}
use albusforge.Tables.{BuildStatus, MessageRole, Build, BuildMessage, Tables}
use albusforge.Gateway.ChatStore.{
  Owner, is_value, is_null, owned_by, messages_of, last_message_of, owned_build,
}
use albusforge.Gateway.ChatStore.Cursors.{is_uuid}

pub data CreateBuildResult : Type 0 where
  created : Build → BuildMessage → CreateBuildResult
  replayed : Build → CreateBuildResult
  refused : String → CreateBuildResult

pub data SubmitMessageResult : Type 0 where
  created : BuildMessage → SubmitMessageResult
  replayed : BuildMessage → SubmitMessageResult
  pending : String → SubmitMessageResult
  not_found : SubmitMessageResult
  refused : String → SubmitMessageResult

abbrev pub is_user : MessageRole → Bool
is_user MessageRole.user = true
is_user MessageRole.assistant = false

-- A first message of the build, written under the client's id.
unfoldable pub opens : String → Build → BuildMessage → Bool
opens client_id b m =
    m.build_id == b.id
    && is_value m.client_message_id client_id
    && is_user m.role
    && m.text == b.ask_text

abbrev pub older : Build → Option Build → Option Build
older b none = some b
older b (some c) = if leb b.created_at c.created_at then some b else some c

-- `ORDER BY created_at LIMIT 1`
unfoldable pub oldest : List Build → Option Build
oldest [] = none
oldest (b ∷ bs) = older b (oldest bs)

pub record CreateBuild : Type 0 where
  pub owner : Owner
  pub ask_text : String
  pub client_message_id : Option String
  pub admit : (is_new_owner : Bool) → Option String

-- What the database gives out in one transaction: the ids of its rows, `now()`, which is when the
-- transaction began, and `clock_timestamp()`.
pub record Given : Type 0 where
  pub build_id : String
  pub message_id : String
  pub now : ℕ
  pub clock : ℕ

pub record SubmitMessage : Type 0 where
  pub build_id : String
  pub owner : Owner
  pub text : String
  pub client_message_id : String
  pub pending_within_s : ℕ
  pub admit : Option String

abbrev owner_or_none : Option String → Option String → Option String
owner_or_none none hash = hash
owner_or_none (some tenant) hash = none

-- No build carries the hash; a tenant is never new.
abbrev pub is_new : Option String → Option String → List Build → Bool
is_new (some tenant) hash builds = false
is_new none none builds = true
is_new none (some hash) builds =
    elim (any (λ (b : Build). is_value b.anon_owner_hash hash) builds) [
      | true ↦ false
      | false ↦ true
    ]

abbrev pub new_build : CreateBuild → Given → Build
new_build input given = record {
  id = given.build_id;
  tenant_id = input.owner.tenant_id;
  anon_owner_hash = owner_or_none input.owner.tenant_id input.owner.anon_hash;
  status = BuildStatus.asking;
  ask_text = input.ask_text;
  created_at = given.now;
  updated_at = given.now;
}

abbrev pub first_message : CreateBuild → Given → BuildMessage
first_message input given = record {
  id = given.message_id;
  build_id = given.build_id;
  role = MessageRole.user;
  text = input.ask_text;
  client_message_id = input.client_message_id;
  created_at = given.now;
}

abbrev pub max_created : List BuildMessage → Option ℕ
max_created [] = none
max_created (m ∷ ms) = elim (max_created ms) [
  | none ↦ some m.created_at
  | some t ↦ some (max m.created_at t)
]

-- `greatest(clock_timestamp(), max(created_at) + 2 microseconds)`, which passes over a null.
unfoldable pub submitted_at : (clock : ℕ) → List BuildMessage → ℕ
submitted_at clock messages = elim (max_created messages) [
  | none ↦ clock
  | some t ↦ max clock (t + 2)
]

unfoldable pub replay_in : String → List BuildMessage → Option BuildMessage
replay_in client_id messages =
    find (λ (m : BuildMessage). is_value m.client_message_id client_id) messages

-- The newest message, if it is the user's and recent.
abbrev pub waiting : Option (BuildMessage × Bool) → Option String
waiting none = none
waiting (some (m, recent)) = if is_user m.role && recent then some m.id else none

module _ {J : Type 0} where
  unfoldable pub find_build_by_first_message : Tables J → Owner → String → Option Build
  find_build_by_first_message db owner client_id = oldest (
      keep (λ (b : Build). owned_by owner b && any (opens client_id b) db.build_messages) db.builds)

  abbrev pub replay_of : Tables J → Owner → Option String → Option Build
  replay_of db owner none = none
  replay_of db owner (some client_id) = find_build_by_first_message db owner client_id

  -- The inserts, which the table's check refuses to an owner of neither kind.
  unfoldable pub insert_build : CreateBuild → Given → Tables J → CreateBuildResult × Tables J
  insert_build input given db =
      if is_null input.owner.tenant_id && is_null input.owner.anon_hash
      then (CreateBuildResult.refused "builds_owner_check", db)
      else (
        CreateBuildResult.created (new_build input given) (first_message input given),
        record db {
          builds = db.builds ++ new_build input given ∷ [];
          build_messages = db.build_messages ++ first_message input given ∷ [];
        },
      )

  unfoldable pub create_build : CreateBuild → Given → Tables J → CreateBuildResult × Tables J
  create_build input given db = elim (replay_of db input.owner input.client_message_id) [
    | some b ↦ (CreateBuildResult.replayed b, db)
    | none ↦ elim (input.admit (is_new input.owner.tenant_id input.owner.anon_hash db.builds)) [
      | some reason ↦ (CreateBuildResult.refused reason, db)
      | none ↦ insert_build input given db
    ]
  ]

  abbrev pub submitted : SubmitMessage → Given → Tables J → BuildMessage
  submitted input given db = record {
    id = given.message_id;
    build_id = input.build_id;
    role = MessageRole.user;
    text = input.text;
    client_message_id = some input.client_message_id;
    created_at = submitted_at given.clock (messages_of input.build_id db);
  }

  -- Past the replay.
  unfoldable pub admit_message : SubmitMessage → Given → Tables J → SubmitMessageResult × Tables J
  admit_message input given db =
      elim (waiting (last_message_of db input.build_id input.pending_within_s given.now)) [
        | some id ↦ (SubmitMessageResult.pending id, db)
        | none ↦ elim input.admit [
          | some reason ↦ (SubmitMessageResult.refused reason, db)
          | none ↦ (
            SubmitMessageResult.created (submitted input given db),
            record db { build_messages = db.build_messages ++ submitted input given db ∷ [] },
          )
        ]
      ]

  -- Past the lock on the build's row.
  unfoldable pub submit_to_owned : SubmitMessage → Given → Tables J → SubmitMessageResult × Tables J
  submit_to_owned input given db =
      elim (replay_in input.client_message_id (messages_of input.build_id db)) [
        | some m ↦ (SubmitMessageResult.replayed m, db)
        | none ↦ admit_message input given db
      ]

  unfoldable pub submit_user_message :
      SubmitMessage → Given → Tables J → SubmitMessageResult × Tables J
  submit_user_message input given db =
      if is_uuid input.build_id
      then elim (owned_build db input.build_id input.owner) [
        | none ↦ (SubmitMessageResult.not_found, db)
        | some b ↦ submit_to_owned input given db
      ]
      else (SubmitMessageResult.not_found, db)
