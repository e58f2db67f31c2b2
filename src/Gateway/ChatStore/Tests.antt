-- ===== src/Gateway/ChatStore/Tests.antt =====
-- A concrete conversation for apps/gateway/src/chat-store.ts: a build is created, its message is
-- submitted twice, and a tenant's build is asked for by its first, anonymous owner.
use albusforge.Prelude.{◌≡◌, refl, String, [], ◌∷◌, none, some, arith}
use albusforge.Tables.{Tables}
use albusforge.Gateway.ChatStore.{Owner, owned_build, owned_by, last_message_of, newest}
use albusforge.Gateway.ChatStore.Writes.{
  CreateBuildResult, CreateBuild, SubmitMessageResult, SubmitMessage, Given, new_build,
  first_message, submitted, create_build, submit_user_message, find_build_by_first_message, oldest,
  insert_build, submit_to_owned, replay_in, admit_message,
}
use albusforge.Gateway.ChatStore.Ownership.{SeesNothing, claimed-SeesNothing}
use albusforge.Gateway.ChatStore.Replays.{
  Leaves, submit_user_message-Leaves, submit_user_message-twice,
}
use albusforge.Gateway.ChatStore.Creation.{create_build-twice}
use albusforge.Gateway.ChatStore.Cursors.{is_uuid, has_shape, is_hex, same_uuid}

abbrev cookie : Owner
cookie = record { tenant_id = none; anon_hash = some "9f3c" }

abbrev empty : Tables String
empty = record { builds = []; build_messages = []; specs = [] }

abbrev thermometer : CreateBuild
thermometer = record {
  owner = cookie;
  ask_text = "a thermometer";
  client_message_id = some "c1";
  admit = λ new. none;
}

abbrev first_ids : Given
first_ids = record {
  build_id = "0190f1c2-8e5a-7b3c-9d4e-5f60718293a4";
  message_id = "0190f1c2-8e5a-7b3c-9d4e-5f60718293a5";
  now = 5000000;
  clock = 5000100;
}

abbrev created_db : Tables String
created_db = record {
  builds = new_build thermometer first_ids ∷ [];
  build_messages = first_message thermometer first_ids ∷ [];
  specs = [];
}

create_build_run : create_build thermometer first_ids empty ≡ (
  CreateBuildResult.created (new_build thermometer first_ids) (first_message thermometer first_ids),
  created_db,
)
unfolding create_build find_build_by_first_message oldest insert_build
create_build_run = refl

create_build-twice_example :
    create_build (record thermometer { ask_text = "a barometer" }) first_ids created_db
    ≡ (CreateBuildResult.replayed (new_build thermometer first_ids), created_db)
create_build-twice_example =
    create_build-twice thermometer (record thermometer { ask_text = "a barometer" }) first_ids
      first_ids empty created_db "c1" (new_build thermometer first_ids)
      (first_message thermometer first_ids) refl refl refl tt create_build_run

-- The clock was set back, and the first message has waited long enough.
abbrev outdoors : SubmitMessage
outdoors = record {
  build_id = "0190f1c2-8e5a-7b3c-9d4e-5f60718293a4";
  owner = cookie;
  text = "outdoors";
  client_message_id = "c2";
  pending_within_s = 0;
  admit = none;
}

abbrev later_ids : Given
later_ids = record first_ids {
  message_id = "0190f1c2-8e5a-7b3c-9d4e-5f60718293a6";
  now = 5000000;
  clock = 4000000;
}

abbrev answered_db : Tables String
answered_db = record created_db {
  build_messages =
      first_message thermometer first_ids ∷ submitted outdoors later_ids created_db ∷ [];
}

submit_user_message_run :
    submit_user_message outdoors later_ids created_db
    ≡ (SubmitMessageResult.created (submitted outdoors later_ids created_db), answered_db)
unfolding submit_user_message is_uuid has_shape is_hex owned_build owned_by submit_to_owned
    replay_in admit_message last_message_of newest same_uuid
submit_user_message_run = refl

submit_user_message-Leaves_example :
    Leaves outdoors later_ids created_db (submit_user_message outdoors later_ids created_db)
submit_user_message-Leaves_example = submit_user_message-Leaves outdoors later_ids created_db

submit_user_message-twice_example :
    submit_user_message (record outdoors { admit = some "quota" }) first_ids answered_db
    ≡ (SubmitMessageResult.replayed (submitted outdoors later_ids created_db), answered_db)
submit_user_message-twice_example =
    submit_user_message-twice outdoors (record outdoors { admit = some "quota" }) later_ids
      first_ids created_db answered_db (submitted outdoors later_ids created_db) refl refl refl
      submit_user_message_run

abbrev claimed_db : Tables String
claimed_db = record created_db {
  builds = record (new_build thermometer first_ids) { tenant_id = some "acme" } ∷ [];
}

claimed-SeesNothing_example : SeesNothing claimed_db "0190f1c2-8e5a-7b3c-9d4e-5f60718293a4" cookie
claimed-SeesNothing_example =
    claimed-SeesNothing claimed_db "0190f1c2-8e5a-7b3c-9d4e-5f60718293a4" "acme" cookie
      ((λ e. refl), tt) (λ e. ground (arith, e))
