-- ===== src/Gateway/Events/Tests.antt =====
-- A concrete stream for apps/gateway/src/sse.ts: two polls, the second of which reads the first message
-- again, in its lookback, and a message that was committed late.
use albusforge.Prelude.{
  ◌≡◌, refl, ℕ, String, Bool, ◌==◌, List, [], ◌∷◌, none, some, false, arith, if◌then◌else◌, trim,
}
use albusforge.Tables.{BuildStatus, MessageRole, Build, BuildMessage, Tables}
use albusforge.Gateway.ChatStore.{
  Owner, messages_since, read_event_batch, build_state, owned_build, owned_by, held_messages,
  latest_spec, is_before,
}
use albusforge.Gateway.ChatStore.Cursors.{
  compare_cursors, cursor_text, digit_char, digits_onto, has_shape, is_digit, is_lower_hex,
  is_lower_uuid, parse_cursor, parse_from, same_uuid,
}
use albusforge.Prelude.Sort.{sort_by, insert_sorted}
use albusforge.Prelude.Assoc.{lookup, insert}
use albusforge.Gateway.Events.{
  Event, connect, poll, polls, tell_state, send, tell_rows, tell_row, tell_message, position_of,
  forget, poll_batch, has_sent, is_ahead,
}
use albusforge.Gateway.Events.Once.{ids, IsDistinct, IsStored}
use albusforge.Gateway.Events.Runs.{polls-IsDistinct}
use albusforge.Gateway.Events.Delivery.{Delivers, polls-Delivers}

abbrev cookie : Owner
cookie = record { tenant_id = none; anon_hash = some "9f3c" }

abbrev a_build : Build
a_build = record {
  id = "b";
  tenant_id = none;
  anon_owner_hash = some "9f3c";
  status = BuildStatus.asking;
  ask_text = "a thermometer";
  created_at = 5000000;
  updated_at = 5000000;
}

abbrev message : String → ℕ → BuildMessage
message id at = record {
  id = id;
  build_id = "b";
  role = MessageRole.user;
  text = "a thermometer";
  client_message_id = none;
  created_at = at;
}

abbrev first_id : String
first_id = "0190f1c2-8e5a-7b3c-9d4e-5f60718293a4"

abbrev late_id : String
late_id = "0190f1c2-8e5a-7b3c-9d4e-5f60718293a3"

abbrev stamp : String → ℕ
stamp id = if id == first_id then 7000000 else 6000000

abbrev before : Tables String
before = record {
  builds = a_build ∷ [];
  build_messages = message first_id 7000000 ∷ [];
  specs = [];
}

abbrev after : Tables String
after = record before { build_messages = message first_id 7000000 ∷ message late_id 6000000 ∷ [] }

abbrev reads_all : List Event → Bool
reads_all written = false

two_polls :
    ids
      (polls reads_all none 5000 "b"
        ((cookie, before) ∷ (cookie, after) ∷ [])
        (connect none)).written
    ≡ late_id ∷ first_id ∷ []
unfolding polls poll connect tell_state send tell_rows tell_row tell_message position_of forget
    poll_batch has_sent is_ahead read_event_batch build_state owned_build owned_by held_messages
    latest_spec is_before compare_cursors cursor_text digit_char digits_onto has_shape is_digit
    is_lower_hex is_lower_uuid parse_cursor parse_from messages_since sort_by insert_sorted lookup
    insert trim same_uuid
two_polls = refl

first_kept : IsStored stamp (message first_id 7000000)
unfolding is_lower_uuid has_shape is_lower_hex is_digit
first_kept = (refl, omega arith, refl)

late_kept : IsStored stamp (message late_id 6000000)
unfolding is_lower_uuid has_shape is_lower_hex is_digit
late_kept = (refl, omega arith, refl)

polls-IsDistinct_example : IsDistinct (
    ids
      (polls reads_all none 5000 "b"
        ((cookie, before) ∷ (cookie, after) ∷ [])
        (connect none)).written)
polls-IsDistinct_example =
    polls-IsDistinct reads_all none 5000 stamp "b" ((cookie, before) ∷ (cookie, after) ∷ [])
      ((first_kept, tt), (((first_kept, (late_kept, tt)), tt)))

polls-Delivers_example :
    Delivers reads_all none 5000
      (messages_since after "b" cookie
        (polls reads_all none 5000 "b" ((cookie, before) ∷ []) (connect none)).cursor
        5000)
      (poll reads_all none 5000 "b" cookie after
        (polls reads_all none 5000 "b" ((cookie, before) ∷ []) (connect none)))
polls-Delivers_example =
    polls-Delivers reads_all none 5000 stamp "b" ((cookie, before) ∷ []) cookie after
      ((first_kept, tt), tt) (first_kept, (late_kept, tt))
