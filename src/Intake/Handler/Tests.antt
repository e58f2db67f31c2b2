-- ===== src/Intake/Handler/Tests.antt =====
-- Concrete answers for apps/intake/src/handler.ts: a build whose one message is off topic, once alone and
-- once with a message that arrives during the turn.
use albusforge.Prelude.{◌≡◌, ◌<◌, refl, ℕ, String, [], ◌∷◌, ◌++◌, none, some, true, false, any, leb}
use albusforge.Tables.{BuildStatus, MessageRole, Build, BuildMessage, Tables}
use albusforge.Intake.Spec.{Spec, ReplyKind, SpecTurn}
use albusforge.Intake.Replies.{off_topic_reply}
use albusforge.Llm.Types.{Effort}
use albusforge.Llm.Call.{ok}
use albusforge.Intake.Turn.{
  Context, last, on_scope, ask_model, render_turn_context, on_call, on_result, on_kind,
  was_off_topic, previous_reply, run_turn,
}
use albusforge.Intake.Handler.{
  WriteEnd, Deps, Answered, Answer, answer_latest, answer_last, answer_target, answer_turn, finish,
  write, can_write, written, set_status, transcript_of, with_deadline, rounds_used, outcome_status,
  reply_text, published, is_retryable,
}
use albusforge.Intake.Handler.Once.{after_turn}
use albusforge.Intake.Handler.Unanswered.{answer_latest-twice, answer_latest-late}
use albusforge.Prelude.Sort.{sort_by, insert_sorted}
use albusforge.Gateway.ChatStore.{latest_spec, messages_of, is_before}
use albusforge.Gateway.ChatStore.Cursors.{same_uuid}

abbrev joke : SpecTurn
joke = record {
  reply_kind = ReplyKind.off_topic;
  spec_patch = record {
    capabilities = none;
    sense = none;
    act = none;
    environment = none;
    connect = none;
    power = none;
    experience = none;
    assumptions = none;
  };
  candidate_questions = [];
  assumptions = [];
  reply = "Ha.";
}

abbrev stray : Context
stray = record {
  World = ℕ;
  effort = Effort.low;
  extract_prompt = "Extract.";
  turn_prompt = "{{round_rule}}";
  screen = λ text. none;
  render = λ template values. some template;
  show = λ n. "4";
  spec_json = λ spec. "null";
  codec = record { parse = λ spec. some spec; stringify = λ spec. "" };
  catalogue = λ w. (
    some (record { text = ""; vocabulary = record { capabilities = []; environment_flags = [] } }),
    w,
  );
  call = λ route messages w. (some (ok joke 1), w);
}

abbrev alone : Deps ℕ
alone = record {
  now = λ w. 9000000;
  readable = λ w. true;
  meanwhile = λ w db. db;
  expired = λ w. false;
  closed_clean = λ w. true;
  write_end = λ w. WriteEnd.in_time;
  new_id = λ w. "reply";
}

abbrev message : String → MessageRole → String → ℕ → BuildMessage
message id role text at = record {
  id = id;
  build_id = "b";
  role = role;
  text = text;
  client_message_id = none;
  created_at = at;
}

abbrev build : BuildStatus → ℕ → Build
build status at = record {
  id = "b";
  tenant_id = none;
  anon_owner_hash = some "9f3c";
  status = status;
  ask_text = "tell me a joke";
  created_at = 5000000;
  updated_at = at;
}

abbrev asked : Tables Spec
asked = record {
  builds = build BuildStatus.asking 5000000 ∷ [];
  build_messages = message "m" MessageRole.user "tell me a joke" 5000000 ∷ [];
  specs = [];
}

abbrev replied : Tables Spec
replied = record {
  builds = build BuildStatus.asking 9000000 ∷ [];
  build_messages =
      message "m" MessageRole.user "tell me a joke" 5000000
      ∷ message "reply" MessageRole.assistant (off_topic_reply false) 5000001
      ∷ [];
  specs = [];
}

abbrev an_answer : Answered
an_answer = record { message_id = "reply"; spec_version = none; status = BuildStatus.asking }

answer_latest_run :
    answer_latest stray alone "b" true (asked, 0) ≡ (Answer.answered an_answer, (replied, 0))
unfolding answer_latest answer_last answer_target answer_turn finish write can_write written
    set_status transcript_of with_deadline rounds_used outcome_status reply_text published last
    on_scope ask_model render_turn_context on_call on_result on_kind was_off_topic previous_reply
    run_turn sort_by insert_sorted latest_spec is_retryable same_uuid
answer_latest_run = refl

nobody_else : messages_of "b" (after_turn stray alone "b" true (asked, 0)) ≡ messages_of "b" asked
unfolding set_status
nobody_else = refl

answer_latest-twice_example :
    answer_latest stray alone "b" true (replied, 7) ≡ (Answer.nothing, (replied, 7))
answer_latest-twice_example =
    answer_latest-twice stray alone "b" true (asked, 0) (replied, 0) an_answer 7 nobody_else
      answer_latest_run refl

-- Another message comes during the turn.
abbrev crowded : Deps ℕ
crowded = record alone {
  meanwhile = λ w db. record db {
    build_messages = db.build_messages ++ message "m2" MessageRole.user "sorry" 5000002 ∷ [];
  };
}

abbrev waiting : Tables Spec
waiting = record replied {
  build_messages =
      message "m" MessageRole.user "tell me a joke" 5000000
      ∷ message "m2" MessageRole.user "sorry" 5000002
      ∷ message "reply" MessageRole.assistant (off_topic_reply false) 5000001
      ∷ [];
}

crowded_run :
    answer_latest stray crowded "b" true (asked, 0) ≡ (Answer.answered an_answer, (waiting, 0))
unfolding answer_latest answer_last answer_target answer_turn finish write can_write written
    set_status transcript_of with_deadline rounds_used outcome_status reply_text published last
    on_scope ask_model render_turn_context on_call on_result on_kind was_off_topic previous_reply
    run_turn sort_by insert_sorted latest_spec is_retryable same_uuid
crowded_run = refl

first_last :
    last (transcript_of "b" asked) ≡ some (message "m" MessageRole.user "tell me a joke" 5000000)
unfolding last transcript_of sort_by insert_sorted same_uuid
first_last = refl

second_last :
    last (transcript_of "b" waiting) ≡ some (message "m2" MessageRole.user "sorry" 5000002)
unfolding last transcript_of sort_by insert_sorted is_before same_uuid
second_last = refl

one_late :
    any
      (λ (m : BuildMessage). leb 5000002 m.created_at)
      (messages_of "b" (after_turn stray crowded "b" true (asked, 0)))
    ≡ true
unfolding set_status same_uuid
one_late = refl

answer_latest-late_example :
    (reply : BuildMessage) × (messages_of "b" waiting
      ≡ messages_of "b" (after_turn stray crowded "b" true (asked, 0)) ++ reply ∷ [])
    × (reply.id ≡ "reply")
    × (reply.role ≡ MessageRole.assistant)
    × (reply.created_at < 5000002)
answer_latest-late_example =
    answer_latest-late stray crowded "b" true (asked, 0) (waiting, 0) an_answer
      (message "m" MessageRole.user "tell me a joke" 5000000)
      (message "m2" MessageRole.user "sorry" 5000002) first_last one_late crowded_run second_last
