-- ===== src/Intake/Turn/Tests.antt =====
-- A concrete turn for apps/intake/src/turn.ts: a message that is off topic, the second in a row.
use albusforge.Prelude.{◌≡◌, refl, ℕ, [], ◌∷◌, ◌++◌, ◌≢◌, List, map, All, none, some, true, false}
use albusforge.Tables.{MessageRole}
use albusforge.Llm.Types.{Effort, Role, LlmMessage}
use albusforge.Llm.Call.{ok}
use albusforge.Intake.Spec.{ReplyKind, SpecTurn}
use albusforge.Intake.Replies.{off_topic_reply}
use albusforge.Intake.Turn.{
  TranscriptMessage, TurnInput, Reason, TurnOutcome, Context, last, run_turn, on_scope, ask_model,
  render_turn_context, on_call, on_result, on_kind, was_off_topic, previous_reply, model_messages,
  message_of,
}
use albusforge.Intake.Turn.Conversation.{IsSplit, model_messages-IsSplit}

abbrev joke : SpecTurn
joke = record {
  reply_kind = ReplyKind.off_topic;
  spec_patch = record {
    capabilities = none;
    sense = none;
    act = none;
    environment = none;
    connect = none;
    power = none;
    experience = none;
    assumptions = none;
  };
  candidate_questions = [];
  assumptions = [];
  reply = "Ha.";
}

abbrev stray : Context
stray = record {
  World = ℕ;
  effort = Effort.low;
  extract_prompt = "Extract.";
  turn_prompt = "{{round_rule}}";
  screen = λ text. none;
  render = λ template values. some template;
  show = λ n. "4";
  spec_json = λ spec. "null";
  codec = record { parse = λ spec. some spec; stringify = λ spec. "" };
  catalogue = λ w. (
    some (record { text = ""; vocabulary = record { capabilities = []; environment_flags = [] } }),
    w,
  );
  call = λ route messages w. (some (ok joke 1), w);
}

abbrev two_jokes : TurnInput
two_jokes = record {
  transcript =
      record { role = MessageRole.user; text = "tell me a joke" }
      ∷ record { role = MessageRole.assistant; text = off_topic_reply false }
      ∷ record { role = MessageRole.user; text = "another" }
      ∷ [];
  previous = none;
  rounds_used = 0;
}

run_turn_run :
    run_turn stray two_jokes 0
    ≡ (some (TurnOutcome.reply Reason.off_topic (off_topic_reply true)), 0)
unfolding run_turn last on_scope ask_model render_turn_context on_call on_result on_kind
    was_off_topic previous_reply off_topic_reply
run_turn_run = refl

ends_with_user :
    last two_jokes.transcript ≡ some (record { role = MessageRole.user; text = "another" })
unfolding last
ends_with_user = refl

model_messages-IsSplit_example :
    (kept : List TranscriptMessage) × IsSplit two_jokes.transcript kept
    × (model_messages two_jokes.transcript "No rounds are left."
        ≡ map message_of kept
          ++ record { role = Role.system; content = "No rounds are left." } ∷ [])
    × All (λ (m : LlmMessage). m.role ≢ Role.system) (map message_of kept)
model_messages-IsSplit_example =
    model_messages-IsSplit two_jokes.transcript "No rounds are left."
      (record { role = MessageRole.user; text = "another" }) ends_with_user refl
