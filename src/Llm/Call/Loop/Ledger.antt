-- ===== src/Llm/Call/Loop/Ledger.antt =====
-- packages/llm/src/call.ts: the loop in a world that records everything done to it, and what that record
-- says of a round and of a result.
use albusforge.Prelude.{
  ℕ, suc, ◌+◌, ◌-◌, ◌≤◌, ◌<◌, ◌≡◌, String, Bool, true, false, List, [], ◌∷◌, Option, none, some,
  length, ◌⊎◌,
}
use albusforge.Llm.Types.{LlmRequest, StopReason, LlmResponse}
use albusforge.Llm.Call.{
  CallFailure, CallDiagnostic, CallResult, ok, fail, response_text, valid, invalid, Thrown,
  is_abort, provider_diagnostic, Answer, answered, threw, Env, Options, CallState, Next, again,
  done, reject,
}
use albusforge.Llm.Call.Loop.{validate}

pub data Effect : Type 0 where
  sent : LlmRequest → Answer → Effect
  recorded : LlmResponse → Effect
  waited : ℕ → Effect
  read : Option ℕ → Effect

-- The same world with a record of the requests, the meter's calls, the waits and the reads of the
-- ceiling, newest first.
abbrev pub logged : {T : Type 0} → Env T → Env T
logged env = record {
  World = env.World × List Effect;
  Json = env.Json;
  json_parse = env.json_parse;
  safe_parse = env.safe_parse;
  is_aborted = λ s. env.is_aborted s.0;
  tokens_used = λ s. let (n, w) = env.tokens_used s.0 in (n, (w, read n ∷ s.1));
  create = λ r s. let (a, w) = env.create r s.0 in (a, (w, sent r a ∷ s.1));
  meter = λ r s. let (stored, w) = env.meter r s.0 in (stored, (w, recorded r ∷ s.1));
  on_meter_error = λ s. (env.on_meter_error s.0, s.1);
  pause = λ ms s. (env.pause ms s.0, waited ms ∷ s.1);
}

-- The responses that came back, and those that were metered, newest first.
abbrev pub answers : List Effect → List LlmResponse
answers [] = []
answers (sent req (answered response) ∷ l) = response ∷ answers l
answers (_ ∷ l) = answers l

abbrev pub meterings : List Effect → List LlmResponse
meterings [] = []
meterings (recorded response ∷ l) = response ∷ meterings l
meterings (_ ∷ l) = meterings l

abbrev pub requests : List Effect → ℕ
requests [] = 0
requests (sent req a ∷ l) = suc (requests l)
requests (_ ∷ l) = requests l

abbrev pub waits : List Effect → ℕ
waits [] = 0
waits (waited ms ∷ l) = suc (waits l)
waits (_ ∷ l) = waits l

abbrev pub calls_of : {T : Type 0} → CallResult T → ℕ
calls_of (ok v calls) = calls
calls_of (fail failure calls diagnostic) = calls

abbrev pub bit : Bool → ℕ
bit true = 1
bit false = 0

-- Between rounds: the counters tell the record, and two retries are all there are.
pub record IsCounted (s : CallState) (l : List Effect) : Type 0 where
  pub each_metered : meterings l ≡ answers l
  pub called : length (answers l) ≡ s.calls
  pub sends : requests l ≡ s.attempts
  pub spent : s.attempts ≡ s.calls + s.reconnects
  pub few_reconnects : s.reconnects ≤ 3
  pub paused : waits l ≡ s.reconnects
  pub retries : s.calls ≡ bit s.truncation_retried + bit s.repaired

-- After a response was metered: one call more than the retries account for.
pub record IsAnswered (s : CallState) (response : LlmResponse) (l : List Effect) : Type 0 where
  pub newest : (older : List LlmResponse) × (answers l ≡ response ∷ older)
  pub each_metered : meterings l ≡ answers l
  pub called : length (answers l) ≡ s.calls
  pub sends : requests l ≡ s.attempts
  pub spent : s.attempts ≡ s.calls + s.reconnects
  pub few_reconnects : s.reconnects ≤ 3
  pub paused : waits l ≡ s.reconnects
  pub retries : s.calls ≡ suc (bit s.truncation_retried + bit s.repaired)

-- The rounds that are left.
abbrev pub measure : CallState → ℕ
measure s = (3 - s.reconnects) + (2 - s.calls)

module _ {T : Type 0} (env : Env T) (o : Options) where
  -- The newest response, which alone decides the result.
  abbrev pub Last : (LlmResponse → Type 0) → List Effect → Type 0
  Last P l =
      (response : LlmResponse) × (older : List LlmResponse) × (answers l ≡ response ∷ older)
      × P response

  -- The newest thing done was a request, and it threw.
  abbrev pub Threw : (Thrown → Type 0) → List Effect → Type 0
  Threw P l =
      (e : Thrown) × (req : LlmRequest) × (older : List Effect) × (l ≡ sent req (threw e) ∷ older)
      × P e

  -- Nothing is left to try: the API answered with an error, or all backoffs are spent.
  abbrev pub IsFinal : Thrown → List Effect → Type 0
  IsFinal e l =
      ((status : ℕ) × ((provider_diagnostic e false).status ≡ some status)) ⊎ (waits l ≡ 3)

  -- Why a result is what it is.
  abbrev pub Explains : CallResult T → env.World × List Effect → Type 0
  Explains (ok v calls) (w, l) = Last (λ r. validate env o (response_text r) ≡ valid v) l
  Explains (fail CallFailure.refusal calls d) (w, l) =
      Last (λ r. r.stop_reason ≡ StopReason.refusal) l
  Explains (fail CallFailure.max_tokens calls d) (w, l) =
      Last
        (λ r.
          (r.stop_reason ≡ StopReason.max_tokens)
          ⊎ (r.stop_reason ≡ StopReason.context_window_exceeded))
        l
  Explains (fail CallFailure.invalid_output calls d) (w, l) =
      Last
        (λ r.
          (detail : String) × (diagnostic : CallDiagnostic) × (validate env o (response_text r)
            ≡ invalid detail diagnostic)
          × (d ≡ some diagnostic))
        l
  Explains (fail CallFailure.token_ceiling calls d) (w, l) =
      (limit : ℕ) × (used : ℕ) × (older : List Effect) × (o.ceiling ≡ some limit)
      × (l ≡ read (some used) ∷ older)
      × (limit ≤ used)
  Explains (fail CallFailure.deadline calls d) (w, l) =
      (env.is_aborted w ≡ true) ⊎ Threw (λ e. is_abort (env.is_aborted w) e ≡ true) l
  Explains (fail CallFailure.provider_error calls d) (w, l) =
      Threw (λ e. (is_abort (env.is_aborted w) e ≡ false) × IsFinal e l) l

  -- What holds of a result and the record of the call.
  pub record IsAccounted (r : CallResult T) (w : env.World × List Effect) : Type 0 where
    pub each_metered : meterings w.1 ≡ answers w.1
    pub called : length (answers w.1) ≡ calls_of r
    pub few_calls : calls_of r ≤ 3
    pub few_requests : requests w.1 ≤ 6
    pub explained : Explains r w

  -- What holds when the call rejects: a ceiling is set, and the read of it was the last thing to happen.
  pub record IsRejected (l : List Effect) : Type 0 where
    pub each_metered : meterings l ≡ answers l
    pub few_calls : length (answers l) ≤ 3
    pub few_requests : requests l ≤ 6
    pub limit : ℕ
    pub ceiling : o.ceiling ≡ some limit
    pub older : List Effect
    pub unread : l ≡ read none ∷ older

  -- A round ends accounted for, or goes on counted and with fewer rounds left.
  abbrev pub Ensures : ℕ → Next T (env.World × List Effect) → Type 0
  Ensures m (again s w) = IsCounted s w.1 × (measure s < m)
  Ensures m (done r w) = IsAccounted r w
  Ensures m (reject w) = IsRejected w.1
