-- ===== src/Llm/Call/Loop/Budget.antt =====
-- packages/llm/src/call.ts: what a round of the loop spends, and that its results have their reasons.
use albusforge.Prelude.{
  ℕ, zero, suc, ◌+◌, ◌-◌, ◌≤◌, ◌≡◌, refl, sym, get_elem?-lt, String, Bool, true, false, not, ◌&&◌,
  List, ◌∷◌, Option, none, some, if◌then◌else◌, get_elem?, length, arith, Bool-cases, Option-cases,
  inl, inr,
}
use albusforge.Llm.Types.{LlmRequest, StopReason, LlmResponse}
use albusforge.Llm.Call.{
  CallFailure, CallDiagnostic, fail, connection_backoff_ms, response_text, Validation, valid,
  invalid, Thrown, is_abort, provider_diagnostic, threw, Env, Options, CallState,
}
use albusforge.Llm.Call.Loop.{validate, unanswered, on_throw, on_validation, on_stop}
use albusforge.Llm.Call.Loop.Ledger.{
  Effect, Ensures, IsAccounted, IsAnswered, IsFinal, Threw, answers, bit, logged, measure,
  meterings, requests, waits, sent,
}

module _ {T : Type 0} (env : Env T) (o : Options) where
  on_validation-Ensures :
      (v : Validation T) (text : String) (s : CallState) (response : LlmResponse)
      (w : env.World × List Effect) (m : ℕ)
      → validate env o text ≡ v
      → text ≡ response_text response
      → IsAnswered s response w.1
      → 3 - s.reconnects + (3 - s.calls) ≤ m
      → Ensures env o m (on_validation (logged env) o v text s w)
  unfolding on_validation
  on_validation-Ensures (valid v) text s response w m e t a h = record {
    each_metered = a.each_metered;
    called = a.called;
    few_calls = ground (arith, a.retries);
    few_requests = ground (arith, a.retries, a.spent, a.sends);
    explained = (response, a.newest.0, a.newest.1, rw t at e);
  }
  on_validation-Ensures (invalid detail d) text s response w m e t a h =
      elim (Bool-cases s.repaired) [
        | inl twice ↦
            rw (twice, on_validation)
              (record {
                each_metered = a.each_metered;
                called = a.called;
                few_calls = ground (arith, a.retries);
                few_requests = ground (arith, a.retries, a.spent, a.sends);
                explained = (response, a.newest.0, a.newest.1, (detail, d, (rw t at e), refl));
              })
        | inr once ↦
            rw (once, on_validation)
              (
                record {
                  each_metered = a.each_metered;
                  called = a.called;
                  sends = a.sends;
                  spent = a.spent;
                  few_reconnects = a.few_reconnects;
                  paused = a.paused;
                  retries = ground (arith, a.retries);
                },
                ground (arith, a.retries),
              )
      ]

  validate-logged : (text : String) → validate (logged env) o text ≡ validate env o text
  unfolding validate
  validate-logged text = refl

  pub on_stop-Ensures :
      (s : CallState) (stop : StopReason) (response : LlmResponse) (w : env.World × List Effect)
      (m : ℕ)
      → response.stop_reason ≡ stop
      → IsAnswered s response w.1
      → 3 - s.reconnects + (3 - s.calls) ≤ m
      → Ensures env o m (on_stop (logged env) o stop response s w)
  unfolding on_stop
  on_stop-Ensures s StopReason.refusal response w m e a h = record {
    each_metered = a.each_metered;
    called = a.called;
    few_calls = ground (arith, a.retries);
    few_requests = ground (arith, a.retries, a.spent, a.sends);
    explained = (response, a.newest.0, a.newest.1, e);
  }
  on_stop-Ensures s StopReason.context_window_exceeded response w m e a h = record {
    each_metered = a.each_metered;
    called = a.called;
    few_calls = ground (arith, a.retries);
    few_requests = ground (arith, a.retries, a.spent, a.sends);
    explained = (response, a.newest.0, a.newest.1, inr e);
  }
  on_stop-Ensures s StopReason.max_tokens response w m e a h =
      elim (Bool-cases s.truncation_retried) [
        | inl twice ↦
            rw (twice, on_stop)
              (record {
                each_metered = a.each_metered;
                called = a.called;
                few_calls = ground (arith, a.retries);
                few_requests = ground (arith, a.retries, a.spent, a.sends);
                explained = (response, a.newest.0, a.newest.1, inl e);
              })
        | inr once ↦
            rw (once, on_stop)
              (
                record {
                  each_metered = a.each_metered;
                  called = a.called;
                  sends = a.sends;
                  spent = a.spent;
                  few_reconnects = a.few_reconnects;
                  paused = a.paused;
                  retries = ground (arith, a.retries);
                },
                ground (arith, a.retries),
              )
      ]
  on_stop-Ensures s stop response w m e a h =
      on_validation-Ensures (validate (logged env) o (response_text response))
        (response_text response) s response w m (sym (validate-logged (response_text response)))
        refl a h

  give_up-IsAccounted :
      (gone : Bool) (s : CallState) (d : Option CallDiagnostic) (w : env.World × List Effect)
      → meterings w.1 ≡ answers w.1
      → length (answers w.1) ≡ s.calls
      → s.calls ≤ 3
      → requests w.1 ≤ 6
      → Threw env o
          (λ e. (is_abort (env.is_aborted w.0) e ≡ gone) × (gone ≡ false → IsFinal env o e w.1))
          w.1
      → IsAccounted env o
          (fail (if gone then CallFailure.deadline else CallFailure.provider_error) s.calls d)
          w
  give_up-IsAccounted true s d w p q h k (e, req, older, newest, (is, final)) = record {
    each_metered = p;
    called = q;
    few_calls = h;
    few_requests = k;
    explained = inr (e, req, older, newest, is);
  }
  give_up-IsAccounted false s d w p q h k (e, req, older, newest, (is, final)) = record {
    each_metered = p;
    called = q;
    few_calls = h;
    few_requests = k;
    explained = (e, req, older, newest, (is, final refl));
  }

  all-spent : (n : ℕ) → get_elem? connection_backoff_ms n ≡ none → 3 ≤ n
  all-spent zero h = absurd (ground (arith, h))
  all-spent (suc zero) h = absurd (ground (arith, h))
  all-spent (suc (suc zero)) h = absurd (ground (arith, h))
  all-spent (suc (suc (suc n))) h = omega arith

  status-known : (status : Option ℕ) → unanswered status ≡ false → (n : ℕ) × (status ≡ some n)
  status-known none h = absurd (ground (arith, h))
  status-known (some n) h = (n, refl)

  -- A request went out in this round and no answer came back.
  pub record IsUnanswered (s : CallState) (l : List Effect) : Type 0 where
    pub each_metered : meterings l ≡ answers l
    pub called : length (answers l) ≡ s.calls
    pub sends : requests l ≡ s.attempts
    pub spent : s.attempts ≡ suc (s.calls + s.reconnects)
    pub few_reconnects : s.reconnects ≤ 3
    pub paused : waits l ≡ s.reconnects
    pub retries : s.calls ≡ bit s.truncation_retried + bit s.repaired

  pub on_throw-Ensures :
      (e : Thrown) (s : CallState) (w : env.World × List Effect) (m : ℕ) (req : LlmRequest)
      (older : List Effect)
      → w.1 ≡ sent req (threw e) ∷ older
      → IsUnanswered s w.1
      → measure s ≤ m
      → Ensures env o m (on_throw (logged env) o e s w)
  unfolding on_throw
  on_throw-Ensures e s w m req older newest u h =
      let gone = is_abort (env.is_aborted w.0) e in
      let give_up = λ (d : Option CallDiagnostic) (final : gone ≡ false → IsFinal env o e w.1).
        give_up-IsAccounted gone s d w u.each_metered u.called (ground (arith, u.retries))
          (ground (arith, u.retries, u.spent, u.sends)) (e, req, older, newest, (refl, final)) in
      elim (Option-cases (get_elem? connection_backoff_ms s.reconnects)) [
        | inl spent ↦
            rw (spent, on_throw)
              (give_up _ (λ _.
                inr (omega (arith, all-spent s.reconnects spent, u.few_reconnects, u.paused))))
        | inr (backoff, some_left) ↦
            elim (Bool-cases (not gone && unanswered (provider_diagnostic e gone).status)) [
              | inl retry ↦
                  let below = get_elem?-lt connection_backoff_ms s.reconnects backoff some_left in
                  rw (some_left, on_throw)
                    (rw retry (
                      record {
                        each_metered = u.each_metered;
                        called = u.called;
                        sends = u.sends;
                        spent = omega (arith, u.spent);
                        few_reconnects = below;
                        paused = omega (arith, u.paused);
                        retries = u.retries;
                      },
                      ground (arith, below),
                    ))
              | inr stop ↦
                  rw (some_left, on_throw)
                    (rw stop (
                      give_up _ (λ alive.
                        let known : unanswered (provider_diagnostic e false).status ≡ false =
                          rw alive at stop in
                        inl (status-known (provider_diagnostic e false).status known))))
            ]
      ]
