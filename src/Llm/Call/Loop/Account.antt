-- ===== src/Llm/Call/Loop/Account.antt =====
-- packages/llm/src/call.ts: the whole call, from its rounds.
use albusforge.Prelude.{
  ℕ, zero, suc, ◌<◌, ◌≡◌, refl, ap, true, false, List, [], ◌∷◌, Option, none, some, arith, ltb, leb,
  Option-cases, ◌⊎◌, Bool-cases, inl, inr,
}
use albusforge.Llm.Types.{LlmRequest, LlmResponse}
use albusforge.Llm.Call.{
  CallFailure, CallResult, fail, max_calls, Answer, answered, threw, Env, Options, CallState, Next,
  again, done, reject, Outcome, returned, rejected, start,
}
use albusforge.Llm.Call.Loop.{
  request_of, metered, on_answer, ceiling_reached, on_ceiling, ask, turn, rounds, loop,
  call_structured,
}
use albusforge.Llm.Call.Loop.Ledger.{
  Effect, sent, recorded, read, IsRejected, logged, answers, IsCounted, measure, Explains,
  IsAccounted, Ensures,
}
use albusforge.Llm.Call.Loop.Budget.{on_stop-Ensures, on_throw-Ensures}

module _ {T : Type 0} (env : Env T) (o : Options) where
  metered-log :
      (response : LlmResponse) (w : env.World × List Effect)
      → (metered (logged env) o response w).1 ≡ recorded response ∷ w.1
  unfolding metered
  metered-log response w = ground arith

  on_answer-Ensures :
      (a : Answer) (s : CallState) (w : env.World × List Effect) (req : LlmRequest)
      (l : List Effect)
      → w.1 ≡ sent req a ∷ l
      → IsCounted s l
      → Ensures env o
          (measure s)
          (on_answer (logged env) o a (record s { attempts = suc s.attempts }) w)
  unfolding on_answer
  on_answer-Ensures (threw e) s w req l eq c =
      on_throw-Ensures env o e (record s { attempts = suc s.attempts }) w (measure s) req l eq
        (rw eq (record {
          each_metered = c.each_metered;
          called = c.called;
          sends = omega (arith, c.sends);
          spent = omega (arith, c.spent);
          few_reconnects = c.few_reconnects;
          paused = c.paused;
          retries = c.retries;
        }))
        (omega arith)
  on_answer-Ensures (answered response) s w req l eq c =
      on_stop-Ensures env o (record s { attempts = suc s.attempts; calls = suc s.calls })
        response.stop_reason response (metered (logged env) o response w) (measure s) refl
        (rw (metered-log response w, eq)
          (record {
            newest = (answers l, refl);
            each_metered = ap (◌∷◌ response) c.each_metered;
            called = omega (arith, c.called);
            sends = omega (arith, c.sends);
            spent = omega (arith, c.spent);
            few_reconnects = c.few_reconnects;
            paused = c.paused;
            retries = omega (arith, c.retries);
          }))
        (omega (arith, c.retries))

  ask-Ensures :
      (s : CallState) (w : env.World × List Effect)
      → IsCounted s w.1
      → Ensures env o (measure s) (ask (logged env) o s w)
  unfolding ask
  ask-Ensures s w c =
      let req = request_of (logged env) o s in
      on_answer-Ensures (env.create req w.0).0 s _ req w.1 refl c

  stop-IsAccounted :
      (s : CallState) (w : env.World × List Effect) (failure : CallFailure)
      → Explains env o (fail failure s.calls none) w
      → IsCounted s w.1
      → IsAccounted env o (fail failure s.calls none) w
  stop-IsAccounted s w failure x c = record {
    each_metered = c.each_metered;
    called = c.called;
    few_calls = ground (arith, c.retries);
    few_requests = ground (arith, c.retries, c.spent, c.sends);
    explained = x;
  }

  read-IsCounted :
      (s : CallState) (n : Option ℕ) (l : List Effect) → IsCounted s l → IsCounted s (read n ∷ l)
  read-IsCounted s n l c = record {
    each_metered = c.each_metered;
    called = c.called;
    sends = c.sends;
    spent = c.spent;
    few_reconnects = c.few_reconnects;
    paused = c.paused;
    retries = c.retries;
  }

  read-Ensures :
      (s : CallState) (w : env.World) (l : List Effect) (limit : ℕ) (used : Option ℕ)
      → o.ceiling ≡ some limit
      → IsCounted s l
      → Ensures env o (measure s) (
          on_ceiling
            (logged env)
            o
            (elim used [ none ↦ none | some n ↦ some (leb limit n) ])
            s
            (w, read used ∷ l))
  unfolding on_ceiling
  read-Ensures s w l limit none is c = record {
    each_metered = c.each_metered;
    few_calls = ground (arith, c.retries, c.called);
    few_requests = ground (arith, c.retries, c.spent, c.sends);
    limit = limit;
    ceiling = is;
    older = l;
    unread = refl;
  }
  read-Ensures s w l limit (some n) is c = elim (Bool-cases (leb limit n)) [
    | inl over ↦
        rw (over, on_ceiling)
          (stop-IsAccounted s (w, read (some n) ∷ l) CallFailure.token_ceiling
            (limit, n, l, is, refl, ground (arith, over)) (read-IsCounted s (some n) l c))
    | inr left ↦
        rw (left, on_ceiling) (ask-Ensures s (w, read (some n) ∷ l) (read-IsCounted s (some n) l c))
  ]

  ceiling_reached-unlimited :
      (w : env.World × List Effect)
      → o.ceiling ≡ none
      → ceiling_reached (logged env) o w ≡ (some false, w)
  unfolding ceiling_reached
  ceiling_reached-unlimited w h = rw (h, ceiling_reached) refl

  ceiling_reached-limited :
      (w : env.World × List Effect) (limit : ℕ)
      → o.ceiling ≡ some limit
      → ceiling_reached (logged env) o w ≡ (
        elim (env.tokens_used w.0).0 [ none ↦ none | some n ↦ some (leb limit n) ],
        ((env.tokens_used w.0).1, read (env.tokens_used w.0).0 ∷ w.1),
      )
  unfolding ceiling_reached
  ceiling_reached-limited w limit h = rw (h, ceiling_reached) refl

  -- Every round that starts counted ends so, with fewer rounds left, or accounted for.
  turn-Ensures :
      (s : CallState) (w : env.World × List Effect)
      → IsCounted s w.1
      → Ensures env o (measure s) (turn (logged env) o s w)
  unfolding turn on_ceiling
  turn-Ensures s w c = elim (Bool-cases (env.is_aborted w.0)) [
    | inl gone ↦ rw (gone, turn) (stop-IsAccounted s w CallFailure.deadline (inl gone) c)
    | inr here ↦ elim (Option-cases o.ceiling) [
      | inl unlimited ↦
          rw (here, turn) (rw (ceiling_reached-unlimited w unlimited) (ask-Ensures s w c))
      | inr (limit, is) ↦
          rw (here, turn)
            (rw (ceiling_reached-limited w limit is)
              (read-Ensures s (env.tokens_used w.0).1 w.1 limit (env.tokens_used w.0).0 is c))
    ]
  ]

  abbrev Settled : Outcome T → env.World × List Effect → Type 0
  Settled (returned r) w = IsAccounted env o r w
  Settled rejected w = IsRejected env o w.1

  -- A call that ended, and how.
  abbrev pub Ends : Option (Outcome T × (env.World × List Effect)) → Type 0
  Ends outcome =
      (r : Outcome T) × (w : env.World × List Effect) × (outcome ≡ some (r, w)) × Settled r w

  counted-lt-max : (s : CallState) (l : List Effect) → IsCounted s l → ltb s.calls max_calls ≡ true
  counted-lt-max s l c = ground (arith, c.retries)

  Next-cases :
      {W : Type 0} (n : Next T W)
      → ((r : CallResult T) × (w : W) × (n ≡ done r w))
        ⊎ (((w : W) × (n ≡ reject w)) ⊎ ((s : CallState) × (w : W) × (n ≡ again s w)))
  Next-cases (done r w) = inl (r, w, refl)
  Next-cases (reject w) = inr (inl (w, refl))
  Next-cases (again s w) = inr (inr (s, w, refl))

  loop-Ends :
      (fuel : ℕ) (s : CallState) (w : env.World × List Effect)
      → IsCounted s w.1
      → measure s < fuel
      → Ends (loop (logged env) o fuel s w)
  unfolding loop
  loop-Ends zero s w c h = absurd (omega arith)
  loop-Ends (suc fuel) s w c h =
      let e = turn-Ensures s w c in
      elim (Next-cases (turn (logged env) o s w)) [
        | inl (r, w', q) ↦
            rw (counted-lt-max s w.1 c, loop) (rw (q, loop) (returned r, w', refl, rw q at e))
        | inr (inl (w', q)) ↦
            rw (counted-lt-max s w.1 c, loop) (rw (q, loop) (rejected, w', refl, rw q at e))
        | inr (inr (s', w', q)) ↦
            let next : IsCounted s' w'.1 × (measure s' < measure s) = rw q at e in
            rw (counted-lt-max s w.1 c, loop)
              (rw (q, loop) (loop-Ends fuel s' w' next.0 (omega arith)))
      ]

  start-IsCounted : IsCounted (start o) []
  start-IsCounted = record {
    each_metered = refl;
    called = refl;
    sends = refl;
    spent = omega arith;
    few_reconnects = omega arith;
    paused = refl;
    retries = omega arith;
  }

-- `callStructured` always settles, given that its environment's operations do. Whatever the provider, the
-- meter, the signal and the clock do, it sends at most six requests, of which the API answers at most
-- three, and every answer is metered exactly once and in order. It rejects only where a token ceiling
-- is set and the read of what was used, the last thing that it did, rejects. Else it returns, with
-- the number of answers as `calls`, and each result has its reason: a value is what the newest answer's
-- text validates to; `refusal` and `max_tokens` are that answer's stop reason; `invalid_output`
-- carries the diagnostic of its failed validation; `token_ceiling` was just read to be reached; at
-- `deadline` the signal is aborted, or the last request threw an abort; and `provider_error` is a
-- request that threw no abort, after three waits or with a status from the API.
pub call_structured-accounted :
    {T : Type 0} (env : Env T) (o : Options) (w : env.World)
    → Ends env o (call_structured (logged env) o (w, []))
unfolding call_structured
call_structured-accounted env o w =
    loop-Ends env o rounds (start o) (w, []) (start-IsCounted env o) (omega arith)
