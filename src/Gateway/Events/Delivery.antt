-- ===== src/Gateway/Events/Delivery.antt =====
-- apps/gateway/src/sse.ts: every message that a poll reads is written to the connection, by this poll or
-- an earlier one.
use albusforge.Prelude.{
  ℕ, ◌≡◌, refl, subst, ◌⊎◌, String, Bool, true, false, not, ◌||◌, List, [], ◌∷◌, Option, none, some,
  if◌then◌else◌, ◌==◌, ltb, includes, All, All-imp, All-keep, arith, Bool-cases, Option-cases, inl,
  inr, eq_iff, ◌+◌, ◌*◌,
}
use albusforge.Prelude.Assoc.{lookup, insert}
use albusforge.Tables.{BuildMessage, Tables}
use albusforge.Gateway.ChatStore.{Owner, BuildState, EventBatch, messages_since, read_event_batch}
use albusforge.Gateway.ChatStore.Cursors.{Cursor}
use albusforge.Gateway.Events.{
  Event, Stream, has_sent, is_ahead, is_change, connect, send, tell_state, tell_message, tell_row,
  position_of, tell_rows, forget_from, forget, poll_batch, poll, polls,
}
use albusforge.Gateway.Events.Once.{ids, floor_of, place_of, if-both, IsRow}
use albusforge.Gateway.Events.Runs.{KeepsMessages, messages_since-IsRow, read_event_batch-rows}

if-true : (P : Stream → Type 0) (b : Bool) (s t : Stream) → b ≡ true → P s → P (if b then s else t)
if-true P b s t e p = rw e p

if-false :
    (P : Stream → Type 0) (b : Bool) (s t : Stream) → b ≡ false → P t → P (if b then s else t)
if-false P b s t e p = rw e p

All-lookup :
    (Q : String → Type 0) (id : String) (micros : ℕ) (m : List (String × ℕ))
    → lookup id m ≡ some micros
    → All (λ (e : String × ℕ). Q e.0) m
    → Q id
unfolding lookup
All-lookup Q id micros [] h a = absurd (ground (arith, h))
All-lookup Q id micros ((j, v) ∷ m) h (here, rest) = elim (Bool-cases (j == id)) [
  | inl same ↦ let e : j ≡ id = (eq_iff j id).0 same in rw e at here
  | inr other ↦
      let later : lookup id m ≡ some micros = rw (other, lookup) at h in
      All-lookup Q id micros m later rest
]

All-insert :
    (Q : String → Type 0) (id : String) (micros : ℕ) (m : List (String × ℕ))
    → Q id
    → All (λ (e : String × ℕ). Q e.0) m
    → All (λ (e : String × ℕ). Q e.0) (insert id micros m)
unfolding insert
All-insert Q id micros [] q a = (q, tt)
All-insert Q id micros ((j, v) ∷ m) q (here, rest) = elim (Bool-cases (j == id)) [
  | inl same ↦ rw (same, insert) (q, rest)
  | inr other ↦ rw (other, insert) (here, All-insert Q id micros m q rest)
]

-- A message with this id was written.
abbrev pub IsWritten : Stream → String → Type 0
IsWritten s id = includes (ids s.written) id ≡ true

-- What is remembered was written.
abbrev Held : Stream → Type 0
Held s = All (λ (e : String × ℕ). IsWritten s e.0) s.sent

abbrev Extends : Stream → Stream → Type 0
Extends s s' = (id : String) → IsWritten s id → IsWritten s' id

has_sent-IsWritten :
    (s : Stream) (id : String) → has_sent id s.sent ≡ true → Held s → IsWritten s id
unfolding has_sent
has_sent-IsWritten s id h held = elim (Option-cases (lookup id s.sent)) [
  | inl none_there ↦ absurd (ground (arith, h, none_there))
  | inr (micros, there) ↦ All-lookup (IsWritten s) id micros s.sent there held
]

module _ (is_slow : List Event → Bool) (resume_from : Option Cursor) (lookback_ms : ℕ) where
  -- A message past the place to resume from was written.
  abbrev pub Told : Stream → BuildMessage → Type 0
  Told s row = is_ahead (place_of row) resume_from ≡ true → IsWritten s row.id

  abbrev Tells : Stream → BuildMessage → Stream → Type 0
  Tells s row s' = Held s' × Extends s s' × Told s' row

  tell_message-Tells :
      (row : BuildMessage) (s : Stream)
      → s.closed ≡ false
      → Held s
      → Tells s row (tell_message is_slow resume_from lookback_ms row (place_of row) s)
  unfolding tell_message send
  tell_message-Tells row s open' h =
      elim (Bool-cases (has_sent row.id s.sent || not (is_ahead (place_of row) resume_from))) [
        | inl known ↦
            if-true (Tells s row) _ s _ known (
              h,
              (λ id w. w),
              λ ahead. has_sent-IsWritten s row.id (ground (arith, known, ahead)) h,
            )
        | inr new ↦
            let grown : Extends s
                (record s { written = Event.message_created row (place_of row) ∷ s.written }) =
              λ id w. ground (arith, w) in
            let here : includes (row.id ∷ ids s.written) row.id ≡ true =
              ground (arith, (eq_iff row.id row.id).1 refl) in
            if-false (Tells s row) _ s _ new (
              if-false (Tells s row) s.closed _ _ open' (
                All-insert (λ id. includes (row.id ∷ ids s.written) id ≡ true) row.id row.created_at
                    s.sent here
                    (All-imp (λ (e : String × ℕ). IsWritten s e.0)
                      (λ (e : String × ℕ). includes (row.id ∷ ids s.written) e.0 ≡ true) s.sent
                      (λ e w. grown e.0 w) h),
                grown,
                λ ahead. here,
              ))
      ]

  -- The loop over the rows: cut short by a close, or every row is told.
  abbrev AllTold : Stream → List BuildMessage → Stream → Type 0
  AllTold s rows s' = (s'.closed ≡ true) ⊎ (Held s' × Extends s s' × All (Told s') rows)

  AllTold-cons :
      (s t s' : Stream) (row : BuildMessage) (rows : List BuildMessage)
      → Tells s row t
      → AllTold t rows s'
      → AllTold s (row ∷ rows) s'
  AllTold-cons s t s' row rows told (inl shut) = inl shut
  AllTold-cons s t s' row rows (held, grown, told) (inr (h, more, all)) =
      inr (h, (λ id w. more id (grown id w)), ((λ ahead. more row.id (told ahead)), all))

  tell_row-Tells :
      (row : BuildMessage) (position : Option Cursor) (s : Stream)
      → position ≡ some (place_of row)
      → s.closed ≡ false
      → Held s
      → Tells s row (tell_row is_slow resume_from lookback_ms row position s)
  unfolding tell_row
  tell_row-Tells row position s placed open' h =
      rw (placed, tell_row) (tell_message-Tells row s open' h)

  abbrev IsPlaced : BuildMessage → Type 0
  IsPlaced row = position_of is_slow resume_from lookback_ms row ≡ some (place_of row)

  tell_rows-AllTold :
      (rows : List BuildMessage) (s : Stream)
      → Held s
      → All IsPlaced rows
      → AllTold s rows (tell_rows is_slow resume_from lookback_ms rows s)
  unfolding tell_rows
  tell_rows-AllTold [] s h p = inr (h, (λ id w. w), tt)
  tell_rows-AllTold (row ∷ rows) s h (p, ps) = elim (Bool-cases s.closed) [
    | inl shut ↦ if-true (AllTold s (row ∷ rows)) s.closed s _ shut (inl shut)
    | inr open' ↦
        let t =
          tell_row is_slow resume_from lookback_ms row
            (position_of is_slow resume_from lookback_ms row) s in
        let told =
          tell_row-Tells row (position_of is_slow resume_from lookback_ms row) s p open' h in
        if-false (AllTold s (row ∷ rows)) s.closed s _ open' (
          AllTold-cons s t (tell_rows is_slow resume_from lookback_ms rows t) row rows told
            (tell_rows-AllTold rows t told.0 ps))
  ]

  send_state-Held :
      (state : BuildState) (id : Option Cursor) (s : Stream)
      → Held s
      → Held (send is_slow resume_from lookback_ms (Event.build_updated state id) s)
  unfolding send
  send_state-Held state id s h = if-both Held s.closed s _ h h

  tell_state-Held :
      (state : BuildState) (s : Stream)
      → Held s
      → Held (tell_state is_slow resume_from lookback_ms state s)
  unfolding tell_state
  tell_state-Held state s h = elim (Bool-cases (is_change state s.last_state)) [
    | inr same ↦ if-false Held (is_change state s.last_state) _ s same h
    | inl changed ↦
        if-true Held (is_change state s.last_state) _ s changed (send_state-Held state s.cursor s h)
  ]

  abbrev pub Delivers : List BuildMessage → Stream → Type 0
  Delivers rows s = (s.closed ≡ true) ⊎ (Held s × All (Told s) rows)

  forget_from-Held :
      (cursor : Option Cursor) (s : Stream)
      → Held s
      → All
          (λ (e : String × ℕ). IsWritten s e.0)
          (forget_from is_slow resume_from lookback_ms cursor s.sent)
  forget_from-Held none s h = h
  forget_from-Held (some cursor) s h =
      All-keep (λ (e : String × ℕ). IsWritten s e.0)
        (λ (e : String × ℕ). not (ltb (e.1 + lookback_ms * 2000) cursor.micros)) s.sent h

  forget-Delivers :
      (s t : Stream) (rows : List BuildMessage)
      → AllTold s rows t
      → Delivers rows (forget is_slow resume_from lookback_ms t)
  unfolding forget
  forget-Delivers s t rows (inl shut) = if-true (Delivers rows) t.closed t _ shut (inl shut)
  forget-Delivers s t rows (inr (h, grown, told)) =
      if-both (Delivers rows) t.closed t _ (inr (h, told))
        (inr (forget_from-Held t.cursor t h, told))

  Delivers-Held :
      (rows : List BuildMessage) (s : Stream) → Delivers rows s → (s.closed ≡ true) ⊎ Held s
  Delivers-Held rows s (inl shut) = inl shut
  Delivers-Held rows s (inr (h, told)) = inr h

connect-Held :
    (resume_from : Option Cursor)
    → ((connect resume_from).closed ≡ true) ⊎ Held (connect resume_from)
unfolding connect
connect-Held resume_from = inr tt

module _ {J : Type 0} (is_slow : List Event → Bool) (resume_from : Option Cursor) (lookback_ms : ℕ)
    (stamp : String → ℕ) (build_id : String) where
  poll_batch-Delivers :
      (owner : Owner) (db : Tables J) (s : Stream)
      → KeepsMessages is_slow resume_from lookback_ms stamp build_id (owner, db)
      → Held s
      → (batch : Option EventBatch)
      → read_event_batch db build_id owner s.cursor lookback_ms ≡ batch
      → Delivers is_slow resume_from lookback_ms
          (messages_since db build_id owner s.cursor lookback_ms)
          (poll_batch is_slow resume_from lookback_ms batch s)
  unfolding poll_batch IsRow
  poll_batch-Delivers owner db s k h none e = inl refl
  poll_batch-Delivers owner db s k h (some batch) e =
      let rows =
        read_event_batch-rows is_slow resume_from lookback_ms stamp build_id owner db s.cursor batch
          e in
      let placed =
        All-imp (IsRow is_slow resume_from lookback_ms stamp (floor_of s.cursor))
          (IsPlaced is_slow resume_from lookback_ms)
          (messages_since db build_id owner s.cursor lookback_ms) (λ row r. r.0)
          (messages_since-IsRow is_slow resume_from lookback_ms stamp build_id owner db s.cursor
            k) in
      let told = tell_state is_slow resume_from lookback_ms batch.state s in
      subst
        (λ ms. Delivers is_slow resume_from lookback_ms ms (
          forget is_slow resume_from lookback_ms
            (tell_rows is_slow resume_from lookback_ms batch.messages told)))
        rows
        (forget-Delivers is_slow resume_from lookback_ms told
          (tell_rows is_slow resume_from lookback_ms batch.messages told) batch.messages
          (tell_rows-AllTold is_slow resume_from lookback_ms batch.messages told
            (tell_state-Held is_slow resume_from lookback_ms batch.state s h) (rw rows placed)))

  poll-Delivers :
      (owner : Owner) (db : Tables J) (s : Stream)
      → KeepsMessages is_slow resume_from lookback_ms stamp build_id (owner, db)
      → (s.closed ≡ true) ⊎ Held s
      → Delivers is_slow resume_from lookback_ms
          (messages_since db build_id owner s.cursor lookback_ms)
          (poll is_slow resume_from lookback_ms build_id owner db s)
  unfolding poll
  poll-Delivers owner db s k (inl shut) =
      if-true
        (Delivers is_slow resume_from lookback_ms
          (messages_since db build_id owner s.cursor lookback_ms))
        s.closed s _ shut (inl shut)
  poll-Delivers owner db s k (inr h) = elim (Bool-cases s.closed) [
    | inl shut ↦
        if-true
          (Delivers is_slow resume_from lookback_ms
            (messages_since db build_id owner s.cursor lookback_ms))
          s.closed s _ shut (inl shut)
    | inr open' ↦
        if-false
          (Delivers is_slow resume_from lookback_ms
            (messages_since db build_id owner s.cursor lookback_ms))
          s.closed s _ open'
          (poll_batch-Delivers owner db s k h
            (read_event_batch db build_id owner s.cursor lookback_ms) refl)
  ]

  polls-Held :
      (steps : List (Owner × Tables J)) (s : Stream)
      → All (KeepsMessages is_slow resume_from lookback_ms stamp build_id) steps
      → (s.closed ≡ true) ⊎ Held s
      → ((polls is_slow resume_from lookback_ms build_id steps s).closed ≡ true)
        ⊎ Held (polls is_slow resume_from lookback_ms build_id steps s)
  unfolding polls
  polls-Held [] s k h = h
  polls-Held ((owner, db) ∷ steps) s (k, ks) h =
      polls-Held steps (poll is_slow resume_from lookback_ms build_id owner db s) ks (
        Delivers-Held is_slow resume_from lookback_ms
          (messages_since db build_id owner s.cursor lookback_ms)
          (poll is_slow resume_from lookback_ms build_id owner db s) (poll-Delivers owner db s k h))

-- After any polls, the next one closes the stream or leaves every message that it read written to the
-- connection, by this poll or an earlier one, if it is past the place to resume from; and only
-- what was written is remembered as sent. It reads all of the build's messages that are newer than the
-- last cursor less the lookback. The tables keep a message's time, its id is a lower-case uuid and
-- its time has at most nineteen digits.
pub polls-Delivers :
    {J : Type 0} (is_slow : List Event → Bool) (resume_from : Option Cursor) (lookback_ms : ℕ)
    (stamp : String → ℕ) (build_id : String) (steps : List (Owner × Tables J)) (owner : Owner)
    (db : Tables J)
    → All (KeepsMessages is_slow resume_from lookback_ms stamp build_id) steps
    → KeepsMessages is_slow resume_from lookback_ms stamp build_id (owner, db)
    → Delivers is_slow resume_from lookback_ms
        (messages_since db build_id owner
          (polls is_slow resume_from lookback_ms build_id steps (connect resume_from)).cursor
          lookback_ms)
        (poll is_slow resume_from lookback_ms build_id owner db
          (polls is_slow resume_from lookback_ms build_id steps (connect resume_from)))
polls-Delivers is_slow resume_from lookback_ms stamp build_id steps owner db ks k =
    poll-Delivers is_slow resume_from lookback_ms stamp build_id owner db
      (polls is_slow resume_from lookback_ms build_id steps (connect resume_from)) k
      (polls-Held is_slow resume_from lookback_ms stamp build_id steps (connect resume_from) ks
        (connect-Held resume_from))
