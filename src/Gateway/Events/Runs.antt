-- ===== src/Gateway/Events/Runs.antt =====
-- apps/gateway/src/sse.ts: what the polls of one connection write, poll after poll.
use albusforge.Prelude.{
  ℕ, ◌+◌, ◌*◌, ◌<◌, ◌≡◌, refl, sym, ap, ◌∙◌, ◌⊎◌, String, Bool, true, ◌&&◌, List, [], ◌∷◌, Option,
  none, some, keep, All, All-imp, All-keep, All-both, keep-All, arith, Bool-cases, Option-cases,
  inl, inr,
}
use albusforge.Prelude.Sort.{All-sort_by}
use albusforge.Tables.{BuildMessage, Tables}
use albusforge.Gateway.ChatStore.Cursors.{same_uuid}
use albusforge.Gateway.ChatStore.{
  Owner, BuildState, EventBatch, is_null, is_before, owned_build, build_state, held_messages,
  is_since, messages_since, read_event_batch,
}
use albusforge.Gateway.ChatStore.Cursors.{Cursor}
use albusforge.Gateway.ChatStore.Cursors.RoundTrip.{parse_cursor-cursor_text}
use albusforge.Gateway.Events.{
  Event, Stream, connect, tell_state, position_of, poll_batch, poll, polls,
}
use albusforge.Gateway.Events.Once.{
  ids, IsDistinct, floor_of, place_of, IsStored, if-both, IsOnce, IsRow, tell_rows-IsOnce,
  tell_state-IsOnce, forget-IsOnce, settle-IsOnce,
}

module _ (is_slow : List Event → Bool) (resume_from : Option Cursor) (lookback_ms : ℕ)
    (stamp : String → ℕ) where
  pub IsStored-IsRow :
      (after : Option Cursor) (m : BuildMessage)
      → IsStored stamp m × (is_since after lookback_ms m ≡ true)
      → IsRow is_slow resume_from lookback_ms stamp (floor_of after) m
  unfolding IsRow position_of
  IsStored-IsRow none m ((uuid, small, stamped), since) =
      (parse_cursor-cursor_text (place_of m) uuid small, stamped, omega arith)
  IsStored-IsRow (some after) m ((uuid, small, stamped), since) =
      let recent : after.micros < m.created_at + lookback_ms * 1000 = ground (arith, since) in
      (parse_cursor-cursor_text (place_of m) uuid small, stamped, omega (arith, recent, stamped))

abbrev messages_in : Option EventBatch → List BuildMessage
messages_in none = []
messages_in (some batch) = batch.messages

module _ {J : Type 0} (is_slow : List Event → Bool) (resume_from : Option Cursor) (lookback_ms : ℕ)
    (stamp : String → ℕ) (build_id : String) where
  -- The tables keep every message as `IsStored` says.
  abbrev pub KeepsMessages : Owner × Tables J → Type 0
  KeepsMessages step = All (IsStored stamp) step.1.build_messages

  held_messages-IsStored :
      (owner : Owner) (db : Tables J)
      → KeepsMessages (owner, db)
      → All (IsStored stamp) (held_messages db build_id owner)
  unfolding held_messages
  held_messages-IsStored owner db h = elim (Option-cases (owned_build db build_id owner)) [
    | inl nobody ↦ rw (nobody, held_messages) tt
    | inr (b, held) ↦
        rw (held, held_messages)
          (All-keep (IsStored stamp) (λ (m : BuildMessage). same_uuid m.build_id build_id)
            db.build_messages h)
  ]

  pub messages_since-IsRow :
      (owner : Owner) (db : Tables J) (after : Option Cursor)
      → KeepsMessages (owner, db)
      → All
          (IsRow is_slow resume_from lookback_ms stamp (floor_of after))
          (messages_since db build_id owner after lookback_ms)
  unfolding messages_since
  messages_since-IsRow owner db after h =
      let held = held_messages db build_id owner in
      let since = keep (is_since after lookback_ms) held in
      All-sort_by (IsRow is_slow resume_from lookback_ms stamp (floor_of after)) is_before since (
        All-imp (λ (m : BuildMessage). IsStored stamp m × (is_since after lookback_ms m ≡ true))
          (IsRow is_slow resume_from lookback_ms stamp (floor_of after)) since
          (IsStored-IsRow is_slow resume_from lookback_ms stamp after)
          (All-both (IsStored stamp) (λ (m : BuildMessage). is_since after lookback_ms m ≡ true)
            since
            (All-keep (IsStored stamp) (is_since after lookback_ms) held
              (held_messages-IsStored owner db h))
            (keep-All (is_since after lookback_ms) held)))

  -- What a poll reads, if anything.
  pub read_event_batch-messages :
      (owner : Owner) (db : Tables J) (after : Option Cursor)
      → (read_event_batch db build_id owner after lookback_ms ≡ none)
        ⊎ ((state : BuildState) × (read_event_batch db build_id owner after lookback_ms
              ≡ some (record {
                state = state;
                messages = messages_since db build_id owner after lookback_ms;
              })))
  unfolding read_event_batch
  read_event_batch-messages owner db after =
      elim (Bool-cases (is_null owner.tenant_id && is_null owner.anon_hash)) [
        | inl nobody ↦ inl (rw (nobody, read_event_batch) refl)
        | inr someone ↦ elim (Option-cases (build_state db build_id owner)) [
          | inl gone ↦ inl (rw (someone, gone, read_event_batch) refl)
          | inr (state, here) ↦ inr (state, rw (someone, here, read_event_batch) refl)
        ]
      ]

  pub read_event_batch-rows :
      (owner : Owner) (db : Tables J) (after : Option Cursor) (batch : EventBatch)
      → read_event_batch db build_id owner after lookback_ms ≡ some batch
      → batch.messages ≡ messages_since db build_id owner after lookback_ms
  read_event_batch-rows owner db after batch e = elim (read_event_batch-messages owner db after) [
    | inl gone ↦ absurd (ground (arith, e, gone))
    | inr (state, here) ↦ ap messages_in (sym e ∙ here)
  ]

  poll_batch-IsOnce :
      (owner : Owner) (db : Tables J) (s : Stream)
      → KeepsMessages (owner, db)
      → IsOnce is_slow resume_from lookback_ms stamp (floor_of s.cursor) s
      → (batch : Option EventBatch)
      → read_event_batch db build_id owner s.cursor lookback_ms ≡ batch
      → (c : ℕ) × IsOnce is_slow resume_from lookback_ms stamp c
          (poll_batch is_slow resume_from lookback_ms batch s)
  unfolding poll_batch
  poll_batch-IsOnce owner db s h v none e =
      (floor_of s.cursor, record { distinct = v.distinct; known = v.known; floor = v.floor })
  poll_batch-IsOnce owner db s h v (some batch) e =
      let rows = read_event_batch-rows owner db s.cursor batch e in
      let told = tell_state is_slow resume_from lookback_ms batch.state s in
      (
        _,
        forget-IsOnce is_slow resume_from lookback_ms stamp (floor_of s.cursor) _ (
            tell_rows-IsOnce is_slow resume_from lookback_ms stamp (floor_of s.cursor)
              batch.messages told
              (tell_state-IsOnce is_slow resume_from lookback_ms stamp (floor_of s.cursor)
                batch.state s v)
              (rw rows (messages_since-IsRow owner db s.cursor h))),
      )

  poll-IsOnce :
      (owner : Owner) (db : Tables J) (s : Stream)
      → KeepsMessages (owner, db)
      → IsOnce is_slow resume_from lookback_ms stamp (floor_of s.cursor) s
      → (c : ℕ) × IsOnce is_slow resume_from lookback_ms stamp c
          (poll is_slow resume_from lookback_ms build_id owner db s)
  unfolding poll
  poll-IsOnce owner db s h v =
      if-both (λ s'. (c : ℕ) × IsOnce is_slow resume_from lookback_ms stamp c s') s.closed s _
        (floor_of s.cursor, v)
        (poll_batch-IsOnce owner db s h v (read_event_batch db build_id owner s.cursor lookback_ms)
          refl)

  polls-IsOnce :
      (steps : List (Owner × Tables J)) (s : Stream)
      → All KeepsMessages steps
      → IsOnce is_slow resume_from lookback_ms stamp (floor_of s.cursor) s
      → (c : ℕ) × IsOnce is_slow resume_from lookback_ms stamp c
          (polls is_slow resume_from lookback_ms build_id steps s)
  unfolding polls
  polls-IsOnce [] s h v = (floor_of s.cursor, v)
  polls-IsOnce ((owner, db) ∷ steps) s (k, h) v =
      let (c, w) = poll-IsOnce owner db s k v in
      polls-IsOnce steps (poll is_slow resume_from lookback_ms build_id owner db s) h (
        settle-IsOnce is_slow resume_from lookback_ms stamp c
          (poll is_slow resume_from lookback_ms build_id owner db s) w)

-- A connection is never sent the same message twice, however long it lasts, although each poll reads a
-- lookback window again and ids are forgotten: for any snapshots, owners in them, reading client and
-- place to resume from, where the tables keep a message's time, its id is a lower-case uuid and its
-- time has at most nineteen digits.
pub polls-IsDistinct :
    {J : Type 0} (is_slow : List Event → Bool) (resume_from : Option Cursor) (lookback_ms : ℕ)
    (stamp : String → ℕ) (build_id : String) (steps : List (Owner × Tables J))
    → All (KeepsMessages is_slow resume_from lookback_ms stamp build_id) steps
    → IsDistinct
        (ids (polls is_slow resume_from lookback_ms build_id steps (connect resume_from)).written)
unfolding connect
polls-IsDistinct is_slow resume_from lookback_ms stamp build_id steps h =
    let (c, v) =
      polls-IsOnce is_slow resume_from lookback_ms stamp build_id steps (connect resume_from) h
        (record { distinct = tt; known = tt; floor = omega arith }) in
    v.distinct
