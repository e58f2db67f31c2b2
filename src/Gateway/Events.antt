-- ===== src/Gateway/Events.antt =====
-- apps/gateway/src/sse.ts, `streamBuildEvents`: what one connection is sent. The variables of the closure
-- are a `Stream`, and a poll acts on it. What a client leaves unread is a parameter: `is_slow`
-- tells whether it is to be dropped after everything that was written to it, newest first. The
-- heartbeat, which writes a comment, and the timers of the drain are not modelled.
pub mod Once
pub mod Runs
pub mod Delivery
mod Tests
use albusforge.Prelude.{
  ℕ, ◌+◌, ◌*◌, String, Bool, true, false, not, ◌&&◌, ◌||◌, List, [], ◌∷◌, Option, none, some,
  Ordering, if◌then◌else◌, ltb, eqb, keep,
}
use albusforge.Prelude.Assoc.{lookup, insert}
use albusforge.Tables.{BuildStatus, BuildMessage, Tables}
use albusforge.Gateway.ChatStore.{Owner, BuildState, EventBatch, read_event_batch}
use albusforge.Gateway.ChatStore.Cursors.{Cursor, parse_cursor, cursor_text, compare_cursors}

-- An event and the id that it carries.
pub data Event : Type 0 where
  build_updated : BuildState → (id : Option Cursor) → Event
  message_created : BuildMessage → (id : Cursor) → Event

pub record Stream : Type 0 where
  pub closed : Bool
  pub cursor : Option Cursor
  pub last_state : Option BuildState
  pub sent : List (String × ℕ)
  pub written : List Event

abbrev is_gone : Option ℕ → Bool
is_gone none = false
is_gone (some micros) = true

-- `sent.has(id)`
unfoldable pub has_sent : String → List (String × ℕ) → Bool
has_sent id sent = is_gone (lookup id sent)

-- `!cursor || compareCursors(position, cursor) > 0`
unfoldable pub is_ahead : Cursor → Option Cursor → Bool
is_ahead position none = true
is_ahead position (some cursor) = elim (compare_cursors position cursor) [
  | Ordering.gt ↦ true
  | _ ↦ false
]

abbrev rank : BuildStatus → ℕ
rank BuildStatus.asking = 0
rank BuildStatus.specifying = 1
rank BuildStatus.planning = 2
rank BuildStatus.coding = 3
rank BuildStatus.bodying = 4
rank BuildStatus.ready = 5
rank BuildStatus.ordered = 6

abbrev same_version : Option ℕ → Option ℕ → Bool
same_version none none = true
same_version (some v) (some w) = eqb v w
same_version _ _ = false

-- `!lastState || state.status !== lastState.status || state.specVersion !== lastState.specVersion`
abbrev pub is_change : BuildState → Option BuildState → Bool
is_change state none = true
is_change state (some last) = not (
    eqb (rank state.status) (rank last.status) && same_version state.spec_version last.spec_version)

unfoldable pub connect : (resume_from : Option Cursor) → Stream
connect resume_from = record {
  closed = false;
  cursor = resume_from;
  last_state = none;
  sent = [];
  written = [];
}

module _ (is_slow : List Event → Bool) (resume_from : Option Cursor) (lookback_ms : ℕ) where
  -- `send`: a closed stream writes nothing, and a slow client is dropped.
  unfoldable pub send : Event → Stream → Stream
  send e s =
      if s.closed then s else record s { written = e ∷ s.written; closed = is_slow (e ∷ s.written) }

  unfoldable pub tell_state : BuildState → Stream → Stream
  tell_state state s =
      if is_change state s.last_state
      then record (send (Event.build_updated state s.cursor) s) { last_state = some state }
      else s

  -- The body of the `for`, at a position that was read.
  unfoldable pub tell_message : BuildMessage → Cursor → Stream → Stream
  tell_message row position s =
      if has_sent row.id s.sent || not (is_ahead position resume_from)
      then s
      else send (Event.message_created row position) (record s {
        sent = insert row.id position.micros s.sent;
        cursor = if is_ahead position s.cursor then some position else s.cursor;
      })

  unfoldable pub tell_row : BuildMessage → Option Cursor → Stream → Stream
  tell_row row none s = s
  tell_row row (some position) s = tell_message row position s

  -- The position that the row's `cursor` column spells.
  unfoldable pub position_of : BuildMessage → Option Cursor
  position_of row =
      parse_cursor (some (cursor_text (record { micros = row.created_at; id = row.id })))

  -- The `for`, which a close ends: a closed stream is left as it is.
  unfoldable pub tell_rows : List BuildMessage → Stream → Stream
  tell_rows [] s = s
  tell_rows (row ∷ rows) s =
      if s.closed then s else tell_rows rows (tell_row row (position_of row) s)

  abbrev pub forget_from : Option Cursor → List (String × ℕ) → List (String × ℕ)
  forget_from none sent = sent
  forget_from (some cursor) sent =
      keep (λ (e : String × ℕ). not (ltb (e.1 + lookback_ms * 2000) cursor.micros)) sent

  -- The end of a poll that was not cut short. A row that closes the stream and is the last one is
  -- not cut short in the source, where `sent` no longer matters then.
  unfoldable pub forget : Stream → Stream
  forget s = if s.closed then s else record s { sent = forget_from s.cursor s.sent }

  unfoldable pub poll_batch : Option EventBatch → Stream → Stream
  poll_batch none s = record s { closed = true }
  poll_batch (some batch) s = forget (tell_rows batch.messages (tell_state batch.state s))

  -- `loop`, of a client that has read: a closed stream does not poll. The snapshot has the owner that
  -- the credentials have in it.
  unfoldable pub poll : {J : Type 0} → String → Owner → Tables J → Stream → Stream
  poll build_id owner db s =
      let polled = poll_batch (read_event_batch db build_id owner s.cursor lookback_ms) s in
      if s.closed then s else polled

  -- One poll after another, each of its own snapshot.
  unfoldable pub polls : {J : Type 0} → String → List (Owner × Tables J) → Stream → Stream
  polls build_id [] s = s
  polls build_id ((owner, db) ∷ steps) s = polls build_id steps (poll build_id owner db s)
