-- ===== src/Gateway/Events/Once.antt =====
-- apps/gateway/src/sse.ts: no message is written to a connection twice.
use albusforge.Prelude.{
  ℕ, ◌+◌, ◌*◌, ◌^◌, ◌≤◌, ◌<◌, ◌≡◌, ◌≢◌, refl, sym, ap, ◌∙◌, ◌⊎◌, String, Bool, true, false, not,
  ◌||◌, List, [], ◌∷◌, Option, none, some, if◌then◌else◌, ltb, ◌==◌, All, All-imp, arith,
  Bool-cases, inl, inr, eq_iff,
}
use albusforge.Prelude.Assoc.{lookup, insert, lookup-insert, lookup-keep}
use albusforge.Tables.{BuildMessage}
use albusforge.Gateway.ChatStore.{BuildState}
use albusforge.Gateway.ChatStore.Cursors.{Cursor, is_lower_uuid, compare_cursors}
use albusforge.Gateway.Events.{
  Event, Stream, has_sent, is_ahead, is_change, send, tell_state, tell_message, tell_row,
  position_of, tell_rows, forget_from, forget,
}

-- The ids of the messages that were written, newest first.
abbrev pub ids : List Event → List String
ids [] = []
ids (Event.build_updated state id ∷ l) = ids l
ids (Event.message_created row id ∷ l) = row.id ∷ ids l

abbrev pub IsDistinct : List String → Type 0
IsDistinct [] = Unit
IsDistinct (x ∷ xs) = All (λ y. y ≢ x) xs × IsDistinct xs

-- The time of a cursor, 0 for none.
abbrev pub floor_of : Option Cursor → ℕ
floor_of none = 0
floor_of (some cursor) = cursor.micros

abbrev pub place_of : BuildMessage → Cursor
place_of row = record { micros = row.created_at; id = row.id }

pub is_ahead-le :
    (position : Cursor) (cursor : Option Cursor)
    → is_ahead position cursor ≡ true
    → floor_of cursor ≤ position.micros
unfolding is_ahead compare_cursors
is_ahead-le position none h = omega arith
is_ahead-le position (some cursor) h = ground (arith, h)

cursor-le :
    (c : ℕ) (position : Cursor) (cursor : Option Cursor)
    → c ≤ floor_of cursor
    → c ≤ floor_of (if is_ahead position cursor then some position else cursor)
cursor-le c position cursor h = elim (Bool-cases (is_ahead position cursor)) [
  | inl ahead ↦ rw ahead (omega (arith, h, is_ahead-le position cursor ahead))
  | inr behind ↦ rw behind h
]

-- A row as the database keeps it: its id is a uuid, its time a bigint that never changes.
abbrev pub IsStored : (stamp : String → ℕ) → BuildMessage → Type 0
IsStored stamp m =
    (is_lower_uuid m.id ≡ true) × (m.created_at < 10 ^ 19) × (m.created_at ≡ stamp m.id)

pub if-both : (P : Stream → Type 0) (b : Bool) (s t : Stream) → P s → P t → P (if b then s else t)
if-both P true s t p q = p
if-both P false s t p q = q

module _ (is_slow : List Event → Bool) (resume_from : Option Cursor) (lookback_ms : ℕ)
    (stamp : String → ℕ) where
  -- An id that was written is remembered, or too old to be read again.
  unfoldable pub Known : ℕ → List (String × ℕ) → String → Type 0
  Known c sent id = (lookup id sent ≡ some (stamp id)) ⊎ (stamp id + lookback_ms * 2000 < c)

  pub record IsOnce (c : ℕ) (s : Stream) : Type 0 where
    pub distinct : IsDistinct (ids s.written)
    pub known : All (Known c s.sent) (ids s.written)
    pub floor : c ≤ floor_of s.cursor

  -- What a poll that began at `c` reads.
  unfoldable pub IsRow : ℕ → BuildMessage → Type 0
  IsRow c row =
      (position_of is_slow resume_from lookback_ms row ≡ some (place_of row))
      × (row.created_at ≡ stamp row.id)
      × (c ≤ stamp row.id + lookback_ms * 2000)

  Known-insert :
      (c : ℕ) (sent : List (String × ℕ)) (new id : String)
      → Known c sent id
      → Known c (insert new (stamp new) sent) id
  unfolding Known
  Known-insert c sent new id (inr old) = inr old
  Known-insert c sent new id (inl there) = elim (Bool-cases (new == id)) [
    | inl same ↦
        let e : new ≡ id = (eq_iff new id).0 same in
        inl (lookup-insert new id (stamp new) sent ∙ rw same (ap (λ i. some (stamp i)) e))
    | inr other ↦ inl (lookup-insert new id (stamp new) sent ∙ rw other there)
  ]

  Known-here :
      (c : ℕ) (sent : List (String × ℕ)) (id : String) (micros : ℕ)
      → micros ≡ stamp id
      → Known c (insert id micros sent) id
  unfolding Known
  Known-here c sent id micros e =
      let mine : (id == id) ≡ true = (eq_iff id id).1 refl in
      inl (lookup-insert id id micros sent ∙ rw mine (ap (λ t. some t) e))

  Known-fresh :
      (c : ℕ) (sent : List (String × ℕ)) (new id : String)
      → has_sent new sent ≡ false
      → c ≤ stamp new + lookback_ms * 2000
      → Known c sent id
      → id ≢ new
  unfolding Known has_sent
  Known-fresh c sent new id h b (inl there) e =
      let here : lookup new sent ≡ some (stamp id) = ap (λ i. lookup i sent) (sym e) ∙ there in
      absurd (ground (arith, h, here))
  Known-fresh c sent new id h b (inr old) e =
      let same : stamp id ≡ stamp new = ap stamp e in absurd (omega (arith, same, old, b))

  send-IsOnce :
      (c : ℕ) (e : Event) (s : Stream)
      → IsOnce c s
      → IsDistinct (ids (e ∷ s.written))
      → All (Known c s.sent) (ids (e ∷ s.written))
      → IsOnce c (send is_slow resume_from lookback_ms e s)
  unfolding send
  send-IsOnce c e s v d k = elim (Bool-cases s.closed) [
    | inl shut ↦
        rw (shut, send) (record { distinct = v.distinct; known = v.known; floor = v.floor })
    | inr open' ↦ rw (open', send) (record { distinct = d; known = k; floor = v.floor })
  ]

  tell_message-IsOnce :
      (c : ℕ) (row : BuildMessage) (s : Stream)
      → IsOnce c s
      → IsRow c row
      → IsOnce c (tell_message is_slow resume_from lookback_ms row (place_of row) s)
  unfolding tell_message IsRow
  tell_message-IsOnce c row s v (placed, stamped, recent) =
      elim (Bool-cases (has_sent row.id s.sent || not (is_ahead (place_of row) resume_from))) [
        | inl known ↦ rw (known, tell_message) v
        | inr new ↦
            let unsent : has_sent row.id s.sent ≡ false = ground (arith, new) in
            let next : Stream = record s {
              sent = insert row.id row.created_at s.sent;
              cursor = if is_ahead (place_of row) s.cursor then some (place_of row) else s.cursor;
            } in
            let fresh : All (λ id. id ≢ row.id) (ids s.written) =
              All-imp (Known c s.sent) (λ id. id ≢ row.id) (ids s.written)
                (λ id k. Known-fresh c s.sent row.id id unsent recent k) v.known in
            let kept : All (Known c next.sent) (ids s.written) =
              All-imp (Known c s.sent) (Known c next.sent) (ids s.written)
                (λ id k. rw stamped (Known-insert c s.sent row.id id k)) v.known in
            let here : Known c next.sent row.id =
              Known-here c s.sent row.id row.created_at stamped in
            rw (new, tell_message)
              (send-IsOnce c (Event.message_created row (place_of row)) next
                (record {
                  distinct = v.distinct;
                  known = kept;
                  floor = cursor-le c (place_of row) s.cursor v.floor;
                })
                (fresh, v.distinct) (here, kept))
      ]

  pub tell_state-IsOnce :
      (c : ℕ) (state : BuildState) (s : Stream)
      → IsOnce c s
      → IsOnce c (tell_state is_slow resume_from lookback_ms state s)
  unfolding tell_state
  tell_state-IsOnce c state s v = elim (Bool-cases (is_change state s.last_state)) [
    | inr same ↦ rw (same, tell_state) v
    | inl changed ↦
        let w = send-IsOnce c (Event.build_updated state s.cursor) s v v.distinct v.known in
        rw (changed, tell_state)
          (record { distinct = w.distinct; known = w.known; floor = w.floor })
  ]

  tell_row-IsOnce :
      (c : ℕ) (row : BuildMessage) (position : Option Cursor) (s : Stream)
      → IsOnce c s
      → IsRow c row
      → position ≡ some (place_of row)
      → IsOnce c (tell_row is_slow resume_from lookback_ms row position s)
  unfolding tell_row
  tell_row-IsOnce c row position s v h placed =
      rw (placed, tell_row) (tell_message-IsOnce c row s v h)

  -- The loop goes on with the next row, or not at all.
  tell_rows-cons :
      (P : Stream → Type 0) (row : BuildMessage) (rows : List BuildMessage) (s : Stream)
      → P s
      → P (
          tell_rows is_slow resume_from lookback_ms rows (
            tell_row is_slow resume_from lookback_ms row
              (position_of is_slow resume_from lookback_ms row)
              s))
      → P (tell_rows is_slow resume_from lookback_ms (row ∷ rows) s)
  unfolding tell_rows
  tell_rows-cons P row rows s p q = if-both P s.closed s _ p q

  pub tell_rows-IsOnce :
      (c : ℕ) (rows : List BuildMessage) (s : Stream)
      → IsOnce c s
      → All (IsRow c) rows
      → IsOnce c (tell_rows is_slow resume_from lookback_ms rows s)
  unfolding tell_rows IsRow
  tell_rows-IsOnce c [] s v h = v
  tell_rows-IsOnce c (row ∷ rows) s v (r, h) =
      tell_rows-cons (IsOnce c) row rows s v
        (tell_rows-IsOnce c rows _ (tell_row-IsOnce c row _ s v r r.0) h)

  Known-forget :
      (c : ℕ) (cursor : Option Cursor) (sent : List (String × ℕ)) (id : String)
      → c ≤ floor_of cursor
      → Known c sent id
      → Known (floor_of cursor) (forget_from is_slow resume_from lookback_ms cursor sent) id
  unfolding Known
  Known-forget c cursor sent id h (inr old) = inr (omega (arith, h, old))
  Known-forget c none sent id h (inl there) = inl there
  Known-forget c (some cursor) sent id h (inl there) =
      elim (Bool-cases (ltb (stamp id + lookback_ms * 2000) cursor.micros)) [
        | inl old ↦ inr (ground (arith, old))
        | inr recent ↦ inl (
            lookup-keep (λ (e : String × ℕ). not (ltb (e.1 + lookback_ms * 2000) cursor.micros)) id
              (stamp id) sent (ap not recent) there)
      ]

  weaken-IsOnce :
      (c c' : ℕ) (s : Stream) → c ≤ c' → c' ≤ floor_of s.cursor → IsOnce c s → IsOnce c' s
  unfolding Known
  weaken-IsOnce c c' s h k v = record {
    distinct = v.distinct;
    known =
        All-imp (Known c s.sent) (Known c' s.sent) (ids s.written)
          (λ id. elim [ inl there ↦ inl there | inr old ↦ inr (omega (arith, h, old)) ]) v.known;
    floor = k;
  }

  pub forget-IsOnce :
      (c : ℕ) (s : Stream)
      → IsOnce c s
      → IsOnce (floor_of s.cursor) (forget is_slow resume_from lookback_ms s)
  unfolding forget
  forget-IsOnce c s v =
      if-both (IsOnce (floor_of s.cursor)) s.closed s _
        (weaken-IsOnce c (floor_of s.cursor) s v.floor (omega arith) v)
        (record {
          distinct = v.distinct;
          known =
              All-imp (Known c s.sent)
                (Known (floor_of s.cursor)
                  (forget_from is_slow resume_from lookback_ms s.cursor s.sent))
                (ids s.written) (λ id k. Known-forget c s.cursor s.sent id v.floor k) v.known;
          floor = omega arith;
        })

  pub settle-IsOnce : (c : ℕ) (s : Stream) → IsOnce c s → IsOnce (floor_of s.cursor) s
  settle-IsOnce c s v = weaken-IsOnce c (floor_of s.cursor) s v.floor (omega arith) v
