-- ===== src/Gateway/ChatStore/Replays.antt =====
-- apps/gateway/src/chat-store.ts: what every outcome of a submission leaves, and repeated requests.
use albusforge.Prelude.{
  ℕ, ◌+◌, ◌*◌, ◌≤◌, ◌<◌, ◌≡◌, refl, ap, ◌∙◌, String, Bool, true, ◌&&◌, List, [], ◌∷◌, ◌++◌, Option,
  none, some, ltb, keep, max, All, keep-append, All-imp, find-append, arith, Bool-cases,
  Option-cases, inl, inr, eq_iff, and-true,
}
use albusforge.Tables.{Build, BuildMessage, Tables}
use albusforge.Gateway.ChatStore.{
  Owner, is_value, is_before, newest, messages_of, last_message_of, owned_build, find_owned_build,
}
use albusforge.Gateway.ChatStore.Cursors.{is_uuid, same_uuid}
use albusforge.Gateway.ChatStore.Writes.{
  SubmitMessageResult, SubmitMessage, Given, is_user, max_created, submitted_at, replay_in, waiting,
  submitted, admit_message, submit_to_owned, submit_user_message,
}

pub is_before-earlier : (m n : BuildMessage) → m.created_at < n.created_at → is_before m n ≡ true
unfolding is_before
is_before-earlier m n h = ground (arith, h)

-- A message later than all others is the newest.
newest-last :
    (ms : List BuildMessage) (m : BuildMessage)
    → All (λ (x : BuildMessage). x.created_at < m.created_at) ms
    → newest (ms ++ m ∷ []) ≡ some m
unfolding newest
newest-last [] m h = refl
newest-last (x ∷ ms) m h = rw (newest-last ms m h.1, is_before-earlier x m h.0) refl

max_created-none : (ms : List BuildMessage) → max_created ms ≡ none → ms ≡ []
max_created-none [] h = refl
max_created-none (x ∷ ms) h = elim (Option-cases (max_created ms)) [
  | inl alone ↦ absurd (ground (arith, h, alone))
  | inr (u, last) ↦ absurd (ground (arith, h, last))
]

max_created-le :
    (ms : List BuildMessage) (t : ℕ)
    → max_created ms ≡ some t
    → All (λ (x : BuildMessage). x.created_at ≤ t) ms
max_created-le [] t h = tt
max_created-le (x ∷ ms) t h = elim (Option-cases (max_created ms)) [
  | inl alone ↦
      let only : ms ≡ [] = max_created-none ms alone in
      let here : x.created_at ≡ t = ground (arith, h, alone) in (omega (arith, here), rw only tt)
  | inr (u, last) ↦
      let top : max x.created_at u ≡ t = ground (arith, h, last) in
      (
        omega (arith, top),
        All-imp (λ (y : BuildMessage). y.created_at ≤ u) (λ (y : BuildMessage). y.created_at ≤ t) ms
            (λ y k. omega (arith, k, top)) (max_created-le ms u last),
      )
]

-- The new message comes two microseconds after every other one, at least.
submitted_at-later :
    (clock : ℕ) (ms : List BuildMessage)
    → All (λ (x : BuildMessage). x.created_at + 2 ≤ submitted_at clock ms) ms
unfolding submitted_at
submitted_at-later clock ms = elim (Option-cases (max_created ms)) [
  | inl alone ↦ let only : ms ≡ [] = max_created-none ms alone in rw only tt
  | inr (t, last) ↦
      rw (last, submitted_at)
        (All-imp (λ (x : BuildMessage). x.created_at ≤ t)
          (λ (x : BuildMessage). x.created_at + 2 ≤ max clock (t + 2)) ms (λ x h. omega (arith, h))
          (max_created-le ms t last))
]

-- What a submission leaves, for each of its outcomes.
abbrev pub Leaves :
    {J : Type 0} → SubmitMessage → Given → Tables J → SubmitMessageResult × Tables J → Type 0
Leaves i g db (SubmitMessageResult.created m, db') =
    (m ≡ submitted i g db)
    × (db' ≡ record db { build_messages = db.build_messages ++ m ∷ [] })
    × All (λ (x : BuildMessage). x.created_at + 2 ≤ m.created_at) (messages_of i.build_id db)
    × (newest (messages_of i.build_id db') ≡ some m)
    × (replay_in i.client_message_id (messages_of i.build_id db) ≡ none)
    × (i.admit ≡ none)
    × ((b : Build) × (find_owned_build db i.build_id i.owner ≡ some b))
    × ((x : BuildMessage)
        → newest (messages_of i.build_id db) ≡ some x
        → is_user x.role ≡ true
        → x.created_at + i.pending_within_s * 1000000 ≤ g.now)
Leaves i g db (SubmitMessageResult.replayed m, db') =
    (db' ≡ db) × (replay_in i.client_message_id (messages_of i.build_id db) ≡ some m)
Leaves i g db (SubmitMessageResult.pending id, db') =
    (db' ≡ db)
    × ((m : BuildMessage) × (newest (messages_of i.build_id db) ≡ some m)
        × (m.id ≡ id)
        × (is_user m.role ≡ true)
        × (g.now < m.created_at + i.pending_within_s * 1000000))
Leaves i g db (SubmitMessageResult.not_found, db') =
    (db' ≡ db) × (find_owned_build db i.build_id i.owner ≡ none)
Leaves i g db (SubmitMessageResult.refused reason, db') = (db' ≡ db) × (i.admit ≡ some reason)

same_uuid-same : (stored id : String) → stored ≡ id → same_uuid stored id ≡ true
unfolding same_uuid
same_uuid-same stored id e = rw ((eq_iff stored id).1 e, same_uuid) refl

pub messages_of-append :
    {J : Type 0} (id : String) (db : Tables J) (m : BuildMessage)
    → m.build_id ≡ id
    → keep (λ (x : BuildMessage). same_uuid x.build_id id) (db.build_messages ++ m ∷ [])
      ≡ messages_of id db ++ m ∷ []
messages_of-append id db m e =
    let here : same_uuid m.build_id id ≡ true = same_uuid-same m.build_id id e in
    keep-append (λ (x : BuildMessage). same_uuid x.build_id id) db.build_messages (m ∷ [])
    ∙ rw here refl

waiting-some :
    (m : BuildMessage) (recent : Bool) (id : String)
    → waiting (some (m, recent)) ≡ some id
    → (m.id ≡ id) × (is_user m.role ≡ true) × (recent ≡ true)
waiting-some m recent id h = elim (Bool-cases (is_user m.role && recent)) [
  | inr calm ↦ absurd (ground (arith, h, calm))
  | inl both ↦
      let (user, new) = and-true (is_user m.role) recent both in
      (ground (arith, h, both), user, new)
]

waiting-pending :
    {J : Type 0} (db : Tables J) (build_id id : String) (within_s now : ℕ)
    → waiting (last_message_of db build_id within_s now) ≡ some id
    → (m : BuildMessage) × (newest (messages_of build_id db) ≡ some m)
      × (m.id ≡ id)
      × (is_user m.role ≡ true)
      × (now < m.created_at + within_s * 1000000)
unfolding last_message_of
waiting-pending db build_id id within_s now h =
    elim (Option-cases (newest (messages_of build_id db))) [
      | inl empty ↦
          let none_waits : waiting none ≡ some id = rw (empty, last_message_of) at h in
          absurd (ground (arith, none_waits))
      | inr (m, last) ↦
          let recent : Bool = ltb now (m.created_at + within_s * 1000000) in
          let it_waits : waiting (some (m, recent)) ≡ some id = rw (last, last_message_of) at h in
          let (same, user, new) = waiting-some m recent id it_waits in
          (m, last, same, user, ground arith)
    ]

waiting-calm :
    {J : Type 0} (db : Tables J) (build_id : String) (within_s now : ℕ)
    → waiting (last_message_of db build_id within_s now) ≡ none
    → (x : BuildMessage) → newest (messages_of build_id db) ≡ some x
    → is_user x.role ≡ true
    → x.created_at + within_s * 1000000 ≤ now
unfolding last_message_of
waiting-calm db build_id within_s now h x last user =
    let recent : Bool = ltb now (x.created_at + within_s * 1000000) in
    let calm : waiting (some (x, recent)) ≡ none = rw (last, last_message_of) at h in
    elim (Bool-cases recent) [
      | inr old ↦ ground (arith, old)
      | inl new ↦ absurd (ground (arith, calm, user, new))
    ]

module _ {J : Type 0} where
  admit_message-Leaves :
      (i : SubmitMessage) (g : Given) (db : Tables J) (b : Build)
      → find_owned_build db i.build_id i.owner ≡ some b
      → replay_in i.client_message_id (messages_of i.build_id db) ≡ none
      → Leaves i g db (admit_message i g db)
  unfolding admit_message
  admit_message-Leaves i g db b owned fresh =
      elim (Option-cases (waiting (last_message_of db i.build_id i.pending_within_s g.now))) [
        | inr (id, waits) ↦
            rw (waits, admit_message)
              (refl, waiting-pending db i.build_id id i.pending_within_s g.now waits)
        | inl calm ↦ elim (Option-cases i.admit) [
          | inr (reason, barred) ↦ rw (calm, barred, admit_message) (refl, refl)
          | inl let_in ↦
              rw (calm, let_in, admit_message)
                (let m = submitted i g db in
                  let after = submitted_at-later g.clock (messages_of i.build_id db) in
                  (
                    refl,
                    refl,
                    after,
                    ap newest (messages_of-append i.build_id db m refl)
                        ∙ newest-last (messages_of i.build_id db) m (
                            All-imp (λ (x : BuildMessage). x.created_at + 2 ≤ m.created_at)
                              (λ (x : BuildMessage). x.created_at < m.created_at)
                              (messages_of i.build_id db) (λ x k. omega (arith, k)) after),
                    fresh,
                    refl,
                    (b, owned),
                    waiting-calm db i.build_id i.pending_within_s g.now calm,
                  ))
        ]
      ]

  submit_to_owned-Leaves :
      (i : SubmitMessage) (g : Given) (db : Tables J) (b : Build)
      → find_owned_build db i.build_id i.owner ≡ some b
      → Leaves i g db (submit_to_owned i g db)
  unfolding submit_to_owned
  submit_to_owned-Leaves i g db b owned =
      elim (Option-cases (replay_in i.client_message_id (messages_of i.build_id db))) [
        | inr (m, old) ↦ rw (old, submit_to_owned) (refl, old)
        | inl fresh ↦ rw (fresh, submit_to_owned) (admit_message-Leaves i g db b owned fresh)
      ]

-- `submitUserMessage` on every outcome. A created message is the new row and nothing else changes:
-- the owner holds the build, the client's id is new to it, the message is admitted, and the newest
-- message before it is not a recent one of the user's; it comes at
-- least two microseconds after every other message of the build, whatever the clock says, and is the
-- newest. Any other outcome changes nothing: a replay returns the stored message of that client id,
-- `pending` names the newest message, a recent one of the user's, `not_found` means that the owner
-- holds no such build, and a refusal is that of `admit`.
pub submit_user_message-Leaves :
    {J : Type 0} (i : SubmitMessage) (g : Given) (db : Tables J)
    → Leaves i g db (submit_user_message i g db)
unfolding submit_user_message find_owned_build
submit_user_message-Leaves i g db = elim (Bool-cases (is_uuid i.build_id)) [
  | inr wrong ↦ rw (wrong, submit_user_message) (refl, rw (wrong, find_owned_build) refl)
  | inl right ↦ elim (Option-cases (owned_build db i.build_id i.owner)) [
    | inl nobody ↦
        rw (right, nobody, submit_user_message) (refl, rw (right, nobody, find_owned_build) refl)
    | inr (b, held) ↦
        rw (right, held, submit_user_message)
          (submit_to_owned-Leaves i g db b (rw (right, held, find_owned_build) refl))
  ]
]

replay_in-created :
    (client_id : String) (ms : List BuildMessage) (m : BuildMessage)
    → m.client_message_id ≡ some client_id
    → replay_in client_id ms ≡ none
    → replay_in client_id (ms ++ m ∷ []) ≡ some m
unfolding replay_in
replay_in-created client_id ms m e fresh =
    let mine : is_value m.client_message_id client_id ≡ true =
      ap (λ c. is_value c client_id) e ∙ (eq_iff client_id client_id).1 refl in
    find-append (λ (x : BuildMessage). is_value x.client_message_id client_id) ms (m ∷ []) fresh
    ∙ rw mine refl

find_owned_build-some :
    {J : Type 0} (db : Tables J) (id : String) (owner : Owner) (b : Build)
    → find_owned_build db id owner ≡ some b
    → (is_uuid id ≡ true) × (owned_build db id owner ≡ some b)
unfolding find_owned_build
find_owned_build-some db id owner b h = elim (Bool-cases (is_uuid id)) [
  | inl right ↦ (right, rw (right, find_owned_build) at h)
  | inr wrong ↦
      let nothing : Path (Option Build) none (some b) = rw (wrong, find_owned_build) at h in
      absurd (ground (arith, nothing))
]

owned_build-same :
    {J : Type 0} (db : Tables J) (ms : List BuildMessage) (id : String) (owner : Owner)
    → owned_build (record db { build_messages = ms }) id owner ≡ owned_build db id owner
unfolding owned_build
owned_build-same db ms id owner = refl

submit_user_message-known :
    {J : Type 0} (k : SubmitMessage) (h : Given) (db : Tables J) (b : Build) (m : BuildMessage)
    → is_uuid k.build_id ≡ true
    → owned_build db k.build_id k.owner ≡ some b
    → replay_in k.client_message_id (messages_of k.build_id db) ≡ some m
    → submit_user_message k h db ≡ (SubmitMessageResult.replayed m, db)
unfolding submit_user_message submit_to_owned
submit_user_message-known k h db b m right held old =
    rw (right, held, submit_user_message) (rw (old, submit_to_owned) refl)

-- The same owner that submits again under the same client id, after the message was created, gets that
-- message back and changes nothing, whatever the new text, time, ids and limits are.
pub submit_user_message-twice :
    {J : Type 0} (i k : SubmitMessage) (g h : Given) (db db' : Tables J) (m : BuildMessage)
    → k.build_id ≡ i.build_id
    → k.owner ≡ i.owner
    → k.client_message_id ≡ i.client_message_id
    → submit_user_message i g db ≡ (SubmitMessageResult.created m, db')
    → submit_user_message k h db' ≡ (SubmitMessageResult.replayed m, db')
submit_user_message-twice {J} i k g h db db' m same_build same_owner same_id sent =
    let left : Leaves i g db (SubmitMessageResult.created m, db') =
      rw sent at (submit_user_message-Leaves i g db) in
    let (right, held) = find_owned_build-some db i.build_id i.owner left.6.0 left.6.1 in
    let held' : owned_build db' i.build_id i.owner ≡ some left.6.0 =
      ap (λ (d : Tables J). owned_build d i.build_id i.owner) left.1
      ∙ owned_build-same db _ i.build_id i.owner
      ∙ held in
    let old : replay_in i.client_message_id (messages_of i.build_id db') ≡ some m =
      ap (λ (d : Tables J). replay_in i.client_message_id (messages_of i.build_id d)) left.1
      ∙ ap (replay_in i.client_message_id)
          (messages_of-append i.build_id db m (ap (λ (x : BuildMessage). x.build_id) left.0))
      ∙ replay_in-created i.client_message_id (messages_of i.build_id db) m
          (ap (λ (x : BuildMessage). x.client_message_id) left.0) left.4 in
    submit_user_message-known k h db' left.6.0 m (rw same_build right)
      (rw (same_build, same_owner) held') (rw (same_build, same_id) old)
