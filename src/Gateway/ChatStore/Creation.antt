-- ===== src/Gateway/ChatStore/Creation.antt =====
-- apps/gateway/src/chat-store.ts: a build that is created twice under one client id.
use albusforge.Prelude.{
  ◌≡◌, ◌≢◌, refl, sym, ap, ◌∙◌, String, Bool, true, false, ◌&&◌, List, [], ◌∷◌, ◌++◌, none, some,
  if◌then◌else◌, ◌==◌, keep, any, All, All-imp, keep-append, any-append, keep-ext, arith,
  Bool-cases, Option-cases, inl, inr, eq_iff,
}
use albusforge.Tables.{Build, BuildMessage, Tables}
use albusforge.Gateway.ChatStore.{Owner, is_null, owned_by}
use albusforge.Gateway.ChatStore.Writes.{
  CreateBuildResult, CreateBuild, Given, opens, oldest, is_new, new_build, first_message,
  find_build_by_first_message, replay_of, insert_build, create_build,
}

oldest-none : (bs : List Build) → oldest bs ≡ none → bs ≡ []
unfolding oldest
oldest-none [] h = refl
oldest-none (b ∷ bs) h = elim (Option-cases (oldest bs)) [
  | inl alone ↦ absurd (ground (arith, h, alone))
  | inr (c, more) ↦ absurd (ground (arith, h, more))
]

-- The owner of a new build holds it.
new_build-owned :
    (i : CreateBuild) (g : Given)
    → (is_null i.owner.tenant_id && is_null i.owner.anon_hash) ≡ false
    → owned_by i.owner (new_build i g) ≡ true
unfolding owned_by
new_build-owned i g h = elim (Option-cases i.owner.tenant_id) [
  | inr (t, signed_in) ↦ ground (arith, signed_in, (eq_iff t t).1 refl)
  | inl anonymous ↦ elim (Option-cases i.owner.anon_hash) [
    | inl nobody ↦ absurd (ground (arith, h, anonymous, nobody))
    | inr (hash, cookie) ↦ ground (arith, anonymous, cookie, (eq_iff hash hash).1 refl)
  ]
]

opens-first_message :
    (i : CreateBuild) (g : Given) (client_id : String)
    → i.client_message_id ≡ some client_id
    → opens client_id (new_build i g) (first_message i g) ≡ true
unfolding opens
opens-first_message i g client_id e = ground (
  arith,
  e,
  (eq_iff g.build_id g.build_id).1 refl,
  (eq_iff client_id client_id).1 refl,
  (eq_iff i.ask_text i.ask_text).1 refl,
)

opens-other :
    (i : CreateBuild) (g : Given) (client_id : String) (b : Build)
    → b.id ≢ g.build_id
    → opens client_id b (first_message i g) ≡ false
unfolding opens
opens-other i g client_id b h = elim (Bool-cases (g.build_id == b.id)) [
  | inl same ↦ absurd (h (sym ((eq_iff g.build_id b.id).0 same)))
  | inr other ↦ rw other refl
]

any-opens_other :
    (i : CreateBuild) (g : Given) (client_id : String) (ms : List BuildMessage) (b : Build)
    → b.id ≢ g.build_id
    → any (opens client_id b) (ms ++ first_message i g ∷ []) ≡ any (opens client_id b) ms
any-opens_other i g client_id ms b h = ground (
  arith,
  any-append (opens client_id b) ms (first_message i g ∷ []),
  opens-other i g client_id b h,
)

any-opens_first :
    (i : CreateBuild) (g : Given) (client_id : String) (ms : List BuildMessage)
    → i.client_message_id ≡ some client_id
    → any (opens client_id (new_build i g)) (ms ++ first_message i g ∷ []) ≡ true
any-opens_first i g client_id ms named = ground (
  arith,
  any-append (opens client_id (new_build i g)) ms (first_message i g ∷ []),
  opens-first_message i g client_id named,
)

-- With its first message, a new build is the only one that the client's id opened.
find_build-created :
    {J : Type 0} (i : CreateBuild) (g : Given) (client_id : String) (db : Tables J)
    → i.client_message_id ≡ some client_id
    → (is_null i.owner.tenant_id && is_null i.owner.anon_hash) ≡ false
    → All (λ (b : Build). b.id ≢ g.build_id) db.builds
    → find_build_by_first_message db i.owner client_id ≡ none
    → find_build_by_first_message
        (record db {
          builds = db.builds ++ new_build i g ∷ [];
          build_messages = db.build_messages ++ first_message i g ∷ [];
        })
        i.owner
        client_id
      ≡ some (new_build i g)
unfolding find_build_by_first_message oldest
find_build-created i g client_id db named someone fresh unknown =
    let opened_by =
      λ (ms : List BuildMessage) (b : Build). owned_by i.owner b && any (opens client_id b) ms in
    let ms = db.build_messages ++ first_message i g ∷ [] in
    let old : keep (opened_by ms) db.builds ≡ [] =
      keep-ext (opened_by ms) (opened_by db.build_messages) db.builds (
        All-imp (λ (b : Build). b.id ≢ g.build_id)
          (λ (b : Build). opened_by ms b ≡ opened_by db.build_messages b) db.builds
          (λ b h.
            ap (λ found. owned_by i.owner b && found)
              (any-opens_other i g client_id db.build_messages b h))
          fresh)
      ∙ oldest-none (keep (opened_by db.build_messages) db.builds) unknown in
    let new : opened_by ms (new_build i g) ≡ true =
      ap (λ own. own && any (opens client_id (new_build i g)) ms) (new_build-owned i g someone)
      ∙ any-opens_first i g client_id db.build_messages named in
    ap oldest (
      keep-append (opened_by ms) db.builds (new_build i g ∷ [])
      ∙ ap (λ bs. bs ++ keep (opened_by ms) (new_build i g ∷ [])) old
      ∙ ap (λ found. if found then new_build i g ∷ [] else []) new)

-- What a creation leaves: the new rows, or the tables as they were.
abbrev pub Makes :
    {J : Type 0} → CreateBuild → Given → Tables J → CreateBuildResult × Tables J → Type 0
Makes i g db (CreateBuildResult.created b m, db') =
    (b ≡ new_build i g)
    × (db' ≡ record db {
      builds = db.builds ++ new_build i g ∷ [];
      build_messages = db.build_messages ++ first_message i g ∷ [];
    })
    × ((is_null i.owner.tenant_id && is_null i.owner.anon_hash) ≡ false)
    × (replay_of db i.owner i.client_message_id ≡ none)
Makes i g db (CreateBuildResult.replayed b, db') = db' ≡ db
Makes i g db (CreateBuildResult.refused reason, db') = db' ≡ db

module _ {J : Type 0} (i : CreateBuild) (g : Given) (db : Tables J) where
  insert_build-Makes :
      replay_of db i.owner i.client_message_id ≡ none → Makes i g db (insert_build i g db)
  unfolding insert_build
  insert_build-Makes unknown =
      elim (Bool-cases (is_null i.owner.tenant_id && is_null i.owner.anon_hash)) [
        | inl nobody ↦ rw (nobody, insert_build) refl
        | inr someone ↦ rw (someone, insert_build) (refl, refl, someone, unknown)
      ]

  create_build-Makes : Makes i g db (create_build i g db)
  unfolding create_build
  create_build-Makes = elim (Option-cases (replay_of db i.owner i.client_message_id)) [
    | inr (b, known) ↦ rw (known, create_build) refl
    | inl unknown ↦
        let new : Bool = is_new i.owner.tenant_id i.owner.anon_hash db.builds in
        elim (Option-cases (i.admit new)) [
          | inr (reason, barred) ↦ rw (unknown, barred, create_build) refl
          | inl let_in ↦ rw (unknown, let_in, create_build) (insert_build-Makes unknown)
        ]
  ]

create_build-known :
    {J : Type 0} (k : CreateBuild) (h : Given) (db : Tables J) (client_id : String) (b : Build)
    → k.client_message_id ≡ some client_id
    → find_build_by_first_message db k.owner client_id ≡ some b
    → create_build k h db ≡ (CreateBuildResult.replayed b, db)
unfolding create_build
create_build-known k h db client_id b named known =
    let found : replay_of db k.owner k.client_message_id ≡ some b =
      ap (replay_of db k.owner) named ∙ known in
    rw (found, create_build) refl

-- The same owner that creates a build again under the client id of one that was created gets that build
-- back and changes nothing, whatever the new text, time, ids and limits are. The id that the database
-- gave out was new.
pub create_build-twice :
    {J : Type 0} (i k : CreateBuild) (g h : Given) (db db' : Tables J) (client_id : String)
    (b : Build) (m : BuildMessage)
    → i.client_message_id ≡ some client_id
    → k.client_message_id ≡ some client_id
    → k.owner ≡ i.owner
    → All (λ (x : Build). x.id ≢ g.build_id) db.builds
    → create_build i g db ≡ (CreateBuildResult.created b m, db')
    → create_build k h db' ≡ (CreateBuildResult.replayed b, db')
create_build-twice {J} i k g h db db' client_id b m named again same fresh done =
    let (is_new_build, inserted, someone, unknown) : Makes i g db
        (CreateBuildResult.created b m, db') =
      rw done at (create_build-Makes i g db) in
    create_build-known k h db' client_id b again (
      ap (λ (o : Owner). find_build_by_first_message db' o client_id) same
      ∙ ap (λ (d : Tables J). find_build_by_first_message d i.owner client_id) inserted
      ∙ find_build-created i g client_id db named someone fresh
          (ap (replay_of db i.owner) (sym named) ∙ unknown)
      ∙ ap some (sym is_new_build))
