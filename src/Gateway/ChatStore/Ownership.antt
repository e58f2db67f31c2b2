-- ===== src/Gateway/ChatStore/Ownership.antt =====
-- apps/gateway/src/chat-store.ts: who reaches a build.
use albusforge.Prelude.{
  ℕ, ◌≡◌, ◌≢◌, refl, sym, ap, ◌∙◌, String, true, false, ◌&&◌, [], Option, none, some, All, arith,
  Bool-cases, Option-cases, inl, inr, eq_iff, find-none,
}
use albusforge.Prelude.Sort.{sort_by}
use albusforge.Tables.{Build, Tables}
use albusforge.Gateway.ChatStore.{
  Owner, is_null, owned_by, owned_build, find_owned_build, build_state, held_messages,
  list_messages, messages_since, read_event_batch,
}
use albusforge.Gateway.ChatStore.Cursors.{Cursor, is_uuid, same_uuid}
use albusforge.Gateway.ChatStore.Writes.{
  SubmitMessageResult, SubmitMessage, Given, submit_user_message,
}

-- A tenant's build is not the owner's who is not of that tenant.
owned_by-other :
    (owner : Owner) (b : Build) (tenant : String)
    → b.tenant_id ≡ some tenant
    → owner.tenant_id ≢ some tenant
    → owned_by owner b ≡ false
unfolding owned_by
owned_by-other owner b tenant claimed other =
    let theirs : is_null b.tenant_id ≡ false = ap is_null claimed in
    elim (Option-cases owner.tenant_id) [
      | inl anonymous ↦ ground (arith, theirs, anonymous)
      | inr (t, signed_in) ↦
          let differs : tenant ≢ t = λ e. other (signed_in ∙ ap some (sym e)) in
          ground (arith, theirs, signed_in, differs, claimed, eq_iff tenant t)
    ]

-- Every build with the id is the tenant's.
abbrev pub IsClaimed : {J : Type 0} → Tables J → String → String → Type 0
IsClaimed db id tenant =
    All (λ (b : Build). same_uuid b.id id ≡ true → b.tenant_id ≡ some tenant) db.builds

module _ {J : Type 0} where
  owned_build-other :
      (db : Tables J) (id tenant : String) (owner : Owner)
      → IsClaimed db id tenant
      → owner.tenant_id ≢ some tenant
      → owned_build db id owner ≡ none
  unfolding owned_build
  owned_build-other db id tenant owner claimed other =
      find-none (λ (b : Build). same_uuid b.id id && owned_by owner b)
        (λ (b : Build). same_uuid b.id id ≡ true → b.tenant_id ≡ some tenant) db.builds
        (λ b mine. elim (Bool-cases (same_uuid b.id id)) [
          | inr elsewhere ↦ rw elsewhere refl
          | inl here ↦ rw (here, owned_by-other owner b tenant (mine here) other) refl
        ])
        claimed

-- Each read of a build, by an owner who does not hold it.
abbrev pub SeesNothing : {J : Type 0} → Tables J → String → Owner → Type 0
SeesNothing db id owner =
    (find_owned_build db id owner ≡ none)
    × (build_state db id owner ≡ none)
    × (list_messages db id owner ≡ [])
    × ((after : Option Cursor) (lookback_ms : ℕ)
        → (messages_since db id owner after lookback_ms ≡ [])
          × (read_event_batch db id owner after lookback_ms ≡ none))
    × ((i : SubmitMessage) (g : Given)
        → i.build_id ≡ id
        → i.owner ≡ owner
        → submit_user_message i g db ≡ (SubmitMessageResult.not_found, db))

module _ {J : Type 0} (db : Tables J) (id : String) (owner : Owner) where
  held_messages-none : owned_build db id owner ≡ none → held_messages db id owner ≡ []
  unfolding held_messages
  held_messages-none nobody = rw (nobody, held_messages) refl

  build_state-none : owned_build db id owner ≡ none → build_state db id owner ≡ none
  unfolding build_state
  build_state-none nobody = rw (nobody, build_state) refl

  find_owned_build-none : owned_build db id owner ≡ none → find_owned_build db id owner ≡ none
  unfolding find_owned_build
  find_owned_build-none nobody = rw (nobody, find_owned_build) (ground arith)

  list_messages-none : owned_build db id owner ≡ none → list_messages db id owner ≡ []
  unfolding list_messages sort_by
  list_messages-none nobody = rw (held_messages-none nobody) refl

  messages_since-none :
      (after : Option Cursor) (lookback_ms : ℕ)
      → owned_build db id owner ≡ none
      → messages_since db id owner after lookback_ms ≡ []
  unfolding messages_since sort_by
  messages_since-none after lookback_ms nobody = rw (held_messages-none nobody) refl

  read_event_batch-none :
      (after : Option Cursor) (lookback_ms : ℕ)
      → owned_build db id owner ≡ none
      → read_event_batch db id owner after lookback_ms ≡ none
  unfolding read_event_batch
  read_event_batch-none after lookback_ms nobody =
      rw (build_state-none nobody, read_event_batch) (ground arith)

  submit-none :
      (i : SubmitMessage) (g : Given)
      → owned_build db id owner ≡ none
      → i.build_id ≡ id
      → i.owner ≡ owner
      → submit_user_message i g db ≡ (SubmitMessageResult.not_found, db)
  unfolding submit_user_message
  submit-none i g nobody same_build same_owner =
      let nothing : owned_build db i.build_id i.owner ≡ none = rw (same_build, same_owner) nobody in
      elim (Bool-cases (is_uuid i.build_id)) [
        | inl right ↦ rw (right, nothing, submit_user_message) refl
        | inr wrong ↦ rw (wrong, submit_user_message) refl
      ]

-- A build that a tenant has claimed is out of reach for everyone else, the anonymous owner who began
-- it included: for an owner who is not of that tenant, every read of the build finds nothing, whatever
-- the cookie's hash, and a submission is `not_found` and changes nothing.
pub claimed-SeesNothing :
    {J : Type 0} (db : Tables J) (id tenant : String) (owner : Owner)
    → IsClaimed db id tenant
    → owner.tenant_id ≢ some tenant
    → SeesNothing db id owner
claimed-SeesNothing db id tenant owner claimed other =
    let nobody = owned_build-other db id tenant owner claimed other in
    (
      find_owned_build-none db id owner nobody,
      build_state-none db id owner nobody,
      list_messages-none db id owner nobody,
      (λ after lookback_ms. (
        messages_since-none db id owner after lookback_ms nobody,
        read_event_batch-none db id owner after lookback_ms nobody,
      )),
      (λ i g. submit-none db id owner i g nobody),
    )
