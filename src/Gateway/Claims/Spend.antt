-- ===== src/Gateway/Claims/Spend.antt =====
-- apps/gateway/src/auth-store.ts and packages/llm/src/meter.ts: claims and stored calls, in any order.
use albusforge.Prelude.{
  ℕ, ◌≡◌, refl, sym, ap, ◌∙◌, String, true, false, List, [], ◌∷◌, some, ◌==◌, find, map, All,
  All-append, arith, Bool-cases, Option-cases, inl, inr,
}
use albusforge.Tables.{Build, LlmCall}
use albusforge.Llm.Meter.{MeteredResponse, CallAttribution, to_record, with_owner, insert_call}
use albusforge.Gateway.Claims.{is_anonymous, claim_build, claim_call, claim}

-- One transaction: a sign-in's claim, or the insert that meters a call, whose attribution was taken
-- before the call and may be stale.
pub data Transaction : Type 0 where
  claims : (hash tenant : String) → (now : ℕ) → Transaction
  meters : (stage : String) → MeteredResponse → CallAttribution → Transaction

abbrev pub commit : Transaction → List Build × List LlmCall → List Build × List LlmCall
commit (claims hash tenant now) s = claim hash tenant now s
commit (meters stage response attribution) (builds, calls) =
    (builds, insert_call (to_record stage response attribution) builds calls)

abbrev pub commits : List Transaction → List Build × List LlmCall → List Build × List LlmCall
commits [] s = s
commits (t ∷ ts) s = commits ts (commit t s)

-- The call is its build's owner's.
abbrev pub HasOwner : List Build → LlmCall → Type 0
HasOwner builds call =
    (id : String) (b : Build)
    → call.build_id ≡ some id
    → find (λ (b : Build). b.id == id) builds ≡ some b
    → (call.tenant_id ≡ b.tenant_id) × (call.anon_owner_hash ≡ b.anon_owner_hash)

abbrev pub IsAttributed : List Build × List LlmCall → Type 0
IsAttributed (builds, calls) = All (HasOwner builds) calls

claim_build-id :
    (hash tenant : String) (now : ℕ) (b : Build) → (claim_build hash tenant now b).id ≡ b.id
unfolding claim_build
claim_build-id hash tenant now b = ground arith

-- The build that an id finds after a claim is the claimed one of the build that it found before.
find-claim :
    (hash tenant : String) (now : ℕ) (id : String) (builds : List Build) (b' : Build)
    → find (λ (b : Build). b.id == id) (map (claim_build hash tenant now) builds) ≡ some b'
    → (b : Build) × (find (λ (b : Build). b.id == id) builds ≡ some b)
      × (claim_build hash tenant now b ≡ b')
find-claim hash tenant now id [] b' h = absurd (ground (arith, h))
find-claim hash tenant now id (b ∷ builds) b' h = elim (Bool-cases (b.id == id)) [
  | inl here ↦
      let same : ((claim_build hash tenant now b).id == id) ≡ true =
        rw (claim_build-id hash tenant now b) here in
      (b, rw here refl, ground (arith, h, same))
  | inr other ↦
      let differs : ((claim_build hash tenant now b).id == id) ≡ false =
        rw (claim_build-id hash tenant now b) other in
      let later : find (λ (b : Build). b.id == id) (map (claim_build hash tenant now) builds)
          ≡ some b' =
        ground (arith, h, differs) in
      let (c, found, claimed) = find-claim hash tenant now id builds b' later in
      (c, rw other found, claimed)
]

claim_call-build_id :
    (hash tenant : String) (call : LlmCall) → (claim_call hash tenant call).build_id ≡ call.build_id
unfolding claim_call
claim_call-build_id hash tenant call = ground arith

-- A call and a build of one owner are claimed together.
claim-together :
    (hash tenant : String) (now : ℕ) (call : LlmCall) (b : Build)
    → call.tenant_id ≡ b.tenant_id
    → call.anon_owner_hash ≡ b.anon_owner_hash
    → ((claim_call hash tenant call).tenant_id ≡ (claim_build hash tenant now b).tenant_id)
      × ((claim_call hash tenant call).anon_owner_hash
          ≡ (claim_build hash tenant now b).anon_owner_hash)
unfolding claim_call claim_build
claim-together hash tenant now call b t o =
    let same : is_anonymous hash call.tenant_id call.anon_owner_hash
        ≡ is_anonymous hash b.tenant_id b.anon_owner_hash =
      rw t (rw o refl) in
    elim (Bool-cases (is_anonymous hash b.tenant_id b.anon_owner_hash)) [
      | inl anon ↦ rw same (rw anon (refl, refl))
      | inr owned ↦ rw same (rw owned (t, o))
    ]

claim_call-HasOwner :
    (hash tenant : String) (now : ℕ) (builds : List Build) (call : LlmCall)
    → HasOwner builds call
    → HasOwner (map (claim_build hash tenant now) builds) (claim_call hash tenant call)
claim_call-HasOwner hash tenant now builds call owned id b' of_build found =
    let (b, before, claimed) = find-claim hash tenant now id builds b' found in
    let (t, o) = owned id b (sym (claim_call-build_id hash tenant call) ∙ of_build) before in
    let (t', o') = claim-together hash tenant now call b t o in
    (
      t' ∙ ap (λ (c : Build). c.tenant_id) claimed,
      o' ∙ ap (λ (c : Build). c.anon_owner_hash) claimed,
    )

All-claimed :
    (hash tenant : String) (now : ℕ) (builds : List Build) (calls : List LlmCall)
    → All (HasOwner builds) calls
    → All (HasOwner (map (claim_build hash tenant now) builds)) (map (claim_call hash tenant) calls)
All-claimed hash tenant now builds [] h = h
All-claimed hash tenant now builds (call ∷ calls) (h, hs) =
    (claim_call-HasOwner hash tenant now builds call h, All-claimed hash tenant now builds calls hs)

with_owner-HasOwner :
    (builds : List Build) (call : LlmCall) → HasOwner builds (with_owner builds call)
unfolding with_owner
with_owner-HasOwner builds call id b of_build found = elim (Option-cases call.build_id) [
  | inl no_build ↦ absurd (ground (arith, of_build, no_build))
  | inr (id', is_id) ↦ ground (arith, of_build, is_id, found)
]

commit-IsAttributed :
    (t : Transaction) (s : List Build × List LlmCall) → IsAttributed s → IsAttributed (commit t s)
unfolding claim insert_call
commit-IsAttributed (claims hash tenant now) (builds, calls) h =
    All-claimed hash tenant now builds calls h
commit-IsAttributed (meters stage response attribution) (builds, calls) h =
    let call = to_record stage response attribution in
    All-append (HasOwner builds) calls (with_owner builds call ∷ []) h
      (with_owner-HasOwner builds call, tt)

-- Whatever the order of sign-ins and inserts, and however stale the attribution that a call was metered
-- with: when every stored call of a stored build has the owner of its build, so it has afterwards.
pub commits-IsAttributed :
    (ts : List Transaction) (s : List Build × List LlmCall)
    → IsAttributed s
    → IsAttributed (commits ts s)
commits-IsAttributed [] s h = h
commits-IsAttributed (t ∷ ts) s h = commits-IsAttributed ts (commit t s) (commit-IsAttributed t s h)
