-- ===== src/Intake/Handler/Rows.antt =====
-- apps/intake/src/handler.ts: the rows that an answer adds, by the outcome of the turn.
use albusforge.Prelude.{
  ℕ, ◌+◌, ◌≡◌, refl, ap, ◌⊎◌, String, true, false, List, [], ◌∷◌, ◌++◌, Option, none, some,
  if◌then◌else◌, not, keep, map, All, arith, Bool-cases, inl, inr,
}
use albusforge.Tables.{BuildStatus, MessageRole, Build, BuildMessage, SpecVersion, Tables}
use albusforge.Gateway.ChatStore.Cursors.{same_uuid}
use albusforge.Intake.Spec.{Spec}
use albusforge.Intake.Decide.{TurnStatus, Decision}
use albusforge.Intake.Turn.{TurnOutcome}
use albusforge.Intake.Handler.{
  Answered, set_status, Reading, version_of, version_or_null, idle_status, status_of,
}

-- The builds are as before, but for the status of the one, and when it was updated.
pub record HasStatus (build_id : String) (status : BuildStatus) (old new : List Build)
    : Type 0 where
  pub given : All (λ (b : Build). (same_uuid b.id build_id) ≡ true → b.status ≡ status) new
  pub others :
      keep (λ (b : Build). not (same_uuid b.id build_id)) new
      ≡ keep (λ (b : Build). not (same_uuid b.id build_id)) old
  pub same_ids : map (λ (b : Build). b.id) new ≡ map (λ (b : Build). b.id) old

-- The assistant's reply, one microsecond after the message that it answers.
pub record IsReply (build_id : String) (target : BuildMessage) (text : String) (m : BuildMessage)
    : Type 0 where
  pub of_build : m.build_id ≡ build_id
  pub by_assistant : m.role ≡ MessageRole.assistant
  pub says : m.text ≡ text
  pub just_after : m.created_at ≡ target.created_at + 1

-- The version that follows the latest.
abbrev pub IsNext : Option (SpecVersion Spec) → ℕ → Type 0
IsNext none n = n ≡ 1
IsNext (some v) n = n ≡ v.version + 1

abbrev pub IsLatest : Option (SpecVersion Spec) → Option ℕ → Type 0
IsLatest none n = n ≡ none
IsLatest (some v) n = n ≡ some v.version

-- One version was published, or none.
abbrev pub Publishes :
    (build_id : String) (latest : Option (SpecVersion Spec)) (decision : Decision)
    (old new : List (SpecVersion Spec))
    → Option ℕ
    → Type 0
Publishes build_id latest decision old new version =
    (v : SpecVersion Spec) × (new ≡ old ++ v ∷ [])
    × (v.build_id ≡ build_id)
    × IsNext latest v.version
    × (v.content ≡ decision.spec)
    × (v.confidence ≡ decision.confidence)
    × (v.open_questions ≡ decision.spec.open_questions)
    × (version ≡ some v.version)

abbrev pub Keeps :
    (latest : Option (SpecVersion Spec)) (old new : List (SpecVersion Spec)) → Option ℕ → Type 0
Keeps latest old new version = (new ≡ old) × IsLatest latest version

-- The status of a build whose turn made no spec.
abbrev pub IsIdle : Option Spec → BuildStatus → Type 0
IsIdle none status = status ≡ BuildStatus.asking
IsIdle (some spec) status =
    ((spec.settled ≡ true) × (status ≡ BuildStatus.planning))
    ⊎ ((spec.settled ≡ false) × (status ≡ BuildStatus.asking))

abbrev pub IsDecided : TurnStatus → BuildStatus → Type 0
IsDecided TurnStatus.asking status = status ≡ BuildStatus.asking
IsDecided TurnStatus.planning status = status ≡ BuildStatus.planning

-- The specs, the status and the text that an outcome calls for.
abbrev pub Fits :
    String
    → Reading
    → TurnOutcome
    → (old new : List (SpecVersion Spec)) → Answered
    → String
    → Type 0
Fits build_id r (TurnOutcome.spec decision) old new a text =
    (text ≡ decision.reply)
    × IsDecided decision.status a.status
    × (((decision.new_version ≡ true) × Publishes build_id r.latest decision old new a.spec_version)
        ⊎ ((decision.new_version ≡ false) × Keeps r.latest old new a.spec_version))
Fits build_id r (TurnOutcome.reply reason said) old new a text =
    (text ≡ said) × IsIdle r.previous a.status × Keeps r.latest old new a.spec_version

-- One reply, at most one spec version, and the status.
pub record IsAnswer (build_id : String) (r : Reading) (outcome : TurnOutcome)
    (old new : Tables Spec) (a : Answered) : Type 0 where
  pub reply : BuildMessage
  pub one_reply : new.build_messages ≡ old.build_messages ++ reply ∷ []
  pub named : reply.id ≡ a.message_id
  pub text : String
  pub replies : IsReply build_id r.target text reply
  pub fits : Fits build_id r outcome old.specs new.specs a text
  pub status : HasStatus build_id a.status old.builds new.builds

marked : String → BuildStatus → ℕ → Build → Build
marked build_id status now b =
    if same_uuid b.id build_id then record b { status = status; updated_at = now } else b

map-marked :
    (build_id : String) (status : BuildStatus) (now : ℕ) (bs : List Build)
    → HasStatus build_id status bs (map (marked build_id status now) bs)
unfolding marked
map-marked build_id status now [] = record { given = tt; others = refl; same_ids = refl }
map-marked build_id status now (b ∷ bs) =
    let rest = map-marked build_id status now bs in
    elim (Bool-cases (same_uuid b.id build_id)) [
      | inl mine ↦ rw mine (record {
        given = (λ h. refl, rest.given);
        others = rw mine rest.others;
        same_ids = ap (λ ids. b.id ∷ ids) rest.same_ids;
      })
      | inr theirs ↦ rw theirs (record {
        given = (λ h. absurd (ground (arith, h, theirs)), rest.given);
        others = rw theirs (ap (λ xs. b ∷ xs) rest.others);
        same_ids = ap (λ ids. b.id ∷ ids) rest.same_ids;
      })
    ]

pub set_status-HasStatus :
    (build_id : String) (status : BuildStatus) (now : ℕ) (db : Tables Spec)
    → HasStatus build_id status db.builds (set_status build_id status now db).builds
unfolding set_status marked
set_status-HasStatus build_id status now db = map-marked build_id status now db.builds

pub version_of-IsNext : (latest : Option (SpecVersion Spec)) → IsNext latest (version_of latest + 1)
version_of-IsNext none = refl
version_of-IsNext (some v) = refl

pub version_or_null-IsLatest :
    (latest : Option (SpecVersion Spec)) → IsLatest latest (version_or_null latest)
version_or_null-IsLatest none = refl
version_or_null-IsLatest (some v) = refl

pub idle_status-IsIdle : (previous : Option Spec) → IsIdle previous (idle_status previous)
idle_status-IsIdle none = refl
idle_status-IsIdle (some spec) = elim (Bool-cases spec.settled) [
  | inl settled ↦ rw settled (inl (refl, refl))
  | inr open' ↦ rw open' (inr (refl, refl))
]

pub status_of-IsDecided : (status : TurnStatus) → IsDecided status (status_of status)
status_of-IsDecided TurnStatus.asking = refl
status_of-IsDecided TurnStatus.planning = refl
