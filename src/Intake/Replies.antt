-- ===== src/Intake/Replies.antt =====
-- apps/intake/src/replies.ts: the replies that code writes.
use albusforge.Prelude.{
  ℕ, ◌-◌, String, Bool, true, false, List, map, ◌+++◌, join, length, drop, if◌then◌else◌, ltb, eqb,
}
use albusforge.Intake.Spec.{OpenQuestion}

pub data ScopeCategory : Type 0 where
  weapons_harm mains_voltage medical_monitoring covert_tracking : ScopeCategory

out_of_scope_reason : ScopeCategory → String
out_of_scope_reason ScopeCategory.weapons_harm = "devices meant to hurt people or animals"
out_of_scope_reason ScopeCategory.mains_voltage = "anything wired to mains electricity"
out_of_scope_reason ScopeCategory.medical_monitoring =
    "devices that monitor or diagnose medical conditions"
out_of_scope_reason ScopeCategory.covert_tracking =
    "devices that track or record people without their knowledge"

abbrev what_we_build : String
what_we_build =
    "Albus Forge designs small connected devices that sense something and tell you about it."

pub out_of_scope_reply : ScopeCategory → String
unfolding out_of_scope_reason
out_of_scope_reply category =
    "Sorry — Albus Forge doesn't make "
    +++ out_of_scope_reason category
    +++ ", so this isn't something I can design. "
    +++ what_we_build
    +++ " If that's what you're after, describe the device and I'll start there."

pub refusal_reply : String
refusal_reply =
    "Sorry — that isn't something I can design. " +++ what_we_build
    +++ " If that's what you're after, describe the device and I'll start there."

unfoldable pub off_topic_reply : Bool → String
off_topic_reply true =
    "I can't help with that one either — designing a device is all I do here. " +++ what_we_build
    +++ " I'll be here when you have one in mind."
off_topic_reply false =
    "That's not something I can help with — I only design devices. " +++ what_we_build
    +++ " Tell me what you'd like one to do and we'll get started."

pub fallback_reply : String
fallback_reply =
    "Something went wrong on my end, so I couldn't get to that — nothing to do with what you wrote. "
    +++ "Send it again in a moment and it should go through."

pub token_ceiling_reply : String
token_ceiling_reply =
    "This design conversation has reached its length limit, so I can't take more changes here. "
    +++ "Start a new build to keep going."

bullets : List String → String
bullets xs = join "\n" (map (λ (x : String). "- " +++ x) xs)

unfoldable pub questions_reply : List OpenQuestion → String
unfolding bullets
questions_reply questions =
    let intro =
      if eqb (length questions) 1
      then "Thanks. One thing changes which parts I'd pick:"
      else "Thanks. A few things change which parts I'd pick:" in
    intro +++ "\n" +++ bullets (map (λ (q : OpenQuestion). q.question) questions)

-- `xs.slice(-n)`
unfoldable pub take_last {ℓ} : {A : Type ℓ} → ℕ → List A → List A
take_last n xs = drop (length xs - n) xs

unfoldable pub settled_reply : List String → String
unfolding bullets
settled_reply assumptions =
    let shown = take_last 5 assumptions in
    let list =
      if ltb 0 (length shown)
      then "\n\nI'm going with these defaults, and you can change any of them:\n" +++ bullets shown
      else "" in
    "That's everything I need to pick parts." +++ list

pub needs_more_reply : String
needs_more_reply =
    "Tell me a bit more about what the device should sense or do, and I'll take it from there."
