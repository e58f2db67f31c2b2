-- ===== src/Gateway/Streams.antt =====
-- apps/gateway/src/sse.ts, `createStreamRegistry`: admission of event streams.
-- A lease is a closure in the source; here the registry keeps the variables of every lease that it
-- handed out, and a lease is the position of its variables. A `close` callback is a number, its
-- identity.
pub mod Ledger
pub mod Runs
mod Tests
use albusforge.Prelude.{
  ℕ, suc, ◌+◌, ◌-◌, String, Bool, true, false, not, ◌&&◌, ◌||◌, List, [], ◌∷◌, ◌++◌, Option, none,
  some, leb, eqb, ◌==◌, if◌then◌else◌, length, keep, any, get_elem?, set,
}
use albusforge.Prelude.Assoc.{lookup, insert, delete}

pub record StreamLimits : Type 0 where
  pub per_owner : ℕ
  pub per_instance : ℕ

abbrev pub default_stream_limits : StreamLimits
default_stream_limits = record { per_owner = 3; per_instance = 100 }

-- The variables of one `reserve` that returned a lease.
pub record StreamLease : Type 0 where
  pub owner : String
  pub released : Bool
  pub closer : Option ℕ

pub record StreamRegistry : Type 0 where
  pub limits : StreamLimits
  pub per_owner : List (String × ℕ)
  pub closers : List ℕ
  pub total : ℕ
  pub leases : List StreamLease

pub create_stream_registry : StreamLimits → StreamRegistry
create_stream_registry limits = record {
  limits = limits;
  per_owner = [];
  closers = [];
  total = 0;
  leases = [];
}

-- `perOwner.get(ownerHash) ?? fallback`
abbrev pub count_or : ℕ → Option ℕ → ℕ
count_or fallback none = fallback
count_or fallback (some n) = n

pub size : StreamRegistry → ℕ
size reg = reg.total

-- `reserve` past its guard; the new lease stands last.
pub open_lease : String → StreamRegistry → StreamRegistry
open_lease owner reg = record reg {
  per_owner = insert owner (count_or 0 (lookup owner reg.per_owner) + 1) reg.per_owner;
  total = reg.total + 1;
  leases = reg.leases ++ record { owner = owner; released = false; closer = none } ∷ [];
}

-- A lease, or `none` (the source's null) at a limit.
pub reserve : String → StreamRegistry → Option (ℕ × StreamRegistry)
reserve owner reg =
    let owned = count_or 0 (lookup owner reg.per_owner) in
    if leb reg.limits.per_owner owned || leb reg.limits.per_instance reg.total
    then none
    else some (length reg.leases, open_lease owner reg)

-- `Set.add` and `Set.delete`.
abbrev add_closer : ℕ → List ℕ → List ℕ
add_closer c cs = if any (eqb c) cs then cs else cs ++ c ∷ []

abbrev drop_closer : Option ℕ → List ℕ → List ℕ
drop_closer none cs = cs
drop_closer (some c) cs = keep (λ d. not (eqb c d)) cs

pub on_close : ℕ → ℕ → StreamRegistry → StreamRegistry
on_close i close reg = elim (get_elem? reg.leases i) [
  | none ↦ reg
  | some l ↦ record reg {
    closers = add_closer close reg.closers;
    leases = set reg.leases i (record l { closer = some close });
  }
]

-- `left <= 0` deletes the key; `-` stops at 0 where the source goes below.
abbrev count_down : String → List (String × ℕ) → List (String × ℕ)
count_down owner counts =
    let left = count_or 1 (lookup owner counts) - 1 in
    if leb left 0 then delete owner counts else insert owner left counts

-- The body of `release` after its guard.
pub end_lease : ℕ → StreamLease → StreamRegistry → StreamRegistry
end_lease i l reg = record reg {
  total = reg.total - 1;
  per_owner = count_down l.owner reg.per_owner;
  closers = drop_closer l.closer reg.closers;
  leases = set reg.leases i (record l { released = true });
}

pub release : ℕ → StreamRegistry → StreamRegistry
release i reg = elim (get_elem? reg.leases i) [
  | none ↦ reg
  | some l ↦ if l.released then reg else end_lease i l reg
]

-- The callbacks that `closeAll` runs, in order.
pub close_all : StreamRegistry → List ℕ
close_all reg = reg.closers
