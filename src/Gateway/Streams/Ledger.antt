-- ===== src/Gateway/Streams/Ledger.antt =====
-- apps/gateway/src/sse.ts: the registry's counters beside the leases themselves.
use albusforge.Prelude.{
  ℕ, zero, suc, eq_refl, ◌-◌, ◌+◌, ◌≤◌, ◌<◌, ◌≡◌, refl, inl, inr, String, Bool, true, false, not,
  ◌&&◌, List, [], ◌∷◌, none, some, ◌==◌, if◌then◌else◌, get_elem?, set, count_of, count_of-append,
  count_of-set, arith, eq_iff, Option-cases, Bool-cases,
}
use albusforge.Prelude.Assoc.{
  lookup, lookup-insert, lookup-delete, HasDistinctKeys, HasDistinctKeys-insert,
  HasDistinctKeys-delete,
}
use albusforge.Gateway.Streams.{
  StreamLimits, StreamLease, StreamRegistry, create_stream_registry, count_or, open_lease, on_close,
  count_down, end_lease, release,
}

abbrev pub is_open : StreamLease → Bool
is_open l = not l.released

abbrev pub is_open_of : String → StreamLease → Bool
is_open_of k l = not l.released && l.owner == k

-- Open leases, of all owners and of one.
abbrev pub open_leases : StreamRegistry → ℕ
open_leases reg = count_of is_open reg.leases

abbrev pub open_of : String → StreamRegistry → ℕ
open_of k reg = count_of (is_open_of k) reg.leases

pub record IsBalanced (reg : StreamRegistry) : Type 0 where
  pub distinct : HasDistinctKeys reg.per_owner
  pub counted : reg.total ≡ open_leases reg
  pub owned : (k : String) → count_or 0 (lookup k reg.per_owner) ≡ open_of k reg
  pub in_owner_limit : (k : String) → open_of k reg ≤ reg.limits.per_owner
  pub in_instance_limit : open_leases reg ≤ reg.limits.per_instance

pub create-IsBalanced : (limits : StreamLimits) → IsBalanced (create_stream_registry limits)
unfolding create_stream_registry lookup
create-IsBalanced limits = record {
  distinct = tt;
  counted = refl;
  owned = λ k. refl;
  in_owner_limit = λ k. omega arith;
  in_instance_limit = omega arith;
}

-- One lease less for its owner, who has one; the others keep theirs.
lookup-count_down :
    (owner k : String) (counts : List (String × ℕ))
    → HasDistinctKeys counts
    → 0 < count_or 0 (lookup owner counts)
    → count_or 0 (lookup k (count_down owner counts)) + (if owner == k then 1 else 0)
      ≡ count_or 0 (lookup k counts)
lookup-count_down owner k counts d h = ground (
  arith,
  eq_iff owner k,
  lookup-delete owner k counts d,
  lookup-insert owner k (count_or 1 (lookup owner counts) - 1) counts,
)

HasDistinctKeys-count_down :
    (owner : String) (counts : List (String × ℕ))
    → HasDistinctKeys counts
    → HasDistinctKeys (count_down owner counts)
HasDistinctKeys-count_down owner counts d = ground (
  arith,
  HasDistinctKeys-delete owner counts d,
  HasDistinctKeys-insert owner (count_or 1 (lookup owner counts) - 1) counts d,
)

-- The lease at a position, if open, is one of its owner's.
open_of-positive :
    (p : StreamLease → Bool) (ls : List StreamLease) (i : ℕ) (l : StreamLease)
    → get_elem? ls i ≡ some l
    → p l ≡ true
    → 0 < count_of p ls
open_of-positive p [] i l e h = ground arith
open_of-positive p (x ∷ ls) zero l e h = ground arith
open_of-positive p (x ∷ ls) (suc i) l e h = omega (arith, open_of-positive p ls i l e h)

end_lease-IsBalanced :
    (i : ℕ) (l : StreamLease) (reg : StreamRegistry)
    → get_elem? reg.leases i ≡ some l
    → l.released ≡ false
    → IsBalanced reg
    → IsBalanced (end_lease i l reg)
unfolding end_lease
end_lease-IsBalanced i l reg e live v = record {
  distinct = HasDistinctKeys-count_down l.owner reg.per_owner v.distinct;
  counted = ground (arith, v.counted, all_fall);
  owned = λ k.
      ground
        (arith, v.owned k, falls k, lookup-count_down l.owner k reg.per_owner v.distinct owner_has);
  in_owner_limit = λ k. ground (arith, v.in_owner_limit k, falls k);
  in_instance_limit = ground (arith, v.in_instance_limit, all_fall);
}
  where
    ended : StreamLease
    ended = record l { released = true }

    all_fall : count_of is_open (set reg.leases i ended) + 1 ≡ count_of is_open reg.leases
    all_fall = ground (arith, count_of-set is_open reg.leases i l ended e)

    falls :
        (k : String)
        → count_of (is_open_of k) (set reg.leases i ended) + (if l.owner == k then 1 else 0)
          ≡ count_of (is_open_of k) reg.leases
    falls k = ground (arith, count_of-set (is_open_of k) reg.leases i l ended e)

    owner_has : 0 < count_or 0 (lookup l.owner reg.per_owner)
    owner_has = ground (
      arith,
      v.owned l.owner,
      eq_refl l.owner,
      open_of-positive (is_open_of l.owner) reg.leases i l e,
    )

pub release-IsBalanced :
    (i : ℕ) (reg : StreamRegistry) → IsBalanced reg → IsBalanced (release i reg)
unfolding release
release-IsBalanced i reg v = elim (Option-cases (get_elem? reg.leases i)) [
  | inl none_there ↦ rw (none_there, release) v
  | inr (l, found) ↦ elim (Bool-cases l.released) [
    | inl done ↦ rw (found, release) (rw done v)
    | inr live ↦ rw (found, release) (simp live (end_lease-IsBalanced i l reg found live v))
  ]
]

pub on_close-IsBalanced :
    (i close : ℕ) (reg : StreamRegistry) → IsBalanced reg → IsBalanced (on_close i close reg)
unfolding on_close
on_close-IsBalanced i close reg v = elim (Option-cases (get_elem? reg.leases i)) [
  | inl none_there ↦ rw (none_there, on_close) v
  | inr (l, found) ↦
      let same = λ (p : StreamLease → Bool).
        count_of-set p reg.leases i l (record l { closer = some close }) found in
      rw (found, on_close)
        (record {
          distinct = v.distinct;
          counted = ground (arith, v.counted, same is_open);
          owned = λ k. ground (arith, v.owned k, same (is_open_of k));
          in_owner_limit = λ k. ground (arith, v.in_owner_limit k, same (is_open_of k));
          in_instance_limit = ground (arith, v.in_instance_limit, same is_open);
        })
]

pub open_lease-IsBalanced :
    (owner : String) (reg : StreamRegistry)
    → count_or 0 (lookup owner reg.per_owner) < reg.limits.per_owner
    → reg.total < reg.limits.per_instance
    → IsBalanced reg
    → IsBalanced (open_lease owner reg)
unfolding open_lease
open_lease-IsBalanced owner reg h h' v =
    let fresh : StreamLease = record { owner = owner; released = false; closer = none } in
    let grows = λ (p : StreamLease → Bool). count_of-append p reg.leases (fresh ∷ []) in
    let owned = count_or 0 (lookup owner reg.per_owner) in
    record {
      distinct = HasDistinctKeys-insert owner (owned + 1) reg.per_owner v.distinct;
      counted = ground (arith, v.counted, grows is_open);
      owned = λ k. ground (
        arith,
        v.owned k,
        grows (is_open_of k),
        eq_iff owner k,
        lookup-insert owner k (owned + 1) reg.per_owner,
      );
      in_owner_limit =
          λ k. ground (arith, v.in_owner_limit k, v.owned k, grows (is_open_of k), eq_iff owner k);
      in_instance_limit = ground (arith, v.counted, grows is_open);
    }
