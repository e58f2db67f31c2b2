-- ===== src/Prelude/Assoc.antt =====
-- A JavaScript `Map` with string keys, as an association list in insertion order.
use albusforge.Prelude.Tests.{◌==◌, if◌then◌else◌, Bool-cases}
use albusforge.Prelude.Lists.{keep}
use Prim.Native.String.{String}
use mathlib.Core.Path.{◌≡◌, refl}
use mathlib.Core.Logic.{◌≢◌, inl, inr}
use mathlib.Core.Bool.{Bool, true}
use mathlib.Core.Option.{Option, none, some}
use mathlib.Core.List.{List, [], ◌∷◌}
use native.Mathlib.Omega.{arith}
use text.Mathlib.TextEquality.{eq_iff}

module _ {ℓ} {V : Type ℓ} where
  -- `Map.delete`, of a map whose keys are distinct.
  unfoldable pub delete : String → List (String × V) → List (String × V)
  delete key [] = []
  delete key ((j, old) ∷ rest) = if j == key then rest else (j, old) ∷ delete key rest

  -- `Map.get`
  unfoldable pub lookup : String → List (String × V) → Option V
  lookup key [] = none
  lookup key ((j, old) ∷ rest) = if j == key then some old else lookup key rest

  -- `Map.set`: an existing key keeps its place.
  unfoldable pub insert : String → V → List (String × V) → List (String × V)
  insert key new [] = (key, new) ∷ []
  insert key new ((j, old) ∷ rest) =
      if j == key then (key, new) ∷ rest else (j, old) ∷ insert key new rest

  abbrev pub IsFresh : String → List (String × V) → Type 0
  IsFresh k [] = Unit
  IsFresh k ((j, w) ∷ m) = (j ≢ k) × IsFresh k m

  abbrev pub HasDistinctKeys : List (String × V) → Type 0
  HasDistinctKeys [] = Unit
  HasDistinctKeys ((j, w) ∷ m) = IsFresh j m × HasDistinctKeys m

  pub lookup-insert :
      (key probe : String) (new : V) (entries : List (String × V))
      → lookup probe (insert key new entries)
        ≡ (if key == probe then some new else lookup probe entries)
  unfolding insert lookup
  lookup-insert key probe new [] = refl
  lookup-insert key probe new ((j, old) ∷ rest) =
      ground
        (arith, lookup-insert key probe new rest, eq_iff j key, eq_iff j probe, eq_iff key probe)

  pub IsFresh-insert :
      (i k : String) (v : V) (m : List (String × V))
      → IsFresh i m
      → k ≢ i
      → IsFresh i (insert k v m)
  unfolding insert
  IsFresh-insert i k v [] h n = (n, tt)
  IsFresh-insert i k v ((j, w) ∷ m) h n = ground (arith, IsFresh-insert i k v m h.1 n)

  pub HasDistinctKeys-insert :
      (k : String) (v : V) (m : List (String × V))
      → HasDistinctKeys m
      → HasDistinctKeys (insert k v m)
  unfolding insert
  HasDistinctKeys-insert k v [] h = (tt, tt)
  HasDistinctKeys-insert k v ((j, w) ∷ m) h =
      ground (arith, eq_iff j k, HasDistinctKeys-insert k v m h.1, IsFresh-insert j k v m h.0)

  pub lookup-IsFresh : (k : String) (m : List (String × V)) → IsFresh k m → lookup k m ≡ none
  unfolding lookup
  lookup-IsFresh k [] h = refl
  lookup-IsFresh k ((j, w) ∷ m) h = ground (arith, eq_iff j k, lookup-IsFresh k m h.1)

  pub IsFresh-delete : (i k : String) (m : List (String × V)) → IsFresh i m → IsFresh i (delete k m)
  unfolding delete
  IsFresh-delete i k [] h = tt
  IsFresh-delete i k ((j, w) ∷ m) h = ground (arith, IsFresh-delete i k m h.1)

  pub HasDistinctKeys-delete :
      (k : String) (m : List (String × V)) → HasDistinctKeys m → HasDistinctKeys (delete k m)
  unfolding delete
  HasDistinctKeys-delete k [] h = tt
  HasDistinctKeys-delete k ((j, w) ∷ m) h =
      ground (arith, HasDistinctKeys-delete k m h.1, IsFresh-delete j k m h.0)

  pub lookup-delete :
      (k j : String) (m : List (String × V))
      → HasDistinctKeys m
      → lookup j (delete k m) ≡ (if k == j then none else lookup j m)
  unfolding lookup delete
  lookup-delete k j [] h = ground arith
  lookup-delete k j ((i, w) ∷ m) h =
      ground
        (arith, eq_iff k j, eq_iff i k, eq_iff i j, lookup-delete k j m h.1, lookup-IsFresh i m h.0)

  -- Dropping entries by a test leaves the keys distinct.
  pub IsFresh-keep :
      (i : String) (p : String × V → Bool) (m : List (String × V))
      → IsFresh i m
      → IsFresh i (keep p m)
  IsFresh-keep i p [] h = tt
  IsFresh-keep i p (e ∷ m) h = ground (arith, IsFresh-keep i p m h.1)

  pub HasDistinctKeys-keep :
      (p : String × V → Bool) (m : List (String × V))
      → HasDistinctKeys m
      → HasDistinctKeys (keep p m)
  HasDistinctKeys-keep p [] h = tt
  HasDistinctKeys-keep p ((i, w) ∷ m) h =
      ground (arith, HasDistinctKeys-keep p m h.1, IsFresh-keep i p m h.0)

  -- An entry that passes the test is still found.
  pub lookup-keep :
      (p : String × V → Bool) (k : String) (v : V) (m : List (String × V))
      → p (k, v) ≡ true
      → lookup k m ≡ some v
      → lookup k (keep p m) ≡ some v
  unfolding lookup
  lookup-keep p k v [] h e = e
  lookup-keep p k v ((j, w) ∷ m) h e = elim (Bool-cases (j == k)) [
    | inr other ↦
        let rest : lookup k m ≡ some v = rw (other, lookup) at e in
        ground (arith, other, lookup-keep p k v m h rest)
    | inl same ↦
        let key : j ≡ k = (eq_iff j k).0 same in
        let value : w ≡ v = ground (arith, same, e) in
        let passes : p (j, w) ≡ true = rw (key, value) h in
        rw passes (rw (same, value, lookup) refl)
  ]
