-- ===== src/Intake/Handler/Latest.antt =====
-- apps/intake/src/handler.ts: the last message of a transcript in the order of time.
use albusforge.Prelude.{
  ℕ, ◌≤◌, ◌<◌, ◌≡◌, refl, sym, ap, ◌∙◌, ◌⊎◌, Bool, true, false, List, [], ◌∷◌, ◌++◌, Option, none,
  some, any, All, All-imp, arith, Bool-cases, Option-cases, inl, inr, length,
}
use albusforge.Prelude.Sort.{insert_sorted, sort_by, All-sort_by, length-sort_by}
use albusforge.Tables.{BuildMessage}
use albusforge.Gateway.ChatStore.{is_before}
use albusforge.Gateway.ChatStore.Replays.{is_before-earlier}
use albusforge.Intake.Turn.{last}

is_before-le : (m n : BuildMessage) → is_before m n ≡ true → m.created_at ≤ n.created_at
unfolding is_before
is_before-le m n h = ground (arith, h)

is_before-ge : (m n : BuildMessage) → is_before m n ≡ false → n.created_at ≤ m.created_at
unfolding is_before
is_before-ge m n h = ground (arith, h)

module _ {A : Type 0} where
  last-cons : (x : A) (xs : List A) (u : A) → last xs ≡ some u → last (x ∷ xs) ≡ some u
  unfolding last
  last-cons x xs u h = rw (h, last) refl

  last-none : (xs : List A) → last xs ≡ none → xs ≡ []
  unfolding last
  last-none [] h = refl
  last-none (x ∷ xs) h = elim (Option-cases (last xs)) [
    | inl only ↦ absurd (ground (arith, h, only))
    | inr (u, more) ↦ absurd (ground (arith, h, more))
  ]

  last-alone : (x : A) (xs : List A) → last xs ≡ none → last (x ∷ xs) ≡ some x
  unfolding last
  last-alone x xs h = rw (h, last) refl

  last-empty : last {A = A} [] ≡ none
  unfolding last
  last-empty = refl

  last-nil : (u : A) → last {A = A} [] ≡ some u → ⊥
  unfolding last
  last-nil u h = ground (arith, h)

  last-total : (x : A) (xs : List A) → (v : A) × (last (x ∷ xs) ≡ some v)
  last-total x xs = elim (Option-cases (last xs)) [
    | inl only ↦ (x, last-alone x xs only)
    | inr (v, more) ↦ (v, last-cons x xs v more)
  ]

  -- Inserted before the last element, an element leaves it the last.
  last-insert_sorted :
      (le : A → A → Bool) (x : A) (ys : List A) (u : A)
      → last ys ≡ some u
      → le x u ≡ true
      → last (insert_sorted le x ys) ≡ some u
  unfolding insert_sorted
  last-insert_sorted le x [] u h k = absurd (last-nil u h)
  last-insert_sorted le x (y ∷ ys) u h k = elim (Bool-cases (le x y)) [
    | inl here ↦ rw (here, insert_sorted) (last-cons x (y ∷ ys) u h)
    | inr later ↦ elim (Option-cases (last ys)) [
      | inl only ↦
          let same : Path (Option A) (some y) (some u) = sym (last-alone y ys only) ∙ h in
          let e : y ≡ u = ground (arith, same) in
          let before : le x y ≡ true = ap (le x) e ∙ k in absurd (ground (arith, before, later))
      | inr (v, more) ↦
          let same : Path (Option A) (some v) (some u) = sym (last-cons y ys v more) ∙ h in
          rw (later, insert_sorted)
            (last-cons y (insert_sorted le x ys) u (last-insert_sorted le x ys u (more ∙ same) k))
    ]
  ]

  -- The last element after an insertion is the new one, or the one before, and then the new one stands
  -- before some other.
  insert_sorted-last :
      (le : A → A → Bool) (x : A) (ys : List A)
      → (last (insert_sorted le x ys) ≡ some x)
        ⊎ ((last (insert_sorted le x ys) ≡ last ys) × (any (le x) ys ≡ true))
  unfolding insert_sorted
  insert_sorted-last le x [] = inl (last-alone x [] last-empty)
  insert_sorted-last le x (y ∷ ys) = elim (Bool-cases (le x y)) [
    | inl here ↦
        let (v, end) = last-total y ys in
        rw (here, insert_sorted) (inr (last-cons x (y ∷ ys) v end ∙ sym end, refl))
    | inr later ↦
        rw (later, insert_sorted)
          (elim (insert_sorted-last le x ys) [
            | inl new ↦ inl (last-cons y (insert_sorted le x ys) x new)
            | inr (same, before) ↦ elim (Option-cases (last ys)) [
              | inl only ↦
                  let empty : any (le x) ys ≡ false = ap (any (le x)) (last-none ys only) in
                  absurd (ground (arith, before, empty))
              | inr (v, more) ↦ inr (
                last-cons y (insert_sorted le x ys) v (same ∙ more) ∙ sym (last-cons y ys v more),
                before,
              )
            ]
          ])
  ]

pub some-inj : {A : Type 0} (x y : A) → Path (Option A) (some x) (some y) → x ≡ y
some-inj x y h = ground (arith, h)

any-All :
    (x : BuildMessage) (t : ℕ) (ys : List BuildMessage)
    → any (is_before x) ys ≡ true
    → All (λ (y : BuildMessage). y.created_at ≤ t) ys
    → x.created_at ≤ t
any-All x t [] h a = absurd (ground (arith, h))
any-All x t (y ∷ ys) h (b, bs) = elim (Bool-cases (is_before x y)) [
  | inl here ↦ omega (arith, is_before-le x y here, b)
  | inr later ↦
      let rest : any (is_before x) ys ≡ true = ground (arith, h, later) in any-All x t ys rest bs
]

sort_by-nil : (ms : List BuildMessage) → sort_by is_before ms ≡ [] → ms ≡ []
sort_by-nil [] h = refl
sort_by-nil (x ∷ ms) h =
    let none_left : length (sort_by is_before (x ∷ ms)) ≡ 0 = ap length h in
    absurd (omega (arith, none_left, length-sort_by is_before (x ∷ ms)))

-- No message is later than the last one.
pub last-sort_by_le :
    (ms : List BuildMessage) (t : BuildMessage)
    → last (sort_by is_before ms) ≡ some t
    → All (λ (m : BuildMessage). m.created_at ≤ t.created_at) ms
unfolding sort_by
last-sort_by_le [] t h = tt
last-sort_by_le (x ∷ ms) t h = elim (insert_sorted-last is_before x (sort_by is_before ms)) [
  | inr (same, before) ↦
      let old = last-sort_by_le ms t (sym same ∙ h) in
      (
        any-All x t.created_at (sort_by is_before ms) before
            (All-sort_by (λ (m : BuildMessage). m.created_at ≤ t.created_at) is_before ms old),
        old,
      )
  | inl new ↦
      let shown : Path (Option BuildMessage) (some x) (some t) = sym new ∙ h in
      let e : x ≡ t = some-inj x t shown in
      let time : x.created_at ≡ t.created_at = ap (λ (m : BuildMessage). m.created_at) e in
      elim (Option-cases (last (sort_by is_before ms))) [
        | inl none_left ↦
            let empty : ms ≡ [] = sort_by-nil ms (last-none (sort_by is_before ms) none_left) in
            (omega (arith, time), rw empty tt)
        | inr (u, end) ↦
            let below : u.created_at ≤ t.created_at = elim (Bool-cases (is_before x u)) [
              | inl first ↦
                  let other = last-insert_sorted is_before x (sort_by is_before ms) u end first in
                  let same : u ≡ t = some-inj u t (sym other ∙ h) in
                  omega (arith, ap (λ (m : BuildMessage). m.created_at) same)
              | inr after ↦ omega (arith, is_before-ge x u after, time)
            ] in
            (
              omega (arith, time),
              All-imp (λ (m : BuildMessage). m.created_at ≤ u.created_at)
                  (λ (m : BuildMessage). m.created_at ≤ t.created_at) ms
                  (λ m k. omega (arith, k, below)) (last-sort_by_le ms u end),
            )
      ]
]

-- A message later than all others comes last.
pub last-sort_by_append :
    (ms : List BuildMessage) (r : BuildMessage)
    → All (λ (m : BuildMessage). m.created_at < r.created_at) ms
    → last (sort_by is_before (ms ++ r ∷ [])) ≡ some r
unfolding sort_by insert_sorted
last-sort_by_append [] r h = last-alone r [] last-empty
last-sort_by_append (x ∷ ms) r h =
    last-insert_sorted is_before x (sort_by is_before (ms ++ r ∷ [])) r
      (last-sort_by_append ms r h.1) (is_before-earlier x r h.0)
