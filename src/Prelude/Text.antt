-- ===== src/Prelude/Text.antt =====
-- What the source does with strings: `trim`, `slice(0, n)`, `join`, `new Set` on strings. A string
-- is its code points; the source counts UTF-16 units, which differ outside the basic plane.
use Prim.Native.Nat.{ℕ, zero, suc}
use Prim.Native.Char.{code}
use Prim.Native.String.{String, [], ◌∷◌}
use Prim.Native.String
use mathlib.Core.Path.{◌≡◌, refl, ap, ◌∙◌}
use native.Mathlib.Omega.{arith}
use mathlib.Core.Bool.{Bool, true, false, not, ◌&&◌, ◌||◌}
use mathlib.Core.List.{List}
use albusforge.Prelude.Tests.{◌==◌, leb, eqb, if◌then◌else◌, and-true}
use albusforge.Prelude.Lists.{any}

infixr 66 ◌+++◌
abbrev pub ◌+++◌ : String → String → String
s +++ t = String.◌++◌ s t

-- ECMAScript white space and line ends.
unfoldable pub is_space : ℕ → Bool
is_space c =
    leb 9 c && leb c 13
    || eqb c 32
    || eqb c 160
    || eqb c 0x1680
    || leb 0x2000 c && leb c 0x200a
    || eqb c 0x2028
    || eqb c 0x2029
    || eqb c 0x202f
    || eqb c 0x205f
    || eqb c 0x3000
    || eqb c 0xfeff

trim_start : String → String
trim_start String.[] = String.[]
trim_start (String.◌∷◌ c s) = if is_space (code c) then trim_start s else String.◌∷◌ c s

trim_end : String → String
trim_end String.[] = String.[]
trim_end (String.◌∷◌ c s) =
    let rest = trim_end s in
    if is_space (code c) && rest == "" then String.[] else String.◌∷◌ c rest

unfoldable pub trim : String → String
unfolding trim_start trim_end is_space
trim s = trim_end (trim_start s)

-- No white space anywhere.
unfoldable pub is_plain : String → Bool
is_plain String.[] = true
is_plain (String.◌∷◌ c s) = not (is_space (code c)) && is_plain s

trim_start-is_plain : (s : String) → is_plain s ≡ true → trim_start s ≡ s
unfolding trim_start is_plain
trim_start-is_plain String.[] h = refl
trim_start-is_plain (String.◌∷◌ c s) h = ground arith

trim_end-is_plain : (s : String) → is_plain s ≡ true → trim_end s ≡ s
unfolding trim_end is_plain
trim_end-is_plain String.[] h = refl
trim_end-is_plain (String.◌∷◌ c s) h =
    let (solid, rest) = and-true (not (is_space (code c))) (is_plain s) h in
    let same : trim_end s ≡ s = trim_end-is_plain s rest in
    let kept : is_space (code c) ≡ false = ground arith in rw (kept, same, trim_end) refl

pub trim-is_plain : (s : String) → is_plain s ≡ true → trim s ≡ s
unfolding trim
trim-is_plain s h = ap trim_end (trim_start-is_plain s h) ∙ trim_end-is_plain s h

-- `s.slice(0, n)`
unfoldable pub clip : ℕ → String → String
clip zero s = String.[]
clip (suc n) String.[] = String.[]
clip (suc n) (String.◌∷◌ c s) = String.◌∷◌ c (clip n s)

unfoldable pub join : String → List String → String
join sep List.[] = ""
join sep (List.◌∷◌ s List.[]) = s
join sep (List.◌∷◌ s (List.◌∷◌ t ts)) = s +++ sep +++ join sep (List.◌∷◌ t ts)

-- `Array.prototype.includes`, and `has` of a set.
abbrev pub includes : List String → String → Bool
includes xs s = any (λ t. t == s) xs

-- The elements of `xs` that are not in `seen`, each once, in order.
abbrev pub unique_from : List String → List String → List String
unique_from seen List.[] = List.[]
unique_from seen (List.◌∷◌ x xs) =
    let old = unique_from seen xs in
    let new = List.◌∷◌ x (unique_from (List.◌∷◌ x seen) xs) in if includes seen x then old else new

-- `[...new Set(xs)]`
unfoldable pub unique : List String → List String
unique xs = unique_from List.[] xs
