-- ===== src/Intake/Shapes.antt =====
-- The regular expressions of intake's vocabulary, as matchers: `CapabilityId` of
-- packages/schema/src/spec.ts and `FLAG_SHAPE` of apps/intake/src/decide.ts.
use Prim.Native.Char.{code}
use Prim.Native.String.{String, count}
use albusforge.Prelude.{ℕ, Bool, true, false, ◌&&◌, ◌||◌, leb, eqb, if◌then◌else◌}

is_lower : ℕ → Bool
is_lower c = leb b'a' c && leb c b'z'

is_digit : ℕ → Bool
is_digit c = leb b'0' c && leb c b'9'

is_word : ℕ → Bool
unfolding is_lower is_digit
is_word c = is_lower c || is_digit c || eqb c b'_'

-- `[a-z0-9_]*(\.[a-z0-9_]+)+$`: whether the running segment has a character, and a dot was seen.
segments : Bool → Bool → String → Bool
segments filled dotted String.[] = filled && dotted
segments filled dotted (String.◌∷◌ c s) =
    let word = segments true dotted s in
    let dot = filled && segments false true s in
    if is_word (code c) then word else if eqb (code c) b'.' then dot else false

capability_shape : String → Bool
capability_shape String.[] = false
capability_shape (String.◌∷◌ c s) = is_lower (code c) && segments true false s

-- `CapabilityId.safeParse(id).success`
unfoldable pub is_capability_id : String → Bool
unfolding capability_shape segments is_word
is_capability_id id = leb (count id) 64 && capability_shape id

-- `[a-z0-9:.-]*$`
flag_tail : String → Bool
flag_tail String.[] = true
flag_tail (String.◌∷◌ c s) =
    (is_lower (code c)
      || is_digit (code c)
      || eqb (code c) b':'
      || eqb (code c) b'.'
      || eqb (code c) b'-')
    && flag_tail s

flag_start : String → Bool
flag_start String.[] = false
flag_start (String.◌∷◌ c s) =
    (is_lower (code c) || is_digit (code c)) && flag_tail s && leb (count s) 63

-- `FLAG_SHAPE.test`
unfoldable pub is_flag_shape : String → Bool
unfolding flag_start flag_tail is_lower is_digit
is_flag_shape s = flag_start s
