-- ===== src/Gateway/ChatStore/Cursors.antt =====
-- apps/gateway/src/chat-store.ts: uuids, and the cursors that position a message. A cursor is written
-- by SQL, `(micros)::bigint::text || '.' || id`, and read back by `parseCursor`.
pub mod RoundTrip
mod Tests
use Prim.Native.Char.{Char, code}
use Prim.Native.String
use albusforge.Prelude.{
  ℕ, zero, suc, ◌+◌, ◌-◌, ◌*◌, ◌/◌, ◌%◌, String, Bool, true, false, ◌&&◌, ◌||◌, List, [], ◌∷◌, ◌++◌,
  Option, none, some, Ordering, compare, if◌then◌else◌, leb, ltb, eqb, trim, get_elem?, ◌==◌,
}

pub record Cursor : Type 0 where
  pub micros : ℕ
  pub id : String

-- `[0-9]`, `[0-9a-f]` and, without regard to case, `[0-9a-fA-F]`.
unfoldable pub is_digit : ℕ → Bool
is_digit c = leb b'0' c && leb c b'9'

unfoldable pub is_lower_hex : ℕ → Bool
unfolding is_digit
is_lower_hex c = is_digit c || leb b'a' c && leb c b'f'

unfoldable pub is_hex : ℕ → Bool
unfolding is_lower_hex is_digit
is_hex c = is_lower_hex c || leb b'A' c && leb c b'F'

abbrev hexes : ℕ → List Bool → List Bool
hexes zero rest = rest
hexes (suc n) rest = true ∷ hexes n rest

-- `{8}-{4}-{4}-{4}-{12}`: where a digit stands, and where a dash.
abbrev pub uuid_shape : List Bool
uuid_shape = hexes 8 (false ∷ hexes 4 (false ∷ hexes 4 (false ∷ hexes 4 (false ∷ hexes 12 []))))

unfoldable pub has_shape : (ℕ → Bool) → List Bool → String → Bool
has_shape digit [] String.[] = true
has_shape digit [] (String.◌∷◌ c s) = false
has_shape digit (at ∷ shape) String.[] = false
has_shape digit (at ∷ shape) (String.◌∷◌ c s) =
    (if at then digit (code c) else eqb (code c) b'-') && has_shape digit shape s

unfoldable pub is_uuid : String → Bool
is_uuid value = has_shape is_hex uuid_shape value

-- The lower case of a hexadecimal digit.
abbrev lower_digit : ℕ → ℕ
lower_digit c = if leb b'A' c && leb c b'F' then c + 32 else c

unfoldable pub same_digits : String → String → Bool
same_digits String.[] String.[] = true
same_digits String.[] (String.◌∷◌ d t) = false
same_digits (String.◌∷◌ c s) String.[] = false
same_digits (String.◌∷◌ c s) (String.◌∷◌ d t) =
    eqb (lower_digit (code c)) (lower_digit (code d)) && same_digits s t

-- `=` of a uuid column: the case of the digits does not matter.
unfoldable pub same_uuid : String → String → Bool
same_uuid stored id = stored == id || is_uuid stored && is_uuid id && same_digits stored id

-- The second group of `CURSOR_PATTERN`.
unfoldable pub is_lower_uuid : String → Bool
is_lower_uuid value = has_shape is_lower_hex uuid_shape value

-- `CURSOR_PATTERN` after its first digits: `left` more digits may follow, and `some_digit` tells
-- whether there was one.
unfoldable pub parse_from : (left micros : ℕ) → (some_digit : Bool) → String → Option Cursor
parse_from left micros some_digit String.[] = none
parse_from left micros some_digit (String.◌∷◌ c s) =
    let n = code c in
    let next = parse_from (left - 1) (micros * 10 + (n - b'0')) true s in
    if eqb n b'.'
    then if some_digit && is_lower_uuid s then some (record { micros = micros; id = s }) else none
    else if is_digit n && ltb 0 left
    then next
    else none

-- `value?.trim() ?? ""`
abbrev trimmed : Option String → String
trimmed none = ""
trimmed (some value) = trim value

unfoldable pub parse_cursor : Option String → Option Cursor
parse_cursor value = parse_from 19 0 false (trimmed value)

abbrev digit_chars : List Char
digit_chars = "0" ∷ "1" ∷ "2" ∷ "3" ∷ "4" ∷ "5" ∷ "6" ∷ "7" ∷ "8" ∷ "9" ∷ []

-- The character of a digit, below ten.
unfoldable pub digit_char : ℕ → Char
digit_char n = elim (get_elem? digit_chars n) [ none ↦ "0" | some c ↦ c ]

-- The decimal digits of a number, in front of a text; `more` digits may precede the last.
unfoldable pub digits_onto : (more n : ℕ) → String → String
digits_onto zero n rest = String.◌∷◌ (digit_char (n % 10)) rest
digits_onto (suc more) n rest =
    let longer = digits_onto more (n / 10) (String.◌∷◌ (digit_char (n % 10)) rest) in
    if ltb n 10 then String.◌∷◌ (digit_char n) rest else longer

-- `cursorSql`: a bigint has at most nineteen digits.
unfoldable pub cursor_text : Cursor → String
cursor_text cursor = digits_onto 18 cursor.micros (String.◌∷◌ "." cursor.id)

unfoldable pub compare_cursors : Cursor → Cursor → Ordering
compare_cursors a b = elim (compare a.micros b.micros) [
  | Ordering.lt ↦ Ordering.lt
  | Ordering.gt ↦ Ordering.gt
  | Ordering.eq ↦ String.compare a.id b.id
]
