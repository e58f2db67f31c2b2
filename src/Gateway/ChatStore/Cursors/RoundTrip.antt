-- ===== src/Gateway/ChatStore/Cursors/RoundTrip.antt =====
-- apps/gateway/src/chat-store.ts: what `cursorSql` writes, `parseCursor` reads back.
use Prim.Native.Char.{code}
use albusforge.Prelude.{
  ℕ, zero, suc, ◌+◌, ◌-◌, ◌*◌, ◌/◌, ◌%◌, ◌^◌, ◌≤◌, ◌<◌, ◌≡◌, refl, ap, ◌∙◌, String, Bool, true,
  false, ◌&&◌, List, [], ◌∷◌, some, ltb, eqb, trim, is_space, is_plain, trim-is_plain, arith,
  Bool-cases, inl, inr, and-true,
}
use albusforge.Gateway.ChatStore.Cursors.{
  Cursor, is_digit, is_lower_hex, has_shape, uuid_shape, is_lower_uuid, parse_from, parse_cursor,
  digit_char, digits_onto, cursor_text,
}

code-digit_char : (n : ℕ) → n < 10 → code (digit_char n) ≡ b'0' + n
unfolding digit_char
code-digit_char zero h = refl
code-digit_char (suc zero) h = refl
code-digit_char (suc (suc zero)) h = refl
code-digit_char (suc (suc (suc zero))) h = refl
code-digit_char (suc (suc (suc (suc zero)))) h = refl
code-digit_char (suc (suc (suc (suc (suc zero))))) h = refl
code-digit_char (suc (suc (suc (suc (suc (suc zero)))))) h = refl
code-digit_char (suc (suc (suc (suc (suc (suc (suc zero))))))) h = refl
code-digit_char (suc (suc (suc (suc (suc (suc (suc (suc zero)))))))) h = refl
code-digit_char (suc (suc (suc (suc (suc (suc (suc (suc (suc zero))))))))) h = refl
code-digit_char (suc (suc (suc (suc (suc (suc (suc (suc (suc (suc n)))))))))) h =
    absurd (omega (arith, h))

-- Reading one digit.
parse_from-digit :
    (left micros d : ℕ) (seen : Bool) (s : String)
    → d < 10
    → 0 < left
    → parse_from left micros seen (String.◌∷◌ (digit_char d) s)
      ≡ parse_from (left - 1) (micros * 10 + d) true s
unfolding parse_from is_digit
parse_from-digit left micros d seen s h room =
    let c : code (digit_char d) ≡ b'0' + d = code-digit_char d h in
    let dot : eqb (b'0' + d) b'.' ≡ false = ground arith in
    let digit : (is_digit (b'0' + d) && ltb 0 left) ≡ true = ground (arith, h, room) in
    let same : b'0' + d - b'0' ≡ d = omega arith in rw (c, dot, digit, same, parse_from) refl

-- Reading all the digits of a number leaves the rest, and room for the digits not used.
parse_from-digits_onto :
    (more n left : ℕ) (rest : String)
    → n < 10 ^ suc more
    → more < left
    → (left' : ℕ) × (left ≤ left' + suc more)
      × (parse_from left 0 false (digits_onto more n rest) ≡ parse_from left' n true rest)
unfolding digits_onto
parse_from-digits_onto zero n left rest h room =
    let whole : n % 10 ≡ n = omega (arith, h) in
    let value : 0 * 10 + n % 10 ≡ n = omega (arith, h) in
    (
      left - 1,
      omega arith,
      parse_from-digit left 0 (n % 10) false rest (omega arith) room
          ∙ ap (λ v. parse_from (left - 1) v true rest) value,
    )
parse_from-digits_onto (suc more) n left rest h room = elim (Bool-cases (ltb n 10)) [
  | inl small ↦
      rw (small, digits_onto)
        (
          left - 1,
          omega arith,
          parse_from-digit left 0 n false rest (ground arith) (omega (arith, room))
              ∙ ap (λ v. parse_from (left - 1) v true rest) (omega arith),
        )
  | inr large ↦
      let (left', enough, parsed) =
        parse_from-digits_onto more (n / 10) left (String.◌∷◌ (digit_char (n % 10)) rest)
          (omega (arith, h)) (omega (arith, room)) in
      let value : n / 10 * 10 + n % 10 ≡ n = omega arith in
      rw (large, digits_onto)
        (
          left' - 1,
          omega (arith, enough),
          parsed
              ∙ parse_from-digit left' (n / 10) (n % 10) true rest (omega arith)
                  (omega (arith, enough, room))
              ∙ ap (λ v. parse_from (left' - 1) v true rest) value,
        )
]

dash_plain : is_space b'-' ≡ false
unfolding is_space
dash_plain = refl

dot_plain : is_space b'.' ≡ false
unfolding is_space
dot_plain = refl

-- Neither a digit nor a character of a uuid is white space.
digit-plain : (c : ℕ) → is_digit c ≡ true → is_space c ≡ false
unfolding is_digit is_space
digit-plain c h = ground arith

is_lower_hex-plain : (c : ℕ) → is_lower_hex c ≡ true → is_space c ≡ false
unfolding is_lower_hex is_digit is_space
is_lower_hex-plain c h = ground arith

has_shape-is_plain :
    (shape : List Bool) (s : String) → has_shape is_lower_hex shape s ≡ true → is_plain s ≡ true
unfolding has_shape is_plain
has_shape-is_plain [] String.[] h = refl
has_shape-is_plain [] (String.◌∷◌ c s) h = ground arith
has_shape-is_plain (at ∷ shape) String.[] h = refl
has_shape-is_plain (true ∷ shape) (String.◌∷◌ c s) h =
    let (hex, rest) = and-true (is_lower_hex (code c)) (has_shape is_lower_hex shape s) h in
    rw (is_lower_hex-plain (code c) hex, has_shape-is_plain shape s rest) refl
has_shape-is_plain (false ∷ shape) (String.◌∷◌ c s) h =
    let (dash, rest) = and-true (eqb (code c) b'-') (has_shape is_lower_hex shape s) h in
    let here : code c ≡ b'-' = ground arith in
    rw (here, has_shape-is_plain shape s rest, dash_plain) refl

digit-is_digit : (d : ℕ) → d < 10 → is_digit (b'0' + d) ≡ true
unfolding is_digit
digit-is_digit d h = ground (arith, h)

digit_char-plain : (d : ℕ) → d < 10 → is_space (code (digit_char d)) ≡ false
digit_char-plain d h =
    let c : code (digit_char d) ≡ b'0' + d = code-digit_char d h in
    rw c (digit-plain (b'0' + d) (digit-is_digit d h))

cons-is_plain :
    (d : ℕ) (rest : String)
    → d < 10
    → is_plain rest ≡ true
    → is_plain (String.◌∷◌ (digit_char d) rest) ≡ true
unfolding is_plain
cons-is_plain d rest h k = rw (digit_char-plain d h, k) refl

digits_onto-is_plain :
    (more n : ℕ) (rest : String) → is_plain rest ≡ true → is_plain (digits_onto more n rest) ≡ true
unfolding digits_onto
digits_onto-is_plain zero n rest k = cons-is_plain (n % 10) rest (omega arith) k
digits_onto-is_plain (suc more) n rest k = elim (Bool-cases (ltb n 10)) [
  | inl small ↦ rw (small, digits_onto) (cons-is_plain n rest (ground arith) k)
  | inr large ↦
      rw (large, digits_onto)
        (digits_onto-is_plain more (n / 10) (String.◌∷◌ (digit_char (n % 10)) rest)
          (cons-is_plain (n % 10) rest (omega arith) k))
]

dot_id-is_plain : (id : String) → is_lower_uuid id ≡ true → is_plain (String.◌∷◌ "." id) ≡ true
unfolding is_plain is_lower_uuid
dot_id-is_plain id u = rw (has_shape-is_plain uuid_shape id u, dot_plain) refl

-- At the dot, with a digit read, what is left is the id.
parse_from-dot :
    (left micros : ℕ) (id : String)
    → is_lower_uuid id ≡ true
    → parse_from left micros true (String.◌∷◌ "." id) ≡ some (record { micros = micros; id = id })
unfolding parse_from
parse_from-dot left micros id u = rw (u, parse_from) refl

-- A cursor that the database writes, of a lower-case uuid and a time of at most nineteen digits, is
-- read back as it was.
pub parse_cursor-cursor_text :
    (cursor : Cursor)
    → is_lower_uuid cursor.id ≡ true
    → cursor.micros < 10 ^ 19
    → parse_cursor (some (cursor_text cursor)) ≡ some cursor
unfolding parse_cursor cursor_text
parse_cursor-cursor_text cursor u h =
    let rest : String = String.◌∷◌ "." cursor.id in
    let plain : trim (digits_onto 18 cursor.micros rest) ≡ digits_onto 18 cursor.micros rest =
      trim-is_plain _ (digits_onto-is_plain 18 cursor.micros rest (dot_id-is_plain cursor.id u)) in
    let (left, _, parsed) = parse_from-digits_onto 18 cursor.micros 19 rest h (omega arith) in
    ap (λ s. parse_from 19 0 false s) plain ∙ parsed ∙ parse_from-dot left cursor.micros cursor.id u
