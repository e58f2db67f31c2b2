-- ===== src/Gateway/ChatStore/Cursors/Tests.antt =====
-- A concrete cursor of apps/gateway/src/chat-store.ts.
use albusforge.Prelude.{◌≡◌, refl, none, some, arith, trim}
use albusforge.Gateway.ChatStore.Cursors.{
  Cursor, digits_onto, digit_char, parse_cursor, cursor_text, parse_from, is_digit, is_lower_uuid,
  has_shape, is_lower_hex,
}
use albusforge.Gateway.ChatStore.Cursors.RoundTrip.{parse_cursor-cursor_text}

abbrev a_cursor : Cursor
a_cursor = record { micros = 1757750400000123; id = "0190f1c2-8e5a-7b3c-9d4e-5f60718293a4" }

a_cursor_text : cursor_text a_cursor ≡ "1757750400000123.0190f1c2-8e5a-7b3c-9d4e-5f60718293a4"
unfolding cursor_text digits_onto digit_char
a_cursor_text = refl

padded :
    parse_cursor (some " 007.0190f1c2-8e5a-7b3c-9d4e-5f60718293a4\n")
    ≡ some (record { micros = 7; id = "0190f1c2-8e5a-7b3c-9d4e-5f60718293a4" })
unfolding parse_cursor parse_from trim is_digit is_lower_uuid has_shape is_lower_hex
padded = refl

no_cursors :
    (parse_cursor none ≡ none)
    × (parse_cursor (some ".0190f1c2-8e5a-7b3c-9d4e-5f60718293a4") ≡ none)
    × (parse_cursor (some "7.0190F1C2-8e5a-7b3c-9d4e-5f60718293a4") ≡ none)
unfolding parse_cursor parse_from trim is_digit is_lower_uuid has_shape is_lower_hex
no_cursors = (refl, refl, refl)

parse_cursor-cursor_text_example : parse_cursor (some (cursor_text a_cursor)) ≡ some a_cursor
unfolding is_lower_uuid has_shape is_lower_hex
parse_cursor-cursor_text_example = parse_cursor-cursor_text a_cursor refl (omega arith)
