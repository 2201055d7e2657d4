-- ===== src/Turtle.antt =====
-- turtle/escape.go: the escaping of strings and IRIs for N-Quads.
use smart_web.Base.{
  ℕ, zero, suc, ◌+◌, ◌-◌, ◌/◌, ◌%◌, List, [], ◌∷◌, ◌++◌, ltb, ◌==◌, if◌then◌else◌, Bytes, codes,
  contains,
}
use smart_web.Utf8.{encode_rune, runes}

-- U+0000 to U+0020
abbrev controls_and_space : Bytes
controls_and_space =
    0x00 ∷ 0x01 ∷ 0x02 ∷ 0x03 ∷ 0x04 ∷ 0x05 ∷ 0x06 ∷ 0x07 ∷ 0x08 ∷ 0x09 ∷ 0x0A ∷ 0x0B ∷ 0x0C ∷ 0x0D
    ∷ 0x0E ∷ 0x0F ∷ 0x10 ∷ 0x11 ∷ 0x12 ∷ 0x13 ∷ 0x14 ∷ 0x15 ∷ 0x16 ∷ 0x17 ∷ 0x18 ∷ 0x19 ∷ 0x1A
    ∷ 0x1B ∷ 0x1C ∷ 0x1D ∷ 0x1E ∷ 0x1F ∷ 0x20 ∷ []

abbrev pub escape_iri_chars : Bytes
escape_iri_chars = codes "<>\"{}|^`\\" ++ controls_and_space

abbrev pub escape_string_more_chars : Bytes
escape_string_more_chars = b'"' ∷ b'\'' ∷ 0x0D ∷ 0x0A ∷ b'\\' ∷ 0x09 ∷ 0x08 ∷ 0x0C ∷ 0x00 ∷ []

hex_digit : ℕ → ℕ
hex_digit d = if ltb d 10 then b'0' + d else b'a' + (d - 10)

hex_digits : ℕ → ℕ → Bytes
hex_digits zero r = []
hex_digits (suc n) r = hex_digits n (r / 16) ++ hex_digit (r % 16) ∷ []

-- `fmt.Sprintf("%04x", r)`; a rune of a string is below 2 ^ 24
format_04x : ℕ → Bytes
unfolding hex_digits hex_digit
format_04x r = hex_digits (if ltb r 0x10000 then 4 else if ltb r 0x100000 then 5 else 6) r

-- What one round of the loop of `Escape` adds to the result.
unfoldable pub escape_rune : Bytes → ℕ → Bytes
unfolding format_04x contains
escape_rune chars r =
    if r == b'\\'
    then b'\\' ∷ b'\\' ∷ []
    else if contains chars r
    then if r == 0x09
      then b'\\' ∷ b't' ∷ []
      else if r == 0x08
      then b'\\' ∷ b'b' ∷ []
      else if r == 0x0A
      then b'\\' ∷ b'n' ∷ []
      else if r == 0x0D
      then b'\\' ∷ b'r' ∷ []
      else if r == 0x0C
      then b'\\' ∷ b'f' ∷ []
      else if r == 0x22
      then b'\\' ∷ b'"' ∷ []
      else if r == 0x27
      then b'\\' ∷ b'\'' ∷ []
      else if r == 0x5C
      then b'\\' ∷ b'\\' ∷ []
      else b'\\' ∷ b'u' ∷ format_04x r
    else encode_rune r

unfoldable pub escape_runes : Bytes → List ℕ → Bytes
escape_runes chars [] = []
escape_runes chars (r ∷ rs) = escape_rune chars r ++ escape_runes chars rs

unfoldable pub escape : Bytes → Bytes → Bytes
escape str chars = escape_runes chars (runes str)
