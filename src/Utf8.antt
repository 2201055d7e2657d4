-- ===== src/Utf8.antt =====
-- UTF-8 as Go's language and package unicode/utf8 have it: the encoding of a rune, as in
-- `string(r)`, and the decoding of the first rune of a string, as in `range s` and `ReadRune`.
-- A rune is an int32; here it is its bit pattern, so a negative rune is 2 ^ 31 or more.
pub mod RoundTrip
use smart_web.Base.{
  ℕ, zero, suc, ◌+◌, ◌-◌, ◌*◌, ◌/◌, ◌%◌, ◌≤◌, ◌<◌, Bool, ◌&&◌, ◌||◌, List, [], ◌∷◌, ◌++◌, ltb, leb,
  ◌==◌, within, if◌then◌else◌, Bytes, ◌⊎◌,
}

-- utf8.RuneError
abbrev pub rune_error : ℕ
rune_error = 0xFFFD

-- A Unicode scalar value: no surrogate, and at most U+10FFFF.
abbrev pub IsScalar : ℕ → Type 0
IsScalar r = (r < 0xD800) ⊎ ((0xE000 ≤ r) × (r < 0x110000))

unfoldable pub encode_rune : ℕ → Bytes
encode_rune r =
    if ltb r 0x80
    then r ∷ []
    else if ltb r 0x800
    then (0xC0 + r / 0x40) ∷ (0x80 + r % 0x40) ∷ []
    else if within 0xD800 0xDFFF r || ltb 0x10FFFF r
    then 0xEF ∷ 0xBF ∷ 0xBD ∷ []
    else if ltb r 0x10000
    then (0xE0 + r / 0x1000) ∷ (0x80 + r / 0x40 % 0x40) ∷ (0x80 + r % 0x40) ∷ []
    else (0xF0 + r / 0x40000)
      ∷ (0x80 + r / 0x1000 % 0x40)
      ∷ (0x80 + r / 0x40 % 0x40)
      ∷ (0x80 + r % 0x40)
      ∷ []

-- `string([]rune)`
unfoldable pub encode : List ℕ → Bytes
encode [] = []
encode (r ∷ rs) = encode_rune r ++ encode rs

abbrev is_cont : ℕ → Bool
is_cont = within 0x80 0xBF

-- An encoding that is not valid is one byte wide.
abbrev invalid : ℕ × ℕ
invalid = (rune_error, 1)

two : ℕ → Bytes → ℕ × ℕ
two b [] = invalid
two b (c ∷ s) = if is_cont c then ((b - 0xC0) * 0x40 + (c - 0x80), 2) else invalid

three : ℕ → ℕ → ℕ → Bytes → ℕ × ℕ
three lo hi b (c ∷ d ∷ s) =
    if within lo hi c && is_cont d
    then ((b - 0xE0) * 0x1000 + (c - 0x80) * 0x40 + (d - 0x80), 3)
    else invalid
three lo hi b _ = invalid

four : ℕ → ℕ → ℕ → Bytes → ℕ × ℕ
four lo hi b (c ∷ d ∷ e ∷ s) =
    if within lo hi c && is_cont d && is_cont e
    then ((b - 0xF0) * 0x40000 + (c - 0x80) * 0x1000 + (d - 0x80) * 0x40 + (e - 0x80), 4)
    else invalid
four lo hi b _ = invalid

-- The first rune of the string `b ∷ s`, and its width in bytes.
unfoldable pub decode_rune : ℕ → Bytes → ℕ × ℕ
unfolding two three four
decode_rune b s =
    if ltb b 0x80
    then (b, 1)
    else if ltb b 0xC2
    then invalid
    else if ltb b 0xE0
    then two b s
    else if ltb b 0xF0
    then three (if b == 0xE0 then 0xA0 else 0x80) (if b == 0xED then 0x9F else 0xBF) b s
    else if ltb b 0xF5
    then four (if b == 0xF0 then 0x90 else 0x80) (if b == 0xF4 then 0x8F else 0xBF) b s
    else invalid

-- The runes of a string, as `range s` yields them; the number is of bytes still to skip.
runes_from : ℕ → Bytes → List ℕ
runes_from k [] = []
runes_from zero (b ∷ s) = let (r, w) = decode_rune b s in r ∷ runes_from (w - 1) s
runes_from (suc k) (b ∷ s) = runes_from k s

unfoldable pub runes : Bytes → List ℕ
unfolding runes_from
runes s = runes_from 0 s
