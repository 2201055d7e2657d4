-- ===== src/Nquads/Reader.antt =====
-- nquads/reader.go: the parser of N-Quads, one function for each method, over the reader's monad.
-- A `for` loop recurs on fuel, one more than the bytes that are unread when it starts.
pub mod Steps
pub mod Total
pub mod WellFormed
use Prim.Native.Nat.{bit_or}
use smart_web.Base.{
  ℕ, zero, suc, ◌+◌, ◌-◌, ◌*◌, ◌/◌, ◌%◌, ◌^◌, ◌≤◌, ◌<◌, Bool, true, false, not, ◌&&◌, ◌||◌, Option,
  none, some, List, [], ◌∷◌, ◌++◌, ltb, leb, ◌==◌, within, if◌then◌else◌, Bytes, codes, length,
  equal,
}
use smart_web.Utf8.{encode_rune, encode}
use smart_web.Nquads.Node.{Node, blank_node, iri_node, literal_node, LiteralNode, xsd_string}
use smart_web.Nquads.Statement.{Statement}
use smart_web.Nquads.Stream.{
  Error, eof, expected_statement, unexpected_escape_sequence, unexpected_char_in_escape_sequence,
  unsupported_64bits_rune, expected_predicate, expected_object, expected_literal_type,
  invalid_character_in_language_tag, expected_final_dot, out_of_fuel, Result, ok, err, Reader, M,
  bind_result, ◌>>=◌, ◌>>◌, pure, fail, mark, unread_rune, read_rune, read_byte, read_bytes, peek,
}

abbrev pub is_space : ℕ → Bool
is_space r = r == b' ' || r == b'\t' || r == b'\r' || r == b'\n'

-- the loop of `readSpaces`
unfoldable pub spaces : ℕ → Bool → M (Unit {0})
spaces zero in_comment = fail out_of_fuel
spaces (suc fuel) in_comment = do
  before ← mark
  r ← read_rune
  let again = λ (c : Bool). spaces fuel c
  if in_comment
      then again (not (r == b'\r') && not (r == b'\n'))
      else if r == b'#'
      then again true
      else if is_space r
      then again false
      else unread_rune before

unfoldable pub read_spaces : M (Unit {0})
unfolding spaces read_rune
read_spaces r = spaces (suc (length r.input)) false r

-- the value of one digit of an escape sequence; the last test is written `||` in the source
unfoldable pub hex_value : ℕ → M ℕ
hex_value c =
    if within b'0' b'9' c
    then pure (c - b'0')
    else if within b'a' b'f' c
    then pure (c - b'a' + 10)
    else if leb b'A' c || leb c b'F'
    then pure ((c + 0x100 - b'A' + 10) % 0x100)
    else fail unexpected_char_in_escape_sequence

-- `uint64(h) << uint(numDigits-1-i)*8`: Go's `<<` and `*` bind alike, to the left
unfoldable pub shift_digit : ℕ → ℕ → ℕ
shift_digit h k = h * 2 ^ k % 2 ^ 64 * 8 % 2 ^ 64

-- the loop over the digits, by the digits that are left
unfoldable pub hex_loop : ℕ → ℕ → M ℕ
unfolding hex_value shift_digit read_byte
hex_loop zero res = if ltb 0xFFFFFFFF res then fail unsupported_64bits_rune else pure res
hex_loop (suc k) res = do c ← read_byte; h ← hex_value c; hex_loop k (bit_or res (shift_digit h k))

unfoldable pub read_escape_seq : M ℕ
unfolding hex_loop read_rune
read_escape_seq = do
  r ← read_rune
  if r == b't'
      then pure 0x09
      else if r == b'b'
      then pure 0x08
      else if r == b'n'
      then pure 0x0A
      else if r == b'r'
      then pure 0x0D
      else if r == b'f'
      then pure 0x0C
      else if r == b'"'
      then pure 0x22
      else if r == b'\''
      then pure 0x27
      else if r == b'\\'
      then pure 0x5C
      else if r == b'U' || r == b'u'
      then hex_loop (if r == b'u' then 4 else 8) 0
      else fail unexpected_escape_sequence

-- The runes up to the closing one, `>` or `"`. `readIri` appends them to a slice of runes, and
-- `readLiteral` appends `string(r)` to a string, which is the encoding of the runes so far.
unfoldable pub delimited : ℕ → ℕ → List ℕ → M (List ℕ)
unfolding read_escape_seq read_rune
delimited zero close acc = fail out_of_fuel
delimited (suc fuel) close acc = do
  r ← read_rune
  let again = λ (c : ℕ). delimited fuel close (acc ++ c ∷ [])
  if r == close then pure acc else if r == b'\\' then (do c ← read_escape_seq; again c) else again r

unfoldable pub read_delimited : ℕ → M Bytes
read_delimited close r = (do rs ← delimited (suc (length r.input)) close []; pure (encode rs)) r

unfoldable pub read_iri : M (Option Node)
read_iri = do
  read_spaces
  before ← mark
  r ← read_rune
  if not (r == b'<')
      then (do unread_rune before; pure none)
      else (do uri ← read_delimited b'>'; pure (some (iri_node uri)))

-- the loop of `readBlank`
unfoldable pub blank_label : ℕ → Bytes → M Bytes
unfolding read_rune encode_rune
blank_label zero res = fail out_of_fuel
blank_label (suc fuel) res = do
  before ← mark
  r ← read_rune
  let again = blank_label fuel (res ++ encode_rune r)
  if is_space r then (do unread_rune before; pure res) else again

unfoldable pub read_blank : M (Option Node)
read_blank = do
  read_spaces
  prefix ← peek 2
  if not (equal prefix (codes "_:")) then pure none else (do
    read_bytes b':'
    res ← λ r. blank_label (suc (length r.input)) [] r
    pure (some (blank_node res)))

abbrev pub ends_in_dash : Bytes → Bool
ends_in_dash [] = false
ends_in_dash (c ∷ []) = c == b'-'
ends_in_dash (c ∷ d ∷ s) = ends_in_dash (d ∷ s)

-- the loop over the language tag: a letter or a digit is passed over, a dash is kept
unfoldable pub lang_loop : ℕ → Bytes → M Bytes
unfolding read_byte
lang_loop zero tag = fail out_of_fuel
lang_loop (suc fuel) tag = do
  c ← read_byte
  let again = λ (t : Bytes). lang_loop fuel t
  if within b'A' b'Z' c || within b'a' b'z' c || within b'0' b'9' c
      then again tag
      else if c == b'-'
      then again (tag ++ b'-' ∷ [])
      else if ltb (length tag) 1 || ends_in_dash tag
      then fail invalid_character_in_language_tag
      else pure tag

-- `iri.(*IriNode)`
unfoldable pub literal_type : Bytes → Option Node → M (Option Node)
literal_type content (some (iri_node t)) =
    pure (some (literal_node (record { value = content; lang = []; type = t })))
literal_type content _ = fail expected_literal_type

abbrev pub first_is : ℕ → Bytes → Bool
first_is c [] = false
first_is c (b ∷ s) = b == c

-- `readLiteral` behind the closing quote
unfoldable pub literal_suffix : Bytes → M (Option Node)
unfolding literal_type
literal_suffix content = do
  read_spaces
  buf ← peek 2
  if equal buf (codes "^^")
      then (do read_spaces; t ← read_iri; literal_type content t)
      else if first_is b'@' buf
      then (do
        read_spaces
        tag ← λ r. lang_loop (suc (length r.input)) [] r
        pure (some (literal_node (record { value = content; lang = tag; type = xsd_string }))))
      else pure (some (literal_node (record { value = content; lang = []; type = xsd_string })))

unfoldable pub read_literal : M (Option Node)
read_literal = do
  read_spaces
  before ← mark
  r ← read_rune
  if not (r == b'"')
      then (do unread_rune before; pure none)
      else (do content ← read_delimited b'"'; literal_suffix content)

-- `if node != nil { return node } else …`
abbrev pub or_else : Option Node → M (Option Node) → M (Option Node)
or_else (some n) m = pure (some n)
or_else none m = m

unfoldable pub read_subject : M (Option Node)
read_subject = do read_spaces; iri ← read_iri; or_else iri read_blank

unfoldable pub read_object : M (Option Node)
read_object = do node ← read_subject; or_else node read_literal

-- `if node == nil { return nil, e }`
abbrev pub expect : Error → Option Node → M Node
expect e none = fail e
expect e (some n) = pure n

abbrev pub set_eof_is_error : Bool → M (Unit {0})
set_eof_is_error b r = (ok tt, record r { eof_is_error = b })

-- `readStatement` behind the subject
unfoldable pub statement_rest : Node → M (Option Statement)
statement_rest s = do
  set_eof_is_error true
  predicate ← read_iri
  p ← expect expected_predicate predicate
  object ← read_object
  o ← expect expected_object object
  read_spaces
  _ ← peek 1
  g ← read_iri
  read_spaces
  c ← read_byte
  if not (c == b'.') then fail expected_final_dot else (do
    set_eof_is_error false
    pure (some (record { subject = some s; predicate = some p; object = some o; graph = g })))

-- `if statement.subject == nil { return nil, nil }`
abbrev pub statement_of : Option Node → M (Option Statement)
statement_of none = pure none
statement_of (some s) = statement_rest s

unfoldable pub statement_body : M (Option Statement)
statement_body = do set_eof_is_error false; subject ← read_subject; statement_of subject

abbrev pub is_eof : Error → Bool
is_eof eof = true
is_eof _ = false

-- `ReadStatement` on what `readStatement` returned
abbrev pub statement_result :
    Result (Option Statement) × Reader → Result (Option Statement) × Reader
statement_result (err e, r) = (if is_eof e && not r.eof_is_error then ok none else err e, r)
statement_result (ok none, r) = (err expected_statement, r)
statement_result (ok (some st), r) = (ok (some st), r)

unfoldable pub read_statement : M (Option Statement)
read_statement r = statement_result (statement_body r)
