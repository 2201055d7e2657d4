-- ===== src/Nquads/Stream.antt =====
-- The errors of nquads/reader.go and the buffered reader under it, bufio.Reader: what `ReadRune`,
-- `UnreadRune`, `ReadByte`, `ReadBytes` and `Peek` do to the bytes that are still unread.
use smart_web.Base.{
  ℕ, ◌-◌, Bool, Option, none, some, [], ◌∷◌, false, ltb, ◌==◌, if◌then◌else◌, Bytes, length, take,
  drop,
}
use smart_web.Utf8.{decode_rune}

-- `io` is any error of the underlying reader but io.EOF. `out_of_fuel` is no error of the
-- program: a loop of the model returns it when its bound on the rounds is used up.
pub data Error : Type 0 where
  eof expected_statement unexpected_escape_sequence unexpected_char_in_escape_sequence : Error
  unsupported_64bits_rune expected_predicate expected_object expected_literal_type : Error
  invalid_character_in_language_tag expected_final_dot out_of_fuel : Error
  io : ℕ → Error

pub data Result {ℓ} (A : Type ℓ) : Type ℓ where
  ok : A → Result A
  err : Error → Result A

-- `fault` is the error that stands behind the last byte: io.EOF for an input that is whole.
pub record Reader : Type 0 where
  pub input : Bytes
  pub fault : Error
  pub eof_is_error : Bool

-- `NewReader` over a source that yields these bytes and then this error
abbrev pub new_reader : Bytes → Error → Reader
new_reader s e = record { input = s; fault = e; eof_is_error = false }

-- A method of the reader: the results `(value, err)`, and the reader as it leaves it.
abbrev pub M : Type 0 → Type 0
M A = Reader → Result A × Reader

abbrev pub bind_result : {A B : Type 0} → Result A × Reader → (A → M B) → Result B × Reader
bind_result (ok a, r) f = f a r
bind_result (err e, r) f = (err e, r)

infixl 5 ◌>>◌
infixl 5 ◌>>=◌
abbrev pub ◌>>=◌ : {A B : Type 0} → M A → (A → M B) → M B
◌>>=◌ method next r = bind_result (method r) next

abbrev pub ◌>>◌ : {A : Type 0} → M (Unit {0}) → M A → M A
method >> next = method >>= λ _. next

abbrev pub pure : {A : Type 0} → A → M A
pure a r = (ok a, r)

abbrev pub fail : {A : Type 0} → Error → M A
fail e r = (err e, r)

next_rune : Bytes → M ℕ
next_rune [] r = (err r.fault, r)
next_rune (b ∷ s) r = let (c, w) = decode_rune b s in (ok c, record r { input = drop (w - 1) s })

unfoldable pub read_rune : M ℕ
unfolding next_rune decode_rune
read_rune r = next_rune r.input r

-- The unread bytes, noted down before a `ReadRune` that `UnreadRune` may take back.
abbrev pub mark : M Bytes
mark r = (ok r.input, r)

abbrev pub unread_rune : Bytes → M (Unit {0})
unread_rune before r = (ok tt, record r { input = before })

next_byte : Bytes → M ℕ
next_byte [] r = (err r.fault, r)
next_byte (b ∷ s) r = (ok b, record r { input = s })

unfoldable pub read_byte : M ℕ
unfolding next_byte
read_byte r = next_byte r.input r

unfoldable pub peek : ℕ → M Bytes
peek n r = if ltb (length r.input) n then (err r.fault, r) else (ok (take n r.input), r)

-- the bytes behind the first `delim`
unfoldable pub after : ℕ → Bytes → Option Bytes
after delim [] = none
after delim (b ∷ s) = if b == delim then some s else after delim s

unfoldable pub skip_to : Option Bytes → M (Unit {0})
skip_to none r = (err r.fault, record r { input = [] })
skip_to (some s) r = (ok tt, record r { input = s })

-- `ReadBytes`, of which the program drops the value
unfoldable pub read_bytes : ℕ → M (Unit {0})
unfolding after skip_to
read_bytes delim r = skip_to (after delim r.input) r
