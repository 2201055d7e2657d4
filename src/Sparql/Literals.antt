-- ===== src/Sparql/Literals.antt =====
-- sparql/literals.go: Go values as terms of SPARQL.
use smart_web.Base.{
  ℕ, Bool, true, false, Option, none, some, List, [], ◌∷◌, ◌++◌, Bytes, codes, replace, ℤ, format_d,
}

-- A value of type interface{}, by the cases that the package tells apart. A URL stands by the text
-- of its method String, a float by its type's name and its print under `%g` and `%v`, and any other
-- value by its print under `%v` and `%s`.
pub data Value : Type 0 where
  url str : Bytes → Value
  bool : Bool → Value
  int : ℤ → Value
  float : Bytes → Bytes → Bytes → Value
  other : Bytes → Bytes → Value

-- A run of calls `s = strings.Replace(s, old, new, -1)`, each on the result of the one before.
unfoldable pub replace_all : List (ℕ × Bytes) → Bytes → Bytes
replace_all [] s = s
replace_all ((old, new) ∷ table) s = replace_all table (replace old new s)

abbrev pub string_table : List (ℕ × Bytes)
string_table =
    (b'\\', codes "\\\\")
    ∷ (b'"', codes "\\\"")
    ∷ (b'\r', codes "\\r")
    ∷ (b'\n', codes "\\n")
    ∷ (b'\t', codes "\\t")
    ∷ []

-- There is no row for U+001B, and U+001A has the text of U+001B.
abbrev pub iri_table : List (ℕ × Bytes)
iri_table =
    (0x00, codes "%00")
    ∷ (0x01, codes "%01")
    ∷ (0x02, codes "%02")
    ∷ (0x03, codes "%03")
    ∷ (0x04, codes "%04")
    ∷ (0x05, codes "%05")
    ∷ (0x06, codes "%06")
    ∷ (0x07, codes "%07")
    ∷ (0x08, codes "%08")
    ∷ (0x09, codes "%09")
    ∷ (0x0A, codes "%0A")
    ∷ (0x0B, codes "%0B")
    ∷ (0x0C, codes "%0C")
    ∷ (0x0D, codes "%0D")
    ∷ (0x0E, codes "%0E")
    ∷ (0x0F, codes "%0F")
    ∷ (0x10, codes "%10")
    ∷ (0x11, codes "%11")
    ∷ (0x12, codes "%12")
    ∷ (0x13, codes "%13")
    ∷ (0x14, codes "%14")
    ∷ (0x15, codes "%15")
    ∷ (0x16, codes "%16")
    ∷ (0x17, codes "%17")
    ∷ (0x18, codes "%18")
    ∷ (0x19, codes "%19")
    ∷ (0x1A, codes "%1B")
    ∷ (0x1C, codes "%1C")
    ∷ (0x1D, codes "%1D")
    ∷ (0x1E, codes "%1E")
    ∷ (0x1F, codes "%1F")
    ∷ (0x20, codes "%20")
    ∷ (0x3C, codes "%3C")
    ∷ (0x3E, codes "%3E")
    ∷ (0x22, codes "%22")
    ∷ (0x7B, codes "%7B")
    ∷ (0x7D, codes "%7D")
    ∷ (0x7C, codes "%7C")
    ∷ (0x5E, codes "%5E")
    ∷ (0x60, codes "%60")
    ∷ (0x5C, codes "%5C")
    ∷ []

unfoldable pub string_literal : Bytes → Bytes
string_literal s = b'"' ∷ (replace_all string_table s ++ b'"' ∷ [])

unfoldable pub iri_literal : Bytes → Bytes
iri_literal uri = b'<' ∷ (replace_all iri_table uri ++ b'>' ∷ [])

unfoldable pub typed_string_literal : Bytes → Bytes → Bytes
typed_string_literal s typ = string_literal s ++ (b'^' ∷ b'^' ∷ iri_literal typ)

unfoldable pub loc_string_literal : Bytes → Bytes → Bytes
loc_string_literal s lang = string_literal s ++ (b'@' ∷ lang)

unfoldable pub bool_literal : Bool → Bytes
bool_literal true = codes "true"
bool_literal false = codes "false"

unfoldable pub int_literal : ℤ → Bytes
int_literal i = format_d i

unfoldable pub blank_literal : Bytes → Bytes
blank_literal blank_id = b'_' ∷ b':' ∷ blank_id

-- `none` is the error of a value with no term
unfoldable pub literal : Value → Option Bytes
literal (url u) = some (iri_literal u)
literal (str s) = some (string_literal s)
literal (bool b) = some (bool_literal b)
literal (int i) = some (int_literal i)
literal (float name g v) = some g
literal (other v s) = none

-- `baseUri.Parse(uri)` is the argument: the text of the URL, or none for an error.
unfoldable pub iri_rel_literal : (Bytes → Option Bytes) → Bytes → Bytes
iri_rel_literal parse uri = elim (parse uri) [ none ↦ iri_literal uri | some u ↦ iri_literal u ]
