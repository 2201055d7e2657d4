-- ===== src/Sparql/Terms.antt =====
-- The terms against the grammar of SPARQL: an IRIREF and a STRING_LITERAL2.
use smart_web.Base.{
  ℕ, Bool, true, false, Option, none, some, List, [], ◌∷◌, ◌++◌, append_assoc, append-nil, ◌≡◌, ◌≢◌,
  ◌↔◌, refl, ◌∙◌, arith, Bytes, replace, All, inl, inr, ◌==◌, if◌then◌else◌, contains, Bool-cases,
  ==_ne, ◌||◌, contains-All, contains-ne,
}
use smart_web.Sparql.Literals.{replace_all, string_table, iri_table, string_literal, iri_literal}

replace-append :
    (old : ℕ) (new s t : Bytes) → replace old new (s ++ t) ≡ replace old new s ++ replace old new t
unfolding replace
replace-append old new [] t = refl
replace-append old new (c ∷ s) t = simp (replace-append old new s t, append_assoc)

pub replace_all-append :
    (table : List (ℕ × Bytes)) (s t : Bytes)
    → replace_all table (s ++ t) ≡ replace_all table s ++ replace_all table t
unfolding replace_all
replace_all-append [] s t = refl
replace_all-append ((old, new) ∷ table) s t =
    rw (replace-append old new s t) (replace_all-append table _ _)

-- A run of replacements works on each byte by itself.
pub replace_all-cons :
    (table : List (ℕ × Bytes)) (c : ℕ) (s : Bytes)
    → replace_all table (c ∷ s) ≡ replace_all table (c ∷ []) ++ replace_all table s
replace_all-cons table c s = replace_all-append table (c ∷ []) s

abbrev Lacks : ℕ → List (ℕ × Bytes) → Type 0
Lacks c [] = Unit
Lacks c ((old, new) ∷ table) = (c ≢ old) × Lacks c table

replace_all-none :
    (table : List (ℕ × Bytes)) (c : ℕ) → Lacks c table → replace_all table (c ∷ []) ≡ c ∷ []
unfolding replace_all replace
replace_all-none [] c h = refl
replace_all-none ((old, new) ∷ table) c (h, hs) = rw (==_ne c old h) (replace_all-none table c hs)

-- What the grammar bars from an IRIREF.
abbrev pub illegal : Bytes
illegal =
    0x3C ∷ 0x3E ∷ 0x22 ∷ 0x7B ∷ 0x7D ∷ 0x7C ∷ 0x5E ∷ 0x60 ∷ 0x5C ∷ 0x00 ∷ 0x01 ∷ 0x02 ∷ 0x03 ∷ 0x04
    ∷ 0x05 ∷ 0x06 ∷ 0x07 ∷ 0x08 ∷ 0x09 ∷ 0x0A ∷ 0x0B ∷ 0x0C ∷ 0x0D ∷ 0x0E ∷ 0x0F ∷ 0x10 ∷ 0x11
    ∷ 0x12 ∷ 0x13 ∷ 0x14 ∷ 0x15 ∷ 0x16 ∷ 0x17 ∷ 0x18 ∷ 0x19 ∷ 0x1A ∷ 0x1B ∷ 0x1C ∷ 0x1D ∷ 0x1E
    ∷ 0x1F ∷ 0x20 ∷ []

abbrev pub IsIriByte : ℕ → Type 0
IsIriByte c = contains illegal c ≡ false

abbrev IsByteLegal : ℕ → Type 0
IsByteLegal c = All IsIriByte (replace_all iri_table (c ∷ [])) ↔ (c ≢ 0x1B)

legal_table : All IsByteLegal illegal
unfolding replace_all replace contains
legal_table = ground arith

rows_Lacks :
    (c : ℕ) (table : List (ℕ × Bytes))
    → contains illegal c ≡ false
    → All (λ row. contains illegal row.0 ≡ true) table
    → Lacks c table
rows_Lacks c [] h _ = tt
rows_Lacks c ((old, new) ∷ table) h (p, ps) =
    (contains-ne illegal c old h p, rows_Lacks c table h ps)

rows_illegal : All (λ (row : ℕ × Bytes). contains illegal row.0 ≡ true) iri_table
unfolding contains
rows_illegal = ground arith

byte_IsByteLegal : (c : ℕ) → IsByteLegal c
byte_IsByteLegal c = elim (Bool-cases (contains illegal c)) [
  | inl h ↦ contains-All IsByteLegal illegal c h legal_table
  | inr h ↦
      rw (replace_all-none iri_table c (rows_Lacks c iri_table h rows_illegal))
        (λ _. contains-ne illegal c 0x1B h (unfold contains in refl), λ _. (h, tt))
]

All-append_iff : (P : ℕ → Type 0) (s t : Bytes) → All P (s ++ t) ↔ (All P s × All P t)
All-append_iff P [] t = (λ h. (tt, h), λ h. h.1)
All-append_iff P (c ∷ s) t = (
  λ h. let both = (All-append_iff P s t).0 h.1 in ((h.0, both.0), both.1),
  λ h. (h.0.0, (All-append_iff P s t).1 (h.0.1, h.1)),
)

body_legal_iff : (s : Bytes) → All IsIriByte (replace_all iri_table s) ↔ All (λ c. c ≢ 0x1B) s
body_legal_iff [] = unfold replace_all replace in (λ _. tt, λ _. tt)
body_legal_iff (c ∷ s) = rw (replace_all-cons iri_table c s) (
  λ h.
      let both = (All-append_iff IsIriByte _ _).0 h in
      ((byte_IsByteLegal c).0 both.0, (body_legal_iff s).0 both.1),
  λ h. (All-append_iff IsIriByte _ _).1 ((byte_IsByteLegal c).1 h.0, (body_legal_iff s).1 h.1),
)

-- `IRILiteral` puts its argument between `<` and `>`, and what stands there has only bytes that the
-- grammar allows in an IRIREF exactly when the argument holds no U+001B.
pub iri_literal-legal_iff :
    (s : Bytes)
    → (body : Bytes) × (iri_literal s ≡ b'<' ∷ (body ++ b'>' ∷ []))
      × (All IsIriByte body ↔ All (λ c. c ≢ 0x1B) s)
unfolding iri_literal
iri_literal-legal_iff s = (replace_all iri_table s, refl, body_legal_iff s)

-- ECHAR ::= '\' [tbnrf\"']
echar : ℕ → Option ℕ
echar c =
    if c == b't'
    then some 0x09
    else if c == b'b'
    then some 0x08
    else if c == b'n'
    then some 0x0A
    else if c == b'r'
    then some 0x0D
    else if c == b'f'
    then some 0x0C
    else if c == b'\\' || c == b'"' || c == b'\''
    then some c
    else none

-- The rest of a STRING_LITERAL2, behind its first quote: the text that it denotes and what stands
-- behind it. The flag says that a backslash has just been read.
scan : Bool → Bytes → Bytes → Option (Bytes × Bytes)
unfolding echar
scan pending [] acc = none
scan true (c ∷ s) acc = elim (echar c) [ none ↦ none | some d ↦ scan false s (acc ++ d ∷ []) ]
scan false (c ∷ s) acc =
    let escaped = scan true s acc in
    let plain = scan false s (acc ++ c ∷ []) in
    if c == b'"'
    then some (acc, s)
    else if c == b'\\'
    then escaped
    else if c == 0x0A || c == 0x0D
    then none
    else plain

-- A STRING_LITERAL2 at the front of a text.
pub unquote : Bytes → Option (Bytes × Bytes)
unquote [] = none
unquote (c ∷ s) = if c == b'"' then scan false s [] else none

abbrev string_chars : Bytes
string_chars = b'\\' ∷ b'"' ∷ b'\r' ∷ b'\n' ∷ b'\t' ∷ []

abbrev ScansAs : ℕ → Type 0
ScansAs c =
    (rest acc : Bytes)
    → scan false (replace_all string_table (c ∷ []) ++ rest) acc ≡ scan false rest (acc ++ c ∷ [])

scan_table : All ScansAs string_chars
unfolding scan replace_all replace
scan_table = ground arith

scan_plain : (c : ℕ) → contains string_chars c ≡ false → ScansAs c
unfolding scan replace_all replace contains
scan_plain c h rest acc = ground arith

scan_byte : (c : ℕ) → ScansAs c
scan_byte c = elim (Bool-cases (contains string_chars c)) [
  | inl h ↦ contains-All ScansAs string_chars c h scan_table
  | inr h ↦ scan_plain c h
]

scan_string :
    (s rest acc : Bytes)
    → scan false (replace_all string_table s ++ b'"' ∷ rest) acc ≡ some (acc ++ s, rest)
scan_string [] rest acc = unfold scan replace_all replace in rw append-nil
scan_string (c ∷ s) rest acc =
    rw (replace_all-cons string_table c s, append_assoc)
      (scan_byte c _ acc ∙ scan_string s rest (acc ++ c ∷ []) ∙ rw append_assoc)

-- `StringLiteral` is a STRING_LITERAL2 that denotes its argument, whatever bytes it holds, and that
-- ends where the text made by `StringLiteral` ends.
pub unquote-string_literal : (s rest : Bytes) → unquote (string_literal s ++ rest) ≡ some (s, rest)
unfolding unquote string_literal
unquote-string_literal s rest = rw append_assoc (scan_string s rest [])
