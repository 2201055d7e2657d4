-- ===== src/Nquads/RoundTrip/Iris.antt =====
-- Which IRIs survive the encoding and the reader.
use smart_web.Base.{
  contains-All, ℕ, true, false, some, inl, inr, List, [], ◌∷◌, ◌++◌, map, ◌≡◌, ◌↔◌, refl, sym, ◌∙◌,
  ap, arith, All, Bytes, contains, codes, Bool-cases,
}
use smart_web.Utf8.{IsScalar, encode, runes}
use smart_web.Utf8.RoundTrip.{runes-encode}
use smart_web.Turtle.{escape_iri_chars}
use smart_web.Nquads.Node.{iri_node, encode_iri}
use smart_web.Nquads.Stream.{Reader, ok}
use smart_web.Nquads.Reader.{read_iri}
use smart_web.Nquads.Reader.Steps.{at}
use smart_web.Nquads.RoundTrip.Escapes.{reread, reread-plain}
use smart_web.Nquads.RoundTrip.Terms.{read_iri-encode_iri}

-- The characters of an IRI that come back as other ones: the control characters with no escape
-- sequence of their own, but U+0000 and U+0010, and `<>{|}^`.
abbrev pub damaged : Bytes
damaged =
    0x01
    ∷ 0x02
    ∷ 0x03
    ∷ 0x04
    ∷ 0x05
    ∷ 0x06
    ∷ 0x07
    ∷ 0x0B
    ∷ 0x0E
    ∷ 0x0F
    ∷ 0x11
    ∷ 0x12
    ∷ 0x13
    ∷ 0x14
    ∷ 0x15
    ∷ 0x16
    ∷ 0x17
    ∷ 0x18
    ∷ 0x19
    ∷ 0x1A
    ∷ 0x1B
    ∷ 0x1C
    ∷ 0x1D
    ∷ 0x1E
    ∷ 0x1F
    ∷ codes "<>{|}^"

reread_table : All (λ c. (reread c ≡ c) ↔ (contains damaged c ≡ false)) escape_iri_chars
unfolding reread
reread_table = ground arith

IsScalar-table : All (λ c. IsScalar (reread c)) escape_iri_chars
unfolding reread
IsScalar-table = omega arith

damaged_table : All (λ c. contains escape_iri_chars c ≡ true) damaged
unfolding contains
damaged_table = ground arith

reread-eq_iff : (c : ℕ) → (reread c ≡ c) ↔ (contains damaged c ≡ false)
reread-eq_iff c = elim (Bool-cases (contains escape_iri_chars c)) [
  | inl h ↦
      contains-All (λ x. (reread x ≡ x) ↔ (contains damaged x ≡ false)) escape_iri_chars c h
        reread_table
  | inr h ↦ (λ _. undamaged h, λ _. reread-plain c h)
]
  where
    undamaged : contains escape_iri_chars c ≡ false → contains damaged c ≡ false
    undamaged h = elim (Bool-cases (contains damaged c)) [
      | inl d ↦
          cc (contains-All (λ x. contains escape_iri_chars x ≡ true) damaged c d damaged_table)
      | inr d ↦ d
    ]

reread-IsScalar : (c : ℕ) → IsScalar c → IsScalar (reread c)
reread-IsScalar c hc = elim (Bool-cases (contains escape_iri_chars c)) [
  | inl h ↦ contains-All (λ x. IsScalar (reread x)) escape_iri_chars c h IsScalar-table
  | inr h ↦ rw (reread-plain c h) hc
]

map-reread-IsScalar : (rs : List ℕ) → All IsScalar rs → All IsScalar (map reread rs)
map-reread-IsScalar [] h = tt
map-reread-IsScalar (c ∷ rs) (hc, h) = (reread-IsScalar c hc, map-reread-IsScalar rs h)

abbrev IsUndamaged : List ℕ → Type 0
IsUndamaged = All (λ c. contains damaged c ≡ false)

map-reread-eq_iff : (rs : List ℕ) → (map reread rs ≡ rs) ↔ IsUndamaged rs
map-reread-eq_iff [] = (λ _. tt, λ _. refl)
map-reread-eq_iff (c ∷ rs) = (
  λ e. ((reread-eq_iff c).0 (cc), (map-reread-eq_iff rs).0 (cc)),
  λ h. cc ((reread-eq_iff c).1 h.0, (map-reread-eq_iff rs).1 h.1),
)

encode-injective :
    (rs qs : List ℕ) → All IsScalar rs → All IsScalar qs → encode rs ≡ encode qs → rs ≡ qs
encode-injective rs qs h k e = sym (runes-encode rs h) ∙ ap runes e ∙ runes-encode qs k

-- An IRI of Unicode scalar values, encoded by `EncodeIri`, is read back by `readIri` as the same
-- IRI exactly when it holds none of the damaged characters.
pub read_iri-lossless_iff :
    (rs : List ℕ) (rest : Bytes) (r : Reader)
    → All IsScalar rs
    → ((read_iri (at (encode_iri (encode rs) ++ rest) r)).0 ≡ ok (some (iri_node (encode rs))))
      ↔ All (λ c. contains damaged c ≡ false) rs
read_iri-lossless_iff rs rest r h = rw (read_iri-encode_iri rs rest r h) (
  λ e.
      (map-reread-eq_iff rs).0
        (encode-injective (map reread rs) rs (map-reread-IsScalar rs h) h (cc)),
  λ u. cc ((map-reread-eq_iff rs).1 u),
)
