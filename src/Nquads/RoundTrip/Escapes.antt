-- ===== src/Nquads/RoundTrip/Escapes.antt =====
-- One escaped rune, and a whole escaped text, under the loop that reads an IRI or a literal.
use Prim.Native.Nat.{bit_or}
use smart_web.Base.{
  contains-All, contains-ne, ℕ, zero, suc, ◌*◌, ◌/◌, ◌%◌, ◌≤◌, ◌<◌, Bool, true, false, not, ◌&&◌,
  inl, inr, List, [], ◌∷◌, ◌++◌, append-nil, append_assoc, map, ◌≡◌, refl, ◌∙◌, arith, All, Bytes,
  length, length-append, ◌==◌, if◌then◌else◌, contains, Bool-cases, ==_ne,
}
use smart_web.Utf8.{IsScalar, encode_rune}
use smart_web.Turtle.{escape_rune, escape_runes, escape_string_more_chars, escape_iri_chars}
use smart_web.Nquads.Stream.{ok, Reader}
use smart_web.Nquads.Reader.{delimited}
use smart_web.Nquads.Reader.Steps.{at, delimited-encode_rune, delimited-close}

-- The rune that the reader makes of the escape sequence `\u00XY` of an ASCII character. Each digit
-- is moved by 8 times a power of two in place of a power of sixteen.
pub misread : ℕ → ℕ
misread c = bit_or (c / 16 * 16) (c % 16 * 8)

abbrev has_short_escape : ℕ → Bool
has_short_escape = contains (0x09 ∷ 0x08 ∷ 0x0A ∷ 0x0D ∷ 0x0C ∷ 0x22 ∷ 0x5C ∷ [])

-- The rune that comes back for a rune of an IRI.
unfoldable pub reread : ℕ → ℕ
unfolding contains misread
reread c = if contains escape_iri_chars c && not (has_short_escape c) then misread c else c

pub reread-plain : (c : ℕ) → contains escape_iri_chars c ≡ false → reread c ≡ c
unfolding reread
reread-plain c h = rw h

-- The loop reads the escaped form of `c` in one round, and appends `d`.
abbrev pub ReadsAs : Bytes → ℕ → ℕ → ℕ → Type 0
ReadsAs chars close c d =
    (fuel : ℕ) (acc : List ℕ) (rest : Bytes) (r : Reader)
    → delimited (suc fuel) close acc (at (escape_rune chars c ++ rest) r)
      ≡ delimited fuel close (acc ++ d ∷ []) (at rest r)

string_table : All (λ c. ReadsAs escape_string_more_chars b'"' c c) escape_string_more_chars
unfolding delimited escape_rune
string_table = ground arith

iri_table : All (λ c. ReadsAs escape_iri_chars b'>' c (reread c)) escape_iri_chars
unfolding delimited escape_rune reread
iri_table = ground arith

escape_rune-plain :
    (chars : Bytes) (c : ℕ)
    → contains chars c ≡ false
    → (c == b'\\') ≡ false
    → escape_rune chars c ≡ encode_rune c
unfolding escape_rune
escape_rune-plain chars c h p = rw (p, h)

-- A rune outside the set stands for itself.
ReadsAs-plain :
    (chars : Bytes) (close c : ℕ)
    → IsScalar c
    → contains chars c ≡ false
    → contains chars close ≡ true
    → contains chars b'\\' ≡ true
    → ReadsAs chars close c c
ReadsAs-plain chars close c hc h p q fuel acc rest r =
    let backslash = ==_ne _ _ (contains-ne chars c b'\\' h q) in
    rw (escape_rune-plain chars c h backslash) (
      delimited-encode_rune fuel close c acc rest r hc (==_ne _ _ (contains-ne chars c close h p))
        backslash)

pub ReadsAs-string : (c : ℕ) → IsScalar c → ReadsAs escape_string_more_chars b'"' c c
ReadsAs-string c hc = elim (Bool-cases (contains escape_string_more_chars c)) [
  | inl h ↦
      contains-All (λ x. ReadsAs escape_string_more_chars b'"' x x) escape_string_more_chars c h
        string_table
  | inr h ↦
      ReadsAs-plain escape_string_more_chars b'"' c hc h (unfold contains in refl)
        (unfold contains in refl)
]

pub ReadsAs-iri : (c : ℕ) → IsScalar c → ReadsAs escape_iri_chars b'>' c (reread c)
ReadsAs-iri c hc = elim (Bool-cases (contains escape_iri_chars c)) [
  | inl h ↦
      contains-All (λ x. ReadsAs escape_iri_chars b'>' x (reread x)) escape_iri_chars c h iri_table
  | inr h ↦ rw (reread-plain c h) (
      ReadsAs-plain escape_iri_chars b'>' c hc h (unfold contains in refl)
        (unfold contains in refl))
]

length-escape_rune : (chars : Bytes) (c : ℕ) → 1 ≤ length (escape_rune chars c)
unfolding escape_rune encode_rune
length-escape_rune chars c = ground arith

pub length-escape_runes : (chars : Bytes) (rs : List ℕ) → length rs ≤ length (escape_runes chars rs)
unfolding escape_runes
length-escape_runes chars [] = omega arith
length-escape_runes chars (c ∷ rs) = omega (
  arith,
  length-append {0} (escape_rune chars c) (escape_runes chars rs),
  length-escape_rune chars c,
  length-escape_runes chars rs,
)

-- A whole text, by one round for each rune.
pub delimited-escape_runes :
    (chars : Bytes) (close : ℕ) (f : ℕ → ℕ)
    → ((c : ℕ) → IsScalar c → ReadsAs chars close c (f c))
    → close < 0x80
    → (rs : List ℕ) (fuel : ℕ) (acc : List ℕ) (rest : Bytes) (r : Reader) → All IsScalar rs
    → length rs < fuel
    → delimited fuel close acc (at (escape_runes chars rs ++ close ∷ rest) r)
      ≡ (ok (acc ++ map f rs), at rest r)
unfolding escape_runes
delimited-escape_runes chars close f each k rs zero acc rest r h m = absurd (omega arith)
delimited-escape_runes chars close f each k [] (suc fuel) acc rest r h m =
    rw append-nil (delimited-close fuel close acc rest r k)
delimited-escape_runes chars close f each k (c ∷ rs) (suc fuel) acc rest r (hc, h) m =
    rw append_assoc (each c hc fuel acc _ r)
    ∙ delimited-escape_runes chars close f each k rs fuel (acc ++ f c ∷ []) rest r h (omega arith)
    ∙ rw append_assoc
