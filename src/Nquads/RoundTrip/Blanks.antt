-- ===== src/Nquads/RoundTrip/Blanks.antt =====
-- The reader on an encoded blank node.
use smart_web.Base.{
  ℕ, zero, suc, ◌≤◌, ◌<◌, false, some, List, [], ◌∷◌, ◌++◌, append_assoc, append-nil, ◌≡◌, refl,
  ◌∙◌, arith, All, Bytes, length, length-append, equal,
}
use smart_web.Utf8.{IsScalar, encode, encode_rune}
use smart_web.Nquads.Node.{blank_node, encode_blank}
use smart_web.Nquads.Stream.{ok, Reader, peek, read_bytes}
use smart_web.Nquads.Reader.{is_space, read_blank, blank_label, read_subject}
use smart_web.Nquads.Reader.Steps.{at, IsInk, read_spaces-ink, read_rune-encode_rune}
use smart_web.Nquads.RoundTrip.Suffixes.{read_iri-other}

-- A label holds no space, tab or line break.
abbrev pub IsLabelRune : ℕ → Type 0
IsLabelRune c = IsScalar c × (is_space c ≡ false)

blank_label-encode_rune :
    (fuel c : ℕ) (res rest : Bytes) (r : Reader)
    → IsLabelRune c
    → blank_label (suc fuel) res (at (encode_rune c ++ rest) r)
      ≡ blank_label fuel (res ++ encode_rune c) (at rest r)
unfolding blank_label
blank_label-encode_rune fuel c res rest r (h, p) = ground (arith, read_rune-encode_rune c rest r h)

blank_label-encode :
    (rs : List ℕ) (fuel : ℕ) (res rest : Bytes) (r : Reader)
    → All IsLabelRune rs
    → length rs < fuel
    → blank_label fuel res (at (encode rs ++ b' ' ∷ rest) r)
      ≡ (ok (res ++ encode rs), at (b' ' ∷ rest) r)
unfolding encode
blank_label-encode rs zero res rest r h m = absurd (omega arith)
blank_label-encode [] (suc fuel) res rest r h m = rw append-nil (unfold blank_label in refl)
blank_label-encode (c ∷ rs) (suc fuel) res rest r (hc, h) m =
    rw append_assoc (blank_label-encode_rune fuel c res _ r hc)
    ∙ blank_label-encode rs fuel (res ++ encode_rune c) rest r h (omega arith)
    ∙ rw append_assoc

pub length-encode_rune : (c : ℕ) → 1 ≤ length (encode_rune c)
unfolding encode_rune
length-encode_rune c = ground arith

length-encode : (rs : List ℕ) → length rs ≤ length (encode rs)
unfolding encode
length-encode [] = omega arith
length-encode (c ∷ rs) =
    omega
      (arith, length-append {0} (encode_rune c) (encode rs), length-encode_rune c, length-encode rs)

pub IsInk-underscore : IsInk b'_'
IsInk-underscore = (omega arith, refl, refl)

-- An encoded blank node with a space behind it is read back as it was.
pub read_blank-encode_blank :
    (rs : List ℕ) (rest : Bytes) (r : Reader)
    → All IsLabelRune rs
    → read_blank (at (encode_blank (encode rs) ++ b' ' ∷ rest) r)
      ≡ (ok (some (blank_node (encode rs))), at (b' ' ∷ rest) r)
unfolding read_blank encode_blank peek equal read_bytes
read_blank-encode_blank rs rest r h = ground (
  arith,
  read_spaces-ink b'_' (b':' ∷ (encode rs ++ b' ' ∷ rest)) r IsInk-underscore,
  blank_label-encode rs (suc (length (encode rs ++ b' ' ∷ rest))) [] rest r h,
  length-append {0} (encode rs) (b' ' ∷ rest),
  length-encode rs,
)

pub read_subject-encode_blank :
    (rs : List ℕ) (rest : Bytes) (r : Reader)
    → All IsLabelRune rs
    → read_subject (at (encode_blank (encode rs) ++ b' ' ∷ rest) r)
      ≡ (ok (some (blank_node (encode rs))), at (b' ' ∷ rest) r)
unfolding read_subject encode_blank
read_subject-encode_blank rs rest r h = ground (
  arith,
  read_spaces-ink b'_' (b':' ∷ (encode rs ++ b' ' ∷ rest)) r IsInk-underscore,
  read_iri-other b'_' (b':' ∷ (encode rs ++ b' ' ∷ rest)) r IsInk-underscore refl,
  read_blank-encode_blank rs rest r h,
)
