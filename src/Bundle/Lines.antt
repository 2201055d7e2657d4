-- ===== src/Bundle/Lines.antt =====
-- The reader's loop on a text of empty lines, comments and lines of the writer.
use smart_web.Base.{
  ℕ, zero, suc, ◌<◌, true, false, List, [], ◌∷◌, ◌++◌, append_assoc, ◌≡◌, refl, ◌∙◌, arith, All,
  Bytes, length, Bool-cases, inl, inr, ==_iff, length-append, replace, ◌==◌,
}
use smart_web.Utf8.{IsScalar, encode, encode_rune}
use smart_web.Nquads.Writer.{write_comment}
use smart_web.Nquads.Stream.{Reader, read_rune}
use smart_web.Nquads.Reader.{spaces, read_spaces}
use smart_web.Nquads.Reader.Steps.{at, IsInk, read_rune-ascii, read_rune-encode_rune}
use smart_web.Nquads.RoundTrip.Blanks.{length-encode_rune}

-- A text at whose front the reader skips nothing.
abbrev pub IsBare : Bytes → Type 0
IsBare [] = Unit
IsBare (c ∷ s) = IsInk c

-- What `readSpaces` skips of `s` is what stands before `t`.
abbrev pub Leads : Bytes → Bytes → Type 0
Leads s t =
    (fuel : ℕ) (r : Reader) → length s < fuel → spaces fuel false (at s r) ≡ read_spaces (at t r)

pub Leads-bare : (s : Bytes) → IsBare s → Leads s s
unfolding read_spaces spaces read_rune
Leads-bare s h zero r m = absurd (omega arith)
Leads-bare [] h (suc fuel) r m = refl
Leads-bare (c ∷ s) h (suc fuel) r m = ground (arith, read_rune-ascii c s r h.0)

pub Leads-newline : (s t : Bytes) → Leads s t → Leads (b'\n' ∷ s) t
unfolding spaces read_rune
Leads-newline s t h zero r m = absurd (omega arith)
Leads-newline s t h (suc fuel) r m = h fuel r (omega (arith, m))

-- the same behind the sign of a comment
abbrev LeadsInside : Bytes → Bytes → Type 0
LeadsInside s t =
    (fuel : ℕ) (r : Reader) → length s < fuel → spaces fuel true (at s r) ≡ read_spaces (at t r)

LeadsInside-newline : (s t : Bytes) → Leads s t → LeadsInside (b'\n' ∷ s) t
unfolding spaces read_rune
LeadsInside-newline s t h zero r m = absurd (omega arith)
LeadsInside-newline s t h (suc fuel) r m = h fuel r (omega (arith, m))

Leads-sign : (s t : Bytes) → LeadsInside s t → Leads (b'#' ∷ s) t
unfolding spaces read_rune
Leads-sign s t h zero r m = absurd (omega arith)
Leads-sign s t h (suc fuel) r m = h fuel r (omega (arith, m))

spaces-encode_rune :
    (fuel c : ℕ) (s : Bytes) (r : Reader)
    → IsScalar c
    → (c == b'\r') ≡ false
    → (c == b'\n') ≡ false
    → spaces (suc fuel) true (at (encode_rune c ++ s) r) ≡ spaces fuel true (at s r)
unfolding spaces
spaces-encode_rune fuel c s r hc p q = ground (arith, read_rune-encode_rune c s r hc)

LeadsInside-encode_rune :
    (c : ℕ) (s t : Bytes)
    → IsScalar c
    → (c == b'\r') ≡ false
    → (c == b'\n') ≡ false
    → LeadsInside s t
    → LeadsInside (encode_rune c ++ s) t
LeadsInside-encode_rune c s t hc p q h zero r m = absurd (omega arith)
LeadsInside-encode_rune c s t hc p q h (suc fuel) r m =
    spaces-encode_rune fuel c s r hc p q
    ∙ h fuel r (omega (arith, m, length-append {0} (encode_rune c) s, length-encode_rune c))

replace-append :
    (x : ℕ) (by u v : Bytes)
    → All (λ b. (b == x) ≡ false) u
    → replace x by (u ++ v) ≡ u ++ replace x by v
unfolding replace
replace-append x by [] v h = refl
replace-append x by (b ∷ u) v (p, h) = rw (p, replace-append x by u v h)

encode_rune-ne : (c : ℕ) → (c == b'\n') ≡ false → All (λ b. (b == b'\n') ≡ false) (encode_rune c)
unfolding encode_rune
encode_rune-ne c p = ground arith

-- A comment may hold any character but a carriage return.
abbrev pub IsCommentRune : ℕ → Type 0
IsCommentRune c = IsScalar c × ((c == b'\r') ≡ false)

-- the text of a comment as the writer writes it
abbrev commented : Bytes → Bytes
commented u = replace b'\n' (b'\n' ∷ b'#' ∷ []) u

LeadsInside-commented :
    (c : ℕ) (u s t : Bytes)
    → IsCommentRune c
    → LeadsInside (commented u ++ s) t
    → LeadsInside (commented (encode_rune c ++ u) ++ s) t
LeadsInside-commented c u s t (hc, p) h = elim (Bool-cases (c == b'\n')) [
  | inl e ↦
      rw ((==_iff c b'\n').0 e)
        (unfold encode_rune replace in LeadsInside-newline _ t (Leads-sign _ t h))
  | inr q ↦
      rw
        (
          replace-append b'\n' (b'\n' ∷ b'#' ∷ []) (encode_rune c) u (encode_rune-ne c q),
          append_assoc,
        )
        (LeadsInside-encode_rune c _ t hc p q h)
]

LeadsInside-text :
    (cs : List ℕ) (s t : Bytes)
    → All IsCommentRune cs
    → Leads s t
    → LeadsInside (commented (encode cs) ++ b'\n' ∷ s) t
unfolding encode replace
LeadsInside-text [] s t h l = LeadsInside-newline s t l
LeadsInside-text (c ∷ cs) s t (hc, h) l =
    LeadsInside-commented c (encode cs) (b'\n' ∷ s) t hc (LeadsInside-text cs s t h l)

-- A comment of the writer is skipped.
pub Leads-comment :
    (cs : List ℕ) (s t : Bytes)
    → All IsCommentRune cs
    → Leads s t
    → Leads (write_comment (encode cs) ++ s) t
unfolding write_comment
Leads-comment cs s t h l = rw append_assoc (Leads-sign _ t (LeadsInside-text cs s t h l))
