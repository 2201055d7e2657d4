-- ===== src/Nquads/Reader/Steps.antt =====
-- What the reader does at the front of an input, as equations between readers. `at s r` is the
-- reader `r` with `s` unread.
use smart_web.Base.{ℕ, suc, ◌<◌, false, List, [], ◌∷◌, ◌++◌, ◌≡◌, refl, arith, Bytes, ◌==◌}
use smart_web.Utf8.{IsScalar, encode_rune}
use smart_web.Utf8.RoundTrip.{Decodes, Decodes-encode_rune}
use smart_web.Nquads.Stream.{ok, Reader, read_rune}
use smart_web.Nquads.Reader.{is_space, read_spaces, delimited, read_escape_seq}

abbrev pub at : Bytes → Reader → Reader
at s r = record r { input = s }

pub read_rune-Decodes :
    (s : Bytes) {c : ℕ} {rest : Bytes} (r : Reader)
    → Decodes s c rest
    → read_rune (at s r) ≡ (ok c, at rest r)
unfolding read_rune
read_rune-Decodes [] r h = absurd h
read_rune-Decodes (b ∷ s) {c} {rest} r (e, _, d) = rw (e, d)

pub read_rune-ascii :
    (c : ℕ) (rest : Bytes) (r : Reader) → c < 0x80 → read_rune (at (c ∷ rest) r) ≡ (ok c, at rest r)
unfolding read_rune
read_rune-ascii c rest r h = ground arith

pub read_rune-encode_rune :
    (c : ℕ) (rest : Bytes) (r : Reader)
    → IsScalar c
    → read_rune (at (encode_rune c ++ rest) r) ≡ (ok c, at rest r)
read_rune-encode_rune c rest r h = read_rune-Decodes _ r (Decodes-encode_rune c rest h)

-- A character at which `readSpaces` stops.
abbrev pub IsInk : ℕ → Type 0
IsInk c = (c < 0x80) × (is_space c ≡ false) × ((c == b'#') ≡ false)

pub read_spaces-ink :
    (c : ℕ) (rest : Bytes) (r : Reader)
    → IsInk c
    → read_spaces (at (c ∷ rest) r) ≡ (ok tt, at (c ∷ rest) r)
unfolding read_spaces
read_spaces-ink c rest r h = ground (arith, read_rune-ascii c rest r)

-- One space is skipped.
pub read_spaces-space :
    (s : Bytes) (r : Reader) → read_spaces (at (b' ' ∷ s) r) ≡ read_spaces (at s r)
unfolding read_spaces
read_spaces-space s r = refl

-- One round of the loop of an IRI or of a literal, on a character that stands for itself.
pub delimited-encode_rune :
    (fuel close c : ℕ) (acc : List ℕ) (rest : Bytes) (r : Reader)
    → IsScalar c
    → (c == close) ≡ false
    → (c == b'\\') ≡ false
    → delimited (suc fuel) close acc (at (encode_rune c ++ rest) r)
      ≡ delimited fuel close (acc ++ c ∷ []) (at rest r)
unfolding delimited
delimited-encode_rune fuel close c acc rest r h p q =
    ground (arith, read_rune-encode_rune c rest r h)

-- One round on the closing character.
pub delimited-close :
    (fuel close : ℕ) (acc : List ℕ) (rest : Bytes) (r : Reader)
    → close < 0x80
    → delimited (suc fuel) close acc (at (close ∷ rest) r) ≡ (ok acc, at rest r)
unfolding delimited
delimited-close fuel close acc rest r h = ground (arith, read_rune-ascii close rest r h)

-- One round on an escape sequence that is read as `c`.
pub delimited-escape :
    (fuel close c : ℕ) (acc : List ℕ) (seq rest : Bytes) (r : Reader)
    → (b'\\' == close) ≡ false
    → read_escape_seq (at seq r) ≡ (ok c, at rest r)
    → delimited (suc fuel) close acc (at (b'\\' ∷ seq) r)
      ≡ delimited fuel close (acc ++ c ∷ []) (at rest r)
unfolding delimited
delimited-escape fuel close c acc seq rest r p h = ground (arith, read_rune-ascii b'\\' seq r)
