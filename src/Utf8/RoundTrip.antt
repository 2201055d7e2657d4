-- ===== src/Utf8/RoundTrip.antt =====
-- Encoded text decodes to itself.
use smart_web.Base.{
  ℕ, zero, suc, ◌-◌, ◌≤◌, ◌<◌, inl, sym, All-map, lt→ltb, List, [], ◌∷◌, ◌++◌, append_assoc, ◌≡◌,
  refl, ◌∙◌, ap, arith, All, Bytes, drop,
}
use smart_web.Utf8.{IsScalar, encode_rune, encode, decode_rune, runes, runes_from}

-- What a decoder finds at the front of a string: the rune and the bytes behind it.
abbrev pub Decodes : Bytes → ℕ → Bytes → Type 0
Decodes [] r rest = ⊥
Decodes (b ∷ s) r rest =
    ((decode_rune b s).0 ≡ r)
    × (1 ≤ (decode_rune b s).1)
    × (drop ((decode_rune b s).1 - 1) s ≡ rest)

pub Decodes-encode_rune :
    (r : ℕ) (rest : Bytes) → IsScalar r → Decodes (encode_rune r ++ rest) r rest
unfolding encode_rune decode_rune
Decodes-encode_rune r rest h = ground arith

runes_from-drop : (k : ℕ) (s : Bytes) → runes_from k s ≡ runes_from 0 (drop k s)
unfolding runes_from
runes_from-drop zero s = refl
runes_from-drop (suc k) [] = refl
runes_from-drop (suc k) (b ∷ s) = runes_from-drop k s

runes-Decodes : (s rest : Bytes) {r : ℕ} → Decodes s r rest → runes_from 0 s ≡ r ∷ runes_from 0 rest
unfolding runes_from
runes-Decodes [] rest h = absurd h
runes-Decodes (b ∷ s) rest (e, _, d) = cc (e, d, runes_from-drop ((decode_rune b s).1 - 1) s)

-- Ranging over an encoded text yields the runes that were encoded.
pub runes-encode : (rs : List ℕ) → All IsScalar rs → runes (encode rs) ≡ rs
unfolding runes encode
runes-encode [] h = unfold runes_from in refl
runes-encode (r ∷ rs) (hr, hrs) =
    runes-Decodes _ _ (Decodes-encode_rune r (encode rs) hr) ∙ ap (◌∷◌ r) (runes-encode rs hrs)

pub encode-append : (rs qs : List ℕ) → encode (rs ++ qs) ≡ encode rs ++ encode qs
unfolding encode
encode-append [] qs = refl
encode-append (r ∷ rs) qs = simp (encode-append rs qs, append_assoc)

pub encode-ascii : (s : List ℕ) → All (λ c. c < 0x80) s → encode s ≡ s
unfolding encode encode_rune
encode-ascii [] h = refl
encode-ascii (c ∷ s) (l, h) = rw (lt→ltb c 0x80 l, encode-ascii s h) refl

IsScalar-ascii : (c : ℕ) → c < 0x80 → IsScalar c
IsScalar-ascii c l = inl (omega (arith, l))

-- A text of ASCII has its bytes for runes.
pub runes-ascii : (s : List ℕ) → All (λ c. c < 0x80) s → runes s ≡ s
runes-ascii s h =
    ap runes (sym (encode-ascii s h)) ∙ runes-encode s (All-map _ _ IsScalar-ascii s h)
