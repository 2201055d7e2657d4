-- ===== src/Nquads/Reader/Total/Loops.antt =====
-- The loops of the reader, each with more fuel than there are bytes unread.
use smart_web.Base.{
  ℕ, zero, suc, ◌≤◌, ◌<◌, Bool, true, false, ◌||◌, List, [], ◌∷◌, ◌++◌, ◌≡◌, inl, inr, refl, ◌∙◌,
  arith, Bytes, length, ◌==◌, if◌then◌else◌, ltb, within, leb,
}
use smart_web.Utf8.{encode, encode_rune}
use smart_web.Nquads.Stream.{
  invalid_character_in_language_tag, unsupported_64bits_rune, unexpected_escape_sequence,
  unexpected_char_in_escape_sequence, Result, ok, err, Reader, M, bind_result, pure, mark,
  unread_rune, read_rune, read_byte, ◌>>=◌, ◌>>◌,
}
use smart_web.Nquads.Reader.{
  is_space, spaces, read_spaces, delimited, read_escape_seq, hex_loop, hex_value, read_delimited,
  blank_label, lang_loop, ends_in_dash,
}
use smart_web.Nquads.Reader.Steps.{at}
use smart_web.Nquads.Reader.Total.{
  IsWhole, Ends, IsTotal, bind_result-Ends, bind-IsTotal, pure-IsTotal, fail-IsTotal, if-IsTotal,
  read_rune-cases, read_rune-IsTotal, read_byte-IsTotal, read_byte-cases,
}

-- What a loop reaches behind something that was taken.
Ends-later :
    {A : Type 0} (r q : Reader) {x : Result A × Reader}
    → length q.input ≤ length r.input
    → q.fault ≡ r.fault
    → Ends q x
    → Ends r x
Ends-later r q l f e = record {
  total = e.total;
  shrinks = omega (arith, e.shrinks);
  fault_kept = e.fault_kept ∙ f;
}

fault_Ends : {A : Type 0} (r : Reader) → IsWhole r → Ends {A = A} r (err r.fault, r)
fault_Ends r w = record { total = λ q. w (cc); shrinks = omega arith; fault_kept = refl }

ok_Ends : {A : Type 0} (r : Reader) (a : A) → Ends {A = A} r (ok a, r)
ok_Ends r a = record { total = λ q. cc; shrinks = omega arith; fault_kept = refl }

if-Ends :
    {A : Type 0} (b : Bool) (m n : M A) (r q : Reader)
    → Ends r (m q)
    → Ends r (n q)
    → Ends r ((if b then m else n) q)
if-Ends true m n r q h k = h
if-Ends false m n r q h k = k

spaces-Ends :
    (fuel : ℕ) (c : Bool) (r : Reader)
    → IsWhole r
    → length r.input < fuel
    → Ends r (spaces fuel c r)
unfolding spaces
spaces-Ends zero c r w l = absurd (omega arith)
spaces-Ends (suc fuel) c r w l = elim (read_rune-cases r) [
  | inr e ↦ rw e (fault_Ends r w)
  | inl (d, s, e, k) ↦
      let later = λ (b : Bool).
        Ends-later r (at s r) (omega arith) refl (spaces-Ends fuel b (at s r) w (omega arith)) in
      rw e (
        if-Ends c _ _ r _ (later _) (
          if-Ends (d == b'#') _ _ r _ (later true)
            (if-Ends (is_space d) _ _ r _ (later false) (ok_Ends r tt))))
]

pub read_spaces-IsTotal : IsTotal read_spaces
unfolding read_spaces
read_spaces-IsTotal r w = spaces-Ends (suc (length r.input)) false r w (omega arith)

hex_value-IsTotal : (c : ℕ) → IsTotal (hex_value c)
unfolding hex_value
hex_value-IsTotal c = if-IsTotal (within b'0' b'9' c) _ _ (pure-IsTotal _) (
    if-IsTotal (within b'a' b'f' c) _ _ (pure-IsTotal _) (
      if-IsTotal (leb b'A' c || leb c b'F') _ _ (pure-IsTotal _)
        (fail-IsTotal unexpected_char_in_escape_sequence (λ q. cc))))

hex_loop-IsTotal : (k res : ℕ) → IsTotal (hex_loop k res)
unfolding hex_loop
hex_loop-IsTotal zero res =
    if-IsTotal (ltb 0xFFFFFFFF res) _ _ (fail-IsTotal unsupported_64bits_rune (λ q. cc))
      (pure-IsTotal res)
hex_loop-IsTotal (suc k) res =
    bind-IsTotal read_byte _ read_byte-IsTotal
      (λ c. bind-IsTotal (hex_value c) _ (hex_value-IsTotal c) (λ h. hex_loop-IsTotal k _))

-- The ladder of `readEscapeSeq` on the rune behind the backslash.
read_escape_seq-IsTotal : IsTotal read_escape_seq
unfolding read_escape_seq
read_escape_seq-IsTotal = bind-IsTotal read_rune _ read_rune-IsTotal λ c.
    if-IsTotal (c == b't') _ _ (pure-IsTotal _) (
      if-IsTotal (c == b'b') _ _ (pure-IsTotal _) (
        if-IsTotal (c == b'n') _ _ (pure-IsTotal _) (
          if-IsTotal (c == b'r') _ _ (pure-IsTotal _) (
            if-IsTotal (c == b'f') _ _ (pure-IsTotal _) (
              if-IsTotal (c == b'"') _ _ (pure-IsTotal _) (
                if-IsTotal (c == b'\'') _ _ (pure-IsTotal _) (
                  if-IsTotal (c == b'\\') _ _ (pure-IsTotal _) (
                    if-IsTotal (c == b'U' || c == b'u') _ _ (hex_loop-IsTotal _ 0)
                      (fail-IsTotal unexpected_escape_sequence (λ q. cc))))))))))

-- A method that is total, and a loop with fuel for what the method may leave.
chain-Ends :
    {A B : Type 0} (r q : Reader) (fuel : ℕ) (x : Result A × Reader) (f : A → M B)
    → Ends q x
    → IsWhole q
    → length q.input < fuel
    → length q.input ≤ length r.input
    → q.fault ≡ r.fault
    → ((a : A) (t : Reader) → IsWhole t → length t.input < fuel → Ends t (f a t))
    → Ends r (bind_result x f)
chain-Ends r q fuel (ok a, t) f e w l k g h =
    Ends-later r t (omega (arith, e.shrinks)) (e.fault_kept ∙ g)
      (h a t (λ y. w (cc (e.fault_kept, y))) (omega (arith, e.shrinks)))
chain-Ends r q fuel (err y, t) f e w l k g h = record {
  total = λ z. e.total (cc);
  shrinks = omega (arith, e.shrinks);
  fault_kept = e.fault_kept ∙ g;
}

delimited-Ends :
    (fuel close : ℕ) (acc : List ℕ) (r : Reader)
    → IsWhole r
    → length r.input < fuel
    → Ends r (delimited fuel close acc r)
unfolding delimited
delimited-Ends zero close acc r w l = absurd (omega arith)
delimited-Ends (suc fuel) close acc r w l = elim (read_rune-cases r) [
  | inr e ↦ rw e (fault_Ends r w)
  | inl (d, s, e, k) ↦
      let q = at s r in
      rw e (
        if-Ends (d == close) _ _ r q (Ends-later r q (omega arith) refl (ok_Ends q acc)) (
          if-Ends (d == b'\\') _ _ r q
            (chain-Ends r q fuel (read_escape_seq q) _ (read_escape_seq-IsTotal q w) w (omega arith)
              (omega arith) refl (λ c t wt lt. delimited-Ends fuel close (acc ++ c ∷ []) t wt lt))
            (Ends-later r q (omega arith) refl
              (delimited-Ends fuel close (acc ++ d ∷ []) q w (omega arith)))))
]

pub read_delimited-IsTotal : (close : ℕ) → IsTotal (read_delimited close)
unfolding read_delimited
read_delimited-IsTotal close r w =
    bind_result-Ends r (delimited (suc (length r.input)) close [] r) (λ rs. pure (encode rs)) w
      (delimited-Ends (suc (length r.input)) close [] r w (omega arith))
      (λ rs. pure-IsTotal (encode rs))

blank_label-Ends :
    (fuel : ℕ) (res : Bytes) (r : Reader)
    → IsWhole r
    → length r.input < fuel
    → Ends r (blank_label fuel res r)
unfolding blank_label
blank_label-Ends zero res r w l = absurd (omega arith)
blank_label-Ends (suc fuel) res r w l = elim (read_rune-cases r) [
  | inr e ↦ rw e (fault_Ends r w)
  | inl (d, s, e, k) ↦ rw e (
      if-Ends (is_space d) _ _ r _ (ok_Ends r res) (
        Ends-later r (at s r) (omega arith) refl
          (blank_label-Ends fuel (res ++ encode_rune d) (at s r) w (omega arith))))
]

pub read_label-IsTotal : IsTotal (λ r. blank_label (suc (length r.input)) [] r)
read_label-IsTotal r w = blank_label-Ends (suc (length r.input)) [] r w (omega arith)

lang_loop-Ends :
    (fuel : ℕ) (tag : Bytes) (r : Reader)
    → IsWhole r
    → length r.input < fuel
    → Ends r (lang_loop fuel tag r)
unfolding lang_loop
lang_loop-Ends zero tag r w l = absurd (omega arith)
lang_loop-Ends (suc fuel) tag r w l = elim (read_byte-cases r) [
  | inr e ↦ rw e (fault_Ends r w)
  | inl (d, s, e, k) ↦
      let q = at s r in
      let later = λ (t : Bytes).
        Ends-later r q (omega arith) refl (lang_loop-Ends fuel t q w (omega arith)) in
      rw e (
        if-Ends (within b'A' b'Z' d || within b'a' b'z' d || within b'0' b'9' d) _ _ r q (later _) (
          if-Ends (d == b'-') _ _ r q (later _) (
            if-Ends (ltb (length tag) 1 || ends_in_dash tag) _ _ r q
              (Ends-later r q (omega arith) refl
                (fail-IsTotal invalid_character_in_language_tag (λ y. cc) q w))
              (Ends-later r q (omega arith) refl (ok_Ends q tag)))))
]

pub read_tag-IsTotal : IsTotal (λ r. lang_loop (suc (length r.input)) [] r)
read_tag-IsTotal r w = lang_loop-Ends (suc (length r.input)) [] r w (omega arith)

-- A method that looks at a rune and may put it back.
pub look-IsTotal :
    {A : Type 0} (t : ℕ → Bool) (k : M A) (m : ℕ → M A)
    → IsTotal k
    → ((c : ℕ) → IsTotal (m c))
    → IsTotal (do before ← mark; c ← read_rune; if t c then (do unread_rune before; k) else m c)
look-IsTotal t k m hk hm r w = elim (read_rune-cases r) [
  | inr e ↦ rw e (fault_Ends r w)
  | inl (d, s, e, l) ↦
      rw e (
        if-Ends (t d) _ _ r _ (hk r w) (Ends-later r (at s r) (omega arith) refl (hm d (at s r) w)))
]
