-- ===== src/Nquads/Reader/Total.antt =====
-- No loop of the reader uses up its fuel: a method ends with a result or with an error of the
-- program, leaves no more unread than it found, and keeps the reader's source.
pub mod Loops
pub mod Statements
use smart_web.Base.{
  ℕ, zero, suc, ◌+◌, ◌-◌, ◌≤◌, ◌<◌, Bool, true, false, not, ◌&&◌, ◌||◌, Option, none, some, List,
  [], ◌∷◌, ◌++◌, ◌≡◌, ◌≢◌, ◌⊎◌, inl, inr, refl, ◌∙◌, ap, arith, Bytes, length, drop, ◌==◌,
  if◌then◌else◌,
}
use smart_web.Utf8.{decode_rune, encode}
use smart_web.Nquads.Stream.{
  Error, out_of_fuel, unsupported_64bits_rune, unexpected_escape_sequence,
  unexpected_char_in_escape_sequence, Result, ok, err, Reader, M, bind_result, pure, fail, mark,
  unread_rune, read_rune, read_byte, read_bytes, peek, ◌>>=◌, ◌>>◌,
}
use smart_web.Nquads.Reader.{
  is_space, spaces, read_spaces, delimited, read_escape_seq, hex_loop, hex_value, read_delimited,
  blank_label, lang_loop,
}
use smart_web.Nquads.Reader.Steps.{at}

-- The source's own error is one of the program's.
abbrev pub IsWhole : Reader → Type 0
IsWhole r = r.fault ≢ out_of_fuel

pub record Ends {A : Type 0} (r : Reader) (x : Result A × Reader) : Type 0 where
  pub total : x.0 ≢ err out_of_fuel
  pub shrinks : length x.1.input ≤ length r.input
  pub fault_kept : x.1.fault ≡ r.fault

abbrev pub IsTotal : {A : Type 0} → M A → Type 0
IsTotal m = (r : Reader) → IsWhole r → Ends r (m r)

module _ {A B : Type 0} where
  pub bind_result-Ends :
      (r : Reader) (x : Result A × Reader) (f : A → M B)
      → IsWhole r
      → Ends r x
      → ((a : A) → IsTotal (f a))
      → Ends r (bind_result x f)
  bind_result-Ends r (ok a, r') f w e h =
      let e' = h a r' (λ q. w (cc (e.fault_kept, q))) in
      record {
        total = e'.total;
        shrinks = omega (arith, e'.shrinks, e.shrinks);
        fault_kept = e'.fault_kept ∙ e.fault_kept;
      }
  bind_result-Ends r (err x, r') f w e h = record {
    total = λ q. e.total (cc);
    shrinks = e.shrinks;
    fault_kept = e.fault_kept;
  }

  pub bind-IsTotal :
      (m : M A) (f : A → M B) → IsTotal m → ((a : A) → IsTotal (f a)) → IsTotal (m >>= f)
  bind-IsTotal m f h k r w = bind_result-Ends r (m r) f w (h r w) k

module _ {A : Type 0} where
  pub pure-IsTotal : (a : A) → IsTotal (pure a)
  pure-IsTotal a r w = record { total = λ q. cc; shrinks = omega arith; fault_kept = refl }

  pub fail-IsTotal : (e : Error) → e ≢ out_of_fuel → IsTotal {A = A} (fail e)
  fail-IsTotal e h r w = record { total = λ q. h (cc); shrinks = omega arith; fault_kept = refl }

  pub if-IsTotal : (b : Bool) (m n : M A) → IsTotal m → IsTotal n → IsTotal (if b then m else n)
  if-IsTotal true m n h k = h
  if-IsTotal false m n h k = k

length-drop-le : (k : ℕ) (s : Bytes) → length (drop k s) ≤ length s
length-drop-le zero s = omega arith
length-drop-le (suc k) [] = omega arith
length-drop-le (suc k) (b ∷ s) = omega (arith, length-drop-le k s)

-- `ReadRune` takes something, or finds the end and changes nothing.
abbrev RuneCase : Reader → Bytes → Type 0
RuneCase r s =
    ((c : ℕ) × (t : Bytes) × (read_rune (at s r) ≡ (ok c, at t r)) × (length t < length s))
    ⊎ (read_rune (at s r) ≡ (err r.fault, at s r))

rune_case : (r : Reader) (s : Bytes) → RuneCase r s
unfolding read_rune
rune_case r [] = inr refl
rune_case r (b ∷ s) = inl (
  (decode_rune b s).0,
  drop ((decode_rune b s).1 - 1) s,
  refl,
  omega (arith, length-drop-le ((decode_rune b s).1 - 1) s),
)

pub read_rune-cases : (r : Reader) → RuneCase r r.input
read_rune-cases r = rune_case r r.input

pub read_rune-IsTotal : IsTotal read_rune
read_rune-IsTotal r w = elim (read_rune-cases r) [
  | inl (c, t, e, l) ↦ rw e (record { total = λ q. cc; shrinks = omega arith; fault_kept = refl })
  | inr e ↦ rw e (record { total = λ q. w (cc); shrinks = omega arith; fault_kept = refl })
]

-- The same of `ReadByte`.
abbrev ByteCase : Reader → Bytes → Type 0
ByteCase r s =
    ((c : ℕ) × (t : Bytes) × (read_byte (at s r) ≡ (ok c, at t r)) × (length t < length s))
    ⊎ (read_byte (at s r) ≡ (err r.fault, at s r))

byte_case : (r : Reader) (s : Bytes) → ByteCase r s
unfolding read_byte
byte_case r [] = inr refl
byte_case r (b ∷ s) = inl (b, s, refl, omega arith)

pub read_byte-cases : (r : Reader) → ByteCase r r.input
read_byte-cases r = byte_case r r.input

pub read_byte-IsTotal : IsTotal read_byte
read_byte-IsTotal r w = elim (read_byte-cases r) [
  | inl (c, t, e, l) ↦ rw e (record { total = λ q. cc; shrinks = omega arith; fault_kept = refl })
  | inr e ↦ rw e (record { total = λ q. w (cc); shrinks = omega arith; fault_kept = refl })
]
