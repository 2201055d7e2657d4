-- ===== src/Server/HeaderParser/Quoted.antt =====
-- The rules for quoted strings, on a value as a client writes it.
use mathlib.Core.Path.{subst}
use smart_web.Base.{
  ℕ, zero, suc, ◌≤◌, ◌<◌, ◌^◌, Bool, true, false, ◌||◌, none, some, List, [], ◌∷◌, ◌++◌,
  append_assoc, append-nil, ◌≡◌, refl, sym, ap, ◌∙◌, arith, All, Bytes, length, length-append, ◌==◌,
  Bool-cases, inl, inr, if◌then◌else◌,
}
use smart_web.Server.Authenticator.{AuthMethod}
use smart_web.Server.HeaderParser.{
  action3, action5, action6, Scan, Rule, char, seq, star, text, add, but_not, match_dot,
  quoted_str_char, quoted_char, quoted_string, auth_param_sval, auth_param_val, end_symbol,
}
use smart_web.Server.HeaderParser.Execute.{Parser, act, set_param, with_methods, with_text}
use smart_web.Server.HeaderParser.Words.{
  at, IsSilent, Refuses, one-Refuses, one-IsSilent, seq-step, seq-none, choice-second,
}
use smart_web.Server.HeaderParser.Consumes.{
  Kept, kept, Consumes, silent-Consumes, seq-Consumes, last-Consumes, noted-Consumes, text-Consumes,
  add-Consumes, choice-first-Consumes, choice-second-Consumes,
}
use smart_web.Server.HeaderParser.Loops.{looped, loop-ends, loop-Consumes, star-Consumes}

-- A rune that a quoted string may hold.
abbrev pub IsQuotable : ℕ → Type 0
IsQuotable c = (c < 0x80) × ((c == end_symbol) ≡ false)

abbrev pub is_special : ℕ → Bool
is_special c = c == b'"' || c == b'\\'

abbrev pub quote : ℕ → List ℕ
quote c = if is_special c then b'\\' ∷ c ∷ [] else c ∷ []

abbrev pub quoted : List ℕ → List ℕ
quoted [] = []
quoted (c ∷ cs) = quote c ++ quoted cs

abbrev pub with_value : Bytes → Kept → Kept
with_value s v = record v { last_value = s }

match_dot-IsSilent :
    (c : ℕ) (rest : List ℕ) → (c == end_symbol) ≡ false → IsSilent match_dot (c ∷ []) rest
unfolding match_dot
match_dot-IsSilent c rest h = one-IsSilent _ c rest (rw h refl)

module _ (b : Bytes) (fits : length b < 2 ^ 15) where
  -- one rune of a quoted string
  char-Consumes :
      (c : ℕ) (rest : List ℕ) (v : Kept)
      → (c == end_symbol) ≡ false
      → Consumes b fits quoted_str_char (c ∷ []) rest v (with_value (v.last_value ++ c ∷ []) v)
  unfolding quoted_str_char with_text
  char-Consumes c rest v h =
      noted-Consumes b fits match_dot action6 (c ∷ []) rest v _ (match_dot-IsSilent c rest h)
        (λ p m k. (
          record p { last_value = p.last_value ++ c ∷ [] },
          unfold act in rw m refl,
          ap (λ x. with_value (x.last_value ++ c ∷ []) x) k,
        ))

  but_not-IsSilent : (f : Rule) (u : List ℕ) → Refuses f u → IsSilent (but_not f) [] u
  unfolding but_not
  but_not-IsSilent f u h n ts = rw (h n ts, but_not) (ap (λ k. some (at k u ts)) (omega arith))

  char-Refuses : (c d : ℕ) (u : List ℕ) → (d == c) ≡ false → Refuses (char c) (d ∷ u)
  unfolding char
  char-Refuses c d u h = one-Refuses _ (d ∷ u) h

  pub char-IsSilent : (c : ℕ) (rest : List ℕ) → (c == c) ≡ true → IsSilent (char c) (c ∷ []) rest
  unfolding char
  char-IsSilent c rest h = one-IsSilent _ c rest h

  but_not-none : (f : Rule) (s t : Scan) → f s ≡ some t → but_not f s ≡ none
  unfolding but_not
  but_not-none f s t h = rw (h, but_not) refl

  plain-Consumes :
      (c : ℕ) (rest : List ℕ) (v : Kept)
      → (c == end_symbol) ≡ false
      → (c == b'"') ≡ false
      → (c == b'\\') ≡ false
      → Consumes b fits quoted_char (c ∷ []) rest v (with_value (v.last_value ++ c ∷ []) v)
  unfolding quoted_char
  plain-Consumes c rest v h p q = choice-first-Consumes b fits _ _ (c ∷ []) rest v _ (
      seq-Consumes b fits (but_not (char b'"')) _ [] (c ∷ []) rest v v _
        (silent-Consumes b fits _ [] (c ∷ rest) v
          (but_not-IsSilent _ _ (char-Refuses b'"' c rest p)))
        (seq-Consumes b fits (but_not (char b'\\')) _ [] (c ∷ []) rest v v _
          (silent-Consumes b fits _ [] (c ∷ rest) v
            (but_not-IsSilent _ _ (char-Refuses b'\\' c rest q)))
          (last-Consumes b fits quoted_str_char (c ∷ []) rest v _ (char-Consumes c rest v h))))

  special-Consumes :
      (c : ℕ) (rest : List ℕ) (v : Kept)
      → (c == end_symbol) ≡ false
      → Consumes b fits quoted_char (b'\\' ∷ c ∷ []) rest v (with_value (v.last_value ++ c ∷ []) v)
  unfolding quoted_char
  special-Consumes c rest v h =
      choice-second-Consumes b fits _ _ (b'\\' ∷ c ∷ []) rest v _
        (λ n ts.
          seq-step (but_not (char b'"')) _ _ _ (
            but_not-IsSilent (char b'"') (b'\\' ∷ c ∷ rest)
              (char-Refuses b'"' b'\\' (c ∷ rest) refl) n ts)
          ∙ seq-none (but_not (char b'\\')) _ _
              (but_not-none (char b'\\') _ _ (char-IsSilent b'\\' (c ∷ rest) refl _ ts)))
        (seq-Consumes b fits (char b'\\') _ (b'\\' ∷ []) (c ∷ []) rest v v _
          (silent-Consumes b fits _ (b'\\' ∷ []) (c ∷ rest) v (char-IsSilent b'\\' (c ∷ rest) refl))
          (last-Consumes b fits quoted_str_char (c ∷ []) rest v _ (char-Consumes c rest v h)))

  -- a rune of a quoted string, escaped if it has to be
  quote-Consumes :
      (c : ℕ) (rest : List ℕ) (v : Kept)
      → (c == end_symbol) ≡ false
      → Consumes b fits quoted_char (quote c) rest v (with_value (v.last_value ++ c ∷ []) v)
  quote-Consumes c rest v h = elim (Bool-cases (is_special c)) [
    | inl special ↦ rw special (special-Consumes c rest v h)
    | inr plain ↦
        rw plain (plain-Consumes c rest v h (ground (arith, plain)) (ground (arith, plain)))
  ]

  quoted_char-Refuses : (rest : List ℕ) → Refuses quoted_char (b'"' ∷ rest)
  unfolding quoted_char
  quoted_char-Refuses rest n ts =
      choice-second _ _ _ (
        seq-none (but_not (char b'"')) _ _
          (but_not-none (char b'"') _ _ (char-IsSilent b'"' rest refl n ts)))
      ∙ seq-none (char b'\\') _ _ (char-Refuses b'\\' b'"' rest refl n ts)

  length-quoted : (cs : List ℕ) → length cs ≤ length (quoted cs)
  length-quoted [] = omega arith
  length-quoted (c ∷ cs) =
      omega (arith, length-append {0} (quote c) (quoted cs), length-quote c, length-quoted cs)
    where
      length-quote : (c : ℕ) → 1 ≤ length (quote c)
      length-quote c = ground arith

  quoted-loop :
      (cs rest : List ℕ) (v : Kept) (fuel : ℕ)
      → All IsQuotable cs
      → length cs < fuel
      → Consumes b fits
          (looped b fits fuel quoted_char)
          (quoted cs)
          (b'"' ∷ rest)
          v
          (with_value (v.last_value ++ cs) v)
  quoted-loop cs rest v zero h m = absurd (omega arith)
  quoted-loop [] rest v (suc fuel) h m =
      subst
        (λ x.
          Consumes b fits (looped b fits (suc fuel) quoted_char) [] (b'"' ∷ rest) v
            (with_value x v))
        (sym (append-nil v.last_value))
        (loop-ends b fits quoted_char fuel (b'"' ∷ rest) v (quoted_char-Refuses rest))
  quoted-loop (c ∷ cs) rest v (suc fuel) ((l, p), h) m =
      let one_more = with_value (v.last_value ++ c ∷ []) v in
      loop-Consumes b fits quoted_char fuel (quote c) (quoted cs) (b'"' ∷ rest) v one_more _
        (quote-Consumes c (quoted cs ++ b'"' ∷ rest) v p)
        (subst
          (λ x.
            Consumes b fits (looped b fits fuel quoted_char) (quoted cs) (b'"' ∷ rest) one_more
              (with_value x v))
          (append_assoc v.last_value (c ∷ []) cs)
          (quoted-loop cs rest one_more fuel h (omega (arith, m))))

  -- a value between quotes
  quoted_string-Consumes :
      (cs rest : List ℕ) (v : Kept)
      → All IsQuotable cs
      → Consumes b fits quoted_string (b'"' ∷ (quoted cs ++ b'"' ∷ [])) rest v (with_value cs v)
  unfolding quoted_string
  quoted_string-Consumes cs rest v h =
      let cleared = with_value [] v in
      seq-Consumes b fits (add action5) _ [] (b'"' ∷ (quoted cs ++ b'"' ∷ [])) rest v cleared _
        (add-Consumes b fits action5 _ v cleared
          (λ p k. (record p { last_value = [] }, unfold act in refl, ap (with_value []) k)))
        (seq-Consumes b fits (char b'"') _ (b'"' ∷ []) (quoted cs ++ b'"' ∷ []) rest cleared cleared
          _ (silent-Consumes b fits _ (b'"' ∷ []) _ cleared (char-IsSilent b'"' _ refl))
          (seq-Consumes b fits (star quoted_char) _ (quoted cs) (b'"' ∷ []) rest cleared
            (with_value cs v) _
            (star-Consumes b fits quoted_char (quoted cs) (b'"' ∷ rest) cleared _ (
              quoted-loop cs rest cleared _ h
                (omega (arith, length-append {0} (quoted cs) (b'"' ∷ rest), length-quoted cs))))
            (last-Consumes b fits (char b'"') (b'"' ∷ []) rest _ _
              (silent-Consumes b fits _ (b'"' ∷ []) rest _ (char-IsSilent b'"' rest refl)))))

  abbrev pub with_param : Bytes → Kept → Kept
  with_param s v = record v { param_name = s }

  -- the parameter is set in the method that was read last
  abbrev pub set_last : List AuthMethod → Kept → Kept
  set_last ms v = record v { methods = ms }

  act3 :
      (p : Parser) (v : Kept) (ms : List AuthMethod)
      → kept p ≡ v
      → set_param v.param_name v.last_value v.methods ≡ some ms
      → act b action3 p ≡ some (record p { methods = ms })
  unfolding act with_methods
  act3 p v ms k h =
      let same : set_param p.param_name p.last_value p.methods ≡ some ms =
        ap (λ x. set_param x.param_name x.last_value x.methods) k ∙ h in
      rw same refl

  pub value-Consumes :
      (cs rest : List ℕ) (v : Kept) (ms : List AuthMethod)
      → All IsQuotable cs
      → set_param v.param_name cs v.methods ≡ some ms
      → Consumes b fits auth_param_val
          (b'"' ∷ (quoted cs ++ b'"' ∷ []))
          rest
          v
          (set_last ms (with_value cs v))
  unfolding auth_param_val auth_param_sval
  value-Consumes cs rest v ms h set =
      let w = b'"' ∷ (quoted cs ++ b'"' ∷ []) in
      choice-first-Consumes b fits _ _ w rest v _ (
        subst
          (λ x.
            Consumes b fits (seq (text quoted_string ∷ add action3 ∷ [])) x rest v
              (set_last ms (with_value cs v)))
          (append-nil w)
          (seq-Consumes b fits (text quoted_string) _ w [] rest v (with_value cs v) _
            (text-Consumes b fits quoted_string w rest v _ (quoted_string-Consumes cs rest v h))
            (last-Consumes b fits (add action3) [] rest _ _ (
              add-Consumes b fits action3 rest _ _ (λ p k. (
                record p { methods = ms },
                act3 p (with_value cs v) ms k set,
                ap (set_last ms) k,
              ))))))
