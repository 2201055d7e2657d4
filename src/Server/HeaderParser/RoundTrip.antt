-- ===== src/Server/HeaderParser/RoundTrip.antt =====
-- A header of a scheme and its parameters, as a client writes it, gives the one method that it names.
use mathlib.Core.Path.{subst}
use smart_web.Base.{
  ℕ, ◌<◌, ◌^◌, Bool, true, false, some, List, [], ◌∷◌, ◌++◌, append_assoc, append-nil, ◌≡◌, refl,
  sym, ap, ◌∙◌, arith, All, All-map, All-append, Bytes, codes, length, contains-All, ◌==◌,
  Bool-cases, inl, inr,
}
use smart_web.Utf8.RoundTrip.{runes-ascii}
use smart_web.Server.Authenticator.{AuthMethod}
use smart_web.Server.HeaderParser.{
  Token, Scan, Rule, one, char_in, char, seq, loop, star, choice, optional, but_not, match_dot,
  is_token, is_alnum, ws, auth_params, auth_scheme, challenge_cred, header, start, parse,
  end_symbol,
}
use smart_web.Server.HeaderParser.Execute.{
  Parser, new_parser, no_params, execute, in_order, methods_from, methods_of,
}
use smart_web.Server.HeaderParser.Words.{
  at, at_end, IsSilent, star-IsSilent, seq-step, is_alnum-ascii,
}
use smart_web.Server.HeaderParser.Panics.{with_end-append}
use smart_web.Server.HeaderParser.Consumes.{
  Kept, kept, Consumes, silent-Consumes, seq-Consumes, last-Consumes, choice-first-Consumes,
}
use smart_web.Server.HeaderParser.Quoted.{IsQuotable, quoted, quote, is_special}
use smart_web.Server.HeaderParser.Fields.{
  Field, IsField, key, field_text, field_value, with_field, separator, is_token-not_ws,
}
use smart_web.Server.HeaderParser.Schemes.{
  fields_text, with_fields, after_fields, auth_scheme-Consumes, auth_params-Consumes,
}

-- A rune that is read as itself: one byte, and not the end of the buffer.
abbrev pub IsPlain : ℕ → Type 0
IsPlain c = (c < 0x80) × ((c == end_symbol) ≡ false)

is_token-IsPlain : (c : ℕ) → is_token c ≡ true → IsPlain c
unfolding is_token
is_token-IsPlain c h = elim (Bool-cases (is_alnum c)) [
  | inl alnum ↦ is_alnum-ascii c alnum
  | inr other ↦ contains-All IsPlain (codes "!#$%&'*+-.^_`|~") c (rw other at h) (
    (omega arith, refl),
    (
      (omega arith, refl),
      (
        (omega arith, refl),
        (
          (omega arith, refl),
          (
            (omega arith, refl),
            (
              (omega arith, refl),
              (
                (omega arith, refl),
                (
                  (omega arith, refl),
                  (
                    (omega arith, refl),
                    (
                      (omega arith, refl),
                      (
                        (omega arith, refl),
                        (
                          (omega arith, refl),
                          ((omega arith, refl), ((omega arith, refl), ((omega arith, refl), tt))),
                        ),
                      ),
                    ),
                  ),
                ),
              ),
            ),
          ),
        ),
      ),
    ),
  )
]

quote-IsPlain : (c : ℕ) → IsQuotable c → All IsPlain (quote c)
quote-IsPlain c p = elim (Bool-cases (is_special c)) [
  | inl special ↦ rw special ((omega arith, refl), (p, tt))
  | inr plain ↦ rw plain (p, tt)
]

quoted-IsPlain : (cs : List ℕ) → All IsQuotable cs → All IsPlain (quoted cs)
quoted-IsPlain [] h = tt
quoted-IsPlain (c ∷ cs) (p, h) =
    All-append IsPlain (quote c) (quoted cs) (quote-IsPlain c p) (quoted-IsPlain cs h)

separator-IsPlain : (comma : Bool) → All IsPlain (separator comma)
separator-IsPlain true = ((omega arith, refl), ((omega arith, refl), tt))
separator-IsPlain false = ((omega arith, refl), tt)

field_text-IsPlain : (f : Field) → IsField f → All IsPlain (field_text f)
field_text-IsPlain f (h, q) =
    All-append IsPlain (separator f.comma) (key f ++ b'=' ∷ field_value f)
      (separator-IsPlain f.comma)
      (All-append IsPlain (key f) (b'=' ∷ field_value f) (All-map _ _ is_token-IsPlain (key f) h) (
        (omega arith, refl),
        (
          (omega arith, refl),
          All-append IsPlain (quoted f.value) (b'"' ∷ []) (quoted-IsPlain f.value q)
              ((omega arith, refl), tt),
        ),
      ))

fields_text-IsPlain : (fs : List Field) → All IsField fs → All IsPlain (fields_text fs)
fields_text-IsPlain [] h = tt
fields_text-IsPlain (f ∷ fs) (p, h) =
    All-append IsPlain (field_text f) (fields_text fs) (field_text-IsPlain f p)
      (fields_text-IsPlain fs h)

after_fields-methods :
    (f : Field) (fs : List Field) (m : AuthMethod) (ms : List AuthMethod)
    → (after_fields f fs m ms).methods ≡ with_fields (f ∷ fs) m ∷ ms
after_fields-methods f [] m ms = refl
after_fields-methods f (g ∷ fs) m ms = after_fields-methods g fs (with_field f m) ms

-- the rules of `header` behind its first challenge
abbrev header_rest : List Rule
header_rest = optional (seq (star ws ∷ char b',' ∷ star ws ∷ challenge_cred ∷ [])) ∷ star ws ∷ []

rest-IsSilent : IsSilent (seq header_rest) [] at_end
rest-IsSilent n ts = same ∙ ap (λ k. some (at k at_end ts)) (omega arith)
  where
    same : seq header_rest (at n at_end ts) ≡ some (at n at_end ts)
    same = unfold seq optional choice star ws loop one char_in char in refl

abbrev pub scheme_text : Bytes → List Field → Bytes
scheme_text name fs = name ++ fields_text fs

abbrev pub method_of : Bytes → List Field → AuthMethod
method_of name fs = with_fields fs (record { name = name; params = no_params })

end-reached :
    (n : ℕ) (ts : List Token)
    → seq (but_not match_dot ∷ []) (at n at_end ts) ≡ some (at n at_end ts)
unfolding seq but_not match_dot one char_in
end-reached n ts = refl

parse-header :
    (b : Bytes)
    → All IsPlain b
    → (s : Scan) → header (at 0 (b ++ at_end) []) ≡ some (at s.position at_end s.tokens)
    → parse b ≡ some (at s.position at_end s.tokens)
unfolding parse start
parse-header b plain s h =
    let ascii = runes-ascii b (All-map _ _ (λ d a. a.0) b plain) in
    let buffer = with_end-append b (All-map _ _ (λ d a. a.1) b plain) in
    rw (ascii, buffer)
      (seq-step header (but_not match_dot ∷ []) _ _ h ∙ end-reached s.position s.tokens)

methods_from-left :
    (b : Bytes) (s : Scan) (p : Parser)
    → execute b s.tokens new_parser ≡ some p
    → methods_from b (some s) ≡ some (in_order p.methods)
unfolding methods_from
methods_from-left b s p h = rw (h, methods_from) refl

module _ (c : ℕ) (w : List ℕ) (f : Field) (fs : List Field)
    (h : All (λ d. is_token d ≡ true) (c ∷ w)) (hs : All IsField (f ∷ fs)) where
  header-Consumes :
      (b : Bytes) (fits : length b < 2 ^ 15)
      → Consumes b fits header
          ((c ∷ w) ++ fields_text (f ∷ fs))
          at_end
          (kept new_parser)
          (after_fields f fs (record { name = c ∷ w; params = no_params }) [])
  unfolding header challenge_cred
  header-Consumes b fits =
      let method : AuthMethod = record { name = c ∷ w; params = no_params } in
      let v = kept new_parser in
      let named : Kept = record v { methods = method ∷ [] } in
      let v' = after_fields f fs method [] in
      let u = fields_text (f ∷ fs) in
      let whole = (c ∷ w) ++ u in
      seq-Consumes b fits (star ws) _ [] whole at_end v v v'
        (silent-Consumes b fits (star ws) [] (whole ++ at_end) v
          (unfold ws in star-IsSilent _ [] (whole ++ at_end) tt (is_token-not_ws c h.0)))
        (subst (λ x. Consumes b fits (seq (challenge_cred ∷ header_rest)) x at_end v v')
          (append-nil whole)
          (seq-Consumes b fits challenge_cred _ whole [] at_end v v' v'
            (choice-first-Consumes b fits _ _ whole at_end v v' (
              seq-Consumes b fits auth_scheme _ (c ∷ w) u at_end v named v'
                (subst (λ x. Consumes b fits auth_scheme (c ∷ w) x v named)
                  (sym (append_assoc (field_text f) (fields_text fs) at_end))
                  (auth_scheme-Consumes b fits c w f (fields_text fs ++ at_end) v h))
                (last-Consumes b fits auth_params u at_end named v'
                  (auth_params-Consumes b fits f fs method [] named refl hs))))
            (silent-Consumes b fits _ [] at_end v' rest-IsSilent)))

  -- A header of a scheme's name, which is a token, and one or more parameters, each behind a space
  -- or behind a comma and a space, gives one method with this name, in which the parameters are set
  -- in their order. The keys are tokens; the values are ASCII text between quotes, without the
  -- parser's end symbol, in which quotes and backslashes are escaped. The header has fewer than 32768
  -- characters.
  pub methods_of-scheme_text :
      length (scheme_text (c ∷ w) (f ∷ fs)) < 2 ^ 15
      → methods_of (scheme_text (c ∷ w) (f ∷ fs)) ≡ some (method_of (c ∷ w) (f ∷ fs) ∷ [])
  unfolding methods_of
  methods_of-scheme_text fits =
      let b = scheme_text (c ∷ w) (f ∷ fs) in
      let plain : All IsPlain b =
        All-append IsPlain (c ∷ w) (fields_text (f ∷ fs)) (All-map _ _ is_token-IsPlain (c ∷ w) h)
          (fields_text-IsPlain (f ∷ fs) hs) in
      let result = header-Consumes b fits [] [] [] new_parser (sym (append-nil b)) refl in
      let s = at (length ([] ++ b)) at_end result.tokens in
      rw (parse-header b plain s result.takes) (
        methods_from-left b s _ result.executes
        ∙ ap (λ ms. some (in_order ms))
            (ap (λ k. k.methods) result.keeps ∙ after_fields-methods f fs _ [])
        ∙ (unfold in_order in refl))
