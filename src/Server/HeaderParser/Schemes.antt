-- ===== src/Server/HeaderParser/Schemes.antt =====
-- A header of a scheme and its parameters, read back to these.
use mathlib.Core.Path.{subst}
use smart_web.Base.{
  ℕ, zero, suc, ◌≤◌, ◌<◌, ◌^◌, Bool, true, false, List, [], ◌∷◌, ◌++◌, append_assoc, append-nil,
  ◌≡◌, refl, ap, arith, All, Bytes, length, length-append, contains,
}
use smart_web.Server.Authenticator.{AuthMethod}
use smart_web.Server.HeaderParser.{
  action0, Rule, one, char_in, char, seq, loop, star, choice, is_token, ws, token, ws_or_comma,
  auth_param, params, auth_params, auth_scheme,
}
use smart_web.Server.HeaderParser.Execute.{act, with_text, no_params}
use smart_web.Server.HeaderParser.Words.{at_end, Refuses, Stops, token-IsSilent}
use smart_web.Server.HeaderParser.Consumes.{
  Kept, Consumes, seq-Consumes, last-Consumes, noted-Consumes,
}
use smart_web.Server.HeaderParser.Loops.{looped, loop-ends, loop-Consumes, star-Consumes}
use smart_web.Server.HeaderParser.Fields.{
  Field, IsField, key, field_text, with_field, after_field, separator, field_value,
  auth_param-Consumes,
}

abbrev pub fields_text : List Field → List ℕ
fields_text [] = []
fields_text (f ∷ fs) = field_text f ++ fields_text fs

abbrev pub with_fields : List Field → AuthMethod → AuthMethod
with_fields [] m = m
with_fields (f ∷ fs) m = with_fields fs (with_field f m)

-- the parser behind one or more fields
abbrev pub after_fields : Field → List Field → AuthMethod → List AuthMethod → Kept
after_fields f [] m ms = after_field f m ms
after_fields f (g ∷ fs) m ms = after_fields g fs (with_field f m) ms

params-Refuses-end : (fuel : ℕ) → Refuses (params fuel) at_end
unfolding params auth_param ws_or_comma seq choice ws star loop one char_in char
params-Refuses-end zero n ts = refl
params-Refuses-end (suc fuel) n ts = refl

separator-Stops : (comma : Bool) (u : List ℕ) → Stops is_token (separator comma ++ u)
unfolding is_token contains
separator-Stops true u = refl
separator-Stops false u = refl

length-separator : (comma : Bool) (u : List ℕ) → 1 ≤ length (separator comma ++ u)
length-separator true u = omega arith
length-separator false u = omega arith

module _ (b : Bytes) (fits : length b < 2 ^ 15) where
  -- a rule that matches once
  loop-once :
      (f : Rule) (fuel : ℕ) (w rest : List ℕ) (v v' : Kept)
      → 1 ≤ fuel
      → Consumes b fits f w rest v v'
      → Refuses f rest
      → Consumes b fits (looped b fits (suc fuel) f) w rest v v'
  loop-once f zero w rest v v' l h out = absurd (omega arith)
  loop-once f (suc fuel) w rest v v' l h out =
      subst (λ x. Consumes b fits (looped b fits (suc (suc fuel)) f) x rest v v') (append-nil w)
        (loop-Consumes b fits f (suc fuel) w [] rest v v' v' h
          (loop-ends b fits f fuel rest v' out))

  params-Consumes :
      (f : Field) (fs : List Field) (fuel : ℕ) (m : AuthMethod) (ms : List AuthMethod) (v : Kept)
      → v.methods ≡ m ∷ ms
      → All IsField (f ∷ fs)
      → length fs < fuel
      → Consumes b fits (params fuel) (fields_text (f ∷ fs)) at_end v (after_fields f fs m ms)
  unfolding params
  params-Consumes f fs zero m ms v e h l = absurd (omega arith)
  params-Consumes f [] (suc fuel) m ms v e (p, h) l =
      seq-Consumes b fits auth_param _ (field_text f) [] at_end v (after_field f m ms) _
        (auth_param-Consumes b fits f at_end m ms v e p)
        (last-Consumes b fits (star (params fuel)) [] at_end _ _ (
          star-Consumes b fits (params fuel) [] at_end _ _
            (loop-ends b fits (params fuel) (suc zero) at_end _ (params-Refuses-end fuel))))
  params-Consumes f (g ∷ fs) (suc fuel) m ms v e (p, h) l =
      let after = fields_text (g ∷ fs) in
      seq-Consumes b fits auth_param _ (field_text f) after at_end v (after_field f m ms) _
        (auth_param-Consumes b fits f (after ++ at_end) m ms v e p)
        (last-Consumes b fits (star (params fuel)) after at_end _ _ (
          star-Consumes b fits (params fuel) after at_end _ _ (
            loop-once (params fuel) (length (after ++ at_end)) after at_end _ _
              (omega (arith, length-append {0} after at_end))
              (params-Consumes g fs fuel (with_field f m) ms (after_field f m ms) refl h
                (omega (arith, l)))
              (params-Refuses-end fuel))))

  pub auth_scheme-Consumes :
      (c : ℕ) (w : List ℕ) (f : Field) (rest : List ℕ) (v : Kept)
      → All (λ d. is_token d ≡ true) (c ∷ w)
      → Consumes b fits auth_scheme
          (c ∷ w)
          (field_text f ++ rest)
          v
          (record v { methods = (record { name = c ∷ w; params = no_params }) ∷ v.methods })
  unfolding auth_scheme with_text
  auth_scheme-Consumes c w f rest v h =
      noted-Consumes b fits token action0 (c ∷ w) (field_text f ++ rest) v _
        (token-IsSilent c w (field_text f ++ rest) h (rw append_assoc (separator-Stops f.comma _)))
        (λ p m k. (
          record p { methods = (record { name = c ∷ w; params = no_params }) ∷ p.methods },
          unfold act in rw m refl,
          ap {A = Kept} {B = Kept}
              (λ x. record x {
                methods = (record { name = c ∷ w; params = no_params }) ∷ x.methods;
              })
              k,
        ))

  length-fields : (fs : List Field) → length fs ≤ length (fields_text fs)
  length-fields [] = omega arith
  length-fields (f ∷ fs) = omega (
    arith,
    length-append {0} (field_text f) (fields_text fs),
    length-fields fs,
    length-separator f.comma (key f ++ b'=' ∷ field_value f),
  )

  pub auth_params-Consumes :
      (f : Field) (fs : List Field) (m : AuthMethod) (ms : List AuthMethod) (v : Kept)
      → v.methods ≡ m ∷ ms
      → All IsField (f ∷ fs)
      → Consumes b fits auth_params (fields_text (f ∷ fs)) at_end v (after_fields f fs m ms)
  unfolding auth_params
  auth_params-Consumes f fs m ms v e h pre tail ts p i k =
      let u = fields_text (f ∷ fs) in
      let inner =
        params-Consumes f fs (suc (length (u ++ at_end))) m ms v e h
          (omega (arith, length-append {0} u at_end, length-fields (f ∷ fs))) pre tail ts p i k in
      record {
        tokens = inner.tokens;
        left = inner.left;
        takes = inner.takes;
        executes = inner.executes;
        keeps = inner.keeps;
      }
