-- ===== src/Server/HeaderParser/Fields.antt =====
-- A header of a scheme and its parameters, as a client writes it, is parsed to these.
use smart_web.Base.{
  ◌^◌, ◌<◌, length, ℕ, Bool, true, false, ◌||◌, List, [], ◌∷◌, ◌++◌, ◌≡◌, refl, ap, ◌∙◌, arith, All,
  Bytes, contains, ◌==◌,
}
use smart_web.Server.Authenticator.{AuthMethod}
use smart_web.Server.HeaderParser.{
  action2, Rule, one, char, star, choice, is_token, ws, token, auth_param_val, auth_param_key,
  ws_or_comma, auth_param,
}
use smart_web.Server.HeaderParser.Execute.{act, set_key, set_param, with_text}
use smart_web.Server.HeaderParser.Words.{
  IsSilent, Refuses, one-Refuses, one-IsSilent, star-IsSilent, seq-IsSilent, seq-one, choice-first,
  choice-second, token-IsSilent, seq-none,
}
use smart_web.Server.HeaderParser.Consumes.{
  Kept, Consumes, silent-Consumes, seq-Consumes, last-Consumes, noted-Consumes,
}
use smart_web.Server.HeaderParser.Quoted.{
  IsQuotable, quoted, with_param, value-Consumes, char-IsSilent,
}

-- A parameter, and whether a comma stands before it besides the space.
pub record Field : Type 0 where
  pub comma : Bool
  pub first : ℕ
  pub more : List ℕ
  pub value : List ℕ

abbrev pub IsField : Field → Type 0
IsField f = All (λ c. is_token c ≡ true) (f.first ∷ f.more) × All IsQuotable f.value

abbrev pub separator : Bool → List ℕ
separator true = b',' ∷ b' ' ∷ []
separator false = b' ' ∷ []

pub is_token-not_ws : (c : ℕ) → is_token c ≡ true → (c == b'\t' || c == b' ') ≡ false
unfolding is_token contains
is_token-not_ws c h = ground arith

choice-IsSilent :
    (f g : Rule) (w rest : List ℕ)
    → Refuses f (w ++ rest)
    → IsSilent g w rest
    → IsSilent (choice f g) w rest
choice-IsSilent f g w rest out h n ts = choice-second f g _ (out n ts) ∙ h n ts

separator-IsSilent :
    (comma : Bool) (c : ℕ) (rest : List ℕ)
    → is_token c ≡ true
    → IsSilent ws_or_comma (separator comma) (c ∷ rest)
unfolding ws_or_comma ws
separator-IsSilent false c rest h n ts = choice-first _ _ _ _ (
    seq-IsSilent (one _) _ (b' ' ∷ []) [] (c ∷ rest) (one-IsSilent _ b' ' (c ∷ rest) refl)
      (seq-one (star (one _)) [] (c ∷ rest)
        (star-IsSilent _ [] (c ∷ rest) tt (is_token-not_ws c h)))
      n ts)
separator-IsSilent true c rest h n ts =
    choice-IsSilent _ _ (b',' ∷ b' ' ∷ []) (c ∷ rest)
      (λ n ts. seq-none (one _) _ _ (one-Refuses _ (b',' ∷ b' ' ∷ c ∷ rest) refl n ts))
      (seq-IsSilent (star (one _)) _ [] (b',' ∷ b' ' ∷ []) (c ∷ rest)
        (star-IsSilent _ [] (b',' ∷ b' ' ∷ c ∷ rest) tt refl)
        (seq-IsSilent (char b',') _ (b',' ∷ []) (b' ' ∷ []) (c ∷ rest)
          (char-IsSilent [] (omega arith) b',' (b' ' ∷ c ∷ rest) refl)
          (seq-one (star (one _)) (b' ' ∷ []) (c ∷ rest)
            (star-IsSilent _ (b' ' ∷ []) (c ∷ rest) (refl, tt) (is_token-not_ws c h)))))
      n ts

abbrev pub key : Field → List ℕ
key f = f.first ∷ f.more

abbrev pub field_value : Field → List ℕ
field_value f = b'"' ∷ (quoted f.value ++ b'"' ∷ [])

abbrev pub field_text : Field → List ℕ
field_text f = separator f.comma ++ (key f ++ (b'=' ∷ field_value f))

abbrev pub with_field : Field → AuthMethod → AuthMethod
with_field f m = record m { params = set_key (key f) f.value m.params }

-- the parser behind a field
abbrev pub after_field : Field → AuthMethod → List AuthMethod → Kept
after_field f m ms = record {
  methods = with_field f m ∷ ms;
  param_name = key f;
  last_value = f.value;
}

module _ (b : Bytes) (fits : length b < 2 ^ 15) where
  key-Consumes :
      (f : Field) (rest : List ℕ) (v : Kept)
      → IsField f
      → Consumes b fits auth_param_key (key f) (b'=' ∷ rest) v (with_param b fits (key f) v)
  unfolding auth_param_key with_text
  key-Consumes f rest v (h, q) =
      noted-Consumes b fits token action2 (key f) (b'=' ∷ rest) v _
        (token-IsSilent f.first f.more (b'=' ∷ rest) h (unfold is_token contains in refl))
        (λ p m k. (
          record p { param_name = key f },
          unfold act in rw m refl,
          ap (λ x. with_param b fits (key f) x) k,
        ))

  pub auth_param-Consumes :
      (f : Field) (rest : List ℕ) (m : AuthMethod) (ms : List AuthMethod) (v : Kept)
      → v.methods ≡ m ∷ ms
      → IsField f
      → Consumes b fits auth_param (field_text f) rest v (after_field f m ms)
  unfolding auth_param ws set_param
  auth_param-Consumes f rest m ms v e (h, q) =
      let named = with_param b fits (key f) v in
      let value = field_value f in
      seq-Consumes b fits ws_or_comma _ (separator f.comma) (key f ++ (b'=' ∷ value)) rest v v _
        (silent-Consumes b fits ws_or_comma (separator f.comma) _ v
          (separator-IsSilent f.comma f.first _ h.0))
        (seq-Consumes b fits auth_param_key _ (key f) (b'=' ∷ value) rest v named _
          (key-Consumes f (value ++ rest) v (h, q))
          (seq-Consumes b fits (star ws) _ [] (b'=' ∷ value) rest named named _
            (silent-Consumes b fits _ [] _ named
              (star-IsSilent _ [] (b'=' ∷ (value ++ rest)) tt refl))
            (seq-Consumes b fits (char b'=') _ (b'=' ∷ []) value rest named named _
              (silent-Consumes b fits _ (b'=' ∷ []) _ named
                (char-IsSilent b fits b'=' (value ++ rest) refl))
              (seq-Consumes b fits (star ws) _ [] value rest named named _
                (silent-Consumes b fits _ [] _ named (star-IsSilent _ [] (value ++ rest) tt refl))
                (last-Consumes b fits auth_param_val value rest named _ (
                  value-Consumes b fits f.value rest named (with_field f m ∷ ms) q (rw e refl)))))))
