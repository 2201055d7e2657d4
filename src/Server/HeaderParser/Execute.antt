-- ===== src/Server/HeaderParser/Execute.antt =====
-- `Execute` of server/headerparse.peg.go with the actions of server/headerparse.go, and
-- `getAuthParams` of server/auth.go.
use smart_web.Base.{
  ℕ, ◌-◌, ◌%◌, ◌^◌, ◌&&◌, ltb, leb, length, Option, none, some, List, [], ◌∷◌, ◌++◌, Bytes, codes,
  equal, take, drop, if◌then◌else◌,
}
use smart_web.Server.Authenticator.{AuthMethod}
use smart_web.Server.HeaderParser.{
  Token, peg_text, action0, action1, action2, action3, action4, action5, action6, Scan, parse,
}

-- The parser's fields with `begin` and `end` of `Execute`; the last method comes first.
pub record Parser : Type 0 where
  pub methods : List AuthMethod
  pub param_name : Bytes
  pub last_value : Bytes
  pub begin : ℕ
  pub end : ℕ

abbrev pub new_parser : Parser
new_parser = record { methods = []; param_name = []; last_value = []; begin = 0; end = 0 }

abbrev pub no_params : Bytes → Bytes
no_params key = []

unfoldable pub set_key : Bytes → Bytes → (Bytes → Bytes) → Bytes → Bytes
set_key key value params k = if equal key k then value else params k

-- `setParam` and `setB64Param`; without a method the index is -1, which panics
unfoldable pub set_param : Bytes → Bytes → List AuthMethod → Option (List AuthMethod)
set_param key value [] = none
set_param key value (m ∷ ms) = some ((record m { params = set_key key value m.params }) ∷ ms)

unfoldable pub with_methods : Parser → Option (List AuthMethod) → Option Parser
with_methods p none = none
with_methods p (some ms) = some (record p { methods = ms })

-- A position as `Add` stores it in an int16; none where it is negative. A tree that has grown past 32767
-- tokens stores those that follow in an int32, which is left aside.
unfoldable pub stored : ℕ → Option ℕ
stored n = let r = n % 2 ^ 16 in if ltb r (2 ^ 15) then some r else none

unfoldable pub cut : Bytes → Option ℕ → Option ℕ → Option Bytes
cut buffer none e = none
cut buffer (some b) none = none
cut buffer (some b) (some e) =
    if leb b e && leb e (length buffer) then some (take (e - b) (drop b buffer)) else none

-- `buffer[begin:end]`, none for a panic: the positions count runes, and the buffer is one of bytes
unfoldable pub matched : Bytes → Parser → Option Bytes
matched buffer p = cut buffer (stored p.begin) (stored p.end)

-- an action on the text that was matched
unfoldable pub with_text : Option Bytes → (Bytes → Option Parser) → Option Parser
with_text none f = none
with_text (some w) f = f w

-- the case of one token; none for a panic
unfoldable pub act : Bytes → Token → Parser → Option Parser
act buffer (peg_text b e) p = some (record p { begin = b; end = e })
act buffer action0 p =
    with_text (matched buffer p)
      (λ w. some (record p { methods = (record { name = w; params = no_params }) ∷ p.methods }))
act buffer action1 p =
    with_text (matched buffer p) (λ w. with_methods p (set_param (codes "base64") w p.methods))
act buffer action2 p = with_text (matched buffer p) (λ w. some (record p { param_name = w }))
act buffer action3 p = with_methods p (set_param p.param_name p.last_value p.methods)
act buffer action4 p =
    with_text (matched buffer p) (λ w. with_methods p (set_param p.param_name w p.methods))
act buffer action5 p = some (record p { last_value = [] })
act buffer action6 p =
    with_text (matched buffer p) (λ w. some (record p { last_value = p.last_value ++ w }))

unfoldable pub execute : Bytes → List Token → Parser → Option Parser
execute buffer [] p = some p
execute buffer (t ∷ ts) p = elim (act buffer t p) [ none ↦ none | some q ↦ execute buffer ts q ]

unfoldable pub in_order : List AuthMethod → List AuthMethod
in_order [] = []
in_order (m ∷ ms) = in_order ms ++ m ∷ []

-- the methods of a header, none for a panic; a header that is not parsed has none
unfoldable pub methods_from : Bytes → Option Scan → Option (List AuthMethod)
methods_from buffer none = some []
methods_from buffer (some s) = elim (execute buffer s.tokens new_parser) [
  | none ↦ none
  | some p ↦ some (in_order p.methods)
]

unfoldable pub methods_of : Bytes → Option (List AuthMethod)
methods_of buffer = methods_from buffer (parse buffer)
