-- ===== src/Server/HeaderParser.antt =====
-- server/headerparse.peg.go: the rules that are generated from server/headerparse.peg, each a function
-- from the state before a match to the state behind it, or none where it does not match; a rule that
-- does not match leaves the state as it was. Of the tokens, those that Execute looks at are kept.
pub mod Execute
pub mod Words
pub mod Consumes
pub mod Loops
pub mod Quoted
pub mod Fields
pub mod Schemes
pub mod RoundTrip
pub mod Panics
mod Tests
use smart_web.Base.{
  ℕ, zero, suc, ◌+◌, Bool, true, false, ◌||◌, Option, none, some, List, [], ◌∷◌, ◌++◌, Bytes, codes,
  length, within, ◌==◌, if◌then◌else◌, contains,
}
use smart_web.Utf8.{runes}

abbrev pub end_symbol : ℕ
end_symbol = 4

-- `rulePegText`, from one position to another, before `Add` stores these, and the rules `ruleAction0` to `ruleAction6`
pub data Token : Type 0 where
  peg_text : ℕ → ℕ → Token
  action0 action1 action2 action3 action4 action5 action6 : Token

-- `position`, the runes of the buffer from there on, and the tokens up to `tokenIndex`
pub record Scan : Type 0 where
  pub position : ℕ
  pub unread : List ℕ
  pub tokens : List Token

abbrev pub Rule : Type 0
Rule = Scan → Option Scan

abbrev pub step : Scan → List ℕ → Scan
step s rest = record s { position = suc s.position; unread = rest }

-- one rune of a set; the last rune of the buffer is the end symbol, which is in none
unfoldable pub char_in : (ℕ → Bool) → List ℕ → Rule
char_in set [] s = none
char_in set (c ∷ rest) s = if set c then some (step s rest) else none

unfoldable pub one : (ℕ → Bool) → Rule
one set s = char_in set s.unread s

unfoldable pub char : ℕ → Rule
char c = one (λ d. d == c)

-- `matchDot`
unfoldable pub match_dot : Rule
match_dot = one (λ d. if d == end_symbol then false else true)

-- `add`
unfoldable pub add : Token → Rule
add t s = some (record s { tokens = s.tokens ++ t ∷ [] })

-- `!f`
unfoldable pub but_not : Rule → Rule
but_not f s = elim (f s) [ none ↦ some s | some t ↦ none ]

unfoldable pub choice : Rule → Rule → Rule
choice f g s = elim (f s) [ none ↦ g s | some t ↦ some t ]

unfoldable pub seq : List Rule → Rule
seq [] s = some s
seq (f ∷ fs) s = elim (f s) [ none ↦ none | some t ↦ seq fs t ]

unfoldable pub loop : ℕ → Rule → Scan → Scan
loop zero f s = s
loop (suc fuel) f s = elim (f s) [ none ↦ s | some t ↦ loop fuel f t ]

-- `f*`, with fuel for a round at each rune
unfoldable pub star : Rule → Rule
star f s = some (loop (suc (length s.unread)) f s)

unfoldable pub optional : Rule → Rule
optional f = choice f some

-- `<f>`
unfoldable pub text : Rule → Rule
text f s = elim (f s) [ none ↦ none | some t ↦ add (peg_text s.position t.position) t ]

abbrev pub is_alnum : ℕ → Bool
is_alnum c = within b'A' b'Z' c || within b'a' b'z' c || within b'0' b'9' c

unfoldable pub is_token : ℕ → Bool
is_token c = is_alnum c || contains (codes "!#$%&'*+-.^_`|~") c

unfoldable pub is_token68 : ℕ → Bool
is_token68 c = is_alnum c || contains (codes "-._~+/") c

unfoldable pub ws : Rule
ws = one (λ c. c == b'\t' || c == b' ')

unfoldable pub token : Rule
token = seq (one is_token ∷ star (one is_token) ∷ [])

unfoldable pub token68 : Rule
token68 = seq (one is_token68 ∷ star (one is_token68) ∷ star (char b'=') ∷ [])

unfoldable pub quoted_str_char : Rule
quoted_str_char = seq (text match_dot ∷ add action6 ∷ [])

-- one round of the loop of `quoted_string`
unfoldable pub quoted_char : Rule
quoted_char =
    choice (seq (but_not (char b'"') ∷ but_not (char b'\\') ∷ quoted_str_char ∷ []))
      (seq (char b'\\' ∷ quoted_str_char ∷ []))

unfoldable pub quoted_string : Rule
quoted_string = seq (add action5 ∷ char b'"' ∷ star quoted_char ∷ char b'"' ∷ [])

unfoldable pub auth_param_sval : Rule
auth_param_sval = seq (text quoted_string ∷ add action3 ∷ [])

unfoldable pub auth_param_tval : Rule
auth_param_tval = seq (text token ∷ add action4 ∷ [])

unfoldable pub auth_param_val : Rule
auth_param_val = choice auth_param_sval auth_param_tval

unfoldable pub auth_param_key : Rule
auth_param_key = seq (text token ∷ add action2 ∷ [])

unfoldable pub ws_or_comma : Rule
ws_or_comma = choice (seq (ws ∷ star ws ∷ [])) (seq (star ws ∷ char b',' ∷ star ws ∷ []))

unfoldable pub auth_param : Rule
auth_param =
    seq (ws_or_comma ∷ auth_param_key ∷ star ws ∷ char b'=' ∷ star ws ∷ auth_param_val ∷ [])

-- `auth_params`, with fuel for a call of itself at each rune
unfoldable pub params : ℕ → Rule
params zero s = none
params (suc fuel) s = seq (auth_param ∷ star (params fuel) ∷ []) s

unfoldable pub auth_params : Rule
auth_params s = params (suc (length s.unread)) s

unfoldable pub auth_scheme : Rule
auth_scheme = seq (text token ∷ add action0 ∷ [])

unfoldable pub auth_singleparam : Rule
auth_singleparam = seq (text token68 ∷ add action1 ∷ [])

unfoldable pub challenge_cred : Rule
challenge_cred = choice (seq (auth_scheme ∷ auth_params ∷ [])) auth_singleparam

unfoldable pub header : Rule
header = seq (
    star ws
    ∷ challenge_cred
    ∷ optional (seq (star ws ∷ char b',' ∷ star ws ∷ challenge_cred ∷ []))
    ∷ star ws
    ∷ [])

unfoldable pub start : Rule
start = seq (header ∷ but_not match_dot ∷ [])

-- the buffer that `Init` makes: a last rune that is the end symbol is not put behind another one
unfoldable pub with_end : List ℕ → List ℕ
with_end [] = end_symbol ∷ []
with_end (c ∷ []) = if c == end_symbol then c ∷ [] else c ∷ end_symbol ∷ []
with_end (c ∷ d ∷ cs) = c ∷ with_end (d ∷ cs)

-- `Parse` of the text of a header
unfoldable pub parse : Bytes → Option Scan
parse text = start (record { position = 0; unread = with_end (runes text); tokens = [] })
