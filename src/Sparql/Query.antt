-- ===== src/Sparql/Query.antt =====
-- sparql/query.go: templates. The regular expression `%(([0-9]+)[vsuq]|%)` is matched by hand, from
-- left to right as `ReplaceAllStringFunc` does; a `%` that starts no match is copied.
use smart_web.Base.{
  ℕ, zero, suc, ◌+◌, ◌-◌, ◌*◌, Bool, ◌||◌, Option, none, some, List, [], ◌∷◌, ◌++◌, append_assoc,
  Bytes, codes, format_d, within, ◌==◌, if◌then◌else◌, All, ◌≢◌, ◌≡◌, refl, ==_ne,
}
use smart_web.Sparql.Literals.{
  Value, url, str, bool, int, float, other, literal, string_literal, iri_literal, bool_literal,
}

-- `fmt.Sprintf("%v", value)`
unfoldable pub show_v : Value → Bytes
show_v (url u) = u
show_v (str s) = s
show_v (bool b) = bool_literal b
show_v (int i) = format_d i
show_v (float name g v) = v
show_v (other v s) = v

-- `fmt.Sprintf("%s", value)`
unfoldable pub show_s : Value → Bytes
show_s (url u) = u
show_s (str s) = s
show_s (bool b) = codes "%!s(bool=" ++ bool_literal b ++ codes ")"
show_s (int i) = codes "%!s(int=" ++ format_d i ++ codes ")"
show_s (float name g v) = codes "%!s(" ++ name ++ codes "=" ++ v ++ codes ")"
show_s (other v s) = s

abbrev is_digit : ℕ → Bool
is_digit = within b'0' b'9'

abbrev is_format : ℕ → Bool
is_format c = c == b'v' || c == b's' || c == b'u' || c == b'q'

abbrev get_elem? : List Value → ℕ → Option Value
get_elem? [] n = none
get_elem? (v ∷ vs) zero = some v
get_elem? (v ∷ vs) (suc n) = get_elem? vs n

-- the argument number `n`, from 1; none if there is no such argument
unfoldable pub argument : List Value → ℕ → Option Value
argument args zero = none
argument args (suc n) = get_elem? args n

-- the replacement of `repl` by the argument, by the format `c`
unfoldable pub replacement : ℕ → Value → Bytes → Bytes
replacement c v repl =
    if c == b'v'
    then elim (literal v) [ none ↦ repl | some t ↦ t ]
    else if c == b's'
    then string_literal (show_v v)
    else if c == b'u'
    then iri_literal (show_v v)
    else if c == b'q'
    then show_s v
    else repl

unfoldable pub replace_match : List Value → ℕ → ℕ → Bytes → Bytes
replace_match args n c repl = elim (argument args n) [ none ↦ repl | some v ↦ replacement c v repl ]

-- Where the matcher stands: in plain text, behind a `%`, or behind a `%` and the digits `seen`,
-- which spell `n`.
pub data Scan : Type 0 where
  plain percent : Scan
  number : ℕ → Bytes → Scan

unfoldable pub fill : List Value → Scan → Bytes → Bytes
fill args plain [] = []
fill args percent [] = b'%' ∷ []
fill args (number n seen) [] = b'%' ∷ seen
fill args plain (c ∷ t) =
    let opened = fill args percent t in
    let copied = c ∷ fill args plain t in if c == b'%' then opened else copied
fill args percent (c ∷ t) =
    let escaped = b'%' ∷ fill args plain t in
    let counted = fill args (number (c - b'0') (c ∷ [])) t in
    let copied = b'%' ∷ c ∷ fill args plain t in
    if c == b'%' then escaped else if is_digit c then counted else copied
fill args (number n seen) (c ∷ t) =
    let counted = fill args (number (n * 10 + (c - b'0')) (seen ++ c ∷ [])) t in
    let filled = replace_match args n c (b'%' ∷ (seen ++ c ∷ [])) ++ fill args plain t in
    let reopened = b'%' ∷ (seen ++ fill args percent t) in
    let copied = b'%' ∷ (seen ++ c ∷ fill args plain t) in
    if is_digit c
    then counted
    else if is_format c
    then filled
    else if c == b'%'
    then reopened
    else copied

unfoldable pub make_query : Bytes → List Value → Bytes
make_query template args = fill args plain template

-- Text with no percent sign is copied.
make_query-plain :
    (t u : Bytes) (args : List Value)
    → All (λ c. c ≢ b'%') t
    → make_query (t ++ u) args ≡ t ++ make_query u args
unfolding make_query fill
make_query-plain [] u args h = refl
make_query-plain (c ∷ t) u args (p, h) = rw (==_ne c b'%' p, make_query-plain t u args h)

-- In a template, text with no percent sign is copied, and `%1u` behind it becomes the IRI of the
-- first argument, a URL; what stands behind is filled in the same way.
pub make_query-url :
    (t v u : Bytes) (args : List Value)
    → All (λ c. c ≢ b'%') t
    → make_query (t ++ codes "%1u" ++ v) (url u ∷ args)
      ≡ t ++ iri_literal u ++ make_query v (url u ∷ args)
make_query-url t v u args h =
    rw (append_assoc, append_assoc)
      (rw (make_query-plain t (codes "%1u" ++ v) (url u ∷ args) h)
        (unfold make_query fill replace_match argument replacement show_v in refl))
