-- ===== src/Server/HeaderParser/Tests.antt =====
-- Headers as they are parsed, and the theorems at them.
use smart_web.Base.{◌≡◌, refl, none, some, codes, [], ◌∷◌, false, true, arith, All, contains}
use smart_web.Server.HeaderParser.{is_token}
use smart_web.Server.HeaderParser.Execute.{methods_of}
use smart_web.Server.HeaderParser.Panics.{methods_of-word}
use smart_web.Server.HeaderParser.Fields.{Field, IsField}
use smart_web.Server.HeaderParser.RoundTrip.{method_of, methods_of-scheme_text}

methods_of-word_example : methods_of (codes "abc") ≡ none
methods_of-word_example = methods_of-word 0x61 (codes "bc") (refl, (refl, (refl, tt)))

abbrev user : Field
user = record { comma = false; first = b'u'; more = []; value = codes "a\"b" }

abbrev realm : Field
realm = record { comma = true; first = b'r'; more = codes "m"; value = [] }

digest-All : All (λ c. is_token c ≡ true) (codes "Digest")
unfolding is_token contains
digest-All = (refl, (refl, (refl, (refl, (refl, (refl, tt))))))

fields-All : All IsField (user ∷ realm ∷ [])
unfolding is_token contains
fields-All = (
  ((refl, tt), ((omega arith, refl), ((omega arith, refl), ((omega arith, refl), tt)))),
  (((refl, (refl, tt)), tt), tt),
)

methods_of-scheme_text_example :
    methods_of (codes "Digest u=\"a\\\"b\", rm=\"\"")
    ≡ some (method_of (codes "Digest") (user ∷ realm ∷ []) ∷ [])
methods_of-scheme_text_example =
    methods_of-scheme_text b'D' (codes "igest") user (realm ∷ []) digest-All fields-All
      (omega arith)
