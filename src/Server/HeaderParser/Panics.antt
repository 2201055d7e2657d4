-- ===== src/Server/HeaderParser/Panics.antt =====
-- An Authorization header that is one word makes getAuthParams panic.
use smart_web.Base.{
  Bytes, ℕ, ◌+◌, true, false, none, some, Option, codes, List, [], ◌∷◌, ◌++◌, ◌≡◌, refl, ap, ◌∙◌,
  All, All-map, length, ◌==◌,
}
use smart_web.Utf8.RoundTrip.{runes-ascii}
use smart_web.Server.HeaderParser.{
  Scan, peg_text, action1, is_alnum, end_symbol, with_end, seq, header, but_not, match_dot, one,
  char_in, start, parse,
}
use smart_web.Server.HeaderParser.Execute.{
  Parser, new_parser, matched, with_text, execute, act, set_param, with_methods, methods_from,
  methods_of,
}
use smart_web.Server.HeaderParser.Words.{at, at_end, seq-step, header-word, is_alnum-ascii}

pub with_end-append :
    (w : List ℕ) → All (λ c. (c == end_symbol) ≡ false) w → with_end w ≡ w ++ at_end
unfolding with_end
with_end-append [] h = refl
with_end-append (c ∷ []) (p, h) = rw p refl
with_end-append (c ∷ d ∷ w) (p, h) = ap (λ x. c ∷ x) (with_end-append (d ∷ w) h)

module _ (c : ℕ) (w : List ℕ) (h : All (λ d. is_alnum d ≡ true) (c ∷ w)) where
  end-reached : (s : Scan) → s.unread ≡ at_end → seq (but_not match_dot ∷ []) s ≡ some s
  unfolding seq but_not match_dot one char_in
  end-reached s e = rw e refl

  parse-word :
      parse (c ∷ w)
      ≡ some (at (0 + length (c ∷ w)) at_end (peg_text 0 (0 + length (c ∷ w)) ∷ action1 ∷ []))
  unfolding parse start
  parse-word =
      let ascii = runes-ascii (c ∷ w) (All-map _ _ (λ d a. (is_alnum-ascii d a).0) (c ∷ w) h) in
      let buffer =
        with_end-append (c ∷ w) (All-map _ _ (λ d a. (is_alnum-ascii d a).1) (c ∷ w) h) in
      rw (ascii, buffer)
        (seq-step header (but_not match_dot ∷ []) _ _ (header-word c w h) ∙ end-reached _ refl)

with_text-none :
    (p : Parser) (text : Option Bytes)
    → with_text text (λ w. with_methods p (set_param (codes "base64") w [])) ≡ none
unfolding with_text with_methods set_param
with_text-none p none = refl
with_text-none p (some w) = refl

-- the last round of `execute`, from what the token comes to
abbrev after_token : Bytes → Option Parser → Option Parser
after_token b r = elim r [ none ↦ none | some q ↦ execute b [] q ]

-- A header of one or more letters and digits and nothing else makes `getAuthParams` panic: the
-- grammar takes it for a parameter, and there is no method to set it in.
pub methods_of-word :
    (c : ℕ) (w : List ℕ) → All (λ d. is_alnum d ≡ true) (c ∷ w) → methods_of (c ∷ w) ≡ none
unfolding methods_of
methods_of-word c w h =
    rw (parse-word c w h) (unfold methods_from in rw (execute-word, methods_from) refl)
  where
    last : Parser
    last = record new_parser { begin = 0; end = 0 + length (c ∷ w) }

    execute-word :
        execute (c ∷ w) (peg_text 0 (0 + length (c ∷ w)) ∷ action1 ∷ []) new_parser ≡ none
    execute-word =
        unfold execute act in ap (after_token (c ∷ w)) (with_text-none last (matched (c ∷ w) last))
