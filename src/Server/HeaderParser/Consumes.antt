-- ===== src/Server/HeaderParser/Consumes.antt =====
-- Rules that take a piece of the buffer, and what Execute makes of the tokens that they add.
use smart_web.Base.{
  ◌^◌, ◌<◌, ◌&&◌, leb, true, ℕ, ◌+◌, ◌-◌, none, some, List, [], ◌∷◌, ◌++◌, append_assoc, append-nil,
  ◌≡◌, refl, sym, ap, ◌∙◌, arith, Bytes, length, length-append, take, drop, Option-cases, inl, inr,
}
use smart_web.Server.Authenticator.{AuthMethod}
use smart_web.Server.HeaderParser.{Token, peg_text, Rule, seq, text, add, choice}
use smart_web.Server.HeaderParser.Execute.{Parser, stored, cut, matched, act, execute}
use smart_web.Server.HeaderParser.Words.{
  at, IsSilent, Refuses, choice-first, choice-second, seq-step, text-step, noted-step,
}

-- the parser without the positions
pub record Kept : Type 0 where
  pub methods : List AuthMethod
  pub param_name : Bytes
  pub last_value : Bytes

abbrev pub kept : Parser → Kept
kept p = record { methods = p.methods; param_name = p.param_name; last_value = p.last_value }

drop-append : (pre s : List ℕ) → drop (length pre) (pre ++ s) ≡ s
drop-append [] s = refl
drop-append (c ∷ pre) s = drop-append pre s

take-append : (w s : List ℕ) → take (length w) (w ++ s) ≡ w
take-append [] s = refl
take-append (c ∷ w) s = ap (λ x. c ∷ x) (take-append w s)

stored-small : (n : ℕ) → n < 2 ^ 15 → stored n ≡ some n
stored-small n h = unfold stored in ground (arith, h)

-- the text between the positions of a piece of the buffer
matched-piece :
    (b pre w tail : List ℕ) (p : Parser)
    → length b < 2 ^ 15
    → b ≡ pre ++ (w ++ tail)
    → p.begin ≡ length pre
    → p.end ≡ length pre + length w
    → matched b p ≡ some w
unfolding matched cut
matched-piece b pre w tail p fits e i j =
    let long : length b ≡ length pre + (length w + length tail) =
      ap length e
      ∙ length-append {0} pre (w ++ tail)
      ∙ ap (λ n. length pre + n) (length-append {0} w tail) in
    let before = stored-small p.begin (omega (arith, i, long, fits)) in
    let behind = stored-small p.end (omega (arith, j, long, fits)) in
    let inside : (leb p.begin p.end && leb p.end (length b)) ≡ true = ground (arith, i, j, long) in
    let size : p.end - p.begin ≡ length w = omega (arith, i, j) in
    rw (before, behind, inside, size, i, e, drop-append pre (w ++ tail))
      (ap some (take-append w tail))

module _ (b : Bytes) (fits : length b < 2 ^ 15) where
  -- Before `rest` the rule takes `w`, and its tokens take the parser from `v` to `v'`.
  pub record Result (f : Rule) (pre w rest : List ℕ) (ts : List Token) (p : Parser) (v' : Kept)
      : Type 0 where
    pub tokens : List Token
    pub left : Parser
    pub takes :
        f (at (length pre) (w ++ rest) ts) ≡ some (at (length (pre ++ w)) rest (ts ++ tokens))
    pub executes : execute b tokens p ≡ some left
    pub keeps : kept left ≡ v'

  abbrev pub Consumes : Rule → List ℕ → List ℕ → Kept → Kept → Type 0
  Consumes f w rest v v' =
      (pre tail : List ℕ) (ts : List Token) (p : Parser)
      → b ≡ pre ++ (w ++ tail)
      → kept p ≡ v
      → Result f pre w rest ts p v'

  execute-step :
      (t : Token) (ts : List Token) (p r : Parser)
      → act b t p ≡ some r
      → execute b (t ∷ ts) p ≡ execute b ts r
  unfolding execute
  execute-step t ts p r h = rw (h, execute) refl

  execute-stop :
      (t : Token) (ts : List Token) (p : Parser) → act b t p ≡ none → execute b (t ∷ ts) p ≡ none
  unfolding execute
  execute-stop t ts p h = rw (h, execute) refl

  pub execute-append :
      (ts us : List Token) (p q : Parser)
      → execute b ts p ≡ some q
      → execute b (ts ++ us) p ≡ execute b us q
  unfolding execute
  execute-append [] us p q h = let same : p ≡ q = cc in rw same refl
  execute-append (t ∷ ts) us p q h = elim (Option-cases (act b t p)) [
    | inl bad ↦ cc (h, execute-stop t ts p bad)
    | inr (r, good) ↦
        execute-step t (ts ++ us) p r good
        ∙ execute-append ts us r q (sym (execute-step t ts p r good) ∙ h)
        ∙ refl
  ]

  pub silent-Consumes :
      (f : Rule) (w rest : List ℕ) (v : Kept) → IsSilent f w rest → Consumes f w rest v v
  silent-Consumes f w rest v h pre tail ts p e k = record {
    tokens = [];
    left = p;
    takes = h (length pre) ts ∙ rw (append-nil, length-append {0} pre w) refl;
    executes = unfold execute in refl;
    keeps = k;
  }

  pub seq-Consumes :
      (f : Rule) (fs : List Rule) (w x rest : List ℕ) (v v' v'' : Kept)
      → Consumes f w (x ++ rest) v v'
      → Consumes (seq fs) x rest v' v''
      → Consumes (seq (f ∷ fs)) (w ++ x) rest v v''
  seq-Consumes f fs w x rest v v' v'' h k pre tail ts p e i =
      let first = h pre (x ++ tail) ts p (e ∙ ap (λ y. pre ++ y) (append_assoc w x tail)) i in
      let second =
        k (pre ++ w) tail (ts ++ first.tokens) first.left (e ∙ simp append_assoc) first.keeps in
      record {
        tokens = first.tokens ++ second.tokens;
        left = second.left;
        takes =
            rw (append_assoc w x rest)
              (seq-step f fs _ _ first.takes ∙ second.takes ∙ simp append_assoc);
        executes =
            execute-append first.tokens second.tokens p first.left first.executes ∙ second.executes;
        keeps = second.keeps;
      }

  pub last-Consumes :
      (f : Rule) (w rest : List ℕ) (v v' : Kept)
      → Consumes f w rest v v'
      → Consumes (seq (f ∷ [])) w rest v v'
  last-Consumes f w rest v v' h pre tail ts p e i =
      let first = h pre tail ts p e i in
      record {
        tokens = first.tokens;
        left = first.left;
        takes = seq-step f [] _ _ first.takes ∙ (unfold seq in refl);
        executes = first.executes;
        keeps = first.keeps;
      }

  -- What an action does with the text that has been noted down.
  abbrev pub Acts : Token → List ℕ → Kept → Kept → Type 0
  Acts a w v v' =
      (p : Parser)
      → matched b p ≡ some w
      → kept p ≡ v
      → (q : Parser) × (act b a p ≡ some q) × (kept q ≡ v')

  pub noted-Consumes :
      (f : Rule) (a : Token) (w rest : List ℕ) (v v' : Kept)
      → IsSilent f w rest
      → Acts a w v v'
      → Consumes (seq (text f ∷ add a ∷ [])) w rest v v'
  noted-Consumes f a w rest v v' h acts pre tail ts p e i =
      let end = length pre + length w in
      let noted = record p { begin = length pre; end = end } in
      let (q, done, keeps) = acts noted (matched-piece b pre w tail noted fits e refl refl) i in
      record {
        tokens = peg_text (length pre) end ∷ a ∷ [];
        left = q;
        takes =
            noted-step f a _ _ (h (length pre) ts)
            ∙ rw (append_assoc, length-append {0} pre w) refl;
        executes =
            execute-step (peg_text (length pre) end) (a ∷ []) p noted (unfold act in refl)
            ∙ execute-step a [] noted q done
            ∙ (unfold execute in refl);
        keeps = keeps;
      }

  -- a text around a piece
  pub text-Consumes :
      (f : Rule) (w rest : List ℕ) (v v' : Kept)
      → Consumes f w rest v v'
      → Consumes (text f) w rest v v'
  unfolding add
  text-Consumes f w rest v v' h pre tail ts p e i =
      let inner = h pre tail ts p e i in
      let mark = peg_text (length pre) (length (pre ++ w)) in
      record {
        tokens = inner.tokens ++ mark ∷ [];
        left = record inner.left { begin = length pre; end = length (pre ++ w) };
        takes =
            text-step f _ _ inner.takes
            ∙ ap (λ x. some (at (length (pre ++ w)) rest x))
                (append_assoc ts inner.tokens (mark ∷ []));
        executes =
            execute-append inner.tokens (mark ∷ []) p inner.left inner.executes
            ∙ (unfold execute act in refl);
        keeps = inner.keeps;
      }

  pub add-Consumes :
      (a : Token) (rest : List ℕ) (v v' : Kept)
      → ((p : Parser) → kept p ≡ v → (q : Parser) × (act b a p ≡ some q) × (kept q ≡ v'))
      → Consumes (add a) [] rest v v'
  unfolding add
  add-Consumes a rest v v' acts pre tail ts p e i =
      let (q, done, keeps) = acts p i in
      record {
        tokens = a ∷ [];
        left = q;
        takes = rw append-nil refl;
        executes = execute-step a [] p q done ∙ (unfold execute in refl);
        keeps = keeps;
      }

  pub choice-first-Consumes :
      (f g : Rule) (w rest : List ℕ) (v v' : Kept)
      → Consumes f w rest v v'
      → Consumes (choice f g) w rest v v'
  choice-first-Consumes f g w rest v v' h pre tail ts p e i =
      let first = h pre tail ts p e i in
      record {
        tokens = first.tokens;
        left = first.left;
        takes = choice-first f g _ _ first.takes;
        executes = first.executes;
        keeps = first.keeps;
      }

  pub choice-second-Consumes :
      (f g : Rule) (w rest : List ℕ) (v v' : Kept)
      → Refuses f (w ++ rest)
      → Consumes g w rest v v'
      → Consumes (choice f g) w rest v v'
  choice-second-Consumes f g w rest v v' out h pre tail ts p e i =
      let second = h pre tail ts p e i in
      record {
        tokens = second.tokens;
        left = second.left;
        takes = choice-second f g _ (out (length pre) ts) ∙ second.takes;
        executes = second.executes;
        keeps = second.keeps;
      }
