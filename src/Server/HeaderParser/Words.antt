-- ===== src/Server/HeaderParser/Words.antt =====
-- Rules on a run of runes of one set, and a header that is one word.
use mathlib.Core.Path.{subst}
use smart_web.Base.{
  ℕ, zero, suc, ◌+◌, ◌<◌, Bool, true, false, ◌||◌, none, some, List, [], ◌∷◌, ◌++◌, append_assoc,
  append-nil, ◌≡◌, refl, ap, ◌∙◌, arith, All, All-map, length, length-append, contains, ◌==◌,
}
use smart_web.Server.HeaderParser.{
  Token, peg_text, action0, action1, Scan, Rule, char_in, one, char, seq, loop, star, text, add,
  choice, optional, is_alnum, auth_params, params, auth_param, ws_or_comma, auth_scheme,
  auth_singleparam, challenge_cred, header, is_token, is_token68, ws, token, token68, end_symbol,
}

-- the state with `u` unread, at the position `n`
abbrev pub at : ℕ → List ℕ → List Token → Scan
at n u ts = record { position = n; unread = u; tokens = ts }

-- A rule takes `w` before `rest` and adds no token.
abbrev pub IsSilent : Rule → List ℕ → List ℕ → Type 0
IsSilent f w rest =
    (n : ℕ) (ts : List Token) → f (at n (w ++ rest) ts) ≡ some (at (n + length w) rest ts)

-- A rule does not match before `u`.
abbrev pub Refuses : Rule → List ℕ → Type 0
Refuses f u = (n : ℕ) (ts : List Token) → f (at n u ts) ≡ none

-- No rune of a set stands in front.
abbrev pub Stops : (ℕ → Bool) → List ℕ → Type 0
Stops set [] = Unit
Stops set (c ∷ u) = set c ≡ false

pub one-Refuses : (set : ℕ → Bool) (u : List ℕ) → Stops set u → Refuses (one set) u
unfolding one char_in
one-Refuses set [] h n ts = refl
one-Refuses set (c ∷ u) h n ts = rw h refl

pub one-IsSilent :
    (set : ℕ → Bool) (c : ℕ) (rest : List ℕ) → set c ≡ true → IsSilent (one set) (c ∷ []) rest
unfolding one char_in
one-IsSilent set c rest h n ts = rw h (ap (λ k. some (at k rest ts)) (omega arith))

pub loop-IsSilent :
    (set : ℕ → Bool) (w rest : List ℕ) (fuel : ℕ)
    → All (λ c. set c ≡ true) w
    → Stops set rest
    → length w < fuel
    → (n : ℕ) (ts : List Token)
    → loop fuel (one set) (at n (w ++ rest) ts) ≡ at (n + length w) rest ts
unfolding loop
loop-IsSilent set w rest zero h s m n ts = absurd (omega arith)
loop-IsSilent set [] rest (suc fuel) h s m n ts =
    rw (one-Refuses set rest s n ts, loop) (ap (λ k. at k rest ts) (omega arith))
loop-IsSilent set (c ∷ w) rest (suc fuel) (p, h) s m n ts =
    rw (one-IsSilent set c (w ++ rest) p n ts, loop)
      (loop-IsSilent set w rest fuel h s (omega arith) (n + 1) ts
        ∙ ap (λ k. at k rest ts) (omega arith))

pub star-IsSilent :
    (set : ℕ → Bool) (w rest : List ℕ)
    → All (λ c. set c ≡ true) w
    → Stops set rest
    → IsSilent (star (one set)) w rest
unfolding star
star-IsSilent set w rest h s n ts = ap some (
    loop-IsSilent set w rest (suc (length (w ++ rest))) h s
      (omega (arith, length-append {0} w rest)) n ts)

pub seq-IsSilent :
    (f : Rule) (fs : List Rule) (w x rest : List ℕ)
    → IsSilent f w (x ++ rest)
    → IsSilent (seq fs) x rest
    → IsSilent (seq (f ∷ fs)) (w ++ x) rest
unfolding seq
seq-IsSilent f fs w x rest h k n ts =
    rw (append_assoc, h n ts)
      (k (n + length w) ts ∙ ap (λ m. some (at m rest ts)) (omega (arith, length-append {0} w x)))

pub seq-step : (f : Rule) (fs : List Rule) (s t : Scan) → f s ≡ some t → seq (f ∷ fs) s ≡ seq fs t
unfolding seq
seq-step f fs s t h = rw (h, seq) refl

pub seq-none : (f : Rule) (fs : List Rule) (s : Scan) → f s ≡ none → seq (f ∷ fs) s ≡ none
unfolding seq
seq-none f fs s h = rw (h, seq) refl

pub text-step :
    (f : Rule) (s t : Scan) → f s ≡ some t → text f s ≡ add (peg_text s.position t.position) t
unfolding text
text-step f s t h = rw (h, text) refl

pub choice-first : (f g : Rule) (s t : Scan) → f s ≡ some t → choice f g s ≡ some t
unfolding choice
choice-first f g s t h = rw (h, choice) refl

pub choice-second : (f g : Rule) (s : Scan) → f s ≡ none → choice f g s ≡ g s
unfolding choice
choice-second f g s h = rw (h, choice) refl

-- a rule that is matched and then noted down with an action
pub noted-step :
    (f : Rule) (a : Token) (s t : Scan)
    → f s ≡ some t
    → seq (text f ∷ add a ∷ []) s
      ≡ some (at t.position t.unread ((t.tokens ++ peg_text s.position t.position ∷ []) ++ a ∷ []))
unfolding add
noted-step f a s t h =
    let noted = at t.position t.unread (t.tokens ++ peg_text s.position t.position ∷ []) in
    seq-step (text f) (add a ∷ []) s noted (text-step f s t h) ∙ (unfold seq in refl)

pub seq-one : (f : Rule) (w rest : List ℕ) → IsSilent f w rest → IsSilent (seq (f ∷ [])) w rest
unfolding seq
seq-one f w rest h n ts = rw (h n ts, seq) refl

-- A token, of one or more runes, up to a rune that is not in it.
pub token-IsSilent :
    (c : ℕ) (w rest : List ℕ)
    → All (λ d. is_token d ≡ true) (c ∷ w)
    → Stops is_token rest
    → IsSilent token (c ∷ w) rest
unfolding token
token-IsSilent c w rest (p, h) s =
    seq-IsSilent (one is_token) (star (one is_token) ∷ []) (c ∷ []) w rest
      (one-IsSilent is_token c (w ++ rest) p)
      (seq-one (star (one is_token)) w rest (star-IsSilent is_token w rest h s))

-- the end of the buffer
abbrev pub at_end : List ℕ
at_end = end_symbol ∷ []

pub seq-rest :
    (f : Rule) (fs : List Rule) (w rest : List ℕ)
    → IsSilent f w rest
    → IsSilent (seq fs) [] rest
    → IsSilent (seq (f ∷ fs)) w rest
seq-rest f fs w rest h k =
    let whole : IsSilent (seq (f ∷ fs)) (w ++ []) rest = seq-IsSilent f fs w [] rest h k in
    subst (λ x. IsSilent (seq (f ∷ fs)) x rest) (append-nil w) whole

token68-IsSilent :
    (c : ℕ) (w : List ℕ) → All (λ d. is_token68 d ≡ true) (c ∷ w) → IsSilent token68 (c ∷ w) at_end
unfolding token68 char
token68-IsSilent c w (p, h) =
    seq-IsSilent (one is_token68) (star (one is_token68) ∷ star (char b'=') ∷ []) (c ∷ []) w at_end
      (one-IsSilent is_token68 c (w ++ at_end) p)
      (seq-rest (star (one is_token68)) (star (char b'=') ∷ []) w at_end
        (star-IsSilent is_token68 w at_end h (unfold is_token68 contains in refl))
        (seq-one (star (char b'=')) [] at_end (star-IsSilent (λ d. d == b'=') [] at_end tt refl)))

is_alnum-is_token : (c : ℕ) → is_alnum c ≡ true → is_token c ≡ true
unfolding is_token
is_alnum-is_token c h = rw h refl

is_alnum-is_token68 : (c : ℕ) → is_alnum c ≡ true → is_token68 c ≡ true
unfolding is_token68
is_alnum-is_token68 c h = rw h refl

is_alnum-not_ws : (c : ℕ) → is_alnum c ≡ true → (c == b'\t' || c == b' ') ≡ false
is_alnum-not_ws c h = ground arith

pub is_alnum-ascii : (c : ℕ) → is_alnum c ≡ true → (c < 0x80) × ((c == end_symbol) ≡ false)
is_alnum-ascii c h = ground arith

ws-Refuses-end : Refuses ws at_end
unfolding ws
ws-Refuses-end = one-Refuses _ at_end refl

auth_params-Refuses-end : Refuses auth_params at_end
unfolding auth_params params auth_param ws_or_comma seq choice ws star loop one char_in char
auth_params-Refuses-end n ts = refl

module _ (c : ℕ) (w : List ℕ) (h : All (λ d. is_alnum d ≡ true) (c ∷ w)) where
  scheme_refused :
      (n : ℕ) (ts : List Token)
      → seq (auth_scheme ∷ auth_params ∷ []) (at n ((c ∷ w) ++ at_end) ts) ≡ none
  unfolding auth_scheme
  scheme_refused n ts =
      let taken =
        token-IsSilent c w at_end (All-map _ _ is_alnum-is_token (c ∷ w) h)
          (unfold is_token contains in refl) n ts in
      seq-step auth_scheme (auth_params ∷ []) _ _ (noted-step token action0 _ _ taken)
      ∙ seq-none auth_params [] _ (auth_params-Refuses-end (n + length (c ∷ w)) _)

  challenge_cred-word :
      (n : ℕ) (ts : List Token)
      → challenge_cred (at n ((c ∷ w) ++ at_end) ts)
        ≡ some (
            at
              (n + length (c ∷ w))
              at_end
              ((ts ++ peg_text n (n + length (c ∷ w)) ∷ []) ++ action1 ∷ []))
  unfolding challenge_cred auth_singleparam
  challenge_cred-word n ts =
      choice-second (seq (auth_scheme ∷ auth_params ∷ [])) auth_singleparam _ (scheme_refused n ts)
      ∙ noted-step token68 action1 _ _
          (token68-IsSilent c w (All-map _ _ is_alnum-is_token68 (c ∷ w) h) n ts)

  first-Stops : Stops (λ d. d == b'\t' || d == b' ') ((c ∷ w) ++ at_end)
  first-Stops = is_alnum-not_ws c h.0

  -- the rest of the header, at its end
  rest-ends :
      (n : ℕ) (ts : List Token)
      → seq
          (optional (seq (star ws ∷ char b',' ∷ star ws ∷ challenge_cred ∷ [])) ∷ star ws ∷ [])
          (at n at_end ts)
        ≡ some (at n at_end ts)
  unfolding seq optional choice star ws loop one char_in char
  rest-ends n ts = refl

  pub header-word :
      header (at 0 ((c ∷ w) ++ at_end) [])
      ≡ some (at (0 + length (c ∷ w)) at_end (peg_text 0 (0 + length (c ∷ w)) ∷ action1 ∷ []))
  unfolding header ws
  header-word =
      seq-step (star ws) _ _ _ (star-IsSilent _ [] ((c ∷ w) ++ at_end) tt first-Stops 0 [])
      ∙ seq-step challenge_cred _ _ _ (challenge_cred-word 0 [])
      ∙ rest-ends (0 + length (c ∷ w)) _
