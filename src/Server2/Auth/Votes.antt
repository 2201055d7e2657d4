-- ===== src/Server2/Auth/Votes.antt =====
-- server2/auth.go: the decision of `checkAuth`, as a rule on the votes of the first page.
use smart_web.Base.{
  is_empty_ne, true, false, not, List, [], ◌∷◌, ◌≡◌, ◌≢◌, ◌↔◌, ◌⊎◌, inl, inr, refl, sym, ap, ◌∙◌,
  Bytes, equal, equal_iff, is_empty, if◌then◌else◌, All, arith, Bool-cases,
}
use smart_web.Server2.Auth.{
  Binding, Ballot, new_ballot, merge, vote, count_votes, is_allowed, sw_default, sw_allow,
}

-- the bindings in front that are of the page
pub of_page : Bytes → List Binding → List Binding
of_page p [] = []
of_page p (b ∷ bs) = let rest = of_page p bs in if equal p b.page then b ∷ rest else []

-- the bindings of the first page, up to the first of another
unfoldable pub first_page_votes : List Binding → List Binding
first_page_votes [] = []
first_page_votes (b ∷ bs) = b ∷ of_page b.page bs

-- what is said of the method itself
unfoldable pub actions : List Binding → List Bytes
actions [] = []
actions (b ∷ bs) = let rest = actions bs in if equal b.act sw_default then rest else b.auth ∷ rest

-- what is said of every method
unfoldable pub defaults : List Binding → List Bytes
defaults [] = []
defaults (b ∷ bs) = let rest = defaults bs in if equal b.act sw_default then b.auth ∷ rest else rest

abbrev pub IsUnanimous : List Bytes → Type 0
IsUnanimous xs = (xs ≢ []) × All (λ a. a ≡ sw_allow) xs

merge_all : Bytes → List Bytes → Bytes
merge_all old [] = old
merge_all old (a ∷ xs) = merge_all (merge old a) xs

-- all the bindings, with no test for the page
tally : List Binding → Ballot → Ballot
tally [] v = v
tally (b ∷ bs) v = tally bs (vote b v)

vote-first_page : (b : Binding) (v : Ballot) → (vote b v).first_page ≡ b.page
unfolding vote
vote-first_page b v = ground arith

count_votes-of_page :
    (bs : List Binding) (v : Ballot)
    → v.first_page ≢ []
    → All (λ b. b.page ≢ []) bs
    → count_votes bs v ≡ tally (of_page v.first_page bs) v
unfolding count_votes of_page tally vote
count_votes-of_page [] v h _ = refl
count_votes-of_page (b ∷ bs) v h (p, ps) = elim (Bool-cases (equal v.first_page b.page)) [
  | inl same ↦
      rw (is_empty_ne v.first_page h, same)
        (count_votes-of_page bs (vote b v) (rw (vote-first_page b v) p) ps
          ∙ rw (vote-first_page b v, sym ((equal_iff v.first_page b.page).0 same)) refl)
  | inr other ↦ rw (is_empty_ne v.first_page h, other) refl
]

vote-default :
    (b : Binding) (v : Ballot)
    → equal b.act sw_default ≡ true
    → vote b v ≡ record v { first_page = b.page; default_auth = merge v.default_auth b.auth }
unfolding vote
vote-default b v d = rw d refl

vote-action :
    (b : Binding) (v : Ballot)
    → equal b.act sw_default ≡ false
    → vote b v ≡ record v { first_page = b.page; action_auth = merge v.action_auth b.auth }
unfolding vote
vote-action b v d = rw d refl

tally-splits :
    (bs : List Binding) (v : Ballot)
    → ((tally bs v).action_auth ≡ merge_all v.action_auth (actions bs))
      × ((tally bs v).default_auth ≡ merge_all v.default_auth (defaults bs))
unfolding tally actions defaults merge_all
tally-splits [] v = (refl, refl)
tally-splits (b ∷ bs) v = elim (Bool-cases (equal b.act sw_default)) [
  | inl d ↦
      rw (tally, vote-default b v d, d)
        (tally-splits bs
          (record v { first_page = b.page; default_auth = merge v.default_auth b.auth }))
  | inr d ↦
      rw (tally, vote-action b v d, d)
        (tally-splits bs
          (record v { first_page = b.page; action_auth = merge v.action_auth b.auth }))
]

merge_iff :
    (old a : Bytes) → old ≢ [] → (merge old a ≡ sw_allow) ↔ ((old ≡ sw_allow) × (a ≡ sw_allow))
unfolding merge
merge_iff old a h = ground (arith, equal_iff old a)

merge-ne : (old a : Bytes) → a ≢ [] → merge old a ≢ []
unfolding merge
merge-ne old a h = ground (arith, equal_iff old a)

merge_all_iff :
    (old : Bytes) (xs : List Bytes)
    → old ≢ []
    → All (λ a. a ≢ []) xs
    → (merge_all old xs ≡ sw_allow) ↔ ((old ≡ sw_allow) × All (λ a. a ≡ sw_allow) xs)
unfolding merge_all
merge_all_iff old [] h _ = (λ e. (e, tt), λ e. e.0)
merge_all_iff old (a ∷ xs) h (p, ps) =
    let rest = merge_all_iff (merge old a) xs (merge-ne old a p) ps in
    let here = merge_iff old a h in
    (
      λ e. ((here.0 (rest.0 e).0).0, ((here.0 (rest.0 e).0).1, (rest.0 e).1)),
      λ e. rest.1 (here.1 (e.0, e.1.0), e.1.1),
    )

merge_all-IsUnanimous :
    (xs : List Bytes) → All (λ a. a ≢ []) xs → (merge_all [] xs ≡ sw_allow) ↔ IsUnanimous xs
unfolding merge_all merge
merge_all-IsUnanimous [] h = (λ e. cc, λ e. absurd (e.0 refl))
merge_all-IsUnanimous (a ∷ xs) (p, ps) =
    let rest = merge_all_iff a xs p ps in (λ e. (λ n. cc, rest.0 e), λ e. rest.1 e.1)

merge_all-ne :
    (old : Bytes) (xs : List Bytes) → old ≢ [] → All (λ a. a ≢ []) xs → merge_all old xs ≢ []
unfolding merge_all
merge_all-ne old [] h _ = h
merge_all-ne old (a ∷ xs) h (p, ps) = merge_all-ne (merge old a) xs (merge-ne old a p) ps

actions-All : (bs : List Binding) → All (λ b. b.auth ≢ []) bs → All (λ a. a ≢ []) (actions bs)
unfolding actions
actions-All [] h = tt
actions-All (b ∷ bs) (p, ps) = elim (Bool-cases (equal b.act sw_default)) [
  | inl d ↦ rw d (actions-All bs ps)
  | inr d ↦ rw d (p, actions-All bs ps)
]

defaults-All : (bs : List Binding) → All (λ b. b.auth ≢ []) bs → All (λ a. a ≢ []) (defaults bs)
unfolding defaults
defaults-All [] h = tt
defaults-All (b ∷ bs) (p, ps) = elim (Bool-cases (equal b.act sw_default)) [
  | inl d ↦ rw d (p, defaults-All bs ps)
  | inr d ↦ rw d (defaults-All bs ps)
]

of_page-All :
    (P : Binding → Type 0) (p : Bytes) (bs : List Binding) → All P bs → All P (of_page p bs)
unfolding of_page
of_page-All P p [] h = tt
of_page-All P p (b ∷ bs) (h, hs) = elim (Bool-cases (equal p b.page)) [
  | inl e ↦ rw e (h, of_page-All P p bs hs)
  | inr e ↦ rw e tt
]

count_votes-first_page :
    (bs : List Binding)
    → All (λ b. b.page ≢ []) bs
    → count_votes bs new_ballot ≡ tally (first_page_votes bs) new_ballot
unfolding count_votes first_page_votes tally
count_votes-first_page [] _ = refl
count_votes-first_page (b ∷ bs) (p, ps) =
    count_votes-of_page bs (vote b new_ballot) (rw (vote-first_page b new_ballot) p) ps
    ∙ ap (λ q. tally (of_page q bs) (vote b new_ballot)) (vote-first_page b new_ballot)

first_page_votes-All :
    (P : Binding → Type 0) (bs : List Binding) → All P bs → All P (first_page_votes bs)
unfolding first_page_votes
first_page_votes-All P [] h = tt
first_page_votes-All P (b ∷ bs) (h, hs) = (h, of_page-All P b.page bs hs)

decision_iff :
    (xs ys : List Bytes)
    → All (λ a. a ≢ []) xs
    → All (λ a. a ≢ []) ys
    → (equal
          (if not (is_empty (merge_all [] xs)) then merge_all [] xs else merge_all [] ys)
          sw_allow
        ≡ true)
      ↔ (IsUnanimous xs ⊎ ((xs ≡ []) × IsUnanimous ys))
unfolding merge_all
decision_iff [] ys h k =
    let rule = merge_all-IsUnanimous ys k in
    (
      λ e. inr (refl, rule.0 ((equal_iff _ sw_allow).0 e)),
      λ e. elim e [ inl u ↦ absurd (u.0 refl) | inr u ↦ (equal_iff _ sw_allow).1 (rule.1 u.1) ],
    )
decision_iff (a ∷ xs) ys (h, hs) k =
    let rule = merge_all-IsUnanimous (a ∷ xs) (h, hs) in
    rw (is_empty_ne _ (merge_all-ne (merge [] a) xs (merge-ne [] a h) hs)) (
      λ e. inl (rule.0 ((equal_iff _ sw_allow).0 e)),
      λ e. elim e [ inl u ↦ (equal_iff _ sw_allow).1 (rule.1 u) | inr u ↦ cc ],
    )

-- When every binding has a page and an `auth` that are not empty, `checkAuth` allows the request
-- exactly when what the bindings of the first page say of the request's method is not nothing and is
-- `sw:allow` throughout, or they say nothing of the method, and what they say of every method is not
-- nothing and is `sw:allow` throughout.
pub is_allowed_iff :
    (bs : List Binding)
    → All (λ b. b.page ≢ []) bs
    → All (λ b. b.auth ≢ []) bs
    → (is_allowed bs ≡ true) ↔ (
        IsUnanimous (actions (first_page_votes bs))
        ⊎ ((actions (first_page_votes bs) ≡ []) × IsUnanimous (defaults (first_page_votes bs))))
unfolding is_allowed
is_allowed_iff bs h k =
    let votes = first_page_votes-All (λ b. b.auth ≢ []) bs k in
    let sums = tally-splits (first_page_votes bs) new_ballot in
    rw (count_votes-first_page bs h, sums.0, sums.1)
      (decision_iff (actions (first_page_votes bs)) (defaults (first_page_votes bs))
        (actions-All (first_page_votes bs) votes) (defaults-All (first_page_votes bs) votes))
