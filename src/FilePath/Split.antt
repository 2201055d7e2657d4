-- ===== src/FilePath/Split.antt =====
-- What `Clean` leaves of any rooted path, and `Split` at slashes.
use smart_web.Base.{
  true, ◌||◌, List, [], ◌∷◌, ◌++◌, append_assoc, append-nil, map, ◌≡◌, ◌≢◌, inl, inr, refl, ◌∙◌,
  Bytes, codes, equal, equal_iff, is_empty, equal_ne, ==_ne, ==_iff, ◌==◌, All, All-snoc,
  Bool-cases, join_texts,
}
use smart_web.FilePath.{pop, push, walk, dir_path, split_at, split}
use smart_web.FilePath.Names.{IsName}

pop-IsName : (es : List Bytes) → All IsName es → All IsName (pop true es)
unfolding pop IsName
pop-IsName [] h = tt
pop-IsName (e ∷ es) (h, hs) = rw (equal_ne e (codes "..") h.3) hs

push-IsName :
    (es : List Bytes) (e : Bytes)
    → All IsName es
    → All (λ c. c ≢ b'/') e
    → All IsName (push true es e)
unfolding push IsName
push-IsName es e h k = elim (Bool-cases (is_empty e || equal e (codes "."))) [
  | inl skip ↦ rw skip h
  | inr keep ↦ rw keep (elim (Bool-cases (equal e (codes ".."))) [
    | inl up ↦ rw up (pop-IsName es h)
    | inr name ↦ rw name (
      (
        (λ n. cc),
        k,
        (λ n. cc (keep, (equal_iff e (codes ".")).1 n)),
        (λ n. cc (name, (equal_iff e (codes "..")).1 n)),
      ),
      h,
    )
  ])
]

-- No element of a cleaned rooted path is empty, `.` or `..`, whatever the path.
pub walk-IsName :
    (s current : Bytes) (es : List Bytes)
    → All IsName es
    → All (λ c. c ≢ b'/') current
    → All IsName (walk true current es s)
unfolding walk
walk-IsName [] current es h k = push-IsName es current h k
walk-IsName (c ∷ s) current es h k = elim (Bool-cases (c == b'/')) [
  | inl slash ↦ rw slash (walk-IsName s [] (push true es current) (push-IsName es current h k) tt)
  | inr other ↦ rw other (
      walk-IsName s (current ++ c ∷ []) es h
        (All-snoc (λ d. d ≢ b'/') current c k (λ e. cc (other, (==_iff c b'/').1 e))))
]

split_at-name :
    (n current s : Bytes)
    → All (λ c. c ≢ b'/') n
    → split_at current (n ++ b'/' ∷ s) ≡ (current ++ n) ∷ split_at [] s
unfolding split_at
split_at-name [] current s _ = rw append-nil refl
split_at-name (c ∷ n) current s (h, hs) =
    rw (==_ne c b'/' h) (split_at-name n (current ++ c ∷ []) s hs ∙ rw append_assoc refl)

pub split_at-last :
    (n current : Bytes) → All (λ c. c ≢ b'/') n → split_at current n ≡ (current ++ n) ∷ []
unfolding split_at
split_at-last [] current _ = rw append-nil refl
split_at-last (c ∷ n) current (h, hs) =
    rw (==_ne c b'/' h) (split_at-last n (current ++ c ∷ []) hs ∙ rw append_assoc refl)

split_at-cons :
    (s current : Bytes) → (e : Bytes) × (es : List Bytes) × (split_at current s ≡ e ∷ es)
unfolding split_at
split_at-cons [] current = (current, [], refl)
split_at-cons (c ∷ s) current = elim (Bool-cases (c == b'/')) [
  | inl slash ↦ (current, split_at [] s, rw slash refl)
  | inr other ↦ let (e, es, same) = split_at-cons s (current ++ c ∷ []) in (e, es, rw other same)
]

join_texts-cons :
    (sep e : Bytes) (s : Bytes)
    → join_texts sep (e ∷ split_at [] s) ≡ e ++ sep ++ join_texts sep (split_at [] s)
unfolding join_texts
join_texts-cons sep e s = let (f, fs, same) = split_at-cons s [] in rw same refl

-- The elements of a relative path, joined by a suffix and a slash.
pub join_texts-split :
    (suffix : Bytes) (es : List Bytes) (s : Bytes)
    → All IsName es
    → join_texts (suffix ++ b'/' ∷ []) (split (dir_path [] es ++ s))
      ≡ dir_path [] (map (λ e. e ++ suffix) es) ++ join_texts (suffix ++ b'/' ∷ []) (split s)
unfolding dir_path split
join_texts-split suffix [] s _ = refl
join_texts-split suffix (e ∷ es) s (h, hs) =
    rw (append_assoc, append_assoc)
      (join_texts-split suffix es (e ++ b'/' ∷ s) hs
        ∙ rw
            (split_at-name e [] s (unfold IsName in h.1), join_texts-cons (suffix ++ b'/' ∷ []) e s)
            (simp append_assoc))
