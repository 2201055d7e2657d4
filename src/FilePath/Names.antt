-- ===== src/FilePath/Names.antt =====
-- Paths of plain names, and what `Clean` and `Dir` make of them.
use smart_web.Base.{
  append_cons_ne, is_empty_ne, equal_ne, ℕ, ◌≤◌, ◌<◌, Bool, true, false, List, [], ◌∷◌, ◌++◌,
  append_assoc, append-nil, length, length-append, ◌≡◌, ◌≢◌, ◌⊎◌, inl, inr, refl, ap, ◌∙◌, Bytes,
  codes, equal, has_prefix, ==_ne, All, arith,
}
use smart_web.FilePath.{up_to_slash, push, walk, dir_path, join, clean, dir}

-- A name: not empty, with no slash, and neither `.` nor `..`.
unfoldable pub IsName : Bytes → Type 0
IsName n = (n ≢ []) × All (λ c. c ≢ b'/') n × (n ≢ codes ".") × (n ≢ codes "..")

pub push-name : (rooted : Bool) (es : List Bytes) (n : Bytes) → IsName n → push rooted es n ≡ n ∷ es
unfolding push IsName
push-name rooted es n (a, b, c, d) = rw (is_empty_ne n a, equal_ne n _ c, equal_ne n _ d) refl

walk-name :
    (rooted : Bool) (n current : Bytes) (es : List Bytes) (s : Bytes)
    → All (λ c. c ≢ b'/') n
    → walk rooted current es (n ++ b'/' ∷ s) ≡ walk rooted [] (push rooted es (current ++ n)) s
unfolding walk
walk-name rooted [] current es s _ = rw append-nil refl
walk-name rooted (c ∷ n) current es s (h, hs) =
    rw (==_ne c b'/' h) (walk-name rooted n (current ++ c ∷ []) es s hs ∙ rw append_assoc refl)

pub walk-last :
    (rooted : Bool) (n current : Bytes) (es : List Bytes)
    → All (λ c. c ≢ b'/') n
    → walk rooted current es n ≡ push rooted es (current ++ n)
unfolding walk
walk-last rooted [] current es _ = rw append-nil refl
walk-last rooted (c ∷ n) current es (h, hs) =
    rw (==_ne c b'/' h) (walk-last rooted n (current ++ c ∷ []) es hs ∙ rw append_assoc refl)

-- the names of a relative path come in front of those that are there
pub walk-relative :
    (rooted : Bool) (es ns : List Bytes) (s : Bytes)
    → All IsName es
    → walk rooted [] ns (dir_path [] es ++ s) ≡ walk rooted [] (es ++ ns) s
unfolding dir_path
walk-relative rooted [] ns s _ = refl
walk-relative rooted (e ∷ es) ns s (h, hs) =
    rw (append_assoc, append_assoc)
      (walk-relative rooted es ns (e ++ b'/' ∷ s) hs
        ∙ walk-name rooted e [] (es ++ ns) s (unfold IsName in h.1)
        ∙ rw (push-name rooted (es ++ ns) e h) refl)

-- what a path starts with
abbrev pub start : Bool → Bytes
start true = codes "/"
start false = []

pub dir_path-start : (c : Bytes) (es : List Bytes) → dir_path c es ≡ c ++ dir_path [] es
unfolding dir_path
dir_path-start c [] = rw append-nil refl
dir_path-start c (e ∷ es) = rw (dir_path-start c es) (simp append_assoc)

pub dir_path-append :
    (c : Bytes) (es ns : List Bytes) → dir_path c (es ++ ns) ≡ dir_path c ns ++ dir_path [] es
unfolding dir_path
dir_path-append c [] ns = rw append-nil refl
dir_path-append c (e ∷ es) ns = rw (dir_path-append c es ns) (simp append_assoc)

pub walk-slash :
    (rooted : Bool) (ns : List Bytes) (s : Bytes)
    → walk rooted [] ns (b'/' ∷ s) ≡ walk rooted [] ns s
unfolding walk push
walk-slash rooted ns s = refl

pub walk-dir_path :
    (rooted : Bool) (ns : List Bytes) (s : Bytes)
    → All IsName ns
    → walk rooted [] [] (dir_path (start rooted) ns ++ s) ≡ walk rooted [] ns s
walk-dir_path false ns s h = walk-relative false ns [] s h ∙ rw append-nil refl
walk-dir_path true ns s h =
    rw (dir_path-start (codes "/") ns)
      (walk-slash true [] (dir_path [] ns ++ s) ∙ walk-relative true ns [] s h ∙ rw append-nil refl)

pub dir_path-cons : (ns : List Bytes) → (t : Bytes) × (dir_path (codes "/") ns ≡ b'/' ∷ t)
unfolding dir_path
dir_path-cons [] = ([], refl)
dir_path-cons (n ∷ ns) =
    let front = dir_path-cons ns in (front.0 ++ n ++ b'/' ∷ [], rw (front.1, append_assoc) refl)

-- A directory of names, which has one at least if its path is relative.
unfoldable pub IsPlain : Bool → List Bytes → Type 0
IsPlain rooted ns = All IsName ns × ((rooted ≡ true) ⊎ (ns ≢ []))

first_of_relative :
    (ns : List Bytes)
    → All IsName ns
    → ns ≢ []
    → (c : ℕ) × (t : Bytes) × (c ≢ b'/') × (dir_path [] ns ≡ c ∷ t)
unfolding dir_path IsName
first_of_relative [] h ne = absurd (ne refl)
first_of_relative ([] ∷ ns) h ne = absurd (h.0.0 refl)
first_of_relative ((c ∷ n) ∷ []) h ne = (c, n ++ b'/' ∷ [], h.0.1.0, refl)
first_of_relative ((c ∷ n) ∷ m ∷ ns) (h, hs) ne =
    let (d, t, p, e) = first_of_relative (m ∷ ns) hs (λ x. cc) in
    (d, t ++ (c ∷ n) ++ b'/' ∷ [], p, rw (e, append_assoc) refl)

has_prefix-plain :
    (rooted : Bool) (ns : List Bytes) (s : Bytes)
    → IsPlain rooted ns
    → has_prefix (dir_path (start rooted) ns ++ s) (codes "/") ≡ rooted
unfolding IsPlain has_prefix
has_prefix-plain true ns s h = rw (dir_path-start (codes "/") ns) refl
has_prefix-plain false ns s (h, inl e) = cc
has_prefix-plain false ns s (h, inr ne) =
    let (c, t, p, e) = first_of_relative ns h ne in rw (e, ==_ne c b'/' p) refl

-- `Clean` of a path that goes on from a directory of names.
pub clean-plain :
    (rooted : Bool) (ns : List Bytes) (s : Bytes)
    → IsPlain rooted ns
    → clean (dir_path (start rooted) ns ++ s) ≡ join rooted (walk rooted [] ns s)
unfolding clean
clean-plain rooted ns s h =
    rw (has_prefix-plain rooted ns s h)
      (ap (join rooted) (walk-dir_path rooted ns s ((unfold IsPlain in h.0))))

clean-dir_path : (ns : List Bytes) → All IsName ns → clean (dir_path (codes "/") ns) ≡ join true ns
clean-dir_path ns h =
    let end : clean (dir_path (codes "/") ns ++ []) ≡ join true ns =
      clean-plain true ns [] (unfold IsPlain in (h, inl refl)) ∙ (unfold walk push in refl) in
    rw append-nil at end

up_to_slash-none : (n : Bytes) → All (λ c. c ≢ b'/') n → up_to_slash n ≡ []
unfolding up_to_slash
up_to_slash-none [] _ = refl
up_to_slash-none (c ∷ n) (h, hs) = rw (up_to_slash-none n hs, ==_ne c b'/' h) refl

up_to_slash-append :
    (x n : Bytes) → All (λ c. c ≢ b'/') n → up_to_slash (x ++ b'/' ∷ n) ≡ x ++ b'/' ∷ []
unfolding up_to_slash
up_to_slash-append [] n h = rw (up_to_slash-none n h) refl
up_to_slash-append (c ∷ x) n h =
    rw (up_to_slash-append x n h, is_empty_ne _ (append_cons_ne x [] b'/')) refl

dir_path-last : (ns : List Bytes) → (x : Bytes) × (dir_path (codes "/") ns ≡ x ++ b'/' ∷ [])
unfolding dir_path
dir_path-last [] = ([], refl)
dir_path-last (n ∷ ns) = (dir_path (codes "/") ns ++ n, refl)

pub dir-file :
    (ns : List Bytes) (n : Bytes)
    → All IsName ns
    → All (λ c. c ≢ b'/') n
    → dir (dir_path (codes "/") ns ++ n) ≡ join true ns
unfolding dir
dir-file ns n h k =
    let end = dir_path-last ns in
    let up : up_to_slash (dir_path (codes "/") ns ++ n) ≡ dir_path (codes "/") ns =
      rw (end.1, append_assoc) (up_to_slash-append end.0 n k) in
    ap clean up ∙ clean-dir_path ns h

pub length-dir_path :
    (ns : List Bytes) → All IsName ns → length ns < length (dir_path (codes "/") ns)
unfolding dir_path
length-dir_path [] _ = omega arith
length-dir_path (n ∷ ns) (h, hs) = omega (
  arith,
  length-dir_path ns hs,
  length-append (dir_path (codes "/") ns ++ n) (b'/' ∷ []),
  length-append (dir_path (codes "/") ns) n,
)

pub length_positive : (n : Bytes) → n ≢ [] → 1 ≤ length n
length_positive [] h = absurd (h refl)
length_positive (c ∷ n) h = omega arith

-- no path of a name is the root's
pub file_equal-root :
    (ns : List Bytes) (n rest : Bytes)
    → All IsName ns
    → n ≢ []
    → equal (dir_path (codes "/") ns ++ n ++ rest) (codes "/") ≡ false
file_equal-root ns n rest h k = equal_ne _ _ (λ e.
    let total = ap length e in
    absurd (
      omega (
        arith,
        total,
        length-dir_path ns h,
        length_positive n k,
        length-append (dir_path (codes "/") ns ++ n) rest,
        length-append (dir_path (codes "/") ns) n,
      )))
