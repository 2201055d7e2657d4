-- ===== src/Server/Entry/Elements.antt =====
-- server/filesystem.go: the elements of the name that `Child` is given.
use smart_web.Base.{
  ℕ, Bool, true, false, List, [], ◌∷◌, ◌++◌, map, append_assoc, ◌≡◌, ◌≢◌, inl, inr, refl, sym, ap,
  ◌∙◌, Bytes, codes, is_empty, is_empty_ne, append_cons_ne, if◌then◌else◌, All, All-append, length,
  length-append, ◌≤◌, arith, drop, take, join_texts, ==_ne,
}
use smart_web.FilePath.{ends_in_slash, dir_path, join, clean, walk, join_paths, split}
use smart_web.FilePath.Names.{
  IsName, IsPlain, length_positive, start, push-name, dir_path-start, clean-plain, walk-slash,
  walk-relative, walk-last,
}
use smart_web.FilePath.Split.{walk-IsName, split_at-last, join_texts-split}
use smart_web.Server.Entry.{Entry, directory, child_name, child_at}

ends_in_slash-last : (p : Bytes) → ends_in_slash (p ++ b'/' ∷ []) ≡ true
unfolding ends_in_slash
ends_in_slash-last [] = refl
ends_in_slash-last (c ∷ []) = refl
ends_in_slash-last (c ∷ d ∷ p) = ends_in_slash-last (d ∷ p)

ends_in_slash-cons :
    (p : Bytes) (c : ℕ) (n : Bytes) → ends_in_slash (p ++ c ∷ n) ≡ ends_in_slash (c ∷ n)
unfolding ends_in_slash
ends_in_slash-cons [] c n = refl
ends_in_slash-cons (d ∷ []) c n = refl
ends_in_slash-cons (d ∷ e ∷ p) c n = ends_in_slash-cons (e ∷ p) c n

ends_in_slash-none : (n : Bytes) → All (λ c. c ≢ b'/') n → ends_in_slash n ≡ false
unfolding ends_in_slash
ends_in_slash-none [] h = refl
ends_in_slash-none (c ∷ []) (h, hs) = ==_ne c b'/' h
ends_in_slash-none (c ∷ d ∷ n) (h, hs) = ends_in_slash-none (d ∷ n) hs

-- a name stays one when three bytes or more are added, none of them a slash
pub append-IsName :
    (n s : Bytes) → IsName n → All (λ x. x ≢ b'/') s → 3 ≤ length s → IsName (n ++ s)
unfolding IsName
append-IsName n s h k long =
    let short : (t : Bytes) → length t ≤ 2 → n ++ s ≢ t =
      λ t m e. absurd (omega (arith, ap length e, length-append n s, long, m)) in
    (
      short [] (omega arith),
      All-append (λ x. x ≢ b'/') n s h.1 k,
      short (codes ".") (omega arith),
      short (codes "..") (omega arith),
    )

dot_alone : (n : Bytes) → n ++ b'.' ∷ [] ≡ codes ".." → n ≡ codes "."
dot_alone [] e = absurd (cc e)
dot_alone (c ∷ []) e = ap (take 1) e
dot_alone (c ∷ d ∷ n) e = absurd (append_cons_ne n [] b'.' (ap (drop 2) e))

pub dot-IsName : (n : Bytes) → IsName n → IsName (n ++ b'.' ∷ [])
unfolding IsName
dot-IsName n h = (
  append_cons_ne n [] b'.',
  All-append (λ x. x ≢ b'/') n (b'.' ∷ []) h.1 ((λ e. cc), tt),
  (λ e. absurd (omega (arith, ap length e, length-append n (b'.' ∷ []), length_positive n h.0))),
  (λ e. h.2 (dot_alone n e)),
)

pub ends_in_slash-plain :
    (rooted : Bool) (ns : List Bytes)
    → IsPlain rooted ns
    → ends_in_slash (dir_path (start rooted) ns) ≡ true
unfolding IsPlain dir_path
ends_in_slash-plain rooted (n ∷ ns) h = ends_in_slash-last (dir_path (start rooted) ns ++ n)
ends_in_slash-plain true [] h = unfold ends_in_slash in refl
ends_in_slash-plain false [] (h, inl e) = cc
ends_in_slash-plain false [] (h, inr e) = absurd (e refl)

pub ends_in_slash-file : (p n : Bytes) → IsName n → ends_in_slash (p ++ n) ≡ false
unfolding IsName
ends_in_slash-file p [] h = absurd (h.0 refl)
ends_in_slash-file p (c ∷ n) h = ends_in_slash-cons p c n ∙ ends_in_slash-none (c ∷ n) h.1

append_name_ne : (p n : Bytes) → n ≢ [] → p ++ n ≢ []
append_name_ne p [] h = absurd (h refl)
append_name_ne p (c ∷ n) h = append_cons_ne p n c

pub join-start :
    (rooted : Bool) (es : List Bytes) (e : Bytes)
    → join rooted (e ∷ es) ≡ dir_path (start rooted) es ++ e
unfolding join
join-start true es e = refl
join-start false es e = refl

-- `Clean` of a directory of names and a slash in front of a relative path of names
pub join_paths-plain :
    (rooted : Bool) (ds es : List Bytes) (e : Bytes)
    → IsPlain rooted ds
    → All IsName es
    → IsName e
    → join_paths (dir_path (start rooted) ds) (dir_path [] es ++ e)
      ≡ dir_path (start rooted) (es ++ ds) ++ e
unfolding join_paths
join_paths-plain rooted ds es e h hs k =
    let slash = ends_in_slash-plain rooted ds h in
    let none : ends_in_slash [] ≡ false = unfold ends_in_slash in refl in
    let full : is_empty (dir_path (start rooted) ds) ≡ false =
      is_empty_ne _ (λ x. cc (slash, none, x)) in
    let named : is_empty (dir_path [] es ++ e) ≡ false =
      is_empty_ne _ (append_name_ne (dir_path [] es) e (unfold IsName in k.0)) in
    let walked : walk rooted [] ds (b'/' ∷ dir_path [] es ++ e) ≡ e ∷ es ++ ds =
      walk-slash rooted ds (dir_path [] es ++ e)
      ∙ walk-relative rooted es ds e hs
      ∙ walk-last rooted e [] (es ++ ds) (unfold IsName in k.1)
      ∙ push-name rooted (es ++ ds) e k in
    rw (full, named)
      (clean-plain rooted ds (b'/' ∷ dir_path [] es ++ e) h
        ∙ rw walked (join-start rooted (es ++ ds) e))

pub dir-no_slash : All (λ x. x ≢ b'/') (codes "dir")
dir-no_slash = ((λ x. cc), ((λ x. cc), ((λ x. cc), tt)))

pub meta-no_slash : All (λ x. x ≢ b'/') (codes "meta")
meta-no_slash = ((λ x. cc), ((λ x. cc), ((λ x. cc), ((λ x. cc), tt))))

pub meta-IsName : IsName (codes "meta")
unfolding IsName
meta-IsName = ((λ e. cc), meta-no_slash, (λ e. cc), (λ e. cc))

-- the elements of the name that `Child` is given, the last one first
pub elements : Bytes → List Bytes
elements name = walk true [] [] name

pub elements-IsName : (name : Bytes) → All IsName (elements name)
unfolding elements
elements-IsName name = walk-IsName name [] [] tt tt

-- the path of such elements
unfoldable pub relative : List Bytes → Bytes
relative [] = []
relative (e ∷ es) = dir_path [] es ++ e

pub relative-cons_ne : (e : Bytes) (es : List Bytes) → IsName e → relative (e ∷ es) ≢ []
unfolding relative IsName
relative-cons_ne e es h = append_name_ne (dir_path [] es) e h.0

drop-join : (es : List Bytes) → drop 1 (join true es) ≡ relative es
unfolding join relative
drop-join [] = refl
drop-join (e ∷ es) = rw (dir_path-start (codes "/") es) refl

pub child_name-relative : (name : Bytes) → child_name name ≡ relative (elements name)
unfolding child_name elements
child_name-relative name =
    let whole : clean (b'/' ∷ name) ≡ join true (elements name) =
      (unfold dir_path elements in clean-plain true [] name (unfold IsPlain in (tt, inl refl))) in
    ap (drop 1) whole ∙ drop-join (elements name)

split-name : (e : Bytes) → IsName e → split e ≡ e ∷ []
unfolding split IsName
split-name e h = split_at-last e [] h.1

pub join_texts-relative :
    (e : Bytes) (es : List Bytes)
    → IsName e
    → All IsName es
    → join_texts (codes ".dir/") (split (relative (e ∷ es)))
      ≡ dir_path [] (map (λ x. x ++ codes ".dir") es) ++ e
unfolding relative
join_texts-relative e es h hs =
    join_texts-split (codes ".dir") es e hs ∙ rw (split-name e h) (unfold join_texts in refl)

pub dot_dir-no_slash : All (λ x. x ≢ b'/') (codes ".dir")
dot_dir-no_slash = ((λ x. cc), dir-no_slash)

pub map-IsName : (es : List Bytes) → All IsName es → All IsName (map (λ x. x ++ codes ".dir") es)
map-IsName [] h = tt
map-IsName (e ∷ es) (h, hs) =
    (append-IsName e (codes ".dir") h dot_dir-no_slash (omega arith), map-IsName es hs)

pub child_at-path :
    (e : Entry) (name n : Bytes)
    → n ≢ []
    → (child_at e name n).path_dot ≡ (
        let p =
          join_paths (directory e.path_dot) (join_texts (codes ".dir/") (split n)) ++ b'.' ∷ [] in
        if ends_in_slash name then p ++ codes "dir/" else p)
unfolding child_at
child_at-path e name [] h = absurd (h refl)
child_at-path e name (c ∷ n) h = refl

pub dir_path-suffix :
    (c : Bytes) (ds : List Bytes) (n : Bytes)
    → dir_path c ds ++ n ++ b'.' ∷ [] ++ codes "dir/" ≡ dir_path c ((n ++ codes ".dir") ∷ ds)
unfolding dir_path
dir_path-suffix c ds n =
    append_assoc (dir_path c ds ++ n) (b'.' ∷ []) (codes "dir/")
    ∙ append_assoc (dir_path c ds) n (codes ".dir/")
    ∙ sym (
        append_assoc (dir_path c ds) (n ++ codes ".dir") (b'/' ∷ [])
        ∙ ap (λ x. dir_path c ds ++ x) (append_assoc n (codes ".dir") (b'/' ∷ [])))
