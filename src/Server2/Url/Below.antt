-- ===== src/Server2/Url/Below.antt =====
-- server2/bundle.go: what `isSubUrl` decides.
use smart_web.Base.{
  append_cons_ne, ℕ, true, Option, none, some, [], ◌∷◌, ◌++◌, append_assoc, ◌≡◌, ◌≢◌, ◌⊎◌, ◌↔◌, inl,
  inr, refl, sym, ◌∙◌, ap, arith, Bytes, equal_iff, has_prefix, is_empty, Bool-cases, ==_iff,
}
use smart_web.FilePath.{ends_in_slash}
use smart_web.Server2.Url.{Url, same_pointer, with_slash, is_sub_url}

-- `p` and `q` agree in all that is not the path.
pub IsSameOrigin : Url → Url → Type 0
IsSameOrigin p q =
    (p.scheme ≡ q.scheme) × (p.opaque ≡ q.opaque) × (p.user ≡ q.user) × (p.host ≡ q.host)

-- `q` goes on from `p` behind a slash, which is one of `p` if `p` ends in a slash.
pub IsBelow : Bytes → Bytes → Type 0
IsBelow p q =
    (rest : Bytes) × ((q ≡ p ++ b'/' ∷ rest)
      ⊎ (((d : Bytes) × (p ≡ d ++ b'/' ∷ [])) × (q ≡ p ++ rest)))

same_pointer_iff : (p q : Option ℕ) → (same_pointer p q ≡ true) ↔ (p ≡ q)
unfolding same_pointer
same_pointer_iff none none = ground arith
same_pointer_iff (some p) none = ground arith
same_pointer_iff none (some q) = ground arith
same_pointer_iff (some p) (some q) = ground arith

has_prefix_iff : (s p : Bytes) → (has_prefix s p ≡ true) ↔ ((rest : Bytes) × (s ≡ p ++ rest))
unfolding has_prefix
has_prefix_iff s [] = (λ _. (s, refl), λ _. refl)
has_prefix_iff [] (c ∷ p) = ground arith
has_prefix_iff (b ∷ s) (c ∷ p) = ground (arith, has_prefix_iff s p)

slash_last : (p : Bytes) → ends_in_slash p ≡ true → (d : Bytes) × (p ≡ d ++ b'/' ∷ [])
unfolding ends_in_slash
slash_last [] h = cc
slash_last (c ∷ []) h = ([], ap (λ x. x ∷ []) ((==_iff c b'/').0 h))
slash_last (c ∷ d ∷ s) h =
    let front = slash_last (d ∷ s) h in (c ∷ front.0, ap (λ x. c ∷ x) front.1)

ends_in_slash-last : (d : Bytes) → ends_in_slash (d ++ b'/' ∷ []) ≡ true
unfolding ends_in_slash
ends_in_slash-last [] = refl
ends_in_slash-last (c ∷ []) = refl
ends_in_slash-last (c ∷ e ∷ d) = ends_in_slash-last (e ∷ d)

IsBelow-iff : (p q : Bytes) → (has_prefix q (with_slash p) ≡ true) ↔ IsBelow p q
unfolding with_slash IsBelow
IsBelow-iff p q = elim (Bool-cases (ends_in_slash p)) [
  | inl h ↦ rw h (
    λ e. let rest = (has_prefix_iff q p).0 e in (rest.0, inr (slash_last p h, rest.1)),
    λ e. elim e.1 [
      | inl deep ↦ (has_prefix_iff q p).1 (b'/' ∷ e.0, deep)
      | inr flat ↦ (has_prefix_iff q p).1 (e.0, flat.1)
    ],
  )
  | inr h ↦ rw h (
    λ e.
        let rest = (has_prefix_iff q (p ++ b'/' ∷ [])).0 e in
        (rest.0, inl (rest.1 ∙ append_assoc p _ _)),
    λ e. elim e.1 [
      | inl deep ↦ (has_prefix_iff q (p ++ b'/' ∷ [])).1 (e.0, deep ∙ sym (append_assoc p _ _))
      | inr flat ↦ cc (h, ap ends_in_slash flat.0.1, ends_in_slash-last flat.0.0)
    ],
  )
]

is_empty_iff : (p : Bytes) → (is_empty p ≡ true) ↔ (p ≡ [])
is_empty_iff [] = ground arith
is_empty_iff (c ∷ p) = ground arith

-- The URL `u` has the base's scheme, opaque part, user and host, and its path is the base's, or the
-- base has an empty path, or the path of `u` is the base's followed by a slash (unless the base's
-- path ends in one) and any more.
pub is_sub_url_iff :
    (base u : Url)
    → (is_sub_url base u ≡ true)
      ↔ (IsSameOrigin base u × ((base.path ≡ u.path) ⊎ (base.path ≡ []) ⊎ IsBelow base.path u.path))
unfolding is_sub_url IsSameOrigin
is_sub_url_iff base u = ground (
  arith,
  equal_iff base.scheme u.scheme,
  equal_iff base.opaque u.opaque,
  same_pointer_iff base.user u.user,
  equal_iff base.host u.host,
  equal_iff base.path u.path,
  is_empty_iff base.path,
  IsBelow-iff base.path u.path,
)

IsBelow-ne : (p q : Bytes) → IsBelow p q → q ≢ []
unfolding IsBelow
IsBelow-ne p q (rest, inl deep) e = append_cons_ne p rest b'/' (sym deep ∙ e)
IsBelow-ne p q (rest, inr ((d, slash), flat)) e =
    append_cons_ne d rest b'/' (sym (flat ∙ ap (λ x. x ++ rest) slash ∙ append_assoc d _ _) ∙ e)

IsBelow-extends : (p q : Bytes) → IsBelow p q → (t : Bytes) × (q ≡ p ++ t)
unfolding IsBelow
IsBelow-extends p q (rest, inl deep) = (b'/' ∷ rest, deep)
IsBelow-extends p q (rest, inr (slash, flat)) = (rest, flat)

IsBelow-append : (p q t : Bytes) → IsBelow p q → IsBelow p (q ++ t)
unfolding IsBelow
IsBelow-append p q t (rest, inl deep) = (rest ++ t, inl (rw (deep, append_assoc) refl))
IsBelow-append p q t (rest, inr (slash, flat)) =
    (rest ++ t, inr (slash, rw (flat, append_assoc) refl))

abbrev Covers : Bytes → Bytes → Type 0
Covers p q = (p ≡ q) ⊎ (p ≡ []) ⊎ IsBelow p q

Covers-trans : (p q r : Bytes) → Covers p q → Covers q r → Covers p r
Covers-trans p q r (inl e) k = rw e k
Covers-trans p q r (inr (inl e)) k = inr (inl e)
Covers-trans p q r (inr (inr b)) (inl e) = inr (inr (rw e at b))
Covers-trans p q r (inr (inr b)) (inr (inl e)) = absurd (IsBelow-ne p q b e)
Covers-trans p q r (inr (inr b)) (inr (inr c)) =
    let more = IsBelow-extends q r c in inr (inr (rw more.1 (IsBelow-append p q more.0 b)))

-- What is below something that is below the base is below the base.
pub is_sub_url_trans :
    (a b c : Url) → is_sub_url a b ≡ true → is_sub_url b c ≡ true → is_sub_url a c ≡ true
unfolding IsSameOrigin
is_sub_url_trans a b c h k =
    let (near, p) = (is_sub_url_iff a b).0 h in
    let (far, q) = (is_sub_url_iff b c).0 k in
    (is_sub_url_iff a c).1 (
      (near.0 ∙ far.0, near.1 ∙ far.1, near.2 ∙ far.2, near.3 ∙ far.3),
      Covers-trans a.path b.path c.path p q,
    )
