-- ===== src/Server/Domains/Trimmed.antt =====
-- server/auth.go: the texts that `strings.TrimSpace` trims to a given one.
use mathlib.Core.Path.{subst}
use smart_web.Base.{
  ℕ, zero, suc, ◌+◌, ◌≤◌, ◌<◌, true, false, List, [], ◌∷◌, ◌++◌, append_assoc, append-nil, map, ◌≡◌,
  ◌↔◌, ◌⊎◌, inl, inr, refl, sym, ap, ◌∙◌, Bytes, codes, equal_iff, has_prefix, All, All-append,
  arith, Bool-cases, ◌==◌, drop, length, length-append,
}
use smart_web.Server.Domains.{
  space_runes, prefix_length, trim_front, reverse_onto, reversed, trim_left, trim_space, says_allow,
}

abbrev pub IsIn : Bytes → List Bytes → Type 0
IsIn p [] = ⊥
IsIn p (q ∷ qs) = (p ≡ q) ⊎ IsIn p qs

abbrev pub joined : List Bytes → Bytes
joined [] = []
joined (p ∷ ps) = p ++ joined ps

-- A run of texts of a set.
abbrev pub IsRun : List Bytes → Bytes → Type 0
IsRun ps s = (xs : List Bytes) × All (λ x. IsIn x ps) xs × (s ≡ joined xs)

prefix-drop : (s p : Bytes) → has_prefix s p ≡ true → s ≡ p ++ drop (length p) s
unfolding has_prefix
prefix-drop s [] h = refl
prefix-drop [] (c ∷ p) h = cc
prefix-drop (b ∷ s) (c ∷ p) h =
    let same : b ≡ c = ground (arith, h) in
    let rest : has_prefix s p ≡ true = ground (arith, h) in
    rw same (ap (λ x. c ∷ x) (prefix-drop s p rest))

prefix_length-IsIn :
    (ps : List Bytes) (s : Bytes)
    → (prefix_length ps s == 0) ≡ false
    → (p : Bytes) × IsIn p ps × (s ≡ p ++ drop (prefix_length ps s) s)
unfolding prefix_length
prefix_length-IsIn [] s h = cc
prefix_length-IsIn (p ∷ ps) s h = elim (Bool-cases (has_prefix s p)) [
  | inl front ↦ (p, inl refl, rw (front, prefix_length) (prefix-drop s p front))
  | inr other ↦
      let (q, mem, same) = prefix_length-IsIn ps s (rw (other, prefix_length) at h) in
      (q, inr mem, rw (other, prefix_length) same)
]

trim_front-IsRun :
    (ps : List Bytes) (fuel : ℕ) (s : Bytes)
    → (xs : List Bytes) × All (λ x. IsIn x ps) xs × (s ≡ joined xs ++ trim_front ps fuel s)
unfolding trim_front
trim_front-IsRun ps zero s = ([], tt, refl)
trim_front-IsRun ps (suc fuel) s = elim (Bool-cases (prefix_length ps s == 0)) [
  | inl stop ↦ ([], tt, rw (stop, trim_front) refl)
  | inr go ↦
      let (p, mem, same) = prefix_length-IsIn ps s go in
      let (xs, all, rest) = trim_front-IsRun ps fuel (drop (prefix_length ps s) s) in
      (
        p ∷ xs,
        (mem, all),
        rw (go, trim_front) (same ∙ ap (λ x. p ++ x) rest ∙ sym (append_assoc p _ _)),
      )
]

-- Each text of a set is found in front of any rest, and none of them is empty.
abbrev Finds : List Bytes → List Bytes → Type 0
Finds ps qs = All (λ p. (1 ≤ length p) × ((u : Bytes) → prefix_length ps (p ++ u) ≡ length p)) qs

found :
    (ps qs : List Bytes) (p : Bytes)
    → Finds ps qs
    → IsIn p qs
    → (1 ≤ length p) × ((u : Bytes) → prefix_length ps (p ++ u) ≡ length p)
found ps [] p f m = absurd m
found ps (q ∷ qs) p (h, f) (inl e) = rw e h
found ps (q ∷ qs) p (h, f) (inr m) = found ps qs p f m

drop-append : (p u : Bytes) → drop (length p) (p ++ u) ≡ u
drop-append [] u = refl
drop-append (c ∷ p) u = drop-append p u

trim_front-joined :
    (ps xs : List Bytes) (t : Bytes) (fuel : ℕ)
    → Finds ps ps
    → All (λ x. IsIn x ps) xs
    → prefix_length ps t ≡ 0
    → length (joined xs ++ t) < fuel
    → trim_front ps fuel (joined xs ++ t) ≡ t
unfolding trim_front
trim_front-joined ps xs t zero f h stop l = absurd (omega arith)
trim_front-joined ps [] t (suc fuel) f h stop l = rw (stop, trim_front) refl
trim_front-joined ps (x ∷ xs) t (suc fuel) f (m, h) stop l =
    let (long, at) = found ps ps x f m in
    let u = joined xs ++ t in
    let size : length (x ++ u) ≡ length x + length u = length-append {0} x u in
    let whole : length ((x ++ joined xs) ++ t) ≡ length (x ++ u) =
      ap length (append_assoc x (joined xs) t) in
    let go : (length x == 0) ≡ false = ground (arith, long) in
    rw (append_assoc x (joined xs) t, at u, go, drop-append x u)
      (trim_front-joined ps xs t fuel f h stop (omega (arith, l, long, size, whole)))

reverse_onto-append : (s t : Bytes) → reverse_onto s t ≡ reversed s ++ t
unfolding reverse_onto reversed
reverse_onto-append [] t = refl
reverse_onto-append (c ∷ s) t =
    reverse_onto-append s (c ∷ t)
    ∙ sym (append_assoc (reversed s) (c ∷ []) t)
    ∙ ap (λ x. x ++ t) (sym (reverse_onto-append s (c ∷ [])))

reversed-append : (a b : Bytes) → reversed (a ++ b) ≡ reversed b ++ reversed a
unfolding reversed reverse_onto
reversed-append [] b = sym (append-nil (reversed b))
reversed-append (c ∷ a) b =
    reverse_onto-append (a ++ b) (c ∷ [])
    ∙ ap (λ x. x ++ c ∷ []) (reversed-append a b)
    ∙ append_assoc (reversed b) (reversed a) (c ∷ [])
    ∙ ap (λ x. reversed b ++ x) (sym (reverse_onto-append a (c ∷ [])))

reversed-cons : (c : ℕ) (s : Bytes) → reversed (c ∷ s) ≡ reversed s ++ c ∷ []
unfolding reversed reverse_onto
reversed-cons c s = reverse_onto-append s (c ∷ [])

reversed-snoc : (c : ℕ) (s : Bytes) → reversed (s ++ c ∷ []) ≡ c ∷ reversed s
unfolding reversed reverse_onto
reversed-snoc c s = reversed-append s (c ∷ [])

reversed-reversed : (s : Bytes) → reversed (reversed s) ≡ s
reversed-reversed [] = unfold reversed reverse_onto in refl
reversed-reversed (c ∷ s) =
    ap reversed (reversed-cons c s)
    ∙ reversed-snoc c (reversed s)
    ∙ ap (λ x. c ∷ x) (reversed-reversed s)

joined-append : (xs ys : List Bytes) → joined (xs ++ ys) ≡ joined xs ++ joined ys
joined-append [] ys = refl
joined-append (x ∷ xs) ys =
    ap (λ u. x ++ u) (joined-append xs ys) ∙ sym (append_assoc x (joined xs) (joined ys))

IsIn-map : (p : Bytes) (ps : List Bytes) → IsIn p ps → IsIn (reversed p) (map reversed ps)
IsIn-map p [] m = absurd m
IsIn-map p (q ∷ ps) (inl e) = inl (ap reversed e)
IsIn-map p (q ∷ ps) (inr m) = inr (IsIn-map p ps m)

joined-reversed :
    (ps xs : List Bytes) → All (λ x. IsIn x ps) xs → IsRun (map reversed ps) (reversed (joined xs))
joined-reversed ps [] h = ([], tt, unfold reversed reverse_onto in refl)
joined-reversed ps (x ∷ xs) (m, h) =
    let (zs, all, same) = joined-reversed ps xs h in
    (
      zs ++ reversed x ∷ [],
      All-append (λ z. IsIn z (map reversed ps)) zs (reversed x ∷ []) all (IsIn-map x ps m, tt),
      reversed-append x (joined xs)
          ∙ ap (λ u. u ++ reversed x) same
          ∙ ap (λ u. joined zs ++ u) (sym (append-nil (reversed x)))
          ∙ sym (joined-append zs (reversed x ∷ [])),
    )

IsRun-reversed : (ps : List Bytes) (s : Bytes) → IsRun ps s → IsRun (map reversed ps) (reversed s)
IsRun-reversed ps s (xs, all, same) =
    subst (λ u. IsRun (map reversed ps) (reversed u)) (sym same) (joined-reversed ps xs all)

trim_left-run :
    (ps : List Bytes) (s t : Bytes)
    → Finds ps ps
    → IsRun ps s
    → prefix_length ps t ≡ 0
    → trim_left ps (s ++ t) ≡ t
unfolding trim_left
trim_left-run ps s t f (xs, all, same) stop =
    rw same (trim_front-joined ps xs t (suc (length (joined xs ++ t))) f all stop (omega arith))

spaces-found : Finds space_runes space_runes
unfolding space_runes prefix_length has_prefix
spaces-found = (
  (omega arith, λ u. refl),
  (
    (omega arith, λ u. refl),
    (
      (omega arith, λ u. refl),
      (
        (omega arith, λ u. refl),
        (
          (omega arith, λ u. refl),
          (
            (omega arith, λ u. refl),
            (
              (omega arith, λ u. refl),
              (
                (omega arith, λ u. refl),
                (
                  (omega arith, λ u. refl),
                  (
                    (omega arith, λ u. refl),
                    (
                      (omega arith, λ u. refl),
                      (
                        (omega arith, λ u. refl),
                        (
                          (omega arith, λ u. refl),
                          (
                            (omega arith, λ u. refl),
                            (
                              (omega arith, λ u. refl),
                              (
                                (omega arith, λ u. refl),
                                (
                                  (omega arith, λ u. refl),
                                  (
                                    (omega arith, λ u. refl),
                                    (
                                      (omega arith, λ u. refl),
                                      (
                                        (omega arith, λ u. refl),
                                        (
                                          (omega arith, λ u. refl),
                                          (
                                            (omega arith, λ u. refl),
                                            (
                                              (omega arith, λ u. refl),
                                              (
                                                (omega arith, λ u. refl),
                                                ((omega arith, λ u. refl), tt),
                                              ),
                                            ),
                                          ),
                                        ),
                                      ),
                                    ),
                                  ),
                                ),
                              ),
                            ),
                          ),
                        ),
                      ),
                    ),
                  ),
                ),
              ),
            ),
          ),
        ),
      ),
    ),
  ),
)

reversed_spaces-found : Finds (map reversed space_runes) (map reversed space_runes)
unfolding space_runes prefix_length has_prefix reversed reverse_onto
reversed_spaces-found = (
  (omega arith, λ u. refl),
  (
    (omega arith, λ u. refl),
    (
      (omega arith, λ u. refl),
      (
        (omega arith, λ u. refl),
        (
          (omega arith, λ u. refl),
          (
            (omega arith, λ u. refl),
            (
              (omega arith, λ u. refl),
              (
                (omega arith, λ u. refl),
                (
                  (omega arith, λ u. refl),
                  (
                    (omega arith, λ u. refl),
                    (
                      (omega arith, λ u. refl),
                      (
                        (omega arith, λ u. refl),
                        (
                          (omega arith, λ u. refl),
                          (
                            (omega arith, λ u. refl),
                            (
                              (omega arith, λ u. refl),
                              (
                                (omega arith, λ u. refl),
                                (
                                  (omega arith, λ u. refl),
                                  (
                                    (omega arith, λ u. refl),
                                    (
                                      (omega arith, λ u. refl),
                                      (
                                        (omega arith, λ u. refl),
                                        (
                                          (omega arith, λ u. refl),
                                          (
                                            (omega arith, λ u. refl),
                                            (
                                              (omega arith, λ u. refl),
                                              (
                                                (omega arith, λ u. refl),
                                                ((omega arith, λ u. refl), tt),
                                              ),
                                            ),
                                          ),
                                        ),
                                      ),
                                    ),
                                  ),
                                ),
                              ),
                            ),
                          ),
                        ),
                      ),
                    ),
                  ),
                ),
              ),
            ),
          ),
        ),
      ),
    ),
  ),
)

-- The text `allow`, with white space around it.
pub IsAllow : Bytes → Type 0
IsAllow text =
    (front : Bytes) × (behind : Bytes) × IsRun space_runes front
    × IsRun space_runes behind
    × (text ≡ front ++ (codes "allow" ++ behind))

spaces_twice : map reversed (map reversed space_runes) ≡ space_runes
unfolding space_runes reversed reverse_onto
spaces_twice = refl

trim_space-allow :
    (front behind : Bytes)
    → IsRun space_runes front
    → IsRun space_runes behind
    → trim_space (front ++ (codes "allow" ++ behind)) ≡ codes "allow"
unfolding trim_space
trim_space-allow front behind h k =
    let first : prefix_length space_runes (codes "allow" ++ behind) ≡ 0 =
      unfold prefix_length space_runes has_prefix in refl in
    let last : prefix_length (map reversed space_runes) (reversed (codes "allow")) ≡ 0 =
      unfold prefix_length space_runes has_prefix reversed reverse_onto in refl in
    rw
      (
        trim_left-run space_runes front (codes "allow" ++ behind) spaces-found h first,
        reversed-append (codes "allow") behind,
        trim_left-run (map reversed space_runes) (reversed behind) (reversed (codes "allow"))
            reversed_spaces-found (IsRun-reversed space_runes behind k) last,
      )
      (reversed-reversed (codes "allow"))

trim_space-IsAllow : (text : Bytes) → trim_space text ≡ codes "allow" → IsAllow text
unfolding trim_space trim_left IsAllow
trim_space-IsAllow text e =
    let r = trim_left space_runes text in
    let (xs, all, same) = trim_front-IsRun space_runes (suc (length text)) text in
    let (zs, all', same') =
      trim_front-IsRun (map reversed space_runes) (suc (length (reversed r))) (reversed r) in
    let behind = reversed (joined zs) in
    let q = trim_left (map reversed space_runes) (reversed r) in
    let back : r ≡ codes "allow" ++ behind =
      sym (reversed-reversed r)
      ∙ ap reversed same'
      ∙ reversed-append (joined zs) q
      ∙ ap (λ u. u ++ behind) e in
    (
      joined xs,
      behind,
      (xs, all, refl),
      subst (λ ps. IsRun ps behind) spaces_twice
          (joined-reversed (map reversed space_runes) zs all'),
      same ∙ ap (λ u. joined xs ++ u) back,
    )

IsAllow-trim : (text : Bytes) → IsAllow text → trim_space text ≡ codes "allow"
unfolding IsAllow
IsAllow-trim text (front, behind, h, k, same) = rw same (trim_space-allow front behind h k)

-- A permission says `allow` exactly when its text is that word with white space around it.
pub says_allow_iff : (text : Bytes) → (says_allow text ≡ true) ↔ IsAllow text
unfolding says_allow
says_allow_iff text = (
  λ e. trim_space-IsAllow text ((equal_iff (trim_space text) (codes "allow")).0 e),
  λ h. (equal_iff (trim_space text) (codes "allow")).1 (IsAllow-trim text h),
)
