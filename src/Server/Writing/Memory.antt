-- ===== src/Server/Writing/Memory.antt =====
-- server/filesystem.go: a file system in memory, which does what FSEntry relies on.
use smart_web.Base.{
  true, false, ◌||◌, Option, none, some, [], ◌∷◌, ◌++◌, ◌≡◌, ◌⊎◌, inl, inr, refl, sym, ap, ◌∙◌,
  Bytes, codes, equal, equal_iff, has_prefix, Bool-cases, if◌then◌else◌,
}
use smart_web.Server.Files.{OsError, Disk}
use smart_web.Server.Writing.{Os}
use smart_web.Server.Writing.Laws.{OsLaws}

-- The content of each file; directories are there when they are needed, and are not listed.
abbrev pub Memory : Type 0
Memory = Bytes → Option Bytes

abbrev pub no_file : OsError
no_file = record { text = codes "no such file"; is_exist = false; is_not_exist = true }

unfoldable pub set_file : Bytes → Option Bytes → Memory → Memory
set_file p content w q = if equal p q then content else w q

unfoldable pub content_of : Option Bytes → OsError ⊎ (Bytes × Option OsError)
content_of none = inl no_file
content_of (some s) = inr (s, none)

unfoldable pub missing_if : Option Bytes → Option OsError
missing_if none = some no_file
missing_if (some s) = none

unfoldable pub appended : Option Bytes → Bytes → Option Bytes
appended none s = none
appended (some t) s = some (t ++ s)

abbrev pub memory_disk : Memory → Disk
memory_disk w = record {
  stat = λ p. missing_if (w p);
  content = λ p. content_of (w p);
  names = λ p. inl no_file;
}

abbrev pub memory : Os Memory
memory = record {
  disk = memory_disk;
  mkdir_all = λ p w. w;
  create = λ p w. (none, set_file p (some []) w);
  write = λ p s w. (missing_if (w p), set_file p (appended (w p) s) w);
  rename = λ p q w. (missing_if (w p), set_file q (w p) (set_file p none w));
  remove = λ p w. (missing_if (w p), set_file p none w);
  remove_all = λ p w. (none, λ q. if equal q p || has_prefix q (p ++ b'/' ∷ []) then none else w q);
}

set_file_self : (p : Bytes) (content : Option Bytes) (w : Memory) → set_file p content w p ≡ content
unfolding set_file
set_file_self p content w = rw ((equal_iff p p).1 refl) refl

memory-written :
    (p s : Bytes) (w v u : Memory)
    → memory.create p w ≡ (none, v)
    → memory.write p s v ≡ (none, u)
    → (memory.disk u).content p ≡ inr (s, none)
memory-written p s w v u made wrote =
    let at_v : v p ≡ some [] = ap (λ x. x.1 p) (sym made) ∙ set_file_self p (some []) w in
    let at_u : u p ≡ appended (v p) s =
      ap (λ x. x.1 p) (sym wrote) ∙ set_file_self p (appended (v p) s) v in
    rw (at_u, at_v) (unfold content_of appended in refl)

memory-renamed :
    (p q : Bytes) (w v : Memory)
    → memory.rename p q w ≡ (none, v)
    → (memory.disk v).content q ≡ (memory.disk w).content p
memory-renamed p q w v h =
    let at_q : v q ≡ w p = ap (λ x. x.1 q) (sym h) ∙ set_file_self q (w p) (set_file p none w) in
    ap content_of at_q

memory-removed :
    (p : Bytes) (w v : Memory) (r : Option OsError)
    → memory.remove p w ≡ (r, v)
    → (err : OsError) × ((memory.disk v).content p ≡ inl err)
memory-removed p w v r h =
    let at_p : v p ≡ none = ap (λ x. x.1 p) (sym h) ∙ set_file_self p none w in
    (no_file, rw at_p (unfold content_of in refl))

content_of-error :
    (content : Option Bytes) (err : OsError) → content_of content ≡ inl err → content ≡ none
unfolding content_of
content_of-error none err h = refl
content_of-error (some s) err h = cc

memory-still_missing :
    (p q : Bytes) (w v : Memory) (r : Option OsError) (err : OsError)
    → memory.remove_all p w ≡ (r, v)
    → (memory.disk w).content q ≡ inl err
    → (e : OsError) × ((memory.disk v).content q ≡ inl e)
memory-still_missing p q w v r err h k =
    let left : v q ≡ (if equal q p || has_prefix q (p ++ b'/' ∷ []) then none else w q) =
      ap (λ x. x.1 q) (sym h) in
    let gone : v q ≡ none = elim (Bool-cases (equal q p || has_prefix q (p ++ b'/' ∷ []))) [
      | inl inside ↦ rw inside at left
      | inr outside ↦ (rw outside at left) ∙ content_of-error (w q) err k
    ] in
    (no_file, rw gone (unfold content_of in refl))

pub memory-laws : OsLaws memory
memory-laws = record {
  written = memory-written;
  renamed = memory-renamed;
  removed = λ p w v h. memory-removed p w v none h;
  missing = λ p w v err h k. memory-removed p w v (some err) h;
  still_missing = memory-still_missing;
}
