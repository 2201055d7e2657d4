-- ===== src/Server2/Posting/Stored.antt =====
-- What the import of a bundle has stored by the time that it asks the store for its update.
use smart_web.Base.{
  true, Option, none, some, List, [], ◌∷◌, ◌⊎◌, inl, inr, ◌≡◌, ◌≢◌, refl, sym, ap, ◌∙◌, All, Bytes,
  codes, equal, equal_iff, has_prefix, Bool-cases,
}
use smart_web.FilePath.{join_paths}
use smart_web.Nquads.Stream.{Error}
use smart_web.Bundle.Writer.{sha1_name}
use smart_web.Bundle.Reader.{ZipFile}
use smart_web.Server.Files.{OsError}
use smart_web.Server.Writing.{Os}
use smart_web.Server.Writing.Laws.{OsLaws}
use smart_web.Server.Handlers.Stored.{and_then-none}
use smart_web.Server2.Query.{is_among}
use smart_web.Server2.Posting.{
  content_of, hash_of, store_content, get_bundle_sha1, or_remove, move_in, error_of, store_hashed,
  store_entry, unless_failed, store_all,
}

-- What is relied on besides of package os and of the names that `TempFile` chooses: the name is not
-- that of a hash, and a call on such a name that does not fail leaves the other files in the
-- directory alone.
pub record KeepLaws {W : Type 0} (os : Os W) (temp : W → Bytes) (root : Bytes)
    (sha1 : Bytes → Bytes) : Type 0 where
  pub apart : (w : W) (s : Bytes) → join_paths root (sha1_name sha1 s) ≢ temp w
  pub create_keeps :
      (n : Bytes) (u w v : W)
      → os.create (temp u) w ≡ (none, v)
      → join_paths root n ≢ temp u
      → (os.disk v).content (join_paths root n) ≡ (os.disk w).content (join_paths root n)
  pub write_keeps :
      (n s : Bytes) (u w v : W)
      → os.write (temp u) s w ≡ (none, v)
      → join_paths root n ≢ temp u
      → (os.disk v).content (join_paths root n) ≡ (os.disk w).content (join_paths root n)
  pub rename_keeps :
      (n m : Bytes) (u w v : W)
      → os.rename (temp u) (join_paths root m) w ≡ (none, v)
      → join_paths root n ≢ temp u
      → join_paths root n ≢ join_paths root m
      → (os.disk v).content (join_paths root n) ≡ (os.disk w).content (join_paths root n)

module _ (open_text : Bytes) (error_text : Error → Bytes) (sha1 : Bytes → Bytes) (root : Bytes)
    {W : Type 0} (os : Os W) (temp : W → Bytes) where
  -- the place of a content
  abbrev pub place : Bytes → Bytes
  place content = join_paths root (sha1_name sha1 content)

  -- A file that stands at the place of its content.
  abbrev pub IsStored : Bytes → W → Type 0
  IsStored p w = (s : Bytes) × ((os.disk w).content p ≡ inr (s, none)) × (p ≡ place s)

  -- An entry of an archive that is wanted stands under its hash.
  abbrev pub IsKept : List Bytes → W → ZipFile → Type 0
  IsKept wanted w f =
      has_prefix f.name (codes "sha1:") ≡ true
      → (content : Bytes) → content_of open_text error_text f.opened ≡ inr content
      → is_among (sha1_name sha1 content) wanted ≡ true
      → IsStored (place content) w

  -- What is stored stays so.
  abbrev Keeps : W → W → Type 0
  Keeps w v = (p : Bytes) → IsStored p w → IsStored p v

  or_remove-none :
      (name : Bytes) (r : Option OsError × W) (v : W)
      → or_remove open_text error_text sha1 root os temp name r ≡ (none, v)
      → r ≡ (none, v)
  unfolding or_remove
  or_remove-none name (none, w) v h = h
  or_remove-none name (some e, w) v h = cc

  error_of-none :
      (r : Option OsError × W) (v : W)
      → error_of open_text error_text sha1 root os temp r ≡ (none, v)
      → r ≡ (none, v)
  unfolding error_of
  error_of-none (none, w) v h = cc
  error_of-none (some e, w) v h = cc

  module _ (laws : OsLaws os) (keep : KeepLaws os temp root sha1) where
    move_in-IsStored :
        (name content : Bytes) (w v : W)
        → move_in open_text error_text sha1 root os temp name (sha1_name sha1 content) content w
          ≡ (none, v)
        → IsStored (place content) v
    unfolding move_in
    move_in-IsStored name content w v h =
        let (a, made, h1) = and_then-none _ _ v h in
        let (b, wrote, h2) = and_then-none _ _ v h1 in
        let written = laws.written name content w a b made (or_remove-none name _ b wrote) in
        let renamed = laws.renamed name (place content) b v (or_remove-none name _ v h2) in
        (content, renamed ∙ written, refl)

    move_in-other :
        (content s : Bytes) (w v : W)
        → move_in open_text error_text sha1 root os temp (temp w) (sha1_name sha1 content) content w
          ≡ (none, v)
        → place s ≢ place content
        → (os.disk w).content (place s) ≡ inr (s, none)
        → (os.disk v).content (place s) ≡ inr (s, none)
    unfolding move_in
    move_in-other content s w v h apart there =
        let n = sha1_name sha1 s in
        let (a, made, h1) = and_then-none _ _ v h in
        let (b, wrote, h2) = and_then-none _ _ v h1 in
        let not_temp = keep.apart w s in
        keep.rename_keeps n (sha1_name sha1 content) w b v (or_remove-none (temp w) _ v h2) not_temp
          apart
        ∙ keep.write_keeps n content w a b (or_remove-none (temp w) _ b wrote) not_temp
        ∙ keep.create_keeps n w w a made not_temp
        ∙ there

    move_in-Keeps :
        (content : Bytes) (w v : W)
        → move_in open_text error_text sha1 root os temp (temp w) (sha1_name sha1 content) content w
          ≡ (none, v)
        → Keeps w v
    move_in-Keeps content w v h p (s, there, here) = elim (Bool-cases (equal p (place content))) [
      | inl same ↦
          rw ((equal_iff p (place content)).0 same) (move_in-IsStored (temp w) content w v h)
      | inr other ↦
          let apart : p ≢ place content = λ e. cc (other, (equal_iff p (place content)).1 e) in
          (
            s,
            rw here (move_in-other content s w v h (λ e. apart (here ∙ e)) (rw (sym here) there)),
            here,
          )
    ]

    same_content : {r : Bytes ⊎ Bytes} {c d : Bytes} → r ≡ inr c → r ≡ inr d → d ≡ c
    same_content e f = cc

    hashed-Keeps :
        (wanted : List Bytes) (f : ZipFile) (x : Bytes ⊎ Bytes) (w v : W)
        → content_of open_text error_text f.opened ≡ x
        → store_hashed open_text error_text sha1 root os temp wanted
            (hash_of open_text error_text sha1 x)
            x
            w
          ≡ (none, v)
        → Keeps w v × IsKept wanted v f
    unfolding store_hashed hash_of store_content
    hashed-Keeps wanted f (inl e) w v x h = cc
    hashed-Keeps wanted f (inr content) w v x h =
        elim (Bool-cases (is_among (sha1_name sha1 content) wanted)) [
          | inl among ↦
              let moved =
                error_of-none
                  (move_in open_text error_text sha1 root os temp (temp w) (sha1_name sha1 content)
                    content w)
                  v (rw among at h) in
              (
                move_in-Keeps content w v moved,
                λ p c y m. rw (same_content x y) (move_in-IsStored (temp w) content w v moved),
              )
          | inr unwanted ↦
              let done : ◌≡◌ {A = Option Bytes × W} (none, w) (none, v) = rw unwanted at h in
              let still : w ≡ v = ap (λ r. r.1) done in
              (λ p k. rw (sym still) k, λ p c y m. cc (same_content x y))
        ]

    store_entry-Keeps :
        (wanted : List Bytes) (f : ZipFile) (w v : W)
        → store_entry open_text error_text sha1 root os temp wanted f w ≡ (none, v)
        → Keeps w v × IsKept wanted v f
    unfolding store_entry get_bundle_sha1
    store_entry-Keeps wanted f w v h = elim (Bool-cases (has_prefix f.name (codes "sha1:"))) [
      | inl hashed ↦
          hashed-Keeps wanted f (content_of open_text error_text f.opened) w v refl (rw hashed at h)
      | inr other ↦
          let done : ◌≡◌ {A = Option Bytes × W} (none, w) (none, v) = rw other at h in
          let still : w ≡ v = ap (λ r. r.1) done in (λ p k. rw (sym still) k, λ q. cc)
    ]

    unless_failed-none :
        (r : Option Bytes × W) (next : W → Option Bytes × W) (v : W)
        → unless_failed open_text error_text sha1 root os temp r next ≡ (none, v)
        → (u : W) × (r ≡ (none, u)) × (next u ≡ (none, v))
    unfolding unless_failed
    unless_failed-none (none, w) next v h = (w, refl, h)
    unless_failed-none (some e, w) next v h = cc

    pub store_all-Keeps :
        (wanted : List Bytes) (fs : List ZipFile) (w v : W)
        → store_all open_text error_text sha1 root os temp wanted fs w ≡ (none, v)
        → Keeps w v × All (IsKept wanted v) fs
    unfolding store_all
    store_all-Keeps wanted [] w v h = (λ p k. rw (sym (ap (λ r. r.1) h)) k, tt)
    store_all-Keeps wanted (f ∷ fs) w v h =
        let (u, first, rest) = unless_failed-none _ _ v h in
        let (keeps, kept) = store_entry-Keeps wanted f w u first in
        let (later, all) = store_all-Keeps wanted fs u v rest in
        (λ p k. later p (keeps p k), (λ q c x m. later _ (kept q c x m), all))
