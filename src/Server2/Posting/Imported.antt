-- ===== src/Server2/Posting/Imported.antt =====
-- What holds when the import of a bundle asks the store for its update.
use smart_web.Base.{
  ℕ, Option, none, some, List, ◌⊎◌, inl, inr, ◌≡◌, refl, sym, ap, All, Bytes, equal, Bool-cases,
}
use smart_web.Nquads.Stream.{Error}
use smart_web.Bundle.Writer.{mime_type}
use smart_web.Bundle.Reader.{ZipFile, graph_statements}
use smart_web.Server.Files.{OsError}
use smart_web.Server.Writing.{Os}
use smart_web.Server.Writing.Laws.{OsLaws}
use smart_web.Server2.Url.{Url}
use smart_web.Server2.Bundle.Statements.{Item, Update, make_statements}
use smart_web.Server2.Posting.Stored.{KeepLaws, IsKept, store_all-Keeps}
use smart_web.Server2.Posting.{
  Outcome, BundleRequest, items, store_all, refuse, updated, after_files, post_files, post_items,
  post_opened, post_copied, handle_post_bundle,
}

module _ (open_text : Bytes) (error_text : Error → Bytes) (sha1 : Bytes → Bytes) (root : Bytes)
    {W : Type 0} (os : Os W) (temp : W → Bytes) (update : Bytes → Option Bytes) (report : Bytes)
    (parse : Url → Bytes → Bytes ⊎ Url) (show : Url → Bytes) where
  -- What holds when the update with a text is asked for: it is that of the bundle's statements,
  -- and every wanted entry of the archive has been stored.
  pub record Imported (u : Url) (req : BundleRequest) (text : Bytes) (w : W) : Type 0 where
    pub files : List ZipFile
    pub read : List Item
    pub opens : req.opened ≡ inr files
    pub reads : items open_text error_text (graph_statements files) ≡ some read
    pub accepted : (make_statements parse show u read).error ≡ none
    pub asks : text ≡ (make_statements parse show u read).statements
    pub stored :
        All
          (IsKept open_text error_text sha1 root os temp
            (make_statements parse show u read).wanted_hashes
            w)
          files

  module _ (laws : OsLaws os) (keep : KeepLaws os temp root sha1) where
    -- the arguments that the handler's parts share
    abbrev finish_files : Update → Option Bytes × W → Outcome W
    finish_files = after_files open_text error_text sha1 root os temp update report

    refuse-asks :
        (status : ℕ) (t : Bytes) (w : W) (o : Outcome W) (text : Bytes)
        → some (refuse open_text error_text sha1 root os temp status t w) ≡ some o
        → o.asked ≡ some text
        → ⊥
    unfolding refuse
    refuse-asks status t w o text h a =
        let same : refuse open_text error_text sha1 root os temp status t w ≡ o = cc h in
        let silent : none ≡ o.asked = ap (λ x. x.asked) same in cc

    updated-asked :
        (m : Update) (x : Option Bytes) (w : W)
        → ((updated open_text error_text sha1 root os temp update report m x w).asked
            ≡ some m.statements)
          × ((updated open_text error_text sha1 root os temp update report m x w).files ≡ w)
    unfolding updated
    updated-asked m none w = (refl, refl)
    updated-asked m (some e) w = (refl, refl)

    after_files-asked :
        (m : Update) (fs : List ZipFile) (text : Bytes) (w : W) (r : Option Bytes × W)
        → store_all open_text error_text sha1 root os temp m.wanted_hashes fs w ≡ r
        → (finish_files m r).asked ≡ some text
        → (text ≡ m.statements)
          × All
              (IsKept open_text error_text sha1 root os temp m.wanted_hashes
                (finish_files m r).files)
              fs
    unfolding after_files refuse
    after_files-asked m fs text w (some e, v) h a = cc
    after_files-asked m fs text w (none, v) h a =
        let (asks, same) = updated-asked m (update m.statements) v in
        (
          cc (a, asks),
          rw same
              (store_all-Keeps open_text error_text sha1 root os temp laws keep m.wanted_hashes fs w
                v h).1,
        )

    post_files-asked :
        (m : Update) (fs : List ZipFile) (text : Bytes) (w : W) (e : Option Bytes)
        → (post_files open_text error_text sha1 root os temp update report fs m e w).asked
          ≡ some text
        → (e ≡ none)
          × (text ≡ m.statements)
          × All
              (IsKept open_text error_text sha1 root os temp m.wanted_hashes
                (post_files open_text error_text sha1 root os temp update report fs m e w).files)
              fs
    unfolding post_files refuse
    post_files-asked m fs text w (some e) a = cc
    post_files-asked m fs text w none a =
        let (asks, stored) = after_files-asked m fs text w _ refl a in (refl, asks, stored)

    post_items-asked :
        (u : Url) (req : BundleRequest) (fs : List ZipFile) (text : Bytes) (w : W)
        (x : Option (List Item)) (o : Outcome W)
        → req.opened ≡ inr fs
        → items open_text error_text (graph_statements fs) ≡ x
        → post_items open_text error_text sha1 root os temp update report parse show u fs x w
          ≡ some o
        → o.asked ≡ some text
        → Imported u req text o.files
    unfolding post_items
    post_items-asked u req fs text w none o opened read h a = cc
    post_items-asked u req fs text w (some is) o opened read h a =
        let m = make_statements parse show u is in
        let same : post_files open_text error_text sha1 root os temp update report fs m m.error w
            ≡ o =
          cc h in
        let (accepted, asks, stored) = post_files-asked m fs text w m.error (rw same a) in
        record {
          files = fs;
          read = is;
          opens = opened;
          reads = read;
          accepted = accepted;
          asks = asks;
          stored = rw (sym same) stored;
        }

    post_opened-asked :
        (u : Url) (req : BundleRequest) (text : Bytes) (w : W) (x : Bytes ⊎ List ZipFile)
        (o : Outcome W)
        → req.opened ≡ x
        → post_opened open_text error_text sha1 root os temp update report parse show u x w ≡ some o
        → o.asked ≡ some text
        → Imported u req text o.files
    unfolding post_opened refuse
    post_opened-asked u req text w (inl e) o opened h a = absurd (refuse-asks 500 e w o text h a)
    post_opened-asked u req text w (inr fs) o opened h a =
        post_items-asked u req fs text w _ o opened refl h a

    post_copied-asked :
        (u : Url) (req : BundleRequest) (text : Bytes) (r : Option OsError × W) (o : Outcome W)
        → post_copied open_text error_text sha1 root os temp update report parse show u req r
          ≡ some o
        → o.asked ≡ some text
        → Imported u req text o.files
    unfolding post_copied refuse
    post_copied-asked u req text (some e, w) o h a = absurd (refuse-asks 500 e.text w o text h a)
    post_copied-asked u req text (none, w) o h a =
        elim (Bool-cases (equal req.content_type mime_type)) [
          | inl right ↦ post_opened-asked u req text w req.opened o refl (rw right at h) a
          | inr wrong ↦ absurd (refuse-asks 400 _ w o text (rw wrong at h) a)
        ]

    -- Where package os keeps its promises: when `handlePOSTBundle` has asked the store for an update,
    -- this is the one that `makeStatements` makes, without an error, of what the archive's graph
    -- yields; and each entry named as a hash, whose content has a hash that the graph wants, has its
    -- place, under that hash, taken by a content with that place.
    pub handle_post_bundle-Imported :
        (u : Url) (req : BundleRequest) (text : Bytes) (w : W) (o : Outcome W)
        → handle_post_bundle open_text error_text sha1 root os temp update report parse show u req w
          ≡ some o
        → o.asked ≡ some text
        → Imported u req text o.files
    unfolding handle_post_bundle
    handle_post_bundle-Imported u req text w o h a = post_copied-asked u req text _ o h a
