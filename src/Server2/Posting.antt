-- ===== src/Server2/Posting.antt =====
-- server2/bundle.go: a bundle that is sent to a URL is stored, file by file, and its graph goes to
-- the store.
pub mod Stored
pub mod Imported
mod Tests
use smart_web.Base.{
  ℕ, Bool, true, false, not, Option, none, some, List, [], ◌∷◌, ◌++◌, ◌⊎◌, inl, inr, Bytes, codes,
  equal, has_prefix, join_texts, if◌then◌else◌,
}
use smart_web.FilePath.{join_paths}
use smart_web.Nquads.Stream.{Error, Reader}
use smart_web.Nquads.Reader.{is_eof}
use smart_web.Bundle.Writer.{mime_type, sha1_name}
use smart_web.Bundle.Reader.{
  ZipFile, Channel, closed, panicked, cannot_open, stopped, sent, graph_statements,
}
use smart_web.Server.Files.{OsError}
use smart_web.Server.Writing.{Os, and_then}
use smart_web.Server2.Url.{Url}
use smart_web.Server2.Query.{is_among}
use smart_web.Server2.Response.{Response, handle_error}
use smart_web.Server2.Bundle.Statements.{Item, statement, failure, Update, make_statements}

-- What the handler does: it answers, and the text is the update that it has asked the store for, or
-- none if it has not come so far.
pub record Outcome (W : Type 0) : Type 0 where
  pub response : Response
  pub asked : Option Bytes
  pub files : W

-- The request: its body, the error of reading the body, its type and what `NewReader` makes of the
-- body and the length that the request states.
pub record BundleRequest : Type 0 where
  pub body : Bytes
  pub body_error : Option OsError
  pub content_type : Bytes
  pub opened : Bytes ⊎ List ZipFile

-- the texts of errors: of opening an entry of an archive, and of reading
module _ (open_text : Bytes) (error_text : Error → Bytes) where
  -- what `Open` and `Copy` of an entry yield: an error's text, or the content
  unfoldable pub content_of : Option Reader → Bytes ⊎ Bytes
  content_of none = inl open_text
  content_of (some r) = if is_eof r.fault then inr r.input else inl (error_text r.fault)

  -- What `makeStatements` is given; none if the goroutine that fills the channel panics.
  unfoldable pub items : Channel → Option (List Item)
  items closed = some []
  items panicked = none
  items cannot_open = some (failure open_text ∷ [])
  items (stopped e) = some (failure (error_text e) ∷ [])
  items (sent st c) = elim (items c) [ none ↦ none | some rest ↦ some (statement st ∷ rest) ]

  module _ (sha1 : Bytes → Bytes) where
    unfoldable pub hash_of : Bytes ⊎ Bytes → Bytes ⊎ Bytes
    hash_of (inl e) = inl e
    hash_of (inr content) = inr (sha1_name sha1 content)

    -- `getBundleSHA1`
    unfoldable pub get_bundle_sha1 : ZipFile → Bytes ⊎ Bytes
    get_bundle_sha1 f = hash_of (content_of f.opened)

    -- `root` is the directory of the files, and `temp` the name that `TempFile` chooses in a state.
    module _ (root : Bytes) {W : Type 0} (os : Os W) (temp : W → Bytes) where
      -- A step whose failure lets the temporary file be removed, by a goroutine that the model runs at
      -- once.
      unfoldable pub or_remove : Bytes → Option OsError × W → Option OsError × W
      or_remove name (none, w) = (none, w)
      or_remove name (some e, w) = (some e, (os.remove name w).1)

      -- the copy of a file to a temporary one, which is then given its name
      unfoldable pub move_in : Bytes → Bytes → Bytes → W → Option OsError × W
      move_in name hash content w = and_then (os.create name w) (λ v.
          and_then (or_remove name (os.write name content v))
            (λ u. or_remove name (os.rename name (join_paths root hash) u)))

      unfoldable pub error_of : Option OsError × W → Option Bytes × W
      error_of (none, w) = (none, w)
      error_of (some e, w) = (some e.text, w)

      -- the copy of an entry that is wanted
      unfoldable pub store_content : Bytes → Bytes ⊎ Bytes → W → Option Bytes × W
      store_content hash (inl e) w = (some e, w)
      store_content hash (inr content) w = error_of (move_in (temp w) hash content w)

      -- what is done with an entry, by what hashing it has returned and what opening it again yields
      unfoldable pub store_hashed :
          List Bytes → Bytes ⊎ Bytes → Bytes ⊎ Bytes → W → Option Bytes × W
      store_hashed wanted (inl e) again w = (some e, w)
      store_hashed wanted (inr hash) again w =
          if not (is_among hash wanted) then (none, w) else store_content hash again w

      -- one round of the loop over the archive
      unfoldable pub store_entry : List Bytes → ZipFile → W → Option Bytes × W
      store_entry wanted f w =
          if has_prefix f.name (codes "sha1:")
          then store_hashed wanted (get_bundle_sha1 f) (content_of f.opened) w
          else (none, w)

      unfoldable pub unless_failed : Option Bytes × W → (W → Option Bytes × W) → Option Bytes × W
      unless_failed (none, w) next = next w
      unless_failed (some e, w) next = (some e, w)

      unfoldable pub store_all : List Bytes → List ZipFile → W → Option Bytes × W
      store_all wanted [] w = (none, w)
      store_all wanted (f ∷ fs) w = unless_failed (store_entry wanted f w) (store_all wanted fs)

      unfoldable pub refuse : ℕ → Bytes → W → Outcome W
      refuse status text w = record { response = handle_error status text; asked = none; files = w }

      -- `update` is the store's answer, none for success, and `report` the text about the durations.
      module _ (update : Bytes → Option Bytes) (report : Bytes) where
        unfoldable pub updated : Update → Option Bytes → W → Outcome W
        updated m none w = record {
          response = record {
            status = 200;
            headers = [];
            body = report ++ codes "\n" ++ join_texts (codes "\n") m.logs;
          };
          asked = some m.statements;
          files = w;
        }
        updated m (some e) w = record {
          response = handle_error 500 e;
          asked = some m.statements;
          files = w;
        }

        unfoldable pub after_files : Update → Option Bytes × W → Outcome W
        after_files m (none, w) = updated m (update m.statements) w
        after_files m (some e, w) = refuse 500 e w

        -- behind `makeStatements`
        unfoldable pub post_files : List ZipFile → Update → Option Bytes → W → Outcome W
        post_files files m none w = after_files m (store_all m.wanted_hashes files w)
        post_files files m (some e) w = refuse 400 e w

        -- `parse` and `show` are `Parse` and `String` of a URL.
        module _ (parse : Url → Bytes → Bytes ⊎ Url) (show : Url → Bytes) where
          unfoldable pub post_items :
              Url → List ZipFile → Option (List Item) → W → Option (Outcome W)
          post_items u files none w = none
          post_items u files (some is) w =
              let m = make_statements parse show u is in some (post_files files m m.error w)

          unfoldable pub post_opened : Url → Bytes ⊎ List ZipFile → W → Option (Outcome W)
          post_opened u (inl e) w = some (refuse 500 e w)
          post_opened u (inr files) w = post_items u files (items (graph_statements files)) w

          unfoldable pub post_copied : Url → BundleRequest → Option OsError × W → Option (Outcome W)
          post_copied u req (some e, w) = some (refuse 500 e.text w)
          post_copied u req (none, w) =
              if not (equal req.content_type mime_type)
              then some (refuse 400 (codes "Expected payload with type " ++ mime_type) w)
              else post_opened u req.opened w

          -- `handlePOSTBundle`, where none is a panic. To seek the start of the temporary file does
          -- not fail.
          unfoldable pub handle_post_bundle : Url → BundleRequest → W → Option (Outcome W)
          handle_post_bundle u req w = post_copied u req (
              and_then (os.create (temp w) w)
                (λ v. and_then (os.write (temp w) req.body v) (λ t. (req.body_error, t))))
