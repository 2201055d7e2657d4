-- ===== src/Bundle/Stored.antt =====
-- What readDir puts in the archive: an entry for each file, in the order of the files.
use smart_web.Base.{
  Bool, true, false, Option, none, some, List, [], ◌∷◌, ◌++◌, append_assoc, append-nil, map, ◌≡◌,
  refl, sym, ap, ◌∙◌, Bytes,
}
use mathlib.Core.List.{map-append}
use smart_web.Nquads.Stream.{new_reader, eof}
use smart_web.Nquads.Writer.{Written, wrote, refused}
use smart_web.Bundle.Writer.{
  ZipWriter, Writer, Failure, and_then, zip_result, add_entry, insert_file, sha1_name,
}
use smart_web.Bundle.Reader.{ZipFile}
use smart_web.Bundle.Command.{
  Found, not_opened, directory, file, Names, no_names, named, directory_path, add_written,
  add_child, read_file, enter, read_dir, read_names,
}

-- the name and the content of an entry
abbrev pub ZipEntry : Type 0
ZipEntry = Bytes × Bytes

-- an entry as a reader finds it
abbrev pub zip_file : ZipEntry → ZipFile
zip_file (name, content) = record { name = name; opened = some (new_reader content eof) }

-- What is relied on of archive/zip, given the entries of an archive in each of its states, and what
-- a reader that opens it finds: a call without an error does what it is for, and an archive that can
-- be opened behind `Close` has the entries that were written to it.
pub record ZipLaws {Z : Type 0} (zip : ZipWriter Z) (entries : Z → List ZipEntry)
    (open_reader : Z → Option (List ZipFile)) : Type 0 where
  pub created :
      (name : Bytes) (z v : Z)
      → zip.create name z ≡ (true, v)
      → entries v ≡ entries z ++ (name, []) ∷ []
  pub added :
      (content name old : Bytes) (es : List ZipEntry) (z v : Z)
      → zip.write content z ≡ (true, v)
      → entries z ≡ es ++ (name, old) ∷ []
      → entries v ≡ es ++ (name, old ++ content) ∷ []
  pub closed :
      (z : Z) (files : List ZipFile)
      → open_reader (zip.close z).1 ≡ some files
      → files ≡ map zip_file (entries z)

abbrev mutual
  -- the contents of the files that can be read
  pub contents : Found → List Bytes
  contents not_opened = []
  contents (directory names) = contents_in names
  contents (file none) = []
  contents (file (some content)) = content ∷ []

  pub contents_in : Names → List Bytes
  contents_in no_names = []
  contents_in (named name found names) = contents found ++ contents_in names

-- the entry of a file
abbrev pub stored : (Bytes → Bytes) → Bytes → ZipEntry
stored sha1 content = (sha1_name sha1 content, content)

module _ {A B : Type 0} where
  pub and_then-none :
      (r : Option Failure × A) (next : A → Option Failure × B) (stop : A → B) (b : B)
      → and_then r next stop ≡ (none, b)
      → (a : A) × (r ≡ (none, a)) × (next a ≡ (none, b))
  unfolding and_then
  and_then-none (none, a) next stop b h = (a, refl, h)
  and_then-none (some e, a) next stop b h = cc

module _ {Z : Type 0} where
  add_written-zip : (t : Written) (w v : Writer Z) → add_written t w ≡ (none, v) → v.zip ≡ w.zip
  unfolding add_written
  add_written-zip (wrote s) w v h = ap (λ x. x.1.zip) (sym h)
  add_written-zip (refused e) w v h = cc

  add_child-zip :
      (parent : Option Bytes) (path : Bytes) (w v : Writer Z)
      → add_child parent path w ≡ (none, v)
      → v.zip ≡ w.zip
  unfolding add_child
  add_child-zip none path w v h = ap (λ x. x.1.zip) (sym h)
  add_child-zip (some parent) path w v h = add_written-zip _ w v h

  enter-zip :
      (path : Bytes) (parent : Option Bytes) (w v : Writer Z)
      → enter path parent w ≡ (none, v)
      → v.zip ≡ w.zip
  unfolding enter
  enter-zip path parent w v h = add_child-zip parent path _ v h

module _ {Z : Type 0} (zip : ZipWriter Z) (entries : Z → List ZipEntry)
    (open_reader : Z → Option (List ZipFile)) (laws : ZipLaws zip entries open_reader) where
  zip_result-none :
      (graphs : Bytes) (x : Bool × Z) (w : Writer Z)
      → zip_result zip graphs x ≡ (none, w)
      → (x ≡ (true, w.zip)) × (w.graphs ≡ graphs)
  unfolding zip_result
  zip_result-none graphs (true, z) w h = (cc, cc)
  zip_result-none graphs (false, z) w h = cc

  -- An entry that is added without an error stands behind the others.
  pub add_entry-entries :
      (name content : Bytes) (w v : Writer Z)
      → add_entry zip name content w ≡ (none, v)
      → (entries v.zip ≡ entries w.zip ++ (name, content) ∷ []) × (v.graphs ≡ w.graphs)
  unfolding add_entry
  add_entry-entries name content w v h =
      let (u, made, filled) = and_then-none _ _ _ v h in
      let (m, gm) = zip_result-none w.graphs (zip.create name w.zip) u made in
      let (f, gf) = zip_result-none u.graphs (zip.write content u.zip) v filled in
      let empty = laws.created name w.zip u.zip m in
      (laws.added content name [] (entries w.zip) u.zip v.zip f empty, gf ∙ gm)

  module _ (sha1 : Bytes → Bytes) where
    pub insert_file-entries :
        (full_uri name content : Bytes) (w v : Writer Z)
        → insert_file zip sha1 full_uri name (some content) w ≡ (none, v)
        → entries v.zip ≡ entries w.zip ++ stored sha1 content ∷ []
    unfolding insert_file
    insert_file-entries full_uri name content w v h =
        let (u, made, noted) = and_then-none _ _ _ v h in
        let zips : u.zip ≡ v.zip = ap (λ x. x.1.zip) noted in
        rw (sym zips) (add_entry-entries (sha1_name sha1 content) content w u made).0

    insert_any-entries :
        (content : Option Bytes) (full_uri name : Bytes) (w v : Writer Z)
        → insert_file zip sha1 full_uri name content w ≡ (none, v)
        → entries v.zip ≡ entries w.zip ++ map (stored sha1) (contents (file content))
    unfolding insert_file
    insert_any-entries none full_uri name w v h = cc
    insert_any-entries (some content) full_uri name w v h =
        insert_file-entries full_uri name content w v h

    module _ (detect media_type : Bytes → Bytes) where
      read_file-entries :
          (content : Option Bytes) (path : Bytes) (parent : Option Bytes) (w v : Writer Z)
          → read_file zip sha1 detect media_type content path parent w ≡ (none, v)
          → entries v.zip ≡ entries w.zip ++ map (stored sha1) (contents (file content))
      unfolding read_file
      read_file-entries content path parent w v h =
          let (u, child, rest) = and_then-none _ _ _ v h in
          let (t, inserted, typed) = and_then-none _ _ _ v rest in
          let same_end : v.zip ≡ t.zip = add_written-zip _ t v typed in
          let same_start : u.zip ≡ w.zip = add_child-zip parent path w u child in
          ap entries same_end
          ∙ insert_any-entries content path path u t inserted
          ∙ ap (λ z. entries z ++ map (stored sha1) (contents (file content))) same_start

      mutual
        unfolding read_dir read_names

        found-entries :
            (found : Found) (path : Bytes) (parent : Option Bytes) (w v : Writer Z)
            → read_dir zip sha1 detect media_type found path parent w ≡ (none, v)
            → entries v.zip ≡ entries w.zip ++ map (stored sha1) (contents found)
        found-entries not_opened path parent w v h = cc
        found-entries (directory names) path parent w v h =
            let (u, entered, rest) = and_then-none _ _ _ v h in
            let same : u.zip ≡ w.zip = enter-zip (directory_path path) parent w u entered in
            read_names-entries names (directory_path path) u v rest
            ∙ ap (λ z. entries z ++ map (stored sha1) (contents_in names)) same
        found-entries (file content) path parent w v h = read_file-entries content path parent w v h

        read_names-entries :
            (names : Names) (path : Bytes) (w v : Writer Z)
            → read_names zip sha1 detect media_type names path w ≡ (none, v)
            → entries v.zip ≡ entries w.zip ++ map (stored sha1) (contents_in names)
        read_names-entries no_names path w v h = rw append-nil (ap (λ x. entries x.1.zip) (sym h))
        read_names-entries (named name found names) path w v h =
            let (u, first, rest) = and_then-none _ _ _ v h in
            read_names-entries names path u v rest
            ∙ rw (found-entries found _ (some path) w u first) (simp (map-append, append_assoc))

      -- Where archive/zip keeps its promises and `readDir` returns no error, it has added to the
      -- archive exactly one entry for each file that it found, in the order in which it met them: with
      -- the file's content, and under the name that is made of its hash.
      pub read_dir-entries :
          (found : Found) (path : Bytes) (parent : Option Bytes) (w v : Writer Z)
          → read_dir zip sha1 detect media_type found path parent w ≡ (none, v)
          → entries v.zip ≡ entries w.zip ++ map (stored sha1) (contents found)
      read_dir-entries = found-entries
