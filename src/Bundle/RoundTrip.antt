-- ===== src/Bundle/RoundTrip.antt =====
-- A bundle that is written and then read.
use smart_web.Base.{
  ℕ, suc, ◌<◌, false, Option, none, some, List, [], ◌∷◌, ◌++◌, append_assoc, append-nil, map, ◌≡◌,
  refl, sym, ap, ◌∙◌, arith, All, All-append, All-snoc, Bytes, codes, equal, length, contains,
}
use smart_web.Utf8.{IsScalar, encode}
use smart_web.Nquads.Statement.{Statement}
use smart_web.Nquads.Stream.{new_reader, eof}
use smart_web.Bundle.Writer.{
  ZipWriter, Writer, Failure, and_then, new_writer, insert_file, close, header_text, file_text,
  sha1_name, mime_type,
}
use smart_web.Bundle.Reader.{
  ZipFile, graph_reader, graph, opened_graph, graph_channel, graph_statements,
}
use smart_web.Bundle.Stored.{
  ZipEntry, zip_file, ZipLaws, stored, and_then-none, add_entry-entries, insert_file-entries,
}
use smart_web.Bundle.Lines.{IsCommentRune}
use smart_web.Bundle.Yields.{Yields, Yields-nil, Yields-Runs, sent_all}
use smart_web.Bundle.Texts.{file_statements, Yields-file_text, IsPlain, hex-IsPlain}
use smart_web.Bundle.Headers.{header_statements, Yields-header_text}

-- A file as it is inserted: its URI and its name by their runes, and its content.
pub record Insertion : Type 0 where
  pub uri : List ℕ
  pub name : List ℕ
  pub content : Bytes

-- A name holds no carriage return, which would end the comment that it is written to.
abbrev pub IsInsertion : Insertion → Type 0
IsInsertion f = All IsScalar f.uri × All IsCommentRune f.name

-- An entry that is not the graph's.
abbrev IsOther : ZipEntry → Type 0
IsOther e = equal e.0 (codes "graphs.nq") ≡ false

graph-last :
    (es : List ZipEntry) (text : Bytes)
    → All IsOther es
    → graph (map zip_file (es ++ (codes "graphs.nq", text) ∷ []))
      ≡ graph_reader (new_reader text eof)
unfolding graph
graph-last [] text h = unfold equal opened_graph in refl
graph-last (e ∷ es) text (p, h) = rw (p, graph-last es text h) refl

prefix-IsPlain : All IsPlain (codes "sha1:")
unfolding contains
prefix-IsPlain = ground arith

graph_channel-Yields :
    (text : Bytes) (sts : List Statement)
    → Yields text sts
    → graph_channel (graph_reader (new_reader text eof)) ≡ sent_all sts
unfolding graph_channel
graph_channel-Yields text sts y =
    Yields-Runs text sts y (suc (length text)) (new_reader text eof) refl (omega arith)

module _ (sha1 : Bytes → Bytes) where
  abbrev files_text : List Insertion → Bytes
  files_text [] = []
  files_text (f ∷ fs) =
      file_text (encode f.uri) (encode f.name) (sha1_name sha1 f.content) ++ files_text fs

  -- what is read back of what a bundle states of its files
  abbrev pub files_statements : List Insertion → List Statement
  files_statements [] = []
  files_statements (f ∷ fs) =
      file_statements f.uri f.name (sha1_name sha1 f.content) ++ files_statements fs

  module _ (sums : (s : Bytes) → All (λ b. b < 256) (sha1 s)) where
    sha1_name-IsPlain : (s : Bytes) → All IsPlain (sha1_name sha1 s)
    unfolding sha1_name
    sha1_name-IsPlain s =
        All-append IsPlain (codes "sha1:") _ prefix-IsPlain (hex-IsPlain (sha1 s) (sums s))

    Yields-files :
        (fs : List Insertion) → All IsInsertion fs → Yields (files_text fs) (files_statements fs)
    Yields-files [] h = Yields-nil
    Yields-files (f ∷ fs) ((hu, hn), h) =
        Yields-file_text f.uri f.name (sha1_name sha1 f.content) _ _ hu hn
          (sha1_name-IsPlain f.content) (Yields-files fs h)

module _ {Z : Type 0} (zip : ZipWriter Z) (entries : Z → List ZipEntry)
    (open_reader : Z → Option (List ZipFile)) (laws : ZipLaws zip entries open_reader)
    (sha1 : Bytes → Bytes) where
  -- `InsertFile` of each file, up to the first error
  abbrev pub insert_all : List Insertion → Writer Z → Option Failure × Writer Z
  insert_all [] w = (none, w)
  insert_all (f ∷ fs) w =
      and_then (insert_file zip sha1 (encode f.uri) (encode f.name) (some f.content) w)
        (insert_all fs) (λ v. v)

  insert_file-graphs :
      (full_uri name content : Bytes) (w v : Writer Z)
      → insert_file zip sha1 full_uri name (some content) w ≡ (none, v)
      → v.graphs ≡ w.graphs ++ file_text full_uri name (sha1_name sha1 content)
  unfolding insert_file
  insert_file-graphs full_uri name content w v h =
      let (u, made, noted) = and_then-none _ _ _ v h in
      let same =
        (add_entry-entries zip entries open_reader laws (sha1_name sha1 content) content w u
          made).1 in
      sym (ap (λ x. x.1.graphs) noted)
      ∙ ap (λ g. g ++ file_text full_uri name (sha1_name sha1 content)) same

  insert_all-graphs :
      (fs : List Insertion) (w v : Writer Z)
      → insert_all fs w ≡ (none, v)
      → v.graphs ≡ w.graphs ++ files_text sha1 fs
  insert_all-graphs [] w v h = rw append-nil (sym (ap (λ x. x.1.graphs) h))
  insert_all-graphs (f ∷ fs) w v h =
      let (u, made, rest) = and_then-none _ _ _ v h in
      insert_all-graphs fs u v rest
      ∙ rw (insert_file-graphs (encode f.uri) (encode f.name) f.content w u made)
          (simp append_assoc)

  sha1_name-IsOther : (content : Bytes) → IsOther (stored sha1 content)
  unfolding sha1_name equal
  sha1_name-IsOther content = refl

  insert_all-IsOther :
      (fs : List Insertion) (w v : Writer Z)
      → insert_all fs w ≡ (none, v)
      → All IsOther (entries w.zip)
      → All IsOther (entries v.zip)
  insert_all-IsOther [] w v h k = rw (sym (ap (λ x. x.1.zip) h)) k
  insert_all-IsOther (f ∷ fs) w v h k =
      let (u, made, rest) = and_then-none _ _ _ v h in
      let stands =
        insert_file-entries zip entries open_reader laws sha1 (encode f.uri) (encode f.name)
          f.content w u made in
      insert_all-IsOther fs u v rest
        (rw stands (All-snoc IsOther _ _ k (sha1_name-IsOther f.content)))

  new_writer-starts :
      (base : Bytes) (z : Z) (w : Writer Z)
      → entries z ≡ []
      → new_writer zip base z ≡ (none, w)
      → All IsOther (entries w.zip) × (w.graphs ≡ header_text base)
  unfolding new_writer
  new_writer-starts base z w e h =
      let (u, made, noted) = and_then-none _ _ _ w h in
      let (stands, same) =
        add_entry-entries zip entries open_reader laws (codes "mimetype") mime_type _ u made in
      let zips : w.zip ≡ u.zip = sym (ap (λ x. x.1.zip) noted) in
      (rw (zips, stands, e) (unfold equal in (refl, tt)), sym (ap (λ x. x.1.graphs) noted))

  -- Where archive/zip keeps its promises, SHA-1 yields bytes, and a bundle is made without an error:
  -- from an empty archive by `NewWriter` with a base URI, `InsertFile` of each file of a list, and
  -- `Close`, all texts being of Unicode scalar values and no name holding a carriage return. If a
  -- reader can open it then, the channel of `GraphStatements` yields one statement for each that the
  -- header and the files have, in their order, and is closed. Each statement is the one that was
  -- written, but for the base URI and the files' URIs: of these it has what the reader makes of them,
  -- where each rune is the one that `reread` gives.
  pub graph_statements-close :
      (base : List ℕ) (fs : List Insertion) (z closed : Z) (w v : Writer Z) (files : List ZipFile)
      → ((s : Bytes) → All (λ b. b < 256) (sha1 s))
      → All IsScalar base
      → All IsInsertion fs
      → entries z ≡ []
      → new_writer zip (encode base) z ≡ (none, w)
      → insert_all fs w ≡ (none, v)
      → close zip v ≡ (none, closed)
      → open_reader closed ≡ some files
      → graph_statements files ≡ sent_all (header_statements base ++ files_statements sha1 fs)
  unfolding close graph_statements
  graph_statements-close base fs z closed w v files sums hb hf empty started inserted ended opened =
      let (others, header) = new_writer-starts (encode base) z w empty started in
      let body = insert_all-graphs fs w v inserted in
      let (u, made, last) = and_then-none _ _ _ closed ended in
      let (stands, same) =
        add_entry-entries zip entries open_reader laws (codes "graphs.nq") v.graphs v u made in
      let found : files ≡ map zip_file (entries v.zip ++ (codes "graphs.nq", v.graphs) ∷ []) =
        laws.closed u.zip files (rw (ap (λ x. x.1) last) opened) ∙ ap (map zip_file) stands in
      let text : v.graphs ≡ header_text (encode base) ++ files_text sha1 fs =
        rw (sym header) body in
      rw
        (
          found,
          graph-last (entries v.zip) v.graphs (insert_all-IsOther fs w v inserted others),
          text,
        )
        (graph_channel-Yields _ _ (
          Yields-header_text base (files_text sha1 fs) (files_statements sha1 fs) hb
            (Yields-files sha1 sums fs hf)))
