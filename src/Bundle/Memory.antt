-- ===== src/Bundle/Memory.antt =====
-- An archive in memory, which does what the writer of a bundle relies on.
use smart_web.Base.{
  Bool, true, false, Option, some, List, [], ◌∷◌, ◌++◌, map, ◌≡◌, refl, sym, ap, ◌∙◌, Bytes,
}
use smart_web.Bundle.Writer.{ZipWriter}
use smart_web.Bundle.Reader.{ZipFile}
use smart_web.Bundle.Stored.{ZipEntry, zip_file, ZipLaws}

-- the entries `e ∷ es` with `content` behind the last one
unfoldable pub add_behind : Bytes → ZipEntry → List ZipEntry → List ZipEntry
add_behind content (name, old) [] = (name, old ++ content) ∷ []
add_behind content e (f ∷ es) = e ∷ add_behind content f es

unfoldable pub add_last : Bytes → List ZipEntry → Bool × List ZipEntry
add_last content [] = (false, [])
add_last content (e ∷ es) = (true, add_behind content e es)

abbrev pub archive : ZipWriter (List ZipEntry)
archive = record {
  create = λ name z. (true, z ++ (name, []) ∷ []);
  write = add_last;
  close = λ z. (true, z);
}

abbrev pub open_archive : List ZipEntry → Option (List ZipFile)
open_archive z = some (map zip_file z)

add_behind-snoc :
    (content name old : Bytes) (e : ZipEntry) (es : List ZipEntry)
    → add_behind content e (es ++ (name, old) ∷ []) ≡ e ∷ (es ++ (name, old ++ content) ∷ [])
unfolding add_behind
add_behind-snoc content name old e [] = refl
add_behind-snoc content name old e (f ∷ es) =
    ap (λ x. e ∷ x) (add_behind-snoc content name old f es)

add_last-snoc :
    (content name old : Bytes) (es : List ZipEntry)
    → (add_last content (es ++ (name, old) ∷ [])).1 ≡ es ++ (name, old ++ content) ∷ []
unfolding add_last
add_last-snoc content name old [] = unfold add_behind in refl
add_last-snoc content name old (e ∷ es) = add_behind-snoc content name old e es

pub archive-laws : ZipLaws archive (λ z. z) open_archive
archive-laws = record {
  created = λ name z v h. sym (ap (λ x. x.1) h);
  added = λ content name old es z v h e.
      sym (ap (λ x. x.1) h)
      ∙ ap (λ x. (add_last content x).1) e
      ∙ add_last-snoc content name old es;
  closed = λ z files h. cc;
}
