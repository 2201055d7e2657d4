-- ===== src/Nquads/Writer.antt =====
-- nquads/writer.go: a method returns the bytes that it writes, or the error with nothing written.
-- The underlying io.Writer is not modelled: its error is passed on by every method.
use smart_web.Base.{[], ◌∷◌, ◌++◌, if◌then◌else◌, is_empty, Bytes, replace}
use smart_web.Nquads.Node.{Any, encode_any, encode_iri, encode_iri_or_blank}

pub data WriteError : Type 0 where
  invalid_subject invalid_object : WriteError

pub data Written : Type 0 where
  wrote : Bytes → Written
  refused : WriteError → Written

unfoldable pub write_empty_line : Bytes
write_empty_line = b'\n' ∷ []

unfoldable pub write_comment : Bytes → Bytes
write_comment comment = b'#' ∷ (replace b'\n' (b'\n' ∷ b'#' ∷ []) comment ++ b'\n' ∷ [])

-- `fmt.Sprintf("%s %s %s %s .\n", s, p, o, g)`
unfoldable pub quad_line : Bytes → Bytes → Bytes → Bytes → Bytes
quad_line s p o g = s ++ b' ' ∷ (p ++ b' ' ∷ (o ++ b' ' ∷ (g ++ b' ' ∷ b'.' ∷ b'\n' ∷ [])))

-- `fmt.Sprintf("%s %s %s .\n", s, p, o)`
unfoldable pub triple_line : Bytes → Bytes → Bytes → Bytes
triple_line s p o = s ++ b' ' ∷ (p ++ b' ' ∷ (o ++ b' ' ∷ b'.' ∷ b'\n' ∷ []))

unfoldable pub write_quad : Any → Bytes → Any → Bytes → Written
write_quad subject predicate object graph =
    let s = encode_iri_or_blank subject in
    let p = encode_iri predicate in
    let o = encode_any object in
    let g = encode_iri graph in
    if is_empty s
    then refused invalid_subject
    else if is_empty o
    then refused invalid_object
    else wrote (quad_line s p o g)

unfoldable pub write_quad_iri : Any → Bytes → Bytes → Bytes → Written
write_quad_iri subject predicate object graph =
    let s = encode_iri_or_blank subject in
    let p = encode_iri predicate in
    let o = encode_iri object in
    let g = encode_iri graph in
    if is_empty s then refused invalid_subject else wrote (quad_line s p o g)

unfoldable pub write_triple : Any → Bytes → Any → Written
write_triple subject predicate object =
    let s = encode_iri_or_blank subject in
    let p = encode_iri predicate in
    let o = encode_any object in
    if is_empty s
    then refused invalid_subject
    else if is_empty o
    then refused invalid_object
    else wrote (triple_line s p o)

unfoldable pub write_triple_iri : Any → Bytes → Bytes → Written
write_triple_iri subject predicate object =
    let s = encode_iri_or_blank subject in
    let p = encode_iri predicate in
    let o = encode_iri object in
    if is_empty s then refused invalid_subject else wrote (triple_line s p o)
