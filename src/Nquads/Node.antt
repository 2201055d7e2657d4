-- ===== src/Nquads/Node.antt =====
-- nquads/literals.go: the nodes of a statement, and the encoding of nodes and of Go values.
use smart_web.Base.{
  Bool, true, false, not, ◌||◌, [], ◌∷◌, ◌++◌, if◌then◌else◌, is_empty, Bytes, codes, equal, ℤ,
  format_d,
}
use smart_web.Turtle.{escape, escape_iri_chars, escape_string_more_chars}

abbrev pub xsd_namespace : Bytes
xsd_namespace = codes "http://www.w3.org/2001/XMLSchema#"

abbrev pub xsd_string : Bytes
xsd_string = xsd_namespace ++ codes "string"

pub record LiteralNode : Type 0 where
  pub value : Bytes
  pub lang : Bytes
  pub type : Bytes

-- The implementations of the interface `Node` that the reader makes; nil is `none` of `Option Node`.
pub data Node : Type 0 where
  blank_node : Bytes → Node
  iri_node : Bytes → Node
  literal_node : LiteralNode → Node

-- A value of type interface{}, by the cases that the type switches tell apart. A URL stands by the
-- text of its method String, and an integer of any width by its value.
pub data Any : Type 0 where
  any_literal : LiteralNode → Any
  any_blank any_iri any_string_node any_string any_url : Bytes → Any
  any_loc_string any_typed_string : Bytes → Bytes → Any
  any_bool : Bool → Any
  any_int : ℤ → Any
  any_node : Node → Any
  any_other : Any

unfoldable pub escape_string : Bytes → Bytes
escape_string s = escape s escape_string_more_chars

unfoldable pub escape_iri : Bytes → Bytes
escape_iri s = escape s escape_iri_chars

unfoldable pub encode_string : Bytes → Bytes
encode_string s = b'"' ∷ (escape_string s ++ b'"' ∷ [])

unfoldable pub encode_iri : Bytes → Bytes
encode_iri iri = b'<' ∷ (escape_iri iri ++ b'>' ∷ [])

unfoldable pub encode_loc_string : Bytes → Bytes → Bytes
encode_loc_string s lang = encode_string s ++ (b'@' ∷ lang)

unfoldable pub encode_typed_string : Bytes → Bytes → Bytes
encode_typed_string s type_iri = encode_string s ++ (b'^' ∷ b'^' ∷ encode_iri type_iri)

unfoldable pub encode_blank : Bytes → Bytes
encode_blank name = b'_' ∷ b':' ∷ name

unfoldable pub encode_boolean : Bool → Bytes
encode_boolean true = encode_typed_string (codes "true") (xsd_namespace ++ codes "boolean")
encode_boolean false = encode_typed_string (codes "false") (xsd_namespace ++ codes "boolean")

unfoldable pub encode_integer : ℤ → Bytes
encode_integer i = encode_typed_string (format_d i) (xsd_namespace ++ codes "number")

-- `LiteralNode.Encode`
unfoldable pub encode_literal : LiteralNode → Bytes
encode_literal lit =
    if not (is_empty lit.lang)
    then encode_loc_string lit.value lit.lang
    else if is_empty lit.type || equal lit.type xsd_string
    then encode_string lit.value
    else encode_typed_string lit.value lit.type

-- the method `Encode` of the interface
unfoldable pub encode_node : Node → Bytes
encode_node (blank_node name) = encode_blank name
encode_node (iri_node iri) = encode_iri iri
encode_node (literal_node lit) = encode_literal lit

unfoldable pub encode_any : Any → Bytes
encode_any (any_literal lit) = encode_literal lit
encode_any (any_blank s) = encode_blank s
encode_any (any_iri s) = encode_iri s
encode_any (any_loc_string s lang) = encode_loc_string s lang
encode_any (any_typed_string s t) = encode_typed_string s t
encode_any (any_string_node s) = encode_string s
encode_any (any_string s) = encode_string s
encode_any (any_url s) = encode_iri s
encode_any (any_bool b) = encode_boolean b
encode_any (any_int i) = encode_integer i
encode_any (any_node n) = encode_node n
encode_any any_other = []

unfoldable pub encode_iri_or_blank : Any → Bytes
encode_iri_or_blank (any_blank s) = encode_blank s
encode_iri_or_blank (any_iri s) = encode_iri s
encode_iri_or_blank (any_string s) = encode_iri s
encode_iri_or_blank (any_url s) = encode_iri s
encode_iri_or_blank _ = []

unfoldable pub encode_iri_interface : Any → Bytes
encode_iri_interface (any_iri s) = encode_iri s
encode_iri_interface (any_string s) = encode_iri s
encode_iri_interface (any_url s) = encode_iri s
encode_iri_interface _ = []
