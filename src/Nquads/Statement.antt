-- ===== src/Nquads/Statement.antt =====
-- nquads/nquads.go: statements, their accessors and their print.
use smart_web.Base.{Bool, true, false, [], ◌∷◌, ◌++◌, Option, none, some, Bytes, codes}
use smart_web.Nquads.Node.{Node, blank_node, iri_node, literal_node, LiteralNode, encode_node}

-- A field is `none` where the source has nil.
pub record Statement : Type 0 where
  pub subject : Option Node
  pub predicate : Option Node
  pub object : Option Node
  pub graph : Option Node

-- TypeNone, TypeBlank, TypeIri, TypeLiteral
pub data NodeType : Type 0 where
  type_none type_blank type_iri type_literal : NodeType

print_node : Option Node → Bytes
unfolding encode_node
print_node none = codes "nil"
print_node (some n) = encode_node n

print_graph : Option Node → Bytes
unfolding encode_node
print_graph none = codes " ."
print_graph (some g) = b' ' ∷ (encode_node g ++ codes " .")

-- `String`
unfoldable pub print_statement : Statement → Bytes
unfolding print_node print_graph
print_statement st =
    print_node st.subject
    ++ b' ' ∷ (print_node st.predicate ++ b' ' ∷ (print_node st.object ++ print_graph st.graph))

subject_type_of : Option Node → NodeType
subject_type_of (some (iri_node _)) = type_iri
subject_type_of (some (blank_node _)) = type_blank
subject_type_of _ = type_none

unfoldable pub subject_type : Statement → NodeType
unfolding subject_type_of
subject_type st = subject_type_of st.subject

subject_of : Option Node → Bytes × NodeType
subject_of (some (iri_node s)) = (s, type_iri)
subject_of (some (blank_node s)) = (s, type_blank)
subject_of _ = ([], type_none)

unfoldable pub subject : Statement → Bytes × NodeType
unfolding subject_of
subject st = subject_of st.subject

iri_of : Option Node → Bytes × Bool
iri_of (some (iri_node s)) = (s, true)
iri_of _ = ([], false)

unfoldable pub predicate : Statement → Bytes
unfolding iri_of
predicate st = (iri_of st.predicate).0

object_type_of : Option Node → NodeType
object_type_of (some (iri_node _)) = type_iri
object_type_of (some (blank_node _)) = type_blank
object_type_of (some (literal_node _)) = type_literal
object_type_of none = type_none

unfoldable pub object_type : Statement → NodeType
unfolding object_type_of
object_type st = object_type_of st.object

unfoldable pub object_iri : Statement → Bytes × Bool
unfolding iri_of
object_iri st = iri_of st.object

blank_of : Option Node → Bytes × Bool
blank_of (some (blank_node s)) = (s, true)
blank_of _ = ([], false)

unfoldable pub object_blank : Statement → Bytes × Bool
unfolding blank_of
object_blank st = blank_of st.object

literal_of : Option Node → Option LiteralNode
literal_of (some (literal_node lit)) = some lit
literal_of _ = none

-- `ObjectLiteral`; the node holds the value, the type and the language
unfoldable pub object_literal : Statement → Option LiteralNode
unfolding literal_of
object_literal st = literal_of st.object

is_present : Option Node → Bool
is_present none = false
is_present (some _) = true

unfoldable pub has_graph : Statement → Bool
unfolding is_present
has_graph st = is_present st.graph

unfoldable pub graph : Statement → Bytes × Bool
unfolding iri_of
graph st = iri_of st.graph
