-- ===== src/Xml.antt =====
-- The part of libxml's tree that the program reads, and the libraries that it calls as parameters.
use istatserverlinux.Prelude.{Bool, false, true, List, [], ◌∷◌, Option, none, some, if◌then◌else◌}
use istatserverlinux.Text.{Bytes, str_eq}

-- `text` stands for every node that is no element: text, comments, references.
mutual
  pub data Node : Type 0 where
    element : Bytes → List (Bytes × Bytes) → Nodes → Node
    text : Bytes → Node

  pub data Nodes : Type 0 where
    nil : Nodes
    cons : Node → Nodes → Nodes

unfoldable pub find_prop : Bytes → List (Bytes × Bytes) → Option Bytes
find_prop key [] = none
find_prop key ((k, v) ∷ props) = if str_eq k key then some v else find_prop key props

-- xmlGetProp: NULL where the attribute is missing, or the node is no element.
unfoldable pub get_prop : Node → Bytes → Option Bytes
unfolding find_prop
get_prop (element name props children) key = find_prop key props
get_prop (text t) key = none

-- xmlStrEqual(node->name, name); a text node is named "text".
unfoldable pub has_name : Node → Bytes → Bool
has_name (element n props children) name = str_eq n name
has_name (text t) name = false

-- node->children
abbrev pub children : Node → Nodes
children (element name props c) = c
children (text t) = nil

-- node->type == XML_ELEMENT_NODE
abbrev pub is_element : Node → Bool
is_element (element name props c) = true
is_element (text t) = false

-- libxml and zlib, which the program links. `read_memory` is the root element of the document that
-- xmlCtxtReadMemory makes of a text, with `none` for a text that is not well formed. `deflate` and
-- `inflate` are the whole output of the stream, with `none` for an error.
pub record Libs : Type 0 where
  pub read_memory : Bytes → Option Node
  pub deflate : Bytes → Option Bytes
  pub inflate : Bytes → Option Bytes
