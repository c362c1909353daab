-- ===== src/Rss/Tokens.antt =====
-- The part of QXmlStreamReader that libsrc/rss2podcastsource.cpp reads a document with.
use digital_rooster_gui.Base.{String, Bool, true, false, ◌&&◌, List, [], ◌∷◌, str_eq, if◌then◌else◌}

-- An element has its namespace, its local name and, at its start, its attributes.
pub data Token : Type 0 where
  no_token start_document end_document processing_instruction invalid : Token
  start_element : String → String → List (String × String) → Token
  end_element : String → String → Token
  characters comment dtd : String → Token
  entity_reference : String → String → Token

-- The token that was read last, and those that readNext returns next.
pub record Reader : Type 0 where
  pub token : Token
  pub rest : List Token

advance : List Token → Reader
advance [] = record { token = invalid; rest = [] }
advance (t ∷ ts) = record { token = t; rest = ts }

unfoldable pub has_error : Token → Bool
has_error invalid = true
has_error _ = false

-- readNext
unfoldable pub read_next : Reader → Reader
unfolding advance
read_next r =
    if has_error r.token then record { token = invalid; rest = r.rest } else advance r.rest

-- text
unfoldable pub text : Token → String
text (characters s) = s
text (comment s) = s
text (dtd s) = s
text (entity_reference n s) = s
text _ = ""

-- name
unfoldable pub name : Token → String
name (start_element ns n attrs) = n
name (end_element ns n) = n
name (entity_reference n s) = n
name _ = ""

-- namespaceUri
unfoldable pub namespace : Token → String
namespace (start_element ns n attrs) = ns
namespace (end_element ns n) = ns
namespace _ = ""

value_of : String → List (String × String) → String
value_of k [] = ""
value_of k ((j, v) ∷ attrs) = if str_eq j k then v else value_of k attrs

-- attributes().value(k)
unfoldable pub attribute : String → Token → String
unfolding value_of
attribute k (start_element ns n attrs) = value_of k attrs
attribute k _ = ""

unfoldable pub is_start : Token → Bool
is_start (start_element ns n attrs) = true
is_start _ = false

unfoldable pub is_end : Token → Bool
is_end (end_element ns n) = true
is_end _ = false

-- `tokenType() == StartElement && name() == n`, and the same for EndElement.
unfoldable pub starts : String → Token → Bool
unfolding is_start name
starts n t = is_start t && str_eq (name t) n

unfoldable pub closes : String → Token → Bool
unfolding is_end name
closes n t = is_end t && str_eq (name t) n

unfoldable pub at_end : Token → Bool
at_end invalid = true
at_end end_document = true
at_end _ = false
