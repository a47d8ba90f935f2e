-- ===== src/Headers.antt =====
-- headers_map.go: the ordered list of the headers of a message.
pub mod Laws
use gb.Base.{Bool, not, Option, List, [], ◌∷◌, ◌++◌, map}
use gb.Base.{if◌then◌else◌}
use gb.Base.{keep, find_first}
use gb.Base.{Bytes, bytes_eq}
use gb.Header.Name.{canonical_name}
use gb.Header.Fields.{Header, name, value}

abbrev pub Headers : Type 0
Headers = List Header

-- whether the header's canonical name is `cn`
abbrev pub is_named : Bytes → Header → Bool
is_named cn h = bytes_eq (canonical_name (name h)) cn

abbrev pub is_not_named : Bytes → Header → Bool
is_not_named cn h = not (is_named cn h)

unfoldable pub add : Header → Headers → Headers
add h hs = hs ++ h ∷ []

unfoldable pub prepend : Header → Headers → Headers
prepend h hs = h ∷ hs

-- replace the first header of that canonical name and drop the later ones, or append
unfoldable pub set_named : Bytes → Header → Headers → Headers
set_named cn h [] = h ∷ []
set_named cn h (g ∷ hs) =
    if is_named cn g then h ∷ keep (is_not_named cn) hs else g ∷ set_named cn h hs

unfoldable pub set : Header → Headers → Headers
set h hs = set_named (canonical_name (name h)) h hs

unfoldable pub get : Bytes → Headers → Option Header
get n hs = find_first (is_named (canonical_name n)) hs

unfoldable pub all : Bytes → Headers → Headers
all n hs = keep (is_named (canonical_name n)) hs

unfoldable pub del : Bytes → Headers → Headers
del n hs = keep (is_not_named (canonical_name n)) hs

unfoldable pub values : Bytes → Headers → List Bytes
values n hs = map value (keep (is_named (canonical_name n)) hs)

unfoldable pub to_string : Headers → Bytes
to_string [] = []
to_string (h ∷ hs) = name h ++ (b':' ∷ b' ' ∷ (value h ++ (13 ∷ 10 ∷ to_string hs)))
