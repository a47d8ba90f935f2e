-- ===== src/Params.antt =====
-- params.go: the parameters of URIs and headers. A nil `*Params` is the empty list: each method
-- gives the same on both, and callers make one before they set a key.
pub mod Laws
use gb.Base.{ℕ}
use gb.Base.{Bool, true, false, not, ◌&&◌, ◌||◌, Option, none, some, List, [], ◌∷◌, ◌++◌}
use gb.Base.{◌==◌, if◌then◌else◌}
use gb.Base.{is_nil, keep}
use gb.Base.{err_parse}
use gb.Base.{Result, ok, err, ◌>>=◌}
use gb.Base.{
  Bytes, to_lower, equal_fold, trim_space, cut, contains_any, replace_byte, unescape_quotes,
}

pub record Param : Type 0 where
  pub key : Bytes
  pub value : Bytes
  pub has_value : Bool

abbrev pub Params : Type 0
Params = List Param

-- (*Params).set: replace the first entry with the key, or append.
unfoldable pub set_param : Param → Params → Params
set_param p [] = p ∷ []
set_param p (q ∷ ps) = if equal_fold q.key p.key then p ∷ ps else q ∷ set_param p ps

unfoldable pub set : Bytes → Bytes → Params → Params
set key value = set_param (record { key = key; value = value; has_value = true })

unfoldable pub set_flag : Bytes → Params → Params
set_flag key = set_param (record { key = key; value = []; has_value = false })

-- (*Params).Get: the value, and whether there is one. A flag has none.
unfoldable pub get : Bytes → Params → Bytes × Bool
get key [] = ([], false)
get key (p ∷ ps) = if equal_fold p.key key then (p.value, p.has_value) else get key ps

unfoldable pub has : Bytes → Params → Bool
has key [] = false
has key (p ∷ ps) = if equal_fold p.key key then true else has key ps

unfoldable pub del : Bytes → Params → Params
del key [] = []
del key (p ∷ ps) = if equal_fold p.key key then ps else p ∷ del key ps

unfoldable pub keys : Params → List Bytes
keys [] = []
keys (p ∷ ps) = p.key ∷ keys ps

-- uri.go: sanitizeField strips CR, LF and NUL.
unfoldable pub is_delimiter : ℕ → Bool
is_delimiter c = c == 13 || c == 10 || c == 0

unfoldable pub sanitize_field : Bytes → Bytes
sanitize_field s = keep (λ c. not (is_delimiter c)) s

unfoldable pub needs_quotes : ℕ → Bool
needs_quotes c = c == b'"' || c == b';' || c == b'?' || c == b','

unfoldable pub escape_param : Bytes → Bytes
escape_param v =
    if contains_any needs_quotes v
    then b'"' ∷ (sanitize_field (replace_byte b'"' (b'\\' ∷ b'"' ∷ []) v) ++ b'"' ∷ [])
    else sanitize_field v

-- (*Params).String
unfoldable pub to_string : Params → Bytes
to_string [] = []
to_string (p ∷ ps) =
    b';'
    ∷ (escape_param p.key
        ++ ((if p.has_value then b'=' ∷ escape_param p.value else []) ++ to_string ps))

-- splitParamList: the parts between semicolons that stand outside quotes. The flags are
-- `inQuote` and `escaped`, and `cur` is `s[start:i]`.
unfoldable pub split_list : Bool → Bool → Bytes → Bytes → List Bytes
split_list in_quote escaped cur [] = cur ∷ []
split_list in_quote true cur (c ∷ s) = split_list in_quote false (cur ++ c ∷ []) s
split_list in_quote false cur (c ∷ s) = elim (c == b'\\' && in_quote) [
  | true ↦ split_list in_quote true (cur ++ c ∷ []) s
  | false ↦ elim (c == b'"') [
    | true ↦ split_list (not in_quote) false (cur ++ c ∷ []) s
    | false ↦ elim (c == b';' && not in_quote) [
      | true ↦ cur ∷ split_list in_quote false [] s
      | false ↦ split_list in_quote false (cur ++ c ∷ []) s
    ]
  ]
]

-- the text between the quotes, if the last byte is one
unfoldable pub drop_last_quote : Bytes → Option Bytes
drop_last_quote [] = none
drop_last_quote (c ∷ []) = if c == b'"' then some [] else none
drop_last_quote (c ∷ d ∷ s) = elim (drop_last_quote (d ∷ s)) [ none ↦ none | some r ↦ some (c ∷ r) ]

unfoldable pub unquote : Bytes → Bytes
unquote [] = []
unquote (c ∷ s) =
    if c == b'"'
    then elim (drop_last_quote s) [ none ↦ c ∷ s | some r ↦ unescape_quotes r ]
    else c ∷ s

unfoldable pub is_forbidden_in_key : ℕ → Bool
is_forbidden_in_key c =
    c == b'"'
    || c == b';'
    || c == b','
    || c == b'?'
    || c == b'<'
    || c == b'>'
    || c == b'('
    || c == b')'
    || c == b'@'
    || c == b':'
    || c == b'\\'
    || c == b'['
    || c == b']'

-- one part of the list: the checks on its key, then the entry
unfoldable pub parse_part : Bytes → Option Bytes → Params → Result Params
parse_part k v ps =
    let key = trim_space k in
    if is_nil key || contains_any is_forbidden_in_key key
    then err err_parse
    else ok (elim v [
      | none ↦ set_flag (to_lower key) ps
      | some value ↦ set (to_lower key) (unquote (trim_space value)) ps
    ])

-- strings.Cut(part, "=")
abbrev pub key_of : Bytes → Option (Bytes × Bytes) → Bytes
key_of part none = part
key_of part (some kv) = kv.0

abbrev pub value_of : Option (Bytes × Bytes) → Option Bytes
value_of none = none
value_of (some kv) = some kv.1

-- the loop of ParseParams over the parts
unfoldable pub parse_parts : List Bytes → Params → Result Params
parse_parts [] ps = ok ps
parse_parts (part ∷ parts) ps = elim (is_nil part) [
  | true ↦ parse_parts parts ps
  | false ↦
      parse_part (key_of part (cut b'=' part)) (value_of (cut b'=' part)) ps >>= parse_parts parts
]

-- strings.TrimPrefix(s, ";")
unfoldable pub trim_semicolon : Bytes → Bytes
trim_semicolon [] = []
trim_semicolon (c ∷ s) = if c == b';' then s else c ∷ s

unfoldable pub parse : Bytes → Result Params
parse s =
    let t = trim_semicolon s in
    elim (is_nil t) [ true ↦ ok [] | false ↦ parse_parts (split_list false false [] t) [] ]
