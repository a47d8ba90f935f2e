-- ===== src/Header/Address.antt =====
-- headers.go: name-addr values, alone and in lists.
use gb.Base.{ℕ}
use gb.Base.{Bool, true, false, not, ◌&&◌, ◌||◌, Option, none, some, List, [], ◌∷◌, ◌++◌, map}
use gb.Base.{◌==◌, if◌then◌else◌}
use gb.Base.{is_nil, head?}
use gb.Base.{ℤ, pos, eqz, dec_int, inc_int}
use gb.Base.{err_bad_address}
use gb.Base.{Result, ok, err, ◌>>=◌}
use gb.Base.{Bytes, codes, bytes_eq, trim_space, cut, cut_last, contains_any, join, replace_byte}
use gb.Params
use gb.Params.{Params}
use gb.Uri
use gb.Uri.{Uri}

pub record Address : Type 0 where
  pub display_name : Bytes
  pub quoted : Bool
  pub uri : Uri
  pub params : Params

unfoldable pub params_after : Bytes → Result Params
params_after [] = ok []
params_after (c ∷ s) = Params.parse (c ∷ s)

-- ParseAddress at `raw<uri>rest`
unfoldable pub parse_bracketed : Bytes → Bytes → Bytes → Result Address
parse_bracketed raw uri_text rest = do
  uri ← Uri.parse uri_text
  params ← params_after (trim_space rest)
  ok (record {
    display_name = Params.unquote (trim_space raw);
    quoted = not (bytes_eq (trim_space raw) (Params.unquote (trim_space raw)));
    uri = uri;
    params = params;
  })

abbrev pub bare_address : Result Uri → Result Address
bare_address (err e) = err err_bad_address
bare_address (ok u) = ok (record { display_name = []; quoted = false; uri = u; params = [] })

-- The last `>` must stand behind the first `<`.
unfoldable pub parse : Bytes → Result Address
parse text =
    let s = trim_space text in
    elim (cut b'<' s) [
      | none ↦ bare_address (Uri.parse s)
      | some open_at ↦ elim (cut_last b'>' open_at.1) [
        | none ↦ err err_bad_address
        | some close_at ↦ parse_bracketed open_at.0 close_at.0 close_at.1
      ]
    ]

unfoldable pub tag : Address → Bytes
tag a = (Params.get (codes "tag") a.params).0

unfoldable pub set_tag : Bytes → Address → Address
set_tag t a = record a { params = Params.set (codes "tag") t a.params }

unfoldable pub is_display_special : ℕ → Bool
is_display_special c = c == b',' || c == b';' || c == b'"' || c == b' '

unfoldable pub render_name : Address → Bytes
render_name a =
    if is_nil a.display_name
    then []
    else if a.quoted || contains_any is_display_special a.display_name
    then b'"' ∷ (replace_byte b'"' (b'\\' ∷ b'"' ∷ []) a.display_name ++ b'"' ∷ b' ' ∷ [])
    else a.display_name ++ b' ' ∷ []

-- (*Address).String
unfoldable pub to_string : Address → Bytes
to_string a = render_name a ++ (b'<' ∷ (Uri.to_string a.uri ++ (b'>' ∷ Params.to_string a.params)))

-- The wildcard contact `*` has `all` set.
pub record NameAddrList : Type 0 where
  pub name : Bytes
  pub addresses : List Address
  pub all : Bool

-- splitAddrList: the parts between commas outside quotes and angle brackets. The state is
-- `inQuote`, `escaped` and `depth`; `cur` is `s[start:i]`.
unfoldable pub split_list : Bool → Bool → ℤ → Bytes → Bytes → List Bytes
split_list in_quote escaped depth cur [] = trim_space cur ∷ []
split_list in_quote true depth cur (c ∷ s) = split_list in_quote false depth (cur ++ c ∷ []) s
split_list in_quote false depth cur (c ∷ s) =
    elim (not in_quote && (eqz depth (pos 0) && c == b',')) [
      | true ↦ trim_space cur ∷ split_list in_quote false depth [] s
      | false ↦
          split_list (if c == b'"' then not in_quote else in_quote) (c == b'\\' && in_quote)
            (if in_quote
              then depth
              else if c == b'<'
              then inc_int depth
              else if c == b'>'
              then dec_int depth
              else depth)
            (cur ++ c ∷ []) s
    ]

unfoldable pub parse_all : List Bytes → Result (List Address)
parse_all [] = ok []
parse_all (part ∷ parts) = do a ← parse part; as' ← parse_all parts; ok (a ∷ as')

abbrev pub list_of : List Address → Result NameAddrList
list_of [] = err err_bad_address
list_of (a ∷ as') = ok (record { name = []; addresses = a ∷ as'; all = false })

-- ParseNameAddrList
unfoldable pub parse_list : Bytes → Result NameAddrList
parse_list text =
    let s = trim_space text in
    if bytes_eq s (b'*' ∷ [])
    then ok (record { name = []; addresses = []; all = true })
    else do addresses ← parse_all (split_list false false (pos 0) [] s); list_of addresses

unfoldable pub first : NameAddrList → Option Address
first l = head? l.addresses

unfoldable pub list_value : NameAddrList → Bytes
list_value l = join (b',' ∷ b' ' ∷ []) (map to_string l.addresses)
