-- ===== src/Header/Auth.antt =====
-- headers.go: digest challenges and responses.
pub mod Text
pub mod Fields
pub mod RoundTrip
use gb.Base.{Bool, true, false, not, ◌&&◌, ◌||◌, none, some, List, [], ◌∷◌, ◌++◌}
use gb.Base.{◌==◌, if◌then◌else◌}
use gb.Base.{is_nil, drop}
use gb.Base.{Bytes, codes, bytes_eq, to_lower, trim_space, cut, break_at}
use gb.Params
use gb.Params.{Params}

pub record Auth : Type 0 where
  pub scheme : Bytes
  pub username : Bytes
  pub realm : Bytes
  pub nonce : Bytes
  pub uri : Bytes
  pub response : Bytes
  pub cnonce : Bytes
  pub nc : Bytes
  pub qop : Bytes
  pub algorithm : Bytes
  pub opaque : Bytes
  pub other : Params

abbrev pub empty_auth : Bytes → Auth
empty_auth scheme = record {
  scheme = scheme;
  username = [];
  realm = [];
  nonce = [];
  uri = [];
  response = [];
  cnonce = [];
  nc = [];
  qop = [];
  algorithm = [];
  opaque = [];
  other = [];
}

-- splitAuthParams: the parts between commas and blanks outside quotes; an empty part is dropped
-- unless it is the last.
unfoldable pub split_list : Bool → Bool → Bytes → Bytes → List Bytes
split_list in_quote escaped cur [] = trim_space cur ∷ []
split_list in_quote true cur (c ∷ s) = split_list in_quote false (cur ++ c ∷ []) s
split_list in_quote false cur (c ∷ s) =
    elim ((c == b',' || (c == b' ' || c == 9)) && not in_quote) [
      | true ↦ (if is_nil cur then [] else trim_space cur ∷ []) ++ split_list in_quote false [] s
      | false ↦
          split_list (if c == b'"' then not in_quote else in_quote) (c == b'\\' && in_quote)
            (cur ++ c ∷ []) s
    ]

-- the switch of ParseAuth
unfoldable pub set_field : Bytes → Bytes → Auth → Auth
set_field k v a =
    if bytes_eq k (codes "username")
    then record a { username = v }
    else if bytes_eq k (codes "realm")
    then record a { realm = v }
    else if bytes_eq k (codes "nonce")
    then record a { nonce = v }
    else if bytes_eq k (codes "uri")
    then record a { uri = v }
    else if bytes_eq k (codes "response")
    then record a { response = v }
    else if bytes_eq k (codes "cnonce")
    then record a { cnonce = v }
    else if bytes_eq k (codes "nc")
    then record a { nc = v }
    else if bytes_eq k (codes "qop")
    then record a { qop = v }
    else if bytes_eq k (codes "algorithm")
    then record a { algorithm = v }
    else if bytes_eq k (codes "opaque")
    then record a { opaque = v }
    else record a { other = Params.set k v a.other }

unfoldable pub set_fields : List Bytes → Auth → Auth
set_fields [] a = a
set_fields (part ∷ parts) a = set_fields parts (elim (cut b'=' part) [
  | none ↦ a
  | some kv ↦ set_field (to_lower (trim_space kv.0)) (Params.unquote (trim_space kv.1)) a
])

-- ParseAuth never fails.
unfoldable pub parse : Bytes → Auth
parse text =
    let s = trim_space text in
    elim (break_at (λ c. c == b' ' || (c == 9 || c == b',')) s) [
      | none ↦ empty_auth s
      | some q ↦ set_fields (split_list false false [] (drop 1 q.1)) (empty_auth q.0)
    ]

unfoldable pub write_auth : Bytes → Bytes → Bytes
write_auth k v = if is_nil v then [] else codes ", " ++ (k ++ (b'=' ∷ b'"' ∷ (v ++ b'"' ∷ [])))

unfoldable pub write_bare : Bytes → Bytes → Bytes
write_bare k v = if is_nil v then [] else codes ", " ++ (k ++ (b'=' ∷ v))

-- (*Auth).Value; `other` is not written.
unfoldable pub value : Auth → Bytes
value a =
    a.scheme
    ++ (write_auth (codes "username") a.username
        ++ (write_auth (codes "realm") a.realm
            ++ (write_auth (codes "nonce") a.nonce
                ++ (write_bare (codes "uri") a.uri
                    ++ (write_auth (codes "response") a.response
                        ++ (write_auth (codes "cnonce") a.cnonce
                            ++ (write_bare (codes "nc") a.nc
                                ++ (write_bare (codes "qop") a.qop
                                    ++ (write_bare (codes "algorithm") a.algorithm
                                        ++ write_auth (codes "opaque") a.opaque)))))))))
