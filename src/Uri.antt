-- ===== src/Uri.antt =====
-- uri.go: SIP URIs.
pub mod Clean
use gb.Base.{ℕ}
use gb.Base.{Bool, true, false, not, ◌&&◌, ◌||◌, Option, none, some, List, [], ◌∷◌, ◌++◌, map}
use gb.Base.{ltb, ◌==◌, if◌then◌else◌, get_or}
use gb.Base.{is_nil}
use gb.Base.{ℤ, pos, eqz, is_positive}
use gb.Base.{err_bad_uri}
use gb.Base.{Result, ok, err, ◌>>=◌}
use gb.Base.{
  Bytes, codes, bytes_eq, to_lower, equal_fold, trim_space, cut, cut_last, break_at, contains_any,
  has_prefix, split, join,
}
use gb.Base.{atoi, itoa}
use gb.Params
use gb.Params.{Params, sanitize_field}

-- `port` is Go's `int`; 0 and below stand for none. A nil `Headers` is the empty list.
pub record Uri : Type 0 where
  pub scheme : Bytes
  pub user : Bytes
  pub password : Bytes
  pub host : Bytes
  pub port : ℤ
  pub params : Params
  pub headers : Params

abbrev pub sip : Bytes
sip = codes "sip"

abbrev pub sips : Bytes
sips = codes "sips"

abbrev pub tel : Bytes
tel = codes "tel"

unfoldable pub is_control : ℕ → Bool
is_control c = ltb c 32 || c == 127

unfoldable pub is_known_scheme : Bytes → Bool
is_known_scheme s =
    bytes_eq (to_lower s) sip || (bytes_eq (to_lower s) sips || bytes_eq (to_lower s) tel)

-- The host part, the parameters with their `;`, and the headers without their `?`.
pub record Parts : Type 0 where
  pub host_part : Bytes
  pub params_text : Bytes
  pub headers_text : Bytes

-- `rest` from its first `;` or `?` on
unfoldable pub split_tail : Bytes → Bytes → Parts
split_tail host [] = record { host_part = host; params_text = []; headers_text = [] }
split_tail host (c ∷ tail) =
    if c == b';'
    then elim (cut b'?' (c ∷ tail)) [
      | some q ↦ record { host_part = host; params_text = q.0; headers_text = q.1 }
      | none ↦ record { host_part = host; params_text = c ∷ tail; headers_text = [] }
    ]
    else record { host_part = host; params_text = []; headers_text = tail }

unfoldable pub split_rest : Bytes → Parts
split_rest rest = elim (break_at (λ c. c == b';' || c == b'?') rest) [
  | none ↦ record { host_part = rest; params_text = []; headers_text = [] }
  | some q ↦ split_tail (trim_space q.0) q.1
]

-- user, password and the rest of the host part
unfoldable pub split_user : Bytes → Bytes × Bytes × Bytes
split_user host_part = elim (cut_last b'@' host_part) [
  | none ↦ ([], [], host_part)
  | some q ↦ elim (cut b':' q.0) [ none ↦ (q.0, [], q.1) | some u ↦ (u.0, u.1, q.1) ]
]

abbrev pub port_of : Bytes → Option ℤ → Result (Bytes × ℤ)
port_of host none = err err_bad_uri
port_of host (some p) = ok (host, p)

-- what follows `]` of a bracketed host
unfoldable pub after_bracket : Bytes → Bytes → Result (Bytes × ℤ)
after_bracket host [] = ok (host, pos 0)
after_bracket host (c ∷ s) = if c == b':' then port_of host (atoi s) else err err_bad_uri

-- host and port; the host of an IPv6 reference keeps its brackets
unfoldable pub parse_host_port : Bytes → Result (Bytes × ℤ)
parse_host_port host =
    if has_prefix (b'[' ∷ []) host
    then elim (cut b']' host) [
      | none ↦ err err_bad_uri
      | some q ↦ after_bracket (q.0 ++ b']' ∷ []) q.1
    ]
    else elim (cut_last b':' host) [ none ↦ ok (host, pos 0) | some q ↦ port_of q.0 (atoi q.1) ]

-- the URI headers, `k=v` between ampersands
unfoldable pub parse_uri_headers : List Bytes → Params → Params
parse_uri_headers [] hs = hs
parse_uri_headers (part ∷ parts) hs =
    let kv = get_or (cut b'=' part) (part, []) in
    parse_uri_headers parts (if is_nil kv.0 then hs else Params.set kv.0 kv.1 hs)

-- the checks on the trimmed host
unfoldable pub check_host : Bytes → Result Bytes
check_host host =
    if is_nil host
    then err err_bad_uri
    else if contains_any (λ c. c == b':') host && not (has_prefix (b'[' ∷ []) host)
    then err err_bad_uri
    else ok host

unfoldable pub params_of_text : Bytes → Result Params
params_of_text [] = ok []
params_of_text (c ∷ s) = Params.parse (c ∷ s)

unfoldable pub headers_of_text : Bytes → Params
headers_of_text [] = []
headers_of_text (c ∷ s) = parse_uri_headers (split b'&' (c ∷ s)) []

-- ParseUri behind the checks on the scheme
unfoldable pub parse_after_scheme : Bytes → Bytes → Result Uri
parse_after_scheme scheme rest = do
  let parts = split_rest rest
  let (user, password, host_part) = split_user parts.host_part
  hp ←
      if is_nil (trim_space host_part)
      then err err_bad_uri
      else parse_host_port (trim_space host_part)
  host ← check_host (trim_space hp.0)
  params ← params_of_text parts.params_text
  ok (record {
    scheme = scheme;
    user = user;
    password = password;
    host = host;
    port = hp.1;
    params = params;
    headers = headers_of_text parts.headers_text;
  })

unfoldable pub parse : Bytes → Result Uri
parse text =
    let s = trim_space text in
    if is_nil s || contains_any is_control s then err err_bad_uri else elim (cut b':' s) [
      | none ↦ err err_bad_uri
      | some q ↦
          if is_known_scheme q.0 then parse_after_scheme (to_lower q.0) q.1 else err err_bad_uri
    ]

-- A nil `*Uri` is `none`.
unfoldable pub is_encrypted : Option Uri → Bool
is_encrypted none = false
is_encrypted (some u) = bytes_eq u.scheme sips

unfoldable pub effective_port : Uri → ℤ
effective_port u =
    if is_positive u.port then u.port else if bytes_eq u.scheme sips then pos 5061 else pos 5060

unfoldable pub host_port : Uri → Bytes
host_port u = if is_positive u.port then u.host ++ b':' ∷ itoa u.port else u.host

abbrev pub compared_keys : List Bytes
compared_keys =
    codes "user"
    ∷ codes "transport"
    ∷ codes "lr"
    ∷ codes "method"
    ∷ codes "ttl"
    ∷ codes "maddr"
    ∷ []

abbrev pub bool_eq : Bool → Bool → Bool
bool_eq true b = b
bool_eq false b = not b

unfoldable pub params_equal_on : List Bytes → Params → Params → Bool
params_equal_on [] p q = true
params_equal_on (k ∷ ks) p q =
    bool_eq (Params.get k p).1 (Params.get k q).1
    && bytes_eq (Params.get k p).0 (Params.get k q).0
    && params_equal_on ks p q

unfoldable pub equal : Uri → Uri → Bool
equal u o =
    bytes_eq u.scheme o.scheme
    && equal_fold u.user o.user
    && equal_fold u.host o.host
    && eqz u.port o.port
    && params_equal_on compared_keys u.params o.params

unfoldable pub render_user : Uri → Bytes
render_user u =
    if is_nil u.user
    then []
    else sanitize_field u.user
      ++ ((if is_nil u.password then [] else b':' ∷ sanitize_field u.password) ++ b'@' ∷ [])

unfoldable pub render_host : Bytes → Bytes
render_host h =
    let host = sanitize_field h in
    if contains_any (λ c. c == b':') host && not (has_prefix (b'[' ∷ []) host)
    then b'[' ∷ (host ++ b']' ∷ [])
    else host

unfoldable pub render_header : Params.Param → Bytes
render_header p =
    sanitize_field p.key ++ (if p.has_value then b'=' ∷ sanitize_field p.value else [])

unfoldable pub render_headers : Params → Bytes
render_headers [] = []
render_headers (p ∷ ps) = b'?' ∷ join (b'&' ∷ []) (map render_header (p ∷ ps))

-- (*Uri).String
unfoldable pub to_string : Uri → Bytes
to_string u =
    sanitize_field u.scheme
    ++ (b':'
        ∷ (render_user u
            ++ (render_host u.host
                ++ ((if is_positive u.port then b':' ∷ itoa u.port else [])
                    ++ (sanitize_field (Params.to_string u.params) ++ render_headers u.headers)))))

-- RedactUri: the password is replaced before the URI is logged.
unfoldable pub redact_uri : Option Uri → Bytes
redact_uri none = []
redact_uri (some u) =
    if is_nil u.password then to_string u else to_string (record u { password = codes "***" })
