-- ===== src/Header/Via.antt =====
-- headers.go: Via.
use gb.Base.{Option, none, some, [], ◌∷◌, ◌++◌}
use gb.Base.{◌==◌, if◌then◌else◌}
use gb.Base.{ℤ, pos, is_positive}
use gb.Base.{err_parse}
use gb.Base.{Result, ok, err, ◌>>=◌}
use gb.Base.{Bytes, codes, trim_space, cut, cut_last, break_at, contains_any, has_prefix}
use gb.Base.{atoi, itoa}
use gb.Params
use gb.Params.{Params}
use gb.Uri.{is_control}

pub record Via : Type 0 where
  pub proto : Bytes
  pub transport : Bytes
  pub host : Bytes
  pub port : ℤ
  pub params : Params

abbrev pub port_of : Bytes → Option ℤ → Result (Bytes × ℤ)
port_of host none = err err_parse
port_of host (some p) = ok (host, p)

-- behind `]`; other text than a port is ignored
unfoldable pub after_bracket : Bytes → Bytes → Result (Bytes × ℤ)
after_bracket host [] = ok (host, pos 0)
after_bracket host (c ∷ s) = if c == b':' then port_of host (atoi s) else ok (host, pos 0)

unfoldable pub parse_host_port : Bytes → Result (Bytes × ℤ)
parse_host_port s =
    if has_prefix (b'[' ∷ []) s
    then elim (cut b']' s) [ none ↦ err err_parse | some q ↦ after_bracket (q.0 ++ b']' ∷ []) q.1 ]
    else elim (cut_last b':' s) [ none ↦ ok (s, pos 0) | some q ↦ port_of q.0 (atoi q.1) ]

-- what follows the last `/` of the protocol
unfoldable pub transport_of : Bytes → Bytes
transport_of proto = elim (cut_last b'/' proto) [ none ↦ proto | some q ↦ q.1 ]

unfoldable pub with_params : Bytes → Bytes → Params → Result Via
with_params proto sent_by params = do
  hp ← parse_host_port sent_by
  ok (record {
    proto = proto;
    transport = transport_of proto;
    host = hp.0;
    port = hp.1;
    params = params;
  })

unfoldable pub parse_sent_by : Bytes → Bytes → Result Via
parse_sent_by proto rest = elim (break_at (λ c. c == b';') rest) [
  | none ↦ with_params proto rest []
  | some q ↦ Params.parse q.1 >>= λ params. with_params proto (trim_space q.0) params
]

unfoldable pub parse : Bytes → Result Via
parse text =
    let s = trim_space text in
    if contains_any is_control s then err err_parse else elim (cut b' ' s) [
      | none ↦ err err_parse
      | some q ↦ parse_sent_by (trim_space q.0) (trim_space q.1)
    ]

unfoldable pub branch : Via → Bytes
branch v = (Params.get (codes "branch") v.params).0

unfoldable pub set_branch : Bytes → Via → Via
set_branch b v = record v { params = Params.set (codes "branch") b v.params }

unfoldable pub value : Via → Bytes
value v =
    v.proto
    ++ (b' '
        ∷ (v.host
            ++ ((if is_positive v.port then b':' ∷ itoa v.port else [])
                ++ Params.to_string v.params)))
