-- ===== src/Gb28181/Device.antt =====
-- gb28181/device.go: the device.
use gb.Base.{ℕ, ◌+◌}
use gb.Base.{Bool, not, ◌||◌, Option, none, some, List, [], ◌∷◌, ◌++◌}
use gb.Base.{◌==◌, if◌then◌else◌}
use gb.Base.{is_nil}
use gb.Base.{ℤ, pos, eqz}
use gb.Base.{Error, err_parse}
use gb.Base.{Result, ok, err}
use gb.Base.{Bytes, codes}
use gb.Uri.{Uri}
use gb.Header.Address.{Address, NameAddrList}
use gb.Header.Auth.{Auth}
use gb.Header.Fields.{cseq_header, forwards_header, value}
use gb.Headers.{Headers}
use gb.Headers
use gb.Message.{Request, Response, Addr, new_request}
use gb.Header.Address
use gb.Uri
use gb.Header.Auth
use gb.Header.Auth.{empty_auth}
use gb.Ua.Digest.{Hashes, digest_response}
use gb.Ua.Requests.{address_to, tagged, with_header}
use gb.Gb28181.Xml.{Item}
use gb.Gb28181.Sdp.{Sdp}
use gb.Gb28181.Calls.{sip_uri}

-- DeviceInfoT
pub record DeviceInfo : Type 0 where
  pub name : Bytes
  pub manufacturer : Bytes
  pub model : Bytes
  pub firmware : Bytes

-- DeviceConfig; the two durations are in milliseconds
pub record DeviceConfig : Type 0 where
  pub device_id : Bytes
  pub password : Bytes
  pub server_id : Bytes
  pub server_host : Bytes
  pub server_port : ℤ
  pub local_host : Bytes
  pub local_port : ℤ
  pub keepalive_interval : ℕ
  pub register_timeout : ℕ
  pub channels : List Item
  pub device_info : DeviceInfo

-- NewDevice: the defaults
unfoldable pub new_device : DeviceConfig → Result DeviceConfig
new_device cfg =
    if is_nil cfg.device_id || (is_nil cfg.server_id || is_nil cfg.server_host)
    then err err_parse
    else ok (record cfg {
      local_port = if eqz cfg.local_port (pos 0) then pos 5060 else cfg.local_port;
      keepalive_interval = if cfg.keepalive_interval == 0 then 60000 else cfg.keepalive_interval;
      register_timeout = if cfg.register_timeout == 0 then 10000 else cfg.register_timeout;
    })

-- Stream; the dialog is a reference
pub record Stream : Type 0 where
  pub dialog : ℕ
  pub ssrc : ℕ
  pub sdp : Sdp

-- The device's state; the streams stand under their Call-ID.
pub record Device : Type 0 where
  pub sn : ℕ
  pub nonce : Bytes
  pub reg_ok : Bool
  pub streams : List (Bytes × Stream)

abbrev pub Sent : Type 0
Sent = Request × Addr

unfoldable pub next_sn : Device → Device × ℕ
next_sn d = (record d { sn = d.sn + 1 }, d.sn + 1)

unfoldable pub server_uri : DeviceConfig → Uri
server_uri cfg = sip_uri cfg.server_id cfg.server_host cfg.server_port

unfoldable pub self_uri : DeviceConfig → Uri
self_uri cfg = sip_uri cfg.device_id cfg.local_host cfg.local_port

abbrev pub server_addr : DeviceConfig → Addr
server_addr cfg = record { network = codes "udp"; host = cfg.server_host; port = cfg.server_port }

-- ` k="v"`
abbrev pub quoted_field : Bytes → Bytes → Bytes
quoted_field k v = b' ' ∷ (k ++ (b'=' ∷ b'"' ∷ (v ++ b'"' ∷ [])))

abbrev pub field_if_some : Bytes → Bytes → Bytes
field_if_some k v = if is_nil v then [] else quoted_field k v

-- authHeaderString
unfoldable pub auth_header_string : Auth → Bytes
auth_header_string a =
    codes "Digest"
    ++ (quoted_field (codes "username") a.username
        ++ (quoted_field (codes "realm") a.realm
            ++ (quoted_field (codes "nonce") a.nonce
                ++ (quoted_field (codes "uri") a.uri
                    ++ (field_if_some (codes "response") a.response
                        ++ (field_if_some (codes "algorithm") a.algorithm
                            ++ ((if is_nil a.cnonce
                                  then []
                                  else quoted_field (codes "cnonce") a.cnonce
                                    ++ (codes " nc=" ++ (a.nc ++ (codes " qop=" ++ a.qop))))
                                ++ field_if_some (codes "opaque") a.opaque)))))))

abbrev pub with_authorization : Option Auth → Request → Request
with_authorization none req = req
with_authorization (some a) req = with_header (codes "Authorization") (auth_header_string a) req

abbrev pub device_from : DeviceConfig → Bytes → Bytes
device_from cfg tag =
    Address.to_string (tagged tag (address_to (sip_uri cfg.device_id cfg.server_host (pos 0))))

-- newRegister; `cseq` fits a uint32
unfoldable pub new_register : DeviceConfig → Bytes → Bytes → ℕ → Option Auth → Request
new_register cfg tag call_id cseq auth =
    let to = server_uri cfg in
    let req =
      with_header (codes "To") (Address.to_string (address_to to))
        (new_request (codes "REGISTER") to) in
    let named =
      with_header (codes "Call-ID") call_id
        (with_header (codes "From") (device_from cfg tag) req) in
    let counted = record named {
      headers = Headers.set (forwards_header (pos 70)) (
          Headers.set (cseq_header (record { seq = cseq; method = codes "REGISTER" }))
            named.headers);
    } in
    let reached = with_header (codes "Contact") (Uri.to_string (self_uri cfg)) counted in
    with_authorization auth (
      with_header (codes "User-Agent") (codes "go-sip-gb28181")
        (with_header (codes "Expires") (codes "3600") reached))

-- lastChallenge: with the server's ID as the realm
unfoldable pub last_challenge : DeviceConfig → Device → Option Auth
last_challenge cfg d =
    if is_nil d.nonce
    then none
    else some (record (empty_auth (codes "Digest")) { realm = cfg.server_id; nonce = d.nonce })

-- the nonce of a 401 is kept, if it has one
abbrev pub keep_nonce : Bytes → Device → Device
keep_nonce nonce d = if is_nil nonce then d else record d { nonce = nonce }

unfoldable pub read_challenge : Response → Device → Device
read_challenge resp d = elim (Headers.get (codes "WWW-Authenticate") resp.headers) [
  | none ↦ d
  | some h ↦ keep_nonce (gb.Header.Auth.parse (value h)).nonce d
]

-- What register gives; `registered` is the result true.
pub data Registration : Type 0 where
  registered no_challenge : Registration
  failed : Error → Registration
  got auth_failed : ℤ → Registration

abbrev pub register_uri : DeviceConfig → Bytes
register_uri cfg = codes "sip:" ++ (cfg.server_id ++ (b'@' ∷ cfg.server_host))

unfoldable pub credentials_for : Hashes → DeviceConfig → Auth → Auth
credentials_for h cfg challenge =
    digest_response h challenge (codes "REGISTER") (register_uri cfg) cfg.device_id cfg.password []
      []

unfoldable pub second_answer : Result Response → Registration
second_answer (err e) = failed e
second_answer (ok resp) =
    if eqz resp.status_code (pos 200) then registered else auth_failed resp.status_code

-- register: `tag1`, `tag2` and `call_id` are the random texts; `first` and `second` are what the
-- transactions of the two requests give first within the timeout.
unfoldable pub register_again :
    Hashes
    → DeviceConfig
    → Bytes
    → Bytes
    → Sent
    → Result Response
    → Device
    → Device × List Sent × Registration
register_again h cfg tag call_id asked second d = elim (last_challenge cfg d) [
  | none ↦ (d, asked ∷ [], no_challenge)
  | some c ↦ (
    d,
    asked ∷ (new_register cfg tag call_id 2 (some (credentials_for h cfg c)), server_addr cfg) ∷ [],
    second_answer second,
  )
]

abbrev pub first_sent : DeviceConfig → Bytes → Bytes → Sent
first_sent cfg tag call_id = (new_register cfg tag call_id 1 none, server_addr cfg)

unfoldable pub register :
    Hashes
    → DeviceConfig
    → Bytes
    → Bytes
    → Bytes
    → Result Response
    → Result Response
    → Device
    → Device × List Sent × Registration
register h cfg tag1 tag2 call_id (err e) second d = (d, first_sent cfg tag1 call_id ∷ [], failed e)
register h cfg tag1 tag2 call_id (ok resp) second d =
    if eqz resp.status_code (pos 200)
    then (d, first_sent cfg tag1 call_id ∷ [], registered)
    else if not (eqz resp.status_code (pos 401))
    then (d, first_sent cfg tag1 call_id ∷ [], got resp.status_code)
    else register_again h cfg tag2 call_id (first_sent cfg tag1 call_id) second
        (read_challenge resp d)
