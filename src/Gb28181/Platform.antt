-- ===== src/Gb28181/Platform.antt =====
-- gb28181/platform.go: the platform. `md5` gives the hexadecimal text of the sum, `quote` is the
-- verb `%q`, `fresh` a random text, `now` the clock in seconds.
use gb.Base.{ℕ, ◌+◌, ◌-◌}
use gb.Base.{Bool, true, false, not, ◌&&◌, ◌||◌, Option, none, some, List, [], ◌∷◌, ◌++◌}
use gb.Base.{if◌then◌else◌, get_or}
use gb.Base.{is_nil, keep}
use gb.Base.{ℤ, pos, ltz, eqz}
use gb.Base.{err_parse}
use gb.Base.{Result, ok, err}
use gb.Base.{Bytes, codes, bytes_eq}
use gb.Header.Address.{Address}
use gb.Header.Via.{Via}
use gb.Header.Auth.{Auth}
use gb.Header.Fields.{generic_header}
use gb.Headers.{Headers}
use gb.Headers
use gb.Message
use gb.Message.{
  Method, Request, Response, Message, request, response, Addr, new_request, new_response,
}
use gb.Header.Via.{Via}
use gb.Header.Auth
use gb.Ua.Digest.{colons}
use gb.Ua.Requests.{response_for}
use gb.Gb28181.Xml
use gb.Gb28181.Xml.{
  Item, DeviceList, Envelope, empty_envelope, Codec, cmd_catalog, cmd_device_info, cmd_ptz_cmd,
  build_query, build_control,
}

-- PlatformConfig; `password` gives none where the callback is nil or knows no password
pub record Config : Type 0 where
  pub server_id : Bytes
  pub server_host : Bytes
  pub listen_port : ℤ
  pub realm : Bytes
  pub password : Bytes → Option Bytes
  pub expires : ℤ

-- NewPlatform: the defaults
unfoldable pub new_config : Config → Result Config
new_config cfg =
    if is_nil cfg.server_id
    then err err_parse
    else ok (record cfg {
      listen_port = if eqz cfg.listen_port (pos 0) then pos 5060 else cfg.listen_port;
      realm = if is_nil cfg.realm then cfg.server_id else cfg.realm;
      expires = if eqz cfg.expires (pos 0) then pos 3600 else cfg.expires;
    })

-- DeviceStatus
pub record DeviceStatus : Type 0 where
  pub id : Bytes
  pub last_seen : Option ℕ
  pub registered : Bool
  pub nonce : Bytes
  pub last_reg : Option Request

-- DeviceEvent
pub record DeviceEvent : Type 0 where
  pub device_id : Bytes
  pub kind : Bytes
  pub envelope : Option Envelope

-- The platform's maps: a device stands under its own ID.
pub record Platform : Type 0 where
  pub devices : List DeviceStatus
  pub sn : ℕ
  pub channel_of : List (Bytes × Bytes)

abbrev pub new_platform : Platform
new_platform = record { devices = []; sn = 0; channel_of = [] }

-- What it does: an answer, and the event for OnDevice. `fault`: a nil pointer is followed.
pub data Effect : Type 0 where
  respond : Response → Effect
  event : DeviceEvent → Effect
  fault : Effect

unfoldable pub find_device : Bytes → List DeviceStatus → Option DeviceStatus
find_device k [] = none
find_device k (d ∷ ds) = if bytes_eq d.id k then some d else find_device k ds

abbrev pub new_device : Bytes → DeviceStatus
new_device k = record { id = k; last_seen = none; registered = false; nonce = []; last_reg = none }

-- A write to what device() gives: the entry is made where it is missing.
unfoldable pub update_device :
    Bytes → (DeviceStatus → DeviceStatus) → List DeviceStatus → List DeviceStatus
update_device k f [] = f (new_device k) ∷ []
update_device k f (d ∷ ds) =
    let rest = update_device k f ds in if bytes_eq d.id k then f d ∷ ds else d ∷ rest

abbrev pub with_device : Bytes → (DeviceStatus → DeviceStatus) → Platform → Platform
with_device k f p = record p { devices = update_device k f p.devices }

-- nextSN
unfoldable pub next_sn : Platform → Platform × ℕ
next_sn p = (record p { sn = p.sn + 1 }, p.sn + 1)

-- IsOnline
abbrev pub is_fresh : ℤ → ℕ → Option ℕ → Bool
is_fresh expires now none = false
is_fresh expires now (some seen) = ltz (pos (now - seen)) expires

unfoldable pub is_online : Config → ℕ → Bytes → Platform → Bool
is_online cfg now k p = elim (find_device k p.devices) [
  | none ↦ false
  | some d ↦ d.registered && is_fresh cfg.expires now d.last_seen
]

abbrev pub challenge_device : Bytes → Request → DeviceStatus → DeviceStatus
challenge_device nonce req d = record d { nonce = nonce; last_reg = some req }

abbrev pub register_device : ℕ → DeviceStatus → DeviceStatus
register_device now d = record d { registered = true; last_seen = some now }

abbrev pub see_device : ℕ → DeviceStatus → DeviceStatus
see_device now d = record d { last_seen = some now }

abbrev pub registered_event : Bytes → DeviceEvent
registered_event k = record { device_id = k; kind = codes "registered"; envelope = none }

-- the credentials of the request; ParseAuth never fails
unfoldable pub credentials_of : Request → Auth
credentials_of req =
    gb.Header.Auth.parse (Message.header_value (Headers.get (codes "Authorization") req.headers))

abbrev pub is_incomplete : Auth → Bool
is_incomplete auth = is_nil auth.scheme || is_nil auth.response

module _ (md5 : Bytes → Bytes) (quote : Bytes → Bytes) (cfg : Config) where
  -- the answer with the challenge
  unfoldable pub challenge : Bytes → Response
  challenge nonce =
      let r = new_response (pos 401) [] in
      record r {
        headers =
            Headers.set
              (generic_header (codes "WWW-Authenticate")
                (codes "Digest realm=" ++ (quote cfg.realm ++ (codes " nonce=" ++ quote nonce))))
              r.headers;
      }

  -- the response that the platform expects, with its realm where the credentials name none
  unfoldable pub expected : Bytes → Auth → Bytes
  expected password auth =
      let realm = if is_nil auth.realm then cfg.realm else auth.realm in
      md5 (
        colons (
          md5 (colons (auth.username ∷ realm ∷ password ∷ []))
          ∷ auth.nonce
          ∷ md5 (colons (codes "REGISTER" ∷ auth.uri ∷ []))
          ∷ []))

  unfoldable pub check_by : ℕ → Bytes → Auth → Platform → Option Bytes → Platform × List Effect
  check_by now k auth p none = (p, respond (new_response (pos 403) []) ∷ [])
  check_by now k auth p (some password) =
      if not (bytes_eq (expected password auth) auth.response)
      then (p, respond (new_response (pos 401) []) ∷ [])
      else (
        with_device k (register_device now) p,
        respond (new_response (pos 200) []) ∷ event (registered_event k) ∷ [],
      )

  unfoldable pub check_register : ℕ → Bytes → Auth → Platform → Platform × List Effect
  check_register now k auth p = check_by now k auth p (cfg.password k)

  unfoldable pub register_from : ℕ → Bytes → Request → Bytes → Platform → Platform × List Effect
  register_from now fresh req k p =
      let auth = credentials_of req in
      if is_incomplete auth
      then (with_device k (challenge_device fresh req) p, respond (challenge fresh) ∷ [])
      else check_register now k auth p

  abbrev pub register_by : ℕ → Bytes → Request → Platform → Option Address → Platform × List Effect
  register_by now fresh req p none = (p, fault ∷ [])
  register_by now fresh req p (some from) = register_from now fresh req from.uri.user p

  -- onRegister, with a transaction that is not nil
  unfoldable pub on_register : ℕ → Bytes → Request → Platform → Platform × List Effect
  on_register now fresh req p = register_by now fresh req p (Message.from req.headers)

unfoldable pub put_channel : Bytes → Bytes → List (Bytes × Bytes) → List (Bytes × Bytes)
put_channel k v [] = (k, v) ∷ []
put_channel k v ((j, w) ∷ m) =
    let rest = put_channel k v m in if bytes_eq j k then (k, v) ∷ m else (j, w) ∷ rest

unfoldable pub find_channel : Bytes → List (Bytes × Bytes) → Option Bytes
find_channel k [] = none
find_channel k ((j, w) ∷ m) = if bytes_eq j k then some w else find_channel k m

unfoldable pub put_channels : Bytes → List Item → List (Bytes × Bytes) → List (Bytes × Bytes)
put_channels dev [] m = m
put_channels dev (it ∷ items) m = put_channels dev items (put_channel it.device_id dev m)

abbrev pub items_of : Option DeviceList → List Item
items_of none = []
items_of (some l) = l.items

-- the channels of a catalog now belong to the device
unfoldable pub learn_catalog : Bytes → Envelope → Platform → Platform
learn_catalog k e p =
    if bytes_eq e.cmd_type cmd_catalog
    then record p { channel_of = put_channels k (items_of e.device_list) p.channel_of }
    else p

abbrev pub message_event : Bytes → Envelope → DeviceEvent
message_event k e = record { device_id = k; kind = codes "message"; envelope = some e }

unfoldable pub message_from : ℕ → Envelope → Option Address → Platform → Platform × List Effect
message_from now e none p = (p, respond (response_for none (pos 200) [] none) ∷ fault ∷ [])
message_from now e (some from) p =
    let k = from.uri.user in
    (
      learn_catalog k e (with_device k (see_device now) p),
      respond (response_for none (pos 200) [] none) ∷ event (message_event k e) ∷ [],
    )

abbrev pub message_by : ℕ → Option Address → Platform → Option Envelope → Platform × List Effect
message_by now from p none = (p, respond (response_for none (pos 400) [] none) ∷ [])
message_by now from p (some e) = message_from now e from p

-- onMessage, with a transaction that is not nil
unfoldable pub on_message : Codec → ℕ → Request → Platform → Platform × List Effect
on_message x now req p =
    message_by now (Message.from req.headers) p (gb.Gb28181.Xml.parse x req.body)

abbrev pub registered_of : Option DeviceStatus → Bool
registered_of none = false
registered_of (some d) = d.registered

unfoldable pub is_registered : Bytes → List DeviceStatus → Bool
is_registered k ds = registered_of (find_device k ds)

abbrev pub sole : List DeviceStatus → Option Bytes
sole (d ∷ []) = some d.id
sole _ = none

abbrev pub sole_registered : Platform → Option Bytes
sole_registered p = sole (keep (λ d. d.registered) p.devices)

abbrev pub by_channel : Platform → Option Bytes → Option Bytes
by_channel p none = sole_registered p
by_channel p (some dev) = if is_registered dev p.devices then some dev else sole_registered p

-- resolveDevice
unfoldable pub resolve_device : Bytes → Platform → Option Bytes
resolve_device k p =
    if is_registered k p.devices then some k else by_channel p (find_channel k p.channel_of)

-- lastRegisterOf
abbrev pub last_reg_of : Option DeviceStatus → Option Request
last_reg_of none = none
last_reg_of (some d) = d.last_reg

unfoldable pub last_register_of : Bytes → Platform → Option Request
last_register_of k p = last_reg_of (find_device k p.devices)

unfoldable pub via_addr : Option Via → Option Addr
via_addr none = none
via_addr (some via) =
    if is_nil via.host
    then none
    else some (record {
      network = codes "udp";
      host = via.host;
      port = if eqz via.port (pos 0) then pos 5060 else via.port;
    })

abbrev pub register_addr : Option Request → Option Addr
register_addr none = none
register_addr (some req) = via_addr (Message.via req.headers)

-- deviceAddr
unfoldable pub device_addr : Bytes → Platform → Option Addr
device_addr k p = register_addr (last_register_of (get_or (resolve_device k p) k) p)
