-- ===== src/Gb28181/Serving.antt =====
-- gb28181/device.go: what the device answers and sends, and its loop.
use gb.Base.{ℕ, ◌*◌}
use gb.Base.{Bool, true, false, ◌&&◌, ◌||◌, Option, none, some, List, [], ◌∷◌}
use gb.Base.{ltb, if◌then◌else◌, is_some}
use gb.Base.{length}
use gb.Base.{pos}
use gb.Base.{Error}
use gb.Base.{ok, err}
use gb.Base.{Bytes, codes, bytes_eq}
use gb.Base.{format_uint}
use gb.Uri.{Uri}
use gb.Header.Address.{Address, NameAddrList}
use gb.Header.Fields.{generic_header}
use gb.Headers.{Headers}
use gb.Headers
use gb.Message
use gb.Message.{
  Method, Request, Response, Message, request, response, Addr, new_request, new_response,
}
use gb.Header.Address
use gb.Uri
use gb.Ua.Requests.{response_for, address_to}
use gb.Gb28181.Xml
use gb.Gb28181.Xml.{
  Item, DeviceList, Envelope, empty_envelope, Codec, build_notify, build_response, cmd_keepalive,
  cmd_catalog, cmd_device_info, cmd_device_status, cmd_ptz_cmd, cmd_tele_boot, cmd_device_config,
  cmd_config_download, cmd_preset_query,
}
use gb.Gb28181.Sdp
use gb.Gb28181.Sdp.{StreamSdp, Sdp}
use gb.Gb28181.Calls.{Fresh, message_request}
use gb.Gb28181.Device.{
  DeviceConfig, Device, Stream, Sent, next_sn, server_uri, self_uri, server_addr, device_from,
}

-- What the device does: an answer, a message to the platform, or a call of OnControl or OnInvite.
pub data Effect : Type 0 where
  respond : Response → Effect
  send : Request → Addr → Effect
  control : Envelope → Effect
  invited : Sdp → ℕ → Effect

-- newMessage: the To header is the bare URI
unfoldable pub new_message : DeviceConfig → Fresh → Uri → Bytes → Request
new_message cfg f to body = message_request f to (device_from cfg f.tag) (Uri.to_string to) body

-- SendMessage
unfoldable pub send_message : DeviceConfig → Fresh → Bytes → Sent
send_message cfg f body = (new_message cfg f (server_uri cfg) body, server_addr cfg)

-- Keepalive
unfoldable pub keepalive : DeviceConfig → Codec → Fresh → Device → Device × Sent
keepalive cfg x f d =
    let (d', n) = next_sn d in
    let e = record empty_envelope {
      cmd_type = cmd_keepalive;
      sn = pos n;
      device_id = cfg.device_id;
      seq_num = pos 1;
    } in
    (d', send_message cfg f (build_notify x e))

abbrev pub answer_to : DeviceConfig → Envelope → Envelope
answer_to cfg e = record empty_envelope {
  cmd_type = e.cmd_type;
  sn = e.sn;
  device_id = cfg.device_id;
}

unfoldable pub catalog_answer : DeviceConfig → Envelope → Envelope
catalog_answer cfg e =
    let n = length cfg.channels in
    record (answer_to cfg e) {
      sum_num = pos n;
      device_list = some (record { num = format_uint n; items = cfg.channels });
    }

unfoldable pub info_answer : DeviceConfig → Envelope → Envelope
info_answer cfg e =
    let info = cfg.device_info in
    record (answer_to cfg e) {
      device_name = info.name;
      manufacturer = info.manufacturer;
      model = info.model;
      firmware = info.firmware;
      result = codes "OK";
    }

unfoldable pub status_answer : DeviceConfig → Envelope → Envelope
status_answer cfg e = record (answer_to cfg e) { status = codes "ONLINE"; result = codes "OK" }

abbrev pub is_control : Bytes → Bool
is_control c =
    bytes_eq c cmd_ptz_cmd
    || (bytes_eq c cmd_tele_boot
        || (bytes_eq c cmd_device_config
            || (bytes_eq c cmd_config_download || bytes_eq c cmd_preset_query)))

abbrev pub send_answer : DeviceConfig → Codec → Fresh → Envelope → List Effect
send_answer cfg x f e =
    let (req, dst) = send_message cfg f (build_response x e) in send req dst ∷ []

-- the switch of onMessage; `has_control` says that OnControl is set
unfoldable pub act_on : DeviceConfig → Codec → Fresh → Bool → Envelope → List Effect
act_on cfg x f has_control e =
    if bytes_eq e.cmd_type cmd_catalog
    then send_answer cfg x f (catalog_answer cfg e)
    else if bytes_eq e.cmd_type cmd_device_info
    then send_answer cfg x f (info_answer cfg e)
    else if bytes_eq e.cmd_type cmd_device_status
    then send_answer cfg x f (status_answer cfg e)
    else if is_control e.cmd_type && has_control
    then control e ∷ []
    else []

-- onMessage, with a transaction; it leaves the device's state alone
unfoldable pub on_message : DeviceConfig → Codec → Fresh → Bool → Request → List Effect
on_message cfg x f has_control req = elim (gb.Gb28181.Xml.parse x req.body) [
  | none ↦ respond (response_for none (pos 400) [] none) ∷ []
  | some e ↦ respond (response_for none (pos 200) [] none) ∷ act_on cfg x f has_control e
]

-- the description that answers an offer
unfoldable pub answer_sdp : DeviceConfig → Sdp → StreamSdp
answer_sdp cfg offer = record {
  username = cfg.device_id;
  address = cfg.local_host;
  ssrc = offer.ssrc;
  recv_only = false;
  video_port = offer.video_port;
  audio_port = offer.audio_port;
  session_name = offer.session_name;
  start_time = offer.start_time;
  end_time = offer.end_time;
}

abbrev pub tagged_to : Bytes → Option Address → Headers
tagged_to tag none = []
tagged_to tag (some a) =
    Headers.add (generic_header (codes "To") (Address.to_string (Address.set_tag tag a))) []

-- the 200 of onInvite
unfoldable pub stream_answer : DeviceConfig → Bytes → Request → Sdp → Response
stream_answer cfg tag req offer =
    let r = new_response (pos 200) [] in
    Message.set_response_body (codes "application/sdp") (some (Sdp.build (answer_sdp cfg offer)))
      (record r {
        headers =
            Headers.set
              (generic_header (codes "Contact") (Address.to_string (address_to (self_uri cfg))))
              (tagged_to tag (Message.to req.headers));
      })

unfoldable pub put_stream : Bytes → Stream → List (Bytes × Stream) → List (Bytes × Stream)
put_stream k s [] = (k, s) ∷ []
put_stream k s ((j, t) ∷ m) =
    let rest = put_stream k s m in if bytes_eq j k then (k, s) ∷ m else (j, t) ∷ rest

unfoldable pub drop_stream : Bytes → List (Bytes × Stream) → List (Bytes × Stream)
drop_stream k [] = []
drop_stream k ((j, t) ∷ m) =
    let rest = drop_stream k m in if bytes_eq j k then rest else (j, t) ∷ rest

unfoldable pub find_stream : Bytes → List (Bytes × Stream) → Option Stream
find_stream k [] = none
find_stream k ((j, t) ∷ m) = if bytes_eq j k then some t else find_stream k m

abbrev pub told : Bool → Sdp → ℕ → List Effect
told has_invite offer dlg = if has_invite then invited offer dlg ∷ [] else []

-- onInvite: `dlg` refers to the dialog, `sent` says that stx.Respond gives no error.
unfoldable pub accept_stream :
    DeviceConfig → Bytes → Bool → Bool → Request → ℕ → Device → Sdp → Device × List Effect
accept_stream cfg tag sent has_invite req dlg d offer =
    if sent
    then (
      record d {
        streams =
            put_stream (Message.call_id req.headers)
              (record { dialog = dlg; ssrc = offer.ssrc; sdp = offer }) d.streams;
      },
      respond (stream_answer cfg tag req offer) ∷ told has_invite offer dlg,
    )
    else (d, respond (stream_answer cfg tag req offer) ∷ [])

unfoldable pub on_invite :
    (Bytes → Bool)
    → DeviceConfig
    → Bytes
    → Bool
    → Bool
    → Request
    → ℕ
    → Device
    → Device × List Effect
on_invite is_ip cfg tag sent has_invite req dlg d = elim (Sdp.parse is_ip req.body) [
  | err e ↦ (d, respond (response_for none (pos 400) [] none) ∷ [])
  | ok offer ↦ accept_stream cfg tag sent has_invite req dlg d offer
]

-- the OnBye callback of Start
unfoldable pub on_bye : Request → Device → Device
on_bye req d = record d { streams = drop_stream (Message.call_id req.headers) d.streams }

-- The loop of run: whether it is registered, and the time to wait before the next REGISTER.
pub record Loop : Type 0 where
  pub registered : Bool
  pub backoff : ℕ
  pub reg_ok : Bool

-- after a round of register, with its result
unfoldable pub after_register : Bool → Loop → Loop
after_register true l = record { registered = true; backoff = 500; reg_ok = true }
after_register false l = record l {
  backoff = if ltb l.backoff 8000 then l.backoff * 2 else l.backoff;
}

-- after a keepalive: `has_error` says that OnError is set
unfoldable pub after_keepalive : Bool → Option Error → Loop → Loop
after_keepalive has_error e l =
    if is_some e && has_error then record l { registered = false } else l
