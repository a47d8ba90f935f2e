-- ===== src/Gb28181/Calls.antt =====
-- gb28181/platform.go: the queries and the sessions that the platform starts.
use gb.Base.{ℕ}
use gb.Base.{true, Option, none, some, List, [], ◌∷◌}
use gb.Base.{ℤ, pos}
use gb.Base.{Error, err_timeout}
use gb.Base.{Bytes, codes}
use gb.Uri.{Uri}
use gb.Header.Address.{Address, NameAddrList}
use gb.Header.Fields.{cseq_header, forwards_header}
use gb.Headers.{Headers}
use gb.Headers
use gb.Message
use gb.Message.{
  Method, Request, Response, Message, request, response, Addr, new_request, new_response,
}
use gb.Header.Address
use gb.Tx.Types.{TxEvent, answered, failed}
use gb.Ua.Requests.{plain_uri, address_to, tagged, with_header, Agent}
use gb.Ua.Invite.{invite_request}
use gb.Gb28181.Xml.{
  empty_envelope, Codec, cmd_catalog, cmd_device_info, cmd_ptz_cmd, build_query, build_control,
}
use gb.Gb28181.Sdp
use gb.Gb28181.Sdp.{StreamSdp}
use gb.Gb28181.Platform.{Config, Platform, next_sn, device_addr}

-- The random texts of a request
pub record Fresh : Type 0 where
  pub tag : Bytes
  pub call_id : Bytes

abbrev pub sip_uri : Bytes → Bytes → ℤ → Uri
sip_uri user host port = plain_uri (codes "sip") user host port

-- A MESSAGE with a body, as the platform and the device make it.
unfoldable pub message_request : Fresh → Uri → Bytes → Bytes → Bytes → Request
message_request f uri from to body =
    let req = with_header (codes "From") from (new_request (codes "MESSAGE") uri) in
    let named = with_header (codes "Call-ID") f.call_id (with_header (codes "To") to req) in
    Message.set_request_body (codes "application/MANSCDP+xml") (some body) (record named {
      headers =
          Headers.set (forwards_header (pos 70)) (
            Headers.set (cseq_header (record { seq = 1; method = codes "MESSAGE" })) named.headers);
    })

-- newMessage
unfoldable pub new_message : Config → Fresh → Bytes → Addr → Bytes → Request
new_message cfg f k dst body =
    let to = sip_uri k dst.host dst.port in
    let from = tagged f.tag (address_to (sip_uri cfg.server_id cfg.server_host (pos 0))) in
    message_request f to (Address.to_string from) (Address.to_string (address_to to)) body

-- sendMessage: the request and where it goes, or the error on a device without an address
unfoldable pub send_message : Config → Fresh → Bytes → Bytes → Platform → Option (Request × Addr)
send_message cfg f k body p = elim (device_addr k p) [
  | none ↦ none
  | some dst ↦ some (new_message cfg f k dst body, dst)
]

-- What sendMessage gives after the first event that comes in time; none is success.
unfoldable pub first_event : List TxEvent → Option Error
first_event [] = some err_timeout
first_event (failed e ∷ events) = some e
first_event (answered resp ∷ events) = none

abbrev pub Asked : Type 0
Asked = Platform × Option (Request × Addr)

-- QueryCatalog, QueryDeviceInfo and PTZControl
unfoldable pub query_catalog : Config → Codec → Fresh → Bytes → Platform → Asked
query_catalog cfg x f k p =
    let (p', n) = next_sn p in
    let e = record empty_envelope { cmd_type = cmd_catalog; sn = pos n; device_id = k } in
    (p', send_message cfg f k (build_query x e) p')

unfoldable pub query_device_info : Config → Codec → Fresh → Bytes → Platform → Asked
query_device_info cfg x f k p =
    let (p', n) = next_sn p in
    let e = record empty_envelope { cmd_type = cmd_device_info; sn = pos n; device_id = k } in
    (p', send_message cfg f k (build_query x e) p')

unfoldable pub ptz_control : Config → Codec → Fresh → Bytes → Bytes → Platform → Asked
ptz_control cfg x f k cmd p =
    let (p', n) = next_sn p in
    let e = record empty_envelope {
      cmd_type = cmd_ptz_cmd;
      sn = pos n;
      device_id = k;
      ptz_cmd = cmd;
    } in
    (p', send_message cfg f k (build_control x e) p')

-- invite: the request that ua.Invite makes, and where it goes
unfoldable pub invite :
    Config → Agent → Fresh → Bytes → StreamSdp → Platform → Option (Request × Addr)
invite cfg ua f k s p = elim (device_addr k p) [
  | none ↦ none
  | some dst ↦ some (
      invite_request ua f.tag f.call_id (sip_uri k dst.host dst.port)
        (address_to (sip_uri cfg.server_id cfg.server_host (pos 0))) (codes "application/sdp")
        (some (Sdp.build s)))
]

-- InviteLive and InvitePlayback
abbrev pub receiving : Config → Bytes → ℤ → ℕ → StreamSdp
receiving cfg ip port ssrc = record {
  username = cfg.server_id;
  address = ip;
  ssrc = ssrc;
  recv_only = true;
  video_port = port;
  audio_port = pos 0;
  session_name = [];
  start_time = [];
  end_time = [];
}

unfoldable pub invite_live :
    Config → Agent → Fresh → Bytes → Bytes → ℤ → ℕ → Platform → Option (Request × Addr)
invite_live cfg ua f k ip port ssrc p = invite cfg ua f k (receiving cfg ip port ssrc) p

unfoldable pub invite_playback :
    Config
    → Agent
    → Fresh
    → Bytes
    → Bytes
    → ℤ
    → ℕ
    → Bytes
    → Bytes
    → Platform
    → Option (Request × Addr)
invite_playback cfg ua f k ip port ssrc from to p =
    let s = receiving cfg ip port ssrc in
    invite cfg ua f k
      (record s { session_name = codes "PlayBack"; start_time = from; end_time = to }) p
