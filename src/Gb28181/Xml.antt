-- ===== src/Gb28181/Xml.antt =====
-- gb28181/xml.go: the envelopes, and the stream numbers (SSRC). The XML encoder and decoder are
-- arguments.
use gb.Base.{ℕ}
use gb.Base.{Option, none, some, List, []}
use gb.Base.{◌==◌}
use gb.Base.{ℤ, pos}
use gb.Base.{Bytes, codes, trim_space, break_at}
use gb.Base.{parse_uint32}

-- The names of the commands
abbrev pub cmd_keepalive : Bytes
cmd_keepalive = codes "Keepalive"

abbrev pub cmd_catalog : Bytes
cmd_catalog = codes "Catalog"

abbrev pub cmd_device_info : Bytes
cmd_device_info = codes "DeviceInfo"

abbrev pub cmd_device_status : Bytes
cmd_device_status = codes "DeviceStatus"

abbrev pub cmd_device_config : Bytes
cmd_device_config = codes "DeviceConfig"

abbrev pub cmd_config_download : Bytes
cmd_config_download = codes "ConfigDownload"

abbrev pub cmd_alarm : Bytes
cmd_alarm = codes "Alarm"

abbrev pub cmd_mobile_pos : Bytes
cmd_mobile_pos = codes "MobilePosition"

abbrev pub cmd_position : Bytes
cmd_position = codes "Position"

abbrev pub cmd_preset_query : Bytes
cmd_preset_query = codes "PresetQuery"

abbrev pub cmd_ptz_cmd : Bytes
cmd_ptz_cmd = codes "PTZCmd"

abbrev pub cmd_tele_boot : Bytes
cmd_tele_boot = codes "TeleBoot"

abbrev pub cmd_record_info : Bytes
cmd_record_info = codes "RecordInfo"

abbrev pub cmd_download : Bytes
cmd_download = codes "Download"

abbrev pub cmd_broadcast : Bytes
cmd_broadcast = codes "Broadcast"

abbrev pub cmd_invite : Bytes
cmd_invite = codes "INVITE"

abbrev pub cmd_media_status : Bytes
cmd_media_status = codes "MediaStatus"

abbrev pub cmd_home_position : Bytes
cmd_home_position = codes "HomePosition"

-- Item
pub record Item : Type 0 where
  pub device_id : Bytes
  pub name : Bytes
  pub manufacturer : Bytes
  pub model : Bytes
  pub owner : Bytes
  pub civil_code : Bytes
  pub address : Bytes
  pub parental : Bytes
  pub parent_id : Bytes
  pub safety_way : Bytes
  pub register_way : Bytes
  pub secrecy : Bytes
  pub ip_address : Bytes
  pub port : Bytes
  pub password : Bytes
  pub status : Bytes
  pub longitude : Bytes
  pub latitude : Bytes

-- DeviceList
pub record DeviceList : Type 0 where
  pub num : Bytes
  pub items : List Item

-- Envelope, without XMLName, which only the encoder sees
pub record Envelope : Type 0 where
  pub cmd_type : Bytes
  pub sn : ℤ
  pub device_id : Bytes
  pub seq_num : ℤ
  pub ptz_cmd : Bytes
  pub tele_boot : Bytes
  pub record_cmd : Bytes
  pub guard_cmd : Bytes
  pub alarm_cmd : Bytes
  pub alarm_time : Bytes
  pub alarm_type : Bytes
  pub alarm_priority : Bytes
  pub alarm_method : Bytes
  pub alarm_description : Bytes
  pub longitude : Bytes
  pub latitude : Bytes
  pub device_list : Option DeviceList
  pub device_name : Bytes
  pub manufacturer : Bytes
  pub model : Bytes
  pub firmware : Bytes
  pub result : Bytes
  pub status : Bytes
  pub reason : Bytes
  pub online : Bytes
  pub sum_num : ℤ

abbrev pub empty_envelope : Envelope
empty_envelope = record {
  cmd_type = [];
  sn = pos 0;
  device_id = [];
  seq_num = pos 0;
  ptz_cmd = [];
  tele_boot = [];
  record_cmd = [];
  guard_cmd = [];
  alarm_cmd = [];
  alarm_time = [];
  alarm_type = [];
  alarm_priority = [];
  alarm_method = [];
  alarm_description = [];
  longitude = [];
  latitude = [];
  device_list = none;
  device_name = [];
  manufacturer = [];
  model = [];
  firmware = [];
  result = [];
  status = [];
  reason = [];
  online = [];
  sum_num = pos 0;
}

-- What encoding/xml does: `encode` with the name of the root, `decode` with an error as `none`.
pub record Codec : Type 0 where
  pub encode : Bytes → Envelope → Bytes
  pub decode : Bytes → Option Envelope

-- BuildNotify, BuildQuery, BuildControl and BuildResponse
unfoldable pub build_notify : Codec → Envelope → Bytes
build_notify x e = x.encode (codes "Notify") e

unfoldable pub build_query : Codec → Envelope → Bytes
build_query x e = x.encode (codes "Query") e

unfoldable pub build_control : Codec → Envelope → Bytes
build_control x e = x.encode (codes "Control") e

unfoldable pub build_response : Codec → Envelope → Bytes
build_response x e = x.encode (codes "Response") e

-- Parse: what stands before the first `<` is skipped.
unfoldable pub parse : Codec → Bytes → Option Envelope
parse x body = elim (break_at (λ c. c == b'<') body) [ none ↦ none | some q ↦ x.decode q.1 ]

abbrev pub first_some {ℓ} : {A : Type ℓ} → Option A → Option A → Option A
first_some none o = o
first_some (some a) o = some a

-- ParseSSRC: hexadecimal first
unfoldable pub parse_ssrc : Bytes → Option ℕ
parse_ssrc text = let s = trim_space text in first_some (parse_uint32 16 s) (parse_uint32 10 s)
