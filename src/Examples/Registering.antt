-- ===== src/Examples/Registering.antt =====
-- A device and its platform.
use gb.Base.{◌%◌, ◌≡◌, refl, ap}
use gb.Base.{Bool, true, false, Option, none, some, List, [], ◌∷◌, ◌++◌, arith}
use gb.Base.{◌==◌, if◌then◌else◌}
use gb.Base.{length, is_nil}
use gb.Base.{pos}
use gb.Base.{ok}
use gb.Base.{
  Bytes, codes, bytes_eq, is_space, trim_left, trim_right, trim_space, break_at, contains_any,
}
use gb.Header.Address.{Address}
use gb.Header.Auth.{Auth}
use gb.Header.Fields.{addr_header, auth_header, name}
use gb.Header.Name.{canonical_name}
use gb.Headers.{Headers}
use gb.Headers
use gb.Message
use gb.Message.{
  Method, Request, Response, Message, request, response, Addr, new_request, new_response,
}
use gb.Header.Auth
use gb.Header.Auth.Text.{IsQuotable, IsBare, contains_any-IsQuotable, contains_any-IsBare}
use gb.Header.Auth.RoundTrip.{credentials, IsWritable, IsComplete, parse-value}
use gb.Ua.Digest.{Hashes}
use gb.Gb28181.Device.{DeviceConfig, register_uri}
use gb.Gb28181.Xml.{Codec}
use gb.Gb28181.Sdp
use gb.Gb28181.Sdp.{build}
use gb.Gb28181.Offer.{live_offer, live_sdp, parse-build}
use gb.Gb28181.Platform.{
  respond, Config, Platform, new_platform, on_register, is_registered, credentials_of,
  is_incomplete, device_addr, via_addr, with_device, register_device,
}
use gb.Gb28181.Handshake.{IsPlain, sent_text, welcomed, on_register_accepts}
use gb.Gb28181.Registry.{IsProven, Input, registers, run, run-IsProven, on_register_redirects}
use gb.Examples.Messages.{bob_uri}
use gb.Examples.Transactions.{an_invite}

abbrev even_sum : Bytes → Bytes
even_sum s = if length s % 2 == 0 then codes "a0" else codes "b1"

abbrev sums : Hashes
sums = record { md5 = even_sum; sha256 = even_sum; sha512_256 = even_sum }

abbrev camera : DeviceConfig
camera = record {
  device_id = codes "cam";
  password = codes "pw";
  server_id = codes "srv";
  server_host = codes "h";
  server_port = pos 5060;
  local_host = codes "c";
  local_port = pos 5060;
  keepalive_interval = 60000;
  register_timeout = 10000;
  channels = [];
  device_info = record { name = []; manufacturer = []; model = []; firmware = [] };
}

plain_text : (b : Bool) → IsQuotable (if b then codes "a0" else codes "b1")
unfolding contains_any
plain_text true = contains_any-IsQuotable (codes "a0") refl
plain_text false = contains_any-IsQuotable (codes "b1") refl

some_text : (b : Bool) → is_nil (if b then codes "a0" else codes "b1") ≡ false
some_text true = refl
some_text false = refl

camera-IsPlain : IsPlain sums camera (codes "n1")
unfolding contains_any is_space
camera-IsPlain = record {
  plain_sum = λ s. plain_text (length s % 2 == 0);
  some_sum = λ s. some_text (length s % 2 == 0);
  plain_device = contains_any-IsQuotable (codes "cam") refl;
  some_device = refl;
  plain_server = contains_any-IsQuotable (codes "srv") refl;
  some_server = refl;
  plain_nonce = contains_any-IsQuotable (codes "n1") refl;
  some_nonce = refl;
  bare_uri = contains_any-IsBare (register_uri camera) refl;
  plain_uri = contains_any-IsQuotable (register_uri camera) refl;
}

abbrev in_quotes : Bytes → Bytes
in_quotes s = b'"' ∷ (s ++ b'"' ∷ [])

abbrev known_password : Bytes → Option Bytes
known_password k = if bytes_eq k (codes "cam") then some (codes "pw") else none

abbrev server : Config
server = record {
  server_id = codes "srv";
  server_host = codes "h";
  listen_port = pos 5060;
  realm = codes "srv";
  password = known_password;
  expires = pos 3600;
}

abbrev camera_address : Address
camera_address = record {
  display_name = [];
  quoted = false;
  uri = record bob_uri { user = codes "cam" };
  params = [];
}

abbrev bare_register : Request
bare_register = record (new_request (codes "REGISTER") bob_uri) {
  headers = addr_header (codes "From") camera_address ∷ an_invite.headers;
}

abbrev second_register : Request
second_register = record bare_register {
  headers =
      auth_header (codes "Authorization")
        (gb.Header.Auth.parse (sent_text sums in_quotes camera (codes "n1") camera-IsPlain))
      ∷ addr_header (codes "From") camera_address
      ∷ [];
}

second-from : gb.Message.from second_register.headers ≡ some camera_address
unfolding gb.Message.from gb.Message.address_of gb.Headers.get canonical_name name bytes_eq
second-from = refl

second-authorization :
    gb.Headers.get (codes "Authorization") second_register.headers
    ≡ some (
        auth_header
          (codes "Authorization")
          (gb.Header.Auth.parse (sent_text sums in_quotes camera (codes "n1") camera-IsPlain)))
unfolding gb.Headers.get canonical_name name bytes_eq
second-authorization = refl

-- the second REGISTER is accepted
second_accepted :
    on_register even_sum in_quotes server 7 (codes "n2") second_register new_platform
    ≡ welcomed sums in_quotes camera
        (codes "n1")
        camera-IsPlain
        server
        7
        (codes "n2")
        second_register
        new_platform
second_accepted =
    on_register_accepts sums in_quotes camera (codes "n1") camera-IsPlain server 7 (codes "n2")
      second_register new_platform camera_address second-from refl second-authorization
      (unfold bytes_eq in refl)

on_register_accepts_example :
    on_register even_sum in_quotes server 7 (codes "n2") second_register new_platform
    ≡ welcomed sums in_quotes camera
        (codes "n1")
        camera-IsPlain
        server
        7
        (codes "n2")
        second_register
        new_platform
on_register_accepts_example =
    on_register_accepts sums in_quotes camera (codes "n1") camera-IsPlain server 7 (codes "n2")
      second_register new_platform camera_address second-from refl second-authorization
      (unfold bytes_eq in refl)

abbrev no_codec : Codec
no_codec = record { encode = λ root e. root; decode = λ s. none }

abbrev only_register : List (Input even_sum in_quotes server no_codec)
only_register = registers 7 (codes "n2") second_register ∷ []

camera_registered :
    is_registered
      (codes "cam")
      (run even_sum in_quotes server no_codec only_register new_platform).devices
    ≡ true
unfolding run is_registered gb.Gb28181.Platform.find_device gb.Gb28181.Platform.update_device
    bytes_eq
camera_registered = ap (λ out. is_registered (codes "cam") out.0.devices) second_accepted

run-IsProven_example : IsProven even_sum in_quotes server no_codec (codes "cam") only_register
run-IsProven_example =
    run-IsProven even_sum in_quotes server no_codec (codes "cam") only_register camera_registered

abbrev with_camera : Platform
with_camera = with_device (codes "cam") (register_device 7) new_platform

bare-is_incomplete : is_incomplete (credentials_of bare_register) ≡ true
unfolding credentials_of gb.Header.Auth.parse gb.Message.header_value gb.Headers.get canonical_name
    name bytes_eq trim_space trim_left trim_right break_at
bare-is_incomplete = refl

bare-from : gb.Message.from bare_register.headers ≡ some camera_address
unfolding gb.Message.from gb.Message.address_of gb.Headers.get canonical_name name bytes_eq
bare-from = refl

camera_known : is_registered (codes "cam") with_camera.devices ≡ true
unfolding is_registered gb.Gb28181.Platform.find_device gb.Gb28181.Platform.update_device bytes_eq
camera_known = refl

-- a REGISTER of somebody else, whose Via names the host a
on_register_redirects_example :
    let out = on_register even_sum in_quotes server 8 (codes "n3") bare_register with_camera in
    ((resp : Response) × (out.1 ≡ respond resp ∷ []) × (resp.status_code ≡ pos 401))
    × (is_registered (codes "cam") out.0.devices ≡ true)
    × (device_addr (codes "cam") out.0 ≡ via_addr (gb.Message.via bare_register.headers))
on_register_redirects_example =
    on_register_redirects even_sum in_quotes server no_codec 8 (codes "n3") bare_register
      with_camera camera_address bare-from bare-is_incomplete camera_known

short-IsWritable :
    IsWritable (codes "cam") (codes "srv") (codes "n1") (codes "sip:srv@h") (codes "a0")
unfolding contains_any is_space
short-IsWritable = record {
  plain_username = contains_any-IsQuotable (codes "cam") refl;
  plain_realm = contains_any-IsQuotable (codes "srv") refl;
  plain_nonce = contains_any-IsQuotable (codes "n1") refl;
  plain_uri = contains_any-IsBare (codes "sip:srv@h") refl;
  plain_response = contains_any-IsQuotable (codes "a0") refl;
}

short-IsComplete :
    IsComplete (codes "cam") (codes "srv") (codes "n1") (codes "sip:srv@h") (codes "a0")
short-IsComplete = record {
  some_username = refl;
  some_realm = refl;
  some_nonce = refl;
  some_uri = refl;
  some_response = refl;
}

abbrev short : Auth
short = credentials (codes "cam") (codes "srv") (codes "n1") (codes "sip:srv@h") (codes "a0")

parse-value_example : gb.Header.Auth.parse (gb.Header.Auth.value short) ≡ short
parse-value_example =
    parse-value (codes "cam") (codes "srv") (codes "n1") (codes "sip:srv@h") (codes "a0")
      short-IsWritable short-IsComplete

abbrev no_ip_text : Bytes → Bool
no_ip_text s = false

server-IsBare : IsBare (codes "srv")
unfolding contains_any is_space
server-IsBare = contains_any-IsBare (codes "srv") refl

host-IsBare : IsBare (codes "10.0.0.1")
unfolding contains_any is_space
host-IsBare = contains_any-IsBare (codes "10.0.0.1") refl

parse-build_example :
    gb.Gb28181.Sdp.parse no_ip_text
      (build (live_offer (codes "srv") (codes "10.0.0.1") 100000001 29999))
    ≡ ok (live_sdp (codes "srv") (codes "10.0.0.1") 100000001 29999)
parse-build_example =
    parse-build no_ip_text (codes "srv") (codes "10.0.0.1") server-IsBare refl host-IsBare refl
      100000001 29999 (omega arith) (omega arith)
