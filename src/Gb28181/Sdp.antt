-- ===== src/Gb28181/Sdp.antt =====
-- gb28181/sdp.go: the media descriptions. `is_ip` says that net.ParseIP gives an address.
use gb.Base.{ℕ, zero, suc, ◌+◌, ◌-◌, ◌/◌, ◌%◌, ◌^◌}
use gb.Base.{Bool, true, false, not, ◌||◌, Option, none, some, List, [], ◌∷◌, ◌++◌}
use gb.Base.{ltb, leb, ◌==◌, if◌then◌else◌, get_or}
use gb.Base.{length, is_nil}
use gb.Base.{ℤ, pos, negsuc, is_positive}
use gb.Base.{err_parse}
use gb.Base.{Result, ok, err, ◌>>=◌}
use gb.Base.{
  Bytes, codes, bytes_eq, trim_left, trim_right, trim_space, cut, has_prefix, split, fields,
}
use gb.Base.{unsigned, atoi, format_uint, itoa}
use gb.Gb28181.Xml.{parse_ssrc}

-- StreamSDP
pub record StreamSdp : Type 0 where
  pub username : Bytes
  pub address : Bytes
  pub ssrc : ℕ
  pub recv_only : Bool
  pub video_port : ℤ
  pub audio_port : ℤ
  pub session_name : Bytes
  pub start_time : Bytes
  pub end_time : Bytes

unfoldable pub hex_digit : ℕ → ℕ
hex_digit d = if ltb d 10 then 48 + d else 87 + d

-- `n` hexadecimal digits in front of `out`
unfoldable pub hex_onto : ℕ → ℕ → Bytes → Bytes
hex_onto zero v out = out
hex_onto (suc n) v out = hex_onto n (v / 16) (hex_digit (v % 16) ∷ out)

-- `%08x` on a uint32
unfoldable pub ssrc_text : ℕ → Bytes
ssrc_text v = hex_onto 8 v []

abbrev pub line : Bytes → Bytes
line s = s ++ (13 ∷ 10 ∷ [])

abbrev pub direction : Bool → Bytes
direction b = if b then codes "recvonly" else codes "sendonly"

abbrev pub name_or_play : Bytes → Bytes
name_or_play s = if is_nil s then codes "Play" else s

abbrev pub times : StreamSdp → Bytes
times s =
    if not (is_nil s.start_time) || not (is_nil s.end_time)
    then codes "t=" ++ (s.start_time ++ (b' ' ∷ s.end_time))
    else codes "t=0 0"

-- The lines for video and for audio
unfoldable pub video_lines : StreamSdp → Bytes
video_lines s =
    if is_positive s.video_port
    then line (codes "m=video " ++ (itoa s.video_port ++ codes " RTP/AVP 96 98 97"))
      ++ (line (codes "a=" ++ direction s.recv_only)
          ++ (line (codes "a=rtpmap:96 PS/90000")
              ++ (line (codes "a=rtpmap:98 H264/90000")
                  ++ (line (codes "a=rtpmap:97 MPEG4/90000")
                      ++ line (codes "y=" ++ ssrc_text s.ssrc)))))
    else []

unfoldable pub audio_lines : StreamSdp → Bytes
audio_lines s =
    if is_positive s.audio_port
    then line (codes "m=audio " ++ (itoa s.audio_port ++ codes " RTP/AVP 8 0"))
      ++ (line (codes "a=rtpmap:8 PCMA/8000")
          ++ (line (codes "a=rtpmap:0 PCMU/8000")
              ++ (line (codes "a=" ++ direction s.recv_only)
                  ++ line (codes "y=" ++ ssrc_text s.ssrc))))
    else []

-- Build
unfoldable pub build : StreamSdp → Bytes
build s =
    line (codes "v=0")
    ++ (line (codes "o=" ++ (s.username ++ (codes " 0 0 IN IP4 " ++ s.address)))
        ++ (line (codes "s=" ++ name_or_play s.session_name)
            ++ (line (codes "c=IN IP4 " ++ s.address)
                ++ (line (times s) ++ (video_lines s ++ audio_lines s)))))

-- SDP
pub record Sdp : Type 0 where
  pub username : Bytes
  pub address : Bytes
  pub session_name : Bytes
  pub video_port : ℤ
  pub audio_port : ℤ
  pub ssrc : ℕ
  pub recv_only : Bool
  pub start_time : Bytes
  pub end_time : Bytes

abbrev pub empty_sdp : Sdp
empty_sdp = record {
  username = [];
  address = [];
  session_name = [];
  video_port = pos 0;
  audio_port = pos 0;
  ssrc = 0;
  recv_only = false;
  start_time = [];
  end_time = [];
}

abbrev pub last : List Bytes → Bytes
last [] = []
last (f ∷ []) = f
last (f ∷ g ∷ fs) = last (g ∷ fs)

unfoldable pub origin : List Bytes → Sdp → Sdp
origin [] s = s
origin (u ∷ fs) s = record s {
  username = u;
  address = if leb 5 (length fs) then last (u ∷ fs) else s.address;
}

unfoldable pub time_range : List Bytes → Sdp → Sdp
time_range [] s = s
time_range (t ∷ []) s = record s { start_time = t }
time_range (t ∷ e ∷ fs) s = record s { start_time = t; end_time = e }

-- strconv.Atoi without a look at its error: a number out of range gives the nearest `int`, any
-- other text 0.
abbrev pub clamped : ℤ → Option ℕ → ℤ
clamped bound none = pos 0
clamped bound (some n) = bound

unfoldable pub atoi_or : Bytes → ℤ
atoi_or [] = pos 0
atoi_or (c ∷ s) = get_or (atoi (c ∷ s)) (
    if c == b'-'
    then clamped (negsuc (2 ^ 63 - 1)) (unsigned s)
    else if c == b'+'
    then clamped (pos (2 ^ 63 - 1)) (unsigned s)
    else clamped (pos (2 ^ 63 - 1)) (unsigned (c ∷ s)))

unfoldable pub media : List Bytes → Sdp → Sdp
media (kind ∷ port ∷ fs) s =
    if has_prefix (codes "video") kind
    then record s { video_port = atoi_or port }
    else if has_prefix (codes "audio") kind
    then record s { audio_port = atoi_or port }
    else s
media _ s = s

abbrev pub with_ssrc : Sdp → Option ℕ → Result Sdp
with_ssrc s none = err err_parse
with_ssrc s (some n) = ok (record s { ssrc = n })

-- the line without its return and the blanks in front
unfoldable pub clean : Bytes → Bytes
clean text = trim_left (λ c. c == b' ' || c == 9) (trim_right (λ c. c == 13) text)

module _ (is_ip : Bytes → Bool) where
  unfoldable pub connection : List Bytes → Sdp → Sdp
  connection (net ∷ kind ∷ host ∷ []) s = if is_ip host then record s { address = host } else s
  connection _ s = s

  -- the switch of ParseSDP
  unfoldable pub set_line : Bytes → Bytes → Sdp → Result Sdp
  set_line k v s =
      if bytes_eq k (codes "o")
      then ok (origin (fields v) s)
      else if bytes_eq k (codes "s")
      then ok (record s { session_name = trim_space v })
      else if bytes_eq k (codes "c")
      then ok (connection (fields v) s)
      else if bytes_eq k (codes "t")
      then ok (time_range (fields v) s)
      else if bytes_eq k (codes "m")
      then ok (media (fields v) s)
      else if bytes_eq k (codes "a")
      then ok
          (if bytes_eq (trim_space v) (codes "recvonly") then record s { recv_only = true } else s)
      else if bytes_eq k (codes "y")
      then with_ssrc s (parse_ssrc v)
      else ok s

  abbrev pub set_pair : Option (Bytes × Bytes) → Sdp → Result Sdp
  set_pair none s = ok s
  set_pair (some (k, v)) s = set_line (trim_space k) v s

  unfoldable pub parse_line : Bytes → Sdp → Result Sdp
  parse_line text s = set_pair (cut b'=' (clean text)) s

  unfoldable pub parse_lines : List Bytes → Sdp → Result Sdp
  parse_lines [] s = ok s
  parse_lines (l ∷ ls) s = do s' ← parse_line l s; parse_lines ls s'

  unfoldable pub parse : Bytes → Result Sdp
  parse body = do
    s ← parse_lines (split 10 body) empty_sdp
    if is_nil s.session_name then err err_parse else ok s

-- SSRCOf
unfoldable pub ssrc_of : Sdp → Bytes
ssrc_of s = format_uint s.ssrc
