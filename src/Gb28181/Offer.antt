-- ===== src/Gb28181/Offer.antt =====
-- gb28181: the description that the platform offers, as the device reads it.
use gb.Base.{ℕ, suc, ◌-◌, ◌^◌, ◌≤◌, ◌<◌, ◌≡◌, refl, ap, ◌∙◌, inl, inr}
use gb.Base.{Bool, true, false, ◌||◌, some, [], ◌∷◌, ◌++◌, append-nil, append_assoc, arith}
use gb.Base.{◌==◌, Bool-cases}
use gb.Base.{is_nil, All-append}
use gb.Base.{ℤ, pos, is_positive}
use gb.Base.{ok}
use gb.Base.{
  Bytes, codes, bytes_eq, is_space, trim_left, trim_right, trim_space, cut, contains_any,
  has_prefix, split_by, split, fields,
}
use gb.Base.{itoa}
use gb.Header.Fields.{name}
use gb.Header.Auth.Text.{IsBare, is_break, contains_any-IsBare}
use gb.Gb28181.Port.{decimal-IsBare, itoa-IsDecimal, atoi_or-itoa}
use gb.Gb28181.Sdp
use gb.Gb28181.Sdp.{
  StreamSdp, Sdp, empty_sdp, line, build, ssrc_text, set_line, clean, set_pair, parse_line,
  parse_lines, video_lines, audio_lines, with_ssrc, atoi_or, media, origin, connection, time_range,
}
use gb.Gb28181.Ssrc.{ssrc_text-IsBare, parse_ssrc-ssrc_text}
use gb.Gb28181.Lines.{
  IsPrinted, IsLine, contains_any-IsLine, bare-IsLine, parse_line-key, parse_lines-line,
  fields-last, fields-first,
}

-- What the platform offers for a live stream, and what it is read as
abbrev pub live_offer : Bytes → Bytes → ℕ → ℕ → StreamSdp
live_offer user ip ssrc p = record {
  username = user;
  address = ip;
  ssrc = ssrc;
  recv_only = true;
  video_port = pos (suc p);
  audio_port = pos 0;
  session_name = [];
  start_time = [];
  end_time = [];
}

abbrev read_as : Bytes → Bytes → Bytes → ℤ → ℕ → Bool → Bytes → Sdp
read_as user ip name port ssrc recv time = record {
  username = user;
  address = ip;
  session_name = name;
  video_port = port;
  audio_port = pos 0;
  ssrc = ssrc;
  recv_only = recv;
  start_time = time;
  end_time = time;
}

abbrev pub live_sdp : Bytes → Bytes → ℕ → ℕ → Sdp
live_sdp user ip ssrc p = read_as user ip (codes "Play") (pos (suc p)) ssrc true (codes "0")

module _ (is_ip : Bytes → Bool) (user ip : Bytes) (bare_user : IsBare user)
    (some_user : is_nil user ≡ false) (bare_ip : IsBare ip) (some_ip : is_nil ip ≡ false) where
  word :
      (w rest : Bytes)
      → contains_any is_break w ≡ false
      → is_nil w ≡ false
      → fields (w ++ (b' ' ∷ rest)) ≡ w ∷ fields rest
  word w rest h n = fields-first w rest (contains_any-IsBare w h) n

  net_fields : fields (codes "IN IP4 " ++ ip) ≡ codes "IN" ∷ codes "IP4" ∷ ip ∷ []
  net_fields =
      unfold contains_any in
      unfold is_space in
      (word (codes "IN") (codes "IP4 " ++ ip) refl refl
        ∙ ap (λ fs. codes "IN" ∷ fs)
            (word (codes "IP4") ip refl refl
              ∙ ap (λ fs. codes "IP4" ∷ fs) (fields-last ip bare_ip some_ip)))

  origin_fields :
      fields (user ++ (codes " 0 0 IN IP4 " ++ ip))
      ≡ user ∷ codes "0" ∷ codes "0" ∷ codes "IN" ∷ codes "IP4" ∷ ip ∷ []
  origin_fields =
      unfold contains_any in
      unfold is_space in
      (fields-first user (codes "0 0 IN IP4 " ++ ip) bare_user some_user
        ∙ ap (λ fs. user ∷ fs)
            (word (codes "0") (codes "0 IN IP4 " ++ ip) refl refl
              ∙ ap (λ fs. codes "0" ∷ fs)
                  (word (codes "0") (codes "IN IP4 " ++ ip) refl refl
                    ∙ ap (λ fs. codes "0" ∷ fs) net_fields)))

  set_origin :
      set_line is_ip (codes "o") (user ++ (codes " 0 0 IN IP4 " ++ ip)) empty_sdp
      ≡ ok (read_as user ip [] (pos 0) 0 false [])
  unfolding set_line bytes_eq
  set_origin = rw origin_fields (unfold origin in refl)

  set_connection :
      (name : Bytes)
      → set_line is_ip (codes "c") (codes "IN IP4 " ++ ip) (read_as user ip name (pos 0) 0 false [])
        ≡ ok (read_as user ip name (pos 0) 0 false [])
  unfolding set_line bytes_eq
  set_connection name = rw net_fields (
      unfold connection in
      elim (Bool-cases (is_ip ip)) [ inl known ↦ rw known refl | inr unknown ↦ rw unknown refl ])

  media_fields :
      (p : ℕ)
      → suc p ≤ 2 ^ 63 - 1
      → fields (codes "video " ++ (itoa (pos (suc p)) ++ codes " RTP/AVP 96 98 97"))
        ≡ codes "video"
          ∷ itoa (pos (suc p))
          ∷ codes "RTP/AVP"
          ∷ codes "96"
          ∷ codes "98"
          ∷ codes "97"
          ∷ []
  media_fields p h =
      unfold contains_any in
      unfold is_space in
      (word (codes "video") (itoa (pos (suc p)) ++ codes " RTP/AVP 96 98 97") refl refl
        ∙ ap (λ fs. codes "video" ∷ fs)
            (fields-first (itoa (pos (suc p))) (codes "RTP/AVP 96 98 97")
                (decimal-IsBare _ (itoa-IsDecimal p)) (atoi_or-itoa p h).0
              ∙ ap (λ fs. itoa (pos (suc p)) ∷ fs) (unfold fields in unfold split_by in refl)))

  set_media :
      (p : ℕ)
      → suc p ≤ 2 ^ 63 - 1
      → set_line is_ip
          (codes "m")
          (codes "video " ++ (itoa (pos (suc p)) ++ codes " RTP/AVP 96 98 97"))
          (read_as user ip (codes "Play") (pos 0) 0 false (codes "0"))
        ≡ ok (read_as user ip (codes "Play") (pos (suc p)) 0 false (codes "0"))
  unfolding set_line bytes_eq
  set_media p h =
      rw (media_fields p h) (unfold media in unfold has_prefix in rw (atoi_or-itoa p h).1 refl)

  set_ssrc :
      (p ssrc : ℕ)
      → ssrc < 2 ^ 32
      → set_line is_ip
          (codes "y")
          (ssrc_text ssrc)
          (read_as user ip (codes "Play") (pos (suc p)) 0 true (codes "0"))
        ≡ ok (live_sdp user ip ssrc p)
  unfolding set_line bytes_eq
  set_ssrc p ssrc h = rw (parse_ssrc-ssrc_text ssrc h) refl

  -- a line whose text is known
  set-line :
      (k : ℕ) (v rest : Bytes) (s s' : Sdp)
      → IsLine (k ∷ b'=' ∷ v)
      → ((k == b' ' || k == 9) ≡ false)
        × (cut b'=' (k ∷ b'=' ∷ v) ≡ some (k ∷ [], v))
        × (trim_space (k ∷ []) ≡ k ∷ [])
      → set_line is_ip (k ∷ []) v s ≡ ok s'
      → parse_lines is_ip (split_by (λ c. c == 10) (line (k ∷ b'=' ∷ v) ++ rest)) s
        ≡ parse_lines is_ip (split_by (λ c. c == 10) rest) s'
  set-line k v rest s s' h t e =
      parse_lines-line is_ip (k ∷ b'=' ∷ v) rest s s' h
        (parse_line-key is_ip k v s h t.0 t.1 t.2 ∙ e)

  fixed-line :
      (k : ℕ) (v rest : Bytes) (s s' : Sdp)
      → contains_any (λ c. c == 13 || c == 10) (k ∷ b'=' ∷ v) ≡ false
      → ((k == b' ' || k == 9) ≡ false)
        × (cut b'=' (k ∷ b'=' ∷ v) ≡ some (k ∷ [], v))
        × (trim_space (k ∷ []) ≡ k ∷ [])
      → set_line is_ip (k ∷ []) v s ≡ ok s'
      → parse_lines is_ip (split_by (λ c. c == 10) (line (k ∷ b'=' ∷ v) ++ rest)) s
        ≡ parse_lines is_ip (split_by (λ c. c == 10) rest) s'
  fixed-line k v rest s s' h t e = set-line k v rest s s' (contains_any-IsLine _ h) t e

  origin-IsLine : IsLine (codes "o=" ++ (user ++ (codes " 0 0 IN IP4 " ++ ip)))
  unfolding contains_any
  origin-IsLine = All-append IsPrinted (codes "o=") _ (contains_any-IsLine (codes "o=") refl) (
      All-append IsPrinted user _ (bare-IsLine user bare_user) (
        All-append IsPrinted (codes " 0 0 IN IP4 ") ip
          (contains_any-IsLine (codes " 0 0 IN IP4 ") refl) (bare-IsLine ip bare_ip)))

  net-IsLine : IsLine (codes "c=IN IP4 " ++ ip)
  unfolding contains_any
  net-IsLine =
      All-append IsPrinted (codes "c=IN IP4 ") ip (contains_any-IsLine (codes "c=IN IP4 ") refl)
        (bare-IsLine ip bare_ip)

  media-IsLine :
      (p : ℕ) → IsLine (codes "m=video " ++ (itoa (pos (suc p)) ++ codes " RTP/AVP 96 98 97"))
  unfolding contains_any
  media-IsLine p =
      All-append IsPrinted (codes "m=video ") _ (contains_any-IsLine (codes "m=video ") refl) (
        All-append IsPrinted (itoa (pos (suc p))) _
          (bare-IsLine _ (decimal-IsBare _ (itoa-IsDecimal p)))
          (contains_any-IsLine (codes " RTP/AVP 96 98 97") refl))

  ssrc-IsLine : (n : ℕ) → IsLine (codes "y=" ++ ssrc_text n)
  unfolding contains_any
  ssrc-IsLine n =
      All-append IsPrinted (codes "y=") _ (contains_any-IsLine (codes "y=") refl)
        (bare-IsLine _ (ssrc_text-IsBare n))

  -- the text of the offer, as its lines
  offer_lines : (ssrc p : ℕ) → Bytes
  offer_lines ssrc p =
      line (codes "v=0")
      ++ (line (codes "o=" ++ (user ++ (codes " 0 0 IN IP4 " ++ ip)))
          ++ (line (codes "s=Play")
              ++ (line (codes "c=IN IP4 " ++ ip)
                  ++ (line (codes "t=0 0")
                      ++ (line
                            (codes "m=video " ++ (itoa (pos (suc p)) ++ codes " RTP/AVP 96 98 97"))
                          ++ (line (codes "a=recvonly")
                              ++ (line (codes "a=rtpmap:96 PS/90000")
                                  ++ (line (codes "a=rtpmap:98 H264/90000")
                                      ++ (line (codes "a=rtpmap:97 MPEG4/90000")
                                          ++ (line (codes "y=" ++ ssrc_text ssrc) ++ []))))))))))

  build-lines : (ssrc p : ℕ) → build (live_offer user ip ssrc p) ≡ offer_lines ssrc p
  unfolding build video_lines audio_lines offer_lines
  build-lines ssrc p = rw (positive p) (simp (append_assoc, append-nil))
    where
      positive : (q : ℕ) → is_positive (pos (suc q)) ≡ true
      positive q = ground arith

  abbrev offered : ℕ → Bool → Sdp
  offered p recv = read_as user ip (codes "Play") (pos (suc p)) 0 recv (codes "0")

  parse-lines :
      (ssrc p : ℕ)
      → suc p ≤ 2 ^ 63 - 1
      → ssrc < 2 ^ 32
      → parse_lines is_ip (split_by (λ c. c == 10) (offer_lines ssrc p)) empty_sdp
        ≡ ok (live_sdp user ip ssrc p)
  unfolding offer_lines contains_any cut trim_space trim_left trim_right is_space bytes_eq
  parse-lines ssrc p hp hs =
      fixed-line b'v' (codes "0") _ empty_sdp empty_sdp refl (refl, refl, refl)
        (unfold set_line in refl)
      ∙ set-line b'o' (user ++ (codes " 0 0 IN IP4 " ++ ip)) _ empty_sdp
          (read_as user ip [] (pos 0) 0 false []) origin-IsLine (refl, refl, refl) set_origin
      ∙ fixed-line b's' (codes "Play") _ (read_as user ip [] (pos 0) 0 false [])
          (read_as user ip (codes "Play") (pos 0) 0 false []) refl (refl, refl, refl)
          (unfold set_line in refl)
      ∙ set-line b'c' (codes "IN IP4 " ++ ip) _ (read_as user ip (codes "Play") (pos 0) 0 false [])
          (read_as user ip (codes "Play") (pos 0) 0 false []) net-IsLine (refl, refl, refl)
          (set_connection (codes "Play"))
      ∙ fixed-line b't' (codes "0 0") _ (read_as user ip (codes "Play") (pos 0) 0 false [])
          (read_as user ip (codes "Play") (pos 0) 0 false (codes "0")) refl (refl, refl, refl)
          (unfold set_line in unfold fields in unfold split_by in unfold time_range in refl)
      ∙ set-line b'm' (codes "video " ++ (itoa (pos (suc p)) ++ codes " RTP/AVP 96 98 97")) _
          (read_as user ip (codes "Play") (pos 0) 0 false (codes "0")) (offered p false)
          (media-IsLine p) (refl, refl, refl) (set_media p hp)
      ∙ fixed-line b'a' (codes "recvonly") _ (offered p false) (offered p true) refl
          (refl, refl, refl) (unfold set_line in refl)
      ∙ fixed-line b'a' (codes "rtpmap:96 PS/90000") _ (offered p true) (offered p true) refl
          (refl, refl, refl) (unfold set_line in refl)
      ∙ fixed-line b'a' (codes "rtpmap:98 H264/90000") _ (offered p true) (offered p true) refl
          (refl, refl, refl) (unfold set_line in refl)
      ∙ fixed-line b'a' (codes "rtpmap:97 MPEG4/90000") _ (offered p true) (offered p true) refl
          (refl, refl, refl) (unfold set_line in refl)
      ∙ set-line b'y' (ssrc_text ssrc) [] (offered p true) (live_sdp user ip ssrc p)
          (ssrc-IsLine ssrc) (refl, refl, refl) (set_ssrc p ssrc hs)
      ∙ (unfold split_by in unfold parse_lines in unfold parse_line in unfold clean in refl)

  -- The description that the platform offers for a live stream is read with the platform's ID, its
  -- address and port, the SSRC and the direction as they were written, for every uint32 and every
  -- positive port that fits an `int`; the ID and the address are texts without blanks, commas and
  -- quotes.
  pub parse-build :
      (ssrc p : ℕ)
      → suc p ≤ 2 ^ 63 - 1
      → ssrc < 2 ^ 32
      → gb.Gb28181.Sdp.parse is_ip (build (live_offer user ip ssrc p))
        ≡ ok (live_sdp user ip ssrc p)
  unfolding gb.Gb28181.Sdp.parse split
  parse-build ssrc p hp hs = rw (build-lines ssrc p, parse-lines ssrc p hp hs) refl
