-- ===== src/Gb28181/Handshake.antt =====
-- gb28181: a device registers with a platform.
use gb.Base.{ℕ, ◌≡◌, refl, sym, ap, ◌∙◌}
use gb.Base.{false, some, List, [], ◌∷◌, ◌++◌, map, append-nil, append_assoc}
use gb.Base.{if◌then◌else◌}
use gb.Base.{is_nil}
use gb.Base.{pos}
use gb.Base.{Bytes, codes, bytes_eq, bytes_eq_iff, to_lower, to_upper, trim_space, join}
use gb.Header.Address.{Address}
use gb.Header.Auth.{Auth}
use gb.Header.Fields.{auth_header, value}
use gb.Headers.{Headers}
use gb.Headers
use gb.Message
use gb.Message.{
  Method, Request, Response, Message, request, response, Addr, new_request, new_response,
}
use gb.Header.Auth
use gb.Header.Auth.{empty_auth}
use gb.Header.Auth.Text.{IsQuotable, IsBare}
use gb.Header.Auth.Fields.{quoted, text, digest, blank-IsSeparator, parse-list}
use gb.Header.Auth.RoundTrip.{
  credentials, IsWritable, IsComplete, username-IsKey, realm-IsKey, nonce-IsKey, uri-IsKey,
  response-IsKey, parse-value, tail_fields, stored_all, quoted_uri_stored, ends_quoted,
}
use gb.Ua.Digest.{Hashes, digest_hash, digest_response, colons}
use gb.Gb28181.Device.{DeviceConfig, auth_header_string, register_uri, credentials_for}
use gb.Gb28181.Platform.{
  Config, Platform, Effect, respond, event, with_device, register_device, challenge_device,
  challenge, registered_event, expected, check_by, check_register, credentials_of, is_incomplete,
  register_from, on_register,
}

-- The device's own text is read as the credentials that it was made from.
parse-auth_header_string :
    (username realm nonce uri resp : Bytes)
    → IsWritable username realm nonce uri resp
    → IsQuotable uri
    → is_nil resp ≡ false
    → gb.Header.Auth.parse (auth_header_string (credentials username realm nonce uri resp))
      ≡ credentials username realm nonce uri resp
unfolding auth_header_string
parse-auth_header_string username realm nonce uri resp w q some_resp =
    ap gb.Header.Auth.parse written ∙ parsed
  where
    shut : Bytes
    shut =
        codes " username=\""
        ++ (username
            ++ (codes "\" realm=\""
                ++ (realm
                    ++ (codes "\" nonce=\""
                        ++ (nonce
                            ++ (codes "\" uri=\"" ++ (uri ++ (codes "\" response=\"" ++ resp))))))))

    listed : Bytes
    listed =
        digest
        ++ (b' '
            ∷ join (codes " ") (
                map text (
                  quoted (codes "username") username
                  ∷ tail_fields realm nonce (quoted (codes "uri") uri) resp)))

    written : auth_header_string (credentials username realm nonce uri resp) ≡ listed
    written = unfold join in rw some_resp (simp (append_assoc, append-nil))

    closed : listed ≡ digest ++ (shut ++ b'"' ∷ [])
    closed = unfold join in simp append_assoc

    whole : trim_space listed ≡ listed
    whole = ap trim_space closed ∙ ends_quoted shut ∙ sym closed

    parsed : gb.Header.Auth.parse listed ≡ credentials username realm nonce uri resp
    parsed =
        parse-list b' ' [] (codes " ") (quoted (codes "username") username)
          (tail_fields realm nonce (quoted (codes "uri") uri) resp) refl (λ s. refl)
          blank-IsSeparator
          (
            (username-IsKey, w.plain_username),
            (
              (realm-IsKey, w.plain_realm),
              (
                (nonce-IsKey, w.plain_nonce),
                ((uri-IsKey, q), ((response-IsKey, w.plain_response), tt)),
              ),
            ),
          )
          whole
        ∙ stored_all username realm nonce uri resp (quoted (codes "uri") uri)
            (quoted_uri_stored username realm nonce uri)

-- What the digests and the configured texts look like: no text is empty or has a quote or a
-- backslash, and the two that make up the URI have neither commas nor blanks.
pub record IsPlain (h : Hashes) (cfg : DeviceConfig) (nonce : Bytes) : Type 0 where
  pub plain_sum : (s : Bytes) → IsQuotable (h.md5 s)
  pub some_sum : (s : Bytes) → is_nil (h.md5 s) ≡ false
  pub plain_device : IsQuotable cfg.device_id
  pub some_device : is_nil cfg.device_id ≡ false
  pub plain_server : IsQuotable cfg.server_id
  pub some_server : is_nil cfg.server_id ≡ false
  pub plain_nonce : IsQuotable nonce
  pub some_nonce : is_nil nonce ≡ false
  pub bare_uri : IsBare (register_uri cfg)
  pub plain_uri : IsQuotable (register_uri cfg)

credentials_of-kept :
    (req : Request) (k : Bytes) (a : Auth)
    → Headers.get (codes "Authorization") req.headers ≡ some (auth_header k a)
    → credentials_of req ≡ gb.Header.Auth.parse (gb.Header.Auth.value a)
unfolding credentials_of Message.header_value value
credentials_of-kept req k a e = rw e refl

module _ (h : Hashes) (quote : Bytes → Bytes) (cfg : DeviceConfig) (nonce : Bytes)
    (plain : IsPlain h cfg nonce) where
  -- the digest that a device with this configuration gives to the nonce
  abbrev pub device_sum : Bytes
  device_sum = h.md5 (
      colons (
        h.md5 (colons (cfg.device_id ∷ cfg.server_id ∷ cfg.password ∷ []))
        ∷ nonce
        ∷ h.md5 (colons (codes "REGISTER" ∷ register_uri cfg ∷ []))
        ∷ []))

  -- the challenge that the device has kept
  abbrev pub kept_challenge : Auth
  kept_challenge = record (empty_auth (codes "Digest")) { realm = cfg.server_id; nonce = nonce }

  abbrev written : Auth
  written = credentials cfg.device_id cfg.server_id nonce (register_uri cfg) device_sum

  md5-default : (s : Bytes) → digest_hash h [] s ≡ h.md5 s
  unfolding digest_hash bytes_eq to_lower
  md5-default s = refl

  credentials_for-written : credentials_for h cfg kept_challenge ≡ written
  unfolding credentials_for digest_response to_upper digest_hash bytes_eq to_lower
  credentials_for-written = refl

  written-IsWritable : IsWritable cfg.device_id cfg.server_id nonce (register_uri cfg) device_sum
  written-IsWritable = record {
    plain_username = plain.plain_device;
    plain_realm = plain.plain_server;
    plain_nonce = plain.plain_nonce;
    plain_uri = plain.bare_uri;
    plain_response = plain.plain_sum _;
  }

  written-IsComplete : IsComplete cfg.device_id cfg.server_id nonce (register_uri cfg) device_sum
  written-IsComplete = record {
    some_username = plain.some_device;
    some_realm = plain.some_server;
    some_nonce = plain.some_nonce;
    some_uri = refl;
    some_response = plain.some_sum _;
  }

  -- the header as it stands in the device's request, and as the parser of the platform keeps it
  abbrev pub sent_text : Bytes
  sent_text = auth_header_string (credentials_for h cfg kept_challenge)

  read_back : gb.Header.Auth.parse sent_text ≡ written
  read_back =
      ap (λ a. gb.Header.Auth.parse (auth_header_string a)) credentials_for-written
      ∙ parse-auth_header_string _ _ _ _ _ written-IsWritable plain.plain_uri (plain.some_sum _)

  read_twice :
      gb.Header.Auth.parse (gb.Header.Auth.value (gb.Header.Auth.parse sent_text)) ≡ written
  read_twice =
      ap (λ a. gb.Header.Auth.parse (gb.Header.Auth.value a)) read_back
      ∙ parse-value _ _ _ _ _ written-IsWritable written-IsComplete

  module _ (pcfg : Config) (now : ℕ) (fresh : Bytes) (req : Request) (p : Platform) where
    -- the device is marked, the answer is 200, and OnDevice is called
    abbrev pub welcomed : Platform × List Effect
    welcomed = (
      with_device cfg.device_id (register_device now) p,
      respond (new_response (pos 200) []) ∷ event (registered_event cfg.device_id) ∷ [],
    )

    accepted :
        pcfg.password cfg.device_id ≡ some cfg.password
        → check_register h.md5 quote pcfg now cfg.device_id written p ≡ welcomed
    unfolding check_register check_by expected
    accepted known = rw (known, plain.some_server, (bytes_eq_iff device_sum device_sum).1 refl) refl

    by_credentials :
        (auth : Auth)
        → auth ≡ written
        → pcfg.password cfg.device_id ≡ some cfg.password
        → (if is_incomplete auth
            then (
              with_device cfg.device_id (challenge_device fresh req) p,
              respond (challenge h.md5 quote pcfg fresh) ∷ [],
            )
            else check_register h.md5 quote pcfg now cfg.device_id auth p)
          ≡ welcomed
    by_credentials auth e known = rw (e, plain.some_sum) (accepted known)

    -- A device whose password the platform knows is registered by its second REGISTER: the
    -- platform reads the credentials that the device wrote for its nonce, in the form that the
    -- message parser keeps, finds the digest that it expects, answers 200 and marks the device.
    pub on_register_accepts :
        (from : Address)
        → Message.from req.headers ≡ some from
        → from.uri.user ≡ cfg.device_id
        → Headers.get (codes "Authorization") req.headers
          ≡ some (auth_header (codes "Authorization") (gb.Header.Auth.parse sent_text))
        → pcfg.password cfg.device_id ≡ some cfg.password
        → on_register h.md5 quote pcfg now fresh req p ≡ welcomed
    on_register_accepts from is_from is_user header known =
        unfold on_register in
        rw (is_from, is_user)
          (unfold register_from in
            by_credentials (credentials_of req) (credentials_of-kept req _ _ header ∙ read_twice)
              known)
