-- ===== src/Ua/Digest.antt =====
-- ua.go: digest authentication. `md5`, `sha256` and `sha512_256` give the hexadecimal text of
-- the sums of those packages.
use gb.Base.{List, [], ◌∷◌, ◌++◌}
use gb.Base.{if◌then◌else◌}
use gb.Base.{is_nil}
use gb.Base.{Bytes, codes, bytes_eq, to_lower, to_upper, join, replace_byte}
use gb.Uri.{Uri}
use gb.Header.Auth.{Auth}
use gb.Header.Fields.{generic_header}
use gb.Headers.{Headers}
use gb.Headers
use gb.Message.{Method, Request}
use gb.Uri
use gb.Header.Auth.{empty_auth}

pub record Credentials : Type 0 where
  pub username : Bytes
  pub password : Bytes
  pub realm : Bytes

-- escapeAuthValue
unfoldable pub escape_auth_value : Bytes → Bytes
escape_auth_value s =
    replace_byte b'"' (b'\\' ∷ b'"' ∷ []) (replace_byte b'\\' (b'\\' ∷ b'\\' ∷ []) s)

abbrev pub quoted : Bytes → Bytes
quoted s = b'"' ∷ (escape_auth_value s ++ b'"' ∷ [])

-- authHeaders
unfoldable pub auth_headers : Credentials → Request → Request
auth_headers creds req = record req {
  headers =
      Headers.set
        (generic_header (codes "Authorization") (
          codes "Digest username="
          ++ (quoted creds.username
              ++ (codes ", realm="
                  ++ (quoted creds.realm ++ (codes ", uri=" ++ quoted (Uri.to_string req.uri)))))))
        req.headers;
}

pub record Hashes : Type 0 where
  pub md5 : Bytes → Bytes
  pub sha256 : Bytes → Bytes
  pub sha512_256 : Bytes → Bytes

-- digestHashHex
unfoldable pub digest_hash : Hashes → Bytes → Bytes → Bytes
digest_hash h algorithm text =
    if bytes_eq (to_lower algorithm) (codes "sha-256")
    then h.sha256 text
    else if bytes_eq (to_lower algorithm) (codes "sha-512-256")
    then h.sha512_256 text
    else h.md5 text

-- the text between colons that is hashed
unfoldable pub colons : List Bytes → Bytes
colons parts = join (b':' ∷ []) parts

-- DigestResponse
unfoldable pub digest_response :
    Hashes → Auth → Method → Bytes → Bytes → Bytes → Bytes → Bytes → Auth
digest_response h challenge method uri username password cnonce nc =
    let hash = digest_hash h challenge.algorithm in
    let ha1 = hash (colons (username ∷ challenge.realm ∷ password ∷ [])) in
    let ha2 = hash (colons (method ∷ uri ∷ [])) in
    record (empty_auth (codes "Digest")) {
      username = username;
      realm = challenge.realm;
      nonce = challenge.nonce;
      uri = uri;
      response =
          if is_nil challenge.qop
          then hash (colons (ha1 ∷ challenge.nonce ∷ ha2 ∷ []))
          else hash (colons (ha1 ∷ challenge.nonce ∷ nc ∷ cnonce ∷ challenge.qop ∷ ha2 ∷ []));
      cnonce = cnonce;
      nc = nc;
      qop = challenge.qop;
      algorithm = to_upper challenge.algorithm;
      opaque = challenge.opaque;
    }
