-- ===== src/Header/Auth/RoundTrip.antt =====
-- headers.go: ParseAuth and Value, on credentials.
use gb.Base.{◌≡◌, refl, sym, ap, ◌∙◌}
use gb.Base.{false, some, List, [], ◌∷◌, ◌++◌, map, append-nil, append_assoc}
use gb.Base.{is_nil}
use gb.Base.{
  Bytes, codes, bytes_eq, lower, to_lower, is_space, trim_left, trim_right, trim_space, cut,
  contains_any, join,
}
use gb.Header.Auth.{Auth}
use gb.Header.Auth
use gb.Header.Auth.{empty_auth, split_list, set_field, set_fields, write_auth, write_bare}
use gb.Header.Auth.Text.{
  IsQuotable, IsBare, trim_space-framed, split_list-sep, is_break, contains_any-IsBare,
}
use gb.Header.Auth.Fields.{
  Field, quoted, bare, text, IsKey, comma-IsSeparator, store, store_all, digest, parse-list,
}

key_of :
    (k : Bytes)
    → is_nil k ≡ false
    → contains_any is_break k ≡ false
    → to_lower (trim_space k) ≡ k
    → ((w : Bytes) → cut b'=' (k ++ (b'=' ∷ w)) ≡ some (k, w))
    → IsKey k
key_of k n b l c = (n, contains_any-IsBare k b, l, c)

-- the names of the parameters
pub username-IsKey : IsKey (codes "username")
unfolding contains_any is_space to_lower lower trim_space trim_left trim_right cut
username-IsKey = key_of _ refl refl refl (λ w. refl)

pub realm-IsKey : IsKey (codes "realm")
unfolding contains_any is_space to_lower lower trim_space trim_left trim_right cut
realm-IsKey = key_of _ refl refl refl (λ w. refl)

pub nonce-IsKey : IsKey (codes "nonce")
unfolding contains_any is_space to_lower lower trim_space trim_left trim_right cut
nonce-IsKey = key_of _ refl refl refl (λ w. refl)

pub uri-IsKey : IsKey (codes "uri")
unfolding contains_any is_space to_lower lower trim_space trim_left trim_right cut
uri-IsKey = key_of _ refl refl refl (λ w. refl)

pub response-IsKey : IsKey (codes "response")
unfolding contains_any is_space to_lower lower trim_space trim_left trim_right cut
response-IsKey = key_of _ refl refl refl (λ w. refl)

-- Credentials without the parameters of a `qop`.
abbrev pub credentials : Bytes → Bytes → Bytes → Bytes → Bytes → Auth
credentials username realm nonce uri resp = record (empty_auth digest) {
  username = username;
  realm = realm;
  nonce = nonce;
  uri = uri;
  response = resp;
}

-- The five texts can be written between quotes, and the URI also without them.
pub record IsWritable (username realm nonce uri resp : Bytes) : Type 0 where
  pub plain_username : IsQuotable username
  pub plain_realm : IsQuotable realm
  pub plain_nonce : IsQuotable nonce
  pub plain_uri : IsBare uri
  pub plain_response : IsQuotable resp

-- None of them is empty.
pub record IsComplete (username realm nonce uri resp : Bytes) : Type 0 where
  pub some_username : is_nil username ≡ false
  pub some_realm : is_nil realm ≡ false
  pub some_nonce : is_nil nonce ≡ false
  pub some_uri : is_nil uri ≡ false
  pub some_response : is_nil resp ≡ false

pub ends_quoted : (s : Bytes) → trim_space (digest ++ (s ++ b'"' ∷ [])) ≡ digest ++ (s ++ b'"' ∷ [])
ends_quoted s =
    trim_space-framed b'D' (codes "igest" ++ s) b'"' (unfold is_space in refl)
      (unfold is_space in refl)

-- what follows the user name
abbrev pub tail_fields : Bytes → Bytes → Field → Bytes → List Field
tail_fields realm nonce uri_field resp =
    quoted (codes "realm") realm
    ∷ quoted (codes "nonce") nonce
    ∷ uri_field
    ∷ quoted (codes "response") resp
    ∷ []

pub stored_all :
    (username realm nonce uri resp : Bytes) (uri_field : Field)
    → store uri_field (credentials username realm nonce [] [])
      ≡ credentials username realm nonce uri []
    → store_all
        (quoted (codes "username") username ∷ tail_fields realm nonce uri_field resp)
        (empty_auth digest)
      ≡ credentials username realm nonce uri resp
unfolding store_all store set_field bytes_eq
stored_all username realm nonce uri resp f e = rw e refl

uri_stored :
    (username realm nonce uri : Bytes)
    → store (bare (codes "uri") uri) (credentials username realm nonce [] [])
      ≡ credentials username realm nonce uri []
unfolding store set_field bytes_eq
uri_stored username realm nonce uri = refl

pub quoted_uri_stored :
    (username realm nonce uri : Bytes)
    → store (quoted (codes "uri") uri) (credentials username realm nonce [] [])
      ≡ credentials username realm nonce uri []
unfolding store set_field bytes_eq
quoted_uri_stored username realm nonce uri = refl

-- Digest credentials that have a user name, a realm, a nonce, a URI and a response, and no other
-- parameter, are read from their header value as they were written, where none of the five is
-- empty or has a quote or a backslash, and the URI has no comma and no blank.
pub parse-value :
    (username realm nonce uri resp : Bytes)
    → IsWritable username realm nonce uri resp
    → IsComplete username realm nonce uri resp
    → gb.Header.Auth.parse (gb.Header.Auth.value (credentials username realm nonce uri resp))
      ≡ credentials username realm nonce uri resp
unfolding gb.Header.Auth.value write_auth write_bare
parse-value username realm nonce uri resp w c =
    rw (c.some_username, c.some_realm, c.some_nonce, c.some_uri, c.some_response)
      (ap gb.Header.Auth.parse written ∙ parsed)
  where
    shut : Bytes
    shut =
        codes ", username=\""
        ++ (username
            ++ (codes "\", realm=\""
                ++ (realm
                    ++ (codes "\", nonce=\""
                        ++ (nonce
                            ++ (codes "\", uri=" ++ (uri ++ (codes ", response=\"" ++ resp))))))))

    listed : Bytes
    listed =
        digest
        ++ (b','
            ∷ (b' '
                ∷ join (codes ", ") (
                    map text (
                      quoted (codes "username") username
                      ∷ tail_fields realm nonce (bare (codes "uri") uri) resp))))

    written :
        digest
          ++ (codes ", username=\""
              ++ (username ++ b'"' ∷ [])
              ++ (codes ", realm=\""
                  ++ (realm ++ b'"' ∷ [])
                  ++ (codes ", nonce=\""
                      ++ (nonce ++ b'"' ∷ [])
                      ++ (codes ", uri="
                          ++ uri
                          ++ (codes ", response=\"" ++ (resp ++ b'"' ∷ []) ++ [])))))
        ≡ listed
    written = unfold join in simp (append_assoc, append-nil)

    closed : listed ≡ digest ++ (shut ++ b'"' ∷ [])
    closed = unfold join in simp append_assoc

    whole : trim_space listed ≡ listed
    whole = ap trim_space closed ∙ ends_quoted shut ∙ sym closed

    parsed : gb.Header.Auth.parse listed ≡ credentials username realm nonce uri resp
    parsed =
        parse-list b',' (b' ' ∷ []) (codes ", ") (quoted (codes "username") username)
          (tail_fields realm nonce (bare (codes "uri") uri) resp) refl
          (λ s. split_list-sep b' ' [] s refl) comma-IsSeparator
          (
            (username-IsKey, w.plain_username),
            (
              (realm-IsKey, w.plain_realm),
              (
                (nonce-IsKey, w.plain_nonce),
                ((uri-IsKey, w.plain_uri), ((response-IsKey, w.plain_response), tt)),
              ),
            ),
          )
          whole
        ∙ stored_all username realm nonce uri resp (bare (codes "uri") uri)
            (uri_stored username realm nonce uri)
