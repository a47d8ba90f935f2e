-- ===== src/Header/Name.antt =====
-- headers.go: canonical names of headers.
pub mod Canonical
use gb.Base.{Option, none, some, List, [], ◌∷◌, map}
use gb.Base.{if◌then◌else◌}
use gb.Base.{Bytes, codes, bytes_eq, upper, to_lower, trim_space, split, join}

-- the map `shortToLong`
unfoldable pub short_to_long : List (Bytes × Bytes)
short_to_long =
    (codes "i", codes "Call-ID")
    ∷ (codes "f", codes "From")
    ∷ (codes "t", codes "To")
    ∷ (codes "v", codes "Via")
    ∷ (codes "m", codes "Contact")
    ∷ (codes "c", codes "Content-Type")
    ∷ (codes "l", codes "Content-Length")
    ∷ (codes "k", codes "Supported")
    ∷ (codes "s", codes "Subject")
    ∷ (codes "r", codes "Refer-To")
    ∷ (codes "u", codes "Allow-Events")
    ∷ (codes "e", codes "Content-Encoding")
    ∷ (codes "j", codes "Reject-Contact")
    ∷ (codes "d", codes "Request-Disposition")
    ∷ (codes "a", codes "Accept-Contact")
    ∷ (codes "x", codes "Session-Expires")
    ∷ (codes "y", codes "Identity")
    ∷ (codes "n", codes "Identity-Info")
    ∷ (codes "o", codes "Event")
    ∷ (codes "b", codes "Referred-By")
    ∷ (codes "q", codes "Target-Dialog")
    ∷ (codes "cseq", codes "CSeq")
    ∷ (codes "call-id", codes "Call-ID")
    ∷ (codes "www-authenticate", codes "WWW-Authenticate")
    ∷ (codes "proxy-authenticate", codes "Proxy-Authenticate")
    ∷ (codes "proxy-authorization", codes "Proxy-Authorization")
    ∷ (codes "p-asserted-identity", codes "P-Asserted-Identity")
    ∷ (codes "refer-to", codes "Refer-To")
    ∷ (codes "referred-by", codes "Referred-By")
    ∷ (codes "accept-contact", codes "Accept-Contact")
    ∷ (codes "session-expires", codes "Session-Expires")
    ∷ (codes "min-se", codes "Min-SE")
    ∷ (codes "allow-events", codes "Allow-Events")
    ∷ (codes "content-length", codes "Content-Length")
    ∷ (codes "content-type", codes "Content-Type")
    ∷ (codes "max-forwards", codes "Max-Forwards")
    ∷ (codes "record-route", codes "Record-Route")
    ∷ (codes "accept-encoding", codes "Accept-Encoding")
    ∷ (codes "accept-language", codes "Accept-Language")
    ∷ (codes "retry-after", codes "Retry-After")
    ∷ (codes "in-reply-to", codes "In-Reply-To")
    ∷ (codes "user-agent", codes "User-Agent")
    ∷ (codes "reject-contact", codes "Reject-Contact")
    ∷ (codes "request-disposition", codes "Request-Disposition")
    ∷ (codes "identity-info", codes "Identity-Info")
    ∷ (codes "target-dialog", codes "Target-Dialog")
    ∷ []

unfoldable pub long_name : Bytes → List (Bytes × Bytes) → Option Bytes
long_name key [] = none
long_name key ((k, v) ∷ table) = if bytes_eq k key then some v else long_name key table

unfoldable pub capitalize : Bytes → Bytes
capitalize [] = []
capitalize (c ∷ s) = upper c ∷ to_lower s

unfoldable pub canonical_name : Bytes → Bytes
unfolding trim_space to_lower long_name bytes_eq short_to_long join capitalize upper split
canonical_name name =
    let n = trim_space name in
    elim (long_name (to_lower n) short_to_long) [
      | some long ↦ long
      | none ↦ join (b'-' ∷ []) (map capitalize (split b'-' n))
    ]
