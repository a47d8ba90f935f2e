-- ===== src/Resolver/Target.antt =====
-- resolver.go: ResolveTarget. The two DNS lookups are arguments; `none` is their error.
use gb.Base.{ℕ, ◌≢◌}
use gb.Base.{Bool, ◌&&◌, ◌||◌, Option, none, some, List, [], ◌∷◌, map}
use gb.Base.{if◌then◌else◌}
use gb.Base.{ℤ, is_positive}
use gb.Base.{Bytes, codes, bytes_eq, to_lower}
use gb.Uri.{Uri}
use gb.Header.Fields.{name}
use gb.Params
use gb.Uri
use gb.Proxy.InDialog.{network_of}
use gb.Resolver.{Srv, HostPort, shuffle_srv}

-- The interface Resolver
pub record Lookup : Type 0 where
  pub srv : Bytes → Bytes → Bytes → Option (List Srv)
  pub hosts : Bytes → Option (List Bytes)

-- What ResolveTarget gives: an error, the targets, or the panic of shuffleSRV
pub data Resolved : Type 0 where
  failed crashed : Resolved
  targets : List HostPort → Resolved

unfoldable pub network : Uri → Bytes
network u =
    let secure = if Uri.is_encrypted (some u) then codes "tls" else codes "udp" in
    let (text, given) = Params.get (codes "transport") u.params in
    if given then network_of text secure else secure

abbrev pub at_port : ℤ → Bytes → HostPort
at_port p h = record { host = h; port = p }

-- the addresses of the host, or the host itself where there are none
unfoldable pub by_hosts : Bytes → ℤ → Option (List Bytes) → Resolved
by_hosts host port none = failed
by_hosts host port (some []) = targets (at_port port host ∷ [])
by_hosts host port (some (ip ∷ ips)) = targets (map (at_port port) (ip ∷ ips))

abbrev pub is_stream : Bytes → Bool
is_stream t = bytes_eq t (codes "tcp") || bytes_eq t (codes "tls")

-- the service and the protocol of the SRV lookup
unfoldable pub service : Uri → Bytes × Bytes
service u =
    let (text, given) = Params.get (codes "transport") u.params in
    if Uri.is_encrypted (some u)
    then (codes "sips", codes "tcp")
    else if given && is_stream (to_lower text)
    then (codes "sip", codes "tcp")
    else (codes "sip", codes "udp")

abbrev pub shuffled_targets : Option (List HostPort) → Resolved
shuffled_targets none = crashed
shuffled_targets (some hs) = targets hs

unfoldable pub by_srv : (List Srv → ℕ) → Lookup → Uri → Option (List Srv) → Resolved
by_srv roll r u (some (s ∷ ss)) = shuffled_targets (shuffle_srv roll (s ∷ ss))
by_srv roll r u _ = by_hosts u.host (Uri.effective_port u) (r.hosts u.host)

unfoldable pub resolve_target : (List Srv → ℕ) → Lookup → Uri → Resolved × Bytes
resolve_target roll r u =
    let (name, proto) = service u in
    (
      if is_positive u.port
          then by_hosts u.host u.port (r.hosts u.host)
          else by_srv roll r u (r.srv name proto u.host),
      network u,
    )

by_hosts-nonempty :
    (host : Bytes) (port : ℤ) (o : Option (List Bytes)) → by_hosts host port o ≢ targets []
unfolding by_hosts
by_hosts-nonempty host port none e = cc
by_hosts-nonempty host port (some []) e = cc
by_hosts-nonempty host port (some (ip ∷ ips)) e = cc
