-- ===== src/Transport.antt =====
-- transport.go: the table of stream connections, and what is received and sent. A connection is a
-- number, the clock is in milliseconds.
pub mod Sweep
pub mod Aliases
use gb.Base.{ℕ, suc, ◌-◌}
use gb.Base.{Bool, false, not, ◌||◌, Option, none, some, List, [], ◌∷◌, ◌++◌}
use gb.Base.{ltb, leb, ◌==◌, if◌then◌else◌, is_some}
use gb.Base.{length, keep}
use gb.Base.{ℤ, pos}
use gb.Base.{ok, err}
use gb.Base.{Bytes, codes, bytes_eq, to_lower, contains_any}
use gb.Base.{itoa}
use gb.Message.{Message, Addr}
use gb.Parser
use gb.Dialog.Index.{put, find, erase}

-- Addr.String, with net.JoinHostPort: a host with a colon stands in brackets
unfoldable pub join_host_port : Bytes → ℤ → Bytes
join_host_port host port =
    (if contains_any (λ c. c == b':') host then b'[' ∷ (host ++ b']' ∷ []) else host)
    ++ (b':' ∷ itoa port)

unfoldable pub addr_string : Addr → Bytes
addr_string a = a.network ++ (b':' ∷ join_host_port a.host a.port)

-- Packet
pub record Packet : Type 0 where
  pub msg : Message
  pub src : Addr

-- The maps of Transport: tcpConns, connLastUse and the keys of inflight.
pub record Conns : Type 0 where
  pub conns : List (Bytes × ℕ)
  pub last_use : List (Bytes × ℕ)
  pub inflight : List Bytes

abbrev pub no_conns : Conns
no_conns = record { conns = []; last_use = []; inflight = [] }

abbrev pub positive_or : ℤ → ℕ → ℕ
positive_or (pos (suc n)) d = suc n
positive_or _ d = d

-- idleTimeout and maxTCPConns, from what is configured
unfoldable pub idle_timeout : ℤ → ℕ
idle_timeout configured = positive_or configured 300000

unfoldable pub max_conns : ℤ → ℕ
max_conns configured = positive_or configured 1024

-- touchConn
unfoldable pub touch : Bytes → ℕ → Conns → Conns
touch k now s = record s { last_use = put k now s.last_use }

-- an entry is deleted from both maps
abbrev pub delete : Bytes → Conns → Conns
delete k s = record s { conns = erase k s.conns; last_use = erase k s.last_use }

-- dropConn: what it closes is the second result
unfoldable pub drop_conn : Bytes → Conns → Conns × Option ℕ
drop_conn k s = if is_some (find k s.conns) then (delete k s, find k s.conns) else (s, none)

abbrev pub is_idle : ℕ → ℕ → ℕ → Bool
is_idle now idle last = ltb idle (now - last)

-- One round of janitor, over the entries of connLastUse. `closed` gives the connections that it
-- closes.
unfoldable pub sweep_over : ℕ → ℕ → List (Bytes × ℕ) → Conns → Conns
sweep_over now idle [] s = s
sweep_over now idle ((k, last) ∷ es) s =
    if is_idle now idle last then sweep_over now idle es (delete k s) else sweep_over now idle es s

unfoldable pub sweep : ℕ → ℕ → Conns → Conns
sweep now idle s = sweep_over now idle s.last_use s

abbrev pub closing : Option ℕ → List ℕ → List ℕ
closing none cs = cs
closing (some c) cs = c ∷ cs

unfoldable pub closed : ℕ → ℕ → List (Bytes × ℕ) → List (Bytes × ℕ) → List ℕ
closed now idle conns [] = []
closed now idle conns ((k, last) ∷ es) =
    let rest = closed now idle conns es in
    if is_idle now idle last then closing (find k conns) rest else rest

-- A connection is entered under a key, by readTCP and by the end of a dial.
unfoldable pub enter : Bytes → ℕ → ℕ → Conns → Conns
enter k c now s = record s { conns = put k c s.conns; last_use = put k now s.last_use }

-- acceptStream: whether a new connection is kept
unfoldable pub is_admitted : ℕ → Conns → Bool
is_admitted max s = not (ltb max (length s.conns))

unfoldable pub is_dialing : Bytes → List Bytes → Bool
is_dialing k [] = false
is_dialing k (j ∷ js) = bytes_eq j k || is_dialing k js

-- The first critical section of getStreamConn.
pub data Choice : Type 0 where
  use_conn : ℕ → Choice
  wait_for_dial : Choice
  too_many : Choice
  dial : Choice

unfoldable pub choose : ℕ → Bytes → Conns → Choice
choose max k s = elim (find k s.conns) [
  | some c ↦ use_conn c
  | none ↦
      if is_dialing k s.inflight
      then wait_for_dial
      else if leb max (length s.conns)
      then too_many
      else dial
]

abbrev pub take_choice : Bytes → Conns → Choice → Conns × Choice
take_choice k s dial = (record s { inflight = k ∷ s.inflight }, dial)
take_choice k s c = (s, c)

unfoldable pub get_stream_conn : ℕ → Bytes → Conns → Conns × Choice
get_stream_conn max k s = take_choice k s (choose max k s)

-- connKey: `peers` gives the network of a connection with the IP address and the port of its peer.
unfoldable pub conn_key : (ℕ → Addr) → ℕ → Bytes
conn_key peers c = addr_string (peers c)

-- Send over a stream, for the table: a connection that stands under the destination is touched
-- under the key of its peer, and used.
abbrev pub use_stream : (ℕ → Addr) → ℕ → Conns × Choice → Conns × Option ℕ
use_stream peers now (s, use_conn c) = (touch (conn_key peers c) now s, some c)
use_stream peers now (s, _) = (s, none)

unfoldable pub send_stream : (ℕ → Addr) → ℕ → Addr → ℕ → Conns → Conns × Option ℕ
send_stream peers max dst now s = use_stream peers now (get_stream_conn max (addr_string dst) s)

-- the end of a dial, with the connection or an error
unfoldable pub end_dial : Bytes → Option ℕ → ℕ → Conns → Conns
end_dial k none now s = record s { inflight = keep (λ j. not (bytes_eq j k)) s.inflight }
end_dial k (some c) now s =
    enter k c now (record s { inflight = keep (λ j. not (bytes_eq j k)) s.inflight })

-- Close, for the table
unfoldable pub close_all : Conns → Conns
close_all s = record s { conns = [] }

-- dispatch: a message that is not parsed is dropped.
unfoldable pub dispatch : Bytes → Addr → Option Packet
dispatch raw src = elim (Parser.parse_message raw) [
  | err e ↦ none
  | ok msg ↦ some (record { msg = msg; src = src })
]

-- Send: where the message goes
pub data Route : Type 0 where
  no_udp unsupported : Route
  by_udp : Route
  by_stream : Bytes → Route
  swallowed : Route

-- `hooked` says that DropHook is set and takes the message
unfoldable pub route : Bool → Bool → Bytes → Addr → Route
route has_udp hooked network dst =
    if bytes_eq (to_lower network) (codes "udp")
    then (if not has_udp then no_udp else if hooked then swallowed else by_udp)
    else if bytes_eq (to_lower network) (codes "tcp") || bytes_eq (to_lower network) (codes "tls")
    then by_stream (addr_string dst)
    else unsupported
