-- ===== src/Examples/Connecting.antt =====
-- A connection to a host name, and a fork to one target.
use gb.Base.{ℕ, ◌≡◌, refl}
use gb.Base.{true, false, some, List, [], ◌∷◌}
use gb.Base.{is_none}
use gb.Base.{pos}
use gb.Base.{All}
use gb.Base.{Bytes, codes, bytes_eq, contains_any}
use gb.Base.{itoa}
use gb.Dialog.Index.{put, find}
use gb.Message.{Addr}
use gb.Transport.{
  Conns, no_conns, touch, enter, sweep, sweep_over, closed, addr_string, join_host_port, conn_key,
}
use gb.Transport.Sweep.{Op, entered, touched, run, IsLive, run-sweep-IsLive}
use gb.Transport.Aliases.{is_member, send_all, send_all-closed}
use gb.Proxy.Forward.{Own}
use gb.Proxy.Initial.{fork_targets, IsFork, fork_targets-IsFork}
use gb.Examples.Messages.{bob_uri}
use gb.Examples.Transactions.{an_invite}

abbrev by_name : Bytes
by_name = codes "tcp:h:5060"

abbrev by_ip : Bytes
by_ip = codes "tcp:10.0.0.1:5060"

abbrev one_use : List Op
one_use = entered by_name 1 0 ∷ touched by_name 8 ∷ []

still_there : is_none (find by_name (sweep 10 5 (run one_use no_conns)).conns) ≡ false
unfolding run find sweep sweep_over enter touch put bytes_eq
still_there = refl

run-sweep-IsLive_example : IsLive 10 5 by_name (sweep 10 5 (run one_use no_conns))
run-sweep-IsLive_example = run-sweep-IsLive one_use 10 5 by_name still_there

-- the connection 1, entered at 0 under both keys
abbrev two_keys : Conns
two_keys = enter by_ip 1 0 (enter by_name 1 0 no_conns)

names-apart : bytes_eq by_ip by_name ≡ false
unfolding bytes_eq
names-apart = refl

two_keys-conns : find by_name two_keys.conns ≡ some 1
unfolding find enter put bytes_eq
two_keys-conns = refl

two_keys-last_use : find by_name two_keys.last_use ≡ some 0
unfolding find enter put bytes_eq
two_keys-last_use = refl

-- the connection 1 to the host h, at 10.0.0.1
abbrev to_h : Addr
to_h = record { network = codes "tcp"; host = codes "h"; port = pos 5060 }

abbrev peer_at : ℕ → Addr
peer_at c = record { network = codes "tcp"; host = codes "10.0.0.1"; port = pos 5060 }

to_h-by_name : addr_string to_h ≡ by_name
unfolding addr_string join_host_port contains_any itoa
to_h-by_name = refl

peer-by_ip : conn_key peer_at 1 ≡ by_ip
unfolding conn_key addr_string join_host_port contains_any itoa
peer-by_ip = refl

-- used at 4 and at 9, closed at 10
send_all-closed_example :
    let out = send_all peer_at 8 to_h (4 ∷ 9 ∷ []) two_keys in
    All (λ o. o ≡ some 1) out.1 × (is_member 1 (closed 10 5 out.0.conns out.0.last_use) ≡ true)
send_all-closed_example =
    send_all-closed peer_at 8 10 5 1 0 to_h (4 ∷ 9 ∷ []) two_keys
      (rw (peer-by_ip, to_h-by_name) names-apart) (rw to_h-by_name two_keys-conns)
      (rw to_h-by_name two_keys-last_use) refl

abbrev own_branch : ℕ → Own
own_branch k = record {
  host = codes "p";
  port = pos 5060;
  branch = codes "z9hG4bKp";
  record_route = false;
}

fork_targets-IsFork_example :
    IsFork
      (λ k. true)
      an_invite
      0
      (bob_uri ∷ bob_uri ∷ [])
      (fork_targets own_branch (λ k. true) 0 an_invite (bob_uri ∷ bob_uri ∷ []))
fork_targets-IsFork_example =
    fork_targets-IsFork own_branch (λ k. true) an_invite 0 bob_uri (bob_uri ∷ [])
