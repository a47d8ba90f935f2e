-- ===== src/Transport/Aliases.antt =====
-- transport.go: a connection that stands under two keys. getStreamConn enters a connection under
-- its destination, which may be a host name, while Send and readTCP touch the key that connKey
-- makes of the peer's IP address.
use gb.Base.{ℕ, ◌≡◌, refl, sym, ap, ◌∙◌, subst}
use gb.Base.{Bool, true, false, ◌||◌, Option, none, some, List, [], ◌∷◌, arith}
use gb.Base.{◌==◌, if◌then◌else◌, ==_iff}
use gb.Base.{All}
use gb.Base.{Bytes, bytes_eq, bytes_eq_iff}
use gb.Dialog.Index.{find, find-put}
use gb.Message.{Addr}
use gb.Transport.{
  Conns, addr_string, touch, is_idle, closing, closed, use_conn, choose, take_choice,
  get_stream_conn, use_stream, conn_key, send_stream,
}

abbrev pub is_member : ℕ → List ℕ → Bool
is_member c [] = false
is_member c (x ∷ xs) = x == c || is_member c xs

-- one touch after another
unfoldable touch_all : Bytes → List ℕ → Conns → Conns
touch_all j [] s = s
touch_all j (u ∷ us) s = touch_all j us (touch j u s)

touch_all-conns : (j : Bytes) (us : List ℕ) (s : Conns) → (touch_all j us s).conns ≡ s.conns
unfolding touch_all touch
touch_all-conns j [] s = refl
touch_all-conns j (u ∷ us) s = touch_all-conns j us (touch j u s)

touch_all-other :
    (j k : Bytes) (us : List ℕ) (s : Conns)
    → bytes_eq j k ≡ false
    → find k (touch_all j us s).last_use ≡ find k s.last_use
unfolding touch_all touch
touch_all-other j k [] s h = refl
touch_all-other j k (u ∷ us) s h =
    touch_all-other j k us (touch j u s) h ∙ find-put j k u s.last_use ∙ rw h refl

closing-member :
    (c : ℕ) (o : Option ℕ) (cs : List ℕ) → is_member c cs ≡ true → is_member c (closing o cs) ≡ true
closing-member c none cs h = h
closing-member c (some x) cs h = rw h (ground arith)

closed-here : (c : ℕ) (o : Option ℕ) (cs : List ℕ) → o ≡ some c → is_member c (closing o cs) ≡ true
closed-here c o cs e = rw (e, (==_iff c c).1 refl) refl

unwrap : {u t : ℕ} → some u ≡ some t → u ≡ t
unwrap e = cc

absent : {t : ℕ} → none ≡ some t → ⊥
absent e = cc

closed-idle :
    (now idle c t : ℕ) (k : Bytes) (conns es : List (Bytes × ℕ))
    → find k conns ≡ some c
    → find k es ≡ some t
    → is_idle now idle t ≡ true
    → is_member c (closed now idle conns es) ≡ true
unfolding closed
closed-idle now idle c t k conns [] h e old = unfold find in absurd (absent e)
closed-idle now idle c t k conns ((j, u) ∷ es) h e old =
    by_key (bytes_eq j k) refl (unfold find in e) (closed-idle now idle c t k conns es h)
  where
    later :
        (b : Bool)
        → is_member c (closed now idle conns es) ≡ true
        → is_member c (
            if b
            then closing (find j conns) (closed now idle conns es)
            else closed now idle conns es)
          ≡ true
    later true p = closing-member c (find j conns) _ p
    later false p = p

    by_key :
        (b : Bool)
        → bytes_eq j k ≡ b
        → (if b then some u else find k es) ≡ some t
        → (find k es ≡ some t
            → is_idle now idle t ≡ true
            → is_member c (closed now idle conns es) ≡ true)
        → is_member c (
            if is_idle now idle u
            then closing (find j conns) (closed now idle conns es)
            else closed now idle conns es)
          ≡ true
    by_key false q e rest = later (is_idle now idle u) (rest e old)
    by_key true q e rest =
        subst
          (λ b.
            is_member c (
              if b
              then closing (find j conns) (closed now idle conns es)
              else closed now idle conns es)
            ≡ true)
          (sym (ap (is_idle now idle) (unwrap e) ∙ old))
          (closed-here c (find j conns) _ (ap (λ i. find i conns) ((bytes_eq_iff j k).0 q) ∙ h))

-- The table after a Send at each of these times, all to `dst`, and the connections that they used.
unfoldable pub send_all : (ℕ → Addr) → ℕ → Addr → List ℕ → Conns → Conns × List (Option ℕ)
send_all peers max dst [] s = (s, [])
send_all peers max dst (u ∷ us) s =
    let one = send_stream peers max dst u s in
    let rest = send_all peers max dst us one.0 in (rest.0, one.1 ∷ rest.1)

choose-found :
    (max c : ℕ) (k : Bytes) (s : Conns)
    → find k s.conns ≡ some c
    → get_stream_conn max k s ≡ (s, use_conn c)
unfolding get_stream_conn
choose-found max c k s h = ap (take_choice k s) (chosen h)
  where
    chosen : find k s.conns ≡ some c → choose max k s ≡ use_conn c
    chosen e = unfold choose in rw (choose, e) refl

send_stream-found :
    (peers : ℕ → Addr) (max : ℕ) (dst : Addr) (c u : ℕ) (s : Conns)
    → find (addr_string dst) s.conns ≡ some c
    → send_stream peers max dst u s ≡ (touch (conn_key peers c) u s, some c)
unfolding send_stream
send_stream-found peers max dst c u s h =
    ap (use_stream peers u) (choose-found max c (addr_string dst) s h)

-- A connection that stands under the destination is the one that each Send uses, and touches under
-- the key of its peer.
send_all_touches :
    (peers : ℕ → Addr) (max : ℕ) (dst : Addr) (c : ℕ) (us : List ℕ) (s : Conns)
    → find (addr_string dst) s.conns ≡ some c
    → ((send_all peers max dst us s).0 ≡ touch_all (conn_key peers c) us s)
      × All (λ o. o ≡ some c) (send_all peers max dst us s).1
unfolding send_all touch_all
send_all_touches peers max dst c [] s h = (refl, tt)
send_all_touches peers max dst c (u ∷ us) s h =
    let later =
      send_all_touches peers max dst c us (touch (conn_key peers c) u s) (unfold touch in h) in
    rw (send_stream-found peers max dst c u s h) (later.0, (refl, later.1))

-- A connection that stands under a destination which is not the text of its peer's address, as
-- under a host name, is used by every Send to that destination. The janitor closes it all the same
-- once the time since it was entered is over, however often and however late it has been used.
pub send_all-closed :
    (peers : ℕ → Addr) (max now idle c t : ℕ) (dst : Addr) (us : List ℕ) (s : Conns)
    → bytes_eq (conn_key peers c) (addr_string dst) ≡ false
    → find (addr_string dst) s.conns ≡ some c
    → find (addr_string dst) s.last_use ≡ some t
    → is_idle now idle t ≡ true
    → let out = send_all peers max dst us s in
      All (λ o. o ≡ some c) out.1
      × (is_member c (closed now idle out.0.conns out.0.last_use) ≡ true)
send_all-closed peers max now idle c t dst us s apart h e old =
    let sent = send_all_touches peers max dst c us s h in
    (
      sent.1,
      subst (λ s'. is_member c (closed now idle s'.conns s'.last_use) ≡ true) (sym sent.0)
          (closed-idle now idle c t (addr_string dst) _ _
            (ap (find (addr_string dst)) (touch_all-conns (conn_key peers c) us s) ∙ h)
            (touch_all-other (conn_key peers c) (addr_string dst) us s apart ∙ e) old),
    )
