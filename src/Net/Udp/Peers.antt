-- ===== src/Net/Udp/Peers.antt =====
-- The peers of a UDP server (udp_server.go) one by one.
use gotu.Base.{
  ℕ, ◌≡◌, refl, sym, ap, ◌∙◌, subst, Bool, true, false, Option, none, some, List, [], ◌∷◌,
  if◌then◌else◌, if_either,
}
use gotu.Wire.{Bytes}
use gotu.Net.Handler.{OnHandlerOnce}
use gotu.Net.Session.{Session, new_session, recv_msg, on_event, turn, shut}
use gotu.Net.Session.Calm.{IsCalm, recv_msg-crashed, on_event-crashed}
use gotu.Net.Udp.{
  UdpServer, Event, datagram, check, handler_turn, shut_expired, delete_expired, get_session,
  checked, is_left, received, udp_on_msg, set, turned, shut_one, delete_one, serve_one, serve,
}
use Prim.Native.String.{String}
use text.Mathlib.Text.{◌==◌}
use text.Mathlib.TextEquality.{eq_iff}
use gotu.Net.Udp.Entries.{
  IsSound, get-IsSound, change, get-check, get-del, add-IsSound, check-IsSound, del-IsSound,
  own_entry,
}

module _ {S : Type 0} (connect : String → S) (on_msg : OnHandlerOnce S) where
  -- Whether an event concerns the peer of an address: every list of the check loop does.
  abbrev pub is_own : String → Event → Bool
  is_own id (datagram j pick msg now) = j == id
  is_own id (check timeout now) = true
  is_own id (handler_turn j prefer) = j == id
  is_own id (shut_expired j) = j == id
  is_own id (delete_expired j) = j == id

  unfoldable pub own : String → List Event → List Event
  own id [] = []
  own id (e ∷ events) = if is_own id e then e ∷ own id events else own id events

  -- A server of one peer, whose onConnect gives `state`.
  abbrev pub peer_event : S → Option (Session S) → Event → Option (Session S)
  peer_event state none (datagram j pick msg now) =
      some (recv_msg pick msg now (new_session state now))
  peer_event state (some s) (datagram j pick msg now) = some (recv_msg pick msg now s)
  peer_event state o (check timeout now) = change (checked timeout now) o
  peer_event state none (handler_turn j prefer) = none
  peer_event state (some s) (handler_turn j prefer) = some (on_event on_msg s (turn prefer))
  peer_event state none (shut_expired j) = none
  peer_event state (some s) (shut_expired j) =
      some (if s.expired then on_event on_msg s shut else s)
  peer_event state none (delete_expired j) = none
  peer_event state (some s) (delete_expired j) = if is_left s then none else some s

  unfoldable pub peer_events : S → Option (Session S) → List Event → Option (Session S)
  peer_events state o [] = o
  peer_events state o (e ∷ events) = peer_events state (peer_event state o e) events

  -- The answer is a server with a stored socket, one entry for each address and no crashed session,
  -- whose entry for an address is `o`.
  abbrev pub Serves : String → Option (Session S) → Option (UdpServer S) → Type 0
  Serves id o none = ⊥
  Serves id o (some svr) =
      (svr.sock ≡ true) × IsSound svr.sessions × (get_session id svr.sessions ≡ o)

  -- What an event does to the entry of an address.
  abbrev pub own_event : String → Event → Option (Session S) → Option (Session S)
  own_event id e o = if is_own id e then peer_event (connect id) o e else o

  -- A session that an event sets in its place.
  set-Serves :
      (id j : String) (e : Event) (svr : UdpServer S) (s : Session S)
      → (is_own id e ≡ (j == id))
      → svr.sock ≡ true
      → IsSound svr.sessions
      → s.crashed ≡ false
      → some s ≡ peer_event (connect j) (get_session j svr.sessions) e
      → Serves id (own_event id e (get_session id svr.sessions)) (some (set connect on_msg svr j s))
  set-Serves id j e svr s own h u c g = (
    h,
    add-IsSound j s svr.sessions c u,
    own_entry (λ a o. peer_event (connect a) o e) id j s svr.sessions g
        ∙ ap
            (λ b.
              if b
              then peer_event (connect id) (get_session id svr.sessions) e
              else get_session id svr.sessions)
            (sym own),
  )

  -- An address without a session, to which an event does nothing.
  no_session :
      (id j : String) (svr : UdpServer S) (o' : Option (Session S))
      → get_session j svr.sessions ≡ none
      → (get_session id svr.sessions ≡ none → none ≡ o')
      → get_session id svr.sessions ≡ (if j == id then o' else get_session id svr.sessions)
  no_session id j svr o' g k =
      if_either (λ x. get_session id svr.sessions ≡ x) (j == id)
        (λ same.
          let g' = subst (λ a. get_session a svr.sessions ≡ none) ((eq_iff j id).0 same) g in
          g' ∙ k g')
        (λ other. refl)

  received-Serves :
      (id j : String) (pick : Bool) (msg : Bytes) (now : ℕ) (svr : UdpServer S)
      → svr.sock ≡ true
      → IsSound svr.sessions
      → (o : Option (Session S)) → get_session j svr.sessions ≡ o
      → Serves id
          (own_event id (datagram j pick msg now) (get_session id svr.sessions))
          (received connect on_msg svr j pick msg now o)
  received-Serves id j pick msg now svr h u none g =
      let s = recv_msg pick msg now (new_session (connect j) now) in
      subst
        (λ b.
          Serves id (own_event id (datagram j pick msg now) (get_session id svr.sessions))
            (if b then some (set connect on_msg svr j s) else none))
        (sym h)
        (set-Serves id j (datagram j pick msg now) svr s refl h u
          (recv_msg-crashed pick msg now (new_session (connect j) now))
          (sym (ap (λ o. peer_event (connect j) o (datagram j pick msg now)) g)))
  received-Serves id j pick msg now svr h u (some s) g =
      set-Serves id j (datagram j pick msg now) svr (recv_msg pick msg now s) refl h u
        (recv_msg-crashed pick msg now s ∙ get-IsSound j s svr.sessions u g)
        (sym (ap (λ o. peer_event (connect j) o (datagram j pick msg now)) g))

  shut-Serves :
      (id j : String) (svr : UdpServer S)
      → svr.sock ≡ true
      → IsSound svr.sessions
      → (o : Option (Session S)) → get_session j svr.sessions ≡ o
      → Serves id
          (own_event id (shut_expired j) (get_session id svr.sessions))
          (some (shut_one connect on_msg svr j o))
  unfolding on_event
  shut-Serves id j svr h u none g = (
    h,
    u,
    no_session id j svr _ g (λ g'. sym (ap (λ o. peer_event (connect id) o (shut_expired j)) g')),
  )
  shut-Serves id j svr h u (some s) g =
      set-Serves id j (shut_expired j) svr (if s.expired then on_event on_msg s shut else s) refl h
        u
        (if_either (λ (t : Session S). t.crashed ≡ false) s.expired
          (λ listed. get-IsSound j s svr.sessions u g)
          (λ unlisted. get-IsSound j s svr.sessions u g))
        (sym (ap (λ o. peer_event (connect j) o (shut_expired j)) g))

  delete-Serves :
      (id j : String) (svr : UdpServer S)
      → svr.sock ≡ true
      → IsSound svr.sessions
      → (o : Option (Session S)) → get_session j svr.sessions ≡ o
      → Serves id
          (own_event id (delete_expired j) (get_session id svr.sessions))
          (some (delete_one connect on_msg svr j o))
  delete-Serves id j svr h u none g = (
    h,
    u,
    no_session id j svr _ g (λ g'. sym (ap (λ o. peer_event (connect id) o (delete_expired j)) g')),
  )
  delete-Serves id j svr h u (some s) g =
      let own_g = λ (same : (j == id) ≡ true).
        subst (λ a. get_session a svr.sessions ≡ some s) ((eq_iff j id).0 same) g in
      let kept = λ (same : (j == id) ≡ true).
        ap (λ o. peer_event (connect id) o (delete_expired j)) (own_g same) in
      if_either
        (λ svr'.
          Serves id (own_event id (delete_expired j) (get_session id svr.sessions)) (some svr'))
        (is_left s)
        (λ left. (
          h,
          del-IsSound j svr.sessions u,
          get-del j id svr.sessions
              ∙ if_either (λ x. (if j == id then none else get_session id svr.sessions) ≡ x)
                  (j == id)
                  (λ same.
                    ap (λ b. if b then none else get_session id svr.sessions) same
                    ∙ sym (kept same ∙ ap (λ b. if b then none else some s) left))
                  (λ other. ap (λ b. if b then none else get_session id svr.sessions) other),
        ))
        (λ stays. (
          h,
          u,
          if_either (λ x. get_session id svr.sessions ≡ x) (j == id)
              (λ same. own_g same ∙ sym (kept same ∙ ap (λ b. if b then none else some s) stays))
              (λ other. refl),
        ))

  module _ (calm : IsCalm on_msg) where
    turned-Serves :
        (id j : String) (prefer : Bool) (svr : UdpServer S)
        → svr.sock ≡ true
        → IsSound svr.sessions
        → (o : Option (Session S)) → get_session j svr.sessions ≡ o
        → Serves id
            (own_event id (handler_turn j prefer) (get_session id svr.sessions))
            (turned connect on_msg svr j prefer o)
    turned-Serves id j prefer svr h u none g = (
      h,
      u,
      no_session id j svr _ g
          (λ g'. sym (ap (λ o. peer_event (connect id) o (handler_turn j prefer)) g')),
    )
    turned-Serves id j prefer svr h u (some s) g =
        let s' = on_event on_msg s (turn prefer) in
        let c = on_event-crashed on_msg calm s (turn prefer) ∙ get-IsSound j s svr.sessions u g in
        subst
          (λ b.
            Serves id (own_event id (handler_turn j prefer) (get_session id svr.sessions))
              (if b then none else some (set connect on_msg svr j s')))
          (sym c)
          (set-Serves id j (handler_turn j prefer) svr s' refl h u c
            (sym (ap (λ o. peer_event (connect j) o (handler_turn j prefer)) g)))

    serve_one-Serves :
        (id : String) (svr : UdpServer S) (e : Event)
        → svr.sock ≡ true
        → IsSound svr.sessions
        → Serves id (own_event id e (get_session id svr.sessions)) (serve_one connect on_msg svr e)
    unfolding udp_on_msg serve_one
    serve_one-Serves id svr (datagram j pick msg now) h u =
        received-Serves id j pick msg now svr h u (get_session j svr.sessions) refl
    serve_one-Serves id svr (check timeout now) h u =
        (h, check-IsSound timeout now svr.sessions u, get-check timeout now id svr.sessions)
    serve_one-Serves id svr (handler_turn j prefer) h u =
        turned-Serves id j prefer svr h u (get_session j svr.sessions) refl
    serve_one-Serves id svr (shut_expired j) h u =
        shut-Serves id j svr h u (get_session j svr.sessions) refl
    serve_one-Serves id svr (delete_expired j) h u =
        delete-Serves id j svr h u (get_session j svr.sessions) refl

  peer_events-if :
      (state : S) (b : Bool) (o : Option (Session S)) (e : Event) (rest : List Event)
      → peer_events state o (if b then e ∷ rest else rest)
        ≡ peer_events state (if b then peer_event state o e else o) rest
  unfolding peer_events
  peer_events-if state true o e rest = refl
  peer_events-if state false o e rest = refl

  run-Serves :
      (id : String) (events : List Event) (o : Option (Session S)) (svr : Option (UdpServer S))
      → ((svr : UdpServer S)
          → svr.sock ≡ true
          → IsSound svr.sessions
          → Serves id
              (peer_events (connect id) (get_session id svr.sessions) (own id events))
              (serve connect on_msg svr events))
      → Serves id o svr
      → Serves id
          (peer_events (connect id) o (own id events))
          (elim svr [ none ↦ none | some svr' ↦ serve connect on_msg svr' events ])
  run-Serves id events o none k impossible = impossible
  run-Serves id events o (some svr) k (h, u, g) =
      subst
        (λ x.
          Serves id (peer_events (connect id) x (own id events)) (serve connect on_msg svr events))
        g (k svr h u)

  -- With a callback that does not panic, a server whose socket is stored, with one session for an
  -- address at most and none crashed, does not panic on any sequence of datagrams, turns of handler
  -- loops and lists, closes and deletes of the check loop, and keeps one session for an address; what
  -- it has for an address is what a server of that peer alone has after the datagrams, turns, closes and
  -- deletes of this address and the lists of the check loop.
  pub serve-Serves :
      IsCalm on_msg
      → (id : String) (svr : UdpServer S) (events : List Event) → svr.sock ≡ true
      → IsSound svr.sessions
      → Serves id
          (peer_events (connect id) (get_session id svr.sessions) (own id events))
          (serve connect on_msg svr events)
  unfolding own peer_events serve
  serve-Serves calm id svr [] h u = (h, u, refl)
  serve-Serves calm id svr (e ∷ events) h u =
      subst (λ o. Serves id o (serve connect on_msg svr (e ∷ events)))
        (sym (
          peer_events-if (connect id) (is_own id e) (get_session id svr.sessions) e
            (own id events)))
        (run-Serves id events (own_event id e (get_session id svr.sessions))
          (serve_one connect on_msg svr e) (λ svr'. serve-Serves calm id svr' events)
          (serve_one-Serves calm id svr e h u))
