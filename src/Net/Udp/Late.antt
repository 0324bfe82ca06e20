-- ===== src/Net/Udp/Late.antt =====
-- Close of a UDP server (udp_server.go) and the peers that come behind its loop over the sessions.
use gotu.Base.{
  ℕ, ◌≡◌, refl, ap, ◌∙◌, subst, Bool, true, false, Option, none, some, List, [], ◌∷◌, if◌then◌else◌,
}
use gotu.Wire.{Bytes}
use gotu.Net.Handler.{OnHandlerOnce}
use gotu.Net.Session.{Session, new_session, recv_msg}
use gotu.Net.Udp.{
  UdpServer, Event, datagram, get_session, close_session, close_sessions, close_server,
}
use gotu.Net.Session.Calm.{IsCalm}
use gotu.Net.Udp.Entries.{IsSound}
use gotu.Net.Udp.Peers.{Serves, peer_events, own, serve-Serves}
use text.Mathlib.TextPositions.{eq_refl}
use Prim.Native.String.{String}
use text.Mathlib.Text.{◌==◌}

module _ {S : Type 0} where
  -- The entry of an address behind the loop of Close.
  abbrev pub closed_entry : Option (Session S) → Option (Session S)
  closed_entry none = none
  closed_entry (some s) = some (close_session s)

  closed_if :
      (b : Bool) (s : Session S) (o : Option (Session S))
      → (if b then some (close_session s) else closed_entry o)
        ≡ closed_entry (if b then some s else o)
  closed_if true s o = refl
  closed_if false s o = refl

  get-close :
      (id : String) (m : List (String × Session S))
      → get_session id (close_sessions m) ≡ closed_entry (get_session id m)
  unfolding get_session close_sessions
  get-close id [] = refl
  get-close id ((k, s) ∷ m) =
      ap (λ o. if k == id then some (close_session s) else o) (get-close id m)
      ∙ closed_if (k == id) s (get_session id m)

  close-IsSound : (m : List (String × Session S)) → IsSound m → IsSound (close_sessions m)
  unfolding close_sessions
  close-IsSound [] u = tt
  close-IsSound ((k, s) ∷ m) (fresh, calm, u) =
      (get-close k m ∙ ap closed_entry fresh, calm, close-IsSound m u)

module _ {S : Type 0} (connect : String → S) (on_msg : OnHandlerOnce S) (calm : IsCalm on_msg) where
  -- Behind Close a peer has what becomes of its closed session by the events that came in between, or,
  -- where it had none, of a session that its first datagram then made.
  close_server-Serves :
      (id : String) (svr : UdpServer S) (events : List Event)
      → svr.sock ≡ true
      → IsSound svr.sessions
      → Serves connect on_msg id
          (peer_events connect on_msg
            (connect id)
            (closed_entry (get_session id svr.sessions))
            (own connect on_msg id events))
          (close_server connect on_msg svr events)
  unfolding close_server
  close_server-Serves id svr events h u =
      subst
        (λ o.
          Serves connect on_msg id
            (peer_events connect on_msg (connect id) o (own connect on_msg id events))
            (close_server connect on_msg svr events))
        (get-close id svr.sessions)
        (serve-Serves connect on_msg calm id (record svr { sessions = close_sessions svr.sessions })
          events h (close-IsSound svr.sessions u))

  first_datagram :
      (id : String) (pick : Bool) (msg : Bytes) (now : ℕ)
      → peer_events connect on_msg
          (connect id)
          none
          (own connect on_msg id (datagram id pick msg now ∷ []))
        ≡ some (recv_msg pick msg now (new_session (connect id) now))
  unfolding own peer_events
  first_datagram id pick msg now =
      ap
        (λ b.
          peer_events connect on_msg (connect id) none
            (if b then datagram id pick msg now ∷ [] else []))
        (eq_refl id)

  -- A peer whose first datagram comes between the loop of Close and the close of the socket has a
  -- session behind Close, new and with this datagram.
  late_session :
      (id : String) (svr : UdpServer S) (pick : Bool) (msg : Bytes) (now : ℕ)
      → svr.sock ≡ true
      → IsSound svr.sessions
      → get_session id svr.sessions ≡ none
      → Serves connect on_msg id
          (some (recv_msg pick msg now (new_session (connect id) now)))
          (close_server connect on_msg svr (datagram id pick msg now ∷ []))
  late_session id svr pick msg now h u new =
      let events = datagram id pick msg now ∷ [] in
      subst (λ o. Serves connect on_msg id o (close_server connect on_msg svr events))
        (ap
            (λ o.
              peer_events connect on_msg (connect id) (closed_entry o)
                (own connect on_msg id events))
            new
          ∙ first_datagram id pick msg now)
        (close_server-Serves id svr events h u)
