-- ===== src/Net/Udp/Client/Close.antt =====
-- The close of a UDP client's session and socket (udp_client.go, over udp_session.go).
use gotu.Base.{
  arith, ℕ, ◌≡◌, refl, sym, ap, ◌∙◌, subst, Bool, true, false, Option, none, some, List, [], ◌∷◌,
  if_both, if_either, if◌then◌else◌, true_ne_false,
}
use gotu.Wire.{Bytes}
use gotu.Net.Handler.{OnHandlerOnce}
use gotu.Net.Write
use gotu.Net.Write.{Channel}
use gotu.Net.Write.Cases.{send_msg-closed}
use gotu.Net.Session
use gotu.Net.Session.{Session, arrive, turn, shut, recv_msg, deliver, answered, on_event}
use gotu.Net.Session.Order.{IsQueued, on_event-IsQueued}
use gotu.Net.Session.Shut.{IsShut, on_event-IsShut, turn_ends}
use gotu.Net.Session.Failed.{on_event-IsSilent}
use gotu.Net.Udp.Client.{
  BuiltInUdp, Once, unfired, in_session, fired, Event, datagram, handle, check, force, finish, send,
  read_end, new_built_in_udp, force_close, finish_close, send_msg, react, reacts, turns, close,
  udp_chan_limit,
}

abbrev is_unfired : Once → Bool
is_unfired unfired = true
is_unfired in_session = false
is_unfired fired = false

module _ {S : Type 0} (on_msg : OnHandlerOnce S) where
  -- What the client has closed at each point of forceClose.
  abbrev pub IsClosing : BuiltInUdp S → Once → Type 0
  IsClosing b unfired = Unit
  IsClosing b in_session = IsShut on_msg b.session
  IsClosing b fired = (b.session.running ≡ false) × IsShut on_msg b.session × (b.sock.closed ≡ true)

  -- The point of forceClose is as the fields say, and the session's queue is in order.
  abbrev pub IsBuilt : BuiltInUdp S → Type 0
  IsBuilt b = IsClosing b b.once × IsQueued b.session

  session-IsClosing :
      (b : BuiltInUdp S) (e : Session.Event) (o : Once)
      → IsClosing b o
      → IsClosing (record b { session = on_event on_msg b.session e }) o
  session-IsClosing b e unfired h = tt
  session-IsClosing b e in_session h = on_event-IsShut on_msg b.session e h
  session-IsClosing b e fired (ended, h, k) =
      ((on_event-IsSilent on_msg b.session e ended).0, on_event-IsShut on_msg b.session e h, k)

  sock-IsClosing :
      (b : BuiltInUdp S) (c : Channel Bytes) (o : Once)
      → (b.sock.closed ≡ true → c.closed ≡ true)
      → IsClosing b o
      → IsClosing (record b { sock = c }) o
  sock-IsClosing b c unfired k h = tt
  sock-IsClosing b c in_session k h = h
  sock-IsClosing b c fired k (ended, h, l) = (ended, h, k l)

  force_close-IsBuilt :
      (b : BuiltInUdp S) (o : Once)
      → b.once ≡ o
      → IsClosing b o
      → IsQueued b.session
      → IsBuilt (force_close on_msg b o)
  unfolding force_close on_event
  force_close-IsBuilt b unfired g h q = (refl, q)
  force_close-IsBuilt b in_session g h q = (subst (IsClosing b) (sym g) h, q)
  force_close-IsBuilt b fired g h q = (subst (IsClosing b) (sym g) h, q)

  finish_close-IsBuilt :
      (b : BuiltInUdp S) (o : Once)
      → b.once ≡ o
      → IsClosing b o
      → IsQueued b.session
      → IsBuilt (finish_close on_msg b o)
  unfolding finish_close
  finish_close-IsBuilt b unfired g h q = (subst (IsClosing b) (sym g) h, q)
  finish_close-IsBuilt b in_session g h q =
      if_either IsBuilt b.session.running (λ runs. (subst (IsClosing b) (sym g) h, q))
        (λ ended. ((ended, h, refl), q))
  finish_close-IsBuilt b fired g h q = (subst (IsClosing b) (sym g) h, q)

  pub react-IsBuilt : (b : BuiltInUdp S) (e : Event) → IsBuilt b → IsBuilt (react on_msg b e)
  unfolding react send_msg on_event
  react-IsBuilt b (datagram pick msg now) (h, q) = (
    session-IsClosing b (arrive pick msg now) b.once h,
    on_event-IsQueued on_msg b.session (arrive pick msg now) q,
  )
  react-IsBuilt b (handle prefer) (h, q) = (
    session-IsClosing b (turn prefer) b.once h,
    on_event-IsQueued on_msg b.session (turn prefer) q,
  )
  react-IsBuilt b (check timeout now) (h, q) =
      if_both IsBuilt (Session.expires timeout now b.session)
        (force_close-IsBuilt b b.once refl h q) (h, q)
  react-IsBuilt b force (h, q) = force_close-IsBuilt b b.once refl h q
  react-IsBuilt b finish (h, q) = finish_close-IsBuilt b b.once refl h q
  react-IsBuilt b (send pick msg) (h, q) = (
    sock-IsClosing b (Write.send_msg udp_chan_limit pick msg b.sock).0 b.once
        (λ k. send_msg-closed udp_chan_limit pick msg b.sock ∙ k) h,
    q,
  )
  react-IsBuilt b read_end (h, q) =
      (sock-IsClosing b (record b.sock { closed = true }) b.once (λ k. refl) h, q)

  reacts-IsBuilt :
      (b : BuiltInUdp S) (events : List Event) → IsBuilt b → IsBuilt (reacts on_msg b events)
  unfolding reacts
  reacts-IsBuilt b [] h = h
  reacts-IsBuilt b (e ∷ events) h = reacts-IsBuilt (react on_msg b e) events (react-IsBuilt b e h)

  -- Whether the client works in order, if it was made at all.
  abbrev pub IsMade : Option (BuiltInUdp S) → List Event → Type 0
  IsMade none events = ⊥
  IsMade (some b) events = IsBuilt (reacts on_msg b events)

  -- A client before whose session no datagram comes is made, and after any datagrams, turns, rounds of
  -- the check loop, sends, calls and steps of forceClose in any order: the messages given to the callback and those that wait are
  -- together the accepted ones, in order and none twice; in `session.Close` the session is shut; and at
  -- the end of forceClose its handler loop is over and the socket is closed.
  pub reacts-IsMade :
      (state : S) (now : ℕ) (events : List Event) → IsMade (new_built_in_udp false state now) events
  unfolding new_built_in_udp
  reacts-IsMade state now events = reacts-IsBuilt _ events (tt, (refl, omega arith))

  turns-IsBuilt :
      (b : BuiltInUdp S) (prefers : List Bool) → IsBuilt b → IsBuilt (turns on_msg b prefers)
  unfolding turns
  turns-IsBuilt b [] h = react-IsBuilt b (handle true) h
  turns-IsBuilt b (prefer ∷ prefers) h =
      turns-IsBuilt (react on_msg b (handle prefer)) prefers (react-IsBuilt b (handle prefer) h)

  turns_once : (b : BuiltInUdp S) (prefers : List Bool) → (turns on_msg b prefers).once ≡ b.once
  unfolding turns react
  turns_once b [] = refl
  turns_once b (prefer ∷ prefers) = turns_once (react on_msg b (handle prefer)) prefers

  turns_end :
      (b : BuiltInUdp S) (prefers : List Bool)
      → IsShut on_msg b.session
      → (turns on_msg b prefers).session.running ≡ false
  unfolding turns react
  turns_end b [] h = turn_ends on_msg b.session h
  turns_end b (prefer ∷ prefers) h =
      turns_end (react on_msg b (handle prefer)) prefers
        (on_event-IsShut on_msg b.session (turn prefer) h)

  force_shuts :
      (b : BuiltInUdp S) (o : Once)
      → b.once ≡ o
      → IsClosing b o
      → IsShut on_msg (force_close on_msg b o).session
  unfolding force_close on_event
  force_shuts b unfired g h = refl
  force_shuts b in_session g h = h
  force_shuts b fired g (ended, h, k) = h

  finish_closes :
      (b : BuiltInUdp S) (o : Once)
      → b.once ≡ o
      → IsClosing b o
      → (o ≡ unfired → ⊥)
      → b.session.running ≡ false
      → (finish_close on_msg b o).once ≡ fired
  unfolding finish_close
  finish_closes b unfired g h k ended = absurd (k refl)
  finish_closes b in_session g h k ended =
      ap
        (λ r.
          (if r then b else record b { sock = record b.sock { closed = true }; once = fired }).once)
        ended
      ∙ refl
  finish_closes b fired g h k ended = g

  force_fires :
      (b : BuiltInUdp S) (o : Once) → b.once ≡ o → (force_close on_msg b o).once ≡ unfired → ⊥
  unfolding force_close
  force_fires b unfired g h = true_ne_false (sym (ap is_unfired h))
  force_fires b in_session g h = true_ne_false (sym (ap is_unfired (sym g ∙ h)))
  force_fires b fired g h = true_ne_false (sym (ap is_unfired (sym g ∙ h)))

  -- Wherever forceClose stands, and whatever turns the handler loop still makes, Close ends, with the
  -- session's handler loop over and the session and the socket closed.
  pub close_ends :
      (prefers : List Bool) (b : BuiltInUdp S) → IsBuilt b → (close on_msg prefers b).once ≡ fired
  unfolding close react
  close_ends prefers b (h, q) =
      let b1 = force_close on_msg b b.once in
      let built = turns-IsBuilt b1 prefers (force_close-IsBuilt b b.once refl h q) in
      finish_closes (turns on_msg b1 prefers) (turns on_msg b1 prefers).once refl built.0
        (λ same. force_fires b b.once refl (sym (turns_once b1 prefers) ∙ same))
        (turns_end b1 prefers (force_shuts b b.once refl h))

  pub close-IsBuilt :
      (prefers : List Bool) (b : BuiltInUdp S) → IsBuilt b → IsBuilt (close on_msg prefers b)
  unfolding close
  close-IsBuilt prefers b h =
      react-IsBuilt _ finish (turns-IsBuilt _ prefers (react-IsBuilt b force h))
