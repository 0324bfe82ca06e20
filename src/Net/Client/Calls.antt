-- ===== src/Net/Client/Calls.antt =====
-- Sequences of calls of one client (tcp_client.go, kcp_client.go, websocket_client.go,
-- udp_client.go).
use gotu.Base.{
  both_true, not, true_ne_false, Option-cases, inl, inr, ◌≡◌, refl, sym, ap, ◌∙◌, subst, Bool, true,
  false, ◌&&◌, ◌||◌, Option, none, some, List, [], ◌∷◌, map, Error, sock_closed,
}
use gotu.Net.Client.{
  Kind, tcp, udp, kcp, websocket, SocketOps, Dialled, failed, unmade, opened, Client, stores_nil,
  Call, reconnect_to, send, close_it, new_socket, reconnect, send_msg, close, call, after, calls,
}

abbrev pub is_nil {ℓ} : {A : Type ℓ} → Option A → Bool
is_nil none = true
is_nil (some a) = false

module _ {T : Type 0} where
  -- Whether a call leaves the client with a nil socket.
  abbrev pub drops : Kind → Call T → Bool
  drops kind (reconnect_to (unmade e)) = stores_nil kind
  drops kind c = false

  -- Whether some call meets a nil socket, the socket before them being nil where `dead` says so.
  unfoldable pub hits_nil : Kind → Bool → List (Call T) → Bool
  hits_nil kind dead [] = false
  hits_nil kind dead (c ∷ cs) = dead || hits_nil kind (drops kind c) cs

  -- What a call answers on a closed socket.
  abbrev pub answered : Call T → Option Error
  answered (reconnect_to (failed e)) = some e
  answered (reconnect_to (unmade e)) = some e
  answered (reconnect_to (opened t)) = none
  answered (send pick msg) = some sock_closed
  answered close_it = none

  -- Whether a call leaves a closed socket in its place: a Reconnect that fails without a nil socket, a
  -- send whose select takes the close, and Close do.
  abbrev pub stays : Kind → Call T → Bool
  stays kind (reconnect_to (failed e)) = true
  stays kind (reconnect_to (unmade e)) = not (stores_nil kind)
  stays kind (reconnect_to (opened t)) = false
  stays kind (send pick msg) = not pick
  stays kind close_it = true

  abbrev pub all_stay : Kind → List (Call T) → Bool
  all_stay kind [] = true
  all_stay kind (c ∷ cs) = stays kind c && all_stay kind cs

module _ {T : Type 0} (ops : SocketOps T) where
  -- A call of a client that has a socket returns, and leaves it a nil socket just where it drops it.
  abbrev Leaves : Bool → Option (Client T × Option Error) → Type 0
  Leaves b none = ⊥
  Leaves b (some (cli, err)) = is_nil cli.sock ≡ b

  new_socket-Leaves :
      (kind : Kind) (t : T) (d : Dialled T)
      → Leaves (drops kind (reconnect_to d)) (some (new_socket kind (record { sock = some t }) d))
  unfolding new_socket
  new_socket-Leaves kind t (failed e) = refl
  new_socket-Leaves tcp t (unmade e) = refl
  new_socket-Leaves udp t (unmade e) = refl
  new_socket-Leaves kcp t (unmade e) = refl
  new_socket-Leaves websocket t (unmade e) = refl
  new_socket-Leaves kind t (opened t') = refl

  call-Leaves :
      (kind : Kind) (t : T) (c : Call T)
      → Leaves (drops kind c) (call ops kind (record { sock = some t }) c)
  unfolding call reconnect send_msg close
  call-Leaves kind t (reconnect_to d) = new_socket-Leaves kind (ops.close t) d
  call-Leaves kind t (send pick msg) = refl
  call-Leaves kind t close_it = refl

  calls_nil :
      (kind : Kind) (c : Call T) (cs : List (Call T))
      → is_nil (calls ops kind (record { sock = none }) (c ∷ cs)) ≡ true
  unfolding calls call reconnect send_msg close
  calls_nil kind (reconnect_to d) cs = refl
  calls_nil kind (send pick msg) cs = refl
  calls_nil kind close_it cs = refl

  is_nil-after :
      (err : Option Error) (o : Option (Client T × List (Option Error)))
      → is_nil (after ops err o) ≡ is_nil o
  is_nil-after err none = refl
  is_nil-after err (some r) = refl

  -- What follows a call, from the client that the call left.
  calls_then :
      (kind : Kind) (b : Bool) (cs : List (Call T)) (r : Option (Client T × Option Error))
      → ((cli : Client T) → is_nil (calls ops kind cli cs) ≡ hits_nil kind (is_nil cli.sock) cs)
      → Leaves b r
      → is_nil (elim r [ none ↦ none | some (cli', err) ↦ after ops err (calls ops kind cli' cs) ])
        ≡ hits_nil kind b cs
  calls_then kind b cs none k impossible = elim impossible [ ]
  calls_then kind b cs (some (cli, err)) k l =
      is_nil-after err (calls ops kind cli cs) ∙ (k cli ∙ ap (λ x. hits_nil kind x cs) l)

  -- A sequence of calls of a client panics just where one of them meets a nil socket: where the client
  -- begins with one, or the client is a KCP client and one of the calls but the last is a Reconnect whose
  -- socket cannot be made, since the client stores the nil socket.
  pub calls-hits_nil :
      (kind : Kind) (cli : Client T) (cs : List (Call T))
      → is_nil (calls ops kind cli cs) ≡ hits_nil kind (is_nil cli.sock) cs
  unfolding calls hits_nil
  calls-hits_nil kind cli [] = refl
  calls-hits_nil kind cli (c ∷ cs) = elim (Option-cases cli.sock) [
    | inl n ↦
        subst
          (λ o.
            is_nil (calls ops kind (record { sock = o }) (c ∷ cs))
            ≡ hits_nil kind (is_nil o) (c ∷ cs))
          (sym n) (calls_nil kind c cs)
    | inr (t, g) ↦
        subst
          (λ o.
            is_nil (calls ops kind (record { sock = o }) (c ∷ cs))
            ≡ hits_nil kind (is_nil o) (c ∷ cs))
          (sym g)
          (calls_then kind (drops kind c) cs (call ops kind (record { sock = some t }) c)
            (λ cli'. calls-hits_nil kind cli' cs) (call-Leaves kind t c))
  ]

  -- The call answers `err` and leaves a closed socket.
  abbrev IsClosedAfter : Option Error → Option (Client T × Option Error) → Type 0
  IsClosedAfter err r =
      (t : T) × (ops.is_closed t ≡ true) × (r ≡ some (record { sock = some t }, err))

  call-IsClosedAfter :
      (kind : Kind) (t : T) (c : Call T)
      → ops.is_closed t ≡ true
      → stays kind c ≡ true
      → IsClosedAfter (answered c) (call ops kind (record { sock = some t }) c)
  unfolding call reconnect send_msg close new_socket
  call-IsClosedAfter kind t (reconnect_to (failed e)) h s =
      (ops.close t, ops.close-is_closed t, refl)
  call-IsClosedAfter tcp t (reconnect_to (unmade e)) h s =
      (ops.close t, ops.close-is_closed t, refl)
  call-IsClosedAfter udp t (reconnect_to (unmade e)) h s =
      (ops.close t, ops.close-is_closed t, refl)
  call-IsClosedAfter kcp t (reconnect_to (unmade e)) h s = absurd (true_ne_false (sym s))
  call-IsClosedAfter websocket t (reconnect_to (unmade e)) h s =
      (ops.close t, ops.close-is_closed t, refl)
  call-IsClosedAfter kind t (reconnect_to (opened t')) h s = absurd (true_ne_false (sym s))
  call-IsClosedAfter kind t (send true msg) h s = absurd (true_ne_false (sym s))
  call-IsClosedAfter kind t (send false msg) h s = (
    (ops.send_msg false msg t).0,
    ops.send_msg-is_closed false msg t h,
    ap (λ e. some (record { sock = some (ops.send_msg false msg t).0 }, e))
        (ops.send_msg-refused msg t h),
  )
  call-IsClosedAfter kind t close_it h s = (ops.close t, ops.close-is_closed t, refl)

  -- Once its socket is closed, a client answers each call as a closed client does, in whatever number
  -- the calls come, as long as no Reconnect makes a socket or stores a nil one and the selects of
  -- the sends take the close: an error for every send and the dial's error for every Reconnect; and its
  -- socket is closed still.
  pub calls-answered :
      (kind : Kind) (t : T) (cs : List (Call T))
      → ops.is_closed t ≡ true
      → all_stay kind cs ≡ true
      → (t' : T) × (ops.is_closed t' ≡ true)
        × (calls ops kind (record { sock = some t }) cs
            ≡ some (record { sock = some t' }, map answered cs))
  unfolding calls
  calls-answered kind t [] h s = (t, h, refl)
  calls-answered kind t (c ∷ cs) h s =
      let next = λ (r : Option (Client T × Option Error)).
        elim r as (λ x. Option (Client T × List (Option Error))) [
          | none ↦ none
          | some (cli', err) ↦ after ops err (calls ops kind cli' cs)
        ] in
      let (t1, h1, g1) =
        call-IsClosedAfter kind t c h (both_true (stays kind c) (all_stay kind cs) s).0 in
      let (t2, h2, g2) =
        calls-answered kind t1 cs h1 (both_true (stays kind c) (all_stay kind cs) s).1 in
      (t2, h2, ap next g1 ∙ ap (after ops (answered c)) g2)
