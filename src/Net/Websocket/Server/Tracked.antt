-- ===== src/Net/Websocket/Server/Tracked.antt =====
-- The sockets of websocket_server.go and the requests that they belong to.
use gotu.Base.{
  ℕ, suc, ◌≤◌, ◌≡◌, refl, sym, ap, ◌∙◌, Bool, true, false, not, ◌||◌, List, [], ◌∷◌, if◌then◌else◌,
  arith, if_either, if_both, true_ne_false,
}
use gotu.Net.Server.{has}
use gotu.Net.Server.Sweep.{has-without}
use gotu.Net.Websocket.Server.{
  RequestAt, idle, upgrading, adding, serving, deleting, done, ClosingAt, uncalled, sweeping,
  stopping, waiting, returned, WsServer, new_ws_server, WsAction, request, refused, upgraded, add,
  ends, leaves, delete, listen_failed, close, set, goes, is_upgrading, is_adding, is_serving,
  is_deleting, add_socket, del_socket, over, on_closing, ws_step, ws_steps,
}

-- Whether the socket of a request is in the map, and whether its loops may run.
abbrev pub is_listed : RequestAt → Bool
is_listed serving = true
is_listed deleting = true
is_listed _ = false

abbrev pub may_run : RequestAt → Bool
may_run adding = true
may_run serving = true
may_run _ = false

abbrev pub holds_lock : ClosingAt → Bool
holds_lock (sweeping is) = true
holds_lock _ = false

-- The socket `j` is in the map from addSocket to delSocket of its request, its loops run in between
-- Upgrade and the end of WaitUntilClose alone, and a number that was not given is no request.
pub record IsTrackedAt (s : WsServer) (j : ℕ) : Type 0 where
  pub listed : has j s.sockets ≡ is_listed (s.at j)
  pub running : (not (s.live j) || may_run (s.at j)) ≡ true
  pub fresh : s.next ≤ j → s.at j ≡ idle

pub is_upgrading→eq : (p : RequestAt) → is_upgrading p ≡ true → p ≡ upgrading
is_upgrading→eq upgrading h = refl
is_upgrading→eq _ h = absurd (true_ne_false (sym h))

pub is_adding→eq : (p : RequestAt) → is_adding p ≡ true → p ≡ adding
is_adding→eq adding h = refl
is_adding→eq _ h = absurd (true_ne_false (sym h))

pub is_serving→eq : (p : RequestAt) → is_serving p ≡ true → p ≡ serving
is_serving→eq serving h = refl
is_serving→eq _ h = absurd (true_ne_false (sym h))

pub is_deleting→eq : (p : RequestAt) → is_deleting p ≡ true → p ≡ deleting
is_deleting→eq deleting h = refl
is_deleting→eq _ h = absurd (true_ne_false (sym h))

module _ (i : ℕ) (s : WsServer) (j : ℕ) (k : IsTrackedAt s i) (h : IsTrackedAt s j) where
  refused-IsTrackedAt : s.at i ≡ upgrading → IsTrackedAt (goes i done s) j
  refused-IsTrackedAt e = ground (arith, k.listed, k.running, k.fresh, h.listed, h.running, h.fresh)

  upgraded-IsTrackedAt :
      s.at i ≡ upgrading → IsTrackedAt (record (goes i adding s) { live = set i true s.live }) j
  upgraded-IsTrackedAt e =
      ground (arith, k.listed, k.running, k.fresh, h.listed, h.running, h.fresh)

  add-IsTrackedAt : s.at i ≡ adding → IsTrackedAt (add_socket i s) j
  add-IsTrackedAt e =
      ground (
        arith,
        k.listed,
        k.running,
        k.fresh,
        h.listed,
        h.running,
        h.fresh,
        has-without j i s.sockets,
      )

  leaves-IsTrackedAt : s.at i ≡ serving → IsTrackedAt (if s.live i then s else goes i deleting s) j
  leaves-IsTrackedAt e = ground (arith, k.listed, k.running, k.fresh, h.listed, h.running, h.fresh)

  delete-IsTrackedAt : s.at i ≡ deleting → IsTrackedAt (del_socket i s) j
  delete-IsTrackedAt e =
      ground (
        arith,
        k.listed,
        k.running,
        k.fresh,
        h.listed,
        h.running,
        h.fresh,
        has-without j i s.sockets,
      )

  over-IsTrackedAt : IsTrackedAt (over i s) j
  over-IsTrackedAt = ground (arith, k.listed, k.running, k.fresh, h.listed, h.running, h.fresh)

request-IsTrackedAt :
    (s : WsServer) (j : ℕ)
    → IsTrackedAt s s.next
    → IsTrackedAt s j
    → IsTrackedAt (record (goes s.next upgrading s) { next = suc s.next }) j
request-IsTrackedAt s j k h =
    ground (arith, k.listed, k.running, k.fresh, h.listed, h.running, h.fresh)

-- The lock, Close and the http server play no part.
retrack :
    (s : WsServer) (mu http : Bool) (c : ClosingAt) (j : ℕ)
    → IsTrackedAt s j
    → IsTrackedAt (record s { mu = mu; http = http; closer = c }) j
retrack s mu http c j h = record { listed = h.listed; running = h.running; fresh = h.fresh }

closing-IsTrackedAt :
    (c : ClosingAt) (s : WsServer) (j : ℕ)
    → ((i : ℕ) → IsTrackedAt s i)
    → IsTrackedAt (on_closing c s) j
unfolding on_closing
closing-IsTrackedAt uncalled s j h =
    if_both (λ (t : WsServer). IsTrackedAt t j) s.mu (h j)
      (retrack s true s.http (sweeping s.sockets) j (h j))
closing-IsTrackedAt (sweeping []) s j h = retrack s false s.http stopping j (h j)
closing-IsTrackedAt (sweeping (i ∷ is)) s j h =
    retrack (over i s) s.mu s.http (sweeping is) j (over-IsTrackedAt i s j (h i) (h j))
closing-IsTrackedAt stopping s j h = retrack s s.mu false waiting j (h j)
closing-IsTrackedAt waiting s j h = retrack s s.mu s.http returned j (h j)
closing-IsTrackedAt returned s j h = h j

-- The map has the sockets between addSocket and delSocket, loops run between Upgrade and the end of
-- WaitUntilClose alone, and Close has the lock while it closes the sockets of the map.
pub record IsTracked (s : WsServer) : Type 0 where
  pub tracked : (j : ℕ) → IsTrackedAt s j
  pub lock : s.mu ≡ holds_lock s.closer

closing-lock :
    (c : ClosingAt) (s : WsServer)
    → s.closer ≡ c
    → s.mu ≡ holds_lock c
    → (on_closing c s).mu ≡ holds_lock (on_closing c s).closer
unfolding on_closing
closing-lock uncalled s e h = rw h refl
closing-lock (sweeping []) s e h = refl
closing-lock (sweeping (i ∷ is)) s e h = h
closing-lock stopping s e h = h
closing-lock waiting s e h = h
closing-lock returned s e h = h ∙ ap holds_lock (sym e)

-- A step of a request, where it stands so that the step is its next.
moves :
    (b : Bool) (s t : WsServer)
    → IsTracked s
    → t.mu ≡ s.mu
    → t.closer ≡ s.closer
    → (b ≡ true → (j : ℕ) → IsTrackedAt t j)
    → IsTracked (if b then t else s)
moves b s t h m c k =
    if_either IsTracked b (λ e. record { tracked = k e; lock = m ∙ h.lock ∙ ap holds_lock (sym c) })
      (λ e. h)

pub ws_step-IsTracked : (s : WsServer) (a : WsAction) → IsTracked s → IsTracked (ws_step s a)
unfolding ws_step
ws_step-IsTracked s request h =
    moves s.http s (record (goes s.next upgrading s) { next = suc s.next }) h refl refl
      (λ e j. request-IsTrackedAt s j (h.tracked s.next) (h.tracked j))
ws_step-IsTracked s (refused i) h =
    moves (is_upgrading (s.at i)) s (goes i done s) h refl refl
      (λ e j. refused-IsTrackedAt i s j (h.tracked i) (h.tracked j) (is_upgrading→eq (s.at i) e))
ws_step-IsTracked s (upgraded i) h =
    moves (is_upgrading (s.at i)) s (record (goes i adding s) { live = set i true s.live }) h refl
      refl
      (λ e j. upgraded-IsTrackedAt i s j (h.tracked i) (h.tracked j) (is_upgrading→eq (s.at i) e))
ws_step-IsTracked s (add i) h =
    moves (is_adding (s.at i)) s (add_socket i s) h
      (if_both (λ (t : WsServer). t.mu ≡ s.mu) s.mu refl refl)
      (if_both (λ (t : WsServer). t.closer ≡ s.closer) s.mu refl refl)
      (λ e j. add-IsTrackedAt i s j (h.tracked i) (h.tracked j) (is_adding→eq (s.at i) e))
ws_step-IsTracked s (leaves i) h =
    moves (is_serving (s.at i)) s (if s.live i then s else goes i deleting s) h
      (if_both (λ (t : WsServer). t.mu ≡ s.mu) (s.live i) refl refl)
      (if_both (λ (t : WsServer). t.closer ≡ s.closer) (s.live i) refl refl)
      (λ e j. leaves-IsTrackedAt i s j (h.tracked i) (h.tracked j) (is_serving→eq (s.at i) e))
ws_step-IsTracked s (delete i) h =
    moves (is_deleting (s.at i)) s (del_socket i s) h
      (if_both (λ (t : WsServer). t.mu ≡ s.mu) s.mu refl refl)
      (if_both (λ (t : WsServer). t.closer ≡ s.closer) s.mu refl refl)
      (λ e j. delete-IsTrackedAt i s j (h.tracked i) (h.tracked j) (is_deleting→eq (s.at i) e))
ws_step-IsTracked s (ends i) h = record {
  tracked = λ j. over-IsTrackedAt i s j (h.tracked i) (h.tracked j);
  lock = h.lock;
}
ws_step-IsTracked s listen_failed h = record {
  tracked = λ j. retrack s s.mu false s.closer j (h.tracked j);
  lock = h.lock;
}
ws_step-IsTracked s close h = record {
  tracked = λ j. closing-IsTrackedAt s.closer s j h.tracked;
  lock = closing-lock s.closer s refl h.lock;
}

ws_steps-IsTracked_from :
    (s : WsServer) (actions : List WsAction) → IsTracked s → IsTracked (ws_steps s actions)
unfolding ws_steps
ws_steps-IsTracked_from s [] h = h
ws_steps-IsTracked_from s (a ∷ actions) h =
    ws_steps-IsTracked_from (ws_step s a) actions (ws_step-IsTracked s a h)

-- In whatever order requests, sockets and Close move, the map has the sockets between addSocket and
-- delSocket of their requests and no others, loops run only from Upgrade to the end of WaitUntilClose,
-- and the lock is held while Close sweeps the map.
pub ws_steps-IsTracked : (actions : List WsAction) → IsTracked (ws_steps new_ws_server actions)
ws_steps-IsTracked actions = ws_steps-IsTracked_from new_ws_server actions (record {
  tracked = λ j. record { listed = refl; running = refl; fresh = λ k. refl };
  lock = refl;
})
