-- ===== src/Net/Websocket/Messages.antt =====
-- The messages of a websocket (websocket.go) against those of a stream (tcp_socket.go).
use gotu.Base.{ℕ, suc, ◌≡◌, refl, sym, ap, ◌∙◌, none, some, List, [], ◌∷◌, ◌++◌}
use gotu.Wire.{Bytes}
use gotu.Net.Handler.{Handled, handled, panicked, OnHandlerOnce, IsStable}
use gotu.Net.Websocket.{
  Read, deadline_failed, read_failed, read_closed, message, Loop, reading, ended, died,
  ws_read_loop,
}

module _ {S : Type 0} (on_msg : OnHandlerOnce S) where
  -- What a loop does with further reads.
  abbrev pub goes_on : Loop S → List Read → Loop S
  goes_on (reading s) reads = ws_read_loop on_msg s reads
  goes_on (ended s e) reads = ended s e
  goes_on died reads = died

  after_message :
      (h : Handled S) (xs ys : List Read)
      → ((s : S) → ws_read_loop on_msg s (xs ++ ys) ≡ goes_on (ws_read_loop on_msg s xs) ys)
      → (elim h [
        | panicked ↦ died
        | handled s n (some e) ↦ ended s (some e)
        | handled s n none ↦ ws_read_loop on_msg s (xs ++ ys)
      ])
        ≡ goes_on
            (elim h [
              | panicked ↦ died
              | handled s n (some e) ↦ ended s (some e)
              | handled s n none ↦ ws_read_loop on_msg s xs
            ])
            ys
  after_message panicked xs ys k = refl
  after_message (handled s n (some e)) xs ys k = refl
  after_message (handled s n none) xs ys k = k s

  -- The reads of a websocket come one after another: reading some and then others is reading all.
  ws_read_loop-append :
      (s : S) (xs ys : List Read)
      → ws_read_loop on_msg s (xs ++ ys) ≡ goes_on (ws_read_loop on_msg s xs) ys
  unfolding ws_read_loop
  ws_read_loop-append s [] ys = refl
  ws_read_loop-append s (deadline_failed e ∷ xs) ys = refl
  ws_read_loop-append s (read_failed e ∷ xs) ys = refl
  ws_read_loop-append s (read_closed ∷ xs) ys = refl
  ws_read_loop-append s (message msg ∷ xs) ys =
      after_message (on_msg s msg) xs ys (λ s'. ws_read_loop-append s' xs ys)

  -- Where a stable callback takes the front of a message and says so, the bytes behind it are dropped:
  -- the loop goes on as if they had not come.
  ws_read_loop-rest :
      (s s' : S) (n : ℕ) (msg rest : Bytes) (reads : List Read)
      → IsStable on_msg
      → on_msg s msg ≡ handled s' (suc n) none
      → ws_read_loop on_msg s (message (msg ++ rest) ∷ reads)
        ≡ ws_read_loop on_msg s (message msg ∷ reads)
  unfolding ws_read_loop
  ws_read_loop-rest s s' n msg rest reads stable e =
      ap next (stable.extend s msg rest s' n none e) ∙ sym (ap next e)
    where
      next : Handled S → Loop S
      next panicked = died
      next (handled t m (some e)) = ended t (some e)
      next (handled t m none) = ws_read_loop on_msg t reads
