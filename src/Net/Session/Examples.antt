-- ===== src/Net/Session/Examples.antt =====
-- A session at work, and the theorems on its runs, with a callback that fails on an empty message.
use gotu.Base.{ℕ, ◌+◌, ◌≡◌, refl, arith, true, false, none, some, List, [], ◌∷◌, ext}
use gotu.Net.Handler.{handled, OnHandlerOnce}
use gotu.Net.Session.{Session, new_session, Event, arrive, turn, recv_msg, on_events, expires}
use gotu.Net.Session.Order.{IsQueued, on_events-IsQueued}
use gotu.Net.Session.Failed.{failed_session}

abbrev strict : OnHandlerOnce ℕ
strict n [] = handled n 0 (some (ext 1))
strict n (b ∷ msg) = handled (n + b) 0 none

abbrev talk : List Event
talk =
    arrive true (1 ∷ []) 100
    ∷ arrive true [] 101
    ∷ turn false
    ∷ arrive true (2 ∷ []) 102
    ∷ turn false
    ∷ []

on_events-IsQueued_example : IsQueued (on_events strict (new_session 0 99) talk)
on_events-IsQueued_example = on_events-IsQueued strict 0 99 talk

-- The callback has failed on the only message that came.
abbrev failed : Session ℕ
failed = record (new_session 0 100) { running = false; delivered = [] ∷ []; accepted = [] ∷ [] }

failed_session_example :
    ((recv_msg true (2 ∷ []) 200 failed).accepted ≡ [] ∷ (2 ∷ []) ∷ [])
    × (expires 10 205 (recv_msg true (2 ∷ []) 200 failed) ≡ false)
    × ((on_events strict (recv_msg true (2 ∷ []) 200 failed) (turn false ∷ [])).delivered ≡ [] ∷ [])
failed_session_example =
    failed_session strict true (2 ∷ []) 200 10 205 failed (turn false ∷ []) refl refl (omega arith)
      (omega arith)
