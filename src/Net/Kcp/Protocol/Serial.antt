-- ===== src/Net/Kcp/Protocol/Serial.antt =====
-- Schedules of the two ends of kcp_mux.go in which no step comes between a swap and its sends at the
-- same end: they are those of the ends whose swap and sends are one step, with arrivals that are late.
use gotu.Base.{◌≡◌, refl, sym, ap, subst, ◌∙◌, List, [], ◌∷◌, ◌++◌, append-nil, append_assoc}
use gotu.Net.Kcp.Mux.{Kms, Mux, inline_protocol, init_begin, close_begin}
use gotu.Net.Kcp.Protocol.{
  ReadEnd, open_end, eof_end, error_end, end_of, System, Action, client_init, server_init,
  client_close, server_close, deliver_up, deliver_down, start, server_reads, client_reads, act, run,
}
use gotu.Net.Kcp.Protocol.Split.{
  Split, Step, begin, client_sends, client_replies, server_sends, server_replies, server_takes,
  client_takes, client_send, client_reply, server_send, server_reply, split_step, split_run, whole,
  split_start,
}
use gotu.Net.Kcp.Protocol.Safety.{NoError, never_rejects}

-- The messages that are to be sent count as under way.
abbrev pub view : Split → System
view s = record s.ends {
  up = s.ends.up ++ (s.client_answers ++ s.client_owes);
  down = s.ends.down ++ (s.server_answers ++ s.server_owes);
}

abbrev pub ClientClear : Split → Type 0
ClientClear s = (s.client_owes ≡ []) × (s.client_answers ≡ [])

abbrev pub ServerClear : Split → Type 0
ServerClear s = (s.server_owes ≡ []) × (s.server_answers ≡ [])

-- A swap comes once its end has sent everything that it had to. A call then never has something to
-- send together with the read loop, which the two cases below say again.
abbrev pub Ready : Split → Step → Type 0
Ready s (begin client_init) = ClientClear s
Ready s (begin client_close) = ClientClear s
Ready s (begin deliver_down) = ClientClear s
Ready s (begin server_init) = ServerClear s
Ready s (begin server_close) = ServerClear s
Ready s (begin deliver_up) = ServerClear s
Ready s client_sends = s.client_answers ≡ []
Ready s server_sends = s.server_answers ≡ []
Ready s client_replies = Unit
Ready s server_replies = Unit

abbrev pub IsSerial : Split → List Step → Type 0
IsSerial s [] = Unit
IsSerial s (x ∷ xs) = Ready s x × IsSerial (split_step s x) xs

abbrev Follows : System → System → Type 0
Follows e e' = (ys : List Action) × (e' ≡ run e ys)

run-append : (e : System) (xs ys : List Action) → run e (xs ++ ys) ≡ run (run e xs) ys
unfolding run
run-append e [] ys = refl
run-append e (x ∷ xs) ys = run-append (act e x) xs ys

abbrev split : System → List Kms → List Kms → List Kms → List Kms → Split
split e co ca so sa = record {
  ends = e;
  client_owes = co;
  client_answers = ca;
  server_owes = so;
  server_answers = sa;
}

module _ (e : System) where
  abbrev with_up : List Kms → List Kms → System
  with_up up down = record e { up = up; down = down }

  late_append : (xs ys : List Kms) → xs ++ ys ≡ (xs ++ []) ++ ys
  late_append xs ys = ap (λ z. z ++ ys) (sym (append-nil xs))

  client_send-view :
      (co so sa : List Kms)
      → view (client_send (split e co [] so sa) co) ≡ view (split e co [] so sa)
  unfolding client_send
  client_send-view [] so sa = refl
  client_send-view (k ∷ ks) so sa =
      ap (λ u. with_up u (e.down ++ (sa ++ so))) (append_assoc e.up (k ∷ []) ks)

  server_send-view :
      (so co ca : List Kms)
      → view (server_send (split e co ca so []) so) ≡ view (split e co ca so [])
  unfolding server_send
  server_send-view [] co ca = refl
  server_send-view (k ∷ ks) co ca =
      ap (λ d. with_up (e.up ++ (ca ++ co)) d) (append_assoc e.down (k ∷ []) ks)

  client_reply-view :
      (ca co so sa : List Kms)
      → view (client_reply (split e co ca so sa) ca) ≡ view (split e co ca so sa)
  unfolding client_reply
  client_reply-view [] co so sa = refl
  client_reply-view (k ∷ ks) co so sa =
      ap (λ u. with_up u (e.down ++ (sa ++ so))) (append_assoc e.up (k ∷ []) (ks ++ co))

  server_reply-view :
      (sa co ca so : List Kms)
      → view (server_reply (split e co ca so sa) sa) ≡ view (split e co ca so sa)
  unfolding server_reply
  server_reply-view [] co ca so = refl
  server_reply-view (k ∷ ks) co ca so =
      ap (λ d. with_up (e.up ++ (ca ++ co)) d) (append_assoc e.down (k ∷ []) (ks ++ so))

module _ (client server : Mux) (client_end server_end : ReadEnd) where
  abbrev ends : ReadEnd → ReadEnd → List Kms → List Kms → System
  ends ce se up down = record {
    client = client;
    server = server;
    client_end = ce;
    server_end = se;
    up = up;
    down = down;
  }

  server_takes-view :
      (se : ReadEnd) (up down co ca : List Kms)
      → Follows
          (view (split (ends client_end se up down) co ca [] []))
          (view (server_takes (split (ends client_end se up down) co ca [] []) [] se up))
  unfolding server_takes server_reads act run
  server_takes-view open_end (k ∷ up) down co ca = (
    deliver_up ∷ [],
    ap
        (λ d.
          record (ends client_end (end_of (inline_protocol server k).error) (up ++ (ca ++ co)) d) {
            server = (inline_protocol server k).mux;
          })
        (ap (λ z. down ++ z) (append-nil (inline_protocol server k).sends)
          ∙ late_append (ends client_end open_end up down) down (inline_protocol server k).sends),
  )
  server_takes-view open_end [] down co ca = ([], refl)
  server_takes-view eof_end up down co ca = ([], refl)
  server_takes-view error_end up down co ca = ([], refl)

  client_takes-view :
      (ce : ReadEnd) (down up so sa : List Kms)
      → Follows
          (view (split (ends ce server_end up down) [] [] so sa))
          (view (client_takes (split (ends ce server_end up down) [] [] so sa) [] ce down))
  unfolding client_takes client_reads act run
  client_takes-view open_end (k ∷ down) up so sa = (
    deliver_down ∷ [],
    ap
        (λ u.
          record (ends (end_of (inline_protocol client k).error) server_end u
            (down ++ (sa ++ so))) { client = (inline_protocol client k).mux })
        (ap (λ z. up ++ z) (append-nil (inline_protocol client k).sends)
          ∙ late_append (ends open_end server_end up down) up (inline_protocol client k).sends),
  )
  client_takes-view open_end [] up so sa = ([], refl)
  client_takes-view eof_end down up so sa = ([], refl)
  client_takes-view error_end down up so sa = ([], refl)

-- One step, of which the calls are one step of the whole ends and the sends none.
step-view : (s : Split) (x : Step) → Ready s x → Follows (view s) (view (split_step s x))
unfolding split_step act run
step-view s (begin client_init) (o, a) = (
  client_init ∷ [],
  rw (o, a)
      (ap (λ z. record (view s) { client = (init_begin s.ends.client).0; up = z })
        (late_append s.ends s.ends.up (init_begin s.ends.client).1)),
)
step-view s (begin client_close) (o, a) = (
  client_close ∷ [],
  rw (o, a)
      (ap (λ z. record (view s) { client = (close_begin s.ends.client).0; up = z })
        (late_append s.ends s.ends.up (close_begin s.ends.client).1)),
)
step-view s (begin server_init) (o, a) = (
  server_init ∷ [],
  rw (o, a)
      (ap (λ z. record (view s) { server = (init_begin s.ends.server).0; down = z })
        (late_append s.ends s.ends.down (init_begin s.ends.server).1)),
)
step-view s (begin server_close) (o, a) = (
  server_close ∷ [],
  rw (o, a)
      (ap (λ z. record (view s) { server = (close_begin s.ends.server).0; down = z })
        (late_append s.ends s.ends.down (close_begin s.ends.server).1)),
)
step-view s (begin deliver_up) (o, a) =
    subst
      (λ z. Follows (view (split s.ends s.client_owes s.client_answers z s.server_answers)) (
        view (
          split_step (split s.ends s.client_owes s.client_answers z s.server_answers)
            (begin deliver_up))))
      (sym o)
      (subst
        (λ z.
          Follows (view (split s.ends s.client_owes s.client_answers [] z)) (
            view
              (split_step (split s.ends s.client_owes s.client_answers [] z) (begin deliver_up))))
        (sym a)
        (server_takes-view s.ends.client s.ends.server s.ends.client_end s.ends.server_end
          s.ends.server_end s.ends.up s.ends.down s.client_owes s.client_answers))
step-view s (begin deliver_down) (o, a) =
    subst
      (λ z. Follows (view (split s.ends z s.client_answers s.server_owes s.server_answers)) (
        view (
          split_step (split s.ends z s.client_answers s.server_owes s.server_answers)
            (begin deliver_down))))
      (sym o)
      (subst
        (λ z. Follows (view (split s.ends [] z s.server_owes s.server_answers)) (
          view
            (split_step (split s.ends [] z s.server_owes s.server_answers) (begin deliver_down))))
        (sym a)
        (client_takes-view s.ends.client s.ends.server s.ends.client_end s.ends.server_end
          s.ends.client_end s.ends.down s.ends.up s.server_owes s.server_answers))
step-view s client_sends a = (
  [],
  subst
      (λ z.
        view
          (client_send (split s.ends s.client_owes z s.server_owes s.server_answers) s.client_owes)
        ≡ view (split s.ends s.client_owes z s.server_owes s.server_answers))
      (sym a) (client_send-view s.ends s.client_owes s.server_owes s.server_answers),
)
step-view s server_sends a = (
  [],
  subst
      (λ z.
        view
          (server_send (split s.ends s.client_owes s.client_answers s.server_owes z) s.server_owes)
        ≡ view (split s.ends s.client_owes s.client_answers s.server_owes z))
      (sym a) (server_send-view s.ends s.server_owes s.client_owes s.client_answers),
)
step-view s client_replies u =
    ([], client_reply-view s.ends s.client_answers s.client_owes s.server_owes s.server_answers)
step-view s server_replies u =
    ([], server_reply-view s.ends s.server_answers s.client_owes s.client_answers s.server_owes)

steps-view : (s : Split) (xs : List Step) → IsSerial s xs → Follows (view s) (view (split_run s xs))
unfolding split_run run
steps-view s [] h = ([], refl)
steps-view s (x ∷ xs) (r, h) =
    let (zs, p) = step-view s x r in
    let (bs, q) = steps-view (split_step s x) xs h in
    (zs ++ bs, q ∙ (ap (λ e. run e bs) p ∙ sym (run-append (view s) zs bs)))

pub serial-view :
    (xs : List Step)
    → IsSerial split_start xs
    → (ys : List Action) × (view (split_run split_start xs) ≡ run start ys)
unfolding split_start
serial-view xs h = steps-view (whole start) xs h

-- Where at each end a swap comes only once its end has sent what it had to: no schedule of `init`,
-- `close` (at either end, or at both at once), arrivals and sends makes an end reject an inline
-- message: no read loop ends by an error.
pub serial_never_rejects :
    (xs : List Step) → IsSerial split_start xs → NoError (split_run split_start xs).ends
serial_never_rejects xs h =
    let (ys, e) = serial-view xs h in
    let (c, s) = never_rejects ys in
    ((λ p. c (sym (ap (λ z. z.client_end) e) ∙ p)), (λ p. s (sym (ap (λ z. z.server_end) e) ∙ p)))

-- Nothing is under way, and nothing is still to be sent.
abbrev pub IsSilent : Split → Type 0
IsSilent s = (s.ends.up ≡ []) × (s.ends.down ≡ []) × ClientClear s × ServerClear s
