-- ===== src/Cmd/Echoes.antt =====
-- The two ends' sends over a socket, and the server's answers.
use gotu.Base.{
  Bool, ◌≡◌, refl, sym, ap, ◌∙◌, ℤ, Option, none, some, List, [], ◌∷◌, ◌++◌, map, concat, All,
  Error, append_assoc, append-nil, Option-cases, inl, inr, subst,
}
use gotu.Wire.{Bytes}
use gotu.Net.Stream.{Reader, kept, read_loop}
use gotu.Net.Stream.Chunks.{loop_view, chunks, payloads}
use gotu.Net.Stream.Frames.{deliver}
use gotu.Msg.{parse_msg_warp, PackMsgArgs, pack_msg}
use gotu.Msg.RoundTrip.{IsPackable}
use gotu.Msg.Stream.{IsPart, hand_over, messages_arrive}
use gotu.Cmd.{only_payload, tcp_svr_on_msg, client_rounds}
use gotu.Net.Write.{send_msg}
use gotu.Net.Write.Cases.{send_msg-cases}
use gotu.Net.Write.Coalesce.{Writer, sent}
use gotu.Net.Handler.{write_chan_limit}

-- What the commands rely on of a socket: `accepted` are the messages for which SendMsg returned nil.
pub record IsSocket {ℓ} {Sock : Type ℓ} (send_msg : Sock → Bytes → Sock × Option Error)
    (accepted : Sock → List Bytes) : Type ℓ where
  pub took :
      (s : Sock) (m : Bytes)
      → (send_msg s m).1 ≡ none
      → accepted (send_msg s m).0 ≡ accepted s ++ (m ∷ [])
  pub refused :
      (s : Sock) (m : Bytes) (e : Error)
      → (send_msg s m).1 ≡ some e
      → accepted (send_msg s m).0 ≡ accepted s

-- The message with a payload.
abbrev pub pong : Bytes → Bytes
pong p = pack_msg (only_payload p)

abbrev pub where_nil {ℓ} : {A : Type ℓ} → Option Error → A → List A → List A
where_nil none p ps = p ∷ ps
where_nil (some e) p ps = ps

module _ {ℓ} {Sock : Type ℓ} (send_msg : Sock → Bytes → Sock × Option Error) where
  -- The socket after a message for each payload.
  abbrev pub sends : Sock → List Bytes → Sock
  sends s [] = s
  sends s (p ∷ ps) = sends (send_msg s (pong p)).0 ps

  -- Those of the things to send for which SendMsg returned nil; `payload` prints them.
  abbrev pub answered {κ} : {A : Type κ} → (A → Bytes) → Sock → List A → List A
  answered payload s [] = []
  answered payload s (x ∷ xs) =
      where_nil (send_msg s (pong (payload x))).1 x
        (answered payload (send_msg s (pong (payload x))).0 xs)

  deliver-sends :
      (ms : List PackMsgArgs) (s : Sock) (part : Bytes)
      → deliver (hand_over (tcp_svr_on_msg send_msg)) part s ms
        ≡ kept (sends s (map (λ m. m.payload) ms), part)
  unfolding deliver tcp_svr_on_msg
  deliver-sends [] s part = refl
  deliver-sends (m ∷ ms) s part = deliver-sends ms (send_msg s (pong m.payload)).0 part

  -- Whatever SendMsg answers, the server reads on: over any reads that give packed messages and a part
  -- of one more, it sends the payload of each back once, in order.
  pub server_answers :
      (r : Reader Sock) (cs : List (Bytes × Bytes)) (ms : List PackMsgArgs) (part : Bytes)
      → r.read_caches ≡ []
      → All IsPackable ms
      → IsPart part
      → payloads cs ≡ concat (map pack_msg ms) ++ part
      → loop_view (read_loop (parse_msg_warp (tcp_svr_on_msg send_msg)) r (chunks cs))
        ≡ kept (sends r.state (map (λ m. m.payload) ms), part)
  server_answers r cs ms part fresh v p same =
      messages_arrive (tcp_svr_on_msg send_msg) r cs ms part fresh v p same
      ∙ deliver-sends ms r.state part

  pub accepted-sends {κ} :
      {A : Type κ} (payload : A → Bytes) (accepted : Sock → List Bytes) (xs : List A) (s : Sock)
      → IsSocket send_msg accepted
      → accepted (sends s (map payload xs))
        ≡ accepted s ++ map (λ x. pong (payload x)) (answered payload s xs)
  accepted-sends payload accepted [] s law = sym (append-nil (accepted s))
  accepted-sends payload accepted (x ∷ xs) s law =
      let m : Bytes = pong (payload x) in
      let s' : Sock = (send_msg s m).0 in
      let rest : List Bytes = map (λ y. pong (payload y)) (answered payload s' xs) in
      let ih : accepted (sends s' (map payload xs)) ≡ accepted s' ++ rest =
        accepted-sends payload accepted xs s' law in
      let goal : Option Error → Type 0 = λ o.
        accepted (sends s' (map payload xs))
        ≡ accepted s ++ map (λ y. pong (payload y)) (where_nil o x (answered payload s' xs)) in
      elim (Option-cases (send_msg s m).1) [
        | inl e ↦
            subst goal (sym e)
              (ih ∙ ap (λ t. t ++ rest) (law.took s m e) ∙ append_assoc (accepted s) (m ∷ []) rest)
        | inr (error, e) ↦ subst goal (sym e) (ih ∙ ap (λ t. t ++ rest) (law.refused s m error e))
      ]

  -- The client's rounds are these sends.
  pub client_rounds-sends :
      (sprintf : ℤ → Bytes) (ts : List ℤ) (s : Sock)
      → client_rounds send_msg sprintf s ts ≡ sends s (map sprintf ts)
  unfolding client_rounds
  client_rounds-sends sprintf [] s = refl
  client_rounds-sends sprintf (t ∷ ts) s =
      client_rounds-sends sprintf ts (send_msg s (pong (sprintf t))).0

-- SendMsg of a TCP socket, whose write loop may have run before.
abbrev pub writer_send : Bool → Writer → Bytes → Writer × Option Error
writer_send pick w m = let r = send_msg write_chan_limit pick m w.chan in (sent w m r, r.1)

pub writer_send-IsSocket : (pick : Bool) → IsSocket (writer_send pick) (λ w. w.accepted)
writer_send-IsSocket pick = record {
  took = λ w m e. elim (send_msg-cases write_chan_limit pick m w.chan) [
    | inl (h, room) ↦ ap (λ r. (sent w m r).accepted) h
    | inr (x, h) ↦ cc (sym e ∙ ap (λ r. r.1) h)
  ];
  refused = λ w m x e. elim (send_msg-cases write_chan_limit pick m w.chan) [
    | inl (h, room) ↦ cc (sym e ∙ ap (λ r. r.1) h)
    | inr (y, h) ↦ ap (λ r. (sent w m r).accepted) h
  ];
}
