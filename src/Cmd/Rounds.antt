-- ===== src/Cmd/Rounds.antt =====
-- The echo server and its client together: what is counted is what was answered.
use gotu.Base.{
  ℕ, ◌≡◌, sym, ap, ◌∙◌, ℤ, pos, IsInt64, Option, List, [], ◌∷◌, ◌++◌, map, concat, All, Error,
  arith, append-nil, Option-cases, inl, inr, subst,
}
use gotu.Wire.{Bytes}
use gotu.Net.Stream.{Reader, kept, read_loop}
use gotu.Net.Stream.Chunks.{loop_view, chunks, payloads}
use gotu.Net.Stream.Frames.{deliver}
use gotu.Msg.{parse_msg_warp, pack_msg}
use gotu.Msg.Stream.{nothing-IsPart, hand_over, messages_arrive}
use gotu.Cmd.{
  only_payload, tcp_svr_on_msg, TcpClientState, new_tcp_client_state, tcp_cli_on_msg, client_rounds,
}
use gotu.Cmd.Echoes.{
  IsSocket, pong, where_nil, sends, answered, server_answers, accepted-sends, client_rounds-sends,
}
use gotu.Cmd.Counts.{IsDecimal, FitsInt64, counted, deliver-counts, packable, pongs-are, stamps-are}

module _ {ℓ} {Sock : Type ℓ} {send_msg : Sock → Bytes → Sock × Option Error}
    {accepted : Sock → List Bytes} {sprintf : ℤ → Bytes} {atoi : Bytes → Option ℤ}
    (socket : IsSocket send_msg accepted) (decimal : IsDecimal sprintf atoi) where
  -- From a socket that accepted nothing before, the bytes of the accepted messages are frames.
  accepted_bytes :
      (ts : List ℤ) (s : Sock)
      → accepted s ≡ []
      → concat (accepted (sends send_msg s (map sprintf ts)))
        ≡ concat
            (map pack_msg (map (λ t. only_payload (sprintf t)) (answered send_msg sprintf s ts)))
          ++ []
  accepted_bytes ts s e =
      ap concat (
        accepted-sends send_msg sprintf accepted ts s socket
        ∙ ap (λ xs. xs ++ map (λ t. pong (sprintf t)) (answered send_msg sprintf s ts)) e
        ∙ pongs-are decimal (answered send_msg sprintf s ts))
      ∙ sym (append-nil _)

  All-answered :
      (ts : List ℤ) (s : Sock) → All IsInt64 ts → All IsInt64 (answered send_msg sprintf s ts)
  All-answered [] s v = tt
  All-answered (t ∷ ts) s (v, vs) = elim (Option-cases (send_msg s (pong (sprintf t))).1) [
    | inl e ↦
        subst
          (λ o.
            All IsInt64
              (where_nil o t (answered send_msg sprintf (send_msg s (pong (sprintf t))).0 ts)))
          (sym e) (v, All-answered ts (send_msg s (pong (sprintf t))).0 vs)
    | inr (x, e) ↦
        subst
          (λ o.
            All IsInt64
              (where_nil o t (answered send_msg sprintf (send_msg s (pong (sprintf t))).0 ts)))
          (sym e) (All-answered ts (send_msg s (pong (sprintf t))).0 vs)
  ]

  -- From sockets that have accepted nothing and readers with empty caches: the client sends the time in
  -- some rounds, each end reads what the other end's socket accepted, however the reads cut it, and the
  -- integers fit. Then the server has sent every time that reached it back, and the client has counted
  -- those replies that the server's socket accepted, modulo 2^32, with the exact sum of their delays.
  pub rounds_counted :
      (now : ℕ → ℤ) (ts : List ℤ) (client : Sock) (r : Reader Sock)
      (replies : Reader TcpClientState) (cs cs' : List (Bytes × Bytes))
      → All IsInt64 ts
      → accepted client ≡ []
      → payloads cs ≡ concat (accepted (client_rounds send_msg sprintf client ts))
      → r.read_caches ≡ []
      → accepted r.state ≡ []
      → payloads cs'
        ≡ concat
            (accepted (sends send_msg r.state (map sprintf (answered send_msg sprintf client ts))))
      → replies.read_caches ≡ []
      → replies.state ≡ new_tcp_client_state
      → FitsInt64 now 0
          (pos 0)
          (answered send_msg sprintf r.state (answered send_msg sprintf client ts))
      → (loop_view (read_loop (parse_msg_warp (tcp_svr_on_msg send_msg)) r (chunks cs))
          ≡ kept (sends send_msg r.state (map sprintf (answered send_msg sprintf client ts)), []))
        × (loop_view (read_loop (parse_msg_warp (tcp_cli_on_msg atoi now)) replies (chunks cs'))
            ≡ kept (
              counted now new_tcp_client_state
                  (answered send_msg sprintf r.state (answered send_msg sprintf client ts)),
              [],
            ))
  rounds_counted now ts client r replies cs cs' v none_yet sent fresh none_sent answers idle start
        fits =
      let got : List ℤ = answered send_msg sprintf client ts in
      let back : List ℤ = answered send_msg sprintf r.state got in
      let v' : All IsInt64 got = All-answered ts client v in
      (
        server_answers send_msg r cs (map (λ t. only_payload (sprintf t)) got) [] fresh
              (packable decimal got v') nothing-IsPart
              (sent
                ∙ ap (λ s. concat (accepted s)) (client_rounds-sends send_msg sprintf ts client)
                ∙ accepted_bytes ts client none_yet)
            ∙ ap (λ ps. kept (sends send_msg r.state ps, [])) (stamps-are decimal got),
        messages_arrive (tcp_cli_on_msg atoi now) replies cs'
              (map (λ t. only_payload (sprintf t)) back) [] idle
              (packable decimal back (All-answered got r.state v')) nothing-IsPart
              (answers ∙ accepted_bytes got r.state none_sent)
            ∙ ap
                (λ c.
                  deliver (hand_over (tcp_cli_on_msg atoi now)) [] c
                    (map (λ t. only_payload (sprintf t)) back))
                start
            ∙ deliver-counts decimal now back new_tcp_client_state (omega arith) (omega arith) fits,
      )
