-- ===== src/Msg/Stream.antt =====
-- Messages over a stream socket: ParseMsgWarp as the handler of the read loop.
use gotu.Base.{
  length, ◌≡◌, arith, Option, List, [], ◌++◌, map, concat, All, Error, ap, ◌∙◌, subst, sym, pos,
}
use gotu.Wire.{Bytes}
use gotu.Net.Handler.{handled, IsStable}
use gotu.Net.Stream.{Reader, read_loop}
use gotu.Net.Stream.Chunks.{loop_view, chunks, payloads}
use gotu.Net.Stream.Frames.{IsPartial, IsFramed, deliver, nothing-IsPartial}
use gotu.Net.Stream.Frames.Arrive.{read_loop-frames}
use gotu.Msg.{Header, parse_msg_warp, PackMsgArgs, header_of, pack_msg}
use gotu.Msg.Parse.{parse_bounds, parse_zero, parse-append, parse_crash}
use gotu.Msg.RoundTrip.{IsPackable, length-pack_msg, parse_msg_warp-pack_msg, parse_msg_warp-prefix}

-- A proper prefix of a message.
abbrev pub IsPart : Bytes → Type 0
IsPart part = IsPartial pack_msg IsPackable part

abbrev pub no_payload : PackMsgArgs
no_payload = record { seq = pos 0; cmd = pos 0; flag = pos 0; payload = [] }

-- Nothing is a proper prefix of a message.
pub nothing-IsPart : IsPart []
nothing-IsPart =
    nothing-IsPartial pack_msg IsPackable no_payload (omega arith)
      (omega (arith, length-pack_msg no_payload))

module _ {ℓ} {S : Type ℓ} (fn : S → Header → Bytes → S × Option Error) where
  -- The handler is given a message as it was packed.
  abbrev pub hand_over : S → PackMsgArgs → S × Option Error
  hand_over s m = fn s (header_of m) m.payload

  -- ParseMsgWarp gives the read loops what they rely on.
  pub parse_msg_warp-IsStable : IsStable (parse_msg_warp fn)
  parse_msg_warp-IsStable = record {
    bounds = parse_bounds fn;
    idle = parse_zero fn;
    extend = parse-append fn;
    crash = parse_crash fn;
  }

  -- Packed messages are frames of ParseMsgWarp, in any state of the application.
  pub parse_msg_warp-IsFramed :
      IsFramed (parse_msg_warp fn) pack_msg hand_over (λ s. Unit) IsPackable IsPart
  parse_msg_warp-IsFramed = record {
    size = λ m v. omega (arith, length-pack_msg m);
    whole = λ s m rest g v e.
        parse_msg_warp-pack_msg fn s m rest v
        ∙ ap (handled (hand_over s m).0 (length (pack_msg m))) e;
    fails = λ s m rest x g v e. (
      length (pack_msg m),
      parse_msg_warp-pack_msg fn s m rest v
          ∙ ap (handled (hand_over s m).0 (length (pack_msg m))) e,
    );
    keeps = λ s m g v. tt;
    waits = λ s part g p. parse_msg_warp-prefix fn s p.message part p.rest p.fits p.joined p.proper;
  }

  -- The read loop of a fresh connection, over any reads that together give packed messages and a
  -- proper prefix of one more, hands each whole message to the handler once and in order, stops at
  -- the first error, and otherwise keeps the prefix.
  pub messages_arrive :
      (r : Reader S) (cs : List (Bytes × Bytes)) (ms : List PackMsgArgs) (part : Bytes)
      → r.read_caches ≡ []
      → All IsPackable ms
      → IsPart part
      → payloads cs ≡ concat (map pack_msg ms) ++ part
      → loop_view (read_loop (parse_msg_warp fn) r (chunks cs)) ≡ deliver hand_over part r.state ms
  messages_arrive r cs ms part fresh v p same =
      read_loop-frames parse_msg_warp-IsFramed cs r ms part tt
        (subst IsPart (sym fresh) nothing-IsPart) v p (ap (λ c. c ++ payloads cs) fresh ∙ same)
