-- ===== src/Registry/Echo.antt =====
-- The table of handlers, and the echo service from bytes to bytes.
use gotu.Base.{
  ◌+◌, ◌<◌, ◌≡◌, refl, sym, ap, ◌∙◌, Bool, true, false, Option, none, some, [], ◌∷◌, ◌++◌, ℤ, pos,
  negsuc, ◌==◌, length, arith, Error, eof, short_read, no_handler, IsInt32, if◌then◌else◌, inl, inr,
  ==_refl, append-nil, Option-cases, subst, lt→ltb, ap₂, suc, true_ne_false,
}
use gotu.Wire.{Bytes, ok, err, put_int32, get_int32, read_fixed}
use gotu.Wire.Laws.{get_int32-put_int32, length-put_int32}
use gotu.Net.Handler.{handled}
use gotu.Msg.{Header, PackMsgArgs, pack_msg, parse_msg_warp, header_sizeof, header_of}
use gotu.Msg.RoundTrip.{parse_msg_warp-pack_msg, length-pack_msg, IsPackable}
use gotu.Registry.{
  same_cmd, HandleFunc, Handlers, handler_of, register, on_msg, handle_warp, marshal, unmarshal,
  cmd_echo, send_msg, echo, echo_handlers,
}

same_cmd_refl : (c : ℤ) → same_cmd c c ≡ true
same_cmd_refl (pos n) = ground (arith, ==_refl n)
same_cmd_refl (negsuc n) = ground (arith, ==_refl (suc n))

or_else : {A : Type 0} → A → Option A → A
or_else a none = a
or_else a (some b) = b

is_none : {A : Type 0} → Option A → Bool
is_none none = true
is_none (some a) = false

register-new :
    {S : Type 0} (cmd : ℤ) (fn : HandleFunc S) (handlers : Handlers S)
    → handler_of cmd handlers ≡ none
    → register cmd fn handlers ≡ some ((cmd, fn) ∷ handlers)
unfolding register
register-new cmd fn handlers e = rw (e, register)

register-old :
    {S : Type 0} (cmd : ℤ) (fn old : HandleFunc S) (handlers : Handlers S)
    → handler_of cmd handlers ≡ some old
    → register cmd fn handlers ≡ none
unfolding register
register-old cmd fn old handlers e = rw (e, register)

-- Registering a command that the table does not have makes it the command's handler and leaves the
-- other commands as they are; registering it once more panics.
register-handler_of :
    {S : Type 0} (cmd other : ℤ) (fn again : HandleFunc S) (handlers handlers' : Handlers S)
    → register cmd fn handlers ≡ some handlers'
    → same_cmd cmd other ≡ false
    → (handler_of cmd handlers ≡ none)
      × (handler_of cmd handlers' ≡ some fn)
      × (register cmd again handlers' ≡ none)
      × (handler_of other handlers' ≡ handler_of other handlers)
unfolding or_else is_none
register-handler_of cmd other fn again handlers handlers' h ne =
    elim (Option-cases (handler_of cmd handlers)) [
      | inl e ↦
          let new : (cmd, fn) ∷ handlers ≡ handlers' =
            ap (or_else handlers) (sym (register-new cmd fn handlers e) ∙ h) in
          subst
            (λ t.
              (handler_of cmd handlers ≡ none)
              × (handler_of cmd t ≡ some fn)
              × (register cmd again t ≡ none)
              × (handler_of other t ≡ handler_of other handlers))
            new
            (
              e,
              rw (same_cmd_refl cmd) refl,
              register-old cmd again fn ((cmd, fn) ∷ handlers) (rw (same_cmd_refl cmd) refl),
              rw ne refl,
            )
      | inr (old, e) ↦
          absurd (true_ne_false (ap is_none (sym (register-old cmd fn old handlers e) ∙ h)))
    ]

length-marshal : (num : ℤ) → length (marshal num) ≡ 4
unfolding marshal
length-marshal num = length-put_int32 num

unmarshal-marshal : (num : ℤ) → IsInt32 num → unmarshal (marshal num) ≡ ok num
unfolding unmarshal marshal read_fixed
unmarshal-marshal num h =
    rw (length-put_int32 num)
      (ap ok (ap get_int32 (sym (append-nil (put_int32 num))) ∙ get_int32-put_int32 num [] h))

module _ {S : Type 0} (send : S → Bytes → S × Option Error) (s : S) where
  -- A packed echo request at the head of the bytes is answered with one packed message that carries
  -- the same number and the sequence number 0, whatever the request's was, and is consumed exactly.
  pub echo_served :
      (seq flag num : ℤ) (rest : Bytes)
      → IsInt32 seq
      → IsInt32 flag
      → IsInt32 num
      → parse_msg_warp (on_msg (echo_handlers send)) s (
          pack_msg (record { seq = seq; cmd = cmd_echo; flag = flag; payload = marshal num })
          ++ rest)
        ≡ handled
            (send s (
              pack_msg
                (record { seq = pos 0; cmd = cmd_echo; flag = pos 0; payload = marshal num }))).0
            20
            none
  unfolding on_msg echo send_msg
  echo_served seq flag num rest hs hf hn =
      let arg : PackMsgArgs = record {
        seq = seq;
        cmd = cmd_echo;
        flag = flag;
        payload = marshal num;
      } in
      parse_msg_warp-pack_msg (on_msg (echo_handlers send)) s arg rest
        (hs, (omega arith, omega arith), hf, omega (arith, length-marshal num))
      ∙ ap₂ (λ r n. handled r.0 n r.1)
          (ap (λ u. handle_warp (λ p. u) (echo send) s (marshal num)) (unmarshal-marshal num hn))
          (length-pack_msg arg ∙ ap (λ n. header_sizeof + n) (length-marshal num))

  on_msg-no_handler :
      (header : Header) (payload : Bytes)
      → same_cmd cmd_echo header.cmd ≡ false
      → on_msg (echo_handlers send) s header payload ≡ (s, some (no_handler header.cmd))
  unfolding on_msg
  on_msg-no_handler header payload h = rw (h, on_msg)

  -- A packed message of a command that the table does not have, at the head of the bytes, is consumed
  -- exactly and refused with an error that names its command, and nothing is sent.
  pub unknown_command :
      (arg : PackMsgArgs) (rest : Bytes)
      → IsPackable arg
      → same_cmd cmd_echo arg.cmd ≡ false
      → parse_msg_warp (on_msg (echo_handlers send)) s (pack_msg arg ++ rest)
        ≡ handled s (header_sizeof + length arg.payload) (some (no_handler arg.cmd))
  unknown_command arg rest v ne =
      parse_msg_warp-pack_msg (on_msg (echo_handlers send)) s arg rest v
      ∙ ap₂ (λ r n. handled r.0 n r.1) (on_msg-no_handler (header_of arg) arg.payload ne)
          (length-pack_msg arg)

  -- An echo request with fewer than four bytes is refused with the error of binary.Read, io.EOF where
  -- there are none, and nothing is sent.
  on_msg-short :
      (header : Header) (payload : Bytes)
      → header.cmd ≡ cmd_echo
      → length payload < 4
      → on_msg (echo_handlers send) s header payload
        ≡ (s, some (if length payload == 0 then eof else short_read))
  unfolding on_msg unmarshal read_fixed
  on_msg-short header payload h k =
      ap (λ c. on_msg (echo_handlers send) s (record header { cmd = c }) payload) h
      ∙ ap
          (λ b.
            handle_warp
              (λ p. if b then err (if length p == 0 then eof else short_read) else ok (get_int32 p))
              (echo send) s payload)
          (lt→ltb (length payload) 4 k)
