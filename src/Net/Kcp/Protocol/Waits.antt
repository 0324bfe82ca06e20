-- ===== src/Net/Kcp/Protocol/Waits.antt =====
-- The waits in `init` and `close` of kcp_mux.go, each for its channel or for its timer.
use gotu.Base.{
  ℕ, ◌-◌, ◌≡◌, refl, Bool, true, false, ◌||◌, Option, none, some, List, Error, mux_init_timeout,
  ◌==◌, if◌then◌else◌, arith, ◌≢◌, ap, sym, ◌∙◌, Bool-cases, inl, inr, true_ne_false, subst,
}
use gotu.Net.Kcp.Mux.{Kms, syn_sent, listen, syn_rcvd, kms_code, Mux}
use gotu.Net.Kcp.Protocol.{ReadEnd, eof_end, System, Action, start, run}
use gotu.Net.Kcp.Protocol.Stages.{Stage, idle, phase, system_of}
use gotu.Net.Kcp.Protocol.Safety.{every}
use gotu.Net.Kcp.Protocol.Split.{Step, split_run, split_start}
use gotu.Net.Kcp.Protocol.Serial.{IsSerial, serial-view}

-- The end of `init`'s wait: `timer` is whether select takes the timer where both are ready; with an
-- empty channel the timer alone ends the wait.
unfoldable pub init_wait : Bool → Mux → Mux × Option Error
init_wait timer m =
    if (m.init_ch == 0) || timer
    then (m, some (mux_init_timeout (kms_code m.state)))
    else (record m { init_ch = m.init_ch - 1 }, none)

-- The end of `close`'s wait, and whether it was the channel that ended it.
unfoldable pub close_wait : Bool → Mux → Mux × Bool
close_wait timer m =
    if (m.close_ch == 0) || timer
    then (m, false)
    else (record m { close_ch = m.close_ch - 1 }, true)

-- The handshake is over at an end in this state.
abbrev pub is_open : Kms → Bool
is_open syn_sent = false
is_open listen = false
is_open syn_rcvd = false
is_open _ = true

abbrev is_eof : ReadEnd → Bool
is_eof eof_end = true
is_eof _ = false

abbrev one_if : Bool → ℕ
one_if true = 1
one_if false = 0

-- What the two waits of an end tell: `init` returns nil only once the handshake is over at this end,
-- and then does, unless its timer is first; `close` is woken only once the read loop has ended by
-- io.EOF, and then is, unless its timer is first.
pub record Tells (timer : Bool) (m : Mux) (end : ReadEnd) : Type 0 where
  pub init_nil : (init_wait timer m).1 ≡ none → is_open m.state ≡ true
  pub init_told : is_open m.state ≡ true → timer ≡ false → (init_wait timer m).1 ≡ none
  pub close_woken : (close_wait timer m).1 ≡ true → end ≡ eof_end
  pub close_told : end ≡ eof_end → timer ≡ false → (close_wait timer m).1 ≡ true

is_eof→eq : (e : ReadEnd) → is_eof e ≡ true → e ≡ eof_end
is_eof→eq eof_end h = refl
is_eof→eq _ h = absurd (true_ne_false (sym h))

module _ (timer : Bool) (m : Mux) where
  init_times_out : m.init_ch ≡ 0 → (init_wait timer m).1 ≢ none
  unfolding init_wait
  init_times_out z h = ground (arith, z, h)

  init_goes_on : m.init_ch ≡ 1 → timer ≡ false → (init_wait timer m).1 ≡ none
  unfolding init_wait
  init_goes_on z t = ground (arith, z, t)

  close_times_out : m.close_ch ≡ 0 → (close_wait timer m).1 ≡ false
  unfolding close_wait
  close_times_out z = ground (arith, z)

  close_goes_on : m.close_ch ≡ 1 → timer ≡ false → (close_wait timer m).1 ≡ true
  unfolding close_wait
  close_goes_on z t = ground (arith, z, t)

  counts-Tells :
      (end : ReadEnd)
      → m.init_ch ≡ one_if (is_open m.state)
      → m.close_ch ≡ one_if (is_eof end)
      → Tells timer m end
  counts-Tells end i c = record {
    init_nil = λ h. elim (Bool-cases (is_open m.state)) [
      | inl o ↦ o
      | inr o ↦ absurd (init_times_out (i ∙ ap one_if o) h)
    ];
    init_told = λ o t. init_goes_on (i ∙ ap one_if o) t;
    close_woken = λ h. elim (Bool-cases (is_eof end)) [
      | inl e ↦ is_eof→eq end e
      | inr e ↦ absurd (true_ne_false (sym h ∙ close_times_out (c ∙ ap one_if e)))
    ];
    close_told = λ e t. close_goes_on (c ∙ ap (λ x. one_if (is_eof x)) e) t;
  }

abbrev IsCounted : System → Type 0
IsCounted s =
    (s.client.init_ch ≡ one_if (is_open s.client.state))
    × (s.client.close_ch ≡ one_if (is_eof s.client_end))
    × (s.server.init_ch ≡ one_if (is_open s.server.state))
    × (s.server.close_ch ≡ one_if (is_eof s.server_end))

stage-IsCounted : (stage : Stage) (f a b : Bool) → IsCounted (system_of (phase stage f a b))
stage-IsCounted idle f a b = (refl, refl, refl, refl)
stage-IsCounted _ f a b = (refl, refl, refl, refl)

waits_tell :
    (timer : Bool) (xs : List Action)
    → Tells timer (run start xs).client (run start xs).client_end
      × Tells timer (run start xs).server (run start xs).server_end
waits_tell timer xs =
    let (ci, cc', si, sc) = every IsCounted stage-IsCounted xs in
    (
      counts-Tells timer (run start xs).client (run start xs).client_end ci cc',
      counts-Tells timer (run start xs).server (run start xs).server_end si sc,
    )

-- Where at each end a swap comes only once its end has sent what it had to, and a value for a channel
-- counts from the swap: after any schedule, at either end, where the wait of `init` ends without an
-- error the handshake is over at this end, and once it is over the wait ends so unless the timer is
-- taken; where the wait of `close` ends by its channel the read loop has ended by io.EOF, and once it
-- has the wait ends so unless the timer is taken.
pub serial_waits_tell :
    (timer : Bool) (xs : List Step)
    → IsSerial split_start xs
    → let s = (split_run split_start xs).ends in
      Tells timer s.client s.client_end × Tells timer s.server s.server_end
serial_waits_tell timer xs h =
    let (ys, e) = serial-view xs h in
    let (c, s) = waits_tell timer ys in
    (
      subst (λ z. Tells timer z.client z.client_end) (sym e) c,
      subst (λ z. Tells timer z.server z.server_end) (sym e) s,
    )
