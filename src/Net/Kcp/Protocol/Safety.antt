-- ===== src/Net/Kcp/Protocol/Safety.antt =====
-- What holds of a KCP connection after every schedule of calls and arrivals whose swap and sends are
-- one step.
use gotu.Base.{◌≤◌, ◌≡◌, ◌≢◌, refl, Bool, true, false, ◌||◌, List, [], ◌∷◌, arith}
use gotu.Net.Kcp.Mux.{Kms, syn_sent, listen, syn_rcvd, established}
use gotu.Net.Kcp.Protocol.{eof_end, error_end, System, Action, deliver_up, deliver_down, start, run}
use gotu.Net.Kcp.Protocol.Stages.{
  Stage, idle, syn, rcvd, half, opened, Phase, phase, system_of, next_phase,
}
use gotu.Net.Kcp.Protocol.Refinement.{begin, run_phases, run-system_of, run-start}

-- What every stage has, every schedule has.
pub every :
    (P : System → Type 0)
    → ((stage : Stage) (f a b : Bool) → P (system_of (phase stage f a b)))
    → (xs : List Action) → P (run start xs)
every P h xs =
    let p : Phase = run_phases begin xs in
    rw (run-start xs) (h p.stage p.server_init p.client_close p.server_close)

abbrev pub NoError : System → Type 0
NoError s = (s.client_end ≢ error_end) × (s.server_end ≢ error_end)

stage-NoError : (stage : Stage) (f a b : Bool) → NoError (system_of (phase stage f a b))
stage-NoError idle f a b = ((λ e. cc), (λ e. cc))
stage-NoError _ f a b = ((λ e. cc), (λ e. cc))

-- No schedule of `init`, `close` (at either end, or at both at once) and arrivals, a swap and its
-- sends being one step, makes an end reject an inline message: no read loop ends by an error.
pub never_rejects : (xs : List Action) → NoError (run start xs)
never_rejects = every NoError stage-NoError

abbrev pub FitsChannels : System → Type 0
FitsChannels s =
    (s.client.init_ch ≤ 1)
    × (s.client.close_ch ≤ 1)
    × (s.server.init_ch ≤ 1)
    × (s.server.close_ch ≤ 1)

stage-FitsChannels : (stage : Stage) (f a b : Bool) → FitsChannels (system_of (phase stage f a b))
stage-FitsChannels idle f a b = omega arith
stage-FitsChannels _ f a b = omega arith

-- Each end sends to `initCh` and to `closeCh`, which have room for one value, at most once, so its
-- read loop never blocks there.
pub channels_fit : (xs : List Action) → FitsChannels (run start xs)
channels_fit = every FitsChannels stage-FitsChannels

-- Where no inline message is under way: nothing was sent yet, the connection stands at both ends, or
-- both read loops have ended by io.EOF.
pub data IsQuiet (s : System) : Type 0 where
  unopened : s.client.state ≡ syn_sent → s.server.state ≡ listen → IsQuiet s
  standing : s.client.state ≡ established → s.server.state ≡ established → IsQuiet s
  finished : s.client_end ≡ eof_end → s.server_end ≡ eof_end → IsQuiet s

stage-IsQuiet :
    (stage : Stage) (f a b : Bool)
    → (system_of (phase stage f a b)).up ≡ []
    → (system_of (phase stage f a b)).down ≡ []
    → IsQuiet (system_of (phase stage f a b))
stage-IsQuiet idle f a b _ _ = unopened refl refl
stage-IsQuiet opened f a b _ _ = standing refl refl
stage-IsQuiet _ f a b p q = first_of (search finished, cc)

-- In whatever order things happened, a swap and its sends being one step: when no message is under
-- way, the two ends agree.
pub no_half_open :
    (xs : List Action) → (run start xs).up ≡ [] → (run start xs).down ≡ [] → IsQuiet (run start xs)
no_half_open = every (λ s. s.up ≡ [] → s.down ≡ [] → IsQuiet s) stage-IsQuiet

abbrev pub is_closing : Kms → Bool
is_closing syn_sent = false
is_closing listen = false
is_closing syn_rcvd = false
is_closing established = false
is_closing _ = true

abbrev pub rounds : List Action
rounds =
    deliver_up ∷ deliver_down ∷ deliver_up ∷ deliver_down ∷ deliver_up ∷ deliver_down ∷ deliver_up
    ∷ deliver_down ∷ deliver_up ∷ deliver_down ∷ deliver_up ∷ deliver_down ∷ []

abbrev pub IsFinished : System → Type 0
IsFinished s = (s.client_end ≡ eof_end) × (s.server_end ≡ eof_end) × (s.up ≡ []) × (s.down ≡ [])

abbrev pub IsClosing : System → Type 0
IsClosing s = (is_closing s.client.state || is_closing s.server.state) ≡ true

stage-IsFinished :
    (stage : Stage) (f a b : Bool)
    → IsClosing (system_of (phase stage f a b))
    → IsFinished (system_of (run_phases (phase stage f a b) rounds))
stage-IsFinished idle f a b h = cc
stage-IsFinished _ f a b h = ground arith

-- Once either end has begun to close, at whatever point and whatever the other end does before, six
-- rounds of arrivals bring both read loops to their end by io.EOF with nothing left under way; a swap and
-- its sends are one step.
pub close_completes :
    (xs : List Action) → IsClosing (run start xs) → IsFinished (run (run start xs) rounds)
close_completes = every (λ s. IsClosing s → IsFinished (run s rounds)) finish
  where
    finish :
        (stage : Stage) (f a b : Bool)
        → IsClosing (system_of (phase stage f a b))
        → IsFinished (run (system_of (phase stage f a b)) rounds)
    finish stage f a b h =
        rw (run-system_of (phase stage f a b) rounds) (stage-IsFinished stage f a b h)

-- While neither end has called `close`, the connection is being opened or stands.
abbrev is_opening : Stage → Bool
is_opening idle = true
is_opening syn = true
is_opening rcvd = true
is_opening half = true
is_opening opened = true
is_opening _ = false

abbrev Unclosed : Phase → Type 0
Unclosed p = p.client_close ≡ false → p.server_close ≡ false → is_opening p.stage ≡ true

next-Unclosed :
    (stage : Stage) (f a b : Bool) (x : Action)
    → Unclosed (phase stage f a b)
    → Unclosed (next_phase (phase stage f a b) x)
next-Unclosed idle f a b x h = ground arith
next-Unclosed _ f a b x h = ground arith

run_phases-Unclosed : (p : Phase) (xs : List Action) → Unclosed p → Unclosed (run_phases p xs)
run_phases-Unclosed p [] h = h
run_phases-Unclosed p (x ∷ xs) h =
    run_phases-Unclosed (next_phase p x) xs
      (next-Unclosed p.stage p.server_init p.client_close p.server_close x h)

abbrev pub IsOpen : System → Type 0
IsOpen s =
    (s.client.state ≡ established)
    × (s.server.state ≡ established)
    × (s.client.init_ch ≡ 1)
    × (s.server.init_ch ≡ 1)
    × (s.up ≡ [])
    × (s.down ≡ [])

stage-IsOpen :
    (stage : Stage) (f a b : Bool)
    → (system_of (phase stage f a b)).client.init_flag ≡ true
    → is_opening stage ≡ true
    → IsOpen (system_of (run_phases (phase stage f a b) rounds))
stage-IsOpen idle f a b h k = cc
stage-IsOpen _ f a b h k = ground arith

-- Where a swap and its sends are one step: once the client has called `init`, and while neither end has
-- called `close`, six rounds of arrivals establish the connection at both ends and release both calls of `init` (each has its value in
-- `initCh`).
pub handshake_completes :
    (xs : List Action)
    → (run start xs).client.init_flag ≡ true
    → (run start xs).client.close_once ≡ false
    → (run start xs).server.close_once ≡ false
    → IsOpen (run (run start xs) rounds)
handshake_completes xs =
    let p : Phase = run_phases begin xs in
    rw (run-start xs) (λ h c s. rw (run-system_of p rounds) (
      stage-IsOpen p.stage p.server_init p.client_close p.server_close h
        (run_phases-Unclosed begin xs (λ _ _. refl) c s)))
