-- ===== src/Net/Kcp/ReadLoop.antt =====
-- pkg/xnet/kcp_socket.go: the read loop, which hands its cache to the mux. Its inner loop is that of
-- tcp_socket.go; it looks at closeFlag after each Read, and logs no end that the protocol brings.
use gotu.Base.{◌≡◌, refl, Bool, true, false, Option, none, some, List, [], ◌∷◌, Error, eof}
use gotu.Wire.{Bytes}
use gotu.Net.Handler.{OnHandlerOnce}
use gotu.Net.Stream.{
  Reader, Outcome, kept, failed, crashed, out_of_fuel, turn, Loop, reading, ended, died, read_loop,
}
use gotu.Net.Stream.Chunks.{chunks}

-- A deadline that cannot be set; an error of Read, none where it is that of a closed connection, which
-- is not logged; data, with whether closeFlag says by then that the socket is closed.
pub data KcpRead : Type 0 where
  deadline_failed : Error → KcpRead
  read_failed : Option Error → KcpRead
  data_read : Bool → (buf bytes : Bytes) → KcpRead

-- The error that the loop keeps for the log.
abbrev pub logged : Error → Option Error
logged eof = none
logged e = some e

-- Data that comes after the close is dropped.
unfoldable pub kcp_read_loop {ℓ} :
    {S : Type ℓ} → OnHandlerOnce S → Reader S → List KcpRead → Loop (Reader S)
unfolding turn
kcp_read_loop on_msg r [] = reading r
kcp_read_loop on_msg r (deadline_failed e ∷ reads) = ended r (some e)
kcp_read_loop on_msg r (read_failed e ∷ reads) = ended r e
kcp_read_loop on_msg r (data_read true buf bytes ∷ reads) = ended r none
kcp_read_loop on_msg r (data_read false buf bytes ∷ reads) = elim (turn on_msg r buf bytes) [
  | kept r' ↦ kcp_read_loop on_msg r' reads
  | failed r' e ↦ ended r' (logged e)
  | crashed ↦ died
  | out_of_fuel ↦ died
]

-- Reads of an open socket.
abbrev pub open_reads : List (Bytes × Bytes) → List KcpRead
open_reads [] = []
open_reads ((buf, bytes) ∷ cs) = data_read false buf bytes ∷ open_reads cs

-- A loop that ends by io.EOF logs nothing.
abbrev pub unlogged {ℓ} : {R : Type ℓ} → Loop R → Loop R
unlogged (ended r (some e)) = ended r (logged e)
unlogged (ended r none) = ended r none
unlogged (reading r) = reading r
unlogged died = died

-- While the socket is open the loop does what that of a TCP socket does, but for the log.
pub kcp_read_loop-open {ℓ} :
    {S : Type ℓ} (on_msg : OnHandlerOnce S) (cs : List (Bytes × Bytes)) (r : Reader S)
    → kcp_read_loop on_msg r (open_reads cs) ≡ unlogged (read_loop on_msg r (chunks cs))
unfolding kcp_read_loop read_loop
kcp_read_loop-open on_msg [] r = refl
kcp_read_loop-open on_msg ((buf, bytes) ∷ cs) r =
    after (λ r'. kcp_read_loop-open on_msg cs r') (turn on_msg r buf bytes)
  where
    after :
        ((r' : Reader _)
          → kcp_read_loop on_msg r' (open_reads cs) ≡ unlogged (read_loop on_msg r' (chunks cs)))
        → (o : Outcome (Reader _))
        → (elim o [
          | kept r' ↦ kcp_read_loop on_msg r' (open_reads cs)
          | failed r' e ↦ ended r' (logged e)
          | crashed ↦ died
          | out_of_fuel ↦ died
        ])
          ≡ unlogged (elim o [
            | kept r' ↦ read_loop on_msg r' (chunks cs)
            | failed r' e ↦ ended r' (some e)
            | crashed ↦ died
            | out_of_fuel ↦ died
          ])
    after ih (kept r') = ih r'
    after ih (failed r' e) = refl
    after ih crashed = refl
    after ih out_of_fuel = refl
