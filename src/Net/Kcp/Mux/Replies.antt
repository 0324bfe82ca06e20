-- ===== src/Net/Kcp/Mux/Replies.antt =====
-- What every answer of inlineProtocol keeps and consumes.
use gotu.Base.{◌≡◌, refl, none, List, ◌∷◌}
use gotu.Net.Kcp.Mux.{
  Kms, syn_sent, listen, syn_rcvd, established, fin_wait1, close_wait, fin_wait2, closing,
  time_wait, last_ack, Mux, Reply, dispatch, inline_protocol,
}

-- Whether the built-in protocol is on does not change, and an answer without an error consumes the one
-- byte of the header and the four of the state.
pub record IsReply (m : Mux) (r : Reply) : Type 0 where
  pub same_inline : r.mux.is_inline ≡ m.is_inline
  pub five : r.error ≡ none → r.count ≡ 5

dispatch-IsReply : (k cur : Kms) (m : Mux) → IsReply m (dispatch k cur m)
unfolding dispatch
dispatch-IsReply syn_sent listen m = record { same_inline = refl; five = λ e. refl }
dispatch-IsReply syn_rcvd syn_sent m = record { same_inline = refl; five = λ e. refl }
dispatch-IsReply established syn_rcvd m = record { same_inline = refl; five = λ e. refl }
dispatch-IsReply fin_wait1 established m = record { same_inline = refl; five = λ e. refl }
dispatch-IsReply time_wait last_ack m = record { same_inline = refl; five = λ e. refl }
dispatch-IsReply close_wait fin_wait1 m = record { same_inline = refl; five = λ e. refl }
dispatch-IsReply last_ack fin_wait2 m = record { same_inline = refl; five = λ e. refl }
dispatch-IsReply fin_wait1 fin_wait1 m = record { same_inline = refl; five = λ e. refl }
dispatch-IsReply closing closing m = record { same_inline = refl; five = λ e. refl }
dispatch-IsReply time_wait time_wait m = record { same_inline = refl; five = λ e. refl }
dispatch-IsReply _ _ m = record { same_inline = refl; five = λ e. cc }

pub inline_protocol-IsReply : (k : Kms) (m : Mux) → IsReply m (inline_protocol m k)
unfolding inline_protocol
inline_protocol-IsReply k m = dispatch-IsReply k m.state m

-- An arrival is answered by two messages at most.
abbrev pub Short : List Kms → Type 0
Short (a ∷ b ∷ c ∷ ks) = ⊥
Short _ = Unit

dispatch-Short : (k cur : Kms) (m : Mux) → Short (dispatch k cur m).sends
unfolding dispatch
dispatch-Short syn_sent listen m = tt
dispatch-Short syn_rcvd syn_sent m = tt
dispatch-Short established syn_rcvd m = tt
dispatch-Short fin_wait1 established m = tt
dispatch-Short time_wait last_ack m = tt
dispatch-Short close_wait fin_wait1 m = tt
dispatch-Short last_ack fin_wait2 m = tt
dispatch-Short fin_wait1 fin_wait1 m = tt
dispatch-Short closing closing m = tt
dispatch-Short time_wait time_wait m = tt
dispatch-Short _ _ m = tt

pub inline_protocol-Short : (k : Kms) (m : Mux) → Short (inline_protocol m k).sends
unfolding inline_protocol
inline_protocol-Short k m = dispatch-Short k m.state m
