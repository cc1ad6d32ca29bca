-- ===== src/Session/Endpoint.antt =====
-- handler.go and conn.go: an end whose handler is one of the two of handler.go. `Handler.Handshake` records
-- what the handler sends while it takes the packets of a datagram; here it is written to the connection,
-- in its order. A notification that it closes the connection comes from `closeImmediately` alone, which
-- writes it itself.
use go_raknet.Prelude.{
  ℕ, ◌≡◌, refl, ◌∙◌, ap, sym, List, [], ◌∷◌, Bool, false, ◌==◌, ◌||◌, if◌then◌else◌, arith,
}
use go_raknet.Packet.{reliability_unreliable}
use go_raknet.Message.{id_disconnect_notification}
use go_raknet.Congestion.Controller.{Controller}
use go_raknet.Receiver.{Receiver}
use go_raknet.Handler.Handshake.{Handshake}
use go_raknet.Session.{Session, unless_done, write, write_as, close_immediately, shut_down}

unfoldable pub is_notification : List ℕ → Bool
is_notification (id ∷ []) = id == id_disconnect_notification
is_notification b = false

unfoldable pub has_notification : List (List ℕ × ℕ) → Bool
has_notification [] = false
has_notification ((b, reliability) ∷ sent) = is_notification b || has_notification sent

module _ {C : Type 0} (control : Controller C) where
  -- `send`, `sendWithReliability` and `closeImmediately`; an error of a write is dropped here, and only a
  -- connection that is done or whose socket is closed gives one.
  unfoldable pub carry_out_one : ℕ → Session C Handshake → List ℕ → ℕ → Session C Handshake
  carry_out_one now s b reliability =
      if is_notification b
      then close_immediately control now s
      else if reliability == reliability_unreliable
      then (write_as control now s b reliability).0
      else (write control now s b).0

  unfoldable pub carry_out_all : ℕ → Session C Handshake → List (List ℕ × ℕ) → Session C Handshake
  carry_out_all now s [] = s
  carry_out_all now s ((b, reliability) ∷ sent) =
      carry_out_all now (carry_out_one now s b reliability) sent

  -- Everything that the handler has recorded.
  unfoldable pub carry_out : ℕ → Session C Handshake → Session C Handshake
  carry_out now s =
      let s' = carry_out_all now s s.receiver.handler.sent in
      record s' {
        receiver = record s'.receiver { handler = record s'.receiver.handler { sent = [] } };
      }

  -- What a step of the handler on the connection leaves.
  record IsStep (s s' : Session C Handshake) (ends : Bool) : Type 0 where
    same_receiver : s'.receiver ≡ s.receiver
    done_after : s'.done ≡ s.done || ends

  carry_out_one-IsStep :
      (now : ℕ) (s : Session C Handshake) (b : List ℕ) (reliability : ℕ)
      → IsStep s (carry_out_one now s b reliability) (is_notification b)
  unfolding carry_out_one close_immediately write write_as unless_done shut_down
  carry_out_one-IsStep now s b reliability = record {
    same_receiver = ground arith;
    done_after = ground arith;
  }

  carry_out_all-IsStep :
      (now : ℕ) (s : Session C Handshake) (sent : List (List ℕ × ℕ))
      → IsStep s (carry_out_all now s sent) (has_notification sent)
  unfolding carry_out_all has_notification
  carry_out_all-IsStep now s [] = record { same_receiver = refl; done_after = ground arith }
  carry_out_all-IsStep now s ((b, reliability) ∷ sent) =
      let one = carry_out_one-IsStep now s b reliability in
      let rest = carry_out_all-IsStep now (carry_out_one now s b reliability) sent in
      record {
        same_receiver = rest.same_receiver ∙ one.same_receiver;
        done_after = ground (arith, rest.done_after, one.done_after);
      }

  -- Carrying out what the handler recorded ends the connection exactly if it closed it, and changes the
  -- receiving half in nothing but the record.
  pub carry_out_ends :
      (now : ℕ) (s : Session C Handshake)
      → let s' = carry_out now s in
        (s'.done ≡ s.done || has_notification s.receiver.handler.sent)
        × (s'.receiver ≡ record s.receiver { handler = record s.receiver.handler { sent = [] } })
  unfolding carry_out
  carry_out_ends now s =
      let e = carry_out_all-IsStep now s s.receiver.handler.sent in
      (
        e.done_after,
        ap (λ (r : Receiver Handshake). record r { handler = record r.handler { sent = [] } })
            e.same_receiver,
      )

  -- With nothing recorded it leaves the receiving half as it is.
  pub carry_out_nothing :
      (now : ℕ) (s : Session C Handshake)
      → s.receiver.handler.sent ≡ []
      → (carry_out now s).receiver ≡ s.receiver
  carry_out_nothing now s e =
      (carry_out_ends now s).1
      ∙ ap (λ x. record s.receiver { handler = record s.receiver.handler { sent = x } }) (sym e)
