-- ===== src/Transfer/Reading.antt =====
-- dial.go and conn.go: what one end writes, as the reading loop of a dialer takes it.
use go_raknet.Prelude.{
  ℕ, ◌≡◌, refl, ◌∙◌, ap, sym, subst, List, [], ◌∷◌, ◌++◌, Bool, true, arith, length, concat, map,
  Result, ok, All,
}
use go_raknet.Congestion.Controller.{Controller}
use go_raknet.Conn.{Conn}
use go_raknet.Session.{Session}
use go_raknet.Session.Receiving.{receive, client_read, client_listen}
use go_raknet.Transfer.Datagrams.{Keeps}
use go_raknet.Transfer.Splits.{AllSome, IsIgnored}
use go_raknet.Transfer.Contents.{receive_all, receive_all_one, InSync}
use go_raknet.Transfer.Sent.{IsReady}
use go_raknet.Transfer.Streams.{AllSendable, write_each, write_each-Arrives}

module _ {C H : Type 0} (control : Controller C) (handle : H → List ℕ → ℕ → H × Result Bool)
    (settle : ℕ → Session C H → Session C H) (now : ℕ) where
  client_listen-next :
      (s : Session C H) (read : Result (List ℕ)) (reads : List (ℕ × Result (List ℕ)))
      → (client_read control handle settle now s read).1 ≡ ok true
      → client_listen control handle settle s ((now, read) ∷ reads)
        ≡ client_listen control handle settle (client_read control handle settle now s read).0 reads
  unfolding client_listen
  client_listen-next s read reads e = rw (client_listen, e) refl

  -- `clientListen` takes datagrams that are not empty as they come.
  client_listen-receive_all :
      (s : Session C H) (ds : List (List ℕ))
      → AllSome ds
      → (receive_all control handle settle now s ds).1 ≡ ok tt
      → client_listen control handle settle s (map (λ d. (now, ok d)) ds)
        ≡ ((receive_all control handle settle now s ds).0, ok true)
  unfolding client_listen client_read receive_all
  client_listen-receive_all s [] some_each e = refl
  client_listen-receive_all s ([] ∷ ds) some_each e = absurd (omega (arith, some_each.0))
  client_listen-receive_all s ((x ∷ d) ∷ ds) some_each e =
      let first : (receive control handle settle now s (x ∷ d)).1 ≡ ok tt = ground (arith, e) in
      let one = receive_all_one control handle settle now s (x ∷ d) ds first in
      let rest =
        client_listen-receive_all (receive control handle settle now s (x ∷ d)).0 ds some_each.1
          (sym (ap (λ q. q.1) one) ∙ e) in
      let read : client_read control handle settle now s (ok (x ∷ d))
          ≡ ((receive control handle settle now s (x ∷ d)).0, ok true) =
        ground (arith, first) in
      client_listen-next s (ok (x ∷ d)) (map (λ d. (now, ok d)) ds) (ap (λ q. q.1) read)
      ∙ ap (λ q. client_listen control handle settle q.0 (map (λ d. (now, ok d)) ds)) read
      ∙ rest
      ∙ ap (λ q. (q.0, ok true)) (sym one)

  -- Contents, each not empty and of at most 512 fragments, which one end writes one after the other while
  -- it is open, has nothing waiting, and has the budget and the counters for them, reach the reader of the
  -- other end. The writes return the number of all bytes. The datagrams they hand to the socket, read by the
  -- loop of a dialer that had taken all earlier ones and whose handler leaves these contents alone and does
  -- not touch the receiving half, put exactly these contents, whole and in the order of the writes, behind
  -- the packets that wait for the reader. The loop goes on, in step with the writer again.
  pub stream_arrives :
      (c : Conn C) (s : Session C H) (bs : List (List ℕ))
      → Keeps control handle settle now s.receiver.handler
      → IsReady c (length bs) (length (concat bs))
      → AllSendable c.mtu bs
      → InSync control handle settle now s.receiver c.seq c.order_index []
      → All (IsIgnored handle now s.receiver.handler) bs
      → let q = write_each control now c bs 0 in
        (q.1 ≡ ok (length (concat bs)))
        × ((ds : List (List ℕ)) × (q.0.out ≡ c.out ++ ds)
            × let t = client_listen control handle settle s (map (λ d. (now, ok d)) ds) in
              (t.1 ≡ ok true)
              × (t.0.receiver.packets ≡ s.receiver.packets ++ bs)
              × InSync control handle settle now t.0.receiver q.0.seq q.0.order_index [])
  stream_arrives c s bs keeps ready sendable sync ignored =
      let a =
        write_each-Arrives control handle settle now c s bs 0 keeps ready sendable sync ignored in
      let e = client_listen-receive_all s a.datagrams a.some_each a.taken in
      let t = client_listen control handle settle s (map (λ d. (now, ok d)) a.datagrams) in
      (
        a.returned ∙ ap ok (omega arith),
        (
          a.datagrams,
          a.out_after,
          (
            ap (λ x. x.1) e,
            ap (λ x. x.0.receiver.packets) e ∙ a.handed_on,
            subst
                (λ x.
                  InSync control handle settle now x.0.receiver
                    (write_each control now c bs 0).0.seq
                    (write_each control now c bs 0).0.order_index [])
                (sym e) a.in_sync,
          ),
        ),
      )
