-- ===== src/Receiver/Rounds.antt =====
-- conn.go: the loop over the packets of a datagram ends.
use go_raknet.Prelude.{
  ℕ, zero, suc, ◌<◌, ◌≤◌, ◌≡◌, refl, List, [], ◌∷◌, Bool, if◌then◌else◌, arith, length, drop,
  length-drop, Result, ok, err, panic,
}
use go_raknet.Packet.{Packet, read, read_content}
use go_raknet.Receiver.{Receiver, receive_packet, receive_split_packet}
use go_raknet.Receiver.Datagrams.{packets_loop}

-- A packet that is read takes at least one byte.
read-takes : (pk : Packet) (b : List ℕ) (r : Packet × ℕ) → read pk b ≡ ok r → 0 < r.1
unfolding read read_content
read-takes pk b r e = ground arith

module _ {H : Type 0} (handle : H → List ℕ → ℕ → H × Result Bool) (now : ℕ) where
  -- As many rounds as there are bytes are enough for the loop over a datagram: more rounds change
  -- nothing.
  pub packets_loop_rounds :
      (n m : ℕ) (r : Receiver H) (pk : Packet) (b : List ℕ)
      → length b ≤ n
      → length b ≤ m
      → packets_loop handle now n r pk b ≡ packets_loop handle now m r pk b
  unfolding packets_loop
  packets_loop_rounds n m r pk [] h k = refl
  packets_loop_rounds zero m r pk (x ∷ b) h k = absurd (omega arith)
  packets_loop_rounds (suc n) zero r pk (x ∷ b) h k = absurd (omega arith)
  packets_loop_rounds (suc n) (suc m) r pk (x ∷ b) h k =
      go (λ r' pk' rest. packets_loop_rounds n m r' pk' rest) (read pk (x ∷ b)) refl
    where
      Ih : Type 0
      Ih =
          (r' : Receiver H) (pk' : Packet) (rest : List ℕ)
          → length rest ≤ n
          → length rest ≤ m
          → packets_loop handle now n r' pk' rest ≡ packets_loop handle now m r' pk' rest

      next : Packet → Receiver H × Result (Unit {0})
      next pk' =
          if pk'.split
          then receive_split_packet handle now r pk'
          else receive_packet handle now r pk'

      after :
          Ih
          → (pk' : Packet) (rest : List ℕ) (q : Receiver H × Result (Unit {0})) → length rest ≤ n
          → length rest ≤ m
          → ◌≡◌ {A = Receiver H × Result Packet}
              (elim q.1 [
                | ok _ ↦ packets_loop handle now n q.0 pk' rest
                | err e ↦ (q.0, err e)
                | panic ↦ (q.0, panic)
              ])
              (elim q.1 [
                | ok _ ↦ packets_loop handle now m q.0 pk' rest
                | err e ↦ (q.0, err e)
                | panic ↦ (q.0, panic)
              ])
      after ih pk' rest (r', ok u) hn hm = ih r' pk' rest hn hm
      after ih pk' rest (r', err e) hn hm = refl
      after ih pk' rest (r', panic) hn hm = refl

      go :
          Ih
          → (q : Result (Packet × ℕ)) → read pk (x ∷ b) ≡ q
          → packets_loop handle now (suc n) r pk (x ∷ b)
            ≡ packets_loop handle now (suc m) r pk (x ∷ b)
      go ih (err e) f = rw (packets_loop, f) refl
      go ih panic f = rw (packets_loop, f) refl
      go ih (ok (pk', taken)) f =
          let some_taken = read-takes pk (x ∷ b) (pk', taken) f in
          let short = length-drop taken (x ∷ b) in
          rw (packets_loop, f)
            (after ih pk' (drop taken (x ∷ b)) (next pk') (omega (arith, some_taken, short))
              (omega (arith, some_taken, short)))
