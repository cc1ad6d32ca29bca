-- ===== src/Transfer/Sent.antt =====
-- conn.go: the fragments that `write` cuts a content into, and what it leaves of the budget and the counters.
use go_raknet.Prelude.{
  ℕ, zero, suc, ◌+◌, ◌-◌, ◌*◌, ◌%◌, ◌^◌, ◌<◌, ◌≤◌, ◌≡◌, ap, subst, List, [], ◌∷◌, false, ltb,
  if◌then◌else◌, arith, length, concat, Result, All, Bool-cases, inl, inr,
}
use go_raknet.Binary.{next24}
use go_raknet.Packet.Split.{IsSplit, Fits, fragment_size, split_content-IsSplit}
use go_raknet.Congestion.Controller.{Controller}
use go_raknet.Conn.{Conn, effective_mtu, min_mtu_size, max_mtu_size}
use go_raknet.Conn.Sending.{write_bytes}
use go_raknet.Receiver.{max_split_count}
use go_raknet.Transfer.Splits.{AllSome}
use go_raknet.Transfer.Sending.{IsWritten, write_loop-IsWritten}

-- A content that is not empty and takes at most 512 fragments, the most that the other end puts together.
pub record IsSendable (mtu : ℕ) (b : List ℕ) : Type 0 where
  pub some_bytes : 0 < length b
  pub few_fragments : length b ≤ max_split_count * (mtu - 52)

-- An open connection with nothing waiting and room for `n` contents of `bytes` bytes: budget, and
-- counters that do not overflow.
pub record IsReady {C : Type 0} (c : Conn C) (n bytes : ℕ) : Type 0 where
  pub open_still : c.socket_closed ≡ false
  pub nothing_waits : c.pending ≡ []
  pub mtu_from : min_mtu_size ≤ c.mtu
  pub mtu_to : c.mtu ≤ max_mtu_size
  pub seq_fits : c.seq + n * max_split_count < 2 ^ 24
  pub message_fits : c.message_index + n * max_split_count < 2 ^ 24
  pub order_fits : c.order_index + n < 2 ^ 24
  pub budget : bytes + n * (28 * max_split_count) < c.send_budget

Fits-AllSome : (size : ℕ) (fs : List (List ℕ)) → All (Fits size) fs → AllSome fs
Fits-AllSome size [] h = tt
Fits-AllSome size (f ∷ fs) h = (h.0.0, Fits-AllSome size fs h.1)

Fits-short :
    (size : ℕ) (fs : List (List ℕ))
    → size < 2 ^ 13
    → All (Fits size) fs
    → All (λ f. length f < 2 ^ 13) fs
Fits-short size [] small h = tt
Fits-short size (f ∷ fs) small h = (omega (arith, h.0.1), Fits-short size fs small h.1)

mul-cancel : (n k size : ℕ) → n * size < k * size + size → n ≤ k
mul-cancel zero k size h = omega arith
mul-cancel (suc n) zero size h = absurd (omega arith)
mul-cancel (suc n) (suc k) size h = omega (arith, mul-cancel n k size (omega (arith, h)))

fragments_few :
    (b : List ℕ) (mtu : ℕ) (fs : List (List ℕ))
    → 24 < mtu
    → length b ≤ max_split_count * (mtu - 24)
    → IsSplit b (fragment_size b mtu) fs
    → length fs ≤ max_split_count
fragments_few b mtu fs lo short s = elim (Bool-cases (ltb (mtu - 14) (length b))) [
  | inl e ↦
      let t : IsSplit b (mtu - 24) fs =
        subst (λ k. IsSplit b (if k then mtu - 24 else mtu - 14) fs) e s in
      mul-cancel (length fs) max_split_count (mtu - 24) (omega (arith, t.least, short))
  | inr e ↦
      let t : IsSplit b (mtu - 14) fs =
        subst (λ k. IsSplit b (if k then mtu - 24 else mtu - 14) fs) e s in
      let one : length b ≤ mtu - 14 = ground (arith, e) in
      omega (arith, mul-cancel (length fs) 1 (mtu - 14) (omega (arith, t.least, one)))
]

-- The connection once the order index of a content of `count` fragments is taken.
abbrev pub started : {C : Type 0} → Conn C → ℕ → Conn C
started c count = record c {
  order_index = next24 c.order_index;
  split_id = if ltb 1 count then (c.split_id + 1) % 2 ^ 32 else c.split_id;
}

module _ {C : Type 0} (control : Controller C) (now : ℕ) where
  -- The fragments of `b`, and what a write of it sends and leaves.
  pub record IsCut (c : Conn C) (b : List ℕ) (q : Conn C × Result ℕ) : Type 0 where
    pub pieces : List (List ℕ)
    pub whole : concat pieces ≡ b
    pub some_each : AllSome pieces
    pub short : All (λ f. length f < 2 ^ 13) pieces
    pub few : length pieces ≤ max_split_count
    pub written :
        IsWritten control now
          (started c (length pieces))
          c.order_index
          (length pieces)
          (c.split_id % 2 ^ 16)
          0
          pieces
          0
          q

  pub write_bytes-IsCut :
      (c : Conn C) (b : List ℕ) (n bytes : ℕ)
      → IsReady c (suc n) (length b + bytes)
      → IsSendable c.mtu b
      → IsCut c b (write_bytes control now c b)
  unfolding write_bytes effective_mtu
  write_bytes-IsCut c b n bytes ready sendable =
      let size = (c.mtu + 2 ^ 16 - 28) % 2 ^ 16 in
      let at : size ≡ c.mtu - 28 = omega (arith, ready.mtu_from, ready.mtu_to) in
      let (fs, e, s) =
        split_content-IsSplit b size (omega (arith, ready.mtu_from, ready.mtu_to)) (omega arith)
          sendable.some_bytes in
      let few =
        fragments_few b size fs (omega (arith, ready.mtu_from, ready.mtu_to))
          (omega (arith, sendable.few_fragments, at)) s in
      let small : fragment_size b size < 2 ^ 13 = ground (arith, at, ready.mtu_to) in
      rw (write_bytes, e)
        (record {
          pieces = fs;
          whole = s.whole;
          some_each = Fits-AllSome (fragment_size b size) fs s.fit;
          short = Fits-short (fragment_size b size) fs small s.fit;
          few = few;
          written =
              write_loop-IsWritten control now c.order_index (length fs) (c.split_id % 2 ^ 16) 0 fs
                (started c (length fs)) 0 (omega (arith, ap length s.whole, few, ready.budget))
                ready.open_still ready.nothing_waits (omega (arith, few, ready.seq_fits))
                (omega (arith, few, ready.message_fits));
        })

  -- There is still room for the rest after the first write.
  pub write_bytes-IsReady :
      (c : Conn C) (b : List ℕ) (n bytes : ℕ) (q : Conn C × Result ℕ)
      → IsReady c (suc n) (length b + bytes)
      → IsCut c b q
      → IsReady q.0 n bytes
  write_bytes-IsReady c b n bytes q ready cut =
      let sent = cut.written.sent in
      record {
        open_still = sent.open_after;
        nothing_waits = sent.nothing_waits;
        mtu_from = omega (arith, sent.same_mtu, ready.mtu_from);
        mtu_to = omega (arith, sent.same_mtu, ready.mtu_to);
        seq_fits = omega (arith, sent.seq_after, cut.few, ready.seq_fits);
        message_fits = omega (arith, sent.message_after, cut.few, ready.message_fits);
        order_fits = omega (arith, sent.same_order, ready.order_fits);
        budget = omega (arith, sent.budget_after, ap length cut.whole, cut.few, ready.budget);
      }
