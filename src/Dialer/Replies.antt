-- ===== src/Dialer/Replies.antt =====
-- dial.go: the dialing makes up for replies that are lost.
use go_raknet.Prelude.{
  ℕ, zero, suc, ◌<◌, ◌≤◌, ◌≡◌, refl, ◌∙◌, List, [], ◌∷◌, ◌++◌, arith, length, take, Option, some,
  ok,
}
use go_raknet.Message.{id_open_connection_reply_1, id_open_connection_reply_2}
use go_raknet.Message.OpenConnectionReply1
use go_raknet.Message.OpenConnectionReply1.{OpenConnectionReply1}
use go_raknet.Message.OpenConnectionReply2
use go_raknet.Message.OpenConnectionReply2.{OpenConnectionReply2}
use go_raknet.Dialer.{
  Read, received, timed_out, ConnState, Progress, returned, on_reply_1, on_reply_2, read_reply_1,
  discover_mtu, read_reply_2, open_loop, open_connection, is_reply_2_timeout, on_opened,
  on_discovered, dial, open_connection_request_2,
}

-- Rounds in which the reply to the second request is lost.
unfoldable pub lost_rounds : ℕ → List ℕ → List Read → List Read
lost_rounds zero b reads = reads
lost_rounds (suc n) b reads =
    received (id_open_connection_reply_1 ∷ b) ∷ timed_out ∷ lost_rounds n b reads

-- How a dialer ends that opened a connection with the MTU `mtu`.
pub record IsOpen (st : ConnState) (mtu : ℕ) (reads : List Read) (p : Option Progress)
    : Type 0 where
  pub last : ConnState
  pub ends : p ≡ some (returned last reads (ok tt))
  pub has_mtu : last.mtu ≡ mtu
  pub same_id : last.id ≡ st.id
  pub same_peer : last.raddr ≡ st.raddr
  pub still_open : last.closed_down ≡ st.closed_down

-- The state behind the first reply, and behind the second request.
abbrev pub found : OpenConnectionReply1 → ConnState → ConnState
found response st = record st {
  server_security = response.server_has_security;
  cookie = response.cookie;
  mtu = response.mtu;
}

abbrev pub asked : ConnState → ConnState
asked st = record st { sent = st.sent ++ (open_connection_request_2 st ∷ []) }

take_all : (n : ℕ) (xs : List ℕ) → length xs ≤ n → take n xs ≡ xs
take_all zero [] h = refl
take_all zero (x ∷ xs) h = absurd (omega (arith, h))
take_all (suc n) [] h = refl
take_all (suc n) (x ∷ xs) h = rw (take_all n xs (omega (arith, h))) refl

pub discover_mtu_reply :
    (b : List ℕ) (response : OpenConnectionReply1) (reads : List Read) (st : ConnState)
    → length b < 1492
    → OpenConnectionReply1.unmarshal b ≡ ok response
    → discover_mtu (received (id_open_connection_reply_1 ∷ b) ∷ reads) st
      ≡ returned (found response st) reads (ok tt)
unfolding discover_mtu read_reply_1 on_reply_1
discover_mtu_reply b response reads st h e = rw (take_all 1491 b (omega (arith, h)), e) refl

pub open_loop_reply :
    (b : List ℕ) (response : OpenConnectionReply2) (reads : List Read) (st : ConnState)
    → OpenConnectionReply2.unmarshal b ≡ ok response
    → open_loop (received (id_open_connection_reply_2 ∷ b) ∷ reads) st
      ≡ returned (record st { mtu = response.mtu }) reads (ok tt)
unfolding open_loop read_reply_2 on_reply_2
open_loop_reply b response reads st e = rw (e) refl

dial_lost :
    (n : ℕ) (b : List ℕ) (response : OpenConnectionReply1) (reads : List Read) (st : ConnState)
    → length b < 1492
    → OpenConnectionReply1.unmarshal b ≡ ok response
    → dial (suc n) (received (id_open_connection_reply_1 ∷ b) ∷ timed_out ∷ reads) st
      ≡ dial n reads (asked (found response st))
unfolding dial on_discovered on_opened open_connection open_loop is_reply_2_timeout
dial_lost n b response reads st h e =
    rw (discover_mtu_reply b response (timed_out ∷ reads) st h e) refl

dial_done :
    (n : ℕ) (b_1 b_2 : List ℕ) (reply_1 : OpenConnectionReply1) (reply_2 : OpenConnectionReply2)
    (reads : List Read) (st : ConnState)
    → length b_1 < 1492
    → OpenConnectionReply1.unmarshal b_1 ≡ ok reply_1
    → OpenConnectionReply2.unmarshal b_2 ≡ ok reply_2
    → let last_round =
        received (id_open_connection_reply_1 ∷ b_1)
        ∷ received (id_open_connection_reply_2 ∷ b_2)
        ∷ reads in
      dial (suc n) last_round st
      ≡ some (returned (record (asked (found reply_1 st)) { mtu = reply_2.mtu }) reads (ok tt))
unfolding dial on_discovered on_opened open_connection
dial_done n b_1 b_2 reply_1 reply_2 reads st h e_1 e_2 =
    let second = received (id_open_connection_reply_2 ∷ b_2) ∷ reads in
    rw
      (
        discover_mtu_reply b_1 reply_1 second st h e_1,
        open_loop_reply b_2 reply_2 reads (asked (found reply_1 st)) e_2,
      )
      refl

-- However often the reply to the second request is lost, after the first reply was read, one round in
-- which both replies arrive ends the dialing with the MTU of the second reply; the socket stays open.
pub dial_makes_up :
    (lost : ℕ) (b_1 b_2 : List ℕ) (reply_1 : OpenConnectionReply1) (reply_2 : OpenConnectionReply2)
    (reads : List Read) (st : ConnState)
    → length b_1 < 1492
    → OpenConnectionReply1.unmarshal b_1 ≡ ok reply_1
    → OpenConnectionReply2.unmarshal b_2 ≡ ok reply_2
    → let last_round =
        received (id_open_connection_reply_1 ∷ b_1)
        ∷ received (id_open_connection_reply_2 ∷ b_2)
        ∷ reads in
      IsOpen st reply_2.mtu reads (dial (suc lost) (lost_rounds lost b_1 last_round) st)
unfolding lost_rounds
dial_makes_up zero b_1 b_2 reply_1 reply_2 reads st h e_1 e_2 = record {
  last = record (asked (found reply_1 st)) { mtu = reply_2.mtu };
  ends = dial_done 0 b_1 b_2 reply_1 reply_2 reads st h e_1 e_2;
  has_mtu = refl;
  same_id = refl;
  same_peer = refl;
  still_open = refl;
}
dial_makes_up (suc lost) b_1 b_2 reply_1 reply_2 reads st h e_1 e_2 =
    let last_round =
      received (id_open_connection_reply_1 ∷ b_1)
      ∷ received (id_open_connection_reply_2 ∷ b_2)
      ∷ reads in
    let later = lost_rounds lost b_1 last_round in
    let i = dial_makes_up lost b_1 b_2 reply_1 reply_2 reads (asked (found reply_1 st)) h e_1 e_2 in
    record {
      last = i.last;
      ends = dial_lost (suc lost) b_1 reply_1 later st h e_1 ∙ i.ends;
      has_mtu = i.has_mtu;
      same_id = i.same_id;
      same_peer = i.same_peer;
      still_open = i.still_open;
    }
