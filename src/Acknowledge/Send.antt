-- ===== src/Acknowledge/Send.antt =====
-- acknowledge.go and `Conn.sendAcknowledgement` of conn.go: sequence numbers are acknowledged in
-- datagrams of limited size, and read back from them.
use go_raknet.Prelude.{
  ℕ, zero, suc, ◌+◌, ◌-◌, ◌%◌, ◌^◌, ◌≤◌, ◌<◌, ◌≡◌, refl, ap, ◌∙◌, List, [], ◌∷◌, ◌++◌, Bool, false,
  arith, if◌then◌else◌, length, drop, take, All, Option, none, some, Result, ok, err, closed, ◌>>=◌,
  bit_or, length-append, length-take, append-nil, take-append-drop, length-drop,
}
use go_raknet.Binary.{Is24, be_bytes, be_value_2, be_uint}
use go_raknet.Packet.{bit_flag_datagram}
use go_raknet.Acknowledge.{
  max_acknowledgement_packets, sort, write_record, Writing, write_packets, write_loop, write, read,
  read_records,
}
use go_raknet.Acknowledge.Sorting.{
  IsSorted, sort-IsSorted, sort_sorted, drop-IsSorted, sort-All, drop-All, length-sort,
}
use go_raknet.Acknowledge.Records.{
  Decodes-nil, range, range_self, record_bytes, write_record-bytes, length-record_bytes-le,
  IsWriting, Written, write_loop-Written,
}

-- The datagrams sent, and what the call returns: nothing where the rounds are used up. The write
-- number `k` on the socket fails if the socket is closed by then.
unfoldable pub send_acknowledgement :
    ℕ → (ℕ → Bool) → ℕ → List ℕ → ℕ → ℕ → List (List ℕ) × Option (Result (Unit {0}))
send_acknowledgement zero is_closed k packets bitflag mtu = ([], none)
send_acknowledgement (suc rounds) is_closed k [] bitflag mtu = ([], some (ok tt))
send_acknowledgement (suc rounds) is_closed k (p ∷ ps) bitflag mtu =
    let (buf, n) = write (p ∷ ps) (bit_or bitflag bit_flag_datagram ∷ []) mtu in
    let rest = send_acknowledgement rounds is_closed (k + 1) (drop n (sort (p ∷ ps))) bitflag mtu in
    if is_closed k then ([], some (err closed)) else (buf ∷ rest.0, rest.1)

-- What the other end reads from the datagrams, behind the byte of their flags.
unfoldable pub read_all : List (List ℕ) → Result (List ℕ)
read_all [] = ok []
read_all (d ∷ ds) = do packets ← read (drop 1 d); more ← read_all ds; ok (packets ++ more)

read-records :
    (count : ℕ) (body : List ℕ)
    → count < 2 ^ 16
    → read (be_bytes 2 count ++ body) ≡ read_records count body []
unfolding read be_uint
read-records count body h = ground (arith, be_value_2 count body h)

start : ℕ → Writing
start q = record { body = []; first = q; last = q; records = 0; n = 1 }

start-IsWriting : (used limit q : ℕ) → Is24 q → used ≤ limit + 6 → IsWriting used limit [] (start q)
unfolding start
start-IsWriting used limit q h le = record {
  ordered = omega arith;
  fits = h;
  room = omega arith;
  closed = Decodes-nil;
}

-- The first datagram takes some packets from the front, at least one.
record IsFirst (mtu : ℕ) (sorted : List ℕ) (w : List ℕ × ℕ) : Type 0 where
  some_taken : 0 < w.1
  within : w.1 ≤ length sorted
  size : length w.0 ≤ mtu + 6
  reads : read (drop 1 w.0) ≡ ok (take w.1 sorted)

Written-IsFirst :
    (mtu q flags : ℕ) (qs : List ℕ) (r : Writing) (m : ℕ)
    → suc (length qs) ≤ max_acknowledgement_packets
    → Written 3 (mtu - 7) qs [] (start q) r m
    → 10 < mtu
    → IsFirst mtu
        (q ∷ qs)
        (flags ∷ (be_bytes 2 ((r.records + 1) % 2 ^ 16) ++ write_record r.body r.first r.last), r.n)
unfolding start read_records
Written-IsFirst mtu q flags qs r m few t hm = record {
  some_taken = omega (arith, t.count);
  within = omega (arith, t.count, t.some_left);
  size = rw (write_record-bytes r.body r.first r.last) (
      omega (
        arith,
        t.size,
        length-append r.body (record_bytes r.first r.last),
        length-record_bytes-le r.first r.last,
      ));
  reads =
      rw (write_record-bytes r.body r.first r.last, all_taken, plain)
        (read-records (r.records + 1 + 0) (r.body ++ record_bytes r.first r.last) small ∙ decoded);
}
  where
    all_taken : r.n ≡ suc m
    all_taken = omega (arith, t.count)

    small : r.records + 1 + 0 < 2 ^ 16
    small = omega (arith, t.records_le, t.some_left)

    plain : (r.records + 1) % 2 ^ 16 ≡ r.records + 1 + 0
    plain = omega (arith, small)

    fits : length (range q q ++ take m qs) ≤ max_acknowledgement_packets
    fits = rw (range_self q q refl) (omega (arith, length-take m qs))

    decoded :
        read_records (r.records + 1 + 0) (r.body ++ record_bytes r.first r.last) []
        ≡ ok (q ∷ take m qs)
    decoded = rw (append-nil, range_self q q refl) at (t.decodes 0 [] [] (omega (arith, fits)))

packets_from :
    (q : ℕ) (qs : List ℕ) (mtu : ℕ)
    → 10 < mtu
    → mtu < 2 ^ 16
    → write_packets 3 ((mtu + 2 ^ 16 - 7) % 2 ^ 16) (q ∷ qs) ≡ write_loop 3 (mtu - 7) qs (start q)
unfolding write_packets start
packets_from q qs mtu lo hi =
    let limit : (mtu + 2 ^ 16 - 7) % 2 ^ 16 ≡ mtu - 7 = omega arith in rw limit (ground arith)

started_few : (q : ℕ) (qs : List ℕ) → length qs < 2 ^ 16 → (start q).records + length qs < 2 ^ 16
unfolding start
started_few q qs h = omega arith

write-IsFirst :
    (mtu flags p : ℕ) (ps : List ℕ)
    → All Is24 (p ∷ ps)
    → length (p ∷ ps) ≤ max_acknowledgement_packets
    → 10 < mtu
    → mtu < 2 ^ 16
    → IsFirst mtu (sort (p ∷ ps)) (write (p ∷ ps) (flags ∷ []) mtu)
unfolding write
write-IsFirst mtu flags p ps small few lo hi =
    go (sort (p ∷ ps)) (sort-All Is24 (p ∷ ps) small) (length-sort (p ∷ ps))
  where
    go :
        (sorted : List ℕ)
        → All Is24 sorted
        → length sorted ≡ length (p ∷ ps)
        → let w = write_packets 3 ((mtu + 2 ^ 16 - 7) % 2 ^ 16) sorted in
          IsFirst mtu sorted (
            flags ∷ (be_bytes 2 ((w.records + 1) % 2 ^ 16) ++ write_record w.body w.first w.last),
            w.n,
          )
    go [] s e = absurd (omega arith)
    go (q ∷ qs) s e =
        let (m, t) =
          write_loop-Written 3 (mtu - 7) qs [] (start q)
            (start-IsWriting 3 (mtu - 7) q s.0 (omega arith)) s.1
            (started_few q qs (omega arith)) in
        rw (packets_from q qs mtu lo hi) (
          Written-IsFirst mtu q flags qs (write_loop 3 (mtu - 7) qs (start q)) m (omega arith) t lo)

-- A datagram within six bytes of the MTU.
abbrev pub NearMtu : ℕ → List ℕ → Type 0
NearMtu mtu d = length d ≤ mtu + 6

-- Sequence numbers, no more than a reader takes at once, are acknowledged in full on an open socket:
-- the call ends without an error, and the other end reads from its datagrams every number, in
-- ascending order and as often as it was passed. No datagram exceeds the MTU by more than 6 bytes.
pub send_acknowledgement_total :
    (packets : List ℕ) (k bitflag mtu rounds : ℕ)
    → All Is24 packets
    → length packets ≤ max_acknowledgement_packets
    → length packets < rounds
    → 10 < mtu
    → mtu < 2 ^ 16
    → let r = send_acknowledgement rounds (λ _. false) k packets bitflag mtu in
      (r.1 ≡ some (ok tt)) × (read_all r.0 ≡ ok (sort packets)) × All (NearMtu mtu) r.0
unfolding send_acknowledgement read_all
send_acknowledgement_total packets k bitflag mtu zero small few enough lo hi = absurd (omega arith)
send_acknowledgement_total [] k bitflag mtu (suc rounds) small few enough lo hi =
    (refl, unfold sort in refl, tt)
send_acknowledgement_total (p ∷ ps) k bitflag mtu (suc rounds) small few enough lo hi =
    let flags = bit_or bitflag bit_flag_datagram in
    let sorted = sort (p ∷ ps) in
    let w = write (p ∷ ps) (flags ∷ []) mtu in
    let f = write-IsFirst mtu flags p ps small few lo hi in
    let left = length-drop w.1 sorted in
    let (done, reads, sizes) =
      send_acknowledgement_total (drop w.1 sorted) (k + 1) bitflag mtu rounds
        (drop-All Is24 w.1 sorted (sort-All Is24 (p ∷ ps) small))
        (omega (arith, left, length-sort (p ∷ ps)))
        (omega (arith, left, length-sort (p ∷ ps), f.some_taken)) lo hi in
    (done, rw (f.reads, reads) (all_read w.1 sorted (sort-IsSorted (p ∷ ps))), (f.size, sizes))
  where
    all_read :
        (n : ℕ) (sorted : List ℕ)
        → IsSorted sorted
        → ◌≡◌ {A = Result (List ℕ)} (ok (take n sorted ++ sort (drop n sorted))) (ok sorted)
    all_read n sorted s =
        rw (sort_sorted (drop n sorted) (drop-IsSorted n sorted s))
          (ap ok (take-append-drop n sorted))
