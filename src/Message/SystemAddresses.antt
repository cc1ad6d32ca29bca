-- ===== src/Message/SystemAddresses.antt =====
-- The 20 system addresses of CONNECTION_REQUEST_ACCEPTED and NEW_INCOMING_CONNECTION: the loops of
-- message/connection_request_accepted.go and message/new_incoming_connection.go.
use go_raknet.Prelude.{
  ℕ, zero, suc, ◌-◌, ◌<◌, ◌≤◌, ◌≡◌, refl, ◌∙◌, List, [], ◌∷◌, ◌++◌, arith, ◌==◌, ltb, if◌then◌else◌,
  length, drop, All, map, replicate, Result, ok, err, unexpected_eof, ◌>>=◌, slice_from,
  length-append, append_assoc, inl, inr,
}
use go_raknet.Message.{Returns}
use go_raknet.Message.Addr.{
  AddrPort, invalid, v4, v6, IsAddr, is_valid, addr, addr_size, put_addr, sizeof_addr, arrived,
  addr-put_addr, addr_size-put_addr, addr_or, rest-put_addr, sizeof_addr-pos, length-put_addr,
}

abbrev pub system_address_count : ℕ
system_address_count = 20

-- `validSizeOf` and the loop of the writer pass over addresses that are not valid.
unfoldable pub put_valid : List AddrPort → List ℕ
unfolding is_valid
put_valid [] = []
put_valid (a ∷ addrs) = (if is_valid a then put_addr a else []) ++ put_valid addrs

unfoldable pub put_all : List AddrPort → List ℕ
put_all [] = []
put_all (a ∷ addrs) = put_addr a ++ put_all addrs

-- The loop of the reader over `data[offset:]`, for the addresses that are left: those read, with
-- the zero value for the rest, and what follows them.
pub read_addresses : ℕ → List ℕ → Result (List AddrPort × List ℕ)
read_addresses zero b = ok ([], b)
read_addresses (suc count) b =
    if length b == 16
    then ok (replicate (suc count) invalid, b)
    else if ltb (length b) (addr_size b)
    then err unexpected_eof
    else (do
      (a, n) ← addr b
      rest ← slice_from b n
      (addrs, left) ← read_addresses count rest
      ok (a ∷ addrs, left))

read_addresses_step :
    (count : ℕ) (b : List ℕ) (a : AddrPort) (n : ℕ) (rest : List ℕ)
    → 16 < length b
    → addr_size b ≡ n
    → addr b ≡ ok (a, n)
    → n ≤ length b
    → drop n b ≡ rest
    → read_addresses (suc count) b ≡ (read_addresses count rest >>= λ r. ok (a ∷ r.0, r.1))
unfolding read_addresses
read_addresses_step count b a n rest long size e fits d = rw (size, e, d) (ground arith)

-- Addresses that all arrive as they are written, at most as many as the reader looks for, and 16
-- bytes behind them.
pub read_addresses-put_all :
    (count : ℕ) (addrs : List AddrPort) (tail : List ℕ)
    → length addrs ≤ count
    → All IsAddr addrs
    → length tail ≡ 16
    → read_addresses count (put_all addrs ++ tail)
      ≡ ok (map arrived addrs ++ replicate (count - length addrs) invalid, tail)
unfolding read_addresses put_all
read_addresses-put_all zero [] tail l v t = ground arith
read_addresses-put_all zero (a ∷ addrs) tail l v t = absurd (omega arith)
read_addresses-put_all (suc count) [] tail l v t = ground arith
read_addresses-put_all (suc count) (a ∷ addrs) tail l v t =
    let rest = put_all addrs ++ tail in
    let left : suc count - suc (length addrs) ≡ count - length addrs = omega arith in
    let size = length-append (put_addr a) rest in
    let behind = length-append (put_all addrs) tail in
    let own = length-put_addr a v.0 in
    rw (left, append_assoc (put_addr a) (put_all addrs) tail)
      (read_addresses_step count (put_addr a ++ rest) (arrived a) (sizeof_addr a) rest
          (omega (arith, size, behind, own, t, sizeof_addr-pos a)) (addr_size-put_addr a rest)
          (addr-put_addr a rest v.0) (omega (arith, size, own)) (rest-put_addr a rest v.0)
        ∙ rw (read_addresses-put_all count addrs tail (omega arith) v.1 t) refl)

pub valid_of : List AddrPort → List AddrPort
valid_of [] = []
valid_of (a ∷ addrs) = if is_valid a then a ∷ valid_of addrs else valid_of addrs

pub put_valid_lem : (addrs : List AddrPort) → put_valid addrs ≡ put_all (valid_of addrs)
unfolding put_valid put_all valid_of
put_valid_lem [] = refl
put_valid_lem (a ∷ addrs) = ground (arith, put_valid_lem addrs)

pub valid_of-All : (addrs : List AddrPort) → All IsAddr addrs → All IsAddr (valid_of addrs)
unfolding valid_of
valid_of-All [] v = tt
valid_of-All (a ∷ addrs) v = ground (arith, valid_of-All addrs v.1)

pub length-valid_of : (addrs : List AddrPort) → length (valid_of addrs) ≤ length addrs
unfolding valid_of
length-valid_of [] = omega arith
length-valid_of (a ∷ addrs) = ground (arith, length-valid_of addrs)

-- Valid addresses arrive as they are.
pub arrived-valid_of : (addrs : List AddrPort) → map arrived (valid_of addrs) ≡ valid_of addrs
unfolding valid_of arrived is_valid
arrived-valid_of [] = refl
arrived-valid_of (invalid ∷ addrs) = arrived-valid_of addrs
arrived-valid_of (v4 a b c d port ∷ addrs) = rw (arrived-valid_of addrs)
arrived-valid_of (v6 ip port ∷ addrs) = rw (arrived-valid_of addrs)

pub read_addresses-Returns : (count : ℕ) (b : List ℕ) → Returns (read_addresses count b)
unfolding read_addresses
read_addresses-Returns zero b = tt
read_addresses-Returns (suc count) b = elim (addr_or b) [
  | inl short ↦ ground arith
  | inr (a, r) ↦ ground (arith, r, read_addresses-Returns count (drop (addr_size b) b))
]
