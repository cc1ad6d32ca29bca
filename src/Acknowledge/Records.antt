-- ===== src/Acknowledge/Records.antt =====
-- acknowledge.go: the records that `write` produces, as `read` takes them.
use go_raknet.Prelude.{
  ℕ, zero, suc, ◌+◌, ◌-◌, ◌%◌, ◌^◌, ◌≤◌, ◌<◌, ◌≡◌, refl, sym, ap, subst, ◌∙◌, List, [], ◌∷◌, ◌++◌,
  arith, leb, ◌==◌, if◌then◌else◌, length, take, All, length-append, append_assoc, append-nil,
  Bool-cases, inl, inr,
}
use native.Mathlib.Nat.{mod-eq_of_lt}
use go_raknet.Binary.{Is24, next24, write_uint24, uint24_bytes, load_uint24-write}
use go_raknet.Acknowledge.{
  max_acknowledgement_packets, write_record, Writing, write_loop, numbers_from, read_records,
}

pub length-numbers_from : (start count : ℕ) → length (numbers_from start count) ≡ count
unfolding numbers_from
length-numbers_from start zero = refl
length-numbers_from start (suc count) = ap suc (length-numbers_from (suc start) count)

numbers_from-suc :
    (start count : ℕ)
    → numbers_from start (suc count) ≡ numbers_from start count ++ ((start + count) ∷ [])
unfolding numbers_from
numbers_from-suc start zero = ap (λ k. k ∷ []) (omega arith)
numbers_from-suc start (suc count) =
    let e : suc start + count ≡ start + suc count = omega arith in
    ap (λ t. start ∷ t)
      (numbers_from-suc (suc start) count ∙ ap (λ k. numbers_from (suc start) count ++ (k ∷ [])) e)

-- The sequence numbers of one record.
abbrev pub range : ℕ → ℕ → List ℕ
range first last = numbers_from first (suc last - first)

-- `k` records of `body` read as `xs`, whatever stands behind them and has been read before, within
-- the limit on the number of packets.
abbrev pub Decodes : ℕ → List ℕ → List ℕ → Type 0
Decodes k body xs =
    (count : ℕ) (rest acc : List ℕ)
    → length acc + length xs ≤ max_acknowledgement_packets
    → read_records (k + count) (body ++ rest) acc ≡ read_records count rest (acc ++ xs)

pub Decodes-nil : Decodes 0 [] []
Decodes-nil count rest acc h = rw (append-nil acc) (ap (λ k. read_records k rest acc) (omega arith))

Decodes-append :
    (k j : ℕ) (b c xs ys : List ℕ)
    → Decodes k b xs
    → Decodes j c ys
    → Decodes (k + j) (b ++ c) (xs ++ ys)
Decodes-append k j b c xs ys f g count rest acc h =
    let e : k + j + count ≡ k + (j + count) = omega arith in
    ap (λ t. read_records t ((b ++ c) ++ rest) acc) e
    ∙ ap (λ t. read_records (k + (j + count)) t acc) (append_assoc b c rest)
    ∙ f (j + count) (c ++ rest) acc (omega (arith, length-append xs ys))
    ∙ g count rest (acc ++ xs) (omega (arith, length-append xs ys, length-append acc xs))
    ∙ ap (read_records count rest) (append_assoc acc xs ys)

-- The bytes of one record.
abbrev pub record_bytes : ℕ → ℕ → List ℕ
record_bytes first last =
    if first == last then 1 ∷ uint24_bytes first else 0 ∷ (uint24_bytes first ++ uint24_bytes last)

pub write_record-bytes :
    (buf : List ℕ) (first last : ℕ) → write_record buf first last ≡ buf ++ record_bytes first last
unfolding write_record write_uint24
write_record-bytes buf first last = elim (Bool-cases (first == last)) [
  | inl e ↦ rw e (append_assoc buf (1 ∷ []) (uint24_bytes first))
  | inr e ↦ rw e (simp append_assoc)
]

pub range_self : (first last : ℕ) → first ≡ last → range first last ≡ first ∷ []
unfolding numbers_from
range_self first last e =
    let one : suc last - first ≡ 1 = omega arith in ap (numbers_from first) one

pub Decodes-record :
    (first last : ℕ)
    → first ≤ last
    → Is24 last
    → Decodes 1 (record_bytes first last) (range first last)
unfolding read_records
Decodes-record first last le h count rest acc room =
    rw (← add_one count) (elim (Bool-cases (first == last)) [
      | inl e ↦
          rw (e, range_self first last (ground arith))
            (ground (
              arith,
              e,
              load_uint24-write first rest,
              range_self first last,
              length-numbers_from first (suc last - first),
            ))
      | inr e ↦ rw e (
          ground (
            arith,
            e,
            load_uint24-write first (uint24_bytes last ++ rest),
            load_uint24-write last rest,
            length-numbers_from first (suc last - first),
          ))
    ])
  where
    add_one : (k : ℕ) → suc k ≡ 1 + k
    add_one k = omega arith

range-suc :
    (first last : ℕ) → first ≤ last → range first (suc last) ≡ range first last ++ (suc last ∷ [])
range-suc first last h =
    let e : suc (suc last) - first ≡ suc (suc last - first) = omega arith in
    let f : first + (suc last - first) ≡ suc last = omega arith in
    ap (numbers_from first) e
    ∙ numbers_from-suc first (suc last - first)
    ∙ ap (λ k. range first last ++ (k ∷ [])) f

pub length-record_bytes-le : (first last : ℕ) → length (record_bytes first last) ≤ 7
length-record_bytes-le first last = ground arith

-- Where the loop stopped, `m` packets further, the records with the open one are those of `xs`, of
-- the range that was open and of these packets.
pub record Written (used limit : ℕ) (pks xs : List ℕ) (w r : Writing) (m : ℕ) : Type 0 where
  pub count : r.n ≡ w.n + m
  pub some_left : m ≤ length pks
  pub records_le : r.records ≤ w.records + m
  pub size : used + length r.body ≤ limit + 6
  pub decodes :
      Decodes
        (r.records + 1)
        (r.body ++ record_bytes r.first r.last)
        (xs ++ (range w.first w.last ++ take m pks))

-- What holds of the loop's variables between two rounds.
pub record IsWriting (used limit : ℕ) (xs : List ℕ) (w : Writing) : Type 0 where
  pub ordered : w.first ≤ w.last
  pub fits : Is24 w.last
  pub room : used + length w.body ≤ limit + 6
  pub closed : Decodes w.records w.body xs

stop :
    (used limit : ℕ) (pks xs : List ℕ) (w : Writing)
    → IsWriting used limit xs w
    → Written used limit pks xs w w 0
stop used limit pks xs w h = record {
  count = omega arith;
  some_left = omega arith;
  records_le = omega arith;
  size = h.room;
  decodes = rw (append-nil (range w.first w.last)) (
      Decodes-append w.records 1 w.body (record_bytes w.first w.last) xs (range w.first w.last)
        h.closed (Decodes-record w.first w.last h.ordered h.fits));
}

-- A round that lengthens the open range, and one that closes it.
abbrev longer : Writing → ℕ → Writing
longer w pk = record w { last = pk; n = w.n + 1 }

abbrev another : Writing → ℕ → Writing
another w pk = record {
  body = write_record w.body w.first w.last;
  first = pk;
  last = pk;
  records = (w.records + 1) % 2 ^ 16;
  n = w.n + 1;
}

module _ (used limit pk : ℕ) (pks xs : List ℕ) (w : Writing) (h : IsWriting used limit xs w)
    (small : Is24 pk) where
  longer-IsWriting : pk ≡ suc w.last → IsWriting used limit xs (longer w pk)
  longer-IsWriting e = record {
    ordered = omega (arith, h.ordered);
    fits = small;
    room = h.room;
    closed = h.closed;
  }

  longer-Written :
      {r : Writing} {m : ℕ}
      → pk ≡ suc w.last
      → Written used limit pks xs (longer w pk) r m
      → Written used limit (pk ∷ pks) xs w r (suc m)
  longer-Written {r} {m} e t = record {
    count = omega (arith, t.count);
    some_left = omega (arith, t.some_left);
    records_le = omega (arith, t.records_le);
    size = t.size;
    decodes =
        subst (Decodes (r.records + 1) (r.body ++ record_bytes r.first r.last)) same t.decodes;
  }
    where
      same :
          xs ++ (range w.first pk ++ take m pks) ≡ xs ++ (range w.first w.last ++ (pk ∷ take m pks))
      same =
          ap (λ k. xs ++ (range w.first k ++ take m pks)) e
          ∙ ap (λ t. xs ++ (t ++ take m pks)) (range-suc w.first w.last h.ordered)
          ∙ ap (λ t. xs ++ t) (append_assoc (range w.first w.last) (suc w.last ∷ []) (take m pks))
          ∙ ap (λ k. xs ++ (range w.first w.last ++ (k ∷ take m pks))) (sym e)

  another-IsWriting :
      used + length w.body < limit
      → w.records + 1 < 2 ^ 16
      → IsWriting used limit (xs ++ range w.first w.last) (another w pk)
  another-IsWriting space few = record {
    ordered = omega arith;
    fits = small;
    room = rw (write_record-bytes w.body w.first w.last) (
        omega (
          arith,
          length-append w.body (record_bytes w.first w.last),
          length-record_bytes-le w.first w.last,
        ));
    closed =
        rw (write_record-bytes w.body w.first w.last, mod-eq_of_lt few)
          (Decodes-append w.records 1 w.body (record_bytes w.first w.last) xs (range w.first w.last)
            h.closed (Decodes-record w.first w.last h.ordered h.fits));
  }

  another-Written :
      {r : Writing} {m : ℕ}
      → w.records + 1 < 2 ^ 16
      → Written used limit pks (xs ++ range w.first w.last) (another w pk) r m
      → Written used limit (pk ∷ pks) xs w r (suc m)
  another-Written {r} {m} few t = record {
    count = omega (arith, t.count);
    some_left = omega (arith, t.some_left);
    records_le = omega (arith, t.records_le);
    size = t.size;
    decodes =
        subst (Decodes (r.records + 1) (r.body ++ record_bytes r.first r.last)) same t.decodes;
  }
    where
      same :
          (xs ++ range w.first w.last) ++ (range pk pk ++ take m pks)
          ≡ xs ++ (range w.first w.last ++ (pk ∷ take m pks))
      same =
          ap (λ t. (xs ++ range w.first w.last) ++ (t ++ take m pks)) (range_self pk pk refl)
          ∙ append_assoc xs (range w.first w.last) (pk ∷ take m pks)

pub write_loop-Written :
    (used limit : ℕ) (pks xs : List ℕ) (w : Writing)
    → IsWriting used limit xs w
    → All Is24 pks
    → w.records + length pks < 2 ^ 16
    → (m : ℕ) × Written used limit pks xs w (write_loop used limit pks w) m
unfolding write_loop
write_loop-Written used limit [] xs w h small few = (0, stop used limit [] xs w h)
write_loop-Written used limit (pk ∷ pks) xs w h small few =
    elim (Bool-cases (leb limit (used + length w.body))) [
      | inl full ↦ (0, rw (full, write_loop) (stop used limit (pk ∷ pks) xs w h))
      | inr space ↦ elim (Bool-cases (pk == next24 w.last)) [
        | inl next ↦
            let e : pk ≡ suc w.last = ground (arith, h.fits) in
            let (m, r) =
              write_loop-Written used limit pks xs (longer w pk)
                (longer-IsWriting used limit pk pks xs w h small.0 e) small.1 (omega arith) in
            (
              suc m,
              rw (space, next, write_loop) (longer-Written used limit pk pks xs w h small.0 e r),
            )
        | inr gap ↦
            let (m, r) =
              write_loop-Written used limit pks (xs ++ range w.first w.last) (another w pk)
                (another-IsWriting used limit pk pks xs w h small.0 (ground arith) (omega arith))
                small.1 (omega arith) in
            (
              suc m,
              rw (space, gap, write_loop)
                  (another-Written used limit pk pks xs w h small.0 (omega arith) r),
            )
      ]
    ]
