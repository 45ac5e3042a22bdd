-- ===== src/Smartcard/Atr/Parsing.antt =====
-- What a parsed ATR is.
use sun_ray2server.Prelude.{
  ℕ, zero, suc, ◌+◌, ◌/◌, ◌≤◌, ◌≡◌, ◌⊎◌, refl, ap, ◌∙◌, bit_and, true, false, List, ◌++◌, length,
  length-take, length-drop, get_or-append, take-append, drop-append_le, length-append, get_or, take,
  drop, ltb, leb, arith, inl, inr, Bool-cases,
}
use sun_ray2server.Smartcard.Atr.{
  Atr, AtrError, Result, ok, err, Groups, interface_bytes, read_groups, finish, parse_atr, checksum,
  total_length, is_initial, next_group, no_groups,
}

pub Result-cases {ℓ} :
    {A : Type ℓ} (r : Result A) → ((a : A) × (r ≡ ok a)) ⊎ ((e : AtrError) × (r ≡ err e))
Result-cases (ok a) = inl (a, refl)
Result-cases (err e) = inr (e, refl)

bytes_advance :
    (size y offset : ℕ) {n : ℕ}
    → interface_bytes size y offset ≡ ok n
    → (offset ≤ n) × (n ≤ offset + 3) × (offset ≤ size → n ≤ size)
unfolding interface_bytes
bytes_advance size y offset e = ground arith

bytes_larger :
    (size size' y offset : ℕ) {n : ℕ}
    → interface_bytes size y offset ≡ ok n
    → size ≤ size'
    → interface_bytes size' y offset ≡ ok n
unfolding interface_bytes
bytes_larger size size' y offset e h = ground arith

groups_advance :
    (n : ℕ) (bytes : List ℕ) (y : ℕ) (g h : Groups)
    → read_groups n bytes y g ≡ ok h
    → g.offset ≤ h.offset
unfolding read_groups
groups_advance zero bytes y g h e = cc
groups_advance (suc n) bytes y g h e =
    elim (Result-cases (interface_bytes (length bytes) y g.offset)) [
      | inl (o, eq) ↦ ground (
        arith,
        eq,
        bytes_advance (length bytes) y g.offset eq,
        groups_advance n bytes (get_or bytes o 0 / 16) (next_group g o (get_or bytes o 0)) h,
      )
      | inr (x, eq) ↦ absurd (ground (arith, eq))
    ]

groups-append :
    (n : ℕ) (bytes more : List ℕ) (y : ℕ) (g h : Groups)
    → read_groups n bytes y g ≡ ok h
    → read_groups n (bytes ++ more) y g ≡ ok h
unfolding read_groups
groups-append zero bytes more y g h e = cc
groups-append (suc n) bytes more y g h e =
    elim (Result-cases (interface_bytes (length bytes) y g.offset)) [
      | inl (o, eq) ↦
          let eq' =
            bytes_larger (length bytes) (length (bytes ++ more)) y g.offset eq
              (omega (arith, length-append bytes more)) in
          elim (Bool-cases (leb (length bytes) o)) [
            | inl short ↦ ground (arith, eq, eq')
            | inr long ↦
                let same = get_or-append bytes more o 0 (ground arith) in
                let ih =
                  groups-append n bytes more (get_or bytes o 0 / 16)
                    (next_group g o (get_or bytes o 0)) h in
                rw eq' (rw same (ground (arith, eq, length-append bytes more, ih)))
          ]
      | inr (x, eq) ↦ absurd (ground (arith, eq))
    ]

finish_lem :
    (bytes : List ℕ) (k : ℕ) (g : Groups) {atr : Atr} {total : ℕ}
    → finish bytes k g ≡ ok (atr, total)
    → (total ≡ total_length k g)
      × (total ≤ 33)
      × (total ≤ length bytes)
      × (atr.raw ≡ take total bytes)
      × (atr.historical ≡ take k (drop g.offset bytes))
      × ((g.has_non_t0 ≡ true) → checksum (drop 1 (take total bytes)) 0 ≡ 0)
unfolding finish
finish_lem bytes k g e = ground arith

finish-append :
    (bytes more : List ℕ) (k : ℕ) (g : Groups) (atr : Atr) (total : ℕ)
    → 1 ≤ length bytes
    → finish bytes k g ≡ ok (atr, total)
    → finish (bytes ++ more) k g ≡ ok (atr, total)
unfolding finish
finish-append bytes more k g atr total p e =
    let (t, _, fits, _, _, _) = finish_lem bytes k g e in
    let all = total_length k g in
    ground (
      arith,
      length-append bytes more,
      take-append all bytes more,
      get_or-append bytes more 0 0 p,
      drop-append_le g.offset bytes more (omega arith),
      take-append k (drop g.offset bytes) more (omega (arith, length-drop g.offset bytes)),
    )

parse_inversion :
    (bytes : List ℕ) (atr : Atr) (total : ℕ)
    → parse_atr bytes ≡ ok (atr, total)
    → (g : Groups) × (2 ≤ length bytes)
      × (is_initial (get_or bytes 0 0) ≡ true)
      × (read_groups 8 bytes (get_or bytes 1 0 / 16) no_groups ≡ ok g)
      × (finish bytes (bit_and (get_or bytes 1 0) 0x0F) g ≡ ok (atr, total))
unfolding parse_atr
parse_inversion bytes atr total e =
    elim (Result-cases (read_groups 8 bytes (get_or bytes 1 0 / 16) no_groups)) [
      | inl (g, eq) ↦ (g, ground (arith, eq), ground (arith, eq), eq, ground (arith, eq))
      | inr (x, eq) ↦ absurd (ground (arith, eq))
    ]

-- A parsed ATR starts with 0x3B or 0x3F and is the first `total` bytes of the data, between 2 and
-- 33 of them; it has as many historical bytes as T0 says, and where a protocol other than T=0 was
-- named the bytes behind the first have the exclusive or 0.
pub parse_atr_lem :
    (bytes : List ℕ) (atr : Atr) (total : ℕ)
    → parse_atr bytes ≡ ok (atr, total)
    → (is_initial (get_or bytes 0 0) ≡ true)
      × (2 ≤ total)
      × (total ≤ 33)
      × (total ≤ length bytes)
      × (atr.raw ≡ take total bytes)
      × (length atr.historical ≡ bit_and (get_or bytes 1 0) 0x0F)
      × (g : Groups) × (read_groups 8 bytes (get_or bytes 1 0 / 16) no_groups ≡ ok g)
      × ((g.has_non_t0 ≡ true) → checksum (drop 1 atr.raw) 0 ≡ 0)
parse_atr_lem bytes atr total e =
    let (g, size, initial, groups, f) = parse_inversion bytes atr total e in
    let k = bit_and (get_or bytes 1 0) 0x0F in
    let (t, hi, fits, raw, historical, sum) = finish_lem bytes k g f in
    let off = groups_advance 8 bytes (get_or bytes 1 0 / 16) no_groups g groups in
    (
      initial,
      ground arith,
      hi,
      fits,
      raw,
      ap length historical
          ∙ ground (arith, length-take k (drop g.offset bytes), length-drop g.offset bytes),
      g,
      groups,
      λ p. rw raw (sum p),
    )

-- Parsing does not look past the ATR: bytes added behind the data change nothing.
pub parse_atr-append :
    (bytes more : List ℕ) (atr : Atr) (total : ℕ)
    → parse_atr bytes ≡ ok (atr, total)
    → parse_atr (bytes ++ more) ≡ ok (atr, total)
unfolding parse_atr
parse_atr-append bytes more atr total e =
    let (g, size, initial, groups, f) = parse_inversion bytes atr total e in
    let same0 = get_or-append bytes more 0 0 (omega arith) in
    let same1 = get_or-append bytes more 1 0 (omega arith) in
    let groups' = groups-append 8 bytes more (get_or bytes 1 0 / 16) no_groups g groups in
    let f' =
      finish-append bytes more (bit_and (get_or bytes 1 0) 0x0F) g atr total (omega arith) f in
    let long : ltb (length (bytes ++ more)) 2 ≡ false = ground (arith, length-append bytes more) in
    rw (long, same0, same1) (rw (initial, groups') f')
