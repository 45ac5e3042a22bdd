-- ===== src/Smartcard/Atr/Scanning.antt =====
-- The scan for ATRs in framed or unframed traffic.
use sun_ray2server.Prelude.{
  ℕ, zero, suc, ◌≤◌, ◌≡◌, refl, sym, ap, ◌∙◌, true, false, List, [], ◌∷◌, ◌++◌, length, length-drop,
  drop, All, arith, inl, inr,
}
use sun_ray2server.Smartcard.Atr.{Atr, ok, err, find_from, find_atrs, parse_atr, is_initial}
use sun_ray2server.Smartcard.Atr.Parsing.{Result-cases, parse_atr_lem}

module _ (fuel b : ℕ) (bs : List ℕ) where
  scan_skip : is_initial b ≡ false → find_from (suc fuel) (b ∷ bs) ≡ find_from fuel bs
  unfolding find_from
  scan_skip e = rw e

  scan_error :
      {e : _} → parse_atr (b ∷ bs) ≡ err e → find_from (suc fuel) (b ∷ bs) ≡ find_from fuel bs
  unfolding find_from
  scan_error h = ground arith

  scan_found :
      (atr : Atr) (n : ℕ)
      → is_initial b ≡ true
      → parse_atr (b ∷ bs) ≡ ok (atr, n)
      → find_from (suc fuel) (b ∷ bs) ≡ atr ∷ find_from fuel (drop n (b ∷ bs))
  unfolding find_from
  scan_found atr n i h = ground arith

scan_nil : (fuel : ℕ) → find_from fuel [] ≡ []
unfolding find_from
scan_nil zero = refl
scan_nil (suc fuel) = refl

-- The scan ends by its own condition: any number of rounds that is at least the number of bytes
-- finds the same ATRs.
pub find_from_fuel :
    (fuel more : ℕ) (bytes : List ℕ)
    → length bytes ≤ fuel
    → length bytes ≤ more
    → find_from fuel bytes ≡ find_from more bytes
find_from_fuel fuel more [] h k = scan_nil fuel ∙ sym (scan_nil more)
find_from_fuel zero more (b ∷ bs) h k = absurd (omega arith)
find_from_fuel (suc fuel) zero (b ∷ bs) h k = absurd (omega arith)
find_from_fuel (suc fuel) (suc more) (b ∷ bs) h k =
    let skip = find_from_fuel fuel more bs (omega arith) (omega arith) in
    elim (Result-cases (parse_atr (b ∷ bs))) [
      | inl ((atr, n), e) ↦
          let facts = parse_atr_lem (b ∷ bs) atr n e in
          let i = facts.0 in
          let lo = facts.1 in
          let rest =
            find_from_fuel fuel more (drop n (b ∷ bs)) (omega (arith, length-drop n (b ∷ bs)))
              (omega (arith, length-drop n (b ∷ bs))) in
          scan_found fuel b bs atr n i e
          ∙ ap (λ (t : List Atr). atr ∷ t) rest
          ∙ sym (scan_found more b bs atr n i e)
      | inr (x, e) ↦ scan_error fuel b bs e ∙ skip ∙ sym (scan_error more b bs e)
    ]

-- Bytes that cannot start an ATR are skipped; an ATR behind them is found, and the scan goes on
-- behind it.
pub find_atrs_framed :
    (noise bytes : List ℕ) (atr : Atr) (n : ℕ)
    → All (λ b. is_initial b ≡ false) noise
    → parse_atr bytes ≡ ok (atr, n)
    → find_atrs (noise ++ bytes) ≡ atr ∷ find_atrs (drop n bytes)
unfolding find_atrs
find_atrs_framed [] bytes atr n a e = found bytes e
  where
    found :
        (bytes : List ℕ)
        → parse_atr bytes ≡ ok (atr, n)
        → find_from (length bytes) bytes ≡ atr ∷ find_from (length (drop n bytes)) (drop n bytes)
    found [] e = absurd (omega (arith, (parse_atr_lem [] atr n e).1, (parse_atr_lem [] atr n e).3))
    found (b ∷ bs) e =
        let facts = parse_atr_lem (b ∷ bs) atr n e in
        let lo = facts.1 in
        scan_found (length bs) b bs atr n facts.0 e
        ∙ ap (λ (t : List Atr). atr ∷ t)
            (find_from_fuel (length bs) (length (drop n (b ∷ bs))) (drop n (b ∷ bs))
              (omega (arith, length-drop n (b ∷ bs))) (omega arith))
find_atrs_framed (x ∷ noise) bytes atr n (p, a) e =
    scan_skip (length (noise ++ bytes)) x (noise ++ bytes) p
    ∙ find_atrs_framed noise bytes atr n a e
