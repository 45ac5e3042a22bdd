-- ===== src/Examples/Cards.antt =====
-- Card ATRs and the probe (internal/smartcard) at concrete inputs; the bytes are those of atr_test.go.
use sun_ray2server.Prelude.{
  All, ℕ, ◌/◌, ◌≤◌, ◌<◌, ◌≡◌, refl, true, bit_and, List, [], ◌∷◌, ◌++◌, length, get_or, take, drop,
  arith, flatten,
}
use sun_ray2server.Smartcard.Atr.{
  find_from, interface_bytes, finish, Atr, Groups, ok, err, need_more, bad_checksum, parse_atr,
  find_atrs, read_groups, no_groups, checksum, is_initial,
}
use sun_ray2server.Smartcard.Atr.Parsing.{parse_atr_lem, parse_atr-append}
use sun_ray2server.Smartcard.Atr.Scanning.{find_atrs_framed}
use sun_ray2server.Smartcard.Probe.Logging.{WasFound, handle_connection_logged}
use sun_ray2server.Smartcard.Probe.{
  Probe, IsProbe, handle_connection, AllSeen, handle_connection_captured,
}

abbrev t1_bytes : List ℕ
t1_bytes = 0x3B ∷ 0x80 ∷ 0x01 ∷ 0x81 ∷ []

abbrev t1 : Atr
t1 = record { raw = t1_bytes; direct = true; protocols = 1 ∷ []; historical = [] }

t1_parses : parse_atr t1_bytes ≡ ok (t1, 4)
unfolding parse_atr read_groups interface_bytes finish
t1_parses = refl

short_needs_more : parse_atr (0x3B ∷ 0x80 ∷ 0x01 ∷ []) ≡ err need_more
unfolding parse_atr read_groups interface_bytes finish
short_needs_more = refl

bad_tck : parse_atr (0x3B ∷ 0x80 ∷ 0x01 ∷ 0x00 ∷ []) ≡ err bad_checksum
unfolding parse_atr read_groups interface_bytes finish
bad_tck = refl

parse_atr_lem_example :
    (is_initial (get_or t1_bytes 0 0) ≡ true)
    × (2 ≤ 4)
    × (4 ≤ 33)
    × (4 ≤ length t1_bytes)
    × (t1.raw ≡ take 4 t1_bytes)
    × (length t1.historical ≡ bit_and (get_or t1_bytes 1 0) 0x0F)
    × (g : Groups) × (read_groups 8 t1_bytes (get_or t1_bytes 1 0 / 16) no_groups ≡ ok g)
    × ((g.has_non_t0 ≡ true) → checksum (drop 1 t1.raw) 0 ≡ 0)
parse_atr_lem_example = parse_atr_lem t1_bytes t1 4 t1_parses

parse_atr-append_example : parse_atr (t1_bytes ++ (0x55 ∷ [])) ≡ ok (t1, 4)
parse_atr-append_example = parse_atr-append t1_bytes (0x55 ∷ []) t1 4 t1_parses

find_atrs_framed_example :
    find_atrs ((0x99 ∷ 0x02 ∷ 0x00 ∷ []) ++ t1_bytes) ≡ t1 ∷ find_atrs (drop 4 t1_bytes)
find_atrs_framed_example =
    find_atrs_framed (0x99 ∷ 0x02 ∷ 0x00 ∷ []) t1_bytes t1 4 (refl, (refl, (refl, tt))) t1_parses

abbrev fresh : Probe
fresh = record { seen = []; logged = [] }

-- A read cuts the second ATR.
abbrev cut_atr : List (List ℕ)
cut_atr = (0x3B ∷ 0x80 ∷ 0x01 ∷ 0x81 ∷ 0x3B ∷ 0x81 ∷ []) ∷ (0x01 ∷ 0x41 ∷ 0xC1 ∷ []) ∷ []

handle_connection_logged_example :
    let r = handle_connection fresh [] cut_atr in
    IsProbe r.0 × AllSeen r.0 (find_atrs r.1) × All (WasFound [] ([] ++ flatten cut_atr)) r.0.logged
unfolding find_atrs find_from
handle_connection_logged_example =
    handle_connection_logged fresh [] cut_atr (record { mirrored = refl; once = tt }) tt

handle_connection_captured_example :
    let all = (handle_connection fresh [] (t1_bytes ∷ [])).1 in
    (length all < 69632) × (rest : List ℕ) × ([] ++ flatten (t1_bytes ∷ []) ≡ all ++ rest)
handle_connection_captured_example =
    handle_connection_captured fresh [] (t1_bytes ∷ []) (omega arith) (omega arith)
