-- ===== src/Smartcard/Probe/Logging.antt =====
-- What a connection to the probe logs (internal/smartcard/probe.go).
use sun_ray2server.Prelude.{
  ℕ, ◌≡◌, ◌⊎◌, inl, inr, refl, ◌∙◌, true, List, [], ◌∷◌, ◌++◌, length, ltb, ◌==◌, if◌then◌else◌,
  arith, All, Memᴰ-All, Memᴰ, Bool-cases, flatten,
}
use mathlib.Core.List.{append_assoc}
use mathlib.Core.Path.{subst}
use sun_ray2server.Smartcard.Atr.{Atr, find_atrs, to_hex}
use sun_ray2server.Smartcard.Probe.{
  Probe, seen_before, same_text_refl, log_atr, log_all, handle_connection, max_captured_bytes,
  IsProbe, AllSeen, handle_connection-AllSeen,
}

-- The key of an ATR that find_atrs finds in `bytes`.
abbrev pub HasAtr : List ℕ → List ℕ → Type 0
HasAtr bytes key = (atr : Atr) × Memᴰ atr (find_atrs bytes) × (key ≡ to_hex atr.raw)

-- A key that `old` holds, or that of an ATR found in what some first part of `all` holds.
abbrev pub WasFound : List (List ℕ) → List ℕ → List ℕ → Type 0
WasFound old all key =
    (seen_before old key ≡ true)
    ⊎ ((first : List ℕ) × (rest : List ℕ) × (first ++ rest ≡ all) × HasAtr first key)

module _ (Q : List ℕ → Type 0) where
  log_atr-All :
      (p : Probe) (atr : Atr) → Q (to_hex atr.raw) → All Q p.logged → All Q (log_atr p atr).logged
  unfolding log_atr
  log_atr-All p atr q h = elim (Bool-cases (seen_before p.seen (to_hex atr.raw))) [
    | inl old ↦ rw old h
    | inr new ↦ rw new (q, h)
  ]

  log_all-All :
      (p : Probe) (atrs : List Atr)
      → All (λ atr. Q (to_hex atr.raw)) atrs
      → All Q p.logged
      → All Q (log_all p atrs).logged
  unfolding log_all
  log_all-All p [] qs h = h
  log_all-All p (atr ∷ atrs) (q, qs) h = log_all-All (log_atr p atr) atrs qs (log_atr-All p atr q h)

module _ (old : List (List ℕ)) (all : List ℕ) where
  chunk_logged :
      (p : Probe) (captured chunk rest : List ℕ)
      → (captured ++ chunk) ++ rest ≡ all
      → All (WasFound old all) p.logged
      → let bytes : List ℕ = captured ++ chunk in
        let p' = if length chunk == 0 then p else log_all p (find_atrs bytes) in
        All (WasFound old all) p'.logged
  chunk_logged p captured chunk rest e h =
      let bytes : List ℕ = captured ++ chunk in
      let atrs = find_atrs bytes in
      let Q = WasFound old all in
      let found : All (λ atr. Q (to_hex atr.raw)) atrs =
        Memᴰ-All (λ atr. Q (to_hex atr.raw)) atrs (λ atr m. inr (bytes, rest, e, (atr, m, refl))) in
      elim (Bool-cases (length chunk == 0)) [
        | inl empty ↦ rw empty h
        | inr some_bytes ↦ rw some_bytes (log_all-All Q p atrs found h)
      ]

  connection_logged :
      (p : Probe) (captured : List ℕ) (chunks : List (List ℕ))
      → captured ++ flatten chunks ≡ all
      → All (WasFound old all) p.logged
      → All (WasFound old all) (handle_connection p captured chunks).0.logged
  unfolding handle_connection
  connection_logged p captured [] e h = h
  connection_logged p captured (chunk ∷ chunks) e h =
      let bytes : List ℕ = captured ++ chunk in
      let p' = if length chunk == 0 then p else log_all p (find_atrs bytes) in
      let e' : bytes ++ flatten chunks ≡ all = append_assoc captured chunk (flatten chunks) ∙ e in
      let h' = chunk_logged p captured chunk (flatten chunks) e' h in
      let ih = connection_logged p' bytes chunks e' h' in
      elim (Bool-cases (ltb (length captured) max_captured_bytes)) [
        | inl room ↦ rw room ih
        | inr full ↦ rw full h
      ]

seen_before-Memᴰ :
    (keys : List (List ℕ)) (key : List ℕ) → Memᴰ key keys → seen_before keys key ≡ true
seen_before-Memᴰ [] key m = elim m [ ]
seen_before-Memᴰ (k ∷ ks) key (Memᴰ.head e) =
    subst (λ x. seen_before (x ∷ ks) key ≡ true) e (ground (arith, same_text_refl key))
seen_before-Memᴰ (k ∷ ks) key (Memᴰ.tail m) = ground (arith, seen_before-Memᴰ ks key m)

logged_before : (keys : List (List ℕ)) (all : List ℕ) → All (WasFound keys all) keys
logged_before keys all =
    Memᴰ-All (WasFound keys all) keys (λ key m. inl (seen_before-Memᴰ keys key m))

-- A connection to a probe whose keys seen are the keys logged, each once, and which has logged
-- every ATR that find_atrs finds in the bytes captured so far. Whatever way the reads cut what the
-- connection sends, at the end every ATR that find_atrs finds in all that was captured has been
-- logged, those that a read cut in two included; the keys seen are still the keys logged, each
-- once; and a key is logged only if it was logged before or is that of an ATR that find_atrs finds
-- in some first part of what was captured before and what the connection sends.
pub handle_connection_logged :
    (p : Probe) (captured : List ℕ) (chunks : List (List ℕ))
    → IsProbe p
    → AllSeen p (find_atrs captured)
    → let r = handle_connection p captured chunks in
      IsProbe r.0
      × AllSeen r.0 (find_atrs r.1)
      × All (WasFound p.logged (captured ++ flatten chunks)) r.0.logged
handle_connection_logged p captured chunks v seen =
    let (v', seen') = handle_connection-AllSeen p captured chunks v seen in
    let all : List ℕ = captured ++ flatten chunks in
    (v', seen', connection_logged p.logged all p captured chunks refl (logged_before p.logged all))
