-- ===== src/Smartcard/Probe.antt =====
-- internal/smartcard/probe.go: the capture of one connection, and the ATRs that it logs. Reads and
-- the network are outside: a connection is the list of the chunks that its reads give.
pub mod Logging
use sun_ray2server.Prelude.{
  ℕ, ◌≡◌, Bool, true, false, ◌&&◌, ◌||◌, List, [], ◌∷◌, ◌++◌, length, ltb, ◌==◌, if◌then◌else◌,
  arith, All, Bool-cases, inl, inr, ◌∙◌, refl, ap, sym, ◌≤◌, ◌<◌, flatten, length-append,
}
use mathlib.Core.Path.{subst}
use mathlib.Core.List.{append_assoc, append-nil}
use sun_ray2server.Smartcard.Atr.{Atr, find_atrs, to_hex}

abbrev pub max_captured_bytes : ℕ
max_captured_bytes = 65536

-- Equality of keys, as texts.
abbrev pub same_text : List ℕ → List ℕ → Bool
same_text [] [] = true
same_text [] (y ∷ ys) = false
same_text (x ∷ xs) [] = false
same_text (x ∷ xs) (y ∷ ys) = x == y && same_text xs ys

abbrev pub seen_before : List (List ℕ) → List ℕ → Bool
seen_before [] key = false
seen_before (k ∷ ks) key = same_text k key || seen_before ks key

-- The map `seen`, and the keys logged, latest first.
pub record Probe : Type 0 where
  pub seen : List (List ℕ)
  pub logged : List (List ℕ)

unfoldable pub log_atr : Probe → Atr → Probe
log_atr p atr =
    let key = to_hex atr.raw in
    if seen_before p.seen key then p else record { seen = key ∷ p.seen; logged = key ∷ p.logged }

unfoldable pub log_all : Probe → List Atr → Probe
log_all p [] = p
log_all p (atr ∷ atrs) = log_all (log_atr p atr) atrs

-- `handleConnection`: the chunks read until an error or the capture limit, and what was captured.
unfoldable pub handle_connection : Probe → List ℕ → List (List ℕ) → Probe × List ℕ
handle_connection p captured [] = (p, captured)
handle_connection p captured (chunk ∷ chunks) =
    let all : List ℕ = captured ++ chunk in
    let p' = if length chunk == 0 then p else log_all p (find_atrs all) in
    let more = handle_connection p' all chunks in
    if ltb (length captured) max_captured_bytes then more else (p, captured)

-- No two logged keys are the same.
abbrev pub LoggedOnce : List (List ℕ) → Type 0
LoggedOnce [] = Unit {0}
LoggedOnce (k ∷ ks) = (seen_before ks k ≡ false) × LoggedOnce ks

pub record IsProbe (p : Probe) : Type 0 where
  pub mirrored : p.seen ≡ p.logged
  pub once : LoggedOnce p.logged

log_atr-IsProbe : (p : Probe) (atr : Atr) → IsProbe p → IsProbe (log_atr p atr)
unfolding log_atr
log_atr-IsProbe p atr v = elim (Bool-cases (seen_before p.seen (to_hex atr.raw))) [
  | inl old ↦ simp old v
  | inr new ↦ simp new (record {
    mirrored = ap (λ (t : List (List ℕ)). to_hex atr.raw ∷ t) v.mirrored;
    once = (subst (λ t. seen_before t (to_hex atr.raw) ≡ false) v.mirrored new, v.once);
  })
]

log_all-IsProbe : (p : Probe) (atrs : List Atr) → IsProbe p → IsProbe (log_all p atrs)
unfolding log_all
log_all-IsProbe p [] v = v
log_all-IsProbe p (atr ∷ atrs) v = log_all-IsProbe (log_atr p atr) atrs (log_atr-IsProbe p atr v)

pub same_text_refl : (key : List ℕ) → same_text key key ≡ true
same_text_refl [] = refl
same_text_refl (x ∷ xs) = ground (arith, same_text_refl xs)

log_atr_sees : (p : Probe) (atr : Atr) → seen_before (log_atr p atr).seen (to_hex atr.raw) ≡ true
unfolding log_atr
log_atr_sees p atr = ground (arith, same_text_refl (to_hex atr.raw))

log_atr_keeps :
    (p : Probe) (atr : Atr) (key : List ℕ)
    → seen_before p.seen key ≡ true
    → seen_before (log_atr p atr).seen key ≡ true
unfolding log_atr
log_atr_keeps p atr key h = ground arith

log_all_keeps :
    (p : Probe) (atrs : List Atr) (key : List ℕ)
    → seen_before p.seen key ≡ true
    → seen_before (log_all p atrs).seen key ≡ true
unfolding log_all
log_all_keeps p [] key h = h
log_all_keeps p (atr ∷ atrs) key h =
    log_all_keeps (log_atr p atr) atrs key (log_atr_keeps p atr key h)

-- Every ATR of the list has been logged.
abbrev pub AllSeen : Probe → List Atr → Type 0
AllSeen p atrs = All (λ atr. seen_before p.seen (to_hex atr.raw) ≡ true) atrs

log_all-AllSeen : (p : Probe) (atrs : List Atr) → AllSeen (log_all p atrs) atrs
unfolding log_all
log_all-AllSeen p [] = tt
log_all-AllSeen p (atr ∷ atrs) = (
  log_all_keeps (log_atr p atr) atrs (to_hex atr.raw) (log_atr_sees p atr),
  log_all-AllSeen (log_atr p atr) atrs,
)

-- One chunk of handleConnection.
chunk_scanned :
    (p : Probe) (captured chunk : List ℕ)
    → IsProbe p
    → AllSeen p (find_atrs captured)
    → let all : List ℕ = captured ++ chunk in
      let p' = if length chunk == 0 then p else log_all p (find_atrs all) in
      IsProbe p' × AllSeen p' (find_atrs all)
chunk_scanned p captured [] v seen = (v, rw (append-nil captured) seen)
chunk_scanned p captured (b ∷ bs) v seen =
    let atrs = find_atrs (captured ++ (b ∷ bs)) in
    let some_bytes : (length (b ∷ bs) == 0) ≡ false = ground arith in
    rw some_bytes (log_all-IsProbe p atrs v, log_all-AllSeen p atrs)

pub handle_connection-AllSeen :
    (p : Probe) (captured : List ℕ) (chunks : List (List ℕ))
    → IsProbe p
    → AllSeen p (find_atrs captured)
    → let r = handle_connection p captured chunks in IsProbe r.0 × AllSeen r.0 (find_atrs r.1)
unfolding handle_connection
handle_connection-AllSeen p captured [] v seen = (v, seen)
handle_connection-AllSeen p captured (chunk ∷ chunks) v seen =
    let all : List ℕ = captured ++ chunk in
    let p' = if length chunk == 0 then p else log_all p (find_atrs all) in
    let (v', seen') = chunk_scanned p captured chunk v seen in
    let ih = handle_connection-AllSeen p' all chunks v' seen' in
    elim (Bool-cases (ltb (length captured) max_captured_bytes)) [
      | inl room ↦ rw room ih
      | inr full ↦ rw full (v, seen)
    ]

-- A capture that starts below the limit, of chunks of at most 4096 bytes, ends below 69,632 bytes,
-- and is a prefix of what the chunks hold.
pub handle_connection_captured :
    (p : Probe) (captured : List ℕ) (chunks : List (List ℕ))
    → All (λ c. length c ≤ 4096) chunks
    → length captured < 69632
    → let all = (handle_connection p captured chunks).1 in
      (length all < 69632) × (rest : List ℕ) × (captured ++ flatten chunks ≡ all ++ rest)
unfolding handle_connection
handle_connection_captured p captured [] a h = (h, [], refl)
handle_connection_captured p captured (chunk ∷ chunks) (q, a) h =
    elim (Bool-cases (ltb (length captured) max_captured_bytes)) [
      | inl room ↦
          let all : List ℕ = captured ++ chunk in
          let p' = if length chunk == 0 then p else log_all p (find_atrs all) in
          let (n, rest, e) =
            handle_connection_captured p' all chunks a
              (ground (arith, length-append captured chunk)) in
          rw room (n, rest, sym (append_assoc captured chunk (flatten chunks)) ∙ e)
      | inr full ↦ rw full (h, chunk ++ flatten chunks, refl)
    ]
