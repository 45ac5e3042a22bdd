-- ===== src/Display/Input/Replay.antt =====
-- The events of a keyboard report, replayed by a consumer, reproduce the reported keys.
use sun_ray2server.Prelude.{
  ℕ, zero, suc, ◌+◌, ◌*◌, ◌≤◌, ◌<◌, ◌≡◌, refl, ap, Bool, true, false, ◌&&◌, not, List, [], ◌∷◌,
  ◌++◌, some, All, ◌==◌, if◌then◌else◌, bit_and, arith, ◌^◌,
}
use native.Mathlib.Nat.{pow-suc, mul-one, one-mul, add-zero}
use native.Mathlib.Decide.{ℕ_discrete}
use sun_ray2server.Prelude.Bytes.{u8, get_u16}
use sun_ray2server.Display.Input.{
  InputEvent, InputDecoder, modifier_hid, key_changes, modifier_changes, reported, key_events,
  keyboard,
}

-- Whether the key `hid` is down after a consumer that held it as `down` has seen the events.
abbrev pub track : ℕ → Bool → List InputEvent → Bool
track hid down [] = down
track hid down (e ∷ es) = track hid (if e.hid == hid then e.pressed else down) es

track-append :
    (hid : ℕ) (down : Bool) (es fs : List InputEvent)
    → track hid down (es ++ fs) ≡ track hid (track hid down es) fs
track-append hid down [] fs = refl
track-append hid down (e ∷ es) fs =
    track-append hid (if e.hid == hid then e.pressed else down) es fs

-- The key loop leaves the keys below its range,
track-key_changes_below :
    (held other : ℕ → Bool) (p : Bool) (m hid : ℕ) (down : Bool) (start n : ℕ)
    → hid < start
    → track hid down (key_changes held other p m start n) ≡ down
unfolding key_changes
track-key_changes_below held other p m hid down start zero h = refl
track-key_changes_below held other p m hid down start (suc n) h =
    ground (arith, track-key_changes_below held other p m hid down (suc start) n (omega arith))

-- and sets each key of its range that changed.
track-key_changes :
    (held other : ℕ → Bool) (p : Bool) (m hid : ℕ) (down : Bool) (start n : ℕ)
    → start ≤ hid
    → hid < start + n
    → track hid down (key_changes held other p m start n)
      ≡ (if held hid && not (other hid) then p else down)
unfolding key_changes
track-key_changes held other p m hid down start zero h k = absurd (omega arith)
track-key_changes held other p m hid down start (suc n) h k = elim (ℕ_discrete start hid) [
  | yes e ↦ rw e (
      ground (
        arith,
        track-key_changes_below held other p m hid down (suc hid) n (omega arith),
        track-key_changes_below held other p m hid p (suc hid) n (omega arith),
      ))
  | no e ↦
      ground
        (arith, track-key_changes held other p m hid down (suc start) n (omega arith) (omega arith))
]

-- The modifier loop leaves every key that is not a modifier.
track-modifier_changes_ordinary :
    (held other : ℕ) (p : Bool) (m mask hid : ℕ) (down : Bool) (hids : List ℕ)
    → All (λ k. 0xE0 ≤ k) hids
    → hid < 0xE0
    → track hid down (modifier_changes held other p m mask hids) ≡ down
unfolding modifier_changes
track-modifier_changes_ordinary held other p m mask hid down [] a h = refl
track-modifier_changes_ordinary held other p m mask hid down (k ∷ hids) a h =
    ground (arith, track-modifier_changes_ordinary held other p m (mask * 2) hid down hids)

-- `n` usages from `first` on.
run_from : ℕ → ℕ → List ℕ
run_from first zero = []
run_from first (suc n) = first ∷ run_from (suc first) n

track-modifier_changes_below :
    (held other : ℕ) (p : Bool) (m mask hid : ℕ) (down : Bool) (first n : ℕ)
    → hid < first
    → track hid down (modifier_changes held other p m mask (run_from first n)) ≡ down
unfolding modifier_changes run_from
track-modifier_changes_below held other p m mask hid down first zero h = refl
track-modifier_changes_below held other p m mask hid down first (suc n) h = ground (
  arith,
  track-modifier_changes_below held other p m (mask * 2) hid down (suc first) n (omega arith),
)

abbrev pub bit_set : ℕ → ℕ → Bool
bit_set flags mask = not (bit_and flags mask == 0)

double_mask : (mask i : ℕ) → mask * 2 * 2 ^ i ≡ mask * 2 ^ suc i
double_mask mask i = omega (arith, ap (λ (t : ℕ). mask * t) (pow-suc 2 i))

track-modifier_changes_run :
    (held other : ℕ) (p : Bool) (m mask : ℕ) (down : Bool) (first i n : ℕ)
    → i < n
    → track (first + i) down (modifier_changes held other p m mask (run_from first n))
      ≡ (if bit_set held (mask * 2 ^ i) && not (bit_set other (mask * 2 ^ i)) then p else down)
unfolding modifier_changes run_from
track-modifier_changes_run held other p m mask down first i zero h = absurd (omega arith)
track-modifier_changes_run held other p m mask down first zero (suc n) h =
    rw (mul-one, add-zero)
      (ground (
        arith,
        track-modifier_changes_below held other p m (mask * 2) first down (suc first) n
            (omega arith),
        track-modifier_changes_below held other p m (mask * 2) first p (suc first) n (omega arith),
      ))
track-modifier_changes_run held other p m mask down first (suc i) (suc n) h =
    rw (← double_mask mask i) (
      ground (
        arith,
        track-modifier_changes_run held other p m (mask * 2) down (suc first) i n (omega arith),
      ))

track-modifier_changes :
    (held other : ℕ) (p : Bool) (m : ℕ) (down : Bool) (i : ℕ)
    → i < 8
    → track (0xE0 + i) down (modifier_changes held other p m 1 modifier_hid)
      ≡ (if bit_set held (2 ^ i) && not (bit_set other (2 ^ i)) then p else down)
unfolding run_from
track-modifier_changes held other p m down i h =
    rw one-mul at (track-modifier_changes_run held other p m 1 down 0xE0 i 8 h)

key_events_ordinary :
    (d : InputDecoder) (op : List ℕ) (hid : ℕ)
    → 1 ≤ hid
    → hid < 0xE0
    → track hid (d.keys hid) (key_events d op) ≡ reported op hid
unfolding key_events
key_events_ordinary d op hid lo hi =
    let m = u8 (get_u16 op 6) in
    let now = reported op in
    let down = d.keys hid in
    let es1 = key_changes d.keys now false m 1 255 in
    let es2 = modifier_changes d.modifiers m false m 1 modifier_hid in
    let es3 = modifier_changes m d.modifiers true m 1 modifier_hid in
    let es4 = key_changes now d.keys true m 1 255 in
    let d1 = track hid down es1 in
    ground (
      arith,
      track-append hid down es1 (es2 ++ (es3 ++ es4)),
      track-append hid d1 es2 (es3 ++ es4),
      track-append hid (track hid d1 es2) es3 es4,
      track-key_changes d.keys now false m hid down 1 255 lo (omega arith),
      track-modifier_changes_ordinary d.modifiers m false m 1 hid d1 modifier_hid (omega arith) hi,
      track-modifier_changes_ordinary m d.modifiers true m 1 hid (track hid d1 es2) modifier_hid
          (omega arith) hi,
      track-key_changes now d.keys true m hid (track hid (track hid d1 es2) es3) 1 255 lo
          (omega arith),
    )

key_events_modifier :
    (d : InputDecoder) (op : List ℕ) (i : ℕ)
    → i < 8
    → d.keys (0xE0 + i) ≡ false
    → reported op (0xE0 + i) ≡ false
    → track (0xE0 + i) (bit_set d.modifiers (2 ^ i)) (key_events d op)
      ≡ bit_set (u8 (get_u16 op 6)) (2 ^ i)
unfolding key_events
key_events_modifier d op i h p q =
    let m = u8 (get_u16 op 6) in
    let now = reported op in
    let hid = 0xE0 + i in
    let down = bit_set d.modifiers (2 ^ i) in
    let es1 = key_changes d.keys now false m 1 255 in
    let es2 = modifier_changes d.modifiers m false m 1 modifier_hid in
    let es3 = modifier_changes m d.modifiers true m 1 modifier_hid in
    let es4 = key_changes now d.keys true m 1 255 in
    let d1 = track hid down es1 in
    ground (
      arith,
      track-append hid down es1 (es2 ++ (es3 ++ es4)),
      track-append hid d1 es2 (es3 ++ es4),
      track-append hid (track hid d1 es2) es3 es4,
      track-key_changes d.keys now false m hid down 1 255 (omega arith) (omega arith),
      track-modifier_changes d.modifiers m false m d1 i h,
      track-modifier_changes m d.modifiers true m (track hid d1 es2) i h,
      track-key_changes now d.keys true m hid (track hid (track hid d1 es2) es3) 1 255 (omega arith)
          (omega arith),
    )

-- A consumer that held exactly the decoder's ordinary keys, and replays the events of an accepted
-- report, holds exactly the ordinary keys (usages 1 to 0xDF) of the decoder's new state.
pub keyboard-replay :
    (d : InputDecoder) (op : List ℕ) {es : List InputEvent} (hid : ℕ)
    → (keyboard d op).0 ≡ some es
    → 1 ≤ hid
    → hid < 0xE0
    → track hid (d.keys hid) es ≡ (keyboard d op).1.keys hid
unfolding keyboard
keyboard-replay d op hid e lo hi = ground (arith, key_events_ordinary d op hid lo hi)

-- The same for the eight modifier keys 0xE0 to 0xE7, which follow the bits of the modifier byte, if
-- neither the old state nor the report names that usage among its ordinary keys.
pub keyboard-replay_modifiers :
    (d : InputDecoder) (op : List ℕ) {es : List InputEvent} (i : ℕ)
    → (keyboard d op).0 ≡ some es
    → i < 8
    → d.keys (0xE0 + i) ≡ false
    → reported op (0xE0 + i) ≡ false
    → track (0xE0 + i) (bit_set d.modifiers (2 ^ i)) es
      ≡ bit_set (keyboard d op).1.modifiers (2 ^ i)
unfolding keyboard
keyboard-replay_modifiers d op i e h p q = ground (arith, key_events_modifier d op i h p q)
