-- ===== src/Display/Input/Order.antt =====
-- The order of the events of a report, reports that repeat, and the pointer.
use sun_ray2server.Prelude.{
  ℕ, zero, suc, ◌*◌, ◌<◌, ◌≡◌, ◌≢◌, refl, Bool, true, false, List, [], ◌∷◌, ◌++◌, none, some,
  length, get_or, All, All-append, arith,
}
use mathlib.Core.Path.{subst}
use sun_ray2server.Prelude.Bytes.{u8, get_u16}
use sun_ray2server.Display.Input.{
  InputEvent, InputDecoder, modifier_hid, key_changes, modifier_changes, reported, key_events,
  keyboard, pointer,
}

abbrev Is : Bool → InputEvent → Type 0
Is p e = e.pressed ≡ p

key_changes-Is :
    (held other : ℕ → Bool) (p : Bool) (m hid n : ℕ) → All (Is p) (key_changes held other p m hid n)
unfolding key_changes
key_changes-Is held other p m hid zero = tt
key_changes-Is held other p m hid (suc n) =
    ground (arith, key_changes-Is held other p m (suc hid) n)

modifier_changes-Is :
    (held other : ℕ) (p : Bool) (m mask : ℕ) (hids : List ℕ)
    → All (Is p) (modifier_changes held other p m mask hids)
unfolding modifier_changes
modifier_changes-Is held other p m mask [] = tt
modifier_changes-Is held other p m mask (hid ∷ hids) =
    ground (arith, modifier_changes-Is held other p m (mask * 2) hids)

abbrev pub Released : InputEvent → Type 0
Released e = e.pressed ≡ false

abbrev pub Pressed : InputEvent → Type 0
Pressed e = e.pressed ≡ true

-- Once a key is pressed, no later event of the list releases one.
abbrev pub ReleasesFirst : List InputEvent → Type 0
ReleasesFirst [] = Unit {0}
ReleasesFirst (e ∷ es) = ((e.pressed ≡ true) → All Pressed es) × ReleasesFirst es

ReleasesFirst-presses : (es : List InputEvent) → All Pressed es → ReleasesFirst es
ReleasesFirst-presses [] h = tt
ReleasesFirst-presses (e ∷ es) (p, h) = (λ _. h, ReleasesFirst-presses es h)

ReleasesFirst-append :
    (es fs : List InputEvent) → All Released es → ReleasesFirst fs → ReleasesFirst (es ++ fs)
ReleasesFirst-append [] fs h k = k
ReleasesFirst-append (e ∷ es) fs (p, h) k = (λ q. cc, ReleasesFirst-append es fs h k)

key_events-ReleasesFirst : (d : InputDecoder) (op : List ℕ) → ReleasesFirst (key_events d op)
unfolding key_events
key_events-ReleasesFirst d op =
    let m = u8 (get_u16 op 6) in
    let now = reported op in
    let es2 = modifier_changes d.modifiers m false m 1 modifier_hid in
    let es3 = modifier_changes m d.modifiers true m 1 modifier_hid in
    let es4 = key_changes now d.keys true m 1 255 in
    ReleasesFirst-append (key_changes d.keys now false m 1 255) (es2 ++ (es3 ++ es4))
      (key_changes-Is d.keys now false m 1 255)
      (ReleasesFirst-append es2 (es3 ++ es4)
        (modifier_changes-Is d.modifiers m false m 1 modifier_hid)
        (ReleasesFirst-presses (es3 ++ es4) (
          All-append Pressed es3 es4 (modifier_changes-Is m d.modifiers true m 1 modifier_hid)
            (key_changes-Is now d.keys true m 1 255))))

accepted_events :
    (d : InputDecoder) (op : List ℕ) {es : List InputEvent}
    → (keyboard d op).0 ≡ some es
    → key_events d op ≡ es
unfolding keyboard
accepted_events d op e = ground arith

-- The events of an accepted keyboard report release keys before they press any.
pub keyboard-ReleasesFirst :
    (d : InputDecoder) (op : List ℕ) {es : List InputEvent}
    → (keyboard d op).0 ≡ some es
    → ReleasesFirst es
keyboard-ReleasesFirst d op e =
    subst ReleasesFirst (accepted_events d op e) (key_events-ReleasesFirst d op)

key_changes_same : (held : ℕ → Bool) (p : Bool) (m hid n : ℕ) → key_changes held held p m hid n ≡ []
unfolding key_changes
key_changes_same held p m hid zero = refl
key_changes_same held p m hid (suc n) = ground (arith, key_changes_same held p m (suc hid) n)

modifier_changes_same :
    (flags : ℕ) (p : Bool) (m mask : ℕ) (hids : List ℕ)
    → modifier_changes flags flags p m mask hids ≡ []
unfolding modifier_changes
modifier_changes_same flags p m mask [] = refl
modifier_changes_same flags p m mask (hid ∷ hids) =
    ground (arith, modifier_changes_same flags p m (mask * 2) hids)

-- A keyboard report that repeats the last accepted one gives no event and leaves the decoder.
pub keyboard_repeated :
    (d : InputDecoder) (op : List ℕ) {es : List InputEvent}
    → (keyboard d op).0 ≡ some es
    → keyboard (keyboard d op).1 op ≡ (some [], (keyboard d op).1)
unfolding keyboard key_events
keyboard_repeated d op e = ground (
  arith,
  key_changes_same (reported op) false (u8 (get_u16 op 6)) 1 255,
  key_changes_same (reported op) true (u8 (get_u16 op 6)) 1 255,
  modifier_changes_same (u8 (get_u16 op 6)) false (u8 (get_u16 op 6)) 1 modifier_hid,
  modifier_changes_same (u8 (get_u16 op 6)) true (u8 (get_u16 op 6)) 1 modifier_hid,
)

-- A short report, or one with another code, is refused by both decoders, which stay as they are.
pub input_refused :
    (d : InputDecoder) (op : List ℕ)
    → ((length op < 16) → keyboard d op ≡ (none, d))
      × ((length op < 12) → pointer d op ≡ (none, d))
      × ((get_or op 0 0 ≢ 0xC1) → keyboard d op ≡ (none, d))
      × ((get_or op 0 0 ≢ 0xC2) → pointer d op ≡ (none, d))
unfolding keyboard pointer
input_refused d op = (λ h. ground arith, λ h. ground arith, λ h. ground arith, λ h. ground arith)
