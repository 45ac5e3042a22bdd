-- ===== src/Display/Input.antt =====
-- internal/display/input.go: keyboard and pointer reports decoded into events. The arrays of 256
-- Booleans are functions of the index.
pub mod Replay
pub mod Order
use sun_ray2server.Prelude.{
  ℕ, zero, suc, ◌-◌, ◌*◌, Bool, true, false, ◌&&◌, ◌||◌, not, List, [], ◌∷◌, ◌++◌, Option, none,
  some, length, get_or, take, drop, ltb, ◌==◌, if◌then◌else◌, bit_and,
}
use sun_ray2server.Prelude.Bytes.{u8, get_u16}
use sun_ray2server.Prelude.Int.{ℤ, pos, negsuc}

pub data InputKind : Type 0 where
  input_key input_pointer : InputKind

pub record InputEvent : Type 0 where
  pub kind : InputKind
  pub hid : ℕ
  pub pressed : Bool
  pub modifiers : ℕ
  pub x : ℕ
  pub y : ℕ
  pub buttons : ℕ
  pub wheel : ℤ

pub record InputDecoder : Type 0 where
  pub keys : ℕ → Bool
  pub modifiers : ℕ
  pub pointer_seen : Bool
  pub pointer_x : ℕ
  pub pointer_y : ℕ
  pub pointer_buttons : ℕ

-- The zero value of the struct.
unfoldable pub new_decoder : InputDecoder
new_decoder = record {
  keys = λ hid. false;
  modifiers = 0;
  pointer_seen = false;
  pointer_x = 0;
  pointer_y = 0;
  pointer_buttons = 0;
}

abbrev pub modifier_hid : List ℕ
modifier_hid = 0xE0 ∷ 0xE1 ∷ 0xE2 ∷ 0xE3 ∷ 0xE4 ∷ 0xE5 ∷ 0xE6 ∷ 0xE7 ∷ []

unfoldable pub key_input : ℕ → Bool → ℕ → InputEvent
key_input hid pressed modifiers = record {
  kind = input_key;
  hid = hid;
  pressed = pressed;
  modifiers = modifiers;
  x = 0;
  y = 0;
  buttons = 0;
  wheel = pos 0;
}

-- `for _, hid := range operation[8:14] { if hid != 0 { current[hid] = true } }`
unfoldable pub mark_keys : (ℕ → Bool) → List ℕ → ℕ → Bool
mark_keys current [] = current
mark_keys current (hid ∷ rest) =
    mark_keys (λ k. if hid == 0 then current k else if k == hid then true else current k) rest

-- `for hid := 1; hid < 256; hid++`, over the keys held in `held` and not in `other`; with the rounds
-- left as the last number.
unfoldable pub key_changes : (ℕ → Bool) → (ℕ → Bool) → Bool → ℕ → ℕ → ℕ → List InputEvent
unfolding key_input
key_changes held other pressed modifiers hid zero = []
key_changes held other pressed modifiers hid (suc n) =
    let rest = key_changes held other pressed modifiers (suc hid) n in
    if held hid && not (other hid) then key_input hid pressed modifiers ∷ rest else rest

-- `for bit, hid := range modifierHID`, over the bits set in `held` and not in `other`.
unfoldable pub modifier_changes : ℕ → ℕ → Bool → ℕ → ℕ → List ℕ → List InputEvent
unfolding key_input
modifier_changes held other pressed modifiers mask [] = []
modifier_changes held other pressed modifiers mask (hid ∷ hids) =
    let rest = modifier_changes held other pressed modifiers (mask * 2) hids in
    if not (bit_and held mask == 0) && bit_and other mask == 0
    then key_input hid pressed modifiers ∷ rest
    else rest

-- The report's keys: operation[8:14].
unfoldable pub reported : List ℕ → ℕ → Bool
unfolding mark_keys
reported operation = mark_keys (λ k. false) (take 6 (drop 8 operation))

unfoldable pub key_events : InputDecoder → List ℕ → List InputEvent
key_events d operation =
    let modifiers = u8 (get_u16 operation 6) in
    let current = reported operation in
    key_changes d.keys current false modifiers 1 255
    ++ (modifier_changes d.modifiers modifiers false modifiers 1 modifier_hid
        ++ (modifier_changes modifiers d.modifiers true modifiers 1 modifier_hid
            ++ key_changes current d.keys true modifiers 1 255))

-- `none` is the error; the decoder is then unchanged.
unfoldable pub keyboard : InputDecoder → List ℕ → Option (List InputEvent) × InputDecoder
keyboard d operation =
    if ltb (length operation) 16 || not (get_or operation 0 0 == 0xC1) then (none, d) else (
      some (key_events d operation),
      record d { keys = reported operation; modifiers = u8 (get_u16 operation 6) },
    )

-- Go's int16(w) of a uint16.
abbrev pub int16 : ℕ → ℤ
int16 w = if ltb w 32768 then pos w else negsuc (65536 - w - 1)

abbrev pub is_zero : ℤ → Bool
is_zero (pos n) = n == 0
is_zero (negsuc n) = false

-- uint8(buttons) & 0x1F, from operation[4:6].
unfoldable pub report_buttons : List ℕ → ℕ
report_buttons operation = bit_and (u8 (get_u16 operation 4)) 0x1F

unfoldable pub pointer_event : List ℕ → InputEvent
pointer_event operation = record {
  kind = input_pointer;
  hid = 0;
  pressed = false;
  modifiers = 0;
  x = get_u16 operation 6;
  y = get_u16 operation 8;
  buttons = report_buttons operation;
  wheel = int16 (get_u16 operation 10);
}

-- The event with whether it says something new.
unfoldable pub pointer : InputDecoder → List ℕ → Option (InputEvent × Bool) × InputDecoder
unfolding pointer_event
pointer d operation =
    if ltb (length operation) 12 || not (get_or operation 0 0 == 0xC2)
    then (none, d)
    else let event = pointer_event operation in
      let changed =
        not d.pointer_seen
        || not (event.x == d.pointer_x)
        || not (event.y == d.pointer_y)
        || not (event.buttons == d.pointer_buttons)
        || not (is_zero event.wheel) in
      (
        some (event, changed),
        record d {
          pointer_seen = true;
          pointer_x = event.x;
          pointer_y = event.y;
          pointer_buttons = event.buttons;
        },
      )
