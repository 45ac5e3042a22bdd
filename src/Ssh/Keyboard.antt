-- ===== src/Ssh/Keyboard.antt =====
-- internal/sshclient/keyboard.go, and HandleInput of internal/sshclient/session.go: the bytes that a
-- pressed key sends to the remote terminal.
pub mod Typing
use sun_ray2server.Prelude.{
  ℕ, ◌+◌, ◌-◌, Bool, true, false, ◌&&◌, ◌||◌, not, List, [], ◌∷◌, ◌++◌, Option, none, some, get_or,
  leb, ◌==◌, if◌then◌else◌, bit_and,
}
use sun_ray2server.Text.{Text, codes}
use sun_ray2server.Display.Input.{InputKind, input_key, input_pointer, InputEvent}

-- The first entry of a table with this key.
unfoldable pub find_key {ℓ} : {V : Type ℓ} → ℕ → List (ℕ × V) → Option V
find_key k [] = none
find_key k ((j, v) ∷ m) = let rest = find_key k m in if j == k then some v else rest

-- The bytes without and with shift.
abbrev pub printable_hid : List (ℕ × (ℕ × ℕ))
printable_hid =
    (0x2C, (0x20, 0x20))
    ∷ (0x2D, (0x2D, 0x5F))
    ∷ (0x2E, (0x3D, 0x2B))
    ∷ (0x2F, (0x5B, 0x7B))
    ∷ (0x30, (0x5D, 0x7D))
    ∷ (0x31, (0x5C, 0x7C))
    ∷ (0x32, (0x23, 0x7E))
    ∷ (0x33, (0x3B, 0x3A))
    ∷ (0x34, (0x27, 0x22))
    ∷ (0x35, (0x60, 0x7E))
    ∷ (0x36, (0x2C, 0x3C))
    ∷ (0x37, (0x2E, 0x3E))
    ∷ (0x38, (0x2F, 0x3F))
    ∷ []

abbrev pub escape_with : Text → Text
escape_with s = 0x1B ∷ s

abbrev pub special_hid : List (ℕ × Text)
special_hid =
    (0x28, 0x0D ∷ [])
    ∷ (0x29, 0x1B ∷ [])
    ∷ (0x2A, 0x7F ∷ [])
    ∷ (0x2B, 0x09 ∷ [])
    ∷ (0x49, escape_with (codes "[2~"))
    ∷ (0x4A, escape_with (codes "[H"))
    ∷ (0x4B, escape_with (codes "[5~"))
    ∷ (0x4C, escape_with (codes "[3~"))
    ∷ (0x4D, escape_with (codes "[F"))
    ∷ (0x4E, escape_with (codes "[6~"))
    ∷ (0x4F, escape_with (codes "[C"))
    ∷ (0x50, escape_with (codes "[D"))
    ∷ (0x51, escape_with (codes "[B"))
    ∷ (0x52, escape_with (codes "[A"))
    ∷ (0x54, codes "/")
    ∷ (0x55, codes "*")
    ∷ (0x56, codes "-")
    ∷ (0x57, codes "+")
    ∷ (0x58, 0x0D ∷ [])
    ∷ (0x59, codes "1")
    ∷ (0x5A, codes "2")
    ∷ (0x5B, codes "3")
    ∷ (0x5C, codes "4")
    ∷ (0x5D, codes "5")
    ∷ (0x5E, codes "6")
    ∷ (0x5F, codes "7")
    ∷ (0x60, codes "8")
    ∷ (0x61, codes "9")
    ∷ (0x62, codes "0")
    ∷ (0x63, codes ".")
    ∷ []

abbrev pub function_keys : List Text
function_keys =
    escape_with (codes "OP")
    ∷ escape_with (codes "OQ")
    ∷ escape_with (codes "OR")
    ∷ escape_with (codes "OS")
    ∷ escape_with (codes "[15~")
    ∷ escape_with (codes "[17~")
    ∷ escape_with (codes "[18~")
    ∷ escape_with (codes "[19~")
    ∷ escape_with (codes "[20~")
    ∷ escape_with (codes "[21~")
    ∷ escape_with (codes "[23~")
    ∷ escape_with (codes "[24~")
    ∷ []

-- `event.Modifiers & mask != 0`
abbrev pub has_modifier : ℕ → ℕ → Bool
has_modifier modifiers mask = not (bit_and modifiers mask == 0)

abbrev pub control_held : ℕ → Bool
control_held modifiers = has_modifier modifiers 0x11

abbrev pub shift_held : ℕ → Bool
shift_held modifiers = has_modifier modifiers 0x22

abbrev pub alt_held : ℕ → Bool
alt_held modifiers = has_modifier modifiers 0x44

abbrev pub letter : ℕ → Bool → Bool → Bool → ℕ
letter hid control shift caps =
    if control
    then hid - 4 + 1
    else if (if caps then not shift else shift)
    then 0x61 + hid - 4 - 32
    else 0x61 + hid - 4

abbrev pub digit : ℕ → Bool → ℕ
digit hid shift = get_or (if shift then codes "!@#$%^&*()" else codes "1234567890") (hid - 0x1E) 0

abbrev pub function_sequence : ℕ → Text
function_sequence hid =
    if leb 0x3A hid && leb hid 0x45 then get_or function_keys (hid - 0x3A) [] else []

abbrev pub special_sequence : ℕ → Option Text → Text
special_sequence hid (some value) = value
special_sequence hid none = function_sequence hid

abbrev pub printable_sequence : ℕ → Bool → Option (ℕ × ℕ) → Text
printable_sequence hid shift (some (plain, shifted)) = (if shift then shifted else plain) ∷ []
printable_sequence hid shift none = special_sequence hid (find_key hid special_hid)

unfoldable pub key_sequence : ℕ → Bool → Bool → Bool → Text
key_sequence hid control shift caps =
    if leb 0x04 hid && leb hid 0x1D
    then letter hid control shift caps ∷ []
    else if leb 0x1E hid && leb hid 0x27
    then digit hid shift ∷ []
    else printable_sequence hid shift (find_key hid printable_hid)

-- `append([]byte{0x1B}, sequence...)` for a sequence that is not empty.
abbrev pub with_alt : Bool → Text → Text
with_alt alt [] = []
with_alt alt (b ∷ bs) = if alt then 0x1B ∷ b ∷ bs else b ∷ bs

abbrev pub is_key : InputKind → Bool
is_key input_key = true
is_key input_pointer = false

unfoldable pub key_bytes : InputEvent → Bool → Text
key_bytes e caps =
    if not (is_key e.kind) || (not e.pressed || leb 0xE0 e.hid)
    then []
    else with_alt (alt_held e.modifiers)
        (key_sequence e.hid (control_held e.modifiers) (shift_held e.modifiers) caps)

-- The caps lock of the session, and what was written to the standard input of the remote shell; none
-- before there is one. A failing write is only logged.
pub record KeySession : Type 0 where
  pub caps : Bool
  pub stdin : Option Text

abbrev pub write_stdin : Option Text → Text → Option Text
write_stdin none bytes = none
write_stdin (some written) bytes = some (written ++ bytes)

unfoldable pub handle_input : KeySession → InputEvent → KeySession
handle_input s e =
    if not (is_key e.kind) || not e.pressed
    then s
    else if e.hid == 0x39
    then record s { caps = not s.caps }
    else record s { stdin = write_stdin s.stdin (key_bytes e s.caps) }
