-- ===== src/Vnc/Keysym.antt =====
-- internal/vnc/keysym.go: the keysyms of USB keyboard usages.
pub mod Inverse
use sun_ray2server.Prelude.{
  ℕ, ◌+◌, ◌-◌, ◌&&◌, List, [], ◌∷◌, Option, none, some, leb, ◌==◌, if◌then◌else◌,
}

-- The map, as an association list.
abbrev pub hid_keysyms : List (ℕ × ℕ)
hid_keysyms =
    (0x28, 0xFF0D)
    ∷ (0x29, 0xFF1B)
    ∷ (0x2A, 0xFF08)
    ∷ (0x2B, 0xFF09)
    ∷ (0x2C, 0x20)
    ∷ (0x2D, 0x2D)
    ∷ (0x2E, 0x3D)
    ∷ (0x2F, 0x5B)
    ∷ (0x30, 0x5D)
    ∷ (0x31, 0x5C)
    ∷ (0x32, 0x23)
    ∷ (0x33, 0x3B)
    ∷ (0x34, 0x27)
    ∷ (0x35, 0x60)
    ∷ (0x36, 0x2C)
    ∷ (0x37, 0x2E)
    ∷ (0x38, 0x2F)
    ∷ (0x39, 0xFFE5)
    ∷ (0x46, 0xFF61)
    ∷ (0x47, 0xFF14)
    ∷ (0x48, 0xFF13)
    ∷ (0x49, 0xFF63)
    ∷ (0x4A, 0xFF50)
    ∷ (0x4B, 0xFF55)
    ∷ (0x4C, 0xFFFF)
    ∷ (0x4D, 0xFF57)
    ∷ (0x4E, 0xFF56)
    ∷ (0x4F, 0xFF53)
    ∷ (0x50, 0xFF51)
    ∷ (0x51, 0xFF54)
    ∷ (0x52, 0xFF52)
    ∷ (0x53, 0xFF7F)
    ∷ (0x54, 0xFFAF)
    ∷ (0x55, 0xFFAA)
    ∷ (0x56, 0xFFAD)
    ∷ (0x57, 0xFFAB)
    ∷ (0x58, 0xFF8D)
    ∷ (0x59, 0xFFB1)
    ∷ (0x5A, 0xFFB2)
    ∷ (0x5B, 0xFFB3)
    ∷ (0x5C, 0xFFB4)
    ∷ (0x5D, 0xFFB5)
    ∷ (0x5E, 0xFFB6)
    ∷ (0x5F, 0xFFB7)
    ∷ (0x60, 0xFFB8)
    ∷ (0x61, 0xFFB9)
    ∷ (0x62, 0xFFB0)
    ∷ (0x63, 0xFFAE)
    ∷ (0xE0, 0xFFE3)
    ∷ (0xE1, 0xFFE1)
    ∷ (0xE2, 0xFFE9)
    ∷ (0xE3, 0xFFEB)
    ∷ (0xE4, 0xFFE4)
    ∷ (0xE5, 0xFFE2)
    ∷ (0xE6, 0xFFEA)
    ∷ (0xE7, 0xFFEC)
    ∷ []

abbrev pub find_keysym : List (ℕ × ℕ) → ℕ → Option ℕ
find_keysym [] hid = none
find_keysym ((h, k) ∷ rest) hid =
    let others = find_keysym rest hid in if h == hid then some k else others

-- Letters, digits, the map, and then F1 to F12.
unfoldable pub keysym_for_hid : ℕ → Option ℕ
keysym_for_hid hid =
    if leb 0x04 hid && leb hid 0x1D
    then some (0x61 + (hid - 0x04))
    else if leb 0x1E hid && leb hid 0x26
    then some (0x31 + (hid - 0x1E))
    else if hid == 0x27
    then some 0x30
    else elim (find_keysym hid_keysyms hid) [
      | some k ↦ some k
      | none ↦ if leb 0x3A hid && leb hid 0x45 then some (0xFFBE + (hid - 0x3A)) else none
    ]
