-- ===== src/Vnc/Keysym/Inverse.antt =====
-- Each keysym comes from one key.
use sun_ray2server.Prelude.{
  ℕ, zero, suc, ◌+◌, ◌-◌, ◌<◌, ◌≡◌, refl, sym, ◌∙◌, Bool, true, ◌&&◌, List, [], ◌∷◌, none, some,
  leb, ◌==◌, if◌then◌else◌, arith,
}
use sun_ray2server.Vnc.Keysym.{hid_keysyms, keysym_for_hid}

abbrev find_hid : List (ℕ × ℕ) → ℕ → ℕ
find_hid [] keysym = 0
find_hid ((h, k) ∷ rest) keysym =
    let others = find_hid rest keysym in if k == keysym then h else others

-- The key of a keysym.
unfoldable hid_for_keysym : ℕ → ℕ
hid_for_keysym k =
    if leb 0x61 k && leb k 0x7A
    then k - 0x61 + 0x04
    else if leb 0x31 k && leb k 0x39
    then k - 0x31 + 0x1E
    else if k == 0x30
    then 0x27
    else if leb 0xFFBE k && leb k 0xFFC9
    then k - 0xFFBE + 0x3A
    else find_hid hid_keysyms k

abbrev goes_back : ℕ → Bool
goes_back hid = elim (keysym_for_hid hid) [ none ↦ true | some k ↦ hid_for_keysym k == hid ]

abbrev every : ℕ → Bool
every zero = true
every (suc n) = let rest = every n in goes_back n && rest

every_lem : (n hid : ℕ) → every n ≡ true → hid < n → goes_back hid ≡ true
every_lem zero hid e h = absurd (omega arith)
every_lem (suc n) hid e h = ground (arith, every_lem n hid)

every_key : every 256 ≡ true
unfolding keysym_for_hid hid_for_keysym
every_key = refl

goes_back_lem :
    (hid k : ℕ) → goes_back hid ≡ true → keysym_for_hid hid ≡ some k → hid_for_keysym k ≡ hid
goes_back_lem hid k e f = ground (arith, e, f)

-- No two keys have the same keysym.
pub keysym_for_hid_injective :
    (h h' k : ℕ)
    → h < 256
    → h' < 256
    → keysym_for_hid h ≡ some k
    → keysym_for_hid h' ≡ some k
    → h ≡ h'
keysym_for_hid_injective h h' k lo lo' e e' =
    sym (goes_back_lem h k (every_lem 256 h every_key lo) e)
    ∙ goes_back_lem h' k (every_lem 256 h' every_key lo') e'
