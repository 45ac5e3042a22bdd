-- ===== src/Ssh/Keyboard/Typing.antt =====
-- What typing sends.
use sun_ray2server.Prelude.{
  ℕ, zero, suc, ◌-◌, ◌≤◌, ◌<◌, ◌≡◌, ◌⊎◌, inl, inr, refl, sym, Bool, true, false, ◌&&◌, ◌||◌, not,
  List, [], ◌∷◌, Option, none, some, get_or, length, leb, ◌==◌, if◌then◌else◌, if_true, if_false,
  All, Bool-cases, arith,
}
use mathlib.Core.Path.{subst}
use sun_ray2server.Text.{Text, codes}
use sun_ray2server.Display.Input.{InputEvent}
use sun_ray2server.Ssh.Keyboard.{
  find_key, printable_hid, special_hid, function_keys, letter, digit, function_sequence,
  special_sequence, printable_sequence, key_sequence, with_alt, is_key, key_bytes, control_held,
  shift_held, alt_held,
}

-- One to five ASCII bytes, or none.
abbrev IsTyped : Text → Type 0
IsTyped s = All (λ b. b < 128) s × (length s ≤ 5)

find_key-All :
    {V : Type 0} (P : V → Type 0) (k : ℕ) (m : List (ℕ × V)) (v : V)
    → All (λ e. P e.1) m
    → find_key k m ≡ some v
    → P v
unfolding find_key
find_key-All P k [] v a e = absurd (ground (arith, e))
find_key-All P k ((j, w) ∷ m) v (p, a) e = elim (Bool-cases (j == k)) [
  | inl s ↦ subst P (ground (arith, e, s)) p
  | inr s ↦ find_key-All P k m v a (ground (arith, e, s))
]

get_or-All :
    {A : Type 0} (P : A → Type 0) (xs : List A) (i : ℕ) (d : A) → All P xs → P d → P (get_or xs i d)
get_or-All P [] i d h p = p
get_or-All P (x ∷ xs) zero d (q, h) p = q
get_or-All P (x ∷ xs) (suc i) d (q, h) p = get_or-All P xs i d h p

one-IsTyped : (b : ℕ) → b < 128 → IsTyped (b ∷ [])
one-IsTyped b h = ((h, tt), omega arith)

IsTyped-if : (b : Bool) (s t : Text) → IsTyped s → IsTyped t → IsTyped (if b then s else t)
IsTyped-if true s t h k = h
IsTyped-if false s t h k = k

letter_ascii :
    (hid : ℕ) (control shift caps : Bool)
    → (leb 4 hid && leb hid 0x1D) ≡ true
    → letter hid control shift caps < 128
letter_ascii hid control shift caps h = ground (arith, h)

digit_ascii : (hid : ℕ) (shift : Bool) → digit hid shift < 128
digit_ascii hid true =
    get_or-All (λ b. b < 128) (codes "!@#$%^&*()") (hid - 0x1E) 0 (omega arith) (omega arith)
digit_ascii hid false =
    get_or-All (λ b. b < 128) (codes "1234567890") (hid - 0x1E) 0 (omega arith) (omega arith)

function_sequence-IsTyped : (hid : ℕ) → IsTyped (function_sequence hid)
function_sequence-IsTyped hid =
    IsTyped-if (leb 0x3A hid && leb hid 0x45) (get_or function_keys (hid - 0x3A) []) []
      (get_or-All (λ s. IsTyped s) function_keys (hid - 0x3A) [] (omega arith) (tt, omega arith))
      (tt, omega arith)

special_sequence-IsTyped :
    (hid : ℕ) (o : Option Text) → find_key hid special_hid ≡ o → IsTyped (special_sequence hid o)
special_sequence-IsTyped hid none e = function_sequence-IsTyped hid
special_sequence-IsTyped hid (some v) e =
    find_key-All (λ s. IsTyped s) hid special_hid v (omega arith) e

printable_sequence-IsTyped :
    (hid : ℕ) (shift : Bool) (o : Option (ℕ × ℕ))
    → find_key hid printable_hid ≡ o
    → IsTyped (printable_sequence hid shift o)
printable_sequence-IsTyped hid shift none e =
    special_sequence-IsTyped hid (find_key hid special_hid) refl
printable_sequence-IsTyped hid shift (some (plain, shifted)) e =
    let both : (plain < 128) × (shifted < 128) =
      find_key-All (λ p. (p.0 < 128) × (p.1 < 128)) hid printable_hid (plain, shifted) (omega arith)
        e in
    one-IsTyped (if shift then shifted else plain) (ground (arith, both))

key_sequence-IsTyped :
    (hid : ℕ) (control shift caps : Bool) → IsTyped (key_sequence hid control shift caps)
unfolding key_sequence
key_sequence-IsTyped hid control shift caps = elim (Bool-cases (leb 4 hid && leb hid 0x1D)) [
  | inl e ↦
      subst IsTyped (sym (if_true (leb 4 hid && leb hid 0x1D) _ _ e))
        (one-IsTyped (letter hid control shift caps) (letter_ascii hid control shift caps e))
  | inr e ↦ subst IsTyped (sym (if_false (leb 4 hid && leb hid 0x1D) _ _ e)) (
      IsTyped-if (leb 0x1E hid && leb hid 0x27) (digit hid shift ∷ []) _
        (one-IsTyped (digit hid shift) (digit_ascii hid shift))
        (printable_sequence-IsTyped hid shift (find_key hid printable_hid) refl))
]

with_alt_ascii :
    (alt : Bool) (s : Text)
    → IsTyped s
    → All (λ b. b < 128) (with_alt alt s) × (length (with_alt alt s) ≤ 6)
with_alt_ascii alt [] h = (tt, omega arith)
with_alt_ascii true (b ∷ bs) (h, l) = ((omega arith, h), omega (arith, l))
with_alt_ascii false (b ∷ bs) (h, l) = (h, omega (arith, l))

-- Whatever the event, its modifiers and the caps lock, at most six bytes are typed, and they are ASCII;
-- a release, a pointer event and a modifier key type nothing.
pub key_bytes_ascii :
    (e : InputEvent) (caps : Bool)
    → All (λ b. b < 128) (key_bytes e caps)
      × (length (key_bytes e caps) ≤ 6)
      × ((key_bytes e caps ≡ []) ⊎ ((is_key e.kind ≡ true) × (e.pressed ≡ true) × (e.hid < 0xE0)))
unfolding key_bytes
key_bytes_ascii e caps =
    let typed =
      with_alt_ascii (alt_held e.modifiers)
        (key_sequence e.hid (control_held e.modifiers) (shift_held e.modifiers) caps)
        (key_sequence-IsTyped e.hid (control_held e.modifiers) (shift_held e.modifiers) caps) in
    elim (Bool-cases (not (is_key e.kind) || (not e.pressed || leb 0xE0 e.hid))) [
      | inl s ↦
          let nothing : key_bytes e caps ≡ [] =
            if_true (not (is_key e.kind) || (not e.pressed || leb 0xE0 e.hid)) _ _ s in
          subst
            (λ l.
              All (λ b. b < 128) l
              × (length l ≤ 6)
              × ((l ≡ []) ⊎ ((is_key e.kind ≡ true) × (e.pressed ≡ true) × (e.hid < 0xE0))))
            (sym nothing) (tt, omega arith, inl refl)
      | inr s ↦
          let (a, b) =
            subst (λ l. All (λ b. b < 128) l × (length l ≤ 6))
              (sym (if_false (not (is_key e.kind) || (not e.pressed || leb 0xE0 e.hid)) _ _ s))
              typed in
          (a, b, inr (ground (arith, s), ground (arith, s), ground (arith, s)))
    ]
