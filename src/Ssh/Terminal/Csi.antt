-- ===== src/Ssh/Terminal/Csi.antt =====
-- internal/sshclient/terminal.go: the parameters of a control sequence and what it does.
use sun_ray2server.Prelude.{
  ℕ, zero, suc, ◌+◌, ◌-◌, ◌*◌, ◌%◌, Bool, ◌&&◌, ◌||◌, List, [], ◌∷◌, Option, none, some, map, ltb,
  leb, ◌==◌, if◌then◌else◌,
}
use sun_ray2server.Prelude.Int.{ℤ, pos, negsuc, ◌+ℤ◌, ◌-ℤ◌}
use sun_ray2server.Ssh.Color.{sgr}
use sun_ray2server.Ssh.Screen.{
  Terminal, move_cursor, scroll_up, scroll_down, insert_line, delete_line, insert_chars,
  delete_chars, erase_chars, erase_line, erase_display,
}

-- `strconv.Atoi` on the digits: none for a bad character, and the largest uint64 from the digit on
-- that passes it, whatever is behind.
abbrev pub parse_uint : ℕ → List ℕ → Option ℕ
parse_uint acc [] = some acc
parse_uint acc (c ∷ cs) =
    let next = acc * 10 + (c - 0x30) in
    let rest = parse_uint next cs in
    if leb 0x30 c && leb c 0x39
    then (if leb 18446744073709551616 next then some 18446744073709551615 else rest)
    else none

abbrev pub positive : Option ℕ → ℤ
positive none = pos 0
positive (some n) = if leb 9223372036854775808 n then pos 9223372036854775807 else pos n

abbrev pub negative : Option ℕ → ℤ
negative none = pos 0
negative (some zero) = pos 0
negative (some (suc n)) = if leb 9223372036854775808 n then negsuc 9223372036854775807 else negsuc n

-- The digits, of which there is one at least.
abbrev pub digits : List ℕ → Option ℕ
digits [] = none
digits (c ∷ cs) = parse_uint 0 (c ∷ cs)

-- The value that `strconv.Atoi` returns, its error dropped: 0 where the text is no number, and the
-- nearest int where it does not fit.
abbrev pub atoi : List ℕ → ℤ
atoi [] = pos 0
atoi (c ∷ cs) =
    if c == 0x2D
    then negative (digits cs)
    else if c == 0x2B
    then positive (digits cs)
    else positive (digits (c ∷ cs))

abbrev pub is_prefix_mark : ℕ → Bool
is_prefix_mark c = c == 0x3F || c == 0x3E || c == 0x3C || c == 0x21

abbrev pub trim_left : List ℕ → List ℕ
trim_left [] = []
trim_left (c ∷ cs) = let rest = trim_left cs in if is_prefix_mark c then rest else c ∷ cs

abbrev pub add_first : ℕ → List (List ℕ) → List (List ℕ)
add_first c [] = (c ∷ []) ∷ []
add_first c (p ∷ ps) = (c ∷ p) ∷ ps

-- `strings.Split(value, ";")`
abbrev pub split : List ℕ → List (List ℕ)
split [] = [] ∷ []
split (c ∷ cs) = let rest = split cs in if c == 0x3B then [] ∷ rest else add_first c rest

abbrev pub parse_parts : List ℕ → List ℤ
parse_parts [] = []
parse_parts (c ∷ cs) = map atoi (split (c ∷ cs))

unfoldable pub parse_params : List ℕ → List ℤ
parse_params value = parse_parts (trim_left value)

abbrev pub or_fallback : ℤ → ℤ → ℤ
or_fallback (pos zero) fallback = fallback
or_fallback (pos (suc n)) fallback = pos (suc n)
or_fallback (negsuc n) fallback = negsuc n

-- The closure `p` of `executeCSI`.
unfoldable pub param : List ℤ → ℕ → ℤ → ℤ
param [] i fallback = fallback
param (v ∷ vs) zero fallback = or_fallback v fallback
param (v ∷ vs) (suc i) fallback = param vs i fallback

-- Arithmetic on int wraps at 64 bits.
abbrev pub int64 : ℤ → ℤ
int64 (pos n) =
    let m = n % 18446744073709551616 in
    if ltb m 9223372036854775808 then pos m else negsuc (18446744073709551615 - m)
int64 (negsuc n) =
    let m = n % 18446744073709551616 in
    if ltb m 9223372036854775808 then negsuc m else pos (18446744073709551615 - m)

-- `for range n`: no round where n is negative.
unfoldable pub repeat : ℕ → (Terminal → Terminal) → Terminal → Terminal
repeat zero f t = t
repeat (suc n) f t = repeat n f (f t)

abbrev pub repeat_for : ℤ → (Terminal → Terminal) → Terminal → Terminal
repeat_for (pos n) f t = repeat n f t
repeat_for (negsuc n) f t = t

-- `top >= 0 && bottom < t.rows && top < bottom`
abbrev pub region_of : ℤ → ℤ → ℕ → Option (ℕ × ℕ)
region_of (pos top) (pos bottom) rows =
    if ltb bottom rows && ltb top bottom then some (top, bottom) else none
region_of _ _ rows = none

unfoldable pub set_region : Terminal → List ℤ → Terminal
set_region t params =
    let top = int64 (param params 0 (pos 1) -ℤ pos 1) in
    let bottom = int64 (param params 1 (pos t.rows) -ℤ pos 1) in
    elim (region_of top bottom t.rows) [
      | none ↦ t
      | some (a, b) ↦ move_cursor (record t { scroll_top = a; scroll_bottom = b }) (pos 0) (pos 0)
    ]

-- The cases of the switch that move the cursor, or none of them.
unfoldable pub csi_target : Terminal → List ℤ → ℕ → Option (ℤ × ℤ)
csi_target t params final =
    let n = param params 0 (pos 1) in
    let x = pos t.cursor_x in
    let y = pos t.cursor_y in
    let before = int64 (n -ℤ pos 1) in
    if final == 0x41
    then some (int64 (y -ℤ n), x)
    else if final == 0x42 || final == 0x65
    then some (int64 (y +ℤ n), x)
    else if final == 0x43 || final == 0x61
    then some (y, int64 (x +ℤ n))
    else if final == 0x44
    then some (y, int64 (x -ℤ n))
    else if final == 0x45
    then some (int64 (y +ℤ n), pos 0)
    else if final == 0x46
    then some (int64 (y -ℤ n), pos 0)
    else if final == 0x47 || final == 0x60
    then some (y, before)
    else if final == 0x48 || final == 0x66
    then some (before, int64 (param params 1 (pos 1) -ℤ pos 1))
    else if final == 0x64
    then some (before, x)
    else if final == 0x75
    then some (pos t.saved_y, pos t.saved_x)
    else none

-- The other cases.
unfoldable pub csi_edit : Terminal → List ℤ → ℕ → Terminal
csi_edit t params final =
    let n = param params 0 (pos 1) in
    let mode = param params 0 (pos 0) in
    if final == 0x4A
    then erase_display t mode
    else if final == 0x4B
    then erase_line t mode
    else if final == 0x6D
    then record t { pen = sgr t.pen params }
    else if final == 0x73
    then record t { saved_x = t.cursor_x; saved_y = t.cursor_y }
    else if final == 0x72
    then set_region t params
    else if final == 0x53
    then repeat_for n scroll_up t
    else if final == 0x54
    then repeat_for n scroll_down t
    else if final == 0x40
    then insert_chars t n
    else if final == 0x50
    then delete_chars t n
    else if final == 0x58
    then erase_chars t n
    else if final == 0x4C
    then repeat_for n insert_line t
    else if final == 0x4D
    then repeat_for n delete_line t
    else t

unfoldable pub execute_csi : Terminal → ℕ → Terminal
execute_csi t final =
    let params = parse_params t.csi in
    elim (csi_target t params final) [
      | some (row, col) ↦ move_cursor t row col
      | none ↦ csi_edit t params final
    ]
