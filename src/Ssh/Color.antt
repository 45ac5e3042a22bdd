-- ===== src/Ssh/Color.antt =====
-- internal/sshclient/terminal.go: colours and the SGR sequence.
pub mod Nearest
use sun_ray2server.Prelude.{
  ℕ, zero, suc, ◌+◌, ◌-◌, ◌*◌, ◌/◌, ◌%◌, min, max, Bool, true, false, ◌&&◌, ◌||◌, List, [], ◌∷◌,
  Option, none, some, get_or, ltb, leb, ◌==◌, if◌then◌else◌,
}
use sun_ray2server.Prelude.Int.{ℤ, pos, negsuc}

pub record Rgb : Type 0 where
  pub red : ℕ
  pub green : ℕ
  pub blue : ℕ

abbrev pub rgb : ℕ → ℕ → ℕ → Rgb
rgb r g b = record { red = r; green = g; blue = b }

abbrev pub palette : List Rgb
palette =
    rgb 0 0 0
    ∷ rgb 205 49 49
    ∷ rgb 13 188 121
    ∷ rgb 229 229 16
    ∷ rgb 36 114 200
    ∷ rgb 188 63 188
    ∷ rgb 17 168 205
    ∷ rgb 229 229 229
    ∷ rgb 102 102 102
    ∷ rgb 241 76 76
    ∷ rgb 35 209 139
    ∷ rgb 245 245 67
    ∷ rgb 59 142 234
    ∷ rgb 214 112 214
    ∷ rgb 41 184 219
    ∷ rgb 255 255 255
    ∷ []

-- The square of a difference.
abbrev pub square_diff : ℕ → ℕ → ℕ
square_diff a b = (max a b - min a b) * (max a b - min a b)

unfoldable pub distance : Rgb → Rgb → ℕ
distance c d = square_diff c.red d.red + square_diff c.green d.green + square_diff c.blue d.blue

-- The loop over the palette: the best index and its distance so far, and the current index.
unfoldable pub nearest : Rgb → ℕ × ℕ → ℕ → List Rgb → ℕ × ℕ
nearest c best i [] = best
nearest c best i (d ∷ ds) =
    nearest c (if ltb (distance c d) best.1 then (i, distance c d) else best) (i + 1) ds

-- It starts at the largest int.
unfoldable pub nearest_palette : Rgb → ℕ
unfolding nearest
nearest_palette c = (nearest c (0, 9223372036854775807) 0 palette).0

abbrev pub clamp_byte : ℤ → ℕ
clamp_byte (pos n) = min n 255
clamp_byte (negsuc n) = 0

abbrev pub levels : List ℕ
levels = 0 ∷ 95 ∷ 135 ∷ 175 ∷ 215 ∷ 255 ∷ []

unfoldable pub xterm_color : ℤ → Rgb
xterm_color index =
    let i = clamp_byte index in
    if ltb i 16
    then get_or palette i (rgb 0 0 0)
    else if ltb i 232
    then (let j = i - 16 in
        rgb (get_or levels (j / 36) 0) (get_or levels (j / 6 % 6) 0) (get_or levels (j % 6) 0))
    else let gray = (8 + (i - 232) * 10) % 256 in rgb gray gray gray

abbrev pub is_pos : ℤ → ℕ → Bool
is_pos (pos n) k = n == k
is_pos (negsuc n) k = false

-- The arguments of kind 2.
abbrev pub direct_color : List ℤ → Option (ℕ × ℕ)
direct_color (r ∷ g ∷ b ∷ rest) =
    some (nearest_palette (rgb (clamp_byte r) (clamp_byte g) (clamp_byte b)), 4)
direct_color _ = none

-- The palette index and how many arguments it took.
unfoldable pub extended_color : List ℤ → Option (ℕ × ℕ)
extended_color (kind ∷ index ∷ rest) =
    if is_pos kind 5
    then some (nearest_palette (xterm_color index), 2)
    else if is_pos kind 2
    then direct_color (index ∷ rest)
    else none
extended_color _ = none

pub record Pen : Type 0 where
  pub fg : ℕ
  pub bg : ℕ
  pub bold : Bool
  pub inverse : Bool

abbrev pub default_pen : Pen
default_pen = record { fg = 7; bg = 0; bold = false; inverse = false }

-- The cases of the switch that take no argument.
unfoldable pub select_graphic : Pen → ℕ → Pen
select_graphic pen v =
    if v == 0
    then default_pen
    else if v == 1
    then record pen { bold = true }
    else if v == 22
    then record pen { bold = false }
    else if v == 7
    then record pen { inverse = true }
    else if v == 27
    then record pen { inverse = false }
    else if leb 30 v && leb v 37
    then record pen { fg = v - 30 }
    else if v == 39
    then record pen { fg = 7 }
    else if leb 40 v && leb v 47
    then record pen { bg = v - 40 }
    else if v == 49
    then record pen { bg = 0 }
    else if leb 90 v && leb v 97
    then record pen { fg = v - 90 + 8 }
    else if leb 100 v && leb v 107
    then record pen { bg = v - 100 + 8 }
    else pen

-- One round of the loop, with the parameters behind: the pen, and how many of them it took.
unfoldable pub sgr_step : Pen → ℤ → List ℤ → Pen × ℕ
sgr_step pen (negsuc n) rest = (pen, 0)
sgr_step pen (pos v) rest =
    if v == 38 || v == 48
    then elim (extended_color rest) [
      | none ↦ (pen, 0)
      | some (color, consumed) ↦
          (if v == 38 then record pen { fg = color } else record pen { bg = color }, consumed)
    ]
    else (select_graphic pen v, 0)

-- The loop, with the number of parameters to pass over.
unfoldable pub sgr_loop : ℕ → Pen → List ℤ → Pen
sgr_loop skip pen [] = pen
sgr_loop (suc skip) pen (p ∷ ps) = sgr_loop skip pen ps
sgr_loop zero pen (p ∷ ps) = let r = sgr_step pen p ps in sgr_loop r.1 r.0 ps

unfoldable pub sgr : Pen → List ℤ → Pen
unfolding sgr_loop
sgr pen [] = sgr_loop 0 pen (pos 0 ∷ [])
sgr pen (p ∷ ps) = sgr_loop 0 pen (p ∷ ps)
