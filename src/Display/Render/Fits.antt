-- ===== src/Display/Render/Fits.antt =====
-- Tiles lie in the picture and their bitmaps fit a datagram.
use native.Mathlib.Nat.{mul-div-le, mul-le-mul_left}
use sun_ray2server.Prelude.{
  ℕ, zero, suc, ◌+◌, ◌*◌, ◌/◌, ◌≤◌, ◌≡◌, ◌⊎◌, inl, inr, refl, sym, ap, ◌∙◌, min, max, true, false,
  ◌&&◌, ◌||◌, List, [], ◌∷◌, length, set, length-set, ltb, ◌==◌, if◌then◌else◌, if_true, if_false,
  All, Bool-cases, arith,
}
use mathlib.Core.Path.{subst}
use sun_ray2server.Display.Operation.{round4, write_at}
use sun_ray2server.Display.Render.Pixels.{Rgba, same_rgba}
use sun_ray2server.Display.Render.Tiles.{
  Image, row_pixels, row_bytes, write_rows, write_bits, write_bit_rows, set_bit, Choice,
  rows_that_fit, packets_for, choose_tile, search_tile, best_tile_size, bi_color_tile_size, cuts,
}

pub length-write_at : (b : List ℕ) (i : ℕ) (xs : List ℕ) → length (write_at b i xs) ≡ length b
length-write_at b i [] = refl
length-write_at b i (x ∷ xs) = length-write_at (set b i x) (suc i) xs ∙ length-set b i x

pub length-write_rows :
    (img : Image) (stride n left x y : ℕ) (b : List ℕ) (pos : ℕ)
    → length (write_rows img stride n left x y b pos) ≡ length b
length-write_rows img stride n zero x y b pos = refl
length-write_rows img stride n (suc left) x y b pos =
    length-write_rows img stride n left x (suc y) _ (pos + stride)
    ∙ length-write_at b pos (row_bytes (row_pixels img n x y))

length-write_bits :
    (c : Rgba) (b : List ℕ) (row x : ℕ) (ps : List Rgba)
    → length (write_bits c b row x ps) ≡ length b
length-write_bits c b row x [] = refl
length-write_bits c b row x (p ∷ ps) =
    length-write_bits c (if same_rgba p c then set_bit b row x else b) row (suc x) ps
    ∙ elim (Bool-cases (same_rgba p c)) [
      | inl e ↦ ap (λ l. length l) (if_true _ _ _ e) ∙ length-set b (row + x / 8) _
      | inr e ↦ ap (λ l. length l) (if_false _ _ _ e)
    ]

pub length-write_bit_rows :
    (img : Image) (c : Rgba) (stride n left x y : ℕ) (b : List ℕ) (row : ℕ)
    → length (write_bit_rows img c stride n left x y b row) ≡ length b
length-write_bit_rows img c stride n zero x y b row = refl
length-write_bit_rows img c stride n (suc left) x y b row =
    length-write_bit_rows img c stride n left x (suc y) _ (row + stride)
    ∙ length-write_bits c b row 0 (row_pixels img n x y)

-- A tile of the picture whose bitmap fits.
abbrev pub Fits : ℕ → ℕ → ℕ → ℕ → Type 0
Fits total_width total_height w h =
    (1 ≤ w) × (w ≤ total_width) × (1 ≤ h) × (h ≤ total_height) × (round4 (w * 3) * h ≤ 1420)

max-cases : (q : ℕ) → (max 1 q ≡ 1) ⊎ (max 1 q ≡ q)
max-cases zero = inl (omega arith)
max-cases (suc q) = inr (omega arith)

-- As many rows of `r` bytes as fit `n` bytes.
rows_fit : (n r h : ℕ) → r ≤ n → r * min h (max 1 (n / r)) ≤ n
rows_fit n r h le =
    let q = n / r in
    let one : r * 1 ≤ n = omega (arith, le) in
    let most : r * max 1 q ≤ n = elim (max-cases q) [
      | inl e ↦ subst (λ m. r * m ≤ n) (sym e) one
      | inr e ↦ subst (λ m. r * m ≤ n) (sym e) (mul-div-le n r)
    ] in
    omega (arith, most, mul-le-mul_left {m = min h (max 1 q)} {n = max 1 q} r (omega arith))

rows_that_fit-Fits :
    (total_width total_height w : ℕ)
    → 1 ≤ total_height
    → 1 ≤ w
    → w ≤ total_width
    → w ≤ 473
    → Fits total_width total_height w (rows_that_fit total_height w)
unfolding round4
rows_that_fit-Fits total_width total_height w th one le small =
    let r = round4 (w * 3) in
    (one, le, omega arith, omega arith, rows_fit 1420 r total_height (omega arith))

choose_tile-Fits :
    (total_width total_height w : ℕ) (best : Choice)
    → 1 ≤ total_height
    → 1 ≤ w
    → w ≤ total_width
    → w ≤ 473
    → Fits total_width total_height best.tile_width best.tile_height
    → let c = choose_tile total_width total_height w best in
      Fits total_width total_height c.tile_width c.tile_height
unfolding choose_tile
choose_tile-Fits total_width total_height w best th one le small f =
    let h = rows_that_fit total_height w in
    let packets = packets_for total_width total_height w h in
    elim (ltb packets best.packets || (packets == best.packets && ltb best.tile_width w))
      as (λ b.
        let c : Choice =
          if b then record { tile_width = w; tile_height = h; packets = packets } else best in
        Fits total_width total_height c.tile_width c.tile_height) [
          | true ↦ rows_that_fit-Fits total_width total_height w th one le small
          | false ↦ f
        ]

search_tile-Fits :
    (total_width total_height left w : ℕ) (best : Choice)
    → 1 ≤ total_height
    → 1 ≤ w
    → w + left ≤ suc (min total_width 473)
    → Fits total_width total_height best.tile_width best.tile_height
    → let c = search_tile total_width total_height left w best in
      Fits total_width total_height c.tile_width c.tile_height
search_tile-Fits total_width total_height zero w best th one le f = f
search_tile-Fits total_width total_height (suc left) w best th one le f =
    search_tile-Fits total_width total_height left (suc w) _ th (omega arith) (omega arith)
      (choose_tile-Fits total_width total_height w best th one (omega arith) (omega arith) f)

pub best_tile_size-Fits : (w h : ℕ) → 1 ≤ w → 1 ≤ h → let t = best_tile_size w h in Fits w h t.0 t.1
unfolding best_tile_size round4
best_tile_size-Fits w h a b =
    let small =
      search_tile w h (min w 473) 1 (record { tile_width = 1; tile_height = 1; packets = w * h }) in
    elim (ltb w 1024)
      as (λ c.
        let t : ℕ × ℕ =
          if c
          then (small.tile_width, small.tile_height)
          else (min w 473, rows_that_fit h (min w 473)) in
        Fits w h t.0 t.1) [
          | true ↦
              search_tile-Fits w h (min w 473) 1
                (record { tile_width = 1; tile_height = 1; packets = w * h }) b (omega arith)
                (omega arith) (omega arith, a, omega arith, b, omega arith)
          | false ↦ rows_that_fit-Fits w h (min w 473) b (omega arith) (omega arith) (omega arith)
        ]

abbrev pub IsCut : ℕ → ℕ → ℕ × ℕ → Type 0
IsCut size total c = (1 ≤ c.1) × (c.1 ≤ size) × (c.0 + c.1 ≤ total)

-- The tiles of one direction: each has a length, at most the given one, and they end at the total.
pub cuts-All :
    (left size total x : ℕ) → 1 ≤ size → All (λ c. IsCut size total c) (cuts left size total x)
unfolding cuts
cuts-All zero size total x s = tt
cuts-All (suc left) size total x s = elim (Bool-cases (ltb x total)) [
  | inl e ↦
      subst (λ l. All (λ c. IsCut size total c) l) (sym (if_true _ _ _ e))
        (
          (ground (arith, e, s), ground (arith, e), ground (arith, e)),
          cuts-All left size total (x + size) s,
        )
  | inr e ↦ subst (λ l. All (λ c. IsCut size total c) l) (sym (if_false _ _ _ e)) tt
]

pub bi_color_tile_size-Fits :
    (w h : ℕ)
    → 1 ≤ w
    → 1 ≤ h
    → let t = bi_color_tile_size w h in
      (1 ≤ t.0) × (t.0 ≤ w) × (1 ≤ t.1) × (t.1 ≤ h) × ((t.0 + 7) / 8 * t.1 ≤ 1412)
unfolding bi_color_tile_size
bi_color_tile_size-Fits w h a b = (
  omega arith,
  omega arith,
  omega arith,
  omega arith,
  rows_fit 1412 ((min w 11296 + 7) / 8) h (omega arith),
)
