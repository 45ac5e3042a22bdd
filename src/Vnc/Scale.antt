-- ===== src/Vnc/Scale.antt =====
-- internal/vnc/scale.go: fitting a framebuffer into the screen.
use sun_ray2server.Prelude.{
  ℕ, ◌+◌, ◌-◌, ◌*◌, ◌/◌, ◌≤◌, ◌<◌, ◌≡◌, ◌⊎◌, inl, inr, max, Bool, ◌||◌, ltb, leb, if◌then◌else◌,
  Bool-cases, ltb→lt, arith,
}
use native.Mathlib.Nat.{mul_comm, mul-le-mul_right, div-mul-le_self, div-le_of_le-mul}

-- An image.Rectangle. The bounds of a framebuffer are not negative.
pub record Rectangle : Type 0 where
  pub min_x : ℕ
  pub min_y : ℕ
  pub max_x : ℕ
  pub max_y : ℕ

abbrev pub dx : Rectangle → ℕ
dx r = r.max_x - r.min_x

abbrev pub dy : Rectangle → ℕ
dy r = r.max_y - r.min_y

abbrev pub empty : Rectangle → Bool
empty r = leb r.max_x r.min_x || leb r.max_y r.min_y

abbrev pub zero_rectangle : Rectangle
zero_rectangle = record { min_x = 0; min_y = 0; max_x = 0; max_y = 0 }

-- Width and height: the full width, unless that makes the picture too high.
unfoldable pub fit_size : ℕ → ℕ → ℕ → ℕ → ℕ × ℕ
fit_size source_dx source_dy dest_dx dest_dy =
    let height = source_dy * dest_dx / source_dx in
    if ltb dest_dy height
    then (max (source_dx * dest_dy / source_dy) 1, max dest_dy 1)
    else (max dest_dx 1, max height 1)

unfoldable pub fit_rectangle : Rectangle → Rectangle → Rectangle
fit_rectangle source destination =
    let size = fit_size (dx source) (dy source) (dx destination) (dy destination) in
    let left = destination.min_x + (dx destination - size.0) / 2 in
    let top = destination.min_y + (dy destination - size.1) / 2 in
    if empty source || empty destination
    then zero_rectangle
    else record { min_x = left; min_y = top; max_x = left + size.0; max_y = top + size.1 }

-- A width that follows from the full height is not too large.
narrow : (sx sy dx dy : ℕ) → dy < sy * dx / sx → sx * dy / sy ≤ dx
narrow sx sy dx dy h =
    div-le_of_le-mul sy
      (omega (arith, mul-le-mul_right sx (below h), div-mul-le_self (sy * dx) sx, mul_comm sx dy))
  where
    below : {a b : ℕ} → a < b → a ≤ b
    below k = omega arith

fit_size_lem :
    (sx sy dx dy : ℕ)
    → 0 < dx
    → 0 < dy
    → let s = fit_size sx sy dx dy in
      (1 ≤ s.0) × (s.0 ≤ dx) × (1 ≤ s.1) × (s.1 ≤ dy) × ((s.0 ≡ dx) ⊎ (s.1 ≡ dy))
unfolding fit_size
fit_size_lem sx sy dx dy hx hy = elim (Bool-cases (ltb dy (sy * dx / sx))) [
  | inl e ↦
      let w = narrow sx sy dx dy (ltb→lt dy (sy * dx / sx) e) in
      rw e (omega arith, omega arith, omega arith, omega arith, inr (omega arith))
  | inr e ↦ rw e (omega arith, omega arith, omega arith, ground (arith, e), inl (omega arith))
]

-- A picture and a screen that are not empty: the fitted rectangle is not empty, lies on the screen,
-- has the screen's full width or its full height, and is centred up to one pixel in both directions.
pub fit_rectangle_lem :
    (s d : Rectangle)
    → s.min_x < s.max_x
    → s.min_y < s.max_y
    → d.min_x < d.max_x
    → d.min_y < d.max_y
    → let r = fit_rectangle s d in
      (r.min_x < r.max_x)
      × (r.min_y < r.max_y)
      × (d.min_x ≤ r.min_x)
      × (r.max_x ≤ d.max_x)
      × (d.min_y ≤ r.min_y)
      × (r.max_y ≤ d.max_y)
      × ((dx r ≡ dx d) ⊎ (dy r ≡ dy d))
      × (r.min_x - d.min_x ≤ d.max_x - r.max_x)
      × (d.max_x - r.max_x ≤ r.min_x - d.min_x + 1)
      × (r.min_y - d.min_y ≤ d.max_y - r.max_y)
      × (d.max_y - r.max_y ≤ r.min_y - d.min_y + 1)
unfolding fit_rectangle
fit_rectangle_lem s d a b c e =
    ground (arith, fit_size_lem (dx s) (dy s) (dx d) (dy d) (omega arith) (omega arith))
