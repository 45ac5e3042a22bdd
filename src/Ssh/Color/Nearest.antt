-- ===== src/Ssh/Color/Nearest.antt =====
-- The palette search finds a nearest colour.
use sun_ray2server.Prelude.{
  ℕ, suc, ◌+◌, ◌≤◌, ◌<◌, ◌≡◌, ◌⊎◌, inl, inr, refl, ap, sym, ◌∙◌, ◌*◌, Bool, true, false, List, [],
  ◌∷◌, All, length, get_or, ltb, ltb→lt, if◌then◌else◌, Bool-cases, arith,
}
use mathlib.Core.Path.{subst}
use native.Mathlib.Nat.{mul-le-mul}
use sun_ray2server.Ssh.Color.{Rgb, rgb, palette, distance, nearest, nearest_palette}

abbrev Found : Rgb → ℕ × ℕ → ℕ → List Rgb → ℕ × ℕ → Type 0
Found c best i ds s =
    (s.1 ≤ best.1)
    × All (λ d. s.1 ≤ distance c d) ds
    × ((s ≡ best)
        ⊎ ((k : ℕ) × (k < length ds)
            × (s.0 ≡ i + k)
            × (s.1 ≡ distance c (get_or ds k (rgb 0 0 0)))))

module _ (c d : Rgb) (best : ℕ × ℕ) (i : ℕ) (ds : List Rgb) (s : ℕ × ℕ) where
  Found-taken :
      distance c d < best.1 → Found c (i, distance c d) (i + 1) ds s → Found c best i (d ∷ ds) s
  Found-taken lt (le, all, inl e) =
      (omega arith, (le, all), inr (0, omega arith, ap (λ p. p.0) e ∙ omega arith, ap (λ p. p.1) e))
  Found-taken lt (le, all, inr (k, h, p, q)) =
      (omega arith, (le, all), inr (suc k, omega arith, omega arith, q))

  Found-kept : best.1 ≤ distance c d → Found c best (i + 1) ds s → Found c best i (d ∷ ds) s
  Found-kept ge (le, all, inl e) = (le, (omega arith, all), inl e)
  Found-kept ge (le, all, inr (k, h, p, q)) =
      (le, (omega arith, all), inr (suc k, omega arith, omega arith, q))

nearest_next :
    (c d : Rgb) (best : ℕ × ℕ) (i : ℕ) (ds : List Rgb) (b : Bool)
    → ltb (distance c d) best.1 ≡ b
    → nearest c best i (d ∷ ds) ≡ nearest c (if b then (i, distance c d) else best) (i + 1) ds
unfolding nearest
nearest_next c d best i ds b e =
    ap (λ (x : Bool). nearest c (if x then (i, distance c d) else best) (i + 1) ds) e

nearest_nil : (c : Rgb) (best : ℕ × ℕ) (i : ℕ) → nearest c best i [] ≡ best
unfolding nearest
nearest_nil c best i = refl

nearest_lem :
    (c : Rgb) (best : ℕ × ℕ) (i : ℕ) (ds : List Rgb) → Found c best i ds (nearest c best i ds)
nearest_lem c best i [] = rw (nearest_nil c best i) (omega arith, tt, inl refl)
nearest_lem c best i (d ∷ ds) = elim (Bool-cases (ltb (distance c d) best.1)) [
  | inl e ↦
      let taken : ℕ × ℕ = (i, distance c d) in
      subst (Found c best i (d ∷ ds)) (sym (nearest_next c d best i ds true e)) (
        Found-taken c d best i ds (nearest c taken (i + 1) ds) (ltb→lt (distance c d) best.1 e)
          (nearest_lem c taken (i + 1) ds))
  | inr e ↦ subst (Found c best i (d ∷ ds)) (sym (nearest_next c d best i ds false e)) (
      Found-kept c d best i ds (nearest c best (i + 1) ds) (ground arith)
        (nearest_lem c best (i + 1) ds))
]

square_le : (r : ℕ) → r < 256 → r * r ≤ 65025
square_le r h = mul-le-mul (le r h) (le r h)
  where
    le : (a : ℕ) → a < 256 → a ≤ 255
    le a k = omega arith

distance-black : (r g b : ℕ) → distance (rgb r g b) (rgb 0 0 0) ≡ r * r + g * g + b * b
unfolding distance
distance-black r g b = ground arith

-- For three bytes the search names one of the 16 palette colours, and none of the 16 is nearer to
-- the given colour by the sum of the squared differences.
pub nearest_palette_lem :
    (r g b : ℕ)
    → r < 256
    → g < 256
    → b < 256
    → let c = rgb r g b in
      (nearest_palette c < 16)
      × All
          (λ d. distance c (get_or palette (nearest_palette c) (rgb 0 0 0)) ≤ distance c d)
          palette
unfolding nearest_palette
nearest_palette_lem r g b hr hg hb =
    let c = rgb r g b in
    named c (nearest c (0, 9223372036854775807) 0 palette) (distance-black r g b)
      (nearest_lem c (0, 9223372036854775807) 0 palette)
  where
    named :
        (c : Rgb) (s : ℕ × ℕ)
        → distance c (rgb 0 0 0) ≡ r * r + g * g + b * b
        → Found c (0, 9223372036854775807) 0 palette s
        → (s.0 < 16) × All (λ d. distance c (get_or palette s.0 (rgb 0 0 0)) ≤ distance c d) palette
    named c s e (le, all, inl p) =
        absurd
          (omega (arith, square_le r hr, square_le g hg, square_le b hb, all.0, ap (λ q. q.1) p))
    named c s e (le, all, inr (k, h, p, q)) =
        let index : s.0 ≡ k = omega arith in (omega arith, rw (index, ← q) all)
