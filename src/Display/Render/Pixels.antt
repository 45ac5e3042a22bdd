-- ===== src/Display/Render/Pixels.antt =====
-- internal/display/render.go: the classification of scanlines and the bands of compatible ones.
use sun_ray2server.Prelude.{
  ℕ, suc, Bool, true, false, ◌&&◌, ◌||◌, not, List, [], ◌∷◌, ltb, ◌==◌, if◌then◌else◌,
}

pub record Rgba : Type 0 where
  pub red : ℕ
  pub green : ℕ
  pub blue : ℕ
  pub alpha : ℕ

-- `a == b`
unfoldable pub same_rgba : Rgba → Rgba → Bool
same_rgba a b = a.red == b.red && (a.green == b.green && (a.blue == b.blue && a.alpha == b.alpha))

unfoldable pub rgba_less : Rgba → Rgba → Bool
rgba_less a b =
    if not (a.red == b.red)
    then ltb a.red b.red
    else if not (a.green == b.green)
    then ltb a.green b.green
    else if not (a.blue == b.blue)
    then ltb a.blue b.blue
    else ltb a.alpha b.alpha

pub data ScanlineKind : Type 0 where
  scanline_rgb scanline_fill scanline_bi_color : ScanlineKind

pub record ScanlineEncoding : Type 0 where
  pub kind : ScanlineKind
  pub color0 : Rgba
  pub color1 : Rgba

abbrev pub transparent : Rgba
transparent = record { red = 0; green = 0; blue = 0; alpha = 0 }

abbrev pub bi_color : Rgba → Rgba → ScanlineEncoding
bi_color a b = record { kind = scanline_bi_color; color0 = a; color1 = b }

-- The loop of classifyScanline once there are two colours, and the exchange behind it.
unfoldable pub scan_two : Rgba → Rgba → List Rgba → ScanlineEncoding
scan_two a b [] = if rgba_less b a then bi_color b a else bi_color a b
scan_two a b (p ∷ ps) =
    let rest = scan_two a b ps in
    if same_rgba p a || same_rgba p b
    then rest
    else record { kind = scanline_rgb; color0 = a; color1 = b }

-- The loop while there is one colour.
unfoldable pub scan_one : Rgba → List Rgba → ScanlineEncoding
scan_one a [] = record { kind = scanline_fill; color0 = a; color1 = transparent }
scan_one a (p ∷ ps) = let rest = scan_one a ps in if same_rgba p a then rest else scan_two a p ps

-- The pixels of a line; the code reads the first without asking, and its caller has one.
unfoldable pub classify_scanline : List Rgba → ScanlineEncoding
classify_scanline [] = record { kind = scanline_fill; color0 = transparent; color1 = transparent }
classify_scanline (p ∷ ps) = scan_one p ps

abbrev pub compatible_kinds :
    ScanlineKind → ScanlineKind → ScanlineEncoding → ScanlineEncoding → Bool
compatible_kinds scanline_rgb scanline_rgb a b = true
compatible_kinds scanline_fill scanline_fill a b = same_rgba a.color0 b.color0
compatible_kinds scanline_bi_color scanline_bi_color a b =
    same_rgba a.color0 b.color0 && same_rgba a.color1 b.color1
compatible_kinds _ _ a b = false

unfoldable pub compatible_scanlines : ScanlineEncoding → ScanlineEncoding → Bool
compatible_scanlines a b = compatible_kinds a.kind b.kind a b

-- The encoding of a band's first line, and the number of its lines.
pub record Band : Type 0 where
  pub encoding : ScanlineEncoding
  pub count : ℕ

-- The inner loop, which takes lines that are compatible with the first, and the outer one.
unfoldable pub grow_band : ScanlineEncoding → ℕ → List ScanlineEncoding → List Band
grow_band e n [] = record { encoding = e; count = n } ∷ []
grow_band e n (f ∷ es) =
    let longer = grow_band e (suc n) es in
    let next = grow_band f 1 es in
    if compatible_scanlines e f then longer else record { encoding = e; count = n } ∷ next

unfoldable pub merge_scanlines : List ScanlineEncoding → List Band
merge_scanlines [] = []
merge_scanlines (e ∷ es) = grow_band e 1 es
