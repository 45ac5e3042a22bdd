-- ===== src/Display/Render/Sending.antt =====
-- Every operation of an encoded picture fits a datagram.
use native.Mathlib.Nat.{mul-le-mul}
use sun_ray2server.Prelude.{
  ℕ, zero, suc, ◌+◌, ◌*◌, ◌/◌, ◌≤◌, ◌<◌, ◌≡◌, refl, sym, ap, ◌∙◌, true, false, ◌||◌, not, List, [],
  ◌∷◌, map, Option, none, some, length, if◌then◌else◌, if_false, All, All-append, arith,
}
use mathlib.Core.Path.{subst}
use sun_ray2server.Display.Operation.{
  Operation, operation, round4, write_at, op_bitmap, op_bitmap_rgb,
}
use sun_ray2server.Display.Operation.Layout.{operation_layout, operation_shapes}
use sun_ray2server.Display.Client.Encoding.{Sendable}
use sun_ray2server.Display.Render.Pixels.{
  Rgba, ScanlineKind, scanline_rgb, scanline_fill, scanline_bi_color, ScanlineEncoding,
  compatible_scanlines, classify_scanline, Band, grow_band, merge_scanlines,
}
use sun_ray2server.Display.Render.Tiles.{
  Rectangle, Image, width, height, is_empty, lies_in, bitmap_rgb, bitmap_bi_color, color_bytes,
  tile_at, tiles, tile_row, tile_rows, and_all, one_operation, cuts, best_tile_size,
  bi_color_tile_size, append_bitmap_tiles, append_bi_color_tiles, scanlines, band_operations,
  bands_operations, encode_bitmap,
}
use sun_ray2server.Display.Render.Fits.{
  length-write_at, length-write_rows, length-write_bit_rows, IsCut, cuts-All, best_tile_size-Fits,
  bi_color_tile_size-Fits,
}

-- There is no error, and each operation can be sent.
abbrev pub AreSendable : Option (List Operation) → Type 0
AreSendable none = ⊥
AreSendable (some ops) = All Sendable ops

abbrev IsSendable : Option Operation → Type 0
IsSendable none = ⊥
IsSendable (some o) = Sendable o

pub and_all-AreSendable :
    (a b : Option (List Operation)) → AreSendable a → AreSendable b → AreSendable (and_all a b)
and_all-AreSendable none b h k = h
and_all-AreSendable (some ops) none h k = k
and_all-AreSendable (some ops) (some more) h k = All-append Sendable ops more h k

one_operation-AreSendable : (o : Option Operation) → IsSendable o → AreSendable (one_operation o)
one_operation-AreSendable none h = h
one_operation-AreSendable (some o) h = (h, tt)

-- A rectangle of the picture, with at least one pixel.
abbrev pub IsWithin : Rectangle → Image → Type 0
IsWithin r img =
    (r.min_x < r.max_x)
    × (r.min_y < r.max_y)
    × (img.bounds.min_x ≤ r.min_x)
    × (r.max_x ≤ img.bounds.max_x)
    × (img.bounds.min_y ≤ r.min_y)
    × (r.max_y ≤ img.bounds.max_y)

within_accepted :
    (r : Rectangle) (img : Image)
    → IsWithin r img
    → (is_empty r || not (lies_in r img.bounds)) ≡ false
within_accepted r img h = ground (arith, h)

bitmap_rgb-IsSendable :
    (img : Image) (r : Rectangle) (x y : ℕ)
    → IsWithin r img
    → round4 (width r * 3) * height r ≤ 1420
    → IsSendable (bitmap_rgb img r x y)
unfolding bitmap_rgb
bitmap_rgb-IsSendable img r x y h fit =
    let stride = round4 (width r * 3) in
    let o = operation op_bitmap_rgb x y (width r) (height r) (stride * height r) in
    let size =
      length-write_rows img stride (width r) (height r) r.min_x r.min_y o.bytes 12
      ∙ (operation_layout op_bitmap_rgb x y (width r) (height r) (stride * height r)).2 in
    subst IsSendable (sym (if_false _ _ _ (within_accepted r img h)))
      (omega (arith, size), omega (arith, size, fit))

bitmap_bi_color-IsSendable :
    (img : Image) (r : Rectangle) (x y : ℕ) (c0 c1 : Rgba)
    → IsWithin r img
    → (width r + 7) / 8 * height r ≤ 1412
    → IsSendable (bitmap_bi_color img r x y c0 c1)
unfolding bitmap_bi_color round4
bitmap_bi_color-IsSendable img r x y c0 c1 h fit =
    let stride = (width r + 7) / 8 in
    let n = 8 + round4 (stride * height r) in
    let o = operation op_bitmap x y (width r) (height r) n in
    let b1 = write_at o.bytes 12 (color_bytes c0) in
    let b2 = write_at b1 16 (color_bytes c1) in
    let size =
      length-write_bit_rows img c1 stride (width r) (height r) r.min_x r.min_y b2 20
      ∙ length-write_at b1 16 (color_bytes c1)
      ∙ length-write_at o.bytes 12 (color_bytes c0)
      ∙ (operation_layout op_bitmap x y (width r) (height r) n).2 in
    subst IsSendable (sym (if_false _ _ _ (within_accepted r img h)))
      (omega (arith, size), omega (arith, size, fit))

module _ (make : ℕ × ℕ → ℕ × ℕ → Option Operation) (tile_width tile_height w h : ℕ)
    (good : (yh xw : ℕ × ℕ)
      → IsCut tile_height h yh
      → IsCut tile_width w xw
      → IsSendable (make yh xw)) where
  tile_row-AreSendable :
      (yh : ℕ × ℕ) (columns : List (ℕ × ℕ))
      → IsCut tile_height h yh
      → All (λ c. IsCut tile_width w c) columns
      → AreSendable (tile_row make yh columns)
  tile_row-AreSendable yh [] a b = tt
  tile_row-AreSendable yh (xw ∷ rest) a (b, c) =
      and_all-AreSendable (one_operation (make yh xw)) (tile_row make yh rest)
        (one_operation-AreSendable (make yh xw) (good yh xw a b)) (tile_row-AreSendable yh rest a c)

  tile_rows-AreSendable :
      (rows columns : List (ℕ × ℕ))
      → All (λ c. IsCut tile_height h c) rows
      → All (λ c. IsCut tile_width w c) columns
      → AreSendable (tile_rows make rows columns)
  tile_rows-AreSendable [] columns a b = tt
  tile_rows-AreSendable (yh ∷ rest) columns (a, as_) b =
      and_all-AreSendable (tile_row make yh columns) (tile_rows make rest columns)
        (tile_row-AreSendable yh columns a b) (tile_rows-AreSendable rest columns as_ b)

  tiles-AreSendable :
      1 ≤ tile_width → 1 ≤ tile_height → AreSendable (tiles (tile_width, tile_height) w h make)
  tiles-AreSendable a b =
      tile_rows-AreSendable (cuts h tile_height h 0) (cuts w tile_width w 0)
        (cuts-All h tile_height h 0 b) (cuts-All w tile_width w 0 a)

tile-IsWithin :
    (source : Rectangle) (img : Image) (tile_width tile_height : ℕ) (yh xw : ℕ × ℕ)
    → IsWithin source img
    → IsCut tile_height (height source) yh
    → IsCut tile_width (width source) xw
    → IsWithin (tile_at source yh xw) img
      × (width (tile_at source yh xw) ≡ xw.1)
      × (height (tile_at source yh xw) ≡ yh.1)
tile-IsWithin source img tile_width tile_height (y, h) (x, w) i a b = (
  (
    ground (arith, i, a, b),
    ground (arith, i, a, b),
    ground (arith, i, a, b),
    ground (arith, i, a, b),
    ground (arith, i, a, b),
    ground (arith, i, a, b),
  ),
  omega arith,
  omega arith,
)

-- A smaller tile needs no more bytes.
rgb_fit :
    (w h tile_width tile_height : ℕ)
    → w ≤ tile_width
    → h ≤ tile_height
    → round4 (tile_width * 3) * tile_height ≤ 1420
    → round4 (w * 3) * h ≤ 1420
unfolding round4
rgb_fit w h tile_width tile_height a b fit = omega (
  arith,
  fit,
  mul-le-mul {n₁ = round4 (w * 3)} {m₁ = h} {n₂ = round4 (tile_width * 3)} {m₂ = tile_height}
      (omega arith) b,
)

bit_fit :
    (w h tile_width tile_height : ℕ)
    → w ≤ tile_width
    → h ≤ tile_height
    → (tile_width + 7) / 8 * tile_height ≤ 1412
    → (w + 7) / 8 * h ≤ 1412
bit_fit w h tile_width tile_height a b fit = omega (
  arith,
  fit,
  mul-le-mul {n₁ = (w + 7) / 8} {m₁ = h} {n₂ = (tile_width + 7) / 8} {m₂ = tile_height}
      (omega arith) b,
)

append_bitmap_tiles-AreSendable :
    (img : Image) (source : Rectangle) (x y : ℕ)
    → IsWithin source img
    → AreSendable (append_bitmap_tiles img source x y)
unfolding append_bitmap_tiles
append_bitmap_tiles-AreSendable img source x y i =
    let w = width source in
    let h = height source in
    let t = best_tile_size w h in
    let (one_w, le_w, one_h, le_h, fit) =
      best_tile_size-Fits w h (omega (arith, i.0)) (omega (arith, i.1)) in
    tiles-AreSendable (λ yh xw. bitmap_rgb img (tile_at source yh xw) (x + xw.0) (y + yh.0)) t.0 t.1
      w h
      (λ yh xw a b.
        let (inside, ew, eh) = tile-IsWithin source img t.0 t.1 yh xw i a b in
        bitmap_rgb-IsSendable img (tile_at source yh xw) (x + xw.0) (y + yh.0) inside (
          rgb_fit (width (tile_at source yh xw)) (height (tile_at source yh xw)) t.0 t.1
            (omega (arith, ew, b.1)) (omega (arith, eh, a.1)) fit))
      one_w one_h

append_bi_color_tiles-AreSendable :
    (img : Image) (source : Rectangle) (x y : ℕ) (c0 c1 : Rgba)
    → IsWithin source img
    → AreSendable (append_bi_color_tiles img source x y c0 c1)
unfolding append_bi_color_tiles
append_bi_color_tiles-AreSendable img source x y c0 c1 i =
    let w = width source in
    let h = height source in
    let t = bi_color_tile_size w h in
    let (one_w, le_w, one_h, le_h, fit) =
      bi_color_tile_size-Fits w h (omega (arith, i.0)) (omega (arith, i.1)) in
    tiles-AreSendable
      (λ yh xw. bitmap_bi_color img (tile_at source yh xw) (x + xw.0) (y + yh.0) c0 c1) t.0 t.1 w h
      (λ yh xw a b.
        let (inside, ew, eh) = tile-IsWithin source img t.0 t.1 yh xw i a b in
        bitmap_bi_color-IsSendable img (tile_at source yh xw) (x + xw.0) (y + yh.0) c0 c1 inside (
          bit_fit (width (tile_at source yh xw)) (height (tile_at source yh xw)) t.0 t.1
            (omega (arith, ew, b.1)) (omega (arith, eh, a.1)) fit))
      one_w one_h

-- The lines of all bands.
abbrev count_lines : List Band → ℕ
count_lines [] = 0
count_lines (b ∷ bs) = b.count + count_lines bs

abbrev AreCounted : List Band → Type 0
AreCounted bs = All (λ b. 1 ≤ b.count) bs

grow_band-AreCounted :
    (e : ScanlineEncoding) (n : ℕ) (es : List ScanlineEncoding)
    → 1 ≤ n
    → (count_lines (grow_band e n es) ≡ n + length es) × AreCounted (grow_band e n es)
unfolding grow_band
grow_band-AreCounted e n [] h = (omega arith, (h, tt))
grow_band-AreCounted e n (f ∷ es) h =
    let (long, longs) = grow_band-AreCounted e (suc n) es (omega arith) in
    let (next, nexts) = grow_band-AreCounted f 1 es (omega arith) in
    elim (compatible_scanlines e f)
      as (λ b.
        let bs : List Band =
          if b
          then grow_band e (suc n) es
          else record { encoding = e; count = n } ∷ grow_band f 1 es in
        (count_lines bs ≡ n + suc (length es)) × AreCounted bs) [
          | true ↦ (omega (arith, long), longs)
          | false ↦ (omega (arith, next), (h, nexts))
        ]

length-scanlines :
    (img : Image) (source : Rectangle) (n y : ℕ)
    → length (map (λ line. classify_scanline line) (scanlines img source n y)) ≡ n
length-scanlines img source zero y = refl
length-scanlines img source (suc n) y = ap suc (length-scanlines img source n (suc y))

merge_scanlines-AreCounted :
    (es : List ScanlineEncoding)
    → (count_lines (merge_scanlines es) ≡ length es) × AreCounted (merge_scanlines es)
unfolding merge_scanlines
merge_scanlines-AreCounted [] = (refl, tt)
merge_scanlines-AreCounted (e ∷ es) =
    let (total, counted) = grow_band-AreCounted e 1 es (omega arith) in
    (omega (arith, total), counted)

module _ (img : Image) (source : Rectangle) (dst_x dst_y : ℕ) (i : IsWithin source img) where
  band-IsWithin :
      (first n : ℕ)
      → 1 ≤ n
      → first + n ≤ height source
      → IsWithin
          (record source { min_y = source.min_y + first; max_y = source.min_y + first + n })
          img
  band-IsWithin first n a b =
      (i.0, omega arith, i.2, i.3, omega (arith, i.4), omega (arith, i.1, i.5))

  band_operations-AreSendable :
      (first : ℕ) (e : ScanlineEncoding) (k : ScanlineKind) (n : ℕ)
      → 1 ≤ n
      → first + n ≤ height source
      → AreSendable (band_operations img source dst_x dst_y first e k n)
  band_operations-AreSendable first e scanline_fill n a b =
      let size =
        (operation_shapes dst_x (dst_y + first) (width source) n 0 0 (record {
          red = e.color0.red * 257;
          green = e.color0.green * 257;
          blue = e.color0.blue * 257;
        })).1 in
      ((omega (arith, size), omega (arith, size)), tt)
  band_operations-AreSendable first e scanline_bi_color n a b =
      append_bi_color_tiles-AreSendable img _ dst_x (dst_y + first) e.color0 e.color1
        (band-IsWithin first n a b)
  band_operations-AreSendable first e scanline_rgb n a b =
      append_bitmap_tiles-AreSendable img _ dst_x (dst_y + first) (band-IsWithin first n a b)

  bands_operations-AreSendable :
      (first : ℕ) (bs : List Band)
      → AreCounted bs
      → first + count_lines bs ≤ height source
      → AreSendable (bands_operations img source dst_x dst_y first bs)
  bands_operations-AreSendable first [] c h = tt
  bands_operations-AreSendable first (b ∷ bs) (one, c) h =
      and_all-AreSendable
        (band_operations img source dst_x dst_y first b.encoding b.encoding.kind b.count)
        (bands_operations img source dst_x dst_y (first + b.count) bs)
        (band_operations-AreSendable first b.encoding b.encoding.kind b.count one (omega arith))
        (bands_operations-AreSendable (first + b.count) bs c (omega arith))

  -- Encoding a rectangle of an image, within its bounds and with one pixel or more, gives no error, and
  -- each operation carries its header and fits a datagram.
  pub encode_bitmap-AreSendable : AreSendable (encode_bitmap img source dst_x dst_y)
  unfolding encode_bitmap
  encode_bitmap-AreSendable =
      let es : List ScanlineEncoding =
        map (λ line. classify_scanline line) (scanlines img source (height source) source.min_y) in
      let (total, counted) = merge_scanlines-AreCounted es in
      subst AreSendable (sym (if_false (is_empty source) _ _ (ground (arith, i)))) (
        bands_operations-AreSendable 0 (merge_scanlines es) counted
          (omega (arith, total, length-scanlines img source (height source) source.min_y)))
