-- ===== src/Display/Render/Tiles.antt =====
-- internal/display/render.go and operation.go: bitmaps, and the tiles that fit a datagram.
use sun_ray2server.Prelude.{
  ℕ, zero, suc, ◌+◌, ◌-◌, ◌*◌, ◌/◌, ◌%◌, ◌^◌, min, max, bit_or, Bool, ◌&&◌, ◌||◌, not, List, [],
  ◌∷◌, ◌++◌, map, Option, none, some, ltb, leb, ◌==◌, if◌then◌else◌, get_or, set,
}
use sun_ray2server.Display.Operation.{
  Operation, operation, round4, write_at, fill, op_bitmap, op_bitmap_rgb,
}
use sun_ray2server.Display.Client.{max_datagram_size, packet_header_size}
use sun_ray2server.Display.Render.Pixels.{
  Rgba, same_rgba, ScanlineKind, scanline_rgb, scanline_fill, scanline_bi_color, ScanlineEncoding,
  classify_scanline, Band, merge_scanlines,
}

-- An image.Rectangle that is well formed, and an image with the colours of its pixels.
pub record Rectangle : Type 0 where
  pub min_x : ℕ
  pub min_y : ℕ
  pub max_x : ℕ
  pub max_y : ℕ

pub record Image : Type 0 where
  pub bounds : Rectangle
  pub rgba_at : ℕ → ℕ → Rgba

abbrev pub width : Rectangle → ℕ
width r = r.max_x - r.min_x

abbrev pub height : Rectangle → ℕ
height r = r.max_y - r.min_y

abbrev pub is_empty : Rectangle → Bool
is_empty r = leb r.max_x r.min_x || leb r.max_y r.min_y

-- Rectangle.In, for a rectangle that is not empty.
abbrev pub lies_in : Rectangle → Rectangle → Bool
lies_in r s =
    leb s.min_x r.min_x && (leb r.max_x s.max_x && (leb s.min_y r.min_y && leb r.max_y s.max_y))

abbrev pub max_rgb_payload : ℕ
max_rgb_payload = max_datagram_size - packet_header_size - 12

abbrev pub max_bitmap_bytes : ℕ
max_bitmap_bytes = max_datagram_size - packet_header_size - 20

-- `n` pixels of the line `y` from `x` on.
abbrev pub row_pixels : Image → ℕ → ℕ → ℕ → List Rgba
row_pixels img zero x y = []
row_pixels img (suc n) x y = img.rgba_at x y ∷ row_pixels img n (suc x) y

abbrev pub row_bytes : List Rgba → List ℕ
row_bytes [] = []
row_bytes (p ∷ ps) = p.blue ∷ p.green ∷ p.red ∷ row_bytes ps

-- The loop over the lines, with the lines left.
abbrev pub write_rows : Image → ℕ → ℕ → ℕ → ℕ → ℕ → List ℕ → ℕ → List ℕ
write_rows img stride n zero x y b pos = b
write_rows img stride n (suc left) x y b pos =
    write_rows img stride n left x (suc y) (write_at b pos (row_bytes (row_pixels img n x y)))
      (pos + stride)

unfoldable pub bitmap_rgb : Image → Rectangle → ℕ → ℕ → Option Operation
bitmap_rgb img r dst_x dst_y =
    let stride = round4 (width r * 3) in
    let o = operation op_bitmap_rgb dst_x dst_y (width r) (height r) (stride * height r) in
    if is_empty r || not (lies_in r img.bounds)
    then none
    else some
        (record o { bytes = write_rows img stride (width r) (height r) r.min_x r.min_y o.bytes 12 })

-- Setting the bit of the column `x` in the line that starts at `row`.
abbrev pub set_bit : List ℕ → ℕ → ℕ → List ℕ
set_bit b row x = set b (row + x / 8) (bit_or (get_or b (row + x / 8) 0) (2 ^ (7 - x % 8)))

abbrev pub write_bits : Rgba → List ℕ → ℕ → ℕ → List Rgba → List ℕ
write_bits c b row x [] = b
write_bits c b row x (p ∷ ps) =
    write_bits c (if same_rgba p c then set_bit b row x else b) row (suc x) ps

abbrev pub write_bit_rows : Image → Rgba → ℕ → ℕ → ℕ → ℕ → ℕ → List ℕ → ℕ → List ℕ
write_bit_rows img c stride n zero x y b row = b
write_bit_rows img c stride n (suc left) x y b row =
    write_bit_rows img c stride n left x (suc y) (write_bits c b row 0 (row_pixels img n x y))
      (row + stride)

abbrev pub color_bytes : Rgba → List ℕ
color_bytes c = 0 ∷ c.blue ∷ c.green ∷ c.red ∷ []

unfoldable pub bitmap_bi_color : Image → Rectangle → ℕ → ℕ → Rgba → Rgba → Option Operation
bitmap_bi_color img r dst_x dst_y c0 c1 =
    let stride = (width r + 7) / 8 in
    let o = operation op_bitmap dst_x dst_y (width r) (height r) (8 + round4 (stride * height r)) in
    let b = write_at (write_at o.bytes 12 (color_bytes c0)) 16 (color_bytes c1) in
    if is_empty r || not (lies_in r img.bounds)
    then none
    else some (record o {
      bytes = write_bit_rows img c1 stride (width r) (height r) r.min_x r.min_y b 20;
    })

-- The best tile so far, and the packets that it takes.
pub record Choice : Type 0 where
  pub tile_width : ℕ
  pub tile_height : ℕ
  pub packets : ℕ

abbrev pub rows_that_fit : ℕ → ℕ → ℕ
rows_that_fit h w = min h (max 1 (max_rgb_payload / round4 (w * 3)))

abbrev pub packets_for : ℕ → ℕ → ℕ → ℕ → ℕ
packets_for total_width total_height w h = (total_width + w - 1) / w * ((total_height + h - 1) / h)

unfoldable pub choose_tile : ℕ → ℕ → ℕ → Choice → Choice
choose_tile total_width total_height w best =
    let h = rows_that_fit total_height w in
    let packets = packets_for total_width total_height w h in
    if ltb packets best.packets || (packets == best.packets && ltb best.tile_width w)
    then record { tile_width = w; tile_height = h; packets = packets }
    else best

-- The loop over the widths from `w` on, with the rounds left.
abbrev pub search_tile : ℕ → ℕ → ℕ → ℕ → Choice → Choice
search_tile total_width total_height zero w best = best
search_tile total_width total_height (suc left) w best =
    search_tile total_width total_height left (suc w) (choose_tile total_width total_height w best)

unfoldable pub best_tile_size : ℕ → ℕ → ℕ × ℕ
best_tile_size w h =
    let best =
      search_tile w h (min w (max_rgb_payload / 3)) 1
        (record { tile_width = 1; tile_height = 1; packets = w * h }) in
    let tile_width = min w (max_rgb_payload / 3) in
    if ltb w 1024
    then (best.tile_width, best.tile_height)
    else (tile_width, rows_that_fit h tile_width)

unfoldable pub bi_color_tile_size : ℕ → ℕ → ℕ × ℕ
bi_color_tile_size w h =
    let tile_width = min w (max_bitmap_bytes * 8) in
    (tile_width, min h (max 1 (max_bitmap_bytes / ((tile_width + 7) / 8))))

-- `for x := 0; x < total; x += size` with the size that is left, for the rounds left.
unfoldable pub cuts : ℕ → ℕ → ℕ → ℕ → List (ℕ × ℕ)
cuts zero size total x = []
cuts (suc left) size total x =
    let rest = cuts left size total (x + size) in
    if ltb x total then (x, min size (total - x)) ∷ rest else []

-- The tile at a column and a line.
abbrev pub tile_at : Rectangle → ℕ × ℕ → ℕ × ℕ → Rectangle
tile_at source (y, h) (x, w) = record {
  min_x = source.min_x + x;
  min_y = source.min_y + y;
  max_x = source.min_x + x + w;
  max_y = source.min_y + y + h;
}

-- The calls in order; the first error ends them.
abbrev pub and_all : Option (List Operation) → Option (List Operation) → Option (List Operation)
and_all none rest = none
and_all (some ops) none = none
and_all (some ops) (some more) = some (ops ++ more)

abbrev pub one_operation : Option Operation → Option (List Operation)
one_operation none = none
one_operation (some o) = some (o ∷ [])

module _ (make : ℕ × ℕ → ℕ × ℕ → Option Operation) where
  abbrev pub tile_row : ℕ × ℕ → List (ℕ × ℕ) → Option (List Operation)
  tile_row yh [] = some []
  tile_row yh (xw ∷ rest) = and_all (one_operation (make yh xw)) (tile_row yh rest)

  abbrev pub tile_rows : List (ℕ × ℕ) → List (ℕ × ℕ) → Option (List Operation)
  tile_rows [] columns = some []
  tile_rows (yh ∷ rest) columns = and_all (tile_row yh columns) (tile_rows rest columns)

abbrev pub tiles : ℕ × ℕ → ℕ → ℕ → (ℕ × ℕ → ℕ × ℕ → Option Operation) → Option (List Operation)
tiles (tile_width, tile_height) w h make =
    tile_rows make (cuts h tile_height h 0) (cuts w tile_width w 0)

unfoldable pub append_bitmap_tiles : Image → Rectangle → ℕ → ℕ → Option (List Operation)
append_bitmap_tiles img source dst_x dst_y =
    tiles (best_tile_size (width source) (height source)) (width source) (height source)
      (λ yh xw. bitmap_rgb img (tile_at source yh xw) (dst_x + xw.0) (dst_y + yh.0))

unfoldable pub append_bi_color_tiles :
    Image → Rectangle → ℕ → ℕ → Rgba → Rgba → Option (List Operation)
append_bi_color_tiles img source dst_x dst_y c0 c1 =
    tiles (bi_color_tile_size (width source) (height source)) (width source) (height source)
      (λ yh xw. bitmap_bi_color img (tile_at source yh xw) (dst_x + xw.0) (dst_y + yh.0) c0 c1)

-- The channels of color.RGBA as RGBA() gives them.
abbrev pub fill_with : ℕ → ℕ → ℕ → ℕ → Rgba → Operation
fill_with x y w h c =
    fill x y w h (record { red = c.red * 257; green = c.green * 257; blue = c.blue * 257 })

abbrev pub scanlines : Image → Rectangle → ℕ → ℕ → List (List Rgba)
scanlines img source zero y = []
scanlines img source (suc left) y =
    row_pixels img (width source) source.min_x y ∷ scanlines img source left (suc y)

-- The operations of the band that starts `first` lines below the top of `source`.
abbrev pub band_operations :
    Image → Rectangle → ℕ → ℕ → ℕ → ScanlineEncoding → ScanlineKind → ℕ → Option (List Operation)
band_operations img source dst_x dst_y first e scanline_fill n =
    some (fill_with dst_x (dst_y + first) (width source) n e.color0 ∷ [])
band_operations img source dst_x dst_y first e scanline_bi_color n =
    append_bi_color_tiles img
      (record source { min_y = source.min_y + first; max_y = source.min_y + first + n }) dst_x
      (dst_y + first) e.color0 e.color1
band_operations img source dst_x dst_y first e scanline_rgb n =
    append_bitmap_tiles img
      (record source { min_y = source.min_y + first; max_y = source.min_y + first + n }) dst_x
      (dst_y + first)

abbrev pub bands_operations : Image → Rectangle → ℕ → ℕ → ℕ → List Band → Option (List Operation)
bands_operations img source dst_x dst_y first [] = some []
bands_operations img source dst_x dst_y first (b ∷ bs) =
    and_all (band_operations img source dst_x dst_y first b.encoding b.encoding.kind b.count)
      (bands_operations img source dst_x dst_y (first + b.count) bs)

-- What appendEncodedBitmapOperations appends; none is its error.
unfoldable pub encode_bitmap : Image → Rectangle → ℕ → ℕ → Option (List Operation)
encode_bitmap img source dst_x dst_y =
    if is_empty source
    then some []
    else bands_operations img source dst_x dst_y 0 (
        merge_scanlines (
          map (λ line. classify_scanline line) (scanlines img source (height source) source.min_y)))
