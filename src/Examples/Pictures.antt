-- ===== src/Examples/Pictures.antt =====
-- Pictures (internal/display/render.go) at concrete inputs.
use sun_ray2server.Prelude.{
  ℕ, ◌≡◌, refl, true, false, List, [], ◌∷◌, Option, none, some, map, ◌==◌, if◌then◌else◌, length,
  arith,
}
use sun_ray2server.Display.Operation.{Operation, round4}
use sun_ray2server.Display.Client.{Env, Client, new_client}
use sun_ray2server.Display.Render.Pixels.{
  Rgba, same_rgba, rgba_less, scan_one, scan_two, classify_scanline, compatible_scanlines,
  grow_band, merge_scanlines,
}
use sun_ray2server.Display.Render.Bands.{drawn_bands, merge_scanlines-drawn}
use sun_ray2server.Display.Render.Tiles.{
  Image, bitmap_rgb, bitmap_bi_color, best_tile_size, choose_tile, bi_color_tile_size, cuts,
  append_bitmap_tiles, append_bi_color_tiles, encode_bitmap,
}
use sun_ray2server.Display.Render.Sending.{AreSendable, encode_bitmap-AreSendable}
use sun_ray2server.Display.Render.Showing.{RegionUpdate, show_image_regions}
use sun_ray2server.Display.Render.Updates.{show_image_regions-none}

abbrev all_ok : Env
all_ok = record { clock = λ i. i; write_ok = λ i. true }

abbrev gray : ℕ → Rgba
gray v = record { red = v; green = v; blue = v; alpha = 255 }

-- A white line, two lines with a black column, and a line of all grays.
abbrev picture : Image
picture = record {
  bounds = record { min_x = 0; min_y = 0; max_x = 12; max_y = 4 };
  rgba_at = λ x y.
      if y == 0 then gray 255 else if y == 3 then gray x else if x == 3 then gray 0 else gray 255;
}

abbrev count : Option (List Operation) → Option ℕ
count none = none
count (some ops) = some (length ops)

-- A Fill, a bitmap of two colours for both lines, and a bitmap of all colours.
three_operations : count (encode_bitmap picture picture.bounds 0 0) ≡ some 3
unfolding encode_bitmap classify_scanline scan_one scan_two same_rgba rgba_less compatible_scanlines
    grow_band merge_scanlines append_bitmap_tiles append_bi_color_tiles bitmap_rgb bitmap_bi_color
    best_tile_size choose_tile bi_color_tile_size cuts round4
three_operations = refl

abbrev lines : List (List Rgba)
lines = (gray 1 ∷ gray 1 ∷ []) ∷ (gray 1 ∷ gray 2 ∷ []) ∷ (gray 2 ∷ gray 1 ∷ []) ∷ []

merge_scanlines-drawn_example :
    drawn_bands (merge_scanlines (map (λ line. classify_scanline line) lines)) lines ≡ lines
merge_scanlines-drawn_example = merge_scanlines-drawn lines

encode_bitmap-AreSendable_example : AreSendable (encode_bitmap picture picture.bounds 10 20)
encode_bitmap-AreSendable_example =
    encode_bitmap-AreSendable picture picture.bounds 10 20
      (omega arith, omega arith, omega arith, omega arith, omega arith, omega arith)

abbrev updates : List RegionUpdate
updates =
    record {
      rectangle = record { min_x = 0; min_y = 1; max_x = 12; max_y = 3 };
      copy_x = 0;
      copy_y = 0;
      is_copy = true;
    }
    ∷ record {
      rectangle = record { min_x = 4; min_y = 0; max_x = 40; max_y = 40 };
      copy_x = 0;
      copy_y = 0;
      is_copy = false;
    }
    ∷ []

abbrev client : Client
client = new_client 0 false

show_image_regions-none_example : (show_image_regions all_ok client 16 8 picture updates).0 ≡ none
unfolding new_client
show_image_regions-none_example =
    show_image_regions-none all_ok client 16 8 picture updates refl (λ i. refl) (omega arith)
      (omega arith) refl
