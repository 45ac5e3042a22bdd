-- ===== src/Display/Render/Showing.antt =====
-- internal/display/render.go: showing a picture and its changes on the terminal.
use sun_ray2server.Prelude.{
  ℕ, ◌+◌, ◌-◌, ◌/◌, min, max, Bool, ◌&&◌, ◌||◌, List, [], ◌∷◌, Option, none, some, ltb, ◌==◌,
  if◌then◌else◌,
}
use sun_ray2server.Display.Operation.{Operation, bounds, fill, copy, invisible_cursor}
use sun_ray2server.Display.Client.{Env, Client, SendError, send_batch, flush_history}
use sun_ray2server.Display.Render.Tiles.{
  Rectangle, Image, width, height, is_empty, lies_in, encode_bitmap, and_all,
}

pub data RenderError : Type 0 where
  bad_screen empty_image outside_image : RenderError
  send_failed : SendError → RenderError

-- `return c.SendBatch(ops)`
abbrev pub sent : Option SendError × Client → Option RenderError × Client
sent (none, c) = (none, c)
sent (some e, c) = (some (send_failed e), c)

-- `if err := …; err != nil { return err }` and what follows it.
abbrev pub then_send :
    Option RenderError × Client
    → (Client → Option RenderError × Client)
    → Option RenderError × Client
then_send (some e, c) next = (some e, c)
then_send (none, c) next = next c

abbrev pub fill_black : ℕ → ℕ → Operation
fill_black w h = fill 0 0 w h (record { red = 0; green = 0; blue = 0 })

-- The part of the image that the screen has room for.
abbrev pub visible_part : Image → ℕ → ℕ → Rectangle
visible_part img screen_width screen_height =
    let b = img.bounds in
    record b {
      max_x = b.min_x + min (width b) screen_width;
      max_y = b.min_y + min (height b) screen_height;
    }

-- An ordered change of the picture; the source of a copy is the corner `copy_x`, `copy_y`.
pub record RegionUpdate : Type 0 where
  pub rectangle : Rectangle
  pub copy_x : ℕ
  pub copy_y : ℕ
  pub is_copy : Bool

-- Rectangle.Intersect; where nothing is in common, Go returns the empty rectangle at zero.
abbrev pub intersect : Rectangle → Rectangle → Rectangle
intersect r s =
    let common : Rectangle = record {
      min_x = max r.min_x s.min_x;
      min_y = max r.min_y s.min_y;
      max_x = min r.max_x s.max_x;
      max_y = min r.max_y s.max_y;
    } in
    if is_empty common then record { min_x = 0; min_y = 0; max_x = 0; max_y = 0 } else common

abbrev pub same_rectangle : Rectangle → Rectangle → Bool
same_rectangle r s =
    r.min_x == s.min_x && (r.min_y == s.min_y && (r.max_x == s.max_x && r.max_y == s.max_y))

-- The operations of one update. `left` and `top` are the margins of the picture on the screen.
unfoldable pub update_operations :
    Image → Rectangle → ℕ → ℕ → RegionUpdate → Option (List Operation)
update_operations img visible left top u =
    let changed = intersect u.rectangle visible in
    let from : Rectangle = record {
      min_x = u.copy_x;
      min_y = u.copy_y;
      max_x = u.copy_x + width changed;
      max_y = u.copy_y + height changed;
    } in
    let x = changed.min_x + left - img.bounds.min_x in
    let y = changed.min_y + top - img.bounds.min_y in
    if is_empty changed
    then some []
    else if u.is_copy && (same_rectangle changed u.rectangle && lies_in from visible)
    then some (
        copy x y (width changed) (height changed) (from.min_x + left - img.bounds.min_x)
          (from.min_y + top - img.bounds.min_y)
        ∷ [])
    else encode_bitmap img changed x y

abbrev pub updates_operations :
    Image → Rectangle → ℕ → ℕ → List RegionUpdate → Option (List Operation)
updates_operations img visible left top [] = some []
updates_operations img visible left top (u ∷ us) =
    and_all (update_operations img visible left top u) (updates_operations img visible left top us)

module _ (env : Env) where
  abbrev pub send_encoded : Client → Option (List Operation) → Option RenderError × Client
  send_encoded c none = (some outside_image, c)
  send_encoded c (some ops) = sent (send_batch env c ops)

  abbrev pub screen_setup : ℕ → ℕ → List Operation
  screen_setup w h = bounds w h ∷ fill_black w h ∷ invisible_cursor ∷ []

  unfoldable pub show_image : Client → ℕ → ℕ → Image → Option RenderError × Client
  show_image c screen_width screen_height img =
      let source = visible_part img screen_width screen_height in
      if ltb screen_width 1 || ltb screen_height 1
      then (some bad_screen, c)
      else if is_empty img.bounds
      then (some empty_image, c)
      else then_send (sent (send_batch env c (screen_setup screen_width screen_height))) (λ c1.
        send_encoded (flush_history c1) (
          encode_bitmap img source ((screen_width - width source) / 2)
            ((screen_height - height source) / 2)))

  unfoldable pub show_image_regions :
      Client → ℕ → ℕ → Image → List RegionUpdate → Option RenderError × Client
  show_image_regions c screen_width screen_height img updates =
      let visible = visible_part img screen_width screen_height in
      if ltb screen_width 1 || ltb screen_height 1
      then (some bad_screen, c)
      else if is_empty img.bounds
      then (some empty_image, c)
      else send_encoded c (
          updates_operations img visible ((screen_width - width visible) / 2)
            ((screen_height - height visible) / 2) updates)
