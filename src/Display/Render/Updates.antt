-- ===== src/Display/Render/Updates.antt =====
-- Showing the changes of a picture does not fail.
use sun_ray2server.Prelude.{
  ℕ, ◌+◌, ◌-◌, ◌/◌, ◌<◌, ◌≤◌, ◌≡◌, sym, ap, ◌∙◌, min, max, Bool, true, false, ◌||◌, List, [], ◌∷◌,
  Option, none, some, ltb, if◌then◌else◌, if_false, if_true, Bool-cases, inl, inr, arith,
}
use mathlib.Core.Path.{subst}
use sun_ray2server.Display.Operation.{Operation, copy}
use sun_ray2server.Display.Operation.Layout.{operation_shapes}
use sun_ray2server.Display.Client.{Env, Client}
use sun_ray2server.Display.Client.Batch.{send_batch-none}
use sun_ray2server.Display.Render.Tiles.{Rectangle, Image, width, height, is_empty}
use sun_ray2server.Display.Render.Sending.{
  AreSendable, IsWithin, and_all-AreSendable, encode_bitmap-AreSendable,
}
use sun_ray2server.Display.Render.Showing.{
  RenderError, visible_part, RegionUpdate, intersect, update_operations, updates_operations,
  send_encoded, show_image_regions,
}

abbrev common : Rectangle → Rectangle → Rectangle
common r s = record {
  min_x = max r.min_x s.min_x;
  min_y = max r.min_y s.min_y;
  max_x = min r.max_x s.max_x;
  max_y = min r.max_y s.max_y;
}

common-IsWithin :
    (img : Image) (w h : ℕ) (r : Rectangle)
    → is_empty (common r (visible_part img w h)) ≡ false
    → IsWithin (common r (visible_part img w h)) img
common-IsWithin img w h r e =
    let x : max r.min_x img.bounds.min_x
        < min r.max_x (img.bounds.min_x + min (width img.bounds) w) =
      ground (arith, e) in
    let y : max r.min_y img.bounds.min_y
        < min r.max_y (img.bounds.min_y + min (height img.bounds) h) =
      ground (arith, e) in
    (x, y, omega arith, omega (arith, x), omega arith, omega (arith, y))

intersect-IsWithin :
    (img : Image) (w h : ℕ) (r : Rectangle)
    → is_empty (intersect r (visible_part img w h)) ≡ false
    → IsWithin (intersect r (visible_part img w h)) img
intersect-IsWithin img w h r e =
    let c = common r (visible_part img w h) in
    elim (Bool-cases (is_empty c)) [
      | inl t ↦
          absurd (ground (arith, subst (λ x. is_empty x ≡ false) (if_true (is_empty c) _ c t) e))
      | inr f ↦
          subst (λ x. IsWithin x img) (sym (if_false (is_empty c) _ c f))
            (common-IsWithin img w h r f)
    ]

copy-AreSendable : (x y w h p q : ℕ) → AreSendable (some (copy x y w h p q ∷ []))
copy-AreSendable x y w h p q =
    let size = (operation_shapes x y w h p q (record { red = 0; green = 0; blue = 0 })).2 in
    ((omega (arith, size), omega (arith, size)), tt)

AreSendable-if :
    (b : Bool) (p q : Option (List Operation))
    → AreSendable p
    → AreSendable q
    → AreSendable (if b then p else q)
AreSendable-if true p q h k = h
AreSendable-if false p q h k = k

module _ (img : Image) (w h left top : ℕ) where
  update-AreSendable :
      (u : RegionUpdate) → AreSendable (update_operations img (visible_part img w h) left top u)
  unfolding update_operations
  update-AreSendable u =
      let changed = intersect u.rectangle (visible_part img w h) in
      elim (Bool-cases (is_empty changed)) [
        | inl e ↦ subst AreSendable (sym (if_true (is_empty changed) _ _ e)) tt
        | inr e ↦ subst AreSendable (sym (if_false (is_empty changed) _ _ e)) (
            AreSendable-if _ (some _) _ (copy-AreSendable _ _ _ _ _ _) (
              encode_bitmap-AreSendable img changed (changed.min_x + left - img.bounds.min_x)
                (changed.min_y + top - img.bounds.min_y)
                (intersect-IsWithin img w h u.rectangle e)))
      ]

  updates-AreSendable :
      (us : List RegionUpdate)
      → AreSendable (updates_operations img (visible_part img w h) left top us)
  updates-AreSendable [] = tt
  updates-AreSendable (u ∷ us) =
      and_all-AreSendable (update_operations img (visible_part img w h) left top u)
        (updates_operations img (visible_part img w h) left top us) (update-AreSendable u)
        (updates-AreSendable us)

module _ (env : Env) (c : Client) (open_ : c.closed ≡ false)
    (ok : (i : ℕ) → env.write_ok i ≡ true) where
  send_encoded-none :
      (ops : Option (List Operation)) → AreSendable ops → (send_encoded env c ops).0 ≡ none
  send_encoded-none none h = elim h [ ]
  send_encoded-none (some ops) h = ground (arith, send_batch-none env c ops open_ h ok)

-- On an open client whose socket takes every datagram, no list of changes of an image with at least
-- one pixel, on a screen with at least one, makes ShowImageRegions return an error.
pub show_image_regions-none :
    (env : Env) (c : Client) (screen_width screen_height : ℕ) (img : Image)
    (updates : List RegionUpdate)
    → c.closed ≡ false
    → ((i : ℕ) → env.write_ok i ≡ true)
    → 1 ≤ screen_width
    → 1 ≤ screen_height
    → is_empty img.bounds ≡ false
    → (show_image_regions env c screen_width screen_height img updates).0 ≡ none
unfolding show_image_regions
show_image_regions-none env c screen_width screen_height img updates o ok a b e =
    let visible = visible_part img screen_width screen_height in
    let left = (screen_width - width visible) / 2 in
    let top = (screen_height - height visible) / 2 in
    let small : (ltb screen_width 1 || ltb screen_height 1) ≡ false = ground (arith, a, b) in
    ap (λ (r : Option RenderError × Client). r.0)
      (if_false (ltb screen_width 1 || ltb screen_height 1) _ _ small)
    ∙ ap (λ (r : Option RenderError × Client). r.0) (if_false (is_empty img.bounds) _ _ e)
    ∙ send_encoded-none env c o ok (updates_operations img visible left top updates)
        (updates-AreSendable img screen_width screen_height left top updates)
