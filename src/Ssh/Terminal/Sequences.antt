-- ===== src/Ssh/Terminal/Sequences.antt =====
-- Control characters and escape sequences keep the terminal valid.
use sun_ray2server.Prelude.{
  ℕ, zero, suc, ◌≤◌, ◌<◌, ◌≡◌, ◌||◌, List, ◌==◌, Option, none, some, refl, arith,
}
use sun_ray2server.Prelude.Int.{ℤ, pos, negsuc, ◌-ℤ◌}
use sun_ray2server.Ssh.Screen.{
  Terminal, move_cursor, scroll_up, scroll_down, insert_line, delete_line,
}
use sun_ray2server.Ssh.Screen.Valid.{
  IsValid, move_cursor-IsValid, scroll_up-IsValid, scroll_down-IsValid, branch-IsValid,
  insert_line-IsValid, delete_line-IsValid, mark_cursor-IsValid, line_feed-IsValid,
  reverse_index-IsValid,
}
use sun_ray2server.Ssh.Screen.Editing.{
  insert_chars-IsValid, delete_chars-IsValid, erase_chars-IsValid, erase_line-IsValid,
  reset-IsValid, erase_display-IsValid,
}
use sun_ray2server.Ssh.Terminal.{control, escape}
use sun_ray2server.Ssh.Terminal.Csi.{
  repeat, repeat_for, region_of, set_region, int64, param, parse_params, csi_target, csi_edit,
  execute_csi,
}

pub control-IsValid : (t : Terminal) (b : ℕ) → IsValid t → IsValid (control t b)
unfolding control
control-IsValid t b v =
    let m = mark_cursor-IsValid t v in
    branch-IsValid (b == 0x0D) _ _ (λ _. (m.0, omega (arith, v.1), m.2, m.3, m.4))
      (λ _.
        branch-IsValid (b == 0x0A || b == 0x0B || b == 0x0C) _ _
          (λ _.
            line_feed-IsValid (record t { cursor_x = 0 }) (v.0, omega (arith, v.1), v.2, v.3, v.4))
          (λ _.
            branch-IsValid (b == 0x08) _ _ (λ _. (m.0, omega (arith, v.1), m.2, m.3, m.4))
              (λ _.
                branch-IsValid (b == 0x09) _ _ (λ _. (m.0, omega (arith, v.1), m.2, m.3, m.4))
                  (λ _. v))))

pub escape-IsValid : (t : Terminal) (b : ℕ) → IsValid t → IsValid (escape t b)
unfolding escape
escape-IsValid t b v = ground (
  arith,
  move_cursor-IsValid t (pos t.saved_y) (pos t.saved_x) v,
  line_feed-IsValid t v,
  line_feed-IsValid (record t { cursor_x = 0 }) (v.0, omega (arith, v.1), v.2, v.3, v.4),
  reverse_index-IsValid t v,
  reset-IsValid t v,
)

repeat-IsValid :
    (f : Terminal → Terminal) (valid : (t : Terminal) → IsValid t → IsValid (f t)) (n : ℕ)
    (t : Terminal)
    → IsValid t
    → IsValid (repeat n f t)
unfolding repeat
repeat-IsValid f valid zero t v = v
repeat-IsValid f valid (suc n) t v = repeat-IsValid f valid n (f t) (valid t v)

repeat_for-IsValid :
    (f : Terminal → Terminal) (valid : (t : Terminal) → IsValid t → IsValid (f t)) (n : ℤ)
    (t : Terminal)
    → IsValid t
    → IsValid (repeat_for n f t)
repeat_for-IsValid f valid (pos n) t v = repeat-IsValid f valid n t v
repeat_for-IsValid f valid (negsuc n) t v = v

region_of_lem :
    (top bottom : ℤ) (rows a b : ℕ) → region_of top bottom rows ≡ some (a, b) → (a ≤ b) × (b < rows)
region_of_lem (pos x) (pos y) rows a b e = ground (arith, e)
region_of_lem (pos x) (negsuc y) rows a b e = absurd (ground (arith, e))
region_of_lem (negsuc x) y rows a b e = absurd (ground (arith, e))

region-IsValid :
    (t : Terminal) (o : Option (ℕ × ℕ))
    → ((a b : ℕ) → o ≡ some (a, b) → (a ≤ b) × (b < t.rows))
    → IsValid t
    → IsValid (elim o [
      | none ↦ t
      | some (a, b) ↦ move_cursor (record t { scroll_top = a; scroll_bottom = b }) (pos 0) (pos 0)
    ])
region-IsValid t none h v = v
region-IsValid t (some (a, b)) h v =
    let (le, lt) = h a b refl in
    move_cursor-IsValid (record t { scroll_top = a; scroll_bottom = b }) (pos 0) (pos 0)
      (v.0, v.1, v.2, le, lt)

set_region-IsValid : (t : Terminal) (params : List ℤ) → IsValid t → IsValid (set_region t params)
unfolding set_region
set_region-IsValid t params v =
    let top = int64 (param params 0 (pos 1) -ℤ pos 1) in
    let bottom = int64 (param params 1 (pos t.rows) -ℤ pos 1) in
    region-IsValid t (region_of top bottom t.rows) (λ a b. region_of_lem top bottom t.rows a b) v

csi_edit-IsValid :
    (t : Terminal) (params : List ℤ) (final : ℕ) → IsValid t → IsValid (csi_edit t params final)
unfolding csi_edit
csi_edit-IsValid t params final v =
    let n = param params 0 (pos 1) in
    let mode = param params 0 (pos 0) in
    ground (
      arith,
      erase_display-IsValid t mode v,
      erase_line-IsValid t mode v,
      set_region-IsValid t params v,
      repeat_for-IsValid scroll_up scroll_up-IsValid n t v,
      repeat_for-IsValid scroll_down scroll_down-IsValid n t v,
      insert_chars-IsValid t n v,
      delete_chars-IsValid t n v,
      erase_chars-IsValid t n v,
      repeat_for-IsValid insert_line insert_line-IsValid n t v,
      repeat_for-IsValid delete_line delete_line-IsValid n t v,
    )

pub execute_csi-IsValid : (t : Terminal) (final : ℕ) → IsValid t → IsValid (execute_csi t final)
unfolding execute_csi
execute_csi-IsValid t final v =
    let params = parse_params t.csi in moved params (csi_target t params final)
  where
    moved :
        (params : List ℤ) (o : Option (ℤ × ℤ))
        → IsValid
            (elim o [ some (row, col) ↦ move_cursor t row col | none ↦ csi_edit t params final ])
    moved params none = csi_edit-IsValid t params final v
    moved params (some (row, col)) = move_cursor-IsValid t row col v
