-- ===== src/Ssh/Screen/Valid.antt =====
-- Moving and scrolling keep a terminal valid: the cursor and the scroll region lie on the screen, the slices have
-- the screen's size, and no index is out of range.
use sun_ray2server.Prelude.{
  ℕ, ◌+◌, ◌-◌, ◌*◌, ◌/◌, ◌≤◌, ◌<◌, ◌≡◌, inl, inr, min, max, true, false, length-replicate, ◌==◌,
  refl, Bool, Bool-cases, if◌then◌else◌, arith,
}
use sun_ray2server.Prelude.Int.{ℤ, pos, negsuc, ◌-ℤ◌}
use sun_ray2server.Ssh.Buffer.{zero_cell, mark_row}
use sun_ray2server.Ssh.Buffer.Bounds.{
  IsBuffer, mark_row-IsBuffer, clear_all-IsBuffer, remove_row-IsBuffer, insert_row-IsBuffer,
}
use sun_ray2server.Ssh.Color.{default_pen}
use sun_ray2server.Ssh.Screen.{
  Terminal, new_terminal, fresh_buffer, blank_of, blank_cell, mark_cursor, clamp_to, move_cursor,
  scroll_up, scroll_down, insert_line, delete_line, outside_region, line_feed, reverse_index,
}

abbrev pub IsValid : Terminal → Type 0
IsValid t =
    IsBuffer (t.rows * t.cols) t.rows t.buffer
    × (t.cursor_x < t.cols)
    × (t.cursor_y < t.rows)
    × (t.scroll_top ≤ t.scroll_bottom)
    × (t.scroll_bottom < t.rows)

clamp_to_bound : (v : ℤ) (limit : ℕ) → 0 < limit → clamp_to v limit < limit
clamp_to_bound (pos n) limit h = omega arith
clamp_to_bound (negsuc n) limit h = h

-- A new terminal is valid, whatever the sizes of its picture and of its font.
pub new_terminal-IsValid : (w h cw ch : ℕ) → IsValid (new_terminal w h cw ch)
unfolding new_terminal
new_terminal-IsValid w h cw ch =
    let cols = max 1 (w / cw) in
    let rows = max 1 (h / ch) in
    (
      clear_all-IsBuffer cols rows (blank_of default_pen) (fresh_buffer cols rows) 0 rows
          (omega arith)
          (length-replicate (rows * cols) zero_cell, length-replicate rows false, refl),
      omega arith,
      omega arith,
      omega arith,
      omega arith,
    )

pub move_cursor-IsValid : (t : Terminal) (row col : ℤ) → IsValid t → IsValid (move_cursor t row col)
unfolding move_cursor
move_cursor-IsValid t row col (b, x, y, s, e) =
    let size = t.rows * t.cols in
    (
      mark_row-IsBuffer size t.rows (mark_row t.buffer t.cursor_y) (clamp_to row t.rows)
          (mark_row-IsBuffer size t.rows t.buffer t.cursor_y b),
      clamp_to_bound col t.cols (omega arith),
      clamp_to_bound row t.rows (omega arith),
      s,
      e,
    )

pub scroll_up-IsValid : (t : Terminal) → IsValid t → IsValid (scroll_up t)
unfolding scroll_up
scroll_up-IsValid t (b, x, y, s, e) = (
  remove_row-IsBuffer t.cols t.rows (blank_cell t) t.buffer t.scroll_top t.scroll_bottom s e b,
  x,
  y,
  s,
  e,
)

pub scroll_down-IsValid : (t : Terminal) → IsValid t → IsValid (scroll_down t)
unfolding scroll_down
scroll_down-IsValid t (b, x, y, s, e) = (
  insert_row-IsBuffer t.cols t.rows (blank_cell t) t.buffer t.scroll_top t.scroll_bottom s e b,
  x,
  y,
  s,
  e,
)

-- A branch on a test keeps what both of its sides have; the test may be used.
pub branch-IsValid :
    (c : Bool) (t u : Terminal)
    → (c ≡ true → IsValid t)
    → (c ≡ false → IsValid u)
    → IsValid (if c then t else u)
branch-IsValid true t u h k = h refl
branch-IsValid false t u h k = k refl

pub insert_line-IsValid : (t : Terminal) → IsValid t → IsValid (insert_line t)
unfolding insert_line
insert_line-IsValid t (b, x, y, s, e) = elim (Bool-cases (outside_region t)) [
  | inl o ↦ rw o (b, x, y, s, e)
  | inr o ↦ rw o (
    insert_row-IsBuffer t.cols t.rows (blank_cell t) t.buffer t.cursor_y t.scroll_bottom
        (ground arith) e b,
    x,
    y,
    s,
    e,
  )
]

pub delete_line-IsValid : (t : Terminal) → IsValid t → IsValid (delete_line t)
unfolding delete_line
delete_line-IsValid t (b, x, y, s, e) = elim (Bool-cases (outside_region t)) [
  | inl o ↦ rw o (b, x, y, s, e)
  | inr o ↦ rw o (
    remove_row-IsBuffer t.cols t.rows (blank_cell t) t.buffer t.cursor_y t.scroll_bottom
        (ground arith) e b,
    x,
    y,
    s,
    e,
  )
]

pub mark_cursor-IsValid : (t : Terminal) → IsValid t → IsValid (mark_cursor t)
mark_cursor-IsValid t (b, x, y, s, e) =
    (mark_row-IsBuffer (t.rows * t.cols) t.rows t.buffer t.cursor_y b, x, y, s, e)

pub line_feed-IsValid : (t : Terminal) → IsValid t → IsValid (line_feed t)
unfolding line_feed
line_feed-IsValid t0 v0 =
    let t = mark_cursor t0 in
    let v = mark_cursor-IsValid t0 v0 in
    let below = min (t.rows - 1) (t.cursor_y + 1) in
    branch-IsValid (t.cursor_y == t.scroll_bottom) _ _ (λ p. scroll_up-IsValid t v)
      (λ p. (
        mark_row-IsBuffer (t.rows * t.cols) t.rows t.buffer below v.0,
        v.1,
        omega (arith, v.2),
        v.3,
        v.4,
      ))

pub reverse_index-IsValid : (t : Terminal) → IsValid t → IsValid (reverse_index t)
unfolding reverse_index
reverse_index-IsValid t v =
    let row = pos t.cursor_y -ℤ pos 1 in
    branch-IsValid (t.cursor_y == t.scroll_top) _ _ (λ p. scroll_down-IsValid t v)
      (λ p. move_cursor-IsValid t row (pos t.cursor_x) v)
