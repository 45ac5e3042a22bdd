-- ===== src/Ssh/Screen/Editing.antt =====
-- Inserting, deleting and erasing at the cursor keep a terminal valid.
use sun_ray2server.Prelude.{
  min, ℕ, ◌+◌, ◌-◌, ◌*◌, ◌≤◌, ◌<◌, ◌≡◌, true, false, ◌&&◌, ◌||◌, ltb, leb, ◌==◌, refl, Bool,
  if◌then◌else◌, arith,
}
use sun_ray2server.Prelude.Int.{ℤ, pos, negsuc}
use sun_ray2server.Ssh.Buffer.{
  Buffer, Cell, read_cell, write_cell, fill_cells, copy_cells, slice_row, clear_rows,
}
use sun_ray2server.Ssh.Buffer.Bounds.{
  IsBuffer, row_end, write_cell-IsBuffer, fill_cells-IsBuffer, slice_row-IsBuffer,
  copy_cells-IsBuffer, mark_row-IsBuffer, mark_range-IsBuffer, clear_rows-IsBuffer,
  clear_all-IsBuffer,
}
use sun_ray2server.Ssh.Color.{is_pos, default_pen}
use sun_ray2server.Ssh.Runes.{rune_display_width}
use sun_ray2server.Ssh.Screen.{
  Terminal, blank_cell, char_count, cursor_index, insert_chars, delete_chars, erase_chars,
  erase_line, clear_screen, erase_display, reset, clear_wide_cell,
}
use sun_ray2server.Ssh.Screen.Valid.{IsValid, branch-IsValid}

char_count_bound : (t : Terminal) (count : ℤ) → char_count t count ≤ t.cols - t.cursor_x
char_count_bound t (pos n) = omega arith
char_count_bound t (negsuc n) = omega arith

-- The cursor's cell and the cells behind it lie in the cursor's row.
cursor_room :
    (t : Terminal) (n : ℕ)
    → IsValid t
    → t.cursor_x + n ≤ t.cols
    → cursor_index t + n ≤ t.rows * t.cols
cursor_room t n v h = omega (arith, row_end t.cols t.rows t.cursor_y v.2)

pub insert_chars-IsValid : (t : Terminal) (count : ℤ) → IsValid t → IsValid (insert_chars t count)
unfolding insert_chars
insert_chars-IsValid t count v =
    let n = char_count t count in
    let bound = char_count_bound t count in
    let at = cursor_index t in
    let size = t.rows * t.cols in
    let rest = t.cols - t.cursor_x - n in
    let row = slice_row t.cols t.buffer t.cursor_y (min (t.cursor_x + n) t.cols) in
    let sliced =
      slice_row-IsBuffer size t.rows t.cols t.cursor_y (min (t.cursor_x + n) t.cols) t.buffer
        (row_end t.cols t.rows t.cursor_y v.2) (omega arith) v.0 in
    let moved = copy_cells row (at + n) at rest in
    let room = cursor_room t (t.cols - t.cursor_x) v (omega (arith, v.1)) in
    (
      mark_row-IsBuffer size t.rows (fill_cells moved at n (blank_cell t)) t.cursor_y (
          fill_cells-IsBuffer size t.rows moved at n (blank_cell t) (omega arith) (
            copy_cells-IsBuffer size t.rows row (at + n) at rest (omega arith) (omega arith)
              sliced)),
      v.1,
      v.2,
      v.3,
      v.4,
    )

pub delete_chars-IsValid : (t : Terminal) (count : ℤ) → IsValid t → IsValid (delete_chars t count)
unfolding delete_chars
delete_chars-IsValid t count v =
    let n = char_count t count in
    let bound = char_count_bound t count in
    let at = cursor_index t in
    let size = t.rows * t.cols in
    let rest = t.cols - t.cursor_x - n in
    let row = slice_row t.cols t.buffer t.cursor_y t.cursor_x in
    let sliced =
      slice_row-IsBuffer size t.rows t.cols t.cursor_y t.cursor_x t.buffer
        (row_end t.cols t.rows t.cursor_y v.2) (omega (arith, v.1)) v.0 in
    let moved = copy_cells row at (at + n) rest in
    let room = cursor_room t (t.cols - t.cursor_x) v (omega (arith, v.1)) in
    (
      mark_row-IsBuffer size t.rows (fill_cells moved (at + rest) n (blank_cell t)) t.cursor_y (
          fill_cells-IsBuffer size t.rows moved (at + rest) n (blank_cell t) (omega arith) (
            copy_cells-IsBuffer size t.rows row at (at + n) rest (omega arith) (omega arith)
              sliced)),
      v.1,
      v.2,
      v.3,
      v.4,
    )

pub erase_chars-IsValid : (t : Terminal) (count : ℤ) → IsValid t → IsValid (erase_chars t count)
unfolding erase_chars
erase_chars-IsValid t count v =
    let n = char_count t count in
    let at = cursor_index t in
    let size = t.rows * t.cols in
    let bound = char_count_bound t count in
    let room = cursor_room t (t.cols - t.cursor_x) v (omega (arith, v.1)) in
    (
      mark_row-IsBuffer size t.rows (fill_cells t.buffer at n (blank_cell t)) t.cursor_y
          (fill_cells-IsBuffer size t.rows t.buffer at n (blank_cell t) (omega arith) v.0),
      v.1,
      v.2,
      v.3,
      v.4,
    )

pub erase_line-IsValid : (t : Terminal) (mode : ℤ) → IsValid t → IsValid (erase_line t mode)
unfolding erase_line
erase_line-IsValid t mode v =
    let start = if is_pos mode 0 then t.cursor_x else 0 in
    let end = if is_pos mode 1 then t.cursor_x + 1 else t.cols in
    let at = t.cursor_y * t.cols + start in
    let size = t.rows * t.cols in
    let inside : start + (end - start) ≤ t.cols = ground (arith, v.1) in
    let room = row_end t.cols t.rows t.cursor_y v.2 in
    (
      mark_row-IsBuffer size t.rows (fill_cells t.buffer at (end - start) (blank_cell t)) t.cursor_y
          (fill_cells-IsBuffer size t.rows t.buffer at (end - start) (blank_cell t) (omega arith)
            v.0),
      v.1,
      v.2,
      v.3,
      v.4,
    )

pub clear_screen-IsValid : (t : Terminal) → IsValid t → IsValid (clear_screen t)
clear_screen-IsValid t v = (
  clear_all-IsBuffer t.cols t.rows (blank_cell t) t.buffer 0 t.rows (omega arith) v.0,
  v.1,
  v.2,
  v.3,
  v.4,
)

pub reset-IsValid : (t : Terminal) → IsValid t → IsValid (reset t)
unfolding reset
reset-IsValid t v =
    let t' = record t {
      cursor_x = 0;
      cursor_y = 0;
      saved_x = 0;
      saved_y = 0;
      pen = default_pen;
      scroll_top = 0;
      scroll_bottom = t.rows - 1;
    } in
    clear_screen-IsValid t'
      (v.0, omega (arith, v.1), omega (arith, v.2), omega arith, omega (arith, v.2))

pub erase_display-IsValid : (t : Terminal) (mode : ℤ) → IsValid t → IsValid (erase_display t mode)
unfolding erase_display
erase_display-IsValid t mode v =
    let size = t.rows * t.cols in
    let cell = blank_cell t in
    let b = (erase_line t (pos 0)).buffer in
    let count = t.rows - (t.cursor_y + 1) in
    let below = clear_rows t.cols cell b (t.cursor_y + 1) count in
    let above = record t { buffer = clear_rows t.cols cell t.buffer 0 t.cursor_y } in
    let b' = (erase_line above (pos 1)).buffer in
    let erased = erase_line-IsValid t (pos 0) v in
    let all =
      branch-IsValid (is_pos mode 2 || is_pos mode 3) (clear_screen t) t
        (λ p. clear_screen-IsValid t v) (λ p. v) in
    branch-IsValid (is_pos mode 0) _ _
      (λ p. (
        mark_range-IsBuffer size t.rows below t.cursor_y (t.rows - 1) (omega (arith, v.2)) (
            clear_rows-IsBuffer t.cols t.rows cell b (t.cursor_y + 1) count (omega (arith, v.2))
              erased.0),
        v.1,
        v.2,
        v.3,
        v.4,
      ))
      (λ p.
        branch-IsValid (is_pos mode 1) _ _
          (λ q.
            let cleared =
              clear_rows-IsBuffer t.cols t.rows cell t.buffer 0 t.cursor_y (omega (arith, v.2))
                v.0 in
            let line = erase_line-IsValid above (pos 1) (cleared, v.1, v.2, v.3, v.4) in
            (
              mark_range-IsBuffer size t.rows b' 0 t.cursor_y (omega (arith, v.2)) line.0,
              v.1,
              v.2,
              v.3,
              v.4,
            ))
          (λ q. all))

-- A conditional write inside the cells keeps their size.
pub write_if-IsBuffer :
    (size rows : ℕ) (c : Bool) (b : Buffer) (i : ℕ) (cell : Cell)
    → (c ≡ true → i < size)
    → IsBuffer size rows b
    → IsBuffer size rows (if c then write_cell b i cell else b)
write_if-IsBuffer size rows true b i cell h v = write_cell-IsBuffer size rows b i cell (h refl) v
write_if-IsBuffer size rows false b i cell h v = v

pub clear_wide_cell-IsValid :
    (combining : ℕ → Bool) (t : Terminal) (row col : ℕ)
    → IsValid t
    → IsValid (clear_wide_cell combining t row col)
unfolding clear_wide_cell
clear_wide_cell-IsValid combining t row col v =
    let size = t.rows * t.cols in
    let blank = blank_cell t in
    let index = row * t.cols + col in
    let left = (read_cell t.buffer index).continuation && ltb 0 col in
    let b1 = if left then write_cell t.buffer (index - 1) blank else t.buffer in
    let right =
      rune_display_width combining (read_cell b1 index).rune == 2 && ltb (col + 1) t.cols in
    let b2 = if right then write_cell b1 (index + 1) blank else b1 in
    branch-IsValid (leb t.rows row || leb t.cols col) _ _ (λ p. v)
      (λ p.
        let inside : (row < t.rows) × (col < t.cols) = ground arith in
        let room = row_end t.cols t.rows row inside.0 in
        (
          write_cell-IsBuffer size t.rows b2 index blank (omega arith) (
              write_if-IsBuffer size t.rows right b1 (index + 1) blank (λ q. ground arith)
                (write_if-IsBuffer size t.rows left t.buffer (index - 1) blank (λ q. omega arith)
                  v.0)),
          v.1,
          v.2,
          v.3,
          v.4,
        ))
