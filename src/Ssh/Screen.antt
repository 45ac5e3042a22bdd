-- ===== src/Ssh/Screen.antt =====
-- internal/sshclient/terminal.go: the terminal's state, its cursor, and editing at the cursor.
pub mod Valid
pub mod Editing
use sun_ray2server.Prelude.{
  ℕ, ◌+◌, ◌-◌, ◌*◌, ◌/◌, min, max, Bool, false, ◌&&◌, ◌||◌, List, [], replicate, ltb, leb, ◌==◌,
  if◌then◌else◌,
}
use sun_ray2server.Prelude.Int.{ℤ, pos, negsuc, ◌-ℤ◌}
use sun_ray2server.Ssh.Buffer.{
  Cell, Buffer, zero_cell, read_cell, write_cell, fill_cells, copy_cells, slice_row, mark_row,
  mark_range, clear_rows, clear_all, insert_row, remove_row,
}
use sun_ray2server.Ssh.Color.{Pen, default_pen, is_pos}
use sun_ray2server.Ssh.Runes.{rune_display_width}

-- The values 0 to 5 of `state`, in this order.
pub data State : Type 0 where
  text escape_seen parameters text_string string_escape charset : State

pub record Terminal : Type 0 where
  pub cols : ℕ
  pub rows : ℕ
  pub buffer : Buffer
  pub cursor_x : ℕ
  pub cursor_y : ℕ
  pub saved_x : ℕ
  pub saved_y : ℕ
  pub pen : Pen
  pub scroll_top : ℕ
  pub scroll_bottom : ℕ
  pub state : State
  pub csi : List ℕ
  pub pending_utf8 : List ℕ
  pub cell_width : ℕ
  pub cell_height : ℕ

abbrev pub blank_of : Pen → Cell
blank_of pen = record {
  rune = 0x20;
  fg = pen.fg;
  bg = pen.bg;
  bold = false;
  inverse = false;
  continuation = false;
}

abbrev pub blank_cell : Terminal → Cell
blank_cell t = blank_of t.pen

-- `make([]cell, cols*rows)` and `make([]bool, rows)`.
abbrev pub fresh_buffer : ℕ → ℕ → Buffer
fresh_buffer cols rows = record {
  cells = replicate (rows * cols) zero_cell;
  dirty = replicate rows false;
  panicked = false;
}

-- The cells of the font are at least a pixel wide and high.
unfoldable pub new_terminal : ℕ → ℕ → ℕ → ℕ → Terminal
new_terminal pixel_width pixel_height cell_width cell_height =
    let cols = max 1 (pixel_width / cell_width) in
    let rows = max 1 (pixel_height / cell_height) in
    record {
      cols = cols;
      rows = rows;
      buffer = clear_all cols (blank_of default_pen) (fresh_buffer cols rows) 0 rows;
      cursor_x = 0;
      cursor_y = 0;
      saved_x = 0;
      saved_y = 0;
      pen = default_pen;
      scroll_top = 0;
      scroll_bottom = rows - 1;
      state = text;
      csi = [];
      pending_utf8 = [];
      cell_width = cell_width;
      cell_height = cell_height;
    }

-- `t.markRow(t.cursorY)`
abbrev pub mark_cursor : Terminal → Terminal
mark_cursor t = record t { buffer = mark_row t.buffer t.cursor_y }

-- `min(max(value, 0), limit-1)`
abbrev pub clamp_to : ℤ → ℕ → ℕ
clamp_to (pos n) limit = min n (limit - 1)
clamp_to (negsuc n) limit = 0

unfoldable pub move_cursor : Terminal → ℤ → ℤ → Terminal
move_cursor t row col =
    let y = clamp_to row t.rows in
    record t {
      buffer = mark_row (mark_row t.buffer t.cursor_y) y;
      cursor_y = y;
      cursor_x = clamp_to col t.cols;
    }

unfoldable pub scroll_up : Terminal → Terminal
scroll_up t = record t {
  buffer = remove_row t.cols t.rows (blank_cell t) t.buffer t.scroll_top t.scroll_bottom;
}

unfoldable pub scroll_down : Terminal → Terminal
scroll_down t = record t {
  buffer = insert_row t.cols t.rows (blank_cell t) t.buffer t.scroll_top t.scroll_bottom;
}

abbrev pub outside_region : Terminal → Bool
outside_region t = ltb t.cursor_y t.scroll_top || ltb t.scroll_bottom t.cursor_y

unfoldable pub insert_line : Terminal → Terminal
insert_line t = if outside_region t then t else record t {
  buffer = insert_row t.cols t.rows (blank_cell t) t.buffer t.cursor_y t.scroll_bottom;
}

unfoldable pub delete_line : Terminal → Terminal
delete_line t = if outside_region t then t else record t {
  buffer = remove_row t.cols t.rows (blank_cell t) t.buffer t.cursor_y t.scroll_bottom;
}

unfoldable pub line_feed : Terminal → Terminal
line_feed t0 =
    let t = mark_cursor t0 in
    if t.cursor_y == t.scroll_bottom
    then scroll_up t
    else let y = min (t.rows - 1) (t.cursor_y + 1) in
      record t { cursor_y = y; buffer = mark_row t.buffer y }

unfoldable pub reverse_index : Terminal → Terminal
reverse_index t =
    if t.cursor_y == t.scroll_top
    then scroll_down t
    else move_cursor t (pos t.cursor_y -ℤ pos 1) (pos t.cursor_x)

-- `min(max(count, 1), t.cols-t.cursorX)`
abbrev pub char_count : Terminal → ℤ → ℕ
char_count t (pos n) = min (max n 1) (t.cols - t.cursor_x)
char_count t (negsuc n) = min 1 (t.cols - t.cursor_x)

-- The index of the cell under the cursor.
abbrev pub cursor_index : Terminal → ℕ
cursor_index t = t.cursor_y * t.cols + t.cursor_x

unfoldable pub insert_chars : Terminal → ℤ → Terminal
insert_chars t count =
    let n = char_count t count in
    let at = cursor_index t in
    let row = slice_row t.cols t.buffer t.cursor_y (min (t.cursor_x + n) t.cols) in
    let moved = copy_cells row (at + n) at (t.cols - t.cursor_x - n) in
    record t { buffer = mark_row (fill_cells moved at n (blank_cell t)) t.cursor_y }

unfoldable pub delete_chars : Terminal → ℤ → Terminal
delete_chars t count =
    let n = char_count t count in
    let at = cursor_index t in
    let rest = t.cols - t.cursor_x - n in
    let row = slice_row t.cols t.buffer t.cursor_y t.cursor_x in
    let moved = copy_cells row at (at + n) rest in
    record t { buffer = mark_row (fill_cells moved (at + rest) n (blank_cell t)) t.cursor_y }

unfoldable pub erase_chars : Terminal → ℤ → Terminal
erase_chars t count =
    let filled = fill_cells t.buffer (cursor_index t) (char_count t count) (blank_cell t) in
    record t { buffer = mark_row filled t.cursor_y }

-- Mode 0 erases from the cursor on, mode 1 up to it, any other mode the line.
unfoldable pub erase_line : Terminal → ℤ → Terminal
erase_line t mode =
    let start = if is_pos mode 0 then t.cursor_x else 0 in
    let end = if is_pos mode 1 then t.cursor_x + 1 else t.cols in
    let filled = fill_cells t.buffer (t.cursor_y * t.cols + start) (end - start) (blank_cell t) in
    record t { buffer = mark_row filled t.cursor_y }

-- `clearAll`
abbrev pub clear_screen : Terminal → Terminal
clear_screen t = record t { buffer = clear_all t.cols (blank_cell t) t.buffer 0 t.rows }

unfoldable pub erase_display : Terminal → ℤ → Terminal
unfolding erase_line
erase_display t mode =
    if is_pos mode 0
    then (let b = (erase_line t (pos 0)).buffer in
        let below =
          clear_rows t.cols (blank_cell t) b (t.cursor_y + 1) (t.rows - (t.cursor_y + 1)) in
        record t { buffer = mark_range t.rows below t.cursor_y (t.rows - 1) })
    else if is_pos mode 1
    then (let above = clear_rows t.cols (blank_cell t) t.buffer 0 t.cursor_y in
        let b = (erase_line (record t { buffer = above }) (pos 1)).buffer in
        record t { buffer = mark_range t.rows b 0 t.cursor_y })
    else if is_pos mode 2 || is_pos mode 3
    then clear_screen t
    else t

unfoldable pub reset : Terminal → Terminal
reset t = clear_screen (record t {
  cursor_x = 0;
  cursor_y = 0;
  saved_x = 0;
  saved_y = 0;
  pen = default_pen;
  scroll_top = 0;
  scroll_bottom = t.rows - 1;
})

module _ (combining : ℕ → Bool) where
  -- A wide rune loses both its cells. Every index read here is written too, so reads need no check.
  unfoldable pub clear_wide_cell : Terminal → ℕ → ℕ → Terminal
  clear_wide_cell t row col =
      if leb t.rows row || leb t.cols col
      then t
      else let index = row * t.cols + col in
        let b0 = t.buffer in
        let b1 =
          if (read_cell b0 index).continuation && ltb 0 col
          then write_cell b0 (index - 1) (blank_cell t)
          else b0 in
        let b2 =
          if rune_display_width combining (read_cell b1 index).rune == 2 && ltb (col + 1) t.cols
          then write_cell b1 (index + 1) (blank_cell t)
          else b1 in
        record t { buffer = write_cell b2 index (blank_cell t) }
