-- ===== src/Ssh/Buffer.antt =====
-- internal/sshclient/terminal.go: the cells and dirty rows of a terminal, and the moves on them.
pub mod Bounds
use sun_ray2server.Prelude.{
  ℕ, zero, suc, ◌+◌, ◌-◌, ◌*◌, min, Bool, true, false, ◌&&◌, List, ◌++◌, length, set, get_or, take,
  drop, ltb, leb, if◌then◌else◌,
}

pub record Cell : Type 0 where
  pub rune : ℕ
  pub fg : ℕ
  pub bg : ℕ
  pub bold : Bool
  pub inverse : Bool
  pub continuation : Bool

-- The slices `cells` and `dirty`. `panicked` tells that an index or a slice bound was out of range,
-- where Go stops with a run-time panic.
pub record Buffer : Type 0 where
  pub cells : List Cell
  pub dirty : List Bool
  pub panicked : Bool

unfoldable pub write_cell : Buffer → ℕ → Cell → Buffer
write_cell b i c =
    if ltb i (length b.cells)
    then record b { cells = set b.cells i c }
    else record b { panicked = true }

abbrev pub zero_cell : Cell
zero_cell = record { rune = 0; fg = 0; bg = 0; bold = false; inverse = false; continuation = false }

abbrev pub read_cell : Buffer → ℕ → Cell
read_cell b i = get_or b.cells i zero_cell

-- `n` cells from index `i` on become `c`.
unfoldable pub fill_cells : Buffer → ℕ → ℕ → Cell → Buffer
fill_cells b i zero c = b
fill_cells b i (suc n) c = fill_cells (write_cell b i c) (i + 1) n c

-- `copy` of `n` cells between slices of `cells`, which may overlap.
unfoldable pub copy_cells : Buffer → ℕ → ℕ → ℕ → Buffer
copy_cells b dst src n =
    if leb (dst + n) (length b.cells) && leb (src + n) (length b.cells)
    then record b {
      cells = take dst b.cells ++ (take n (drop src b.cells) ++ drop (dst + n) b.cells);
    }
    else record b { panicked = true }

-- `t.row(row)[from:]`: the slice of a row of `cols` cells from `from` on has to exist.
unfoldable pub slice_row : ℕ → Buffer → ℕ → ℕ → Buffer
slice_row cols b row from =
    if leb ((row + 1) * cols) (length b.cells) && leb from cols
    then b
    else record b { panicked = true }

-- `markRow` has a guard, so a row outside changes nothing.
abbrev pub mark_row : Buffer → ℕ → Buffer
mark_row b row = record b { dirty = set b.dirty row true }

unfoldable pub mark_dirty : Buffer → ℕ → Buffer
mark_dirty b row =
    if ltb row (length b.dirty)
    then record b { dirty = set b.dirty row true }
    else record b { panicked = true }

unfoldable pub mark_rows : Buffer → ℕ → ℕ → Buffer
mark_rows b row zero = b
mark_rows b row (suc n) = mark_rows (mark_dirty b row) (row + 1) n

-- The rows `from..to` of a terminal of `rows` rows.
abbrev pub mark_range : ℕ → Buffer → ℕ → ℕ → Buffer
mark_range rows b from to = mark_rows b from (min (rows - 1) to + 1 - from)

abbrev pub clear_row : ℕ → Cell → Buffer → ℕ → Buffer
clear_row cols blank b row = fill_cells b (row * cols) cols blank

-- `n` rows from `row` on are cleared.
unfoldable pub clear_rows : ℕ → Cell → Buffer → ℕ → ℕ → Buffer
clear_rows cols blank b row zero = b
clear_rows cols blank b row (suc n) = clear_rows cols blank (clear_row cols blank b row) (row + 1) n

unfoldable pub clear_all : ℕ → Cell → Buffer → ℕ → ℕ → Buffer
clear_all cols blank b row zero = b
clear_all cols blank b row (suc n) =
    clear_all cols blank (mark_dirty (clear_row cols blank b row) row) (row + 1) n

-- `copy(t.row(dst), t.row(src))`
abbrev pub copy_row : ℕ → Buffer → ℕ → ℕ → Buffer
copy_row cols b dst src = copy_cells b (dst * cols) (src * cols) cols

-- Each of `n` rows from `row` on takes the row below it, the upper ones first.
unfoldable pub shift_up : ℕ → Buffer → ℕ → ℕ → Buffer
shift_up cols b row zero = b
shift_up cols b row (suc n) = shift_up cols (copy_row cols b row (row + 1)) (row + 1) n

-- Each of `n` rows from `row + n` upwards takes the row above it, the lower ones first.
unfoldable pub shift_down : ℕ → Buffer → ℕ → ℕ → Buffer
shift_down cols b row zero = b
shift_down cols b row (suc n) = shift_down cols (copy_row cols b (row + suc n) (row + n)) row n

-- The body of scrollUp and deleteLine: the rows `top..bottom` move up by one.
unfoldable pub remove_row : ℕ → ℕ → Cell → Buffer → ℕ → ℕ → Buffer
remove_row cols rows blank b top bottom =
    let shifted = shift_up cols b top (bottom - top) in
    mark_range rows (clear_row cols blank shifted bottom) top bottom

-- The body of scrollDown and insertLine: the rows `top..bottom` move down by one.
unfoldable pub insert_row : ℕ → ℕ → Cell → Buffer → ℕ → ℕ → Buffer
insert_row cols rows blank b top bottom =
    let shifted = shift_down cols b top (bottom - top) in
    mark_range rows (clear_row cols blank shifted top) top bottom
