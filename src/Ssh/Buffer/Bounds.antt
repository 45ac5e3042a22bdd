-- ===== src/Ssh/Buffer/Bounds.antt =====
-- The moves on cells stay inside the slices where their rows lie in the terminal.
use sun_ray2server.Prelude.{
  ℕ, zero, suc, ◌+◌, ◌-◌, ◌*◌, ◌≤◌, ◌<◌, ◌≡◌, min, true, false, ◌++◌, length, length-set,
  length-append, length-take, length-drop, take, drop, arith,
}
use native.Mathlib.Nat.{suc-mul, mul-le-mul_right}
use sun_ray2server.Ssh.Buffer.{
  Buffer, Cell, write_cell, fill_cells, copy_cells, slice_row, mark_row, mark_dirty, mark_rows,
  mark_range, clear_row, clear_rows, clear_all, copy_row, shift_up, shift_down, remove_row,
  insert_row,
}

-- As many cells and rows as the terminal has, and no index was out of range.
abbrev pub IsBuffer : ℕ → ℕ → Buffer → Type 0
IsBuffer size rows b = (length b.cells ≡ size) × (length b.dirty ≡ rows) × (b.panicked ≡ false)

pub row_end : (cols rows row : ℕ) → row < rows → row * cols + cols ≤ rows * cols
row_end cols rows row h = omega (arith, suc-mul row cols, mul-le-mul_right cols (suc_le row rows h))
  where
    suc_le : (a b : ℕ) → a < b → suc a ≤ b
    suc_le a b k = omega arith

module _ (size rows : ℕ) where
  pub write_cell-IsBuffer :
      (b : Buffer) (i : ℕ) (c : Cell)
      → i < size
      → IsBuffer size rows b
      → IsBuffer size rows (write_cell b i c)
  unfolding write_cell
  write_cell-IsBuffer b i c h v = ground (arith, length-set b.cells i c)

  pub fill_cells-IsBuffer :
      (b : Buffer) (i n : ℕ) (c : Cell)
      → i + n ≤ size
      → IsBuffer size rows b
      → IsBuffer size rows (fill_cells b i n c)
  unfolding fill_cells
  fill_cells-IsBuffer b i zero c h v = v
  fill_cells-IsBuffer b i (suc n) c h v =
      fill_cells-IsBuffer (write_cell b i c) (i + 1) n c (omega arith)
        (write_cell-IsBuffer b i c (omega arith) v)

  pub slice_row-IsBuffer :
      (cols row from : ℕ) (b : Buffer)
      → row * cols + cols ≤ size
      → from ≤ cols
      → IsBuffer size rows b
      → IsBuffer size rows (slice_row cols b row from)
  unfolding slice_row
  slice_row-IsBuffer cols row from b h k v = ground (arith, suc-mul row cols)

  pub copy_cells-IsBuffer :
      (b : Buffer) (dst src n : ℕ)
      → dst + n ≤ size
      → src + n ≤ size
      → IsBuffer size rows b
      → IsBuffer size rows (copy_cells b dst src n)
  unfolding copy_cells
  copy_cells-IsBuffer b dst src n h k v =
      let xs = b.cells in
      ground (
        arith,
        length-append (take dst xs) (take n (drop src xs) ++ drop (dst + n) xs),
        length-append (take n (drop src xs)) (drop (dst + n) xs),
        length-take dst xs,
        length-take n (drop src xs),
        length-drop src xs,
        length-drop (dst + n) xs,
      )

  pub mark_row-IsBuffer :
      (b : Buffer) (row : ℕ) → IsBuffer size rows b → IsBuffer size rows (mark_row b row)
  mark_row-IsBuffer b row v = ground (arith, length-set b.dirty row true)

  pub mark_dirty-IsBuffer :
      (b : Buffer) (row : ℕ)
      → row < rows
      → IsBuffer size rows b
      → IsBuffer size rows (mark_dirty b row)
  unfolding mark_dirty
  mark_dirty-IsBuffer b row h v = ground (arith, length-set b.dirty row true)

  pub mark_rows-IsBuffer :
      (b : Buffer) (row n : ℕ)
      → row + n ≤ rows
      → IsBuffer size rows b
      → IsBuffer size rows (mark_rows b row n)
  unfolding mark_rows
  mark_rows-IsBuffer b row zero h v = v
  mark_rows-IsBuffer b row (suc n) h v =
      mark_rows-IsBuffer (mark_dirty b row) (row + 1) n (omega arith)
        (mark_dirty-IsBuffer b row (omega arith) v)

  pub mark_range-IsBuffer :
      (b : Buffer) (from to : ℕ)
      → from < rows
      → IsBuffer size rows b
      → IsBuffer size rows (mark_range rows b from to)
  mark_range-IsBuffer b from to h v =
      mark_rows-IsBuffer b from (min (rows - 1) to + 1 - from) (omega arith) v

module _ (cols rows : ℕ) where
  pub clear_row-IsBuffer :
      (blank : Cell) (b : Buffer) (row : ℕ)
      → row < rows
      → IsBuffer (rows * cols) rows b
      → IsBuffer (rows * cols) rows (clear_row cols blank b row)
  clear_row-IsBuffer blank b row h v =
      fill_cells-IsBuffer (rows * cols) rows b (row * cols) cols blank (row_end cols rows row h) v

  pub clear_rows-IsBuffer :
      (blank : Cell) (b : Buffer) (row n : ℕ)
      → row + n ≤ rows
      → IsBuffer (rows * cols) rows b
      → IsBuffer (rows * cols) rows (clear_rows cols blank b row n)
  unfolding clear_rows
  clear_rows-IsBuffer blank b row zero h v = v
  clear_rows-IsBuffer blank b row (suc n) h v =
      clear_rows-IsBuffer blank (clear_row cols blank b row) (row + 1) n (omega arith)
        (clear_row-IsBuffer blank b row (omega arith) v)

  pub clear_all-IsBuffer :
      (blank : Cell) (b : Buffer) (row n : ℕ)
      → row + n ≤ rows
      → IsBuffer (rows * cols) rows b
      → IsBuffer (rows * cols) rows (clear_all cols blank b row n)
  unfolding clear_all
  clear_all-IsBuffer blank b row zero h v = v
  clear_all-IsBuffer blank b row (suc n) h v =
      let b1 = clear_row cols blank b row in
      clear_all-IsBuffer blank (mark_dirty b1 row) (row + 1) n (omega arith) (
        mark_dirty-IsBuffer (rows * cols) rows b1 row (omega arith)
          (clear_row-IsBuffer blank b row (omega arith) v))

  copy_row-IsBuffer :
      (b : Buffer) (dst src : ℕ)
      → dst < rows
      → src < rows
      → IsBuffer (rows * cols) rows b
      → IsBuffer (rows * cols) rows (copy_row cols b dst src)
  copy_row-IsBuffer b dst src h k v =
      copy_cells-IsBuffer (rows * cols) rows b (dst * cols) (src * cols) cols
        (row_end cols rows dst h) (row_end cols rows src k) v

  shift_up-IsBuffer :
      (b : Buffer) (row n : ℕ)
      → row + n < rows
      → IsBuffer (rows * cols) rows b
      → IsBuffer (rows * cols) rows (shift_up cols b row n)
  unfolding shift_up
  shift_up-IsBuffer b row zero h v = v
  shift_up-IsBuffer b row (suc n) h v =
      shift_up-IsBuffer (copy_row cols b row (row + 1)) (row + 1) n (omega arith)
        (copy_row-IsBuffer b row (row + 1) (omega arith) (omega arith) v)

  shift_down-IsBuffer :
      (b : Buffer) (row n : ℕ)
      → row + n < rows
      → IsBuffer (rows * cols) rows b
      → IsBuffer (rows * cols) rows (shift_down cols b row n)
  unfolding shift_down
  shift_down-IsBuffer b row zero h v = v
  shift_down-IsBuffer b row (suc n) h v =
      shift_down-IsBuffer (copy_row cols b (row + suc n) (row + n)) row n (omega arith)
        (copy_row-IsBuffer b (row + suc n) (row + n) (omega arith) (omega arith) v)

  module _ (blank : Cell) (b : Buffer) (top bottom : ℕ) (h : top ≤ bottom) (k : bottom < rows) where
    pub remove_row-IsBuffer :
        IsBuffer (rows * cols) rows b
        → IsBuffer (rows * cols) rows (remove_row cols rows blank b top bottom)
    unfolding remove_row
    remove_row-IsBuffer v =
        let b1 = shift_up cols b top (bottom - top) in
        mark_range-IsBuffer (rows * cols) rows (clear_row cols blank b1 bottom) top bottom
          (omega arith)
          (clear_row-IsBuffer blank b1 bottom k
            (shift_up-IsBuffer b top (bottom - top) (omega arith) v))

    pub insert_row-IsBuffer :
        IsBuffer (rows * cols) rows b
        → IsBuffer (rows * cols) rows (insert_row cols rows blank b top bottom)
    unfolding insert_row
    insert_row-IsBuffer v =
        let b1 = shift_down cols b top (bottom - top) in
        mark_range-IsBuffer (rows * cols) rows (clear_row cols blank b1 top) top bottom
          (omega arith)
          (clear_row-IsBuffer blank b1 top (omega arith)
            (shift_down-IsBuffer b top (bottom - top) (omega arith) v))
