-- ===== src/Examples/Screen.antt =====
-- The terminal emulator (internal/sshclient/terminal.go) at concrete inputs.
use sun_ray2server.Prelude.{
  ℕ, ◌≤◌, ◌<◌, ◌≡◌, refl, false, Bool, Option, List, [], ◌∷◌, ◌++◌, All, get_or, arith, map,
}
use sun_ray2server.Prelude.Int.{pos, negsuc}
use sun_ray2server.Ssh.Buffer.{
  Cell, write_cell, fill_cells, copy_cells, mark_dirty, mark_rows, clear_all, shift_up, remove_row,
}
use sun_ray2server.Ssh.Color.{rgb, palette, distance, nearest_palette}
use sun_ray2server.Ssh.Color.Nearest.{nearest_palette_lem}
use sun_ray2server.Ssh.Runes.{
  full_rune, decode_rune, rune_size, accepts, rune_display_width, is_wide,
}
use sun_ray2server.Ssh.Screen.{
  Terminal, new_terminal, move_cursor, scroll_up, line_feed, clear_wide_cell,
}
use sun_ray2server.Ssh.Screen.Valid.{IsValid, new_terminal-IsValid}
use sun_ray2server.Ssh.Terminal.{
  escape, advance, store_rune, make_room, put_rune, step_text, step_csi, step, feed, write,
}
use sun_ray2server.Ssh.Terminal.Csi.{param, parse_params, csi_target, execute_csi}
use sun_ray2server.Ssh.Terminal.Writing.{write-IsValid}
use sun_ray2server.Ssh.Terminal.Chunks.{write-append}

abbrev no_marks : ℕ → Bool
no_marks r = false

-- Three columns and two rows.
abbrev small : Terminal
small = new_terminal 30 40 10 20

runes : Terminal → List ℕ
runes t = map (λ (c : Cell). c.rune) t.buffer.cells

-- "ab", a wide rune that wraps, and "c" on the line that is scrolled in.
abbrev wide_text : List ℕ
wide_text = 0x61 ∷ 0x62 ∷ 0xE4 ∷ 0xB8 ∷ 0xAD ∷ 0x63 ∷ []

wrapped : runes (write no_marks small wide_text) ≡ 0x4E2D ∷ 0x20 ∷ 0x63 ∷ 0x20 ∷ 0x20 ∷ 0x20 ∷ []
unfolding runes new_terminal clear_all fill_cells write_cell mark_dirty write feed step step_text
    put_rune rune_display_width is_wide make_room clear_wide_cell store_rune advance line_feed
    scroll_up remove_row shift_up copy_cells mark_rows full_rune decode_rune rune_size accepts
wrapped = refl

-- "ESC [ 2 ; 3 H": the cursor goes to the second row and the third column.
abbrev cursor_home : List ℕ
cursor_home = 0x1B ∷ 0x5B ∷ 0x32 ∷ 0x3B ∷ 0x33 ∷ 0x48 ∷ []

moved : (write no_marks small cursor_home).cursor_x ≡ 2
unfolding new_terminal write feed step step_text escape step_csi execute_csi csi_target param
    parse_params move_cursor
moved = refl

-- "ESC [ 9223372036854775807 B" with the cursor on the second row: the sum wraps.
down_wraps :
    csi_target (move_cursor small (pos 1) (pos 0)) (pos 9223372036854775807 ∷ []) 0x42
    ≡ Option.some (negsuc 9223372036854775807, pos 0)
unfolding csi_target param move_cursor new_terminal
down_wraps = refl

write-IsValid_example : IsValid (write no_marks small (cursor_home ++ wide_text))
write-IsValid_example =
    write-IsValid no_marks small (cursor_home ++ wide_text) (new_terminal-IsValid 30 40 10 20)

-- The cut is inside the wide rune.
write-append_example :
    write no_marks (write no_marks small (0x61 ∷ 0xE4 ∷ [])) (0xB8 ∷ 0xAD ∷ 0x63 ∷ [])
    ≡ write no_marks small ((0x61 ∷ 0xE4 ∷ []) ++ (0xB8 ∷ 0xAD ∷ 0x63 ∷ []))
write-append_example = write-append no_marks small (0x61 ∷ 0xE4 ∷ []) (0xB8 ∷ 0xAD ∷ 0x63 ∷ [])

nearest_palette_lem_example :
    let c = rgb 200 40 60 in
    (nearest_palette c < 16)
    × All (λ d. distance c (get_or palette (nearest_palette c) (rgb 0 0 0)) ≤ distance c d) palette
nearest_palette_lem_example =
    nearest_palette_lem 200 40 60 (omega arith) (omega arith) (omega arith)
