-- ===== src/Ssh/Terminal.antt =====
-- internal/sshclient/terminal.go: the state machine of escape sequences behind Write.
pub mod Csi
pub mod Sequences
pub mod Writing
pub mod Chunks
use sun_ray2server.Prelude.{
  ℕ, zero, suc, ◌+◌, ◌-◌, ◌*◌, ◌/◌, min, Bool, true, false, ◌&&◌, ◌||◌, List, [], ◌∷◌, ◌++◌, length,
  ltb, leb, ◌==◌, if◌then◌else◌,
}
use sun_ray2server.Ssh.Buffer.{Cell, write_cell}
use sun_ray2server.Ssh.Color.{Pen}
use sun_ray2server.Ssh.Runes.{full_rune, decode_rune, rune_display_width}
use sun_ray2server.Prelude.Int.{pos}
use sun_ray2server.Ssh.Screen.{
  Terminal, text, escape_seen, parameters, text_string, string_escape, charset, mark_cursor,
  move_cursor, line_feed, reverse_index, reset, clear_wide_cell, cursor_index,
}
use sun_ray2server.Ssh.Terminal.Csi.{execute_csi}

-- CR, LF with VT and FF, BS and TAB; other control characters do nothing.
unfoldable pub control : Terminal → ℕ → Terminal
control t b =
    if b == 0x0D
    then record (mark_cursor t) { cursor_x = 0 }
    else if b == 0x0A || b == 0x0B || b == 0x0C
    then line_feed (record t { cursor_x = 0 })
    else if b == 0x08
    then record (mark_cursor t) { cursor_x = t.cursor_x - 1 }
    else if b == 0x09
    then record (mark_cursor t) { cursor_x = min (t.cols - 1) ((t.cursor_x / 8 + 1) * 8) }
    else t

-- The byte behind ESC.
unfoldable pub escape : Terminal → ℕ → Terminal
escape t b =
    if b == 0x5B
    then record t { state = parameters; csi = [] }
    else if b == 0x5D
    then record t { state = text_string }
    else if b == 0x28 || b == 0x29 || b == 0x2A || b == 0x2B
    then record t { state = charset }
    else if b == 0x37
    then record t { saved_x = t.cursor_x; saved_y = t.cursor_y; state = text }
    else if b == 0x38
    then record (move_cursor t (pos t.saved_y) (pos t.saved_x)) { state = text }
    else if b == 0x44
    then record (line_feed t) { state = text }
    else if b == 0x45
    then record (line_feed (record t { cursor_x = 0 })) { state = text }
    else if b == 0x4D
    then record (reverse_index t) { state = text }
    else if b == 0x63
    then record (reset t) { state = text }
    else record t { state = text }

abbrev pub rune_cell : Pen → ℕ → Bool → Cell
rune_cell pen r continuation = record {
  rune = r;
  fg = pen.fg;
  bg = pen.bg;
  bold = pen.bold;
  inverse = pen.inverse;
  continuation = continuation;
}

-- The end of `putRune`: the cursor moves on, to the next line at the right edge.
unfoldable pub advance : Terminal → ℕ → Terminal
advance t width =
    if leb t.cols (t.cursor_x + width)
    then line_feed (record t { cursor_x = 0 })
    else record t { cursor_x = t.cursor_x + width }

-- The cells that a rune takes.
unfoldable pub store_rune : Terminal → ℕ → ℕ → Terminal
store_rune t r width =
    let at = cursor_index t in
    let b = write_cell t.buffer at (rune_cell t.pen r false) in
    record t {
      buffer =
          if width == 2 && ltb (t.cursor_x + 1) t.cols
          then write_cell b (at + 1) (rune_cell t.pen 0x20 true)
          else b;
    }

module _ (combining : ℕ → Bool) where
  -- The cells under a rune are cleared, with the other halves of wide runes.
  unfoldable pub make_room : Terminal → ℕ → Terminal
  make_room t0 width =
      let t = mark_cursor t0 in
      let t1 = clear_wide_cell combining t t.cursor_y t.cursor_x in
      if width == 2 then clear_wide_cell combining t1 t1.cursor_y (t1.cursor_x + 1) else t1

  unfoldable pub put_rune : Terminal → ℕ → Terminal
  unfolding make_room store_rune advance
  put_rune t r =
      let width = rune_display_width combining r in
      if ltb r 0x20 || width == 0
      then t
      else let wraps = width == 2 && t.cursor_x == t.cols - 1 in
        let t1 = if wraps then line_feed (record t { cursor_x = 0 }) else t in
        advance (store_rune (make_room t1 width) r width) width

  -- Outside escape sequences, at the bytes `b ∷ bs`: the state, and how many of `bs` are taken too.
  unfoldable pub step_text : Terminal → ℕ → List ℕ → Terminal × ℕ
  step_text t b bs =
      if b == 0x1B
      then (record t { state = escape_seen }, 0)
      else if ltb b 0x20 || b == 0x7F
      then (control t b, 0)
      else if ltb b 0x80
      then (put_rune t b, 0)
      else if full_rune (b ∷ bs)
      then (let r = decode_rune (b ∷ bs) in (put_rune t r.0, r.1 - 1))
      else (record t { pending_utf8 = b ∷ bs }, length bs)

  -- Inside an escape sequence, where each byte is a round.
  unfoldable pub step_csi : Terminal → ℕ → Terminal
  step_csi t b =
      if leb 0x40 b && leb b 0x7E
      then record (execute_csi t b) { state = text; csi = [] }
      else if ltb (length t.csi) 128
      then record t { csi = t.csi ++ (b ∷ []) }
      else t

  unfoldable pub step_string : Terminal → ℕ → Terminal
  step_string t b =
      if b == 0x07
      then record t { state = text }
      else if b == 0x1B
      then record t { state = string_escape }
      else t

  -- A round of the loop of `Write`.
  unfoldable pub step : Terminal → ℕ → List ℕ → Terminal × ℕ
  unfolding step_text step_csi step_string
  step t b bs = elim t.state [
    | text ↦ step_text t b bs
    | escape_seen ↦ (escape t b, 0)
    | parameters ↦ (step_csi t b, 0)
    | text_string ↦ (step_string t b, 0)
    | string_escape ↦ (record t { state = if b == 0x5C then text else text_string }, 0)
    | charset ↦ (record t { state = text }, 0)
  ]

  -- The loop, with the number of bytes to pass over.
  unfoldable pub feed : ℕ → Terminal → List ℕ → Terminal
  feed skip t [] = t
  feed (suc skip) t (b ∷ bs) = feed skip t bs
  feed zero t (b ∷ bs) = let r = step t b bs in feed r.1 r.0 bs

  unfoldable pub write : Terminal → List ℕ → Terminal
  unfolding feed
  write t p = feed 0 (record t { pending_utf8 = [] }) (t.pending_utf8 ++ p)
