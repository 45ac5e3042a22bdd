-- ===== src/Ssh/Terminal/Writing.antt =====
-- Whatever is written, the terminal stays valid.
use sun_ray2server.Prelude.{
  ℕ, zero, suc, ◌+◌, ◌-◌, ◌*◌, Bool, true, false, ◌&&◌, ◌||◌, List, [], ◌∷◌, ◌++◌, ltb, leb, ◌==◌,
  if◌then◌else◌, arith,
}
use sun_ray2server.Ssh.Buffer.{write_cell}
use sun_ray2server.Ssh.Buffer.Bounds.{row_end, write_cell-IsBuffer}
use sun_ray2server.Ssh.Runes.{rune_display_width, decode_rune}
use sun_ray2server.Ssh.Screen.{
  Terminal, State, text, escape_seen, parameters, text_string, string_escape, charset, line_feed,
  mark_cursor, clear_wide_cell, cursor_index,
}
use sun_ray2server.Ssh.Screen.Valid.{
  IsValid, branch-IsValid, mark_cursor-IsValid, line_feed-IsValid,
}
use sun_ray2server.Ssh.Screen.Editing.{write_if-IsBuffer, clear_wide_cell-IsValid}
use sun_ray2server.Ssh.Terminal.{
  escape, rune_cell, store_rune, advance, make_room, put_rune, step_text, step_csi, step_string,
  step, feed, write,
}
use sun_ray2server.Ssh.Terminal.Sequences.{control-IsValid, escape-IsValid, execute_csi-IsValid}

store_rune-IsValid : (t : Terminal) (r width : ℕ) → IsValid t → IsValid (store_rune t r width)
unfolding store_rune
store_rune-IsValid t r width v =
    let size = t.rows * t.cols in
    let at = cursor_index t in
    let wide = width == 2 && ltb (t.cursor_x + 1) t.cols in
    let b = write_cell t.buffer at (rune_cell t.pen r false) in
    let room = row_end t.cols t.rows t.cursor_y v.2 in
    (
      write_if-IsBuffer size t.rows wide b (at + 1) (rune_cell t.pen 0x20 true)
          (λ p. ground (arith, v.1))
          (write_cell-IsBuffer size t.rows t.buffer at (rune_cell t.pen r false)
            (omega (arith, v.1)) v.0),
      v.1,
      v.2,
      v.3,
      v.4,
    )

advance-IsValid : (t : Terminal) (width : ℕ) → IsValid t → IsValid (advance t width)
unfolding advance
advance-IsValid t width v =
    branch-IsValid (leb t.cols (t.cursor_x + width)) _ _
      (λ _. line_feed-IsValid (record t { cursor_x = 0 }) (v.0, omega (arith, v.1), v.2, v.3, v.4))
      (λ p. (v.0, ground (arith, v.1), v.2, v.3, v.4))

module _ (combining : ℕ → Bool) where
  make_room-IsValid : (t : Terminal) (width : ℕ) → IsValid t → IsValid (make_room combining t width)
  unfolding make_room
  make_room-IsValid t width v =
      let m = mark_cursor t in
      let t1 = clear_wide_cell combining m m.cursor_y m.cursor_x in
      let v1 =
        clear_wide_cell-IsValid combining m m.cursor_y m.cursor_x (mark_cursor-IsValid t v) in
      branch-IsValid (width == 2) _ _
        (λ _. clear_wide_cell-IsValid combining t1 t1.cursor_y (t1.cursor_x + 1) v1) (λ _. v1)

  pub put_rune-IsValid : (t : Terminal) (r : ℕ) → IsValid t → IsValid (put_rune combining t r)
  unfolding put_rune
  put_rune-IsValid t r v =
      let width = rune_display_width combining r in
      let wraps = width == 2 && t.cursor_x == t.cols - 1 in
      let t1 = if wraps then line_feed (record t { cursor_x = 0 }) else t in
      let v1 : IsValid t1 =
        branch-IsValid wraps _ _
          (λ _.
            line_feed-IsValid (record t { cursor_x = 0 }) (v.0, omega (arith, v.1), v.2, v.3, v.4))
          (λ _. v) in
      let t2 = make_room combining t1 width in
      branch-IsValid (ltb r 0x20 || width == 0) _ _ (λ _. v)
        (λ _.
          advance-IsValid (store_rune t2 r width) width
            (store_rune-IsValid t2 r width (make_room-IsValid t1 width v1)))

  step_text-IsValid :
      (t : Terminal) (b : ℕ) (bs : List ℕ) → IsValid t → IsValid (step_text combining t b bs).0
  unfolding step_text
  step_text-IsValid t b bs v = ground (
    arith,
    control-IsValid t b v,
    put_rune-IsValid t b v,
    put_rune-IsValid t (decode_rune (b ∷ bs)).0 v,
  )

  step_csi-IsValid : (t : Terminal) (b : ℕ) → IsValid t → IsValid (step_csi combining t b)
  unfolding step_csi
  step_csi-IsValid t b v = ground (arith, execute_csi-IsValid t b v)

  step_string-IsValid : (t : Terminal) (b : ℕ) → IsValid t → IsValid (step_string combining t b)
  unfolding step_string
  step_string-IsValid t b v = ground arith

  pub step-IsValid :
      (t : Terminal) (b : ℕ) (bs : List ℕ) → IsValid t → IsValid (step combining t b bs).0
  unfolding step
  step-IsValid t b bs v = by_state t.state
    where
      by_state :
          (s : State)
          → let r : Terminal × ℕ = elim s [
            | text ↦ step_text combining t b bs
            | escape_seen ↦ (escape t b, 0)
            | parameters ↦ (step_csi combining t b, 0)
            | text_string ↦ (step_string combining t b, 0)
            | string_escape ↦ (record t { state = if b == 0x5C then text else text_string }, 0)
            | charset ↦ (record t { state = text }, 0)
          ] in
            IsValid r.0
      by_state text = step_text-IsValid t b bs v
      by_state escape_seen = escape-IsValid t b v
      by_state parameters = step_csi-IsValid t b v
      by_state text_string = step_string-IsValid t b v
      by_state string_escape = v
      by_state charset = v

  feed-IsValid :
      (skip : ℕ) (t : Terminal) (bs : List ℕ) → IsValid t → IsValid (feed combining skip t bs)
  unfolding feed
  feed-IsValid skip t [] v = v
  feed-IsValid zero t (b ∷ bs) v =
      let r = step combining t b bs in feed-IsValid r.1 r.0 bs (step-IsValid t b bs v)
  feed-IsValid (suc skip) t (b ∷ bs) v = feed-IsValid skip t bs v

  -- Whatever bytes are written to a valid terminal, it is valid again: the cursor and the scroll
  -- region lie on the screen, there are as many cells and rows as the screen has, and no index or
  -- slice bound was out of range on the way.
  pub write-IsValid : (t : Terminal) (p : List ℕ) → IsValid t → IsValid (write combining t p)
  unfolding write
  write-IsValid t p v = feed-IsValid 0 (record t { pending_utf8 = [] }) (t.pending_utf8 ++ p) v
