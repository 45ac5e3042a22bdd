-- ===== src/Ssh/Terminal/Chunks.antt =====
-- Writing in chunks: how the bytes are cut makes no difference.
use sun_ray2server.Prelude.{
  ℕ, zero, suc, ◌+◌, ◌-◌, ◌≤◌, ◌≡◌, ◌⊎◌, inl, inr, refl, sym, ap, ◌∙◌, Bool, ◌&&◌, ◌||◌, List, [],
  ◌∷◌, ◌++◌, length, ltb, ◌==◌, if◌then◌else◌, Bool-cases, arith,
}
use mathlib.Core.List.{append_assoc}
use sun_ray2server.Prelude.Int.{ℤ, pos, negsuc}
use sun_ray2server.Ssh.Runes.{
  full_rune, decode_rune, full_rune-append, decode_rune-append, decode_rune_size,
  rune_display_width,
}
use sun_ray2server.Ssh.Screen.{
  Terminal, State, text, escape_seen, parameters, text_string, string_escape, charset, move_cursor,
  scroll_up, scroll_down, insert_line, delete_line, insert_chars, delete_chars, erase_chars,
  erase_line, erase_display, line_feed, reverse_index, reset, mark_cursor, clear_wide_cell,
}
use sun_ray2server.Ssh.Terminal.{
  control, escape, store_rune, advance, make_room, put_rune, step_text, step_csi, step_string, step,
  feed, write,
}
use sun_ray2server.Ssh.Terminal.Csi.{
  repeat, repeat_for, set_region, csi_edit, execute_csi, param, parse_params,
}

-- The bytes that wait for the rest of their rune are no business of the screen's operations.
abbrev Keeps : (Terminal → Terminal) → Type 0
Keeps f = (t : Terminal) → (f t).pending_utf8 ≡ t.pending_utf8

line_feed-Keeps : Keeps line_feed
unfolding line_feed scroll_up
line_feed-Keeps t = ground arith

reverse_index-Keeps : Keeps reverse_index
unfolding reverse_index scroll_down move_cursor
reverse_index-Keeps t = ground arith

lines-Keep : Keeps insert_line × Keeps delete_line
unfolding insert_line delete_line
lines-Keep = (λ t. ground arith, λ t. ground arith)

control-Keeps : (b : ℕ) → Keeps (λ t. control t b)
unfolding control
control-Keeps b t = ground (arith, line_feed-Keeps (record t { cursor_x = 0 }))

escape-Keeps : (b : ℕ) → Keeps (λ t. escape t b)
unfolding escape move_cursor reset
escape-Keeps b t =
    ground
      (arith, line_feed-Keeps t, line_feed-Keeps (record t { cursor_x = 0 }), reverse_index-Keeps t)

repeat-Keeps : (f : Terminal → Terminal) → Keeps f → (n : ℕ) → Keeps (repeat n f)
unfolding repeat
repeat-Keeps f k zero t = refl
repeat-Keeps f k (suc n) t = repeat-Keeps f k n (f t) ∙ k t

repeat_for-Keeps : (f : Terminal → Terminal) → Keeps f → (n : ℤ) → Keeps (repeat_for n f)
repeat_for-Keeps f k (pos n) t = repeat-Keeps f k n t
repeat_for-Keeps f k (negsuc n) t = refl

set_region-Keeps : (params : List ℤ) → Keeps (λ t. set_region t params)
unfolding set_region move_cursor
set_region-Keeps params t = ground arith

csi_edit-Keeps : (params : List ℤ) (final : ℕ) → Keeps (λ t. csi_edit t params final)
unfolding csi_edit erase_display erase_line insert_chars delete_chars erase_chars
csi_edit-Keeps params final t =
    let n = param params 0 (pos 1) in
    ground (
      arith,
      set_region-Keeps params t,
      repeat_for-Keeps scroll_up (unfold scroll_up in λ u. refl) n t,
      repeat_for-Keeps scroll_down (unfold scroll_down in λ u. refl) n t,
      repeat_for-Keeps insert_line lines-Keep.0 n t,
      repeat_for-Keeps delete_line lines-Keep.1 n t,
    )

execute_csi-Keeps : (final : ℕ) → Keeps (λ t. execute_csi t final)
unfolding execute_csi move_cursor
execute_csi-Keeps final t = ground (arith, csi_edit-Keeps (parse_params t.csi) final t)

module _ (combining : ℕ → Bool) where
  wide-Keeps : (row col : ℕ) → Keeps (λ t. clear_wide_cell combining t row col)
  unfolding clear_wide_cell
  wide-Keeps row col t = ground arith

  make_room-Keeps : (width : ℕ) → Keeps (λ t. make_room combining t width)
  unfolding make_room
  make_room-Keeps width t =
      let m = mark_cursor t in
      let t1 = clear_wide_cell combining m m.cursor_y m.cursor_x in
      ground
        (arith, wide-Keeps m.cursor_y m.cursor_x m, wide-Keeps t1.cursor_y (t1.cursor_x + 1) t1)

  advance-Keeps : (width : ℕ) → Keeps (λ t. advance t width)
  unfolding advance
  advance-Keeps width t = ground (arith, line_feed-Keeps (record t { cursor_x = 0 }))

  put_rune-Keeps : (r : ℕ) → Keeps (λ t. put_rune combining t r)
  unfolding put_rune store_rune
  put_rune-Keeps r t =
      let width = rune_display_width combining r in
      let wraps = width == 2 && t.cursor_x == t.cols - 1 in
      let t1 = if wraps then line_feed (record t { cursor_x = 0 }) else t in
      let t2 = store_rune (make_room combining t1 width) r width in
      let wrapped : t1.pending_utf8 ≡ t.pending_utf8 =
        ground (arith, line_feed-Keeps (record t { cursor_x = 0 })) in
      let moved = advance-Keeps width t2 ∙ make_room-Keeps width t1 ∙ wrapped in
      elim (Bool-cases (ltb r 0x20 || width == 0)) [ inl e ↦ simp e refl | inr e ↦ simp e moved ]

  -- A round that uses the bytes up, or decides without what follows them.
  abbrev Decided : Terminal → ℕ → List ℕ → (List ℕ → Terminal × ℕ) → Type 0
  Decided t b bs f =
      (((f bs).0.pending_utf8 ≡ t.pending_utf8)
        × ((f bs).1 ≤ length bs)
        × ((q : List ℕ) → f (bs ++ q) ≡ f bs))
      ⊎ (f bs ≡ (record t { pending_utf8 = b ∷ bs }, length bs))

  rune_step :
      (t : Terminal) (b : ℕ) (bs : List ℕ)
      → Decided t b bs (λ cs.
        if full_rune (b ∷ cs)
        then (let r = decode_rune (b ∷ cs) in (put_rune combining t r.0, r.1 - 1))
        else (record t { pending_utf8 = b ∷ cs }, length cs))
  rune_step t b bs = elim (Bool-cases (full_rune (b ∷ bs))) [
    | inl e ↦
        let size = decode_rune_size b bs in
        inl (
          simp e (put_rune-Keeps (decode_rune (b ∷ bs)).0 t),
          simp e (omega arith),
          λ q. rw (e, full_rune-append (b ∷ bs) q e, decode_rune-append (b ∷ bs) q e) refl,
        )
    | inr e ↦ inr (rw e refl)
  ]

  text_step :
      (t : Terminal) (b : ℕ) (bs : List ℕ) → Decided t b bs (λ cs. step_text combining t b cs)
  unfolding step_text
  text_step t b bs = elim (Bool-cases (b == 0x1B)) [
    | inl e ↦ inl (rw e refl, rw e (omega arith), λ q. rw e refl)
    | inr e ↦ elim (Bool-cases (ltb b 0x20 || b == 0x7F)) [
      | inl f ↦ inl (rw (e, f) (control-Keeps b t), rw (e, f) (omega arith), λ q. rw (e, f) refl)
      | inr f ↦ elim (Bool-cases (ltb b 0x80)) [
        | inl g ↦
            inl (
              rw (e, f, g) (put_rune-Keeps b t),
              rw (e, f, g) (omega arith),
              λ q. rw (e, f, g) refl,
            )
        | inr g ↦ rw (e, f, g) (rune_step t b bs)
      ]
    ]
  ]

  step-Decided : (t : Terminal) (b : ℕ) (bs : List ℕ) → Decided t b bs (λ cs. step combining t b cs)
  unfolding step
  step-Decided t b bs = by_state t.state
    where
      by_state :
          (s : State)
          → Decided t b bs (λ cs. elim s [
            | text ↦ step_text combining t b cs
            | escape_seen ↦ (escape t b, 0)
            | parameters ↦ (step_csi combining t b, 0)
            | text_string ↦ (step_string combining t b, 0)
            | string_escape ↦ (record t { state = if b == 0x5C then text else text_string }, 0)
            | charset ↦ (record t { state = text }, 0)
          ])
      by_state text = text_step t b bs
      by_state escape_seen = inl (escape-Keeps b t, omega arith, λ q. refl)
      by_state parameters =
          inl (unfold step_csi in ground (arith, execute_csi-Keeps b t), omega arith, λ q. refl)
      by_state text_string = inl (unfold step_string in ground arith, omega arith, λ q. refl)
      by_state string_escape = inl (refl, omega arith, λ q. refl)
      by_state charset = inl (refl, omega arith, λ q. refl)

  feed_skip : (t : Terminal) (bs : List ℕ) → feed combining (length bs) t bs ≡ t
  unfolding feed
  feed_skip t [] = refl
  feed_skip t (b ∷ bs) = feed_skip t bs

  -- What a second `Write` of `q` does.
  abbrev again : Terminal → List ℕ → Terminal
  again u q = feed combining 0 (record u { pending_utf8 = [] }) (u.pending_utf8 ++ q)

  feed-again : (t : Terminal) (q : List ℕ) → t.pending_utf8 ≡ [] → feed combining 0 t q ≡ again t q
  feed-again t q e =
      ap (λ (x : List ℕ). feed combining 0 (record t { pending_utf8 = x }) q) e
      ∙ ap (λ (x : List ℕ). feed combining 0 (record t { pending_utf8 = [] }) (x ++ q)) (sym e)

  feed-append :
      (skip : ℕ) (t : Terminal) (xs q : List ℕ)
      → t.pending_utf8 ≡ []
      → skip ≤ length xs
      → feed combining skip t (xs ++ q) ≡ again (feed combining skip t xs) q
  unfolding feed
  feed-append zero t [] q e h = feed-again t q e
  feed-append (suc skip) t [] q e h = absurd (omega arith)
  feed-append (suc skip) t (b ∷ bs) q e h = feed-append skip t bs q e (omega arith)
  feed-append zero t (b ∷ bs) q e h = elim (step-Decided t b bs) [
    | inl (keeps, le, same) ↦
        let r = step combining t b bs in
        ap (λ (s : Terminal × ℕ). feed combining s.1 s.0 (bs ++ q)) (same q)
        ∙ feed-append r.1 r.0 bs q (keeps ∙ e) le
    | inr wait ↦
        let t' = record t { pending_utf8 = b ∷ bs } in
        let last : feed combining 0 t (b ∷ bs) ≡ t' =
          ap (λ (s : Terminal × ℕ). feed combining s.1 s.0 bs) wait ∙ feed_skip t' bs in
        ap (λ (x : List ℕ). feed combining 0 (record t { pending_utf8 = x }) ((b ∷ bs) ++ q)) e
        ∙ ap (λ (u : Terminal). again u q) (sym last)
  ]

  -- Writing two chunks, one after the other, is writing their bytes at once: runes and escape
  -- sequences may be cut anywhere.
  pub write-append :
      (t : Terminal) (p q : List ℕ)
      → write combining (write combining t p) q ≡ write combining t (p ++ q)
  unfolding write
  write-append t p q =
      let t0 = record t { pending_utf8 = [] } in
      sym (feed-append 0 t0 (t.pending_utf8 ++ p) q refl (omega arith))
      ∙ ap (λ (x : List ℕ). feed combining 0 t0 x) (append_assoc t.pending_utf8 p q)
