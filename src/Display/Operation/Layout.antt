-- ===== src/Display/Operation/Layout.antt =====
-- What a terminal reads out of the operations of internal/display/operation.go.
use sun_ray2server.Prelude.{
  ℕ, ◌+◌, ◌/◌, ◌%◌, ◌≤◌, ◌≡◌, ◌≢◌, refl, sym, ◌∙◌, ◌==◌, if◌then◌else◌, arith, List, [], ◌∷◌, true,
  false, length, get_or, set, drop, replicate, length-replicate, get_or-set_ne,
}
use sun_ray2server.Prelude.Bytes.{u8, u16, get_u16, put_u16, get_u16-put_u16, length-put_u16}
use sun_ray2server.Display.Operation.{
  Operation, Color, operation, with_sequence, bounds, fill, copy, pad, resend_done,
  invisible_cursor, local_cursor, op_bounds, op_fill, op_copy, op_resend_done,
}

-- The 12 bytes at the front of an operation.
pub record Header : Type 0 where
  pub code : ℕ
  pub sequence : ℕ
  pub x : ℕ
  pub y : ℕ
  pub width : ℕ
  pub height : ℕ

abbrev pub header : List ℕ → Header
header b = record {
  code = get_or b 0 0;
  sequence = get_u16 b 2;
  x = get_u16 b 4;
  y = get_u16 b 6;
  width = get_u16 b 8;
  height = get_u16 b 10;
}

abbrev pub header_of : ℕ → ℕ → ℕ → ℕ → ℕ → Header
header_of code x y width height = record {
  code = code;
  sequence = 0;
  x = u16 x;
  y = u16 y;
  width = u16 width;
  height = u16 height;
}

-- A new operation has the given code, sequence zero and the geometry as uint16, and its payload is
-- `n` zero bytes behind 12 header bytes.
pub operation_layout :
    (code x y w h n : ℕ)
    → let o = operation code x y w h n in
      (header o.bytes ≡ header_of code x y w h)
      × (drop 12 o.bytes ≡ replicate n 0)
      × (length o.bytes ≡ 12 + n)
      × (o.increment ≡ true)
unfolding operation
operation_layout code x y w h n =
    (ground arith, refl, omega (arith, length-replicate {A = ℕ} n 0), refl)

put_u16_twice : (b : List ℕ) (s t : ℕ) → 4 ≤ length b → put_u16 (put_u16 b 2 s) 2 t ≡ put_u16 b 2 t
put_u16_twice (a ∷ b ∷ c ∷ d ∷ r) s t h = refl
put_u16_twice _ s t h = absurd (omega arith)

-- Numbering an operation of four bytes or more stores the sequence in bytes 2 and 3, leaves every
-- other byte, the length and the flag, and a second numbering replaces the first.
pub with_sequence_lem :
    (o : Operation) (s t : ℕ)
    → 4 ≤ length o.bytes
    → (get_u16 (with_sequence o s).bytes 2 ≡ u16 s)
      × ((i : ℕ) → i ≢ 2 → i ≢ 3 → get_or (with_sequence o s).bytes i 0 ≡ get_or o.bytes i 0)
      × (length (with_sequence o s).bytes ≡ length o.bytes)
      × ((with_sequence o s).increment ≡ o.increment)
      × (with_sequence (with_sequence o s) t ≡ with_sequence o t)
unfolding with_sequence
with_sequence_lem o s t h = (
  get_u16-put_u16 o.bytes 2 s h,
  λ i p q.
      get_or-set_ne (set o.bytes 2 (s / 256 % 256)) 3 i (s % 256) 0 (λ e. q (sym e))
      ∙ get_or-set_ne o.bytes 2 i (s / 256 % 256) 0 (λ e. p (sym e)),
  length-put_u16 o.bytes 2 s,
  refl,
  λ i. record { bytes = put_u16_twice o.bytes s t h i; increment = o.increment },
)

-- What the operations ask of the terminal. Colours are the blue, green and red byte.
pub data Command : Type 0 where
  set_bounds : ℕ → ℕ → Command
  fill_rectangle : ℕ → ℕ → ℕ → ℕ → List ℕ → Command
  copy_rectangle : ℕ → ℕ → ℕ → ℕ → ℕ → ℕ → Command
  replay_done : ℕ → Command
  unknown : Command

-- A terminal's reading of one operation: the geometry stands in the header, the rest behind it.
abbrev pub read_command : List ℕ → Command
read_command b =
    let h = header b in
    if h.code == op_bounds
    then set_bounds (get_u16 b 16) (get_u16 b 18)
    else if h.code == op_fill
    then fill_rectangle h.x h.y h.width h.height
        (get_or b 13 0 ∷ get_or b 14 0 ∷ get_or b 15 0 ∷ [])
    else if h.code == op_copy
    then copy_rectangle h.x h.y h.width h.height (get_u16 b 12) (get_u16 b 14)
    else if h.code == op_resend_done
    then replay_done (get_u16 b 18)
    else unknown

abbrev pub top_byte : ℕ → ℕ
top_byte c = u8 (c / 256)

-- A terminal that reads a numbered Bounds, Fill, Copy or ResendDone finds the arguments of the
-- call, each as uint16 and the colour's top bytes, whatever sequence the operation was given.
pub read_command-with_sequence :
    (s x y w h p q : ℕ) (c : Color)
    → (read_command (with_sequence (bounds w h) s).bytes ≡ set_bounds (u16 w) (u16 h))
      × (read_command (with_sequence (fill x y w h c) s).bytes
          ≡ fill_rectangle
              (u16 x)
              (u16 y)
              (u16 w)
              (u16 h)
              (top_byte c.blue ∷ top_byte c.green ∷ top_byte c.red ∷ []))
      × (read_command (with_sequence (copy x y w h p q) s).bytes
          ≡ copy_rectangle (u16 x) (u16 y) (u16 w) (u16 h) (u16 p) (u16 q))
      × (read_command (with_sequence (resend_done p) s).bytes ≡ replay_done (u16 p))
unfolding with_sequence bounds fill copy resend_done
read_command-with_sequence s x y w h p q c =
    (ground arith, ground arith, ground arith, ground arith)

-- Sizes of the operations, and which of them consume a drawing sequence: all but Pad and ResendDone.
pub operation_shapes :
    (x y w h p q : ℕ) (c : Color)
    → (length (bounds w h).bytes ≡ 20)
      × (length (fill x y w h c).bytes ≡ 16)
      × (length (copy x y w h p q).bytes ≡ 16)
      × (length invisible_cursor.bytes ≡ 84)
      × (length local_cursor.bytes ≡ 84)
      × (length pad.bytes ≡ 24)
      × (length (resend_done p).bytes ≡ 20)
      × ((bounds w h).increment ≡ true)
      × (pad.increment ≡ false)
      × ((resend_done p).increment ≡ false)
unfolding bounds fill copy resend_done invisible_cursor local_cursor pad
operation_shapes x y w h p q c = (refl, refl, refl, refl, refl, refl, refl, refl, refl, refl)
