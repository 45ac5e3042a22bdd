-- ===== src/Display/Operation.antt =====
-- internal/display/operation.go: the ALP drawing operations as byte slices. Coordinates are Go ints
-- that are not negative; the header stores them as uint16.
pub mod Layout
use sun_ray2server.Prelude.{
  ℕ, zero, suc, ◌+◌, ◌*◌, ◌/◌, List, [], ◌∷◌, ◌++◌, Bool, true, false, replicate, set,
}
use sun_ray2server.Prelude.Bytes.{u8, u16, put_u16}

abbrev pub op_resend_done : ℕ
op_resend_done = 0xAC

abbrev pub op_fill : ℕ
op_fill = 0xA2

abbrev pub op_copy : ℕ
op_copy = 0xA4

abbrev pub op_bitmap : ℕ
op_bitmap = 0xA5

abbrev pub op_bitmap_rgb : ℕ
op_bitmap_rgb = 0xA6

abbrev pub op_bounds : ℕ
op_bounds = 0xA8

abbrev pub op_cursor : ℕ
op_cursor = 0xA9

abbrev pub op_pad : ℕ
op_pad = 0xAF

pub record Operation : Type 0 where
  pub bytes : List ℕ
  pub increment : Bool

-- The value of Go's color.Color.RGBA(): 16 bits a channel.
pub record Color : Type 0 where
  pub red : ℕ
  pub green : ℕ
  pub blue : ℕ

-- `make([]byte, 12+payloadLen)` and the header's writes.
unfoldable pub operation : ℕ → ℕ → ℕ → ℕ → ℕ → ℕ → Operation
operation code x y width height payload_len =
    let b0 : List ℕ = replicate 12 0 ++ replicate payload_len 0 in
    let b1 : List ℕ = set b0 0 code in
    let b2 : List ℕ = put_u16 b1 4 (u16 x) in
    let b3 : List ℕ = put_u16 b2 6 (u16 y) in
    let b4 : List ℕ = put_u16 b3 8 (u16 width) in
    let b5 : List ℕ = put_u16 b4 10 (u16 height) in record { bytes = b5; increment = true }

unfoldable pub with_sequence : Operation → ℕ → Operation
with_sequence o seq = record { bytes = put_u16 o.bytes 2 seq; increment = o.increment }

unfoldable pub bounds : ℕ → ℕ → Operation
unfolding operation
bounds width height =
    let o = operation op_bounds 0 0 width height 8 in
    let b1 : List ℕ = put_u16 o.bytes 12 0 in
    let b2 : List ℕ = put_u16 b1 14 0 in
    let b3 : List ℕ = put_u16 b2 16 (u16 width) in record o { bytes = put_u16 b3 18 (u16 height) }

unfoldable pub fill : ℕ → ℕ → ℕ → ℕ → Color → Operation
unfolding operation
fill x y width height c =
    let o = operation op_fill x y width height 4 in
    let b1 : List ℕ = set o.bytes 12 0xFF in
    let b2 : List ℕ = set b1 13 (u8 (c.blue / 256)) in
    let b3 : List ℕ = set b2 14 (u8 (c.green / 256)) in
    record o { bytes = set b3 15 (u8 (c.red / 256)) }

unfoldable pub copy : ℕ → ℕ → ℕ → ℕ → ℕ → ℕ → Operation
unfolding operation
copy x y width height source_x source_y =
    let o = operation op_copy x y width height 4 in
    let b1 : List ℕ = put_u16 o.bytes 12 (u16 source_x) in
    record o { bytes = put_u16 b1 14 (u16 source_y) }

unfoldable pub invisible_cursor : Operation
unfolding operation
invisible_cursor =
    let o = operation op_cursor 1 1 16 16 72 in
    record o { bytes = set (set (set o.bytes 17 0xFF) 18 0xFF) 19 0xFF }

-- Go's `copy(b[i:], xs)` where the target has room for all of `xs`.
abbrev pub write_at : List ℕ → ℕ → List ℕ → List ℕ
write_at b i [] = b
write_at b i (x ∷ xs) = write_at (set b i x) (suc i) xs

abbrev pub cursor_bitmap : List ℕ
cursor_bitmap =
    0x00 ∷ 0x00 ∷ 0x70 ∷ 0x0E ∷ 0x78 ∷ 0x1E ∷ 0x7C ∷ 0x3E ∷ 0x3E ∷ 0x7C ∷ 0x1F ∷ 0xF8 ∷ 0x0F ∷ 0xF0
    ∷ 0x07 ∷ 0xE0 ∷ 0x07 ∷ 0xE0 ∷ 0x0F ∷ 0xF0 ∷ 0x1F ∷ 0xF8 ∷ 0x3E ∷ 0x7C ∷ 0x7C ∷ 0x3E ∷ 0x78
    ∷ 0x1E ∷ 0x70 ∷ 0x0E ∷ 0x00 ∷ 0x00 ∷ []

abbrev pub cursor_mask : List ℕ
cursor_mask =
    0xF0 ∷ 0x0F ∷ 0xF8 ∷ 0x1F ∷ 0xFC ∷ 0x3F ∷ 0xFE ∷ 0x7F ∷ 0x7F ∷ 0xFE ∷ 0x3F ∷ 0xFC ∷ 0x1F ∷ 0xF8
    ∷ 0x0F ∷ 0xF0 ∷ 0x0F ∷ 0xF0 ∷ 0x1F ∷ 0xF8 ∷ 0x3F ∷ 0xFC ∷ 0x7F ∷ 0xFE ∷ 0xFE ∷ 0x7F ∷ 0xFC
    ∷ 0x3F ∷ 0xF8 ∷ 0x1F ∷ 0xF0 ∷ 0x0F ∷ []

unfoldable pub local_cursor : Operation
unfolding operation
local_cursor =
    let o = operation op_cursor 7 7 16 16 72 in
    let b1 : List ℕ = write_at o.bytes 16 (0 ∷ 0 ∷ 200 ∷ 255 ∷ []) in
    let b2 : List ℕ = write_at b1 20 cursor_bitmap in
    record o { bytes = write_at b2 52 cursor_mask }

-- `for i := 12; i < len(b); i++ { b[i] = 0xFF }`, with the rounds left.
abbrev pub pad_loop : List ℕ → ℕ → ℕ → List ℕ
pad_loop b i zero = b
pad_loop b i (suc n) = pad_loop (set b i 0xFF) (suc i) n

unfoldable pub pad : Operation
unfolding operation
pad =
    let o = operation op_pad 0 1 0xFFFF 0xFFFF 12 in
    record { bytes = pad_loop o.bytes 12 12; increment = false }

unfoldable pub resend_done : ℕ → Operation
unfolding operation
resend_done to =
    let o = operation op_resend_done 0 0 0 0 8 in
    let b1 : List ℕ = put_u16 o.bytes 12 0 in
    let b2 : List ℕ = put_u16 b1 14 1 in
    let b3 : List ℕ = put_u16 b2 16 0 in record { bytes = put_u16 b3 18 to; increment = false }

unfoldable pub round4 : ℕ → ℕ
round4 n = (n + 3) / 4 * 4
