-- ===== src/Smartcard/Atr.antt =====
-- internal/smartcard/atr.go: ISO 7816-3 answers to reset in a byte stream.
pub mod Parsing
pub mod Scanning
use sun_ray2server.Prelude.{
  ℕ, zero, suc, ◌+◌, ◌-◌, ◌*◌, ◌/◌, bit_and, bit_xor, Bool, false, ◌&&◌, ◌||◌, not, List, [], ◌∷◌,
  ◌++◌, length, get_or, take, drop, ltb, leb, ◌==◌, if◌then◌else◌,
}

pub record Atr : Type 0 where
  pub raw : List ℕ
  pub direct : Bool
  pub protocols : List ℕ
  pub historical : List ℕ

pub data AtrError : Type 0 where
  need_more bad_initial too_many_groups too_long bad_checksum : AtrError

pub data Result {ℓ} (A : Type ℓ) : Type ℓ where
  ok : A → Result A
  err : AtrError → Result A

infixl 5 ◌>>=◌
abbrev pub ◌>>=◌ {ℓ κ} : {A : Type ℓ} {B : Type κ} → Result A → (A → Result B) → Result B
ok a >>= f = f a
err e >>= f = err e

-- `slices.Contains`
abbrev pub contains : List ℕ → ℕ → Bool
contains [] x = false
contains (y ∷ ys) x = y == x || contains ys x

-- One interface byte: present if its bit of `y` is set, and then it must be there.
unfoldable pub interface_byte : ℕ → ℕ → ℕ → ℕ → Result ℕ
interface_byte size y mask offset =
    if bit_and y mask == 0
    then ok offset
    else if leb size offset
    then err need_more
    else ok (offset + 1)

-- `for mask := byte(0x1); mask <= 0x4; mask <<= 1`
unfoldable pub interface_bytes : ℕ → ℕ → ℕ → Result ℕ
unfolding interface_byte
interface_bytes size y offset = do
  a ← interface_byte size y 1 offset
  b ← interface_byte size y 2 a
  interface_byte size y 4 b

-- What the loop over the groups leaves.
pub record Groups : Type 0 where
  pub offset : ℕ
  pub protocols : List ℕ
  pub has_non_t0 : Bool

-- The TD byte at `offset` names a protocol.
abbrev pub next_group : Groups → ℕ → ℕ → Groups
next_group g offset td =
    let protocol = bit_and td 0x0F in
    record {
      offset = offset + 1;
      protocols =
          if contains g.protocols protocol then g.protocols else g.protocols ++ (protocol ∷ []);
      has_non_t0 = g.has_non_t0 || not (protocol == 0);
    }

-- The loop over the interface byte groups. The number is how many groups are still allowed: Go's
-- loop counts from 0 and refuses the ninth.
unfoldable pub read_groups : ℕ → List ℕ → ℕ → Groups → Result Groups
read_groups zero bytes y g = err too_many_groups
read_groups (suc n) bytes y g = do
  offset ← interface_bytes (length bytes) y g.offset
  let td = get_or bytes offset 0
  let more = read_groups n bytes (td / 16) (next_group g offset td)
  if bit_and y 8 == 0
      then ok (record g { offset = offset })
      else if leb (length bytes) offset
      then err need_more
      else more

-- `for _, value := range data[1:total] { checksum ^= value }`
abbrev pub checksum : List ℕ → ℕ → ℕ
checksum [] acc = acc
checksum (b ∷ bs) acc = checksum bs (bit_xor acc b)

abbrev pub total_length : ℕ → Groups → ℕ
total_length historical_length g = g.offset + historical_length + (if g.has_non_t0 then 1 else 0)

unfoldable pub finish : List ℕ → ℕ → Groups → Result (Atr × ℕ)
finish bytes historical_length g =
    let total = total_length historical_length g in
    if ltb 33 total
    then err too_long
    else if ltb (length bytes) total
    then err need_more
    else if g.has_non_t0 && not (checksum (drop 1 (take total bytes)) 0 == 0)
    then err bad_checksum
    else ok (
      record {
        raw = take total bytes;
        direct = get_or bytes 0 0 == 0x3B;
        protocols = if length g.protocols == 0 then 0 ∷ [] else g.protocols;
        historical = take historical_length (drop g.offset bytes);
      },
      total,
    )

abbrev pub no_groups : Groups
no_groups = record { offset = 2; protocols = []; has_non_t0 = false }

abbrev pub is_initial : ℕ → Bool
is_initial b = b == 0x3B || b == 0x3F

unfoldable pub parse_atr : List ℕ → Result (Atr × ℕ)
parse_atr bytes =
    if ltb (length bytes) 2
    then err need_more
    else if not (is_initial (get_or bytes 0 0))
    then err bad_initial
    else let t0 = get_or bytes 1 0 in
      read_groups 8 bytes (t0 / 16) no_groups >>= finish bytes (bit_and t0 0x0F)

-- The scan, over the bytes from the current offset on: a found ATR is stepped over, any other byte
-- alone. Each round takes a byte, so as many rounds as bytes are enough.
unfoldable pub find_from : ℕ → List ℕ → List Atr
find_from fuel [] = []
find_from zero (b ∷ bs) = []
find_from (suc fuel) (b ∷ bs) =
    let skip = find_from fuel bs in
    let found : List Atr = elim (parse_atr (b ∷ bs)) [
      | ok (atr, consumed) ↦ atr ∷ find_from fuel (drop consumed (b ∷ bs))
      | err e ↦ find_from fuel bs
    ] in
    if is_initial b then found else skip

unfoldable pub find_atrs : List ℕ → List Atr
find_atrs bytes = find_from (length bytes) bytes

-- Hexadecimal text in upper case, as character codes.
abbrev pub hex_digit : ℕ → ℕ
hex_digit n = if ltb n 10 then 48 + n else 55 + n

abbrev pub to_hex : List ℕ → List ℕ
to_hex [] = []
to_hex (b ∷ bs) = hex_digit (b / 16) ∷ hex_digit (b - b / 16 * 16) ∷ to_hex bs
