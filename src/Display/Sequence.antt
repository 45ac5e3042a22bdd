-- ===== src/Display/Sequence.antt =====
-- internal/display/client.go: the arithmetic of operation sequences and NACK ranges. All numbers
-- are uint32.
use sun_ray2server.Prelude.{
  ℕ, ◌+◌, ◌-◌, ◌*◌, ◌/◌, ◌%◌, ◌≤◌, ◌<◌, ◌≡◌, ◌⊎◌, ◌↔◌, min, arith, Bool, true, false, ◌&&◌, ◌||◌,
  ltb, leb, ◌==◌, if◌then◌else◌,
}
use sun_ray2server.Prelude.Bytes.{u16, u32}

abbrev pub operation_seq_mod : ℕ
operation_seq_mod = 65536

abbrev pub nack_open_ended : ℕ
nack_open_ended = 0x00FFFFFF

abbrev pub max_direct_resend : ℕ
max_direct_resend = 512

abbrev pub IsU32 : ℕ → Type 0
IsU32 n = n < 4294967296

-- The guard `to-from+1 <= maxNACKRange` is uint32 arithmetic; `to >= from` and both are at most
-- 0xFFFFFF there, so nothing wraps.
unfoldable pub valid_nack_range : ℕ → ℕ → Bool
valid_nack_range from to =
    if ltb nack_open_ended from || ltb nack_open_ended to
    then false
    else if to == nack_open_ended
    then true
    else if leb from to
    then leb (to - from + 1) operation_seq_mod
    else if ltb from operation_seq_mod && ltb to operation_seq_mod
    then leb (operation_seq_mod - from + to + 1) operation_seq_mod
    else false

-- `current &^ 0xFFFF | wire & 0xFFFF`, then the nearest epoch, in uint32.
unfoldable pub extend_operation_sequence : ℕ → ℕ → ℕ
extend_operation_sequence wire current =
    let candidate = current / 65536 * 65536 + wire % 65536 in
    if ltb current candidate && ltb 32768 (candidate - current)
    then (if leb operation_seq_mod candidate then candidate - operation_seq_mod else candidate)
    else if ltb candidate current && ltb 32768 (current - candidate)
    then u32 (candidate + operation_seq_mod)
    else candidate

unfoldable pub should_replace_resend_with_snapshot : ℕ → ℕ → ℕ → Bool
should_replace_resend_with_snapshot from to current =
    if ltb to from || ltb current from
    then false
    else ltb max_direct_resend (u32 (min to current - from + 1))

-- The extended sequence has the low 16 bits that the terminal reported, and is a uint32.
pub extend-low_bits :
    (wire current : ℕ)
    → IsU32 current
    → (u16 (extend_operation_sequence wire current) ≡ u16 wire)
      × IsU32 (extend_operation_sequence wire current)
unfolding extend_operation_sequence
extend-low_bits wire current h = ground arith

-- Away from the two ends of the uint32 range the result is the nearest such number: it is at most
-- 32768 from the current operation, on either side.
pub extend_nearest :
    (wire current : ℕ)
    → 65536 ≤ current
    → current + 65536 < 4294967296
    → let n = extend_operation_sequence wire current in
      (n ≤ current + 32768) × (current ≤ n + 32768)
unfolding extend_operation_sequence
extend_nearest wire current lo hi = ground arith

-- A sequence that lies within 32767 of the current operation is found again from its low 16 bits,
-- so a NACK of a recent operation names that operation.
pub extend-u16 :
    (n current : ℕ)
    → IsU32 n
    → IsU32 current
    → n < current + 32768
    → current < n + 32768
    → extend_operation_sequence (u16 n) current ≡ n
unfolding extend_operation_sequence
extend-u16 n current hn hc p q = ground arith

-- What a NACK range may be: both ends at most 0xFFFFFF, and open-ended, or ascending over at most
-- 65536 operations, or descending across the wrap of two 16-bit sequences.
pub valid_nack_range_lem :
    (from to : ℕ)
    → (valid_nack_range from to ≡ true)
      ↔ (from ≤ nack_open_ended)
        × (to ≤ nack_open_ended)
        × ((to ≡ nack_open_ended)
            ⊎ ((from ≤ to) × (to < from + 65536))
            ⊎ ((to < from) × (from < 65536)))
unfolding valid_nack_range
valid_nack_range_lem from to = ground arith

-- A replay is replaced by a snapshot exactly if more than 512 operations between the range's start
-- and the smaller of its end and the current operation would be replayed, for a counter below the
-- largest uint32.
pub should_replace_lem :
    (from to current : ℕ)
    → current < 4294967295
    → (should_replace_resend_with_snapshot from to current ≡ true)
      ↔ (from + 512 ≤ to) × (from + 512 ≤ current)
unfolding should_replace_resend_with_snapshot
should_replace_lem from to current h = ground arith
