-- ===== src/Ssh/Runes.antt =====
-- The standard library's utf8.FullRune and utf8.DecodeRune, and runeDisplayWidth of
-- internal/sshclient/terminal.go.
use sun_ray2server.Prelude.{
  ℕ, ◌+◌, ◌*◌, ◌%◌, ◌≤◌, ◌≡◌, Bool, true, false, ◌&&◌, ◌||◌, not, List, [], ◌∷◌, ◌++◌, length, ltb,
  leb, ◌==◌, if◌then◌else◌, refl, arith,
}

-- Whether lo <= b <= hi.
abbrev pub between : ℕ → ℕ → ℕ → Bool
between lo b hi = leb lo b && leb b hi

-- The length that a first byte announces; 1 for ASCII and for a byte that starts no rune.
unfoldable pub rune_size : ℕ → ℕ
rune_size b =
    if between 0xC2 b 0xDF
    then 2
    else if between 0xE0 b 0xEF
    then 3
    else if between 0xF0 b 0xF4
    then 4
    else 1

-- The range of the second byte behind the first byte `b`.
unfoldable pub accepts : ℕ → ℕ → Bool
accepts b c =
    if b == 0xE0
    then between 0xA0 c 0xBF
    else if b == 0xED
    then between 0x80 c 0x9F
    else if b == 0xF0
    then between 0x90 c 0xBF
    else if b == 0xF4
    then between 0x80 c 0x8F
    else between 0x80 c 0xBF

abbrev pub is_tail : ℕ → Bool
is_tail c = between 0x80 c 0xBF

-- Whether the bytes start with a whole rune, or with an error that more bytes cannot mend.
unfoldable pub full_rune : List ℕ → Bool
unfolding rune_size accepts
full_rune [] = false
full_rune (a ∷ []) = leb (rune_size a) 1
full_rune (a ∷ b ∷ []) = leb (rune_size a) 2 || not (accepts a b)
full_rune (a ∷ b ∷ c ∷ []) = leb (rune_size a) 3 || not (accepts a b) || not (is_tail c)
full_rune (a ∷ b ∷ c ∷ d ∷ rest) = true

-- U+FFFD, of width 1.
abbrev pub rune_error : ℕ × ℕ
rune_error = (0xFFFD, 1)

abbrev pub one_byte : ℕ → ℕ × ℕ
one_byte a = if ltb a 0x80 then (a, 1) else rune_error

-- The rune at the front and its size in bytes.
unfoldable pub decode_rune : List ℕ → ℕ × ℕ
unfolding rune_size accepts
decode_rune [] = (0xFFFD, 0)
decode_rune (a ∷ []) = if rune_size a == 1 then one_byte a else rune_error
decode_rune (a ∷ b ∷ []) =
    if rune_size a == 1
    then one_byte a
    else if rune_size a == 2 && accepts a b
    then (a % 32 * 64 + b % 64, 2)
    else rune_error
decode_rune (a ∷ b ∷ c ∷ []) =
    if rune_size a == 1
    then one_byte a
    else if not (accepts a b)
    then rune_error
    else if rune_size a == 2
    then (a % 32 * 64 + b % 64, 2)
    else if rune_size a == 3 && is_tail c
    then (a % 16 * 4096 + b % 64 * 64 + c % 64, 3)
    else rune_error
decode_rune (a ∷ b ∷ c ∷ d ∷ rest) =
    if rune_size a == 1
    then one_byte a
    else if not (accepts a b)
    then rune_error
    else if rune_size a == 2
    then (a % 32 * 64 + b % 64, 2)
    else if not (is_tail c)
    then rune_error
    else if rune_size a == 3
    then (a % 16 * 4096 + b % 64 * 64 + c % 64, 3)
    else if is_tail d
    then (a % 8 * 262144 + b % 64 * 4096 + c % 64 * 64 + d % 64, 4)
    else rune_error

-- Bytes that decide the rune decide it whatever follows.
pub full_rune-append : (xs ys : List ℕ) → full_rune xs ≡ true → full_rune (xs ++ ys) ≡ true
unfolding full_rune
full_rune-append [] ys h = ground arith
full_rune-append (a ∷ []) [] h = h
full_rune-append (a ∷ []) (b ∷ []) h = ground arith
full_rune-append (a ∷ []) (b ∷ c ∷ []) h = ground arith
full_rune-append (a ∷ []) (b ∷ c ∷ d ∷ ys) h = refl
full_rune-append (a ∷ b ∷ []) [] h = h
full_rune-append (a ∷ b ∷ []) (c ∷ []) h = ground arith
full_rune-append (a ∷ b ∷ []) (c ∷ d ∷ ys) h = refl
full_rune-append (a ∷ b ∷ c ∷ []) [] h = h
full_rune-append (a ∷ b ∷ c ∷ []) (d ∷ ys) h = refl
full_rune-append (a ∷ b ∷ c ∷ d ∷ xs) ys h = refl

-- The rune that whole bytes decode to is the rune that they and any bytes behind them decode to.
pub decode_rune-append :
    (xs ys : List ℕ) → full_rune xs ≡ true → decode_rune (xs ++ ys) ≡ decode_rune xs
unfolding full_rune decode_rune
decode_rune-append [] ys h = absurd (ground arith)
decode_rune-append (a ∷ []) [] h = refl
decode_rune-append (a ∷ []) (b ∷ []) h = ground arith
decode_rune-append (a ∷ []) (b ∷ c ∷ []) h = ground arith
decode_rune-append (a ∷ []) (b ∷ c ∷ d ∷ ys) h = ground arith
decode_rune-append (a ∷ b ∷ []) [] h = refl
decode_rune-append (a ∷ b ∷ []) (c ∷ []) h = ground arith
decode_rune-append (a ∷ b ∷ []) (c ∷ d ∷ ys) h = ground arith
decode_rune-append (a ∷ b ∷ c ∷ []) [] h = refl
decode_rune-append (a ∷ b ∷ c ∷ []) (d ∷ ys) h = ground arith
decode_rune-append (a ∷ b ∷ c ∷ d ∷ xs) ys h = refl

-- A decoded rune takes between one byte and all of them.
pub decode_rune_size :
    (a : ℕ) (xs : List ℕ)
    → (1 ≤ (decode_rune (a ∷ xs)).1) × ((decode_rune (a ∷ xs)).1 ≤ length (a ∷ xs))
unfolding decode_rune
decode_rune_size a [] = ground arith
decode_rune_size a (b ∷ []) = ground arith
decode_rune_size a (b ∷ c ∷ []) = ground arith
decode_rune_size a (b ∷ c ∷ d ∷ xs) = ground arith

-- The runes of two cells.
unfoldable pub is_wide : ℕ → Bool
is_wide r =
    leb 0x1100 r
    && (leb r 0x115F
        || r == 0x2329
        || r == 0x232A
        || (between 0x2E80 r 0xA4CF && not (r == 0x303F))
        || between 0xAC00 r 0xD7A3
        || between 0xF900 r 0xFAFF
        || between 0xFE10 r 0xFE19
        || between 0xFE30 r 0xFE6F
        || between 0xFF00 r 0xFF60
        || between 0xFFE0 r 0xFFE6
        || between 0x1F300 r 0x1FAFF
        || between 0x20000 r 0x3FFFD)

-- `combining r` is what the standard library's tables say: whether r is in the Unicode categories Mn
-- or Me.
unfoldable pub rune_display_width : (ℕ → Bool) → ℕ → ℕ
unfolding is_wide
rune_display_width combining r =
    if combining r || r == 0x200D then 0 else if is_wide r then 2 else 1
