-- ===== src/Server/Resolution.antt =====
-- internal/server/server.go: the size of the screen, as the terminal reports it and as the configuration
-- and the session set it.
use sun_ray2server.Prelude.{
  ℕ, ◌+◌, ◌*◌, ◌-◌, ◌&&◌, ◌||◌, [], ◌∷◌, Option, none, some, leb, ltb, ◌==◌, if◌then◌else◌,
}
use sun_ray2server.Prelude.Int.{ℤ, pos, negsuc, ltb_ℤ, outside}
use sun_ray2server.Text.{Text, same, cut}
use sun_ray2server.Config.{
  Session, ServerConfig, resolution_current, resolution_terminal, resolution_server,
  resolution_manual,
}

-- The digits behind the value so far.
unfoldable pub digits : ℕ → Text → Option ℕ
digits n [] = some n
digits n (c ∷ s) =
    let rest = digits (n * 10 + (c - 0x30)) s in if leb 0x30 c && leb c 0x39 then rest else none

abbrev pub unsigned : Text → Option ℕ
unsigned [] = none
unsigned (c ∷ s) = digits 0 (c ∷ s)

abbrev pub as_positive : Option ℕ → Option ℤ
as_positive none = none
as_positive (some n) = if ltb n 9223372036854775808 then some (pos n) else none

abbrev pub as_negative : Option ℕ → Option ℤ
as_negative none = none
as_negative (some n) =
    if n == 0
    then some (pos 0)
    else if leb n 9223372036854775808
    then some (negsuc (n - 1))
    else none

-- strconv.Atoi; none is its error.
unfoldable pub atoi : Text → Option ℤ
atoi [] = none
atoi (c ∷ s) =
    if c == 0x2B
    then as_positive (unsigned s)
    else if c == 0x2D
    then as_negative (unsigned s)
    else as_positive (unsigned (c ∷ s))

abbrev pub checked_size : Option ℤ → Option ℤ → ℤ × ℤ → ℤ × ℤ
checked_size none height fallback = fallback
checked_size (some width) none fallback = fallback
checked_size (some width) (some height) fallback =
    if outside width 1 8192 || outside height 1 8192 then fallback else (width, height)

abbrev pub parsed_size : Option (Text × Text) → ℤ × ℤ → ℤ × ℤ
parsed_size none fallback = fallback
parsed_size (some (width, height)) fallback = checked_size (atoi width) (atoi height) fallback

-- The text before the character, or all of it.
abbrev pub before : ℕ → Text → Text
before c s = elim (cut c s) [ none ↦ s | some (a, b) ↦ a ]

unfoldable pub parse_resolution : Text → ℤ → ℤ → ℤ × ℤ
parse_resolution value fallback_width fallback_height =
    parsed_size (cut 0x78 (before 0x3A value)) (fallback_width, fallback_height)

-- The fields of activeDisplay that hold its size.
pub record Geometry : Type 0 where
  pub width : ℤ
  pub height : ℤ
  pub reported_width : ℤ
  pub reported_height : ℤ

-- The configured size replaces the reported one if both of its parts are positive.
unfoldable pub display_size : ServerConfig → Text → Geometry
display_size c start_res =
    let reported = parse_resolution start_res c.fallback_width c.fallback_height in
    if ltb_ℤ (pos 0) c.display_width && ltb_ℤ (pos 0) c.display_height
    then record {
      width = c.display_width;
      height = c.display_height;
      reported_width = reported.0;
      reported_height = reported.1;
    }
    else record {
      width = reported.0;
      height = reported.1;
      reported_width = reported.0;
      reported_height = reported.1;
    }

unfoldable pub vnc_display_geometry : Geometry → Session → Text × ℤ × ℤ
vnc_display_geometry a s =
    if same s.resolution_mode resolution_terminal
    then (s.resolution_mode, a.reported_width, a.reported_height)
    else if same s.resolution_mode resolution_server
    then (s.resolution_mode, pos 0, pos 0)
    else if same s.resolution_mode resolution_manual
    then (s.resolution_mode, s.display_width, s.display_height)
    else (resolution_current, a.width, a.height)

unfoldable pub rdp_display_geometry : Geometry → Session → Text × ℤ × ℤ
rdp_display_geometry a s =
    if same s.resolution_mode resolution_terminal
    then (s.resolution_mode, a.reported_width, a.reported_height)
    else if same s.resolution_mode resolution_manual
    then (s.resolution_mode, s.display_width, s.display_height)
    else (resolution_current, a.width, a.height)

unfoldable pub web_display_geometry : Geometry → Session → Text × ℤ × ℤ
web_display_geometry a s =
    if same s.resolution_mode resolution_terminal
    then (s.resolution_mode, a.reported_width, a.reported_height)
    else if same s.resolution_mode resolution_manual
    then (s.resolution_mode, s.display_width, s.display_height)
    else (resolution_current, a.width, a.height)

-- New: a fallback below 1 becomes the default.
unfoldable pub new : ServerConfig → ServerConfig
new c = record c {
  fallback_width = if ltb_ℤ c.fallback_width (pos 1) then pos 1280 else c.fallback_width;
  fallback_height = if ltb_ℤ c.fallback_height (pos 1) then pos 1024 else c.fallback_height;
}
