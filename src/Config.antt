-- ===== src/Config.antt =====
-- internal/config/config.go: the configuration, its defaults and the routing of terminals and cards.
-- Integers are int, the font size is a float64, and durations count nanoseconds.
pub mod Validation
pub mod Routes
pub mod Ready
use sun_ray2server.Prelude.{
  ℕ, Bool, true, false, ◌&&◌, ◌||◌, List, [], ◌∷◌, map, Option, none, some, if◌then◌else◌,
}
use sun_ray2server.Prelude.Int.{ℤ, pos, eq_ℤ}
use sun_ray2server.Prelude.Float.{Float64, fraction, equals_zero}
use sun_ray2server.Text.{
  Text, Unicode, codes, same, is_empty, trim_space, to_lower, lookup, find_fold,
}

pub record Session : Type 0 where
  pub type : Text
  pub address : Text
  pub image : Text
  pub hostname : Text
  pub port : ℤ
  pub username : Text
  pub domain : Text
  pub password : Text
  pub password_file : Text
  pub private_key_file : Text
  pub known_hosts_file : Text
  pub host_key_sha256 : Text
  pub insecure_ignore_host_key : Bool
  pub font_file : Text
  pub font_size : Float64
  pub resolution_mode : Text
  pub display_width : ℤ
  pub display_height : ℤ
  pub certificate : Text
  pub url : Text
  pub browser_no_sandbox : Bool
  pub interactive : Option Bool
  pub reload_interval : ℤ
  pub max_fps : ℤ

pub record ServerConfig : Type 0 where
  pub listen : Text
  pub fallback_width : ℤ
  pub fallback_height : ℤ
  pub display_width : ℤ
  pub display_height : ℤ
  pub packet_delay : ℤ
  pub smartcard_listen : Text
  pub log_input_events : Bool
  pub terminal_ips : List (Text × Text)

pub record Route : Type 0 where
  pub no_card : Text
  pub card_present : Text
  pub cards : List (Text × Text)

pub record Routing : Type 0 where
  pub default : Route
  pub terminals : List (Text × Route)

pub record Config : Type 0 where
  pub version : ℤ
  pub server : ServerConfig
  pub sessions : List (Text × Session)
  pub routing : Routing

abbrev pub card_test : Text
card_test = codes "card-test"

abbrev pub geometry_test : Text
geometry_test = codes "geometry-test"

abbrev pub vnc : Text
vnc = codes "vnc"

abbrev pub ssh : Text
ssh = codes "ssh"

abbrev pub rdp : Text
rdp = codes "rdp"

abbrev pub web : Text
web = codes "web"

-- The resolution modes of VNC; RDP and the browser have all but `resolution_server`.
abbrev pub resolution_current : Text
resolution_current = codes "current"

abbrev pub resolution_terminal : Text
resolution_terminal = codes "terminal"

abbrev pub resolution_server : Text
resolution_server = codes "vnc"

abbrev pub resolution_manual : Text
resolution_manual = codes "manual"

abbrev pub default_graphical_max_fps : ℕ
default_graphical_max_fps = 20

abbrev pub maximum_graphical_max_fps : ℕ
maximum_graphical_max_fps = 60

abbrev pub is_type : Session → Text → Bool
is_type s t = same s.type t

-- The sessions that show a remote picture.
abbrev pub is_graphical : Session → Bool
is_graphical s = is_type s vnc || is_type s rdp || is_type s web

unfoldable pub interactive_enabled : Session → Bool
interactive_enabled s = elim s.interactive [ none ↦ true | some b ↦ b ]

unfoldable pub frame_rate : Session → ℤ
frame_rate s = if eq_ℤ s.max_fps (pos 0) then pos default_graphical_max_fps else s.max_fps

-- `if value == 0 { value = fallback }`
abbrev pub or_default : ℤ → ℕ → ℤ
or_default v fallback = if eq_ℤ v (pos 0) then pos fallback else v

abbrev pub non_empty : Text → Option Text
non_empty [] = none
non_empty (c ∷ s) = some (c ∷ s)

abbrev pub or_else : Option Text → Option Text → Option Text
or_else (some s) other = some s
or_else none other = other

abbrev pub terminal_state : Option Route → Bool → Option Text
terminal_state none present = none
terminal_state (some r) present = non_empty (if present then r.card_present else r.no_card)

module _ (u : Unicode) where
  -- The first assignments of the loop of `applyDefaults`.
  unfoldable pub normalize_session : Session → Session
  normalize_session s = record s {
    type = to_lower u (trim_space u s.type);
    resolution_mode = to_lower u (trim_space u s.resolution_mode);
    certificate = trim_space u s.certificate;
  }

  -- The other assignments: each looks at the type and at the field that it sets.
  unfoldable pub fill_session : Session → Session
  fill_session s = record s {
    max_fps = if is_graphical s then or_default s.max_fps default_graphical_max_fps else s.max_fps;
    resolution_mode =
        if is_graphical s && is_empty s.resolution_mode
        then resolution_current
        else s.resolution_mode;
    port =
        if is_type s ssh
        then or_default s.port 22
        else if is_type s rdp
        then or_default s.port 3389
        else s.port;
    font_size =
        if is_type s ssh && equals_zero s.font_size then fraction (pos 20) 0 else s.font_size;
    certificate =
        if is_type s rdp && is_empty (trim_space u s.certificate)
        then codes "deny"
        else s.certificate;
  }

  abbrev pub default_session : Session → Session
  default_session s = fill_session (normalize_session s)

  unfoldable pub default_server : ServerConfig → ServerConfig
  default_server s = record s {
    listen = if is_empty s.listen then codes ":7009" else s.listen;
    fallback_width = or_default s.fallback_width 1280;
    fallback_height = or_default s.fallback_height 1024;
    packet_delay = or_default s.packet_delay 200000;
  }

  unfoldable pub apply_defaults : Config → Config
  apply_defaults c = record c {
    server = default_server c.server;
    sessions = map (λ e. (e.0, default_session e.1)) c.sessions;
  }

  -- An exact key, or else the first that is equal under case folding.
  unfoldable pub lookup_fold {ℓ} : {V : Type ℓ} → List (Text × V) → Text → Option V
  lookup_fold values key = elim (lookup key values) [
    | some v ↦ some v
    | none ↦ find_fold u key values
  ]

  -- `values` are the cards of the terminal, if it has a route, or else none.
  abbrev pub terminal_card : Option Route → Text → Option Text
  terminal_card none card = none
  terminal_card (some r) card = lookup_fold r.cards card

  -- `none` is the false of the second result.
  unfoldable pub resolve : Config → Text → Text → Bool → Option Text
  resolve c serial card present =
      let terminal = lookup_fold c.routing.terminals serial in
      let default = c.routing.default in
      if present
      then or_else (terminal_card terminal card) (
          or_else (lookup_fold default.cards card)
            (or_else (terminal_state terminal true) (non_empty default.card_present)))
      else or_else (terminal_state terminal false) (non_empty default.no_card)
