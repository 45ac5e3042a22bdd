-- ===== src/Config/Validation.antt =====
-- internal/config/config.go: Validate, with a constructor for each of its errors.
use sun_ray2server.Prelude.{
  ℕ, zero, suc, ◌+◌, ◌-◌, Bool, true, false, ◌&&◌, ◌||◌, not, List, [], ◌∷◌, Option, none, some,
  ltb, leb, ◌==◌, if◌then◌else◌,
}
use sun_ray2server.Prelude.Int.{pos, eq_ℤ, ltb_ℤ, outside}
use sun_ray2server.Prelude.Float.{equals_zero, is_below, is_above}
use sun_ray2server.Text.{
  Text, Unicode, codes, same, is_empty, has_prefix, trim_space, to_lower, lookup,
}
use sun_ray2server.Config.{
  Config, ServerConfig, Session, Route, card_test, geometry_test, vnc, ssh, rdp, web, is_type,
  is_graphical, resolution_current, resolution_terminal, resolution_server, resolution_manual,
  maximum_graphical_max_fps,
}

pub data ConfigError : Type 0 where
  bad_version bad_fallback half_display bad_display negative_delay : ConfigError
  empty_ip_serial bad_terminal_ip no_sessions empty_session_name bad_fps : ConfigError
  bad_address two_passwords size_without_manual bad_manual_size bad_resolution_mode : ConfigError
  bad_url bad_reload no_hostname bad_port no_username host_key_methods : ConfigError
  bad_fingerprint no_credentials bad_font_size bad_certificate bad_type : ConfigError
  unknown_session empty_card empty_terminal_serial no_default_route : ConfigError

-- What the packages net and net/url say of a text: that it is the address of one terminal (an IPv4
-- address, not unspecified, multicast or broadcast), that it splits into host and port, and that it is
-- a URI with a host and the scheme http or https.
pub record Net : Type 0 where
  pub is_terminal_ip : Text → Bool
  pub splits_host_port : Text → Bool
  pub is_web_url : Text → Bool

-- `if bad { return e }`, and what follows it.
abbrev pub guard : Bool → ConfigError → Option ConfigError → Option ConfigError
guard true e rest = some e
guard false e rest = rest

-- `if err := first; err != nil { return err }`, and what follows it.
abbrev pub and_next : Option ConfigError → Option ConfigError → Option ConfigError
and_next none rest = rest
and_next (some e) rest = some e

-- The switch on the resolution mode: the modes with a size of their own, and the manual one.
unfoldable pub validate_mode : Bool → Text → Session → Option ConfigError
validate_mode fixed mode s =
    if fixed
    then guard (not (eq_ℤ s.display_width (pos 0)) || not (eq_ℤ s.display_height (pos 0)))
        size_without_manual none
    else if same mode resolution_manual
    then guard (outside s.display_width 1 8192 || outside s.display_height 1 8192) bad_manual_size
        none
    else some bad_resolution_mode

abbrev pub is_fixed : Text → Bool
is_fixed mode = same mode resolution_current || same mode resolution_terminal

abbrev pub both_passwords : Session → Bool
both_passwords s = not (is_empty s.password) && not (is_empty s.password_file)

-- An empty mode counts as the current one.
abbrev pub vnc_mode : Session → Text
vnc_mode s = if is_empty s.resolution_mode then resolution_current else s.resolution_mode

unfoldable pub validate_vnc : Net → Session → Option ConfigError
validate_vnc net s = guard (not (net.splits_host_port s.address)) bad_address (
    guard (both_passwords s) two_passwords
      (validate_mode (is_fixed (vnc_mode s) || same (vnc_mode s) resolution_server) (vnc_mode s) s))

abbrev pub count_if : Bool → ℕ
count_if b = if b then 1 else 0

abbrev pub host_key_count : Session → ℕ
host_key_count s =
    count_if (not (is_empty s.known_hosts_file))
    + count_if (not (is_empty s.host_key_sha256))
    + count_if s.insecure_ignore_host_key

unfoldable pub validate_server : ServerConfig → Option ConfigError
validate_server s =
    guard (outside s.fallback_width 1 8192 || outside s.fallback_height 1 8192) bad_fallback (
      guard
        (not (count_if (eq_ℤ s.display_width (pos 0)) == count_if (eq_ℤ s.display_height (pos 0))))
        half_display
        (guard (outside s.display_width 0 8192 || outside s.display_height 0 8192) bad_display
          (guard (ltb_ℤ s.packet_delay (pos 0)) negative_delay none)))

abbrev pub is_unknown : List (Text × Session) → Text → Bool
is_unknown sessions name = elim (lookup name sessions) [ none ↦ true | some s ↦ false ]

abbrev pub is_dangling : List (Text × Session) → Text → Bool
is_dangling sessions name = not (is_empty name) && is_unknown sessions name

abbrev pub no_entry : List (Text × Session) → Bool
no_entry [] = true
no_entry (e ∷ es) = false

-- The bytes of a code point in UTF-8.
abbrev pub utf8_width : ℕ → ℕ
utf8_width c = if ltb c 0x80 then 1 else if ltb c 0x800 then 2 else if ltb c 0x10000 then 3 else 4

-- The text behind so many bytes; what is left of a code point that is cut is no valid one.
abbrev pub drop_bytes : ℕ → Text → Text
drop_bytes zero s = s
drop_bytes (suc n) [] = []
drop_bytes (suc n) (c ∷ s) =
    let rest = drop_bytes (suc n - utf8_width c) s in
    if leb (utf8_width c) (suc n) then rest else 0xFFFD ∷ s

module _ (u : Unicode) where
  abbrev pub is_blank : Text → Bool
  is_blank s = is_empty (trim_space u s)

  unfoldable pub validate_web : Net → Session → Option ConfigError
  validate_web net s = guard (not (net.is_web_url (trim_space u s.url))) bad_url (
      and_next (validate_mode (is_fixed s.resolution_mode) s.resolution_mode s) (
        guard
          (ltb_ℤ s.reload_interval (pos 0)
            || (ltb_ℤ (pos 0) s.reload_interval && ltb_ℤ s.reload_interval (pos 1000000000)))
          bad_reload none))

  -- The checks that SSH and RDP share.
  unfoldable pub validate_host : Session → Option ConfigError
  validate_host s =
      guard (is_blank s.hostname) no_hostname
        (guard (outside s.port 1 65535) bad_port (guard (both_passwords s) two_passwords none))

  unfoldable pub validate_ssh : Session → Option ConfigError
  validate_ssh s = guard (is_blank s.username) no_username (
      guard (not (host_key_count s == 1)) host_key_methods (
        guard
          (not (is_empty s.host_key_sha256) && not (has_prefix s.host_key_sha256 (codes "SHA256:")))
          bad_fingerprint
          (guard (is_empty s.password && is_empty s.password_file && is_empty s.private_key_file)
            no_credentials
            (guard
              (not (equals_zero s.font_size) && (is_below s.font_size 8 || is_above s.font_size 72))
              bad_font_size none))))

  unfoldable pub valid_certificate_policy : Text → Bool
  valid_certificate_policy policy =
      let lower = to_lower u policy in
      if same lower (codes "deny") || same lower (codes "ignore") || same lower (codes "tofu")
      then true
      else if has_prefix lower (codes "name:")
      then not (is_blank (drop_bytes 5 policy))
      else if has_prefix lower (codes "fingerprint:")
      then not (is_blank (drop_bytes 12 policy))
      else false

  unfoldable pub validate_rdp : Session → Option ConfigError
  validate_rdp s = guard (is_blank s.username) no_username (
      guard (is_empty s.password && is_empty s.password_file) no_credentials (
        and_next (validate_mode (is_fixed s.resolution_mode) s.resolution_mode s)
          (guard (not (valid_certificate_policy s.certificate)) bad_certificate none)))

  unfoldable pub validate_type : Net → Session → Option ConfigError
  validate_type net s =
      if is_type s card_test || is_type s geometry_test
      then none
      else if is_type s vnc
      then validate_vnc net s
      else if is_type s web
      then validate_web net s
      else if is_type s ssh
      then and_next (validate_host s) (validate_ssh s)
      else if is_type s rdp
      then and_next (validate_host s) (validate_rdp s)
      else some bad_type

  unfoldable pub validate_session : Net → Text → Session → Option ConfigError
  validate_session net name s = guard (is_blank name) empty_session_name (
      guard
        (is_graphical s
          && (not (eq_ℤ s.max_fps (pos 0)) && outside s.max_fps 1 maximum_graphical_max_fps))
        bad_fps (validate_type net s))

  unfoldable pub validate_sessions : Net → List (Text × Session) → Option ConfigError
  validate_sessions net [] = none
  validate_sessions net ((name, s) ∷ rest) =
      and_next (validate_session net name s) (validate_sessions net rest)

  unfoldable pub validate_ips : Net → List (Text × Text) → Option ConfigError
  validate_ips net [] = none
  validate_ips net ((serial, address) ∷ rest) = guard (is_blank serial) empty_ip_serial (
      guard (not (net.is_terminal_ip (trim_space u address))) bad_terminal_ip
        (validate_ips net rest))

  unfoldable pub validate_cards : List (Text × Session) → List (Text × Text) → Option ConfigError
  validate_cards sessions [] = none
  validate_cards sessions ((card, name) ∷ rest) =
      guard (is_blank card) empty_card
        (guard (is_unknown sessions name) unknown_session (validate_cards sessions rest))

  unfoldable pub validate_route : List (Text × Session) → Route → Option ConfigError
  validate_route sessions r = guard (is_dangling sessions r.no_card) unknown_session (
      guard (is_dangling sessions r.card_present) unknown_session (validate_cards sessions r.cards))

  unfoldable pub validate_terminals :
      List (Text × Session) → List (Text × Route) → Option ConfigError
  validate_terminals sessions [] = none
  validate_terminals sessions ((serial, r) ∷ rest) =
      guard (is_blank serial) empty_terminal_serial
        (and_next (validate_route sessions r) (validate_terminals sessions rest))

  -- `none` is the nil error.
  unfoldable pub validate : Net → Config → Option ConfigError
  validate net c = guard (not (eq_ℤ c.version (pos 1))) bad_version (
      and_next (validate_server c.server) (
        and_next (validate_ips net c.server.terminal_ips) (
          guard (no_entry c.sessions) no_sessions (
            and_next (validate_sessions net c.sessions) (
              and_next (validate_route c.sessions c.routing.default) (
                and_next (validate_terminals c.sessions c.routing.terminals) (
                  guard
                    (is_empty c.routing.default.no_card || is_empty c.routing.default.card_present)
                    no_default_route none)))))))
