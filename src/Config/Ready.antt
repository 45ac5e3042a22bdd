-- ===== src/Config/Ready.antt =====
-- What a validated session can rely on.
use sun_ray2server.Prelude.{
  ◌≡◌, ◌*◌, ◌^◌, ◌&&◌, not, ◌⊎◌, ◌↔◌, inl, inr, refl, sym, Bool-cases, Bool, true, false, ◌||◌,
  none, arith,
}
use sun_ray2server.Prelude.Int.{pos, negsuc, ◌≤ℤ◌, Within}
use sun_ray2server.Prelude.Float.{
  Float64, not_a_number, plus_infinity, minus_infinity, fraction, equals_zero, is_below, is_above,
}
use sun_ray2server.Text.{Text, Unicode, codes, same, is_empty, has_prefix, trim_space}
use mathlib.Core.Path.{subst}
use sun_ray2server.Text.Laws.{same_iff}
use sun_ray2server.Config.{
  Session, vnc, ssh, rdp, web, card_test, geometry_test, is_type, is_graphical, resolution_manual,
  resolution_server,
}
use sun_ray2server.Config.Validation.{
  Net, is_blank, is_fixed, vnc_mode, both_passwords, host_key_count, validate_mode, validate_vnc,
  validate_web, validate_host, validate_ssh, validate_rdp, validate_type, validate_session,
  valid_certificate_policy,
}

-- Either the mode has a size of its own and none is set, or it is the manual one with a size of 1 to
-- 8192 in both directions.
abbrev pub HasSize : Bool → Text → Session → Type 0
HasSize fixed mode s =
    ((fixed ≡ true) × (s.display_width ≡ pos 0) × (s.display_height ≡ pos 0))
    ⊎ ((fixed ≡ false)
        × (same mode resolution_manual ≡ true)
        × Within 1 s.display_width 8192
        × Within 1 s.display_height 8192)

pub validate_mode_lem :
    (fixed : Bool) (mode : Text) (s : Session)
    → (validate_mode fixed mode s ≡ none) ↔ HasSize fixed mode s
unfolding validate_mode
validate_mode_lem fixed mode s = ground arith

abbrev pub HasAddress : Net → Session → Type 0
HasAddress net s =
    (net.splits_host_port s.address ≡ true)
    × (both_passwords s ≡ false)
    × HasSize (is_fixed (vnc_mode s) || same (vnc_mode s) resolution_server) (vnc_mode s) s

validate_vnc_lem : (net : Net) (s : Session) → (validate_vnc net s ≡ none) ↔ HasAddress net s
unfolding validate_vnc
validate_vnc_lem net s = ground (
  arith,
  validate_mode_lem (is_fixed (vnc_mode s) || same (vnc_mode s) resolution_server) (vnc_mode s) s,
)

module _ (u : Unicode) where
  abbrev pub HasPage : Net → Session → Type 0
  HasPage net s =
      (net.is_web_url (trim_space u s.url) ≡ true)
      × HasSize (is_fixed s.resolution_mode) s.resolution_mode s
      × ((s.reload_interval ≡ pos 0) ⊎ (pos 1000000000 ≤ℤ s.reload_interval))

  validate_web_lem : (net : Net) (s : Session) → (validate_web u net s ≡ none) ↔ HasPage net s
  unfolding validate_web
  validate_web_lem net s =
      ground (arith, validate_mode_lem (is_fixed s.resolution_mode) s.resolution_mode s)

  abbrev pub HasHost : Session → Type 0
  HasHost s = (is_blank u s.hostname ≡ false) × Within 1 s.port 65535 × (both_passwords s ≡ false)

  validate_host_lem : (s : Session) → (validate_host u s ≡ none) ↔ HasHost s
  unfolding validate_host
  validate_host_lem s = ground arith

  -- A font size that is left out, lies between 8 and 72, or is not a number.
  abbrev pub IsFontSize : Float64 → Type 0
  IsFontSize not_a_number = Unit {0}
  IsFontSize plus_infinity = true ≡ false
  IsFontSize minus_infinity = true ≡ false
  IsFontSize (fraction m k) = (m ≡ pos 0) ⊎ ((pos (8 * 2 ^ k) ≤ℤ m) × (m ≤ℤ pos (72 * 2 ^ k)))

  font_size_lem :
      (f : Float64)
      → ((not (equals_zero f) && (is_below f 8 || is_above f 72)) ≡ false) ↔ IsFontSize f
  font_size_lem not_a_number = ground arith
  font_size_lem plus_infinity = ground arith
  font_size_lem minus_infinity = ground arith
  font_size_lem (fraction (pos m) k) = ground arith
  font_size_lem (fraction (negsuc m) k) = ground arith

  -- A user, exactly one way to trust the host's key, a well-formed fingerprint, a password or a key,
  -- and a font size.
  abbrev pub HasLogin : Session → Type 0
  HasLogin s =
      (is_blank u s.username ≡ false)
      × (host_key_count s ≡ 1)
      × ((is_empty s.host_key_sha256 ≡ true)
          ⊎ (has_prefix s.host_key_sha256 (codes "SHA256:") ≡ true))
      × ((is_empty s.password ≡ false)
          ⊎ (is_empty s.password_file ≡ false)
          ⊎ (is_empty s.private_key_file ≡ false))
      × IsFontSize s.font_size

  validate_ssh_lem : (s : Session) → (validate_ssh u s ≡ none) ↔ HasLogin s
  unfolding validate_ssh
  validate_ssh_lem s = ground (arith, font_size_lem s.font_size)

  abbrev pub HasDesktop : Session → Type 0
  HasDesktop s =
      (is_blank u s.username ≡ false)
      × ((is_empty s.password ≡ false) ⊎ (is_empty s.password_file ≡ false))
      × HasSize (is_fixed s.resolution_mode) s.resolution_mode s
      × (valid_certificate_policy u s.certificate ≡ true)

  validate_rdp_lem : (s : Session) → (validate_rdp u s ≡ none) ↔ HasDesktop s
  unfolding validate_rdp
  validate_rdp_lem s =
      ground (arith, validate_mode_lem (is_fixed s.resolution_mode) s.resolution_mode s)

  -- What each type of session needs.
  abbrev pub IsReady : Net → Session → Type 0
  IsReady net s =
      ((s.type ≡ card_test) ⊎ (s.type ≡ geometry_test))
      ⊎ ((s.type ≡ vnc) × HasAddress net s)
      ⊎ ((s.type ≡ web) × HasPage net s)
      ⊎ ((s.type ≡ ssh) × HasHost s × HasLogin s)
      ⊎ ((s.type ≡ rdp) × HasHost s × HasDesktop s)

  -- The tests of the switch, at the type `k`.
  abbrev SwitchesAs : Text → Text → Type 0
  SwitchesAs k t =
      ((same t card_test || same t geometry_test) ≡ (same k card_test || same k geometry_test))
      × (same t vnc ≡ same k vnc)
      × (same t web ≡ same k web)
      × (same t ssh ≡ same k ssh)
      × (same t rdp ≡ same k rdp)

  switches : (t k : Text) → t ≡ k → SwitchesAs k t
  switches t k e = subst (SwitchesAs k) (sym e) (refl, refl, refl, refl, refl)

  module _ (net : Net) (s : Session) where
    accepted-IsReady : validate_type u net s ≡ none → IsReady net s
    unfolding validate_type
    accepted-IsReady h = elim (Bool-cases (is_type s card_test || is_type s geometry_test)) [
      | inl local ↦ inl (ground (arith, same_iff s.type card_test, same_iff s.type geometry_test))
      | inr a ↦ elim (Bool-cases (is_type s vnc)) [
        | inl e ↦ inr (inl ((same_iff s.type vnc).0 e, (validate_vnc_lem net s).0 (ground arith)))
        | inr b ↦ elim (Bool-cases (is_type s web)) [
          | inl e ↦
              inr (inr (inl ((same_iff s.type web).0 e, (validate_web_lem net s).0 (ground arith))))
          | inr c ↦ elim (Bool-cases (is_type s ssh)) [
            | inl e ↦ inr (
                inr (
                  inr (
                    inl (
                      (same_iff s.type ssh).0 e,
                      (validate_host_lem s).0 (ground arith),
                      (validate_ssh_lem s).0 (ground arith),
                    ))))
            | inr d ↦ elim (Bool-cases (is_type s rdp)) [
              | inl e ↦ inr (
                  inr (
                    inr (
                      inr (
                        (same_iff s.type rdp).0 e,
                        (validate_host_lem s).0 (ground arith),
                        (validate_rdp_lem s).0 (ground arith),
                      ))))
              | inr e ↦ absurd (ground arith)
            ]
          ]
        ]
      ]
    ]

    ready_accepted : IsReady net s → validate_type u net s ≡ none
    unfolding validate_type same
    ready_accepted (inl (inl e)) = ground (arith, switches s.type card_test e)
    ready_accepted (inl (inr e)) = ground (arith, switches s.type geometry_test e)
    ready_accepted (inr (inl (e, h))) =
        ground (arith, switches s.type vnc e, (validate_vnc_lem net s).1 h)
    ready_accepted (inr (inr (inl (e, h)))) =
        ground (arith, switches s.type web e, (validate_web_lem net s).1 h)
    ready_accepted (inr (inr (inr (inl (e, h, l))))) =
        ground (arith, switches s.type ssh e, (validate_host_lem s).1 h, (validate_ssh_lem s).1 l)
    ready_accepted (inr (inr (inr (inr (e, h, d))))) =
        ground (arith, switches s.type rdp e, (validate_host_lem s).1 h, (validate_rdp_lem s).1 d)

  -- Validate accepts a session exactly if its name is not blank, a session with a remote picture leaves
  -- the frame rate out or sets 1 to 60, and it has what its type needs. The two local tests need
  -- nothing. VNC needs an address that splits into host and port, not both a password and a password
  -- file, and a size. Web needs a URL that is a web page, a size, and a reload interval of zero or a
  -- second or more. SSH and RDP need a host, a port from 1 to 65535, a user, and not both a password and
  -- a password file. SSH also needs exactly one way to trust the host's key, a fingerprint that is left
  -- out or starts with "SHA256:", a password, a password file or a private key, and a font size that is
  -- zero, 8 to 72, or not a number. RDP also needs a password or a password file, a size, and a known
  -- certificate policy. To need a size means: in a mode with a size of its own (for VNC also the
  -- server's) none is set, and otherwise the mode is the manual one and both directions are 1 to 8192.
  -- Any other type is refused.
  pub validate_session_lem :
      (net : Net) (name : Text) (s : Session)
      → (validate_session u net name s ≡ none)
        ↔ (is_blank u name ≡ false)
          × ((is_graphical s ≡ false) ⊎ (s.max_fps ≡ pos 0) ⊎ Within 1 s.max_fps 60)
          × IsReady net s
  unfolding validate_session
  validate_session_lem net name s = (
    λ h. (ground (arith, h), ground (arith, h), accepted-IsReady net s (ground (arith, h))),
    λ h. ground (arith, h.0, h.1, ready_accepted net s h.2),
  )
