-- ===== src/Server/Geometry.antt =====
-- The sizes that reach the remote sessions are sizes of a screen.
use sun_ray2server.Prelude.{
  ◌≡◌, ◌⊎◌, inl, inr, refl, sym, Bool, true, false, ◌||◌, Option, none, some, Bool-cases, arith,
}
use sun_ray2server.Prelude.Int.{ℤ, pos, Within}
use sun_ray2server.Text.{Text, Unicode, same, cut, is_empty}
use mathlib.Core.Path.{subst}
use sun_ray2server.Text.Laws.{same_iff}
use sun_ray2server.Config.{
  Session, ServerConfig, vnc, rdp, web, ssh, card_test, geometry_test, is_graphical,
  resolution_server, resolution_manual,
}
use sun_ray2server.Config.Validation.{is_fixed, vnc_mode, Net, validate_server, validate_session}
use sun_ray2server.Config.Ready.{validate_session_lem, HasSize}
use sun_ray2server.Server.Resolution.{
  Geometry, atoi, before, checked_size, parsed_size, parse_resolution, display_size, new,
  vnc_display_geometry, rdp_display_geometry, web_display_geometry,
}

abbrev pub IsScreen : ℤ → ℤ → Type 0
IsScreen w h = Within 1 w 8192 × Within 1 h 8192

checked_size-IsScreen :
    (w h : Option ℤ) (fw fh : ℤ)
    → IsScreen fw fh
    → let r = checked_size w h (fw, fh) in IsScreen r.0 r.1
checked_size-IsScreen none h fw fh f = f
checked_size-IsScreen (some w) none fw fh f = f
checked_size-IsScreen (some w) (some h) fw fh f = ground (arith, f)

parsed_size-IsScreen :
    (o : Option (Text × Text)) (fw fh : ℤ)
    → IsScreen fw fh
    → let r = parsed_size o (fw, fh) in IsScreen r.0 r.1
parsed_size-IsScreen none fw fh f = f
parsed_size-IsScreen (some (w, h)) fw fh f = checked_size-IsScreen (atoi w) (atoi h) fw fh f

-- Both the size and the reported size fit a screen.
abbrev pub IsSized : Geometry → Type 0
IsSized a = IsScreen a.width a.height × IsScreen a.reported_width a.reported_height

pub display_size-IsSized :
    (c : ServerConfig) (start_res : Text)
    → validate_server c ≡ none
    → IsSized (display_size (new c) start_res)
unfolding display_size new validate_server parse_resolution
display_size-IsSized c start_res h =
    let fw = (new c).fallback_width in
    let fh = (new c).fallback_height in
    ground
      (arith, h, parsed_size-IsScreen (cut 0x78 (before 0x3A start_res)) fw fh (ground (arith, h)))

-- The manual mode is not one of those with a size of their own.
manual_only :
    (mode : Text)
    → same mode resolution_manual ≡ true
    → ((is_fixed mode || same mode resolution_server) ≡ false)
      × (is_fixed mode ≡ false)
      × (is_empty mode ≡ false)
unfolding same
manual_only mode h =
    subst
      (λ m.
        ((is_fixed m || same m resolution_server) ≡ false)
        × (is_fixed m ≡ false)
        × (is_empty m ≡ false))
      (sym ((same_iff mode resolution_manual).0 h)) (refl, refl, refl)

module _ (a : Geometry) (s : Session) (sized : IsSized a) where
  abbrev AnswersScreen : Text × ℤ × ℤ → Type 0
  AnswersScreen r = IsScreen r.1 r.2

  vnc-IsScreen :
      HasSize (is_fixed (vnc_mode s) || same (vnc_mode s) resolution_server) (vnc_mode s) s
      → let r = vnc_display_geometry a s in
        ((same s.resolution_mode resolution_server ≡ true) × (r.1 ≡ pos 0) × (r.2 ≡ pos 0))
        ⊎ AnswersScreen r
  unfolding vnc_display_geometry
  vnc-IsScreen h = elim (Bool-cases (same s.resolution_mode resolution_manual)) [
    | inl m ↦ ground (arith, h, m, manual_only s.resolution_mode m, sized)
    | inr n ↦ ground (arith, n, sized)
  ]

  rdp-IsScreen :
      HasSize (is_fixed s.resolution_mode) s.resolution_mode s
      → AnswersScreen (rdp_display_geometry a s)
  unfolding rdp_display_geometry
  rdp-IsScreen h = elim (Bool-cases (same s.resolution_mode resolution_manual)) [
    | inl m ↦ ground (arith, h, m, manual_only s.resolution_mode m, sized)
    | inr n ↦ ground (arith, n, sized)
  ]

  web-IsScreen :
      HasSize (is_fixed s.resolution_mode) s.resolution_mode s
      → AnswersScreen (web_display_geometry a s)
  unfolding web_display_geometry rdp_display_geometry
  web-IsScreen h = rdp-IsScreen h

abbrev shows_picture : Text → Bool
shows_picture t = same t vnc || same t rdp || same t web

local_types :
    (shows_picture card_test ≡ false)
    × (shows_picture geometry_test ≡ false)
    × (shows_picture ssh ≡ false)
unfolding same
local_types = (refl, refl, refl)

local : (t k : Text) → t ≡ k → shows_picture k ≡ false → shows_picture t ≡ false
local t k e h = subst (λ x. shows_picture x ≡ false) (sym e) h

-- In a validated configuration, whatever resolution the terminal reports, a VNC session keeps the
-- server's size in the mode that asks for it and otherwise gets a size of 1 to 8192 in both
-- directions, and so does every RDP and every browser session; other sessions have no remote picture.
pub display_size-validate :
    (u : Unicode) (net : Net) (c : ServerConfig) (name : Text) (s : Session) (start_res : Text)
    → validate_server c ≡ none
    → validate_session u net name s ≡ none
    → let a = display_size (new c) start_res in
      ((s.type ≡ vnc)
        × (((same s.resolution_mode resolution_server ≡ true)
              × ((vnc_display_geometry a s).1 ≡ pos 0)
              × ((vnc_display_geometry a s).2 ≡ pos 0))
            ⊎ IsScreen (vnc_display_geometry a s).1 (vnc_display_geometry a s).2))
      ⊎ ((s.type ≡ rdp) × IsScreen (rdp_display_geometry a s).1 (rdp_display_geometry a s).2)
      ⊎ ((s.type ≡ web) × IsScreen (web_display_geometry a s).1 (web_display_geometry a s).2)
      ⊎ (is_graphical s ≡ false)
display_size-validate u net c name s start_res hc hs =
    let sized = display_size-IsSized c start_res hc in
    let a = display_size (new c) start_res in
    elim ((validate_session_lem u net name s).0 hs).2 [
      | inl (inl e) ↦ inr (inr (inr (local s.type card_test e local_types.0)))
      | inl (inr e) ↦ inr (inr (inr (local s.type geometry_test e local_types.1)))
      | inr (inl (e, h)) ↦ inl (e, vnc-IsScreen a s sized h.2)
      | inr (inr (inl (e, h))) ↦ inr (inr (inl (e, web-IsScreen a s sized h.1)))
      | inr (inr (inr (inl (e, host, h)))) ↦ inr (inr (inr (local s.type ssh e local_types.2)))
      | inr (inr (inr (inr (e, host, h)))) ↦ inr (inl (e, rdp-IsScreen a s sized h.2))
    ]
