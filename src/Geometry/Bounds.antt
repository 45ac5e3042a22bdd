-- ===== src/Geometry/Bounds.antt =====
-- The geometry stays in its bounds, and every frame clears what the earlier ones drew.
use sun_ray2server.Prelude.{
  ℕ, ◌≤◌, ◌≡◌, ◌⊎◌, max, Bool, true, false, ◌&&◌, ◌||◌, List, [], ◌∷◌, ◌++◌, All, All-append,
  length, length-append, ltb, ◌==◌, arith, Bool-cases, inl, inr,
}
use sun_ray2server.Display.Input.{InputEvent}
use sun_ray2server.Geometry.{
  Frame, Calibration, adjust_geometry, draw, take_event, run_events, run, handle_input,
  geometry_key, is_key, moved, started, hid_enter, hid_left, hid_right,
}

-- Whatever the event, the new size lies between 64 and 8192.
pub adjust_geometry_bounds :
    (w h iw ih : ℕ) (e : InputEvent)
    → let r = adjust_geometry w h iw ih e in (64 ≤ r.0) × (r.0 ≤ 8192) × (64 ≤ r.1) × (r.1 ≤ 8192)
unfolding adjust_geometry
adjust_geometry_bounds w h iw ih e = ground arith

-- Right after left gives the width back where neither end is reached, with the same modifiers.
pub adjust_geometry-left-right :
    (w h iw ih : ℕ) (l r : InputEvent)
    → l.hid ≡ hid_left
    → r.hid ≡ hid_right
    → l.modifiers ≡ r.modifiers
    → 164 ≤ w
    → w ≤ 8192
    → 64 ≤ h
    → h ≤ 8192
    → let s = adjust_geometry w h iw ih l in adjust_geometry s.0 s.1 iw ih r ≡ (w, h)
unfolding adjust_geometry
adjust_geometry-left-right w h iw ih l r pl pr m lo hi lh hh = ground arith

-- A frame is at least 64 by 64 and lies inside the area that it clears.
pub record IsCovered (f : Frame) : Type 0 where
  pub wide : 64 ≤ f.width
  pub high : 64 ≤ f.height
  pub width_cleared : f.width ≤ f.clear_width
  pub height_cleared : f.height ≤ f.clear_height

-- The current frame is covered, and clears every frame drawn so far.
pub record IsCalibrated (s : Calibration) : Type 0 where
  pub covered : IsCovered s.current
  pub clears :
      All (λ f. (f.width ≤ s.current.clear_width) × (f.height ≤ s.current.clear_height)) s.drawn
  pub all_covered : All IsCovered s.drawn

widen :
    (w h w' h' : ℕ) (fs : List Frame)
    → w ≤ w'
    → h ≤ h'
    → All (λ f. (f.width ≤ w) × (f.height ≤ h)) fs
    → All (λ f. (f.width ≤ w') × (f.height ≤ h')) fs
widen w h w' h' [] p q a = tt
widen w h w' h' (f ∷ fs) p q (a, b) = ((omega arith, omega arith), widen w h w' h' fs p q b)

draw-IsCalibrated :
    (on_frame : Frame → Bool) (s : Calibration) → IsCalibrated s → IsCalibrated (draw on_frame s).1
unfolding draw
draw-IsCalibrated on_frame s v = record {
  covered = v.covered;
  clears =
      All-append _ s.drawn (s.current ∷ []) v.clears
        ((v.covered.width_cleared, v.covered.height_cleared), tt);
  all_covered = All-append IsCovered s.drawn (s.current ∷ []) v.all_covered (v.covered, tt);
}

moved-IsCalibrated :
    (s : Calibration) (w h : ℕ) → 64 ≤ w → 64 ≤ h → IsCalibrated s → IsCalibrated (moved s w h)
moved-IsCalibrated s w h p q v = record {
  covered = record {
    wide = p;
    high = q;
    width_cleared = omega arith;
    height_cleared = omega arith;
  };
  clears =
      widen s.current.clear_width s.current.clear_height (max s.current.clear_width w)
        (max s.current.clear_height h) s.drawn (omega arith) (omega arith) v.clears;
  all_covered = v.all_covered;
}

take_event-IsCalibrated :
    (on_frame : Frame → Bool) (s : Calibration) (e : InputEvent)
    → IsCalibrated s
    → IsCalibrated (take_event on_frame s e).1
unfolding take_event
take_event-IsCalibrated on_frame s e v =
    let f = s.current in
    let next = adjust_geometry f.width f.height s.initial_width s.initial_height e in
    let (p, _, q, _) = adjust_geometry_bounds f.width f.height s.initial_width s.initial_height e in
    elim (Bool-cases (e.hid == hid_enter || next.0 == f.width && next.1 == f.height)) [
      | inl same ↦ rw same v
      | inr new ↦ rw new (
          draw-IsCalibrated on_frame (moved s next.0 next.1)
            (moved-IsCalibrated s next.0 next.1 p q v))
    ]

run_events-IsCalibrated :
    (on_frame : Frame → Bool) (s : Calibration) (events : List InputEvent)
    → IsCalibrated s
    → IsCalibrated (run_events on_frame s events).1
unfolding run_events
run_events-IsCalibrated on_frame s [] v = v
run_events-IsCalibrated on_frame s (e ∷ events) v =
    let v1 = take_event-IsCalibrated on_frame s e v in
    let v2 = run_events-IsCalibrated on_frame (take_event on_frame s e).1 events v1 in
    elim (Bool-cases (take_event on_frame s e).0) [ inl ok ↦ rw ok v2 | inr failed ↦ rw failed v1 ]

-- Whatever the events and the callback's answers, a session that starts with 64 by 64 or more draws
-- only frames of at least 64 by 64 inside the area that they clear, and its latest frame clears the
-- area of every frame that it drew.
pub run-IsCalibrated :
    (on_frame : Frame → Bool) (w h : ℕ) (events : List InputEvent)
    → 64 ≤ w
    → 64 ≤ h
    → IsCalibrated (run on_frame w h events).1
unfolding run
run-IsCalibrated on_frame w h events p q =
    let v : IsCalibrated (started w h) = record {
      covered = record {
        wide = p;
        high = q;
        width_cleared = omega arith;
        height_cleared = omega arith;
      };
      clears = tt;
      all_covered = tt;
    } in
    let v1 = draw-IsCalibrated on_frame (started w h) v in
    let v2 = run_events-IsCalibrated on_frame (draw on_frame (started w h)).1 events v1 in
    let valid : (ltb w 64 || ltb h 64) ≡ false = ground arith in
    elim (Bool-cases (draw on_frame (started w h)).0) [
      | inl ok ↦ rw (valid, ok) v2
      | inr failed ↦ rw (valid, failed) v1
    ]

-- The input channel never holds more than 32 events, and only pressed calibration keys get in.
pub handle_input_bounded :
    (input : List InputEvent) (e : InputEvent)
    → length input ≤ 32
    → (length (handle_input input e) ≤ 32)
      × ((handle_input input e ≡ input)
          ⊎ ((handle_input input e ≡ input ++ (e ∷ []))
              × (is_key e.kind ≡ true)
              × (e.pressed ≡ true)
              × (geometry_key e.hid ≡ true)))
unfolding handle_input
handle_input_bounded input e h = ground (arith, length-append input (e ∷ []))
