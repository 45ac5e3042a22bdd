-- ===== src/Examples/Calibration.antt =====
-- The calibration session (internal/geometry/session.go) at concrete inputs.
use sun_ray2server.Prelude.{◌≡◌, refl, true, List, [], ◌∷◌, arith}
use sun_ray2server.Display.Input.{InputEvent, key_input}
use sun_ray2server.Geometry.{
  run_events, take_event, draw, adjust_geometry, run, hid_left, hid_right,
}
use sun_ray2server.Geometry.Bounds.{IsCalibrated, run-IsCalibrated}

abbrev keys : List InputEvent
keys = key_input hid_left true 0 ∷ key_input hid_right true 0x22 ∷ []

-- Left with no modifier takes 10, right with shift adds 1.
two_keys : (run (λ f. true) 640 480 keys).1.current.width ≡ 631
unfolding run run_events take_event draw adjust_geometry key_input
two_keys = refl

run-IsCalibrated_example : IsCalibrated (run (λ f. true) 640 480 keys).1
run-IsCalibrated_example = run-IsCalibrated (λ f. true) 640 480 keys (omega arith) (omega arith)
