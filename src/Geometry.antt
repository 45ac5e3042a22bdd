-- ===== src/Geometry.antt =====
-- internal/geometry/session.go: the interactive viewport calibration.
pub mod Bounds
use sun_ray2server.Prelude.{
  ℕ, ◌+◌, ◌-◌, min, max, bit_and, Bool, true, false, ◌&&◌, ◌||◌, not, List, [], ◌∷◌, ◌++◌, length,
  ltb, ◌==◌, if◌then◌else◌,
}
use sun_ray2server.Display.Input.{InputEvent, InputKind, input_key, input_pointer}

abbrev pub hid_r : ℕ
hid_r = 0x15

abbrev pub hid_enter : ℕ
hid_enter = 0x28

abbrev pub hid_right : ℕ
hid_right = 0x4F

abbrev pub hid_left : ℕ
hid_left = 0x50

abbrev pub hid_down : ℕ
hid_down = 0x51

abbrev pub hid_up : ℕ
hid_up = 0x52

-- 0x01 | 0x10 and 0x02 | 0x20
abbrev pub modifier_control : ℕ
modifier_control = 0x11

abbrev pub modifier_shift : ℕ
modifier_shift = 0x22

abbrev pub minimum_geometry : ℕ
minimum_geometry = 64

abbrev pub maximum_geometry : ℕ
maximum_geometry = 8192

-- What OnFrame is given.
pub record Frame : Type 0 where
  pub width : ℕ
  pub height : ℕ
  pub clear_width : ℕ
  pub clear_height : ℕ

abbrev pub is_key : InputKind → Bool
is_key input_key = true
is_key input_pointer = false

unfoldable pub geometry_key : ℕ → Bool
geometry_key hid =
    hid == hid_r
    || hid == hid_enter
    || hid == hid_right
    || hid == hid_left
    || hid == hid_down
    || hid == hid_up

-- The channel holds 32 events; one that finds it full is dropped.
unfoldable pub handle_input : List InputEvent → InputEvent → List InputEvent
unfolding geometry_key
handle_input input event =
    if not (is_key event.kind) || not event.pressed || not (geometry_key event.hid)
    then input
    else if ltb (length input) 32
    then input ++ (event ∷ [])
    else input

unfoldable pub step_of : ℕ → ℕ
step_of modifiers =
    if not (bit_and modifiers modifier_shift == 0)
    then 1
    else if not (bit_and modifiers modifier_control == 0)
    then 100
    else 10

abbrev pub clamp : ℕ → ℕ
clamp n = min (max n minimum_geometry) maximum_geometry

-- A difference that Go has negative is 0 here; the clamp takes both to the minimum.
unfoldable pub adjust_geometry : ℕ → ℕ → ℕ → ℕ → InputEvent → ℕ × ℕ
unfolding step_of
adjust_geometry width height initial_width initial_height event =
    let step = step_of event.modifiers in
    if event.hid == hid_left
    then (clamp (width - step), clamp height)
    else if event.hid == hid_right
    then (clamp (width + step), clamp height)
    else if event.hid == hid_up
    then (clamp width, clamp (height - step))
    else if event.hid == hid_down
    then (clamp width, clamp (height + step))
    else if event.hid == hid_r
    then (clamp initial_width, clamp initial_height)
    else (clamp width, clamp height)

-- The variables of the loop of `Run`, with the frames drawn so far.
pub record Calibration : Type 0 where
  pub initial_width : ℕ
  pub initial_height : ℕ
  pub current : Frame
  pub drawn : List Frame

pub data RunResult : Type 0 where
  invalid_geometry frame_failed stopped : RunResult

-- The new size, and the largest area drawn so far to be cleared.
abbrev pub moved : Calibration → ℕ → ℕ → Calibration
moved s width height = record s {
  current = record {
    width = width;
    height = height;
    clear_width = max s.current.clear_width width;
    clear_height = max s.current.clear_height height;
  };
}

abbrev pub started : ℕ → ℕ → Calibration
started width height = record {
  initial_width = width;
  initial_height = height;
  current = record { width = width; height = height; clear_width = width; clear_height = height };
  drawn = [];
}

-- `on_frame` is the callback's answer: whether the frame was drawn with no error.
module _ (on_frame : Frame → Bool) where
  unfoldable pub draw : Calibration → Bool × Calibration
  draw s = (on_frame s.current, record s { drawn = s.drawn ++ (s.current ∷ []) })

  -- One event taken from the channel; `false` is an error of the callback.
  unfoldable pub take_event : Calibration → InputEvent → Bool × Calibration
  take_event s event =
      let f = s.current in
      let next = adjust_geometry f.width f.height s.initial_width s.initial_height event in
      if event.hid == hid_enter || next.0 == f.width && next.1 == f.height
      then (true, s)
      else draw (moved s next.0 next.1)

  -- The loop, over the events that arrive before the context is done.
  unfoldable pub run_events : Calibration → List InputEvent → RunResult × Calibration
  run_events s [] = (stopped, s)
  run_events s (event ∷ rest) =
      let r = take_event s event in
      let more = run_events r.1 rest in if r.0 then more else (frame_failed, r.1)

  unfoldable pub run : ℕ → ℕ → List InputEvent → RunResult × Calibration
  run width height events =
      if ltb width minimum_geometry || ltb height minimum_geometry
      then (invalid_geometry, started width height)
      else let r = draw (started width height) in
        if r.0 then run_events r.1 events else (frame_failed, r.1)
