-- ===== src/Examples/Remote.antt =====
-- The VNC client (internal/vnc) at concrete inputs.
use sun_ray2server.Prelude.{ℕ, ◌≡◌, ◌≤◌, ◌<◌, ◌⊎◌, ◌+◌, ◌-◌, refl, some, arith}
use sun_ray2server.Vnc.Keysym.{keysym_for_hid}
use sun_ray2server.Vnc.Keysym.Inverse.{keysym_for_hid_injective}
use sun_ray2server.Vnc.Scale.{Rectangle, dx, dy, fit_size, fit_rectangle, fit_rectangle_lem}

letter_a : keysym_for_hid 4 ≡ some 0x61
unfolding keysym_for_hid
letter_a = refl

keysym_for_hid_injective_example : ◌≡◌ {A = ℕ} 4 4
keysym_for_hid_injective_example =
    keysym_for_hid_injective 4 4 0x61 (omega arith) (omega arith) letter_a letter_a

abbrev picture : Rectangle
picture = record { min_x = 0; min_y = 0; max_x = 1920; max_y = 1080 }

abbrev screen : Rectangle
screen = record { min_x = 0; min_y = 0; max_x = 1280; max_y = 1024 }

-- A wide picture gets bars above and below.
fitted : fit_rectangle picture screen ≡ record { min_x = 0; min_y = 152; max_x = 1280; max_y = 872 }
unfolding fit_rectangle fit_size
fitted = refl

fit_rectangle_lem_example :
    let r = fit_rectangle picture screen in
    (r.min_x < r.max_x)
    × (r.min_y < r.max_y)
    × (0 ≤ r.min_x)
    × (r.max_x ≤ 1280)
    × (0 ≤ r.min_y)
    × (r.max_y ≤ 1024)
    × ((dx r ≡ dx screen) ⊎ (dy r ≡ dy screen))
    × (r.min_x - 0 ≤ 1280 - r.max_x)
    × (1280 - r.max_x ≤ r.min_x - 0 + 1)
    × (r.min_y - 0 ≤ 1024 - r.max_y)
    × (1024 - r.max_y ≤ r.min_y - 0 + 1)
fit_rectangle_lem_example =
    fit_rectangle_lem picture screen (omega arith) (omega arith) (omega arith) (omega arith)
