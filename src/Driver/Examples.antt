-- ===== src/Driver/Examples.antt =====
-- The table that driver_init fills, and the theorems about the table at it.
use strange_os.Prelude.{ℕ, ◌+◌, ◌≡◌, refl, none, some, List, [], ◌∷◌, arith, replicate}
use strange_os.Prelude.Int.{pos, minus_one}
use strange_os.Str.{kstreq, strlen, kstreq_loop}
use strange_os.Driver.{
  Control, Drivers, driver_init, driver_register, driver_get_id, driver_control, get_id_loop,
}
use strange_os.Driver.Lookup.{IsTable, driver_register_lem}

abbrev kbd : List ℕ
kbd = b'K' ∷ b'B' ∷ b'D' ∷ []

abbrev net : List ℕ
net = b'N' ∷ []

-- A device that counts the calls.
abbrev count : Control ℕ
count cmd p s = (cmd + p, s + 1)

abbrev empty : Drivers ℕ
empty = record { drivers = replicate 32 (record { name = []; ctl = none }); n_drivers = 0 }

abbrev ready : Drivers ℕ
ready = record {
  drivers =
      record { name = kbd; ctl = some count }
      ∷ record { name = b'V' ∷ b'I' ∷ b'D' ∷ b'E' ∷ b'O' ∷ []; ctl = some count }
      ∷ replicate 30 (record { name = []; ctl = none });
  n_drivers = 2;
}

init_fills : driver_init count count empty ≡ ready
unfolding driver_init
init_fills = refl

kbd_is_first : driver_get_id kbd ready ≡ pos 0
unfolding driver_get_id get_id_loop kstreq kstreq_loop strlen
kbd_is_first = refl

net_is_unknown : driver_get_id net ready ≡ minus_one
unfolding driver_get_id get_id_loop kstreq kstreq_loop strlen
net_is_unknown = refl

ready-IsTable : IsTable ready
ready-IsTable = omega arith

driver_register_lem_example :
    let d' = driver_register net (some count) ready in
    IsTable d' × (driver_get_id net d' ≡ pos 2) × (driver_control (pos 2) 16 3 d' 0 ≡ (19, 1))
driver_register_lem_example =
    driver_register_lem ready net count 16 3 0 ready-IsTable (omega arith) (omega arith)
      ((omega arith), refl, ((omega arith), refl, tt))

abbrev full : Drivers ℕ
full = record ready { n_drivers = 32 }
