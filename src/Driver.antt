-- ===== src/Driver.antt =====
-- src/kernel/driver.c and driver.h: the table of drivers. A control function acts on the state `S`
-- of the devices; NULL is `none`. A name is the text in front of its terminator.
pub mod Lookup
mod Examples
use strange_os.Prelude.{
  ℕ, zero, suc, ◌+◌, ◌-◌, ◌≡◌, Bool, true, false, ◌||◌, Option, none, some, List, [], ◌∷◌, ltb, leb,
  ◌==◌, if◌then◌else◌, get_elem?, set,
}
use strange_os.Prelude.Int.{ℤ, pos, negsuc, minus_one}
use strange_os.Str.{kstreq}
use strange_os.Str.Copy.{c_string}

-- `driver_ctl_t`
abbrev pub Control : Type 0 → Type 0
Control S = ℕ → ℕ → S → ℕ × S

pub record DriverInfo (S : Type 0) : Type 0 where
  pub name : List ℕ
  pub ctl : Option (Control S)

abbrev pub driver_max : ℕ
driver_max = 32

-- `drivers` and `n_drivers`. The places from `n_drivers` on are never read.
pub record Drivers (S : Type 0) : Type 0 where
  pub drivers : List (DriverInfo S)
  pub n_drivers : ℕ

-- Whether the two texts are equal, as kstreq tells; a fault cannot arise from C strings.
abbrev pub says_equal : Option Bool → Bool
says_equal none = false
says_equal (some b) = b

module _ {S : Type 0} where
  unfoldable pub driver_register : List ℕ → Option (Control S) → Drivers S → Drivers S
  driver_register name ctl d = if leb driver_max d.n_drivers then d else record {
    drivers = set d.drivers d.n_drivers (record { name = name; ctl = ctl });
    n_drivers = d.n_drivers + 1;
  }

  -- The loop over `id`, with the rounds left, which runs along the table.
  pub get_id_loop : ℕ → ℕ → List (DriverInfo S) → List ℕ → ℤ
  get_id_loop zero id ds name = minus_one
  get_id_loop (suc rounds) id [] name = minus_one
  get_id_loop (suc rounds) id (d ∷ ds) name =
      let rest = get_id_loop rounds (id + 1) ds name in
      if says_equal (kstreq (c_string d.name []) (c_string name [])) then pos id else rest

  unfoldable pub driver_get_id : List ℕ → Drivers S → ℤ
  driver_get_id name d = get_id_loop d.n_drivers 0 d.drivers name

  pub call_entry : Option (DriverInfo S) → ℕ → ℕ → S → ℕ × S
  call_entry none cmd p s = (0, s)
  call_entry (some e) cmd p s = elim e.ctl [ none ↦ (0, s) | some ctl ↦ ctl cmd p s ]

  pub driver_control : ℤ → ℕ → ℕ → Drivers S → S → ℕ × S
  unfolding call_entry
  driver_control (negsuc k) cmd p d s = (0, s)
  driver_control (pos id) cmd p d s =
      if leb d.n_drivers id then (0, s) else call_entry (get_elem? d.drivers id) cmd p s

  -- `driver_init` registers the keyboard and the display.
  unfoldable pub driver_init : Control S → Control S → Drivers S → Drivers S
  unfolding driver_register
  driver_init kbctl vga_driverctl d =
      driver_register (b'V' ∷ b'I' ∷ b'D' ∷ b'E' ∷ b'O' ∷ []) (some vga_driverctl)
        (driver_register (b'K' ∷ b'B' ∷ b'D' ∷ []) (some kbctl) d)
