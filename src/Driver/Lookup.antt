-- ===== src/Driver/Lookup.antt =====
-- The name of a driver finds its number, and its number its control function.
use strange_os.Prelude.{
  ℕ, zero, suc, ◌+◌, ◌≤◌, ◌<◌, ◌≡◌, refl, ap, ◌∙◌, false, Option, some, List, [], ◌∷◌, arith, leb,
  length, set, length-set, get_elem?-set_self,
}
use mathlib.Core.Path.{subst, sym}
use strange_os.Prelude.Int.{pos, negsuc}
use strange_os.Str.Copy.{IsText}
use strange_os.Str.Compare.{same_text, kstreq_lem, same_text-eq}
use strange_os.Driver.{
  Control, DriverInfo, Drivers, driver_max, driver_register, get_id_loop, driver_get_id,
  driver_control,
}

module _ {S : Type 0} where
  -- The table has its size, and the names in use are texts.
  pub record IsTable (d : Drivers S) : Type 0 where
    pub size : length d.drivers ≡ driver_max
    pub used : d.n_drivers ≤ driver_max

  -- None of the first `n` entries has the name.
  abbrev pub Unused : ℕ → List (DriverInfo S) → List ℕ → Type 0
  Unused zero ds name = Unit {0}
  Unused (suc n) [] name = Unit {0}
  Unused (suc n) (d ∷ ds) name = IsText d.name × (same_text d.name name ≡ false) × Unused n ds name

  get_id_loop-set :
      (n id : ℕ) (ds : List (DriverInfo S)) (name : List ℕ) (e : DriverInfo S)
      → n < length ds
      → IsText name
      → Unused n ds name
      → e.name ≡ name
      → get_id_loop (suc n) id (set ds n e) name ≡ pos (id + n)
  unfolding get_id_loop
  get_id_loop-set n id [] name e h t u eq = absurd (omega arith)
  get_id_loop-set zero id (d ∷ ds) name e h t u eq =
      let text : IsText e.name = subst IsText (sym eq) t in
      ground (arith, kstreq_lem e.name name [] [] text t, (same_text-eq e.name name).1 eq)
  get_id_loop-set (suc n) id (d ∷ ds) name e h t u eq =
      ground (arith, kstreq_lem d.name name [] [] u.0 t, get_id_loop-set n (id + 1) ds name e)

  -- A driver registered in a well-formed table with room, under a text that is no name of the
  -- table, gets the next number: its name finds that number, a call by the number runs its control
  -- function, and the table stays well formed.
  pub driver_register_lem :
      (d : Drivers S) (name : List ℕ) (ctl : Control S) (cmd p : ℕ) (s : S)
      → IsTable d
      → d.n_drivers < driver_max
      → IsText name
      → Unused d.n_drivers d.drivers name
      → let d' = driver_register name (some ctl) d in
        IsTable d'
        × (driver_get_id name d' ≡ pos d.n_drivers)
        × (driver_control (pos d.n_drivers) cmd p d' s ≡ ctl cmd p s)
  unfolding driver_register driver_get_id driver_control
  driver_register_lem d name ctl cmd p s h room t u =
      let e : DriverInfo S = record { name = name; ctl = some ctl } in
      let open_ : leb driver_max d.n_drivers ≡ false = ground arith in
      let fits : d.n_drivers < length d.drivers = omega arith in
      let one_more : d.n_drivers + 1 ≡ suc d.n_drivers = omega arith in
      let found : get_id_loop (suc d.n_drivers) 0 (set d.drivers d.n_drivers e) name
          ≡ pos (0 + d.n_drivers) =
        get_id_loop-set d.n_drivers 0 d.drivers name e fits t u refl in
      (
        rw open_ (ground (arith, length-set d.drivers d.n_drivers e)),
        rw (open_, one_more) (found ∙ ap pos (omega arith)),
        rw open_ (ground (arith, get_elem?-set_self d.drivers d.n_drivers e fits)),
      )

  -- A full table of drivers stays as it is; a call by a number past a full table, or by a negative
  -- one, does nothing and returns 0.
  pub driver_unknown :
      (d : Drivers S) (name : List ℕ) (ctl : Option (Control S)) (id cmd p : ℕ) (s : S)
      → d.n_drivers ≡ driver_max
      → driver_max ≤ id
      → (driver_register name ctl d ≡ d)
        × (driver_control (pos id) cmd p d s ≡ (0, s))
        × (driver_control (negsuc id) cmd p d s ≡ (0, s))
  unfolding driver_register driver_control
  driver_unknown d name ctl id cmd p s full out = (ground arith, ground arith, refl)
