-- ===== src/Page/Entry.antt =====
-- The entries as numbers, and the loops that write them.
use strange_os.Prelude.{
  ℕ, zero, suc, ◌+◌, ◌*◌, ◌/◌, ◌%◌, ◌^◌, ◌≤◌, ◌<◌, ◌≡◌, refl, ◌⊎◌, inl, inr, arith, bit_and, ◌==◌,
  Bool-cases, ap, ◌∙◌,
}
use strange_os.Prelude.Bits.{bit_and-high, bit_or-low, bit_or-low_bits}
use strange_os.Page.{
  Entries, set_entry, page_ent, kernel_flags, user_flags, fill, set_pt_entry, map_loop,
}

pub page_ent_lem : (a : ℕ) → a < 2 ^ 32 → page_ent a ≡ a / 4096 * 4096
unfolding page_ent
page_ent_lem a h =
    ap (λ (t : ℕ). bit_and t 0xffff_f000) {x = a} {y = a / 2 ^ 12 * 2 ^ 12 + a % 2 ^ 12}
      (omega arith)
    ∙ bit_and-high 12 20 (a / 2 ^ 12) (a % 2 ^ 12) (omega arith) (omega arith)

flags_lem :
    (q : ℕ) → (kernel_flags (q * 4096) ≡ q * 4096 + 3) × (user_flags (q * 4096) ≡ q * 4096 + 7)
flags_lem q = (
  ground (
    arith,
    bit_or-low 12 q 1 (omega arith),
    bit_or-low_bits 12 q 1 2 (omega arith) (omega arith),
  ),
  ground (
    arith,
    bit_or-low 12 q 1 (omega arith),
    bit_or-low_bits 12 q 1 2 (omega arith) (omega arith),
    bit_or-low_bits 12 q 3 4 (omega arith) (omega arith),
  ),
)

pub kernel_entry : (a : ℕ) → a < 2 ^ 32 → kernel_flags (page_ent a) ≡ a / 4096 * 4096 + 3
kernel_entry a h = ground (arith, page_ent_lem a h, (flags_lem (a / 4096)).0)

pub user_entry : (a : ℕ) → a < 2 ^ 32 → user_flags (page_ent a) ≡ a / 4096 * 4096 + 7
user_entry a h = ground (arith, page_ent_lem a h, (flags_lem (a / 4096)).1)

pub fill_out :
    (rounds i : ℕ) (f : ℕ → ℕ) (t : Entries) (x : ℕ)
    → (x < i) ⊎ (i + rounds ≤ x)
    → fill rounds i f t x ≡ t x
unfolding fill
fill_out zero i f t x out = refl
fill_out (suc rounds) i f t x out =
    ground (arith, fill_out rounds (i + 1) f (set_entry t i (f i)) x)

-- The loop writes its range and nothing else.
pub fill_in :
    (rounds i : ℕ) (f : ℕ → ℕ) (t : Entries) (x : ℕ)
    → i ≤ x
    → x < i + rounds
    → fill rounds i f t x ≡ f x
unfolding fill
fill_in zero i f t x lo hi = absurd (omega arith)
fill_in (suc rounds) i f t x lo hi = elim (Bool-cases (x == i)) [
  | inl e ↦ ground (arith, fill_out rounds (i + 1) f (set_entry t i (f i)) x)
  | inr e ↦ fill_in rounds (i + 1) f (set_entry t i (f i)) x (ground arith) (omega arith)
]

-- The loop of paging_map: page `ent + i + k` gets the frame of `p + (i + k) * 4096`.
pub map_loop_out :
    (rounds i ent p : ℕ) (t : Entries) (x : ℕ)
    → ent + i + rounds < 2 ^ 32
    → (x < ent + i) ⊎ (ent + i + rounds ≤ x)
    → map_loop rounds i ent p t x ≡ t x
unfolding map_loop set_pt_entry
map_loop_out zero i ent p t x small out = refl
map_loop_out (suc rounds) i ent p t x small out = ground (
  arith,
  map_loop_out rounds (i + 1) ent p
      (set_pt_entry t ((ent + i) % 2 ^ 32) ((p + i * 0x1000) % 2 ^ 32)) x,
)

pub map_loop_in :
    (rounds i ent p : ℕ) (t : Entries) (k : ℕ)
    → ent + i + rounds < 2 ^ 32
    → p + (i + rounds) * 4096 ≤ 2 ^ 32
    → k < rounds
    → map_loop rounds i ent p t (ent + i + k) ≡ user_flags (page_ent (p + (i + k) * 4096))
unfolding map_loop set_pt_entry
map_loop_in zero i ent p t k small fits h = elim h [ ]
map_loop_in (suc rounds) i ent p t zero small fits h = ground (
  arith,
  map_loop_out rounds (i + 1) ent p
      (set_pt_entry t ((ent + i) % 2 ^ 32) ((p + i * 0x1000) % 2 ^ 32)) (ent + i + zero),
)
map_loop_in (suc rounds) i ent p t (suc k) small fits h = ground (
  arith,
  map_loop_in rounds (i + 1) ent p (set_pt_entry t ((ent + i) % 2 ^ 32) ((p + i * 0x1000) % 2 ^ 32))
      k,
)
