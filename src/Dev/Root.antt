-- ===== src/Dev/Root.antt =====
-- Which partition dev_init_root takes for the root.
use strange_os.Prelude.{
  ℕ, zero, suc, ◌+◌, ◌≤◌, ◌<◌, ◌≡◌, ◌≢◌, refl, true, false, not, Option, none, some, ◌⊎◌, inl, inr,
  List, ◌==◌, arith, bit_and, if◌then◌else◌, Bool-cases,
}
use strange_os.Disk.Mbr.{PartEntry, mbr_get_part_entry_buf}
use strange_os.Dev.{
  is_root, find_root, signed_boot, outcome_of, dev_init_root, DevPart, Outcome, done, panicked,
  e_nodev,
}

-- Entry `n` of a table is its first bootable partition of a known type.
pub record FirstRoot (buf : List ℕ) (n : ℕ) (pe : PartEntry) : Type 0 where
  pub in_table : (1 ≤ n) × (n ≤ 4)
  pub entry : mbr_get_part_entry_buf buf n ≡ pe
  pub suits : is_root pe ≡ true
  pub none_before : (j : ℕ) → 1 ≤ j → j < n → is_root (mbr_get_part_entry_buf buf j) ≡ false

abbrev pub NoRoot : List ℕ → Type 0
NoRoot buf = (j : ℕ) → 1 ≤ j → j ≤ 4 → is_root (mbr_get_part_entry_buf buf j) ≡ false

-- What the loop finds from entry `i` on.
abbrev Finds : List ℕ → ℕ → ℕ → Option PartEntry → Type 0
Finds buf i rounds none =
    (j : ℕ) → i ≤ j → j < i + rounds → is_root (mbr_get_part_entry_buf buf j) ≡ false
Finds buf i rounds (some pe) =
    (n : ℕ) × (i ≤ n)
    × (n < i + rounds)
    × (mbr_get_part_entry_buf buf n ≡ pe)
    × (is_root pe ≡ true)
    × ((j : ℕ) → i ≤ j → j < n → is_root (mbr_get_part_entry_buf buf j) ≡ false)

extend :
    (buf : List ℕ) (i rounds : ℕ) (o : Option PartEntry)
    → is_root (mbr_get_part_entry_buf buf i) ≡ false
    → Finds buf (i + 1) rounds o
    → Finds buf i (suc rounds) o
extend buf i rounds none out h = λ j le lt. elim (Bool-cases (j == i)) [
  | inl e ↦ ground arith
  | inr e ↦ h j (ground arith) (omega arith)
]
extend buf i rounds (some pe) out (n, lo, hi, e, s, before) = (
  n,
  omega arith,
  omega arith,
  e,
  s,
  λ j le lt. elim (Bool-cases (j == i)) [
    | inl e ↦ ground arith
    | inr e ↦ before j (ground arith) lt
  ],
)

find_root_lem : (rounds : ℕ) (buf : List ℕ) (i : ℕ) → Finds buf i rounds (find_root rounds buf i)
unfolding find_root
find_root_lem zero buf i = λ j le lt. absurd (omega arith)
find_root_lem (suc rounds) buf i = elim (Bool-cases (is_root (mbr_get_part_entry_buf buf i))) [
  | inl e ↦ rw e (i, omega arith, omega arith, refl, e, λ j le lt. absurd (omega arith))
  | inr e ↦
      rw e (extend buf i rounds (find_root rounds buf (i + 1)) e (find_root_lem rounds buf (i + 1)))
]

-- What the boot device of the ATA bits is: the first disk if it is there.
abbrev pub boot_device : ℕ → ℕ
boot_device ata = if not (bit_and ata 0x1 == 0) then 0 else 1

-- The answer of dev_init_root: the device and its first bootable partition of type Linux or FAT;
-- a panic exactly where no disk answers, the sector has no signature, or no entry suits.
abbrev pub RootOutcome : ℕ → (ℕ → List ℕ) → Outcome DevPart → Type 0
RootOutcome ata boot (done d) =
    (d.dev ≡ boot_device ata)
    × (ata ≢ 0)
    × (signed_boot (boot (boot_device ata)) ≡ true)
    × ((n : ℕ) × FirstRoot (boot (boot_device ata)) n d.pe)
RootOutcome ata boot (panicked code) =
    (code ≡ e_nodev)
    × ((ata ≡ 0) ⊎ (signed_boot (boot (boot_device ata)) ≡ false) ⊎ NoRoot (boot (boot_device ata)))

-- For every disk dev_init_root either gives the first of the four partitions of the boot device
-- that is bootable and of type Linux or FAT, where there is a device with a boot signature, or
-- panics with E_NODEV, where there is no device, no boot signature or no such partition.
pub dev_init_root_lem :
    (ata : ℕ) (boot : ℕ → List ℕ) → RootOutcome ata boot (dev_init_root ata boot)
unfolding dev_init_root
dev_init_root_lem ata boot = elim (Bool-cases (ata == 0)) [
  | inl none_there ↦ rw none_there (refl, inl (ground arith))
  | inr there ↦ rw there (elim (Bool-cases (signed_boot (boot (boot_device ata)))) [
    | inl signed ↦ rw signed (
        by_entry (find_root 4 (boot (boot_device ata)) 1)
          (find_root_lem 4 (boot (boot_device ata)) 1) (ground arith) signed)
    | inr unsigned ↦ rw unsigned (refl, inr (inl unsigned))
  ])
]
  where
    by_entry :
        (o : Option PartEntry)
        → Finds (boot (boot_device ata)) 1 4 o
        → ata ≢ 0
        → signed_boot (boot (boot_device ata)) ≡ true
        → RootOutcome ata boot (outcome_of (boot_device ata) o)
    by_entry none h there signed = (refl, inr (inr (λ j le lt. h j le (omega arith))))
    by_entry (some pe) (n, lo, hi, e, s, before) there signed = (
      refl,
      there,
      signed,
      (n, record { in_table = (lo, omega arith); entry = e; suits = s; none_before = before }),
    )
