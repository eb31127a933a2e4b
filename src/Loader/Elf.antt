-- ===== src/Loader/Elf.antt =====
-- What elf_load_file accepts, and what it puts where.
use strange_os.Prelude.{
  ◌%◌, ◌^◌, ℕ, zero, suc, ◌+◌, ◌-◌, ◌≤◌, ◌<◌, ◌≡◌, refl, ◌∙◌, ◌↔◌, ◌⊎◌, Bool, true, false, not,
  ◌&&◌, ◌||◌, none, some, arith, leb, ◌==◌, if◌then◌else◌, Bool-cases, inl, inr,
}
use strange_os.Prelude.Int.{ℤ, pos, minus_one, is_neg}
use strange_os.Loader.{
  Bytes, half, word, base, elf_check_header, Section, section_at, progbits, nobits, in_section,
  place_in, load_section, load_sections, elf_load_file,
}

-- The header of a 32-bit little-endian executable for the 386.
abbrev pub IsExecutable : Bytes → Type 0
IsExecutable b =
    (b 0 ≡ 0x7f)
    × (b 1 ≡ b'E')
    × (b 2 ≡ b'L')
    × (b 3 ≡ b'F')
    × (b 4 ≡ 1)
    × (b 5 ≡ 1)
    × (b 6 ≡ 1)
    × (half b 16 ≡ 2)
    × (half b 18 ≡ 3)

pub elf_check_header_lem : (b : Bytes) → (is_neg (elf_check_header b) ≡ false) ↔ IsExecutable b
unfolding elf_check_header
elf_check_header_lem b = ground arith

-- Whether a section is loaded.
abbrev pub is_loaded : Section → Bool
is_loaded sh =
    (leb base sh.addr && not (sh.size == 0)) && (sh.type == progbits || sh.type == nobits)

-- What a loaded section has at place `x`.
abbrev pub section_byte : Bytes → Section → ℕ → ℕ
section_byte buf sh x = if sh.type == progbits then buf ((sh.off + place_in sh x) % 2 ^ 32) else 0

load_section_lem :
    (buf : Bytes) (sh : Section) (mem : Bytes) (x : ℕ)
    → load_section buf sh mem x
      ≡ (if is_loaded sh && in_section sh x then section_byte buf sh x else mem x)
unfolding load_section
load_section_lem buf sh mem x = ground arith

-- Whether section `j` of a file is loaded over place `x`.
abbrev pub covers : Bytes → ℕ → ℕ → Bool
covers buf j x = is_loaded (section_at buf j) && in_section (section_at buf j) x

load_sections-keep :
    (rounds i : ℕ) (buf mem : Bytes) (x : ℕ)
    → ((j : ℕ) → i ≤ j → j < i + rounds → covers buf j x ≡ false)
    → load_sections rounds i buf mem x ≡ mem x
unfolding load_sections
load_sections-keep zero i buf mem x h = refl
load_sections-keep (suc rounds) i buf mem x h =
    let out : covers buf i x ≡ false = h i (omega arith) (omega arith) in
    load_sections-keep rounds (i + 1) buf (load_section buf (section_at buf i) mem) x
      (λ j lo hi. h j (omega arith) (omega arith))
    ∙ load_section_lem buf (section_at buf i) mem x
    ∙ rw out refl

load_sections-last :
    (rounds i j : ℕ) (buf mem : Bytes) (x : ℕ)
    → i ≤ j
    → j < i + rounds
    → covers buf j x ≡ true
    → ((k : ℕ) → j < k → k < i + rounds → covers buf k x ≡ false)
    → load_sections rounds i buf mem x ≡ section_byte buf (section_at buf j) x
unfolding load_sections
load_sections-last zero i j buf mem x lo hi yes_ later = absurd (omega arith)
load_sections-last (suc rounds) i j buf mem x lo hi yes_ later = elim (Bool-cases (j == i)) [
  | inl e ↦
      let at : j ≡ i = ground arith in
      load_sections-keep rounds (i + 1) buf (load_section buf (section_at buf i) mem) x
        (λ k lo' hi'. later k (omega arith) (omega arith))
      ∙ load_section_lem buf (section_at buf i) mem x
      ∙ rw (← at, yes_) refl
  | inr e ↦
      load_sections-last rounds (i + 1) j buf (load_section buf (section_at buf i) mem) x
        (ground arith) (omega arith) yes_ (λ k lo' hi'. later k lo' (omega arith))
]

-- What the loader asks of a file behind its header: a null section first, and a string table.
abbrev pub has_sections : Bytes → Bool
has_sections buf = ((section_at buf 0).type == 0) && not (half buf 50 == 0)

-- elf_load_file of an executable with a null section first and a string table succeeds with the
-- entry point of the header; a place of the memory that a loaded section covers, around 2 ^ 32 and
-- for a size below 2 ^ 31, gets the byte of the last such section, and a place that none covers
-- keeps its own.
pub elf_load_file_lem :
    (fd : ℕ) (buf mem : Bytes) (j x y : ℕ)
    → IsExecutable buf
    → has_sections buf ≡ true
    → 1 ≤ j
    → j < half buf 48
    → covers buf j x ≡ true
    → ((k : ℕ) → j < k → k < half buf 48 → covers buf k x ≡ false)
    → ((k : ℕ) → 1 ≤ k → k < half buf 48 → covers buf k y ≡ false)
    → let (result, loaded, entry) = elf_load_file (pos fd) buf mem in
      (result ≡ pos 0)
      × (entry ≡ some (word buf 24))
      × (loaded x ≡ section_byte buf (section_at buf j) x)
      × (loaded y ≡ mem y)
unfolding elf_load_file
elf_load_file_lem fd buf mem j x y h ok lo hi yes_ later none_ =
    let good : is_neg (elf_check_header buf) ≡ false = (elf_check_header_lem buf).1 h in
    let first : ((section_at buf 0).type == 0) ≡ true = ground arith in
    let table : (half buf 50 == 0) ≡ false = ground arith in
    rw (good, first, table)
      (
        refl,
        refl,
        load_sections-last (half buf 48 - 1) 1 j buf mem x lo (omega arith) yes_
            (λ k lo' hi'. later k lo' (omega arith)),
        load_sections-keep (half buf 48 - 1) 1 buf mem y (λ k lo' hi'. none_ k lo' (omega arith)),
      )

-- A file that does not open, that is not an executable, or that has no null section first or no
-- string table is refused by elf_load_file: the result is -1, and neither the memory nor the entry
-- point is set.
pub elf_load_file-refuses :
    (opened : ℤ) (buf mem : Bytes)
    → (is_neg opened ≡ true) ⊎ (¬ IsExecutable buf) ⊎ (has_sections buf ≡ false)
    → elf_load_file opened buf mem ≡ (minus_one, mem, none)
unfolding elf_load_file
elf_load_file-refuses opened buf mem h = ground (arith, elf_check_header_lem buf)
