-- ===== src/Loader.antt =====
-- src/kernel/elf.c, elf.h and src/kernel/abin.c: the two loaders of programs.
-- A file is an array of bytes of which the first `len` are there, and the memory of a process an
-- array of bytes from its beginning, which stands for the addresses from 0x800000 on. The files are
-- opened and read through src/kernel/fileio.c: `opened` is the result of kopen.
pub mod Elf
pub mod Abin
mod Examples
use strange_os.Prelude.{
  ◌%◌, ◌^◌, ℕ, zero, suc, ◌+◌, ◌-◌, ◌*◌, ◌^◌, Bool, true, false, not, ◌&&◌, ◌||◌, Option, none,
  some, ltb, leb, ◌==◌, if◌then◌else◌,
}
use strange_os.Prelude.Int.{ℤ, pos, negsuc, minus_one, is_neg}

abbrev pub Bytes : Type 0
Bytes = ℕ → ℕ

abbrev pub half : Bytes → ℕ → ℕ
half b i = b i + 2 ^ 8 * b (i + 1)

abbrev pub word : Bytes → ℕ → ℕ
word b i = b i + 2 ^ 8 * b (i + 1) + 2 ^ 16 * b (i + 2) + 2 ^ 24 * b (i + 3)

-- Where the memory of a process begins for the process.
abbrev pub base : ℕ
base = 0x80_0000

-- `ELF_ERROR_SIG`, `ELF_ERROR_CLASS`, ...: -1, -2, ...
pub elf_check_header : Bytes → ℤ
elf_check_header hdr =
    if not (hdr 0 == 0x7f)
    then negsuc 0
    else (if not (hdr 1 == b'E')
        then negsuc 0
        else (if not (hdr 2 == b'L')
            then negsuc 0
            else (if not (hdr 3 == b'F')
                then negsuc 0
                else (if not (hdr 4 == 1)
                    then negsuc 1
                    else (if not (hdr 5 == 1)
                        then negsuc 2
                        else (if not (half hdr 18 == 3)
                            then negsuc 3
                            else (if not (hdr 6 == 1)
                                then negsuc 4
                                else (if not (half hdr 16 == 2) then negsuc 5 else pos 0))))))))

-- The fields of `struct elf32_section_header` that the loader reads.
pub record Section : Type 0 where
  pub type : ℕ
  pub addr : ℕ
  pub off : ℕ
  pub size : ℕ

-- `shdr + i`, 40 bytes each.
unfoldable pub section_at : Bytes → ℕ → Section
section_at buf i =
    let p = word buf 32 + i * 40 in
    record {
      type = word buf (p + 4);
      addr = word buf (p + 12);
      off = word buf (p + 16);
      size = word buf (p + 20);
    }

-- `ELF_SECTION_TYPE_PROGBITS` and `ELF_SECTION_TYPE_NOBITS`
abbrev pub progbits : ℕ
progbits = 1

abbrev pub nobits : ℕ
nobits = 8

-- What a place lies behind the start of a section, around 2 ^ 32. Places count from `pr->mem`.
unfoldable pub place_in : Section → ℕ → ℕ
place_in sh x = (x + 2 ^ 32 - (sh.addr - base)) % 2 ^ 32

-- The rounds of `for (size_t i = 0; i < n; i++)`: none for a size that is negative as an int.
unfoldable pub rounds_of : ℕ → ℕ
rounds_of n = if ltb n (2 ^ 31) then n else 0

-- Whether memcpy or memset writes a place in memory.
abbrev pub in_section : Section → ℕ → Bool
in_section sh x = ltb (place_in sh x) (rounds_of sh.size)

-- The body of the loop of elf_load_file: memcpy, memset, or nothing. The file and the memory of the
-- process do not overlap.
pub load_section : Bytes → Section → Bytes → Bytes
load_section buf sh mem x =
    if ltb sh.addr base || sh.size == 0
    then mem x
    else (if sh.type == progbits
        then (if in_section sh x then buf ((sh.off + place_in sh x) % 2 ^ 32) else mem x)
        else (if sh.type == nobits then (if in_section sh x then 0 else mem x) else mem x))

-- The loop from section `i` on, with the rounds left.
pub load_sections : ℕ → ℕ → Bytes → Bytes → Bytes
load_sections zero i buf mem = mem
load_sections (suc rounds) i buf mem =
    load_sections rounds (i + 1) buf (load_section buf (section_at buf i) mem)

-- `elf_get_string_table(hdr) == NULL`
abbrev pub no_string_table : Bytes → Bool
no_string_table buf = half buf 50 == 0

-- `elf_load_file`: the result, the memory and the entry point, `none` if it is not set.
pub elf_load_file : ℤ → Bytes → Bytes → ℤ × Bytes × Option ℕ
unfolding elf_check_header load_sections section_at
elf_load_file opened buf mem =
    if is_neg opened
    then (minus_one, mem, none)
    else (if is_neg (elf_check_header buf)
        then (minus_one, mem, none)
        else (if not ((section_at buf 0).type == 0)
            then (minus_one, mem, none)
            else (if no_string_table buf
                then (minus_one, mem, none)
                else (pos 0, load_sections (half buf 48 - 1) 1 buf mem, some (word buf 24)))))

-- `sizeof(struct abin_header)`
abbrev pub abin_size : ℕ
abin_size = 9

-- `hdr`, of which kread fills what the file has; `junk` lies on the stack.
abbrev pub abin_header : ℕ → Bytes → Bytes → Bytes
abin_header len file junk x = if ltb x len then file x else junk x

-- The test of `sig`.
abbrev pub bad_signature : Bytes → Bool
bad_signature hdr = not (hdr 5 == 0) || (not (hdr 6 == b'A') || not (hdr 7 == b'B'))

unfoldable pub abin_entry : ℕ → ℕ
abin_entry ent = if ent == 0 then base else (if ltb ent base then base + ent else ent)

-- `abin_load_file` of a file of `len` bytes.
unfoldable pub abin_load_file : ℤ → ℕ → Bytes → Bytes → Bytes → ℤ × Bytes × Option ℕ
unfolding abin_entry
abin_load_file opened len file junk mem =
    let hdr = abin_header len file junk in
    if is_neg opened
    then (minus_one, mem, none)
    else (if bad_signature hdr then (minus_one, mem, none) else (
      pos 0,
      (λ x. if ltb x abin_size then hdr x else (if ltb x len then file x else mem x)),
      some (abin_entry (word hdr 1)),
    ))
