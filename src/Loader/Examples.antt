-- ===== src/Loader/Examples.antt =====
-- Two programs, and the theorems about the loaders at them.
use strange_os.Prelude.{
  none, inl, inr, ℕ, zero, suc, ◌≤◌, ◌<◌, ◌≡◌, refl, false, some, List, [], ◌∷◌, arith, get_or,
}
use strange_os.Prelude.Int.{pos, minus_one}
use strange_os.Loader.{Bytes, elf_load_file, section_at, place_in, rounds_of, abin_load_file}
use strange_os.Loader.Elf.{elf_load_file_lem, elf_load_file-refuses, covers}
use strange_os.Loader.Abin.{abin_load_file_lem}

-- An executable with one section of three bytes at 0x800010.
abbrev image : List ℕ
image =
    127 ∷ 69 ∷ 76 ∷ 70 ∷ 1 ∷ 1 ∷ 1 ∷ 0 ∷ 0 ∷ 0 ∷ 0 ∷ 0 ∷ 0 ∷ 0 ∷ 0 ∷ 0 ∷ 2 ∷ 0 ∷ 3 ∷ 0 ∷ 1 ∷ 0 ∷ 0
    ∷ 0 ∷ 16 ∷ 0 ∷ 128 ∷ 0 ∷ 0 ∷ 0 ∷ 0 ∷ 0 ∷ 52 ∷ 0 ∷ 0 ∷ 0 ∷ 0 ∷ 0 ∷ 0 ∷ 0 ∷ 52 ∷ 0 ∷ 0 ∷ 0 ∷ 0 ∷ 0
    ∷ 40 ∷ 0 ∷ 2 ∷ 0 ∷ 1 ∷ 0 ∷ 0 ∷ 0 ∷ 0 ∷ 0 ∷ 0 ∷ 0 ∷ 0 ∷ 0 ∷ 0 ∷ 0 ∷ 0 ∷ 0 ∷ 0 ∷ 0 ∷ 0 ∷ 0 ∷ 0 ∷ 0
    ∷ 0 ∷ 0 ∷ 0 ∷ 0 ∷ 0 ∷ 0 ∷ 0 ∷ 0 ∷ 0 ∷ 0 ∷ 0 ∷ 0 ∷ 0 ∷ 0 ∷ 0 ∷ 0 ∷ 0 ∷ 0 ∷ 0 ∷ 0 ∷ 0 ∷ 0 ∷ 0 ∷ 0
    ∷ 0 ∷ 0 ∷ 1 ∷ 0 ∷ 0 ∷ 0 ∷ 0 ∷ 0 ∷ 0 ∷ 0 ∷ 16 ∷ 0 ∷ 128 ∷ 0 ∷ 132 ∷ 0 ∷ 0 ∷ 0 ∷ 3 ∷ 0 ∷ 0 ∷ 0 ∷ 0
    ∷ 0 ∷ 0 ∷ 0 ∷ 0 ∷ 0 ∷ 0 ∷ 0 ∷ 0 ∷ 0 ∷ 0 ∷ 0 ∷ 0 ∷ 0 ∷ 0 ∷ 0 ∷ 7 ∷ 8 ∷ 9 ∷ []

abbrev elf : Bytes
elf i = get_or image i 0

abbrev memory : Bytes
memory _ = 1

only_section : (k : ℕ) → 1 ≤ k → k < 2 → covers elf k 19 ≡ false
unfolding section_at place_in rounds_of
only_section zero lo hi = absurd (omega arith)
only_section (suc zero) lo hi = refl
only_section (suc (suc k)) lo hi = absurd (omega arith)

elf_load_file_lem_example :
    let (result, loaded, entry) = elf_load_file (pos 3) elf memory in
    (result ≡ pos 0) × (entry ≡ some 0x80_0010) × (loaded 17 ≡ 8) × (loaded 19 ≡ 1)
unfolding section_at place_in rounds_of
elf_load_file_lem_example =
    elf_load_file_lem 3 elf memory 1 17 19 (refl, refl, refl, refl, refl, refl, refl, refl, refl)
      refl (omega arith) (omega arith) refl (λ k lo hi. absurd (omega arith)) only_section

abbrev abin : Bytes
abin i = get_or (235 ∷ 32 ∷ 0 ∷ 0 ∷ 0 ∷ 0 ∷ 65 ∷ 66 ∷ 1 ∷ 144 ∷ []) i 0

abin_load_file_lem_example :
    let (result, loaded, entry) = abin_load_file (pos 3) 10 abin memory memory in
    (result ≡ pos 0) × (loaded 9 ≡ 144) × (entry ≡ some 0x80_0020)
abin_load_file_lem_example = abin_load_file_lem (pos 3) 10 abin memory memory 9 (omega arith)

-- A file of zeros.
elf_load_file-refuses_example : elf_load_file (pos 3) (λ _. 0) memory ≡ (minus_one, memory, none)
elf_load_file-refuses_example =
    elf_load_file-refuses (pos 3) (λ _. 0) memory (inr (inl (λ h. absurd (omega (arith, h.0)))))
