-- ===== src/Fat/Unused.antt =====
-- The search of _find_unused_cluster.
use strange_os.Prelude.{
  ℕ, zero, suc, ◌^◌, ◌+◌, ◌*◌, ◌/◌, ◌%◌, ◌≤◌, ◌<◌, ◌≡◌, ◌≢◌, refl, sym, ap, ◌∙◌, none, some, arith,
  ltb, ◌==◌, if◌then◌else◌, Bool-cases, inl, inr,
}
use strange_os.Fat.{Sector, Volume, fat_lba, cache, scan, find_loop, find_unused_cluster}
use strange_os.Fat.Table.{IsCoherent, entry, cache_lem, sector_same}

-- The first free word of a sector is found; in a sector with none, nothing is.
scan_hit :
    (rounds i j k : ℕ) (buf : Sector)
    → j ≤ k
    → k < j + rounds
    → buf k ≡ 0
    → 2 ≤ i * 128 + k
    → i * 128 + k < 2 ^ 32
    → ((q : ℕ) → q < k → buf q ≢ 0)
    → scan rounds i j buf ≡ some (i * 128 + k)
unfolding scan
scan_hit zero i j k buf lo hi free inner small used = absurd (omega arith)
scan_hit (suc rounds) i j k buf lo hi free inner small used = elim (Bool-cases (k == j)) [
  | inl e ↦ ground arith
  | inr e ↦
      let full : buf j ≢ 0 = used j (ground arith) in
      ground
        (arith, scan_hit rounds i (j + 1) k buf (ground arith) (omega arith) free inner small used)
]

scan_miss :
    (rounds i j : ℕ) (buf : Sector)
    → ((q : ℕ) → q < j + rounds → buf q ≢ 0)
    → scan rounds i j buf ≡ none
unfolding scan
scan_miss zero i j buf used = refl
scan_miss (suc rounds) i j buf used =
    let full : buf j ≢ 0 = used j (omega arith) in
    ground (arith, scan_miss rounds i (j + 1) buf (λ q lt. used q (omega arith)))

abbrev next_round : ℕ → Volume → Volume
next_round i f = record f { cbufs = i; cbuf = f.disk (fat_lba f i) }

find_loop-found :
    (rounds i p : ℕ) (f : Volume)
    → scan 128 i 0 f.cbuf ≡ some p
    → (find_loop (suc rounds) i f).0 ≡ some p
unfolding find_loop
find_loop-found rounds i p f e = rw (find_loop, e) refl

find_loop-next :
    (rounds i : ℕ) (f : Volume)
    → scan 128 i 0 f.cbuf ≡ none
    → find_loop (suc rounds) i f ≡ find_loop rounds (i + 1) (next_round i f)
unfolding find_loop
find_loop-next rounds i f e = rw (find_loop, e) refl

-- A word of the cache is an entry of the table.
word_is_entry :
    (s q : ℕ) (f : Volume)
    → f.cbuf ≡ f.disk (fat_lba f s)
    → q < 128
    → f.cbuf q ≡ entry f (s * 128 + q)
word_is_entry s q f held lt =
    let row : (s * 128 + q) / 128 ≡ s = omega arith in
    let column : (s * 128 + q) % 128 ≡ q = omega arith in
    (λ t. held t q) ∙ (λ t. f.disk (fat_lba f (sym row t)) (sym column t))

-- Sector `s` in the cache, and the first free entry in it.
sector_hit :
    (i s n : ℕ) (f : Volume)
    → f.cbuf ≡ f.disk (fat_lba f s)
    → entry f n ≡ 0
    → ((p : ℕ) → p < n → entry f p ≢ 0)
    → n / 128 ≡ s
    → 2 ≤ i * 128 + n % 128
    → i * 128 + n % 128 < 2 ^ 32
    → scan 128 i 0 f.cbuf ≡ some (i * 128 + n % 128)
sector_hit i s n f held free used row inner small =
    let at : s * 128 + n % 128 ≡ n = omega arith in
    scan_hit 128 i 0 (n % 128) f.cbuf (omega arith) (omega arith)
      (word_is_entry s (n % 128) f held (omega arith) ∙ rw at free) inner small
      (λ q lt e.
        used (s * 128 + q) (omega arith) (sym (word_is_entry s q f held (omega arith)) ∙ e))

sector_miss :
    (i s n : ℕ) (f : Volume)
    → f.cbuf ≡ f.disk (fat_lba f s)
    → ((p : ℕ) → p < n → entry f p ≢ 0)
    → s < n / 128
    → scan 128 i 0 f.cbuf ≡ none
sector_miss i s n f held used before =
    scan_miss 128 i 0 f.cbuf (λ q lt e.
      used (s * 128 + q) (omega arith) (sym (word_is_entry s q f held (omega arith)) ∙ e))

-- From round `s + 1` on, with sector `s` in the cache.
find_loop_late :
    (rounds s n : ℕ) (f : Volume)
    → f.cbuf ≡ f.disk (fat_lba f s)
    → entry f n ≡ 0
    → ((p : ℕ) → p < n → entry f p ≢ 0)
    → s ≤ n / 128
    → n / 128 < s + rounds
    → n + 128 < 2 ^ 32
    → (find_loop rounds (s + 1) f).0 ≡ some (n + 128)
find_loop_late zero s n f held free used lo hi small = absurd (omega arith)
find_loop_late (suc rounds) s n f held free used lo hi small = elim (Bool-cases (n / 128 == s)) [
  | inl e ↦
      find_loop-found rounds (s + 1) ((s + 1) * 128 + n % 128) f
        (sector_hit (s + 1) s n f held free used (ground arith) (omega arith) (ground arith))
      ∙ ap some (ground arith)
  | inr e ↦
      ap (λ r. r.0)
        (find_loop-next rounds (s + 1) f (sector_miss (s + 1) s n f held used (ground arith)))
      ∙ find_loop_late rounds (s + 1) n (next_round (s + 1) f) refl free used (ground arith)
          (omega arith) small
]

find_loop_first :
    (rounds n : ℕ) (f : Volume)
    → f.cbuf ≡ f.disk (fat_lba f 0)
    → 2 ≤ n
    → entry f n ≡ 0
    → ((p : ℕ) → p < n → entry f p ≢ 0)
    → n / 128 + 1 < rounds
    → n + 128 < 2 ^ 32
    → (find_loop rounds 0 f).0 ≡ some (if ltb n 128 then n else n + 128)
find_loop_first zero n f held two free used room small = absurd (omega arith)
find_loop_first (suc rounds) n f held two free used room small = elim (Bool-cases (ltb n 128)) [
  | inl e ↦
      find_loop-found rounds 0 (0 * 128 + n % 128) f
        (sector_hit 0 0 n f held free used (ground arith) (ground arith) (omega arith))
      ∙ ap some (ground arith)
  | inr e ↦
      ap (λ r. r.0) (find_loop-next rounds 0 f (sector_miss 0 0 n f held used (ground arith)))
      ∙ find_loop_late rounds 0 n (next_round 0 f) refl free used (omega arith) (omega arith) small
      ∙ ap some (ground arith)
]

-- Where n >= 2 is the first free entry of the table, the cache is coherent, n does not lie in the
-- last sector and n + 128 does not wrap around, _find_unused_cluster gives n if it lies in the
-- first sector. In any later one it gives n + 128, an entry of the next sector, whatever that
-- holds.
pub find_unused_cluster_lem :
    (n : ℕ) (f : Volume)
    → IsCoherent f
    → 2 ≤ n
    → entry f n ≡ 0
    → ((p : ℕ) → p < n → entry f p ≢ 0)
    → n / 128 + 1 < f.spf
    → n + 128 < 2 ^ 32
    → (find_unused_cluster f).0 ≡ some (if ltb n 128 then n else n + 128)
unfolding find_unused_cluster
find_unused_cluster_lem n f h two free used room small =
    let (same, (at, held)) = cache_lem 0 f h in
    let g : Volume = cache 0 f in
    let entry_g : (p : ℕ) → entry g p ≡ entry f p =
      λ p t. sector_same f g (p / 128) same t (p % 128) in
    find_loop_first f.spf n g held two (entry_g n ∙ free)
      (λ p lt e. used p lt (sym (entry_g p) ∙ e)) room small
