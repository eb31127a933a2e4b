-- ===== src/Page/Translate.antt =====
-- The addresses that the tables of page.c stand for.
use strange_os.Prelude.{
  ℕ, ◌+◌, ◌-◌, ◌*◌, ◌/◌, ◌%◌, ◌^◌, ◌≤◌, ◌<◌, ◌≡◌, ◌⊎◌, inl, inr, Bool, true, ◌&&◌, ◌↔◌, Option,
  none, some, arith, ltb, ◌==◌, if◌then◌else◌, Bool-cases,
}
use strange_os.Page.{
  Paging, set_entry, tab_base, fill, page_ent, kernel_flags, user_flags, paging_enable, paging_map,
}
use strange_os.Page.Entry.{
  page_ent_lem, kernel_entry, user_entry, fill_in, fill_out, map_loop_in, map_loop_out,
}

-- How the processor reads a directory entry for address `v`, and the table entry behind it, where
-- the tables lie from `tab_base` on.
abbrev pub pde : Paging → ℕ → ℕ
pde s v = s.p_dir (v / 2 ^ 22)

abbrev pub pte : Paging → ℕ → ℕ
pte s v = s.p_tab ((pde s v / 4096 * 4096 - tab_base) / 4 + v / 4096 % 1024)

-- The physical address of `v`, if both entries are present.
pub translate : Paging → ℕ → Option ℕ
translate s v =
    if pde s v % 2 == 1 && pte s v % 2 == 1 then some (pte s v / 4096 * 4096 + v % 4096) else none

-- Whether user code may use `v`.
pub user_page : Paging → ℕ → Bool
user_page s v = pde s v / 4 % 2 == 1 && pte s v / 4 % 2 == 1

-- The directory as paging_enable leaves it.
abbrev pub HasDirectory : Paging → Type 0
HasDirectory s = (i : ℕ) → i < 1024 → s.p_dir i ≡ tab_base + i * 4096 + (if ltb i 2 then 3 else 7)

pub paging_enable-HasDirectory : (s : Paging) → HasDirectory (paging_enable s)
unfolding paging_enable
paging_enable-HasDirectory s i h = elim (Bool-cases (ltb i 2)) [
  | inl low ↦ ground (
    arith,
    fill_out 1022 2 (λ i. user_flags (page_ent (tab_base + i * 1024 * 4)))
        (set_entry (set_entry s.p_dir 0 (kernel_flags (page_ent tab_base))) 1
          (kernel_flags (page_ent (tab_base + 1024 * 4))))
        i,
    kernel_entry tab_base (omega arith),
    kernel_entry (tab_base + 1024 * 4) (omega arith),
  )
  | inr high ↦ ground (
    arith,
    fill_in 1022 2 (λ i. user_flags (page_ent (tab_base + i * 1024 * 4)))
        (set_entry (set_entry s.p_dir 0 (kernel_flags (page_ent tab_base))) 1
          (kernel_flags (page_ent (tab_base + 1024 * 4))))
        i,
    user_entry (tab_base + i * 1024 * 4) (omega arith),
  )
]

paging_enable-table :
    (s : Paging) (i : ℕ)
    → i < 1_047_552
    → (paging_enable s).p_tab i ≡ i * 4096 + (if ltb i 2048 then 3 else 7)
unfolding paging_enable
paging_enable-table s i h = elim (Bool-cases (ltb i 2048)) [
  | inl low ↦ ground (
    arith,
    fill_out 1_045_504 2048 (λ i. user_flags (page_ent (i * 0x1000)))
        (fill 2048 0 (λ i. kernel_flags (page_ent (i * 0x1000))) s.p_tab) i,
    fill_in 2048 0 (λ i. kernel_flags (page_ent (i * 0x1000))) s.p_tab i,
    kernel_entry (i * 0x1000) (omega arith),
  )
  | inr high ↦ ground (
    arith,
    fill_in 1_045_504 2048 (λ i. user_flags (page_ent (i * 0x1000)))
        (fill 2048 0 (λ i. kernel_flags (page_ent (i * 0x1000))) s.p_tab) i,
    user_entry (i * 0x1000) (omega arith),
  )
]

pte-index :
    (s : Paging) (v : ℕ)
    → HasDirectory s
    → v < 2 ^ 32
    → (pte s v ≡ s.p_tab (v / 4096))
      × (pde s v % 2 ≡ 1)
      × (pde s v / 4 % 2 ≡ (if ltb (v / 2 ^ 22) 2 then 0 else 1))
pte-index s v d h = ground (arith, d (v / 2 ^ 22))

-- After paging_enable every address below 1023 * 4 MB stands for itself, and user code may use it
-- exactly from 8 MB on.
pub paging_enable_identity :
    (s : Paging) (v : ℕ)
    → v < 1023 * 2 ^ 22
    → (translate (paging_enable s) v ≡ some v)
      × ((user_page (paging_enable s) v ≡ true) ↔ (0x80_0000 ≤ v))
unfolding translate user_page
paging_enable_identity s v h =
    let index = pte-index (paging_enable s) v (paging_enable-HasDirectory s) (omega arith) in
    let entry = paging_enable-table s (v / 4096) (omega arith) in
    (ground arith, ((λ e. ground arith), (λ le. ground arith)))

-- With the directory of paging_enable: paging_map maps the n pages from an aligned v on to the n
-- frames from an aligned p on, both below 4 GB, and leaves what every other address stands for.
pub paging_map_lem :
    (s : Paging) (v p n x w : ℕ)
    → HasDirectory s
    → v % 4096 ≡ 0
    → p % 4096 ≡ 0
    → v + n * 4096 < 2 ^ 32
    → p + n * 4096 < 2 ^ 32
    → x < n * 4096
    → w < 2 ^ 32
    → (w < v) ⊎ (v + n * 4096 ≤ w)
    → (translate (paging_map v p n s) (v + x) ≡ some (p + x))
      × (translate (paging_map v p n s) w ≡ translate s w)
unfolding translate paging_map
paging_map_lem s v p n x w d av ap vs ps hx hw out =
    let first : page_ent v / 2 ^ 12 ≡ v / 4096 = omega (arith, page_ent_lem v (omega arith)) in
    (
      ground (
        arith,
        first,
        pte-index (paging_map v p n s) (v + x) d (omega arith),
        map_loop_in n 0 (v / 4096) p s.p_tab (x / 4096) (omega arith) (omega arith) (omega arith),
        user_entry (p + (0 + x / 4096) * 4096) (omega arith),
      ),
      ground (
        arith,
        first,
        pte-index (paging_map v p n s) w d hw,
        pte-index s w d hw,
        map_loop_out n 0 (v / 4096) p s.p_tab (w / 4096) (omega arith),
      ),
    )
