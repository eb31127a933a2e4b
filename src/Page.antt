-- ===== src/Page.antt =====
-- src/kernel/page.c and page.h: the page directory and the page tables, which lie one behind
-- another from 0x400000 on, so that the table of all of them is indexed by the page's number.
pub mod Entry
pub mod Translate
mod Examples
use strange_os.Prelude.{
  ℕ, zero, suc, ◌+◌, ◌-◌, ◌*◌, ◌/◌, ◌%◌, ◌^◌, Bool, true, false, ◌||◌, bit_and, bit_or, ltb, ◌==◌,
  if◌then◌else◌,
}

-- An array of entries, by index.
abbrev pub Entries : Type 0
Entries = ℕ → ℕ

abbrev pub set_entry : Entries → ℕ → ℕ → Entries
set_entry t e v x = if x == e then v else t x

-- `p_dir`, and `p_tab` at its address.
pub record Paging : Type 0 where
  pub p_dir : Entries
  pub p_tab : Entries

abbrev pub tab_base : ℕ
tab_base = 0x40_0000

-- `PAGE_DIR_ENT` and `PAGE_TAB_ENT`
pub page_ent : ℕ → ℕ
page_ent a = bit_and a 0xffff_f000

-- `| PAGE_ENT_P | PAGE_ENT_RW` and, for users, `| PAGE_ENT_US`
abbrev pub kernel_flags : ℕ → ℕ
kernel_flags e = bit_or (bit_or e 0x1) 0x2

abbrev pub user_flags : ℕ → ℕ
user_flags e = bit_or (kernel_flags e) 0x4

-- `for (i ...; i < ...; i++) t[i] = f(i)`, with the rounds left.
pub fill : ℕ → ℕ → (ℕ → ℕ) → Entries → Entries
fill zero i f t = t
fill (suc rounds) i f t = fill rounds (i + 1) f (set_entry t i (f i))

-- `paging_enable`, up to the writes of cr3 and cr0.
pub paging_enable : Paging → Paging
paging_enable s =
    let dir₀ = set_entry s.p_dir 0 (kernel_flags (page_ent tab_base)) in
    let dir₁ = set_entry dir₀ 1 (kernel_flags (page_ent (tab_base + 1024 * 4))) in
    let dir₂ = fill 1022 2 (λ i. user_flags (page_ent (tab_base + i * 1024 * 4))) dir₁ in
    let tab₁ = fill 2048 0 (λ i. kernel_flags (page_ent (i * 0x1000))) s.p_tab in
    let tab₂ = fill 1_045_504 2048 (λ i. user_flags (page_ent (i * 0x1000))) tab₁ in
    record { p_dir = dir₂; p_tab = tab₂ }

-- `_set_pt_entry`
pub set_pt_entry : Entries → ℕ → ℕ → Entries
unfolding page_ent
set_pt_entry t e p = set_entry t e (user_flags (page_ent p))

pub map_loop : ℕ → ℕ → ℕ → ℕ → Entries → Entries
map_loop zero i ent p t = t
map_loop (suc rounds) i ent p t =
    map_loop rounds (i + 1) ent p (set_pt_entry t ((ent + i) % 2 ^ 32) ((p + i * 0x1000) % 2 ^ 32))

-- `paging_map(v, p, n)`
pub paging_map : ℕ → ℕ → ℕ → Paging → Paging
paging_map v p n s = record s { p_tab = map_loop n 0 (page_ent v / 2 ^ 12) p s.p_tab }
