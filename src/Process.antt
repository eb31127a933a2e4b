-- ===== src/Process.antt =====
-- src/kernel/process.c and process.h: the stack of processes, linked by `p` and `n` in memory.
-- A pointer is an address, and the store has a record at each address, NULL included: the kernel
-- maps page 0 to itself, so that a write through NULL is a write like any other.
pub mod Stack
pub mod Calls
mod Examples
use strange_os.Prelude.{
  ℕ, ◌+◌, ◌*◌, ◌/◌, ◌%◌, ◌^◌, Bool, true, false, Option, none, some, List, [], ◌∷◌, ltb, ◌==◌,
  if◌then◌else◌,
}
use strange_os.Prelude.Int.{ℤ, pos, minus_one, is_neg}
use strange_os.Page.{Paging, paging_map}

-- `registers` of idt.h
pub record Registers : Type 0 where
  pub ds : ℕ
  pub edi : ℕ
  pub esi : ℕ
  pub ebp : ℕ
  pub esp : ℕ
  pub ebx : ℕ
  pub edx : ℕ
  pub ecx : ℕ
  pub eax : ℕ
  pub int_no : ℕ
  pub err_code : ℕ
  pub eip : ℕ
  pub cs : ℕ
  pub eflags : ℕ
  pub useresp : ℕ
  pub ss : ℕ

abbrev pub null : ℕ
null = 0

-- `PROCESS_WINDOW`, `PROCESS_WINDOW_SIZE`, `PROCESS_MEM_BASE`
abbrev pub window : ℕ
window = 0x80_0000

abbrev pub window_size : ℕ
window_size = 0x20_0000

abbrev pub mem_base : ℕ
mem_base = window + window_size

-- `struct proc`
pub record Proc : Type 0 where
  pub id : ℕ
  pub mem : ℕ
  pub sz : ℕ
  pub p : ℕ
  pub n : ℕ
  pub r : Registers
  pub ent : ℕ

abbrev pub Procs : Type 0
Procs = ℕ → Proc

abbrev pub store : Procs → ℕ → Proc → Procs
store ps a v x = if x == a then v else ps x

-- `cur`, and the memory with the structs.
pub record State : Type 0 where
  pub cur : ℕ
  pub procs : Procs

-- The fields that process_alloc sets in the new struct; what lies in `r` is left.
unfoldable pub new_proc : Proc → ℕ → State → Proc
new_proc old sz s =
    if s.cur == null
    then record old { id = 0; mem = mem_base; sz = sz; p = null; n = null; ent = null }
    else record old {
      id = (s.procs s.cur).id + 1;
      mem = (s.procs s.cur).mem + (s.procs s.cur).sz;
      sz = sz;
      p = s.cur;
      n = null;
      ent = null;
    }

-- `cur->n = p; cur = p;`, whatever `cur` is.
unfoldable pub push_proc : ℕ → Proc → State → State
push_proc fresh made s =
    let ps = store s.procs fresh made in
    record { cur = fresh; procs = store ps s.cur (record (ps s.cur) { n = fresh }) }

-- `fresh` is what kmalloc returns.
unfoldable pub process_alloc : ℕ → ℕ → State → State
process_alloc fresh sz s = push_proc fresh (new_proc (s.procs fresh) sz s) s

pub process_get_current : State → ℕ
process_get_current s = s.cur

unfoldable pub process_map : State → Paging → Paging
process_map s = paging_map window (s.procs s.cur).mem (window_size / 0x1000)

-- What process_load writes after process_alloc: `abin_load_file` sets `ent` in the new process, and
-- the registers go into the one below it.
unfoldable pub enter : ℕ → Registers → State → State
enter ent r s =
    let ps = store s.procs s.cur (record (s.procs s.cur) { ent = ent }) in
    let parent = (ps s.cur).p in
    if parent == null
    then record s { procs = ps }
    else record s { procs = store ps parent (record (ps parent) { r = r }) }

-- `opened` is the result of `kopen(p, "r")`, `ent` the entry point of the loaded file, `none` if
-- `abin_load_file` fails.
unfoldable pub process_load : ℤ → Option ℕ → ℕ → Registers → State → Paging → ℤ × State × Paging
process_load opened ent fresh r s pg =
    if is_neg opened
    then (minus_one, s, pg)
    else (let s₁ = process_alloc fresh window_size s in
        elim ent [
          | none ↦ (minus_one, s₁, pg)
          | some e ↦ (pos 0, enter e r s₁, process_map (enter e r s₁) pg)
        ])

-- The new state, the registers, the tables and the pointer that is freed.
unfoldable pub process_pop : Registers → State → Paging → State × Registers × Paging × ℕ
process_pop r s pg =
    let cur' = (s.procs s.cur).p in
    let freed = (s.procs cur').n in
    let s₁ : State = record {
      cur = cur';
      procs = store s.procs cur' (record (s.procs cur') { n = null });
    } in
    if cur' == null
    then (s₁, r, pg, freed)
    else (s₁, record ((s₁.procs cur').r) { eax = r.ebx }, process_map s₁ pg, freed)
