-- ===== src/Process/Examples.antt =====
-- A kernel that starts init and runs one command, and the theorems about the stack at it.
use strange_os.Prelude.{◌+◌, ◌*◌, ◌≡◌, refl, some, [], ◌∷◌, arith}
use strange_os.Prelude.Int.{pos}
use strange_os.Page.{Paging, paging_map}
use strange_os.Process.{
  Registers, Proc, State, process_alloc, process_load, process_pop, process_get_current, window,
  window_size, mem_base, push_proc,
}
use strange_os.Process.Stack.{IsStack, process_alloc-IsStack}
use strange_os.Process.Calls.{load_pop}

abbrev regs : Registers
regs = record {
  ds = 0;
  edi = 0;
  esi = 0;
  ebp = 0;
  esp = 0;
  ebx = 7;
  edx = 0;
  ecx = 0;
  eax = 5;
  int_no = 64;
  err_code = 0;
  eip = 0;
  cs = 8;
  eflags = 0;
  useresp = 0;
  ss = 0;
}

abbrev proc : Proc
proc = record { id = 0; mem = 0; sz = 0; p = 0; n = 0; r = regs; ent = 0 }

abbrev off : State
off = record { cur = 0; procs = λ _. proc }

abbrev tables : Paging
tables = record { p_dir = λ _. 0; p_tab = λ _. 0 }

-- After the kernel has allocated the first process, at 100.
abbrev init : State
init = process_alloc 100 window_size off

process_alloc-IsStack_example : IsStack (process_alloc 100 window_size off) (100 ∷ [])
process_alloc-IsStack_example = process_alloc-IsStack off [] 100 refl (omega arith) refl

current_is_init : process_get_current init ≡ 100
unfolding process_get_current process_alloc push_proc
current_is_init = refl

load_pop_example :
    let loaded = process_load (pos 3) (some 0x80_0000) 200 regs init tables in
    let popped = process_pop regs loaded.1 loaded.2 in
    (loaded.0 ≡ pos 0)
    × IsStack loaded.1 (200 ∷ 100 ∷ [])
    × ((loaded.1.procs 200).ent ≡ 0x80_0000)
    × (loaded.2 ≡ paging_map window (mem_base + (0 + 1) * window_size) 512 tables)
    × IsStack popped.0 (100 ∷ [])
    × (popped.1 ≡ record regs { eax = 7 })
    × (popped.2 ≡ paging_map window (mem_base + 0 * window_size) 512 loaded.2)
    × (popped.3 ≡ 200)
load_pop_example =
    load_pop init tables regs regs 3 0x80_0000 200 100 []
      (process_alloc-IsStack off [] 100 refl (omega arith) refl) (omega arith) refl
