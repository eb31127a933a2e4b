-- ===== src/Syscall.antt =====
-- src/kernel/syscall.c: the interrupt handler of the system calls, over the files, the processes,
-- the drivers and the console.
-- What a call reads of the memory of the process, and what the file layer below it does with a path,
-- are given by `World`.
pub mod Calls
mod Examples
use strange_os.Prelude.{
  ℕ, ◌+◌, ◌-◌, ◌%◌, ◌^◌, Option, none, some, List, [], ◌∷◌, ◌==◌, if◌then◌else◌,
}
use strange_os.Prelude.Int.{ℤ, pos, negsuc, is_neg, to_int, to_u32}
use strange_os.Page.{Paging}
use strange_os.Process.{Registers, State, window, process_load, process_pop}
use strange_os.File.{Node, Fds, kopen, kread, kwrite, kclose, kgetnode}
use strange_os.Driver.{Drivers, driver_get_id, driver_control}
use strange_os.Console.{Console, kprint, kprinthex, kprintnl}

-- `text` is the C string at an address, `find` the walk along a path, `readdir` fs_readdir of a node,
-- and `on_console` a change of the console, which is a part of the state. `program` is what
-- abin_load_file makes of a path: the entry point if the file loads, and what it does to the files;
-- it also gives the pointer that kmalloc returns for the process.
pub record World (S : Type 0) : Type 0 where
  pub text : ℕ → S → List ℕ
  pub find : List ℕ → S → Option ℕ × S
  pub readdir : ℕ → ℕ → S → Option ℕ × S
  pub on_console : (Console → Console) → S → S
  pub program : List ℕ → Fds → S → Option ℕ × ℕ × Fds × S

pub record Kernel (S : Type 0) : Type 0 where
  pub procs : State
  pub paging : Paging
  pub fds : Fds
  pub nodes : ℕ → Node S
  pub drivers : Drivers S
  pub state : S

-- "unrecognized syscall number: "
abbrev pub unrecognized : List ℕ
unrecognized =
    117 ∷ 110 ∷ 114 ∷ 101 ∷ 99 ∷ 111 ∷ 103 ∷ 110 ∷ 105 ∷ 122 ∷ 101 ∷ 100 ∷ 32 ∷ 115 ∷ 121 ∷ 115 ∷ 99
    ∷ 97 ∷ 108 ∷ 108 ∷ 32 ∷ 110 ∷ 117 ∷ 109 ∷ 98 ∷ 101 ∷ 114 ∷ 58 ∷ 32 ∷ []

-- An address, 0 for NULL.
abbrev pub address : Option ℕ → ℕ
address none = 0
address (some a) = a

-- The registers of the new program. `r->ecx` is moved from the window to the caller's memory.
abbrev pub start_registers : State → Registers → Registers
start_registers s r = record r {
  cs = 8;
  eip = window;
  ecx = (r.ecx + ((s.procs (s.procs s.cur).p).mem + (2 ^ 32 - window))) % 2 ^ 32;
}

module _ {S : Type 0} where
  unfoldable pub sys_open : World S → Kernel S → Registers → Kernel S × Registers
  sys_open w k r =
      let (fd, fds', s') =
        kopen w.find (w.text r.ebx k.state) (w.text r.ecx k.state) k.nodes k.fds k.state in
      (record k { fds = fds'; state = s' }, record r { eax = to_u32 fd })

  unfoldable pub sys_read : Kernel S → Registers → Kernel S × Registers
  sys_read k r =
      let (n, fds', s') = kread (to_int r.ebx) r.ecx r.edx k.nodes k.fds k.state in
      (record k { fds = fds'; state = s' }, record r { eax = to_u32 n })

  unfoldable pub sys_write : Kernel S → Registers → Kernel S × Registers
  sys_write k r =
      let (n, fds', s') = kwrite (to_int r.ebx) r.ecx r.edx k.nodes k.fds k.state in
      (record k { fds = fds'; state = s' }, record r { eax = to_u32 n })

  unfoldable pub sys_close : Kernel S → Registers → Kernel S × Registers
  sys_close k r =
      let (fds', s') = kclose (to_int r.ebx) k.nodes k.fds k.state in
      (record k { fds = fds'; state = s' }, record r { eax = 0 })

  -- process_load leaves the descriptor that it opens.
  pub sys_exec : World S → Kernel S → Registers → Kernel S × Registers
  sys_exec w k r =
      let path = w.text r.ebx k.state in
      let (opened, fds', s') = kopen w.find path (b'r' ∷ []) k.nodes k.fds k.state in
      let (entry, fresh, fds'', s'') = w.program path fds' s' in
      let (result, procs', paging') = process_load opened entry fresh r k.procs k.paging in
      (
        record k {
          procs = procs';
          paging = paging';
          fds = if is_neg opened then fds' else fds'';
          state = if is_neg opened then s' else s'';
        },
        if is_neg result then record r { eax = to_u32 result } else start_registers procs' r,
      )

  pub sys_exit : Kernel S → Registers → Kernel S × Registers
  sys_exit k r =
      let (procs', r', paging', freed) = process_pop r k.procs k.paging in
      (record k { procs = procs'; paging = paging' }, r')

  unfoldable pub readdir_node : World S → Option ℕ → Kernel S → Registers → Kernel S × Registers
  readdir_node w none k r = (k, record r { eax = 0 })
  readdir_node w (some n) k r =
      let (dent, s') = w.readdir n r.ecx k.state in
      (record k { state = s' }, record r { eax = address dent })

  unfoldable pub sys_readdir : World S → Kernel S → Registers → Kernel S × Registers
  unfolding readdir_node
  sys_readdir w k r = readdir_node w (kgetnode (to_int r.ebx) k.fds) k r

  unfoldable pub sys_driverid : World S → Kernel S → Registers → Kernel S × Registers
  sys_driverid w k r =
      (k, record r { eax = to_u32 (driver_get_id (w.text r.ebx k.state) k.drivers) })

  unfoldable pub sys_driverctl : Kernel S → Registers → Kernel S × Registers
  sys_driverctl k r =
      let (result, s') = driver_control (to_int r.ebx) r.ecx r.edx k.drivers k.state in
      (record k { state = s' }, record r { eax = result })

  pub sys_unknown : World S → Kernel S → Registers → Kernel S × Registers
  sys_unknown w k r = (
    record k {
      state = w.on_console (λ c. kprintnl (kprinthex r.eax (kprint unrecognized c))) k.state;
    },
    r,
  )

  -- `ksysint`
  unfoldable pub ksysint : World S → Kernel S → Registers → Kernel S × Registers
  ksysint w k r =
      if r.eax == 0x00
      then (k, r)
      else (if r.eax == 0x01
          then sys_open w k r
          else (if r.eax == 0x02
              then sys_read k r
              else (if r.eax == 0x03
                  then sys_write k r
                  else (if r.eax == 0x04
                      then sys_close k r
                      else (if r.eax == 0x05
                          then sys_exec w k r
                          else (if r.eax == 0x06
                              then sys_exit k r
                              else (if r.eax == 0x07
                                  then sys_readdir w k r
                                  else (if r.eax == 0x08
                                      then sys_driverid w k r
                                      else (if r.eax == 0x09
                                          then sys_driverctl k r
                                          else sys_unknown w k r)))))))))
