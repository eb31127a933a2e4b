-- ===== src/Stdlib/Calls.antt =====
-- src/stdlib/starch.c, over syscall.asm: the calls that a program makes, through the interrupt of
-- the system calls.
-- A call gives its result, the kernel and the registers behind it. A pointer is a u32, and a size an int, as size_t is.
pub mod Through
mod Examples
use strange_os.Prelude.{
  ℕ, ◌+◌, ◌-◌, ◌%◌, ◌^◌, ◌<◌, ◌≡◌, refl, ap, sym, ◌∙◌, Option, none, some, List, [], ◌∷◌, arith,
  ltb, leb, ◌==◌, if◌then◌else◌, Bool-cases, inl, inr,
}
use strange_os.Prelude.Int.{ℤ, pos, negsuc, minus_one, is_neg, to_int, to_u32}
use strange_os.Process.{Registers}
use strange_os.File.{
  Fds, Node, max_num_fds, free_fd, kopen, open_node, open_at, parse_mode, kread, kwrite, kclose,
  kgetnode, put_fd,
}
use strange_os.Driver.{driver_control}
use strange_os.Syscall.{
  World, Kernel, ksysint, sys_open, sys_read, sys_write, sys_close, sys_readdir, readdir_node,
  sys_driverctl, address,
}

module _ {S : Type 0} (w : World S) where
  -- `_syscall3`, up to what the handler leaves in the registers.
  unfoldable pub syscall3 : ℕ → ℕ → ℕ → ℕ → Kernel S → Registers → Kernel S × Registers
  syscall3 id a b c k r = ksysint w k (record r { eax = id; ebx = a; ecx = b; edx = c })

  -- `_std_open`
  unfoldable pub std_open : ℕ → ℕ → Kernel S → Registers → ℤ × Kernel S × Registers
  unfolding syscall3
  std_open p m k r = let (k', r') = syscall3 1 p m 0 k r in (to_int r'.eax, k', r')

  -- `_std_read`
  pub std_read : ℤ → ℕ → ℕ → Kernel S → Registers → ℤ × Kernel S × Registers
  unfolding syscall3
  std_read fd buf n k r = let (k', r') = syscall3 2 (to_u32 fd) buf n k r in (to_int r'.eax, k', r')

  -- `_std_write`
  pub std_write : ℤ → ℕ → ℕ → Kernel S → Registers → ℤ × Kernel S × Registers
  unfolding syscall3
  std_write fd buf n k r =
      let (k', r') = syscall3 3 (to_u32 fd) buf n k r in (to_int r'.eax, k', r')

  -- `_std_close`
  pub std_close : ℤ → Kernel S → Registers → Kernel S × Registers
  unfolding syscall3
  std_close fd k r = syscall3 4 (to_u32 fd) 0 0 k r

  -- `_std_exec`, up to the start of the program: the result comes with its end.
  pub std_exec : ℕ → ℕ → ℕ → Kernel S → Registers → Kernel S × Registers
  unfolding syscall3
  std_exec p argv envp k r = syscall3 5 p argv envp k r

  -- `_std_readdir`
  pub std_readdir : ℤ → ℕ → Kernel S → Registers → ℕ × Kernel S × Registers
  unfolding syscall3
  std_readdir fd idx k r =
      let (k', r') = syscall3 7 (to_u32 fd) idx 0 k r in (to_u32 (to_int r'.eax), k', r')

  -- `_std_driverid`
  pub std_driverid : ℕ → Kernel S → Registers → ℤ × Kernel S × Registers
  unfolding syscall3
  std_driverid name k r = let (k', r') = syscall3 8 name 0 0 k r in (to_int r'.eax, k', r')

  -- `_std_driverctl`
  pub std_driverctl : ℤ → ℕ → ℕ → Kernel S → Registers → ℕ × Kernel S × Registers
  unfolding syscall3
  std_driverctl id cmd p k r =
      let (k', r') = syscall3 9 (to_u32 id) cmd p k r in (to_u32 (to_int r'.eax), k', r')
