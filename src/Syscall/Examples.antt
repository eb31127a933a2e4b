-- ===== src/Syscall/Examples.antt =====
-- A kernel with one process, and the theorems about system calls at it.
use strange_os.Prelude.{ℕ, ◌≡◌, refl, none, some, [], ◌∷◌, arith}
use strange_os.Process.{Registers, State, process_alloc, window_size}
use strange_os.Process.Stack.{IsStack, process_alloc-IsStack}
use strange_os.File.{kopen, open_node, open_at, free_fd, parse_mode, fs_open, open_with, put_fd}
use strange_os.Syscall.{World, Kernel, ksysint}
use strange_os.Syscall.Calls.{Loads, exec_exit}

abbrev call : ℕ → Registers
call n = record {
  ds = 0;
  edi = 0;
  esi = 0;
  ebp = 0;
  esp = 0;
  ebx = 7;
  edx = 0;
  ecx = 0;
  eax = n;
  int_no = 64;
  err_code = 0;
  eip = 0;
  cs = 8;
  eflags = 0;
  useresp = 0;
  ss = 0;
}

abbrev off : State
off = record {
  cur = 0;
  procs = λ _. record { id = 0; mem = 0; sz = 0; p = 0; n = 0; r = call 0; ent = 0 };
}

-- Every path leads to node 5 and to a program whose process is put at 200.
abbrev world : World ℕ
world = record {
  text = λ a s. b'/' ∷ [];
  find = λ p s. (some 5, s);
  readdir = λ n i s. (none, s);
  on_console = λ f s. s;
  program = λ p t s. (some 0x80_0000, 200, t, s);
}

abbrev kernel : Kernel ℕ
kernel = record {
  procs = process_alloc 100 window_size off;
  paging = record { p_dir = λ _. 0; p_tab = λ _. 0 };
  fds = λ _. none;
  nodes = λ _. record { mask = 1; fs = none };
  drivers = record { drivers = []; n_drivers = 0 };
  state = 0;
}

abbrev running : Kernel ℕ
running = (ksysint world kernel (call 5)).0

loads : Loads world kernel (call 5) 0 0x80_0000 200
unfolding kopen open_node open_at free_fd parse_mode fs_open open_with
loads = record {
  fds = put_fd (λ _. none) 0 (some (record { n = 5; m = 1; idx = 0; d = 0 }));
  state = 0;
  opens = refl;
  fds' = put_fd (λ _. none) 0 (some (record { n = 5; m = 1; idx = 0; d = 0 }));
  state' = 0;
  program = refl;
}

exec_exit_example :
    ((ksysint world running (call 6)).1 ≡ record (call 5) { eax = 7 })
    × IsStack (ksysint world running (call 6)).0.procs (100 ∷ [])
exec_exit_example =
    exec_exit world kernel running (call 5) (call 6) 0 0x80_0000 200 100 []
      (process_alloc-IsStack off [] 100 refl (omega arith) refl) loads (omega arith) refl refl refl
      refl refl
