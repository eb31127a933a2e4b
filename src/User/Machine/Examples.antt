-- ===== src/User/Machine/Examples.antt =====
-- The kernel with the standard streams and a file of 600 bytes that is open, and the programs on it.
use strange_os.Prelude.{
  ℕ, ◌%◌, ◌^◌, ◌≡◌, refl, false, none, some, List, [], ◌∷◌, ◌==◌, if◌then◌else◌, arith, replicate,
  length-replicate, ap, length,
}
use strange_os.Prelude.Int.{pos}
use strange_os.Console.View.{print}
use strange_os.Process.{Registers}
use strange_os.File.{fs_open, open_with, kopen, open_node, open_at, free_fd, parse_mode}
use strange_os.File.Streams.{Terminal, stream_nodes, kfdinit}
use strange_os.File.Reads.{file_node}
use strange_os.Syscall.{World, Kernel, ksysint, sys_open}
use strange_os.Stdlib.Calls.{syscall3, std_open}
use strange_os.User.{cat, mode_text}
use strange_os.User.Cat.{cat_lem}
use strange_os.User.Hexd.{hexd}
use strange_os.User.Hexd.Rows.{dump}
use strange_os.User.Hexd.Dump.{hexd_lem}
use strange_os.User.Machine.{Program, program_calls}
use strange_os.User.Machine.Laws.{IsRunning, left, shows, program_calls-IsSystem}

abbrev content : List ℕ
content = replicate 600 7

abbrev registers : Registers
registers = record {
  ds = 0;
  edi = 0;
  esi = 0;
  ebp = 0;
  esp = 0;
  ebx = 0;
  edx = 0;
  ecx = 0;
  eax = 0;
  int_no = 0x40;
  err_code = 0;
  eip = 0;
  cs = 8;
  eflags = 0;
  useresp = 0;
  ss = 0;
}

abbrev terminal : Terminal
terminal = record {
  con = record {
    textbuf = λ _. 0;
    idx = 0;
    vga = record {
      width = 320;
      height = 200;
      bpp = 8;
      addr = λ _. 0;
      font_color = 15;
      drvidx = 0;
      intern = λ _. 0;
    };
  };
  mem = λ x. x % 2 ^ 8;
  keys = [];
  waits = false;
}

-- The path "/a", with mode "r", leads to node 3.
abbrev world : World Terminal
world = record {
  text = λ a s. if a == 0x81_0000 then b'/' ∷ b'a' ∷ [] else b'r' ∷ [];
  find = λ p s. (some 3, s);
  readdir = λ n i s. (none, s);
  on_console = λ f s. record s { con = f s.con };
  program = λ p t s. (none, 200, t, s);
}

abbrev kernel : Kernel Terminal
kernel = record {
  procs = record {
    cur = 0;
    procs = λ _. record { id = 0; mem = 0; sz = 0; p = 0; n = 0; r = registers; ent = 0 };
  };
  paging = record { p_dir = λ _. 0; p_tab = λ _. 0 };
  fds = kfdinit terminal;
  nodes = λ x. if x == 3 then file_node content else stream_nodes x;
  drivers = record { drivers = []; n_drivers = 0 };
  state = terminal;
}

abbrev before : Program
before = record { kernel = kernel; registers = registers }

-- The program once it has opened the file.
abbrev opened : Program
opened = ((program_calls world).open_ (b'/' ∷ b'a' ∷ []) mode_text before).1

opens : (program_calls world).open_ (b'/' ∷ b'a' ∷ []) mode_text before ≡ (pos 3, opened)
unfolding std_open syscall3 ksysint sys_open kopen open_node open_at free_fd parse_mode fs_open
    open_with kfdinit
opens = refl

opened-IsRunning : IsRunning 3 content opened
unfolding std_open syscall3 ksysint sys_open kopen open_node open_at free_fd parse_mode fs_open
    open_with kfdinit
opened-IsRunning = record {
  output = refl;
  place = 0;
  shown = refl;
  file = record { n = 3; m = 1; idx = 0; d = 0 };
  opened = refl;
  node = refl;
  within = omega arith;
}

whole : left 3 content opened ≡ content
unfolding std_open syscall3 ksysint sys_open kopen open_node open_at free_fd parse_mode fs_open
    open_with kfdinit
whole = refl

cat_lem_example :
    (st : Program) × (cat (program_calls world) 2 (b'/' ∷ b'a' ∷ []) [] before
      ≡ some (pos 0, (program_calls world).close_ (pos 3) st))
    × IsRunning 3 content st
    × (shows st ≡ print (shows opened) (left 3 content opened))
cat_lem_example =
    cat_lem (program_calls world) (pos 3) (IsRunning 3 content) (left 3 content) shows print
      (program_calls-IsSystem world 3 content (omega arith) (omega arith)
        (omega (arith, length-replicate {A = ℕ} 600 7)))
      2 (b'/' ∷ b'a' ∷ []) [] before opened refl opens opened-IsRunning
      (omega (arith, ap length whole, length-replicate {A = ℕ} 600 7))

hexd_lem_example :
    (st : Program) × (hexd (program_calls world) 2 (b'/' ∷ b'a' ∷ []) [] before
      ≡ some (pos 0, (program_calls world).close_ (pos 3) st))
    × IsRunning 3 content st
    × (shows st ≡ print (shows opened) (dump 128 0 (left 3 content opened)))
hexd_lem_example =
    hexd_lem (program_calls world) (pos 3) (IsRunning 3 content) (left 3 content) shows print
      (program_calls-IsSystem world 3 content (omega arith) (omega arith)
        (omega (arith, length-replicate {A = ℕ} 600 7)))
      2 (b'/' ∷ b'a' ∷ []) [] before opened refl opens opened-IsRunning
      (omega (arith, ap length whole, length-replicate {A = ℕ} 600 7))
