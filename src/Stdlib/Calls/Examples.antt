-- ===== src/Stdlib/Calls/Examples.antt =====
-- A kernel with the standard streams, and the theorems about calls at it.
use strange_os.Prelude.{
  ◌≡◌, refl, none, some, [], ◌∷◌, ◌%◌, ◌^◌, ◌+◌, false, ◌==◌, if◌then◌else◌, arith,
}
use strange_os.Prelude.Int.{pos, negsuc}
use strange_os.Process.{Registers}
use strange_os.File.{fs_open, open_with, kopen, kread, kwrite, kclose, put_fd}
use strange_os.File.Streams.{Terminal, stream_nodes, kfdinit, stream, mode_w, bytes_at}
use strange_os.Console.{kprint, kflush}
use strange_os.Syscall.{World, Kernel}
use strange_os.Stdlib.Calls.{std_open, std_read, std_write, std_close}
use strange_os.Stdlib.Calls.Through.{starch_lem, std_write_lem}

abbrev registers : Registers
registers = record {
  ds = 0;
  edi = 0;
  esi = 0;
  ebp = 0;
  esp = 0;
  ebx = 0;
  edx = 0;
  ecx = 0;
  eax = 0;
  int_no = 0x40;
  err_code = 0;
  eip = 0;
  cs = 8;
  eflags = 0;
  useresp = 0;
  ss = 0;
}

abbrev terminal : Terminal
terminal = record {
  con = record {
    textbuf = λ _. 0;
    idx = 0;
    vga = record {
      width = 320;
      height = 200;
      bpp = 8;
      addr = λ _. 0;
      font_color = 15;
      drvidx = 0;
      intern = λ _. 0;
    };
  };
  mem = λ x. x % 2 ^ 8;
  keys = [];
  waits = false;
}

-- The path "/a", with mode "r", leads to node 0.
abbrev world : World Terminal
world = record {
  text = λ a s. if a == 1 then b'/' ∷ b'a' ∷ [] else b'r' ∷ [];
  find = λ p s. (some 0, s);
  readdir = λ n i s. (none, s);
  on_console = λ f s. record s { con = f s.con };
  program = λ p t s. (none, 200, t, s);
}

abbrev kernel : Kernel Terminal
kernel = record {
  procs = record {
    cur = 0;
    procs = λ _. record { id = 0; mem = 0; sz = 0; p = 0; n = 0; r = registers; ent = 0 };
  };
  paging = record { p_dir = λ _. 0; p_tab = λ _. 0 };
  fds = kfdinit terminal;
  nodes = stream_nodes;
  drivers = record { drivers = []; n_drivers = 0 };
  state = terminal;
}

std_write_lem_example :
    ((std_write world (pos 1) 0x41 3 kernel registers).0 ≡ pos 3)
    × ((std_write world (pos 1) 0x41 3 kernel registers).1 ≡ record kernel {
      fds = put_fd kernel.fds 1 (some (stream 1 mode_w ((0 + 3) % 2 ^ 32)));
      state = record terminal { con = kflush (kprint (bytes_at 3 0x41 terminal.mem) terminal.con) };
    })
unfolding kfdinit fs_open open_with
std_write_lem_example = std_write_lem world 0 0x41 3 kernel registers refl refl (omega arith)

starch_lem_example :
    let opened =
      kopen world.find (b'/' ∷ b'a' ∷ []) (b'r' ∷ []) kernel.nodes kernel.fds kernel.state in
    let reads = kread (negsuc 0) 0x41 3 kernel.nodes kernel.fds kernel.state in
    let writes = kwrite (negsuc 0) 0x41 3 kernel.nodes kernel.fds kernel.state in
    let closes = kclose (negsuc 0) kernel.nodes kernel.fds kernel.state in
    ((std_open world 1 2 kernel registers).0 ≡ opened.0)
    × ((std_open world 1 2 kernel registers).1 ≡ record kernel { fds = opened.1; state = opened.2 })
    × ((std_read world (negsuc 0) 0x41 3 kernel registers).0 ≡ reads.0)
    × ((std_read world (negsuc 0) 0x41 3 kernel registers).1
        ≡ record kernel { fds = reads.1; state = reads.2 })
    × ((std_write world (negsuc 0) 0x41 3 kernel registers).0 ≡ writes.0)
    × ((std_write world (negsuc 0) 0x41 3 kernel registers).1
        ≡ record kernel { fds = writes.1; state = writes.2 })
    × ((std_close world (negsuc 0) kernel registers).0
        ≡ record kernel { fds = closes.0; state = closes.1 })
starch_lem_example = starch_lem world (negsuc 0) 1 2 0x41 3 kernel registers (omega arith)
