-- ===== src/Kernel.antt =====
-- src/kernel/kernel.c and panic.c: the start of the kernel, over the models of its parts.
-- What the start makes of the processor and the ports (the interrupt controllers, the display's
-- registers, flush_tss) is in the models of the parts or left out, and so are
-- the messages of ata_init; it ends with the jump into the first process.
use Prim.Native.String.{String}
use Prim.Native.Char.{code}
use strange_os.Prelude.{ℕ, false, Option, none, some, List, [], ◌∷◌, ◌==◌, if◌then◌else◌}
use strange_os.Prelude.Int.{ℤ, is_neg}
use strange_os.Heap.{Mem, heap_init}
use strange_os.Idt.{Idt, Handlers, Stubs, isr_install}
use strange_os.Vga.{vga_init, vga_update}
use strange_os.Console.{Console, kprint, kprinthex, kprintnl, ktextinit}
use strange_os.Page.{Paging, paging_enable}
use strange_os.Disk.Ata.{Ata, Event, ata_init, ata_get_dev}
use strange_os.Dev.{Outcome, done, panicked, DevPart, dev_init_root}
use strange_os.File.{Fds}
use strange_os.File.Streams.{Terminal, kfdinit}
use strange_os.Vfs.{Callbacks, Found, node_at, no_node, walk_fault, fs_init, fs_finddir_path}
use strange_os.Fat.Mount.{MountState, fat_check_sig}
use strange_os.Process.{State, window_size, process_alloc, process_map, store}
use strange_os.Loader.{abin_load_file}
use strange_os.Driver.{Drivers, Control, driver_init}

-- The bytes of a text.
abbrev pub codes : String → List ℕ
codes String.[] = []
codes (String.◌∷◌ c s) = code c ∷ codes s

abbrev pub Bytes : Type 0
Bytes = ℕ → ℕ

-- `E_NOFS`
abbrev pub e_nofs : ℕ
e_nofs = 4

-- The state of the parts. `S` is the state that the drivers act on.
pub record Machine (S : Type 0) : Type 0 where
  pub idt : Idt
  pub handlers : Handlers
  pub heap : Mem
  pub con : Console
  pub paging : Paging
  pub ata : Ata
  pub fds : Fds
  pub mount : MountState
  pub procs : State
  pub mem : Bytes
  pub drivers : Drivers S

-- What the start is given: the addresses of the stubs, the status bytes of the disk and the fuel for
-- them, the boot sector of each device, the rounds for the root directory and for links, the
-- numbers that new nodes and structs get, what lies in new memory, and what kopen and kread give for
-- /bin/init.
pub record Inputs (S : Type 0) : Type 0 where
  pub stubs : Stubs
  pub frame : Bytes
  pub r03 : ℕ
  pub r11 : ℕ
  pub text : Bytes
  pub fuel : ℕ
  pub status : ℕ → ℕ
  pub boot : ℕ → List ℕ
  pub ops : Callbacks
  pub links : ℕ
  pub rounds : ℕ
  pub fat : ℕ
  pub old : Bytes
  pub fresh : ℕ
  pub opened : ℤ
  pub len : ℕ
  pub file : Bytes
  pub junk : Bytes
  pub kbctl : Control S
  pub vga_driverctl : Control S

-- How the start ends: in the first process, in a halt with the code of a panic, or never, while the
-- disk stays busy or a walk does not end.
pub data Start (S : Type 0) : Type 0 where
  jumps : Machine S → Start S
  halts : ℕ → Machine S → Start S
  hangs : Machine S → Start S

-- `kpanic`: what is on the console when it halts.
pub kpanic : ℕ → List ℕ → Console → Console
kpanic e s c =
    kprint s (kprint (codes ": ") (kprinthex e (kprint (codes "[kernel panic] code ") c)))

module _ {S : Type 0} where
  abbrev pub say : String → Machine S → Machine S
  say s k = record k { con = kprint (codes s) k.con }

  -- The steps up to paging.
  pub start_display : Inputs S → Machine S → Machine S
  start_display x k =
      let (idt, handlers, _) = isr_install x.stubs k.idt k.handlers in
      let (vga, _) = vga_init 320 200 256 x.frame x.r03 x.r11 k.con.vga in
      record k {
        idt = idt;
        handlers = handlers;
        heap = heap_init k.heap;
        con = ktextinit false x.text (record k.con { vga = vga_update vga });
      }

  pub start_paging : Machine S → Machine S
  start_paging k =
      let k' = say "[kernel] initializing paging...\n" k in
      record k' { paging = paging_enable k'.paging }

  -- What follows abin_load_file, in the process that was allocated: the drivers, and the jump.
  pub init_loaded : Inputs S → State → ℤ × Bytes × Option ℕ → Machine S → Start S
  init_loaded x procs (res, mem, none) k =
      if is_neg res
      then halts e_nofs
          (record k { procs = procs; con = kpanic e_nofs (codes "failed to load init\n") k.con })
      else hangs k
  init_loaded x procs (res, mem, some e) k =
      let entered : State = record procs {
        procs = store procs.procs procs.cur (record (procs.procs procs.cur) { ent = e });
      } in
      let k' = say "[kernel] sucessfully loaded init\n" (record k { procs = entered; mem = mem }) in
      jumps (record k' {
        drivers = driver_init x.kbctl x.vga_driverctl k'.drivers;
        paging = process_map entered k'.paging;
      })

  -- The first process.
  pub start_init : Inputs S → Machine S → Start S
  unfolding init_loaded
  start_init x k =
      init_loaded x (process_alloc x.fresh window_size k.procs)
        (abin_load_file x.opened x.len x.file x.junk k.mem) k

  -- The search for the kernel's own file only prints.
  pub search_done : Inputs S → Found → Machine S → Start S
  unfolding start_init
  search_done x walk_fault k = hangs k
  search_done x no_node k = start_init x k
  search_done x (node_at _) k = start_init x (say "[kernel] found kernel\n" k)

  pub start_search : Inputs S → ℕ → Machine S → Start S
  unfolding search_done
  start_search x root k =
      let r = fs_finddir_path x.ops x.links root (codes "boot/strange\0") k.mount.vfs in
      search_done x r.0 (record k { mount = record k.mount { vfs = r.1 } })

  -- The file system of the root device.
  pub mount_done : Inputs S → ℕ → Option MountState → Machine S → Start S
  unfolding start_search
  mount_done x root none k = hangs k
  mount_done x root (some m) k =
      let k' : Machine S = record k { mount = m } in
      start_search x root (if m.fatfs == 0 then k' else say "[kernel] root filesystem is fat\n" k')

  pub start_mount : Inputs S → ℕ → ℕ → Machine S → Start S
  unfolding mount_done
  start_mount x root dev k =
      mount_done x root (fat_check_sig x.rounds root x.fat dev x.old k.mount)
        (say "[kernel] searching for filesystems...\n" k)

  -- The root device.
  pub root_done : Inputs S → ℕ → Outcome DevPart → Machine S → Start S
  unfolding start_mount
  root_done x root (panicked code) k = halts code k
  root_done x root (done rp) k =
      let k' = say "[kernel] root device is " k in
      start_mount x root rp.dev (record k' { con = kprintnl (kprinthex rp.dev k'.con) })

  pub start_root : Inputs S → ℕ → Machine S → Start S
  unfolding root_done
  start_root x root k =
      root_done x root (dev_init_root (ata_get_dev k.ata) x.boot)
        (say "[kernel] searching for root device...\n" k)

  -- The console with the memory, before any key.
  abbrev pub terminal_of : Machine S → Terminal
  terminal_of k = record { con = k.con; mem = k.mem; keys = []; waits = false }

  -- The nodes and the files.
  pub disk_done : Inputs S → Option (Ata × List Event) → Machine S → Start S
  unfolding start_root
  disk_done x none k = hangs k
  disk_done x (some (ata, ports)) k =
      let k' : Machine S = say "[kernel] mounting vfs...\n" (record k { ata = ata }) in
      let (root, vfs) = fs_init k'.mount.vfs in
      start_root x root (
        say "[kernel] initializing file io...\n"
          (record k' { mount = record k'.mount { vfs = vfs }; fds = kfdinit (terminal_of k') }))

  -- `kmain`
  pub kmain : Inputs S → Machine S → Start S
  unfolding start_display start_paging disk_done
  kmain x k =
      disk_done x (ata_init x.fuel x.status k.ata)
        (say "[kernel] initializing ata port...\n" (start_paging (start_display x k)))
