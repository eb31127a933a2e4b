-- ===== src/File/Streams.antt =====
-- The standard streams of src/kernel/fileio.c, over the console.
use strange_os.Prelude.{
  ◌&&◌, get_or, length, ℕ, zero, suc, ◌+◌, ◌-◌, ◌%◌, ◌^◌, ◌<◌, ◌≡◌, refl, Bool, true, none, some,
  List, [], ◌∷◌, arith, ltb, leb, ◌==◌, if◌then◌else◌,
}
use strange_os.Prelude.Int.{pos}
use strange_os.Console.{Console, kprintc, kprint, kflush, kgets}
use strange_os.File.{
  FsFile, FsInfo, Node, Fds, put_fd, fs_open, open_with, transfer, fs_write, file_of, transfer_fd,
  kwrite,
}

-- The console, the memory of the caller, the keys to come, and whether the machine waits for a key
-- that does not come.
pub record Terminal : Type 0 where
  pub con : Console
  pub mem : ℕ → ℕ
  pub keys : List ℕ
  pub waits : Bool

abbrev pub mode_r : ℕ
mode_r = 0x01

abbrev pub mode_w : ℕ
mode_w = 0x02

-- `FS_CDEV`
abbrev pub fs_cdev : ℕ
fs_cdev = 0x03

-- `for (i = 0; i < c; i++) kprintc(buf[i])`
unfoldable pub print_bytes : ℕ → ℕ → (ℕ → ℕ) → Console → Console
print_bytes zero at mem con = con
print_bytes (suc rounds) at mem con = print_bytes rounds (at + 1) mem (kprintc (mem at) con)

-- `_stdio_write`
unfoldable pub stdio_write : FsFile → ℕ → ℕ → Terminal → ℕ × Terminal
stdio_write f c buf t =
    if f.m == mode_w then (c, record t { con = kflush (print_bytes c buf t.mem t.con) }) else (0, t)

-- What kgets has put into the buffer at `buf`.
abbrev pub put_line : ℕ → (ℕ → ℕ) → (ℕ → ℕ) → ℕ → ℕ
put_line buf line mem x = if leb buf x then line (x - buf) else mem x

-- `_stdio_read`
pub stdio_read : FsFile → ℕ → ℕ → Terminal → ℕ × Terminal
stdio_read f c buf t =
    if f.m == mode_r
    then (elim (kgets c t.keys (λ k. t.mem (buf + k)) t.con) [
      | none ↦ (c, record t { waits = true })
      | some (line, n, con, left) ↦
          (c, record t { con = con; mem = put_line buf line t.mem; keys = left })
    ])
    else (0, t)

-- `stdio`
abbrev pub stdio : FsInfo Terminal
stdio = record { r = some stdio_read; w = some stdio_write; o = none; c = none }

-- `stdin_n`, `stdout_n` and `stderr_n`: the copies get the operations of the node that they are
-- allocated from, and for the last that is none.
abbrev pub stream_nodes : ℕ → Node Terminal
stream_nodes zero = record { mask = fs_cdev; fs = some stdio }
stream_nodes (suc zero) = record { mask = fs_cdev; fs = some stdio }
stream_nodes (suc (suc n)) = record { mask = fs_cdev; fs = none }

-- `kfdinit`: the three files, and no other descriptor.
unfoldable pub kfdinit : Terminal → Fds
unfolding fs_open
kfdinit t =
    put_fd
      (put_fd (put_fd (λ _. none) 0 (some (fs_open (stream_nodes 0) 0 mode_r t).0)) 1
        (some (fs_open (stream_nodes 1) 1 mode_w t).0))
      2 (some (fs_open (stream_nodes 2) 2 mode_w t).0)

-- The bytes of the memory from `at` on.
abbrev pub bytes_at : ℕ → ℕ → (ℕ → ℕ) → List ℕ
bytes_at zero at mem = []
bytes_at (suc n) at mem = mem at ∷ bytes_at n (at + 1) mem

-- The memory with the bytes at an address.
unfoldable pub put_at : ℕ → List ℕ → (ℕ → ℕ) → (ℕ → ℕ)
put_at at s mem x = if leb at x && ltb (x - at) (length s) then get_or s (x - at) 0 else mem x

print_bytes_lem :
    (n at : ℕ) (mem : ℕ → ℕ) (con : Console)
    → print_bytes n at mem con ≡ kprint (bytes_at n at mem) con
unfolding print_bytes kprint
print_bytes_lem zero at mem con = refl
print_bytes_lem (suc n) at mem con = print_bytes_lem n (at + 1) mem (kprintc (mem at) con)

-- A file of the streams that stands at `idx`.
abbrev pub stream : ℕ → ℕ → ℕ → FsFile
stream n m idx = record { n = n; m = m; idx = idx; d = 0 }

-- A write to the standard output, wherever that stands.
pub output_lem :
    (idx buf c : ℕ) (nodes : ℕ → Node Terminal) (fds : Fds) (t : Terminal)
    → nodes 1 ≡ stream_nodes 1
    → fds 1 ≡ some (stream 1 mode_w idx)
    → c < 2 ^ 31
    → kwrite (pos 1) buf c nodes fds t ≡ (
      pos c,
      put_fd fds 1 (some (stream 1 mode_w ((idx + c) % 2 ^ 32))),
      record t { con = kflush (kprint (bytes_at c buf t.mem) t.con) },
    )
unfolding kwrite fs_write transfer transfer_fd file_of stdio_write
output_lem idx buf c nodes fds t node out lt =
    let small : ltb c (2 ^ 31) ≡ true = ground arith in
    rw (out, node, small, print_bytes_lem c buf t.mem t.con) refl

-- Once kfdinit has run: a write of c < 2 ^ 31 bytes to the standard output prints and shows them,
-- moves the file on by c and gives c; a write to the standard input or to the standard error
-- prints nothing and gives 0.
pub kfdinit_lem :
    (buf c : ℕ) (t : Terminal)
    → c < 2 ^ 31
    → (kwrite (pos 1) buf c stream_nodes (kfdinit t) t ≡ (
      pos c,
      put_fd (kfdinit t) 1 (some (stream 1 mode_w c)),
      record t { con = kflush (kprint (bytes_at c buf t.mem) t.con) },
    ))
      × ((kwrite (pos 0) buf c stream_nodes (kfdinit t) t).0 ≡ pos 0)
      × ((kwrite (pos 0) buf c stream_nodes (kfdinit t) t).2 ≡ t)
      × ((kwrite (pos 2) buf c stream_nodes (kfdinit t) t).0 ≡ pos 0)
      × ((kwrite (pos 2) buf c stream_nodes (kfdinit t) t).2 ≡ t)
unfolding kfdinit kwrite fs_write transfer transfer_fd file_of stdio_write fs_open open_with
kfdinit_lem buf c t lt =
    let small : ltb c (2 ^ 31) ≡ true = ground arith in
    let moved : (0 + c) % 2 ^ 32 ≡ c = omega arith in
    (rw (small, moved, print_bytes_lem c buf t.mem t.con) refl, refl, refl, refl, refl)
