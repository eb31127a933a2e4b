-- ===== src/User/Machine.antt =====
-- The calls of a program on the kernel: src/stdlib/starch.c, over the system calls, with the buffers of
-- the program in its memory.
pub mod Texts
pub mod Laws
mod Examples
use strange_os.Prelude.{
  ℕ, zero, suc, ◌+◌, ◌-◌, Bool, true, false, ◌&&◌, Option, none, some, List, [], ◌∷◌, ◌++◌, ltb,
  leb, ◌==◌, if◌then◌else◌, get_or, length,
}
use strange_os.Prelude.Int.{ℤ, pos, negsuc, to_int, to_u32}
use strange_os.Str.{up_to_end}
use strange_os.Process.{Registers}
use strange_os.File.Streams.{Terminal, bytes_at, put_at}
use strange_os.Syscall.{World, Kernel}
use strange_os.Stdlib.Calls.{std_open, std_read, std_write, std_close, std_exec, std_readdir}
use strange_os.User.{Calls}

-- The kernel, and the registers that the program has.
pub record Program : Type 0 where
  pub kernel : Kernel Terminal
  pub registers : Registers

-- Where the buffer of the program and its second text lie.
abbrev pub area : ℕ
area = 0x81_0000

abbrev pub second_area : ℕ
second_area = 0x82_0000

abbrev pub with_bytes : ℕ → List ℕ → Kernel Terminal → Kernel Terminal
with_bytes at s k = record k { state = record (k.state) { mem = put_at at s k.state.mem } }

abbrev pub count_of : ℤ → ℕ
count_of (pos n) = n
count_of (negsuc n) = 0

abbrev pub to_program : {A : Type 0} → A × Kernel Terminal × Registers → A × Program
to_program (a, k, r) = (a, record { kernel = k; registers = r })

-- `s` is a text without its terminator.
abbrev pub c_text : List ℕ → List ℕ
c_text s = s ++ (0 ∷ [])

-- A name that readdir gives: the text at its address, of at most 128 bytes.
abbrev pub name_at : ℕ → Terminal → Option (List ℕ)
name_at a t = if a == 0 then none else some (up_to_end (bytes_at 128 a t.mem))

abbrev pub program_calls : World Terminal → Calls Program
program_calls w = record {
  open_ = λ p m st. to_program (
      std_open w area second_area
        (with_bytes second_area (c_text m) (with_bytes area (c_text p) st.kernel)) st.registers);
  read_ = λ fd n st.
      let (c, k, r) = std_read w fd area n st.kernel st.registers in
      ((bytes_at (count_of c) area k.state.mem, c), record { kernel = k; registers = r });
  write_ = λ fd buf n st.
      (to_program (std_write w fd area (to_u32 n) (with_bytes area buf st.kernel) st.registers)).1;
  close_ = λ fd st.
      let (k, r) = std_close w fd st.kernel st.registers in record { kernel = k; registers = r };
  exec_ = λ p a st.
      let (k, r) =
        std_exec w area second_area 0
          (with_bytes second_area (c_text a) (with_bytes area (c_text p) st.kernel)) st.registers in
      (to_int r.eax, record { kernel = k; registers = r });
  readdir_ = λ fd i st.
      let (a, k, r) = std_readdir w fd i st.kernel st.registers in
      (name_at a k.state, record { kernel = k; registers = r });
}
