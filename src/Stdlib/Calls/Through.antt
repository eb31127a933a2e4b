-- ===== src/Stdlib/Calls/Through.antt =====
-- A call of a program comes out at the function of the kernel that it is for.
use strange_os.Prelude.{
  ℕ, ◌+◌, ◌-◌, ◌%◌, ◌^◌, ◌<◌, ◌≡◌, refl, ap, ◌∙◌, some, arith, ltb, true, false, inl, inr,
}
use strange_os.Prelude.Int.{ℤ, pos, negsuc, to_int, to_u32}
use strange_os.Process.{Registers}
use strange_os.File.{kopen, kread, kwrite, kclose, put_fd}
use strange_os.File.Streams.{Terminal, stream_nodes, stream, mode_w, bytes_at, output_lem}
use strange_os.Console.{kprint, kflush}
use strange_os.File.Results.{IsInt, IsDescriptor, kopen-IsDescriptor, kread-IsInt, kwrite-IsInt}
use strange_os.Syscall.{World, Kernel, ksysint, sys_open, sys_read, sys_write, sys_close}
use strange_os.Stdlib.Calls.{std_open, std_read, std_write, std_close}

to_int-to_u32 : (z : ℤ) → IsInt z → to_int (to_u32 z) ≡ z
to_int-to_u32 (pos n) h =
    let same : n % 2 ^ 32 ≡ n = omega arith in
    let low : ltb n (2 ^ 31) ≡ true = ground arith in rw (same, low) refl
to_int-to_u32 (negsuc n) h =
    let same : n % 2 ^ 32 ≡ n = omega arith in
    let high : ltb (2 ^ 32 - 1 - n) (2 ^ 31) ≡ false = ground arith in
    let back : 2 ^ 32 - 1 - (2 ^ 32 - 1 - n) ≡ n = omega arith in rw (same, high, back) refl

IsDescriptor-IsInt : (z : ℤ) → IsDescriptor z → IsInt z
IsDescriptor-IsInt z (inl failed) = rw failed (omega arith)
IsDescriptor-IsInt z (inr (fd, is, low)) = rw is (omega (arith, low))

module _ {S : Type 0} (w : World S) where
  -- A program's open, read, write and close, through the registers and the interrupt of the system
  -- calls, do to the files what kopen, kread, kwrite and kclose do, for every descriptor that is
  -- an int, negative ones included, and change nothing else of the kernel: the results are those
  -- of kopen, kread and kwrite.
  pub starch_lem :
      (fd : ℤ) (p m buf n : ℕ) (k : Kernel S) (r : Registers)
      → IsInt fd
      → let opened = kopen w.find (w.text p k.state) (w.text m k.state) k.nodes k.fds k.state in
        let reads = kread fd buf n k.nodes k.fds k.state in
        let writes = kwrite fd buf n k.nodes k.fds k.state in
        let closes = kclose fd k.nodes k.fds k.state in
        ((std_open w p m k r).0 ≡ opened.0)
        × ((std_open w p m k r).1 ≡ record k { fds = opened.1; state = opened.2 })
        × ((std_read w fd buf n k r).0 ≡ reads.0)
        × ((std_read w fd buf n k r).1 ≡ record k { fds = reads.1; state = reads.2 })
        × ((std_write w fd buf n k r).0 ≡ writes.0)
        × ((std_write w fd buf n k r).1 ≡ record k { fds = writes.1; state = writes.2 })
        × ((std_close w fd k r).0 ≡ record k { fds = closes.0; state = closes.1 })
  unfolding std_open std_read std_write std_close ksysint sys_open sys_read sys_write sys_close
  starch_lem fd p m buf n k r h =
      let opened = kopen w.find (w.text p k.state) (w.text m k.state) k.nodes k.fds k.state in
      let same = to_int-to_u32 fd h in
      (
        to_int-to_u32 opened.0 (
            IsDescriptor-IsInt opened.0 (
              kopen-IsDescriptor w.find (w.text p k.state) (w.text m k.state) k.nodes k.fds
                k.state)),
        refl,
        rw same (
            to_int-to_u32 (kread fd buf n k.nodes k.fds k.state).0
              (kread-IsInt fd buf n k.nodes k.fds k.state)),
        rw same refl,
        rw same (
            to_int-to_u32 (kwrite fd buf n k.nodes k.fds k.state).0
              (kwrite-IsInt fd buf n k.nodes k.fds k.state)),
        rw same refl,
        rw same refl,
      )

module _ (w : World Terminal) where
  -- Where node 1 is that of the standard output and descriptor 1 is its file: a program's write of
  -- c < 2 ^ 31 bytes prints the bytes at buf on the console and shows them, moves the file on by
  -- c, changes nothing else of the kernel and gives c.
  pub std_write_lem :
      (idx buf c : ℕ) (k : Kernel Terminal) (r : Registers)
      → k.nodes 1 ≡ stream_nodes 1
      → k.fds 1 ≡ some (stream 1 mode_w idx)
      → c < 2 ^ 31
      → ((std_write w (pos 1) buf c k r).0 ≡ pos c)
        × ((std_write w (pos 1) buf c k r).1 ≡ record k {
          fds = put_fd k.fds 1 (some (stream 1 mode_w ((idx + c) % 2 ^ 32)));
          state = record k.state { con = kflush (kprint (bytes_at c buf k.state.mem) k.state.con) };
        })
  std_write_lem idx buf c k r nodes out lt =
      let all = starch_lem w (pos 1) 0 0 buf c k r (omega arith) in
      let is : kwrite (pos 1) buf c k.nodes k.fds k.state ≡ (
        pos c,
        put_fd k.fds 1 (some (stream 1 mode_w ((idx + c) % 2 ^ 32))),
        record k.state { con = kflush (kprint (bytes_at c buf k.state.mem) k.state.con) },
      ) =
        output_lem idx buf c k.nodes k.fds k.state nodes out lt in
      (all.4 ∙ ap (λ o. o.0) is, all.5 ∙ ap (λ o. record k { fds = o.1; state = o.2 }) is)
