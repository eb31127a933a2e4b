-- ===== src/Syscall/Calls.antt =====
-- What a process finds when the program that it started has ended.
use strange_os.Prelude.{ℕ, ◌≡◌, ◌≢◌, refl, ap, sym, ◌∙◌, false, some, List, [], ◌∷◌}
use mathlib.Core.Path.{subst}
use strange_os.Prelude.Int.{pos}
use strange_os.Process.{Registers, null, process_load, process_pop}
use strange_os.Process.Stack.{IsStack, has}
use strange_os.Process.Calls.{load_pop}
use strange_os.File.{Fds, kopen}
use strange_os.Syscall.{World, Kernel, ksysint, sys_exec, sys_exit}

module _ {S : Type 0} where
  ksysint-exec :
      (w : World S) (k : Kernel S) (r : Registers) → r.eax ≡ 5 → ksysint w k r ≡ sys_exec w k r
  unfolding ksysint
  ksysint-exec w k r h = rw h refl

  ksysint-exit :
      (w : World S) (k : Kernel S) (r : Registers) → r.eax ≡ 6 → ksysint w k r ≡ sys_exit k r
  unfolding ksysint
  ksysint-exit w k r h = rw h refl

  -- exec of the path in ebx opens and loads a program with the entry point e, into the struct fresh.
  pub record Loads (w : World S) (k : Kernel S) (r : Registers) (fd e fresh : ℕ) : Type 0 where
    pub fds : Fds
    pub state : S
    pub opens :
        kopen w.find (w.text r.ebx k.state) (b'r' ∷ []) k.nodes k.fds k.state ≡ (pos fd, fds, state)
    pub fds' : Fds
    pub state' : S
    pub program : w.program (w.text r.ebx k.state) fds state ≡ (some e, fresh, fds', state')

  exec-Loads :
      (w : World S) (k : Kernel S) (r : Registers) (fd e fresh : ℕ)
      → Loads w k r fd e fresh
      → let loaded = process_load (pos fd) (some e) fresh r k.procs k.paging in
        ((sys_exec w k r).0.procs ≡ loaded.1) × ((sys_exec w k r).0.paging ≡ loaded.2)
  unfolding sys_exec
  exec-Loads w k r fd e fresh h =
      (rw (sys_exec, h.opens, h.program) refl, rw (sys_exec, h.opens, h.program) refl)

  -- A process that calls exec for a path that kopen opens and abin_load_file loads, with a fresh
  -- struct, gets back the registers of that call with the exit status of the program in eax when
  -- the program calls exit, and the stack of processes is as it was; whatever else the kernel did
  -- in between, if it left the processes and the tables.
  pub exec_exit :
      (w : World S) (k k' : Kernel S) (r r' : Registers) (fd e fresh b : ℕ) (ys : List ℕ)
      → IsStack k.procs (b ∷ ys)
      → Loads w k r fd e fresh
      → fresh ≢ null
      → has fresh (b ∷ ys) ≡ false
      → r.eax ≡ 5
      → r'.eax ≡ 6
      → k'.procs ≡ (ksysint w k r).0.procs
      → k'.paging ≡ (ksysint w k r).0.paging
      → ((ksysint w k' r').1 ≡ record r { eax = r'.ebx })
        × IsStack (ksysint w k' r').0.procs (b ∷ ys)
  unfolding sys_exit
  exec_exit w k k' r r' fd e fresh b ys h prog ne out five six same same' =
      let (p, q) = exec-Loads w k r fd e fresh prog in
      let procs = same ∙ ap (λ o. o.0.procs) (ksysint-exec w k r five) ∙ p in
      let paging = same' ∙ ap (λ o. o.0.paging) (ksysint-exec w k r five) ∙ q in
      let all = load_pop k.procs k.paging r r' fd e fresh b ys h ne out in
      let loaded = process_load (pos fd) (some e) fresh r k.procs k.paging in
      let pops : (ksysint w k' r').0.procs ≡ (process_pop r' loaded.1 loaded.2).0 =
        rw (ksysint-exit w k' r' six, procs, paging) refl in
      (
        rw (ksysint-exit w k' r' six, procs, paging) all.5,
        subst (λ s. IsStack s (b ∷ ys)) (sym pops) all.4,
      )
