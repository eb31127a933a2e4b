-- ===== src/User/Machine/Laws.antt =====
-- The kernel is a system for the programs: what cat and hexd ask of the calls.
use strange_os.Prelude.{
  ℕ, ◌+◌, ◌%◌, ◌^◌, ◌≤◌, ◌<◌, ◌≡◌, refl, sym, ap, ◌∙◌, true, false, Option, none, some, List, [],
  arith, ◌==◌, length, take, drop, length-take, length-drop,
}
use mathlib.Core.Path.{subst}
use strange_os.Prelude.Int.{pos}
use strange_os.Console.{kprint, kflush}
use strange_os.Console.View.{View, view, print, kprint-view, print_nil, print-append, kflush-view}
use strange_os.File.{FsFile, put_fd, max_num_fds}
use strange_os.File.Streams.{Terminal, stream, stream_nodes, mode_w, bytes_at, put_at}
use strange_os.File.Reads.{chunk, file_node, kread-file_node}
use strange_os.Syscall.{World, Kernel}
use strange_os.Stdlib.Calls.{std_read, std_write}
use strange_os.Stdlib.Calls.Through.{starch_lem, std_write_lem}
use strange_os.User.{Calls}
use strange_os.User.Cat.{IsSystem, take_all}
use strange_os.User.Machine.{Program, area, with_bytes, program_calls}
use strange_os.User.Machine.Texts.{bytes_at-put_at, drop-length-take}
use strange_os.User.Hexd.Rows.{drop-drop_add}

-- A program with the standard output, and with an open file with these bytes behind `fd`.
pub record IsRunning (fd : ℕ) (content : List ℕ) (st : Program) : Type 0 where
  pub output : st.kernel.nodes 1 ≡ stream_nodes 1
  pub place : ℕ
  pub shown : st.kernel.fds 1 ≡ some (stream 1 mode_w place)
  pub file : FsFile
  pub opened : st.kernel.fds fd ≡ some file
  pub node : st.kernel.nodes file.n ≡ file_node content
  pub within : file.idx ≤ length content

abbrev pub left_of : List ℕ → Option FsFile → List ℕ
left_of content none = []
left_of content (some f) = drop f.idx content

-- What is left of the file.
abbrev pub left : ℕ → List ℕ → Program → List ℕ
left fd content st = left_of content (st.kernel.fds fd)

abbrev pub shows : Program → View
shows st = view st.kernel.state.con

module _ (w : World Terminal) (fd : ℕ) (content : List ℕ) (low : 3 ≤ fd) (high : fd < max_num_fds)
    (size : length content < 2 ^ 31) where
  abbrev calls : Calls Program
  calls = program_calls w

  left_is :
      (st : Program) (run : IsRunning fd content st)
      → left fd content st ≡ drop run.file.idx content
  left_is st run = ap (left_of content) run.opened

  -- The kernel after a read.
  abbrev after_read : (st : Program) → IsRunning fd content st → Kernel Terminal
  after_read st run = record (st.kernel) {
    fds =
        put_fd st.kernel.fds fd
          (some (record (run.file) { idx = run.file.idx + length (chunk content run.file 512) }));
    state = record (st.kernel.state) {
      mem = put_at area (chunk content run.file 512) st.kernel.state.mem;
    };
  }

  read_is :
      (st : Program) (run : IsRunning fd content st)
      → ((std_read w (pos fd) area 512 st.kernel st.registers).0
          ≡ pos (length (chunk content run.file 512)))
        × ((std_read w (pos fd) area 512 st.kernel st.registers).1 ≡ after_read st run)
  read_is st run =
      let all = starch_lem w (pos fd) 0 0 area 512 st.kernel st.registers (omega arith) in
      let is =
        kread-file_node fd area 512 content run.file st.kernel.nodes st.kernel.fds st.kernel.state
          high run.opened run.node run.within size in
      (all.2 ∙ ap (λ o. o.0) is, all.3 ∙ ap (λ o. record (st.kernel) { fds = o.1; state = o.2 }) is)

  read_bytes :
      (st : Program) (run : IsRunning fd content st)
      → bytes_at
          (length (chunk content run.file 512))
          area
          (put_at area (chunk content run.file 512) st.kernel.state.mem)
        ≡ chunk content run.file 512
  read_bytes st run =
      bytes_at-put_at (length (chunk content run.file 512)) area (chunk content run.file 512)
        st.kernel.state.mem (omega arith)
      ∙ take_all (length (chunk content run.file 512)) (chunk content run.file 512) (omega arith)

  law_read :
      (st : Program)
      → IsRunning fd content st
      → (calls.read_ (pos fd) 512 st).0
        ≡ (take 512 (left fd content st), pos (length (take 512 (left fd content st))))
  law_read st run =
      let (c, k) = read_is st run in
      let part : take 512 (left fd content st) ≡ chunk content run.file 512 =
        ap (take 512) (left_is st run) in
      rw (part, c, k) (ap (λ s. (s, pos (length (chunk content run.file 512)))) (read_bytes st run))

  -- The program after a read.
  abbrev read_program : (st : Program) → IsRunning fd content st → Program
  read_program st run = record {
    kernel = after_read st run;
    registers = (std_read w (pos fd) area 512 st.kernel st.registers).2;
  }

  read_program_is :
      (st : Program) (run : IsRunning fd content st)
      → (calls.read_ (pos fd) 512 st).1 ≡ read_program st run
  read_program_is st run =
      ap
        (λ k. record {
          kernel = k;
          registers = (std_read w (pos fd) area 512 st.kernel st.registers).2;
        })
        (read_is st run).1

  law_read_ok :
      (st : Program)
      → IsRunning fd content st
      → IsRunning fd content (calls.read_ (pos fd) 512 st).1
  law_read_ok st run = subst (IsRunning fd content) (sym (read_program_is st run)) (record {
    output = run.output;
    place = run.place;
    shown = (let other : (1 == fd) ≡ false = ground arith in rw other run.shown);
    file = record (run.file) { idx = run.file.idx + length (chunk content run.file 512) };
    opened = (let same : (fd == fd) ≡ true = ground arith in rw same refl);
    node = run.node;
    within = omega (
      arith,
      run.within,
      length-take 512 (drop run.file.idx content),
      length-drop run.file.idx content,
    );
  })

  law_read_rest :
      (st : Program)
      → IsRunning fd content st
      → left fd content (calls.read_ (pos fd) 512 st).1 ≡ drop 512 (left fd content st)
  law_read_rest st run =
      let same : (fd == fd) ≡ true = ground arith in
      ap (left fd content) (read_program_is st run)
      ∙ rw same (moved content run.file.idx)
      ∙ ap (drop 512) (sym (left_is st run))
    where
      moved : (s : List ℕ) (i : ℕ) → drop (i + length (take 512 (drop i s))) s ≡ drop 512 (drop i s)
      moved s i =
          sym (drop-drop_add i (length (take 512 (drop i s))) s) ∙ drop-length-take 512 (drop i s)

  law_read_out :
      (st : Program) → IsRunning fd content st → shows (calls.read_ (pos fd) 512 st).1 ≡ shows st
  law_read_out st run = ap shows (read_program_is st run)

  -- The kernel after a write.
  abbrev after_write : List ℕ → ℕ → (st : Program) → IsRunning fd content st → Kernel Terminal
  after_write buf n st run =
      let k = with_bytes area buf st.kernel in
      record k {
        fds = put_fd k.fds 1 (some (stream 1 mode_w ((run.place + n) % 2 ^ 32)));
        state = record (k.state) {
          con = kflush (kprint (bytes_at n area k.state.mem) k.state.con);
        };
      }

  abbrev write_program : List ℕ → ℕ → (st : Program) → IsRunning fd content st → Program
  write_program buf n st run = record {
    kernel = after_write buf n st run;
    registers = (std_write w (pos 1) area n (with_bytes area buf st.kernel) st.registers).2;
  }

  write_program_is :
      (buf : List ℕ) (n : ℕ) (st : Program) (run : IsRunning fd content st)
      → n ≤ 512
      → calls.write_ (pos 1) buf (pos n) st ≡ write_program buf n st run
  write_program_is buf n st run le =
      let same : n % 2 ^ 32 ≡ n = omega arith in
      rw same (
        ap
          (λ k. record {
            kernel = k;
            registers = (std_write w (pos 1) area n (with_bytes area buf st.kernel) st.registers).2;
          })
          (std_write_lem w run.place area n (with_bytes area buf st.kernel) st.registers run.output
            run.shown (omega arith)).1)

  law_write_ok :
      (buf : List ℕ) (n : ℕ) (st : Program)
      → IsRunning fd content st
      → n ≤ length buf
      → n ≤ 512
      → IsRunning fd content (calls.write_ (pos 1) buf (pos n) st)
  law_write_ok buf n st run has le =
      subst (IsRunning fd content) (sym (write_program_is buf n st run le)) (record {
        output = run.output;
        place = (run.place + n) % 2 ^ 32;
        shown = refl;
        file = run.file;
        opened = (let other : (fd == 1) ≡ false = ground arith in rw other run.opened);
        node = run.node;
        within = run.within;
      })

  law_write_rest :
      (buf : List ℕ) (n : ℕ) (st : Program)
      → IsRunning fd content st
      → n ≤ length buf
      → n ≤ 512
      → left fd content (calls.write_ (pos 1) buf (pos n) st) ≡ left fd content st
  law_write_rest buf n st run has le =
      let other : (fd == 1) ≡ false = ground arith in
      ap (left fd content) (write_program_is buf n st run le) ∙ rw other refl

  law_write_out :
      (buf : List ℕ) (n : ℕ) (st : Program)
      → IsRunning fd content st
      → n ≤ length buf
      → n ≤ 512
      → shows (calls.write_ (pos 1) buf (pos n) st) ≡ print (shows st) (take n buf)
  law_write_out buf n st run has le =
      ap shows (write_program_is buf n st run le)
      ∙ kflush-view
          (kprint (bytes_at n area (put_at area buf st.kernel.state.mem)) st.kernel.state.con)
      ∙ kprint-view (bytes_at n area (put_at area buf st.kernel.state.mem)) st.kernel.state.con
      ∙ ap (print (shows st)) (bytes_at-put_at n area buf st.kernel.state.mem has)

  pub program_calls-IsSystem :
      IsSystem calls (pos fd) (IsRunning fd content) (left fd content) shows print
  program_calls-IsSystem = record {
    add_nil = print_nil;
    add_append = print-append;
    read = law_read;
    read_ok = law_read_ok;
    read_rest = law_read_rest;
    read_out = law_read_out;
    write_ok = law_write_ok;
    write_rest = law_write_rest;
    write_out = law_write_out;
  }
