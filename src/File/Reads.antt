-- ===== src/File/Reads.antt =====
-- A read of a file whose file system has its bytes.
use strange_os.Prelude.{
  ℕ, ◌+◌, ◌-◌, ◌%◌, ◌^◌, ◌≤◌, ◌<◌, ◌≡◌, refl, true, false, none, some, List, arith, ltb, leb,
  length, take, drop, length-take, length-drop,
}
use strange_os.Prelude.Int.{pos}
use strange_os.File.{
  FsFile, Node, Fds, put_fd, max_num_fds, file_of, transfer, transfer_fd, fs_read, kread,
}
use strange_os.File.Streams.{Terminal, put_at}

-- What a read of `c` bytes gives.
abbrev pub chunk : List ℕ → FsFile → ℕ → List ℕ
chunk content f c = take c (drop f.idx content)

-- The node of a file with these bytes.
abbrev pub file_node : List ℕ → Node Terminal
file_node content = record {
  mask = 1;
  fs = some (record {
    r = some (λ f c buf t.
        (length (chunk content f c), record t { mem = put_at buf (chunk content f c) t.mem }));
    w = none;
    o = none;
    c = none;
  });
}

pub kread-file_node :
    (fd buf c : ℕ) (content : List ℕ) (f : FsFile) (nodes : ℕ → Node Terminal) (fds : Fds)
    (t : Terminal)
    → fd < max_num_fds
    → fds fd ≡ some f
    → nodes f.n ≡ file_node content
    → f.idx ≤ length content
    → length content < 2 ^ 31
    → kread (pos fd) buf c nodes fds t ≡ (
      pos (length (chunk content f c)),
      put_fd fds fd (some (record f { idx = f.idx + length (chunk content f c) })),
      record t { mem = put_at buf (chunk content f c) t.mem },
    )
unfolding kread fs_read transfer transfer_fd file_of
kread-file_node fd buf c content f nodes fds t low opened node within size =
    let used : leb max_num_fds fd ≡ false = ground arith in
    let taken : length (chunk content f c) ≤ length content - f.idx =
      omega (arith, length-take c (drop f.idx content), length-drop f.idx content) in
    let small : ltb (length (chunk content f c)) (2 ^ 31) ≡ true = ltb-true _ _ (omega arith) in
    let place : (f.idx + length (chunk content f c)) % 2 ^ 32 ≡ f.idx + length (chunk content f c) =
      omega arith in
    rw (used, opened, node, small, place) refl
  where
    ltb-true : (a b : ℕ) → a < b → ltb a b ≡ true
    ltb-true a b h = ground arith
