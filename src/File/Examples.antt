-- ===== src/File/Examples.antt =====
-- A table with the standard streams and one file, and the theorems about descriptors at it.
use strange_os.Prelude.{
  ℕ, ◌+◌, ◌≡◌, refl, some, none, Option, List, [], ◌∷◌, arith, ltb, if◌then◌else◌, inl,
}
use strange_os.Prelude.Int.{pos, minus_one}
use strange_os.File.{FsFile, FsInfo, Node, Fds, put_fd, parse_mode, fs_open, kopen, kgetnode}
use strange_os.File.Descriptors.{IsLowest, kopen_lem, kopen-fails}

-- A file system whose state counts the bytes that were asked for.
abbrev counting : FsInfo ℕ
counting = record {
  r = some (λ f c buf s. (c, s + c));
  w = none;
  o = some (λ f s. (s, s));
  c = none;
}

abbrev node : ℕ → Node ℕ
node _ = record { mask = 1; fs = some counting }

abbrev stream : FsFile
stream = record { n = 9; m = 1; idx = 0; d = 0 }

abbrev streams : Fds
streams x = if ltb x 3 then some stream else none

abbrev walk : List ℕ → ℕ → Option ℕ × ℕ
walk p s = (some 5, s)

abbrev name : List ℕ
name = b'a' ∷ []

kopen_lem_example :
    let (f, after) = fs_open (node 5) 5 1 100 in
    (fd : ℕ) × IsLowest streams 0 fd
    × (kopen walk (b'/' ∷ name) (b'r' ∷ []) node streams 100
        ≡ (pos fd, put_fd streams fd (some f), after))
    × (kgetnode (pos fd) (put_fd streams fd (some f)) ≡ some 5)
unfolding parse_mode
kopen_lem_example =
    kopen_lem walk name (b'r' ∷ []) node streams 100 100 5 1 20 refl refl (omega arith) refl

kopen-fails_example :
    ((kopen walk name (b'r' ∷ []) node streams 100).0 ≡ minus_one)
    × ((kopen walk name (b'r' ∷ []) node streams 100).1 ≡ streams)
kopen-fails_example = kopen-fails walk b'a' [] (b'r' ∷ []) node streams 100 (inl (omega arith))
