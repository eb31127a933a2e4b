-- ===== src/File/Descriptors.antt =====
-- Which descriptors are given, kept and freed.
use strange_os.Prelude.{
  ℕ, zero, suc, ◌+◌, ◌≤◌, ◌<◌, ◌≡◌, ◌≢◌, refl, ap, ◌∙◌, ◌⊎◌, inl, inr, ◌&&◌, Option, none, some,
  List, ◌∷◌, arith, ltb, leb, ◌==◌, if◌then◌else◌, Bool-cases, Option-cases,
}
use strange_os.Prelude.Int.{pos, negsuc, minus_one}
use strange_os.File.{
  FsFile, Node, Fds, put_fd, max_num_fds, parse_mode, free_fd, file_of, kgetnode, open_with,
  calls_back, with_ops, fs_open, open_at, open_node, kopen, kread, kclose, close_fd, transfer_fd,
}

-- The lowest descriptor that is free, from `i` on.
pub record IsLowest (t : Fds) (i fd : ℕ) : Type 0 where
  pub from : i ≤ fd
  pub below : fd < max_num_fds
  pub free : t fd ≡ none
  pub taken : (x : ℕ) → i ≤ x → x < fd → t x ≢ none

free_fd-found :
    (rounds i : ℕ) (t : Fds) (x : ℕ)
    → i + rounds ≡ max_num_fds
    → i ≤ x
    → x < max_num_fds
    → t x ≡ none
    → (fd : ℕ) × (free_fd rounds i t ≡ some fd) × IsLowest t i fd
unfolding free_fd
free_fd-found zero i t x e lo hi h = absurd (omega arith)
free_fd-found (suc rounds) i t x e lo hi h = elim (Option-cases (t i)) [
  | inl free ↦ (
    i,
    rw (free_fd, free) refl,
    record {
      from = omega arith;
      below = omega arith;
      free = free;
      taken = λ y lo' hi'. absurd (omega arith);
    },
  )
  | inr (f, used) ↦
      let ne : t i ≢ none = λ e'. absurd (ground arith) in
      let other : i ≢ x = λ e'. ne (ap t e' ∙ h) in
      let (fd, found, low) = free_fd-found rounds (i + 1) t x (omega arith) (omega arith) hi h in
      (
        fd,
        rw (free_fd, used) found,
        record {
          from = omega (arith, low.from);
          below = low.below;
          free = low.free;
          taken = λ y lo' hi'. elim (Bool-cases (y == i)) [
            | inl is ↦ (let at : y ≡ i = ground arith in rw at ne)
            | inr not_ ↦ low.taken y (ground arith) hi'
          ];
        },
      )
]

free_fd-none :
    (rounds i : ℕ) (t : Fds)
    → ((x : ℕ) → i ≤ x → x < i + rounds → t x ≢ none)
    → free_fd rounds i t ≡ none
unfolding free_fd
free_fd-none zero i t h = refl
free_fd-none (suc rounds) i t h = elim (Option-cases (t i)) [
  | inl free ↦ absurd (h i (omega arith) (omega arith) free)
  | inr (f, used) ↦
      rw (free_fd, used)
        (free_fd-none rounds (i + 1) t (λ x lo hi. h x (omega arith) (omega arith)))
]

file_of-put :
    (t : Fds) (fd : ℕ) (f : FsFile)
    → fd < max_num_fds
    → file_of (pos fd) (put_fd t fd (some f)) ≡ some f
unfolding file_of
file_of-put t fd f h = ground arith

file_of-empty : (t : Fds) (fd : ℕ) → t fd ≡ none → file_of (pos fd) t ≡ none
unfolding file_of
file_of-empty t fd h = ground arith

kgetnode-put :
    (t : Fds) (fd n : ℕ) (f : FsFile)
    → fd < max_num_fds
    → f.n ≡ n
    → kgetnode (pos fd) (put_fd t fd (some f)) ≡ some n
unfolding kgetnode
kgetnode-put t fd n f h e = rw (kgetnode, file_of-put t fd f h) (ap some e)

module _ {S : Type 0} where
  open_with-node :
      (o : Option (FsFile → S → ℕ × S)) (f : FsFile) (s : S) → (open_with o f s).0.n ≡ f.n
  unfolding open_with
  open_with-node none f s = refl
  open_with-node (some o) f s = refl

  fs_open-node : (node : Node S) (n m : ℕ) (s : S) → (fs_open node n m s).0.n ≡ n
  unfolding fs_open
  fs_open-node node n m s =
      open_with-node (if calls_back node.mask then with_ops node.fs (λ i. i.o) else none)
        (record { n = n; m = m; idx = 0; d = 0 }) s

  -- kopen of a path to a node, with a mode of the letters r and w, while a descriptor is free: the
  -- file is opened with that mode and put at the lowest free descriptor, which then stands for the
  -- node; the other descriptors are as they were.
  pub kopen_lem :
      (find : List ℕ → S → Option ℕ × S) (p m : List ℕ) (nodes : ℕ → Node S) (t : Fds) (s s' : S)
      (n md x : ℕ)
      → find p s ≡ (some n, s')
      → parse_mode m 0 ≡ some md
      → x < max_num_fds
      → t x ≡ none
      → let (f, after) = fs_open (nodes n) n md s' in
        (fd : ℕ) × IsLowest t 0 fd
        × (kopen find (b'/' ∷ p) m nodes t s ≡ (pos fd, put_fd t fd (some f), after))
        × (kgetnode (pos fd) (put_fd t fd (some f)) ≡ some n)
  unfolding kopen open_node open_at
  kopen_lem find p m nodes t s s' n md x walk mode lt free =
      let (fd, found, low) = free_fd-found max_num_fds 0 t x refl (omega arith) lt free in
      (
        fd,
        low,
        rw (walk, mode, found) refl,
        kgetnode-put t fd n (fs_open (nodes n) n md s').0 low.below
            (fs_open-node (nodes n) n md s'),
      )

  open_node-fails :
      (o md : Option ℕ) (nodes : ℕ → Node S) (t : Fds) (s : S)
      → (o ≡ none) ⊎ (md ≡ none) ⊎ (free_fd max_num_fds 0 t ≡ none)
      → ((open_node o md nodes t s).0 ≡ minus_one) × ((open_node o md nodes t s).1 ≡ t)
  unfolding open_node open_at
  open_node-fails none md nodes t s h = (refl, refl)
  open_node-fails (some n) none nodes t s h = (refl, refl)
  open_node-fails (some n) (some md) nodes t s (inl e) = absurd (ground arith)
  open_node-fails (some n) (some md) nodes t s (inr (inl e)) = absurd (ground arith)
  open_node-fails (some n) (some md) nodes t s (inr (inr e)) = rw e (refl, refl)

  -- kopen of a relative path, of a path to nothing, with a mode of another letter or with all 32
  -- descriptors in use gives -1 and leaves the descriptors.
  pub kopen-fails :
      (find : List ℕ → S → Option ℕ × S) (c : ℕ) (p m : List ℕ) (nodes : ℕ → Node S) (t : Fds)
      (s : S)
      → (c ≢ b'/')
        ⊎ ((find p s).0 ≡ none)
        ⊎ (parse_mode m 0 ≡ none)
        ⊎ ((x : ℕ) → x < max_num_fds → t x ≢ none)
      → ((kopen find (c ∷ p) m nodes t s).0 ≡ minus_one) × ((kopen find (c ∷ p) m nodes t s).1 ≡ t)
  unfolding kopen
  kopen-fails find c p m nodes t s h = elim (Bool-cases (c == b'/')) [
    | inl slash ↦ rw slash (
        open_node-fails (find p s).0 (parse_mode m 0) nodes t (find p s).1 (elim h [
          | inl ne ↦ absurd (ground arith)
          | inr (inl e) ↦ inl e
          | inr (inr (inl e)) ↦ inr (inl e)
          | inr (inr (inr full)) ↦ inr (inr (free_fd-none max_num_fds 0 t (λ x lo hi. full x hi)))
        ]))
    | inr other ↦ rw other (refl, refl)
  ]

  close_fd_lem :
      (fd x : ℕ) (o : Option FsFile) (nodes : ℕ → Node S) (t : Fds) (s : S)
      → file_of (pos fd) t ≡ o
      → (close_fd o fd nodes t s).0 x
        ≡ (if x == fd && (leb 3 fd && ltb fd max_num_fds) then none else t x)
  unfolding close_fd file_of
  close_fd_lem fd x none nodes t s h = ground arith
  close_fd_lem fd x (some f) nodes t s h = ground arith

  -- kclose empties its descriptor if it is from 3 to 31 and leaves every other one, and so the
  -- standard streams; with a negative one it changes nothing. A read through an empty descriptor
  -- gives -1 and changes nothing.
  pub kclose_lem :
      (fd x y buf c : ℕ) (nodes : ℕ → Node S) (t t' : Fds) (s u : S)
      → t' y ≡ none
      → ((kclose (pos fd) nodes t s).0 x
          ≡ (if x == fd && (leb 3 fd && ltb fd max_num_fds) then none else t x))
        × ((kclose (negsuc fd) nodes t s) ≡ (t, s))
        × (kread (pos y) buf c nodes t' u ≡ (minus_one, t', u))
  unfolding kclose kread transfer_fd file_of
  kclose_lem fd x y buf c nodes t t' s u empty = (
    close_fd_lem fd x (file_of (pos fd) t) nodes t s refl,
    refl,
    rw (kread, file_of-empty t' y empty) refl,
  )
