-- ===== src/File/Results.antt =====
-- The results that kopen, kread and kwrite can have.
use strange_os.Prelude.{
  ◌^◌, ltb, ℕ, zero, suc, ◌+◌, ◌<◌, ◌≡◌, ◌⊎◌, inl, inr, refl, Option, none, some, List, [], ◌∷◌,
  arith, Option-cases, Bool-cases, ◌==◌,
}
use strange_os.Prelude.Int.{ℤ, pos, negsuc, minus_one, to_int}
use strange_os.File.{
  Fds, Node, max_num_fds, free_fd, parse_mode, open_at, open_node, kopen, FsFile, file_of,
  transfer_fd, kread, kwrite, fs_read, fs_write, index_of,
}

free_fd_low : (rounds i : ℕ) (t : Fds) (fd : ℕ) → free_fd rounds i t ≡ some fd → fd < i + rounds
unfolding free_fd
free_fd_low zero i t fd h = absurd (ground arith)
free_fd_low (suc rounds) i t fd h = elim (Option-cases (t i)) [
  | inl free ↦ ground arith
  | inr (f, taken) ↦ (let low = free_fd_low rounds (i + 1) t fd in ground arith)
]

-- -1, or a descriptor.
abbrev pub IsDescriptor : ℤ → Type 0
IsDescriptor z = (z ≡ minus_one) ⊎ ((fd : ℕ) × (z ≡ pos fd) × (fd < max_num_fds))

module _ {S : Type 0} where
  open_at-IsDescriptor :
      (o : Option ℕ) (n md : ℕ) (nodes : ℕ → Node S) (t : Fds) (s : S)
      → ((fd : ℕ) → o ≡ some fd → fd < max_num_fds)
      → IsDescriptor (open_at o n md nodes t s).0
  unfolding open_at
  open_at-IsDescriptor none n md nodes t s h = inl refl
  open_at-IsDescriptor (some fd) n md nodes t s h = inr (fd, refl, h fd refl)

  open_node-IsDescriptor :
      (n md : Option ℕ) (nodes : ℕ → Node S) (t : Fds) (s : S)
      → IsDescriptor (open_node n md nodes t s).0
  unfolding open_node
  open_node-IsDescriptor none md nodes t s = inl refl
  open_node-IsDescriptor (some n) none nodes t s = inl refl
  open_node-IsDescriptor (some n) (some md) nodes t s =
      open_at-IsDescriptor (free_fd max_num_fds 0 t) n md nodes t s
        (λ fd h. free_fd_low max_num_fds 0 t fd h)

  pub kopen-IsDescriptor :
      (find : List ℕ → S → Option ℕ × S) (p m : List ℕ) (nodes : ℕ → Node S) (t : Fds) (s : S)
      → IsDescriptor (kopen find p m nodes t s).0
  unfolding kopen
  kopen-IsDescriptor find [] m nodes t s = inl refl
  kopen-IsDescriptor find (c ∷ p) m nodes t s = elim (Bool-cases (c == b'/')) [
    | inl slash ↦
        rw slash (open_node-IsDescriptor (find p s).0 (parse_mode m 0) nodes t (find p s).1)
    | inr other ↦ rw other (inl refl)
  ]

-- The numbers that an int has.
abbrev pub IsInt : ℤ → Type 0
IsInt (pos n) = n < 2 ^ 31
IsInt (negsuc n) = n < 2 ^ 31

to_int-IsInt : (x : ℕ) → IsInt (to_int x)
to_int-IsInt x = elim (Bool-cases (ltb x (2 ^ 31))) [
  | inl low ↦ rw low (ground arith)
  | inr high ↦ rw high (ground arith)
]

module _ {S : Type 0} where
  transfer_fd-IsInt :
      (op : Node S → FsFile → ℕ → ℕ → S → ℕ × FsFile × S) (o : Option FsFile) (fd c buf : ℕ)
      (nodes : ℕ → Node S) (t : Fds) (s : S)
      → IsInt (transfer_fd op o fd c buf nodes t s).0
  unfolding transfer_fd
  transfer_fd-IsInt op none fd c buf nodes t s = omega arith
  transfer_fd-IsInt op (some f) fd c buf nodes t s = to_int-IsInt (op (nodes f.n) f c buf s).0

  pub kread-IsInt :
      (fd : ℤ) (buf c : ℕ) (nodes : ℕ → Node S) (t : Fds) (s : S)
      → IsInt (kread fd buf c nodes t s).0
  unfolding kread
  kread-IsInt fd buf c nodes t s =
      transfer_fd-IsInt fs_read (file_of fd t) (index_of fd) c buf nodes t s

  pub kwrite-IsInt :
      (fd : ℤ) (buf c : ℕ) (nodes : ℕ → Node S) (t : Fds) (s : S)
      → IsInt (kwrite fd buf c nodes t s).0
  unfolding kwrite
  kwrite-IsInt fd buf c nodes t s =
      transfer_fd-IsInt fs_write (file_of fd t) (index_of fd) c buf nodes t s
