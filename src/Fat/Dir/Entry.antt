-- ===== src/Fat/Dir/Entry.antt =====
-- The entries that _add_dirent writes, as _read_dir32 reads them.
use strange_os.Prelude.{
  ℕ, zero, suc, ◌+◌, ◌-◌, ◌*◌, ◌^◌, ◌<◌, ◌≡◌, refl, sym, ap, ◌∙◌, true, false, ◌&&◌, Option, none,
  some, List, [], ◌∷◌, ◌++◌, arith, ltb, leb, ◌==◌, if◌then◌else◌, Bool-cases, inl, inr, bit_and,
  get_or, take, drop, length, length-append, length-take, length-drop, replicate,
}
use strange_os.Str.{up_to_end}
use strange_os.Str.Copy.{IsText}
use strange_os.Disk.Mbr.{byte, word16, word32}
use strange_os.Vfs.{Dirent, fs_alloc, fs_dir, fs_file_type}
use strange_os.Fat.{Bytes}
use strange_os.Fat.Dir.{
  DirState, bytes_from, entry_bytes, long_name, long_step, complete, dir_step, dirent_directory,
  dirent_lfn,
}
use strange_os.Fat.Dir.Add.{
  padded, base_name, extension, short_name, padding, ntmp, long_entry, attributes, short_entry,
  put_list, put_entries,
}

-- A buffer that holds a list of bytes from `i` on.
list_read :
    (s : List ℕ) (i : ℕ) (b : Bytes)
    → ((k : ℕ) → k < length s → b (i + k) ≡ get_or s k 0)
    → bytes_from (length s) b i ≡ s
list_read [] i b h = refl
list_read (c ∷ s) i b h =
    let head : b i ≡ c = ap b (omega arith) ∙ h 0 (omega arith) in
    let tail : bytes_from (length s) b (i + 1) ≡ s =
      list_read s (i + 1) b (λ k lt. ap b (omega arith) ∙ h (suc k) (omega arith)) in
    rw (head, tail) refl

entry_read :
    (s : List ℕ) (i : ℕ) (b : Bytes)
    → length s ≡ 32
    → ((k : ℕ) → k < 32 → b (i + k) ≡ get_or s k 0)
    → entry_bytes b i ≡ s
entry_read s i b size h =
    ap (λ n. bytes_from n b i) (sym size) ∙ list_read s i b (λ k lt. h k (omega arith))

length-padding : (n : ℕ) → length (padding n) ≡ 2 * n
length-padding zero = refl
length-padding (suc n) = omega (arith, length-padding n)

length-ntmp : (n : ℕ) (fn : List ℕ) → length (ntmp n fn) ≡ 2 * n + 2
length-ntmp zero fn = refl
length-ntmp (suc n) [] = omega (arith, length-padding n)
length-ntmp (suc n) (c ∷ fn) = omega (arith, length-ntmp n fn)

length-long_entry : (fn : List ℕ) → length (long_entry fn) ≡ 32
length-long_entry fn =
    let t : List ℕ = ntmp 12 fn in
    let tail : List ℕ = drop 22 t in
    omega (
      arith,
      length-ntmp 12 fn,
      length-take 10 t,
      length-take 12 (drop 10 t),
      length-drop 10 t,
      length-drop 22 t,
      length-append (take 12 (drop 10 t)) (0 ∷ 0 ∷ tail),
      length-append (take 10 t) (dirent_lfn ∷ 0 ∷ 0 ∷ (take 12 (drop 10 t) ++ (0 ∷ 0 ∷ tail))),
    )

length-padded : (n : ℕ) (s : List ℕ) → length (padded n s) ≡ n
length-padded zero s = refl
length-padded (suc n) [] = ap suc (length-padded n [])
length-padded (suc n) (c ∷ s) = ap suc (length-padded n s)

length-short_name : (fn : List ℕ) (x y z : ℕ) → length (short_name fn (x ∷ y ∷ z ∷ [])) ≡ 11
length-short_name fn x y z =
    let ext : List ℕ = elim (extension fn) [ none ↦ x ∷ y ∷ z ∷ [] | some e ↦ padded 3 e ] in
    omega (
      arith,
      length-append (padded 8 (base_name fn)) ext,
      length-padded 8 (base_name fn),
      length_ext (extension fn) x y z,
    )
  where
    length_ext :
        (o : Option (List ℕ)) (x y z : ℕ)
        → length {A = ℕ} (elim o [ none ↦ x ∷ y ∷ z ∷ [] | some e ↦ padded 3 e ]) ≡ 3
    length_ext none x y z = refl
    length_ext (some e) x y z = length-padded 3 e

-- The thirteen characters: the name up to its twelfth byte, the terminator, and padding.
chars : ℕ → List ℕ → List ℕ
chars zero fn = 0 ∷ []
chars (suc n) [] = 0 ∷ replicate (suc n) 0xff
chars (suc n) (c ∷ fn) = c ∷ chars n fn

up_to_end-chars : (n : ℕ) (fn : List ℕ) → IsText fn → up_to_end (chars n fn) ≡ take n fn
unfolding chars
up_to_end-chars zero fn h = refl
up_to_end-chars (suc n) [] h = refl
up_to_end-chars (suc n) (c ∷ fn) h =
    let more : (c == 0) ≡ false = (let nz = h.0 in ground arith) in
    rw (more, up_to_end-chars n fn h.1) refl

long_name-chars : (fn : List ℕ) → long_name (long_entry fn) ≡ chars 12 fn
unfolding chars
long_name-chars [] = refl
long_name-chars (a ∷ []) = refl
long_name-chars (a ∷ b ∷ []) = refl
long_name-chars (a ∷ b ∷ c ∷ []) = refl
long_name-chars (a ∷ b ∷ c ∷ d ∷ []) = refl
long_name-chars (a ∷ b ∷ c ∷ d ∷ e ∷ []) = refl
long_name-chars (a ∷ b ∷ c ∷ d ∷ e ∷ f ∷ []) = refl
long_name-chars (a ∷ b ∷ c ∷ d ∷ e ∷ f ∷ g ∷ []) = refl
long_name-chars (a ∷ b ∷ c ∷ d ∷ e ∷ f ∷ g ∷ h ∷ []) = refl
long_name-chars (a ∷ b ∷ c ∷ d ∷ e ∷ f ∷ g ∷ h ∷ i ∷ []) = refl
long_name-chars (a ∷ b ∷ c ∷ d ∷ e ∷ f ∷ g ∷ h ∷ i ∷ j ∷ []) = refl
long_name-chars (a ∷ b ∷ c ∷ d ∷ e ∷ f ∷ g ∷ h ∷ i ∷ j ∷ k ∷ []) = refl
long_name-chars (a ∷ b ∷ c ∷ d ∷ e ∷ f ∷ g ∷ h ∷ i ∷ j ∷ k ∷ l ∷ fn) = refl

put_list-hit :
    (at k : ℕ) (s : List ℕ) (b : Bytes) → k < 32 → put_list at s b (at + k) ≡ get_or s k 0
put_list-hit at k s b lt =
    let inside : (leb at (at + k) && ltb (at + k) (at + 32)) ≡ true = ground arith in
    let place : at + k - at ≡ k = omega arith in rw (inside, place) refl

put_list-below : (at j : ℕ) (s : List ℕ) (b : Bytes) → j < at → put_list at s b j ≡ b j
put_list-below at j s b lt =
    let outside : (leb at j && ltb j (at + 32)) ≡ false = ground arith in rw outside refl

-- What `dent->fn` was, as far as it is kept.
abbrev old_name : ℕ → Bytes → List ℕ
old_name i b = b (i + 40) ∷ b (i + 41) ∷ b (i + 42) ∷ []

long_read :
    (i : ℕ) (fn : List ℕ) (tp fcl : ℕ) (b : Bytes)
    → entry_bytes (put_entries i fn tp fcl b) i ≡ long_entry fn
long_read i fn tp fcl b =
    entry_read (long_entry fn) i (put_entries i fn tp fcl b) (length-long_entry fn) (λ k lt.
      put_list-below (i + 32) (i + k) (short_entry fn tp fcl (old_name i b))
        (put_list i (long_entry fn) b) (omega arith)
      ∙ put_list-hit i k (long_entry fn) b lt)

length-short_entry :
    (fn : List ℕ) (tp fcl x y z : ℕ) → length (short_entry fn tp fcl (x ∷ y ∷ z ∷ [])) ≡ 32
length-short_entry fn tp fcl x y z =
    length-append (short_name fn (x ∷ y ∷ z ∷ [])) (attributes tp fcl)
    ∙ omega (arith, length-short_name fn x y z)

short_read :
    (i : ℕ) (fn : List ℕ) (tp fcl : ℕ) (b : Bytes)
    → entry_bytes (put_entries i fn tp fcl b) (i + 32) ≡ short_entry fn tp fcl (old_name i b)
short_read i fn tp fcl b =
    entry_read (short_entry fn tp fcl (old_name i b)) (i + 32) (put_entries i fn tp fcl b)
      (length-short_entry fn tp fcl (b (i + 40)) (b (i + 41)) (b (i + 42)))
      (λ k lt.
        put_list-hit (i + 32) k (short_entry fn tp fcl (old_name i b))
          (put_list i (long_entry fn) b) lt)

get_or-behind : (s t : List ℕ) (n k : ℕ) → length s ≡ n → get_or (s ++ t) (n + k) 0 ≡ get_or t k 0
get_or-behind [] t n k e = ap (λ j. get_or t j 0) (omega arith)
get_or-behind (c ∷ s) t zero k e = absurd (omega arith)
get_or-behind (c ∷ s) t (suc n) k e =
    ap (λ j. get_or (c ∷ (s ++ t)) j 0) {y = suc (n + k)} (omega arith)
    ∙ get_or-behind s t n k (omega arith)

-- A byte of a short entry behind the name.
behind_name :
    (fn : List ℕ) (tp fcl x y z k : ℕ)
    → byte (short_entry fn tp fcl (x ∷ y ∷ z ∷ [])) (11 + k) ≡ byte (attributes tp fcl) k
behind_name fn tp fcl x y z k =
    get_or-behind (short_name fn (x ∷ y ∷ z ∷ [])) (attributes tp fcl) 11 k
      (length-short_name fn x y z)

long_attr : (fn : List ℕ) → byte (long_entry fn) 11 ≡ dirent_lfn
long_attr fn =
    let t : List ℕ = ntmp 12 fn in
    get_or-behind (0x41 ∷ take 10 t)
      (dirent_lfn ∷ 0 ∷ 0 ∷ (take 12 (drop 10 t) ++ (0 ∷ 0 ∷ drop 22 t))) 11 0
      (omega (arith, length-take 10 t, length-ntmp 12 fn))

-- What _read_dir32 makes of a new file `fn` of type `tp`, in cluster `fcl`, whose entry is at `i`.
pub record IsNewFile (cl i tp fcl : ℕ) (fn : List ℕ) (s to : DirState) : Type 0 where
  pub dirents :
      to.dirents ≡ record { name = take 12 fn; inode = fcl; node = some s.vfs.next } ∷ s.dirents
  pub follows : to.follows ≡ false
  pub name : (to.vfs.nodes s.vfs.next).name ≡ take 12 fn
  pub mask : (to.vfs.nodes s.vfs.next).mask ≡ (if tp == fs_dir then fs_dir else fs_file_type)
  pub inode : (to.vfs.nodes s.vfs.next).inode ≡ fcl
  pub len : (to.vfs.nodes s.vfs.next).len ≡ 10
  pub impl2 : (to.vfs.nodes s.vfs.next).impl2 ≡ (cl, i)

-- The values that a normal entry is read for.
record HasValues (tp fcl : ℕ) (e : List ℕ) : Type 0 where
  attr : byte e 11 ≡ (if tp == fs_dir then dirent_directory else 0)
  first : word16 e 20 * 2 ^ 16 + word16 e 26 ≡ fcl
  size : word32 e 28 ≡ 10

short_values :
    (fn : List ℕ) (tp fcl x y z : ℕ)
    → fcl < 2 ^ 32
    → HasValues tp fcl (short_entry fn tp fcl (x ∷ y ∷ z ∷ []))
short_values fn tp fcl x y z lt =
    let at : (k : ℕ)
        → byte (short_entry fn tp fcl (x ∷ y ∷ z ∷ [])) (11 + k) ≡ byte (attributes tp fcl) k =
      behind_name fn tp fcl x y z in
    record {
      attr = at 0;
      first = omega (arith, at 9, at 10, at 15, at 16);
      size = omega (arith, at 17, at 18, at 19, at 20);
    }

-- The state behind the long entry.
abbrev behind_long : Dirent → DirState → DirState
behind_long d v = record v { dirents = d ∷ v.dirents; follows = true }

attr_not_long : (tp : ℕ) → ((if tp == fs_dir then dirent_directory else 0) == dirent_lfn) ≡ false
attr_not_long tp = elim (Bool-cases (tp == fs_dir)) [ inl e ↦ rw e refl | inr e ↦ rw e refl ]

attr_mask :
    (tp : ℕ)
    → (if bit_and (if tp == fs_dir then dirent_directory else 0) dirent_directory == 0
        then fs_file_type
        else fs_dir)
      ≡ (if tp == fs_dir then fs_dir else fs_file_type)
attr_mask tp = elim (Bool-cases (tp == fs_dir)) [ inl e ↦ rw e refl | inr e ↦ rw e refl ]

step_complete :
    (node cl i tp fcl : ℕ) (e : List ℕ) (d : Dirent) (v : DirState)
    → HasValues tp fcl e
    → dir_step node cl i e (behind_long d v) ≡ complete node cl i e (behind_long d v)
unfolding dir_step
step_complete node cl i tp fcl e d v h =
    let normal : (byte e 11 == dirent_lfn) ≡ false = rw h.attr (attr_not_long tp) in rw normal refl

complete_lem :
    (node cl i tp fcl : ℕ) (fn e : List ℕ) (d : Dirent) (v : DirState)
    → HasValues tp fcl e
    → d.name ≡ take 12 fn
    → IsNewFile cl i tp fcl fn v (complete node cl i e (behind_long d v))
unfolding complete fs_alloc
complete_lem node cl i tp fcl fn e d v h name =
    let here : (v.vfs.next == v.vfs.next) ≡ true = ground arith in
    record {
      dirents = rw (h.first, name) refl;
      follows = refl;
      name = rw here name;
      mask = rw (here, h.attr) (attr_mask tp);
      inode = rw here h.first;
      len = rw here h.size;
      impl2 = rw here refl;
    }

step_long :
    (node cl i : ℕ) (e : List ℕ) (s : DirState)
    → byte e 11 ≡ dirent_lfn
    → dir_step node cl i e s ≡ long_step e s
unfolding dir_step
step_long node cl i e s h =
    let is_long : (byte e 11 == dirent_lfn) ≡ true = rw h refl in rw is_long refl

IsNewFile-of :
    (cl i tp fcl : ℕ) (fn : List ℕ) (s to to' : DirState)
    → to ≡ to'
    → IsNewFile cl i tp fcl fn s to'
    → IsNewFile cl i tp fcl fn s to
IsNewFile-of cl i tp fcl fn s to to' e h = rw e h

-- The two entries that _add_dirent writes for a new file, read by _read_dir32 one after the other,
-- give one new dirent, with the first twelve bytes of the name, the first cluster, the type and
-- the length 10; its node notes the place of the second entry, 32 bytes behind the place that
-- _add_dirent itself notes.
pub put_entries_lem :
    (node cl i tp fcl : ℕ) (fn : List ℕ) (b : Bytes) (s : DirState)
    → IsText fn
    → fcl < 2 ^ 32
    → IsNewFile cl (i + 32) tp fcl fn s (
        dir_step node cl
          (i + 32)
          (entry_bytes (put_entries i fn tp fcl b) (i + 32))
          (dir_step node cl i (entry_bytes (put_entries i fn tp fcl b) i) s))
put_entries_lem node cl i tp fcl fn b s text lt =
    let long : List ℕ = long_entry fn in
    let short : List ℕ = short_entry fn tp fcl (old_name i b) in
    let d : Dirent = record { name = up_to_end (long_name long); inode = 0; node = none } in
    let values = short_values fn tp fcl (b (i + 40)) (b (i + 41)) (b (i + 42)) lt in
    let name : d.name ≡ take 12 fn =
      ap up_to_end (long_name-chars fn) ∙ up_to_end-chars 12 fn text in
    let first : dir_step node cl i (entry_bytes (put_entries i fn tp fcl b) i) s ≡ behind_long d s =
      ap (λ e. dir_step node cl i e s) (long_read i fn tp fcl b)
      ∙ step_long node cl i long s (long_attr fn) in
    IsNewFile-of cl (i + 32) tp fcl fn s
      (dir_step node cl (i + 32) (entry_bytes (put_entries i fn tp fcl b) (i + 32))
        (dir_step node cl i (entry_bytes (put_entries i fn tp fcl b) i) s))
      (complete node cl (i + 32) short (behind_long d s))
      (ap
          (λ e.
            dir_step node cl (i + 32) e
              (dir_step node cl i (entry_bytes (put_entries i fn tp fcl b) i) s))
          (short_read i fn tp fcl b)
        ∙ ap (dir_step node cl (i + 32) short) first
        ∙ step_complete node cl (i + 32) tp fcl short d s values)
      (complete_lem node cl (i + 32) tp fcl fn short d s values name)
