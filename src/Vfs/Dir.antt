-- ===== src/Vfs/Dir.antt =====
-- Lookups in a directory: fs_finddir, fs_filldir and fs_readdir.
use strange_os.Prelude.{
  ◌<◌, sym, ℕ, zero, suc, ◌≡◌, ◌≢◌, refl, ap, ◌∙◌, ◌⊎◌, inl, inr, true, false, not, ◌&&◌, Option,
  none, some, List, [], ◌∷◌, ◌++◌, arith, ◌==◌, if◌then◌else◌, length, get_elem?, Bool-cases,
  Option-cases,
}
use mathlib.Core.Path.{subst}
use strange_os.Str.{kstreq}
use strange_os.Str.Copy.{IsText}
use strange_os.Str.Compare.{same_text, kstreq_lem, same_text-eq}
use strange_os.Vfs.{
  Vfs, Dirent, Callbacks, put_node, follow, filldir_at, fill_once, is_no_dir, name_is, find_dirent,
  found, finddir_at, fs_finddir, readdir_loop, fs_readdir,
}

-- The names of the dirents have no terminator inside.
abbrev pub AreTexts : List Dirent → Type 0
AreTexts [] = Unit {0}
AreTexts (d ∷ ds) = IsText d.name × AreTexts ds

-- `d` is the first of the dirents with the name, and `none` that there is none.
abbrev pub IsFirst : List Dirent → List ℕ → Option Dirent → Type 0
IsFirst [] s none = Unit {0}
IsFirst [] s (some d) = ⊥
IsFirst (e ∷ ds) s o = ((e.name ≡ s) × (o ≡ some e)) ⊎ ((e.name ≢ s) × IsFirst ds s o)

name_is_lem : (a b : List ℕ) → IsText a → IsText b → name_is a b ≡ same_text a b
unfolding name_is
name_is_lem a b ha hb =
    let e : kstreq (a ++ (0 ∷ [])) (b ++ (0 ∷ [])) ≡ some (same_text a b) =
      kstreq_lem a b [] [] ha hb in
    rw (name_is, e) refl

find_dirent-IsFirst :
    (ds : List Dirent) (s : List ℕ) → AreTexts ds → IsText s → IsFirst ds s (find_dirent ds s)
unfolding find_dirent
find_dirent-IsFirst [] s texts text = tt
find_dirent-IsFirst (d ∷ ds) s texts text = elim (Bool-cases (same_text d.name s)) [
  | inl e ↦ rw (name_is_lem d.name s texts.0 text, e) (inl ((same_text-eq d.name s).0 e, refl))
  | inr e ↦
      rw (name_is_lem d.name s texts.0 text, e)
        (inr (
          (λ is. absurd (ground (arith, (same_text-eq d.name s).1 is))),
          find_dirent-IsFirst ds s texts.1 text,
        ))
]

list_cases :
    (ds : List Dirent) → (ds ≡ []) ⊎ ((d : Dirent) × (rest : List Dirent) × (ds ≡ d ∷ rest))
list_cases [] = inl refl
list_cases (d ∷ ds) = inr (d, ds, refl)

-- Every node that there is in `v` has the same link, and the same mask.
abbrev pub SameLinks : Vfs → Vfs → Type 0
SameLinks v w =
    (x : ℕ)
    → x < v.next
    → ((w.nodes x).ptr ≡ (v.nodes x).ptr) × ((w.nodes x).mask ≡ (v.nodes x).mask)

-- The callbacks that fill directory `m` leave the links and the masks of the nodes that there are.
abbrev pub KeepLinks : Callbacks → ℕ → Vfs → Type 0
KeepLinks ops m v = (i : ℕ) (fd : ℕ → Vfs → Vfs) → ops.fd i ≡ some fd → SameLinks v (fd m v)

-- Links lead to nodes that there are.
abbrev pub AreLinked : Vfs → Type 0
AreLinked v = (x y : ℕ) → x < v.next → (v.nodes x).ptr ≡ some y → y < v.next

follow-same :
    (rounds n : ℕ) (v w : Vfs)
    → SameLinks v w
    → AreLinked v
    → n < v.next
    → follow rounds w n ≡ follow rounds v n
unfolding follow
follow-same zero n v w same linked lt = rw (follow, (same n lt).0) refl
follow-same (suc rounds) n v w same linked lt = elim (Option-cases (v.nodes n).ptr) [
  | inl e ↦ rw (follow, (same n lt).0, e) refl
  | inr (m, e) ↦
      rw (follow, (same n lt).0, e) (follow-same rounds m v w same linked (linked n m lt e))
]

follow-lt :
    (rounds n m : ℕ) (v : Vfs) → AreLinked v → n < v.next → follow rounds v n ≡ some m → m < v.next
unfolding follow
follow-lt zero n m v linked lt at = elim (Option-cases (v.nodes n).ptr) [
  | inl e ↦
      let stays : follow zero v n ≡ some n = rw (follow, e) refl in
      let is : n ≡ m = (let both = sym stays ∙ at in cc) in subst (λ x. x < v.next) is lt
  | inr (k, e) ↦
      let stops : follow zero v n ≡ none = rw (follow, e) refl in
      absurd (let both = sym stops ∙ at in cc)
]
follow-lt (suc rounds) n m v linked lt at = elim (Option-cases (v.nodes n).ptr) [
  | inl e ↦
      let stays : follow (suc rounds) v n ≡ some n = rw (follow, e) refl in
      let is : n ≡ m = (let both = sym stays ∙ at in cc) in subst (λ x. x < v.next) is lt
  | inr (k, e) ↦
      let goes : follow (suc rounds) v n ≡ follow rounds v k = rw (follow, e) refl in
      follow-lt rounds k m v linked (linked n k lt e) (sym goes ∙ at)
]

put_impl-SameLinks :
    (v w : Vfs) (n : ℕ)
    → SameLinks v w
    → SameLinks v (put_node w n (record (w.nodes n) { impl = true }))
put_impl-SameLinks v w n same x lt = elim (Bool-cases (x == n)) [
  | inl e ↦ let at : x ≡ n = ground arith in rw (e, at) (same n (subst (λ y. y < v.next) at lt))
  | inr e ↦ rw e (same x lt)
]

filldir_at-SameLinks :
    (ops : Callbacks) (n : ℕ) (v : Vfs) → KeepLinks ops n v → SameLinks v (filldir_at ops n v)
unfolding filldir_at
filldir_at-SameLinks ops n v keep = elim (Option-cases (v.nodes n).fs) [
  | inl e ↦ rw (filldir_at, e) (put_impl-SameLinks v v n (λ x lt. (refl, refl)))
  | inr (i, e) ↦ elim (Option-cases (ops.fd i)) [
    | inl e' ↦ rw (filldir_at, e, e') (put_impl-SameLinks v v n (λ x lt. (refl, refl)))
    | inr (fd, e') ↦ rw (filldir_at, e, e') (put_impl-SameLinks v (fd n v) n (keep i fd e'))
  ]
]

filldir_at-impl : (ops : Callbacks) (n : ℕ) (v : Vfs) → ((filldir_at ops n v).nodes n).impl ≡ true
unfolding filldir_at
filldir_at-impl ops n v = let at : (n == n) ≡ true = ground arith in rw at refl

fill_once-SameLinks :
    (ops : Callbacks) (n : ℕ) (v : Vfs) → KeepLinks ops n v → SameLinks v (fill_once ops n v)
unfolding fill_once
fill_once-SameLinks ops n v keep = elim (list_cases (v.nodes n).first) [
  | inl e ↦ elim (Bool-cases (v.nodes n).impl) [
    | inl e' ↦ rw (fill_once, e, e') (λ x lt. (refl, refl))
    | inr e' ↦ rw (fill_once, e, e') (filldir_at-SameLinks ops n v keep)
  ]
  | inr (d, ds, e) ↦ rw (fill_once, e) (λ x lt. (refl, refl))
]

fill_once-impl :
    (ops : Callbacks) (n : ℕ) (v : Vfs) → (v.nodes n).impl ≡ true → fill_once ops n v ≡ v
unfolding fill_once
fill_once-impl ops n v h = elim (list_cases (v.nodes n).first) [
  | inl e ↦ rw (fill_once, e, h) refl
  | inr (d, ds, e) ↦ rw (fill_once, e) refl
]

-- A directory is filled once.
fill_once-twice :
    (ops : Callbacks) (n : ℕ) (v : Vfs) → fill_once ops n (fill_once ops n v) ≡ fill_once ops n v
unfolding fill_once
fill_once-twice ops n v = elim (list_cases (v.nodes n).first) [
  | inl e ↦ elim (Bool-cases (v.nodes n).impl) [
    | inl e' ↦ ap (fill_once ops n) (fill_once-impl ops n v e')
    | inr e' ↦
        let filled : fill_once ops n v ≡ filldir_at ops n v = rw (fill_once, e, e') refl in
        rw filled (fill_once-impl ops n (filldir_at ops n v) (filldir_at-impl ops n v))
  ]
  | inr (d, ds, e) ↦
      let same : fill_once ops n v ≡ v = rw (fill_once, e) refl in ap (fill_once ops n) same
]

-- A lookup, once the node is known and is a directory.
finddir_known :
    (ops : Callbacks) (links n m : ℕ) (s : List ℕ) (v : Vfs)
    → follow links v n ≡ some m
    → is_no_dir (v.nodes m).mask ≡ false
    → fs_finddir ops links n s v
      ≡ (found (find_dirent ((fill_once ops m v).nodes m).first s), fill_once ops m v)
unfolding fs_finddir finddir_at
finddir_known ops links n m s v e e' = rw (fs_finddir, e, e') refl

-- In a directory, behind the links of its node, a lookup fills the directory if that was not done
-- and gives the node of the first dirent with the name, or NULL if there is none; every further
-- lookup finds what is in the list then and changes nothing. The names are texts, the nodes on the
-- way are there, and filling the directory leaves the links and the masks of the nodes that there
-- are, as fat_filldir does.
pub fs_finddir_lem :
    (ops : Callbacks) (links n m : ℕ) (s : List ℕ) (v : Vfs)
    → KeepLinks ops m v
    → AreLinked v
    → n < v.next
    → follow links v n ≡ some m
    → is_no_dir (v.nodes m).mask ≡ false
    → AreTexts ((fill_once ops m v).nodes m).first
    → IsText s
    → ((d : Option Dirent) × IsFirst ((fs_finddir ops links n s v).1.nodes m).first s d
        × ((fs_finddir ops links n s v).0 ≡ found d))
      × ((s' : List ℕ)
          → fs_finddir ops links n s' (fs_finddir ops links n s v).1 ≡ (
            found (find_dirent ((fs_finddir ops links n s v).1.nodes m).first s'),
            (fs_finddir ops links n s v).1,
          ))
fs_finddir_lem ops links n m s v keep linked lt at dir texts text =
    let w : Vfs = fill_once ops m v in
    let known = finddir_known ops links n m s v at dir in
    let same : SameLinks v w = fill_once-SameLinks ops m v keep in
    rw known (
      (find_dirent (w.nodes m).first s, find_dirent-IsFirst (w.nodes m).first s texts text, refl),
      λ s'.
          finddir_known ops links n m s' w (follow-same links n v w same linked lt ∙ at)
            (rw (same m (follow-lt links n m v linked lt at)).1 dir)
          ∙ rw (fill_once-twice ops m v) refl,
    )

readdir_loop_lem :
    (i : ℕ) (d : Dirent) (ds : List Dirent) → readdir_loop i (d ∷ ds) ≡ some (get_elem? (d ∷ ds) i)
unfolding readdir_loop
readdir_loop_lem zero d ds = refl
readdir_loop_lem (suc zero) d [] = refl
readdir_loop_lem (suc (suc i)) d [] = refl
readdir_loop_lem (suc i) d (e ∷ ds) = readdir_loop_lem i e ds

readdir_empty : (i : ℕ) → readdir_loop i [] ≡ (if not (i == 0) then none else some none)
unfolding readdir_loop
readdir_empty zero = refl
readdir_empty (suc i) = ground arith

-- fs_readdir gives the dirents of a directory that is not empty by their position, and NULL behind
-- the last one; at every position but 0 of an empty directory it reads through NULL.
pub fs_readdir_lem :
    (ops : Callbacks) (links n m i : ℕ) (v : Vfs)
    → follow links v n ≡ some m
    → is_no_dir (v.nodes m).mask ≡ false
    → (fs_readdir ops links n i v).0 ≡ (
        if (length ((fill_once ops m v).nodes m).first == 0) && not (i == 0)
        then none
        else some (get_elem? ((fill_once ops m v).nodes m).first i))
unfolding fs_readdir readdir_loop
fs_readdir_lem ops links n m i v at dir = elim (list_cases ((fill_once ops m v).nodes m).first) [
  | inl e ↦ rw (fs_readdir, at, dir, e) (readdir_empty i)
  | inr (d, ds, e) ↦
      let some_dirent : (suc (length ds) == 0) ≡ false = ground arith in
      rw (fs_readdir, at, dir, e, some_dirent) (readdir_loop_lem i d ds)
]
