-- ===== src/Vfs/Path.antt =====
-- The walk of fs_finddir_path, against the names that a path is made of.
use strange_os.Prelude.{
  ℕ, zero, suc, ◌≤◌, ◌<◌, ◌≡◌, refl, ◌∙◌, false, Option, none, some, List, [], ◌∷◌, ◌++◌, arith,
  leb, ◌==◌, length, length-append, drop, replicate,
}
use strange_os.Str.{strlen, strchr, at, null}
use strange_os.Str.Copy.{IsText, strlen_lem, take-append_self}
use strange_os.Str.Compare.{contains, strchr_lem}
use strange_os.Vfs.{
  Vfs, Callbacks, Found, node_at, no_node, walk_fault, fs_finddir, skip_slashes, isolate, path_loop,
  fs_finddir_path,
}

-- A name in a path: neither empty nor too long, and without a slash.
pub record IsName (c : List ℕ) : Type 0 where
  pub text : IsText c
  pub no_slash : contains c b'/' ≡ false
  pub some_byte : 0 < length c
  pub fits : length c < 128

-- The text of a path: every name with the number of slashes in front of it.
unfoldable pub path_text : List (ℕ × List ℕ) → List ℕ
path_text [] = 0 ∷ []
path_text (part ∷ parts) = replicate part.0 b'/' ++ (part.1 ++ path_text parts)

-- Every name but the first has a slash in front of it.
abbrev pub AreNext : List (ℕ × List ℕ) → Type 0
AreNext [] = Unit {0}
AreNext (part ∷ parts) = (0 < part.0) × IsName part.1 × AreNext parts

-- One lookup after the other.
pub walk : Callbacks → ℕ → List (ℕ × List ℕ) → Found → Vfs → Found × Vfs
walk ops links [] np v = (np, v)
walk ops links (part ∷ parts) no_node v = (no_node, v)
walk ops links (part ∷ parts) walk_fault v = (walk_fault, v)
walk ops links (part ∷ parts) (node_at n) v =
    let r = fs_finddir ops links n part.1 v in walk ops links parts r.0 r.1

drop_front : (c s : List ℕ) → drop (length c) (c ++ s) ≡ s
drop_front [] s = refl
drop_front (x ∷ c) s = drop_front c s

skip_name : (c s : List ℕ) → IsName c → skip_slashes (c ++ s) ≡ c ++ s
skip_name [] s h = absurd (omega (arith, h.some_byte))
skip_name (x ∷ c) s h = let out = h.no_slash in ground arith

skip_slashes_lem : (k : ℕ) (s : List ℕ) → skip_slashes (replicate k b'/' ++ s) ≡ skip_slashes s
skip_slashes_lem zero s = refl
skip_slashes_lem (suc k) s = skip_slashes_lem k s

isolate-last : (c : List ℕ) → IsName c → isolate (c ++ (0 ∷ [])) ≡ some (c, none)
unfolding isolate
isolate-last c h =
    let search : strchr (c ++ (0 ∷ [])) b'/' ≡ null =
      (strchr_lem [] [] c [] b'/' tt h.text (λ e. absurd (omega arith)) refl h.no_slash).1 in
    let size : strlen (c ++ (0 ∷ [])) ≡ some (length c) = strlen_lem c [] h.text in
    let short : leb 128 (length c) ≡ false = ground (arith, h.fits) in
    rw (isolate, search, size, short, take-append_self c (0 ∷ [])) refl

isolate-next : (c s : List ℕ) → IsName c → isolate (c ++ (b'/' ∷ s)) ≡ some (c, some (b'/' ∷ s))
unfolding isolate
isolate-next c s h =
    let search : strchr (c ++ (b'/' ∷ s)) b'/' ≡ at (length c) =
      (strchr_lem c s [] [] b'/' h.text tt (λ e. absurd (omega arith)) h.no_slash refl).0 in
    let short : leb 128 (length c) ≡ false = ground (arith, h.fits) in
    rw (isolate, search, short, take-append_self c (b'/' ∷ s), drop_front c (b'/' ∷ s)) refl

-- What is left of a path behind a name: NULL at its end.
abbrev rest_of : List (ℕ × List ℕ) → Option (List ℕ)
rest_of [] = none
rest_of (part ∷ parts) = some (path_text (part ∷ parts))

isolate_lem :
    (part : ℕ × List ℕ) (parts : List (ℕ × List ℕ))
    → IsName part.1
    → AreNext parts
    → isolate (skip_slashes (path_text (part ∷ parts))) ≡ some (part.1, rest_of parts)
unfolding path_text
isolate_lem (k, c) [] h next =
    rw (skip_slashes_lem k (c ++ (0 ∷ [])), skip_name c (0 ∷ []) h) (isolate-last c h)
isolate_lem (k, c) ((zero, d) ∷ parts) h next = absurd (omega (arith, next.0))
isolate_lem (k, c) ((suc j, d) ∷ parts) h next =
    let s : List ℕ = path_text ((suc j, d) ∷ parts) in
    rw (skip_slashes_lem k (c ++ s), skip_name c s h)
      (isolate-next c (replicate j b'/' ++ (d ++ path_text parts)) h)

-- The rounds that a path needs are at most its bytes.
path_text-length :
    (part : ℕ × List ℕ) (parts : List (ℕ × List ℕ))
    → IsName part.1
    → length (path_text parts) < length (path_text (part ∷ parts))
unfolding path_text
path_text-length (k, c) parts h = omega (
  arith,
  length-append (replicate k b'/') (c ++ path_text parts),
  length-append c (path_text parts),
  h.some_byte,
)

path_loop-step :
    (ops : Callbacks) (links rounds n : ℕ) (p : List ℕ) (r : List ℕ × Option (List ℕ)) (v : Vfs)
    → isolate (skip_slashes p) ≡ some r
    → path_loop ops links (suc rounds) (some p) (node_at n) v
      ≡ path_loop ops links rounds r.1
          (fs_finddir ops links n r.0 v).0
          (fs_finddir ops links n r.0 v).1
unfolding path_loop
path_loop-step ops links rounds n p r v e = rw (path_loop, e) refl

path_loop_lem :
    (ops : Callbacks) (links rounds : ℕ) (part : ℕ × List ℕ) (parts : List (ℕ × List ℕ))
    (np : Found) (v : Vfs)
    → IsName part.1
    → AreNext parts
    → length (path_text (part ∷ parts)) ≤ rounds
    → path_loop ops links rounds (some (path_text (part ∷ parts))) np v
      ≡ walk ops links (part ∷ parts) np v
unfolding path_loop walk
path_loop_lem ops links rounds part parts no_node v h next enough = refl
path_loop_lem ops links rounds part parts walk_fault v h next enough = refl
path_loop_lem ops links zero part parts (node_at n) v h next enough =
    absurd (omega (arith, path_text-length part parts h))
path_loop_lem ops links (suc rounds) part [] (node_at n) v h next enough =
    path_loop-step ops links rounds n (path_text (part ∷ [])) (part.1, none) v
      (isolate_lem part [] h next)
path_loop_lem ops links (suc rounds) part (part' ∷ parts) (node_at n) v h next enough =
    path_loop-step ops links rounds n (path_text (part ∷ part' ∷ parts))
      (part.1, some (path_text (part' ∷ parts))) v (isolate_lem part (part' ∷ parts) h next)
    ∙ path_loop_lem ops links rounds part' parts (fs_finddir ops links n part.1 v).0
        (fs_finddir ops links n part.1 v).1 next.1 next.2
        (omega (arith, path_text-length part (part' ∷ parts) h))

-- A walk along a path is one lookup after the other, of the names in it: whatever the number of
-- slashes in front of each, if there is one in front of every name but the first, and no name has
-- 128 bytes or more; it ends within the rounds that are as many as the path has bytes.
pub fs_finddir_path_lem :
    (ops : Callbacks) (links n : ℕ) (part : ℕ × List ℕ) (parts : List (ℕ × List ℕ)) (v : Vfs)
    → IsName part.1
    → AreNext parts
    → fs_finddir_path ops links n (path_text (part ∷ parts)) v
      ≡ walk ops links (part ∷ parts) (node_at n) v
unfolding fs_finddir_path path_text
fs_finddir_path_lem ops links n (zero, []) parts v h next = absurd (omega (arith, h.some_byte))
fs_finddir_path_lem ops links n (zero, c ∷ cs) parts v h next =
    let more : (c == 0) ≡ false = (let nz = h.text.0 in ground arith) in
    rw more (
      path_loop_lem ops links (length (path_text ((zero, c ∷ cs) ∷ parts))) (zero, c ∷ cs) parts
        (node_at n) v h next (omega arith))
fs_finddir_path_lem ops links n (suc k, c) parts v h next =
    path_loop_lem ops links (length (path_text ((suc k, c) ∷ parts))) (suc k, c) parts (node_at n) v
      h next (omega arith)
