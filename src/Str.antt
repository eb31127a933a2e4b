-- ===== src/Str.antt =====
-- The string and memory functions of the kernel, src/kernel/util/string.c, the copies of two of
-- them in src/stdlib/string.c, and the comparison of the shell, src/user/sh.c.
-- A `char *` is the list of the bytes from the pointer to the end of the object that it points
-- into. A read behind that end is a fault, `none`.
pub mod Copy
pub mod Compare
mod Examples
use strange_os.Prelude.{
  ℕ, zero, suc, ◌+◌, ◌-◌, ◌≡◌, Bool, true, false, not, ◌&&◌, ◌||◌, Option, none, some, List, [],
  ◌∷◌, ◌++◌, ltb, ◌==◌, if◌then◌else◌, get_elem?, get_or, set,
}
use strange_os.Prelude.Int.{ℤ, pos, negsuc, sub_ℕ}

strlen_loop : List ℕ → ℕ → Option ℕ
strlen_loop [] res = none
strlen_loop (c ∷ s) res = if c == 0 then some res else strlen_loop s (res + 1)

unfoldable pub strlen : List ℕ → Option ℕ
unfolding strlen_loop
strlen s = strlen_loop s 0

std_strlen_loop : List ℕ → ℕ → Option ℕ
std_strlen_loop [] n = none
std_strlen_loop (c ∷ s) n = if not (c == 0) then std_strlen_loop s (n + 1) else some n

-- `_std_strlen` of the user library.
unfoldable pub std_strlen : List ℕ → Option ℕ
unfolding std_strlen_loop
std_strlen s = std_strlen_loop s 0

-- A `char` is signed: the byte `c` as an int.
abbrev pub char_value : ℕ → ℤ
char_value c = if ltb c 128 then pos c else negsuc (255 - c)

-- `(size_t)x - (size_t)y`, where `size_t` is an int.
abbrev pub char_diff : ℕ → ℕ → ℤ
char_diff x y =
    if (ltb x 128)
    then (if ltb y 128 then sub_ℕ x y else pos (x + 256 - y))
    else (if ltb y 128 then negsuc (y + 255 - x) else sub_ℕ x y)

strcmp_end : ℕ → ℕ → ℤ
strcmp_end x y = if x == 0 || y == 0 then pos 0 else char_diff x y

unfoldable pub strcmp : List ℕ → List ℕ → Option ℤ
unfolding strcmp_end
strcmp [] b = none
strcmp (x ∷ a) [] = none
strcmp (x ∷ a) (y ∷ b) =
    let rest = strcmp a b in
    if x == y
    then (if x == 0 || y == 0 then some (strcmp_end x y) else rest)
    else some (strcmp_end x y)

-- `std_strcmp` is the copy of `strcmp` in the user library.
unfoldable pub std_strcmp : List ℕ → List ℕ → Option ℤ
unfolding strcmp_end
std_strcmp [] b = none
std_strcmp (x ∷ a) [] = none
std_strcmp (x ∷ a) (y ∷ b) =
    let rest = std_strcmp a b in
    if x == y
    then (if x == 0 || y == 0 then some (strcmp_end x y) else rest)
    else some (strcmp_end x y)

-- The pointer that `strchr` returns, as an offset from `s`.
pub data Search : Type 0 where
  at : ℕ → Search
  null : Search
  fault : Search

strchr_loop : List ℕ → ℕ → ℕ → Search
strchr_loop [] c i = fault
strchr_loop (n ∷ s) c i =
    let rest = strchr_loop s c (i + 1) in if n == 0 then null else if n == c then at i else rest

unfoldable pub strchr : List ℕ → ℕ → Search
unfolding strchr_loop
strchr s c = strchr_loop s c 0

-- `for (i = 0; i < n; i++) b[i] = a[i]`, with `n - i` rounds left. The two objects are distinct.
memcpy_loop : ℕ → ℕ → List ℕ → List ℕ → Option (List ℕ)
memcpy_loop zero i b a = some b
memcpy_loop (suc k) i b a = elim (get_elem? b i) [
  | none ↦ none
  | some _ ↦ elim (get_elem? a i) [ none ↦ none | some x ↦ memcpy_loop k (i + 1) (set b i x) a ]
]

unfoldable pub memcpy : List ℕ → List ℕ → ℕ → Option (List ℕ)
unfolding memcpy_loop
memcpy b a n = memcpy_loop n 0 b a

memset_loop : ℕ → ℕ → List ℕ → ℕ → Option (List ℕ)
memset_loop zero i m c = some m
memset_loop (suc k) i m c = elim (get_elem? m i) [
  | none ↦ none
  | some _ ↦ memset_loop k (i + 1) (set m i c) c
]

unfoldable pub memset : List ℕ → ℕ → ℕ → Option (List ℕ)
unfolding memset_loop
memset m c n = memset_loop n 0 m c

-- `dst[len] = 0`
store_end : List ℕ → ℕ → Option (List ℕ)
store_end dst len = elim (get_elem? dst len) [ none ↦ none | some _ ↦ some (set dst len 0) ]

unfoldable pub strcpy : List ℕ → List ℕ → Option (List ℕ)
unfolding strlen memcpy store_end
strcpy dst src = elim (strlen src) [
  | none ↦ none
  | some len ↦ elim (memcpy dst src len) [ none ↦ none | some d ↦ store_end d len ]
]

unfoldable pub kstreq_loop : ℕ → ℕ → List ℕ → List ℕ → Bool
kstreq_loop zero i a b = true
kstreq_loop (suc k) i a b =
    let rest = kstreq_loop k (i + 1) a b in
    if not (get_or a i 0 == get_or b i 0) then false else rest

-- The reads `a[i]`, `b[i]` lie below the terminators that `strlen` has found.
unfoldable pub kstreq : List ℕ → List ℕ → Option Bool
kstreq a b = elim (strlen a) [
  | none ↦ none
  | some al ↦ elim (strlen b) [
    | none ↦ none
    | some bl ↦ some (if not (al == bl) then false else kstreq_loop al 0 a b)
  ]
]

-- `streq` of the shell.
unfoldable pub streq : List ℕ → List ℕ → Option Bool
streq [] b = none
streq (x ∷ a) [] = none
streq (x ∷ a) (y ∷ b) =
    let rest = streq a b in
    if not (x == 0) && not (y == 0)
    then (if not (x == y) then some false else rest)
    else some (x == y)

-- The text in the front of an array: the bytes before the terminator.
abbrev pub up_to_end : List ℕ → List ℕ
up_to_end [] = []
up_to_end (c ∷ s) = if c == 0 then [] else c ∷ up_to_end s
