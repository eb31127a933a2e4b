-- ===== src/Console/Keys.antt =====
-- A line typed on the keyboard: what kgets puts into the caller's buffer.
use strange_os.Prelude.{
  ℕ, zero, suc, ◌+◌, ◌-◌, ◌<◌, ◌≡◌, ◌≢◌, refl, ap, Bool, false, ◌&&◌, Option, some, List, [], ◌∷◌,
  ◌++◌, ◌^◌, min, ◌∙◌, map, arith, ltb, leb, ◌==◌, if◌then◌else◌, get_or, length,
}
use mathlib.Core.Path.{fun_ext}
use strange_os.Vga.{Bytes, write}
use strange_os.Console.{
  Console, scancodes, newline, key_char, room, Line, kgets_key, kgets_loop, kgets, kflush, kprintc,
  kprintnl,
}

-- Keys that type a character each: no shift, no backspace, not enter.
abbrev pub IsPlain : ℕ → Type 0
IsPlain sc =
    (sc < 58)
    × (sc ≢ 0x2a)
    × (sc ≢ 0x0e)
    × (get_or scancodes sc 0 ≢ 0)
    × (get_or scancodes sc 0 ≢ newline)

abbrev pub AllPlain : List ℕ → Type 0
AllPlain [] = Unit {0}
AllPlain (sc ∷ keys) = IsPlain sc × AllPlain keys

abbrev pub typed : List ℕ → List ℕ
typed keys = map (λ sc. get_or scancodes sc 0) keys

-- What the line holds once the characters `s` are typed from place `n` on, with room for `m`.
abbrev pub buffer_after : ℕ → ℕ → List ℕ → Bytes → ℕ → ℕ
buffer_after m n s buf i =
    if leb n i && (ltb i (n + length s) && ltb i m) then get_or s (i - n) 0 else buf i

-- What the console shows once they are typed.
abbrev pub echo : List ℕ → Console → Console
echo [] c = c
echo (ch ∷ s) c = echo s (kflush (kprintc ch c))

-- One round for a character that is put into the line.
kgets_key-put :
    (sz sc ch i : ℕ) (l : Line)
    → sc ≢ 0x2a
    → sc ≢ 0xaa
    → sc ≢ 0x0e
    → ch ≢ 0
    → ch ≢ newline
    → ((kgets_key sz sc ch l).sh ≡ l.sh)
      × ((kgets_key sz sc ch l).nch ≡ l.nch + 1)
      × ((kgets_key sz sc ch l).buf i ≡ (if i == l.nch && ltb l.nch (room sz) then ch else l.buf i))
      × ((kgets_key sz sc ch l).con ≡ kflush (kprintc ch l.con))
unfolding kgets_key
kgets_key-put sz sc ch i l h1 h2 h3 h4 h5 = ground arith

-- The round for the enter key.
kgets_key-enter : (sz : ℕ) (l : Line) → kgets_key sz 28 newline l ≡ l
unfolding kgets_key
kgets_key-enter sz l = refl

get_or-cons :
    (ch k : ℕ) (s : List ℕ) → get_or (ch ∷ s) k 0 ≡ (if k == 0 then ch else get_or s (k - 1) 0)
get_or-cons ch zero s = refl
get_or-cons ch (suc k) s = ground arith

-- One more character in front.
buffer_after-step :
    (m n n' ch i : ℕ) (s : List ℕ) (old new : Bytes)
    → n' ≡ n + 1
    → new i ≡ (if i == n && ltb n m then ch else old i)
    → buffer_after m n' s new i ≡ buffer_after m n (ch ∷ s) old i
buffer_after-step m n n' ch i s old new e h =
    let cons = get_or-cons ch (i - n) s in
    let back : i - n - 1 ≡ i - n' = omega arith in ground arith

kgets_loop-enter :
    (sz sc : ℕ) (keys : List ℕ) (l : Line)
    → key_char l.sh sc ≡ newline
    → kgets_loop sz (sc ∷ keys) l ≡ some (kgets_key sz sc newline l, keys)
unfolding kgets_loop
kgets_loop-enter sz sc keys l h = rw h refl

eq_no : (a b : ℕ) → a ≢ b → (a == b) ≡ false
eq_no a b h = ground arith

kgets_loop-key :
    (sz sc ch : ℕ) (keys : List ℕ) (l : Line)
    → key_char l.sh sc ≡ ch
    → ch ≢ newline
    → kgets_loop sz (sc ∷ keys) l ≡ kgets_loop sz keys (kgets_key sz sc ch l)
unfolding kgets_loop
kgets_loop-key sz sc ch keys l h ne =
    let e : (ch == newline) ≡ false = eq_no ch newline ne in rw h (rw e refl)

key_char-plain :
    (sc : ℕ) (sh : Bool) → sh ≡ false → sc < 58 → key_char sh sc ≡ get_or scancodes sc 0
key_char-plain sc sh h lt = ground arith

kgets_loop-plain :
    (sz : ℕ) (keys rest : List ℕ) (l : Line)
    → AllPlain keys
    → l.sh ≡ false
    → (l' : Line) × (kgets_loop sz (keys ++ 28 ∷ rest) l ≡ some (l', rest))
      × (l'.nch ≡ l.nch + length keys)
      × (l'.con ≡ echo (typed keys) l.con)
      × ((i : ℕ) → l'.buf i ≡ buffer_after (room sz) l.nch (typed keys) l.buf i)
kgets_loop-plain sz [] rest l h sh =
    let e : kgets_loop sz (28 ∷ rest) l ≡ some (l, rest) =
      kgets_loop-enter sz 28 rest l (key_char-plain 28 l.sh sh (omega arith))
      ∙ rw (kgets_key-enter sz l) refl in
    (l, e, omega arith, refl, λ i. ground arith)
kgets_loop-plain sz (sc ∷ keys) rest l h sh =
    let ch = get_or scancodes sc 0 in
    let round : Line = kgets_key sz sc ch l in
    let put = λ (i : ℕ). kgets_key-put sz sc ch i l h.0.1 (omega arith) h.0.2 h.0.3 h.0.4 in
    let key =
      kgets_loop-key sz sc ch (keys ++ 28 ∷ rest) l (key_char-plain sc l.sh sh h.0.0) h.0.4 in
    let (last, e, nch, con, buf) =
      kgets_loop-plain sz keys rest (kgets_key sz sc ch l) h.1 ((put 0).0 ∙ sh) in
    (
      last,
      key ∙ e,
      omega (arith, (put 0).1),
      con ∙ ap (echo (typed keys)) (put 0).3,
      λ i.
          buf i
          ∙ buffer_after-step (room sz) l.nch round.nch ch i (typed keys) l.buf round.buf (put 0).1
              (put i).2,
    )

-- The caller's buffer: the characters that there is room for, and a terminator behind the last.
abbrev pub line_text : ℕ → List ℕ → Bytes → Bytes
line_text sz s buf i =
    if i == length s then 0 else (if ltb i (min (length s) (sz - 1)) then get_or s i 0 else buf i)

length-typed : (keys : List ℕ) → length (typed keys) ≡ length keys
length-typed [] = refl
length-typed (sc ∷ keys) = ap suc (length-typed keys)

room_lem : (sz : ℕ) → 0 < sz → sz < 2 ^ 31 → room sz ≡ sz - 1
unfolding room
room_lem sz h1 h2 = ground arith

line_text_lem :
    (sz i : ℕ) (s : List ℕ) (buf last : Bytes)
    → 0 < sz
    → sz < 2 ^ 31
    → last i ≡ buffer_after (room sz) 0 s buf i
    → write last (length s) 0 i ≡ line_text sz s buf i
line_text_lem sz i s buf last h1 h2 h = let r : room sz ≡ sz - 1 = room_lem sz h1 h2 in ground arith

line_result :
    {n : ℕ} {c : Console} {text : Bytes} (l : Line) (rest : List ℕ)
    → l.nch ≡ n
    → l.con ≡ c
    → write l.buf n 0 ≡ text
    → ◌≡◌ {A = Option (Bytes × ℕ × Console × List ℕ)}
        (some (write l.buf l.nch 0, l.nch, kprintnl l.con, rest))
        (some (text, n, kprintnl c, rest))
line_result {n = n} l rest h1 h2 h3 i =
    some (((ap (λ m. write l.buf m 0) h1) ∙ h3) i, h1 i, kprintnl (h2 i), rest)

-- A line of plain keys and enter, in a buffer of sz bytes, 0 < sz < 2 ^ 31: the buffer gets the
-- characters that there is room for (sz - 1 at most) and a terminator behind the last one typed,
-- also past the end of the buffer; each character is shown on the console, and the keys behind
-- enter are left.
pub kgets_lem :
    (sz : ℕ) (keys rest : List ℕ) (buf : Bytes) (c : Console)
    → 0 < sz
    → sz < 2 ^ 31
    → AllPlain keys
    → kgets sz (keys ++ 28 ∷ rest) buf c
      ≡ some (line_text sz (typed keys) buf, length keys, kprintnl (echo (typed keys) c), rest)
unfolding kgets
kgets_lem sz keys rest buf c h1 h2 h =
    let (last, e, nch, con, text) =
      kgets_loop-plain sz keys rest (record { buf = buf; sh = false; nch = 0; con = c }) h refl in
    let whole : write last.buf (length (typed keys)) 0 ≡ line_text sz (typed keys) buf =
      fun_ext (λ i. line_text_lem sz i (typed keys) buf last.buf h1 h2 (text i)) in
    let len : length (typed keys) ≡ length keys = length-typed keys in
    let count : last.nch ≡ length (typed keys) = omega arith in
    rw (kgets, e) (line_result last rest count con whole ∙ rw len refl)
