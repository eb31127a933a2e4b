-- ===== src/Process/Calls.antt =====
-- exec and exit: what a process finds when the one that it started has ended.
use mathlib.Core.Path.{subst}
use strange_os.Prelude.{
  ℕ, ◌+◌, ◌*◌, ◌≡◌, ◌≢◌, refl, sym, ap, ◌∙◌, false, Option, none, some, List, ◌∷◌, arith, ◌==◌,
  length,
}
use strange_os.Prelude.Int.{pos, minus_one}
use strange_os.Page.{Paging, paging_map}
use strange_os.Process.{
  Registers, State, null, window, window_size, mem_base, process_alloc, process_load, enter,
  process_map, process_pop,
}
use strange_os.Process.Stack.{
  Chain, IsStack, has, process_alloc-IsStack, process_pop-IsStack, SameLinks, Chain-same,
}

enter-SameLinks : (e : ℕ) (r : Registers) (s : State) → SameLinks s.procs (enter e r s).procs
unfolding enter
enter-SameLinks e r s c = (ground arith, ground arith, ground arith, ground arith, ground arith)

cur-enter : (e : ℕ) (r : Registers) (s : State) → (enter e r s).cur ≡ s.cur
unfolding enter
cur-enter e r s = ground arith

enter-IsStack :
    (e : ℕ) (r : Registers) (s : State) (xs : List ℕ) → IsStack s xs → IsStack (enter e r s) xs
enter-IsStack e r s xs h =
    subst (λ c. Chain (enter e r s).procs c xs) (sym (cur-enter e r s))
      (Chain-same s.procs (enter e r s).procs s.cur xs (enter-SameLinks e r s) h)

enter_saves :
    (e : ℕ) (r : Registers) (s : State) (a b : ℕ) (xs : List ℕ)
    → IsStack s (a ∷ b ∷ xs)
    → (((enter e r s).procs b).r ≡ r) × (((enter e r s).procs a).ent ≡ e)
unfolding enter
enter_saves e r s a b xs h = (ground arith, ground arith)

process_map_lem :
    (s : State) (pg : Paging) (a : ℕ) (xs : List ℕ)
    → IsStack s (a ∷ xs)
    → process_map s pg ≡ paging_map window (mem_base + length xs * window_size) 512 pg
unfolding process_map
process_map_lem s pg a xs h =
    ap (λ m. paging_map window m 512 pg) (ap (λ c. (s.procs c).mem) h.0 ∙ h.4)

pop_returns :
    (r' : Registers) (s : State) (pg : Paging) (a b : ℕ) (ys : List ℕ)
    → IsStack s (a ∷ b ∷ ys)
    → ((process_pop r' s pg).1 ≡ record ((s.procs b).r) { eax = r'.ebx })
      × ((process_pop r' s pg).2 ≡ process_map (process_pop r' s pg).0 pg)
unfolding process_pop
pop_returns r' s pg a b ys h =
    let under : (s.procs s.cur).p ≡ b = ground arith in
    let more : ((s.procs s.cur).p == null) ≡ false = ground arith in
    (rw more (ground arith), rw more refl)

-- With a process on the stack and a fresh struct: exec of a loadable file puts the new process on
-- top of the stack, with the entry point of the file, and maps the window to its own memory. Its
-- exit gives back the stack, the saved registers with the exit status in eax, and the window of
-- the process that called exec, and frees the struct.
pub load_pop :
    (s : State) (pg : Paging) (r r' : Registers) (fd e fresh b : ℕ) (ys : List ℕ)
    → IsStack s (b ∷ ys)
    → fresh ≢ null
    → has fresh (b ∷ ys) ≡ false
    → let loaded = process_load (pos fd) (some e) fresh r s pg in
      let popped = process_pop r' loaded.1 loaded.2 in
      (loaded.0 ≡ pos 0)
      × IsStack loaded.1 (fresh ∷ b ∷ ys)
      × ((loaded.1.procs fresh).ent ≡ e)
      × (loaded.2 ≡ paging_map window (mem_base + (length ys + 1) * window_size) 512 pg)
      × IsStack popped.0 (b ∷ ys)
      × (popped.1 ≡ record r { eax = r'.ebx })
      × (popped.2 ≡ paging_map window (mem_base + length ys * window_size) 512 loaded.2)
      × (popped.3 ≡ fresh)
unfolding process_load
load_pop s pg r r' fd e fresh b ys h ne out =
    let s₁ : State = process_alloc fresh window_size s in
    let pushed : IsStack s₁ (fresh ∷ b ∷ ys) = process_alloc-IsStack s (b ∷ ys) fresh h ne out in
    let s₃ : State = enter e r s₁ in
    let stack : IsStack s₃ (fresh ∷ b ∷ ys) = enter-IsStack e r s₁ (fresh ∷ b ∷ ys) pushed in
    let saved = enter_saves e r s₁ fresh b ys pushed in
    let pg₁ : Paging = process_map s₃ pg in
    let popped = process_pop-IsStack r' s₃ pg₁ fresh (b ∷ ys) stack in
    let (regs, maps) = pop_returns r' s₃ pg₁ fresh b ys stack in
    (
      refl,
      stack,
      saved.1,
      process_map_lem s₃ pg fresh (b ∷ ys) stack
          ∙ ap (λ k. paging_map window (mem_base + k * window_size) 512 pg) (omega arith),
      popped.0,
      regs ∙ ap (λ (q : Registers). record q { eax = r'.ebx }) saved.0,
      maps ∙ process_map_lem (process_pop r' s₃ pg₁).0 pg₁ b ys popped.0,
      popped.1,
    )

-- With a fresh struct: a process_load that fails to open the file returns -1 and changes nothing;
-- one that fails to load it returns -1, but leaves the new process on the stack, as the current
-- one, and the tables as they were.
pub process_load_fails :
    (s : State) (pg : Paging) (r : Registers) (fd fresh : ℕ) (xs : List ℕ) (ent : Option ℕ)
    → IsStack s xs
    → fresh ≢ null
    → has fresh xs ≡ false
    → (process_load minus_one ent fresh r s pg ≡ (minus_one, s, pg))
      × ((process_load (pos fd) none fresh r s pg).0 ≡ minus_one)
      × IsStack (process_load (pos fd) none fresh r s pg).1 (fresh ∷ xs)
      × ((process_load (pos fd) none fresh r s pg).2 ≡ pg)
unfolding process_load
process_load_fails s pg r fd fresh xs ent h ne out =
    (refl, refl, process_alloc-IsStack s xs fresh h ne out, refl)
