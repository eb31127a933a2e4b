-- ===== src/Process/Stack.antt =====
-- The processes form a stack.
use strange_os.Prelude.{
  ℕ, ◌+◌, ◌*◌, ◌≡◌, ◌≢◌, refl, inl, inr, Bool, false, ◌||◌, List, [], ◌∷◌, arith, ◌==◌, length,
  Bool-cases, ◌∙◌,
}
use mathlib.Core.Path.{subst, sym}
use strange_os.Process.{
  Proc, Procs, State, store, null, window_size, mem_base, new_proc, push_proc, process_alloc,
  process_pop, Registers,
}
use strange_os.Page.{Paging}

abbrev pub has : ℕ → List ℕ → Bool
has b [] = false
has b (c ∷ xs) = (b == c) || has b xs

-- From `cur` the `p` pointers lead through the structs of the list to NULL. A process's number is
-- the count of those below it, its memory the slot of that number, and `n` leads back up (that of
-- the lowest process is held by what lies at NULL).
abbrev pub Chain : Procs → ℕ → List ℕ → Type 0
Chain ps cur [] = cur ≡ null
Chain ps cur (a ∷ xs) =
    (cur ≡ a)
    × (a ≢ null)
    × (has a xs ≡ false)
    × ((ps a).id ≡ length xs)
    × ((ps a).mem ≡ mem_base + length xs * window_size)
    × ((ps a).sz ≡ window_size)
    × ((ps (ps a).p).n ≡ a)
    × Chain ps (ps a).p xs

abbrev pub IsStack : State → List ℕ → Type 0
IsStack s xs = Chain s.procs s.cur xs

Chain-start :
    (ps : Procs) (cur a : ℕ) (xs : List ℕ) → Chain ps cur xs → a ≢ null → has a xs ≡ false → cur ≢ a
Chain-start ps cur a [] h ne out = ground arith
Chain-start ps cur a (b ∷ xs) h ne out = ground arith

-- A write to a struct that is not in the chain leaves the chain.
Chain-frame :
    (ps : Procs) (cur a : ℕ) (xs : List ℕ) (v : Proc)
    → Chain ps cur xs
    → a ≢ null
    → has a xs ≡ false
    → Chain (store ps a v) cur xs
Chain-frame ps cur a [] v h ne out = h
Chain-frame ps cur a (b ∷ xs) v h ne out =
    let here : store ps a v b ≡ ps b = ground arith in
    let below : (ps b).p ≢ a = Chain-start ps (ps b).p a xs h.7 ne (ground arith) in
    rw here (
      h.0,
      h.1,
      h.2,
      h.3,
      h.4,
      h.5,
      ground arith,
      Chain-frame ps (ps b).p a xs v h.7 ne (ground arith),
    )

-- So does a write to `n`, or to `ent` or `r`, in the top of the chain.
Chain-top :
    (ps : Procs) (b : ℕ) (xs : List ℕ) (v : Proc)
    → Chain ps b (b ∷ xs)
    → v.id ≡ (ps b).id
    → v.mem ≡ (ps b).mem
    → v.sz ≡ (ps b).sz
    → v.p ≡ (ps b).p
    → Chain (store ps b v) b (b ∷ xs)
Chain-top ps b xs v h i m z p =
    let here : store ps b v b ≡ v = ground arith in
    let below : (ps b).p ≢ b = Chain-start ps (ps b).p b xs h.7 h.1 h.2 in
    rw here (
      refl,
      h.1,
      h.2,
      i ∙ h.3,
      m ∙ h.4,
      z ∙ h.5,
      rw p (ground arith),
      rw p (Chain-frame ps (ps b).p b xs v h.7 h.1 h.2),
    )

push-Chain :
    (ps : Procs) (b fresh : ℕ) (xs : List ℕ) (made : Proc)
    → Chain ps b (b ∷ xs)
    → fresh ≢ null
    → has fresh (b ∷ xs) ≡ false
    → made.id ≡ length xs + 1
    → made.mem ≡ mem_base + (length xs + 1) * window_size
    → made.sz ≡ window_size
    → made.p ≡ b
    → let ps₁ = store ps fresh made in
      Chain (store ps₁ b (record (ps₁ b) { n = fresh })) fresh (fresh ∷ b ∷ xs)
push-Chain ps b fresh xs made h ne out i m z p =
    let ps₁ : Procs = store ps fresh made in
    let ps₂ : Procs = store ps₁ b (record (ps₁ b) { n = fresh }) in
    let here : ps₂ fresh ≡ made = ground arith in
    let below : Chain ps₂ b (b ∷ xs) =
      Chain-top ps₁ b xs (record (ps₁ b) { n = fresh })
        (Chain-frame ps b fresh (b ∷ xs) made h ne out) refl refl refl refl in
    let up : b ≡ (ps₂ fresh).p = ground arith in
    (
      refl,
      ne,
      out,
      ground arith,
      ground arith,
      ground arith,
      ground arith,
      subst (λ q. Chain ps₂ q (b ∷ xs)) up below,
    )

new_proc_above :
    (s : State) (xs : List ℕ) (b sz : ℕ) (old : Proc)
    → IsStack s (b ∷ xs)
    → let made = new_proc old sz s in
      (made.id ≡ length xs + 1)
      × (made.mem ≡ mem_base + (length xs + 1) * window_size)
      × (made.sz ≡ sz)
      × (made.p ≡ s.cur)
unfolding new_proc
new_proc_above s xs b sz old h =
    let there : (s.cur == null) ≡ false = ground arith in
    (ground arith, ground arith, ground arith, ground arith)

-- process_alloc pushes the new process: with a fresh struct the processes then are the stack that
-- was there with the new one on top, which is current.
pub process_alloc-IsStack :
    (s : State) (xs : List ℕ) (fresh : ℕ)
    → IsStack s xs
    → fresh ≢ null
    → has fresh xs ≡ false
    → IsStack (process_alloc fresh window_size s) (fresh ∷ xs)
unfolding process_alloc push_proc
process_alloc-IsStack s [] fresh h ne out = unfold new_proc in ground arith
process_alloc-IsStack s (b ∷ xs) fresh h ne out =
    let made : Proc = new_proc (s.procs fresh) window_size s in
    let (i, m, z, p) = new_proc_above s xs b window_size (s.procs fresh) h in
    subst
      (λ c.
        Chain
          (store (store s.procs fresh made) c (record (store s.procs fresh made c) { n = fresh }))
          fresh (fresh ∷ b ∷ xs))
      (sym h.0)
      (push-Chain s.procs b fresh xs made (subst (λ c. Chain s.procs c (b ∷ xs)) h.0 h) ne out i m z
        (p ∙ h.0))

-- The links, numbers and memory of each struct are the same.
abbrev pub SameLinks : Procs → Procs → Type 0
SameLinks ps qs =
    (c : ℕ)
    → ((qs c).id ≡ (ps c).id)
      × ((qs c).mem ≡ (ps c).mem)
      × ((qs c).sz ≡ (ps c).sz)
      × ((qs c).p ≡ (ps c).p)
      × ((qs c).n ≡ (ps c).n)

pub Chain-same :
    (ps qs : Procs) (cur : ℕ) (xs : List ℕ) → SameLinks ps qs → Chain ps cur xs → Chain qs cur xs
Chain-same ps qs cur [] e h = h
Chain-same ps qs cur (a ∷ xs) e h = (
  h.0,
  h.1,
  h.2,
  (e a).0 ∙ h.3,
  (e a).1 ∙ h.4,
  (e a).2 ∙ h.5,
  subst (λ c. (qs c).n ≡ a) (sym (e a).3) ((e (ps a).p).4 ∙ h.6),
  subst (λ c. Chain qs c xs) (sym (e a).3) (Chain-same ps qs (ps a).p xs e h.7),
)

pop-Chain :
    (ps : Procs) (a : ℕ) (xs : List ℕ)
    → Chain ps a (a ∷ xs)
    → Chain (store ps (ps a).p (record (ps (ps a).p) { n = null })) (ps a).p xs
pop-Chain ps a [] h = h.7
pop-Chain ps a (b ∷ xs) h =
    let eq : b ≡ (ps a).p = sym h.7.0 in
    subst (λ c. Chain (store ps c (record (ps c) { n = null })) c (b ∷ xs)) eq
      (Chain-top ps b xs (record (ps b) { n = null }) (subst (λ c. Chain ps c (b ∷ xs)) h.7.0 h.7)
        refl refl refl refl)

pop_state :
    (r : Registers) (s : State) (pg : Paging)
    → ((process_pop r s pg).0 ≡ record {
      cur = (s.procs s.cur).p;
      procs = store s.procs (s.procs s.cur).p (record (s.procs (s.procs s.cur).p) { n = null });
    })
      × ((process_pop r s pg).3 ≡ (s.procs (s.procs s.cur).p).n)
unfolding process_pop
pop_state r s pg = elim (Bool-cases ((s.procs s.cur).p == null)) [
  | inl e ↦ (rw e refl, rw e refl)
  | inr e ↦ (rw e refl, rw e refl)
]

-- process_pop removes the current process from a stack that has one: the one below becomes
-- current, and the struct that is freed is that of the process that ended; also for the last one.
pub process_pop-IsStack :
    (r : Registers) (s : State) (pg : Paging) (a : ℕ) (xs : List ℕ)
    → IsStack s (a ∷ xs)
    → IsStack (process_pop r s pg).0 xs × ((process_pop r s pg).3 ≡ a)
process_pop-IsStack r s pg a xs h =
    let (e, e') = pop_state r s pg in
    (
      subst (λ t. IsStack t xs) (sym e)
          (subst
            (λ c.
              Chain (store s.procs (s.procs c).p (record (s.procs (s.procs c).p) { n = null }))
                (s.procs c).p xs)
            (sym h.0) (pop-Chain s.procs a xs (subst (λ c. Chain s.procs c (a ∷ xs)) h.0 h))),
      e' ∙ subst (λ c. (s.procs (s.procs c).p).n ≡ a) (sym h.0) h.6,
    )
