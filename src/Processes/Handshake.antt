-- ===== src/Processes/Handshake.antt =====
-- `Join` and `Exit` of nachos-3.4/code/userprog/ptable.cc meet in every order of the steps of the two threads.
use n4ch0s.Base.{
  ℕ, ◌+◌, ◌<◌, ◌≤◌, ◌≡◌, ◌≢◌, List, [], Option, none, some, Bool, true, refl, get_elem?, arith, ◌⊎◌,
  inl, inr, ap, sym,
}
use n4ch0s.Base.Int.{ℤ, pos}
use mathlib.Core.Path.{subst, ap₂}
use mathlib.Core.Option.{some-injective}
use n4ch0s.SortedList.{Element}
use n4ch0s.Semaphore.{Semaphore}
use n4ch0s.Processes.{Pcb, PTable, closed}
use n4ch0s.Processes.Blocks.{Has}
use n4ch0s.Processes.Family.{
  Family, ParentPoint, ChildPoint, before, joined, runs, gone, parent_step, child_step, Run, begins,
  by_parent, by_child,
}
use n4ch0s.Processes.Shapes.{
  Shape, Inv, going, over, Act, stuck, moves, parent_acts, child_acts, free, untouched, answered,
  answered_asleep, asks, waits, ended, ended_asleep, meets, meets_asleep, released, released_asleep,
}

-- A run of `n` steps up to `s`: it is not longer than 8 steps, no ASSERT and no null pointer stops the next one,
-- and the run is over or one of the threads can go on.
pub record Meets (parent child me pid : ℕ) (status : ℤ) (n : ℕ) (s : Family) : Type 0 where
  pub bounded : n ≤ 8
  pub parent_safe : parent_step parent child me pid status s ≢ none
  pub child_safe : child_step parent child me pid status s ≢ none
  pub answers : (code : ℤ) → s.parent_at ≡ joined code → code ≡ status
  pub removed_after :
      s.child_at ≡ gone → (s.parent_at ≡ joined status) × (get_elem? s.table.pcb pid ≡ some none)
  pub goes_on :
      ((s.parent_at ≡ joined status) × (s.child_at ≡ gone))
      ⊎ ((u : Family) × (parent_step parent child me pid status s ≡ some (some u)))
      ⊎ ((u : Family) × (child_step parent child me pid status s ≡ some (some u)))

module _ (parent child pid : ℕ) (status : ℤ) (c : Pcb) where
  abbrev Holds : ℕ → Family → Type 0
  Holds = Inv parent child pid status c

  abbrev Acts : ℕ → Bool → Option (Option Family) → Type 0
  Acts = Act parent child pid status c

  never_stops : {rank : ℕ} {b : Bool} {o : Option (Option Family)} → Acts rank b o → o ≢ none
  never_stops stuck = λ e. cc
  never_stops (moves s r l i) = λ e. cc

  can_move :
      {rank : ℕ} {b : Bool} {o : Option (Option Family)}
      → Acts rank b o
      → b ≡ true
      → (u : Family) × (o ≡ some (some u))
  can_move stuck e = cc
  can_move (moves s r l i) e = (s, refl)

  comes_nearer :
      {rank : ℕ} {b : Bool} {o : Option (Option Family)} {u : Family}
      → Acts rank b o
      → o ≡ some (some u)
      → (r : ℕ) × (r < rank) × Holds r u
  comes_nearer stuck e = cc
  comes_nearer (moves s r l i) e =
      (r, l, subst (Holds r) (some-injective _ _ (some-injective _ _ e)) i)

  code_of : ParentPoint → ℤ
  code_of (joined code) = code
  code_of p = pos 0

  answered_status :
      {p : ParentPoint} {k : ChildPoint} {ready : List (Element ℕ)} {j e : Semaphore} {code : ℤ}
      {rank : ℕ}
      → Shape parent child pid status c p k ready j e code rank
      → (result : ℤ) → p ≡ joined result
      → result ≡ status
  unfolding code_of
  answered_status untouched result e = cc
  answered_status asks result e = cc
  answered_status waits result e = cc
  answered_status ended result e = cc
  answered_status ended_asleep result e = cc
  answered_status meets result e = cc
  answered_status meets_asleep result e = cc
  answered_status released result e = cc
  answered_status released_asleep result e = cc
  answered_status answered result e = ap code_of (sym e)
  answered_status answered_asleep result e = ap code_of (sym e)

  not_gone :
      {p : ParentPoint} {k : ChildPoint} {ready : List (Element ℕ)} {j e : Semaphore} {code : ℤ}
      {rank : ℕ}
      → Shape parent child pid status c p k ready j e code rank
      → k ≢ gone
  not_gone untouched e = cc
  not_gone asks e = cc
  not_gone waits e = cc
  not_gone ended e = cc
  not_gone ended_asleep e = cc
  not_gone meets e = cc
  not_gone meets_asleep e = cc
  not_gone released e = cc
  not_gone released_asleep e = cc
  not_gone answered e = cc
  not_gone answered_asleep e = cc

  module _ (user : pid ≢ 0) (apart : c.parent_id ≢ pid) (two : parent ≢ child) where
    parent_next :
        (r : ℕ) (s u : Family)
        → Holds r s
        → parent_step parent child c.parent_id pid status s ≡ some (some u)
        → (r' : ℕ) × (r' < r) × Holds r' u
    unfolding parent_step
    parent_next r _ u (going t ready p k j e code _ h s) q =
        comes_nearer (parent_acts parent child pid status c user apart two t h s) q
    parent_next _ _ u (over t h) q = cc

    child_next :
        (r : ℕ) (s u : Family)
        → Holds r s
        → child_step parent child c.parent_id pid status s ≡ some (some u)
        → (r' : ℕ) × (r' < r) × Holds r' u
    unfolding child_step
    child_next r _ u (going t ready p k j e code _ h s) q =
        comes_nearer (child_acts parent child pid status c user apart two t h s) q
    child_next _ _ u (over t h) q = cc

    Run-Inv :
        (s₀ : Family) (n : ℕ) (s : Family)
        → Holds 8 s₀
        → Run parent child c.parent_id pid status s₀ n s
        → (r : ℕ) × (n + r ≤ 8) × Holds r s
    Run-Inv s₀ _ _ i begins = (8, omega arith, i)
    Run-Inv s₀ _ u i (by_parent n t _ run e) =
        let (r, l, h) = Run-Inv s₀ n t i run in
        let (r', l', h') = parent_next r t u h e in (r', omega (arith, l, l'), h')
    Run-Inv s₀ _ u i (by_child n t _ run e) =
        let (r, l, h) = Run-Inv s₀ n t i run in
        let (r', l', h') = child_next r t u h e in (r', omega (arith, l, l'), h')

    Inv-Meets :
        (n r : ℕ) (s : Family) → n ≤ 8 → Holds r s → Meets parent child c.parent_id pid status n s
    unfolding parent_step child_step code_of
    Inv-Meets n r _ l (going t ready p k j e code _ h s) =
        let a = parent_acts parent child pid status c user apart two t h s in
        let b = child_acts parent child pid status c user apart two t h s in
        record {
          bounded = l;
          parent_safe = never_stops a;
          child_safe = never_stops b;
          answers = answered_status s;
          removed_after = λ g. absurd (not_gone s g);
          goes_on = inr (elim (free parent child pid status c user apart two s) [
            | inl q ↦ inl (can_move a q)
            | inr q ↦ inr (can_move b q)
          ]);
        }
    Inv-Meets n _ _ l (over t empty) = record {
      bounded = l;
      parent_safe = λ e. cc;
      child_safe = λ e. cc;
      answers = λ code e. ap code_of (sym e);
      removed_after = λ g. (refl, empty);
      goes_on = inl (refl, refl);
    }

-- For a process other than the first that is marked in a valid map, with a block whose semaphores nobody has
-- used, and another process with a block as its parent: in whatever order the thread of the parent goes through
-- `Join` and that of the child through `Exit`, step by step, no ASSERT and no null pointer stops them; one of
-- the two can always go on until both are at the end, and no run has more than 8 steps; `JoinUpdate` returns
-- the status of the child, and the child is removed from the table only after that.
pub join-exit :
    (parent child pid : ℕ) (status : ℤ) (c : Pcb) (t : PTable) (n : ℕ) (s : Family)
    → pid ≢ 0
    → c.parent_id ≢ pid
    → parent ≢ child
    → c.join_sem ≡ closed
    → c.exit_sem ≡ closed
    → Has c.parent_id pid t c
    → Run parent child c.parent_id pid status
        (record { table = t; ready = []; parent_at = before; child_at = runs })
        n
        s
    → Meets parent child c.parent_id pid status n s
join-exit parent child pid status c t n s user apart two j e h run =
    let start : Has c.parent_id pid t (record c { join_sem = closed; exit_sem = closed }) =
      subst (Has c.parent_id pid t) (ap₂ (λ x y. record c { join_sem = x; exit_sem = y }) j e) h in
    let (r, l, i) =
      Run-Inv parent child pid status c user apart two _ n s
        (going t [] before runs closed closed c.exitcode 8 start untouched) run in
    Inv-Meets parent child pid status c user apart two n r s (omega (arith, l)) i
