-- ===== src/Processes/Shapes.antt =====
-- The states that a process and its parent can be in between `Join` and `Exit` of
-- nachos-3.4/code/userprog/ptable.cc, and the steps from each of them.
use n4ch0s.Base.{
  ℕ, ◌<◌, ◌≡◌, ◌≢◌, List, [], ◌∷◌, Option, none, some, Bool, true, false, refl, ==_self, ==_ne,
  get_elem?, arith, ◌⊎◌, inl, inr,
}
use n4ch0s.Base.Int.{ℤ, pos, ◌+ℤ◌, ◌-ℤ◌}
use n4ch0s.SortedList.{Element, element, append, sorted_remove}
use n4ch0s.Semaphore
use n4ch0s.Semaphore.{Semaphore}
use n4ch0s.Processes.{
  Pcb, PTable, closed, join_wait, exit_wait, join_end, exit_release, join_release, set_exit_code,
}
use n4ch0s.Processes.Blocks.{Has, put_own, remove_lem, join_begin_lem, exit_update_lem}
use n4ch0s.Processes.Family.{
  Family, ParentPoint, ChildPoint, before, joining, join_asleep, joined, runs, leaving,
  leave_asleep, gone, parent_step, child_step, begin_join, join_round, begin_exit, exit_round,
}

-- A semaphore that has been released, and one at which a thread sleeps.
abbrev pub opened : Semaphore
opened = record { value = pos 1; queue = [] }

abbrev pub held : ℕ → Semaphore
held thread = record { value = pos 0; queue = element thread 0 ∷ [] }

-- `c` is the block of the process at first.
module _ (parent child pid : ℕ) (status : ℤ) (c : Pcb) where
  abbrev pub changed : (join_sem exit_sem : Semaphore) → (exitcode : ℤ) → Pcb
  changed join_sem exit_sem exitcode = record c {
    join_sem = join_sem;
    exit_sem = exit_sem;
    exitcode = exitcode;
  }

  -- The points, the ready list, the two semaphores, the exit code, and a bound on the steps that are left.
  pub data Shape
      : ParentPoint → ChildPoint → List (Element ℕ) → Semaphore → Semaphore → ℤ → ℕ → Type 0 where
    untouched : Shape before runs [] closed closed c.exitcode 8
    asks : Shape joining runs [] closed closed c.exitcode 7
    waits : Shape join_asleep runs [] (held parent) closed c.exitcode 6
    ended : Shape before leaving [] opened closed status 5
    ended_asleep : Shape before leave_asleep [] opened (held child) status 4
    meets : Shape joining leaving [] opened closed status 4
    meets_asleep : Shape joining leave_asleep [] opened (held child) status 3
    released : Shape join_asleep leaving (element parent 0 ∷ []) opened closed status 5
    released_asleep :
        Shape join_asleep leave_asleep (element parent 0 ∷ []) opened (held child) status 4
    answered : Shape (joined status) leaving [] closed opened status 1
    answered_asleep :
        Shape (joined status) leave_asleep (element child 0 ∷ []) closed opened status 2

  -- Whether the parent, or the child, can run.
  pub parent_free :
      {p : ParentPoint} {k : ChildPoint} {ready : List (Element ℕ)} {j e : Semaphore} {code : ℤ}
      {rank : ℕ}
      → Shape p k ready j e code rank
      → Bool
  parent_free untouched = true
  parent_free asks = true
  parent_free waits = false
  parent_free ended = true
  parent_free ended_asleep = true
  parent_free meets = true
  parent_free meets_asleep = true
  parent_free released = true
  parent_free released_asleep = true
  parent_free answered = false
  parent_free answered_asleep = false

  pub child_free :
      {p : ParentPoint} {k : ChildPoint} {ready : List (Element ℕ)} {j e : Semaphore} {code : ℤ}
      {rank : ℕ}
      → Shape p k ready j e code rank
      → Bool
  child_free untouched = true
  child_free asks = true
  child_free waits = true
  child_free ended = true
  child_free ended_asleep = false
  child_free meets = true
  child_free meets_asleep = false
  child_free released = true
  child_free released_asleep = false
  child_free answered = true
  child_free answered_asleep = true

  pub data Inv : ℕ → Family → Type 0 where
    going :
        (t : PTable) (ready : List (Element ℕ)) (p : ParentPoint) (k : ChildPoint) (j e : Semaphore)
        (code : ℤ) (rank : ℕ)
        → Has c.parent_id pid t (changed j e code)
        → Shape p k ready j e code rank
        → Inv rank (record { table = t; ready = ready; parent_at = p; child_at = k })
    over :
        (t : PTable)
        → get_elem? t.pcb pid ≡ some none
        → Inv 0 (record { table = t; ready = []; parent_at = joined status; child_at = gone })

  -- What a step does: nothing where the thread cannot run, or it comes nearer to the end.
  pub data Act (rank : ℕ) : Bool → Option (Option Family) → Type 0 where
    stuck : Act rank false (some none)
    moves : (s : Family) (r : ℕ) → r < rank → Inv r s → Act rank true (some (some s))

  module _ (user : pid ≢ 0) (apart : c.parent_id ≢ pid) (two : parent ≢ child) where
    pub parent_acts :
        {p : ParentPoint} {k : ChildPoint} {ready : List (Element ℕ)} {j e : Semaphore} {code : ℤ}
        {rank : ℕ} (t : PTable) (h : Has c.parent_id pid t (changed j e code))
        (s : Shape p k ready j e code rank)
        → Act rank (parent_free s) (
            parent_step parent child c.parent_id pid status
              (record { table = t; ready = ready; parent_at = p; child_at = k }))
    unfolding parent_step begin_join join_round join_wait join_end exit_release Semaphore.p
        Semaphore.v append sorted_remove ◌+ℤ◌ ◌-ℤ◌ parent_free
    parent_acts t h untouched =
        let (t', e, h') = join_begin_lem apart h in
        rw e (moves _ 7 (omega arith) (going _ _ _ _ _ _ _ _ h' asks))
    parent_acts t h asks = rw h.own (
        moves _ 6 (omega arith)
          (going _ _ _ _ _ _ _ _ (put_own apart h (changed (held parent) closed c.exitcode)) waits))
    parent_acts t h waits = stuck
    parent_acts t h ended =
        let (t', e, h') = join_begin_lem apart h in
        rw e (moves _ 4 (omega arith) (going _ _ _ _ _ _ _ _ h' meets))
    parent_acts t h ended_asleep =
        let (t', e, h') = join_begin_lem apart h in
        rw e (moves _ 3 (omega arith) (going _ _ _ _ _ _ _ _ h' meets_asleep))
    parent_acts t h meets = rw h.own (
        moves _ 1 (omega arith)
          (going _ _ _ _ _ _ _ _ (put_own apart h (changed closed opened status)) answered))
    parent_acts t h meets_asleep = rw h.own (
        moves _ 2 (omega arith)
          (going _ _ _ _ _ _ _ _ (put_own apart h (changed closed opened status)) answered_asleep))
    parent_acts t h released =
        rw (==_self parent) (moves _ 4 (omega arith) (going _ _ _ _ _ _ _ _ h meets))
    parent_acts t h released_asleep =
        rw (==_self parent) (moves _ 3 (omega arith) (going _ _ _ _ _ _ _ _ h meets_asleep))
    parent_acts t h answered = stuck
    parent_acts t h answered_asleep = stuck

    pub child_acts :
        {p : ParentPoint} {k : ChildPoint} {ready : List (Element ℕ)} {j e : Semaphore} {code : ℤ}
        {rank : ℕ} (t : PTable) (h : Has c.parent_id pid t (changed j e code))
        (s : Shape p k ready j e code rank)
        → Act rank (child_free s) (
            child_step parent child c.parent_id pid status
              (record { table = t; ready = ready; parent_at = p; child_at = k }))
    unfolding child_step begin_exit exit_round exit_wait join_release set_exit_code Semaphore.p
        Semaphore.v append sorted_remove ◌+ℤ◌ ◌-ℤ◌ child_free
    child_acts t h untouched =
        let (t', e, h') = exit_update_lem apart h status [] user in
        rw e (moves _ 5 (omega arith) (going _ _ _ _ _ _ _ _ h' ended))
    child_acts t h asks =
        let (t', e, h') = exit_update_lem apart h status [] user in
        rw e (moves _ 4 (omega arith) (going _ _ _ _ _ _ _ _ h' meets))
    child_acts t h waits =
        let (t', e, h') = exit_update_lem apart h status [] user in
        rw e (moves _ 5 (omega arith) (going _ _ _ _ _ _ _ _ h' released))
    child_acts t h ended = rw h.own (
        moves _ 4 (omega arith) (
          going _ _ _ _ _ _ _ _ (put_own apart h (changed opened (held child) status))
            ended_asleep))
    child_acts t h ended_asleep = stuck
    child_acts t h meets = rw h.own (
        moves _ 3 (omega arith) (
          going _ _ _ _ _ _ _ _ (put_own apart h (changed opened (held child) status))
            meets_asleep))
    child_acts t h meets_asleep = stuck
    child_acts t h released = rw h.own (
        moves _ 4 (omega arith) (
          going _ _ _ _ _ _ _ _ (put_own apart h (changed opened (held child) status))
            released_asleep))
    child_acts t h released_asleep = rw (==_ne parent child two) stuck
    child_acts t h answered =
        let (t', e, empty) = remove_lem apart (put_own apart h (changed closed closed status)) in
        rw (h.own, e) (moves _ 0 (omega arith) (over t' empty))
    child_acts t h answered_asleep =
        rw (==_self child) (moves _ 1 (omega arith) (going _ _ _ _ _ _ _ _ h answered))

    pub free :
        {p : ParentPoint} {k : ChildPoint} {ready : List (Element ℕ)} {j e : Semaphore} {code : ℤ}
        {rank : ℕ} (s : Shape p k ready j e code rank)
        → (parent_free s ≡ true) ⊎ (child_free s ≡ true)
    unfolding parent_free child_free
    free untouched = inl refl
    free asks = inl refl
    free waits = inr refl
    free ended = inl refl
    free ended_asleep = inl refl
    free meets = inl refl
    free meets_asleep = inl refl
    free released = inl refl
    free released_asleep = inl refl
    free answered = inr refl
    free answered_asleep = inr refl
