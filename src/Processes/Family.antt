-- ===== src/Processes/Family.antt =====
-- A process and its parent that go through `Exit` and `Join` of nachos-3.4/code/userprog/ptable.cc, one step at a
-- time: each step is what a thread does up to the next place where it may be switched away.
use n4ch0s.Base.{ℕ, suc, ◌==◌, List, [], ◌∷◌, Option, none, some, if◌then◌else◌, ◌>>=◌, ◌≡◌}
use n4ch0s.Base.Int.{ℤ, pos, negsuc}
use n4ch0s.SortedList.{Element}
use n4ch0s.Processes.{
  PTable, block, put_block, join_begin, join_wait, join_end, exit_update, exit_wait, remove, halts,
  refuses, ends,
}

-- Where the parent is: before `JoinUpdate`, in the loop of `JoinWait` or asleep there, and after it with what
-- it returned.
pub data ParentPoint : Type 0 where
  before : ParentPoint
  joining : ParentPoint
  join_asleep : ParentPoint
  joined : ℤ → ParentPoint

-- Where the child is: before `ExitUpdate`, in the loop of `ExitWait` or asleep there, and after `Remove`.
pub data ChildPoint : Type 0 where
  runs : ChildPoint
  leaving : ChildPoint
  leave_asleep : ChildPoint
  gone : ChildPoint

-- `pTab` and the two threads. `ready` are those that have been woken and have not run yet.
pub record Family : Type 0 where
  pub table : PTable
  pub ready : List (Element ℕ)
  pub parent_at : ParentPoint
  pub child_at : ChildPoint

-- A thread that sleeps runs when it is the first of the ready list: the rest of the list.
abbrev pub woken : List (Element ℕ) → (thread : ℕ) → Option (List (Element ℕ))
woken [] thread = none
woken (e ∷ es) thread = if e.item == thread then some es else none

-- The threads `parent` and `child` of the processes `me` and `pid`; the child ends with `status`. In a result, the
-- outer `none` is an ASSERT or a null pointer, and the inner one that the thread cannot run.
module _ (parent child me pid : ℕ) (status : ℤ) where
  unfoldable pub begin_join : Family → Option (Option Family)
  begin_join s = join_begin s.table me (pos pid) >>= λ r. elim r [
    | none ↦ some (some (record s { parent_at = joined (negsuc 0) }))
    | some (k, t) ↦ some (some (record s { table = t; parent_at = joining }))
  ]

  -- A round of `JoinWait`, and what `JoinUpdate` does after it.
  unfoldable pub join_round : Family → Option (Option Family)
  join_round s = block s.table pid >>= λ c.
      let w = join_wait c parent in
      let e = join_end w.1 s.ready in
      some (
        some (
          if w.0
          then record s {
            table = put_block s.table pid (some e.1);
            ready = e.2;
            parent_at = joined e.0;
          }
          else record s { table = put_block s.table pid (some w.1); parent_at = join_asleep }))

  unfoldable pub parent_step : Family → Option (Option Family)
  parent_step s = elim s.parent_at [
    | before ↦ begin_join s
    | joining ↦ join_round s
    | join_asleep ↦ some (elim (woken s.ready parent) [
      | none ↦ none
      | some rest ↦ some (record s { ready = rest; parent_at = joining })
    ])
    | joined code ↦ some none
  ]

  -- The process 0 halts the machine, and the result -1 ends the thread as well.
  unfoldable pub begin_exit : Family → Option (Option Family)
  begin_exit s = exit_update s.table pid status s.ready >>= λ r. elim r [
    | halts ↦ some none
    | refuses ↦ some (some (record s { child_at = gone }))
    | ends t ready ↦ some (some (record s { table = t; ready = ready; child_at = leaving }))
  ]

  -- A round of `ExitWait`, and `Remove` after it.
  unfoldable pub exit_round : Family → Option (Option Family)
  exit_round s = block s.table pid >>= λ c.
      let w = exit_wait c child in
      let ended = remove (put_block s.table pid (some w.1)) pid >>= λ t.
      some (some (record s { table = t; child_at = gone })) in
      if w.0
      then ended
      else some
          (some (record s { table = put_block s.table pid (some w.1); child_at = leave_asleep }))

  unfoldable pub child_step : Family → Option (Option Family)
  child_step s = elim s.child_at [
    | runs ↦ begin_exit s
    | leaving ↦ exit_round s
    | leave_asleep ↦ some (elim (woken s.ready child) [
      | none ↦ none
      | some rest ↦ some (record s { ready = rest; child_at = leaving })
    ])
    | gone ↦ some none
  ]

-- Runs of the two threads in any order, with the number of steps.
pub data Run (parent child me pid : ℕ) (status : ℤ) (s : Family) : ℕ → Family → Type 0 where
  begins : Run parent child me pid status s 0 s
  by_parent :
      (n : ℕ) (t u : Family)
      → Run parent child me pid status s n t
      → parent_step parent child me pid status t ≡ some (some u)
      → Run parent child me pid status s (suc n) u
  by_child :
      (n : ℕ) (t u : Family)
      → Run parent child me pid status s n t
      → child_step parent child me pid status t ≡ some (some u)
      → Run parent child me pid status s (suc n) u
