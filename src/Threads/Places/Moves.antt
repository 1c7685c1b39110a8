-- ===== src/Threads/Places/Moves.antt =====
-- The moves of a thread from one place to another keep `Places`.
use n4ch0s.Base.{
  ℕ, ◌==◌, ◌≡◌, ◌++◌, ◌||◌, false, List, [], ◌∷◌, has, Distinct, arith, refl, inl, inr, Bool-cases,
  ◌≢◌, true, Option, none, some, ap,
}
use n4ch0s.Threads.{update}
use n4ch0s.Threads.Places.{
  Kind, Places, runs, waits, asleep, doomed, gone, created, is_waiting, is_asleep, is_odd,
  is_present,
}
use mathlib.Core.Path.{subst}

has-snoc : (i x : ℕ) (l : List ℕ) → has i (l ++ (x ∷ [])) ≡ (has i l || (x == i))
has-snoc i x [] = ground arith
has-snoc i x (y ∷ l) = ground (arith, has-snoc i x l)

Distinct-snoc : (x : ℕ) (l : List ℕ) → has x l ≡ false → Distinct l → Distinct (l ++ (x ∷ []))
Distinct-snoc x [] h d = (refl, tt)
Distinct-snoc x (y ∷ l) h d = (ground (arith, has-snoc y x l), Distinct-snoc x l (ground arith) d.1)

module _ {current : ℕ} {places : ℕ → Kind} {list : List ℕ} {queues : ℕ → List ℕ} {dying : Option ℕ}
    (w : Places current places list queues dying) where
  open w use {present, sane, alone, listed, queued, list_once, queue_once, finished}

  -- The current thread gives up the processor and goes to the end of the ready list.
  pub steps_aside :
      places current ≡ runs
      → Places current (update places current waits) (list ++ (current ∷ [])) queues dying
  steps_aside r = record {
    present = ground arith;
    sane = λ i. ground (arith, sane i);
    alone = λ i e. ground (arith, alone i);
    listed = λ i. ground (arith, has-snoc i current list, listed i);
    queued = λ s i. ground (arith, queued s i);
    list_once = Distinct-snoc current list (ground (arith, listed current)) list_once;
    queue_once = queue_once;
    finished = λ i e. ground (arith, finished i);
  }

  -- The first thread of the ready list gets the processor.
  pub dispatched :
      (h : ℕ) (r : List ℕ)
      → list ≡ h ∷ r
      → places current ≢ runs
      → Places h (update places h runs) r queues dying
  dispatched h r e n = record {
    present = ground arith;
    sane = λ i. ground (arith, sane i);
    alone = λ i q. ground (arith, alone i);
    listed = λ i. ground (arith, listed i, once.0);
    queued = λ s i. ground (arith, queued s i, listed h);
    list_once = once.1;
    queue_once = queue_once;
    finished = λ i x. ground (arith, finished i, listed h, ap (has h) e);
  }
    where
      once : Distinct (h ∷ r)
      once = subst Distinct e list_once

  -- The current thread goes to sleep in a semaphore.
  pub falls_asleep :
      (s : ℕ)
      → places current ≡ runs
      → Places current
          (update places current (asleep s))
          list
          (update queues s (queues s ++ (current ∷ [])))
          dying
  falls_asleep s r = record {
    present = ground arith;
    sane = λ i. ground (arith, sane i);
    alone = λ i e. ground (arith, alone i);
    listed = λ i. ground (arith, listed i);
    queued = λ x i. ground (arith, queued x i, has-snoc i current (queues s));
    list_once = list_once;
    queue_once = λ x. elim (Bool-cases (s == x)) [
      | inl e ↦
          rw e (Distinct-snoc current (queues s) (ground (arith, queued s current)) (queue_once s))
      | inr e ↦ rw e (queue_once x)
    ];
    finished = λ i e. ground (arith, finished i);
  }

  -- A thread that is on no list changes to another place without one.
  off_lists :
      (i : ℕ) (x : Kind)
      → (is_waiting (places i) ≡ false) × (is_waiting x ≡ false)
      → ((s : ℕ) → (is_asleep s (places i) ≡ false) × (is_asleep s x ≡ false))
      → (is_odd x ≡ false) × (x ≢ runs)
      → ((i == current) ≡ true → is_present x ≡ true)
      → (dead : Option ℕ) → ((j : ℕ) → dead ≡ some j → update places i x j ≡ doomed)
      → Places current (update places i x) list queues dead
  off_lists i x w q o p dead f = record {
    present = ground (arith, present, p);
    sane = λ j. ground (arith, sane j);
    alone = λ j e. ground (arith, alone j, o.1);
    listed = λ j. ground (arith, listed j);
    queued = λ s j. ground (arith, queued s j, (q s).0, (q s).1);
    list_once = list_once;
    queue_once = queue_once;
    finished = f;
  }

  -- The current thread finishes.
  pub ends :
      places current ≡ runs
      → Places current (update places current doomed) list queues (some current)
  ends r =
      off_lists current doomed (ground arith, refl) (λ s. (ground arith, refl)) (refl, λ e. cc)
        (λ e. refl) (some current) (λ j e. ground arith)

  -- The first thread in the queue of a semaphore goes to the end of the ready list.
  pub wakes :
      (s h : ℕ) (q : List ℕ)
      → queues s ≡ h ∷ q
      → Places current (update places h waits) (list ++ (h ∷ [])) (update queues s q) dying
  wakes s h q e = record {
    present = ground (arith, present);
    sane = λ i. ground (arith, sane i);
    alone = λ i x. ground (arith, alone i);
    listed = λ i. ground (arith, has-snoc i h list, listed i, queued s h);
    queued = λ x i. ground (arith, queued x i, queued s h, queued s i, once.0);
    list_once = Distinct-snoc h list (ground (arith, listed h, queued s h)) list_once;
    queue_once =
        λ x. elim (Bool-cases (s == x)) [ inl e ↦ rw e once.1 | inr e ↦ rw e (queue_once x) ];
    finished = λ i x. ground (arith, finished i, queued s h, ap (has h) e);
  }
    where
      once : Distinct (h ∷ q)
      once = subst Distinct e (queue_once s)

  -- A thread that finished is deleted.
  pub removed :
      (i : ℕ)
      → places i ≡ doomed
      → places current ≡ runs
      → Places current (update places i gone) list queues none
  removed i r c =
      off_lists i gone (ground arith, refl) (λ s. (ground arith, refl)) (refl, λ e. cc)
        (λ e. ground arith) none (λ j e. cc)

  pub made : (i : ℕ) → places i ≡ gone → Places current (update places i created) list queues dying
  made i r =
      off_lists i created (ground arith, refl) (λ s. (ground arith, refl)) (refl, λ e. cc)
        (λ e. ground (arith, present)) dying (λ j e. ground (arith, finished j))

  -- A new thread goes to the end of the ready list.
  pub forked :
      (i : ℕ)
      → places i ≡ created
      → Places current (update places i waits) (list ++ (i ∷ [])) queues dying
  forked i r = record {
    present = ground (arith, present);
    sane = λ j. ground (arith, sane j);
    alone = λ j e. ground (arith, alone j);
    listed = λ j. ground (arith, has-snoc j i list, listed j);
    queued = λ s j. ground (arith, queued s j);
    list_once = Distinct-snoc i list (ground (arith, listed i)) list_once;
    queue_once = queue_once;
    finished = λ i e. ground (arith, finished i);
  }
