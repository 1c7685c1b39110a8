-- ===== src/Threads/Turns/Robin.antt =====
-- The ready list of nachos-3.4/code/threads/scheduler.cc is served in its order.
use n4ch0s.Base.{
  ℕ, zero, suc, ◌<◌, ◌≡◌, ◌++◌, ◌∷◌, [], List, Option, none, some, ◌>>=◌, refl, ap, ◌∙◌, sym, arith,
  length, get_or, ◌≢◌, has, inl, inr, >>=-eq-some, length-append,
}
use n4ch0s.Threads.{Kernel, Thread, running, in_code, put_thread}
use n4ch0s.Threads.Places.{kind, runs, waits, kind_at, items}
use n4ch0s.Threads.Scheduler.{yield, find_next_to_run, set_point, set_level, give_way, set_status}
use n4ch0s.Threads.Turns.{slices, Cooperative, Willing, AllWilling}
use n4ch0s.SortedList.{Element, sorted_remove}
use n4ch0s.Interrupt.{int_off}
use n4ch0s.Threads.Turns.Slice.{
  given, give_way-some, given-willing, update_self, resume-some, AllWilling-update, given-next,
  Same,
}
use n4ch0s.Threads.Semaphores.{resume}
use n4ch0s.Threads.Places.Waits.{resume-Placed}
use n4ch0s.Threads.Places.Switches.{yield-Placed}
use n4ch0s.Threads.Places.Sees.{Placed}
use mathlib.Core.Option.{some-injective}
use n4ch0s.Threads.Places.Wakes.{list_cases}
use n4ch0s.Threads.Places.Effects.{kind-running, items-append}

there_runs : (o : Option Thread) → kind o ≡ runs → (t : Thread) × (o ≡ some t)
unfolding kind
there_runs none h = cc
there_runs (some t) h = (t, refl)

there_waits : (o : Option Thread) → kind o ≡ waits → (t : Thread) × (o ≡ some t)
unfolding kind
there_waits none h = cc
there_waits (some t) h = (t, refl)

yield-first :
    (k : Kernel) (e : Element ℕ) (r : List (Element ℕ))
    → k.ready_list ≡ e ∷ r
    → yield k ≡ give_way (record (set_level k int_off) { ready_list = r }) k.level e.item
unfolding yield find_next_to_run sorted_remove
yield-first k e r h =
    let taken : Element ℕ × List (Element ℕ) → Option (ℕ × Kernel) =
      λ (x, rest). some (x.item, record (set_level k int_off) { ready_list = rest }) in
    ap
      (λ (l : List (Element ℕ)). elim (sorted_remove l >>= taken) [
        | none ↦ some k
        | some (i, k') ↦ give_way k' k.level i
      ])
      h

code-Willing : (t : Thread) → Willing t → Willing (set_point (set_status t running) in_code)
unfolding kind kind_at
code-Willing t w = (w.0, λ e. cc)

code-runs : (t : Thread) → kind (some (set_point (set_status t running) in_code)) ≡ runs
unfolding kind kind_at
code-runs t = refl

-- What a turn leaves: the first of the list runs, and the thread that ran is the last.
pub record Turned (k : Kernel) (e : Element ℕ) (r : List (Element ℕ)) (k' : Kernel) : Type 0 where
  pub yielded : slices 1 k ≡ some k'
  pub again : Cooperative k'
  pub first : k'.current ≡ e.item
  pub last : items k'.ready_list ≡ items r ++ (k.current ∷ [])

runs-not-waits : runs ≢ waits
runs-not-waits e = cc

module _ (k : Kernel) (e : Element ℕ) (r : List (Element ℕ)) (w : Cooperative k)
    (h : k.ready_list ≡ e ∷ r) (t u : Thread) (here : k.threads k.current ≡ some t)
    (there : k.threads e.item ≡ some u) (apart : k.current ≢ e.item)
    (waited : kind (some u) ≡ waits) where
  abbrev rest : Kernel
  rest = record (set_level k int_off) { ready_list = r }

  abbrev next : Kernel
  next =
      given rest k.level e.item t u here there apart (w.willing k.current t here).0 w.willing
        (w.willing e.item u there)

  abbrev code : Thread
  code = set_point (set_status u running) in_code

  next-yield : yield k ≡ some next
  next-yield =
      yield-first k e r h
      ∙ give_way-some rest k.level e.item t u here there apart (w.willing k.current t here).0
          w.willing (w.willing e.item u there)

  next-willing : AllWilling next.threads
  next-willing =
      given-willing rest k.level e.item t u here there apart (w.willing k.current t here).0
        w.willing (w.willing e.item u there)

  next-runs : next.threads e.item ≡ some (set_status u running)
  next-runs =
      given-next rest k.level e.item t u here there apart (w.willing k.current t here).0 w.willing
        (w.willing e.item u there)

  next-Placed : {k' : Kernel} → resume next ≡ some k' → Placed k'
  next-Placed went =
      resume-Placed next (yield-Placed k w.placed w.runner next-yield)
        (ap kind next-runs ∙ kind-running u waited) went

  goes_on :
      (k' : Kernel)
      → resume next ≡ some k'
      → Same (put_thread next e.item (some code)) k'
      → Turned k e r k'
  unfolding slices
  goes_on k' went same =
      let code_there : k'.threads k'.current ≡ some code =
        ap k'.threads same.currents
        ∙ same.threads e.item
        ∙ update_self next.threads e.item (some code) in
      record {
        yielded =
            ap (λ (o : Option Kernel). o >>= λ k'. resume k' >>= λ k''. some k'') next-yield
            ∙ ap (λ (o : Option Kernel). o >>= λ k''. some k'') went;
        again = record {
          placed = next-Placed went;
          runner = ap kind code_there ∙ code-runs u;
          nobody = same.nobody;
          willing = λ i x q.
              AllWilling-update next.threads e.item code next-willing
                (code-Willing u (w.willing e.item u there)) i x (sym (same.threads i) ∙ q);
        };
        first = same.currents;
        last = ap items same.lists ∙ items-append r k.current;
      }

  turned : (k' : Kernel) × Turned k e r k'
  turned =
      let (k', went, same) =
        resume-some next (set_status u running) ((w.willing e.item u there).1 waited) w.nobody
          next-runs in
      (k', goes_on k' went same)

pub turn :
    (k : Kernel) (e : Element ℕ) (r : List (Element ℕ))
    → Cooperative k
    → k.ready_list ≡ e ∷ r
    → (k' : Kernel) × Turned k e r k'
turn k e r w h =
    let waiting : kind (k.threads e.item) ≡ waits =
      ground
        (arith, w.placed.listed e.item, ap (λ (l : List (Element ℕ)). has e.item (items l)) h) in
    let (t, here) = there_runs (k.threads k.current) w.runner in
    let (u, there) = there_waits (k.threads e.item) waiting in
    turned k e r w h t u here there
      (λ q. runs-not-waits (sym w.runner ∙ ap (λ i. kind (k.threads i)) q ∙ waiting))
      (ap kind (sym there) ∙ waiting)

slices-first :
    (n : ℕ) (k : Kernel) {k₁ : Kernel} → slices 1 k ≡ some k₁ → slices (suc n) k ≡ slices n k₁
unfolding slices
slices-first n k e =
    let (a, yielded, e₁) = >>=-eq-some (yield k) (λ k'. resume k' >>= λ k''. some k'') e in
    let (b, went, made) = >>=-eq-some (resume a) (λ k''. some k'') e₁ in
    ap (λ (o : Option Kernel). o >>= λ k'. resume k' >>= λ k''. slices n k'') yielded
    ∙ ap (λ (o : Option Kernel). o >>= λ k''. slices n k'') went
    ∙ ap (slices n) (some-injective _ _ made)

get_or-snoc : (l : List ℕ) (c n : ℕ) → n < length l → get_or (l ++ (c ∷ [])) n 0 ≡ get_or l n 0
get_or-snoc [] c n h = absurd (omega arith)
get_or-snoc (x ∷ l) c zero h = refl
get_or-snoc (x ∷ l) c (suc n) h = get_or-snoc l c n (omega arith)

-- The thread at the place `n` of the ready list runs after `n + 1` turns.
abbrev pub Served : ℕ → Kernel → Type 0
Served n k =
    (k' : Kernel) × (slices (suc n) k ≡ some k')
    × (k'.current ≡ get_or (items k.ready_list) n 0)
    × Cooperative k'

-- Where the threads that are ready only yield, all stacks are intact and none has finished, no ASSERT
-- stops the kernel, and the thread at the place `n` of the ready list runs after `n + 1` turns.
pub round_robin :
    (n : ℕ) (k : Kernel) → Cooperative k → n < length (items k.ready_list) → Served n k
round_robin zero k w h = elim (list_cases k.ready_list) [
  | inl nobody ↦ absurd (omega (arith, ap (λ (l : List (Element ℕ)). length (items l)) nobody))
  | inr (e, r, split) ↦
      let (k₁, t) = turn k e r w split in
      (
        k₁,
        t.yielded,
        t.first ∙ sym (ap (λ (l : List (Element ℕ)). get_or (items l) 0 0) split),
        t.again,
      )
]
round_robin (suc n) k w h = elim (list_cases k.ready_list) [
  | inl nobody ↦ absurd (omega (arith, ap (λ (l : List (Element ℕ)). length (items l)) nobody))
  | inr (e, r, split) ↦
      let (k₁, t) = turn k e r w split in
      let room : n < length (items r) =
        omega (arith, ap (λ (l : List (Element ℕ)). length (items l)) split) in
      let (k', done, current, again) = round_robin n k₁ t.again (
        omega (
          arith,
          ap (λ (l : List ℕ). length l) t.last,
          length-append (items r) (k.current ∷ []),
        )) in
      (
        k',
        slices-first (suc n) k t.yielded ∙ done,
        current
            ∙ ap (λ (l : List ℕ). get_or l n 0) t.last
            ∙ get_or-snoc (items r) k.current n room
            ∙ sym (ap (λ (l : List (Element ℕ)). get_or (items l) (suc n) 0) split),
        again,
      )
]
