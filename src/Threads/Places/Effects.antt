-- ===== src/Threads/Places/Effects.antt =====
-- What the operations of nachos-3.4/code/threads/scheduler.cc leave, where they do not fail.
use n4ch0s.Base.{
  ℕ, ◌≡◌, ◌++◌, List, [], ◌∷◌, refl, Option, some, ap, ◌∙◌, >>=-eq-some, none, ◌>>=◌, ◌>>◌, arith,
}
use n4ch0s.Threads.{
  Kernel, Thread, put_thread, ready, running, ThreadStatus, save_user_state, Point, just_created,
  in_code, AddrSpace, check_overflow, Cpu,
}
use n4ch0s.SortedList.{Element, append, sorted_remove}
use n4ch0s.Threads.Places.{items, kind, waits, runs, kind_at}
use n4ch0s.Threads.Scheduler.{change_thread, ready_to_run, find_next_to_run, run, set_status, saved}
use mathlib.Core.Option.{some-injective}

pub items-append : (l : List (Element ℕ)) (i : ℕ) → items (append l i) ≡ items l ++ (i ∷ [])
unfolding append
items-append [] i = refl
items-append (e ∷ l) i = ap (λ x. e.item ∷ x) (items-append l i)

pub kind_at-running :
    (st : ThreadStatus) (pt : Point) → kind_at st pt ≡ waits → kind_at running pt ≡ runs
unfolding kind_at
kind_at-running just_created in_code e = cc
kind_at-running st pt e = ground arith

pub kind-running : (t : Thread) → kind (some t) ≡ waits → kind (some (set_status t running)) ≡ runs
unfolding kind
kind-running t = kind_at-running t.status t.point

pub kind-saved :
    (o : Option AddrSpace) (c : Cpu) (t : Thread) → kind (some (saved o c t)) ≡ kind (some t)
unfolding saved kind save_user_state
kind-saved none c t = refl
kind-saved (some a) c t = refl

pub change_thread-eq :
    (k : Kernel) (i : ℕ) (f : Thread → Thread) {k' : Kernel}
    → change_thread k i f ≡ some k'
    → (t : Thread) × (k.threads i ≡ some t) × (put_thread k i (some (f t)) ≡ k')
change_thread-eq k i f e =
    let (t, found, made) = >>=-eq-some (k.threads i) (λ t. some (put_thread k i (some (f t)))) e in
    (t, found, cc)

pub sorted_remove-eq :
    (l : List (Element ℕ)) {e : Element ℕ} {r : List (Element ℕ)}
    → sorted_remove l ≡ some (e, r)
    → items l ≡ e.item ∷ items r
unfolding sorted_remove
sorted_remove-eq [] h = cc
sorted_remove-eq (x ∷ l) {e} {r} h =
    ap
      (λ (z : Option (Element ℕ × List (Element ℕ))). elim z [
        | none ↦ []
        | some (a, b) ↦ a.item ∷ items b
      ])
      h

pub find_next_to_run-eq :
    (k : Kernel) {i : ℕ} {k' : Kernel}
    → find_next_to_run k ≡ some (i, k')
    → (r : List (Element ℕ)) × (items k.ready_list ≡ i ∷ items r)
      × (record k { ready_list = r } ≡ k')
unfolding find_next_to_run
find_next_to_run-eq k {i} {k'} e =
    let taken : Element ℕ × List (Element ℕ) → Option (ℕ × Kernel) =
      λ (x, r). some (x.item, record k { ready_list = r }) in
    let ((x, r), first, made) = >>=-eq-some (sorted_remove k.ready_list) taken e in
    let pair : ◌≡◌ {A = ℕ × Kernel} (x.item, record k { ready_list = r }) (i, k') =
      some-injective _ _ made in
    (
      r,
      sorted_remove-eq k.ready_list first ∙ ap (λ (z : ℕ × Kernel). z.0 ∷ items r) pair,
      ap (λ (z : ℕ × Kernel). z.1) pair,
    )

pub ready_to_run-eq :
    (k : Kernel) (i : ℕ) {k' : Kernel}
    → ready_to_run k i ≡ some k'
    → (t : Thread) × (k.threads i ≡ some t)
      × (record (put_thread k i (some (set_status t ready))) { ready_list = append k.ready_list i }
          ≡ k')
unfolding ready_to_run
ready_to_run-eq k i {k'} e =
    let listed : Kernel → Kernel = λ k'. record k' { ready_list = append k.ready_list i } in
    let (k₁, changed, made) =
      >>=-eq-some (change_thread k i (λ t. set_status t ready)) (λ k'. some (listed k')) e in
    let (t, found, put) = change_thread-eq k i (λ t. set_status t ready) changed in
    (t, found, ap listed put ∙ some-injective _ _ made)

-- `Run` saves the thread that runs, and the next one becomes the current thread.
pub run-eq :
    (k : Kernel) (i : ℕ) {k' : Kernel}
    → run k i ≡ some k'
    → (old next : Thread) × (k.threads k.current ≡ some old)
      × ((put_thread k k.current (some (saved old.space k.cpu old))).threads i ≡ some next)
      × (record (put_thread
            (put_thread k k.current (some (saved old.space k.cpu old)))
            i
            (some (set_status next running))) { current = i }
          ≡ k')
unfolding run
run-eq k i {k'} e =
    let kept : Thread → Kernel = λ old. put_thread k k.current (some (saved old.space k.cpu old)) in
    let moved : Kernel → Kernel = λ k'. record k' { current = i } in
    let (old, there, e₁) =
      >>=-eq-some (k.threads k.current)
        (λ old.
          check_overflow old >> change_thread (kept old) i (λ t. set_status t running) >>= λ k'.
          some (moved k'))
        e in
    let (k₁, e₂, made) =
      >>=-eq-some (check_overflow old >> change_thread (kept old) i (λ t. set_status t running))
        (λ k'. some (moved k')) e₁ in
    let (u, passed, changed) =
      >>=-eq-some (check_overflow old) (λ u. change_thread (kept old) i (λ t. set_status t running))
        e₂ in
    let (next, found, put) = change_thread-eq (kept old) i (λ t. set_status t running) changed in
    (old, next, there, found, ap moved put ∙ some-injective _ _ made)
