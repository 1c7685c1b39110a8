-- ===== src/Threads/Places/Sees.antt =====
-- What the operations of nachos-3.4/code/threads/scheduler.cc do to the places of the threads.
use n4ch0s.Base.{
  ℕ, ◌==◌, ◌≡◌, ◌++◌, List, [], ◌∷◌, refl, Option, some, ap, sym, ◌∙◌, inl, inr, Bool-cases, ==_iff,
}
use n4ch0s.Threads.{update, Kernel, Thread, put_thread, ready, running}
use n4ch0s.SortedList.{Element, append}
use n4ch0s.Semaphore.{Semaphore}
use n4ch0s.Threads.Places.{Kind, items, Places, kind, waits, runs}
use n4ch0s.Threads.Scheduler.{change_thread, ready_to_run, find_next_to_run, run, set_status, saved}
use mathlib.Core.Path.{subst, fun_ext}
use n4ch0s.Threads.Places.Effects.{
  items-append, change_thread-eq, find_next_to_run-eq, ready_to_run-eq, run-eq, kind-saved,
  kind-running,
}

-- The current thread is `c`, the one to be destroyed is `d`, and `p`, `l` and `q` are the places, the
-- ready list and the queues of the kernel.
pub record Seen (current : ℕ) (threads : ℕ → Option Thread) (ready_list : List (Element ℕ))
    (semaphores : ℕ → Semaphore) (dying : Option ℕ) (c : ℕ) (p : ℕ → Kind) (l : List ℕ)
    (q : ℕ → List ℕ) (d : Option ℕ) : Type 0 where
  pub currents : current ≡ c
  pub kinds : (i : ℕ) → kind (threads i) ≡ p i
  pub lists : items ready_list ≡ l
  pub sleepers : (s : ℕ) → items (semaphores s).queue ≡ q s
  pub deaths : dying ≡ d

abbrev pub Sees : Kernel → ℕ → (ℕ → Kind) → List ℕ → (ℕ → List ℕ) → Option ℕ → Type 0
Sees k = Seen k.current k.threads k.ready_list k.semaphores k.to_be_destroyed

abbrev pub places_of : (ℕ → Option Thread) → ℕ → Kind
places_of threads i = kind (threads i)

abbrev pub queues_of : (ℕ → Semaphore) → ℕ → List ℕ
queues_of semaphores s = items (semaphores s).queue

-- The threads of the kernel stand in their places.
abbrev pub Placed : Kernel → Type 0
Placed k =
    Places k.current (places_of k.threads) (items k.ready_list) (queues_of k.semaphores)
      k.to_be_destroyed

pub same_view :
    (k : Kernel)
    → Sees k k.current
        (places_of k.threads)
        (items k.ready_list)
        (queues_of k.semaphores)
        k.to_be_destroyed
same_view k = record {
  currents = refl;
  kinds = λ i. refl;
  lists = refl;
  sleepers = λ s. refl;
  deaths = refl;
}

pub Sees-Placed :
    (k : Kernel) {c : ℕ} {p : ℕ → Kind} {l : List ℕ} {q : ℕ → List ℕ} {d : Option ℕ}
    → Sees k c p l q d
    → Places c p l q d
    → Placed k
Sees-Placed k {c} {p} {l} {q} {d} s w =
    subst
      (λ x.
        Places x (places_of k.threads) (items k.ready_list) (queues_of k.semaphores)
          k.to_be_destroyed)
      (sym s.currents)
      (subst (λ x. Places c x (items k.ready_list) (queues_of k.semaphores) k.to_be_destroyed)
        (sym (fun_ext s.kinds))
        (subst (λ x. Places c p x (queues_of k.semaphores) k.to_be_destroyed) (sym s.lists)
          (subst (λ x. Places c p l x k.to_be_destroyed) (sym (fun_ext s.sleepers))
            (subst (λ x. Places c p l q x) (sym s.deaths) w))))

module _ (k : Kernel) {c : ℕ} {p : ℕ → Kind} {l : List ℕ} {q : ℕ → List ℕ} {d : Option ℕ}
    (s : Sees k c p l q d) where
  pub put_thread-Sees :
      (i : ℕ) (t : Option Thread) (x : Kind)
      → kind t ≡ x
      → Sees (put_thread k i t) c (update p i x) l q d
  put_thread-Sees i t x h = record {
    currents = s.currents;
    kinds = λ j. elim (Bool-cases (i == j)) [ inl e ↦ rw e h | inr e ↦ rw e (s.kinds j) ];
    lists = s.lists;
    sleepers = s.sleepers;
    deaths = s.deaths;
  }

  pub put_again-Sees :
      (i : ℕ) (t : Option Thread) → kind t ≡ p i → Sees (put_thread k i t) c p l q d
  put_again-Sees i t h = record {
    currents = s.currents;
    kinds = λ j. elim (Bool-cases (i == j)) [
      | inl e ↦ rw e (h ∙ ap p ((==_iff i j).0 e))
      | inr e ↦ rw e (s.kinds j)
    ];
    lists = s.lists;
    sleepers = s.sleepers;
    deaths = s.deaths;
  }

  pub current-Sees : (i : ℕ) → Sees (record k { current = i }) i p l q d
  current-Sees i = record {
    currents = refl;
    kinds = s.kinds;
    lists = s.lists;
    sleepers = s.sleepers;
    deaths = s.deaths;
  }

  pub append-Sees :
      (i : ℕ) → Sees (record k { ready_list = append k.ready_list i }) c p (l ++ (i ∷ [])) q d
  append-Sees i = record {
    currents = s.currents;
    kinds = s.kinds;
    lists = items-append k.ready_list i ∙ ap (λ x. x ++ (i ∷ [])) s.lists;
    sleepers = s.sleepers;
    deaths = s.deaths;
  }

  pub change_thread-Sees :
      (i : ℕ) (f : Thread → Thread) (x : Kind) {k' : Kernel}
      → ((t : Thread) → kind (some t) ≡ p i → kind (some (f t)) ≡ x)
      → change_thread k i f ≡ some k'
      → Sees k' c (update p i x) l q d
  change_thread-Sees i f x h e =
      let (t, found, made) = change_thread-eq k i f e in
      subst (λ (k : Kernel). Sees k c (update p i x) l q d) made
        (put_thread-Sees i (some (f t)) x (h t (ap kind (sym found) ∙ s.kinds i)))

  pub find_next_to_run-Sees :
      {i : ℕ} {k' : Kernel}
      → find_next_to_run k ≡ some (i, k')
      → (r : List ℕ) × (l ≡ i ∷ r) × Sees k' c p r q d
  find_next_to_run-Sees e =
      let (r, there, made) = find_next_to_run-eq k e in
      (
        items r,
        sym s.lists ∙ there,
        subst (λ (k : Kernel). Sees k c p (items r) q d) made
            (record {
              currents = s.currents;
              kinds = s.kinds;
              lists = refl;
              sleepers = s.sleepers;
              deaths = s.deaths;
            }),
      )

module _ (k : Kernel) {k' : Kernel} {c : ℕ} {p : ℕ → Kind} {l : List ℕ} {q : ℕ → List ℕ}
    {d : Option ℕ} (s : Sees k c p l q d) where
  pub ready_to_run-Sees :
      (i : ℕ)
      → ((t : Thread) → k.threads i ≡ some t → kind (some (set_status t ready)) ≡ waits)
      → ready_to_run k i ≡ some k'
      → Sees k' c (update p i waits) (l ++ (i ∷ [])) q d
  ready_to_run-Sees i h e =
      let (t, found, made) = ready_to_run-eq k i e in
      subst (λ (k : Kernel). Sees k c (update p i waits) (l ++ (i ∷ [])) q d) made
        (append-Sees (put_thread k i (some (set_status t ready)))
          (put_thread-Sees k s i (some (set_status t ready)) waits (h t found)) i)

  pub run-Sees : (i : ℕ) → p i ≡ waits → run k i ≡ some k' → Sees k' i (update p i runs) l q d
  run-Sees i h e =
      let (old, next, there, found, made) = run-eq k i e in
      let k₁ : Kernel = put_thread k k.current (some (saved old.space k.cpu old)) in
      let s₁ : Sees k₁ c p l q d =
        put_again-Sees k s k.current (some (saved old.space k.cpu old))
          (kind-saved old.space k.cpu old ∙ ap kind (sym there) ∙ s.kinds k.current) in
      subst (λ (k : Kernel). Sees k i (update p i runs) l q d) made
        (current-Sees (put_thread k₁ i (some (set_status next running)))
          (put_thread-Sees k₁ s₁ i (some (set_status next running)) runs
            (kind-running next (ap kind (sym found) ∙ s₁.kinds i ∙ h)))
          i)
