-- ===== src/Threads/Places/Wakes.antt =====
-- `V` of nachos-3.4/code/threads/synch.cc leaves every thread in its place.
use n4ch0s.Base.{ℕ, ◌≡◌, ◌++◌, List, [], ◌∷◌, arith, refl, some, ap, sym, ◌∙◌, inl, inr, ◌⊎◌, has}
use n4ch0s.Threads.{update, Kernel, just_created, ThreadStatus, Point, in_code, ready}
use n4ch0s.SortedList.{append, sorted_remove, Element}
use n4ch0s.Semaphore
use n4ch0s.Base.Int.{pos, ◌+ℤ◌}
use n4ch0s.Semaphore.{Semaphore, Turn, sleeps, goes_on, is_zero}
use n4ch0s.Threads.Semaphores.{v, put_semaphore, woken}
use n4ch0s.Threads.Places.Sees.{
  Sees, places_of, Placed, queues_of, Sees-Placed, change_thread-Sees, append-Sees,
}
use n4ch0s.Threads.Places.{kind_at, items, kind, asleep, waits}
use n4ch0s.Threads.Scheduler.{change_thread, set_status}
use n4ch0s.Threads.Places.Switches.{Sees-again}
use mathlib.Core.Option.{some-injective}
use n4ch0s.Threads.Places.Moves.{wakes}
use mathlib.Core.Path.{subst, ap₂}
use n4ch0s.Threads.Places.Waits.{put_semaphore-Sees}

abbrev up : Semaphore → List (Element ℕ) → Semaphore
up x q = record { value = x.value +ℤ pos 1; queue = q }

pub up-nobody :
    (x : Semaphore) (l : List (Element ℕ)) → x.queue ≡ [] → Semaphore.v x l ≡ (up x [], l)
unfolding Semaphore.v sorted_remove
up-nobody x l h =
    subst (λ q. Semaphore.v (record { value = x.value; queue = q }) l ≡ (up x [], l)) (sym h) refl

pub up-someone :
    (x : Semaphore) (l : List (Element ℕ)) (e : Element ℕ) (q : List (Element ℕ))
    → x.queue ≡ e ∷ q
    → Semaphore.v x l ≡ (up x q, append l e.item)
unfolding Semaphore.v sorted_remove
up-someone x l e q h =
    subst (λ z. Semaphore.v (record { value = x.value; queue = z }) l ≡ (up x q, append l e.item))
      (sym h) refl

pub v-nobody :
    (k : Kernel) (s : ℕ)
    → (k.semaphores s).queue ≡ []
    → v k s ≡ some (put_semaphore k s (up (k.semaphores s) []))
unfolding v woken sorted_remove
v-nobody k s h = ap₂ (woken k s) (ap sorted_remove h) (up-nobody (k.semaphores s) k.ready_list h)

pub v-someone :
    (k : Kernel) (s : ℕ) (e : Element ℕ) (q : List (Element ℕ))
    → (k.semaphores s).queue ≡ e ∷ q
    → v k s
      ≡ change_thread
          (record (put_semaphore k s (up (k.semaphores s) q)) {
            ready_list = append k.ready_list e.item;
          })
          e.item
          (λ t. set_status t ready)
unfolding v woken sorted_remove
v-someone k s e q h =
    ap₂ (woken k s) (ap sorted_remove h) (up-someone (k.semaphores s) k.ready_list e q h)

pub kind_at-ready :
    (s : ℕ) (st : ThreadStatus) (pt : Point) → kind_at st pt ≡ asleep s → kind_at ready pt ≡ waits
unfolding kind_at
kind_at-ready s just_created in_code h = cc
kind_at-ready s st pt h = ground arith

pub list_cases :
    (l : List (Element ℕ)) → (l ≡ []) ⊎ ((x : Element ℕ) × (q : List (Element ℕ)) × (l ≡ x ∷ q))
list_cases [] = inl refl
list_cases (x ∷ q) = inr (x, q, refl)

module _ (k : Kernel) (s : ℕ) {k' : Kernel} (w : Placed k) (e : v k s ≡ some k') where
  v-nobody-Placed : (k.semaphores s).queue ≡ [] → Placed k'
  v-nobody-Placed h = subst Placed (some-injective _ _ (sym (v-nobody k s h) ∙ e)) (
      Sees-Placed (put_semaphore k s (up (k.semaphores s) []))
        (Sees-again (put_semaphore k s (up (k.semaphores s) []))
          (put_semaphore-Sees k s (up (k.semaphores s) [])) (λ j. refl) refl
          (λ j. ground (arith, ap items h)))
        w)

  v-someone-Placed :
      (x : Element ℕ) (q : List (Element ℕ)) → (k.semaphores s).queue ≡ x ∷ q → Placed k'
  unfolding kind
  v-someone-Placed x q h =
      let k₁ : Kernel = put_semaphore k s (up (k.semaphores s) q) in
      let k₂ : Kernel = record k₁ { ready_list = append k.ready_list x.item } in
      let s₂ : Sees k₂ k.current (places_of k.threads) (items k.ready_list ++ (x.item ∷ []))
          (update (queues_of k.semaphores) s (items q)) k.to_be_destroyed =
        append-Sees k₁ (put_semaphore-Sees k s (up (k.semaphores s) q)) x.item in
      let asleep_there : kind (k.threads x.item) ≡ asleep s =
        ground (arith, w.queued s x.item, ap (λ (l : List (Element ℕ)). has x.item (items l)) h) in
      Sees-Placed k'
        (change_thread-Sees k₂ s₂ x.item (λ t. set_status t ready) waits
          (λ t g. kind_at-ready s t.status t.point (g ∙ asleep_there))
          (sym (v-someone k s x q h) ∙ e))
        (wakes w s x.item (items q) (ap items h))

pub v-Placed : (k : Kernel) (s : ℕ) {k' : Kernel} → Placed k → v k s ≡ some k' → Placed k'
v-Placed k s w e = elim (list_cases (k.semaphores s).queue) [
  | inl nobody ↦ v-nobody-Placed k s w e nobody
  | inr (x, q, some_one) ↦ v-someone-Placed k s w e x q some_one
]
