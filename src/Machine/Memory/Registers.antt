-- ===== src/Machine/Memory/Registers.antt =====
-- What a memory access of nachos-3.4/code/machine/translate.cc does to the registers.
use n4ch0s.Base.{
  ℕ, ◌+◌, ◌/◌, ◌≡◌, ◌&&◌, ◌>>=◌, refl, Bool, true, false, Option, none, some, List, inl, inr,
  Bool-cases, leb, Option-cases, get_elem?, not, ◌∙◌,
}
use n4ch0s.Machine.{
  Machine, raise_exception, TranslationEntry, delayed_load, memory_size, page_size,
}
use n4ch0s.Machine.Translate.{
  through, by_table, by_tlb, lookup_entry, translate, Translation, misaligned, target, tlb_index,
  touched, put_table, put_tlb,
}
use n4ch0s.Machine.Memory.{read_mem, write_mem, Access, done, raises, trap, physical, fetch, store}

-- The translation leaves the registers alone.
abbrev KeepsRegisters : Machine → Option (Translation × Machine) → Type 0
KeepsRegisters m none = Unit {0}
KeepsRegisters m (some (t, m')) = m'.registers ≡ m.registers

through-KeepsRegisters :
    (m : Machine) (e : TranslationEntry) (store : TranslationEntry → Machine) (v size : ℕ)
    (w : Bool)
    → ((e' : TranslationEntry) → (store e').registers ≡ m.registers)
    → KeepsRegisters m (through m e store v size w)
unfolding through
through-KeepsRegisters m e store v size w h = elim (Bool-cases (e.read_only && w)) [
  | inl ro ↦ rw ro refl
  | inr ok ↦ elim (Bool-cases (leb 128 e.physical_page)) [
    | inl big ↦ rw (ok, big) refl
    | inr small ↦ elim (Bool-cases (leb (target e v + size) memory_size)) [
      | inl fits ↦ rw (ok, small, fits) (h (touched e w))
      | inr over ↦ rw (ok, small, over) tt
    ]
  ]
]

by_table-KeepsRegisters :
    (m : Machine) (table : List TranslationEntry) (v size : ℕ) (w : Bool)
    → KeepsRegisters m (by_table m table v size w)
unfolding by_table
by_table-KeepsRegisters m table v size w = elim (Option-cases (get_elem? table (v / page_size))) [
  | inl e ↦ rw (e, by_table) refl
  | inr (e, h) ↦
      rw (h, by_table)
        (elim (Bool-cases (not e.valid)) [
          | inr ok ↦
              rw ok (
                through-KeepsRegisters m e (put_table m table (v / page_size)) v size w
                  (λ e'. refl))
          | inl invalid ↦ rw invalid refl
        ])
]

by_tlb-KeepsRegisters :
    (m : Machine) (entries : List TranslationEntry) (v size : ℕ) (w : Bool)
    → KeepsRegisters m (by_tlb m entries v size w)
unfolding by_tlb
by_tlb-KeepsRegisters m entries v size w =
    elim (Option-cases (tlb_index entries (v / page_size) 0)) [
      | inl e ↦ rw (e, by_tlb) refl
      | inr (i, h) ↦
          rw (h, by_tlb)
            (elim (Option-cases (get_elem? entries i)) [
              | inl f ↦ rw f tt
              | inr (e, f) ↦
                  rw f (through-KeepsRegisters m e (put_tlb m entries i) v size w (λ e'. refl))
            ])
    ]

lookup_entry-KeepsRegisters :
    (m : Machine) (tlb table : Option (List TranslationEntry)) (v size : ℕ) (w : Bool)
    → KeepsRegisters m (lookup_entry m tlb table v size w)
unfolding lookup_entry
lookup_entry-KeepsRegisters m (some t) none v size w = by_tlb-KeepsRegisters m t v size w
lookup_entry-KeepsRegisters m none (some t) v size w = by_table-KeepsRegisters m t v size w
lookup_entry-KeepsRegisters m (some s) (some t) v size w = tt
lookup_entry-KeepsRegisters m none none v size w = tt

translate-KeepsRegisters :
    (m : Machine) (v size : ℕ) (w : Bool) → KeepsRegisters m (translate m v size w)
unfolding translate
translate-KeepsRegisters m v size w = elim (Bool-cases (misaligned v size)) [
  | inl bad ↦ rw bad refl
  | inr ok ↦ rw ok (lookup_entry-KeepsRegisters m m.tlb m.page_table v size w)
]

-- An access that is done leaves the registers alone; one that traps leaves them as
-- `RaiseException` does.
abbrev pub Accesses : {A : Type 0} → Machine → (addr : ℕ) → Option (Access A) → Type 0
Accesses m addr none = Unit {0}
Accesses m addr (some (done a m')) = m'.registers ≡ m.registers
Accesses m addr (some (trap e m')) = m'.registers ≡ (raise_exception m addr).registers

pub raise_exception-registers :
    (m m' : Machine) (addr : ℕ)
    → m'.registers ≡ m.registers
    → (raise_exception m' addr).registers ≡ (raise_exception m addr).registers
unfolding raise_exception delayed_load
raise_exception-registers m m' addr h = rw h refl

-- The same of a state with the same registers.
pub Accesses-from :
    {A : Type 0} (m m' : Machine) (addr : ℕ) (r : Option (Access A))
    → m'.registers ≡ m.registers
    → Accesses m' addr r
    → Accesses m addr r
Accesses-from m m' addr none h k = tt
Accesses-from m m' addr (some (done a n)) h k = k ∙ h
Accesses-from m m' addr (some (trap e n)) h k = k ∙ raise_exception-registers m m' addr h

pub read_mem-Accesses : (m : Machine) (addr size : ℕ) → Accesses m addr (read_mem m addr size)
unfolding read_mem
read_mem-Accesses m addr size =
    go (translate m addr size false) (translate-KeepsRegisters m addr size false)
  where
    go :
        (r : Option (Translation × Machine))
        → KeepsRegisters m r
        → Accesses m addr (
            r >>= λ (t, m'). elim t [
              | raises e ↦ some (trap e (raise_exception m' addr))
              | physical a ↦ fetch m'.main_memory a size >>= λ v. some (done v m')
            ])
    go none k = tt
    go (some (raises e, m')) k = raise_exception-registers m m' addr k
    go (some (physical a, m')) k = elim (Option-cases (fetch m'.main_memory a size)) [
      | inl f ↦ rw f tt
      | inr (v, f) ↦ rw f k
    ]

pub write_mem-Accesses :
    (m : Machine) (addr size value : ℕ) → Accesses m addr (write_mem m addr size value)
unfolding write_mem
write_mem-Accesses m addr size value =
    go (translate m addr size true) (translate-KeepsRegisters m addr size true)
  where
    go :
        (r : Option (Translation × Machine))
        → KeepsRegisters m r
        → Accesses m addr (
            r >>= λ (t, m'). elim t [
              | raises e ↦ some (trap e (raise_exception m' addr))
              | physical a ↦ store m'.main_memory a size value >>= λ mem.
                  some (done tt (record m' { main_memory = mem }))
            ])
    go none k = tt
    go (some (raises e, m')) k = raise_exception-registers m m' addr k
    go (some (physical a, m')) k = elim (Option-cases (store m'.main_memory a size value)) [
      | inl f ↦ rw f tt
      | inr (v, f) ↦ rw f k
    ]
