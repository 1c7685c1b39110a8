-- ===== src/Machine/Translate/Bounds.antt =====
-- The ASSERTs of `Translate` and the range of what it returns, for both ways of translating.
use n4ch0s.Base.{
  ℕ, ◌+◌, ◌%◌, ◌<◌, ◌≤◌, ◌≡◌, ◌≢◌, ◌&&◌, Bool, true, false, Option, none, some, List, inl, inr,
  arith, leb, Bool-cases, ◌/◌, ◌∷◌, ◌==◌, suc, refl, not, [], get_elem?, Option-cases,
}
use n4ch0s.Machine.{Machine, TranslationEntry, memory_size, page_size, no_exception}
use n4ch0s.Machine.Translate.{
  Translation, misaligned, through, raises, target, physical, tlb_index, by_tlb, by_table,
  lookup_entry, translate, put_tlb, put_table,
}

-- The sizes that the machine reads and writes.
pub data Size : ℕ → Type 0 where
  byte : {n : ℕ} → n ≡ 1 → Size n
  short : {n : ℕ} → n ≡ 2 → Size n
  word : {n : ℕ} → n ≡ 4 → Size n

-- Exactly one of the TLB and the page table is there.
pub data HasOne : Option (List TranslationEntry) → Option (List TranslationEntry) → Type 0 where
  only_tlb : (t : List TranslationEntry) → HasOne (some t) none
  only_table : (t : List TranslationEntry) → HasOne none (some t)

-- An exception, or an address inside the memory, at the same offset in its page.
abbrev pub InMemory : (virt_addr size : ℕ) → Translation → Type 0
InMemory virt_addr size (raises e) = e ≢ no_exception
InMemory virt_addr size (physical a) =
    (a + size ≤ memory_size) × (a % page_size ≡ virt_addr % page_size)

abbrev pub Translates : (virt_addr size : ℕ) → Option (Translation × Machine) → Type 0
Translates virt_addr size none = ⊥
Translates virt_addr size (some (t, m)) = InMemory virt_addr size t

-- An aligned access does not cross the end of its page.
pub fits_page :
    (v size : ℕ) → Size size → misaligned v size ≡ false → v % page_size + size ≤ page_size
fits_page v size (byte e) h = omega arith
fits_page v size (short e) h = ground arith
fits_page v size (word e) h = ground arith

through-Translates :
    (m : Machine) (e : TranslationEntry) (store : TranslationEntry → Machine) (v size : ℕ)
    (w : Bool)
    → v % page_size + size ≤ page_size
    → Translates v size (through m e store v size w)
unfolding through
through-Translates m e store v size w fits = elim (Bool-cases (e.read_only && w)) [
  | inl ro ↦ rw ro (λ eq. cc)
  | inr ok ↦ rw ok (elim (Bool-cases (leb 128 e.physical_page)) [
    | inl big ↦ rw big (λ eq. cc)
    | inr small ↦ rw (small, fitting (ground arith)) (in_memory (ground arith), same_offset)
  ])
]
  where
    in_memory : e.physical_page < 128 → target e v + size ≤ memory_size
    in_memory h = omega arith

    fitting : e.physical_page < 128 → leb (target e v + size) memory_size ≡ true
    fitting h = ground (arith, in_memory h)

    same_offset : target e v % page_size ≡ v % page_size
    same_offset = omega arith

-- The TLB loop returns an index inside the TLB, of a valid entry for the page.
pub record TlbHit (entries : List TranslationEntry) (vpn i j : ℕ) : Type 0 where
  pub entry : TranslationEntry
  pub offset : ℕ
  pub index : j ≡ offset + i
  pub present : get_elem? entries offset ≡ some entry
  pub is_valid : entry.valid ≡ true
  pub page : entry.virtual_page ≡ vpn

TlbHit-cons :
    (e : TranslationEntry) (entries : List TranslationEntry) (vpn i j : ℕ)
    → TlbHit entries vpn (i + 1) j
    → TlbHit (e ∷ entries) vpn i j
TlbHit-cons e entries vpn i j h = record {
  entry = h.entry;
  offset = suc h.offset;
  index = omega (arith, h.index);
  present = h.present;
  is_valid = h.is_valid;
  page = h.page;
}

pub tlb_index-TlbHit :
    (entries : List TranslationEntry) (vpn i j : ℕ)
    → tlb_index entries vpn i ≡ some j
    → TlbHit entries vpn i j
unfolding tlb_index
tlb_index-TlbHit [] vpn i j h = cc
tlb_index-TlbHit (e ∷ entries) vpn i j h = elim (Bool-cases (e.valid && (e.virtual_page == vpn))) [
  | inl hit ↦ record {
    entry = e;
    offset = 0;
    index = ground (arith, hit);
    present = refl;
    is_valid = ground (arith, hit);
    page = ground (arith, hit);
  }
  | inr miss ↦
      TlbHit-cons e entries vpn i j (tlb_index-TlbHit entries vpn (i + 1) j (ground (arith, miss)))
]

by_tlb-Translates :
    (m : Machine) (entries : List TranslationEntry) (v size : ℕ) (w : Bool)
    → v % page_size + size ≤ page_size
    → Translates v size (by_tlb m entries v size w)
unfolding by_tlb
by_tlb-Translates m entries v size w fits =
    elim (Option-cases (tlb_index entries (v / page_size) 0)) [
      | inl miss ↦ rw (miss, by_tlb) (λ eq. cc)
      | inr (j, hit) ↦
          let h = tlb_index-TlbHit entries (v / page_size) 0 j hit in
          rw (hit, by_tlb, at_offset j h.offset h.index, h.present)
            (through-Translates m h.entry (put_tlb m entries h.offset) v size w fits)
    ]
  where
    at_offset : (j k : ℕ) → j ≡ k + 0 → j ≡ k
    at_offset j k e = omega arith

by_table-Translates :
    (m : Machine) (table : List TranslationEntry) (v size : ℕ) (w : Bool)
    → v % page_size + size ≤ page_size
    → Translates v size (by_table m table v size w)
unfolding by_table
by_table-Translates m table v size w fits = elim (Option-cases (get_elem? table (v / page_size))) [
  | inl outside ↦ rw (outside, by_table) (λ eq. cc)
  | inr (e, inside) ↦
      rw (inside, by_table)
        (elim (Bool-cases (not e.valid)) [
          | inl invalid ↦ rw invalid (λ eq. cc)
          | inr ok ↦
              rw ok (through-Translates m e (put_table m table (v / page_size)) v size w fits)
        ])
]

lookup_entry-Translates :
    (m : Machine) (tlb table : Option (List TranslationEntry)) (v size : ℕ) (w : Bool)
    → HasOne tlb table
    → v % page_size + size ≤ page_size
    → Translates v size (lookup_entry m tlb table v size w)
unfolding lookup_entry
lookup_entry-Translates m tlb table v size w (only_tlb t) fits = by_tlb-Translates m t v size w fits
lookup_entry-Translates m tlb table v size w (only_table t) fits =
    by_table-Translates m t v size w fits

-- With exactly one of a TLB and a page table, and a size of 1, 2 or 4, no ASSERT of `Translate` fails,
-- whatever the table holds: it returns an exception, or a physical address that lies in the memory with
-- all the bytes of the access, at the same offset in its page as the virtual address.
pub translate-Translates :
    (m : Machine) (v size : ℕ) (w : Bool)
    → HasOne m.tlb m.page_table
    → Size size
    → Translates v size (translate m v size w)
unfolding translate
translate-Translates m v size w one s = elim (Bool-cases (misaligned v size)) [
  | inl bad ↦ rw bad (λ eq. cc)
  | inr ok ↦
      rw ok (lookup_entry-Translates m m.tlb m.page_table v size w one (fits_page v size s ok))
]
