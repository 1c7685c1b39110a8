-- ===== src/Machine/Translate.antt =====
-- `Machine::Translate` of nachos-3.4/code/machine/translate.cc.
pub mod Bounds
use n4ch0s.Base.{
  ℕ, get_elem?, ◌+◌, ◌*◌, ◌/◌, ◌%◌, ◌&&◌, ◌||◌, ◌∷◌, ◌==◌, ◌>>=◌, ◌>>◌, if◌then◌else◌, Bool, true,
  not, Option, none, some, List, [], set, leb, assert,
}
use n4ch0s.Machine.{
  ExceptionType, TranslationEntry, Machine, page_size, read_only_exception, address_error_exception,
  page_fault_exception, num_phys_pages, bus_error_exception, memory_size,
}

pub data Translation : Type 0 where
  raises : ExceptionType → Translation
  physical : ℕ → Translation

-- `((size == 4) && (virtAddr & 0x3)) || ((size == 2) && (virtAddr & 0x1))`.
abbrev pub misaligned : ℕ → ℕ → Bool
misaligned virt_addr size =
    ((size == 4) && not (virt_addr % 4 == 0)) || ((size == 2) && not (virt_addr % 2 == 0))

-- The entry with its use bit, and its dirty bit on a write.
abbrev pub touched : TranslationEntry → Bool → TranslationEntry
touched e writing = record e { used = true; dirty = e.dirty || writing }

abbrev pub target : TranslationEntry → ℕ → ℕ
target e virt_addr = e.physical_page * page_size + virt_addr % page_size

-- What follows once the entry is found; `store` puts an entry back into its table.
unfoldable pub through :
    Machine
    → TranslationEntry
    → (TranslationEntry → Machine)
    → (virt_addr size : ℕ) → Bool
    → Option (Translation × Machine)
through m e store virt_addr size writing =
    if e.read_only && writing
    then some (raises read_only_exception, m)
    else if leb num_phys_pages e.physical_page
    then some (raises bus_error_exception, m)
    else assert (leb (target e virt_addr + size) memory_size)
      >> some (physical (target e virt_addr), store (touched e writing))

-- The loop over the TLB: the first valid entry for the page.
unfoldable pub tlb_index : List TranslationEntry → (vpn i : ℕ) → Option ℕ
tlb_index [] vpn i = none
tlb_index (e ∷ es) vpn i =
    let rest = tlb_index es vpn (i + 1) in
    if e.valid && (e.virtual_page == vpn) then some i else rest

abbrev pub put_table : Machine → List TranslationEntry → ℕ → TranslationEntry → Machine
put_table m table vpn e = record m { page_table = some (set table vpn e) }

abbrev pub put_tlb : Machine → List TranslationEntry → ℕ → TranslationEntry → Machine
put_tlb m entries i e = record m { tlb = some (set entries i e) }

-- A page table, indexed by the virtual page number.
unfoldable pub by_table :
    Machine → List TranslationEntry → (virt_addr size : ℕ) → Bool → Option (Translation × Machine)
unfolding through
by_table m table virt_addr size writing =
    let vpn = virt_addr / page_size in
    elim (get_elem? table vpn) [
      | none ↦ some (raises address_error_exception, m)
      | some e ↦
          if not e.valid
          then some (raises page_fault_exception, m)
          else through m e (put_table m table vpn) virt_addr size writing
    ]

unfoldable pub by_tlb :
    Machine → List TranslationEntry → (virt_addr size : ℕ) → Bool → Option (Translation × Machine)
unfolding through tlb_index
by_tlb m entries virt_addr size writing = elim (tlb_index entries (virt_addr / page_size) 0) [
  | none ↦ some (raises page_fault_exception, m)
  | some i ↦ get_elem? entries i >>= λ e. through m e (put_tlb m entries i) virt_addr size writing
]

-- There must be a TLB or a page table, and not both.
unfoldable pub lookup_entry :
    Machine
    → Option (List TranslationEntry)
    → Option (List TranslationEntry)
    → (virt_addr size : ℕ) → Bool
    → Option (Translation × Machine)
unfolding by_table by_tlb
lookup_entry m (some entries) none virt_addr size writing = by_tlb m entries virt_addr size writing
lookup_entry m none (some table) virt_addr size writing = by_table m table virt_addr size writing
lookup_entry m (some entries) (some table) virt_addr size writing = none
lookup_entry m none none virt_addr size writing = none

unfoldable pub translate : Machine → (virt_addr size : ℕ) → Bool → Option (Translation × Machine)
unfolding lookup_entry
translate m virt_addr size writing =
    if misaligned virt_addr size
    then some (raises address_error_exception, m)
    else lookup_entry m m.tlb m.page_table virt_addr size writing
