-- ===== src/Machine/Tests.antt =====
-- A concrete machine of nachos-3.4/code/machine.
use n4ch0s.Base.{◌≡◌, ◌∷◌, refl, true, false, none, some, [], arith}
use n4ch0s.Machine.{TranslationEntry, Machine}
use n4ch0s.Machine.Memory.RoundTrip.{IsWritable, narrowed, read_mem-write_mem}
use n4ch0s.Machine.Translate.Bounds.{Translates, translate-Translates, only_table, word}
use n4ch0s.Machine.Memory.{write_mem, done, read_mem}
use n4ch0s.Machine.Translate.{translate}

abbrev pub page : TranslationEntry
page = record {
  virtual_page = 0;
  physical_page = 3;
  valid = true;
  read_only = false;
  used = false;
  dirty = false;
}

-- One page, at the frame 3.
abbrev pub small_machine : Machine
small_machine = record {
  registers = λ i. 0;
  main_memory = λ a. 0;
  page_table = some (page ∷ []);
  tlb = none;
}

page-IsWritable : IsWritable small_machine (page ∷ []) page 8
page-IsWritable = record {
  no_tlb = refl;
  has_table = refl;
  present = refl;
  is_valid = refl;
  writable = refl;
  frame = omega arith;
}

read_mem-write_mem_example :
    (m1 : Machine) × (m2 : Machine) × (write_mem small_machine 8 4 0xdead_beef ≡ some (done tt m1))
    × (read_mem m1 8 4 ≡ some (done (narrowed 4 0xdead_beef) m2))
    × (m1.registers ≡ small_machine.registers)
    × (m2.registers ≡ small_machine.registers)
read_mem-write_mem_example = read_mem-write_mem 8 4 0xdead_beef page-IsWritable (word refl) refl

translate-Translates_example : Translates 8 4 (translate small_machine 8 4 true)
translate-Translates_example =
    translate-Translates small_machine 8 4 true (only_table (page ∷ [])) (word refl)
