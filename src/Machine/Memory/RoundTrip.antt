-- ===== src/Machine/Memory/RoundTrip.antt =====
-- Reading back what was written, on a machine with a page table.
use n4ch0s.Base.{
  ℕ, get_elem?, ◌/◌, ◌<◌, ◌≡◌, refl, Bool, true, false, none, some, List, set, get_elem?-set_self,
  lt-length_of_get, ◌+◌, ◌%◌, ◌≤◌, ◌&&◌, arith, leb, ◌^◌, ◌∙◌, ◌==◌, if◌then◌else◌, ap, not,
}
use n4ch0s.Machine.{Machine, TranslationEntry, memory_size, page_size, num_phys_pages, update}
use n4ch0s.Machine.Translate.{
  translate, physical, touched, lookup_entry, by_table, through, misaligned, target, put_table,
}
use n4ch0s.Machine.Translate.Bounds.{Size, fits_page, byte, short, word}
use n4ch0s.Machine.Memory.{
  sign_extend_byte, store, short_at, word_at, fetch, put_short, write_mem, read_mem, done,
}

-- The page of an address is mapped, may be written, and has a frame in the memory.
pub record IsWritable (m : Machine) (table : List TranslationEntry) (e : TranslationEntry) (v : ℕ)
    : Type 0 where
  pub no_tlb : m.tlb ≡ none
  pub has_table : m.page_table ≡ some table
  pub present : get_elem? table (v / page_size) ≡ some e
  pub is_valid : e.valid ≡ true
  pub writable : e.read_only ≡ false
  pub frame : e.physical_page < num_phys_pages

-- The same page after an access has set its bits.
abbrev pub mapped : Machine → List TranslationEntry → TranslationEntry → ℕ → Bool → Machine
mapped m table e v writing = record m {
  page_table = some (set table (v / page_size) (touched e writing));
}

unless_not : {A : Type 0} (x y : A) (b : Bool) → b ≡ true → (if not b then x else y) ≡ y
unless_not x y true h = refl
unless_not x y false h = cc

module _ {m : Machine} {table : List TranslationEntry} {e : TranslationEntry} (v : ℕ)
    (i : IsWritable m table e v) where
  by_page_table :
      (size : ℕ) (w : Bool) → lookup_entry m m.tlb m.page_table v size w ≡ by_table m table v size w
  unfolding lookup_entry
  by_page_table size w = simp (i.no_tlb, i.has_table)

  pub through-target :
      (size : ℕ) (w : Bool) (store : TranslationEntry → Machine)
      → v % page_size + size ≤ page_size
      → through m e store v size w ≡ some (physical (target e v), store (touched e w))
  unfolding through
  through-target size w store fits = rw (ro w, small, inside) refl
    where
      ro : (w : Bool) → (e.read_only && w) ≡ false
      ro w = ground (arith, i.writable)

      small : leb num_phys_pages e.physical_page ≡ false
      small = ground (arith, i.frame)

      inside : leb (target e v + size) memory_size ≡ true
      inside = ground (arith, i.frame)

  pub translate-mapped :
      (size : ℕ) (w : Bool)
      → Size size
      → misaligned v size ≡ false
      → translate m v size w ≡ some (physical (target e v), mapped m table e v w)
  unfolding translate by_table
  translate-mapped size w s ok =
      rw (ok, by_page_table size w, by_table, i.present)
        (unless_not _ _ e.valid i.is_valid
          ∙ through-target size w (put_table m table (v / page_size)) (fits_page v size s ok))

  pub mapped-IsWritable :
      (w : Bool)
      → IsWritable (mapped m table e v w) (set table (v / page_size) (touched e w)) (touched e w) v
  mapped-IsWritable w = record {
    no_tlb = i.no_tlb;
    has_table = refl;
    present =
        get_elem?-set_self table (v / page_size) (touched e w)
          (lt-length_of_get table (v / page_size) i.present);
    is_valid = i.is_valid;
    writable = i.writable;
    frame = i.frame;
  }

-- What of a written value comes back: the low bytes, sign-extended for one byte.
abbrev pub narrowed : (size value : ℕ) → ℕ
narrowed size value =
    if size == 1
    then sign_extend_byte (value % 2 ^ 8)
    else if size == 2
    then value % 2 ^ 16
    else value % 2 ^ 32

short_at-put_short : (mem : ℕ → ℕ) (a x : ℕ) → short_at (put_short mem a x) a ≡ x % 2 ^ 16
unfolding update
short_at-put_short mem a x = ground arith

word_at-put_short :
    (mem : ℕ → ℕ) (a x : ℕ)
    → word_at (put_short (put_short mem a x) (a + 2) (x / 2 ^ 16)) a ≡ x % 2 ^ 32
unfolding update
word_at-put_short mem a x = ground arith

update_self : (mem : ℕ → ℕ) (a x : ℕ) → update mem a x a ≡ x
unfolding update
update_self mem a x = ground arith

fetch-store :
    (mem : ℕ → ℕ) (a size x : ℕ)
    → Size size
    → (mem' : ℕ → ℕ) × (store mem a size x ≡ some mem')
      × (fetch mem' a size ≡ some (narrowed size x))
unfolding store fetch
fetch-store mem a size x (byte e) = (
  update mem a (x % 2 ^ 8),
  rw e refl,
  rw e (ap (λ (t : ℕ). some (sign_extend_byte t)) (update_self mem a (x % 2 ^ 8))),
)
fetch-store mem a size x (short e) =
    (put_short mem a x, rw e refl, rw e (ap some (short_at-put_short mem a x)))
fetch-store mem a size x (word e) = (
  put_short (put_short mem a x) (a + 2) (x / 2 ^ 16),
  rw e refl,
  rw e (ap some (word_at-put_short mem a x)),
)

-- On a machine with a page table, for an access of 1, 2 or 4 bytes at an aligned address of a valid and
-- writable page with a frame in the memory: `ReadMem` after `WriteMem` returns the value, cut to the
-- size of the access, and neither raises an exception or changes a register.
pub read_mem-write_mem :
    {m : Machine} {table : List TranslationEntry} {e : TranslationEntry} (v size x : ℕ)
    → IsWritable m table e v
    → Size size
    → misaligned v size ≡ false
    → (m1 : Machine) × (m2 : Machine) × (write_mem m v size x ≡ some (done tt m1))
      × (read_mem m1 v size ≡ some (done (narrowed size x) m2))
      × (m1.registers ≡ m.registers)
      × (m2.registers ≡ m.registers)
unfolding write_mem read_mem
read_mem-write_mem {m} {table} {e} v size x i s ok =
    let (mem', stored, fetched) = fetch-store m.main_memory (target e v) size x s in
    let m1 : Machine = record m {
      main_memory = mem';
      page_table = some (set table (v / page_size) (touched e true));
    } in
    (
      m1,
      mapped m1 (set table (v / page_size) (touched e true)) (touched e true) v false,
      rw (translate-mapped v i size true s ok, stored) refl,
      rw (translate-mapped v (writable_after i mem') size false s ok, fetched) refl,
      refl,
      refl,
    )
  where
    writable_after :
        IsWritable m table e v
        → (mem' : ℕ → ℕ)
        → IsWritable
            (record m {
              main_memory = mem';
              page_table = some (set table (v / page_size) (touched e true));
            })
            (set table (v / page_size) (touched e true))
            (touched e true)
            v
    writable_after i mem' =
        let w = mapped-IsWritable v i true in
        record {
          no_tlb = w.no_tlb;
          has_table = refl;
          present = w.present;
          is_valid = w.is_valid;
          writable = w.writable;
          frame = w.frame;
        }
