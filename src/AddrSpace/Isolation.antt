-- ===== src/AddrSpace/Isolation.antt =====
-- The frames that the constructor of nachos-3.4/code/userprog/addrspace.cc gives to an address space.
use n4ch0s.Base.{
  ℕ, ◌+◌, ◌*◌, ◌<◌, ◌≤◌, ◌≡◌, ◌∷◌, zero, suc, List, [], some, true, false, refl, arith, length, has,
  Distinct, ◌==◌, if◌then◌else◌, leb,
}
use n4ch0s.BitMap.{IsValid, marked}
use n4ch0s.BitMap.Takes.{Takes, take, none_left, free_count, find_takes, free_count-marked}
use n4ch0s.Machine.{TranslationEntry, page_size, memory_size}
use n4ch0s.AddrSpace.{mapping, Frames, zeroed, allocate_pages, clear_page}
use n4ch0s.BitMap.Words.{marked-IsValid}

-- A table that maps the pages from `i` on to the frames `ks`, valid and writable.
abbrev pub Maps : ℕ → List ℕ → List TranslationEntry → Type 0
Maps i [] table = table ≡ []
Maps i (k ∷ ks) table =
    (rest : List TranslationEntry) × (table ≡ mapping i k ∷ rest) × Maps (i + 1) ks rest

-- The bytes of the frames `ks` are 0, and those of the frames that are not among them are as they were.
abbrev pub Cleared : List ℕ → (ℕ → ℕ) → (ℕ → ℕ) → Type 0
Cleared ks mem mem' =
    (k a : ℕ)
    → k * page_size ≤ a
    → a < k * page_size + page_size
    → (has k ks ≡ true → mem' a ≡ 0) × (has k ks ≡ false → mem' a ≡ mem a)

pub record Given (n i : ℕ) (f f' : Frames) (table : List TranslationEntry) (ks : List ℕ)
    : Type 0 where
  pub takes : Takes f'.free f.free ks
  pub count : length ks ≡ n
  pub maps : Maps i ks table
  pub cleared : Cleared ks f.memory f'.memory

zeroed-frame :
    (mem : ℕ → ℕ) (k j a : ℕ)
    → j * page_size ≤ a
    → a < j * page_size + page_size
    → zeroed mem (k * page_size) a ≡ (if k == j then 0 else mem a)
zeroed-frame mem k j a h g = ground arith

pub allocate_pages-Given :
    (n i : ℕ) (f : Frames)
    → IsValid f.free
    → f.free.num_bits ≡ 128
    → n ≤ free_count f.free
    → (table : List TranslationEntry) × (f' : Frames) × (ks : List ℕ) × (allocate_pages n i f
        ≡ some (table, f'))
      × Given n i f f' table ks
unfolding allocate_pages clear_page
allocate_pages-Given zero i f v bits enough = (
  [],
  f,
  [],
  refl,
  record {
    takes = none_left;
    count = refl;
    maps = refl;
    cleared = λ k a h g. (λ e. cc, λ e. refl);
  },
)
allocate_pages-Given (suc n) i f v bits enough =
    let (k, found, inside, free) = find_takes v (omega arith) in
    let room : leb (k * page_size + page_size) memory_size ≡ true = ground arith in
    let next : Frames = record {
      memory = zeroed f.memory (k * page_size);
      free = marked f.free k;
    } in
    let (table, f', ks, e, g) =
      allocate_pages-Given n (i + 1) next (marked-IsValid k v inside) bits
        (omega (arith, free_count-marked k v inside free)) in
    (
      mapping i k ∷ table,
      f',
      k ∷ ks,
      rw (found, room, e) refl,
      record {
        takes = take v inside free g.takes;
        count = omega (arith, g.count);
        maps = (table, refl, g.maps);
        cleared = λ j a h l.
            let (hit, miss) = g.cleared j a h l in
            (
              λ e. ground (arith, hit, miss, zeroed-frame f.memory k j a h l),
              λ e. ground (arith, miss, zeroed-frame f.memory k j a h l),
            );
      },
    )

-- What two address spaces that are made one after the other get.
pub record Isolated (n₁ n₂ : ℕ) (f : Frames) : Type 0 where
  pub table₁ : List TranslationEntry
  pub table₂ : List TranslationEntry
  pub after₁ : Frames
  pub after₂ : Frames
  pub frames₁ : List ℕ
  pub frames₂ : List ℕ
  pub first : allocate_pages n₁ 0 f ≡ some (table₁, after₁)
  pub second : allocate_pages n₂ 0 after₁ ≡ some (table₂, after₂)
  pub counts : (length frames₁ ≡ n₁) × (length frames₂ ≡ n₂)
  pub maps₁ : Maps 0 frames₁ table₁
  pub maps₂ : Maps 0 frames₂ table₂
  pub distinct : Distinct frames₁ × Distinct frames₂
  pub apart : (k : ℕ) → has k frames₁ ≡ true → has k frames₂ ≡ false
  pub cleared₁ : Cleared frames₁ f.memory after₁.memory
  pub cleared₂ : Cleared frames₂ after₁.memory after₂.memory
  pub kept :
      (k a : ℕ)
      → has k frames₁ ≡ true
      → k * page_size ≤ a
      → a < k * page_size + page_size
      → after₂.memory a ≡ after₁.memory a
