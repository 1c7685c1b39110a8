-- ===== src/FileSys/FileSystem/Removing.antt =====
-- `Remove` of nachos-3.4/code/filesys/filesys.cc.
use n4ch0s.Base.{
  ℕ, length, true, false, List, ◌∙◌, sym, has, ◌&&◌, not, Distinct, if◌then◌else◌, ◌<◌, ◌≤◌, ◌≡◌,
  ◌≢◌, ◌∷◌, refl, ap, Bool, some, arith,
}
use n4ch0s.Base.Int.{pos}
use n4ch0s.BitMap.{BitMap, is_set, cleared, div_round_up, IsValid}
use n4ch0s.BitMap.Words.{is_set-cleared, cleared-IsValid, clear-cleared}
use n4ch0s.Base.{==_ne, ==_self, ◌≢◌}
use n4ch0s.BitMap.{marked}
use n4ch0s.BitMap.Words.{is_set-marked, marked-IsValid}
use n4ch0s.BitMap.Takes.{Takes, Takes_clear, Takes-Distinct, is_set-Takes, num_bits-Takes}
use n4ch0s.FileSys.FileHeader.Deallocate.{Takes-AllMarked}
use n4ch0s.FileSys.FileSystem.Creating.{Created, unreserved}
use native.Mathlib.Decide.{ℕ_discrete}
use n4ch0s.Disk.{num_sectors}
use n4ch0s.FileSys.Directory
use n4ch0s.FileSys.Directory.{Directory, minus_one, file_name_max_len}
use n4ch0s.FileSys.Directory.Entries.{remove-entries}
use n4ch0s.FileSys.Directory.Lookup.{Unique}
use n4ch0s.FileSys.Directory.Remove.{find-remove}
use n4ch0s.FileSys.Names.{same_name_refl}
use n4ch0s.FileSys.FileHeader.{FileHeader, file_length}
use n4ch0s.FileSys.FileHeader.Allocate.{Stored}
use n4ch0s.FileSys.FileHeader.Deallocate.{AllMarked, deallocate-Less}
use n4ch0s.FileSys.FileSystem.{FileSystem, Memory, remove}
use n4ch0s.FileSys.FileSystem.Mounted.{
  Mounted, IsReady, Free, mount_same, load_directory-Mounted, load_free_map-Mounted,
}
use n4ch0s.FileSys.FileSystem.Fetching.{fetch_header-written, words_fit}
use n4ch0s.FileSys.FileSystem.Flushing.{
  write_directory-Holds, write_bit_map-Holds, length_words, length_entries,
}
use n4ch0s.FileSys.FileSystem.Holding.{Holds-kept}
use n4ch0s.FileSys.Image.{put_header, put_all, put_word, put_entry}
use n4ch0s.FileSys.Image.Laws.{IsStorable}

-- A file whose header `h` stands in the sector `k`, with the sectors `ks`: all of them are marked, and none
-- belongs to the file system itself.
pub record FileAt (fs : FileSystem) (disk : ℕ → List ℕ) (m : BitMap) (k : ℕ) (h : FileHeader)
    (ks : List ℕ) : Type 0 where
  pub header : disk k ≡ put_header h
  pub storable : IsStorable h
  pub count : length ks ≡ h.num_sectors
  pub stored : Stored h.data_sectors 0 ks
  pub distinct : Distinct ks
  pub apart : has k ks ≡ false
  pub marked : AllMarked m (k ∷ ks)
  pub foreign : (j : ℕ) → has j (k ∷ ks) ≡ true → Free fs j × (0 ≢ j) × (1 ≢ j)

still_marked :
    (m m' : BitMap) (j : ℕ) (b : Bool)
    → is_set m' j ≡ (not b && is_set m j)
    → is_set m j ≡ true
    → (b ≡ true → ⊥)
    → is_set m' j ≡ true
still_marked m m' j true e s other = absurd (other refl)
still_marked m m' j false e s other = e ∙ s

-- The disk after `Remove`: the bits of the file are clear, all other ones as before, and the name is not found.
pub record Removed (fs : FileSystem) (f : Memory) (disk : ℕ → List ℕ) (d : Directory) (m : BitMap)
    (name : List ℕ) (k : ℕ) (ks : List ℕ) : Type 0 where
  pub disk' : ℕ → List ℕ
  pub m' : BitMap
  pub result : remove fs disk f name ≡ some (true, disk')
  pub mounted : Mounted fs disk' (Directory.remove d name).1 m'
  pub bits : (j : ℕ) → is_set m' j ≡ (not (has j (k ∷ ks)) && is_set m j)
  pub not_found : Directory.find (Directory.remove d name).1 name ≡ some minus_one

-- On a mounted disk, for a name in the directory, whose names in use differ from one another, and a file as
-- `Create` makes it: `Remove` returns TRUE, gives back exactly the sectors of the file and of its header,
-- and leaves a mounted disk on which the name is not found.
pub remove-Removed :
    (fs : FileSystem) (f : Memory) (disk : ℕ → List ℕ) (d : Directory) (m : BitMap) (name : List ℕ)
    (k : ℕ) (h : FileHeader) (ks : List ℕ)
    → Mounted fs disk d m
    → IsReady f
    → Unique d.table
    → Directory.find d name ≡ some (pos k)
    → FileAt fs disk m k h ks
    → Removed fs f disk d m name k ks
unfolding remove Free file_length
remove-Removed fs f disk d m name k h ks on ready unique at file =
    let (inside, used, all) = file.marked in
    let (q, e, less) = deallocate-Less h m ks on.valid file.count file.stored file.distinct all in
    let inside' : k < q.num_bits = omega (arith, less.bits) in
    let m' : BitMap = cleared q k in
    let v = cleared-IsValid k less.valid inside' in
    let bits : m'.num_bits ≡ num_sectors = less.bits ∙ on.bits in
    let words : m'.num_words ≡ m.num_words =
      v.words ∙ ap (λ x. div_round_up x 32) (bits ∙ sym on.bits) ∙ sym on.valid.words in
    let view : (j : ℕ) → is_set m' j ≡ (not (has j (k ∷ ks)) && is_set m j) =
      λ j. ground (arith, is_set-cleared k less.valid inside' j, less.view j) in
    let (good, l) = remove-entries d name on.good in
    let fits : length (put_all put_entry d.table) ≤ file_length fs.directory_file.hdr =
      on.directory.fits in
    let fits' : length (put_all put_word m.map) ≤ file_length fs.free_map_file.hdr = on.map.fits in
    let (disk1, e1, h1, kept1) =
      write_bit_map-Holds fs f.buffer ready.buffers disk m' on.map.readable on.map.apart v (
        omega
          (arith, words, on.valid.storage, length_words m.map (words_fit m.map on.valid.small))) in
    let (disk2, e2, h2, kept2) =
      write_directory-Holds fs f.buffer ready.buffers disk1 (Directory.remove d name).1
        (record { data_of = on.directory.readable.data_of; full = h1.readable.full })
        on.directory.apart good (omega (arith, l, length_entries d on.good)) in
    let stays : (j : ℕ) → is_set m j ≡ true → (has j (k ∷ ks) ≡ true → ⊥) → is_set m' j ≡ true =
      λ j s other. still_marked m m' j (has j (k ∷ ks)) (view j) s other in
    record {
      disk' = disk2;
      m' = m';
      result =
          rw
            (
              load_directory-Mounted on ready,
              at,
              fetch_header-written disk h k file.storable (omega (arith, on.bits)) file.header,
              load_free_map-Mounted on ready,
              e,
              clear-cleared k less.valid inside',
              e1,
              e2,
            )
            refl;
      mounted = record {
        directory = h2;
        map =
            Holds-kept fs.free_map_file.hdr disk1 disk2 (put_all put_word m'.map) h1
              h2.readable.full (λ j o. kept2 j (λ p. on.disjoint j p o));
        entries = l ∙ on.entries;
        good = good;
        valid = v;
        bits = bits;
        directory_reserved =
            λ j o. stays j (on.directory_reserved j o) (λ t. (file.foreign j t).0.0 o);
        map_reserved = λ j o. stays j (on.map_reserved j o) (λ t. (file.foreign j t).0.1 o);
        disjoint = on.disjoint;
        headers_reserved = (
          stays 0 on.headers_reserved.0 (λ t. (file.foreign 0 t).1 refl),
          stays 1 on.headers_reserved.1 (λ t. (file.foreign 1 t).2 refl),
        );
        headers_free = on.headers_free;
        boot =
            mount_same disk disk2 (kept2 0 on.headers_free.0.0 ∙ kept1 0 on.headers_free.0.1)
              (kept2 1 on.headers_free.1.0 ∙ kept1 1 on.headers_free.1.1)
            ∙ on.boot;
      };
      bits = view;
      not_found =
          (find-remove d name name unique).1
          ∙ ap (λ b. if b then some minus_one else Directory.find d name)
              (same_name_refl file_name_max_len name);
    }

-- The sectors of a file that has just been created were clear before.
pub was_clear :
    {m m' : BitMap} {k : ℕ} {ks : List ℕ}
    → IsValid m
    → k < m.num_bits
    → is_set m k ≡ false
    → Takes m' (marked m k) ks
    → (j : ℕ) → has j (k ∷ ks) ≡ true
    → is_set m j ≡ false
was_clear {m} {m'} {k} {ks} v b free t j h = elim (ℕ_discrete k j) [
  | yes e ↦ ap (is_set m) (sym e) ∙ free
  | no e ↦ ground (arith, is_set-marked k v b j, Takes_clear j t, ==_ne k j e)
]

set_clear_apart : (m : BitMap) (i j : ℕ) → is_set m i ≡ true → is_set m j ≡ false → i ≢ j
set_clear_apart m i j p q e = (let r : is_set m i ≡ false = ap (is_set m) e ∙ q in cc)

-- `Create` makes such a file.
pub Created-FileAt :
    {fs : FileSystem} {f : Memory} {disk : ℕ → List ℕ} {d : Directory} {m : BitMap} {name : List ℕ}
    {size : ℕ}
    → Mounted fs disk d m
    → (c : Created fs f disk d m name size) → FileAt fs c.disk' c.m' c.k c.h c.ks
Created-FileAt {fs} {f} {disk} {d} {m} on c =
    let a = c.allocated in
    let b : c.k < m.num_bits = omega (arith, c.on_disk, on.bits) in
    let v1 = marked-IsValid c.k on.valid b in
    let clear = was_clear on.valid b c.was_free a.takes in
    let set : is_set (marked m c.k) c.k ≡ true =
      ground (arith, is_set-marked c.k on.valid b c.k, ==_self c.k) in
    record {
      header = c.header;
      storable = c.storable;
      count = a.count;
      stored = a.stored;
      distinct = Takes-Distinct a.takes;
      apart = untaken (has c.k c.ks) (λ t. (let p = Takes_clear c.k a.takes t in cc));
      marked = (
        omega (arith, b, num_bits-Takes a.takes),
        ground (arith, is_set-Takes c.k a.takes, set),
        Takes-AllMarked v1 a.takes,
      );
      foreign = λ j t. (
        unreserved fs disk d m j on (clear j t),
        set_clear_apart m 0 j on.headers_reserved.0 (clear j t),
        set_clear_apart m 1 j on.headers_reserved.1 (clear j t),
      );
    }
  where
    untaken : (b : Bool) → (b ≡ true → ⊥) → b ≡ false
    untaken true h = absurd (h refl)
    untaken false h = refl
