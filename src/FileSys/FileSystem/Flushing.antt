-- ===== src/FileSys/FileSystem/Flushing.antt =====
-- The writes at the end of `Create` of nachos-3.4/code/filesys/filesys.cc: header, directory, bit map.
use n4ch0s.Base.{
  ℕ, length, List, ◌∙◌, ◌*◌, ◌≤◌, ◌≡◌, refl, ap, some, ◌<◌, ◌≢◌, true, arith, sym, false,
}
use n4ch0s.BitMap.{BitMap, IsValid, is_set}
use n4ch0s.FileSys.Directory.{Directory}
use n4ch0s.Disk.{num_sectors}
use n4ch0s.FileSys.FileHeader.{file_length, FileHeader, sector_size}
use n4ch0s.FileSys.OpenFile.Reading.{Readable}
use n4ch0s.FileSys.OpenFile.Stored.{
  Apart, replaced_ne, length-replaced, sector_written, replaced_self,
}
use n4ch0s.BitMap.{div_round_up}
use n4ch0s.FileSys.FileSystem.{num_dir_entries, Memory, write_header}
use n4ch0s.FileSys.Image.Laws.{IsStorable, length-put_header}
use n4ch0s.FileSys.FileSystem.{FileSystem, write_directory, write_bit_map}
use n4ch0s.FileSys.FileSystem.Holding.{Holds, Owns, write_at-Holds, Holds-kept}
use n4ch0s.FileSys.FileSystem.Fetching.{IsWord, words_fit}
use n4ch0s.FileSys.Image.{put_all, put_entry, get_entry, entry_size, put_word, get_word, put_header}
use n4ch0s.FileSys.Image.Laws.{
  All, IsEntry, length-put_all, length-put_entry, get_entry-put_entry, get_word-put_word,
}
use n4ch0s.FileSys.FileSystem.Mounted.{Mounted, IsReady, Free, mount_same}
use n4ch0s.Base.Int.{pos}
use n4ch0s.FileSys.OpenFile.{replaced}

pub length_words : (ws : List ℕ) → All IsWord ws → length (put_all put_word ws) ≡ length ws * 4
length_words = length-put_all put_word get_word 4 IsWord (λ x _. refl) get_word-put_word

pub length_entries :
    (d : Directory)
    → All IsEntry d.table
    → length (put_all put_entry d.table) ≡ length d.table * entry_size
length_entries d =
    length-put_all put_entry get_entry entry_size IsEntry length-put_entry get_entry-put_entry
      d.table

module _ (fs : FileSystem) (buffer : ℕ → List ℕ) (sized : (k : ℕ) → length (buffer k) ≡ k) where
  pub write_directory-Holds :
      (disk : ℕ → List ℕ) (d : Directory)
      → Readable fs.directory_file.hdr disk
      → Apart fs.directory_file.hdr
      → All IsEntry d.table
      → length d.table * entry_size ≤ file_length fs.directory_file.hdr
      → (disk' : ℕ → List ℕ) × (write_directory fs.directory_file disk buffer d ≡ some disk')
        × Holds fs.directory_file.hdr disk' (put_all put_entry d.table)
        × ((k : ℕ) → ¬ Owns fs.directory_file.hdr k → disk' k ≡ disk k)
  unfolding write_directory
  write_directory-Holds disk d r a good fits =
      let (disk', e, h, kept) =
        write_at-Holds fs.directory_file.hdr disk buffer (put_all put_entry d.table)
          (length d.table * entry_size) r a sized (length_entries d good) fits in
      (disk', rw e refl, h, kept)

  pub write_bit_map-Holds :
      (disk : ℕ → List ℕ) (m : BitMap)
      → Readable fs.free_map_file.hdr disk
      → Apart fs.free_map_file.hdr
      → IsValid m
      → m.num_words * 4 ≤ file_length fs.free_map_file.hdr
      → (disk' : ℕ → List ℕ) × (write_bit_map fs.free_map_file disk buffer m ≡ some disk')
        × Holds fs.free_map_file.hdr disk' (put_all put_word m.map)
        × ((k : ℕ) → ¬ Owns fs.free_map_file.hdr k → disk' k ≡ disk k)
  unfolding write_bit_map
  write_bit_map-Holds disk m r a v fits =
      let (disk', e, h, kept) =
        write_at-Holds fs.free_map_file.hdr disk buffer (put_all put_word m.map) (m.num_words * 4) r
          a sized (length_words m.map (words_fit m.map v.small) ∙ ap (λ x. x * 4) v.storage) fits in
      (disk', rw e refl, h, kept)

-- The three writes at the end, and the disk that they leave.
pub record Flushed (fs : FileSystem) (f : Memory) (disk : ℕ → List ℕ) (d : Directory) (m : BitMap)
    (h : FileHeader) (k : ℕ) : Type 0 where
  pub disk1 : ℕ → List ℕ
  pub disk2 : ℕ → List ℕ
  pub disk3 : ℕ → List ℕ
  pub header_written : write_header disk h (pos k) ≡ some disk1
  pub directory_written : write_directory fs.directory_file disk1 f.buffer d ≡ some disk2
  pub map_written : write_bit_map fs.free_map_file disk2 f.buffer m ≡ some disk3
  pub mounted : Mounted fs disk3 d m
  pub header : disk3 k ≡ put_header h
  pub others : (j : ℕ) → j ≢ k → Free fs j → disk3 j ≡ disk j

pub flush-Flushed :
    (fs : FileSystem) (f : Memory) (disk : ℕ → List ℕ) (d d' : Directory) (m m' : BitMap)
    (h : FileHeader) (k : ℕ)
    → Mounted fs disk d m
    → IsReady f
    → IsStorable h
    → k < num_sectors
    → Free fs k
    → is_set m k ≡ false
    → All IsEntry d'.table
    → length d'.table ≡ num_dir_entries
    → IsValid m'
    → m'.num_bits ≡ num_sectors
    → ((j : ℕ) → is_set m j ≡ true → is_set m' j ≡ true)
    → Flushed fs f disk d' m' h k
unfolding write_header Free
flush-Flushed fs f disk d d' m m' h k on ready s b free clear good l v bits grows =
    let disk1 = replaced disk k (put_header h) in
    let full1 : (j : ℕ) → length (disk1 j) ≡ sector_size = λ j.
      length-replaced disk k j sector_size (put_header h) (length-put_header h s)
        (on.directory.readable.full j) in
    let fits : length (put_all put_entry d.table) ≤ file_length fs.directory_file.hdr =
      on.directory.fits in
    let (disk2, e2, h2, kept2) =
      write_directory-Holds fs f.buffer ready.buffers disk1 d'
        (record { data_of = on.directory.readable.data_of; full = full1 }) on.directory.apart good
        (omega (arith, l, on.entries, length_entries d on.good)) in
    let fits' : length (put_all put_word m.map) ≤ file_length fs.free_map_file.hdr = on.map.fits in
    let words : m'.num_words ≡ m.num_words =
      v.words ∙ ap (λ x. div_round_up x 32) (bits ∙ sym on.bits) ∙ sym on.valid.words in
    let (disk3, e3, h3, kept3) =
      write_bit_map-Holds fs f.buffer ready.buffers disk2 m'
        (record { data_of = on.map.readable.data_of; full = h2.readable.full }) on.map.apart v
        (omega (arith, on.valid.storage, length_words m.map (words_fit m.map on.valid.small))) in
    let kept : (j : ℕ) → j ≢ k → Free fs j → disk3 j ≡ disk j =
      λ j ne o. kept3 j o.1 ∙ kept2 j o.0 ∙ replaced_ne disk k j (put_header h) ne in
    let other : (0 ≢ k) × (1 ≢ k) = (
      λ p. (let q : is_set m 0 ≡ false = ap (is_set m) p ∙ clear in cc),
      λ p. (let q : is_set m 1 ≡ false = ap (is_set m) p ∙ clear in cc),
    ) in
    record {
      disk1 = disk1;
      disk2 = disk2;
      disk3 = disk3;
      header_written = sector_written disk k (put_header h) b;
      directory_written = e2;
      map_written = e3;
      mounted = record {
        directory =
            Holds-kept fs.directory_file.hdr disk2 disk3 (put_all put_entry d'.table) h2
              h3.readable.full (λ j o. kept3 j (on.disjoint j o));
        map = h3;
        entries = l;
        good = good;
        valid = v;
        bits = bits;
        directory_reserved = λ j o. grows j (on.directory_reserved j o);
        map_reserved = λ j o. grows j (on.map_reserved j o);
        disjoint = on.disjoint;
        headers_reserved = (grows 0 on.headers_reserved.0, grows 1 on.headers_reserved.1);
        headers_free = on.headers_free;
        boot =
            mount_same disk disk3 (kept 0 other.0 on.headers_free.0)
              (kept 1 other.1 on.headers_free.1)
            ∙ on.boot;
      };
      header = kept3 k free.1 ∙ kept2 k free.0 ∙ replaced_self disk k (put_header h);
      others = kept;
    }
