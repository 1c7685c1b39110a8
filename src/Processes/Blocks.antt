-- ===== src/Processes/Blocks.antt =====
-- The table of nachos-3.4/code/userprog/ptable.cc under `Join` and `Exit`, with the blocks of a process and its parent.
use n4ch0s.Base.{
  ℕ, ◌<◌, ◌≡◌, ◌≢◌, List, none, some, true, refl, ◌∙◌, ==_self, ==_ne, get_elem?, sym,
  get_elem?-set_self, get_elem?-set_ne, lt-length_of_get,
}
use n4ch0s.Base.Int.{ℤ, pos}
use n4ch0s.BitMap.{IsValid, is_set, cleared}
use n4ch0s.BitMap.Words.{test-is_set, clear-cleared}
use n4ch0s.SortedList.{Element}
use n4ch0s.Processes.{
  PTable, Pcb, put_block, join_begin, exit_update, remove, ends, inc_num_wait, set_exit_code,
  dec_num_wait, join_release,
}

-- The process `pid` exists and has the block `b`, and its parent `me` has a block too.
pub record Has (me pid : ℕ) (t : PTable) (b : Pcb) : Type 0 where
  pub valid : IsValid t.bm
  pub inside : pid < t.bm.num_bits
  pub taken : is_set t.bm pid ≡ true
  pub own : get_elem? t.pcb pid ≡ some (some b)
  pub parent : Pcb
  pub parents : get_elem? t.pcb me ≡ some (some parent)

module _ {me pid : ℕ} (apart : me ≢ pid) {t : PTable} {b : Pcb} (h : Has me pid t b) where
  pub put_own : (b' : Pcb) → Has me pid (put_block t pid (some b')) b'
  put_own b' = record {
    valid = h.valid;
    inside = h.inside;
    taken = h.taken;
    own = get_elem?-set_self t.pcb pid (some b') (lt-length_of_get t.pcb pid h.own);
    parent = h.parent;
    parents = get_elem?-set_ne t.pcb pid me (some b') (λ e. apart (sym e)) ∙ h.parents;
  }

  pub put_parent : (q : Pcb) → Has me pid (put_block t me (some q)) b
  put_parent q = record {
    valid = h.valid;
    inside = h.inside;
    taken = h.taken;
    own = get_elem?-set_ne t.pcb me pid (some q) apart ∙ h.own;
    parent = q;
    parents = get_elem?-set_self t.pcb me (some q) (lt-length_of_get t.pcb me h.parents);
  }

  pub remove_lem : (t' : PTable) × (remove t pid ≡ some t') × (get_elem? t'.pcb pid ≡ some none)
  unfolding remove
  remove_lem = (
    put_block (record t { bm = cleared t.bm pid }) pid none,
    rw (clear-cleared pid h.valid h.inside) refl,
    get_elem?-set_self t.pcb pid none (lt-length_of_get t.pcb pid h.own),
  )

module _ {pid : ℕ} {t : PTable} {b : Pcb} (apart : b.parent_id ≢ pid)
    (h : Has b.parent_id pid t b) where
  pub join_begin_lem :
      (t' : PTable) × (join_begin t b.parent_id (pos pid) ≡ some (some (pid, t')))
      × Has b.parent_id pid t' b
  unfolding join_begin
  join_begin_lem = (
    put_block t b.parent_id (some (inc_num_wait h.parent)),
    rw (test-is_set t.bm pid h.inside, h.taken, h.own, ==_self b.parent_id, h.parents) refl,
    put_parent apart h (inc_num_wait h.parent),
  )

  -- `ExitUpdate` of a process whose parent exists: the block has the exit code and the parent is released.
  pub exit_update_lem :
      (status : ℤ) (ready : List (Element ℕ))
      → pid ≢ 0
      → (t' : PTable) × (exit_update t pid status ready
          ≡ some (ends t' (join_release (set_exit_code b status) ready).1))
        × Has b.parent_id pid t' (join_release (set_exit_code b status) ready).0
  unfolding exit_update set_exit_code
  exit_update_lem status ready user =
      let b' : Pcb = set_exit_code b status in
      let coded = put_own apart h b' in
      let counted = put_parent apart coded (dec_num_wait h.parent) in
      let kept : get_elem? (put_block t pid (some b')).pcb b.parent_id ≡ some (some h.parent) =
        get_elem?-set_ne t.pcb pid b.parent_id (some b') (λ e. apart (sym e)) ∙ h.parents in
      let result = join_release b' ready in
      (
        put_block (put_block (put_block t pid (some b')) b.parent_id (some (dec_num_wait h.parent)))
            pid (some result.0),
        rw (==_ne pid 0 user, test-is_set t.bm pid h.inside, h.taken, h.own, kept, counted.own)
            refl,
        put_own apart counted result.0,
      )
