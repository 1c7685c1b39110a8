-- ===== src/Processes/Tests.antt =====
-- The process 3 of nachos-3.4/code/userprog/ptable.cc and its parent, the process 1.
use n4ch0s.Base.{zero, suc, ◌∷◌, [], refl, some, none, replicate, arith}
use n4ch0s.Base.Int.{pos}
use n4ch0s.BitMap
use n4ch0s.BitMap.{BitMap, AllWords, IsValid}
use n4ch0s.SortedList.{element, append}
use n4ch0s.Semaphore
use n4ch0s.Processes.{PTable, Pcb, closed, join_begin, join_wait, inc_num_wait, put_block}
use n4ch0s.Processes.Blocks.{Has}
use n4ch0s.BitMap.Words.{test-is_set}
use n4ch0s.Processes.Family.{
  Family, before, runs, Run, begins, by_parent, parent_step, begin_join, joining, join_asleep,
  join_round,
}
use n4ch0s.Processes.Handshake.{Meets, join-exit}

abbrev child_block : Pcb
child_block = record {
  join_sem = closed;
  exit_sem = closed;
  numwait = pos 0;
  pid = 3;
  filename = 97 ∷ [];
  exitcode = pos 0;
  parent_id = 1;
}

abbrev parent_block : Pcb
parent_block = record {
  join_sem = closed;
  exit_sem = closed;
  numwait = pos 0;
  pid = 1;
  filename = 98 ∷ [];
  exitcode = pos 0;
  parent_id = 0;
}

abbrev first_block : Pcb
first_block = record parent_block { pid = 0 }

-- The processes 0, 1 and 3.
abbrev three : PTable
three = record {
  bm = record { num_bits = 10; num_words = 1; map = 11 ∷ [] };
  pcb = some first_block ∷ some parent_block ∷ none ∷ some child_block ∷ replicate 6 none;
}

eleven : AllWords (11 ∷ [])
eleven zero = omega arith
eleven (suc i) = omega arith

three-Has : Has 1 3 three child_block
unfolding BitMap.is_set
three-Has = record {
  valid = record { words = refl; storage = refl; small = eleven };
  inside = omega arith;
  taken = refl;
  own = refl;
  parent = parent_block;
  parents = refl;
}

abbrev first : Family
first = record { table = three; ready = []; parent_at = before; child_at = runs }

abbrev asking : Family
asking = record {
  table = put_block three 1 (some (inc_num_wait parent_block));
  ready = [];
  parent_at = joining;
  child_at = runs;
}

-- The parent has called `JoinWait` and sleeps there.
abbrev sleeping : Family
sleeping = record {
  table = put_block asking.table 3 (
      some (record child_block { join_sem = record { value = pos 0; queue = element 11 0 ∷ [] } }));
  ready = [];
  parent_at = join_asleep;
  child_at = runs;
}

one_step : Run 11 13 1 3 (pos 5) first 1 asking
unfolding parent_step begin_join join_begin BitMap.is_set
one_step = by_parent 0 first asking begins (rw (test-is_set three.bm 3 (omega arith)) refl)

two_steps : Run 11 13 1 3 (pos 5) first 2 sleeping
unfolding parent_step join_round join_wait Semaphore.p append inc_num_wait
two_steps = by_parent 1 asking sleeping one_step refl

join-exit_example : Meets 11 13 1 3 (pos 5) 2 sleeping
join-exit_example =
    join-exit 11 13 3 (pos 5) child_block three 2 sleeping (λ e. omega (arith, e))
      (λ e. omega (arith, e)) (λ e. omega (arith, e)) refl refl three-Has two_steps
