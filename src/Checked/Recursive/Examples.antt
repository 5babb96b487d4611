-- ===== src/Checked/Recursive/Examples.antt =====
-- include/checked_mutex.hpp: the recursive mutexes at a concrete state.
use yamc.Common.{[]}
use yamc.Validator.{Table}
use yamc.Checked.{tid}
use yamc.Checked.Recursive.{Mutexes}

-- Thread 0 has taken every mutex twice.
abbrev taken_twice : Mutexes Table
taken_twice = record {
  ncount = λ k. 2;
  owner = λ k. tid 0;
  table = record { counter = 0; mutexmap = [] };
}
