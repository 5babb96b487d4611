-- ===== src/Fair/RecursiveTimed/Examples.antt =====
-- include/fair_mutex.hpp: `recursive_timed_mutex` at a concrete run.
use yamc.Fair.Timed as Timed
