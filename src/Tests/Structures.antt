-- ===== src/Tests/Structures.antt =====
-- A cache of two entries over a map.
use go_database.Base.{◌≡◌, refl, some, [], ◌∷◌, codes, beq, arith}
use go_database.Base.Assoc
use go_database.Base.Sorted.{IsMap}
use go_database.Structures.Cache
use go_database.Structures.Cache.{Cache}
use go_database.Structures.Cache.Coherence.{IsCache, get-IsCache, get-eq-view, set-IsCache}
use go_database.Structures.Contract.{Entries}
use go_database.Structures.HashMap.{map_kv}

abbrev held : Entries
held = (codes "b", codes "2") ∷ (codes "a", codes "1") ∷ (codes "c", codes "3") ∷ []

abbrev cache : Cache map_kv
cache = record {
  backing = held;
  capacity = 2;
  order = (codes "a", codes "1") ∷ (codes "b", codes "2") ∷ [];
  hits = 0;
  misses = 2;
  evictions = 0;
  backing_calls = 2;
}

cache-IsCache : IsCache map_kv cache
unfolding Assoc.get beq
cache-IsCache = record {
  once = (refl, (refl, tt));
  bounded = ground arith;
  room = ground arith;
  coherent = λ k v e. ground (arith, e);
}

get-IsCache_example : IsCache map_kv (Cache.get map_kv cache (codes "c")).0
get-IsCache_example = get-IsCache map_kv cache (codes "c") cache-IsCache

get-eq-view_example : some (codes "3") ≡ map_kv.view held (codes "c")
unfolding Cache.get Assoc.get beq
get-eq-view_example = get-eq-view map_kv cache (codes "c") (some (codes "3")) cache-IsCache refl

set-IsCache_example : IsCache map_kv (Cache.set map_kv cache (codes "a") (codes "9")).0
unfolding Cache.set
set-IsCache_example = set-IsCache map_kv cache (codes "a") (codes "9") (λ p. cc) cache-IsCache

held-IsMap : IsMap held
unfolding Assoc.get beq
held-IsMap = (refl, (refl, (refl, tt)))
