-- ===== src/Structures/Cache.antt =====
-- `Cache` of internal/structures/cache.go. The list of entries and the map of its elements are one
-- list of entries, the most recently used first. Trace events and measured times are left out.
pub mod Coherence
use go_database.Base.{
  ℕ, zero, suc, ◌+◌, Bool, true, false, ◌||◌, Option, none, some, List, [], ◌∷◌, ltb, ◌==◌,
  if◌then◌else◌, length, Bytes,
}
use go_database.Base.Assoc
use go_database.Base.Assoc.{remove}
use go_database.Base.Result.{Result, ok, err, panic}
use go_database.Structures.Contract.{Kv, KvError, Entries}

-- `c.order.Remove(c.order.Back())`; a cache has a capacity of 1 at least, so a full one is not empty
unfoldable pub drop_last : Entries → Entries
drop_last [] = []
drop_last (x ∷ []) = []
drop_last (x ∷ y ∷ xs) = x ∷ drop_last (y ∷ xs)

module _ (kv : Kv) where
  pub record Cache : Type 0 where
    pub backing : kv.Store
    pub capacity : ℕ
    pub order : Entries
    pub hits : ℕ
    pub misses : ℕ
    pub evictions : ℕ
    pub backing_calls : ℕ

  -- `NewCache`, for a backing structure that is given; none is its error
  unfoldable pub new_cache : kv.Store → ℕ → Option Cache
  new_cache backing capacity =
      if ltb capacity 1 || ltb 256 capacity
      then none
      else some (record {
        backing = backing;
        capacity = capacity;
        order = [];
        hits = 0;
        misses = 0;
        evictions = 0;
        backing_calls = 0;
      })

  -- `invalidate`
  unfoldable pub invalidate : Bytes → Cache → Cache
  invalidate key c = record c { order = remove key c.order }

  -- `record`, with what the call left of the backing structure
  abbrev pub called : kv.Store → Cache → Cache
  called s c = record c { backing = s; backing_calls = c.backing_calls + 1 }

  -- a value that was read is cached, the least recently used entry making room for it
  unfoldable pub fill : Bytes → Bytes → Cache → Cache
  fill key value c =
      let full = length c.order == c.capacity in
      record c {
        order = (key, value) ∷ (if full then drop_last c.order else c.order);
        evictions = if full then c.evictions + 1 else c.evictions;
      }

  abbrev pub filled :
      Bytes → Cache → Result KvError (Option Bytes) → Cache × Result KvError (Option Bytes)
  filled key c (ok (some value)) = (fill key value c, ok (some value))
  filled key c (ok none) = (c, ok none)
  filled key c (err e) = (c, err e)
  filled key c panic = (c, panic)

  -- the read of the backing structure on a miss
  abbrev pub miss : Bytes → Cache → Cache × Result KvError (Option Bytes)
  miss key c =
      filled key (called (kv.get c.backing key).0 (record c { misses = c.misses + 1 }))
        (kv.get c.backing key).1

  unfoldable pub get : Cache → Bytes → Cache × Result KvError (Option Bytes)
  get c key = elim (Assoc.get key c.order) [
    | some value ↦
        (record c { hits = c.hits + 1; order = (key, value) ∷ remove key c.order }, ok (some value))
    | none ↦ miss key c
  ]

  -- the entry of the key is dropped if the backing structure has changed
  abbrev pub written {ℓ} : {A : Type ℓ} → Bytes → Cache → Result KvError A → Cache
  written key c (ok a) = invalidate key c
  written key c (err e) = c
  written key c panic = c

  unfoldable pub set : Cache → Bytes → Bytes → Cache × Result KvError (Unit {0})
  set c key value = let r = kv.set c.backing key value in (written key (called r.0 c) r.1, r.1)

  unfoldable pub delete : Cache → Bytes → Cache × Result KvError Bool
  delete c key = let r = kv.delete c.backing key in (written key (called r.0 c) r.1, r.1)

  unfoldable pub range : Cache → Bytes → Bytes → Cache × Result KvError Entries
  range c start end = let r = kv.range c.backing start end in (called r.0 c, r.1)
