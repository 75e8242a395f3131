-- ===== src/Structures/HashMap.antt =====
-- `Map` of internal/structures/map.go: the contract over Go's map. Trace events are left out.
use go_database.Base.{◌≡◌, refl, sym, Bool, ◌&&◌, Option, none, [], if◌then◌else◌, Bytes, ble}
use go_database.Base.Assoc
use go_database.Base.Assoc.{put, remove, get-put, get-remove}
use go_database.Base.Result.{Result, ok, ok-injective}
use go_database.Base.Sorted.{
  IsMap, IsAscending, keys_of, is_some, sorted_entries, get-sorted_entries,
  sorted_entries-IsAscending,
}
use go_database.Structures.Contract.{Kv, KvError, Entries}

abbrev pub new_map : Entries
new_map = []

abbrev pub set : Entries → Bytes → Bytes → Entries × Result KvError (Unit {0})
set m k v = (put k v m, ok tt)

abbrev pub get : Entries → Bytes → Result KvError (Option Bytes)
get m k = ok (Assoc.get k m)

abbrev pub delete : Entries → Bytes → Entries × Result KvError Bool
delete m k = (remove k m, ok (is_some (Assoc.get k m)))

abbrev pub range : Entries → Bytes → Bytes → Result KvError Entries
range m start end = ok (sorted_entries [] (λ k. ble start k && ble k end) m)

-- the map as an implementation of the contract
abbrev pub map_kv : Kv
map_kv = record {
  Store = Entries;
  get = λ m k. (m, get m k);
  range = λ m a b. (m, range m a b);
  set = set;
  delete = delete;
  view = λ m k. Assoc.get k m;
  get_lem = λ m k o h. sym (ok-injective h);
  get_same = λ m k j. refl;
  range_same = λ m a b j. refl;
  set_lem = λ m k v u h j. get-put k j v m;
  set_err = λ m k v e h j. cc;
  delete_lem = λ m k found h j. get-remove k j m;
  delete_err = λ m k e h j. cc;
}

-- `Range` of a map with one entry for a key lists, in strictly ascending order, exactly its entries
-- between the bounds, both included.
pub range-IsAscending :
    (m : Entries) (start end : Bytes) (es : Entries)
    → IsMap m
    → range m start end ≡ ok es
    → IsAscending (keys_of es)
      × ((k : Bytes) → Assoc.get k es ≡ (if ble start k && ble k end then Assoc.get k m else none))
range-IsAscending m start end es h r =
    let inside = λ (k : Bytes). ble start k && ble k end in
    (
      rw (← ok-injective r) (sorted_entries-IsAscending [] inside m h),
      λ k. rw (← ok-injective r) (get-sorted_entries k [] inside m),
    )
