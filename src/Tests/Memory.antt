-- ===== src/Tests/Memory.antt =====
-- An engine that keeps its entries in an association list, and a small durable database over it.
use go_database.Base.{
  ◌≡◌, refl, sym, ap, ◌∙◌, Bool, true, false, Option, none, some, List, [], ◌∷◌, if◌then◌else◌,
  Bytes, codes, beq,
}
use go_database.Base.Assoc
use go_database.Base.Assoc.{put, remove, get-put, get-remove}
use go_database.Base.Result.{ok, ok-injective}
use go_database.Base.Sorted.{
  IsMap, is_some, sorted_entries, get-sorted_entries, sorted_entries-IsAscending, put-IsMap,
  remove-IsMap,
}
use go_database.Db.Database.{Database}
use go_database.Db.Engine.{Engine, Mutation, Entries, between, mutate_view, mutate_views}
use go_database.Db.Tx.{Tx}

abbrev pub Map : Type 0
Map = (m : Entries) × IsMap m

abbrev pub mutate : Mutation → Map → Map
mutate x (m, h) = elim x.delete [
  | true ↦ (remove x.key m, remove-IsMap x.key m h)
  | false ↦ (put x.key x.value m, put-IsMap x.key x.value m h)
]

abbrev pub mutate_all : List Mutation → Map → Map
mutate_all [] s = s
mutate_all (x ∷ xs) s = mutate_all xs (mutate x s)

abbrev pub look : Map → Bytes → Option Bytes
look s k = Assoc.get k s.0

look-mutate :
    (x : Mutation) (s : Map) (j : Bytes) → look (mutate x s) j ≡ mutate_view x j (look s j)
look-mutate x s j = one x.delete
  where
    one :
        (b : Bool)
        → Assoc.get j
            (elim b as (λ c. Map) [
              | true ↦ (remove x.key s.0, remove-IsMap x.key s.0 s.1)
              | false ↦ (put x.key x.value s.0, put-IsMap x.key x.value s.0 s.1)
            ]).0
          ≡ (if beq x.key j then (if b then none else some x.value) else Assoc.get j s.0)
    one true = get-remove x.key j s.0
    one false = get-put x.key j x.value s.0

pub look-mutate_all :
    (xs : List Mutation) (s : Map) (j : Bytes)
    → look (mutate_all xs s) j ≡ mutate_views xs j (look s j)
look-mutate_all [] s j = refl
look-mutate_all (x ∷ xs) s j =
    look-mutate_all xs (mutate x s) j ∙ ap (mutate_views xs j) (look-mutate x s j)

abbrev pub memory : Engine
memory = record {
  Store = Map;
  get = λ s k. ok (Assoc.get k s.0);
  range = λ s a b. ok (sorted_entries [] (between a b) s.0);
  set = λ s k v. ((put k v s.0, put-IsMap k v s.0 s.1), ok tt);
  delete = λ s k. ((remove k s.0, remove-IsMap k s.0 s.1), ok (is_some (Assoc.get k s.0)));
  apply_batch = λ s ms. (mutate_all ms s, ok tt);
  close = λ s. (s, ok tt);
  view = look;
  get_lem = λ s k o h. sym (ok-injective h);
  range_lem = λ s a b es h. (
    rw (← ok-injective h) (sorted_entries-IsAscending [] (between a b) s.0 s.1),
    λ k. rw (← ok-injective h) (get-sorted_entries k [] (between a b) s.0),
  );
  set_lem = λ s k v h j. get-put k j v s.0;
  delete_lem = λ s k found h. (sym (ok-injective h), λ j. get-remove k j s.0);
  apply_lem = λ s ms h j. look-mutate_all ms s j;
}

pub database-IsMap : IsMap ((codes "a", codes "1") ∷ (codes "b", codes "2") ∷ [])
unfolding Assoc.get beq
database-IsMap = (refl, (refl, tt))

-- a durable database that holds two keys, and a transaction that has changed one and added one
abbrev pub database : Database memory
database = record {
  content = none;
  durable = some ((codes "a", codes "1") ∷ (codes "b", codes "2") ∷ [], database-IsMap);
  is_closed = false;
  writer_active = true;
}

abbrev pub transaction : Tx
transaction = record {
  read_only = false;
  is_closed = false;
  order = codes "b" ∷ codes "c" ∷ [];
  changes =
      (codes "b", record { value = []; delete = true })
      ∷ (codes "c", record { value = codes "3"; delete = false })
      ∷ [];
}
