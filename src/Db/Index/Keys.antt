-- ===== src/Db/Index/Keys.antt =====
-- The order of index entries.
use go_database.Base.{
  ◌≡◌, refl, ap₂, ◌∙◌, Bool, true, false, [], ◌++◌, if◌then◌else◌, Bytes, blt, blt-append_left,
  append_assoc,
}
use go_database.Base.Result.{ok}
use go_database.Db.Index.{
  Index, index_entry_prefix, encode_index_value, index_value_prefix, index_entry_key,
}
use go_database.Db.Schema.{Column}
use go_database.Db.Value.{Value}
use go_database.Db.Value.RoundTrip.{IsValue}
use go_database.Db.Value.Order.{value_eq, value_lt, blt-encode}

-- the key of an entry of an index that is not unique
index_entry_key-eq :
    (table_name : Bytes) (index : Index) (a p : Bytes)
    → index.unique ≡ false
    → index_entry_key table_name index a p ≡ index_entry_prefix table_name index.name ++ (a ++ p)
unfolding index_entry_key index_value_prefix index_entry_prefix
index_entry_key-eq table_name index a p u = go index.unique u
  where
    go :
        (b : Bool)
        → b ≡ false
        → (index_entry_prefix table_name index.name ++ a) ++ (if b then [] else p)
          ≡ index_entry_prefix table_name index.name ++ (a ++ p)
    go true h = cc
    go false h = append_assoc (index_entry_prefix table_name index.name) a p

-- The entries of an index that is not unique are sorted by the indexed value, and those of one
-- value by the primary key; integers are in the range of int64.
pub blt-index_entry_key :
    (table_name : Bytes) (index : Index) (c : Column) (v w : Value) (a b p q : Bytes)
    → index.unique ≡ false
    → IsValue v
    → IsValue w
    → encode_index_value c v ≡ ok a
    → encode_index_value c w ≡ ok b
    → blt (index_entry_key table_name index a p) (index_entry_key table_name index b q)
      ≡ (if value_eq v w then blt p q else value_lt v w)
unfolding encode_index_value
blt-index_entry_key table_name index c v w a b p q u hv hw e f =
    let prefix = index_entry_prefix table_name index.name in
    let values = blt-encode (record c { primary_key = false }) v w a b p q refl hv hw e f in
    let same = blt-append_left prefix (a ++ p) (b ++ q) in
    ap₂ blt (index_entry_key-eq table_name index a p u) (index_entry_key-eq table_name index b q u)
    ∙ same
    ∙ values
