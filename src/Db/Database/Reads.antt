-- ===== src/Db/Database/Reads.antt =====
-- What a database holds, and what its own reads and writes show of it.
use go_database.Base.{
  ◌≡◌, refl, subst, ap, false, Option, none, some, [], if◌then◌else◌, Bytes, arith, Option-cases,
  inl, inr,
}
use go_database.Base.Assoc
use go_database.Base.Assoc.{put, remove, get-put, get-remove}
use go_database.Base.Result.{Result, ok, err, panic}
use go_database.Base.Sorted.{
  sorted_entries, entries_at, sorted_entries-IsAscending, get-sorted_entries, filter-sort, IsMap,
  IsAscending, keys_of,
}
use go_database.Db.Engine.{Engine, EngineError, Entries, between}
use go_database.Db.Error.{Error}
use go_database.Db.Database.{Database, entries_of, translate, get_locked, range_locked, range}

pub translate-eq-ok {ℓ} :
    {A : Type ℓ} (r : Result EngineError A) (a : A) → translate r ≡ ok a → r ≡ ok a
translate-eq-ok (ok b) a h = cc
translate-eq-ok (err e) a h = cc
translate-eq-ok panic a h = cc

pub translate-eq-err {ℓ} :
    {A : Type ℓ} (r : Result EngineError A) (e : Error)
    → translate r ≡ err e
    → (f : EngineError) × (r ≡ err f)
translate-eq-err (ok b) e h = cc
translate-eq-err (err f) e h = (f, refl)
translate-eq-err panic e h = cc

module _ (en : Engine) where
  -- what the database holds under a key
  abbrev pub view : Database en → Bytes → Option Bytes
  view d key = elim d.durable [
    | some s ↦ en.view s key
    | none ↦ Assoc.get key (entries_of en d.content)
  ]

  -- a database in memory keeps one entry for a key; a durable one has no map
  abbrev pub IsDatabase : Database en → Type 0
  IsDatabase d = IsMap (entries_of en d.content)

  -- a read that succeeds returns what the database holds
  pub get_locked-view :
      (d : Database en) (key : Bytes) (o : Option Bytes)
      → get_locked en d key ≡ ok o
      → o ≡ view d key
  unfolding get_locked
  get_locked-view d key o h = elim (Option-cases d.durable) [
    | inl n ↦ ground arith
    | inr (s, e) ↦ ground (arith, translate-eq-ok (en.get s key) o, en.get_lem s key o)
  ]

  -- On an open database, which has one entry for a key where it is in memory, `Database.Range`
  -- and `rangeLocked` return the same.
  pub range-eq-locked :
      (d : Database en) (start end : Bytes)
      → IsDatabase d
      → d.is_closed ≡ false
      → range en d start end ≡ range_locked en d start end
  unfolding range range_locked sorted_entries
  range-eq-locked d start end m c =
      let same = filter-sort (between start end) (entries_of en d.content) m in
      ground (arith, ap (entries_at [] (entries_of en d.content)) same)

  -- Where a database in memory has one entry for a key, a `rangeLocked` that succeeds returns,
  -- in strictly ascending order, exactly the entries whose keys lie between the bounds, both
  -- included.
  pub range_locked-view :
      (d : Database en) (start end : Bytes) (es : Entries)
      → IsDatabase d
      → range_locked en d start end ≡ ok es
      → IsAscending (keys_of es)
        × ((key : Bytes) → Assoc.get key es ≡ (if between start end key then view d key else none))
  unfolding range_locked
  range_locked-view d start end es m h = elim (Option-cases d.durable) [
    | inl n ↦
        let e : sorted_entries [] (between start end) (entries_of en d.content) ≡ es =
          ground arith in
        (
          subst (λ (t : Entries). IsAscending (keys_of t)) e
              (sorted_entries-IsAscending [] (between start end) (entries_of en d.content) m),
          λ key.
              let listed =
                get-sorted_entries key [] (between start end) (entries_of en d.content) in
              ground (arith, listed),
        )
    | inr (s, e) ↦
        let r =
          en.range_lem s start end es (translate-eq-ok (en.range s start end) es (ground arith)) in
        (r.0, λ key. ground (arith, r.1 key))
  ]
