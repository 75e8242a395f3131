-- ===== src/Db/Tx/Overlay.antt =====
-- What a transaction shows of its database: its own changes over what the database holds.
use go_database.Base.{
  ◌≡◌, ◌≢◌, refl, subst, ap, ◌∙◌, Bool, true, false, not, ◌&&◌, ◌||◌, Option, none, some, List, [],
  ◌∷◌, ◌++◌, ◌==◌, if◌then◌else◌, length, Bytes, beq, blt, beq_iff, blt_trans, blt_total,
  blt_irrefl, arith, Bool-cases, inl, inr,
}
use go_database.Base.Assoc
use go_database.Base.Assoc.{put, remove, get-put, get-remove}
use go_database.Base.Result.{Result-cases, ok, ◌>>=◌, bind-eq-ok, ok-injective}
use go_database.Base.Sorted.{
  sorted_entries, is_some, has_key, IsMap, IsAscending, keys_of, put-IsMap, remove-IsMap,
  ascending-IsMap, get-sorted_entries, sorted_entries-IsAscending,
}
use go_database.Db.Database.{Database, range_locked}
use go_database.Db.Database.Reads.{view, IsDatabase, get_locked-view, range_locked-view}
use go_database.Db.Engine.{Engine, Entries, between}
use go_database.Db.Tx.{
  Tx, Change, Changes, record_locked, overlay, collect, get, value_locked, set, delete, range,
}

-- a change, or what was there before it
abbrev pub shown : Option Change → Option Bytes → Option Bytes
shown none o = o
shown (some c) o = if c.delete then none else some c.value

-- `order` lists the keys that have a change, and no key has two changes
pub record IsTx (tx : Tx) : Type 0 where
  pub ordered : (key : Bytes) → has_key key tx.order ≡ is_some (Assoc.get key tx.changes)
  pub once : IsMap tx.changes

has_key-append :
    (j k : Bytes) (ks : List Bytes) → has_key j (ks ++ k ∷ []) ≡ (has_key j ks || beq k j)
unfolding has_key
has_key-append j k [] = ground arith
has_key-append j k (x ∷ xs) = ground (arith, has_key-append j k xs)

-- Recording a change keeps the well-formedness of a transaction: its order lists exactly the
-- keys that have a change, and no key has two changes.
pub record_locked-IsTx :
    (tx : Tx) (key : Bytes) (change : Change) → IsTx tx → IsTx (record_locked tx key change)
unfolding record_locked
record_locked-IsTx tx key change h = record {
  ordered = λ j. ground (
    arith,
    h.ordered j,
    h.ordered key,
    has_key-append j key tx.order,
    get-put key j change tx.changes,
    beq_iff key j,
  );
  once = put-IsMap key change tx.changes h.once;
}

-- one change of `Range`'s loop
abbrev applied : Bool → Bool → Bytes → Bytes → Entries → Entries
applied b d k v values = if not b then values else if d then remove k values else put k v values

get-applied :
    (b d : Bool) (k v j : Bytes) (values : Entries)
    → Assoc.get j (applied b d k v values)
      ≡ (if beq k j && b then (if d then none else some v) else Assoc.get j values)
get-applied true true k v j values = ground (arith, get-remove k j values)
get-applied true false k v j values = ground (arith, get-put k j v values)
get-applied false d k v j values = ground arith

get-overlay :
    (start end j : Bytes) (changes : Changes) (values : Entries)
    → IsMap changes
    → Assoc.get j (overlay start end changes values) ≡ (
        if between start end j
        then shown (Assoc.get j changes) (Assoc.get j values)
        else Assoc.get j values)
unfolding overlay Assoc.get
get-overlay start end j [] values h = ground arith
get-overlay start end j ((k, c) ∷ changes) values h =
    let b = between start end k in
    let now = applied b c.delete k c.value values in
    let ih = get-overlay start end j changes now h.1 in
    let one = get-applied b c.delete k c.value j values in
    elim (Bool-cases (beq k j)) [
      | inl y ↦
          let e : k ≡ j = (beq_iff k j).0 y in
          let absent : Assoc.get j changes ≡ none = rw e at h.0 in
          let same : between start end k ≡ between start end j = ap (between start end) e in
          ground (arith, ih, one, absent, same)
      | inr n ↦ ground (arith, ih, one)
    ]

overlay-IsMap :
    (start end : Bytes) (changes : Changes) (values : Entries)
    → IsMap values
    → IsMap (overlay start end changes values)
unfolding overlay
overlay-IsMap start end [] values h = h
overlay-IsMap start end ((k, c) ∷ changes) values h =
    overlay-IsMap start end changes _ (step (between start end k) c.delete)
  where
    step :
        (b d : Bool)
        → IsMap (if not b then values else if d then remove k values else put k c.value values)
    step true true = remove-IsMap k values h
    step true false = put-IsMap k c.value values h
    step false d = h

get-collect :
    (j : Bytes) (items values : Entries)
    → IsMap items
    → Assoc.get j (collect items values)
      ≡ (elim (Assoc.get j items) [ none ↦ Assoc.get j values | some v ↦ some v ])
unfolding collect Assoc.get
get-collect j [] values h = refl
get-collect j ((k, v) ∷ items) values h = elim (Bool-cases (beq k j)) [
  | inl y ↦
      let e : k ≡ j = (beq_iff k j).0 y in
      let absent : Assoc.get j items ≡ none = rw e at h.0 in
      ground (arith, get-collect j items (put k v values) h.1, get-put k j v values, absent)
  | inr n ↦ ground (arith, get-collect j items (put k v values) h.1, get-put k j v values)
]

collect-IsMap : (items values : Entries) → IsMap values → IsMap (collect items values)
unfolding collect
collect-IsMap [] values h = h
collect-IsMap ((k, v) ∷ items) values h = collect-IsMap items _ (put-IsMap k v values h)

ne_nil : (key : Bytes) → key ≢ [] → (length key == 0) ≡ false
ne_nil [] h = absurd (h refl)
ne_nil (x ∷ key) h = ground arith

between-reversed : (start end key : Bytes) → blt end start ≡ true → between start end key ≡ false
between-reversed start end key h = elim (Bool-cases (blt key start)) [
  | inl y ↦ rw y
  | inr n ↦ elim (Bool-cases (blt start key)) [
    | inl z ↦ ground (arith, blt_trans end start key h z)
    | inr w ↦ let e = blt_total key start n w in rw (e, h, blt_irrefl start)
  ]
]

collected : (o : Option Bytes) → ◌≡◌ {A = Option Bytes} (elim o [ none ↦ none | some v ↦ some v ]) o
unfolding Assoc.get
collected none = refl
collected (some v) = refl

shown_between :
    (b : Bool) (c : Option Change) (v : Option Bytes) {o p : Option Bytes}
    → o ≡ p
    → p ≡ (if b then v else none)
    → (if b then shown c o else o) ≡ (if b then shown c v else none)
shown_between true c v h k = ap (shown c) (h ∙ k)
shown_between false c v h k = h ∙ k

module _ (en : Engine) where
  -- what a transaction shows under a key
  abbrev pub tx_view : Database en → Tx → Bytes → Option Bytes
  tx_view d tx key = shown (Assoc.get key tx.changes) (view en d key)

  -- A read of a transaction that succeeds returns the transaction's own change of the key, and
  -- what the database holds where the transaction has not changed it.
  pub get-tx_view :
      (d : Database en) (tx : Tx) (key : Bytes) (o : Option Bytes)
      → get en d tx key ≡ ok o
      → o ≡ tx_view d tx key
  unfolding get
  get-tx_view d tx key o h = ground (arith, get_locked-view en d key o)

  -- A write of a transaction that succeeds shows the value under its key and leaves what the
  -- transaction shows under every other key.
  pub set-tx_view :
      (d : Database en) (tx : Tx) (key value j : Bytes)
      → (set en d tx key value).1 ≡ ok tt
      → tx_view d (set en d tx key value).0 j ≡ (if beq key j then some value else tx_view d tx j)
  unfolding set record_locked
  set-tx_view d tx key value j h =
      ground (arith, get-put key j (record { value = value; delete = false }) tx.changes)

  value_locked-tx_view :
      (d : Database en) (tx : Tx) (key : Bytes) (o : Option Bytes)
      → value_locked en d tx key ≡ ok o
      → o ≡ tx_view d tx key
  unfolding value_locked
  value_locked-tx_view d tx key o h = ground (arith, get_locked-view en d key o)

  -- A delete of a key that is not empty, where it succeeds, reports whether the transaction
  -- showed the key; after it the transaction shows the key no more, and every other key as
  -- before.
  pub delete-tx_view :
      (d : Database en) (tx : Tx) (key j : Bytes) (found : Bool)
      → key ≢ []
      → (delete en d tx key).1 ≡ ok found
      → (found ≡ is_some (tx_view d tx key))
        × (tx_view d (delete en d tx key).0 j ≡ (if beq key j then none else tx_view d tx j))
  unfolding delete record_locked
  delete-tx_view d tx key j found k h = elim (Result-cases (value_locked en d tx key)) [
    | inl (o, e) ↦ ground (
      arith,
      ne_nil key,
      value_locked-tx_view d tx key o e,
      get-put key j (record { value = []; delete = true }) tx.changes,
    )
    | inr (inl (e, f)) ↦ ground (arith, ne_nil key)
    | inr (inr p) ↦ ground (arith, ne_nil key)
  ]

  listed :
      (d : Database en) (tx : Tx) (start end : Bytes) (items es : Entries)
      → IsDatabase en d
      → IsTx tx
      → range_locked en d start end ≡ ok items
      → sorted_entries [] (λ _. true) (overlay start end tx.changes (collect items [])) ≡ es
      → IsAscending (keys_of es)
        × ((key : Bytes)
            → Assoc.get key es ≡ (if between start end key then tx_view d tx key else none))
  unfolding Assoc.get
  listed d tx start end items es m t r o =
      let (sorted, held) = range_locked-view en d start end items m r in
      let values = collect items [] in
      let merged = overlay start end tx.changes values in
      let distinct = overlay-IsMap start end tx.changes values (collect-IsMap items [] tt) in
      (
        subst (λ (t : Entries). IsAscending (keys_of t)) o
            (sorted_entries-IsAscending [] (λ _. true) merged distinct),
        λ key.
            let all = get-sorted_entries key [] (λ _. true) merged in
            let over = get-overlay start end key tx.changes values t.once in
            let base = get-collect key items [] (ascending-IsMap items sorted) in
            rw (← o) (
              all
              ∙ over
              ∙ shown_between (between start end key) _ (view en d key)
                  (base ∙ collected (Assoc.get key items)) (held key)),
      )

  -- Where a database in memory has one entry for a key, and a transaction one change for a key,
  -- listed in its order, a `Range` of the transaction that succeeds lists, in strictly ascending
  -- order, exactly what the transaction shows of the keys between the bounds, both included.
  pub range-tx_view :
      (d : Database en) (tx : Tx) (start end : Bytes) (es : Entries)
      → IsDatabase en d
      → IsTx tx
      → range en d tx start end ≡ ok es
      → IsAscending (keys_of es)
        × ((key : Bytes)
            → Assoc.get key es ≡ (if between start end key then tx_view d tx key else none))
  unfolding range Assoc.get
  range-tx_view d tx start end es m t h = elim (Bool-cases (blt end start)) [
    | inl y ↦
        let e : [] ≡ es = ground arith in
        (
          rw (← e) tt,
          λ key. rw (← e) (let b = between-reversed start end key y in ground (arith, b)),
        )
    | inr n ↦
        let k : (do
          items ← range_locked en d start end
          ok (sorted_entries [] (λ _. true) (overlay start end tx.changes (collect items []))))
            ≡ ok es =
          ground arith in
        let (items, r, o) = bind-eq-ok (range_locked en d start end) _ k in
        listed d tx start end items es m t r (ok-injective o)
  ]
