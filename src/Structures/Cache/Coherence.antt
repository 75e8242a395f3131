-- ===== src/Structures/Cache/Coherence.antt =====
-- What a cache holds is what its backing structure holds.
use go_database.Base.{
  suc, ◌+◌, ◌≡◌, ◌≢◌, ◌≤◌, ◌<◌, refl, sym, ◌∙◌, Bool, Option, none, some, [], ◌∷◌, ◌==◌,
  if◌then◌else◌, length, Bytes, beq, beq_refl, beq_iff, arith, Bool-cases, Option-cases, inl, inr,
}
use go_database.Base.Assoc
use go_database.Base.Assoc.{remove, get-remove}
use go_database.Base.Result.{Result, ok, err, panic, Result-cases}
use go_database.Base.Sorted.{IsMap, remove-IsMap}
use go_database.Structures.Cache.{
  Cache, drop_last, invalidate, fill, get, set, delete, called, filled, written, miss,
}
use go_database.Structures.Contract.{Kv, KvError, Entries}

get-drop_last :
    (k v : Bytes) (m : Entries) → Assoc.get k (drop_last m) ≡ some v → Assoc.get k m ≡ some v
unfolding drop_last Assoc.get
get-drop_last k v [] h = h
get-drop_last k v (x ∷ []) h = cc
get-drop_last k v ((j, w) ∷ y ∷ m) h = ground (arith, get-drop_last k v (y ∷ m))

absent-drop_last :
    (k : Bytes) (m : Entries) → Assoc.get k m ≡ none → Assoc.get k (drop_last m) ≡ none
absent-drop_last k m h = elim (Option-cases (Assoc.get k (drop_last m))) [
  | inl e ↦ e
  | inr (v, e) ↦ let f = get-drop_last k v m e in cc
]

drop_last-IsMap : (m : Entries) → IsMap m → IsMap (drop_last m)
unfolding drop_last
drop_last-IsMap [] h = tt
drop_last-IsMap (x ∷ []) h = tt
drop_last-IsMap ((k, v) ∷ y ∷ m) h = (absent-drop_last k (y ∷ m) h.0, drop_last-IsMap (y ∷ m) h.1)

length-drop_last : (m : Entries) → 0 < length m → suc (length (drop_last m)) ≡ length m
unfolding drop_last
length-drop_last [] h = ground arith
length-drop_last (x ∷ []) h = refl
length-drop_last (x ∷ y ∷ m) h = ground (arith, length-drop_last (y ∷ m))

length-remove : (k : Bytes) (m : Entries) → length (remove k m) ≤ length m
unfolding remove
length-remove k [] = ground arith
length-remove k ((j, w) ∷ m) = ground (arith, length-remove k m)

length-remove_found :
    (k v : Bytes) (m : Entries) → Assoc.get k m ≡ some v → length (remove k m) < length m
unfolding remove Assoc.get
length-remove_found k v [] h = cc
length-remove_found k v ((j, w) ∷ m) h =
    ground (arith, length-remove k m, length-remove_found k v m)

module _ (kv : Kv) where
  -- no key has two entries, the entries are at most the capacity, which is 1 at least, and every
  -- entry is one of the backing structure
  pub record IsCache (c : Cache kv) : Type 0 where
    pub once : IsMap c.order
    pub bounded : length c.order ≤ c.capacity
    pub room : 0 < c.capacity
    pub coherent : (k v : Bytes) → Assoc.get k c.order ≡ some v → kv.view c.backing k ≡ some v

  called-IsCache :
      (s : kv.Store) (c : Cache kv)
      → ((j : Bytes) → kv.view s j ≡ kv.view c.backing j)
      → IsCache c
      → IsCache (called kv s c)
  called-IsCache s c same h = record {
    once = h.once;
    bounded = h.bounded;
    room = h.room;
    coherent = λ k v e. same k ∙ h.coherent k v e;
  }

  fill-IsCache :
      (key value : Bytes) (c : Cache kv)
      → Assoc.get key c.order ≡ none
      → kv.view c.backing key ≡ some value
      → IsCache c
      → IsCache (fill kv key value c)
  unfolding fill Assoc.get
  fill-IsCache key value c absent held h = elim (Bool-cases (length c.order == c.capacity)) [
    | inl y ↦ record {
      once = rw y (absent-drop_last key c.order absent, drop_last-IsMap c.order h.once);
      bounded =
          let room = h.room in let n = length-drop_last c.order (ground arith) in ground arith;
      room = h.room;
      coherent = λ k v e.
          let old = h.coherent k v in
          let kept = get-drop_last k v c.order in
          elim (Bool-cases (beq key k)) [
            | inl z ↦ let same = (beq_iff key k).0 z in ground (arith, held)
            | inr z ↦ ground (arith, old, kept)
          ];
    }
    | inr n ↦ record {
      once = rw n (absent, h.once);
      bounded = let b = h.bounded in ground arith;
      room = h.room;
      coherent = λ k v e.
          let old = h.coherent k v in
          elim (Bool-cases (beq key k)) [
            | inl z ↦ let same = (beq_iff key k).0 z in ground (arith, held)
            | inr z ↦ ground (arith, old)
          ];
    }
  ]

  -- a write of one key, which drops the key's entry
  invalidate-IsCache :
      (s : kv.Store) (key : Bytes) (o : Option Bytes) (c : Cache kv)
      → ((j : Bytes) → kv.view s j ≡ (if beq key j then o else kv.view c.backing j))
      → IsCache c
      → IsCache (invalidate kv key (called kv s c))
  unfolding invalidate
  invalidate-IsCache s key o c written h = record {
    once = remove-IsMap key c.order h.once;
    bounded = let b = h.bounded in let n = length-remove key c.order in ground arith;
    room = h.room;
    coherent = λ k v e.
        let old = h.coherent k v in
        let now = written k in ground (arith, get-remove key k c.order, old, now);
  }

  -- moving an entry to the front
  hit-IsCache :
      (key value : Bytes) (c : Cache kv)
      → Assoc.get key c.order ≡ some value
      → IsCache c
      → IsCache (record c { hits = c.hits + 1; order = (key, value) ∷ remove key c.order })
  unfolding Assoc.get
  hit-IsCache key value c found h = record {
    once =
        (ground (arith, get-remove key key c.order, beq_refl key), remove-IsMap key c.order h.once);
    bounded =
        let b = h.bounded in let n = length-remove_found key value c.order found in ground arith;
    room = h.room;
    coherent = λ k v e.
        let old = h.coherent k v in
        elim (Bool-cases (beq key k)) [
          | inl z ↦ let same = (beq_iff key k).0 z in ground (arith, h.coherent key value found)
          | inr z ↦ ground (arith, old, get-remove key k c.order)
        ];
  }

  miss-IsCache :
      (key : Bytes) (c : Cache kv)
      → Assoc.get key c.order ≡ none
      → IsCache c
      → IsCache (miss kv key c).0
  miss-IsCache key c absent h =
      let s = (kv.get c.backing key).0 in
      let d : Cache kv = record c { misses = c.misses + 1 } in
      let same =
        called-IsCache s d (λ j. kv.get_same c.backing key j)
          (record { once = h.once; bounded = h.bounded; room = h.room; coherent = h.coherent }) in
      go (kv.get c.backing key).1 refl same
    where
      go :
          (r : Result KvError (Option Bytes))
          → (kv.get c.backing key).1 ≡ r
          → IsCache (called kv (kv.get c.backing key).0 (record c { misses = c.misses + 1 }))
          → IsCache
              (filled kv key
                (called kv (kv.get c.backing key).0 (record c { misses = c.misses + 1 }))
                r).0
      go (ok (some value)) e same =
          fill-IsCache key value _ absent
            (kv.get_same c.backing key key ∙ sym (kv.get_lem c.backing key (some value) e)) same
      go (ok none) e same = same
      go (err x) e same = same
      go panic e same = same

  -- A read keeps the cache well formed: no key is cached twice, at most as many entries as the
  -- capacity are, and every cached entry is what the backing structure holds under its key.
  pub get-IsCache : (c : Cache kv) (key : Bytes) → IsCache c → IsCache (get kv c key).0
  unfolding get
  get-IsCache c key h = go (Assoc.get key c.order) refl
    where
      go :
          (o : Option Bytes)
          → Assoc.get key c.order ≡ o
          → IsCache
              (elim o as (λ x. Cache kv × Result KvError (Option Bytes)) [
                | some value ↦ (
                  record c { hits = c.hits + 1; order = (key, value) ∷ remove key c.order },
                  ok (some value),
                )
                | none ↦ miss kv key c
              ]).0
      go (some value) e = hit-IsCache key value c e h
      go none e = miss-IsCache key c e h

  -- A read through a well-formed cache that succeeds returns what the backing structure holds,
  -- whether the key is cached or not.
  pub get-eq-view :
      (c : Cache kv) (key : Bytes) (o : Option Bytes)
      → IsCache c
      → (get kv c key).1 ≡ ok o
      → o ≡ kv.view c.backing key
  unfolding get
  get-eq-view c key o h e = elim (Option-cases (Assoc.get key c.order)) [
    | inl n ↦
        let read = kv.get_lem c.backing key o in
        elim (Result-cases (kv.get c.backing key).1) [
          | inl (x, f) ↦ elim (Option-cases x) [
            | inl m ↦ ground (arith, read)
            | inr (v, m) ↦ ground (arith, read)
          ]
          | inr (inl (x, f)) ↦ ground arith
          | inr (inr f) ↦ ground arith
        ]
    | inr (v, n) ↦ let held = h.coherent key v n in ground arith
  ]

  -- A write through the cache that does not panic keeps the cache well formed, where it fails too.
  pub set-IsCache :
      (c : Cache kv) (key value : Bytes)
      → (set kv c key value).1 ≢ panic
      → IsCache c
      → IsCache (set kv c key value).0
  unfolding set
  set-IsCache c key value np h = go (kv.set c.backing key value).1 refl
    where
      go :
          (r : Result KvError (Unit {0}))
          → (kv.set c.backing key value).1 ≡ r
          → IsCache (written kv key (called kv (kv.set c.backing key value).0 c) r)
      go (ok u) e =
          invalidate-IsCache (kv.set c.backing key value).0 key (some value) c
            (kv.set_lem c.backing key value u e) h
      go (err x) e = called-IsCache _ c (kv.set_err c.backing key value x e) h
      go panic e = absurd (np e)

  -- A delete through the cache that does not panic keeps the cache well formed, where it fails too.
  pub delete-IsCache :
      (c : Cache kv) (key : Bytes)
      → (delete kv c key).1 ≢ panic
      → IsCache c
      → IsCache (delete kv c key).0
  unfolding delete
  delete-IsCache c key np h = go (kv.delete c.backing key).1 refl
    where
      go :
          (r : Result KvError Bool)
          → (kv.delete c.backing key).1 ≡ r
          → IsCache (written kv key (called kv (kv.delete c.backing key).0 c) r)
      go (ok found) e =
          invalidate-IsCache (kv.delete c.backing key).0 key none c
            (kv.delete_lem c.backing key found e) h
      go (err x) e = called-IsCache _ c (kv.delete_err c.backing key x e) h
      go panic e = absurd (np e)
