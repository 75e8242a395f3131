-- ===== src/Db/Database/Writes.antt =====
-- What the writes of a database outside of transactions leave of what it holds.
use go_database.Base.{
  ◌≡◌, ◌≢◌, refl, Bool, false, Option, none, some, [], ◌∷◌, ◌==◌, if◌then◌else◌, length, Bytes, beq,
  beq_iff, arith, Bool-cases, Option-cases, ◌∙◌, inl, inr,
}
use go_database.Base.Assoc
use go_database.Base.Assoc.{put, remove, get-put, get-remove}
use go_database.Base.Result.{ok}
use go_database.Base.Sorted.{is_some}
use go_database.Db.Database.{Database, set, set_locked, get_value, delete}
use go_database.Db.Database.Reads.{view, get_locked-view, translate-eq-ok}
use go_database.Db.Engine.{Engine}

ne_nil : (key : Bytes) → key ≢ [] → (length key == 0) ≡ false
ne_nil [] h = absurd (h refl)
ne_nil (x ∷ key) h = ground arith

get_nil : (key : Bytes) → ◌≡◌ {A = Option Bytes} (Assoc.get key []) none
unfolding Assoc.get
get_nil key = refl

module _ (en : Engine) where
  set_locked-view :
      (d : Database en) (key value j : Bytes)
      → (set_locked en d key value).1 ≡ ok tt
      → view en (set_locked en d key value).0 j ≡ (if beq key j then some value else view en d j)
  unfolding set_locked
  set_locked-view d key value j h = elim (Option-cases d.durable) [
    | inl n ↦ elim (Option-cases d.content) [
      | inl m ↦ ground arith
      | inr (m, e) ↦ ground (arith, get-put key j value m)
    ]
    | inr (s, e) ↦
        let held = λ (p : (en.set s key value).1 ≡ ok tt). en.set_lem s key value p j in
        ground (arith, held, translate-eq-ok (en.set s key value).1 tt)
  ]

  set_locked-flags :
      (d : Database en) (key value : Bytes)
      → ((set_locked en d key value).0.is_closed ≡ d.is_closed)
        × ((set_locked en d key value).0.writer_active ≡ d.writer_active)
  unfolding set_locked
  set_locked-flags d key value = elim (Option-cases d.durable) [
    | inl n ↦ elim (Option-cases d.content) [ inl m ↦ ground arith | inr (m, e) ↦ ground arith ]
    | inr (s, e) ↦ ground arith
  ]

  -- what `set` has tested where it succeeds
  set-allowed :
      (d : Database en) (key value : Bytes)
      → (set en d key value).1 ≡ ok tt
      → (d.is_closed ≡ false)
        × (d.writer_active ≡ false)
        × ((length key == 0) ≡ false)
        × (set en d key value ≡ set_locked en d key value)
  unfolding set
  set-allowed d key value h = elim (Bool-cases d.is_closed) [
    | inl a ↦ ground arith
    | inr a ↦ elim (Bool-cases d.writer_active) [
      | inl b ↦ ground arith
      | inr b ↦ elim (Bool-cases (length key == 0)) [
        | inl c ↦ ground arith
        | inr c ↦ (a, b, c, rw (a, b, c) refl)
      ]
    ]
  ]

  value_read :
      (d t : Database en) (key value j : Bytes) (before after : Option Bytes)
      → d.is_closed ≡ false
      → t.is_closed ≡ false
      → (length key == 0) ≡ false
      → get_value en d j ≡ ok before
      → get_value en t j ≡ ok after
      → view en t j ≡ (if beq key j then some value else view en d j)
      → after ≡ (if beq key j then some value else before)
  unfolding get_value
  value_read d t key value j before after o p k b a v = elim (Bool-cases (length j == 0)) [
    | inl z ↦ elim (Bool-cases (beq key j)) [
      | inl y ↦ let same = (beq_iff key j).0 y in let n = rw same at k in ground arith
      | inr y ↦ ground arith
    ]
    | inr z ↦
        let was = get_locked-view en d j before (ground arith) in
        let now = get_locked-view en t j after (ground arith) in ground arith
  ]

  -- Where a write and then a read succeed, no write transaction is active, neither before nor after,
  -- the database is open, and the read finds the value under the key that was written, and under
  -- every other key, the empty one too, what a read before the write found.
  pub get_value-set :
      (d : Database en) (key value j : Bytes) (before after : Option Bytes)
      → (set en d key value).1 ≡ ok tt
      → get_value en d j ≡ ok before
      → get_value en (set en d key value).0 j ≡ ok after
      → (after ≡ (if beq key j then some value else before))
        × (d.is_closed ≡ false)
        × (d.writer_active ≡ false)
        × ((set en d key value).0.writer_active ≡ false)
  get_value-set d key value j before after h b a =
      let (o, w, k, e) = set-allowed d key value h in
      let (c, f) = set_locked-flags d key value in
      let t = rw e at a in
      (
        value_read d (set_locked en d key value).0 key value j before after o (c ∙ o) k b t
            (set_locked-view d key value j (rw e at h)),
        o,
        w,
        rw e (f ∙ w),
      )

  -- A delete of a key that is not empty, where it succeeds, reports whether the database held the
  -- key; after it the database holds the key no more, and every other key as before.
  pub delete-view :
      (d : Database en) (key j : Bytes) (found : Bool)
      → key ≢ []
      → (delete en d key).1 ≡ ok found
      → (found ≡ is_some (view en d key))
        × (view en (delete en d key).0 j ≡ (if beq key j then none else view en d j))
  unfolding delete
  delete-view d key j found k h = elim (Option-cases d.durable) [
    | inl n ↦ elim (Option-cases d.content) [
      | inl m ↦ ground (arith, ne_nil key, get_nil key, get_nil j)
      | inr (m, e) ↦ elim (Option-cases (Assoc.get key m)) [
        | inl z ↦ elim (Bool-cases (beq key j)) [
          | inl y ↦ let same = (beq_iff key j).0 y in ground (arith, ne_nil key)
          | inr y ↦ ground (arith, ne_nil key)
        ]
        | inr (v, z) ↦ ground (arith, ne_nil key, get-remove key j m)
      ]
    ]
    | inr (s, e) ↦
        let held = λ (p : (en.delete s key).1 ≡ ok found). (en.delete_lem s key found p).1 j in
        let was = λ (p : (en.delete s key).1 ≡ ok found). (en.delete_lem s key found p).0 in
        ground (arith, ne_nil key, held, was, translate-eq-ok (en.delete s key).1 found)
  ]
