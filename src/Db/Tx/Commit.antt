-- ===== src/Db/Tx/Commit.antt =====
-- What `Commit` and `Rollback` leave of the database and of the transaction.
use go_database.Base.{
  ◌≡◌, refl, sym, ap, ◌∙◌, Bool, true, false, Option, none, some, List, [], ◌∷◌, if◌then◌else◌,
  Bytes, beq, beq_iff, beq_refl, arith, Bool-cases, Option-cases, inl, inr,
}
use go_database.Base.Assoc
use go_database.Base.Assoc.{put, remove, get-put, get-remove}
use go_database.Base.Result.{ok, Result-cases}
use go_database.Base.Sorted.{is_some, has_key}
use go_database.Db.Database.{Database, apply_all, apply_batch_locked}
use go_database.Db.Database.Reads.{view, translate-eq-ok}
use go_database.Db.Engine.{Engine, Mutation, Entries, mutate_view, mutate_views}
use go_database.Db.Tx.{Tx, Change, Changes, mutation_of, mutations_of, commit, rollback}
use go_database.Db.Tx.Overlay.{IsTx, shown, tx_view}

-- the mutation of a key shows what its change shows
mutate_view-of :
    (changes : Changes) (k j : Bytes) (o : Option Bytes) (c : Change)
    → Assoc.get k changes ≡ some c
    → mutate_view (mutation_of changes k) j o ≡ (if beq k j then shown (some c) o else o)
mutate_view-of changes k j o c h = ground arith

-- Applying the mutations of some keys changes exactly those keys, each as its change says.
mutate_views-of :
    (changes : Changes) (keys : List Bytes) (j : Bytes) (o : Option Bytes)
    → ((k : Bytes) → has_key k keys ≡ true → is_some (Assoc.get k changes) ≡ true)
    → mutate_views (mutations_of changes keys) j o
      ≡ (if has_key j keys then shown (Assoc.get j changes) o else o)
unfolding mutations_of has_key
mutate_views-of changes [] j o h = refl
mutate_views-of changes (k ∷ keys) j o h =
    let ih =
      mutate_views-of changes keys j (mutate_view (mutation_of changes k) j o)
        (λ i e. h i (ground arith)) in
    let there = h k (ground (arith, beq_refl k)) in
    elim (Bool-cases (beq k j)) [
      | inl y ↦ ground (arith, ih, there, (beq_iff k j).0 y)
      | inr n ↦ ground (arith, ih, there)
    ]

get-apply_all :
    (en : Engine) (ms : List Mutation) (m : Entries) (j : Bytes)
    → Assoc.get j (apply_all en ms m) ≡ mutate_views ms j (Assoc.get j m)
unfolding apply_all
get-apply_all en [] m j = refl
get-apply_all en (x ∷ ms) m j =
    get-apply_all en ms (if x.delete then remove x.key m else put x.key x.value m) j
    ∙ ap (mutate_views ms j) (one x.delete)
  where
    one :
        (b : Bool)
        → Assoc.get j (if b then remove x.key m else put x.key x.value m)
          ≡ (if beq x.key j then (if b then none else some x.value) else Assoc.get j m)
    one true = get-remove x.key j m
    one false = get-put x.key j x.value m

module _ (en : Engine) where
  apply_batch-view :
      (d : Database en) (ms : List Mutation) (j : Bytes)
      → (apply_batch_locked en d ms).1 ≡ ok tt
      → view en (apply_batch_locked en d ms).0 j ≡ mutate_views ms j (view en d j)
  unfolding apply_batch_locked
  apply_batch-view d ms j h = elim (Option-cases d.durable) [
    | inl n ↦ elim (Option-cases d.content) [
      | inl m ↦ ground arith
      | inr (m, e) ↦ ground (arith, get-apply_all en ms m j)
    ]
    | inr (s, e) ↦
        let same = λ (p : (en.apply_batch s ms).1 ≡ ok tt). en.apply_lem s ms p j in
        ground (arith, same, translate-eq-ok (en.apply_batch s ms).1 tt)
  ]

  -- A commit that succeeds, of a transaction whose order lists its changed keys, makes the
  -- database hold, under every key, what the transaction showed; it closes the transaction and
  -- clears the flag of the active writer.
  pub commit-view :
      (d : Database en) (tx : Tx)
      → IsTx tx
      → (commit en d tx).1 ≡ ok tt
      → ((j : Bytes) → view en (commit en d tx).0.0 j ≡ tx_view en d tx j)
        × ((commit en d tx).0.0.writer_active ≡ false)
        × ((commit en d tx).0.1.is_closed ≡ true)
  unfolding commit
  commit-view d tx t h =
      elim (Result-cases (apply_batch_locked en d (mutations_of tx.changes tx.order)).1) [
        | inl (u, e) ↦ (
          λ j.
              let all =
                mutate_views-of tx.changes tx.order j (view en d j)
                  (λ k o. sym (t.ordered k) ∙ o) in
              ground
                (arith, apply_batch-view d (mutations_of tx.changes tx.order) j, all, t.ordered j),
          ground arith,
          ground arith,
        )
        | inr (inl (x, e)) ↦ ground arith
        | inr (inr e) ↦ ground arith
      ]

  -- A rollback leaves what the database holds and closes the transaction, and a second rollback
  -- does nothing.
  pub rollback-view :
      (d : Database en) (tx : Tx)
      → ((j : Bytes) → view en (rollback en d tx).0 j ≡ view en d j)
        × ((rollback en d tx).1.is_closed ≡ true)
        × (rollback en (rollback en d tx).0 (rollback en d tx).1 ≡ rollback en d tx)
  unfolding rollback
  rollback-view d tx = (λ j. ground arith, ground arith, ground arith)
