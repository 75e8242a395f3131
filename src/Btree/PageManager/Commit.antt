-- ===== src/Btree/PageManager/Commit.antt =====
-- What the publication of a root does to the lists of pages.
use go_database.Base.{
  ℕ, ◌+◌, ◌%◌, ◌^◌, ◌≤◌, ◌<◌, ◌≡◌, refl, sym, subst, ap, Bool, true, false, not, ◌&&◌, ◌||◌, List,
  ◌++◌, leb, ◌==◌, if◌then◌else◌, length, arith, Bool-cases, inl, inr,
}
use go_database.Base.Action.{Action, ◌>>=◌, no-err, no-panic, bind-ok, lift, outcome-subst}
use go_database.Base.Result.{Result, ok, err, panic, refuse, ◌>>◌}
use go_database.Btree.Disk.{PageError, invalid_page_id, Disk}
use go_database.Btree.PageManager.{Pages, contains_page_id, validate_existing_page_id, plan_nodes}
use go_database.Btree.PageManager.Publish.{
  RootMetadata, assign_nodes, State, on_pages, on_file, write_nodes, write_root_metadata_slot,
  recyclable_of, write_plan, write_free_list_snapshot, may_publish, published, publish_root,
}
use go_database.Btree.PageManager.Counts.{occurrences, occurrences-append, contains-eq-occurrences}
use go_database.Btree.PageManager.Assign.{fresh, IsAssigned, assign_nodes-IsAssigned}
use go_database.Btree.PageManager.Free.{held, IsManager}
use go_database.Btree.PageManager.Keeps.{
  recyclable_of-occurrences, write_nodes-Keeps, write_root_metadata_slot-Keeps, bind-Keeps,
}

module _ (disk : Disk) where
  -- the lists after the free list is written
  IsListed : Pages → Pages → Type 0
  IsListed p q =
      (p.next_page_id ≤ q.next_page_id)
      × ((j : ℕ)
          → occurrences q.free_page_ids j
            ≤ occurrences p.free_page_ids j + occurrences p.retired_page_ids j)
      × ((j : ℕ)
          → occurrences q.free_page_ids j
              + occurrences q.retired_page_ids j
              + occurrences q.free_list_page_ids j
            ≡ held p j + fresh p.next_page_id q.next_page_id j)

  assigned-IsListed :
      (p t v : Pages) (ids left : List ℕ)
      → v ≡ t
      → IsAssigned p (p.free_page_ids ++ p.retired_page_ids) t (ids, left)
      → IsListed p (record v {
        free_page_ids = left;
        retired_page_ids = p.pending_free_page_ids ++ p.free_list_page_ids;
        free_list_page_ids = ids;
      })
  unfolding IsListed
  assigned-IsListed p t v ids left keeps (h, k, l) =
      let next = ap (λ r. r.next_page_id) keeps in
      (
        rw next h,
        λ j. omega (arith, k j, occurrences-append p.free_page_ids p.retired_page_ids j),
        λ j. rw next (
            omega (
              arith,
              l j,
              occurrences-append p.free_page_ids p.retired_page_ids j,
              occurrences-append p.pending_free_page_ids p.free_list_page_ids j,
            )),
      )

  write_plan-IsListed :
      (generation root : ℕ) (recyclable : List ℕ) (s u : State disk) (m : RootMetadata)
      → ((j : ℕ)
          → occurrences recyclable j ≤ occurrences (s.1.free_page_ids ++ s.1.retired_page_ids) j)
      → write_plan disk generation root recyclable s ≡ (u, ok m)
      → IsListed s.1 u.1
  unfolding write_plan IsListed
  write_plan-IsListed generation root recyclable s u m sub e =
      let p = s.1 in
      let eligible = p.free_page_ids ++ p.retired_page_ids in
      let plan =
        plan_nodes (length eligible + length (p.pending_free_page_ids ++ p.free_list_page_ids))
          (length recyclable) in
      let (t, (ids, left), a, b) =
        bind-ok (on_pages disk (assign_nodes plan.0 plan.1 recyclable eligible)) _ s e in
      let (v, w, keeps, c) =
        bind-Keeps disk
          (write_nodes disk (left ++ (p.pending_free_page_ids ++ p.free_list_page_ids)) 0 ids) _ t u
          (write_nodes-Keeps disk (left ++ (p.pending_free_page_ids ++ p.free_list_page_ids)) 0 ids)
          b in
      outcome-subst (λ r x. IsListed p r.1) c
        (assigned-IsListed p t.1 v.1 ids left keeps (
          assign_nodes-IsAssigned plan.0 plan.1 recyclable eligible p t.1 (ids, left) sub
            (ap (λ r. (r.0.1, r.1)) a)))

  chosen-IsListed :
      (generation root : ℕ) (r : Result PageError (List ℕ)) (s u : State disk) (m : RootMetadata)
      → ((out : List ℕ)
          → r ≡ ok out
          → (j : ℕ) → occurrences out j ≤ occurrences (s.1.free_page_ids ++ s.1.retired_page_ids) j)
      → (lift r >>= write_plan disk generation root) s ≡ (u, ok m)
      → IsListed s.1 u.1
  chosen-IsListed generation root (ok out) s u m sub e =
      write_plan-IsListed generation root out s u m (sub out refl) e
  chosen-IsListed generation root (err x) s u m sub e = no-err e
  chosen-IsListed generation root panic s u m sub e = no-panic e

  write_free_list_snapshot-IsListed :
      (generation root : ℕ) (s u : State disk) (m : RootMetadata)
      → write_free_list_snapshot disk generation root s ≡ (u, ok m)
      → IsListed s.1 u.1
  unfolding write_free_list_snapshot
  write_free_list_snapshot-IsListed generation root s u m e =
      let eligible = s.1.free_page_ids ++ s.1.retired_page_ids in
      chosen-IsListed generation root (recyclable_of disk s.0 eligible) s u m
        (λ out found j. recyclable_of-occurrences disk s.0 eligible out j found) e

  -- what `publish_root` leaves on the lists
  abbrev pub IsPublished : ℕ → Pages → Pages → Type 0
  IsPublished root p q =
      IsManager q
      × (q.root_page_id ≡ root)
      × (held q root ≡ 0)
      × ((j : ℕ) → held q j ≡ held p j + fresh p.next_page_id q.next_page_id j)
      × ((j : ℕ)
          → contains_page_id q.free_page_ids j ≡ true
          → (contains_page_id p.free_page_ids j || contains_page_id p.retired_page_ids j) ≡ true)

  all_allowed :
      (e : PageError) (z a b c d : Bool) {u : Unit {0}}
      → (if z then ok tt else (refuse a e >> refuse b e)) >> (refuse (not z && c) e >> refuse d e)
        ≡ ok u
      → z ≡ false
      → (a ≡ false) × (b ≡ false) × (c ≡ false) × (d ≡ false)
  all_allowed e true a b c d h z = cc
  all_allowed e false true b c d h z = cc
  all_allowed e false false true c d h z = cc
  all_allowed e false false false true d h z = cc
  all_allowed e false false false false true h z = cc
  all_allowed e false false false false false h z = (refl, refl, refl, refl)

  may_publish-absent :
      (p : Pages) (root : ℕ) (u : Unit {0})
      → IsManager p
      → may_publish disk p root ≡ ok u
      → (held p root ≡ 0) × (root < p.next_page_id)
  unfolding may_publish validate_existing_page_id
  may_publish-absent p root u w e = elim (Bool-cases (root == 0)) [
    | inl y ↦ (ground (arith, w.allocated root), ground (arith, w.positive))
    | inr n ↦
        let (a, b, c, d) =
          all_allowed invalid_page_id (root == 0) (root == 0 || leb p.next_page_id root)
            (contains_page_id p.free_page_set root)
            (contains_page_id p.retired_page_ids root
              || contains_page_id p.pending_free_page_ids root)
            (contains_page_id p.free_list_page_ids root) e n in
        (
          ground (
            arith,
            b,
            c,
            d,
            w.set_of_free root,
            contains-eq-occurrences p.free_page_ids root,
            contains-eq-occurrences p.retired_page_ids root,
            contains-eq-occurrences p.pending_free_page_ids root,
            contains-eq-occurrences p.free_list_page_ids root,
          ),
          ground (arith, a),
        )
  ]

  published-IsPublished :
      (root generation : ℕ) (m : RootMetadata) (p q : Pages)
      → IsManager p
      → (held p root ≡ 0) × (root < p.next_page_id)
      → IsListed p q
      → IsPublished root p (published disk root generation m q)
  unfolding IsListed occurrences
  published-IsPublished root generation m p q w (absent, low) (next, free, all) = (
    record {
      positive = omega (arith, w.positive);
      once = λ j. ground (arith, all j, w.once j, w.allocated j);
      allocated = λ j h. ground (arith, all j, w.once j, w.allocated j, w.positive);
      set_of_free = λ j. refl;
    },
    refl,
    ground (arith, all root, absent),
    λ j. ground (arith, all j),
    λ j h. ground (
      arith,
      free j,
      contains-eq-occurrences q.free_page_ids j,
      contains-eq-occurrences p.free_page_ids j,
      contains-eq-occurrences p.retired_page_ids j,
    ),
  )

  -- Where no page is on the lists of free, retired, pending and free-list pages twice, and the root is
  -- published without an error, the root is on none of them, every page is on them as often as before,
  -- a page that has been added to the file for the free list once, no page is on them twice, and a
  -- page that is free to be used again was so before or was retired by an earlier publication.
  pub publish_root-IsPublished :
      (root : ℕ) (before_write sync_metadata : Action disk.File PageError (Unit {0}))
      (s u : State disk)
      → IsManager s.1
      → publish_root disk root before_write sync_metadata s ≡ (u, ok tt)
      → IsPublished root s.1 u.1
  unfolding publish_root
  publish_root-IsPublished root before_write sync_metadata s u w e =
      let g = (s.1.generation + 1) % 2 ^ 64 in
      let (t, o, a, b) = bind-ok (lift (may_publish disk s.1 root)) _ s e in
      let (t1, m, a1, b1) = bind-ok (write_free_list_snapshot disk g root) _ t b in
      let (t2, o2, k2, b2) = bind-Keeps disk (on_file disk before_write) _ t1 u (λ r. refl) b1 in
      let (t3, o3, k3, b3) = bind-Keeps disk (on_file disk disk.sync) _ t2 u (λ r. refl) b2 in
      let (t4, o4, k4, b4) =
        bind-Keeps disk (write_root_metadata_slot disk (g % 2) m) _ t3 u
          (write_root_metadata_slot-Keeps disk (g % 2) m) b3 in
      let (t5, o5, k5, b5) = bind-Keeps disk (on_file disk sync_metadata) _ t4 u (λ r. refl) b4 in
      let start : s.1 ≡ t.1 = ap (λ r. r.0.1) a in
      let listed : IsListed s.1 t1.1 =
        subst (λ z. IsListed z t1.1) (sym start)
          (write_free_list_snapshot-IsListed g root t t1 m a1) in
      let listed5 : IsListed s.1 t5.1 = rw (k5, k4, k3, k2) listed in
      outcome-subst (λ r x. IsPublished root s.1 r.1) b5
        (published-IsPublished root g m s.1 t5.1 w
          (may_publish-absent s.1 root o w (ap (λ r. r.1) a)) listed5)
