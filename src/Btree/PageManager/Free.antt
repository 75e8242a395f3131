-- ===== src/Btree/PageManager/Free.antt =====
-- The lists of the page manager: what reserving and freeing a page leave on them.
use go_database.Base.{
  ℕ, ◌+◌, ◌≤◌, ◌<◌, ◌≡◌, refl, Bool, true, false, ◌||◌, Option, none, some, List, [], ◌∷◌, ltb, leb,
  ◌==◌, if◌then◌else◌, arith,
}
use go_database.Base.Result.{Result, ok, err, panic, refuse, ◌>>◌}
use go_database.Base.Action.{outcome-subst, no-panic, no-err}
use go_database.Btree.Disk.{PageError, data_page_offset, invalid_page_id}
use go_database.Btree.PageManager.{
  Pages, contains_page_id, split_last, validate_existing_page_id, reserve_page, reserve_from,
  new_page, free_page, may_free, freed,
}
use go_database.Btree.PageManager.Counts.{
  occurrences, one_if, occurrences-append, contains-eq-occurrences, contains-remove_from_set,
  occurrences-split_last,
}

-- how often a page is on the lists of the manager
abbrev pub held : Pages → ℕ → ℕ
held p j =
    occurrences p.free_page_ids j
    + occurrences p.retired_page_ids j
    + occurrences p.pending_free_page_ids j
    + occurrences p.free_list_page_ids j

-- no page is on the lists twice, and those that are have been allocated; the set is that of the free
-- pages
pub record IsManager (p : Pages) : Type 0 where
  pub positive : 0 < p.next_page_id
  pub once : (j : ℕ) → held p j ≤ 1
  pub allocated : (j : ℕ) → 0 < held p j → (0 < j) × (j < p.next_page_id)
  pub set_of_free :
      (j : ℕ) → contains_page_id p.free_page_set j ≡ contains_page_id p.free_page_ids j

-- a page that is reserved
abbrev pub IsReserved : Pages → Pages → ℕ → Type 0
IsReserved p q id =
    IsManager q
    × ((0 < id) × (id < q.next_page_id))
    × (held q id ≡ 0)
    × ((j : ℕ) → held p j ≡ held q j + (if ltb id p.next_page_id then one_if (id == j) else 0))

new_page-IsReserved :
    (p q : Pages) (r : Result PageError ℕ) (id : ℕ)
    → IsManager p
    → new_page p r ≡ (q, ok id)
    → IsReserved p q id
new_page-IsReserved p q panic id w e = no-panic e
new_page-IsReserved p q (err x) id w e = no-err e
new_page-IsReserved p q (ok offset) id w e = outcome-subst (IsReserved p) e (
  record {
    positive = omega arith;
    once = w.once;
    allocated = λ j h. let (a, b) = w.allocated j h in (a, omega arith);
    set_of_free = w.set_of_free;
  },
  (w.positive, omega arith),
  ground (arith, w.allocated p.next_page_id),
  λ j. ground arith,
)

reserve_from-IsReserved :
    (p q : Pages) (o : Option (List ℕ × ℕ)) (id : ℕ)
    → IsManager p
    → split_last p.free_page_ids ≡ o
    → reserve_from p o ≡ (q, ok id)
    → IsReserved p q id
reserve_from-IsReserved p q none id w f e =
    new_page-IsReserved p q (data_page_offset p.next_page_id) id w e
reserve_from-IsReserved p q (some (ids, i)) id w f e =
    let occ = λ (j : ℕ). occurrences-split_last p.free_page_ids ids i j f in
    let bound = w.allocated i (ground (arith, occ i)) in
    outcome-subst (IsReserved p) e (
      record {
        positive = w.positive;
        once = λ j. omega (arith, occ j, w.once j);
        allocated = λ j h. w.allocated j (omega (arith, occ j));
        set_of_free = λ j. ground (
          arith,
          contains-remove_from_set p.free_page_set i j,
          w.set_of_free j,
          contains-eq-occurrences p.free_page_ids j,
          contains-eq-occurrences ids j,
          occ j,
          w.once j,
        );
      },
      bound,
      ground (arith, occ i, w.once i),
      λ j. ground (arith, occ j, bound.1),
    )

-- A page that is reserved, where no page is on the lists twice, is allocated and on no list any more;
-- of the other pages each stays on the lists as it was, and the lists stay as they should be.
pub reserve_page-IsReserved :
    (p q : Pages) (id : ℕ) → IsManager p → reserve_page p ≡ (q, ok id) → IsReserved p q id
unfolding reserve_page
reserve_page-IsReserved p q id w e =
    reserve_from-IsReserved p q (split_last p.free_page_ids) id w refl e

-- what `free_page` leaves
abbrev pub IsFreed : ℕ → Pages → Pages → Unit {0} → Type 0
IsFreed id p q u =
    IsManager q × (held p id ≡ 0) × ((j : ℕ) → held q j ≡ held p j + one_if (id == j))

none-refused :
    (e : PageError) (a b c d : Bool) {u : Unit {0}}
    → refuse a e >> refuse b e >> (refuse c e >> refuse d e) ≡ ok u
    → (a ≡ false) × (b ≡ false) × (c ≡ false) × (d ≡ false)
none-refused e true b c d h = cc
none-refused e false true c d h = cc
none-refused e false false true d h = cc
none-refused e false false false true h = cc
none-refused e false false false false h = (refl, refl, refl, refl)

freed-IsFreed :
    (p q : Pages) (id : ℕ) (r : Result PageError (Unit {0}))
    → IsManager p
    → may_free p id ≡ r
    → freed p id r ≡ (q, ok tt)
    → IsFreed id p q tt
unfolding may_free validate_existing_page_id occurrences
freed-IsFreed p q id panic w f e = no-panic e
freed-IsFreed p q id (err x) w f e = no-err e
freed-IsFreed p q id (ok done) w f e =
    let (a, b, c, d) =
      none-refused invalid_page_id (id == 0 || leb p.next_page_id id)
        (contains_page_id p.free_page_set id) (contains_page_id p.free_list_page_ids id)
        (contains_page_id p.retired_page_ids id || contains_page_id p.pending_free_page_ids id) f in
    let absent : held p id ≡ 0 = ground (
      arith,
      b,
      c,
      d,
      w.set_of_free id,
      contains-eq-occurrences p.free_page_ids id,
      contains-eq-occurrences p.retired_page_ids id,
      contains-eq-occurrences p.pending_free_page_ids id,
      contains-eq-occurrences p.free_list_page_ids id,
    ) in
    let occ = λ (j : ℕ). occurrences-append p.pending_free_page_ids (id ∷ []) j in
    outcome-subst (IsFreed id p) e (
      record {
        positive = w.positive;
        once = λ j. ground (arith, occ j, w.once j, absent);
        allocated = λ j h. ground (arith, occ j, w.allocated j, a);
        set_of_free = w.set_of_free;
      },
      absent,
      λ j. ground (arith, occ j),
    )

-- A page that is freed was on no list before, and is on the lists once from then on; the other pages
-- stay as they were.
pub free_page-IsFreed :
    (p q : Pages) (id : ℕ) → IsManager p → free_page p id ≡ (q, ok tt) → IsFreed id p q tt
unfolding free_page
free_page-IsFreed p q id w e = freed-IsFreed p q id (may_free p id) w refl e
