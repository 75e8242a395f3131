-- ===== src/Btree/PageManager/Assign.antt =====
-- The pages that `writeFreeListSnapshot` chooses for the free-list nodes.
use go_database.Base.{
  ℕ, zero, suc, ◌+◌, ◌≤◌, ◌≡◌, refl, ap, ◌&&◌, Option, none, some, List, ◌∷◌, ltb, leb, arith,
}
use go_database.Base.Action.{◌>>=◌, bind-ok, lift, outcome-subst, no-panic, no-err}
use go_database.Base.Result.{Result, ok, err, panic}
use go_database.Btree.Disk.{PageError, data_page_offset}
use go_database.Btree.PageManager.{Pages, remove_page_id, remove_from_set, split_last, new_page}
use go_database.Btree.PageManager.Publish.{last_or_panic, assign_nodes}
use go_database.Btree.PageManager.Counts.{
  occurrences, one_if, occurrences-remove, occurrences-split_last,
}

-- a page that is new: allocated since `low`
abbrev pub fresh : ℕ → ℕ → ℕ → ℕ
fresh low high j = one_if (leb low j && ltb j high)

-- the pages of the nodes and those left are the eligible ones and new ones
abbrev pub IsAssigned : Pages → List ℕ → Pages → List ℕ × List ℕ → Type 0
IsAssigned p eligible q (ids, left) =
    (p.next_page_id ≤ q.next_page_id)
    × ((j : ℕ) → occurrences left j ≤ occurrences eligible j)
    × ((j : ℕ)
        → occurrences ids j + occurrences left j
          ≡ occurrences eligible j + fresh p.next_page_id q.next_page_id j)

new_page-next :
    (p q : Pages) (r : Result PageError ℕ) (id : ℕ)
    → new_page p r ≡ (q, ok id)
    → (q.next_page_id ≡ suc p.next_page_id) × (id ≡ p.next_page_id)
new_page-next p q panic id e = no-panic e
new_page-next p q (err x) id e = no-err e
new_page-next p q (ok offset) id e =
    outcome-subst (λ t i. (t.next_page_id ≡ suc p.next_page_id) × (i ≡ p.next_page_id)) e
      (refl, refl)

last_or_panic-some :
    (p t : Pages) (o : Option (List ℕ × ℕ)) (r : List ℕ × ℕ)
    → ◌≡◌ {A = Pages × Result PageError (List ℕ × ℕ)} (p, last_or_panic o) (t, ok r)
    → (o ≡ some r) × (p ≡ t)
last_or_panic-some p t none r e = no-panic e
last_or_panic-some p t (some s) r e =
    outcome-subst (λ u z. (some s ≡ some z) × (p ≡ u)) e (refl, refl)

still_eligible :
    (recyclable others eligible : List ℕ) (id : ℕ)
    → split_last recyclable ≡ some (others, id)
    → ((j : ℕ) → occurrences recyclable j ≤ occurrences eligible j)
    → (j : ℕ) → occurrences others j ≤ occurrences (remove_page_id eligible id) j
still_eligible recyclable others eligible id last sub j = omega (
  arith,
  occurrences-split_last recyclable others id j last,
  occurrences-remove eligible id j,
  sub j,
)

reused-IsAssigned :
    (recyclable others eligible : List ℕ) (id : ℕ) (p t u : Pages) (ids left : List ℕ)
    → split_last recyclable ≡ some (others, id)
    → p ≡ t
    → ((j : ℕ) → occurrences recyclable j ≤ occurrences eligible j)
    → IsAssigned
        (record t { free_page_set = remove_from_set t.free_page_set id })
        (remove_page_id eligible id)
        u
        (ids, left)
    → IsAssigned p eligible u (id ∷ ids, left)
unfolding occurrences
reused-IsAssigned recyclable others eligible id p t u ids left last start sub (h, k, l) =
    let next = ap (λ r. r.next_page_id) start in
    (
      omega arith,
      λ j. omega (arith, k j, occurrences-remove eligible id j),
      λ j. rw next (
          omega (
            arith,
            l j,
            occurrences-split_last recyclable others id j last,
            occurrences-remove eligible id j,
            sub j,
          )),
    )

pub assign_nodes-IsAssigned :
    (count reused : ℕ) (recyclable eligible : List ℕ) (p q : Pages) (out : List ℕ × List ℕ)
    → ((j : ℕ) → occurrences recyclable j ≤ occurrences eligible j)
    → assign_nodes count reused recyclable eligible p ≡ (q, ok out)
    → IsAssigned p eligible q out
unfolding assign_nodes occurrences
assign_nodes-IsAssigned zero reused recyclable eligible p q out sub e =
    outcome-subst (IsAssigned p eligible) e (omega arith, λ j. omega arith, λ j. ground arith)
assign_nodes-IsAssigned (suc count) zero recyclable eligible p q out sub e =
    let (t, id, a, b) =
      bind-ok (λ r. new_page r (data_page_offset r.next_page_id))
        (λ id.
          assign_nodes count zero recyclable eligible >>= λ (ids, left). lift (ok (id ∷ ids, left)))
        p e in
    let (u, (ids, left), c, d) =
      bind-ok (assign_nodes count zero recyclable eligible)
        (λ (ids, left). lift (ok (id ∷ ids, left))) t b in
    let (next, new) = new_page-next p t (data_page_offset p.next_page_id) id a in
    let (h, k, l) = assign_nodes-IsAssigned count zero recyclable eligible t u (ids, left) sub c in
    outcome-subst (IsAssigned p eligible) d (omega arith, k, λ j. ground (arith, l j))
assign_nodes-IsAssigned (suc count) (suc reused) recyclable eligible p q out sub e =
    let (t, (others, id), a, b) =
      bind-ok (lift (last_or_panic (split_last recyclable)))
        (λ (others, id).
          (λ r. (record r { free_page_set = remove_from_set r.free_page_set id }, ok (tt {0})))
          >>= λ unset.
              assign_nodes count reused others (remove_page_id eligible id) >>= λ (ids, left).
              lift (ok (id ∷ ids, left)))
        p e in
    let (last, start) = last_or_panic-some p t (split_last recyclable) (others, id) a in
    let (u, (ids, left), c, d) =
      bind-ok (assign_nodes count reused others (remove_page_id eligible id))
        (λ (ids, left). lift (ok (id ∷ ids, left)))
        (record t { free_page_set = remove_from_set t.free_page_set id }) b in
    outcome-subst (IsAssigned p eligible) d (
      reused-IsAssigned recyclable others eligible id p t u ids left last start sub (
        assign_nodes-IsAssigned count reused others (remove_page_id eligible id)
          (record t { free_page_set = remove_from_set t.free_page_set id }) u (ids, left)
          (still_eligible recyclable others eligible id last sub) c))
