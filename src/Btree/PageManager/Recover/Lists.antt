-- ===== src/Btree/PageManager/Recover/Lists.antt =====
-- The lists that are loaded from a file: the loops end, and no page is on them twice.
use go_database.Base.{
  ℕ, ◌*◌, length, zero, suc, ◌+◌, ◌≤◌, ◌<◌, ◌≡◌, refl, ◌∙◌, false, ◌||◌, List, [], ◌∷◌, ◌++◌, ltb,
  ◌==◌, Bytes, arith, Bool-cases, inl, inr,
}
use go_database.Base.Result.{ok, Safe, Safe-bind, Safe-refuse, Safe-weaken}
use go_database.Btree.Disk.{invalid_page_data}
use go_database.Btree.FreeList.{has_zero, decode_ids}
use go_database.Btree.FreeList.Slices.{Safe-uint}
use go_database.Btree.PageManager.{contains_page_id}
use go_database.Btree.PageManager.Publish.{RootMetadata}
use go_database.Btree.PageManager.Counts.{
  occurrences, one_if, occurrences-append, contains-eq-occurrences,
}
use go_database.Btree.PageManager.Recover.{Loaded, add_entry, load_entries}

-- what is loaded so far: the entries seen are the free and the retired ones, no page is there twice,
-- and each is a page of the file other than the root
pub record IsLoaded (m : RootMetadata) (l : Loaded) : Type 0 where
  pub seen : (j : ℕ) → occurrences l.seen_entries j ≡ occurrences l.free j + occurrences l.retired j
  pub entries_once : (j : ℕ) → occurrences l.seen_entries j ≤ 1
  pub pages_once : (j : ℕ) → occurrences l.list_pages j ≤ 1
  pub in_file :
      (j : ℕ)
      → 0 < occurrences l.seen_entries j + occurrences l.list_pages j
      → (0 < j) × (j ≤ m.page_count) × ((j == m.root_page_id) ≡ false)

-- how many of the pages up to `n` are not on a list
unfoldable pub unseen : ℕ → List ℕ → ℕ
unseen zero l = 0
unseen (suc n) l = one_if (occurrences l (suc n) == 0) + unseen n l

pub unseen-add :
    (n id : ℕ) (l : List ℕ)
    → (unseen n (l ++ id ∷ []) ≤ unseen n l)
      × (0 < id → id ≤ n → occurrences l id ≡ 0 → suc (unseen n (l ++ id ∷ [])) ≤ unseen n l)
unfolding unseen occurrences
unseen-add zero id l = (omega arith, λ a b c. ground arith)
unseen-add (suc n) id l =
    let (h, k) = unseen-add n id l in
    let e = occurrences-append l (id ∷ []) (suc n) in
    (ground (arith, h, e), λ a b c. ground (arith, h, k, e, a, b, c))

add_entry-IsLoaded :
    (m : RootMetadata) (id : ℕ) (l : Loaded)
    → IsLoaded m l
    → 0 < id
    → id ≤ m.page_count
    → (id == m.root_page_id) ≡ false
    → contains_page_id l.seen_entries id ≡ false
    → IsLoaded m (add_entry m id l)
unfolding occurrences
add_entry-IsLoaded m id l w a b c d =
    let new : occurrences l.seen_entries id ≡ 0 =
      ground (arith, d, contains-eq-occurrences l.seen_entries id) in
    elim (Bool-cases (ltb l.sequence m.max_sequence)) [
      | inl y ↦ rw y (record {
        seen = λ j. ground (arith, w.seen j, occurrences-append l.free (id ∷ []) j);
        entries_once = λ j. ground (arith, w.entries_once j, new);
        pages_once = w.pages_once;
        in_file = λ j h. elim (Bool-cases (id == j)) [
          | inl z ↦ let e : id ≡ j = ground arith in rw (← e) (a, b, c)
          | inr z ↦ w.in_file j (ground (arith, h))
        ];
      })
      | inr n ↦ rw n (record {
        seen = λ j. ground (arith, w.seen j, occurrences-append l.retired (id ∷ []) j);
        entries_once = λ j. ground (arith, w.entries_once j, new);
        pages_once = w.pages_once;
        in_file = λ j h. elim (Bool-cases (id == j)) [
          | inl z ↦ let e : id ≡ j = ground arith in rw (← e) (a, b, c)
          | inr z ↦ w.in_file j (ground (arith, h))
        ];
      })
    ]

add_entry-pages :
    (m : RootMetadata) (id : ℕ) (l : Loaded) → (add_entry m id l).list_pages ≡ l.list_pages
add_entry-pages m id l = ground arith

pub load_entries-Safe :
    (m : RootMetadata) (ids : List ℕ) (l : Loaded)
    → has_zero ids ≡ false
    → IsLoaded m l
    → Safe (λ a. IsLoaded m a × (a.list_pages ≡ l.list_pages)) (load_entries m ids l)
unfolding load_entries has_zero
load_entries-Safe m [] l z w = (w, refl)
load_entries-Safe m (id ∷ ids) l z w =
    let add =
      λ (a : (ltb m.page_count id || id == m.root_page_id) ≡ false)
          (c : contains_page_id l.seen_entries id ≡ false).
        add_entry-IsLoaded m id l w (ground (arith, z)) (ground (arith, a)) (ground (arith, a)) c in
    Safe-refuse (λ a. IsLoaded m a × (a.list_pages ≡ l.list_pages))
      (ltb m.page_count id || id == m.root_page_id) invalid_page_data _
      (λ a.
        Safe-refuse (λ a. IsLoaded m a × (a.list_pages ≡ l.list_pages))
          (contains_page_id l.list_pages id) invalid_page_data _
          (λ b.
            Safe-refuse (λ a. IsLoaded m a × (a.list_pages ≡ l.list_pages))
              (contains_page_id l.seen_entries id) invalid_page_data _
              (λ c.
                Safe-weaken (λ r. IsLoaded m r × (r.list_pages ≡ (add_entry m id l).list_pages))
                  (λ r. IsLoaded m r × (r.list_pages ≡ l.list_pages))
                  (load_entries m ids (add_entry m id l))
                  (load_entries-Safe m ids (add_entry m id l) (ground (arith, z)) (add a c))
                  (λ r (v, e). (v, e ∙ add_entry-pages m id l)))))

pub decode_ids-Safe :
    (n at : ℕ) (page : Bytes)
    → at + 8 * n ≤ length page
    → Safe (λ ids. has_zero ids ≡ false) (decode_ids n at page)
unfolding decode_ids has_zero
decode_ids-Safe zero at page h = refl
decode_ids-Safe (suc n) at page h =
    let P = λ (ids : List ℕ). has_zero ids ≡ false in
    Safe-uint P 8 at page _ (omega arith) (λ id. Safe-refuse P (id == 0) invalid_page_data _ (λ a.
      Safe-bind P P (decode_ids n (at + 8) page) (λ ids. ok (id ∷ ids))
        (decode_ids-Safe n (at + 8) page (omega arith)) (λ ids z. ground (arith, a, z))))

-- what is loaded from the file
abbrev pub AreLists : RootMetadata → Type 0
AreLists m =
    (j : ℕ)
    → (occurrences m.free_page_ids j
          + occurrences m.retired_page_ids j
          + occurrences m.free_list_page_ids j
        ≤ 1)
      × (0
            < occurrences m.free_page_ids j
              + occurrences m.retired_page_ids j
              + occurrences m.free_list_page_ids j
          → (0 < j) × (j ≤ m.page_count) × ((j == m.root_page_id) ≡ false))
