-- ===== src/Btree/PageManager/Recover/Versions.antt =====
-- What is read from a metadata slot, of each version of its format.
use go_database.Base.{
  ℕ, ◌*◌, length, zero, suc, ◌+◌, ◌-◌, ◌/◌, ◌≤◌, ◌<◌, ◌≡◌, refl, false, not, ◌||◌, List, [], ◌∷◌,
  ◌++◌, ltb, ◌==◌, Bytes, arith, Bool-cases, inl, inr,
}
use go_database.Base.Result.{ok, Safe, Safe-bind, Safe-refuse}
use go_database.Btree.Disk.{invalid_page_data, Disk, page_size, metadata_size}
use go_database.Btree.FreeList.Slices.{Safe-uint}
use go_database.Btree.PageManager.{contains_page_id}
use go_database.Btree.PageManager.Publish.{RootMetadata}
use go_database.Btree.PageManager.Counts.{
  occurrences, one_if, occurrences-append, contains-eq-occurrences,
}
use go_database.Btree.PageManager.Recover.{
  Loaded, meet, load_nodes, nothing_loaded, with_lists, load_free_list_metadata, bare,
  bare_metadata, legacy_metadata, current_metadata, load_legacy, versioned,
}
use go_database.Btree.PageManager.Recover.Lists.{IsLoaded, AreLists, unseen}
use go_database.Btree.PageManager.Recover.Nodes.{load_nodes-Safe}

meet-apart :
    (xs ys : List ℕ) (j : ℕ) → meet xs ys ≡ false → 0 < occurrences xs j → occurrences ys j ≡ 0
unfolding meet occurrences
meet-apart [] ys j e h = ground arith
meet-apart (x ∷ xs) ys j e h =
    ground (arith, e, h, contains-eq-occurrences ys x, meet-apart xs ys j)

unseen-le : (n : ℕ) → unseen n [] ≤ n
unfolding unseen occurrences
unseen-le zero = omega arith
unseen-le (suc n) = omega (arith, unseen-le n)

with_lists-AreLists :
    (disk : Disk) (m : RootMetadata) (l : Loaded)
    → IsLoaded m l
    → meet l.list_pages l.seen_entries ≡ false
    → AreLists (with_lists disk m l)
with_lists-AreLists disk m l w e j =
    let apart = meet-apart l.list_pages l.seen_entries j e in
    (
      ground (arith, apart, w.seen j, w.entries_once j, w.pages_once j),
      λ h. w.in_file j (omega (arith, w.seen j)),
    )

nothing_loaded-IsLoaded : (disk : Disk) (m : RootMetadata) → IsLoaded m (nothing_loaded disk m)
unfolding occurrences
nothing_loaded-IsLoaded disk m = record {
  seen = λ j. omega arith;
  entries_once = λ j. omega arith;
  pages_once = λ j. omega arith;
  in_file = λ j h. absurd (omega arith);
}

-- the ids of version 2 that have been seen are those on the lists
pub record IsLegacy (seen : List ℕ) (m : RootMetadata) : Type 0 where
  pub on_lists :
      (j : ℕ)
      → occurrences seen j ≡ occurrences m.free_page_ids j + occurrences m.retired_page_ids j
  pub once : (j : ℕ) → occurrences seen j ≤ 1
  pub no_nodes : (j : ℕ) → occurrences m.free_list_page_ids j ≡ 0
  pub in_file :
      (j : ℕ)
      → 0 < occurrences seen j
      → (0 < j) × (j ≤ m.page_count) × ((j == m.root_page_id) ≡ false)

legacy-AreLists : (seen : List ℕ) (m : RootMetadata) → IsLegacy seen m → AreLists m
legacy-AreLists seen m w j = (
  omega (arith, w.on_lists j, w.once j, w.no_nodes j),
  λ h. w.in_file j (omega (arith, w.on_lists j, w.no_nodes j)),
)

load_legacy-Safe :
    (disk : Disk) (n free pos : ℕ) (page : Bytes) (seen : List ℕ) (m : RootMetadata)
    → IsLegacy seen m
    → pos + 8 * n ≤ length page
    → Safe
        (λ r. AreLists r × (r.page_count ≡ m.page_count))
        (load_legacy disk n free pos page seen m)
unfolding load_legacy occurrences
load_legacy-Safe disk zero free pos page seen m w l = (legacy-AreLists seen m w, refl)
load_legacy-Safe disk (suc n) free pos page seen m w l =
    Safe-uint (λ r. AreLists r × (r.page_count ≡ m.page_count)) 8 pos page _ (omega arith)
      (λ id.
        Safe-refuse (λ r. AreLists r × (r.page_count ≡ m.page_count))
          (id == 0 || ltb m.page_count id || id == m.root_page_id) invalid_page_data _
          (λ a.
            Safe-refuse (λ r. AreLists r × (r.page_count ≡ m.page_count)) (contains_page_id seen id)
              invalid_page_data _
              (λ b. elim (Bool-cases (free == 0)) [
                | inl y ↦ rw y (
                    load_legacy-Safe disk n (free - 1) (pos + 8) page (id ∷ seen)
                      (record m { retired_page_ids = m.retired_page_ids ++ id ∷ [] })
                      (record {
                        on_lists = λ j. omega (
                          arith,
                          w.on_lists j,
                          occurrences-append m.retired_page_ids (id ∷ []) j,
                        );
                        once = λ j. new_once seen id j b (w.once j);
                        no_nodes = w.no_nodes;
                        in_file = λ j h. new_in_file seen m id j w a h;
                      })
                      (omega arith))
                | inr z ↦ rw z (
                    load_legacy-Safe disk n (free - 1) (pos + 8) page (id ∷ seen)
                      (record m { free_page_ids = m.free_page_ids ++ id ∷ [] })
                      (record {
                        on_lists = λ j.
                            omega
                              (arith, w.on_lists j, occurrences-append m.free_page_ids (id ∷ []) j);
                        once = λ j. new_once seen id j b (w.once j);
                        no_nodes = w.no_nodes;
                        in_file = λ j h. new_in_file seen m id j w a h;
                      })
                      (omega arith))
              ])))
  where
    new_once :
        (seen : List ℕ) (id j : ℕ)
        → contains_page_id seen id ≡ false
        → occurrences seen j ≤ 1
        → one_if (id == j) + occurrences seen j ≤ 1
    new_once seen id j b o = ground (arith, b, o, contains-eq-occurrences seen id)

    new_in_file :
        (seen : List ℕ) (m : RootMetadata) (id j : ℕ)
        → IsLegacy seen m
        → (id == 0 || ltb m.page_count id || id == m.root_page_id) ≡ false
        → 0 < one_if (id == j) + occurrences seen j
        → (0 < j) × (j ≤ m.page_count) × ((j == m.root_page_id) ≡ false)
    new_in_file seen m id j w a h = elim (Bool-cases (id == j)) [
      | inl z ↦
          let e : id ≡ j = ground arith in
          rw (← e) (ground (arith, a), ground (arith, a), ground (arith, a))
      | inr z ↦ w.in_file j (ground (arith, h))
    ]

module _ (disk : Disk)
    (reads : (f : disk.File) (at : ℕ) → Safe (λ bytes. Unit {0}) (disk.read_at f at)) where
  load_free_list_metadata-Safe :
      (f : disk.File) (m : RootMetadata)
      → AreLists m
      → Safe (λ r. AreLists r × (r.page_count ≡ m.page_count)) (load_free_list_metadata disk f m)
  unfolding load_free_list_metadata
  load_free_list_metadata-Safe f m w = elim (Bool-cases (m.free_list_head_page_id == 0)) [
    | inl y ↦ rw y (
        Safe-refuse (λ r. AreLists r × (r.page_count ≡ m.page_count))
          (not (m.free_list_tail_page_id == 0)
            || not (m.head_sequence == 0)
            || not (m.tail_sequence == 0)
            || not (m.max_sequence == 0))
          invalid_page_data (ok m) (λ a. (w, refl)))
    | inr n ↦ rw n (
        Safe-refuse (λ r. AreLists r × (r.page_count ≡ m.page_count))
          (m.free_list_tail_page_id == 0
            || ltb m.max_sequence m.head_sequence
            || ltb m.tail_sequence m.max_sequence)
          invalid_page_data _
          (λ a.
            Safe-bind (IsLoaded m) (λ r. AreLists r × (r.page_count ≡ m.page_count))
              (load_nodes disk (suc m.page_count) f m m.free_list_head_page_id
                (nothing_loaded disk m))
              _
              (load_nodes-Safe disk reads (suc m.page_count) f m m.free_list_head_page_id
                (nothing_loaded disk m) (nothing_loaded-IsLoaded disk m)
                (omega (arith, unseen-le m.page_count)))
              (λ l v.
                Safe-refuse (λ r. AreLists r × (r.page_count ≡ m.page_count))
                  (not (l.sequence == m.tail_sequence)) invalid_page_data _
                  (λ b.
                    Safe-refuse (λ r. AreLists r × (r.page_count ≡ m.page_count))
                      (meet l.list_pages l.seen_entries) invalid_page_data
                      (ok (with_lists disk m l)) (λ c. (with_lists-AreLists disk m l v c, refl))))))
  ]

  -- what is read: well-formed lists, of pages that the file has
  abbrev pub IsRead : disk.File → RootMetadata → Type 0
  IsRead f m =
      AreLists m
      × ((size : ℕ) → disk.stat f ≡ ok size → m.page_count ≤ (size - metadata_size) / page_size)

  bare-IsLegacy :
      (generation root_page_id page_count : ℕ)
      → IsLegacy [] (bare disk generation root_page_id page_count)
  unfolding occurrences
  bare-IsLegacy generation root_page_id page_count = record {
    on_lists = λ j. omega arith;
    once = λ j. omega arith;
    no_nodes = λ j. omega arith;
    in_file = λ j h. absurd (omega arith);
  }

  pub bare_metadata-Safe :
      (page : Bytes) → length page ≡ page_size → Safe (IsLegacy []) (bare_metadata disk page)
  bare_metadata-Safe page full =
      Safe-uint (IsLegacy []) 8 8 page _ (omega (arith, full)) (λ generation.
        Safe-uint (IsLegacy []) 8 16 page _ (omega (arith, full)) (λ root.
          Safe-uint (IsLegacy []) 8 24 page _ (omega (arith, full))
            (bare-IsLegacy generation root)))

  legacy_metadata-Safe :
      (page : Bytes) (m : RootMetadata)
      → length page ≡ page_size
      → IsLegacy [] m
      → Safe (λ r. AreLists r × (r.page_count ≡ m.page_count)) (legacy_metadata disk page m)
  legacy_metadata-Safe page m full w =
      let Q = λ (r : RootMetadata). AreLists r × (r.page_count ≡ m.page_count) in
      Safe-uint Q 2 32 page _ (omega (arith, full)) (λ free.
        Safe-uint Q 2 34 page _ (omega (arith, full)) (λ retired.
          Safe-refuse Q (ltb 507 (free + retired)) invalid_page_data _ (λ a.
            load_legacy-Safe disk (free + retired) free 40 page [] m w (ground (arith, a, full)))))

  current_metadata-Safe :
      (f : disk.File) (page : Bytes) (m : RootMetadata)
      → length page ≡ page_size
      → IsLegacy [] m
      → Safe (λ r. AreLists r × (r.page_count ≡ m.page_count)) (current_metadata disk f page m)
  current_metadata-Safe f page m full w =
      let Q = λ (r : RootMetadata). AreLists r × (r.page_count ≡ m.page_count) in
      Safe-uint Q 8 32 page _ (omega (arith, full)) (λ head.
        Safe-uint Q 8 40 page _ (omega (arith, full)) (λ tail.
          Safe-uint Q 8 48 page _ (omega (arith, full)) (λ head_sequence.
            Safe-uint Q 8 56 page _ (omega (arith, full)) (λ tail_sequence.
              Safe-uint Q 8 64 page _ (omega (arith, full))
                (λ max_sequence. load_free_list_metadata-Safe f _ (legacy-AreLists [] m w))))))

  pub versioned-Safe :
      (version : ℕ) (f : disk.File) (page : Bytes) (m : RootMetadata)
      → length page ≡ page_size
      → IsLegacy [] m
      → Safe (λ r. AreLists r × (r.page_count ≡ m.page_count)) (versioned disk version f page m)
  versioned-Safe version f page m full w = elim (Bool-cases (version == 2)) [
    | inl y ↦ rw y (legacy_metadata-Safe page m full w)
    | inr n ↦ rw n (elim (Bool-cases (version == 3)) [
      | inl y ↦ rw y (current_metadata-Safe f page m full w)
      | inr k ↦ rw k (legacy-AreLists [] m w, refl)
    ])
  ]
