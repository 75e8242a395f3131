-- ===== src/Btree/PageManager/Recover/Opened.antt =====
-- A page manager that is opened from a file.
use go_database.Base.{
  ℕ, ◌≤◌, [], drop, ◌+◌, ◌-◌, ◌*◌, ◌/◌, ◌%◌, ◌<◌, ◌≡◌, refl, sym, ◌∙◌, not, ◌&&◌, ◌||◌, Option,
  none, some, ltb, leb, ◌==◌, length, Bytes, beq, codes, arith, Bool-cases, inl, inr,
}
use go_database.Base.Result.{
  Result, ok, err, panic, ◌>>=◌, ◌>>◌, refuse, ok-injective, Safe, Safe-bind, Safe-refuse,
  Safe-self, Safe-weaken,
}
use go_database.Btree.Disk.{
  PageError, invalid_page_id, invalid_page_data, invalid_page_size, file_error, unexpected_eof,
  short_write, Disk, page_size, metadata_size,
}
use go_database.Btree.FreeList.Slices.{Safe-slice, Safe-uint}
use go_database.Btree.PageManager.Publish.{RootMetadata}
use go_database.Btree.PageManager.Counts.{occurrences}
use go_database.Btree.PageManager.Free.{IsManager}
use go_database.Btree.PageManager.Recover.{
  bare_metadata, versioned, sum_matches, checksum_matches, read_root_metadata_slot, newer,
  with_slot, best_or_none, read_root_metadata, bad_free_page, opened, open_pages,
}
use go_database.Btree.PageManager.Recover.Lists.{AreLists}
use go_database.Btree.PageManager.Recover.Versions.{
  IsLegacy, IsRead, bare_metadata-Safe, versioned-Safe,
}

module _ (disk : Disk)
    (reads : (f : disk.File) (at : ℕ) → Safe (λ bytes. Unit {0}) (disk.read_at f at))
    (stats : (f : disk.File) → Safe (λ size. Unit {0}) (disk.stat f)) where
  sized-Safe :
      (f : disk.File) (page : Bytes) (version : ℕ) (m : RootMetadata) (size : ℕ)
      → length page ≡ page_size
      → IsLegacy [] m
      → disk.stat f ≡ ok size
      → Safe (IsRead disk reads f) (
          refuse
            (ltb size metadata_size || ltb ((size - metadata_size) / page_size) m.page_count)
            invalid_page_data
          >> versioned disk version f page m)
  sized-Safe f page version m size full w e =
      Safe-refuse (IsRead disk reads f)
        (ltb size metadata_size || ltb ((size - metadata_size) / page_size) m.page_count)
        invalid_page_data (versioned disk version f page m)
        (λ a.
          Safe-weaken (λ r. AreLists r × (r.page_count ≡ m.page_count)) (IsRead disk reads f)
            (versioned disk version f page m) (versioned-Safe disk reads version f page m full w)
            (λ r (v, c). (
              v,
              λ other q.
                  let same : other ≡ size = ok-injective (sym q ∙ e) in
                  rw (same, c) (ground (arith, a)),
            )))

  sum_matches-Safe :
      (at : ℕ) (rest page : Bytes)
      → at + 4 ≤ length page
      → Safe (λ b. Unit {0}) (sum_matches disk at rest page)
  sum_matches-Safe at rest page h = Safe-uint (λ b. Unit {0}) 4 at page _ h (λ sum. tt)

  checksum_matches-Safe :
      (version : ℕ) (page : Bytes)
      → length page ≡ page_size
      → Safe (λ b. Unit {0}) (checksum_matches disk version page)
  checksum_matches-Safe version page full = elim (Bool-cases (version == 1)) [
    | inl y ↦ rw y (sum_matches-Safe 32 [] page (omega (arith, full)))
    | inr n ↦ rw n (elim (Bool-cases (version == 2)) [
      | inl y ↦ rw y (sum_matches-Safe 36 (drop 40 page) page (omega (arith, full)))
      | inr k ↦ rw k (sum_matches-Safe 72 (drop 76 page) page (omega (arith, full)))
    ])
  ]

  -- from the metadata on
  checked-Safe :
      (f : disk.File) (page : Bytes) (version : ℕ)
      → length page ≡ page_size
      → Safe (IsRead disk reads f) (
          bare_metadata disk page >>= λ m.
          refuse (ltb m.page_count m.root_page_id) invalid_page_data
          >> (disk.stat f >>= λ size.
              refuse
                (ltb size metadata_size || ltb ((size - metadata_size) / page_size) m.page_count)
                invalid_page_data
              >> versioned disk version f page m))
  checked-Safe f page version full =
      Safe-bind (IsLegacy []) (IsRead disk reads f) (bare_metadata disk page) _
        (bare_metadata-Safe disk reads page full)
        (λ m w.
          Safe-refuse (IsRead disk reads f) (ltb m.page_count m.root_page_id) invalid_page_data _
            (λ e.
              Safe-bind (λ size. disk.stat f ≡ ok size) (IsRead disk reads f) (disk.stat f) _
                (Safe-self (disk.stat f) (stats f))
                (λ size. sized-Safe f page version m size full w)))

  slot-Safe :
      (f : disk.File) (slot : ℕ) → Safe (IsRead disk reads f) (read_root_metadata_slot disk f slot)
  unfolding read_root_metadata_slot
  slot-Safe f slot =
      let Q = IsRead disk reads f in
      Safe-bind (λ page. Unit {0}) Q (disk.read_at f (slot * page_size)) _
        (reads f (slot * page_size))
        (λ page u. Safe-refuse Q (not (length page == page_size)) unexpected_eof _ (λ a.
          let full : length page ≡ page_size = ground (arith, a) in
          Safe-slice Q 4 0 page _ (omega (arith, full)) (λ name.
            Safe-refuse Q (not (beq name (codes "GDBM"))) invalid_page_data _ (λ b.
              Safe-uint Q 2 4 page _ (omega (arith, full)) (λ version.
                Safe-refuse Q (not (version == 1) && not (version == 2) && not (version == 3))
                  invalid_page_data _
                  (λ c.
                    Safe-bind (λ b. Unit {0}) Q (checksum_matches disk version page) _
                      (checksum_matches-Safe version page full)
                      (λ intact v.
                        Safe-refuse Q (not intact) invalid_page_data _
                          (λ d. checked-Safe f page version full))))))))

  abbrev BestIsRead : disk.File → Option RootMetadata → Type 0
  BestIsRead f none = Unit
  BestIsRead f (some m) = IsRead disk reads f m

  newer-BestIsRead :
      (f : disk.File) (best : Option RootMetadata) (m : RootMetadata)
      → BestIsRead f best
      → IsRead disk reads f m
      → BestIsRead f (newer disk best m)
  newer-BestIsRead f none m b w = w
  newer-BestIsRead f (some best) m b w = elim (Bool-cases (ltb best.generation m.generation)) [
    | inl y ↦ rw y w
    | inr n ↦ rw n b
  ]

  with_slot-Safe :
      (f : disk.File) (best : Option RootMetadata) (r : Result PageError RootMetadata)
      → BestIsRead f best
      → Safe (IsRead disk reads f) r
      → Safe (BestIsRead f) (with_slot disk best r)
  with_slot-Safe f best (ok m) b w = newer-BestIsRead f best m b w
  with_slot-Safe f best (err invalid_page_data) b w = b
  with_slot-Safe f best (err invalid_page_id) b w = tt
  with_slot-Safe f best (err invalid_page_size) b w = tt
  with_slot-Safe f best (err file_error) b w = tt
  with_slot-Safe f best (err unexpected_eof) b w = tt
  with_slot-Safe f best (err short_write) b w = tt
  with_slot-Safe f best panic b w = w

  best_or_none-Safe :
      (f : disk.File) (best : Option RootMetadata)
      → BestIsRead f best
      → Safe (IsRead disk reads f) (best_or_none disk best)
  best_or_none-Safe f none b = tt
  best_or_none-Safe f (some m) b = b

  read_root_metadata-Safe : (f : disk.File) → Safe (IsRead disk reads f) (read_root_metadata disk f)
  unfolding read_root_metadata
  read_root_metadata-Safe f =
      Safe-bind (BestIsRead f) (IsRead disk reads f)
        (with_slot disk none (read_root_metadata_slot disk f 0)) _
        (with_slot-Safe f none (read_root_metadata_slot disk f 0) tt (slot-Safe f 0))
        (λ first b.
          Safe-bind (BestIsRead f) (IsRead disk reads f)
            (with_slot disk first (read_root_metadata_slot disk f 1)) _
            (with_slot-Safe f first (read_root_metadata_slot disk f 1) b (slot-Safe f 1))
            (best_or_none-Safe f))

  opened-IsManager :
      (m : RootMetadata) (next : ℕ)
      → AreLists m
      → m.page_count < next
      → IsManager (opened disk m next)
  unfolding occurrences
  opened-IsManager m next w h = record {
    positive = omega arith;
    once = λ j. ground (arith, (w j).0);
    allocated = λ j k. let (a, b, c) = (w j).1 (omega arith) in (a, omega arith);
    set_of_free = λ j. refl;
  }

  -- Opening a file does not panic, where reading the file and its size do not, whatever the file
  -- holds; the loop over the pages of the free list ends. If the file is accepted, no page is on the
  -- lists of the manager twice, and those that are on them are pages of the file.
  pub open_pages-Safe : (f : disk.File) → Safe IsManager (open_pages disk f)
  unfolding open_pages
  open_pages-Safe f =
      Safe-bind (λ size. disk.stat f ≡ ok size) IsManager (disk.stat f) _
        (Safe-self (disk.stat f) (stats f))
        (λ size e.
          Safe-refuse IsManager
            (ltb size metadata_size || not ((size - metadata_size) % page_size == 0))
            invalid_page_data _
            (λ a.
              Safe-bind (IsRead disk reads f) IsManager (read_root_metadata disk f) _
                (read_root_metadata-Safe f)
                (λ m w.
                  let next = (size - metadata_size) / page_size + 1 in
                  Safe-refuse IsManager (not (m.root_page_id == 0) && leb next m.root_page_id)
                    invalid_page_id _
                    (λ b.
                      Safe-refuse IsManager (bad_free_page disk m next m.free_page_ids)
                        invalid_page_data (ok (opened disk m next))
                        (λ c. opened-IsManager m next w.0 (omega (arith, w.1 size e)))))))
