-- ===== src/Btree/PageManager/Recover/Nodes.antt =====
-- The loop over the nodes of the free list ends.
use go_database.Base.{
  ℕ, zero, suc, ◌≤◌, ◌<◌, ◌≡◌, Bool, true, false, not, ◌&&◌, ◌||◌, [], ◌∷◌, ◌++◌, ltb, ◌==◌,
  if◌then◌else◌, length, take, drop, Bytes, beq, le, arith, Bool-cases, inl, inr,
}
use go_database.Base.Result.{
  Result, ok, err, panic, ◌>>=◌, ◌>>◌, refuse, Safe, Safe-bind, Safe-refuse,
}
use go_database.Btree.Disk.{
  PageError, invalid_page_data, invalid_page_size, unexpected_eof, Disk, page_size,
  data_page_offset,
}
use go_database.Btree.FreeList.{
  FreeListNode, capacity, magic, uint, has_zero, decode_ids, decode_free_list_node,
  read_raw_data_page,
}
use go_database.Btree.FreeList.Slices.{Safe-slice, Safe-uint}
use go_database.Btree.PageManager.{contains_page_id}
use go_database.Btree.PageManager.Publish.{RootMetadata}
use go_database.Btree.PageManager.Counts.{occurrences, occurrences-append, contains-eq-occurrences}
use go_database.Btree.PageManager.Recover.{
  Loaded, load_entries, as_invalid, load_node, read_node, load_nodes,
}
use go_database.Btree.PageManager.Recover.Lists.{
  IsLoaded, unseen, unseen-add, load_entries-Safe, decode_ids-Safe,
}

NonZero : FreeListNode → Type 0
NonZero node = has_zero node.page_ids ≡ false

module _ (disk : Disk)
    (reads : (f : disk.File) (at : ℕ) → Safe (λ bytes. Unit {0}) (disk.read_at f at)) where
  decode-Safe : (page : Bytes) → Safe NonZero (decode_free_list_node disk page)
  unfolding decode_free_list_node NonZero
  decode-Safe page = Safe-refuse NonZero (not (length page == page_size)) invalid_page_size _ (λ a.
      let full : length page ≡ page_size = ground (arith, a) in
      Safe-slice NonZero 4 0 page _ (omega arith) (λ name.
        Safe-uint NonZero 2 4 page _ (omega arith) (λ version.
          Safe-refuse NonZero (not (beq name magic && version == 1)) invalid_page_data _ (λ b.
            Safe-uint NonZero 4 24 page _ (omega arith) (λ sum.
              Safe-refuse NonZero
                (not (disk.checksum (take 24 page ++ (le 4 0 ++ drop 28 page)) == sum))
                invalid_page_data _
                (λ c. Safe-uint NonZero 2 6 page _ (omega arith) (entries page full)))))))
    where
      entries :
          (page : Bytes)
          → length page ≡ page_size
          → (count : ℕ)
          → Safe NonZero (
              refuse (count == 0 || ltb capacity count) invalid_page_data
              >> (uint 8 8 page >>= λ next. uint 8 16 page >>= λ sequence.
                  decode_ids count 32 page >>= λ ids.
                  ok (record { next_page_id = next; sequence = sequence; page_ids = ids })))
      entries page full count =
          Safe-refuse NonZero (count == 0 || ltb capacity count) invalid_page_data _ (λ d.
            let few : count ≤ capacity = ground (arith, d) in
            Safe-uint NonZero 8 8 page _ (omega arith) (λ next.
              Safe-uint NonZero 8 16 page _ (omega arith) (λ sequence.
                Safe-bind (λ ids. has_zero ids ≡ false) NonZero (decode_ids count 32 page) _
                  (decode_ids-Safe count 32 page (omega arith)) (λ ids z. z))))

  as_invalid-Safe :
      (r : Result PageError FreeListNode) → Safe NonZero r → Safe NonZero (as_invalid r)
  as_invalid-Safe (ok node) h = h
  as_invalid-Safe (err e) h = tt
  as_invalid-Safe panic h = h

  read_raw_data_page-Safe :
      (f : disk.File) (id : ℕ) → Safe (λ page. Unit {0}) (read_raw_data_page disk f id)
  unfolding read_raw_data_page data_page_offset
  read_raw_data_page-Safe f id =
      Safe-bind (λ offset. Unit {0}) (λ page. Unit {0}) (data_page_offset id) _ (ground arith)
        (λ offset u.
          Safe-bind (λ page. Unit {0}) (λ page. Unit {0}) (disk.read_at f offset) _ (reads f offset)
            (λ page v. full (length page == page_size) page))
    where
      full :
          (b : Bool) (page : Bytes)
          → Safe (λ p. Unit {0}) (if b then ok page else err unexpected_eof)
      full true page = tt
      full false page = tt

  read_node-Safe : (f : disk.File) (id : ℕ) → Safe NonZero (read_node disk f id)
  read_node-Safe f id =
      Safe-bind (λ page. Unit {0}) NonZero (read_raw_data_page disk f id)
        (λ page. as_invalid (decode_free_list_node disk page)) (read_raw_data_page-Safe f id)
        (λ page u. as_invalid-Safe (decode_free_list_node disk page) (decode-Safe page))

  listed-IsLoaded :
      (m : RootMetadata) (id : ℕ) (l : Loaded)
      → IsLoaded m l
      → 0 < id
      → id ≤ m.page_count
      → (id == m.root_page_id) ≡ false
      → contains_page_id l.list_pages id ≡ false
      → IsLoaded m (record l { list_pages = l.list_pages ++ id ∷ [] })
  unfolding occurrences
  listed-IsLoaded m id l w a b c d =
      let new : occurrences l.list_pages id ≡ 0 =
        ground (arith, d, contains-eq-occurrences l.list_pages id) in
      let occ = λ (j : ℕ). occurrences-append l.list_pages (id ∷ []) j in
      record {
        seen = w.seen;
        entries_once = w.entries_once;
        pages_once = λ j. ground (arith, occ j, w.pages_once j, new);
        in_file = λ j h. elim (Bool-cases (id == j)) [
          | inl z ↦ let e : id ≡ j = ground arith in rw (← e) (a, b, c)
          | inr z ↦ w.in_file j (ground (arith, h, occ j))
        ];
      }

  -- a node has been added
  IsStep : RootMetadata → ℕ → Loaded → Loaded → Type 0
  IsStep m id l after = IsLoaded m after × (after.list_pages ≡ l.list_pages ++ id ∷ [])

  load_node-Safe :
      (m : RootMetadata) (id : ℕ) (node : FreeListNode) (l : Loaded)
      → NonZero node
      → IsLoaded m (record l { list_pages = l.list_pages ++ id ∷ [] })
      → Safe (IsStep m id l) (load_node m id node l)
  unfolding IsStep NonZero
  load_node-Safe m id node l z w =
      Safe-refuse (IsStep m id l) (not (node.sequence == l.sequence)) invalid_page_data _ (λ a.
        Safe-bind (IsStep m id l) (IsStep m id l)
          (load_entries m node.page_ids (record l { list_pages = l.list_pages ++ id ∷ [] })) _
          (load_entries-Safe m node.page_ids (record l { list_pages = l.list_pages ++ id ∷ [] }) z
            w)
          (λ after s.
            Safe-refuse (IsStep m id l)
              (node.next_page_id == 0 && not (id == m.free_list_tail_page_id)) invalid_page_data _
              (λ b. s)))

  pub load_nodes-Safe :
      (fuel : ℕ) (f : disk.File) (m : RootMetadata) (id : ℕ) (l : Loaded)
      → IsLoaded m l
      → unseen m.page_count l.list_pages < fuel
      → Safe (IsLoaded m) (load_nodes disk fuel f m id l)
  unfolding load_nodes IsStep
  load_nodes-Safe zero f m id l w h = absurd (omega arith)
  load_nodes-Safe (suc fuel) f m id l w h = elim (Bool-cases (id == 0)) [
    | inl y ↦ rw y w
    | inr n ↦ rw n (
        Safe-refuse (IsLoaded m) (ltb m.page_count id || id == m.root_page_id) invalid_page_data _
          (λ a.
            Safe-refuse (IsLoaded m) (contains_page_id l.list_pages id) invalid_page_data _ (λ b.
              Safe-bind NonZero (IsLoaded m) (read_node disk f id) _ (read_node-Safe f id)
                (λ node z.
                  Safe-bind (IsStep m id l) (IsLoaded m) (load_node m id node l)
                    (λ after. load_nodes disk fuel f m node.next_page_id after)
                    (load_node-Safe m id node l z (
                      listed-IsLoaded m id l w (ground (arith, n)) (ground (arith, a))
                        (ground (arith, a)) b))
                    (λ after (v, e).
                      let none_yet : occurrences l.list_pages id ≡ 0 =
                        ground (arith, b, contains-eq-occurrences l.list_pages id) in
                      let less =
                        (unseen-add m.page_count id l.list_pages).1 (ground (arith, n))
                          (ground (arith, a)) none_yet in
                      load_nodes-Safe fuel f m node.next_page_id after v (rw e (omega arith)))))))
  ]
