-- ===== src/Btree/FreeList/RoundTrip.antt =====
-- A page of the free list is decoded to the node that was encoded.
use go_database.Base.{
  ℕ, zero, suc, ◌+◌, sym, ◌∙◌, ap, length-drop, ◌-◌, ◌*◌, ◌^◌, ◌≤◌, ◌<◌, ◌≡◌, refl, true, false,
  ◌||◌, List, [], ◌∷◌, ◌++◌, ltb, ◌==◌, length, take, drop, replicate, length-append,
  length-replicate, Bytes, beq_refl, le, le_value, le_value-le, length-le, arith,
}
use go_database.Base.Result.{ok, refuse-then, ok-injective}
use go_database.Btree.Disk.{invalid_page_data, Disk, page_size}
use go_database.Btree.FreeList.Slices.{slice-eq-read, uint-eq-read}
use go_database.Btree.FreeList.{
  capacity, FreeListNode, encode_ids, node_page, has_zero, read, decode_ids, encode_free_list_node,
  decode_free_list_node, magic,
}

-- every element is a `uint64`
abbrev pub AreWords : List ℕ → Type 0
AreWords [] = Unit
AreWords (id ∷ ids) = (id < 256 ^ 8) × AreWords ids

length-encode_ids : (ids : List ℕ) → length (encode_ids ids) ≡ 8 * length ids
unfolding encode_ids
length-encode_ids [] = omega arith
length-encode_ids (id ∷ ids) =
    omega (arith, length-append (le 8 id) (encode_ids ids), length-le 8 id, length-encode_ids ids)

drop-empty : (n : ℕ) → drop {A = ℕ} n [] ≡ []
drop-empty zero = refl
drop-empty (suc n) = refl

drop-add : (m n : ℕ) (xs : Bytes) → drop (m + n) xs ≡ drop n (drop m xs)
drop-add zero n xs = ap (λ k. drop k xs) (omega arith)
drop-add (suc m) n [] = let e : suc m + n ≡ suc (m + n) = omega arith in rw e (sym (drop-empty n))
drop-add (suc m) n (x ∷ xs) =
    let e : suc m + n ≡ suc (m + n) = omega arith in rw e (drop-add m n xs)

take_word :
    (id : ℕ) (xs rest : Bytes)
    → (take 8 (le 8 id ++ xs ++ rest) ≡ le 8 id)
      × (drop 8 (le 8 id ++ xs ++ rest) ≡ xs ++ rest)
      × (8 ≤ length (le 8 id ++ xs ++ rest))
unfolding le
take_word id xs rest = (refl, refl, omega arith)

-- the ids stand on the page from `at` on
decode-encode_ids :
    (ids : List ℕ) (at : ℕ) (page rest : Bytes)
    → has_zero ids ≡ false
    → AreWords ids
    → drop at page ≡ encode_ids ids ++ rest
    → decode_ids (length ids) at page ≡ ok ids
unfolding decode_ids encode_ids has_zero read
decode-encode_ids [] at page rest z w s = refl
decode-encode_ids (id ∷ ids) at page rest z w s =
    let t = take_word id (encode_ids ids) rest in
    let n : (id == 0) ≡ false = ground (arith, z) in
    let y : has_zero ids ≡ false = ground (arith, z) in
    let long : at + 8 ≤ length page = omega (arith, length-drop at page, ap length s, t.2) in
    let first : read 8 at page ≡ le 8 id = ap (take 8) s ∙ t.0 in
    let behind : drop (at + 8) page ≡ encode_ids ids ++ rest =
      drop-add at 8 page ∙ ap (drop 8) s ∙ t.1 in
    rw
      (
        uint-eq-read 8 at page long,
        first,
        le_value-le 8 id w.0,
        n,
        decode-encode_ids ids (at + 8) page rest y w.1 behind,
      )
      refl

length-zeros : (n : ℕ) → length (replicate {A = ℕ} n 0) ≡ n
length-zeros n = length-replicate {A = ℕ} n 0

eq_refl : (n : ℕ) → (n == n) ≡ true
eq_refl n = ground arith

module _ (disk : Disk) (uint32 : (bytes : Bytes) → disk.checksum bytes < 256 ^ 4) where
  length-node_page :
      (sum : ℕ) (node : FreeListNode)
      → length node.page_ids ≤ capacity
      → length (node_page sum node) ≡ page_size
  unfolding node_page le
  length-node_page sum node h = omega (
    arith,
    length-append (encode_ids node.page_ids)
        (replicate (page_size - 32 - 8 * length node.page_ids) 0),
    length-encode_ids node.page_ids,
    length-zeros (page_size - 32 - 8 * length node.page_ids),
  )

  header :
      (sum : ℕ) (node : FreeListNode)
      → (read 4 0 (node_page sum node) ≡ magic)
        × (read 2 4 (node_page sum node) ≡ le 2 1)
        × (read 2 6 (node_page sum node) ≡ le 2 (length node.page_ids))
        × (read 8 8 (node_page sum node) ≡ le 8 node.next_page_id)
        × (read 8 16 (node_page sum node) ≡ le 8 node.sequence)
        × (read 4 24 (node_page sum node) ≡ le 4 sum)
        × (take 24 (node_page sum node) ++ (le 4 0 ++ drop 28 (node_page sum node))
            ≡ node_page 0 node)
        × (drop 32 (node_page sum node)
            ≡ encode_ids node.page_ids ++ replicate (page_size - 32 - 8 * length node.page_ids) 0)
  unfolding node_page le read
  header sum node = (refl, refl, refl, refl, refl, refl, refl, refl)

  -- A node whose numbers are 64-bit words and that is encoded is decoded from its page, where the
  -- checksum is a 32-bit word.
  pub decode-encode_free_list_node :
      (node : FreeListNode) (page : Bytes)
      → node.next_page_id < 256 ^ 8
      → node.sequence < 256 ^ 8
      → AreWords node.page_ids
      → encode_free_list_node disk node ≡ ok page
      → decode_free_list_node disk page ≡ ok node
  unfolding encode_free_list_node decode_free_list_node
  decode-encode_free_list_node node page next seq words e =
      let (a, f) =
        refuse-then (length node.page_ids == 0 || ltb capacity (length node.page_ids))
          invalid_page_data _ e in
      let (b, g) = refuse-then (has_zero node.page_ids) invalid_page_data _ f in
      let sum = disk.checksum (node_page 0 node) in
      let (h0, h1, h2, h3, h4, h5, h6, h7) = header sum node in
      let short : length node.page_ids ≤ capacity = ground (arith, a) in
      let count : le_value (le 2 (length node.page_ids)) ≡ length node.page_ids =
        le_value-le 2 (length node.page_ids) (omega arith) in
      let full = length-node_page sum node short in
      rw (← ok-injective g) (
        rw
          (
            full,
            slice-eq-read 4 0 (node_page sum node) (omega (arith, full)),
            uint-eq-read 2 4 (node_page sum node) (omega (arith, full)),
            uint-eq-read 4 24 (node_page sum node) (omega (arith, full)),
            uint-eq-read 2 6 (node_page sum node) (omega (arith, full)),
            uint-eq-read 8 8 (node_page sum node) (omega (arith, full)),
            uint-eq-read 8 16 (node_page sum node) (omega (arith, full)),
            h0,
            h1,
            h2,
            h3,
            h4,
            h5,
            h6,
            count,
            le_value-le 8 node.next_page_id next,
            le_value-le 8 node.sequence seq,
            le_value-le 4 sum (uint32 (node_page 0 node)),
            a,
            decode-encode_ids node.page_ids 32 (node_page sum node)
                (replicate (page_size - 32 - 8 * length node.page_ids) 0) b words h7,
            beq_refl magic,
            le_value-le 2 1 (omega arith),
            eq_refl sum,
          )
          refl)
