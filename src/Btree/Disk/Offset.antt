-- ===== src/Btree/Disk/Offset.antt =====
-- Where `dataPageOffset` puts the pages of a file.
use go_database.Base.{
  ℕ, ◌+◌, ◌-◌, ◌*◌, ◌^◌, ◌≤◌, ◌<◌, ◌≡◌, refl, sym, Bool, true, false, ltb, ◌==◌, if◌then◌else◌,
  arith,
}
use go_database.Base.Result.{ok, err, ok-injective}
use go_database.Btree.Disk.{
  invalid_page_id, data_page_offset, page_size, metadata_size, last_page_id,
}

offset-eq :
    (id a : ℕ)
    → data_page_offset id ≡ ok a
    → (0 < id) × (id ≤ last_page_id) × (a ≡ metadata_size + (id - 1) * page_size)
unfolding data_page_offset
offset-eq id a e = by_case (id == 0) (ltb last_page_id id) e (λ z. ground arith) (λ l. ground arith)
  where
    by_case :
        (b c : Bool)
        → (if b
            then err invalid_page_id
            else (if c then err invalid_page_id else ok (metadata_size + (id - 1) * page_size)))
          ≡ ok a
        → (b ≡ false → 0 < id)
        → (c ≡ false → id ≤ last_page_id)
        → (0 < id) × (id ≤ last_page_id) × (a ≡ metadata_size + (id - 1) * page_size)
    by_case true c h f g = cc
    by_case false true h f g = cc
    by_case false false h f g = (f refl, g refl, sym (ok-injective h))

-- Of two pages that have offsets, the one with the smaller id lies behind the metadata and before the
-- other, without an overlap, and both end within the offsets of an int64.
pub data_page_offset-bounds :
    (id j a b : ℕ)
    → data_page_offset id ≡ ok a
    → data_page_offset j ≡ ok b
    → id < j
    → (metadata_size ≤ a) × (a + page_size ≤ b) × (b + page_size ≤ 2 ^ 63)
data_page_offset-bounds id j a b e f l =
    let (p, q, r) = offset-eq id a e in
    let (x, y, z) = offset-eq j b f in (omega arith, omega arith, omega arith)
