-- ===== src/Btree/FreeList/Slices.antt =====
-- Reading a number from a page does not panic where the page has its bytes.
use go_database.Base.{ℕ, ◌+◌, ◌≤◌, ◌≡◌, refl, Bytes, length, le_value, arith}
use go_database.Base.Result.{Result, ok, ◌>>=◌, Safe}
use go_database.Btree.Disk.{PageError}
use go_database.Btree.FreeList.{read, slice, uint}

pub slice-eq-read :
    (n at : ℕ) (page : Bytes) → at + n ≤ length page → slice n at page ≡ ok (read n at page)
unfolding slice
slice-eq-read n at page h = ground arith

pub uint-eq-read :
    (n at : ℕ) (page : Bytes)
    → at + n ≤ length page
    → uint n at page ≡ ok (le_value (read n at page))
unfolding uint
uint-eq-read n at page h = rw (slice-eq-read n at page h) refl

pub Safe-slice {ℓ} :
    {A : Type ℓ} (Q : A → Type 0) (n at : ℕ) (page : Bytes) (k : Bytes → Result PageError A)
    → at + n ≤ length page
    → ((bytes : Bytes) → Safe Q (k bytes))
    → Safe Q (slice n at page >>= k)
Safe-slice Q n at page k h f = rw (slice-eq-read n at page h) (f (read n at page))

pub Safe-uint {ℓ} :
    {A : Type ℓ} (Q : A → Type 0) (n at : ℕ) (page : Bytes) (k : ℕ → Result PageError A)
    → at + n ≤ length page
    → ((v : ℕ) → Safe Q (k v))
    → Safe Q (uint n at page >>= k)
Safe-uint Q n at page k h f = rw (uint-eq-read n at page h) (f (le_value (read n at page)))
