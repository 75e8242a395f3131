-- ===== src/Btree/PageManager/Allocate.antt =====
-- `allocatePage` and `readPage` of internal/btree/page_manager.go.
use go_database.Base.{
  ℕ, suc, ◌≡◌, refl, Bool, true, false, Option, none, some, List, ◌==◌, if◌then◌else◌, length,
  replicate, Bytes,
}
use go_database.Base.Action.{Action}
use go_database.Base.Result.{Result, ok, err, panic, ◌>>=◌}
use go_database.Btree.Disk.{
  PageError, unexpected_eof, short_write, Disk, page_size, data_page_offset,
}
use go_database.Btree.PageManager.{
  Pages, validate_existing_page_id, reserve_page, reserve_from, new_page, split_last,
  PageManagerState, snapshot, restore,
}
use go_database.Btree.PageManager.Publish.{State}
use go_database.Btree.PageManager.Free.{held, IsManager}

module _ (disk : Disk) where
  -- after the write of a blank page
  abbrev pub written :
      PageManagerState
      → Pages
      → ℕ
      → disk.File × Result PageError ℕ
      → State disk × Result PageError ℕ
  written before p id (f, ok n) =
      if n == page_size then ((f, p), ok id) else ((f, restore before), err short_write)
  written before p id (f, err e) = ((f, restore before), err e)
  written before p id (f, panic) = ((f, p), panic)

  abbrev pub placed :
      PageManagerState
      → Pages
      → disk.File
      → ℕ
      → Result PageError ℕ
      → State disk × Result PageError ℕ
  placed before p f id (ok offset) =
      written before p id (disk.write_at f (replicate page_size 0) offset)
  placed before p f id (err e) = ((f, restore before), err e)
  placed before p f id panic = ((f, p), panic)

  abbrev pub reserved :
      PageManagerState → disk.File → Pages × Result PageError ℕ → State disk × Result PageError ℕ
  reserved before f (p, ok id) = placed before p f id (data_page_offset id)
  reserved before f (p, err e) = ((f, p), err e)
  reserved before f (p, panic) = ((f, p), panic)

  unfoldable pub allocate_page : Action (State disk) PageError ℕ
  allocate_page (f, p) = reserved (snapshot p) f (reserve_page p)

  unfoldable pub read_page : Pages → disk.File → ℕ → Result PageError Bytes
  read_page p f id = do
    checked ← validate_existing_page_id p id
    offset ← data_page_offset id
    page ← disk.read_at f offset
    (if length page == page_size then ok page else err unexpected_eof)

  -- the manager is as it was
  abbrev pub IsUndone : Pages → State disk × Result PageError ℕ → Type 0
  IsUndone p (s, ok id) = Unit
  IsUndone p (s, panic) = Unit
  IsUndone p ((f, q), err e) =
      IsManager q × (q.next_page_id ≡ p.next_page_id) × ((j : ℕ) → held q j ≡ held p j)

  restored :
      (p : Pages)
      → IsManager p
      → IsManager (restore (snapshot p))
        × ((restore (snapshot p)).next_page_id ≡ p.next_page_id)
        × ((j : ℕ) → held (restore (snapshot p)) j ≡ held p j)
  unfolding restore snapshot
  restored p w = (
    record {
      positive = w.positive;
      once = w.once;
      allocated = w.allocated;
      set_of_free = λ j. refl;
    },
    refl,
    λ j. refl,
  )

  written-IsUndone :
      (p q : Pages) (id : ℕ) (r : disk.File × Result PageError ℕ)
      → IsManager p
      → IsUndone p (written (snapshot p) q id r)
  written-IsUndone p q id (f, err e) w = restored p w
  written-IsUndone p q id (f, panic) w = tt
  written-IsUndone p q id (f, ok n) w = by_case (n == page_size)
    where
      by_case :
          (b : Bool)
          → IsUndone p (if b then ((f, q), ok id) else ((f, restore (snapshot p)), err short_write))
      by_case true = tt
      by_case false = restored p w

  placed-IsUndone :
      (p q : Pages) (f : disk.File) (id : ℕ) (r : Result PageError ℕ)
      → IsManager p
      → IsUndone p (placed (snapshot p) q f id r)
  placed-IsUndone p q f id (ok offset) w =
      written-IsUndone p q id (disk.write_at f (replicate page_size 0) offset) w
  placed-IsUndone p q f id (err e) w = restored p w
  placed-IsUndone p q f id panic w = tt

  new_page-IsUndone :
      (p : Pages) (f : disk.File) (r : Result PageError ℕ)
      → IsManager p
      → IsUndone p (reserved (snapshot p) f (new_page p r))
  new_page-IsUndone p f (ok offset) w =
      placed-IsUndone p (record p { next_page_id = suc p.next_page_id }) f p.next_page_id
        (data_page_offset p.next_page_id) w
  new_page-IsUndone p f (err e) w = (w, refl, λ j. refl)
  new_page-IsUndone p f panic w = tt

  reserve_from-IsUndone :
      (p : Pages) (f : disk.File) (o : Option (List ℕ × ℕ))
      → IsManager p
      → IsUndone p (reserved (snapshot p) f (reserve_from p o))
  reserve_from-IsUndone p f none w = new_page-IsUndone p f (data_page_offset p.next_page_id) w
  reserve_from-IsUndone p f (some (ids, id)) w =
      placed-IsUndone p (reserve_from p (some (ids, id))).0 f id (data_page_offset id) w

  -- If a page is not allocated because of an error, each page is on the lists as often as before, no
  -- page is on them twice, and no page is added.
  pub allocate_page-IsUndone :
      (f : disk.File) (p : Pages) → IsManager p → IsUndone p (allocate_page (f, p))
  unfolding allocate_page reserve_page
  allocate_page-IsUndone f p w = reserve_from-IsUndone p f (split_last p.free_page_ids) w
