-- ===== src/Btree/PageManager/Keeps.antt =====
-- Writes to the file do not change the lists of pages.
use go_database.Base.{
  ℕ, Bool, true, false, ◌+◌, ◌≤◌, ◌≡◌, refl, sym, ap, ◌∙◌, not, List, [], ◌∷◌, ltb, ◌==◌,
  if◌then◌else◌, length, Bytes, arith,
}
use go_database.Base.Action.{Action, ◌>>=◌, continue, bind-ok, lift}
use go_database.Base.Result.{Result, ok, err, panic, refuse, ok-injective}
use go_database.Base.Result
use go_database.Btree.Disk.{PageError, invalid_page_data, Disk, page_size, data_page_offset}
use go_database.Btree.FreeList.{capacity}
use go_database.Btree.PageManager.{Pages, validate_existing_page_id}
use go_database.Btree.PageManager.Publish.{
  RootMetadata, State, on_file, write_page, write_nodes, write_root_metadata_slot, recyclable_of,
}
use go_database.Btree.PageManager.Counts.{occurrences}

chosen-occurrences :
    (b : Result PageError Bool) (r : Result PageError (List ℕ)) (id : ℕ) (ids out : List ℕ) (j : ℕ)
    → Result.◌>>=◌ b (λ node. Result.◌>>=◌ r (λ rest. ok (if node then id ∷ rest else rest)))
      ≡ ok out
    → ((rest : List ℕ) → r ≡ ok rest → occurrences rest j ≤ occurrences ids j)
    → occurrences out j ≤ occurrences (id ∷ ids) j
unfolding occurrences
chosen-occurrences (ok true) (ok rest) id ids out j e h =
    rw (← ok-injective e) (omega (arith, h rest refl))
chosen-occurrences (ok false) (ok rest) id ids out j e h =
    rw (← ok-injective e) (omega (arith, h rest refl))
chosen-occurrences (ok node) (err x) id ids out j e h = cc
chosen-occurrences (ok node) panic id ids out j e h = cc
chosen-occurrences (err x) r id ids out j e h = cc
chosen-occurrences panic r id ids out j e h = cc

pub recyclable_of-occurrences :
    (disk : Disk) (f : disk.File) (ids out : List ℕ) (j : ℕ)
    → recyclable_of disk f ids ≡ ok out
    → occurrences out j ≤ occurrences ids j
unfolding recyclable_of occurrences
recyclable_of-occurrences disk f [] out j e = rw (← ok-injective e) (omega arith)
recyclable_of-occurrences disk f (id ∷ ids) out j e =
    chosen-occurrences _ (recyclable_of disk f ids) id ids out j e
      (λ rest. recyclable_of-occurrences disk f ids rest j)

module _ (disk : Disk) where
  -- the lists of the manager are not changed
  abbrev pub Keeps {ℓ} : {A : Type ℓ} → Action (State disk) PageError A → Type 0
  Keeps act = (s : State disk) → (act s).0.1 ≡ s.1

  continue-Keeps {ℓ κ} :
      {A : Type ℓ} {B : Type κ} (p : Pages) (r : State disk × Result PageError A)
      (rest : A → Action (State disk) PageError B)
      → r.0.1 ≡ p
      → ((a : A) → Keeps (rest a))
      → (continue r rest).0.1 ≡ p
  continue-Keeps p (t, ok a) rest e k = k a t ∙ e
  continue-Keeps p (t, err x) rest e k = e
  continue-Keeps p (t, panic) rest e k = e

  Keeps-bind {ℓ κ} :
      {A : Type ℓ} {B : Type κ} (first : Action (State disk) PageError A)
      (rest : A → Action (State disk) PageError B)
      → Keeps first
      → ((a : A) → Keeps (rest a))
      → Keeps (first >>= rest)
  Keeps-bind first rest f k s = continue-Keeps s.1 (first s) rest (f s) k

  write_page-Keeps : (id : ℕ) (page : Bytes) → Keeps (write_page disk id page)
  unfolding write_page
  write_page-Keeps id page s =
      Keeps-bind (lift (validate_existing_page_id s.1 id)) _ (λ t. refl)
        (λ checked.
          Keeps-bind (lift (refuse (not (length page == page_size)) invalid_page_data)) _
            (λ t. refl)
            (λ sized.
              Keeps-bind (lift (data_page_offset id)) _ (λ t. refl)
                (λ offset.
                  Keeps-bind (on_file disk (λ f. disk.write_at f page offset)) _ (λ t. refl)
                    (λ n t. refl))))
        s

  pub write_nodes-Keeps :
      (entries : List ℕ) (start : ℕ) (ids : List ℕ) → Keeps (write_nodes disk entries start ids)
  unfolding write_nodes
  write_nodes-Keeps entries start [] s = refl
  write_nodes-Keeps entries start (id ∷ ids) s =
      Keeps-bind (lift (if ltb (length entries) start then panic else ok (tt {0}))) _ (λ t. refl)
        (λ ranged.
          Keeps-bind (lift _) _ (λ t. refl)
            (λ page.
              Keeps-bind (write_page disk id page) _ (write_page-Keeps id page)
                (λ written. write_nodes-Keeps entries (start + capacity) ids)))
        s

  pub write_root_metadata_slot-Keeps :
      (slot : ℕ) (m : RootMetadata) → Keeps (write_root_metadata_slot disk slot m)
  unfolding write_root_metadata_slot
  write_root_metadata_slot-Keeps slot m =
      Keeps-bind (on_file disk (λ f. disk.write_at f _ _)) _ (λ s. refl) (λ n s. refl)

  pub bind-Keeps {ℓ κ} :
      {A : Type ℓ} {B : Type κ} (first : Action (State disk) PageError A)
      (rest : A → Action (State disk) PageError B) (s u : State disk) {b : B}
      → Keeps first
      → (first >>= rest) s ≡ (u, ok b)
      → (t : State disk) × (a : A) × (t.1 ≡ s.1) × (rest a t ≡ (u, ok b))
  bind-Keeps first rest s u keeps e =
      let (t, a, f, g) = bind-ok first rest s e in (t, a, sym (ap (λ r. r.0.1) f) ∙ keeps s, g)
