-- ===== src/Catalog/Folders/Replay.antt =====
-- Repeated calls of `register_folder` of src/ctxfs/store.py.
use ctxd.Prelude.{
  ℕ, zero, suc, ◌+◌, ◌<◌, ◌≡◌, refl, sym, ◌∙◌, subst, true, false, List, [], ◌∷◌, ◌++◌, Option,
  none, some, inl, inr, nat_eq, list_eq, option_eq, any, length, Text, ltb, find, find-snoc, Time,
  arith, eq_refl, Bool-cases, Option-cases, Result, ok, err, >>=-eq-ok, guard-eq-ok,
}
use ctxd.Catalog.{catalog_text, optional_description, suffixed_key}
use ctxd.Catalog.Machines.{MachineRow, machine}
use ctxd.Catalog.Folders.{
  FolderRow, TrackedFolder, FolderRegistration, folder, folder_from_row, replay_folder,
  has_folder_id, has_folder_registration, folder_conflicts, new_folder_row, leaving, beside,
  insert_folder, register_checked_folder, register_folder,
}

-- The row that answers for a registration.
record Held (user machine_id registration_id name : Text) (description : Option Text)
    (f : TrackedFolder) (rows : List FolderRow) : Type 0 where
  row : FolderRow
  found : find (has_folder_registration user machine_id registration_id) rows ≡ some row
  replayed : replay_folder row name description ≡ ok f

leaving-eq-ok :
    (rows rows' : List FolderRow) (r : Result TrackedFolder) (f : TrackedFolder)
    → leaving rows r ≡ ok (beside rows' f)
    → (r ≡ ok f) × (rows ≡ rows')
leaving-eq-ok rows rows' (ok g) f h = (ground (arith, h), ground (arith, h))
leaving-eq-ok rows rows' (err e) f h = cc

fresh_folder :
    (row : FolderRow) (rows : List FolderRow)
    → any (folder_conflicts row) rows ≡ false
    → find (has_folder_id row.user_id row.machine_id row.folder_id) rows ≡ none
unfolding find folder_conflicts
fresh_folder row [] h = refl
fresh_folder row (x ∷ rows) h =
    elim (Bool-cases (has_folder_id row.user_id row.machine_id row.folder_id x)) [
      | inl e ↦ absurd (ground (arith, e, h))
      | inr e ↦ rw e (fresh_folder row rows (ground (arith, h)))
    ]

module _ (user machine_id registration_id name : Text) (description : Option Text) where
  replayed-Held :
      (existing : FolderRow) (rows rows' : List FolderRow) (f : TrackedFolder)
      → find (has_folder_registration user machine_id registration_id) rows ≡ some existing
      → leaving rows (replay_folder existing name description) ≡ ok (beside rows' f)
      → Held user machine_id registration_id name description f rows'
  replayed-Held existing rows rows' f found h =
      let (replayed, same) =
        leaving-eq-ok rows rows' (replay_folder existing name description) f h in
      record {
        row = existing;
        found =
            subst
              (λ r.
                find (has_folder_registration user machine_id registration_id) r ≡ some existing)
              same found;
        replayed = replayed;
      }

  abbrev made : Text → Text → Time → FolderRow
  made id key t = new_folder_row user machine_id id key registration_id name description t

  new-Held :
      (rows rows' : List FolderRow) (f : TrackedFolder) (id key : Text) (t : Time)
      → find (has_folder_registration user machine_id registration_id) rows ≡ none
      → any (folder_conflicts (made id key t)) rows ≡ false
      → leaving
          (rows ++ made id key t ∷ [])
          (folder user machine_id id (rows ++ made id key t ∷ []))
        ≡ ok (beside rows' f)
      → Held user machine_id registration_id name description f rows'
  unfolding folder replay_folder
  new-Held rows rows' f id key t missing free h =
      let row = made id key t in
      let (e, same) =
        leaving-eq-ok (rows ++ row ∷ []) rows' (folder user machine_id id (rows ++ row ∷ [])) f h in
      let there : find (has_folder_id user machine_id id) (rows ++ row ∷ []) ≡ some row =
        find-snoc (has_folder_id user machine_id id) rows row (fresh_folder row rows free)
          (ground (arith, eq_refl user, eq_refl machine_id, eq_refl id)) in
      let held : find (has_folder_registration user machine_id registration_id) (rows ++ row ∷ [])
          ≡ some row =
        find-snoc (has_folder_registration user machine_id registration_id) rows row missing
          (ground (arith, eq_refl user, eq_refl machine_id, eq_refl registration_id)) in
      let got : folder user machine_id id (rows ++ row ∷ []) ≡ ok (folder_from_row row) =
        rw there refl in
      record {
        row = row;
        found =
            subst (λ r. find (has_folder_registration user machine_id registration_id) r ≡ some row)
              same held;
        replayed = rw (eq_refl name, eq_refl description) (sym got ∙ e);
      }

  insert_folder-Held :
      (uuid : ℕ → Text) (t : Time) (fuel suffix : ℕ) (base : Text) (rows rows' : List FolderRow)
      (f : TrackedFolder)
      → find (has_folder_registration user machine_id registration_id) rows ≡ none
      → insert_folder uuid user machine_id registration_id name description t fuel suffix base rows
        ≡ ok (beside rows' f)
      → Held user machine_id registration_id name description f rows'
  unfolding insert_folder
  insert_folder-Held uuid t zero suffix base rows rows' f missing h = absurd (ground arith)
  insert_folder-Held uuid t (suc fuel) suffix base rows rows' f missing h =
      let row = made (uuid suffix) (suffixed_key base suffix) t in
      elim (Bool-cases (any (folder_conflicts row) rows)) [
        | inl c ↦
            insert_folder-Held uuid t fuel (suffix + 1) base rows rows' f missing
              (rw (c, missing) at h)
        | inr c ↦
            new-Held rows rows' f (uuid suffix) (suffixed_key base suffix) t missing c (rw c at h)
      ]

  register_checked_folder-Held :
      (nfkd : Text → Text) (uuid : ℕ → Text) (t : Time) (rows rows' : List FolderRow)
      (f : TrackedFolder)
      → register_checked_folder nfkd uuid user machine_id registration_id name description t rows
        ≡ ok (beside rows' f)
      → Held user machine_id registration_id name description f rows'
  unfolding register_checked_folder
  register_checked_folder-Held nfkd uuid t rows rows' f h =
      elim (Option-cases (find (has_folder_registration user machine_id registration_id) rows)) [
        | inl e ↦
            insert_folder-Held uuid t (length rows + 2) 1 _ rows rows' f e
              (rw (register_checked_folder, e) at h)
        | inr (existing, e) ↦
            replayed-Held existing rows rows' f e (rw (register_checked_folder, e) at h)
      ]

  Held-register_checked_folder :
      (nfkd : Text → Text) (uuid : ℕ → Text) (t : Time) (rows : List FolderRow) (f : TrackedFolder)
      → Held user machine_id registration_id name description f rows
      → register_checked_folder nfkd uuid user machine_id registration_id name description t rows
        ≡ ok (beside rows f)
  unfolding register_checked_folder
  Held-register_checked_folder nfkd uuid t rows f s =
      rw (register_checked_folder, s.found, s.replayed) refl

-- A registration of a folder that has succeeded succeeds again, at any later time and whatever ids
-- are drawn, while the machine is known: it returns the same folder and leaves the table as it is.
pub register_folder-replay :
    (nfkd : Text → Text) (uuid uuid' : ℕ → Text) (user machine_id : Text)
    (args : FolderRegistration) (t t' : Time) (machines : List MachineRow)
    (rows rows' : List FolderRow) (f : TrackedFolder)
    → 0 < t'
    → register_folder nfkd uuid user machine_id args t machines rows ≡ ok (f, rows')
    → register_folder nfkd uuid' user machine_id args t' machines rows' ≡ ok (f, rows')
unfolding register_folder
register_folder-replay nfkd uuid uuid' user machine_id args t t' machines rows rows' f p h =
    let (registration_id, e1, h1) = >>=-eq-ok (catalog_text args.local_registration_id 128) _ h in
    let (name, e2, h2) = >>=-eq-ok (catalog_text args.name 128) _ h1 in
    let (description, e3, h3) = >>=-eq-ok (optional_description args.description) _ h2 in
    let (_, h4) = guard-eq-ok (ltb 0 t) _ _ h3 in
    let (m, e5, h5) = >>=-eq-ok (machine user machine_id machines) _ h4 in
    let positive : ltb 0 t' ≡ true = ground (arith, p) in
    let held =
      register_checked_folder-Held user machine_id registration_id name description nfkd uuid t rows
        rows' f h5 in
    rw (e1, e2, e3, positive, e5)
      (Held-register_checked_folder user machine_id registration_id name description nfkd uuid' t'
        rows' f held)
