-- ===== src/Execution/Entries.antt =====
-- The statements on the table `entries` in src/ctxfs/store.py against a map from sources to rows.
pub mod Tests
use ctxd.Prelude.{
  ℕ, ◌≡◌, refl, sym, ◌∙◌, ap, subst, Bool, true, false, not, ◌&&◌, List, [], ◌∷◌, ◌++◌, Option,
  none, some, ◌==◌, if◌then◌else◌, nat_eq, list_eq, Text, Result, ok, err, Bool-cases, Option-cases,
  eq_iff, eq_refl, arith, find, any, filter, update_rows, inl, inr, Time,
}
use ctxd.Submissions.Preflight.{EntryRow}
use ctxd.Execution.Moves.{is_source, update_path}
use ctxd.Execution.Apply.{upsert_entry, delete_entry}
use ctxd.Execution.{State}

-- The table as a map: the row of a source.
abbrev pub RowMap : Type 0
RowMap = Text → Text → Option EntryRow

abbrev pub view : List EntryRow → RowMap
view rows writer key = find (is_source writer key) rows

-- The map with another value at one source.
abbrev pub assign : Text → Text → Option EntryRow → RowMap → RowMap
assign writer key value map w k = if w == writer && k == key then value else map w k

-- What an update does to the row, if there is one.
abbrev pub changed : (EntryRow → EntryRow) → Option EntryRow → Option EntryRow
changed change none = none
changed change (some row) = some (change row)

-- An upsert keeps the time of creation.
abbrev pub merged : EntryRow → Option EntryRow → EntryRow
merged row none = row
merged row (some old) = record row { created_at = old.created_at }

view-update_rows :
    (writer key : Text) (change : EntryRow → EntryRow) (rows : List EntryRow) (w k : Text)
    → ((x : EntryRow) → is_source writer key x ≡ true → is_source writer key (change x) ≡ true)
    → view (update_rows (is_source writer key) change rows) w k
      ≡ assign writer key (changed change (view rows writer key)) (view rows) w k
unfolding find update_rows
view-update_rows writer key change [] w k keeps = ground arith
view-update_rows writer key change (x ∷ rows) w k keeps =
    elim (Bool-cases (is_source writer key x)) [
      | inl e ↦
          let after = keeps x e in
          ground (
            arith,
            e,
            after,
            view-update_rows writer key change rows w k keeps,
            eq_iff w writer,
            eq_iff k key,
            eq_iff x.writer_id writer,
            eq_iff x.source_key key,
            eq_iff x.writer_id w,
            eq_iff x.source_key k,
            eq_iff (change x).writer_id writer,
            eq_iff (change x).source_key key,
            eq_iff (change x).writer_id w,
            eq_iff (change x).source_key k,
          )
      | inr e ↦ ground (
        arith,
        e,
        view-update_rows writer key change rows w k keeps,
        eq_iff w writer,
        eq_iff k key,
        eq_iff x.writer_id writer,
        eq_iff x.source_key key,
        eq_iff x.writer_id w,
        eq_iff x.source_key k,
      )
    ]

view-filter :
    (writer key : Text) (rows : List EntryRow) (w k : Text)
    → view (filter (λ row. not (is_source writer key row)) rows) w k
      ≡ assign writer key none (view rows) w k
unfolding find
view-filter writer key [] w k = ground arith
view-filter writer key (x ∷ rows) w k = elim (Bool-cases (is_source writer key x)) [
  | inl e ↦ ground (
    arith,
    e,
    view-filter writer key rows w k,
    eq_iff w writer,
    eq_iff k key,
    eq_iff x.writer_id writer,
    eq_iff x.source_key key,
    eq_iff x.writer_id w,
    eq_iff x.source_key k,
  )
  | inr e ↦ ground (
    arith,
    e,
    view-filter writer key rows w k,
    eq_iff w writer,
    eq_iff k key,
    eq_iff x.writer_id writer,
    eq_iff x.source_key key,
    eq_iff x.writer_id w,
    eq_iff x.source_key k,
  )
]

view-snoc :
    (row : EntryRow) (rows : List EntryRow) (w k : Text)
    → any (is_source row.writer_id row.source_key) rows ≡ false
    → view (rows ++ row ∷ []) w k ≡ assign row.writer_id row.source_key (some row) (view rows) w k
unfolding find
view-snoc row [] w k new = ground (
  arith,
  eq_iff row.writer_id w,
  eq_iff row.source_key k,
  eq_iff w row.writer_id,
  eq_iff k row.source_key,
)
view-snoc row (x ∷ rows) w k new = ground (
  arith,
  new,
  view-snoc row rows w k,
  eq_iff x.writer_id w,
  eq_iff x.source_key k,
  eq_iff x.writer_id row.writer_id,
  eq_iff x.source_key row.source_key,
  eq_iff w row.writer_id,
  eq_iff k row.source_key,
)

any-found :
    (writer key : Text) (rows : List EntryRow)
    → any (is_source writer key) rows ≡ true
    → (row : EntryRow) × (view rows writer key ≡ some row)
unfolding find
any-found writer key [] h = absurd (ground (arith, h))
any-found writer key (x ∷ rows) h = elim (Bool-cases (is_source writer key x)) [
  | inl e ↦ (x, rw e)
  | inr e ↦ let (row, f) = any-found writer key rows (ground (arith, h, e)) in (row, rw e f)
]

any-absent :
    (writer key : Text) (rows : List EntryRow)
    → any (is_source writer key) rows ≡ false
    → view rows writer key ≡ none
unfolding find
any-absent writer key [] h = refl
any-absent writer key (x ∷ rows) h = ground (arith, h, any-absent writer key rows)

-- An upsert that succeeds assigns the new row to its source.
upsert-view :
    (row : EntryRow) (rows rows' : List EntryRow)
    → upsert_entry row rows ≡ ok rows'
    → (w k : Text)
    → view rows' w k
      ≡ assign row.writer_id row.source_key
          (some (merged row (view rows row.writer_id row.source_key)))
          (view rows)
          w
          k
unfolding upsert_entry update_path
upsert-view row rows rows' h w k =
    let writer = row.writer_id in
    let key = row.source_key in
    let keep : EntryRow → EntryRow = λ old. record row { created_at = old.created_at } in
    let put : Option EntryRow → Option EntryRow =
      λ value. assign writer key value (view rows) w k in
    elim (Bool-cases (any (is_source writer key) rows)) [
      | inl e ↦
          let (old, found) = any-found writer key rows e in
          let same : update_rows (is_source writer key) keep rows ≡ rows' = ground (arith, e, h) in
          ap (λ r. view r w k) (sym same)
          ∙ view-update_rows writer key keep rows w k
              (λ x _. ground (arith, eq_refl writer, eq_refl key))
          ∙ ap (λ v. put (changed keep v)) found
          ∙ ap (λ v. put (some (merged row v))) (sym found)
      | inr e ↦
          let same : rows ++ row ∷ [] ≡ rows' = ground (arith, e, h) in
          ap (λ r. view r w k) (sym same)
          ∙ view-snoc row rows w k e
          ∙ ap (λ v. put (some (merged row v))) (sym (any-absent writer key rows e))
    ]

-- The statements on the entries implement a map from sources to rows. An upsert that succeeds assigns
-- the row to its source, with the time of creation of the row that was there; a delete removes the
-- source; an update of paths that succeeds changes the row of its source, where there is one, by a
-- change that keeps the source. All other sources keep their rows.
pub entries_refine :
    (s : State) (rows' rows'' : List EntryRow) (row : EntryRow) (writer key path : Text)
    (change : EntryRow → EntryRow)
    → upsert_entry row s.entries ≡ ok rows'
    → update_path (is_source writer key) path change s.entries ≡ ok rows''
    → ((x : EntryRow) → is_source writer key x ≡ true → is_source writer key (change x) ≡ true)
    → (w k : Text)
    → (view rows' w k
        ≡ assign row.writer_id row.source_key
            (some (merged row (view s.entries row.writer_id row.source_key)))
            (view s.entries)
            w
            k)
      × (view (delete_entry writer key s).1.entries w k
          ≡ assign writer key none (view s.entries) w k)
      × (view rows'' w k
          ≡ assign writer key (changed change (view s.entries writer key)) (view s.entries) w k)
unfolding update_path
entries_refine s rows' rows'' row writer key path change upserts updates keeps w k =
    let same : update_rows (is_source writer key) change s.entries ≡ rows'' =
      ground (arith, updates) in
    (
      upsert-view row s.entries rows' upserts w k,
      view-filter writer key s.entries w k,
      ap (λ r. view r w k) (sym same) ∙ view-update_rows writer key change s.entries w k keeps,
    )
