-- ===== src/Execution/Fuel.antt =====
-- Actions of src/ctxfs/store.py that never run out of the fuel of the model's loops.
pub mod Changes
pub mod Documents
pub mod Batch
use ctxd.Prelude.{
  codes, ◌≡◌, ◌≢◌, refl, sym, subst, Bool, true, false, not, List, [], ◌∷◌, ◌++◌, Option, none,
  some, inl, inr, ◌==◌, nat_eq, list_eq, pair_eq, option_eq, if◌then◌else◌, Text, ℕ, Result, ok,
  err, Error, out_of_fuel, or_raise, key_error, content_hash_mismatch_error, file_not_found_error,
  Result-cases, Option-cases, arith, is_empty, Time,
}
use ctxd.Prelude.Dict
use ctxd.Prelude.Dict.{Dict}
use ctxd.Prelude.Fuel.{Fueled, ok-Fueled, raise-Fueled, err-real, or_raise-Fueled, guard-Fueled}
use ctxd.Paths.{normalize_path}
use ctxd.Ownership.{require_authorized_path}
use ctxd.Submissions.Operations.{
  Operation, PutOperation, MoveOperation, DeleteOperation, DecisionOperation, put, move, delete,
  decision,
}
use ctxd.Submissions.Preflight.{EntryRow, source_path_maps}
use ctxd.Submissions.Fuel.{
  key_error-IsReal, normalize_path-Fueled, require_authorized_path-Fueled,
  reject_duplicate_move_sources-Fueled, ordered_operations-Fueled, preflight_submission-Fueled,
}
use ctxd.Execution.{
  System, Location, tree, object, State, Files, Action, pure, raise, gets, lift, try_except, ◌>>=◌,
  ◌>>◌, modify, draw, now, call, undo, for_each, Undo, Cleanup, undo_replace, undo_rename,
  undo_remove, remove_object, unlink_backup, remove_old_object, SubmissionState, applied,
}
use ctxd.Execution.Files.{
  link, replace, unlink, exists, is_missing, push_undo, push_cleanup, mkdir, unlink_if_exists,
  undo_path, backup_tree_entry, replace_tree_entry, rename_tree_file, rename_tree_entry,
  remove_tree_entry,
}
use ctxd.Execution.Content.{normalize_text, encode_character, encode, hash_of}
use ctxd.Execution.Moves.{
  is_source, entry_by_source_key, update_path, update_entries, move_cycles, first, Temps,
  validated_move_entry, validated_entries, move_destinations, break_cycles, break_move_cycles, park,
  move_file, move_one, move_batch, current_locations, source_keys_by_path, move_source,
}
use ctxd.Execution.Moves.Cycles.{move_cycles_total}
use ctxd.Execution.Apply.{
  upsert_entry, normalize_optional, write_bytes, delete_entry, require_decision_path, transaction,
  keep_object, retire, write_object, store_object, place_object, save_entry, write_entry, apply_put,
  delete_existing, apply_delete, record_decision, apply_decision, apply_operations, set_state,
  try_submission,
}

pub missing-IsReal : file_not_found_error ≢ out_of_fuel
missing-IsReal h = cc

pub mismatch-IsReal : content_hash_mismatch_error ≢ out_of_fuel
mismatch-IsReal h = cc

-- Whatever the state, the action does not run out of fuel.
pub record IsFueled {A : Type 0} (m : Action A) : Type 0 where
  pub at : (s : State) → Fueled (m s).0

module _ {A : Type 0} where
  pub lift-IsFueled : {r : Result A} → Fueled r → IsFueled (lift r)
  lift-IsFueled h = record { at = λ s. h }

  pub raise-IsFueled : {e : Error} → e ≢ out_of_fuel → IsFueled (raise {A = A} e)
  raise-IsFueled n = record { at = λ s. raise-Fueled n }

  -- An action that does not raise.
  pub calm-IsFueled : {m : Action A} → ((s : State) → (a : A) × ((m s).0 ≡ ok a)) → IsFueled m
  calm-IsFueled h = record { at = λ s. let (a, e) = h s in subst Fueled (sym e) ok-Fueled }

  pub pure-IsFueled : {a : A} → IsFueled (pure a)
  pure-IsFueled {a} = calm-IsFueled (λ s. (a, refl))

  pub gets-IsFueled : {f : State → A} → IsFueled (gets f)
  gets-IsFueled {f} = calm-IsFueled (λ s. (f s, refl))

  pub if-IsFueled :
      (b : Bool) {x y : Action A} → IsFueled x → IsFueled y → IsFueled (if b then x else y)
  if-IsFueled true f g = f
  if-IsFueled false f g = g

  pub try_except-IsFueled :
      {m : Action A} {handler : Error → Action A}
      → IsFueled m
      → ((e : Error) → e ≢ out_of_fuel → IsFueled (handler e))
      → IsFueled (try_except m handler)
  try_except-IsFueled {m} {handler} f h = record {
    at = λ s.
        elim (m s).0
            as (λ r.
              Fueled r
              → Fueled
                  (elim r as (λ _. Result A × State) [
                    | ok a ↦ (ok a, (m s).1)
                    | err e ↦ handler e (m s).1
                  ]).0) [
                    | ok a ↦ λ _. ok-Fueled
                    | err e ↦ λ g. (h e (err-real (err e) g refl)).at (m s).1
                  ]
          (f.at s);
  }

pub >>=-IsFueled :
    {A B : Type 0} {m : Action A} {f : A → Action B}
    → IsFueled m
    → ((a : A) → IsFueled (f a))
    → IsFueled (m >>= f)
>>=-IsFueled {A} {B} {m} {f} g h = record {
  at = λ s.
      elim (m s).0
          as (λ r.
            Fueled r
            → Fueled
                (elim r as (λ _. Result B × State) [
                  | ok a ↦ f a (m s).1
                  | err e ↦ raise e (m s).1
                ]).0) [
                  | ok a ↦ λ _. (h a).at (m s).1
                  | err e ↦ λ k. raise-Fueled (err-real (err e) k refl)
                ]
        (g.at s);
}

pub >>-IsFueled :
    {B : Type 0} {m : Action (Unit {0})} {k : Action B}
    → IsFueled m
    → IsFueled k
    → IsFueled (m >> k)
>>-IsFueled g h = >>=-IsFueled g (λ _. h)

pub for_each-IsFueled :
    {A : Type 0} (body : A → Action (Unit {0})) (xs : List A)
    → ((x : A) → IsFueled (body x))
    → IsFueled (for_each body xs)
unfolding for_each
for_each-IsFueled body [] h = calm-IsFueled (λ s. (tt, refl))
for_each-IsFueled body (x ∷ xs) h = >>=-IsFueled (h x) (λ _. for_each-IsFueled body xs h)

pub normalize_text-Fueled : (text : Text) → Fueled (normalize_text text)
unfolding normalize_text
normalize_text-Fueled text = record { real = λ h. ground (arith, h) }

pub encode-Fueled : (text : Text) → Fueled (encode text)
unfolding encode encode_character
encode-Fueled [] = ok-Fueled
encode-Fueled (c ∷ s) = record { real = λ h. ground (arith, h, (encode-Fueled s).real) }

pub normalize_optional-Fueled : (path : Option Text) → Fueled (normalize_optional path)
normalize_optional-Fueled none = ok-Fueled
normalize_optional-Fueled (some path) = record {
  real = λ h. ground (arith, h, (normalize_path-Fueled path).real);
}

update_path-Fueled :
    (test : EntryRow → Bool) (path : Text) (change : EntryRow → EntryRow) (rows : List EntryRow)
    → Fueled (update_path test path change rows)
unfolding update_path
update_path-Fueled test path change rows = record { real = λ h. ground (arith, h) }

pub upsert_entry-Fueled : (row : EntryRow) (rows : List EntryRow) → Fueled (upsert_entry row rows)
unfolding upsert_entry update_path
upsert_entry-Fueled row rows = record { real = λ h. ground (arith, h) }

pub update_entries-IsFueled :
    (statement : List EntryRow → Result (List EntryRow))
    → ((rows : List EntryRow) → Fueled (statement rows))
    → IsFueled (update_entries statement)
unfolding update_entries
update_entries-IsFueled statement h = record {
  at = λ s. elim (Result-cases (statement s.entries)) [
    | inl (rows, e) ↦ record { real = λ g. ground (arith, e, g) }
    | inr (x, e) ↦ record { real = λ g. ground (arith, e, g, (h s.entries).real) }
  ];
}

pub update-IsFueled :
    (test : EntryRow → Bool) (path : Text) (change : EntryRow → EntryRow)
    → IsFueled (update_entries (update_path test path change))
update-IsFueled test path change =
    update_entries-IsFueled (update_path test path change) (update_path-Fueled test path change)

pub move_destinations-Fueled :
    (found : Dict Text EntryRow) (operations : List MoveOperation) (destinations : Dict Text Text)
    → Fueled (move_destinations found operations destinations)
unfolding move_destinations
move_destinations-Fueled found [] destinations = ok-Fueled
move_destinations-Fueled found (o ∷ operations) destinations =
    elim (Option-cases (Dict.get o.source_key found)) [
      | inl e ↦ rw (e, move_destinations) (raise-Fueled key_error-IsReal)
      | inr (entry, e) ↦ elim (Result-cases (normalize_path o.path)) [
        | inr (x, f) ↦
            rw (e, f, move_destinations)
              (raise-Fueled (err-real (normalize_path o.path) (normalize_path-Fueled o.path) f))
        | inl (path, f) ↦
            rw (e, f, move_destinations)
              (move_destinations-Fueled found operations (Dict.put entry.path path destinations))
      ]
    ]

pub move_cycles-Fueled : (destinations : Dict Text Text) → Fueled (move_cycles destinations)
move_cycles-Fueled destinations =
    let (cycles, e, _, _) = move_cycles_total destinations in subst Fueled (sym e) ok-Fueled

modify-IsFueled : {f : State → State} → IsFueled (modify f)
modify-IsFueled = calm-IsFueled (λ s. (tt, refl))

pub skip-IsFueled : IsFueled (pure tt)
skip-IsFueled = pure-IsFueled

pub exists-IsFueled : (l : Location) → IsFueled (exists l)
exists-IsFueled l = gets-IsFueled

pub push_undo-IsFueled : (u : Undo) → IsFueled (push_undo u)
push_undo-IsFueled u = modify-IsFueled

pub push_cleanup-IsFueled : (c : Cleanup) → IsFueled (push_cleanup c)
push_cleanup-IsFueled c = modify-IsFueled

pub draw-IsFueled : IsFueled draw
draw-IsFueled = calm-IsFueled (λ s. (s.calls, refl))

pub entry-IsFueled : (writer key : Text) → IsFueled (entry_by_source_key writer key)
unfolding entry_by_source_key
entry-IsFueled writer key = gets-IsFueled

pub delete_entry-IsFueled : (writer key : Text) → IsFueled (delete_entry writer key)
delete_entry-IsFueled writer key = modify-IsFueled

-- The check of a path by the prefixes of the state, before the rest of an operation
pub authorized-IsFueled :
    {A : Type 0} (user writer path : Text) (next : Action A)
    → IsFueled next
    → IsFueled (do
      prefixes ← gets (λ s. s.prefixes)
      lift (require_authorized_path prefixes user writer path)
      next)
authorized-IsFueled user writer path next h =
    >>=-IsFueled (gets-IsFueled {f = λ (s : State). s.prefixes}) (λ prefixes.
      >>-IsFueled (lift-IsFueled (require_authorized_path-Fueled prefixes user writer path)) h)
