-- ===== src/Execution/Batch.antt =====
-- `_break_move_cycles` and `_move_batch` of src/ctxfs/store.py against the undo stack that they leave.
use ctxd.Prelude.{
  ℕ, suc, ◌≤◌, ◌≡◌, inl, inr, refl, sym, subst, List, [], ◌∷◌, ◌++◌, some, ◌==◌, nat_eq, list_eq,
  pair_eq, Text, codes, Result, ok, err, Error, Result-cases, Bool-cases, Option-cases, arith,
  or_raise, key_error, Time, find,
}
use ctxd.Prelude.Dict
use ctxd.Prelude.Dict.{Dict}
use ctxd.Paths.{normalize_path}
use ctxd.Ownership.{require_authorized_path}
use ctxd.Submissions.Operations.{MoveOperation}
use ctxd.Submissions.Preflight.{EntryRow}
use ctxd.Execution.{
  System, Location, tree, undo, State, Action, tick, pure, lift, ◌>>=◌, ◌>>◌, draw, now, for_each,
}
use ctxd.Execution.Files.{undo_path, mkdir, rename_tree_file}
use ctxd.Execution.Journal.{Older, Older-mono, moved, call-Called}
use ctxd.Execution.Unwinding.{
  IsQuiet, IsQuiet-refl, IsStill, >>=-IsStill, Later, IsSafe, Later-refl, Later-trans,
  IsQuiet-Later, >>=-IsSafe, for_each-IsSafe, IsStill-IsSafe, >>=-ends,
}
use ctxd.Execution.Steps.{mkdir-IsStill, rename_tree_file-Later}
use ctxd.Execution.Moves
use ctxd.Execution.Moves.{
  Temps, first, break_cycles, break_move_cycles, move_cycles, validated_move_entry,
  validated_entries, entry_by_source_key, current_locations, source_keys_by_path, move_destinations,
  update_entries, update_path, park, move_source, move_file, move_one, move_batch,
}

-- The outcome of a run is that of its first step, if this raises, or of the second.
pub >>=-outcome :
    {A B : Type 0} (P : Result B × State → Type 0) (m : Action A) (f : A → Action B) (s : State)
    → ((e : Error) → P (err e, (m s).1))
    → ((a : A) → (m s).0 ≡ ok a → P (f a (m s).1))
    → P ((m >>= f) s)
>>=-outcome P m f s first second = elim (Result-cases (m s).0) [
  | inl (a, e) ↦
      let same : (m >>= f) s ≡ f a (m s).1 = ground (arith, e) in subst P (sym same) (second a e)
  | inr (x, e) ↦
      let same : (m >>= f) s ≡ (err x, (m s).1) = ground (arith, e) in subst P (sym same) (first x)
]

-- The locations that a dictionary holds were named before.
abbrev AreOlder : ℕ → Dict Text Location → Type 0
AreOlder n current = (path : Text) (l : Location) → Dict.get path current ≡ some l → Older n l

abbrev TempsOlder : ℕ → Temps → Type 0
TempsOlder n temps =
    (path : Text) (l : Location) (x : Text) → Dict.get path temps ≡ some (l, x) → Older n l

put-AreOlder :
    (m n : ℕ) (path : Text) (l : Location) (current : Dict Text Location)
    → m ≤ n
    → Older n l
    → AreOlder m current
    → AreOlder n (Dict.put path l current)
put-AreOlder m n path l current le old all p k h = elim (Bool-cases (path == p)) [
  | inl e ↦
      let same : l ≡ k = ground (arith, Dict.get-put path p l current, e, h) in
      subst (Older n) same old
  | inr e ↦ Older-mono m n k le (all p k (ground (arith, Dict.get-put path p l current, e, h)))
]

put-TempsOlder :
    (m n : ℕ) (path : Text) (l : Location) (x : Text) (temps : Temps)
    → m ≤ n
    → Older n l
    → TempsOlder m temps
    → TempsOlder n (Dict.put path (l, x) temps)
put-TempsOlder m n path l x temps le old all p k y h = elim (Bool-cases (path == p)) [
  | inl e ↦
      let same : l ≡ k = ground (arith, Dict.get-put path p (l, x) temps, e, h) in
      subst (Older n) same old
  | inr e ↦ Older-mono m n k le (all p k y (ground (arith, Dict.get-put path p (l, x) temps, e, h)))
]

current_locations-AreOlder :
    (n : ℕ) (found : Dict Text EntryRow) (locations : Dict Text Location)
    → AreOlder n locations
    → AreOlder n (current_locations found locations)
unfolding current_locations
current_locations-AreOlder n [] locations all = all
current_locations-AreOlder n ((key, entry) ∷ found) locations all =
    current_locations-AreOlder n found (Dict.put entry.path (tree entry.path) locations)
      (put-AreOlder n n entry.path (tree entry.path) locations (omega arith) tt all)

no_locations : (n : ℕ) → AreOlder n []
unfolding Dict.get
no_locations n path l h = absurd (ground (arith, h))

no_temps : (n : ℕ) → TempsOlder n []
unfolding Dict.get
no_temps n path l x h = absurd (ground (arith, h))

module _ (system : System) where
  undo_path-IsStill : (n : ℕ) (prefix : Text) → IsStill n (undo_path system prefix)
  unfolding undo_path
  undo_path-IsStill n prefix =
      >>=-IsStill n (mkdir system) (λ _. draw >>= λ k. pure (undo prefix k))
        (mkdir-IsStill system n)
        (λ _ s. record {
          calls = omega arith;
          stack = refl;
          cleanups = refl;
          rows = refl;
          files = λ l old. refl;
        })

  undo_path-Older :
      (prefix : Text) (s : State) (l : Location)
      → (undo_path system prefix s).0 ≡ ok l
      → Older (undo_path system prefix s).1.calls l
  unfolding undo_path
  undo_path-Older prefix s l h = elim (call-Called system ok s) [
    | inr (e, run, _) ↦ absurd (ground (arith, run, h))
    | inl (F, e, run) ↦
        let end : State = tick (moved s F) in
        let ends : undo_path system prefix s ≡ (ok (undo prefix (suc s.calls)), end) =
          ground (arith, run) in
        let same : undo prefix (suc s.calls) ≡ l = ground (arith, ends, h) in
        subst (λ x. Older x.1.calls l) (sym ends)
          (subst (Older (suc (suc s.calls))) same (omega arith))
  ]

  -- Whatever happens, the journal is kept; the temporary files of a result have been named.
  abbrev Broken : State → Result Temps × State → Type 0
  Broken s (r, s') =
      Later system s s' × ((temps : Temps) → r ≡ ok temps → TempsOlder s'.calls temps)

  raised-Broken : (s s' : State) (e : Error) → Later system s s' → Broken s (err e, s')
  raised-Broken s s' e l = (l, λ temps h. absurd (ground (arith, h)))

  Broken-after :
      (s s' : State) (out : Result Temps × State) → Later system s s' → Broken s' out → Broken s out
  Broken-after s s' (r, s'') l (m, old) = (Later-trans system s s' s'' l m, old)

  -- The rest of the loop, after the file has gone to `temp`.
  abbrev go_on :
      Dict Text Text
      → List (List Text)
      → Dict Text Location
      → Temps
      → Text
      → Location
      → ℕ
      → Action Temps
  go_on destinations cycles current temps source_path temp n =
      break_cycles system destinations cycles (Dict.put source_path temp current)
        (Dict.put source_path (temp, codes "_ctxfs_cycle/" ++ system.uuid n) temps)

  -- One cycle is broken: the file at `source` goes to a temporary location.
  abbrev break_one :
      Dict Text Text
      → List (List Text)
      → Dict Text Location
      → Temps
      → Text
      → Location
      → Action Temps
  break_one destinations cycles current temps source_path source =
      undo_path system (codes "cycle") >>= λ temp. draw >>= λ n.
      rename_tree_file system source temp >>= λ _.
      go_on destinations cycles current temps source_path temp n

  abbrev Breaks : Dict Text Text → List (List Text) → Type 0
  Breaks destinations cycles =
      (current : Dict Text Location) (temps : Temps) (s : State)
      → AreOlder s.calls current
      → TempsOlder s.calls temps
      → Broken s (break_cycles system destinations cycles current temps s)

  break_one-Broken :
      (destinations : Dict Text Text) (cycles : List (List Text)) (current : Dict Text Location)
      (temps : Temps) (source_path : Text) (source : Location) (s : State)
      → Breaks destinations cycles
      → Older s.calls source
      → AreOlder s.calls current
      → TempsOlder s.calls temps
      → Broken s (break_one destinations cycles current temps source_path source s)
  break_one-Broken destinations cycles current temps source_path source s ih from all olds =
      let t = (undo_path system (codes "cycle") s).1 in
      let quiet = undo_path-IsStill s.calls (codes "cycle") s in
      let named = IsQuiet-Later system s t quiet in
      >>=-outcome (Broken s) (undo_path system (codes "cycle"))
        (λ temp. draw >>= λ n. rename_tree_file system source temp >>= λ _.
          go_on destinations cycles current temps source_path temp n)
        s (λ e. raised-Broken s t e named)
        (λ temp e.
          let u = tick t in
          let le : s.calls ≤ u.calls = omega (arith, quiet.calls) in
          let drawn : Later system s u = Later-trans system s t u named (
            IsQuiet-Later system t u (record {
              calls = omega arith;
              stack = refl;
              cleanups = refl;
              rows = refl;
              files = λ l old. refl;
            })) in
          let new : Older u.calls temp =
            Older-mono t.calls u.calls temp (omega arith)
              (undo_path-Older (codes "cycle") s temp e) in
          let v = (rename_tree_file system source temp u).1 in
          let renamed =
            rename_tree_file-Later system source temp u (Older-mono s.calls u.calls source le from)
              new in
          let done = Later-trans system s u v drawn renamed in
          let le' : s.calls ≤ v.calls = omega (arith, le, renamed.calls) in
          let new' = Older-mono u.calls v.calls temp renamed.calls new in
          >>=-outcome (Broken s) (rename_tree_file system source temp)
            (λ _. go_on destinations cycles current temps source_path temp t.calls) u
            (λ x. raised-Broken s v x done)
            (λ _ _.
              Broken-after s v (go_on destinations cycles current temps source_path temp t.calls v)
                done
                (ih (Dict.put source_path temp current)
                  (Dict.put source_path (temp, codes "_ctxfs_cycle/" ++ system.uuid t.calls) temps)
                  v (put-AreOlder s.calls v.calls source_path temp current le' new' all)
                  (put-TempsOlder s.calls v.calls source_path temp _ temps le' new' olds))))

  break_cycles-Broken :
      (destinations : Dict Text Text) (cycles : List (List Text)) → Breaks destinations cycles
  unfolding break_cycles
  break_cycles-Broken destinations [] current temps s all olds = (
    Later-refl system s,
    λ found h. let same : temps ≡ found = ground (arith, h) in subst (TempsOlder s.calls) same olds,
  )
  break_cycles-Broken destinations (cycle ∷ cycles) current temps s all olds =
      let run = break_cycles system destinations (cycle ∷ cycles) current temps s in
      let stopped : (e : Error) → run ≡ (err e, s) → Broken s run =
        λ e h. subst (Broken s) (sym h) (raised-Broken s s e (Later-refl system s)) in
      elim (Result-cases (first cycle)) [
        | inr (e, f) ↦ stopped e (ground (arith, f))
        | inl (start, f) ↦ elim (Option-cases (Dict.get start destinations)) [
          | inl g ↦ stopped key_error (ground (arith, f, g))
          | inr (path, g) ↦ elim (Option-cases (Dict.get path current)) [
            | inl h ↦ stopped key_error (ground (arith, f, g, h))
            | inr (source, h) ↦ elim (Option-cases (s.files source)) [
              | inl absent ↦
                  let skips : run ≡ break_cycles system destinations cycles current temps s =
                    ground (arith, f, g, h, absent) in
                  subst (Broken s) (sym skips)
                    (break_cycles-Broken destinations cycles current temps s all olds)
              | inr (file, there) ↦
                  let breaks : run ≡ break_one destinations cycles current temps path source s =
                    ground (arith, f, g, h, there) in
                  subst (Broken s) (sym breaks) (
                    break_one-Broken destinations cycles current temps path source s
                      (break_cycles-Broken destinations cycles) (all path source h) all olds)
            ]
          ]
        ]
      ]

  break_move_cycles-Broken :
      (destinations : Dict Text Text) (current : Dict Text Location) (s : State)
      → AreOlder s.calls current
      → Broken s (break_move_cycles system destinations current s)
  unfolding break_move_cycles
  break_move_cycles-Broken destinations current s all =
      elim (Result-cases (move_cycles destinations)) [
        | inr (e, f) ↦
            let stops : break_move_cycles system destinations current s ≡ (err e, s) =
              ground (arith, f) in
            subst (Broken s) (sym stops) (raised-Broken s s e (Later-refl system s))
        | inl (cycles, f) ↦
            let goes : break_move_cycles system destinations current s
                ≡ break_cycles system destinations cycles current [] s =
              ground (arith, f) in
            subst (Broken s) (sym goes)
              (break_cycles-Broken destinations cycles current [] s all (no_temps s.calls))
      ]

  pub update_entries-IsSafe :
      (statement : List EntryRow → Result (List EntryRow))
      → IsSafe system (update_entries statement)
  unfolding update_entries
  update_entries-IsSafe statement s = elim (Result-cases (statement s.entries)) [
    | inl (rows, e) ↦
        let ended : (update_entries statement s).1 ≡ record s { entries = rows } =
          ground (arith, e) in
        subst (Later system s) (sym ended) (
          IsQuiet-Later system s (record s { entries = rows })
            (record {
              calls = omega arith;
              stack = refl;
              cleanups = refl;
              rows = refl;
              files = λ l old. refl;
            }))
    | inr (x, e) ↦
        let ended : (update_entries statement s).1 ≡ s = ground (arith, e) in
        subst (Later system s) (sym ended) (Later-refl system s)
  ]

  pub now-IsSafe : IsSafe system (now system)
  now-IsSafe s = IsQuiet-Later system s (tick s) (record {
    calls = omega arith;
    stack = refl;
    cleanups = refl;
    rows = refl;
    files = λ l old. refl;
  })

  park-IsSafe :
      (writer : Text) (keys : Dict Text Text) (parked : Text × (Location × Text))
      → IsSafe system (park system writer keys parked)
  unfolding park
  park-IsSafe writer keys (old_path, (temp, temp_logical_path)) =
      >>=-IsSafe system (now system)
        (λ time. lift (or_raise (Dict.get old_path keys) key_error) >>= λ key. update_entries (
          update_path (Moves.is_source writer key) temp_logical_path
            (λ row. record row { path = temp_logical_path; updated_at = time })))
        now-IsSafe
        (λ time.
          >>=-IsSafe system (lift (or_raise (Dict.get old_path keys) key_error))
            (λ key. update_entries (
              update_path (Moves.is_source writer key) temp_logical_path
                (λ row. record row { path = temp_logical_path; updated_at = time })))
            (Later-refl system) (λ key. update_entries-IsSafe _))

  -- A loop whose turns keep the journal from a number of calls on.
  for_each-Later :
      {A : Type 0} (n : ℕ) (body : A → Action (Unit {0})) (xs : List A)
      → ((a : A) (s : State) → n ≤ s.calls → Later system s (body a s).1)
      → (s : State) → n ≤ s.calls
      → Later system s (for_each body xs s).1
  unfolding for_each
  for_each-Later n body [] h s le = Later-refl system s
  for_each-Later n body (x ∷ xs) h s le =
      let first = h x s le in
      >>=-ends (Later system s) (body x) (λ _. for_each body xs) s first
        (λ _.
          Later-trans system s (body x s).1 (for_each body xs (body x s).1).1 first
            (for_each-Later n body xs h (body x s).1 (omega (arith, le, first.calls))))

  move_source-Older :
      (n : ℕ) (path : Text) (temps : Temps) → TempsOlder n temps → Older n (move_source path temps)
  move_source-Older n path temps olds = elim (Option-cases (Dict.get path temps)) [
    | inl e ↦
        let same : move_source path temps ≡ tree path = ground (arith, e) in
        subst (Older n) (sym same) tt
    | inr ((l, x), e) ↦
        let same : move_source path temps ≡ l = ground (arith, e) in
        subst (Older n) (sym same) (olds path l x e)
  ]

  move_file-Later :
      (n : ℕ) (old_path path : Text) (temps : Temps) (s : State)
      → TempsOlder n temps
      → n ≤ s.calls
      → Later system s (move_file system old_path path temps s).1
  unfolding move_file
  move_file-Later n old_path path temps s olds le =
      let source = move_source old_path temps in
      let end = (move_file system old_path path temps s).1 in
      let stays : end ≡ s → Later system s end =
        λ h. subst (Later system s) (sym h) (Later-refl system s) in
      elim (Bool-cases (old_path == path)) [
        | inl e ↦ stays (ground (arith, e))
        | inr e ↦ elim (Option-cases (s.files source)) [
          | inl absent ↦ stays (ground (arith, e, absent))
          | inr (f, there) ↦
              let ended : end ≡ (rename_tree_file system source (tree path) s).1 =
                ground (arith, e, there) in
              subst (Later system s) (sym ended) (
                rename_tree_file-Later system source (tree path) s
                  (Older-mono n s.calls source le (move_source-Older n old_path temps olds)) tt)
        ]
      ]

  -- The update that ends a turn of the second loop.
  abbrev settled : Text → MoveOperation → Text → Time → Action (Unit {0})
  settled writer o path time = update_entries (
      update_path (Moves.is_source writer o.source_key) path
        (λ row. record row { path = path; source_version = o.source_version; updated_at = time }))

  abbrev settle : Text → MoveOperation → Text → Action (Unit {0})
  settle writer o path = now system >>= settled writer o path

  settle-IsSafe :
      (writer : Text) (o : MoveOperation) (path : Text) → IsSafe system (settle writer o path)
  settle-IsSafe writer o path =
      >>=-IsSafe system (now system) (settled writer o path) now-IsSafe
        (λ time. update_entries-IsSafe _)

  move_one-Later :
      (n : ℕ) (writer : Text) (found : Dict Text EntryRow) (temps : Temps) (o : MoveOperation)
      (s : State)
      → TempsOlder n temps
      → n ≤ s.calls
      → Later system s (move_one system writer found temps o s).1
  unfolding move_one
  move_one-Later n writer found temps o s olds le =
      let run = move_one system writer found temps o s in
      let stays : (e : Error) → run ≡ (err e, s) → Later system s run.1 =
        λ e h. subst (λ x. Later system s x.1) (sym h) (Later-refl system s) in
      elim (Option-cases (Dict.get o.source_key found)) [
        | inl e ↦ stays key_error (ground (arith, e))
        | inr (entry, e) ↦ elim (Result-cases (normalize_path o.path)) [
          | inr (x, f) ↦ stays x (ground (arith, e, f))
          | inl (path, f) ↦
              let moves : run ≡ (move_file system entry.path path temps >> settle writer o path) s =
                ground (arith, e, f) in
              let first = move_file-Later n entry.path path temps s olds le in
              let t = (move_file system entry.path path temps s).1 in
              subst (λ x. Later system s x.1) (sym moves)
                (>>=-ends (Later system s) (move_file system entry.path path temps)
                  (λ _. settle writer o path) s first
                  (λ _.
                    Later-trans system s t (settle writer o path t).1 first
                      (settle-IsSafe writer o path t)))
        ]
      ]

  -- The checks of a move change nothing.
  validated_move_entry-keeps :
      (user writer : Text) (o : MoveOperation) (s : State)
      → (validated_move_entry user writer o s).1 ≡ s
  unfolding validated_move_entry entry_by_source_key
  validated_move_entry-keeps user writer o s = elim (Result-cases (normalize_path o.path)) [
    | inr (_, e) ↦ ground (arith, e)
    | inl (path, e) ↦ elim (Result-cases (require_authorized_path s.prefixes user writer path)) [
      | inr (_, f) ↦ ground (arith, e, f)
      | inl (_, f) ↦ elim (Option-cases (find (Moves.is_source writer o.source_key) s.entries)) [
        | inl g ↦ ground (arith, e, f, g)
        | inr (entry, g) ↦
            elim (Result-cases (require_authorized_path s.prefixes user writer entry.path)) [
              | inr (_, h) ↦ ground (arith, e, f, g, h)
              | inl (_, h) ↦ elim (Bool-cases (entry.content_hash == o.expected_content_hash)) [
                | inl k ↦ ground (arith, e, f, g, h, k)
                | inr k ↦ ground (arith, e, f, g, h, k)
              ]
            ]
      ]
    ]
  ]

  validated_move_entry-IsStill :
      (n : ℕ) (user writer : Text) (o : MoveOperation)
      → IsStill n (validated_move_entry user writer o)
  validated_move_entry-IsStill n user writer o s =
      subst (IsQuiet n s) (sym (validated_move_entry-keeps user writer o s)) (IsQuiet-refl n s)

  validated_entries-IsStill :
      (n : ℕ) (user writer : Text) (operations : List MoveOperation) (found : Dict Text EntryRow)
      → IsStill n (validated_entries user writer operations found)
  unfolding validated_entries
  validated_entries-IsStill n user writer [] found = IsQuiet-refl n
  validated_entries-IsStill n user writer (o ∷ operations) found =
      >>=-IsStill n (validated_move_entry user writer o)
        (λ entry. validated_entries user writer operations (Dict.put o.source_key entry found))
        (validated_move_entry-IsStill n user writer o)
        (λ entry.
          validated_entries-IsStill n user writer operations (Dict.put o.source_key entry found))

  -- The two loops, once the cycles are broken.
  abbrev finish_batch : Text → List MoveOperation → Dict Text EntryRow → Temps → Action (Unit {0})
  finish_batch writer operations found temps =
      for_each (park system writer (source_keys_by_path found [])) temps >>= λ _.
      for_each (move_one system writer found temps) operations

  finish_batch-Later :
      (writer : Text) (operations : List MoveOperation) (found : Dict Text EntryRow) (temps : Temps)
      (s : State)
      → TempsOlder s.calls temps
      → Later system s (finish_batch writer operations found temps s).1
  finish_batch-Later writer operations found temps s olds =
      let parking = for_each (park system writer (source_keys_by_path found [])) temps in
      let first =
        for_each-IsSafe system (park system writer (source_keys_by_path found [])) temps
          (park-IsSafe writer (source_keys_by_path found [])) s in
      let t = (parking s).1 in
      >>=-ends (Later system s) parking
        (λ _. for_each (move_one system writer found temps) operations) s first
        (λ _.
          Later-trans system s t (for_each (move_one system writer found temps) operations t).1
            first
            (for_each-Later s.calls (move_one system writer found temps) operations
              (λ o u le. move_one-Later s.calls writer found temps o u olds le) t first.calls))

  abbrev break_and_finish :
      Text → List MoveOperation → Dict Text EntryRow → Dict Text Text → Action (Unit {0})
  break_and_finish writer operations found destinations =
      break_move_cycles system destinations (current_locations found []) >>= λ temps.
      finish_batch writer operations found temps

  break_and_finish-IsSafe :
      (writer : Text) (operations : List MoveOperation) (found : Dict Text EntryRow)
      (destinations : Dict Text Text)
      → IsSafe system (break_and_finish writer operations found destinations)
  break_and_finish-IsSafe writer operations found destinations s =
      let current = current_locations found [] in
      let broken =
        break_move_cycles-Broken destinations current s
          (current_locations-AreOlder s.calls found [] (no_locations s.calls)) in
      let t = (break_move_cycles system destinations current s).1 in
      >>=-outcome (λ x. Later system s x.1) (break_move_cycles system destinations current)
        (λ temps. finish_batch writer operations found temps) s (λ _. broken.0)
        (λ temps e.
          Later-trans system s t (finish_batch writer operations found temps t).1 broken.0
            (finish_batch-Later writer operations found temps t (broken.1 temps e)))

  pub move_batch-IsSafe :
      (user writer : Text) (operations : List MoveOperation)
      → IsSafe system (move_batch system user writer operations)
  unfolding move_batch
  move_batch-IsSafe user writer [] = Later-refl system
  move_batch-IsSafe user writer (o ∷ operations) =
      >>=-IsSafe system (validated_entries user writer (o ∷ operations) [])
        (λ found.
          lift (move_destinations found (o ∷ operations) [])
          >>= break_and_finish writer (o ∷ operations) found)
        (IsStill-IsSafe system (validated_entries user writer (o ∷ operations) [])
          (λ n. validated_entries-IsStill n user writer (o ∷ operations) []))
        (λ found.
          >>=-IsSafe system (lift (move_destinations found (o ∷ operations) []))
            (break_and_finish writer (o ∷ operations) found) (Later-refl system)
            (break_and_finish-IsSafe writer (o ∷ operations) found))
