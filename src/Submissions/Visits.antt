-- ===== src/Submissions/Visits.antt =====
-- What `visit` of `_ordered_operations` in src/ctxfs/store.py does to the variables of the loop.
use ctxd.Prelude.{
  ℕ, zero, suc, ◌≡◌, refl, ◌∙◌, subst, true, false, List, [], ◌∷◌, ◌++◌, map, some, inl, inr, ◌==◌,
  nat_eq, list_eq, option_eq, pair_eq, Text, arith, eq_iff, eq_refl, Bool-cases, Option-cases,
  Result, ok, Result-cases, In, Any-append, mem, has_duplicates, mem-append, has_duplicates-snoc,
  mem-discard,
}
use ctxd.Prelude.Dict
use ctxd.Prelude.Dict.{Dict}
use ctxd.Paths.{normalize_path}
use ctxd.Submissions.Operations.{MoveOperation, Visit, visit, visit_dependency, finish, visit_all}

abbrev pub key : MoveOperation → Text
key o = o.source_key

-- What one visit leaves of the state that it found.
pub record Grows (moves : List MoveOperation) (v v' : Visit) : Type 0 where
  pub temporary : (k : Text) → mem k v'.temporary ≡ mem k v.temporary
  pub kept : (k : Text) → mem k v.permanent ≡ true → mem k v'.permanent ≡ true
  pub barred : (k : Text) → mem k v.temporary ≡ true → mem k v'.permanent ≡ mem k v.permanent

-- The ordered moves are moves of the submission, each once, and `permanent` holds their keys.
pub record IsOrder (moves : List MoveOperation) (v : Visit) : Type 0 where
  pub keys : (k : Text) → mem k v.permanent ≡ mem k (map key v.ordered_moves)
  pub once : has_duplicates (map key v.ordered_moves) ≡ false
  pub from : (o : MoveOperation) → In o v.ordered_moves → In o moves

map-snoc :
    (xs : List MoveOperation) (o : MoveOperation)
    → map key (xs ++ o ∷ []) ≡ map key xs ++ key o ∷ []
map-snoc [] o = refl
map-snoc (x ∷ xs) o = rw (map-snoc xs o)

module _ (moves : List MoveOperation) (o : MoveOperation) (m : In o moves) (v visited : Visit) where
  finish-IsOrder :
      mem (key o) visited.permanent ≡ false
      → IsOrder moves visited
      → IsOrder moves (finish o visited)
  unfolding mem
  finish-IsOrder new w = record {
    keys = λ k. rw (map-snoc visited.ordered_moves o, mem-append) (ground (arith, w.keys k));
    once =
        rw (map-snoc visited.ordered_moves o, has_duplicates-snoc)
          (ground (arith, w.once, w.keys (key o)));
    from = λ x n. elim ((Any-append (λ y. y ≡ x) visited.ordered_moves (o ∷ [])).0 n) [
      | inl old ↦ w.from x old
      | inr new ↦ elim new [ inl here ↦ subst (λ y. In y moves) here m | inr end ↦ absurd end ]
    ];
  }

  finish-Grows :
      mem (key o) v.temporary ≡ false
      → Grows moves (record v { temporary = key o ∷ v.temporary }) visited
      → Grows moves v (finish o visited)
  unfolding mem
  finish-Grows new g = record {
    temporary = λ k.
        ground (arith, mem-discard k (key o) visited.temporary, g.temporary k, eq_iff k (key o));
    kept = λ k h. ground (arith, g.kept k);
    barred = λ k h. ground (arith, g.barred k, eq_iff k (key o));
  }

Grows-refl : (moves : List MoveOperation) (v : Visit) → Grows moves v v
Grows-refl moves v = record { temporary = λ k. refl; kept = λ k h. h; barred = λ k h. refl }

-- A visit from a state ended well.
pub record Visits (moves : List MoveOperation) (v v' : Visit) : Type 0 where
  pub grows : Grows moves v v'
  pub order : IsOrder moves v'

module _ (moves : List MoveOperation) (by_path : Dict Text MoveOperation)
    (inside : (path : Text) (d : MoveOperation) → Dict.get path by_path ≡ some d → In d moves) where
  -- The rest of a visit of `o` that was neither finished nor under way.
  entered-Visits :
      (o : MoveOperation) (v visited : Visit)
      → In o moves
      → mem (key o) v.permanent ≡ false
      → mem (key o) v.temporary ≡ false
      → Visits moves (record v { temporary = key o ∷ v.temporary }) visited
      → Visits moves v (finish o visited) × (mem (key o) (finish o visited).permanent ≡ true)
  unfolding mem
  entered-Visits o v visited m p t w =
      let still : mem (key o) visited.permanent ≡ false =
        w.grows.barred (key o) (ground (arith, eq_refl (key o))) ∙ p in
      (
        record {
          grows = finish-Grows moves o m v visited t w.grows;
          order = finish-IsOrder moves o m v visited still w.order;
        },
        ground (arith, eq_refl (key o)),
      )

  dependency-Visits :
      (rec : MoveOperation → Visit → Result Visit)
      → ((o : MoveOperation) (v v' : Visit)
          → In o moves
          → IsOrder moves v
          → rec o v ≡ ok v'
          → Visits moves v v')
      → (o : MoveOperation) (path : Text) (v v' : Visit) → IsOrder moves v
      → visit_dependency rec o (Dict.get path by_path) v ≡ ok v'
      → Visits moves v v'
  unfolding visit_dependency
  dependency-Visits rec ih o path v v' w h = elim (Option-cases (Dict.get path by_path)) [
    | inl e ↦
        let same : v ≡ v' = ground (arith, e) in
        subst (Visits moves v) same (record { grows = Grows-refl moves v; order = w })
    | inr (d, e) ↦ elim (Bool-cases (d.source_key == o.source_key)) [
      | inl k ↦
          let same : v ≡ v' = ground (arith, e, k) in
          subst (Visits moves v) same (record { grows = Grows-refl moves v; order = w })
      | inr k ↦ ih d v v' (inside path d e) w (ground (arith, e, k))
    ]
  ]

  abbrev Settles : MoveOperation → Visit → Visit → Type 0
  Settles o v v' =
      Visits moves v v' × (mem (key o) v.temporary ≡ false → mem (key o) v'.permanent ≡ true)

  visit-Visits :
      (fuel : ℕ) (o : MoveOperation) (v v' : Visit)
      → In o moves
      → IsOrder moves v
      → visit fuel by_path o v ≡ ok v'
      → Settles o v v'
  unfolding visit
  visit-Visits zero o v v' m w h = absurd (ground arith)
  visit-Visits (suc fuel) o v v' m w h = elim (Bool-cases (mem (key o) v.permanent)) [
    | inl p ↦
        let same : v ≡ v' = ground (arith, p) in
        subst (Settles o v) same (record { grows = Grows-refl moves v; order = w }, λ _. p)
    | inr p ↦ elim (Bool-cases (mem (key o) v.temporary)) [
      | inl t ↦
          let same : v ≡ v' = ground (arith, p, t) in
          subst (Settles o v) same
            (record { grows = Grows-refl moves v; order = w }, λ f. absurd (ground (arith, f, t)))
      | inr t ↦ elim (Result-cases (normalize_path o.path)) [
        | inr (_, e) ↦ absurd (ground (arith, p, t, e))
        | inl (destination, e) ↦
            let started : Visit = record v { temporary = key o ∷ v.temporary } in
            elim (Result-cases
              (visit_dependency (visit fuel by_path) o (Dict.get destination by_path) started)) [
                | inr (_, f) ↦ absurd (ground (arith, p, t, e, f))
                | inl (visited, f) ↦
                    let done : finish o visited ≡ v' = ground (arith, p, t, e, f) in
                    let below =
                      dependency-Visits (visit fuel by_path)
                        (λ d x x' n wx hx. (visit-Visits fuel d x x' n wx hx).0) o destination
                        started visited (record { keys = w.keys; once = w.once; from = w.from })
                        f in
                    let (g, k) = entered-Visits o v visited m p t below in
                    subst (Settles o v) done (g, λ _. k)
              ]
      ]
    ]
  ]

  -- After the loop every move has been visited.
  pub visit_all-IsOrder :
      (fuel : ℕ) (rest : List MoveOperation) (v v' : Visit)
      → ((o : MoveOperation) → In o rest → In o moves)
      → ((k : Text) → mem k v.temporary ≡ false)
      → IsOrder moves v
      → visit_all fuel by_path rest v ≡ ok v'
      → IsOrder moves v'
        × ((k : Text) → mem k v.permanent ≡ true → mem k v'.permanent ≡ true)
        × ((o : MoveOperation) → In o rest → mem (key o) v'.permanent ≡ true)
  unfolding visit_all
  visit_all-IsOrder fuel [] v v' sub idle w h =
      let same : v ≡ v' = ground arith in
      (subst (IsOrder moves) same w, λ k p. ground (arith, p, same), λ o n. absurd n)
  visit_all-IsOrder fuel (o ∷ rest) v v' sub idle w h =
      elim (Result-cases (visit fuel by_path o v)) [
        | inr (_, e) ↦ absurd (ground (arith, e))
        | inl (u, e) ↦
            let (g, k) = visit-Visits fuel o v u (sub o (inl refl)) w e in
            let (order, kept, all) =
              visit_all-IsOrder fuel rest u v' (λ x n. sub x (inr n))
                (λ j. g.grows.temporary j ∙ idle j) g.order (ground (arith, e)) in
            (
              order,
              λ j p. kept j (g.grows.kept j p),
              λ x n. elim n [
                | inl here ↦ rw (← here) (kept (key o) (k (idle (key o))))
                | inr there ↦ all x there
              ],
            )
      ]
