-- ===== src/Submissions/Ordering.antt =====
-- The visits of `_ordered_operations` of src/ctxfs/store.py, and the order that they leave.
use ctxd.Prelude.{
  ℕ, zero, suc, ◌≤◌, ◌<◌, ◌≡◌, refl, sym, ap, ◌∙◌, subst, ◌↔◌, true, false, not, List, [], ◌∷◌, map,
  some, inl, inr, ◌==◌, nat_eq, list_eq, option_eq, pair_eq, filter, length, Text, arith, eq_iff,
  eq_refl, Bool-cases, Option-cases, ok, In, mem, has_duplicates,
}
use ctxd.Prelude.Dict
use ctxd.Prelude.Dict.{Dict}
use ctxd.Paths.{normalize_path}
use ctxd.Paths.Canonical.{IsCanonical, normalize_path-IsCanonical}
use ctxd.Submissions.Operations.{
  MoveOperation, Visit, visit, visit_dependency, finish, visit_all, order_moves,
  moves_by_source_path, SourceIdentity, start,
}
use ctxd.Submissions.Visits.{key, visit_all-IsOrder}

-- The moves that are not under way.
pub pending : List MoveOperation → List Text → ℕ
pending moves temporary = length (filter (λ o. not (mem (key o) temporary)) moves)

pending-le :
    (moves : List MoveOperation) (k : Text) (t : List Text)
    → pending moves (k ∷ t) ≤ pending moves t
unfolding pending mem
pending-le [] k t = omega arith
pending-le (o ∷ moves) k t = ground (arith, pending-le moves k t)

pub pending-lt :
    (moves : List MoveOperation) (o : MoveOperation) (t : List Text)
    → In o moves
    → mem (key o) t ≡ false
    → pending moves (key o ∷ t) < pending moves t
unfolding pending mem
pending-lt [] o t m h = absurd m
pending-lt (x ∷ moves) o t m h = elim m [
  | inl here ↦ rw here (ground (arith, pending-le moves (key o) t, eq_refl (key o), h))
  | inr there ↦ ground (arith, pending-lt moves o t there h)
]

pub pending-le_length :
    (moves : List MoveOperation) (t : List Text) → pending moves t ≤ length moves
unfolding pending
pending-le_length [] t = omega arith
pending-le_length (o ∷ moves) t = ground (arith, pending-le_length moves t)

module _ (moves : List MoveOperation) (by_path : Dict Text MoveOperation)
    (inside : (path : Text) (d : MoveOperation) → Dict.get path by_path ≡ some d → In d moves)
    (paths : (o : MoveOperation) → In o moves → normalize_path o.path ≡ ok o.path) where
  visit_total :
      (fuel : ℕ) (o : MoveOperation) (v : Visit)
      → In o moves
      → pending moves v.temporary < fuel
      → (v' : Visit) × (visit fuel by_path o v ≡ ok v')
  unfolding visit visit_dependency
  visit_total zero o v m h = absurd (omega arith)
  visit_total (suc fuel) o v m h = elim (Bool-cases (mem (key o) v.permanent)) [
    | inl p ↦ (v, ground (arith, p))
    | inr p ↦ elim (Bool-cases (mem (key o) v.temporary)) [
      | inl t ↦ (v, ground (arith, p, t))
      | inr t ↦
          let started : Visit = record v { temporary = key o ∷ v.temporary } in
          let room : pending moves (key o ∷ v.temporary) < fuel =
            omega (arith, pending-lt moves o v.temporary m t) in
          elim (Option-cases (Dict.get o.path by_path)) [
            | inl e ↦ (finish o started, ground (arith, p, t, e, paths o m))
            | inr (d, e) ↦ elim (Bool-cases (d.source_key == o.source_key)) [
              | inl k ↦ (finish o started, ground (arith, p, t, e, k, paths o m))
              | inr k ↦
                  let (u, f) = visit_total fuel d started (inside o.path d e) room in
                  (finish o u, ground (arith, p, t, e, k, f, paths o m))
            ]
          ]
    ]
  ]

  visit_all_total :
      (fuel : ℕ) (rest : List MoveOperation) (v : Visit)
      → ((o : MoveOperation) → In o rest → In o moves)
      → length moves < fuel
      → (v' : Visit) × (visit_all fuel by_path rest v ≡ ok v')
  unfolding visit_all
  visit_all_total fuel [] v sub h = (v, refl)
  visit_all_total fuel (o ∷ rest) v sub h =
      let (u, e) =
        visit_total fuel o v (sub o (inl refl))
          (omega (arith, pending-le_length moves v.temporary)) in
      let (v', f) = visit_all_total fuel rest u (λ x n. sub x (inr n)) h in
      (v', ground (arith, e, f))

put-inside :
    (moves : List MoveOperation) (o : MoveOperation)
    → In o moves
    → (p : Text) (by_path : Dict Text MoveOperation)
    → ((path : Text) (d : MoveOperation) → Dict.get path by_path ≡ some d → In d moves)
    → (path : Text) (d : MoveOperation) → Dict.get path (Dict.put p o by_path) ≡ some d
    → In d moves
put-inside moves o m p by_path inside path d h = elim (Bool-cases (p == path)) [
  | inl e ↦
      let same : o ≡ d = ground (arith, Dict.get-put p path o by_path, e) in
      subst (λ x. In x moves) same m
  | inr e ↦ inside path d (ground (arith, Dict.get-put p path o by_path, e))
]

pub by_path-inside :
    (moves : List MoveOperation) (writer : Text) (paths : Dict SourceIdentity Text)
    (rest : List MoveOperation) (by_path : Dict Text MoveOperation)
    → ((o : MoveOperation) → In o rest → In o moves)
    → ((path : Text) (d : MoveOperation) → Dict.get path by_path ≡ some d → In d moves)
    → (path : Text) (d : MoveOperation)
    → Dict.get path (moves_by_source_path writer paths rest by_path) ≡ some d
    → In d moves
unfolding moves_by_source_path
by_path-inside moves writer paths [] by_path sub inside path d h = inside path d h
by_path-inside moves writer paths (o ∷ rest) by_path sub inside path d h =
    elim (Option-cases (Dict.get (writer, o.source_key) paths)) [
      | inl e ↦
          by_path-inside moves writer paths rest by_path (λ x n. sub x (inr n)) inside path d
            (rw e at h)
      | inr (p, e) ↦
          by_path-inside moves writer paths rest (Dict.put p o by_path) (λ x n. sub x (inr n))
            (put-inside moves o (sub o (inl refl)) p by_path inside) path d (rw e at h)
    ]

In-key :
    (k : Text) (xs : List MoveOperation)
    → mem k (map key xs) ≡ true
    → (o : MoveOperation) × In o xs × (key o ≡ k)
unfolding mem
In-key k [] h = absurd (ground arith)
In-key k (x ∷ xs) h = elim (Bool-cases (k == key x)) [
  | inl e ↦ (x, inl refl, sym ((eq_iff k (key x)).0 e))
  | inr e ↦ let (o, m, f) = In-key k xs (ground (arith, e)) in (o, inr m, f)
]

mem-key : (o : MoveOperation) (xs : List MoveOperation) → In o xs → mem (key o) (map key xs) ≡ true
unfolding mem
mem-key o [] m = absurd m
mem-key o (x ∷ xs) m = elim m [
  | inl here ↦ rw here (ground (arith, eq_refl (key o)))
  | inr there ↦ ground (arith, mem-key o xs there)
]

-- Moves of one source are one move.
same_key :
    (xs : List MoveOperation) (a b : MoveOperation)
    → has_duplicates (map key xs) ≡ false
    → In a xs
    → In b xs
    → key a ≡ key b
    → a ≡ b
unfolding has_duplicates
same_key [] a b d m n e = absurd m
same_key (x ∷ xs) a b d m n e = elim m [
  | inl here ↦ elim n [
    | inl also ↦ sym here ∙ also
    | inr there ↦ absurd (ground (arith, mem-key b xs there, ap key here, e, d))
  ]
  | inr there ↦ elim n [
    | inl here ↦ absurd (ground (arith, mem-key a xs there, ap key here, e, d))
    | inr also ↦ same_key xs a b (ground (arith, d)) there also e
  ]
]

-- The order of moves of distinct sources to canonical paths is found, and it is a permutation of
-- the moves: the same moves, none of them twice.
pub order_moves-permutes :
    (writer : Text) (paths : Dict SourceIdentity Text) (moves : List MoveOperation)
    → has_duplicates (map key moves) ≡ false
    → ((o : MoveOperation) → In o moves → IsCanonical o.path)
    → (ordered : List MoveOperation) × (order_moves writer paths moves ≡ ok ordered)
      × (has_duplicates (map key ordered) ≡ false)
      × ((o : MoveOperation) → In o ordered ↔ In o moves)
unfolding order_moves
order_moves-permutes writer paths moves unique canonical =
    let by_path = moves_by_source_path writer paths moves [] in
    let inside =
      by_path-inside moves writer paths moves [] (λ o m. m)
        (λ path d h. absurd (unfold Dict.get in ground arith)) in
    let (v, e) =
      visit_all_total moves by_path inside
        (λ o m. normalize_path-IsCanonical o.path (canonical o m)) (suc (length moves)) moves start
        (λ o m. m) (omega arith) in
    let (order, _, all) =
      visit_all-IsOrder moves by_path inside (suc (length moves)) moves start v (λ o m. m)
        (λ k. unfold mem in refl)
        (record { keys = λ k. refl; once = unfold has_duplicates in refl; from = λ o m. absurd m })
        e in
    (
      v.ordered_moves,
      ground (arith, e),
      order.once,
      λ o. (
        order.from o,
        λ m.
            let (x, n, k) = In-key (key o) v.ordered_moves (sym (order.keys (key o)) ∙ all o m) in
            subst (λ y. In y v.ordered_moves) (same_key moves x o unique (order.from x n) m k) n,
      ),
    )
