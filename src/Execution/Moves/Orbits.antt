-- ===== src/Execution/Moves/Orbits.antt =====
-- Where planned moves lead: the walk from path to path that `_move_cycles` of src/ctxfs/store.py does.
use ctxd.Prelude.{
  ◌≡◌, sym, subst, ◌⊎◌, inl, inr, true, false, List, [], ◌∷◌, ◌++◌, some, ◌==◌, nat_eq, list_eq,
  Text, mem, has_duplicates, Bool-cases, eq_iff, arith,
}
use ctxd.Prelude.Dict
use ctxd.Prelude.Dict.{Dict}
use ctxd.Execution.Moves.{from_path}

-- One or more moves lead from a path to another.
pub data Leads (d : Dict Text Text) : Text → Text → Type 0 where
  last : {p q : Text} → Dict.get p d ≡ some q → Leads d p q
  more : {p r : Text} (q : Text) → Dict.get p d ≡ some q → Leads d q r → Leads d p r

abbrev pub head_or : Text → List Text → Text
head_or end [] = end
head_or end (p ∷ ps) = p

-- The destination of each path is the next one, and of the last one it is `end`.
abbrev pub Chain : Dict Text Text → List Text → Text → Type 0
Chain d [] end = Unit {0}
Chain d (p ∷ ps) end = (Dict.get p d ≡ some (head_or end ps)) × Chain d ps end

-- A cycle of moves: different paths, each moved to the next, and the last one to the first.
abbrev pub IsCycle : Dict Text Text → List Text → Type 0
IsCycle d [] = ⊥
IsCycle d (p ∷ ps) = (has_duplicates (p ∷ ps) ≡ false) × Chain d (p ∷ ps) p

module _ (d : Dict Text Text) where
  some_same : (p q r : Text) → Dict.get p d ≡ some q → Dict.get p d ≡ some r → q ≡ r
  some_same p q r g h = ground (arith, g, h)

  pub Leads-source : {p r : Text} → Leads d p r → (q : Text) × (Dict.get p d ≡ some q)
  Leads-source (last {p} {q} h) = (q, h)
  Leads-source (more q h l) = (q, h)

  -- A path on a cycle stays ahead of a walk that leads to it.
  pub Leads-step : (x p q : Text) → Dict.get x d ≡ some q → Leads d x p → Leads d p p → Leads d q p
  Leads-step x p q h (last g) around = subst (λ y. Leads d y p) (some_same x p q g h) around
  Leads-step x p q h (more q' g l) around = subst (λ y. Leads d y p) (some_same x q' q g h) l

  Chain-end :
      (xs : List Text) (end p : Text)
      → Chain d xs end
      → Leads d (head_or end xs) p
      → Leads d p p
      → Leads d end p
  Chain-end [] end p c l around = l
  Chain-end (x ∷ xs) end p (h, c) l around =
      Chain-end xs end p c (Leads-step x p (head_or end xs) h l around) around

  pub Chain-Leads :
      (xs : List Text) (end x p : Text)
      → Chain d xs end
      → mem x xs ≡ true
      → Leads d x p
      → Leads d p p
      → Leads d end p
  unfolding mem
  Chain-Leads [] end x p c here l around = absurd (ground (arith, here))
  Chain-Leads (y ∷ xs) end x p (h, c) here l around = elim (Bool-cases (x == y)) [
    | inl e ↦
        let same : x ≡ y = (eq_iff x y).0 e in
        Chain-end (y ∷ xs) end p (h, c) (subst (λ z. Leads d z p) same l) around
    | inr e ↦ Chain-Leads xs end x p c (ground (arith, here, e)) l around
  ]

  -- The destination of a path of a chain is on it, or its end.
  Chain-next :
      (xs : List Text) (end x q : Text)
      → Chain d xs end
      → mem x xs ≡ true
      → Dict.get x d ≡ some q
      → (mem q xs ≡ true) ⊎ (q ≡ end)
  unfolding mem
  Chain-next [] end x q c here h = absurd (ground (arith, here))
  Chain-next (y ∷ []) end x q (g, c) here h =
      let same : x ≡ y = (eq_iff x y).0 (ground (arith, here)) in
      inr (some_same y q end (subst (λ z. Dict.get z d ≡ some q) same h) g)
  Chain-next (y ∷ z ∷ xs) end x q (g, c) here h = elim (Bool-cases (x == y)) [
    | inl e ↦
        let same : q ≡ z =
          some_same y q z (subst (λ w. Dict.get w d ≡ some q) ((eq_iff x y).0 e) h) g in
        inl (ground (arith, (eq_iff q z).1 same))
    | inr e ↦ elim (Chain-next (z ∷ xs) end x q c (ground (arith, here, e)) h) [
      | inl i ↦ inl (ground (arith, i))
      | inr i ↦ inr i
    ]
  ]

  IsCycle-next :
      (c : List Text) (x q : Text)
      → IsCycle d c
      → mem x c ≡ true
      → Dict.get x d ≡ some q
      → mem q c ≡ true
  unfolding mem
  IsCycle-next [] x q i here h = absurd i
  IsCycle-next (y ∷ ys) x q (_, c) here h = elim (Chain-next (y ∷ ys) y x q c here h) [
    | inl e ↦ e
    | inr e ↦ ground (arith, (eq_iff q y).1 e)
  ]

  -- What a path of a cycle leads to is on the cycle.
  pub IsCycle-closed :
      (c : List Text) (x p : Text) → IsCycle d c → mem x c ≡ true → Leads d x p → mem p c ≡ true
  IsCycle-closed c x p i here (last h) = IsCycle-next c x p i here h
  IsCycle-closed c x p i here (more q h l) = IsCycle-closed c q p i (IsCycle-next c x q i here h) l

  pub Chain-snoc :
      (xs : List Text) (x end : Text)
      → Chain d xs x
      → Dict.get x d ≡ some end
      → Chain d (xs ++ x ∷ []) end
  Chain-snoc [] x end c h = (h, tt)
  Chain-snoc (y ∷ []) x end (g, _) h = (g, (h, tt))
  Chain-snoc (y ∷ z ∷ xs) x end (g, c) h = (g, Chain-snoc (z ∷ xs) x end c h)

  rest_distinct :
      (y : Text) (ys : List Text) → has_duplicates (y ∷ ys) ≡ false → has_duplicates ys ≡ false
  unfolding has_duplicates
  rest_distinct y ys h = ground (arith, h)

  -- The part of a walk from the path that it has met again is a cycle.
  pub from_path-IsCycle :
      (stack : List Text) (path : Text)
      → mem path stack ≡ true
      → has_duplicates stack ≡ false
      → Chain d stack path
      → IsCycle d (from_path path stack) × (mem path (from_path path stack) ≡ true)
  unfolding from_path mem has_duplicates
  from_path-IsCycle [] path here distinct c = absurd (ground (arith, here))
  from_path-IsCycle (y ∷ ys) path here distinct c = elim (Bool-cases (y == path)) [
    | inl e ↦
        let same : path ≡ y = sym ((eq_iff y path).0 e) in
        rw e ((distinct, subst (Chain d (y ∷ ys)) same c), ground (arith, (eq_iff path y).1 same))
    | inr e ↦
        let apart : (path == y) ≡ false = elim (Bool-cases (path == y)) [
          | inl f ↦ absurd (cc (e, (eq_iff y path).1 (sym ((eq_iff path y).0 f))))
          | inr f ↦ f
        ] in
        rw e (from_path-IsCycle ys path (rw apart at here) (rest_distinct y ys distinct) c.1)
  ]
