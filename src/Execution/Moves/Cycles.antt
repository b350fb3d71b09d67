-- ===== src/Execution/Moves/Cycles.antt =====
-- `_move_cycles` of src/ctxfs/store.py: its loops end, and it finds the cycles.
use ctxd.Prelude.{
  sym, ◌⊎◌, ℕ, zero, suc, ◌≤◌, ◌<◌, ◌≡◌, refl, ◌∙◌, ap, subst, true, false, List, [], ◌∷◌, ◌++◌,
  map, Option, none, some, ◌==◌, nat_eq, list_eq, if◌then◌else◌, inl, inr, Text, mem, length,
  Result, ok, Bool-cases, Option-cases, eq_iff, arith, All, mem-append, has_duplicates,
  has_duplicates-snoc,
}
use ctxd.Prelude.Dict
use ctxd.Prelude.Dict.{Dict}
use ctxd.Execution.Moves.{from_path, follow, add_cycle, cycles_from, move_cycles}
use ctxd.Execution.Moves.Orbits.{
  Leads, Chain, IsCycle, Leads-source, Leads-step, Chain-Leads, Chain-snoc, IsCycle-closed,
  from_path-IsCycle,
}

-- The sources of moves that a walk has not met.
left_over : Dict Text Text → List Text → ℕ
left_over [] stack = 0
left_over ((p, q) ∷ d) stack = if mem p stack then left_over d stack else suc (left_over d stack)

left_over-le :
    (d : Dict Text Text) (path : Text) (stack : List Text)
    → left_over d (stack ++ path ∷ []) ≤ left_over d stack
unfolding left_over mem
left_over-le [] path stack = omega arith
left_over-le ((p, q) ∷ d) path stack =
    ground (arith, left_over-le d path stack, mem-append p stack (path ∷ []))

left_over-lt :
    (d : Dict Text Text) (path next : Text) (stack : List Text)
    → Dict.get path d ≡ some next
    → mem path stack ≡ false
    → left_over d (stack ++ path ∷ []) < left_over d stack
unfolding left_over mem Dict.get
left_over-lt [] path next stack h new = absurd (ground (arith, h))
left_over-lt ((p, q) ∷ d) path next stack h new = elim (Bool-cases (p == path)) [
  | inl e ↦
      let same : p ≡ path = (eq_iff p path).0 e in
      let out : mem p stack ≡ false = ap (λ x. mem x stack) same ∙ new in
      ground
        (arith, left_over-le d path stack, mem-append p stack (path ∷ []), e, out, eq_iff p path)
  | inr e ↦ ground (
    arith,
    left_over-lt d path next stack (rw e at h) new,
    mem-append p stack (path ∷ []),
    e,
    eq_iff p path,
  )
]

left_over-start : (d : Dict Text Text) → left_over d [] ≤ length d
unfolding left_over mem
left_over-start [] = omega arith
left_over-start (x ∷ d) = ground (arith, left_over-start d)

-- The path is on one of the cycles.
abbrev pub Listed : Text → List (List Text) → Type 0
Listed p [] = ⊥
Listed p (c ∷ cycles) = (mem p c ≡ true) ⊎ Listed p cycles

Listed-snoc :
    (p : Text) (cycles : List (List Text)) (c : List Text)
    → (mem p c ≡ true) ⊎ Listed p cycles
    → Listed p (cycles ++ c ∷ [])
Listed-snoc p [] c h = h
Listed-snoc p (x ∷ cycles) c (inl e) = inr (Listed-snoc p cycles c (inl e))
Listed-snoc p (x ∷ cycles) c (inr (inl e)) = inl e
Listed-snoc p (x ∷ cycles) c (inr (inr l)) = inr (Listed-snoc p cycles c (inr l))

Listed-add :
    (p : Text) (cycles : List (List Text)) (found : Option (List Text))
    → Listed p cycles
    → Listed p (add_cycle found cycles)
Listed-add p cycles none l = l
Listed-add p cycles (some c) l = Listed-snoc p cycles c (inr l)

module _ (d : Dict Text Text) where
  -- Each path that lies on a cycle of moves and that `x` leads to is listed.
  abbrev Covers : List (List Text) → Text → Type 0
  Covers cycles x = (p : Text) → Leads d x p → Leads d p p → Listed p cycles

  -- What a walk ends with, with the cycles found before.
  record Followed (cycles : List (List Text)) (stack : List Text) (path : Text)
      (r : Result (List Text × Option (List Text))) : Type 0 where
    end : List Text
    found : Option (List Text)
    ends : r ≡ ok (end, found)
    cyclic : (cycle : List Text) → found ≡ some cycle → IsCycle d cycle
    covered : Covers (add_cycle found cycles) path
    stacked : (x : Text) → mem x end ≡ true → Covers (add_cycle found cycles) x

  stopped-Followed :
      (cycles : List (List Text)) (stack : List Text) (path : Text) (found : Option (List Text))
      (r : Result (List Text × Option (List Text)))
      → r ≡ ok (stack, found)
      → Chain d stack path
      → ((cycle : List Text) → found ≡ some cycle → IsCycle d cycle)
      → Covers (add_cycle found cycles) path
      → Followed cycles stack path r
  stopped-Followed cycles stack path found r same chain cyclic covered = record {
    end = stack;
    found = found;
    ends = same;
    cyclic = cyclic;
    covered = covered;
    stacked =
        λ x here p l around. covered p (Chain-Leads d stack path x p chain here l around) around;
  }

  follow-Followed :
      (fuel : ℕ) (cycles : List (List Text)) (seen stack : List Text) (path : Text)
      → left_over d stack < fuel
      → ((x : Text) → mem x seen ≡ true → Covers cycles x)
      → Chain d stack path
      → has_duplicates stack ≡ false
      → Followed cycles stack path (follow fuel d seen stack path)
  unfolding follow
  follow-Followed zero cycles seen stack path room old chain distinct = absurd (omega (arith, room))
  follow-Followed (suc fuel) cycles seen stack path room old chain distinct =
      let run = follow (suc fuel) d seen stack path in
      elim (Option-cases (Dict.get path d)) [
        | inl e ↦
            stopped-Followed cycles stack path none run (ground (arith, e)) chain
              (λ cycle h. absurd (ground (arith, h)))
              (λ p l around. let (q, g) = Leads-source d l in absurd (ground (arith, e, g)))
        | inr (next, e) ↦ elim (Bool-cases (mem path stack)) [
          | inl f ↦
              let (cycle, on) = from_path-IsCycle d stack path f distinct chain in
              stopped-Followed cycles stack path (some (from_path path stack)) run
                (ground (arith, e, f)) chain (λ c h. subst (IsCycle d) (ground (arith, h)) cycle)
                (λ p l around.
                  Listed-snoc p cycles (from_path path stack)
                    (inl (IsCycle-closed d (from_path path stack) path p cycle on l)))
          | inr f ↦ elim (Bool-cases (mem path seen)) [
            | inl g ↦
                stopped-Followed cycles stack path none run (ground (arith, e, f, g)) chain
                  (λ cycle h. absurd (ground (arith, h))) (old path g)
            | inr g ↦
                let rest =
                  follow-Followed fuel cycles seen (stack ++ path ∷ []) next
                    (omega (arith, room, left_over-lt d path next stack e f)) old
                    (Chain-snoc d stack path next chain e)
                    (has_duplicates-snoc path stack ∙ ground (arith, distinct, f)) in
                record {
                  end = rest.end;
                  found = rest.found;
                  ends = ground (arith, e, f, g, rest.ends);
                  cyclic = rest.cyclic;
                  covered =
                      λ p l around. rest.covered p (Leads-step d path p next e l around) around;
                  stacked = rest.stacked;
                }
          ]
        ]
      ]

  All-add :
      (found : Option (List Text)) (cycles : List (List Text))
      → ((cycle : List Text) → found ≡ some cycle → IsCycle d cycle)
      → All (IsCycle d) cycles
      → All (IsCycle d) (add_cycle found cycles)
  All-add none cycles h all = all
  All-add (some cycle) [] h all = (h cycle refl, tt)
  All-add (some cycle) (c ∷ cycles) h (g, all) = (g, All-add (some cycle) cycles h all)

  -- What the outer loop ends with.
  record Found (starts : List Text) (cycles : List (List Text)) (r : Result (List (List Text)))
      : Type 0 where
    all : List (List Text)
    ends : r ≡ ok all
    cyclic : All (IsCycle d) all
    grows : (p : Text) → Listed p cycles → Listed p all
    covered : (x : Text) → mem x starts ≡ true → Covers all x

  cycles_from-Found :
      (starts seen : List Text) (cycles : List (List Text))
      → All (IsCycle d) cycles
      → ((x : Text) → mem x seen ≡ true → Covers cycles x)
      → Found starts cycles (cycles_from d starts seen cycles)
  unfolding cycles_from mem has_duplicates
  cycles_from-Found [] seen cycles good old = record {
    all = cycles;
    ends = refl;
    cyclic = good;
    grows = λ p l. l;
    covered = λ x here. absurd (ground (arith, here));
  }
  cycles_from-Found (start ∷ starts) seen cycles good old = elim (Bool-cases (mem start seen)) [
    | inl e ↦
        let rest = cycles_from-Found starts seen cycles good old in
        record {
          all = rest.all;
          ends = ground (arith, e, rest.ends);
          cyclic = rest.cyclic;
          grows = rest.grows;
          covered =
              started start starts rest.all (λ p l around. rest.grows p (old start e p l around))
                rest.covered;
        }
    | inr e ↦
        let walk =
          follow-Followed (suc (length d)) cycles seen [] start (omega (arith, left_over-start d))
            old tt refl in
        let more = add_cycle walk.found cycles in
        let rest =
          cycles_from-Found starts (seen ++ walk.end) more
            (All-add walk.found cycles walk.cyclic good)
            (seen_or_walked seen walk.end more
              (λ x here p l around. Listed-add p cycles walk.found (old x here p l around))
              walk.stacked) in
        record {
          all = rest.all;
          ends = ground (arith, e, walk.ends, rest.ends);
          cyclic = rest.cyclic;
          grows = λ p l. rest.grows p (Listed-add p cycles walk.found l);
          covered =
              started start starts rest.all (λ p l around. rest.grows p (walk.covered p l around))
                rest.covered;
        }
  ]
    where
      started :
          (y : Text) (ys : List Text) (all : List (List Text))
          → Covers all y
          → ((x : Text) → mem x ys ≡ true → Covers all x)
          → (x : Text) → mem x (y ∷ ys) ≡ true
          → Covers all x
      started y ys all one others x here = elim (Bool-cases (x == y)) [
        | inl f ↦ subst (Covers all) (sym ((eq_iff x y).0 f)) one
        | inr f ↦ others x (rw f at here)
      ]

      seen_or_walked :
          (xs ys : List Text) (all : List (List Text))
          → ((x : Text) → mem x xs ≡ true → Covers all x)
          → ((x : Text) → mem x ys ≡ true → Covers all x)
          → (x : Text) → mem x (xs ++ ys) ≡ true
          → Covers all x
      seen_or_walked xs ys all f g x here = elim (Bool-cases (mem x xs)) [
        | inl e ↦ f x e
        | inr e ↦ g x (ground (arith, e, here, mem-append x xs ys))
      ]

abbrev sources : Dict Text Text → List Text
sources = map (λ (p, _). p)

source-mem : (d : Dict Text Text) (p q : Text) → Dict.get p d ≡ some q → mem p (sources d) ≡ true
unfolding mem Dict.get
source-mem [] p q h = absurd (ground (arith, h))
source-mem ((x, y) ∷ d) p q h = elim (Bool-cases (x == p)) [
  | inl e ↦ ground (arith, (eq_iff p x).1 (sym ((eq_iff x p).0 e)))
  | inr e ↦ ground (arith, source-mem d p q (rw e at h))
]

-- The search for cycles among planned moves ends within the fuel. What it reports are cycles: different
-- paths, each moved to the next one and the last to the first. It reports all of them: a path from
-- which one or more moves lead back to it is on a cycle that is reported.
pub move_cycles_total :
    (destinations : Dict Text Text)
    → (cycles : List (List Text)) × (move_cycles destinations ≡ ok cycles)
      × All (IsCycle destinations) cycles
      × ((p : Text) → Leads destinations p p → Listed p cycles)
unfolding move_cycles mem
move_cycles_total d =
    let found =
      cycles_from-Found d (sources d) [] [] tt (λ x here. absurd (ground (arith, here))) in
    (
      found.all,
      found.ends,
      found.cyclic,
      λ p around.
          let (q, h) = Leads-source d around in
          found.covered p (source-mem d p q h) p around around,
    )
