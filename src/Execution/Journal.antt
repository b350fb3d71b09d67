-- ===== src/Execution/Journal.antt =====
-- What the callbacks of the undo stack of src/ctxfs/store.py take back.
use ctxd.Prelude.{
  ℕ, suc, ◌≤◌, ◌<◌, ◌≡◌, ◌≢◌, ◌⊎◌, inl, inr, refl, sym, subst, none, some, ◌==◌, nat_eq, list_eq,
  pair_eq, option_eq, Result, ok, err, Error, os_error, Result-cases, Bool-cases, Option-cases,
  eq_iff, arith,
}
use ctxd.Execution.{
  System, Location, tree, object, undo, location_eq, Files, File, set_file, State, tick, call,
}
use ctxd.Execution.Files.{replace, unlink}

-- The locations that matter to a rollback: the tree, and what was named below `undo` before a call.
abbrev pub Older : ℕ → Location → Type 0
Older n (tree path) = Unit
Older n (object object_id) = ⊥
Older n (undo prefix m) = m < n

pub Older-mono : (m n : ℕ) (l : Location) → m ≤ n → Older m l → Older n l
Older-mono m n (tree path) h old = tt
Older-mono m n (object object_id) h old = absurd old
Older-mono m n (undo prefix k) h old = omega arith

pub Older-ne : (n : ℕ) {a l : Location} → Older n a → ¬ (Older n l) → a ≢ l
Older-ne n old new same = new (subst (Older n) same old)

abbrev pub Agree : ℕ → Files → Files → Type 0
Agree n F G = (l : Location) → Older n l → F l ≡ G l

-- Agreement may be shown at one location apart.
pub Agree-at :
    (n : ℕ) (target : Location) (F G : Files)
    → F target ≡ G target
    → ((l : Location) → Older n l → l ≢ target → F l ≡ G l)
    → Agree n F G
Agree-at n target F G here rest l old = elim (Bool-cases (l == target)) [
  | inl e ↦ subst (λ k. F k ≡ G k) (sym ((eq_iff l target).0 e)) here
  | inr e ↦ rest l old (ground (arith, e, eq_iff l target))
]

-- What os.replace(a, b) has moved.
pub record Replaced (a b : Location) (F G : Files) : Type 0 where
  pub file : File
  pub from : F a ≡ some file
  pub to : G b ≡ some file
  pub rest : (l : Location) → l ≢ a → l ≢ b → G l ≡ F l
  pub left : (G a ≡ none) ⊎ ((l : Location) → G l ≡ F l)

pub replace-Replaced : (a b : Location) (F G : Files) → replace a b F ≡ ok G → Replaced a b F G
unfolding replace
replace-Replaced a b F G h = elim (Option-cases (F a)) [
  | inl e ↦ absurd (ground (arith, e, h))
  | inr (f, e) ↦ elim (Bool-cases (F b == some f)) [
    | inl same ↦
        let done : F ≡ G = ground (arith, e, same, h) in
        subst (Replaced a b F) done (record {
          file = f;
          from = e;
          to = (eq_iff (F b) (some f)).0 same;
          rest = λ l _ _. refl;
          left = inr (λ l. refl);
        })
    | inr other ↦
        let done : set_file a none (set_file b (some f) F) ≡ G = ground (arith, e, other, h) in
        let apart : b ≢ a = λ same. ground (arith, e, other, same, eq_iff (F b) (some f)) in
        subst (Replaced a b F) done (record {
          file = f;
          from = e;
          to = ground (arith, apart, eq_iff b a, eq_iff b b);
          rest = λ l na nb. ground (arith, na, nb, eq_iff l a, eq_iff l b);
          left = inl (ground (arith, eq_iff a a));
        })
  ]
]

pub unlink-gone :
    (a : Location) (F G : Files)
    → unlink a F ≡ ok G
    → (G a ≡ none) × ((l : Location) → l ≢ a → G l ≡ F l)
unfolding unlink
unlink-gone a F G h = elim (Option-cases (F a)) [
  | inl e ↦ absurd (ground (arith, e, h))
  | inr (f, e) ↦
      let done : set_file a none F ≡ G = ground (arith, e, h) in
      subst (λ H. (H a ≡ none) × ((l : Location) → l ≢ a → H l ≡ F l)) done
        (ground (arith, eq_iff a a), λ l n. ground (arith, n, eq_iff l a))
]

-- The state after a call that went well.
abbrev pub moved : State → Files → State
moved s files = record s { files = files; calls = suc s.calls }

module _ (system : System) where
  abbrev pub Called : (Files → Result Files) → State → Type 0
  Called operation s =
      ((F : Files) × (operation s.files ≡ ok F) × (call system operation s ≡ (ok tt, moved s F)))
      ⊎ ((e : Error) × (call system operation s ≡ (err e, tick s))
          × ((e ≡ os_error) ⊎ (operation s.files ≡ err e)))

  pub call-Called : (operation : Files → Result Files) (s : State) → Called operation s
  unfolding call
  call-Called operation s = elim (Bool-cases (system.fails s.calls)) [
    | inl e ↦ inr (os_error, rw e, inl refl)
    | inr e ↦ elim (Result-cases (operation s.files)) [
      | inl (F, f) ↦ inl (F, f, rw (e, f))
      | inr (x, f) ↦ inr (x, rw (e, f), inr f)
    ]
  ]
