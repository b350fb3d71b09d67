-- ===== src/Execution/Unwinding.antt =====
-- The undo stack of src/ctxfs/store.py while a submission runs: what its callbacks lead back to.
use ctxd.Prelude.{
  ℕ, ◌≤◌, ◌≡◌, ◌≢◌, inl, inr, refl, sym, ◌∙◌, subst, List, [], ◌∷◌, ◌++◌, none, some, Text, Result,
  ok, err, Error, Result-cases, arith, All,
}
use ctxd.Execution.{
  System, Files, Undo, State, Action, call, raise, ◌>>=◌, try_except, for_each, Cleanup,
  unlink_backup, remove_old_object, tree,
}
use ctxd.Execution.Files.{run_undo, undo_errors}
use ctxd.Execution.Journal.{Older-mono, Agree, call-Called}
use ctxd.Execution.Undoing.{Undoes}

-- A callback of the cleanup stack that touches no file of the tree.
abbrev pub IsHarmless : Cleanup → Type 0
IsHarmless (unlink_backup none) = Unit
IsHarmless (unlink_backup (some l)) = (path : Text) → l ≢ tree path
IsHarmless (remove_old_object object_id) = Unit

-- A step that leaves the stacks, the table of submissions, and the files that matter after `n` calls.
pub record IsQuiet (n : ℕ) (s s' : State) : Type 0 where
  pub calls : s.calls ≤ s'.calls
  pub stack : s'.undo_stack ≡ s.undo_stack
  pub cleanups : s'.cleanup_stack ≡ s.cleanup_stack
  pub rows : s'.submissions ≡ s.submissions
  pub files : Agree n s'.files s.files

pub IsQuiet-refl : (n : ℕ) (s : State) → IsQuiet n s s
IsQuiet-refl n s = record {
  calls = omega arith;
  stack = refl;
  cleanups = refl;
  rows = refl;
  files = λ l old. refl;
}

pub IsQuiet-trans : (n : ℕ) (s s' s'' : State) → IsQuiet n s s' → IsQuiet n s' s'' → IsQuiet n s s''
IsQuiet-trans n s s' s'' q r = record {
  calls = omega (arith, q.calls, r.calls);
  stack = r.stack ∙ q.stack;
  cleanups = r.cleanups ∙ q.cleanups;
  rows = r.rows ∙ q.rows;
  files = λ l old. r.files l old ∙ q.files l old;
}

pub IsQuiet-weaken : (m n : ℕ) (s s' : State) → m ≤ n → IsQuiet n s s' → IsQuiet m s s'
IsQuiet-weaken m n s s' h q = record {
  calls = q.calls;
  stack = q.stack;
  cleanups = q.cleanups;
  rows = q.rows;
  files = λ l old. q.files l (Older-mono m n l h old);
}

-- An action all of whose runs are quiet.
abbrev pub IsStill : {A : Type 0} → ℕ → Action A → Type 0
IsStill n m = (s : State) → IsQuiet n s (m s).1

-- Where a run may end: in the state of its first step, or of the second.
pub >>=-ends :
    {A B : Type 0} (P : State → Type 0) (m : Action A) (f : A → Action B) (s : State)
    → P (m s).1
    → ((a : A) → P (f a (m s).1).1)
    → P ((m >>= f) s).1
>>=-ends {B = B} P m f s first second =
    elim (m s).0
      as (λ r.
        P (elim r as (λ _. Result B × State) [ ok a ↦ f a (m s).1 | err e ↦ raise e (m s).1 ]).1) [
          | ok a ↦ second a
          | err e ↦ first
        ]

pub try_except-ends :
    {A : Type 0} (P : State → Type 0) (m : Action A) (handler : Error → Action A) (s : State)
    → P (m s).1
    → ((e : Error) → P (handler e (m s).1).1)
    → P (try_except m handler s).1
try_except-ends {A = A} P m handler s first second =
    elim (m s).0
      as (λ r.
        P
          (elim r as (λ _. Result A × State) [
            | ok a ↦ (ok a, (m s).1)
            | err e ↦ handler e (m s).1
          ]).1) [ ok a ↦ first | err e ↦ second e ]

pub >>=-IsStill :
    {A B : Type 0} (n : ℕ) (m : Action A) (f : A → Action B)
    → IsStill n m
    → ((a : A) → IsStill n (f a))
    → IsStill n (m >>= f)
>>=-IsStill n m f h k s =
    >>=-ends (IsQuiet n s) m f s (h s)
      (λ a. IsQuiet-trans n s (m s).1 (f a (m s).1).1 (h s) (k a (m s).1))

pub try_except-IsStill :
    {A : Type 0} (n : ℕ) (m : Action A) (handler : Error → Action A)
    → IsStill n m
    → ((e : Error) → IsStill n (handler e))
    → IsStill n (try_except m handler)
try_except-IsStill n m handler h k s =
    try_except-ends (IsQuiet n s) m handler s (h s)
      (λ e. IsQuiet-trans n s (m s).1 (handler e (m s).1).1 (h s) (k e (m s).1))

All-snoc :
    (c : Cleanup) (cleanups : List Cleanup)
    → IsHarmless c
    → All IsHarmless cleanups
    → All IsHarmless (cleanups ++ c ∷ [])
All-snoc c [] h all = (h, tt)
All-snoc c (d ∷ cleanups) h (g, all) = (g, All-snoc c cleanups h all)

-- A step that adds a harmless callback.
pub snoc-IsHarmless :
    (c : Cleanup) (s u : State)
    → IsHarmless c
    → u.cleanup_stack ≡ s.cleanup_stack
    → All IsHarmless s.cleanup_stack
    → All IsHarmless (u.cleanup_stack ++ c ∷ [])
snoc-IsHarmless c s u h same all =
    All-snoc c u.cleanup_stack h (subst (All IsHarmless) (sym same) all)

module _ (system : System) where
  -- From every state that agrees with `s`, the callbacks lead to the files `F`, if none raises.
  abbrev pub Unwinds : ℕ → Files → State → Type 0
  Unwinds n F s =
      (t : State)
      → Agree s.calls t.files s.files
      → (undo_errors system s.undo_stack t).0 ≡ ok []
      → Agree n (undo_errors system s.undo_stack t).1.files F

  -- What a step does for the journal.
  pub record Later (s s' : State) : Type 0 where
    pub calls : s.calls ≤ s'.calls
    pub unwinds : (n : ℕ) (F : Files) → Unwinds n F s → Unwinds n F s'
    pub harmless : All IsHarmless s.cleanup_stack → All IsHarmless s'.cleanup_stack
    pub rows : s'.submissions ≡ s.submissions

  abbrev pub IsSafe : {A : Type 0} → Action A → Type 0
  IsSafe m = (s : State) → Later s (m s).1

  pub Later-refl : (s : State) → Later s s
  Later-refl s = record {
    calls = omega arith;
    unwinds = λ n F w. w;
    harmless = λ h. h;
    rows = refl;
  }

  pub Later-trans : (s s' s'' : State) → Later s s' → Later s' s'' → Later s s''
  Later-trans s s' s'' l m = record {
    calls = omega (arith, l.calls, m.calls);
    unwinds = λ n F w. m.unwinds n F (l.unwinds n F w);
    harmless = λ h. m.harmless (l.harmless h);
    rows = m.rows ∙ l.rows;
  }

  pub IsQuiet-Later : (s s' : State) → IsQuiet s.calls s s' → Later s s'
  IsQuiet-Later s s' q = record {
    calls = q.calls;
    unwinds = λ n F w t agree.
        subst
          (λ stack.
            (undo_errors system stack t).0 ≡ ok [] → Agree n (undo_errors system stack t).1.files F)
          (sym q.stack)
          (w t (λ l old. agree l (Older-mono s.calls s'.calls l q.calls old) ∙ q.files l old));
    harmless = λ h. subst (All IsHarmless) (sym q.cleanups) h;
    rows = q.rows;
  }

  -- No callback raised: neither the first, nor the others.
  clean_first :
      (u : Undo) (undos : List Undo) (t : State)
      → (undo_errors system (u ∷ undos) t).0 ≡ ok []
      → ((run_undo system u t).0 ≡ ok tt)
        × ((undo_errors system undos (run_undo system u t).1).0 ≡ ok [])
        × ((undo_errors system (u ∷ undos) t).1
            ≡ (undo_errors system undos (run_undo system u t).1).1)
  unfolding undo_errors
  clean_first u undos t h = elim (Result-cases (run_undo system u t).0) [
    | inr (e, f) ↦ elim (Result-cases (undo_errors system undos (run_undo system u t).1).0) [
      | inl (more, g) ↦ absurd (ground (arith, f, g, h))
      | inr (x, g) ↦ absurd (ground (arith, f, g, h))
    ]
    | inl (_, f) ↦ elim (Result-cases (undo_errors system undos (run_undo system u t).1).0) [
      | inl (more, g) ↦ (ground (arith, f), ground (arith, f, g, h), ground (arith, f, g))
      | inr (x, g) ↦ absurd (ground (arith, f, g, h))
    ]
  ]

  -- A step that pushes the callback that takes it back.
  pub push-Later :
      (u : Undo) (s s' : State)
      → s.calls ≤ s'.calls
      → s'.undo_stack ≡ u ∷ s.undo_stack
      → (All IsHarmless s.cleanup_stack → All IsHarmless s'.cleanup_stack)
      → s'.submissions ≡ s.submissions
      → Undoes system u s s'
      → Later s s'
  push-Later u s s' le stack harmless rows undoes = record {
    calls = le;
    unwinds = λ n F w t agree.
        subst
          (λ undos.
            (undo_errors system undos t).0 ≡ ok [] → Agree n (undo_errors system undos t).1.files F)
          (sym stack)
          (λ clean.
            let (first, others, ends) = clean_first u s.undo_stack t clean in
            subst (λ x. Agree n x.files F) (sym ends)
              (w (run_undo system u t).1 (undoes t agree first) others));
    harmless = harmless;
    rows = rows;
  }

  pub IsStill-IsSafe : {A : Type 0} (m : Action A) → ((n : ℕ) → IsStill n m) → IsSafe m
  IsStill-IsSafe m h s = IsQuiet-Later s (m s).1 (h s.calls s)

  pub >>=-IsSafe :
      {A B : Type 0} (m : Action A) (f : A → Action B)
      → IsSafe m
      → ((a : A) → IsSafe (f a))
      → IsSafe (m >>= f)
  >>=-IsSafe m f h k s =
      >>=-ends (Later s) m f s (h s)
        (λ a. Later-trans s (m s).1 (f a (m s).1).1 (h s) (k a (m s).1))

  pub for_each-IsSafe :
      {A : Type 0} (body : A → Action (Unit {0})) (xs : List A)
      → ((a : A) → IsSafe (body a))
      → IsSafe (for_each body xs)
  unfolding for_each
  for_each-IsSafe body [] h = Later-refl
  for_each-IsSafe body (x ∷ xs) h =
      >>=-IsSafe (body x) (λ _. for_each body xs) (h x) (λ _. for_each-IsSafe body xs h)

  -- A call whose work cannot matter.
  pub call-IsStill :
      (n : ℕ) (operation : Files → Result Files)
      → ((F G : Files) → operation F ≡ ok G → Agree n G F)
      → IsStill n (call system operation)
  call-IsStill n operation h s = elim (call-Called system operation s) [
    | inl (F, e, f) ↦ rw f (record {
      calls = omega arith;
      stack = refl;
      cleanups = refl;
      rows = refl;
      files = h s.files F e;
    })
    | inr (x, f, _) ↦ rw f (record {
      calls = omega arith;
      stack = refl;
      cleanups = refl;
      rows = refl;
      files = λ l old. refl;
    })
  ]
