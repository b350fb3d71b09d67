-- ===== src/Execution/Placing.antt =====
-- Where `_put` of src/ctxfs/store.py places the content of a new document.
use ctxd.Prelude.{
  ℕ, suc, ◌≡◌, ◌≢◌, inl, inr, refl, sym, ◌∙◌, ap, subst, List, Option, none, some, nat_eq, list_eq,
  Text, codes, ok, Result-cases, Option-cases, eq_iff, arith,
}
use ctxd.Submissions.Preflight.{EntryRow}
use ctxd.Execution.{
  System, Location, tree, object, undo, location_eq, Files, File, State, Action, tick, call, pure,
  raise, ◌>>=◌, ◌>>◌, draw, set_file, undo_replace, unlink_backup,
}
use ctxd.Execution.Files.{
  link, mkdir, undo_path, backup_tree_entry, replace_tree_entry, unlink_if_exists,
}
use ctxd.Execution.Journal.{moved, call-Called}
use ctxd.Execution.Unwinding.{>>=-ends}
use ctxd.Execution.Steps.{link-ok, raises_after, journaled, pushed}
use ctxd.Execution.Changes.{exchange, exchange-cases}
use ctxd.Execution.Apply.{write_bytes, write_object, store_object, retire}

-- Inversion of an action that has a successor.
pub >>=-ok :
    {A B : Type 0} (m : Action A) (f : A → Action B) (s : State) {b : B}
    → ((m >>= f) s).0 ≡ ok b
    → (a : A) × ((m s).0 ≡ ok a) × ((m >>= f) s ≡ f a (m s).1)
>>=-ok m f s h = elim (Result-cases (m s).0) [
  | inl (a, e) ↦ (a, e, ground (arith, e))
  | inr (x, e) ↦ absurd (ground (arith, e, h))
]

-- A step that changes files below `undo` only, and not the entries.
record IsScratch (s s' : State) : Type 0 where
  entries : s'.entries ≡ s.entries
  files : (l : Location) → ((p : Text) (n : ℕ) → l ≢ undo p n) → s'.files l ≡ s.files l

IsScratch-refl : (s : State) → IsScratch s s
IsScratch-refl s = record { entries = refl; files = λ l n. refl }

IsScratch-trans : (s t u : State) → IsScratch s t → IsScratch t u → IsScratch s u
IsScratch-trans s t u a b = record {
  entries = b.entries ∙ a.entries;
  files = λ l n. b.files l n ∙ a.files l n;
}

abbrev DrawsScratch : {A : Type 0} → Action A → Type 0
DrawsScratch m = (s : State) → IsScratch s (m s).1

>>=-DrawsScratch :
    {A B : Type 0} (m : Action A) (f : A → Action B)
    → DrawsScratch m
    → ((a : A) → DrawsScratch (f a))
    → DrawsScratch (m >>= f)
>>=-DrawsScratch m f h k s =
    >>=-ends (IsScratch s) m f s (h s)
      (λ a. IsScratch-trans s (m s).1 (f a (m s).1).1 (h s) (k a (m s).1))

object_ne : (object_id p : Text) (n : ℕ) → object object_id ≢ undo p n
object_ne object_id p n same = cc

written :
    (object_id : Text) (f : File) (F : Files)
    → set_file (object object_id) (some f) F (object object_id) ≡ some f
written object_id f F = ground (arith, eq_iff (object object_id) (object object_id))

module _ (system : System) where
  mkdir-DrawsScratch : DrawsScratch (mkdir system)
  mkdir-DrawsScratch s = elim (call-Called system ok s) [
    | inl (F, e, run) ↦
        let same : s.files ≡ F = ground (arith, e) in
        subst (λ x. IsScratch s x.1) (sym run)
          (record { entries = refl; files = λ l n. ap (λ G. G l) (sym same) })
    | inr (x, run, _) ↦
        subst (λ x. IsScratch s x.1) (sym run) (record { entries = refl; files = λ l n. refl })
  ]

  undo_path-DrawsScratch : (prefix : Text) → DrawsScratch (undo_path system prefix)
  unfolding undo_path
  undo_path-DrawsScratch prefix =
      >>=-DrawsScratch (mkdir system) (λ _. draw >>= λ n. pure (undo prefix n)) mkdir-DrawsScratch
        (λ _ s. record { entries = refl; files = λ l n. refl })

  -- The name of a scratch file is below `undo`.
  undo_path-name :
      (prefix : Text) (s : State) (l : Location)
      → (undo_path system prefix s).0 ≡ ok l
      → (n : ℕ) × (l ≡ undo prefix n)
  unfolding undo_path
  undo_path-name prefix s l h = elim (call-Called system ok s) [
    | inr (x, run, _) ↦ absurd (ground (arith, run, h))
    | inl (F, e, run) ↦ (suc s.calls, ground (arith, run, h))
  ]

  link-DrawsScratch :
      (a : Location) (p : Text) (n : ℕ) → DrawsScratch (call system (link a (undo p n)))
  link-DrawsScratch a p n s = elim (call-Called system (link a (undo p n)) s) [
    | inl (F, e, run) ↦
        subst (λ x. IsScratch s x.1) (sym run)
          (record {
            entries = refl;
            files = λ l away. (link-ok a (undo p n) s.files F e).1 l (away p n);
          })
    | inr (x, run, _) ↦
        subst (λ x. IsScratch s x.1) (sym run) (record { entries = refl; files = λ l n. refl })
  ]

  backup-DrawsScratch : (target : Location) → DrawsScratch (backup_tree_entry system target)
  unfolding backup_tree_entry
  backup-DrawsScratch target s = elim (Option-cases (s.files target)) [
    | inl absent ↦
        let same : (backup_tree_entry system target s).1 ≡ s = ground (arith, absent) in
        subst (IsScratch s) (sym same) (IsScratch-refl s)
    | inr (f, there) ↦
        let name = undo_path system (codes "backup") in
        let save = λ (b : Location). call system (link target b) >>= λ _. pure (some b) in
        let same : backup_tree_entry system target s ≡ (name >>= save) s = ground (arith, there) in
        subst (λ x. IsScratch s x.1) (sym same)
          (elim (Result-cases (name s).0) [
            | inr (x, e) ↦
                let ends : ((name >>= save) s).1 ≡ (name s).1 = ground (arith, e) in
                subst (IsScratch s) (sym ends) (undo_path-DrawsScratch (codes "backup") s)
            | inl (b, e) ↦
                let (n, named) = undo_path-name (codes "backup") s b e in
                let t = (name s).1 in
                let ends : (name >>= save) s ≡ save b t = ground (arith, e) in
                subst (λ x. IsScratch s x.1) (sym ends)
                  (IsScratch-trans s t (save b t).1 (undo_path-DrawsScratch (codes "backup") s) (
                    subst (λ l. IsScratch t (save l t).1) (sym named)
                      (>>=-DrawsScratch (call system (link target (undo (codes "backup") n)))
                        (λ _. pure (some (undo (codes "backup") n)))
                        (link-DrawsScratch target (codes "backup") n) (λ _. IsScratch-refl) t)))
          ])
  ]

  -- The last steps of a replacement, which end well only with the exchange.
  abbrev finish : Location → Location → Location → Option Location → Action (Unit {0})
  finish object_path tmp target b =
      journaled system (exchange system object_path tmp target)
        (λ e. unlink_if_exists system (some tmp) >> unlink_if_exists system b >> raise e)
        (undo_replace target b) (unlink_backup b)

  -- The file at a location, in a state with the given entries.
  abbrev Holds : Location → File → List EntryRow → State → Type 0
  Holds l f rows s = (s.files l ≡ some f) × (s.entries ≡ rows)

  finish-Holds :
      (object_path tmp target : Location) (b : Option Location) (u : State) (f : File)
      → object_path ≢ tmp
      → u.files object_path ≡ some f
      → (finish object_path tmp target b u).0 ≡ ok tt
      → Holds target f u.entries (finish object_path tmp target b u).1
  finish-Holds object_path tmp target b u f apart there done =
      let attempt = exchange system object_path tmp target in
      elim (exchange-cases system object_path tmp target u) [
        | inr (e, raised, _) ↦
            let v = (attempt u).1 in
            let (x, again) =
              raises_after system (unlink_if_exists system (some tmp) >> unlink_if_exists system b)
                e v in
            absurd (ground (arith, raised, again, done))
        | inl (F, G, run, _, copied, r) ↦
            let end =
              pushed system (undo_replace target b) (unlink_backup b) (moved (moved u F) G) in
            let ends : (finish object_path tmp target b u).1 ≡ end = ground (arith, run) in
            let content : F tmp ≡ some f = copied ∙ there in
            subst (Holds target f u.entries) (sym ends) (r.to ∙ sym r.from ∙ content, refl)
      ]

  pub replace_tree_entry-Holds :
      (path object_id : Text) (s : State) (f : File)
      → s.files (object object_id) ≡ some f
      → (replace_tree_entry system path (object object_id) s).0 ≡ ok tt
      → Holds (tree path) f s.entries (replace_tree_entry system path (object object_id) s).1
  unfolding replace_tree_entry
  replace_tree_entry-Holds path object_id s f there done =
      let source = object object_id in
      let target = tree path in
      let backed =
        λ (tmp : Location). backup_tree_entry system target >>= finish source tmp target in
      let named = λ (_ : Unit {0}). undo_path system (codes "replace") >>= backed in
      let (_, _, e) = >>=-ok (mkdir system) named s done in
      let t = (mkdir system s).1 in
      let (tmp, name, e') =
        >>=-ok (undo_path system (codes "replace")) backed t (ap (λ x. x.0) (sym e) ∙ done) in
      let u = (undo_path system (codes "replace") t).1 in
      let (n, same) = undo_path-name (codes "replace") t tmp name in
      let (b, _, e'') =
        >>=-ok (backup_tree_entry system target) (finish source tmp target) u
          (ap (λ x. x.0) (sym (e ∙ e')) ∙ done) in
      let v = (backup_tree_entry system target u).1 in
      let all = e ∙ e' ∙ e'' in
      let scratch = IsScratch-trans s t v (mkdir-DrawsScratch s) (
        IsScratch-trans t u v (undo_path-DrawsScratch (codes "replace") t)
          (backup-DrawsScratch target u)) in
      let (file, entries) =
        finish-Holds source tmp target b v f
          (λ x. object_ne object_id (codes "replace") n (x ∙ same))
          (scratch.files source (λ p k. object_ne object_id p k) ∙ there)
          (ap (λ x. x.0) (sym all) ∙ done) in
      (ap (λ x. x.1.files target) all ∙ file, ap (λ x. x.1.entries) all ∙ entries ∙ scratch.entries)

  write_object-Holds :
      (object_id : Text) (data_ : List ℕ) (s : State)
      → (write_object system object_id data_ s).0 ≡ ok tt
      → (inode : ℕ) × Holds
          (object object_id)
          (inode, data_)
          s.entries
          (write_object system object_id data_ s).1
  unfolding write_object
  write_object-Holds object_id data_ s done = elim (call-Called system ok s) [
    | inr (x, run, _) ↦ absurd (ground (arith, run, done))
    | inl (F, e, run) ↦
        let t = moved s F in
        elim (call-Called system (write_bytes object_id t.calls data_) t) [
          | inr (x, run', _) ↦ absurd (ground (arith, run, run', done))
          | inl (G, e', run') ↦
              let same : set_file (object object_id) (some (t.calls, data_)) F ≡ G =
                ground (arith, e') in
              let here : G (object object_id) ≡ some (t.calls, data_) =
                ap (λ H. H (object object_id)) (sym same) ∙ written object_id (t.calls, data_) F in
              (t.calls, (ground (arith, run, run', here), ground (arith, run, run')))
        ]
  ]

  -- A new document's content is at its path when `store_object` ends well.
  pub store_object-Holds :
      (path object_id : Text) (data_ : List ℕ) (s : State)
      → (store_object system none path data_ s).0 ≡ ok object_id
      → (inode : ℕ) × Holds
          (tree path)
          (inode, data_)
          s.entries
          (store_object system none path data_ s).1
  unfolding store_object retire
  store_object-Holds path object_id data_ s done =
      let id = system.uuid s.calls in
      let t = tick s in
      let place = λ (_ : Unit {0}).
        replace_tree_entry system path (object id) >>= λ _. pure tt >>= λ _. pure id in
      let (_, wrote, e) = >>=-ok (write_object system id data_) place t done in
      let (inode, (there, rows)) = write_object-Holds id data_ t wrote in
      let u = (write_object system id data_ t).1 in
      let (_, placed, e') =
        >>=-ok (replace_tree_entry system path (object id)) (λ _. pure tt >>= λ _. pure id) u
          (ap (λ x. x.0) (sym e) ∙ done) in
      let (file, rows') = replace_tree_entry-Holds path id u (inode, data_) there placed in
      let all = e ∙ e' in
      (
        inode,
        (ap (λ x. x.1.files (tree path)) all ∙ file, ap (λ x. x.1.entries) all ∙ rows' ∙ rows),
      )
