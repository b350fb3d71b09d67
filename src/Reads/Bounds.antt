-- ===== src/Reads/Bounds.antt =====
-- The bounds of the reads and listings of src/ctxfs/store.py.
use ctxd.Prelude.{
  ◌↔◌, ap, ◌∙◌, Any, Result-cases, ℕ, zero, suc, ◌+◌, ◌≤◌, ◌<◌, ◌≡◌, ◌⊎◌, inl, inr, refl, sym,
  subst, Bool, true, false, List, [], ◌∷◌, ◌++◌, none, some, nat_eq, list_eq, Text, ltb, leb,
  length, take, ok, Bool-cases, arith, All, length-append, >>=-eq-ok, guard-eq-ok, value_error,
  ok_injective,
}
use ctxd.Paths.{posix_parts}
use ctxd.Globs.{validate_glob_pattern, glob_matches}
use ctxd.Execution.{State}
use ctxd.Submissions.Preflight.{EntryRow}
use ctxd.Reads.{Library, stat, read_bytes, shorten, truncate_utf8}
use ctxd.Reads.Complete.{
  IsListing, HasNoFile, HasNoEntry, take-all, length-take, bounded-IsListing, listed-missing,
  add_unlisted-incomplete,
}
use ctxd.Reads.Listings.{
  DirectoryEntry, Bounded, Listing, gather, ls, normalize_prefix, entries_under_prefix,
  disk_files_under_prefix, add_unlisted, add_disk_child, finish_listing, listed, add_children,
  values, glob, sorted, gather_disk, disk_directory_entry, stopped_at_limit,
}

module _ (library : Library) where
  -- What a truncation of `data_` to `n` bytes gives: the longest prefix within the bound that decodes,
  -- or nothing.
  abbrev pub IsTruncated : ℕ → List ℕ → List ℕ → Type 0
  IsTruncated n data_ limited =
      (length limited ≤ n)
      × ((k : ℕ) × (k ≤ n)
          × (limited ≡ take k data_)
          × ((k ≡ 0) ⊎ (library.is_utf8 limited ≡ true))
          × ((j : ℕ) → k < j → j ≤ n → library.is_utf8 (take j data_) ≡ false))

  -- A truncation keeps at most the given number of bytes: the longest prefix of so many that decodes
  -- strictly, or nothing where none does.
  pub truncate_utf8_longest :
      (data_ : List ℕ) (max_bytes : ℕ)
      → IsTruncated max_bytes data_ (truncate_utf8 library data_ max_bytes)
  unfolding truncate_utf8 shorten
  truncate_utf8_longest data_ zero = (
    omega arith,
    (0, omega arith, refl, inl refl, λ j above below. absurd (omega (arith, above, below))),
  )
  truncate_utf8_longest data_ (suc n) = elim (Bool-cases (library.is_utf8 (take (suc n) data_))) [
    | inl e ↦
        let same : truncate_utf8 library data_ (suc n) ≡ take (suc n) data_ = ground (arith, e) in
        subst (IsTruncated (suc n) data_) (sym same) (
          length-take (suc n) data_,
          (suc n, omega arith, refl, inr e, λ j above below. absurd (omega (arith, above, below))),
        )
    | inr e ↦
        let same : truncate_utf8 library data_ (suc n) ≡ truncate_utf8 library data_ n =
          ground (arith, e) in
        let (short, (k, le, prefix, decodes, others)) = truncate_utf8_longest data_ n in
        subst (IsTruncated (suc n) data_) (sym same) (
          omega (arith, short),
          (
            k,
            omega (arith, le),
            prefix,
            decodes,
            λ j above below. elim (Bool-cases (leb j n)) [
              | inl small ↦ others j above (ground (arith, small))
              | inr large ↦
                  let top : j ≡ suc n = ground (arith, large, below) in
                  subst (λ i. library.is_utf8 (take i data_) ≡ false) (sym top) e
            ],
          ),
        )
  ]

All-append :
    {A : Type 0} (P : A → Type 0) (xs : List A) (x : A) → All P xs → P x → All P (xs ++ x ∷ [])
All-append P [] x all h = (h, tt)
All-append P (y ∷ xs) x (g, all) h = (g, All-append P xs x all h)

module _ (matches : Text → Bool) (limit : ℕ) where
  abbrev pub Gathered : List DirectoryEntry → Type 0
  Gathered found = All (λ (e : DirectoryEntry). matches e.path ≡ true) found

  -- The loop stays below the limit until it ends there.
  gather-bounds :
      (found entries : List DirectoryEntry)
      → length found < limit
      → Gathered found
      → let (all, full) = gather matches limit found entries in
        Gathered all × (length all ≤ limit) × (full ≡ false → length all < limit)
  unfolding gather
  gather-bounds found [] below good = (good, omega (arith, below), λ _. below)
  gather-bounds found (entry ∷ entries) below good = elim (Bool-cases (matches entry.path)) [
    | inr e ↦ rw e (gather-bounds found entries below good)
    | inl e ↦
        let more = All-append (λ (x : DirectoryEntry). matches x.path ≡ true) found entry good e in
        let longer : length (found ++ entry ∷ []) ≡ length found + 1 =
          length-append found (entry ∷ []) in
        elim (Bool-cases (leb limit (length found + 1))) [
          | inl f ↦ rw (e, f) (more, omega (arith, longer, below), λ h. absurd (ground (arith, h)))
          | inr f ↦
              rw (e, f)
                (gather-bounds (found ++ entry ∷ []) entries (ground (arith, f, longer)) more)
        ]
  ]

abbrev begun : (library : Library) (s : State) → Text → List EntryRow → Listing
begun library s normalized rows = record {
  children = add_children library s normalized (listed library s rows).0 [];
  incomplete = (listed library s rows).1;
}

ls-finish :
    (library : Library) (s : State) (path : Text) (n : ℕ) (normalized : Text) (rows : List EntryRow)
    (disk : List Text) (listing : Listing)
    → ltb 0 n ≡ true
    → normalize_prefix library s path ≡ ok normalized
    → entries_under_prefix normalized s ≡ ok rows
    → disk_files_under_prefix library s normalized ≡ ok disk
    → add_unlisted library s
        (add_disk_child library s normalized)
        disk
        (begun library s normalized rows)
      ≡ ok listing
    → ls library s path n ≡ ok (finish_listing library s n listing)
unfolding ls
ls-finish library s path n normalized rows disk listing here e1 e2 e3 e4 = rw (here, e1, e2, e3, e4)

-- What `ls` has found below `path`, whatever its limit is.
pub record Whole (library : Library) (s : State) (path : Text) : Type 0 where
  pub prefix : Text
  pub rows : List EntryRow
  pub paths : List Text
  pub all : List DirectoryEntry
  pub normalized : normalize_prefix library s path ≡ ok prefix
  pub entries : entries_under_prefix prefix s ≡ ok rows
  pub disk : disk_files_under_prefix library s prefix ≡ ok paths
  pub unbounded :
      (n : ℕ)
      → 0 < n
      → length all ≤ n
      → (r : Bounded) × (ls library s path n ≡ ok r) × (r.items ≡ all)

-- A listing of a directory is cut from the whole listing: its items are the first ones, at most `limit`
-- of them. It is complete exactly if nothing was cut off, each entry below the directory has its file
-- and each file below it has its entry; it is complete exactly if it gives no reason for having stopped,
-- and the reason is the limit exactly if something was cut off. The whole listing is what every limit
-- that is not below its length gives.
pub ls_bounded :
    (library : Library) (s : State) (path : Text) (limit : ℕ) (r : Bounded)
    → ls library s path limit ≡ ok r
    → (w : Whole library s path) × IsListing limit w.all
        (Any (HasNoFile s) w.rows ⊎ Any (HasNoEntry s) w.paths)
        r
unfolding ls
ls_bounded library s path limit r h =
    let (_, h1) = guard-eq-ok (ltb 0 limit) value_error _ h in
    let (normalized, e1, h2) = >>=-eq-ok (normalize_prefix library s path) _ h1 in
    let (rows, e2, h3) = >>=-eq-ok (entries_under_prefix normalized s) _ h2 in
    let (disk, e3, h4) = >>=-eq-ok (disk_files_under_prefix library s normalized) _ h3 in
    let add = add_disk_child library s normalized in
    let (listing, e4, h5) =
      >>=-eq-ok (add_unlisted library s add disk (begun library s normalized rows)) _ h4 in
    let same : finish_listing library s limit listing ≡ r =
      ok_injective (finish_listing library s limit listing) r h5 in
    let all = sorted (λ (e : DirectoryEntry). library.casefold e.path) (values listing.children) in
    let M = Any (HasNoFile s) rows ⊎ Any (HasNoEntry s) disk in
    let (to, from) =
      add_unlisted-incomplete library s add disk (begun library s normalized rows) listing e4 in
    let (to', from') = listed-missing library s rows in
    let known : (listing.incomplete ≡ true) ↔ M = (
      λ g. elim (to g) [ inl a ↦ inl (to' a) | inr a ↦ inr a ],
      λ g. from (elim g [ inl a ↦ inl (from' a) | inr a ↦ inr a ]),
    ) in
    let bounds : (n : ℕ) → IsListing n all M (finish_listing library s n listing) =
      λ n. bounded-IsListing n listing.incomplete all M known in
    (
      record {
        all = all;
        prefix = normalized;
        rows = rows;
        paths = disk;
        normalized = e1;
        entries = e2;
        disk = e3;
        unbounded = λ n positive fits.
            let here : ltb 0 n ≡ true = ground (arith, positive) in
            (
              finish_listing library s n listing,
              ls-finish library s path n normalized rows disk listing here e1 e2 e3 e4,
              (bounds n).cut ∙ take-all n all fits,
            );
      },
      subst (IsListing limit all M) same (bounds limit),
    )

module _ (matches : Text → Bool) (limit : ℕ) where
  abbrev pub IsGlobbed : Bounded → Type 0
  IsGlobbed r =
      (length r.items ≤ limit) × All (λ (e : DirectoryEntry). matches e.path ≡ true) r.items

  disk_directory_entry-path :
      (library : Library) (s : State) (path disk_path : Text) (entry : DirectoryEntry)
      → disk_directory_entry library s path disk_path ≡ ok entry
      → entry.path ≡ path
  unfolding disk_directory_entry
  disk_directory_entry-path library s path disk_path entry h =
      let (data_, _, h1) = >>=-eq-ok (read_bytes disk_path s) _ h in
      sym (ap (λ (x : DirectoryEntry). x.path) (ok_injective _ entry h1))

  gather_disk-IsGlobbed :
      (library : Library) (s : State) (incomplete : Bool) (found : List DirectoryEntry)
      (paths : List Text) (r : Bounded)
      → length found < limit
      → Gathered matches limit found
      → gather_disk library s matches limit incomplete found paths ≡ ok r
      → IsGlobbed r
  unfolding gather_disk
  gather_disk-IsGlobbed library s incomplete found [] r below good h =
      subst IsGlobbed (ok_injective _ r h) (omega (arith, below), good)
  gather_disk-IsGlobbed library s incomplete found (path ∷ paths) r below good h =
      let (known, e, h1) = >>=-eq-ok (stat path s) _ h in
      elim known as (λ known. stat path s ≡ ok known → IsGlobbed r) [
        | some row ↦ λ e.
            gather_disk-IsGlobbed library s incomplete found paths r below good
              (ground (arith, e, h))
        | none ↦ λ e. elim (Bool-cases (matches path)) [
          | inr f ↦
              gather_disk-IsGlobbed library s true found paths r below good
                (ground (arith, e, f, h))
          | inl f ↦ elim (Result-cases (disk_directory_entry library s path path)) [
            | inr (_, g) ↦ absurd (ground (arith, e, f, g, h))
            | inl (entry, g) ↦
                let named : matches entry.path ≡ true =
                  ap matches (disk_directory_entry-path library s path path entry g) ∙ f in
                let more =
                  All-append (λ (x : DirectoryEntry). matches x.path ≡ true) found entry good
                    named in
                let longer : length (found ++ entry ∷ []) ≡ length found + 1 =
                  length-append found (entry ∷ []) in
                elim (Bool-cases (leb limit (length found + 1))) [
                  | inl full ↦
                      subst IsGlobbed
                        (ok_injective (stopped_at_limit (found ++ entry ∷ [])) r
                          (ground (arith, e, f, g, full, h)))
                        (omega (arith, longer, below), more)
                  | inr full ↦
                      gather_disk-IsGlobbed library s true (found ++ entry ∷ []) paths r
                        (ground (arith, full, longer)) more (ground (arith, e, f, g, full, h))
                ]
          ]
        ]
      ]
        e

module _ (library : Library) (fnmatchcase : Text → Text → Bool) (s : State) where
  -- A glob that succeeds has a valid pattern, and returns at most `limit` paths, all of which match it.
  pub glob_bounded :
      (pattern prefix : Text) (limit : ℕ) (r : Bounded)
      → glob library fnmatchcase s pattern prefix limit ≡ ok r
      → (parts : List Text) × (validate_glob_pattern pattern ≡ ok parts)
        × (length r.items ≤ limit)
        × All
            (λ (e : DirectoryEntry). glob_matches fnmatchcase parts (posix_parts e.path) ≡ true)
            r.items
  unfolding glob
  glob_bounded pattern prefix limit r h =
      let (positive, h1) = guard-eq-ok (ltb 0 limit) value_error _ h in
      let (normalized, _, h2) = >>=-eq-ok (normalize_prefix library s prefix) _ h1 in
      let (parts, valid, h3) = >>=-eq-ok (validate_glob_pattern pattern) _ h2 in
      let (rows, _, h4) = >>=-eq-ok (entries_under_prefix normalized s) _ h3 in
      let (entries, missing) = listed library s rows in
      let matches : Text → Bool = λ path. glob_matches fnmatchcase parts (posix_parts path) in
      let first = gather matches limit [] entries in
      let (good, le, below) =
        gather-bounds matches limit [] entries (ground (arith, positive)) tt in
      let (few, all) : IsGlobbed matches limit r = elim (Bool-cases first.1) [
        | inl full ↦
            subst (IsGlobbed matches limit)
              (ok_injective (stopped_at_limit first.0) r (rw full at h4)) (le, good)
        | inr more ↦
            let (disk, _, h5) =
              >>=-eq-ok (disk_files_under_prefix library s normalized) _ (rw more at h4) in
            gather_disk-IsGlobbed matches limit library s missing first.0 disk r (below more) good
              h5
      ] in
      (parts, valid, few, all)
