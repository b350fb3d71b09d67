-- ===== src/Catalog.antt =====
-- src/ctxfs/store.py: the catalog of machines and tracked folders. This module has the checks of
-- texts and the derivation of keys.
pub mod Tests
pub mod Machines
pub mod Folders
use ctxd.Prelude.{
  ℕ, zero, suc, ◌+◌, ◌-◌, ◌≡◌, Bool, true, false, not, ◌&&◌, ◌||◌, List, [], ◌∷◌, ◌++◌, map, Option,
  none, some, ◌==◌, if◌then◌else◌, nat_eq, list_eq, option_eq, pair_eq, any, filter, is_empty,
  length, take, Text, codes, ltb, leb, mem, Result, ok, err, Time, strip, lstrip, rstrip, decimal,
  has_control_character, value_error, key_error, file_exists_error, ◌>>=◌, ◌>>◌, guard,
}

unfoldable pub catalog_text : Text → ℕ → Result Text
catalog_text value maximum = do
  let clean = strip value
  guard (not (is_empty clean)) value_error
  guard (leb (length clean) maximum) value_error
  guard (not (has_control_character clean)) value_error
  ok clean

-- `f(value)`, or None for None
abbrev pub optional {ℓ} : {A : Type ℓ} → (A → Result A) → Option A → Result (Option A)
optional f none = ok none
optional f (some value) = do clean ← f value; ok (some clean)

unfoldable pub optional_catalog_text : Option Text → ℕ → Result (Option Text)
optional_catalog_text value maximum = optional (λ v. catalog_text v maximum) value

unfoldable pub description_text : Text → Result Text
description_text value = do
  guard (not (has_control_character value)) value_error
  guard (leb (length (strip value)) 1024) value_error
  ok (strip value)

unfoldable pub optional_description : Option Text → Result (Option Text)
optional_description = optional description_text

-- [a-z0-9]
abbrev is_key_character : ℕ → Bool
is_key_character c = (leb b'a' c && leb c b'z') || (leb b'0' c && leb c b'9')

abbrev is_dash : ℕ → Bool
is_dash c = c == b'-'

abbrev lower : ℕ → ℕ
lower c = if leb b'A' c && leb c b'Z' then c + 32 else c

-- re.sub(r"[^a-z0-9]+", "-", s): the flag says that the last character was replaced
dash_runs : Bool → Text → Text
dash_runs replaced [] = []
dash_runs replaced (c ∷ s) =
    let rest = dash_runs (not (is_key_character c)) s in
    if is_key_character c then c ∷ rest else if replaced then rest else b'-' ∷ rest

-- `nfkd` is unicodedata.normalize("NFKD", ·), whose tables are not part of the program.
unfoldable pub catalog_key : (Text → Text) → Text → Text → Text
unfolding dash_runs
catalog_key nfkd name fallback =
    let ascii_name = filter (λ c. ltb c 128) (nfkd name) in
    let normalized = rstrip is_dash (lstrip is_dash (dash_runs false (map lower ascii_name))) in
    rstrip is_dash (take 63 (if is_empty normalized then fallback else normalized))

-- base[: 63 - n], where a negative end counts from the right
abbrev cut : Text → ℕ → Text
cut base n = if leb n 63 then take (63 - n) base else take (length base - (n - 63)) base

unfoldable pub suffixed_key : Text → ℕ → Text
suffixed_key base suffix =
    let ending = b'-' ∷ decimal suffix in
    if suffix == 1 then base else rstrip is_dash (cut base (length ending)) ++ ending
