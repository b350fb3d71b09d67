-- ===== src/Globs/Tests.antt =====
-- The glob matcher on `notes/**/*.md`, where a component matches its pattern or `*.md` any.
use ctxd.Prelude.{Bool, true, ◌==◌, ◌||◌, nat_eq, list_eq, Text, codes, List, [], ◌∷◌, ◌≡◌, ◌↔◌}
use ctxd.Globs.{glob_matches, Matches, glob_matches_iff}

abbrev literal : Text → Text → Bool
literal name pattern = name == pattern || pattern == codes "*.md"

abbrev pattern : List Text
pattern = codes "notes" ∷ codes "**" ∷ codes "*.md" ∷ []

abbrev path : List Text
path = codes "notes" ∷ codes "a" ∷ codes "b" ∷ codes "c.md" ∷ []

glob_matches_iff_example : (glob_matches literal pattern path ≡ true) ↔ Matches literal pattern path
glob_matches_iff_example = glob_matches_iff literal pattern path
