-- ===== src/Execution/Content.antt =====
-- src/ctxfs/store.py: the text of a document: `_normalize_text`, `_line_count`, `_sha256`, and the
-- encoding of a text in UTF-8.
pub mod Normal
use ctxd.Prelude.{
  ℕ, ◌+◌, ◌/◌, ◌%◌, Bool, true, false, not, ◌&&◌, ◌||◌, List, [], ◌∷◌, ◌++◌, map, ◌==◌, nat_eq,
  list_eq, if◌then◌else◌, Text, codes, ltb, leb, mem, Result, ok, err, value_error, ◌>>=◌, ◌>>◌,
  guard, starts_with,
}
use ctxd.Execution.{System}

-- text.replace("\r\n", "\n")
unfoldable pub replace_crlf : Text → Text
unfolding starts_with
replace_crlf [] = []
replace_crlf (c ∷ s) =
    let rest = replace_crlf s in if c == 13 && starts_with s (10 ∷ []) then rest else c ∷ rest

-- text.replace("\r", "\n")
unfoldable pub replace_cr : Text → Text
replace_cr [] = []
replace_cr (c ∷ s) = (if c == 13 then 10 else c) ∷ replace_cr s

unfoldable pub normalize_text : Text → Result Text
unfolding replace_crlf replace_cr mem
normalize_text text = if mem 0 text then err value_error else ok (replace_cr (replace_crlf text))

-- One character that str.splitlines() takes for the end of a line
unfoldable pub is_line_break : ℕ → Bool
is_line_break c =
    (leb 10 c && leb c 13) || (leb 28 c && leb c 30) || c == 0x85 || c == 0x2028 || c == 0x2029

-- len(text.splitlines()), where `started` tells whether a line is begun.
unfoldable pub count_lines : Bool → Text → ℕ
unfolding is_line_break starts_with
count_lines started [] = if started then 1 else 0
count_lines started (c ∷ s) =
    let after_break = count_lines false s in
    let within = count_lines true s in
    if is_line_break c && not (c == 13 && starts_with s (10 ∷ [])) then 1 + after_break else within

unfoldable pub line_count : Text → ℕ
unfolding count_lines
line_count text = if text == [] then 0 else count_lines false text

-- The bytes of one character, but for the surrogates, which have none.
unfoldable pub encode_character : ℕ → Result (List ℕ)
encode_character c =
    if ltb c 0x80
    then ok (c ∷ [])
    else if ltb c 0x800
    then ok ((0xc0 + c / 64) ∷ (0x80 + c % 64) ∷ [])
    else if leb 0xd800 c && leb c 0xdfff
    then err value_error
    else if ltb c 0x10000
    then ok ((0xe0 + c / 4096) ∷ (0x80 + c / 64 % 64) ∷ (0x80 + c % 64) ∷ [])
    else ok
        ((0xf0 + c / 262144) ∷ (0x80 + c / 4096 % 64) ∷ (0x80 + c / 64 % 64) ∷ (0x80 + c % 64) ∷ [])

-- text.encode("utf-8")
unfoldable pub encode : Text → Result (List ℕ)
encode [] = ok []
encode (c ∷ s) = do bytes ← encode_character c; more ← encode s; ok (bytes ++ more)

abbrev pub hash_of : System → List ℕ → Text
hash_of system data_ = codes "sha256:" ++ system.sha256 data_
