-- ===== src/Execution/Content/Normal.antt =====
-- What `_normalize_text` of src/ctxfs/store.py leaves of a text.
use ctxd.Prelude.{
  ◌≡◌, refl, ◌∙◌, ap, subst, false, [], ◌∷◌, nat_eq, list_eq, inl, inr, Text, mem, ok, Bool-cases,
  arith, ok_injective,
}
use ctxd.Execution.Content.{replace_crlf, replace_cr, normalize_text}

replace_cr-no_cr : (s : Text) → mem 13 (replace_cr s) ≡ false
unfolding replace_cr mem
replace_cr-no_cr [] = refl
replace_cr-no_cr (c ∷ s) = ground (arith, replace_cr-no_cr s)

replace_cr-no_nul : (s : Text) → mem 0 s ≡ false → mem 0 (replace_cr s) ≡ false
unfolding replace_cr mem
replace_cr-no_nul [] h = refl
replace_cr-no_nul (c ∷ s) h = ground (arith, h, replace_cr-no_nul s)

replace_crlf-no_nul : (s : Text) → mem 0 s ≡ false → mem 0 (replace_crlf s) ≡ false
unfolding replace_crlf mem
replace_crlf-no_nul [] h = refl
replace_crlf-no_nul (c ∷ s) h = ground (arith, h, replace_crlf-no_nul s)

replace_crlf-same : (s : Text) → mem 13 s ≡ false → replace_crlf s ≡ s
unfolding replace_crlf mem
replace_crlf-same [] h = refl
replace_crlf-same (c ∷ s) h = ground (arith, h, replace_crlf-same s)

replace_cr-same : (s : Text) → mem 13 s ≡ false → replace_cr s ≡ s
unfolding replace_cr mem
replace_cr-same [] h = refl
replace_cr-same (c ∷ s) h = ground (arith, h, replace_cr-same s)

-- A text that is accepted is left without NUL and without carriage returns, and normalizing it again
-- changes nothing.
pub normalize_text_idempotent :
    (text normal : Text)
    → normalize_text text ≡ ok normal
    → (mem 0 normal ≡ false) × (mem 13 normal ≡ false) × (normalize_text normal ≡ ok normal)
unfolding normalize_text
normalize_text_idempotent text normal h = elim (Bool-cases (mem 0 text)) [
  | inl e ↦ absurd (ground (arith, e, h))
  | inr e ↦
      let made = replace_cr (replace_crlf text) in
      let same : made ≡ normal = ok_injective made normal (rw e at h) in
      let no_nul = replace_cr-no_nul (replace_crlf text) (replace_crlf-no_nul text e) in
      let no_cr = replace_cr-no_cr (replace_crlf text) in
      let kept : replace_cr (replace_crlf made) ≡ made =
        ap replace_cr (replace_crlf-same made no_cr) ∙ replace_cr-same made no_cr in
      subst (λ t. (mem 0 t ≡ false) × (mem 13 t ≡ false) × (normalize_text t ≡ ok t)) same
        (no_nul, no_cr, rw no_nul (ap ok kept))
]
