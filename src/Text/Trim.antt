-- ===== src/Text/Trim.antt =====
-- Lemmas on `String.prototype.trim`.
use kirimkode_partner.Base.{ℕ, ◌≡◌, refl, ap, ◌∙◌, inl, inr, false, [], ◌∷◌, Bool-cases}
use kirimkode_partner.Text.{Text, is_space, keep_head, trim_start, trim_end, trim, is_blank}

-- The text does not start with white space.
abbrev StartsInk : Text → Type 0
StartsInk [] = Unit
StartsInk (c ∷ s) = is_space c ≡ false

trim_start-StartsInk : (s : Text) → StartsInk (trim_start s)
unfolding trim_start
trim_start-StartsInk [] = tt
trim_start-StartsInk (c ∷ s) = elim (Bool-cases (is_space c)) [
  | inl e ↦ rw e (trim_start-StartsInk s)
  | inr e ↦ rw e e
]

trim_start_kept : (s : Text) → StartsInk s → trim_start s ≡ s
unfolding trim_start
trim_start_kept [] h = refl
trim_start_kept (c ∷ s) h = rw h refl

keep_head-StartsInk : (c : ℕ) (s : Text) → is_space c ≡ false → StartsInk (keep_head c s)
unfolding keep_head
keep_head-StartsInk c [] h = rw h h
keep_head-StartsInk c (d ∷ t) h = h

trim_end-StartsInk : (s : Text) → StartsInk s → StartsInk (trim_end s)
unfolding trim_end
trim_end-StartsInk [] h = tt
trim_end-StartsInk (c ∷ s) h = keep_head-StartsInk c (trim_end s) h

trim_end_head : (c : ℕ) (s : Text) → trim_end s ≡ s → trim_end (keep_head c s) ≡ keep_head c s
unfolding trim_end keep_head
trim_end_head c [] h = elim (Bool-cases (is_space c)) [
  | inl e ↦ rw e refl
  | inr e ↦ rw e (rw e refl)
]
trim_end_head c (d ∷ t) h = rw h refl

trim_end-trim_end : (s : Text) → trim_end (trim_end s) ≡ trim_end s
unfolding trim_end
trim_end-trim_end [] = refl
trim_end-trim_end (c ∷ s) = trim_end_head c (trim_end s) (trim_end-trim_end s)

-- Trimming a trimmed text keeps it.
pub trim-trim : (s : Text) → trim (trim s) ≡ trim s
unfolding trim
trim-trim s =
    ap trim_end (
      trim_start_kept (trim_end (trim_start s))
        (trim_end-StartsInk (trim_start s) (trim_start-StartsInk s)))
    ∙ trim_end-trim_end (trim_start s)

-- A trimmed text is blank exactly if the text is.
pub is_blank-trim : (s : Text) → is_blank (trim s) ≡ is_blank s
unfolding is_blank
is_blank-trim s = rw (is_blank, trim-trim s) refl
