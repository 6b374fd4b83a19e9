-- ===== src/Text.antt =====
-- Strings as the list of their Unicode code points (a lone surrogate is outside this model).
pub mod Uri
pub mod Trim
use Prim.Native.Char.{code}
use Prim.Native.String.{String}
use kirimkode_partner.Base.{
  keep, Bool-cases, inl, inr, ◌∙◌, ℕ, ◌+◌, ◌≤◌, ◌≡◌, refl, ◌↔◌, Bool, true, false, ◌&&◌, ◌||◌, List,
  [], ◌∷◌, all, not, arith, leb, ◌==◌, if◌then◌else◌,
}

abbrev pub Text : Type 0
Text = List ℕ

-- A string literal of the source.
abbrev pub codes : String → Text
codes String.[] = []
codes (String.◌∷◌ c s) = code c ∷ codes s

-- `s === t`
abbrev pub eq_text : Text → Text → Bool
eq_text [] [] = true
eq_text [] (d ∷ t) = false
eq_text (c ∷ s) [] = false
eq_text (c ∷ s) (d ∷ t) = (c == d) && eq_text s t

pub eq_text_iff : (s t : Text) → (eq_text s t ≡ true) ↔ (s ≡ t)
eq_text_iff [] [] = (λ _. refl, λ _. refl)
eq_text_iff [] (d ∷ t) = (λ h. cc, λ h. cc)
eq_text_iff (c ∷ s) [] = (λ h. cc, λ h. cc)
eq_text_iff (c ∷ s) (d ∷ t) = ground (arith, eq_text_iff s t)

pub eq_text_refl : (s : Text) → eq_text s s ≡ true
eq_text_refl s = (eq_text_iff s s).1 refl

-- What `String.prototype.trim` removes: white space and line terminators.
unfoldable pub is_space : ℕ → Bool
is_space c =
    (leb 9 c && leb c 13)
    || (c == 32)
    || (c == 160)
    || (c == 0x1680)
    || (leb 0x2000 c && leb c 0x200a)
    || (c == 0x2028)
    || (c == 0x2029)
    || (c == 0x202f)
    || (c == 0x205f)
    || (c == 0x3000)
    || (c == 0xfeff)

unfoldable pub trim_start : Text → Text
unfolding is_space
trim_start [] = []
trim_start (c ∷ s) = let rest = trim_start s in if is_space c then rest else c ∷ s

-- A character before what is left of the text behind it.
keep_head : ℕ → Text → Text
unfolding is_space
keep_head c [] = if is_space c then [] else c ∷ []
keep_head c (d ∷ t) = c ∷ d ∷ t

-- Drops the white space at the end, working from the back.
unfoldable pub trim_end : Text → Text
unfolding keep_head
trim_end [] = []
trim_end (c ∷ s) = keep_head c (trim_end s)

-- `s.trim()`
unfoldable pub trim : Text → Text
unfolding trim_start trim_end
trim s = trim_end (trim_start s)

-- `s.trim().length === 0`
unfoldable pub is_blank : Text → Bool
unfolding trim
is_blank s = elim (trim s) [ [] ↦ true | _ ↦ false ]

-- `s.length`, in UTF-16 code units.
unfoldable pub utf16_length : Text → ℕ
utf16_length [] = 0
utf16_length (c ∷ s) = (if leb 0x10000 c then 2 else 1) + utf16_length s

-- A text that begins with a visible character is not blank.
pub is_blank-cons : (c : ℕ) (s : Text) → is_space c ≡ false → is_blank (c ∷ s) ≡ false
unfolding is_blank keep_head
is_blank-cons c s h = cases (trim_end s) refl
  where
    cases : (t : Text) → trim_end s ≡ t → is_blank (c ∷ s) ≡ false
    cases [] e = ground arith
    cases (d ∷ t) e = ground arith

trim_end-visible : (s : Text) → all (λ c. not (is_space c)) s ≡ true → trim_end s ≡ s
unfolding trim_end keep_head
trim_end-visible [] h = refl
trim_end-visible (c ∷ []) h = ground arith
trim_end-visible (c ∷ d ∷ s) h = ground (arith, trim_end-visible (d ∷ s))

-- Trimming keeps a text without white space.
pub trim-visible : (s : Text) → all (λ c. not (is_space c)) s ≡ true → trim s ≡ s
unfolding trim trim_start
trim-visible [] h = refl
trim-visible (c ∷ s) h = ground (arith, trim_end-visible (c ∷ s) h)

-- The visible ASCII characters.
pub visible_ascii : (c : ℕ) → 33 ≤ c → c ≤ 126 → is_space c ≡ false
unfolding is_space
visible_ascii c l u = ground arith

-- A filter that drops white space drops what trimming does.
module _ (p : ℕ → Bool) (drops : (c : ℕ) → is_space c ≡ true → p c ≡ false) where
  keep_start : (s : Text) → keep p (trim_start s) ≡ keep p s
  unfolding trim_start
  keep_start [] = refl
  keep_start (c ∷ s) = elim (Bool-cases (is_space c)) [
    | inl y ↦ ground (arith, y, drops c y, keep_start s)
    | inr n ↦ ground (arith, n)
  ]

  keep-keep_head : (c : ℕ) (t : Text) → keep p (keep_head c t) ≡ keep p (c ∷ t)
  unfolding keep_head
  keep-keep_head c [] = elim (Bool-cases (is_space c)) [
    | inl y ↦ ground (arith, y, drops c y)
    | inr n ↦ ground (arith, n)
  ]
  keep-keep_head c (d ∷ t) = refl

  keep_end : (s : Text) → keep p (trim_end s) ≡ keep p s
  unfolding trim_end
  keep_end [] = refl
  keep_end (c ∷ s) = keep-keep_head c (trim_end s) ∙ ground (arith, keep_end s)

  pub keep-trim : (s : Text) → keep p (trim s) ≡ keep p s
  unfolding trim
  keep-trim s = keep_end (trim_start s) ∙ keep_start s
