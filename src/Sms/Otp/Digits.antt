-- ===== src/Sms/Otp/Digits.antt =====
-- What a candidate of the scan is: the digits of one code.
use mathlib.Core.Path.{subst}
use mathlib.Core.List.{append_assoc}
use kirimkode_partner.Base.{
  ℕ, zero, suc, ◌+◌, ◌≡◌, refl, ap, sym, ◌∙◌, Bool, true, false, Option, none, some, List, [], ◌∷◌,
  ◌++◌, ◌==◌, inl, inr, arith, length, length-append, all, Bool-cases,
}
use kirimkode_partner.Text.{Text}
use kirimkode_partner.Catalog.Phone.{is_digit}
use kirimkode_partner.Sms.Registry.{GroupedForm, OtpCodeShape}
use kirimkode_partner.Sms.Candidates.{
  with_digit, with_group, after_separator, after_digits, or_grouped, take_digits, skip_separator,
  take_grouped, match_candidate, drop_separators, value_of,
}

-- A text of so many ASCII digits.
abbrev pub IsCode : ℕ → Text → Type 0
IsCode n s = (length s ≡ n) × (all is_digit s ≡ true)

-- What was found at the start of a text: a code and what follows it.
abbrev pub Found : ℕ → Text → Option (Text × Text) → Type 0
Found n s none = Unit
Found n s (some (ds, t)) = (s ≡ ds ++ t) × IsCode n ds

with_digit-Found :
    (n c : ℕ) (s : Text) (b : Bool) (found : Option (Text × Text))
    → is_digit c ≡ b
    → Found n s found
    → Found (suc n) (c ∷ s) (with_digit b c found)
with_digit-Found n c s false found h f = tt
with_digit-Found n c s true none h f = tt
with_digit-Found n c s true (some (ds, t)) h (e, (l, d)) =
    (ap (λ z. c ∷ z) e, (omega (arith, l), ground (arith, h, d)))

pub take_digits-Found : (n : ℕ) (s : Text) → Found n s (take_digits n s)
unfolding take_digits
take_digits-Found zero s = (refl, (refl, refl))
take_digits-Found (suc n) [] = tt
take_digits-Found (suc n) (c ∷ s) =
    with_digit-Found n c s (is_digit c) (take_digits n s) refl (take_digits-Found n s)

abbrev total : List ℕ → ℕ
total [] = 0
total (n ∷ []) = n
total (n ∷ k ∷ ns) = n + total (k ∷ ns)

all_append {ℓ} :
    {A : Type ℓ} (p : A → Bool) (xs ys : List A)
    → all p xs ≡ true
    → all p ys ≡ true
    → all p (xs ++ ys) ≡ true
all_append p [] ys h k = k
all_append p (x ∷ xs) ys h k = ground (arith, h, all_append p xs ys, k)

module _ (c : ℕ) (other : is_digit c ≡ false) where
  drop_separators-append :
      (ds s : Text)
      → all is_digit ds ≡ true
      → drop_separators (c ∷ []) zero (ds ++ s) ≡ ds ++ drop_separators (c ∷ []) zero s
  unfolding drop_separators
  drop_separators-append [] s h = refl
  drop_separators-append (d ∷ ds) s h = ground (arith, other, h, drop_separators-append ds s)

  -- A match in groups: without the separators, it is a code.
  abbrev Grouped : ℕ → Text → Option (Text × Text) → Type 0
  Grouped n s none = Unit
  Grouped n s (some (raw, t)) = (s ≡ raw ++ t) × IsCode n (drop_separators (c ∷ []) zero raw)

  pub dropped_digits : (ds : Text) → all is_digit ds ≡ true → drop_separators (c ∷ []) zero ds ≡ ds
  unfolding drop_separators
  dropped_digits [] h = refl
  dropped_digits (d ∷ ds) h = ground (arith, other, h, dropped_digits ds)

  one_group :
      (n : ℕ) (s : Text) (found : Option (Text × Text)) → Found n s found → Grouped n s found
  one_group n s none f = tt
  one_group n s (some (ds, t)) (e, (l, d)) = (e, rw (dropped_digits ds d) (l, d))

  -- A group, the separator and further groups.
  joined :
      (ds es : Text)
      → all is_digit ds ≡ true
      → drop_separators (c ∷ []) zero (ds ++ (c ∷ es)) ≡ ds ++ drop_separators (c ∷ []) zero es
  unfolding drop_separators
  joined ds es h = drop_separators-append ds (c ∷ es) h ∙ ap (λ z. ds ++ z) (ground arith)

  next_group :
      (n k : ℕ) (ds s : Text) (found : Option (Text × Text))
      → IsCode n ds
      → Grouped k s found
      → Grouped (n + k) (ds ++ (c ∷ s)) (with_group ds (c ∷ []) found)
  next_group n k ds s none i g = tt
  next_group n k ds s (some (es, u)) (l, d) (e, (m, h)) = (
    ap (λ z. ds ++ (c ∷ z)) e ∙ sym (append_assoc ds (c ∷ es) u),
    rw (joined ds es d) (
      omega (arith, length-append ds (drop_separators (c ∷ []) zero es), l, m),
      all_append is_digit ds (drop_separators (c ∷ []) zero es) d h,
    ),
  )

  -- What stands behind the separator, if it is there.
  Behind : Text → Option Text → Type 0
  Behind t none = Unit
  Behind t (some u) = t ≡ c ∷ u

  skip_separator-Behind : (t : Text) → Behind t (skip_separator (c ∷ []) t)
  unfolding Behind
  skip_separator-Behind [] = tt
  skip_separator-Behind (d ∷ t) = elim (Bool-cases (c == d)) [
    | inl e ↦ ground (arith, e)
    | inr e ↦ ground (arith, e)
  ]

  separated :
      (n k : ℕ) (ds t : Text) (groups : Text → Option (Text × Text)) (o : Option Text)
      → IsCode n ds
      → ((u : Text) → Grouped k u (groups u))
      → Behind t o
      → Grouped (n + k) (ds ++ t) (after_separator ds (c ∷ []) groups o)
  unfolding Behind
  separated n k ds t groups none i g b = tt
  separated n k ds t groups (some u) i g b =
      subst (λ z. Grouped (n + k) (ds ++ z) (with_group ds (c ∷ []) (groups u))) (sym b)
        (next_group n k ds u (groups u) i (g u))

  more_groups :
      (n k : ℕ) (s : Text) (groups : Text → Option (Text × Text)) (found : Option (Text × Text))
      → ((u : Text) → Grouped k u (groups u))
      → Found n s found
      → Grouped (n + k) s (after_digits (c ∷ []) groups found)
  more_groups n k s groups none g f = tt
  more_groups n k s groups (some (ds, t)) g (e, i) =
      subst
        (λ z. Grouped (n + k) z (after_separator ds (c ∷ []) groups (skip_separator (c ∷ []) t)))
        (sym e)
        (separated n k ds t groups (skip_separator (c ∷ []) t) i g (skip_separator-Behind t))

  take_grouped-Grouped :
      (sizes : List ℕ) (s : Text) → Grouped (total sizes) s (take_grouped sizes (c ∷ []) s)
  unfolding take_grouped drop_separators
  take_grouped-Grouped [] s = (refl, (refl, refl))
  take_grouped-Grouped (n ∷ []) s = one_group n s (take_digits n s) (take_digits-Found n s)
  take_grouped-Grouped (n ∷ k ∷ sizes) s =
      more_groups n (total (k ∷ sizes)) s (λ u. take_grouped (k ∷ sizes) (c ∷ []) u)
        (take_digits n s) (λ u. take_grouped-Grouped (k ∷ sizes) u) (take_digits-Found n s)

-- Groups that add up to the length, joined by one character that is no digit.
unfoldable pub IsJoinable : ℕ → Option GroupedForm → Type 0
IsJoinable n none = Unit
IsJoinable n (some g) =
    (c : ℕ) × (is_digit c ≡ false) × (g.separator ≡ c ∷ []) × (total g.group_sizes ≡ n)

-- A match at the start of a text whose value is a code.
abbrev pub Fits : ℕ → Option GroupedForm → Text → Option (Text × Text) → Type 0
Fits n form s none = Unit
Fits n form s (some (raw, t)) = (s ≡ raw ++ t) × IsCode n (value_of form raw)

contiguous-Fits :
    (n : ℕ) (form : Option GroupedForm) (s ds t : Text)
    → IsJoinable n form
    → Found n s (some (ds, t))
    → Fits n form s (some (ds, t))
unfolding IsJoinable
contiguous-Fits n none s ds t j f = f
contiguous-Fits n (some g) s ds t (c, x, p, q) (e, (l, d)) =
    (e, rw (p, dropped_digits c x ds d) (l, d))

Grouped-Fits :
    (n c : ℕ) (x : is_digit c ≡ false) (g : GroupedForm) (s : Text) (found : Option (Text × Text))
    → g.separator ≡ c ∷ []
    → Grouped c x n s found
    → Fits n (some g) s found
Grouped-Fits n c x g s none p f = tt
Grouped-Fits n c x g s (some (raw, t)) p (e, i) = (e, rw p i)

or_grouped-Fits :
    (n : ℕ) (form : Option GroupedForm) (s : Text) (found : Option (Text × Text))
    → IsJoinable n form
    → Found n s found
    → Fits n form s (or_grouped found form s)
unfolding IsJoinable
or_grouped-Fits n form s (some (ds, t)) j f = contiguous-Fits n form s ds t j f
or_grouped-Fits n none s none j f = tt
or_grouped-Fits n (some g) s none (c, x, p, q) f =
    Grouped-Fits n c x g s (take_grouped g.group_sizes g.separator s) p (
      subst (λ z. Grouped c x z s (take_grouped g.group_sizes g.separator s)) q
        (subst (λ z. Grouped c x (total g.group_sizes) s (take_grouped g.group_sizes z s)) (sym p)
          (take_grouped-Grouped c x g.group_sizes s)))

pub match_candidate-Fits :
    (shape : OtpCodeShape) (s : Text)
    → IsJoinable shape.digit_length shape.grouped_form
    → Fits shape.digit_length shape.grouped_form s (match_candidate shape s)
unfolding match_candidate
match_candidate-Fits shape s j =
    or_grouped-Fits shape.digit_length shape.grouped_form s (take_digits shape.digit_length s) j
      (take_digits-Found shape.digit_length s)
