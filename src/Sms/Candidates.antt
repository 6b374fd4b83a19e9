-- ===== src/Sms/Candidates.antt =====
-- The scan for codes in src/domain/sms-matching-otp.ts (candidatePattern, intactCodeCandidates). `is_decimal`
-- stands for the class `\p{Nd}`. The source indexes a string by code units, and half of a surrogate pair is in
-- no class.
use kirimkode_partner.Base.{
  ℕ, zero, suc, ◌-◌, Bool, true, false, not, ◌&&◌, ◌||◌, Option, none, some, List, [], ◌∷◌, ◌++◌,
  leb, length, if◌then◌else◌,
}
use kirimkode_partner.Text.{Text}
use kirimkode_partner.Catalog.Phone.{is_digit, starts_with, slice}
use kirimkode_partner.Sms.Registry.{GroupedForm, OtpCodeShape, includes}

-- A class on one code unit of the text, which is never in it if it is half of a surrogate pair.
abbrev pub on_unit : (ℕ → Bool) → ℕ → Bool
on_unit p c = leb c 0xffff && p c

-- Whether the text is there and starts with a code unit of the class.
abbrev pub head_is : (ℕ → Bool) → Text → Bool
head_is p [] = false
head_is p (c ∷ s) = on_unit p c

-- A digit in front of what follows it.
abbrev pub with_digit : Bool → ℕ → Option (Text × Text) → Option (Text × Text)
with_digit false c found = none
with_digit true c none = none
with_digit true c (some (ds, t)) = some (c ∷ ds, t)

-- `[0-9]{n}` at the start of a text: the digits and what follows.
unfoldable pub take_digits : ℕ → Text → Option (Text × Text)
take_digits zero s = some ([], s)
take_digits (suc n) [] = none
take_digits (suc n) (c ∷ s) = with_digit (is_digit c) c (take_digits n s)

abbrev pub skip_separator : Text → Text → Option Text
skip_separator separator s =
    if starts_with separator s then some (slice (length separator) s) else none

abbrev pub with_group : Text → Text → Option (Text × Text) → Option (Text × Text)
with_group ds separator none = none
with_group ds separator (some (es, t)) = some (ds ++ (separator ++ es), t)

abbrev pub after_separator :
    Text → Text → (Text → Option (Text × Text)) → Option Text → Option (Text × Text)
after_separator ds separator groups none = none
after_separator ds separator groups (some u) = with_group ds separator (groups u)

abbrev pub after_digits :
    Text → (Text → Option (Text × Text)) → Option (Text × Text) → Option (Text × Text)
after_digits separator groups none = none
after_digits separator groups (some (ds, t)) =
    after_separator ds separator groups (skip_separator separator t)

-- The groups of digits joined by the separator.
unfoldable pub take_grouped : List ℕ → Text → Text → Option (Text × Text)
take_grouped [] separator s = some ([], s)
take_grouped (n ∷ []) separator s = take_digits n s
take_grouped (n ∷ k ∷ sizes) separator s =
    after_digits separator (λ u. take_grouped (k ∷ sizes) separator u) (take_digits n s)

abbrev pub or_grouped : Option (Text × Text) → Option GroupedForm → Text → Option (Text × Text)
or_grouped (some found) form s = some found
or_grouped none none s = none
or_grouped none (some g) s = take_grouped g.group_sizes g.separator s

-- `candidatePattern` at the start of a text: the contiguous digits are tried first.
unfoldable pub match_candidate : OtpCodeShape → Text → Option (Text × Text)
match_candidate shape s = or_grouped (take_digits shape.digit_length s) shape.grouped_form s

-- `raw.split(separator).join("")`: drops the separators, where `skip` characters of one are left.
unfoldable pub drop_separators : Text → ℕ → Text → Text
drop_separators separator skip [] = []
drop_separators separator (suc k) (c ∷ s) = drop_separators separator k s
drop_separators separator zero (c ∷ s) =
    let dropped = drop_separators separator (length separator - 1) s in
    let kept = drop_separators separator zero s in
    if starts_with separator (c ∷ s) then dropped else c ∷ kept

abbrev pub reverse_onto : Text → Text → Text
reverse_onto [] t = t
reverse_onto (c ∷ s) t = reverse_onto s (c ∷ t)

-- Whether the separator stands at the start and a decimal digit behind it.
unfoldable pub links_to_digit : (ℕ → Bool) → Text → Text → Bool
links_to_digit is_decimal separator s =
    starts_with separator s && head_is is_decimal (slice (length separator) s)

-- Whether a grouped match is a link of a longer chain; the text before it stands backwards.
unfoldable pub in_chain : (ℕ → Bool) → Option GroupedForm → Text → Text → Text → Bool
in_chain is_decimal none before raw after = false
in_chain is_decimal (some g) before raw after =
    includes g.separator raw
    && (links_to_digit is_decimal (reverse_onto g.separator []) before
        || links_to_digit is_decimal g.separator after)

abbrev pub value_of : Option GroupedForm → Text → Text
value_of none raw = raw
value_of (some g) raw = drop_separators g.separator zero raw

-- The tests of one match; a candidate is its digits and the text before it, backwards.
unfoldable pub is_intact : (ℕ → Bool) → OtpCodeShape → Text → Text → Text → Bool
is_intact is_decimal shape before raw after =
    not (head_is is_decimal before || head_is is_decimal after)
    && not (in_chain is_decimal shape.grouped_form before raw after)

-- What is left to skip behind the first character of a match, and the candidates with this match.
abbrev pub rest_of : Option (Text × Text) → ℕ
rest_of none = zero
rest_of (some ([], after)) = zero
rest_of (some (c ∷ raw, after)) = length raw

abbrev pub with_match :
    (ℕ → Bool)
    → OtpCodeShape
    → Text
    → Option (Text × Text)
    → List (Text × Text)
    → List (Text × Text)
with_match is_decimal shape before none rest = rest
with_match is_decimal shape before (some (raw, after)) rest =
    if is_intact is_decimal shape before raw after
    then (value_of shape.grouped_form raw, before) ∷ rest
    else rest

-- `body.matchAll` with the tests of each match. The number is how many characters of the last match
-- are still to come.
unfoldable pub candidates_from : (ℕ → Bool) → OtpCodeShape → ℕ → Text → Text → List (Text × Text)
candidates_from is_decimal shape skip before [] = []
candidates_from is_decimal shape (suc k) before (c ∷ s) =
    candidates_from is_decimal shape k (c ∷ before) s
candidates_from is_decimal shape zero before (c ∷ s) =
    with_match is_decimal shape before (match_candidate shape (c ∷ s))
      (candidates_from is_decimal shape (rest_of (match_candidate shape (c ∷ s))) (c ∷ before) s)

unfoldable pub intact_code_candidates : (ℕ → Bool) → Text → OtpCodeShape → List (Text × Text)
intact_code_candidates is_decimal body shape = candidates_from is_decimal shape zero [] body
