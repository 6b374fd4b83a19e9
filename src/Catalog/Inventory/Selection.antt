-- ===== src/Catalog/Inventory/Selection.antt =====
-- The inventory selection of src/domain/task-5-2-device-inventory-pricing.ts: its independent description.
use mathlib.Core.Path.{subst}
use kirimkode_partner.Base.{
  ℕ, ◌≡◌, refl, sym, ap, ◌∙◌, ◌≢◌, ◌⊎◌, inl, inr, Bool, true, false, Option, none, some, List, [],
  ◌∷◌, arith, if◌then◌else◌, Bool-cases, Result, ok, bind_returns,
}
use kirimkode_partner.Number.{Number}
use kirimkode_partner.Catalog.Pricing.{CatalogError}
use kirimkode_partner.Catalog.Dimension.{InventoryFilter}
use kirimkode_partner.Catalog.Inventory.{
  InventoryCandidate, is_inventory_candidate_eligible, keep_if, units, lt_units, insert_by, sort_by,
  first, before, select_eligible_inventory,
}

lt_units_asym : (s t : List ℕ) → lt_units s t ≡ true → lt_units t s ≡ false
unfolding lt_units
lt_units_asym s [] h = absurd (ground arith)
lt_units_asym [] (d ∷ t) h = refl
lt_units_asym (c ∷ s) (d ∷ t) h = ground (arith, lt_units_asym s t)

lt_units_cotrans :
    (s t u : List ℕ) → lt_units s t ≡ false → lt_units t u ≡ false → lt_units s u ≡ false
unfolding lt_units
lt_units_cotrans s t [] h k = refl
lt_units_cotrans s [] (e ∷ u) h k = absurd (ground arith)
lt_units_cotrans [] (d ∷ t) (e ∷ u) h k = absurd (ground arith)
lt_units_cotrans (c ∷ s) (d ∷ t) (e ∷ u) h k = ground (arith, lt_units_cotrans s t u)

abbrev pub Member : {A : Type 0} → A → List A → Type 0
Member x [] = ⊥
Member x (y ∷ ys) = (x ≡ y) ⊎ Member x ys

-- A member that no member comes before; nothing in an empty list.
abbrev IsLeast : Option InventoryCandidate → List InventoryCandidate → Type 0
IsLeast none xs = (z : InventoryCandidate) → Member z xs → ⊥
IsLeast (some m) xs = Member m xs × ((z : InventoryCandidate) → Member z xs → before z m ≡ false)

before_self : (x : InventoryCandidate) → before x x ≡ false
before_self x = elim (Bool-cases (before x x)) [
  | inl y ↦ lt_units_asym (units x.number_id) (units x.number_id) y
  | inr n ↦ n
]

before_all :
    (m x : InventoryCandidate) (xs : List InventoryCandidate)
    → before x m ≡ false
    → ((z : InventoryCandidate) → Member z xs → before z m ≡ false)
    → (z : InventoryCandidate) → Member z (x ∷ xs)
    → before z m ≡ false
before_all m x xs h k z (inl e) = rw e h
before_all m x xs h k z (inr i) = k z i

insert-IsLeast :
    (x : InventoryCandidate) (xs s : List InventoryCandidate)
    → IsLeast (first s) xs
    → IsLeast (first (insert_by before x s)) (x ∷ xs)
unfolding insert_by
insert-IsLeast x xs [] h = (inl refl, before_all x x xs (before_self x) (λ z i. absurd (h z i)))
insert-IsLeast x xs (y ∷ ys) (i, least) = elim (Bool-cases (before y x)) [
  | inl e ↦
      rw e
        (inr i, before_all y x xs (lt_units_asym (units y.number_id) (units x.number_id) e) least)
  | inr n ↦ rw n (
    inl refl,
    before_all x x xs (before_self x) (λ z j.
        lt_units_cotrans (units z.number_id) (units y.number_id) (units x.number_id) (least z j) n),
  )
]

sort-IsLeast : (xs : List InventoryCandidate) → IsLeast (first (sort_by before xs)) xs
unfolding sort_by
sort-IsLeast [] = λ z i. i
sort-IsLeast (x ∷ xs) = insert-IsLeast x xs (sort_by before xs) (sort-IsLeast xs)

abbrev returned : List InventoryCandidate → Result CatalogError (List InventoryCandidate)
returned xs = ok xs

ok_injective : (xs ys : List InventoryCandidate) → returned xs ≡ ok ys → xs ≡ ys
ok_injective xs ys h = ground arith

step-Member :
    (b : Bool) (x z : InventoryCandidate) (rest : List InventoryCandidate)
    → Member z (if b then x ∷ rest else rest)
    → ((z ≡ x) × (b ≡ true)) ⊎ Member z rest
step-Member true x z rest (inl e) = inl (e, refl)
step-Member true x z rest (inr i) = inr i
step-Member false x z rest i = inr i

stepped-Member :
    (b : Bool) (x z : InventoryCandidate) (rest : List InventoryCandidate)
    → ((z ≡ x) × (b ≡ true)) ⊎ Member z rest
    → Member z (if b then x ∷ rest else rest)
stepped-Member true x z rest (inl (e, t)) = inl e
stepped-Member false x z rest (inl (e, t)) = absurd (ground arith)
stepped-Member true x z rest (inr i) = inr i
stepped-Member false x z rest (inr i) = i

-- The filter keeps exactly the items that pass.
module _ (p : InventoryCandidate → Result CatalogError Bool) where
  kept-Member :
      (xs ys : List InventoryCandidate)
      → keep_if p xs ≡ ok ys
      → (z : InventoryCandidate) → Member z ys
      → Member z xs × (p z ≡ ok true)
  unfolding keep_if
  kept-Member [] ys h z i = absurd (subst (Member z) (sym (ok_injective [] ys h)) i)
  kept-Member (x ∷ xs) ys h z i =
      let (b, e, h1) = bind_returns (p x) _ h in
      let (rest, f, h2) = bind_returns (keep_if p xs) _ h1 in
      let j : Member z (if b then x ∷ rest else rest) =
        subst (Member z) (sym (ok_injective (if b then x ∷ rest else rest) ys h2)) i in
      elim (step-Member b x z rest j) [
        | inl (s, t) ↦ (inl s, ap p s ∙ e ∙ ap ok t)
        | inr k ↦ (let (m, t) = kept-Member xs rest f z k in (inr m, t))
      ]

  passing-Member :
      (xs ys : List InventoryCandidate)
      → keep_if p xs ≡ ok ys
      → (z : InventoryCandidate) → Member z xs
      → p z ≡ ok true
      → Member z ys
  unfolding keep_if
  passing-Member [] ys h z i t = elim i [ ]
  passing-Member (x ∷ xs) ys h z i t =
      let (b, e, h1) = bind_returns (p x) _ h in
      let (rest, f, h2) = bind_returns (keep_if p xs) _ h1 in
      rw (sym (ok_injective (if b then x ∷ rest else rest) ys h2)) (
        stepped-Member b x z rest (elim i [
          | inl s ↦ inl (s, ground (arith, e, t, ap p s))
          | inr k ↦ inr (passing-Member xs rest f z k t)
        ]))

-- What a selection from the candidates may be.
abbrev pub IsSelected :
    List InventoryCandidate
    → (InventoryCandidate → Result CatalogError Bool)
    → Option InventoryCandidate
    → Type 0
IsSelected cs eligible none = (z : InventoryCandidate) → Member z cs → eligible z ≢ ok true
IsSelected cs eligible (some m) =
    Member m cs
    × (eligible m ≡ ok true)
    × ((z : InventoryCandidate) → Member z cs → eligible z ≡ ok true → before z m ≡ false)

least-IsSelected :
    (cs es : List InventoryCandidate) (p : InventoryCandidate → Result CatalogError Bool)
    (o : Option InventoryCandidate)
    → keep_if p cs ≡ ok es
    → IsLeast o es
    → IsSelected cs p o
least-IsSelected cs es p none k l = λ z i t. l z (passing-Member p cs es k z i t)
least-IsSelected cs es p (some m) k (i, l) =
    let (j, t) = kept-Member p cs es k m i in
    (j, t, λ z i' t'. l z (passing-Member p cs es k z i' t'))

-- A selection that returns a candidate returns one of the list that is eligible, and no eligible one of
-- the list has an id that comes before its id; it returns none only if none is eligible.
pub select-IsSelected :
    (cs : List InventoryCandidate) (f : InventoryFilter) (now timeout : Number)
    (o : Option InventoryCandidate)
    → select_eligible_inventory cs f now timeout ≡ ok o
    → IsSelected cs (λ z. is_inventory_candidate_eligible z f now timeout) o
unfolding select_eligible_inventory
select-IsSelected cs f now timeout o h =
    let (es, k, e) =
      bind_returns (keep_if (λ z. is_inventory_candidate_eligible z f now timeout) cs) _ h in
    let same : o ≡ first (sort_by before es) = ground arith in
    rw same (
      least-IsSelected cs es (λ z. is_inventory_candidate_eligible z f now timeout)
        (first (sort_by before es)) k (sort-IsLeast es))
