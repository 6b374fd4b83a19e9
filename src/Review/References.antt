-- ===== src/Review/References.antt =====
-- The payment references of the payouts over a run.
use mathlib.Core.Path.{subst}
use kirimkode_partner.Base.{
  ◌≡◌, refl, sym, ap, ◌∙◌, ◌≢◌, inl, inr, Bool, true, false, not, ◌&&◌, Option, none, some, List,
  [], ◌∷◌, ◌++◌, arith, All, All-append, if◌then◌else◌, any,
}
use mathlib.Core.List.{append_assoc}
use kirimkode_partner.Text.{Text, eq_text, eq_text_iff}
use kirimkode_partner.Earning.{EarningStatus}
use kirimkode_partner.Payout.{PayoutStatus}
use kirimkode_partner.Review.Rows.{PayoutRow, Books}
use kirimkode_partner.Review.{
  advanced, has_reference, is_reference_taken, release_allocations, release_if,
}
use kirimkode_partner.Review.Payouts.{request-Booked}
use kirimkode_partner.Review.Moves.{AllDiffer}
use kirimkode_partner.Review.Invariant.{
  payout_ids, IsBooked, Apart, AllDiffer-append, AllDiffer-parts,
}
use kirimkode_partner.Review.Settles.{ids-append, AllDiffer-drop, firsts, advance-Advanced}
use kirimkode_partner.Review.Reviews.{review_cases}
use kirimkode_partner.Review.Runs.{
  Run, begin, then_release, then_reverse, then_request, then_review, run-IsBooked,
}

abbrev pub own_reference : Option Text → List Text
own_reference none = []
own_reference (some r) = r ∷ []

-- The payment references that the payouts have.
abbrev pub references : List PayoutRow → List Text
references [] = []
references (p ∷ ps) = own_reference p.payout.payment_reference ++ references ps

references-append :
    (ps qs : List PayoutRow) → references (ps ++ qs) ≡ references ps ++ references qs
references-append [] qs = refl
references-append (p ∷ ps) qs =
    ap (λ z. own_reference p.payout.payment_reference ++ z) (references-append ps qs)
    ∙ sym (append_assoc (own_reference p.payout.payment_reference) (references ps) (references qs))

if_references :
    (b : Bool) (p : PayoutRow)
    → own_reference (if b then record p { released = true } else p).payout.payment_reference
      ≡ own_reference p.payout.payment_reference
if_references true p = refl
if_references false p = refl

release-references :
    (id : Text) (ps : List PayoutRow) → references (release_allocations id ps) ≡ references ps
unfolding release_allocations
release-references id [] = refl
release-references id (p ∷ ps) =
    rw (if_references (eq_text p.payout.id id) p, release-references id ps) refl

release_if-references :
    (next : Option EarningStatus) (id : Text) (ps : List PayoutRow)
    → references (release_if next id ps) ≡ references ps
release_if-references none id ps = refl
release_if-references (some EarningStatus.available) id ps = release-references id ps
release_if-references (some s) id ps = refl

own_free :
    (reference : Text) (o : Option Text)
    → has_reference reference o ≡ false
    → All (λ u. u ≢ reference) (own_reference o)
own_free reference none h = tt
own_free reference (some r) h = ((λ e. ground (arith, (eq_text_iff r reference).1 e)), tt)

-- A free reference is no reference of the other payouts.
rest_free :
    (id reference : Text) (ps : List PayoutRow)
    → All (λ u. u ≢ id) (payout_ids ps)
    → any
        (λ p. not (eq_text p.payout.id id) && has_reference reference p.payout.payment_reference)
        ps
      ≡ false
    → All (λ u. u ≢ reference) (references ps)
rest_free id reference [] n h = tt
rest_free id reference (p ∷ ps) n h =
    All-append (λ u. u ≢ reference) (own_reference p.payout.payment_reference) (references ps)
      (own_free reference p.payout.payment_reference
        (ground (arith, n.0, eq_text_iff p.payout.id id)))
      (rest_free id reference ps n.1 (ground arith))

any_parts :
    (f : PayoutRow → Bool) (xs ys : List PayoutRow)
    → any f (xs ++ ys) ≡ false
    → (any f xs ≡ false) × (any f ys ≡ false)
any_parts f [] ys h = (refl, h)
any_parts f (x ∷ xs) ys h = let (a, b) = any_parts f xs ys (ground arith) in (ground (arith, a), b)

with_head : (ts vs : List Text) (r : Text) → All (λ u. u ≢ r) ts → Apart ts vs → Apart ts (r ∷ vs)
with_head [] vs r a z = tt
with_head (t ∷ ts) vs r a z = (((λ e. a.0 (sym e)), z.0), with_head ts vs r a.1 z.1)

-- A list of differing texts of which the middle one is replaced by a text that is not among the others.
middle_AllDiffer :
    (ts us vs : List Text) (r : Text)
    → AllDiffer (ts ++ (us ++ vs))
    → All (λ u. u ≢ r) ts
    → All (λ u. u ≢ r) vs
    → AllDiffer (ts ++ r ∷ vs)
middle_AllDiffer ts us vs r d a b =
    let (x, y, z) = AllDiffer-parts ts vs (AllDiffer-drop ts us vs d) in
    AllDiffer-append ts (r ∷ vs) x (b, y) (with_head ts vs r a z)

updated_references :
    (others : List Text) (id : Text) (reference : Option Text) (next : PayoutStatus)
    (xs zs : List PayoutRow) (p : PayoutRow)
    → p.payout.id ≡ id
    → AllDiffer (payout_ids (xs ++ p ∷ zs))
    → is_reference_taken others id reference (xs ++ p ∷ zs) ≡ false
    → AllDiffer (references (xs ++ p ∷ zs))
    → AllDiffer (references (xs ++ advanced p next reference ∷ zs))
unfolding is_reference_taken
updated_references others id none next xs zs p same u f d =
    subst AllDiffer
      (references-append xs (p ∷ zs) ∙ sym (references-append xs (advanced p next none ∷ zs))) d
updated_references others id (some r) next xs zs p same u f d =
    let test = λ (x : PayoutRow).
      not (eq_text x.payout.id id) && has_reference r x.payout.payment_reference in
    let (a, b) = any_parts test xs (p ∷ zs) (ground arith) in
    let (_, own, apart) =
      AllDiffer-parts (payout_ids xs) (payout_ids (p ∷ zs))
        (subst AllDiffer (ids-append xs (p ∷ zs)) u) in
    subst AllDiffer (sym (references-append xs (advanced p next (some r) ∷ zs))) (
      middle_AllDiffer (references xs) (own_reference p.payout.payment_reference) (references zs) r
        (subst AllDiffer (references-append xs (p ∷ zs)) d)
        (rest_free id r xs
          (subst (λ k. All (λ u. u ≢ k) (payout_ids xs)) same
            (firsts p.payout.id (payout_ids zs) (payout_ids xs) apart))
          a)
        (rest_free id r zs (subst (λ k. All (λ u. u ≢ k) (payout_ids zs)) same own.0)
          (ground (arith, b))))

-- From books in order in which no two payouts have one payment reference, no run of the services, in which
-- each payout has a new id, ever reaches books in which two payouts of the partner have one.
pub run_references_differ :
    (b₀ : Books) (past : List Books) (b : Books)
    → IsBooked b₀
    → AllDiffer (references b₀.payouts)
    → Run b₀ past b
    → AllDiffer (references b.payouts)
run_references_differ b₀ past b i d begin = d
run_references_differ b₀ past b i d (then_release past' t s seen id now dispute r run read h) =
    run_references_differ b₀ past' t i d run
run_references_differ b₀ past b i d (then_reverse past' t s seen id reason r run read h) =
    run_references_differ b₀ past' t i d run
run_references_differ b₀ past b i d (then_request past' t b' seen ids id minimum r run read new h) =
    let e = run_references_differ b₀ past' t i d run in
    elim (request-Booked seen.store.earnings ids id minimum t b' r h) [
      | inl same ↦ rw same e
      | inr (sel, _, k) ↦ rw k.added e
    ]
run_references_differ b₀ past b i d
      (then_review past' t b' seen others admin now id request o run read h) =
    let e = run_references_differ b₀ past' t i d run in
    let j = run-IsBooked b₀ past' t i run in
    elim (review_cases others seen.payouts admin now id request t b' o h) [
      | inl same ↦ rw same e
      | inr (c, _, _, _, k) ↦
          let q = k.row.payout in
          let a =
            advance-Advanced q.id q.status k.applied.next_status k.applied.payment_reference
              t.payouts k.payouts k.moved in
          subst (λ z. AllDiffer (references z.payouts)) (sym k.left.left)
            (subst AllDiffer
              (sym (release_if-references k.applied.earning_next_status q.id k.payouts))
              (subst (λ z. AllDiffer (references z)) (sym a.now)
                (updated_references others q.id k.applied.payment_reference k.applied.next_status
                  a.before a.behind a.row a.id_eq
                  (subst (λ z. AllDiffer (payout_ids z)) a.was j.unique)
                  (subst (λ z. is_reference_taken others q.id k.applied.payment_reference z ≡ false)
                    a.was k.free)
                  (subst (λ z. AllDiffer (references z)) a.was e))))
    ]
