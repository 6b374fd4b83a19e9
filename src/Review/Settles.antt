-- ===== src/Review/Settles.antt =====
-- Lemmas on one payout of the books that changes, with its earnings and its end in the ledger.
use mathlib.Core.Path.{subst}
use mathlib.Core.List.{append_assoc}
use kirimkode_partner.Base.{
  ◌≡◌, refl, sym, ap, ◌∙◌, ◌≢◌, inl, inr, true, false, Option, none, some, List, [], ◌∷◌, ◌++◌,
  ◌&&◌, arith, All, All-map, All-append, All-parts, if◌then◌else◌, Bool-cases,
}
use kirimkode_partner.Text.{Text, eq_text, eq_text_iff, eq_text_refl}
use kirimkode_partner.Earning.{EarningStatus, EarningState}
use kirimkode_partner.Payout.{PayoutStatus, PayoutAllocation, eq_payout}
use kirimkode_partner.Settlement.{find_earning_by_id}
use kirimkode_partner.Review.Rows.{PayoutRow}
use kirimkode_partner.Review.{advanced, behind_payout, advance_payout, release_allocations}
use kirimkode_partner.Review.Payouts.{earning_ids, active_ids}
use kirimkode_partner.Review.Moves.{IsHeld, IsHeld-same, AllDiffer}
use kirimkode_partner.Review.Invariant.{held_as, payout_ids, IsBacked, Apart, AllDiffer-parts}

pub some_behind :
    (p : PayoutRow) (o : Option (List PayoutRow)) (ps : List PayoutRow)
    → behind_payout p o ≡ some ps
    → (rest : List PayoutRow) × (o ≡ some rest) × (ps ≡ p ∷ rest)
some_behind p none ps h = absurd (ground arith)
some_behind p (some rest) ps h = (rest, refl, ground arith)

same_status : (a b : PayoutStatus) → eq_payout a b ≡ true → a ≡ b
same_status a b h = ground arith

-- The row that the compare-and-set has advanced, between those that it has left.
pub record Advanced (id : Text) (expected next : PayoutStatus) (reference : Option Text)
    (ps ps' : List PayoutRow) : Type 0 where
  pub before : List PayoutRow
  pub row : PayoutRow
  pub behind : List PayoutRow
  pub was : ps ≡ before ++ row ∷ behind
  pub id_eq : row.payout.id ≡ id
  pub status_eq : row.payout.status ≡ expected
  pub now : ps' ≡ before ++ advanced row next reference ∷ behind

pub advance-Advanced :
    (id : Text) (expected next : PayoutStatus) (reference : Option Text) (ps ps' : List PayoutRow)
    → advance_payout id expected next reference ps ≡ some ps'
    → Advanced id expected next reference ps ps'
unfolding advance_payout
advance-Advanced id expected next reference [] ps' h = absurd (ground arith)
advance-Advanced id expected next reference (p ∷ ps) ps' h =
    elim (Bool-cases (eq_text p.payout.id id && eq_payout p.payout.status expected)) [
      | inl y ↦ record {
        before = [];
        row = p;
        behind = ps;
        was = refl;
        id_eq = (eq_text_iff p.payout.id id).0 (ground arith);
        status_eq = same_status p.payout.status expected (ground arith);
        now = ground (arith, y);
      }
      | inr n ↦
          let (rest, u, e) =
            some_behind p (advance_payout id expected next reference ps) ps' (ground (arith, n)) in
          let a = advance-Advanced id expected next reference ps rest u in
          record {
            before = p ∷ a.before;
            row = a.row;
            behind = a.behind;
            was = ap (λ z. p ∷ z) a.was;
            id_eq = a.id_eq;
            status_eq = a.status_eq;
            now = e ∙ ap (λ z. p ∷ z) a.now;
          }
    ]

-- The ids under the partial unique index, of the rows around one and of its own.
abbrev pub own_ids : PayoutRow → List Text
own_ids p = if p.released then [] else earning_ids p.payout.allocations

pub active_head :
    (p : PayoutRow) (ps : List PayoutRow) → active_ids (p ∷ ps) ≡ own_ids p ++ active_ids ps
unfolding active_ids
active_head p ps = elim (Bool-cases p.released) [ inl e ↦ rw e refl | inr e ↦ rw e refl ]

pub active-append :
    (ps qs : List PayoutRow) → active_ids (ps ++ qs) ≡ active_ids ps ++ active_ids qs
unfolding active_ids
active-append [] qs = refl
active-append (p ∷ ps) qs =
    active_head p (ps ++ qs)
    ∙ ap (λ z. own_ids p ++ z) (active-append ps qs)
    ∙ sym (append_assoc (own_ids p) (active_ids ps) (active_ids qs))
    ∙ ap (λ z. z ++ active_ids qs) (sym (active_head p ps))

pub ids-append : (ps qs : List PayoutRow) → payout_ids (ps ++ qs) ≡ payout_ids ps ++ payout_ids qs
ids-append [] qs = refl
ids-append (p ∷ ps) qs = ap (λ z. p.payout.id ∷ z) (ids-append ps qs)

pub AllDiffer-drop : (ts us vs : List Text) → AllDiffer (ts ++ (us ++ vs)) → AllDiffer (ts ++ vs)
AllDiffer-drop [] us vs d = (AllDiffer-parts us vs d).1
AllDiffer-drop (t ∷ ts) us vs d =
    let (a, b) = All-parts (λ u. u ≢ t) ts (us ++ vs) d.0 in
    let (_, c) = All-parts (λ u. u ≢ t) us vs b in
    (All-append (λ u. u ≢ t) ts vs a c, AllDiffer-drop ts us vs d.1)

release_others :
    (id : Text) (ps : List PayoutRow)
    → All (λ u. u ≢ id) (payout_ids ps)
    → release_allocations id ps ≡ ps
unfolding release_allocations
release_others id [] n = refl
release_others id (p ∷ ps) n =
    ground (arith, n, eq_text_iff p.payout.id id, release_others id ps n.1)

release_append :
    (id : Text) (ps qs : List PayoutRow)
    → release_allocations id (ps ++ qs) ≡ release_allocations id ps ++ release_allocations id qs
unfolding release_allocations
release_append id [] qs = refl
release_append id (p ∷ ps) qs =
    ap (λ z. (if eq_text p.payout.id id then record p { released = true } else p) ∷ z)
      (release_append id ps qs)

release_here :
    (p : PayoutRow) (ps : List PayoutRow)
    → release_allocations p.payout.id (p ∷ ps)
      ≡ record p { released = true } ∷ release_allocations p.payout.id ps
unfolding release_allocations
release_here p ps = rw (eq_text_refl p.payout.id) refl

pub firsts : (t : Text) (us ts : List Text) → Apart ts (t ∷ us) → All (λ u. u ≢ t) ts
firsts t us ts a = All-map (λ x. All (λ u. u ≢ x) (t ∷ us)) (λ u. u ≢ t) ts (λ x n e. n.0 (sym e)) a

-- The release among rows with distinct ids.
pub release_split :
    (p : PayoutRow) (xs zs : List PayoutRow)
    → AllDiffer (payout_ids (xs ++ p ∷ zs))
    → release_allocations p.payout.id (xs ++ p ∷ zs) ≡ xs ++ record p { released = true } ∷ zs
release_split p xs zs d =
    let (_, own, apart) =
      AllDiffer-parts (payout_ids xs) (payout_ids (p ∷ zs))
        (subst AllDiffer (ids-append xs (p ∷ zs)) d) in
    release_append p.payout.id xs (p ∷ zs)
    ∙ rw
        (
          release_here p zs,
          release_others p.payout.id zs own.0,
          release_others p.payout.id xs (firsts p.payout.id (payout_ids zs) (payout_ids xs) apart),
        )
        refl

-- Held allocations of rows that have no earning of `own`.
module _ (own : List Text) (es es' : List EarningState)
    (others : (k : Text)
      → All (λ u. u ≢ k) own
      → find_earning_by_id k es' ≡ find_earning_by_id k es) where
  IsHeld-Apart :
      (s : EarningStatus) (as' : List PayoutAllocation)
      → Apart (earning_ids as') own
      → All (IsHeld es s) as'
      → All (IsHeld es' s) as'
  IsHeld-Apart s [] a h = tt
  IsHeld-Apart s (x ∷ as') a h =
      (IsHeld-same es es' s x (others x.earning_id a.0) h.0, IsHeld-Apart s as' a.1 h.1)

  active-Apart :
      (p : PayoutRow) (ps : List PayoutRow)
      → Apart (active_ids (p ∷ ps)) own
      → (p.released ≡ false → Apart (earning_ids p.payout.allocations) own)
        × Apart (active_ids ps) own
  unfolding active_ids
  active-Apart p ps a =
      let (x, y) =
        All-parts (λ t. All (λ u. u ≢ t) own) (own_ids p) (active_ids ps)
          (subst (λ z. Apart z own) (active_head p ps) a) in
      ((λ e. subst (λ b. Apart (if b then [] else earning_ids p.payout.allocations) own) e x), y)

  pub Apart-IsBacked :
      (ps : List PayoutRow)
      → Apart (active_ids ps) own
      → All (IsBacked es) ps
      → All (IsBacked es') ps
  Apart-IsBacked [] a h = tt
  Apart-IsBacked (p ∷ ps) a h =
      let (x, y) = active-Apart p ps a in
      (
        record {
          cancelled = h.0.cancelled;
          held =
              λ r. IsHeld-Apart (held_as p.payout.status) p.payout.allocations (x r) (h.0.held r);
          whole = h.0.whole;
        },
        Apart-IsBacked ps y h.1,
      )
