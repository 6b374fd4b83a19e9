-- ===== src/Review/Replaced.antt =====
-- Lemmas on books in which one payout is replaced.
use mathlib.Core.Path.{subst}
use kirimkode_partner.Base.{
  ◌≡◌, refl, sym, ap, ◌∙◌, ◌≢◌, Bool, true, false, List, [], ◌∷◌, ◌++◌, All, All-map, All-append,
  All-parts, if◌then◌else◌,
}
use kirimkode_partner.Text.{Text}
use kirimkode_partner.Ledger.{LedgerTransaction, payout_paid_event_key, payout_unlock_event_key}
use kirimkode_partner.Settlement.{Store, find_earning_by_id, has_key}
use kirimkode_partner.Settlement.Agreement.{IsSettled}
use kirimkode_partner.Review.Rows.{PayoutRow, Books}
use kirimkode_partner.Review.Payouts.{earning_ids, active_ids}
use kirimkode_partner.Review.Moves.{AllDiffer}
use kirimkode_partner.Review.Invariant.{
  payout_ids, IsBacked, IsOpenEnded, IsBooked, Apart, AllDiffer-parts,
}
use kirimkode_partner.Review.Settles.{
  own_ids, active_head, active-append, ids-append, AllDiffer-drop, firsts, Apart-IsBacked,
}

-- The ends of the payouts with other ids are as absent as before.
abbrev pub AddsOwnEnd : Text → List LedgerTransaction → List LedgerTransaction → Type 0
AddsOwnEnd own l l' =
    (id : Text)
    → id ≢ own
    → (has_key (payout_paid_event_key id) l ≡ false → has_key (payout_paid_event_key id) l' ≡ false)
      × (has_key (payout_unlock_event_key id) l ≡ false
          → has_key (payout_unlock_event_key id) l' ≡ false)

others-IsOpenEnded :
    (own : Text) (l l' : List LedgerTransaction) (ps : List PayoutRow)
    → AddsOwnEnd own l l'
    → All (λ u. u ≢ own) (payout_ids ps)
    → All (IsOpenEnded l) ps
    → All (IsOpenEnded l') ps
others-IsOpenEnded own l l' [] c n h = tt
others-IsOpenEnded own l l' (p ∷ ps) c n h = (
  (λ o. ((c p.payout.id n.0).0 (h.0 o).0, (c p.payout.id n.0).1 (h.0 o).1)),
  others-IsOpenEnded own l l' ps c n.1 h.1,
)

-- The rows around a row, and what the invariant says of them.
split_active :
    (xs zs : List PayoutRow) (p : PayoutRow)
    → active_ids (xs ++ p ∷ zs) ≡ active_ids xs ++ (own_ids p ++ active_ids zs)
split_active xs zs p = active-append xs (p ∷ zs) ∙ ap (λ z. active_ids xs ++ z) (active_head p zs)

own_open : (p : PayoutRow) → p.released ≡ false → own_ids p ≡ earning_ids p.payout.allocations
own_open p e = rw e refl

others_AllDiffer :
    (b : Bool) (ts us vs : List Text)
    → AllDiffer (ts ++ (us ++ vs))
    → AllDiffer (ts ++ ((if b then [] else us) ++ vs))
others_AllDiffer true ts us vs d = AllDiffer-drop ts us vs d
others_AllDiffer false ts us vs d = d

Apart-sym : (ts us : List Text) → Apart ts us → Apart us ts
Apart-sym ts [] a = tt
Apart-sym ts (u ∷ us) a = (
  All-map (λ t. All (λ x. x ≢ t) (u ∷ us)) (λ t. t ≢ u) ts (λ t n e. n.0 (sym e)) a,
  Apart-sym ts us
      (All-map (λ t. All (λ x. x ≢ t) (u ∷ us)) (λ t. All (λ x. x ≢ t) us) ts (λ t n. n.1) a),
)

Apart-parts : (ts us vs : List Text) → Apart ts (us ++ vs) → Apart ts us × Apart ts vs
Apart-parts [] us vs a = (tt, tt)
Apart-parts (t ∷ ts) us vs a =
    let (x, y) = All-parts (λ u. u ≢ t) us vs a.0 in
    let (p, q) = Apart-parts ts us vs a.1 in ((x, p), (y, q))

module _ (b : Books) (s : Store) (xs zs : List PayoutRow) (p q : PayoutRow) where
  -- A payout that has not released its allocations is replaced by one with the same id and allocations.
  pub replaced-IsBooked :
      IsBooked b
      → b.payouts ≡ xs ++ p ∷ zs
      → p.released ≡ false
      → q.payout.id ≡ p.payout.id
      → q.payout.allocations ≡ p.payout.allocations
      → IsSettled s
      → ((k : Text)
          → All (λ u. u ≢ k) (earning_ids p.payout.allocations)
          → find_earning_by_id k s.earnings ≡ find_earning_by_id k b.store.earnings)
      → AddsOwnEnd p.payout.id b.store.ledger s.ledger
      → IsBacked s.earnings q
      → IsOpenEnded s.ledger q
      → IsBooked (record { store = s; payouts = xs ++ q ∷ zs })
  replaced-IsBooked i was unreleased same_id same_allocations j others ends backed ended =
      let own = earning_ids p.payout.allocations in
      let unique : AllDiffer (payout_ids xs ++ payout_ids (p ∷ zs)) =
        subst AllDiffer (ap payout_ids was ∙ ids-append xs (p ∷ zs)) i.unique in
      let (_, ids, apart) = AllDiffer-parts (payout_ids xs) (payout_ids (p ∷ zs)) unique in
      let active : AllDiffer (active_ids xs ++ (own ++ active_ids zs)) =
        subst AllDiffer
          (ap active_ids was
            ∙ split_active xs zs p
            ∙ ap (λ z. active_ids xs ++ (z ++ active_ids zs)) (own_open p unreleased))
          i.disjoint in
      let (_, mine, around) = AllDiffer-parts (active_ids xs) (own ++ active_ids zs) active in
      let (left, _) = Apart-parts (active_ids xs) own (active_ids zs) around in
      let (_, _, right) = AllDiffer-parts own (active_ids zs) mine in
      let (bx, bz) =
        All-parts (IsBacked b.store.earnings) xs (p ∷ zs)
          (subst (All (IsBacked b.store.earnings)) was i.backed) in
      let (ox, oz) =
        All-parts (IsOpenEnded b.store.ledger) xs (p ∷ zs)
          (subst (All (IsOpenEnded b.store.ledger)) was i.open_ended) in
      record {
        settled = j;
        unique =
            subst AllDiffer
              (ap (λ z. payout_ids xs ++ z ∷ payout_ids zs) (sym same_id)
                ∙ sym (ids-append xs (q ∷ zs)))
              unique;
        disjoint = subst AllDiffer (sym (split_active xs zs q)) (
            subst
              (λ z.
                AllDiffer
                  (active_ids xs ++ ((if q.released then [] else earning_ids z) ++ active_ids zs)))
              (sym same_allocations)
              (others_AllDiffer q.released (active_ids xs) own (active_ids zs) active));
        backed =
            All-append (IsBacked s.earnings) xs (q ∷ zs)
              (Apart-IsBacked own b.store.earnings s.earnings others xs left bx)
              (
                backed,
                Apart-IsBacked own b.store.earnings s.earnings others zs
                    (Apart-sym own (active_ids zs) right) bz.1,
              );
        open_ended =
            All-append (IsOpenEnded s.ledger) xs (q ∷ zs)
              (others-IsOpenEnded p.payout.id b.store.ledger s.ledger xs ends
                (firsts p.payout.id (payout_ids zs) (payout_ids xs) apart) ox)
              (ended, others-IsOpenEnded p.payout.id b.store.ledger s.ledger zs ends ids.0 oz.1);
      }
