-- ===== src/Review/Payouts.antt =====
-- The payout request of src/application/payouts/payout-request-service.ts on the books: the unit also
-- inserts the payout and its allocations, of which an earning has one active at a time
-- (src/infrastructure/database/payout-request-gateway.ts).
use kirimkode_partner.Base.{
  ◌≡◌, refl, sym, ap, ◌∙◌, ◌⊎◌, inl, inr, false, Option, none, some, List, [], ◌∷◌, ◌++◌, map, any,
  arith, if◌then◌else◌, Result, ok, err, ◌>>=◌, bind_returns,
}
use kirimkode_partner.Number.{Number}
use kirimkode_partner.Text.{Text, eq_text}
use kirimkode_partner.Ledger.{DomainError, LedgerTransaction}
use kirimkode_partner.Earning.{EarningState}
use kirimkode_partner.Payout.{
  PayoutStatus, PayoutAllocation, RequestPayoutDecision, lock, decide_request_payout,
}
use kirimkode_partner.Settlement.{Store, append_transaction}
use kirimkode_partner.Settlement.Payouts.{
  PayoutRequestResult, payout_requested, earning_not_found, payout_refused, read_earnings,
  lock_rows, commit_lock, carry_request, request_of,
}
use kirimkode_partner.Review.Rows.{PayoutRow, Books}

abbrev pub earning_ids : List PayoutAllocation → List Text
earning_ids as' = map (λ (a : PayoutAllocation). a.earning_id) as'

-- The earnings under the partial unique index: those of allocations that are not released.
unfoldable pub active_ids : List PayoutRow → List Text
active_ids [] = []
active_ids (p ∷ ps) =
    let rest = active_ids ps in
    if p.released then rest else earning_ids p.payout.allocations ++ rest

-- The loop of `createAllocations`; the result is the id whose slot is taken.
unfoldable pub claim_allocations : List Text → List PayoutAllocation → Option Text
claim_allocations taken [] = none
claim_allocations taken (a ∷ as') =
    let rest = claim_allocations (a.earning_id ∷ taken) as' in
    if any (eq_text a.earning_id) taken then some a.earning_id else rest

abbrev pub unless_claimed : Option Text → List EarningState → Result Text (List EarningState)
unless_claimed none es = ok es
unless_claimed (some id) es = err id

abbrev pub new_payout : Text → Number → List PayoutAllocation → PayoutRow
new_payout id amount allocations = record {
  payout = record {
    id = id;
    status = PayoutStatus.requested;
    amount_idr = amount;
    allocations = allocations;
    payment_reference = none;
  };
  released = false;
}

-- The payout is there only if the unit went through.
abbrev pub with_payout :
    PayoutRow → Books → PayoutRequestResult × Store → PayoutRequestResult × Books
with_payout p books (payout_requested amount, store) =
    (payout_requested amount, record { store = store; payouts = p ∷ books.payouts })
with_payout p books (result, store) = (result, record books { store = store })

unfoldable pub book_decision :
    Text → RequestPayoutDecision → Books → Result DomainError (PayoutRequestResult × Books)
book_decision id (RequestPayoutDecision.reject code) books = ok (payout_refused code, books)
book_decision id (lock key amount allocations transaction) books =
    commit_lock amount transaction books.store (
      lock_rows allocations books.store.earnings
      >>= (λ es. unless_claimed (claim_allocations (active_ids books.payouts) allocations) es))
    >>= (λ r. ok (with_payout (new_payout id amount allocations) books r))

unfoldable pub book_selection :
    Text
    → Option Number
    → Books
    → Result Text (List EarningState)
    → Result DomainError (PayoutRequestResult × Books)
book_selection id minimum books (err missing) = ok (earning_not_found missing, books)
book_selection id minimum books (ok earnings) =
    decide_request_payout (record { payout_id = id; earnings = earnings; minimum_idr = minimum })
    >>= (λ decision. book_decision id decision books)

unfoldable pub book_request :
    List EarningState
    → List Text
    → Text
    → Option Number
    → Books
    → Result DomainError (PayoutRequestResult × Books)
book_request seen ids id minimum books = book_selection id minimum books (read_earnings ids seen)

-- A request that went through: what it locked, and that it is the request on the store alone.
pub record Booked (id : Text) (minimum : Option Number) (sel : List EarningState) (b b' : Books)
    : Type 0 where
  pub key : Text
  pub amount : Number
  pub allocations : List PayoutAllocation
  pub transaction : LedgerTransaction
  pub decided :
      decide_request_payout (record { payout_id = id; earnings = sel; minimum_idr = minimum })
      ≡ ok (lock key amount allocations transaction)
  pub locked : lock_rows allocations b.store.earnings ≡ ok b'.store.earnings
  pub added : b'.payouts ≡ new_payout id amount allocations ∷ b.payouts
  pub appended : append_transaction transaction b.store.ledger ≡ ok b'.store.ledger
  pub plain : request_of id minimum b.store (ok sel) ≡ ok (payout_requested amount, b'.store)

claimed_ok :
    (o : Option Text) (es es' : List EarningState) → unless_claimed o es ≡ ok es' → es ≡ es'
claimed_ok none es es' h = ground arith
claimed_ok (some id) es es' h = cc

commit_booked :
    (p : PayoutRow) (amount : Number) (t : LedgerTransaction) (b b' : Books)
    (r : PayoutRequestResult) (o : Result Text (List EarningState))
    → (commit_lock amount t b.store o >>= (λ x. ok (with_payout p b x))) ≡ ok (r, b')
    → (b' ≡ b)
      ⊎ ((es : List EarningState) × (o ≡ ok es)
          × (append_transaction t b.store.ledger ≡ ok b'.store.ledger)
          × (b'.store.earnings ≡ es)
          × (b'.payouts ≡ p ∷ b.payouts))
unfolding commit_lock
commit_booked p amount t b b' r (err id) h = inl (ground arith)
commit_booked p amount t b b' r (ok es) h =
    let ((q, s), c, e) =
      bind_returns
        (append_transaction t b.store.ledger
          >>= (λ ledger. ok (payout_requested amount, record { earnings = es; ledger = ledger })))
        _ h in
    let (ledger, a, f) = bind_returns (append_transaction t b.store.ledger) _ c in
    inr (es, refl, ground (arith, a), ground arith, ground arith)

locked_ok :
    (taken : List Text) (as' : List PayoutAllocation) (r : Result Text (List EarningState))
    (es : List EarningState)
    → (r >>= (λ x. unless_claimed (claim_allocations taken as') x)) ≡ ok es
    → r ≡ ok es
locked_ok taken as' r es h =
    let (x, e, f) = bind_returns r _ h in
    e ∙ ap ok (claimed_ok (claim_allocations taken as') x es f)

plain_lock :
    (id : Text) (minimum : Option Number) (sel : List EarningState) (key : Text) (amount : Number)
    (as' : List PayoutAllocation) (t : LedgerTransaction) (s s' : Store)
    → decide_request_payout (record { payout_id = id; earnings = sel; minimum_idr = minimum })
      ≡ ok (lock key amount as' t)
    → lock_rows as' s.earnings ≡ ok s'.earnings
    → append_transaction t s.ledger ≡ ok s'.ledger
    → request_of id minimum s (ok sel) ≡ ok (payout_requested amount, s')
unfolding request_of carry_request commit_lock
plain_lock id minimum sel key amount as' t s s' c l a = rw (c, l, a) refl

decision-Booked :
    (id : Text) (minimum : Option Number) (sel : List EarningState) (d : RequestPayoutDecision)
    (b b' : Books) (r : PayoutRequestResult)
    → decide_request_payout (record { payout_id = id; earnings = sel; minimum_idr = minimum })
      ≡ ok d
    → book_decision id d b ≡ ok (r, b')
    → (b' ≡ b) ⊎ Booked id minimum sel b b'
unfolding book_decision
decision-Booked id minimum sel (RequestPayoutDecision.reject code) b b' r c h = inl (ground arith)
decision-Booked id minimum sel (lock key amount as' t) b b' r c h =
    elim (commit_booked (new_payout id amount as') amount t b b' r
      (lock_rows as' b.store.earnings
        >>= (λ es. unless_claimed (claim_allocations (active_ids b.payouts) as') es))
      h) [
        | inl same ↦ inl same
        | inr (es, o, a, e, p) ↦
            let locked =
              locked_ok (active_ids b.payouts) as' (lock_rows as' b.store.earnings) es o
              ∙ ap ok (sym e) in
            inr record {
              key = key;
              amount = amount;
              allocations = as';
              transaction = t;
              decided = c;
              locked = locked;
              added = p;
              appended = a;
              plain = plain_lock id minimum sel key amount as' t b.store b'.store c locked a;
            }
      ]

selection-Booked :
    (id : Text) (minimum : Option Number) (b b' : Books) (r : PayoutRequestResult)
    (o : Result Text (List EarningState))
    → book_selection id minimum b o ≡ ok (r, b')
    → (b' ≡ b) ⊎ ((sel : List EarningState) × (o ≡ ok sel) × Booked id minimum sel b b')
unfolding book_selection
selection-Booked id minimum b b' r (err missing) h = inl (ground arith)
selection-Booked id minimum b b' r (ok sel) h =
    let (d, c, w) =
      bind_returns
        (decide_request_payout (record { payout_id = id; earnings = sel; minimum_idr = minimum })) _
        h in
    elim (decision-Booked id minimum sel d b b' r c w) [
      | inl same ↦ inl same
      | inr booked ↦ inr (sel, refl, booked)
    ]

-- A request changes nothing, or it locks what it read.
pub request-Booked :
    (seen : List EarningState) (ids : List Text) (id : Text) (minimum : Option Number)
    (b b' : Books) (r : PayoutRequestResult)
    → book_request seen ids id minimum b ≡ ok (r, b')
    → (b' ≡ b)
      ⊎ ((sel : List EarningState) × (read_earnings ids seen ≡ ok sel) × Booked id minimum sel b b')
unfolding book_request
request-Booked seen ids id minimum b b' r h =
    selection-Booked id minimum b b' r (read_earnings ids seen) h
