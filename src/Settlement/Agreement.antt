-- ===== src/Settlement/Agreement.antt =====
-- Agreement of the earnings projection with the ledger, over the definitions of
-- src/application/earning-lifecycle-service.ts.
use kirimkode_partner.Base.{
  ℕ, ◌≡◌, refl, sym, ap, ◌∙◌, ◌≢◌, ◌⊎◌, inl, inr, Bool, true, false, Option, none, some, List, ◌∷◌,
  ◌++◌, arith, if◌then◌else◌, All, ok, bind_returns,
}
use kirimkode_partner.Int.{ℤ, pos, pos_part, neg_part, ◌+ℤ◌, neg, int_laws}
use kirimkode_partner.Number.{num, neg_number}
use kirimkode_partner.Text.{Text, eq_text, eq_text_iff}
use kirimkode_partner.Ledger.{
  LedgerBucket, eq_bucket, LedgerEntry, LedgerTransaction, transfer_entries, all_entries,
  assert_zero_sum_entries, hold_release_event_key, earning_reversal_event_key,
}
use kirimkode_partner.Earning.{EarningStatus, pending, reversed, EarningState}
use kirimkode_partner.Ledger.Balance.{bucket_sum}
use kirimkode_partner.Earning.Lifecycle.{bucket_of}
use kirimkode_partner.Payout.Request.{Distinct}
use kirimkode_partner.Settlement.{
  Store, eq_status, find_earning_by_id, has_key, append_transaction, commit,
}
use kirimkode_partner.Settlement.Rows.{status_sum, part}

abbrev pub IsUnreleased : List LedgerTransaction → EarningState → Type 0
IsUnreleased ledger e = e.status ≡ pending → has_key (hold_release_event_key e.id) ledger ≡ false

abbrev pub IsUnreversed : List LedgerTransaction → EarningState → Type 0
IsUnreversed ledger e =
    e.status ≢ reversed → has_key (earning_reversal_event_key e.id) ledger ≡ false

-- Distinct ids; for each status the sum of its earnings is the balance of its bucket; and no pending
-- earning has a release event, none that is not reversed a reversal event.
pub record IsSettled (s : Store) : Type 0 where
  pub distinct : Distinct s.earnings
  pub agrees :
      (status : EarningStatus)
      → status_sum status s.earnings ≡ bucket_sum (bucket_of status) (all_entries s.ledger)
  pub unreleased : All (IsUnreleased s.ledger) s.earnings
  pub unreversed : All (IsUnreversed s.ledger) s.earnings

-- The rows read earlier have the amounts that the rows have now.
abbrev pub IsRead : List EarningState → Store → Type 0
IsRead seen s =
    (id : Text) (e : EarningState)
    → find_earning_by_id id seen ≡ some e
    → All (λ r. r.id ≡ id → r.amount_idr ≡ e.amount_idr) s.earnings

same_bucket : (s t : EarningStatus) → eq_bucket (bucket_of s) (bucket_of t) ≡ eq_status s t
same_bucket s t = ground arith

transfer_step :
    (f t : Bool) (n : ℕ) (z : ℤ)
    → (if f then neg (pos n) +ℤ (if t then pos n +ℤ z else z) else (if t then pos n +ℤ z else z))
        +ℤ part f (pos n)
      ≡ z +ℤ part t (pos n)
transfer_step true true n z = omega int_laws
transfer_step true false n z = omega int_laws
transfer_step false true n z = omega int_laws
transfer_step false false n z = refl

transfer_sum :
    (b from to : LedgerBucket) (n : ℕ) (es : List LedgerEntry)
    → bucket_sum b (transfer_entries from to (num n) ++ es) +ℤ part (eq_bucket b from) (pos n)
      ≡ bucket_sum b es +ℤ part (eq_bucket b to) (pos n)
unfolding neg_number
transfer_sum b from to n es = transfer_step (eq_bucket b from) (eq_bucket b to) n (bucket_sum b es)

cancel_right : (a b c : ℤ) → a +ℤ c ≡ b +ℤ c → a ≡ b
cancel_right a b c h = let p = ap pos_part h in let q = ap neg_part h in omega int_laws

pub append_new :
    (t : LedgerTransaction) (ledger ledger' : List LedgerTransaction)
    → has_key t.event_key ledger ≡ false
    → append_transaction t ledger ≡ ok ledger'
    → ledger' ≡ t ∷ ledger
unfolding append_transaction
append_new t ledger ledger' k h =
    let (_, _, e) = bind_returns (assert_zero_sum_entries t.entries) _ h in ground (arith, k)

-- What the unit of a command leaves.
pub commit_cases :
    (t : LedgerTransaction) (s : Store) (b : Bool) (s' : Store) (o : Option (List EarningState))
    → commit t s o ≡ ok (b, s')
    → (s' ≡ s)
      ⊎ ((es : List EarningState) × (o ≡ some es)
          × (has_key t.event_key s.ledger ≡ false
              → s' ≡ record { earnings = es; ledger = t ∷ s.ledger }))
unfolding commit
commit_cases t s b s' none h = inl (ground arith)
commit_cases t s b s' (some es) h =
    let (ledger, a, e) = bind_returns (append_transaction t s.ledger) _ h in
    inr (es, refl, λ k. ground (arith, append_new t s.ledger ledger k a))

same_move :
    (s s' b b' : ℤ) (f t f' t' : Bool) (n : ℤ)
    → s' +ℤ part f n ≡ s +ℤ part t n
    → s ≡ b
    → b' +ℤ part f' n ≡ b +ℤ part t' n
    → f' ≡ f
    → t' ≡ t
    → s' ≡ b'
same_move s s' b b' f t f' t' n rows g books e k = cancel_right s' b' (part f n) (
    rows
    ∙ ap (λ (x : ℤ). x +ℤ part t n) g
    ∙ ap (λ (x : Bool). b +ℤ part x n) (sym k)
    ∙ sym books
    ∙ ap (λ (x : Bool). b' +ℤ part x n) e)

module _ (expected next : EarningStatus) (n : ℕ) (t : LedgerTransaction) where
  -- The sums still agree when the same money moves between two statuses and between their buckets.
  pub moved_agrees :
      (s : Store) (es : List EarningState)
      → t.entries ≡ transfer_entries (bucket_of expected) (bucket_of next) (num n)
      → ((status : EarningStatus)
          → status_sum status s.earnings ≡ bucket_sum (bucket_of status) (all_entries s.ledger))
      → ((status : EarningStatus)
          → status_sum status es +ℤ part (eq_status status expected) (pos n)
            ≡ status_sum status s.earnings +ℤ part (eq_status status next) (pos n))
      → (status : EarningStatus)
      → status_sum status es ≡ bucket_sum (bucket_of status) (all_entries (t ∷ s.ledger))
  unfolding all_entries
  moved_agrees s es m g rows status = rw m (
      same_move (status_sum status s.earnings) (status_sum status es)
        (bucket_sum (bucket_of status) (all_entries s.ledger))
        (bucket_sum (bucket_of status)
          (transfer_entries (bucket_of expected) (bucket_of next) (num n) ++ all_entries s.ledger))
        (eq_status status expected) (eq_status status next)
        (eq_bucket (bucket_of status) (bucket_of expected))
        (eq_bucket (bucket_of status) (bucket_of next)) (pos n) (rows status) (g status)
        (transfer_sum (bucket_of status) (bucket_of expected) (bucket_of next) n
          (all_entries s.ledger))
        (same_bucket status expected) (same_bucket status next))

pub hold_keys_differ :
    (a b : Text) → b ≢ a → eq_text (hold_release_event_key a) (hold_release_event_key b) ≡ false
unfolding hold_release_event_key
hold_keys_differ a b n = ground (arith, eq_text_iff a b)

pub reversal_keys_differ :
    (a b : Text)
    → b ≢ a
    → eq_text (earning_reversal_event_key a) (earning_reversal_event_key b) ≡ false
unfolding earning_reversal_event_key
reversal_keys_differ a b n = ground (arith, eq_text_iff a b)

pub hold_is_no_reversal :
    (a b : Text)
    → (eq_text (hold_release_event_key a) (earning_reversal_event_key b) ≡ false)
      × (eq_text (earning_reversal_event_key a) (hold_release_event_key b) ≡ false)
unfolding hold_release_event_key earning_reversal_event_key
hold_is_no_reversal a b = (refl, refl)
