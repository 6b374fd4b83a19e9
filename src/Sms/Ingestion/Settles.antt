-- ===== src/Sms/Ingestion/Settles.antt =====
-- An ingestion among the commands of the earning lifecycle: the earnings go on agreeing with the ledger.
use mathlib.Core.Path.{subst}
use kirimkode_partner.Base.{
  ℕ, ◌≡◌, ◌≢◌, refl, sym, false, List, [], ◌∷◌, ◌++◌, any, arith, All, All-map, ok,
}
use kirimkode_partner.Number.{num, neg_number}
use kirimkode_partner.Text.{Text, eq_text, eq_text_iff}
use kirimkode_partner.Ledger.{
  LedgerEntry, all_entries, transfer_entries, platform_partner_payable, partner_pending,
  order_success_event_key, hold_release_event_key, earning_reversal_event_key,
}
use kirimkode_partner.Ledger.Balance.{bucket_sum}
use kirimkode_partner.Earning.{
  EarningState, EarningStatus, pending, available, requested, paid, reversed,
}
use kirimkode_partner.Earning.Lifecycle.{success_transfer, bucket_of}
use kirimkode_partner.Settlement.{Store, has_key}
use kirimkode_partner.Settlement.Rows.{status_sum}
use kirimkode_partner.Settlement.Agreement.{IsUnreleased, IsUnreversed, IsSettled}
use kirimkode_partner.Sms.{first, repeat}
use kirimkode_partner.Sms.Rows.{SmsStore, Platform, IngestSmsInput, SmsIngestionResult}
use kirimkode_partner.Sms.Ingestion.{run_ingest}
use kirimkode_partner.Sms.Ingestion.Effects.{Keeps, Pays}
use kirimkode_partner.Sms.Ingestion.Unpaid.{Effect}
use kirimkode_partner.Sms.Ingestion.Stages.{run_ingest-Effect}

-- No success event is a release or a reversal event.
other_keys :
    (order_id earning_id : Text)
    → (eq_text (order_success_event_key order_id) (hold_release_event_key earning_id) ≡ false)
      × (eq_text (order_success_event_key order_id) (earning_reversal_event_key earning_id) ≡ false)
unfolding order_success_event_key hold_release_event_key earning_reversal_event_key
other_keys order_id earning_id = (refl, refl)

new_sums :
    (status : EarningStatus) (n : ℕ) (e : EarningState) (es : List EarningState)
    (entries : List LedgerEntry)
    → e.status ≡ pending
    → e.amount_idr ≡ num n
    → status_sum status es ≡ bucket_sum (bucket_of status) entries
    → status_sum status (e ∷ es)
      ≡ bucket_sum
          (bucket_of status)
          (transfer_entries platform_partner_payable partner_pending (num n) ++ entries)
unfolding neg_number
new_sums pending n e es entries s a h = rw (s, a, h) refl
new_sums available n e es entries s a h = rw (s, h) refl
new_sums requested n e es entries s a h = rw (s, h) refl
new_sums paid n e es entries s a h = rw (s, h) refl
new_sums reversed n e es entries s a h = rw (s, h) refl

All-others :
    (id : Text) (es : List EarningState)
    → any (λ x. eq_text x.id id) es ≡ false
    → All (λ x. x.id ≢ id) es
All-others id [] h = tt
All-others id (x ∷ es) h = (
  (λ e. absurd (ground (arith, h, (eq_text_iff x.id id).1 e))),
  All-others id es (ground (arith, h)),
)

new_earning-IsSettled :
    (e : EarningState) (order_id : Text) (n : ℕ) (s : Store)
    → e.status ≡ pending
    → e.amount_idr ≡ num n
    → any (λ x. eq_text x.id e.id) s.earnings ≡ false
    → has_key (hold_release_event_key e.id) s.ledger ≡ false
    → has_key (earning_reversal_event_key e.id) s.ledger ≡ false
    → IsSettled s
    → IsSettled
        (record { earnings = e ∷ s.earnings; ledger = success_transfer order_id n ∷ s.ledger })
unfolding all_entries success_transfer
new_earning-IsSettled e order_id n s p a f r v g = record {
  distinct = (All-others e.id s.earnings f, g.distinct);
  agrees = λ status. new_sums status n e s.earnings (all_entries s.ledger) p a (g.agrees status);
  unreleased = (
    (λ h. rw ((other_keys order_id e.id).0) r),
    All-map (IsUnreleased s.ledger) (IsUnreleased (success_transfer order_id n ∷ s.ledger))
        s.earnings (λ x u h. rw ((other_keys order_id x.id).0) (u h)) g.unreleased,
  );
  unreversed = (
    (λ h. rw ((other_keys order_id e.id).1) v),
    All-map (IsUnreversed s.ledger) (IsUnreversed (success_transfer order_id n ∷ s.ledger))
        s.earnings (λ x u h. rw ((other_keys order_id x.id).1) (u h)) g.unreversed,
  );
}

-- The rows that the earning lifecycle shares with the ingestion.
abbrev pub money_of : SmsStore → Store
money_of s = record { earnings = s.earnings; ledger = s.ledger }

kept-IsSettled : (s s' : SmsStore) → Keeps s s' → IsSettled (money_of s) → IsSettled (money_of s')
kept-IsSettled s s' k g =
    subst (λ z. IsSettled (record { earnings = z; ledger = s'.ledger })) (sym k.earnings)
      (subst (λ z. IsSettled (record { earnings = s.earnings; ledger = z })) (sym k.ledger) g)

paid-IsSettled :
    (platform : Platform) (i : IngestSmsInput) (id : Text) (s s' : SmsStore)
    → Pays platform i id s s'
    → has_key (hold_release_event_key i.earning_id) s.ledger ≡ false
    → has_key (earning_reversal_event_key i.earning_id) s.ledger ≡ false
    → IsSettled (money_of s)
    → IsSettled (money_of s')
paid-IsSettled platform i id s s' p r v g =
    subst (λ z. IsSettled (record { earnings = z; ledger = s'.ledger })) (sym p.earnings)
      (subst (λ z. IsSettled (record { earnings = p.earning ∷ s.earnings; ledger = z }))
        (sym p.ledger)
        (new_earning-IsSettled p.earning id p.amount (money_of s) p.earned.2 p.earned.1
          (subst (λ z. any (λ x. eq_text x.id z) s.earnings ≡ false) (sym p.named) p.new)
          (subst (λ z. has_key (hold_release_event_key z) s.ledger ≡ false) (sym p.named) r)
          (subst (λ z. has_key (earning_reversal_event_key z) s.ledger ≡ false) (sym p.named) v) g))

-- An ingestion whose new earning id has no release or reversal event in the ledger keeps the earnings in
-- agreement with the ledger, whatever rows it read and whatever its result: the earnings of every status
-- still sum up to the balance of the status's bucket, so that the commands of the lifecycle can follow.
pub run_ingest-IsSettled :
    (platform : Platform) (i : IngestSmsInput) (seen s : SmsStore) (out : SmsIngestionResult)
    (s' : SmsStore)
    → run_ingest platform i seen s ≡ ok (out, s')
    → has_key (hold_release_event_key i.earning_id) s.ledger ≡ false
    → has_key (earning_reversal_event_key i.earning_id) s.ledger ≡ false
    → IsSettled (money_of s)
    → IsSettled (money_of s')
run_ingest-IsSettled platform i seen s out s' e r v g =
    by_effect out (run_ingest-Effect platform i seen s out s' e)
  where
    by_effect : (out : SmsIngestionResult) → Effect platform i out s s' → IsSettled (money_of s')
    by_effect (SmsIngestionResult.matched id first) p = paid-IsSettled platform i id s s' p r v g
    by_effect (SmsIngestionResult.matched id repeat) k = kept-IsSettled s s' k g
    by_effect (SmsIngestionResult.duplicate key) k = kept-IsSettled s s' k g
    by_effect (SmsIngestionResult.unmatched reason) k = kept-IsSettled s s' k g
    by_effect (SmsIngestionResult.ambiguous ids) k = kept-IsSettled s s' k g
