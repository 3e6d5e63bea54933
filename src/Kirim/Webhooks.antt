-- ===== src/Kirim/Webhooks.antt =====
-- apps/api/src/modules/kirim/webhooks.ts: the delivery of events to the applications. The table
-- kirim_webhook_deliveries is a list of rows, without the encrypted payload. From outside come the opening of encrypted
-- texts, which may throw, the environment, the parser of URLs, and the answer of the transport; the log is left out.
mod Requests
pub mod Deliveries
pub mod Batches
pub mod Rounds
mod Tests
unfoldable pub use Requests.*
use sq_hub.Common.{
  ℕ, zero, suc, ◌+◌, String, Option, none, some, List, [], ◌∷◌, map, Bool, true, false, not, ◌&&◌,
  ◌||◌, any, all, keep, take, length, ltb, leb, ◌==◌, update_where, str_eq, is_some, if◌then◌else◌,
  Result, ok, err,
}
use sq_hub.Common.Text.{codes, is_digit}
use sq_hub.Kirim.Policy.{webhook_retry_delay_ms}

pub data DeliveryStatus : Type 0 where
  pending retry berhasil habis : DeliveryStatus

pub record DeliveryRow : Type 0 where
  pub id : String
  pub consumer_id : String
  pub status : DeliveryStatus
  pub attempts : ℕ
  pub last_status_code : Option ℕ
  pub next_attempt_at : ℕ
  pub delivered_at : Option ℕ

abbrev pub webhook_lease_ms : ℕ
webhook_lease_ms = 60000

abbrev pub batch : ℕ
batch = 20

abbrev pub waits : DeliveryStatus → Bool
waits pending = true
waits retry = true
waits berhasil = false
waits habis = false

abbrev pub is_due : ℕ → DeliveryRow → Bool
is_due now r = waits r.status && leb r.next_attempt_at now

abbrev pub insert_due : DeliveryRow → List DeliveryRow → List DeliveryRow
insert_due r [] = r ∷ []
insert_due r (x ∷ xs) =
    let rest = insert_due r xs in
    if ltb x.next_attempt_at r.next_attempt_at then x ∷ rest else r ∷ x ∷ xs

-- `ORDER BY next_attempt_at`
abbrev pub sort_due : List DeliveryRow → List DeliveryRow
sort_due [] = []
sort_due (r ∷ rs) = insert_due r (sort_due rs)

-- the rows that a round claims
unfoldable pub claimed_rows : ℕ → List DeliveryRow → List DeliveryRow
claimed_rows now rows = take batch (sort_due (keep (is_due now) rows))

abbrev pub has_delivery : String → DeliveryRow → Bool
has_delivery id r = str_eq r.id id

-- the answer to a delivery, and the time when it is written down
pub record Answer : Type 0 where
  pub code : Option ℕ
  pub at : ℕ

abbrev pub is_success : Option ℕ → Bool
is_success none = false
is_success (some code) = leb 200 code && ltb code 300

-- the UPDATE after a failure, with the delay
abbrev pub failed_delivery : ℕ → Answer → Option ℕ → DeliveryRow → DeliveryRow
failed_delivery attempts a none r = record r {
  status = habis;
  attempts = attempts;
  last_status_code = a.code;
}
failed_delivery attempts a (some delay) r = record r {
  status = retry;
  attempts = attempts;
  last_status_code = a.code;
  next_attempt_at = a.at + delay;
}

-- the UPDATE after a delivery
unfoldable pub delivered_row : ℕ → Answer → DeliveryRow → DeliveryRow
delivered_row attempts a r =
    if is_success a.code
    then record r {
      status = berhasil;
      attempts = attempts;
      last_status_code = a.code;
      delivered_at = some a.at;
    }
    else failed_delivery attempts a (webhook_retry_delay_ms attempts) r

pub record RoundCounts : Type 0 where
  pub delivered : ℕ
  pub failed : ℕ

abbrev pub counted : Answer → RoundCounts → RoundCounts
counted a n =
    if is_success a.code
    then record n { delivered = suc n.delivered }
    else record n { failed = suc n.failed }

-- the loop over the claimed rows; every statement commits by itself, so that an error leaves what it has done
unfoldable pub deliver_all :
    (DeliveryRow → Result CryptoError Answer)
    → List DeliveryRow
    → RoundCounts
    → List DeliveryRow
    → List DeliveryRow × Result CryptoError RoundCounts
unfolding delivered_row
deliver_all answer [] n rows = (rows, ok n)
deliver_all answer (c ∷ cs) n rows = elim (answer c) [
  | err e ↦ (rows, err e)
  | ok a ↦
      deliver_all answer cs (counted a n)
        (update_where (has_delivery c.id) (delivered_row (suc c.attempts) a) rows)
]

abbrev pub leased : ℕ → DeliveryRow → DeliveryRow
leased now r = record r { next_attempt_at = now + webhook_lease_ms }

-- `runOnce`: the lease of the claimed rows, then their deliveries; `answer` is what `deliver` comes to
unfoldable pub run_deliveries :
    ℕ
    → (DeliveryRow → Result CryptoError Answer)
    → List DeliveryRow
    → List DeliveryRow × Result CryptoError RoundCounts
unfolding claimed_rows deliver_all
run_deliveries now answer rows =
    let claimed = claimed_rows now rows in
    deliver_all answer claimed (record { delivered = 0; failed = 0 })
      (update_where (λ r. any (has_delivery r.id) claimed) (leased now) rows)
