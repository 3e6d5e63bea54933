-- ===== src/Kirim/Policy/Status.antt =====
-- Receipts of the engine only move a message forward, in whatever order they come.
use sq_hub.Common.{ℕ, ◌≤◌, ◌≡◌, ◌⊎◌, refl, arith, some, none, max, List, [], ◌∷◌, or_else}
use sq_hub.Kirim.Policy.{
  OutboundStatus, antre, diserahkan, gagal, dibatalkan, terkirim, dibaca, Receipt, rank,
  receipt_rank, advance_status,
}

-- What the ingest makes of a receipt: `if (!next) return`, else the row takes the new status.
pub receive : OutboundStatus → Receipt → OutboundStatus
receive current incoming = or_else (advance_status current incoming) current

pub receive_all : OutboundStatus → List Receipt → OutboundStatus
receive_all current [] = current
receive_all current (r ∷ rs) = receive_all (receive current r) rs

-- the highest of a rank and those of the receipts
abbrev pub highest : ℕ → List Receipt → ℕ
highest k [] = k
highest k (r ∷ rs) = highest (max k (receipt_rank r)) rs

rank-receive :
    (c : OutboundStatus) (r : Receipt) (k : ℕ)
    → rank c ≡ some k
    → 1 ≤ k
    → rank (receive c r) ≡ some (max k (receipt_rank r))
unfolding receive advance_status
rank-receive diserahkan terkirim k h le = ground arith
rank-receive diserahkan dibaca k h le = ground arith
rank-receive terkirim terkirim k h le = ground arith
rank-receive terkirim dibaca k h le = ground arith
rank-receive dibaca terkirim k h le = ground arith
rank-receive dibaca dibaca k h le = ground arith
rank-receive antre r k h le = ground arith
rank-receive gagal r k h le = cc
rank-receive dibatalkan r k h le = cc

rank-receive_all :
    (c : OutboundStatus) (rs : List Receipt) (k : ℕ)
    → rank c ≡ some k
    → 1 ≤ k
    → rank (receive_all c rs) ≡ some (highest k rs)
unfolding receive_all
rank-receive_all c [] k h le = h
rank-receive_all c (r ∷ rs) k h le =
    rank-receive_all (receive c r) rs (max k (receipt_rank r)) (rank-receive c r k h le)
      (omega arith)

receive_outside :
    (c : OutboundStatus) (r : Receipt) → (rank c ≡ none) ⊎ (rank c ≡ some 0) → receive c r ≡ c
unfolding receive advance_status
receive_outside c r h = ground arith

receive_all_outside :
    (c : OutboundStatus) (rs : List Receipt)
    → (rank c ≡ none) ⊎ (rank c ≡ some 0)
    → receive_all c rs ≡ c
unfolding receive_all
receive_all_outside c [] h = refl
receive_all_outside c (r ∷ rs) h = rw (receive_outside c r h) (receive_all_outside c rs h)

-- After any receipts, in any order and however often each comes, a message that was handed over stands at
-- the highest of its own rank and theirs; one that is queued, failed or cancelled has not moved.
pub receive_all_lem :
    (c : OutboundStatus) (rs : List Receipt)
    → ((k : ℕ) → rank c ≡ some k → 1 ≤ k → rank (receive_all c rs) ≡ some (highest k rs))
      × ((rank c ≡ none) ⊎ (rank c ≡ some 0) → receive_all c rs ≡ c)
receive_all_lem c rs = (rank-receive_all c rs, receive_all_outside c rs)
