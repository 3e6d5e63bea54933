-- ===== src/Kirim/Policy/Window.antt =====
-- When `notifikasi` may be sent.
use sq_hub.Common.{
  ℕ, ◌+◌, ◌-◌, ◌≤◌, ◌<◌, ◌≡◌, ◌≢◌, ◌⊎◌, ◌↔◌, inl, inr, arith, ap, ◌∙◌, Option, some, true, false,
  String,
}
use sq_hub.Kirim.Policy.{
  day_ms, wib_offset_ms, offset_ms, day_start, SendWindow, open_now, closed, window_at, send_window,
  time_of_day_ms, notifikasi, send, wait, expire, DecisionInput, window_decision,
}

window_at_open_iff :
    (now s e : ℕ) → (window_at now s e ≡ open_now) ↔ ((s ≤ offset_ms now) × (offset_ms now < e))
unfolding window_at
window_at_open_iff now s e = (λ h. (ground arith, ground arith), λ h. ground arith)

-- the time at which a closed window opens again
next_of :
    (now s e next : ℕ)
    → window_at now s e ≡ closed next
    → (((offset_ms now < s) × (next ≡ day_start now + s - wib_offset_ms))
        ⊎ ((e ≤ offset_ms now)
            × (s ≤ offset_ms now)
            × (next ≡ day_start now + day_ms + s - wib_offset_ms)))
unfolding window_at
next_of now s e next h = ground arith

next_after : (now s e next : ℕ) → e ≤ day_ms → window_at now s e ≡ closed next → now < next
next_after now s e next day h = elim (next_of now s e next h) [
  | inl (a, b) ↦ omega arith
  | inr (a, b, c) ↦ omega arith
]

next_offset :
    (now s e next : ℕ) → s < e → e ≤ day_ms → window_at now s e ≡ closed next → offset_ms next ≡ s
next_offset now s e next lt day h = elim (next_of now s e next h) [
  | inl (a, b) ↦ omega arith
  | inr (a, b, c) ↦ omega arith
]

not_between :
    (now s e next t : ℕ)
    → s < e
    → e ≤ day_ms
    → window_at now s e ≡ closed next
    → now ≤ t
    → t < next
    → s ≤ offset_ms t
    → offset_ms t < e
    → ⊥
not_between now s e next t lt day h a b lo hi = elim (next_of now s e next h) [
  | inl (c, d) ↦ omega arith
  | inr (c, d, f) ↦ omega arith
]

module _ (start end : String) (s e : ℕ) (starts : time_of_day_ms start ≡ some s)
    (ends : time_of_day_ms end ≡ some e) where
  send_window_lem : (now : ℕ) → send_window now start end ≡ some (window_at now s e)
  unfolding send_window
  send_window_lem now = ground arith

  -- A number whose hours begin before they end, within one day, is open in WIB exactly in [start, end),
  -- and a closed window names the earliest later time at which it is open.
  pub send_window-earliest :
      s < e
      → e ≤ day_ms
      → (now : ℕ)
      → ((send_window now start end ≡ some open_now) ↔ ((s ≤ offset_ms now) × (offset_ms now < e)))
        × ((next : ℕ)
            → send_window now start end ≡ some (closed next)
            → (now < next)
              × (send_window next start end ≡ some open_now)
              × ((t : ℕ) → now ≤ t → t < next → send_window t start end ≢ some open_now))
  send_window-earliest lt day now = (
    (
      λ h. (window_at_open_iff now s e).0 (inner (send_window_lem now) h),
      λ h. send_window_lem now ∙ ap some ((window_at_open_iff now s e).1 h),
    ),
    λ next h.
        let shut : window_at now s e ≡ closed next = inner (send_window_lem now) h in
        (
          next_after now s e next day shut,
          send_window_lem next
              ∙ ap some (
                  (window_at_open_iff next s e).1
                    (let o = next_offset now s e next lt day shut in (omega arith, omega arith))),
          λ t a b o.
              let (lo, hi) = (window_at_open_iff t s e).0 (inner (send_window_lem t) o) in
              not_between now s e next t lt day shut a b lo hi,
        ),
  )
    where
      inner : {x : Option SendWindow} {v w : SendWindow} → x ≡ some v → x ≡ some w → v ≡ w
      inner p q = cc

-- Every decision on a message: one that is sent has not expired and is no notification, or answers the
-- person, or falls in the window; one that waits is a notification that will not expire before the
-- window opens; one that expires is past its time, or will be before the window opens.
window_decision_sound :
    (i : DecisionInput)
    → (window_decision i ≡ some send
        → (i.now < i.expires_at)
          × ((i.jenis ≢ notifikasi)
              ⊎ ((i.replying ≡ true) ⊎ (send_window i.now i.start i.end ≡ some open_now))))
      × ((until : ℕ)
          → window_decision i ≡ some (wait until)
          → (i.now < i.expires_at)
            × (until < i.expires_at)
            × (i.jenis ≡ notifikasi)
            × (i.replying ≡ false)
            × (send_window i.now i.start i.end ≡ some (closed until)))
      × (window_decision i ≡ some expire
          → (i.expires_at ≤ i.now)
            ⊎ ((next : ℕ) × (send_window i.now i.start i.end ≡ some (closed next))
                × (i.expires_at ≤ next)
                × (i.jenis ≡ notifikasi)
                × (i.replying ≡ false)))
unfolding window_decision
window_decision_sound i = (
  λ h. (ground arith, ground arith),
  λ until h. (ground arith, ground arith, ground arith, ground arith, ground arith),
  λ h. ground arith,
)

-- A message told to wait, with hours that begin before they end within one day, goes out when the wait is
-- over, if nothing else has changed.
pub window_decision-wait :
    (i : DecisionInput) (s e until : ℕ)
    → time_of_day_ms i.start ≡ some s
    → time_of_day_ms i.end ≡ some e
    → s < e
    → e ≤ day_ms
    → window_decision i ≡ some (wait until)
    → (i.now < until) × (window_decision (record i { now = until }) ≡ some send)
unfolding window_decision
window_decision-wait i s e until starts ends lt day h =
    let (_, soon, _, _, shut) = (window_decision_sound i).1 until h in
    let (later, opens, _) =
      (send_window-earliest i.start i.end s e starts ends lt day i.now).1 until shut in
    (later, ground arith)

-- A number's hours begin before they end, within one day, as above.
module _ (i : DecisionInput) (s e : ℕ) (starts : time_of_day_ms i.start ≡ some s)
    (ends : time_of_day_ms i.end ≡ some e) (lt : s < e) (day : e ≤ day_ms) where
  shut_until :
      (next t : ℕ)
      → send_window i.now i.start i.end ≡ some (closed next)
      → i.jenis ≡ notifikasi
      → i.replying ≡ false
      → i.now ≤ t
      → (t < i.expires_at → t < next)
      → window_decision (record i { now = t }) ≢ some send
  shut_until next t shut kind silent from before h =
      let (alive, reason) = (window_decision_sound (record i { now = t })).0 h in
      elim reason [
        | inl other ↦ other kind
        | inr (inl answers) ↦ clash silent answers
        | inr (inr opened) ↦
            let (_, _, closed_at) =
              (send_window-earliest i.start i.end s e starts ends lt day i.now).1 next shut in
            closed_at t from (before alive) opened
      ]
    where
      clash : i.replying ≡ false → i.replying ≡ true → ⊥
      clash p q = cc

  expired_never : (t : ℕ) → i.expires_at ≤ t → window_decision (record i { now = t }) ≢ some send
  expired_never t over h =
      let (alive, _) = (window_decision_sound (record i { now = t })).0 h in omega arith

  -- With hours that begin before they end, within one day: a message is dropped only if no moment from now on is one
  -- at which it would be sent, and one told to wait would be sent at no moment before the wait is over.
  pub window_decision-first_moment :
      (window_decision i ≡ some expire
        → (t : ℕ) → i.now ≤ t
        → window_decision (record i { now = t }) ≢ some send)
      × ((until : ℕ)
          → window_decision i ≡ some (wait until)
          → (t : ℕ) → i.now ≤ t
          → t < until
          → window_decision (record i { now = t }) ≢ some send)
  window_decision-first_moment = (
    λ h t from. elim ((window_decision_sound i).2 h) [
      | inl over ↦ expired_never t (omega arith)
      | inr (next, shut, late, kind, silent) ↦
          shut_until next t shut kind silent from (λ alive. omega arith)
    ],
    λ until h t from before.
        let (_, _, kind, silent, shut) = (window_decision_sound i).1 until h in
        shut_until until t shut kind silent from (λ _. before),
  )
