-- ===== src/Whatsapp/ServiceWindow.antt =====
-- packages/shared/src/whatsapp/serviceWindow.ts. A date is a number of milliseconds; `elapsedMs < 0`
-- is `now < last`, since the subtraction on ℕ stops at 0.
use automatebro.Prelude.{
  ℕ, ◌+◌, ◌-◌, ◌*◌, ◌/◌, ◌%◌, ◌≤◌, ◌<◌, ◌≡◌, ◌↔◌, Bool, true, false, Option, none, some, arith, ltb,
  leb, ◌==◌, if◌then◌else◌,
}

abbrev pub window_duration_ms : ℕ
window_duration_ms = 24 * 60 * 60 * 1000

pub data WindowState : Type 0 where
  in_window : ℕ → ℕ → WindowState
  out_of_window : Option ℕ → WindowState

-- The second argument is `now`.
unfoldable pub compute_window_state : Option ℕ → ℕ → WindowState
compute_window_state none now = out_of_window none
compute_window_state (some last) now =
    if leb window_duration_ms (now - last)
    then out_of_window (some last)
    else if ltb now last
    then out_of_window (some last)
    else in_window (last + window_duration_ms) (window_duration_ms - (now - last))

is_in_window : WindowState → Bool
is_in_window (in_window _ _) = true
is_in_window (out_of_window _) = false

unfoldable pub can_send_freeform : Option ℕ → ℕ → Bool
unfolding compute_window_state is_in_window
can_send_freeform last now = is_in_window (compute_window_state last now)

-- What `formatRemaining` puts into its text: nothing but "expired", minutes, or hours and minutes.
pub data Remaining : Type 0 where
  expired : Remaining
  minutes_only : ℕ → Remaining
  hours_minutes : ℕ → ℕ → Remaining

pub format_remaining : WindowState → Remaining
format_remaining (out_of_window _) = expired
format_remaining (in_window _ remaining) =
    let total = remaining / 60000 in
    if total / 60 == 0 then minutes_only (total % 60) else hours_minutes (total / 60) (total % 60)

-- Free text is allowed exactly in the half-open interval of 24 hours that begins with the last
-- inbound message, if there is one.
pub can_send_freeform_iff :
    (last : Option ℕ) (now : ℕ)
    → (can_send_freeform last now ≡ true)
      ↔ ((at : ℕ) × (last ≡ some at) × (at ≤ now) × (now < at + window_duration_ms))
unfolding can_send_freeform
can_send_freeform_iff none now = (λ h. ground arith, λ h. ground arith)
can_send_freeform_iff (some at) now =
    (λ h. (at, ground arith, ground arith, ground arith), λ h. ground arith)

-- When the state is inside the window, the expiry is ahead of now by just the time that remains,
-- which is positive and at most 24 hours.
pub compute_window_state_remaining :
    (last : Option ℕ) (now expires remaining : ℕ)
    → compute_window_state last now ≡ in_window expires remaining
    → (now + remaining ≡ expires) × (0 < remaining) × (remaining ≤ window_duration_ms)
unfolding compute_window_state
compute_window_state_remaining none now expires remaining h = absurd (ground arith)
compute_window_state_remaining (some last) now expires remaining h = ground arith

-- A time that the display shows in minutes and hours: the milliseconds that it drops are under a minute.
abbrev pub shown_ms : Remaining → ℕ
shown_ms expired = 0
shown_ms (minutes_only m) = m * 60000
shown_ms (hours_minutes h m) = (h * 60 + m) * 60000

pub format_remaining_bounds :
    (expires remaining : ℕ)
    → (shown_ms (format_remaining (in_window expires remaining)) ≤ remaining)
      × (remaining < shown_ms (format_remaining (in_window expires remaining)) + 60000)
unfolding format_remaining
format_remaining_bounds expires remaining = ground arith
