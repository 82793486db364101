-- ===== src/Budget/Window.antt =====
-- The daily window of a limit: when spending is forgotten, and what is left of the limit.
use vela_sdk.Prelude.{◌≡◌, ℤ, pos, ◌+ℤ◌, ◌-ℤ◌, ◌≤ℤ◌, ◌<ℤ◌, if◌then◌else◌}
use vela_sdk.Prelude.Int.{leb_ℤ, ltb_ℤ, int_laws}

abbrev pub agent_daily_reset_window_seconds : ℤ
agent_daily_reset_window_seconds = pos 86_400

pub record ResetWindow : Type 0 where
  pub spent : ℤ
  pub next_reset_at : ℤ

unfoldable pub compute_reset_window : ℤ → ℤ → ℤ → ResetWindow
compute_reset_window spent last_reset now =
    if leb_ℤ agent_daily_reset_window_seconds (now -ℤ last_reset)
    then record { spent = pos 0; next_reset_at = now +ℤ agent_daily_reset_window_seconds }
    else record { spent = spent; next_reset_at = last_reset +ℤ agent_daily_reset_window_seconds }

unfoldable pub clamp_remaining : ℤ → ℤ → ℤ
clamp_remaining limit spent = if ltb_ℤ spent limit then limit -ℤ spent else pos 0

-- The next reset is in the future, at most a day from the later of now and the last reset.
pub compute_reset_window_future :
    (spent last_reset now : ℤ) → now <ℤ (compute_reset_window spent last_reset now).next_reset_at
unfolding compute_reset_window
compute_reset_window_future spent last_reset now = grind int_laws

-- Within the window the spending stands, and from its end on it is forgotten.
pub compute_reset_window_spent :
    (spent last_reset now : ℤ)
    → ((now <ℤ last_reset +ℤ pos 86_400)
        → (compute_reset_window spent last_reset now).spent ≡ spent)
      × ((last_reset +ℤ pos 86_400 ≤ℤ now)
          → (compute_reset_window spent last_reset now).spent ≡ pos 0)
unfolding compute_reset_window
compute_reset_window_spent spent last_reset now = (λ h. grind int_laws, λ h. grind int_laws)

-- What is left is never negative, and with what was spent it makes up the limit, or the limit is
-- used up.
pub clamp_remaining_bounds :
    (limit spent : ℤ)
    → (pos 0 ≤ℤ clamp_remaining limit spent)
      × (spent ≤ℤ limit → clamp_remaining limit spent +ℤ spent ≡ limit)
      × (limit ≤ℤ spent → clamp_remaining limit spent ≡ pos 0)
unfolding clamp_remaining
clamp_remaining_bounds limit spent = (grind int_laws, λ h. grind int_laws, λ h. grind int_laws)

-- A pull is covered by what is left exactly when it keeps the spending within the limit.
pub le-clamp_remaining_iff :
    (limit spent amount : ℤ)
    → pos 0 <ℤ amount
    → ((amount ≤ℤ clamp_remaining limit spent) → spent +ℤ amount ≤ℤ limit)
      × (spent +ℤ amount ≤ℤ limit → amount ≤ℤ clamp_remaining limit spent)
unfolding clamp_remaining
le-clamp_remaining_iff limit spent amount h = (λ k. grind int_laws, λ k. grind int_laws)
