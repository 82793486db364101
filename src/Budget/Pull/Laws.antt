-- ===== src/Budget/Pull/Laws.antt =====
-- When a pull is allowed, in terms of the mandate's own numbers.
use vela_sdk.Prelude.First.{find, IsFirst, find_iff}
use vela_sdk.Prelude.{
  ap, subst, sym, List, [], ◌∷◌, if◌then◌else◌, ◌≡◌, refl, ◌↔◌, Bool, true, false, none, some, ℤ,
  pos, ◌+ℤ◌, ◌-ℤ◌, ◌≤ℤ◌, ◌<ℤ◌, ◌⊎◌, arith, Option-cases, inl, inr,
}
use vela_sdk.Prelude.Int.{ltb_ℤ, int_laws}
use vela_sdk.Accounts.Platform.{Platform}
use vela_sdk.Accounts.Status.{AgentMandateStatus}
use vela_sdk.Accounts.AgentMandate.{AgentMandate, AgentServiceLimit}
use vela_sdk.Budget.Window.{compute_reset_window, clamp_remaining}
use vela_sdk.Budget.Reasons.{is_empty, is_empty-push_if}
use vela_sdk.Budget.Check.{AgentBudgetSummary, is_active, find_service, summarize_budget}
use vela_sdk.Budget.Pull.{service_spent, service_would_exceed, is_cooling, pull_verdict}

-- The amount keeps the spending of a day within the limit: on top of what was spent since the last
-- reset or, once a day has passed, on its own.
abbrev pub IsWithin : ℤ → ℤ → ℤ → ℤ → ℤ → Type 0
IsWithin limit spent last_reset amount now =
    ((now <ℤ last_reset +ℤ pos 86_400) × (spent +ℤ amount ≤ℤ limit))
    ⊎ ((last_reset +ℤ pos 86_400 ≤ℤ now) × (amount ≤ℤ limit))

-- No pull was made, no interval is kept, or the interval since the last pull has passed.
abbrev pub IsRested : ℤ → ℤ → ℤ → Type 0
IsRested last_pull_at min_pull_interval now =
    (last_pull_at ≤ℤ pos 0)
    ⊎ ((min_pull_interval ≤ℤ pos 0) ⊎ (last_pull_at +ℤ min_pull_interval ≤ℤ now))

is_cooling_iff :
    (last_pull_at min_pull_interval now : ℤ)
    → (is_cooling last_pull_at min_pull_interval now ≡ false)
      ↔ IsRested last_pull_at min_pull_interval now
unfolding is_cooling
is_cooling_iff last_pull_at min_pull_interval now = (λ h. grind int_laws, λ h. grind int_laws)

-- The spending that counts at a time: that of the current window.
abbrev spent_at : ℤ → ℤ → ℤ → ℤ
spent_at spent last_reset now = (compute_reset_window spent last_reset now).spent

-- The budget's view of the spending, `limit - remaining`, exceeds the limit with a positive amount
-- exactly when the spending itself does.
exceeds_iff :
    (limit spent amount : ℤ)
    → pos 0 <ℤ amount
    → (ltb_ℤ limit (limit -ℤ clamp_remaining limit spent +ℤ amount) ≡ false)
      ↔ (spent +ℤ amount ≤ℤ limit)
unfolding clamp_remaining
exceeds_iff limit spent amount h = (λ k. grind int_laws, λ k. grind int_laws)

spent_at-IsWithin :
    (limit spent last_reset amount now : ℤ)
    → (spent_at spent last_reset now +ℤ amount ≤ℤ limit)
      ↔ IsWithin limit spent last_reset amount now
unfolding compute_reset_window
spent_at-IsWithin limit spent last_reset amount now = (λ h. grind int_laws, λ h. grind int_laws)

is_active_lem : (s : AgentMandateStatus) → is_active s ≡ true → s ≡ AgentMandateStatus.active
is_active_lem AgentMandateStatus.active h = refl
is_active_lem AgentMandateStatus.paused h = cc
is_active_lem AgentMandateStatus.revoked h = cc

module _ {Key : Type 0} ⦃platform : Platform Key⦄ where
  find_service_lem :
      (service : Key) (services : List (AgentServiceLimit Key))
      → find_service service services ≡ find (λ e. platform.equals e.service service) services
  unfolding find_service
  find_service_lem service [] = refl
  find_service_lem service (entry ∷ services) =
      ap (λ rest. if platform.equals entry.service service then some entry else rest)
        (find_service_lem service services)

  find_service_iff :
      (service : Key) (entry : AgentServiceLimit Key) (services : List (AgentServiceLimit Key))
      → (find_service service services ≡ some entry)
        ↔ IsFirst (λ e. platform.equals e.service service) entry services
  find_service_iff service entry services =
      subst
        (λ o. (o ≡ some entry) ↔ IsFirst (λ e. platform.equals e.service service) entry services)
        (sym (find_service_lem service services))
        (find_iff (λ e. platform.equals e.service service) entry services)

  -- The mandate lets `amount` go to `service` at `now`, with `balance` in its account.
  pub record IsAllowed (m : AgentMandate Key) (balance : ℤ) (paused : Bool) (service : Key)
      (amount now : ℤ) : Type 0 where
    pub active : m.status ≡ AgentMandateStatus.active
    pub running : paused ≡ false
    pub entry : AgentServiceLimit Key
    pub listed : IsFirst (λ e. platform.equals e.service service) entry m.services
    pub within_service : IsWithin entry.daily_limit entry.daily_spent entry.last_reset amount now
    pub within_day : IsWithin m.daily_limit m.daily_spent m.daily_last_reset amount now
    pub within_lifetime : m.total_spent +ℤ amount ≤ℤ m.lifetime_cap
    pub enough : m.min_pull_amount ≤ℤ amount
    pub rested : IsRested m.last_pull_at m.min_pull_interval now
    pub covered : amount ≤ℤ balance

  -- The tests of a verdict, each passed.
  record Passes (b : AgentBudgetSummary Key) (paused : Bool) (service : Key) (amount now : ℤ)
      : Type 0 where
    active : is_active b.status ≡ true
    running : paused ≡ false
    authorized : b.service_authorized ≡ true
    within_service :
        service_would_exceed
          (find_service service b.mandate.services)
          (service_spent (find_service service b.mandate.services) b.service_remaining +ℤ amount)
        ≡ false
    within_day :
        ltb_ℤ b.mandate.daily_limit (b.mandate.daily_limit -ℤ b.global_remaining +ℤ amount) ≡ false
    within_lifetime : ltb_ℤ b.mandate.lifetime_cap (b.mandate.total_spent +ℤ amount) ≡ false
    minimum : ltb_ℤ amount b.mandate.min_pull_amount ≡ false
    cooled : is_cooling b.mandate.last_pull_at b.mandate.min_pull_interval now ≡ false
    covered : ltb_ℤ b.mandate_balance amount ≡ false

  can_pull_iff_Passes :
      (b : AgentBudgetSummary Key) (paused : Bool) (service : Key) (amount now : ℤ)
      → ((pull_verdict b paused service amount now).can_pull ≡ true)
        ↔ Passes b paused service amount now
  unfolding pull_verdict is_empty
  can_pull_iff_Passes b paused service amount now = (
    λ h. let k = simp is_empty-push_if at h in ground arith,
    λ h. simp is_empty-push_if (ground arith),
  )

  service_remaining_lem :
      (m : AgentMandate Key) (balance : ℤ) (service : Key) (now : ℤ) (entry : AgentServiceLimit Key)
      → find_service service m.services ≡ some entry
      → (summarize_budget m balance (some service) now).service_remaining
        ≡ some (clamp_remaining entry.daily_limit (spent_at entry.daily_spent entry.last_reset now))
  unfolding summarize_budget
  service_remaining_lem m balance service now entry e = rw (e, summarize_budget)

  module _ (m : AgentMandate Key) (balance : ℤ) (paused : Bool) (service : Key) (amount now : ℤ)
      (positive : pos 0 <ℤ amount) where
    IsAllowed-of_Passes :
        (entry : AgentServiceLimit Key)
        → find_service service m.services ≡ some entry
        → Passes (summarize_budget m balance (some service) now) paused service amount now
        → IsAllowed m balance paused service amount now
    unfolding summarize_budget service_spent service_would_exceed
    IsAllowed-of_Passes entry e p =
        let spent = spent_at entry.daily_spent entry.last_reset now in
        let within : ltb_ℤ entry.daily_limit
              (entry.daily_limit -ℤ clamp_remaining entry.daily_limit spent +ℤ amount)
            ≡ false =
          rw (e, service_remaining_lem m balance service now entry e) at p.within_service in
        let day = spent_at m.daily_spent m.daily_last_reset now in
        record {
          active = is_active_lem m.status p.active;
          running = p.running;
          entry = entry;
          listed = (find_service_iff service entry m.services).0 e;
          within_service =
              (spent_at-IsWithin entry.daily_limit entry.daily_spent entry.last_reset amount now).0
                ((exceeds_iff entry.daily_limit spent amount positive).0 within);
          within_day =
              (spent_at-IsWithin m.daily_limit m.daily_spent m.daily_last_reset amount now).0
                ((exceeds_iff m.daily_limit day amount positive).0 p.within_day);
          within_lifetime = ground (arith, p.within_lifetime);
          enough = ground (arith, p.minimum);
          rested = (is_cooling_iff m.last_pull_at m.min_pull_interval now).0 p.cooled;
          covered = ground (arith, p.covered);
        }

    Passes-of_IsAllowed :
        IsAllowed m balance paused service amount now
        → Passes (summarize_budget m balance (some service) now) paused service amount now
    unfolding summarize_budget service_spent service_would_exceed
    Passes-of_IsAllowed a =
        let spent = spent_at a.entry.daily_spent a.entry.last_reset now in
        let day = spent_at m.daily_spent m.daily_last_reset now in
        let found = (find_service_iff service a.entry m.services).1 a.listed in
        record {
          active = ground (arith, a.active);
          running = a.running;
          authorized = rw found;
          within_service =
              rw (found, service_remaining_lem m balance service now a.entry found)
                ((exceeds_iff a.entry.daily_limit spent amount positive).1 (
                  (spent_at-IsWithin a.entry.daily_limit a.entry.daily_spent a.entry.last_reset
                      amount now).1
                    a.within_service));
          within_day = (exceeds_iff m.daily_limit day amount positive).1 (
              (spent_at-IsWithin m.daily_limit m.daily_spent m.daily_last_reset amount now).1
                a.within_day);
          within_lifetime = ground (arith, a.within_lifetime);
          minimum = ground (arith, a.enough);
          cooled = (is_cooling_iff m.last_pull_at m.min_pull_interval now).1 a.rested;
          covered = ground (arith, a.covered);
        }

  unlisted_fails :
      (m : AgentMandate Key) (balance : ℤ) (paused : Bool) (service : Key) (amount now : ℤ)
      → find_service service m.services ≡ none
      → ¬ (Passes (summarize_budget m balance (some service) now) paused service amount now)
  unfolding summarize_budget
  unlisted_fails m balance paused service amount now missing p =
      let h : false ≡ true = rw missing at p.authorized in cc

  -- A positive amount may be pulled exactly when the mandate is active, the protocol runs, the
  -- service is listed, and the amount keeps the current spending within the service's, the day's
  -- and the lifetime's limit, reaches the minimum, falls into no cooldown and is covered.
  pub can_pull_iff :
      (m : AgentMandate Key) (balance : ℤ) (paused : Bool) (service : Key) (amount now : ℤ)
      → pos 0 <ℤ amount
      → ((pull_verdict
            (summarize_budget m balance (some service) now)
            paused
            service
            amount
            now).can_pull
          ≡ true)
        ↔ IsAllowed m balance paused service amount now
  can_pull_iff m balance paused service amount now positive =
      let budget = summarize_budget m balance (some service) now in
      let tests = can_pull_iff_Passes budget paused service amount now in
      (
        λ h. elim (Option-cases (find_service service m.services)) [
          | inl missing ↦
              absurd (unlisted_fails m balance paused service amount now missing (tests.0 h))
          | inr (entry, e) ↦
              IsAllowed-of_Passes m balance paused service amount now positive entry e (tests.0 h)
        ],
        λ a. tests.1 (Passes-of_IsAllowed m balance paused service amount now positive a),
      )
