-- ===== src/Instructions/Pulls/Hook.antt =====
-- What an instruction for a pull is made of.
use Prim.Native.String.{String}
use vela_sdk.Prelude.{
  ℕ, ◌≡◌, refl, sym, ap, subst, ◌∙◌, ◌⊎◌, inl, inr, false, ◌&&◌, Option, none, some, List, [], ◌∷◌,
  ◌++◌, append-nil, ℤ, ◌≤ℤ◌, Bool-cases, arith, ◌==◌,
}
use vela_sdk.Prelude.Int.{leb_ℤ}
use vela_sdk.Prelude.Result.{ok, bind-eq-ok, ok-injective, throw_if-eq-ok}
use vela_sdk.Accounts.Platform.{Platform, IsLawful}
use vela_sdk.Accounts.Pda
use vela_sdk.Accounts.VelaMandate.{VelaMandate, fetch_mandate}
use vela_sdk.Instructions.{AccountMeta, TransactionInstruction, meta}
use vela_sdk.Instructions.Anchor.{
  AnchorProgram, read_failed, anchor_failed, with_error, with_error-eq-ok,
}
use vela_sdk.Instructions.Pulls.{
  VelaPullParams, PullConfigValues, or_option, require, is_other_hook, pending_plan_key,
  due_plan_key, usage_report_key, extra_keys, pull_call, with_extra_keys, fetch_pull_config_values,
  build_execute_pull,
}

-- A change of the plan that is due: of type 2, with a new plan and a time that has come.
abbrev pub IsDue : {Key : Type 0} → Option ℕ → Option Key → Option ℤ → ℤ → Key → Type 0
IsDue change_type new_plan effective_at now plan =
    (change_type ≡ some 2)
    × (new_plan ≡ some plan)
    × ((time : ℤ) × (effective_at ≡ some time) × (time ≤ℤ now))

abbrev pub IsChangeDue : {Key : Type 0} → VelaMandate Key → ℤ → Key → Type 0
IsChangeDue m now = IsDue m.pending_change_type m.pending_new_plan m.pending_effective_at now

require-eq-ok :
    {Key A : Type 0} (what : String) (o : Option A) {a : A}
    → require {Key = Key} what o ≡ ok a
    → o ≡ some a
require-eq-ok what none h = cc
require-eq-ok what (some b) h = cc

module _ {Key : Type 0} ⦃platform : Platform Key⦄ where
  abbrev IsDueOrNot : Option ℕ → Option Key → Option ℤ → ℤ → List (AccountMeta Key) → Type 0
  IsDueOrNot change_type new_plan effective_at now keys =
      ((plan : Key) × IsDue change_type new_plan effective_at now plan
        × (keys ≡ meta plan false false ∷ []))
      ⊎ (((plan : Key) → ¬ (IsDue change_type new_plan effective_at now plan)) × (keys ≡ []))

  due_plan_key-cases :
      (change_type : Option ℕ) (new_plan : Option Key) (effective_at : Option ℤ) (now : ℤ)
      → IsDueOrNot change_type new_plan effective_at now
          (due_plan_key change_type new_plan effective_at now)
  unfolding due_plan_key
  due_plan_key-cases change_type none effective_at now = inr ((λ plan h. cc), refl)
  due_plan_key-cases change_type (some plan) none now = inr ((λ other h. cc), refl)
  due_plan_key-cases none (some plan) (some time) now = inr ((λ other h. cc), refl)
  due_plan_key-cases (some type) (some plan) (some time) now =
      elim (Bool-cases (type == 2 && leb_ℤ time now)) [
        | inl due ↦ inl (plan, (ground arith, refl, (time, refl, ground arith)), rw due refl)
        | inr early ↦ inr ((λ other h. ground arith), rw early refl)
      ]

  with_extra_keys-keys :
      (base : TransactionInstruction Key) (keys : List (AccountMeta Key))
      → (with_extra_keys base keys).keys ≡ base.keys ++ keys
  unfolding with_extra_keys
  with_extra_keys-keys base [] = sym (append-nil base.keys)
  with_extra_keys-keys base (key ∷ keys) = refl

  with_extra_keys_rest :
      (base : TransactionInstruction Key) (keys : List (AccountMeta Key))
      → ((with_extra_keys base keys).program_id ≡ base.program_id)
        × ((with_extra_keys base keys).contents ≡ base.contents)
  unfolding with_extra_keys
  with_extra_keys_rest base [] = (refl, refl)
  with_extra_keys_rest base (key ∷ keys) = (refl, refl)

  hook_agrees :
      (override : Option Key) (hook : Key)
      → IsLawful platform
      → is_other_hook override hook ≡ false
      → (override ≡ none) ⊎ (override ≡ some hook)
  unfolding is_other_hook
  hook_agrees none hook lawful h = inl refl
  hook_agrees (some override) hook lawful h =
      inr (ap some ((lawful.equals_iff override hook).0 (ground arith)))

  -- After `keys` stand the usage report, and the new plan exactly when the change is due.
  abbrev pub EndsWell :
      VelaPullParams Key
      → VelaMandate Key
      → ℤ
      → List (AccountMeta Key)
      → List (AccountMeta Key)
      → Type 0
  EndsWell params m now base_keys keys =
      ((plan : Key) × IsChangeDue m now plan
        × (keys
            ≡ base_keys
              ++ (usage_report_key params.usage_report_address ++ meta plan false false ∷ [])))
      ⊎ (((plan : Key) → ¬ (IsChangeDue m now plan))
          × (keys ≡ base_keys ++ usage_report_key params.usage_report_address))

  ends_well :
      (params : VelaPullParams Key) (m : VelaMandate Key) (now : ℤ)
      (base : TransactionInstruction Key)
      → EndsWell params m now base.keys (with_extra_keys base (extra_keys params m now)).keys
  unfolding extra_keys pending_plan_key
  ends_well params m now base =
      elim (due_plan_key-cases m.pending_change_type m.pending_new_plan m.pending_effective_at
        now) [
          | inl (plan, due, keys) ↦ inl (
            plan,
            due,
            with_extra_keys-keys base _
                ∙ ap (λ t. base.keys ++ (usage_report_key params.usage_report_address ++ t)) keys,
          )
          | inr (none_due, keys) ↦ inr (
            none_due,
            with_extra_keys-keys base _
                ∙ ap (λ t. base.keys ++ (usage_report_key params.usage_report_address ++ t)) keys
                ∙ ap (λ t. base.keys ++ t) (append-nil _),
          )
        ]

module _ {Key : Type 0} ⦃platform : Platform Key⦄ (program : AnchorProgram Key)
    (get_account_info : Key → Option (List ℕ)) where
  -- What a pull is made of: the billing mint, the mandate, the configuration, and the instruction that
  -- Anchor laid out.
  pub record IsPull (params : VelaPullParams Key) (now : ℤ) (ix : TransactionInstruction Key)
      (address : Key) : Type 0 where
    pub given : params.mandate_address ≡ some address
    pub billing_mint : Key
    pub billed_in : or_option params.billing_mint params.wrapped_usdc_mint ≡ some billing_mint
    pub mandate : VelaMandate Key
    pub fetched : fetch_mandate get_account_info address ≡ ok mandate
    pub config : PullConfigValues Key
    pub configured :
        fetch_pull_config_values program get_account_info (Pda.config program.program_id).0
        ≡ ok config
    pub hook :
        (params.hook_program_id ≡ none) ⊎ (params.hook_program_id ≡ some config.hook_program_id)
    pub base : TransactionInstruction Key
    pub laid_out :
        program.instruction (pull_call params address billing_mint program.program_id config)
        ≡ ok base
    pub same_program : ix.program_id ≡ base.program_id
    pub same_contents : ix.contents ≡ base.contents
    pub keys : EndsWell params mandate now base.keys ix.keys

  -- A pull that is built is for the mandate that was given, over the configured hook, which an override
  -- must agree with, and its accounts are those that Anchor laid out, then the usage report where one
  -- is given, then the new plan exactly when a change of type 2 is due.
  pub build_execute_pull-IsPull :
      (params : VelaPullParams Key) (now : ℤ) (ix : TransactionInstruction Key) (address : Key)
      → IsLawful platform
      → build_execute_pull program get_account_info params now ≡ ok (ix, address)
      → IsPull params now ix address
  unfolding build_execute_pull
  build_execute_pull-IsPull params now ix address lawful h =
      let wanted = params.mandate_address in
      let program_id = program.program_id in
      let (a, given, h1) = bind-eq-ok (require "mandateAddress" wanted) _ h in
      let (mint, billed, h2) =
        bind-eq-ok (require "billingMint" (or_option params.billing_mint params.wrapped_usdc_mint))
          _ h1 in
      let (m, fetched, h3) =
        bind-eq-ok (with_error read_failed (fetch_mandate get_account_info a)) _ h2 in
      let (config, configured, h4) =
        bind-eq-ok (fetch_pull_config_values program get_account_info (Pda.config program_id).0) _
          h3 in
      let (agrees, h5) =
        throw_if-eq-ok (is_other_hook params.hook_program_id config.hook_program_id) _ _ h4 in
      let (base, laid_out, h6) =
        bind-eq-ok
          (with_error anchor_failed
            (program.instruction (pull_call params a mint program_id config)))
          _ h5 in
      let same : (with_extra_keys base (extra_keys params m now), a) ≡ (ix, address) =
        ok-injective h6 in
      let same_ix = ap (λ p. p.0) same in
      let same_address = ap (λ p. p.1) same in
      let rest = with_extra_keys_rest base (extra_keys params m now) in
      record {
        given = require-eq-ok "mandateAddress" wanted given ∙ ap some same_address;
        billing_mint = mint;
        billed_in = require-eq-ok "billingMint" _ billed;
        mandate = m;
        fetched =
            subst (λ t. fetch_mandate get_account_info t ≡ ok m) same_address
              (with_error-eq-ok read_failed _ fetched);
        config = config;
        configured = configured;
        hook = hook_agrees params.hook_program_id config.hook_program_id lawful agrees;
        base = base;
        laid_out =
            subst (λ t. program.instruction (pull_call params t mint program_id config) ≡ ok base)
              same_address (with_error-eq-ok anchor_failed _ laid_out);
        same_program = sym (ap (λ t. t.program_id) same_ix) ∙ rest.0;
        same_contents = sym (ap (λ t. t.contents) same_ix) ∙ rest.1;
        keys =
            subst (λ t. EndsWell params m now base.keys t) (ap (λ t. t.keys) same_ix)
              (ends_well params m now base);
      }
