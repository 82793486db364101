-- ===== src/Tests/Tokens.antt =====
-- A token configuration as the program stores it, read by the SDK.
use vela_sdk.Prelude.{
  ℕ, ◌≡◌, refl, true, false, List, [], ◌∷◌, replicate, pos, arith, length, ◌==◌, if◌then◌else◌,
}
use vela_sdk.Prelude.Result.{ok}
use vela_sdk.Accounts.Status.{BillingRail}
use vela_sdk.Accounts.TokenConfig.Layout.{Stored, Fits}
use vela_sdk.Accounts.TokenConfig.Enabled.{
  accounts_of, enabled_of, get_enabled_tokens, get_enabled_tokens_lem,
}
use vela_sdk.Tests.Toy.{toy_platform, toy_platform-IsLawful}

abbrev stored : Stored ℕ
stored = record {
  mint = 2;
  token_program = 3;
  billing_rail = BillingRail.token_delegate;
  decimals = 6;
  enabled = true;
  oracle_reference = 4;
  admin = 5;
  created_at = pos 1_700_000_000;
  bump = 250;
  version = 1;
  reserved = replicate 64 0;
}

abbrev stopped : Stored ℕ
stopped = record stored { enabled = false }

abbrev two_configs : List (ℕ × Stored ℕ)
two_configs = (11, stored) ∷ (12, stopped) ∷ []

abbrev program_accounts : ℕ → ℕ → List (ℕ × List ℕ)
program_accounts program_id size = if size == 213 then accounts_of two_configs else []

abbrev stored-Fits : Fits stored
stored-Fits = record { created_at = (omega arith, omega arith); reserved = refl }

abbrev stopped-Fits : Fits stopped
stopped-Fits = record { created_at = (omega arith, omega arith); reserved = refl }

get_enabled_tokens_lem_example : get_enabled_tokens program_accounts 1 ≡ ok (enabled_of two_configs)
get_enabled_tokens_lem_example =
    get_enabled_tokens_lem program_accounts 1 two_configs toy_platform-IsLawful
      (stored-Fits, (stopped-Fits, tt)) refl

-- One configuration is listed of the two, and it has a symbol.
enabled_two_configs : length (enabled_of two_configs) ≡ 1
enabled_two_configs = refl
