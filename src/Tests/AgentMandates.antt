-- ===== src/Tests/AgentMandates.antt =====
-- An agent mandate with a service, written, read back and listed.
use vela_sdk.Prelude.{ℕ, ◌≡◌, refl, some, [], ◌∷◌, replicate, pos, arith}
use vela_sdk.Prelude.Result.{ok}
use vela_sdk.Accounts.Status.{AgentMandateStatus}
use vela_sdk.Accounts.AgentMandate.{AgentMandate, AgentServiceLimit, read_agent_mandate_account}
use vela_sdk.Accounts.AgentMandate.Layout.{
  agent_mandate_bytes, Fits, read_agent_mandate_account-bytes,
}
use vela_sdk.Tests.Toy.{toy_platform, toy_platform-IsLawful}

abbrev pub service : AgentServiceLimit ℕ
service = record { service = 5; daily_limit = pos 40; daily_spent = pos 10; last_reset = pos 1_000 }

abbrev pub agent_mandate_example : AgentMandate ℕ
agent_mandate_example = record {
  address = 1;
  authority = 2;
  agent = 3;
  daily_limit = pos 100;
  daily_spent = pos 30;
  daily_last_reset = pos 1_000;
  lifetime_cap = pos 900;
  total_spent = pos 130;
  min_pull_amount = pos 2;
  min_pull_interval = pos 60;
  last_pull_at = pos 1_500;
  status = AgentMandateStatus.active;
  services = service ∷ [];
  bump = 252;
  version = some 1;
  reserved = some (replicate 64 0);
}

agent_mandate_example-Fits : Fits agent_mandate_example
agent_mandate_example-Fits = record {
  daily_limit = (omega arith, omega arith);
  daily_spent = (omega arith, omega arith);
  daily_last_reset = (omega arith, omega arith);
  lifetime_cap = (omega arith, omega arith);
  total_spent = (omega arith, omega arith);
  min_pull_amount = (omega arith, omega arith);
  min_pull_interval = (omega arith, omega arith);
  last_pull_at = (omega arith, omega arith);
  services =
      (((omega arith, omega arith), (omega arith, omega arith), (omega arith, omega arith)), tt);
  count = omega arith;
}

read_agent_mandate_account-bytes_example :
    read_agent_mandate_account 1 (agent_mandate_bytes agent_mandate_example (replicate 64 0) [])
    ≡ ok agent_mandate_example
read_agent_mandate_account-bytes_example =
    read_agent_mandate_account-bytes agent_mandate_example (replicate 64 0) [] toy_platform-IsLawful
      agent_mandate_example-Fits refl refl refl
