-- ===== src/Tests/Addresses.antt =====
-- Two mandates of different kinds on a small platform.
use vela_sdk.Prelude.{ℕ, ◌≡◌, ◌↔◌, pos, arith}
use vela_sdk.Accounts.Pda.Seeds.{
  Owner, of_mandate, of_stream, seeds, join, address, address-injective,
}
use vela_sdk.Tests.Toy.{toy_platform, toy_platform-IsLawful}

abbrev mandate_of_two : Owner ℕ
mandate_of_two = of_mandate 2 3 (pos 7)

abbrev stream_of_two : Owner ℕ
stream_of_two = of_stream 2 3 (pos 7)

address-injective_example :
    (address mandate_of_two 8 ≡ toy_platform.find_program_address (seeds mandate_of_two) 8)
    × (join (seeds mandate_of_two) ≡ join (seeds stream_of_two) ↔ mandate_of_two ≡ stream_of_two)
address-injective_example =
    address-injective mandate_of_two stream_of_two 8 toy_platform-IsLawful
      (omega arith, omega arith) (omega arith, omega arith)
