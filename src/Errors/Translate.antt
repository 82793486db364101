-- ===== src/Errors/Translate.antt =====
-- The translation of the program's errors: `translateError` and `ERROR_MAP` of src/errors/translate.ts,
-- and the classes of src/errors/program-errors.ts with their codes. Texts are the codes of their
-- characters, and the regular expressions are functions that read at one place.
pub mod Reported
use vela_sdk.Prelude.{
  ℕ, ◌+◌, ◌-◌, ◌*◌, Bool, true, false, ◌&&◌, ◌||◌, Option, none, some, List, [], ◌∷◌, drop, length,
  ltb, leb, ◌==◌, if◌then◌else◌,
}
use vela_sdk.Bytes.{codes, starts_with}

pub data ProgramError : Type 0 where
  pull_too_early mandate_not_active max_pulls_exceeded : ProgramError
  insufficient_funds unauthorized_cancel frequency_too_low : ProgramError
  overflow plan_not_active mandate_expired : ProgramError
  amount_exceeds_plan_amount max_pulls_too_low unauthorized_admin : ProgramError
  protocol_paused unauthorized_agent unauthorized_service : ProgramError
  too_many_services duplicate_service mandate_paused : ProgramError
  mandate_revoked daily_limit_exceeded service_daily_limit_exceeded : ProgramError
  lifetime_cap_exceeded pull_amount_too_small pull_cooldown_active : ProgramError
  invalid_service_list agent_mandate_already_exists agent_mandate_not_found : ProgramError
  insufficient_mandate_balance no_funds_to_drain invalid_agent_mandate_status_transition :
      ProgramError
  unauthorized_agent_mandate_authority : ProgramError

-- The code that each class passes on.
abbrev pub code_of : ProgramError → ℕ
code_of pull_too_early = 6000
code_of mandate_not_active = 6001
code_of max_pulls_exceeded = 6002
code_of insufficient_funds = 6003
code_of unauthorized_cancel = 6004
code_of frequency_too_low = 6005
code_of overflow = 6006
code_of plan_not_active = 6007
code_of mandate_expired = 6008
code_of amount_exceeds_plan_amount = 6009
code_of max_pulls_too_low = 6010
code_of unauthorized_admin = 6016
code_of protocol_paused = 6060
code_of unauthorized_agent = 6030
code_of unauthorized_service = 6031
code_of too_many_services = 6032
code_of duplicate_service = 6033
code_of mandate_paused = 6034
code_of mandate_revoked = 6035
code_of daily_limit_exceeded = 6036
code_of service_daily_limit_exceeded = 6037
code_of lifetime_cap_exceeded = 6038
code_of pull_amount_too_small = 6039
code_of pull_cooldown_active = 6040
code_of invalid_service_list = 6041
code_of agent_mandate_already_exists = 6042
code_of agent_mandate_not_found = 6043
code_of insufficient_mandate_balance = 6044
code_of no_funds_to_drain = 6045
code_of invalid_agent_mandate_status_transition = 6046
code_of unauthorized_agent_mandate_authority = 6047

-- `ERROR_MAP`
abbrev pub error_map : List (ℕ × ProgramError)
error_map =
    (6000, pull_too_early)
    ∷ (6001, mandate_not_active)
    ∷ (6002, max_pulls_exceeded)
    ∷ (6003, insufficient_funds)
    ∷ (6004, unauthorized_cancel)
    ∷ (6005, frequency_too_low)
    ∷ (6006, overflow)
    ∷ (6007, plan_not_active)
    ∷ (6008, mandate_expired)
    ∷ (6009, amount_exceeds_plan_amount)
    ∷ (6010, max_pulls_too_low)
    ∷ (6030, unauthorized_agent)
    ∷ (6031, unauthorized_service)
    ∷ (6032, too_many_services)
    ∷ (6033, duplicate_service)
    ∷ (6034, mandate_paused)
    ∷ (6035, mandate_revoked)
    ∷ (6036, daily_limit_exceeded)
    ∷ (6037, service_daily_limit_exceeded)
    ∷ (6038, lifetime_cap_exceeded)
    ∷ (6039, pull_amount_too_small)
    ∷ (6040, pull_cooldown_active)
    ∷ (6041, invalid_service_list)
    ∷ (6042, agent_mandate_already_exists)
    ∷ (6043, agent_mandate_not_found)
    ∷ (6044, insufficient_mandate_balance)
    ∷ (6045, no_funds_to_drain)
    ∷ (6046, invalid_agent_mandate_status_transition)
    ∷ (6047, unauthorized_agent_mandate_authority)
    ∷ (6060, protocol_paused)
    ∷ []

pub data VelaError : Type 0 where
  known : ProgramError → VelaError
  -- The code -1 and the message.
  unknown : List ℕ → VelaError

-- What `translateError` reads of an error: the number of its `error.errorCode`, its
-- `transactionMessage`, and its message.
pub record ErrorLike : Type 0 where
  pub anchor_code : Option ℕ
  pub transaction_message : Option (List ℕ)
  pub message : List ℕ

unfoldable pub find_error : List (ℕ × ProgramError) → ℕ → Option ProgramError
find_error [] code = none
find_error ((number, e) ∷ rest) code = if number == code then some e else find_error rest code

-- The white space of `\s`.
unfoldable pub is_space : ℕ → Bool
is_space c =
    leb 9 c && leb c 13
    || c == 32
    || c == 160
    || c == 5760
    || leb 8192 c && leb c 8202
    || c == 8232
    || c == 8233
    || c == 8239
    || c == 8287
    || c == 12288
    || c == 65279

unfoldable pub skip_space : List ℕ → List ℕ
skip_space [] = []
skip_space (c ∷ text) = if is_space c then skip_space text else c ∷ text

-- What follows a text, if it stands here.
unfoldable pub after : List ℕ → List ℕ → Option (List ℕ)
after expected text = if starts_with text expected then some (drop (length expected) text) else none

unfoldable pub is_digit : ℕ → Bool
is_digit c = leb 48 c && leb c 57

unfoldable pub is_hex_digit : ℕ → Bool
unfolding is_digit
is_hex_digit c = is_digit c || leb 65 c && leb c 70 || leb 97 c && leb c 102

unfoldable pub hex_value : ℕ → ℕ
hex_value c = if leb c 57 then c - 48 else if leb c 70 then c - 55 else c - 87

-- The digits that stand here, as a number, and what follows them.
unfoldable pub read_decimal : ℕ → List ℕ → ℕ × List ℕ
read_decimal n [] = (n, [])
read_decimal n (c ∷ text) =
    let rest = read_decimal (n * 10 + (c - 48)) text in if is_digit c then rest else (n, c ∷ text)

unfoldable pub read_hex : ℕ → List ℕ → ℕ
read_hex n [] = n
read_hex n (c ∷ text) =
    let rest = read_hex (n * 16 + hex_value c) text in if is_hex_digit c then rest else n

unfoldable pub begins : (ℕ → Bool) → List ℕ → Bool
begins test [] = false
begins test (c ∷ text) = test c

unfoldable pub closed : ℕ × List ℕ → Option ℕ
closed (n, text) = if starts_with (skip_space text) (codes "}") then some n else none

-- `InstructionErrorCustom\s*\{\s*code:\s*(\d+)\s*\}`
unfoldable pub custom_code_here : List ℕ → Option ℕ
custom_code_here text = elim (after (codes "InstructionErrorCustom") text) [
  | none ↦ none
  | some text ↦ elim (after (codes "{") (skip_space text)) [
    | none ↦ none
    | some text ↦ elim (after (codes "code:") (skip_space text)) [
      | none ↦ none
      | some text ↦
          let digits = skip_space text in
          if begins is_digit digits then closed (read_decimal 0 digits) else none
    ]
  ]
]

-- `custom program error:\s*0x([0-9a-fA-F]+)`
unfoldable pub hex_code_here : List ℕ → Option ℕ
hex_code_here text = elim (after (codes "custom program error:") text) [
  | none ↦ none
  | some text ↦ elim (after (codes "0x") (skip_space text)) [
    | none ↦ none
    | some digits ↦ if begins is_hex_digit digits then some (read_hex 0 digits) else none
  ]
]

-- The first place where the expression matches.
unfoldable pub first_match : (List ℕ → Option ℕ) → List ℕ → Option ℕ
first_match here [] = here []
first_match here (c ∷ text) = elim (here (c ∷ text)) [
  | some code ↦ some code
  | none ↦ first_match here text
]

unfoldable pub find_code : Option ℕ → Option ProgramError
find_code none = none
find_code (some code) = find_error error_map code

unfoldable pub custom_code : Option (List ℕ) → Option ℕ
custom_code none = none
custom_code (some text) = first_match custom_code_here text

unfoldable pub translate_error : ErrorLike → VelaError
translate_error e = elim (find_code e.anchor_code) [
  | some p ↦ known p
  | none ↦ elim (find_code (custom_code e.transaction_message)) [
    | some p ↦ known p
    | none ↦ elim (find_code (first_match hex_code_here e.message)) [
      | some p ↦ known p
      | none ↦ unknown e.message
    ]
  ]
]
