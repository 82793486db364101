-- ===== src/Errors/Translate/Reported.antt =====
-- The errors that web3.js reports as `custom program error: 0x…`, and what becomes of them.
use vela_sdk.Prelude.{
  ℕ, ◌+◌, ◌*◌, ◌/◌, ◌%◌, ◌<◌, ◌≡◌, refl, ap, ◌∙◌, ◌⊎◌, inl, inr, true, false, Option, none, some,
  List, [], ◌∷◌, ◌++◌, ltb, arith, if◌then◌else◌,
}
use vela_sdk.Bytes.{codes, starts_with}
use vela_sdk.Errors.Translate.{
  ProgramError, unauthorized_admin, pull_too_early, mandate_not_active, max_pulls_exceeded,
  insufficient_funds, unauthorized_cancel, frequency_too_low, overflow, plan_not_active,
  mandate_expired, amount_exceeds_plan_amount, max_pulls_too_low, protocol_paused,
  unauthorized_agent, unauthorized_service, too_many_services, duplicate_service, mandate_paused,
  mandate_revoked, daily_limit_exceeded, service_daily_limit_exceeded, lifetime_cap_exceeded,
  pull_amount_too_small, pull_cooldown_active, invalid_service_list, agent_mandate_already_exists,
  agent_mandate_not_found, insufficient_mandate_balance, no_funds_to_drain,
  invalid_agent_mandate_status_transition, unauthorized_agent_mandate_authority, code_of, error_map,
  known, unknown, ErrorLike, find_error, skip_space, is_space, after, is_digit, is_hex_digit,
  hex_value, read_hex, begins, hex_code_here, first_match, find_code, custom_code, translate_error,
}

abbrev pub hex_digit : ℕ → ℕ
hex_digit n = if ltb n 10 then 48 + n else 87 + n

-- A code from 4096 to 65535 in the digits of `toString(16)`.
abbrev pub hex_text : ℕ → List ℕ
hex_text code =
    hex_digit (code / 4096)
    ∷ hex_digit (code / 256 % 16)
    ∷ hex_digit (code / 16 % 16)
    ∷ hex_digit (code % 16)
    ∷ []

-- The report of a code, and the text after it.
abbrev pub report : ℕ → List ℕ → List ℕ
report code rest = codes "custom program error: 0x" ++ (hex_text code ++ rest)

-- The expression matches at no place of the first text.
abbrev pub Misses : (List ℕ → Option ℕ) → List ℕ → List ℕ → Type 0
Misses here [] text = Unit
Misses here (c ∷ before) text = (here (c ∷ (before ++ text)) ≡ none) × Misses here before text

first_match-Misses :
    (here : List ℕ → Option ℕ) (before text : List ℕ) (code : ℕ)
    → Misses here before text
    → here text ≡ some code
    → first_match here (before ++ text) ≡ some code
unfolding first_match
first_match-Misses here [] [] code m h = h
first_match-Misses here [] (c ∷ text) code m h = rw h refl
first_match-Misses here (c ∷ before) text code (miss, m) h =
    rw miss (first_match-Misses here before text code m h)

read_hex-end : (n : ℕ) (rest : List ℕ) → begins is_hex_digit rest ≡ false → read_hex n rest ≡ n
unfolding read_hex begins
read_hex-end n [] h = refl
read_hex-end n (c ∷ rest) h = rw h refl

read_hex-digit :
    (n d : ℕ) (rest : List ℕ)
    → d < 16
    → read_hex n (hex_digit d ∷ rest) ≡ read_hex (n * 16 + d) rest
unfolding read_hex is_hex_digit is_digit hex_value
read_hex-digit n d rest h =
    let is_digit : is_hex_digit (hex_digit d) ≡ true = ground arith in
    let value : hex_value (hex_digit d) ≡ d = ground arith in rw is_digit rw value refl

read_hex-hex_text :
    (code : ℕ) (rest : List ℕ)
    → code < 65536
    → begins is_hex_digit rest ≡ false
    → read_hex 0 (hex_text code ++ rest) ≡ code
read_hex-hex_text code rest h ends =
    read_hex-digit 0 (code / 4096) _ (omega arith)
    ∙ read_hex-digit (0 * 16 + code / 4096) (code / 256 % 16) _ (omega arith)
    ∙ read_hex-digit ((0 * 16 + code / 4096) * 16 + code / 256 % 16) (code / 16 % 16) _
        (omega arith)
    ∙ read_hex-digit (((0 * 16 + code / 4096) * 16 + code / 256 % 16) * 16 + code / 16 % 16)
        (code % 16) rest (omega arith)
    ∙ read_hex-end _ rest ends
    ∙ omega arith

hex_code_here-report :
    (code : ℕ) (rest : List ℕ)
    → code < 65536
    → begins is_hex_digit rest ≡ false
    → hex_code_here (report code rest) ≡ some code
unfolding hex_code_here after starts_with skip_space is_space begins is_hex_digit is_digit
hex_code_here-report code rest h ends =
    let first : is_hex_digit (hex_digit (code / 4096)) ≡ true = ground arith in
    rw first rw (read_hex-hex_text code rest h ends) refl

-- Every class is found by its code but UnauthorizedAdminError.
abbrev IsFound : ProgramError → Type 0
IsFound p =
    (find_error error_map (code_of p) ≡ some p)
    ⊎ ((p ≡ unauthorized_admin) × (find_error error_map (code_of p) ≡ none))

found : (p : ProgramError) → IsFound p
unfolding find_error
found pull_too_early = inl refl
found mandate_not_active = inl refl
found max_pulls_exceeded = inl refl
found insufficient_funds = inl refl
found unauthorized_cancel = inl refl
found frequency_too_low = inl refl
found overflow = inl refl
found plan_not_active = inl refl
found mandate_expired = inl refl
found amount_exceeds_plan_amount = inl refl
found max_pulls_too_low = inl refl
found unauthorized_admin = inr (refl, refl)
found protocol_paused = inl refl
found unauthorized_agent = inl refl
found unauthorized_service = inl refl
found too_many_services = inl refl
found duplicate_service = inl refl
found mandate_paused = inl refl
found mandate_revoked = inl refl
found daily_limit_exceeded = inl refl
found service_daily_limit_exceeded = inl refl
found lifetime_cap_exceeded = inl refl
found pull_amount_too_small = inl refl
found pull_cooldown_active = inl refl
found invalid_service_list = inl refl
found agent_mandate_already_exists = inl refl
found agent_mandate_not_found = inl refl
found insufficient_mandate_balance = inl refl
found no_funds_to_drain = inl refl
found invalid_agent_mandate_status_transition = inl refl
found unauthorized_agent_mandate_authority = inl refl

code_of_bound : (p : ProgramError) → code_of p < 65536
code_of_bound pull_too_early = omega arith
code_of_bound mandate_not_active = omega arith
code_of_bound max_pulls_exceeded = omega arith
code_of_bound insufficient_funds = omega arith
code_of_bound unauthorized_cancel = omega arith
code_of_bound frequency_too_low = omega arith
code_of_bound overflow = omega arith
code_of_bound plan_not_active = omega arith
code_of_bound mandate_expired = omega arith
code_of_bound amount_exceeds_plan_amount = omega arith
code_of_bound max_pulls_too_low = omega arith
code_of_bound unauthorized_admin = omega arith
code_of_bound protocol_paused = omega arith
code_of_bound unauthorized_agent = omega arith
code_of_bound unauthorized_service = omega arith
code_of_bound too_many_services = omega arith
code_of_bound duplicate_service = omega arith
code_of_bound mandate_paused = omega arith
code_of_bound mandate_revoked = omega arith
code_of_bound daily_limit_exceeded = omega arith
code_of_bound service_daily_limit_exceeded = omega arith
code_of_bound lifetime_cap_exceeded = omega arith
code_of_bound pull_amount_too_small = omega arith
code_of_bound pull_cooldown_active = omega arith
code_of_bound invalid_service_list = omega arith
code_of_bound agent_mandate_already_exists = omega arith
code_of_bound agent_mandate_not_found = omega arith
code_of_bound insufficient_mandate_balance = omega arith
code_of_bound no_funds_to_drain = omega arith
code_of_bound invalid_agent_mandate_status_transition = omega arith
code_of_bound unauthorized_agent_mandate_authority = omega arith

-- A report of a class's code in a message, at the first place where the expression matches and with no
-- hexadecimal digit after it, is translated to that class, or, for UnauthorizedAdminError, to an error
-- without a code that keeps the message, when neither of the other two places has a code of the table.
pub translate_error-report :
    (p : ProgramError) (e : ErrorLike) (before rest : List ℕ)
    → find_code e.anchor_code ≡ none
    → find_code (custom_code e.transaction_message) ≡ none
    → e.message ≡ before ++ report (code_of p) rest
    → Misses hex_code_here before (report (code_of p) rest)
    → begins is_hex_digit rest ≡ false
    → (translate_error e ≡ known p)
      ⊎ ((p ≡ unauthorized_admin) × (translate_error e ≡ unknown e.message))
unfolding translate_error find_code
translate_error-report p e before rest anchor custom message misses ends =
    let at : first_match hex_code_here e.message ≡ some (code_of p) =
      ap (first_match hex_code_here) message
      ∙ first_match-Misses hex_code_here before (report (code_of p) rest) (code_of p) misses
          (hex_code_here-report (code_of p) rest (code_of_bound p) ends) in
    elim (found p) [
      | inl is_found ↦ inl (
          rw (anchor, translate_error) rw (custom, translate_error) rw (at, find_code) rw is_found
            refl)
      | inr (admin, missing) ↦ inr (
        admin,
        rw (anchor, translate_error) rw (custom, translate_error) rw (at, find_code) rw missing
            refl,
      )
    ]
