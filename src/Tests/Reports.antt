-- ===== src/Tests/Reports.antt =====
-- A report of an early pull.
use vela_sdk.Prelude.{◌≡◌, refl, ◌⊎◌, none, [], ◌++◌}
use vela_sdk.Bytes.{codes, starts_with}
use vela_sdk.Errors.Translate.{
  ErrorLike, known, unknown, pull_too_early, unauthorized_admin, find_code, custom_code,
  translate_error, code_of, hex_code_here, after, begins,
}
use vela_sdk.Errors.Translate.Reported.{report, translate_error-report}

abbrev early : ErrorLike
early = record {
  anchor_code = none;
  transaction_message = none;
  message = codes "sent, " ++ report (code_of pull_too_early) [];
}

translate_error-report_example :
    (translate_error early ≡ known pull_too_early)
    ⊎ ((pull_too_early ≡ unauthorized_admin) × (translate_error early ≡ unknown early.message))
unfolding find_code custom_code hex_code_here after starts_with begins
translate_error-report_example =
    translate_error-report pull_too_early early (codes "sent, ") [] refl refl refl
      (refl, (refl, (refl, (refl, (refl, (refl, tt)))))) refl
