-- ===== src/Instructions/Streams/Creation.antt =====
-- The creation of a stream: how the program reads it, and what happens without a maximum.
use vela_sdk.Prelude.{
  ℕ, ◌+◌, ◌^◌, ◌<◌, ◌≤◌, ◌≡◌, refl, sym, ap, ◌∙◌, true, ◌&&◌, some, List, [], ◌∷◌, ◌++◌, ℤ, pos,
  length, replicate, arith, length-append, take-append_length, drop-append_length, drop-drop,
  not-ltb_of_le, append_assoc, append-nil,
}
use vela_sdk.Prelude.Int.{leb_ℤ, ltb_ℤ}
use vela_sdk.Prelude.Result.{ok}
use vela_sdk.Bytes.{u64_mod, u64_le, le_bytes, as_uint64}
use vela_sdk.Bytes.Integers.{IsU64, length-u64_le, length-le_bytes}
use vela_sdk.Accounts.Platform.{Platform, IsLawful, instruction_discriminator}
use vela_sdk.Instructions.{overwrite, write_u64_le, write_u32_le}
use vela_sdk.Instructions.Idl.Binding.{length-instruction_discriminator}
use vela_sdk.Instructions.Streams.{CreateStreamArgs, encode_option_u64, create_stream_contents}

-- Overwriting a part of a buffer of known layout.
overwrite-part :
    (before old part after : List ℕ) (offset : ℕ)
    → length before ≡ offset
    → length old ≡ length part
    → overwrite (before ++ (old ++ after)) offset part ≡ before ++ (part ++ after)
unfolding overwrite
overwrite-part before old part after offset h k =
    rw (take-append_length offset before (old ++ after) h) rw
      (← drop-drop (length part) offset (before ++ (old ++ after))) rw
      (drop-append_length offset before (old ++ after) h) rw
      (drop-append_length (length part) old after k) refl

pub write_u64_le-ok :
    (before old after : List ℕ) (value : ℤ) (offset : ℕ)
    → length before ≡ offset
    → length old ≡ 8
    → IsU64 value
    → write_u64_le (before ++ (old ++ after)) value offset ≡ ok (before ++ (u64_le value ++ after))
unfolding write_u64_le
write_u64_le-ok before old after value offset h k fits =
    let inside : leb_ℤ (pos 0) value && ltb_ℤ value (pos u64_mod) ≡ true = ground arith in
    let long : offset + 8 ≤ length (before ++ (old ++ after)) =
      omega (arith, length-append before (old ++ after), length-append old after) in
    rw inside rw (not-ltb_of_le _ _ long) (
      ap ok
        (overwrite-part before old (u64_le value) after offset h (k ∙ sym (length-u64_le value))))

write_u32_le-ok :
    (before old after : List ℕ) (n offset : ℕ)
    → length before ≡ offset
    → length old ≡ 4
    → n < 2 ^ 32
    → write_u32_le (before ++ (old ++ after)) (pos n) offset
      ≡ ok (before ++ (le_bytes 4 (as_uint64 (pos n)) ++ after))
unfolding write_u32_le
write_u32_le-ok before old after n offset h k fits =
    let inside : leb_ℤ (pos 0) (pos n) && ltb_ℤ (pos n) (pos (2 ^ 32)) ≡ true = ground arith in
    let long : offset + 4 ≤ length (before ++ (old ++ after)) =
      omega (arith, length-append before (old ++ after), length-append old after) in
    rw inside rw (not-ltb_of_le _ _ long)
      (ap ok (overwrite-part before old _ after offset h (k ∙ sym (length-le_bytes 4 _))))

-- The arguments in the order of the program's interface.
abbrev pub create_args : (rate max_rate limit : ℤ) → (interval : ℕ) → List ℕ
create_args rate max_rate limit interval =
    u64_le rate
    ++ (u64_le max_rate ++ ((1 ∷ u64_le limit) ++ (le_bytes 4 (as_uint64 (pos interval)) ++ [])))

encode_option_u64-some :
    (limit : ℤ) → IsU64 limit → encode_option_u64 (some limit) ≡ ok (1 ∷ u64_le limit)
unfolding encode_option_u64
encode_option_u64-some limit h =
    write_u64_le-ok (1 ∷ []) (replicate 8 0) [] limit 1 refl refl h
    ∙ ap (λ t. ok (1 ∷ t)) (append-nil (u64_le limit))

module _ {Key : Type 0} ⦃platform : Platform Key⦄ where
  pub create_stream_contents-ok :
      (args : CreateStreamArgs Key) (limit : ℤ) (interval : ℕ)
      → IsLawful platform
      → IsU64 args.rate_per_second
      → IsU64 args.authorized_max_rate
      → IsU64 limit
      → interval < 2 ^ 32
      → args.max_streamed ≡ some limit
      → args.min_settle_interval ≡ pos interval
      → create_stream_contents args
        ≡ ok (
            instruction_discriminator platform "create_stream_mandate"
            ++ create_args args.rate_per_second args.authorized_max_rate limit interval)
  unfolding create_stream_contents
  create_stream_contents-ok args limit interval lawful h1 h2 h3 h4 some_cap is_pos =
      let disc = instruction_discriminator platform "create_stream_mandate" in
      let length_disc = length-instruction_discriminator "create_stream_mandate" lawful in
      let rate = u64_le args.rate_per_second in
      let max_rate = u64_le args.authorized_max_rate in
      let option : List ℕ = 1 ∷ u64_le limit in
      let zeros : List ℕ = replicate 8 0 in
      let end : List ℕ = replicate 4 0 in
      let first =
        write_u64_le-ok disc zeros (zeros ++ (option ++ end)) args.rate_per_second 8 length_disc
          refl h1 in
      let second : write_u64_le (disc ++ (rate ++ (zeros ++ (option ++ end))))
            args.authorized_max_rate 16
          ≡ ok (disc ++ (rate ++ (max_rate ++ (option ++ end)))) =
        ap (λ t. write_u64_le t args.authorized_max_rate 16) (sym (append_assoc disc rate _))
        ∙ write_u64_le-ok (disc ++ rate) zeros (option ++ end) args.authorized_max_rate 16
            (length-append disc rate
              ∙ omega (arith, length_disc, length-u64_le args.rate_per_second))
            refl h2
        ∙ ap ok (append_assoc disc rate _) in
      let before = disc ++ (rate ++ (max_rate ++ option)) in
      let regroup : (t : List ℕ) → disc ++ (rate ++ (max_rate ++ (option ++ t))) ≡ before ++ t =
        λ t. simp append_assoc in
      let third : write_u32_le (disc ++ (rate ++ (max_rate ++ (option ++ end)))) (pos interval) 33
          ≡ ok (disc ++ create_args args.rate_per_second args.authorized_max_rate limit interval) =
        ap (λ t. write_u32_le t (pos interval) 33) (regroup end)
        ∙ write_u32_le-ok before end [] interval 33 length_before refl h4
        ∙ ap ok (sym (regroup _)) in
      rw some_cap rw (encode_option_u64-some limit h3) rw first rw second rw is_pos third
    where
      length_before :
          length (
            instruction_discriminator platform "create_stream_mandate"
            ++ (u64_le args.rate_per_second
                ++ (u64_le args.authorized_max_rate ++ (1 ∷ u64_le limit))))
          ≡ 33
      length_before = omega (
        arith,
        length-append {0},
        length-instruction_discriminator "create_stream_mandate" lawful,
        length-u64_le args.rate_per_second,
        length-u64_le args.authorized_max_rate,
        length-u64_le limit,
      )
