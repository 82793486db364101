-- ===== src/Instructions/Streams/NewStream.antt =====
-- `buildCreateStreamMandateInstruction` as a whole: with a maximum the program reads the arguments
-- that were given, and without one there is no instruction.
use vela_sdk.Prelude.{
  ℕ, ◌^◌, ◌<◌, ◌≡◌, refl, sym, ap, ◌∙◌, true, false, ◌&&◌, Option, none, some, List, [], ◌∷◌, ◌++◌,
  ℤ, pos, length, replicate, arith, length-append, append_assoc,
}
use vela_sdk.Prelude.Int.{leb_ℤ, ltb_ℤ}
use vela_sdk.Prelude.Result.{ok, err}
use vela_sdk.Errors.{write_out_of_range}
use vela_sdk.Bytes.{u64_le, option_u64_le}
use vela_sdk.Bytes.Integers.{IsU64, length-u64_le}
use vela_sdk.Accounts.Platform.{Platform, IsLawful, instruction_discriminator}
use vela_sdk.Accounts.Pda
use vela_sdk.Instructions.{
  AccountMeta, TransactionInstruction, system_program_id, meta, write_u32_le, write_u64_le,
}
use vela_sdk.Instructions.Idl.{
  number, optional, u64, u32, option_u64, decode_args, idl_create_stream_mandate, signs, writes,
}
use vela_sdk.Instructions.Idl.Arguments.{
  decode_args-cons, decode_u64-u64_le, decode_u32-le_bytes, decode_option_u64-option_u64_le,
}
use vela_sdk.Instructions.Idl.Binding.{
  length-instruction_discriminator, All-GrantsOwn, interpret_granted,
}
use vela_sdk.Instructions.Streams.{
  CreateStreamArgs, encode_option_u64, create_stream_contents, build_create_stream_mandate,
  fetch_stream_mandate_counter,
}
use vela_sdk.Instructions.Streams.Creation.{create_stream_contents-ok, create_args, write_u64_le-ok}
use vela_sdk.Instructions.Streams.Program.{IsReadAs}

-- The numbers fit their places.
pub record Fits {Key : Type 0} (args : CreateStreamArgs Key) (interval : ℕ) : Type 0 where
  pub rate_per_second : IsU64 args.rate_per_second
  pub authorized_max_rate : IsU64 args.authorized_max_rate
  pub min_settle_interval : args.min_settle_interval ≡ pos interval
  pub interval_fits : interval < 2 ^ 32

write_u32_le-short :
    (buffer : List ℕ) (n : ℕ)
    → length buffer ≡ 29
    → n < 2 ^ 32
    → write_u32_le buffer (pos n) 33 ≡ err (write_out_of_range 33 4 29)
unfolding write_u32_le
write_u32_le-short buffer n h fits =
    let inside : leb_ℤ (pos 0) (pos n) && ltb_ℤ (pos n) (pos (2 ^ 32)) ≡ true = ground arith in
    rw inside rw h refl

module _ {Key : Type 0} ⦃platform : Platform Key⦄ where
  create_stream_contents-unlimited :
      (args : CreateStreamArgs Key) (interval : ℕ)
      → IsLawful platform
      → Fits args interval
      → args.max_streamed ≡ none
      → create_stream_contents args ≡ err (write_out_of_range 33 4 29)
  unfolding create_stream_contents encode_option_u64
  create_stream_contents-unlimited args interval lawful fits unlimited =
      let disc = instruction_discriminator platform "create_stream_mandate" in
      let length_disc = length-instruction_discriminator "create_stream_mandate" lawful in
      let rate = u64_le args.rate_per_second in
      let zeros : List ℕ = replicate 8 0 in
      let end : List ℕ = replicate 5 0 in
      let first =
        write_u64_le-ok disc zeros (zeros ++ end) args.rate_per_second 8 length_disc refl
          fits.rate_per_second in
      let second : write_u64_le (disc ++ (rate ++ (zeros ++ end))) args.authorized_max_rate 16
          ≡ ok ((disc ++ rate) ++ (u64_le args.authorized_max_rate ++ end)) =
        ap (λ t. write_u64_le t args.authorized_max_rate 16) (sym (append_assoc disc rate _))
        ∙ write_u64_le-ok (disc ++ rate) zeros end args.authorized_max_rate 16
            (length-append disc rate
              ∙ omega (arith, length_disc, length-u64_le args.rate_per_second))
            refl fits.authorized_max_rate in
      rw unlimited rw first rw second rw fits.min_settle_interval (
        write_u32_le-short _ interval
          (omega (
            arith,
            length-append {0},
            length_disc,
            length-u64_le args.rate_per_second,
            length-u64_le args.authorized_max_rate,
          ))
          fits.interval_fits)

module _ {Key : Type 0} ⦃platform : Platform Key⦄ (get_account_info : Key → Option (List ℕ)) where
  -- Without a maximum, which is a number that fits or nothing, no instruction is built: whatever the
  -- chain holds and whatever the other numbers that fit are, the interval is written outside the
  -- buffer, which lacks the eight bytes of the maximum.
  pub build_create_stream_mandate-unlimited :
      (args : CreateStreamArgs Key) (interval : ℕ) (mandate_index : ℤ)
      → IsLawful platform
      → Fits args interval
      → args.max_streamed ≡ none
      → fetch_stream_mandate_counter get_account_info args.merchant args.program_id
        ≡ ok mandate_index
      → build_create_stream_mandate get_account_info args ≡ err (write_out_of_range 33 4 29)
  unfolding build_create_stream_mandate
  build_create_stream_mandate-unlimited args interval mandate_index lawful fits unlimited counted =
      rw counted rw (create_stream_contents-unlimited args interval lawful fits unlimited) refl

  keys_of : CreateStreamArgs Key → ℤ → List (AccountMeta Key)
  keys_of args mandate_index =
      meta args.subscriber true true
      ∷ meta (Pda.merchant_state args.merchant args.program_id).0 false true
      ∷ meta (Pda.stream args.subscriber args.merchant mandate_index args.program_id).0 false true
      ∷ meta args.mint false false
      ∷ meta (Pda.token_config args.mint args.program_id).0 false false
      ∷ meta args.subscriber true false
      ∷ meta system_program_id false false
      ∷ []

  -- With a maximum, the instruction is read with the address of the stream that the stored counter
  -- gives, the subscriber as the payer, who must sign and be writable, and the four arguments.
  pub build_create_stream_mandate-IsReadAs :
      (args : CreateStreamArgs Key) (limit : ℤ) (interval : ℕ) (mandate_index : ℤ)
      → IsLawful platform
      → Fits args interval
      → IsU64 limit
      → args.max_streamed ≡ some limit
      → fetch_stream_mandate_counter get_account_info args.merchant args.program_id
        ≡ ok mandate_index
      → IsReadAs
          (build_create_stream_mandate get_account_info args)
          idl_create_stream_mandate
          args.program_id
          (("subscriber", args.subscriber)
            ∷ ("merchant_state", (Pda.merchant_state args.merchant args.program_id).0)
            ∷ (
              "mandate",
              (Pda.stream args.subscriber args.merchant mandate_index args.program_id).0,
            )
            ∷ ("mint", args.mint)
            ∷ ("token_config", (Pda.token_config args.mint args.program_id).0)
            ∷ ("payer", args.subscriber)
            ∷ ("system_program", system_program_id)
            ∷ [])
          (number args.rate_per_second
            ∷ number args.authorized_max_rate
            ∷ optional (some limit)
            ∷ number (pos interval)
            ∷ [])
  unfolding build_create_stream_mandate decode_args keys_of option_u64_le
  build_create_stream_mandate-IsReadAs args limit interval mandate_index lawful fits h limited
        counted =
      let bytes = create_args args.rate_per_second args.authorized_max_rate limit interval in
      let ix : TransactionInstruction Key = record {
        program_id = args.program_id;
        keys = keys_of args mandate_index;
        contents = instruction_discriminator platform "create_stream_mandate" ++ bytes;
      } in
      let same = (lawful.equals_iff args.subscriber args.subscriber).1 refl in
      let keys = keys_of args mandate_index in
      let own = All-GrantsOwn keys lawful in
      let both : signs keys args.subscriber && writes keys args.subscriber ≡ true = rw same refl in
      (
        ix,
        rw counted rw
            (create_stream_contents-ok args limit interval lawful fits.rate_per_second
              fits.authorized_max_rate h fits.interval_fits limited fits.min_settle_interval)
            refl,
        refl,
        interpret_granted idl_create_stream_mandate ix bytes _ lawful refl
            (both, (own.1.0.1 refl, (own.1.1.0.1 refl, (refl, (refl, (both, (refl, tt)))))))
            (decode_args-cons u64 (u64 ∷ option_u64 ∷ u32 ∷ []) _ _ _ _
              (decode_u64-u64_le args.rate_per_second _ fits.rate_per_second)
              (decode_args-cons u64 (option_u64 ∷ u32 ∷ []) _ _ _ _
                (decode_u64-u64_le args.authorized_max_rate _ fits.authorized_max_rate)
                (decode_args-cons option_u64 (u32 ∷ []) _ _ _ _
                  (decode_option_u64-option_u64_le (some limit) _ h)
                  (decode_args-cons u32 [] _ _ _ _
                    (decode_u32-le_bytes interval [] fits.interval_fits) refl)))),
      )
