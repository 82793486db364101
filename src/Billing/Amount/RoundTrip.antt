-- ===== src/Billing/Amount/RoundTrip.antt =====
-- A formatted amount is parsed as the amount that it shows.
use vela_sdk.Prelude.{
  ℕ, zero, suc, ◌+◌, ◌*◌, ◌-◌, ◌≤◌, ◌<◌, ◌≡◌, refl, sym, ap, ◌∙◌, true, false, ◌&&◌, Option, none,
  some, [], ◌∷◌, ◌++◌, pos, ◌==◌, if◌then◌else◌, length, take, drop, replicate, all, arith,
  Bool-cases, inl, inr, length-append, append-nil, length-replicate, length-take, length-drop,
  not-ltb_of_le, subst,
}
use vela_sdk.Prelude.Int.{ltb_ℤ}
use vela_sdk.Prelude.Result.{ok}
use vela_sdk.X402.Proof.{Text, is_digit, is_digits, read_digits, decimal}
use vela_sdk.X402.Proof.Decimal.{read_digits-decimal, is_digits-decimal}
use vela_sdk.Billing.Amount.{
  split_point, is_amount, fraction_of, pad_end, pad_start, parse_amount, is_empty_text, strip_zeros,
  format_absolute, format_amount,
}

abbrev IsDigits : Text → Type 0
IsDigits text = all is_digit text ≡ true

read_digits-append : (n : ℕ) (a b : Text) → read_digits n (a ++ b) ≡ read_digits (read_digits n a) b
unfolding read_digits
read_digits-append n [] b = refl
read_digits-append n (c ∷ a) b = read_digits-append (n * 10 + (c - b'0')) a b

read_digits-pad_start :
    (k : ℕ) (text : Text) → read_digits 0 (replicate k b'0' ++ text) ≡ read_digits 0 text
unfolding read_digits
read_digits-pad_start zero text = refl
read_digits-pad_start (suc k) text = read_digits-pad_start k text

all-append : (a b : Text) → IsDigits a → IsDigits b → IsDigits (a ++ b)
all-append [] b h k = k
all-append (c ∷ a) b h k = let rest = all-append a b (ground arith) k in ground arith

all-append_left : (a b : Text) → IsDigits (a ++ b) → IsDigits a
all-append_left [] b h = refl
all-append_left (c ∷ a) b h = let rest = all-append_left a b (ground arith) in ground arith

all-append_right : (a b : Text) → IsDigits (a ++ b) → IsDigits b
all-append_right [] b h = h
all-append_right (c ∷ a) b h = all-append_right a b (ground arith)

all-replicate : (k : ℕ) → IsDigits (replicate k b'0')
all-replicate zero = refl
all-replicate (suc k) = let rest = all-replicate k in ground arith

take-append-drop : (n : ℕ) (text : Text) → take n text ++ drop n text ≡ text
take-append-drop zero text = refl
take-append-drop (suc n) [] = refl
take-append-drop (suc n) (c ∷ text) = ap (λ t. c ∷ t) (take-append-drop n text)

pad_end-nil : pad_end [] 0 ≡ []
unfolding pad_end
pad_end-nil = refl

zeros_of : (n : ℕ) (text : Text) → pad_end [] n ≡ text → pad_end [] (suc n) ≡ b'0' ∷ text
unfolding pad_end
zeros_of n text h =
    let e : suc n - 0 ≡ suc n = omega arith in
    let e' : n - 0 ≡ n = omega arith in
    let h' : replicate n b'0' ≡ text = rw e' at h in rw e (ap (λ t. b'0' ∷ t) h')

cons_of :
    (c n : ℕ) (rest text : Text) → pad_end rest n ≡ text → pad_end (c ∷ rest) (suc n) ≡ c ∷ text
unfolding pad_end
cons_of c n rest text h =
    let e : suc n - suc (length rest) ≡ n - length rest = omega arith in rw e (ap (λ t. c ∷ t) h)

strip_step :
    (c : ℕ) (rest text : Text)
    → pad_end rest (length text) ≡ text
    → pad_end (if is_empty_text rest && c == b'0' then [] else c ∷ rest) (suc (length text))
      ≡ c ∷ text
strip_step c [] text h = elim (Bool-cases (c == b'0')) [
  | inl same ↦ rw same (zeros_of (length text) text h ∙ ap (λ d. d ∷ text) (ground arith))
  | inr other ↦ rw other (cons_of c (length text) [] text h)
]
strip_step c (d ∷ rest) text h = cons_of c (length text) (d ∷ rest) text h

-- The zeros that were stripped come back with the padding.
pad_end-strip_zeros : (text : Text) → pad_end (strip_zeros text) (length text) ≡ text
unfolding strip_zeros
pad_end-strip_zeros [] = pad_end-nil
pad_end-strip_zeros (c ∷ text) = strip_step c (strip_zeros text) text (pad_end-strip_zeros text)

length-strip_zeros : (text : Text) → length (strip_zeros text) ≤ length text
unfolding strip_zeros
length-strip_zeros [] = omega arith
length-strip_zeros (c ∷ text) = let rest = length-strip_zeros text in ground arith

all-strip_zeros : (text : Text) → IsDigits text → IsDigits (strip_zeros text)
unfolding strip_zeros
all-strip_zeros [] h = refl
all-strip_zeros (c ∷ text) h = let rest = all-strip_zeros text (ground arith) in ground arith

-- Digits hold no point.
split_point-digits : (text : Text) → IsDigits text → split_point text ≡ (text, none)
unfolding split_point
split_point-digits [] h = refl
split_point-digits (c ∷ text) h = let rest = split_point-digits text (ground arith) in ground arith

split_point-point :
    (whole fraction : Text)
    → IsDigits whole
    → split_point (whole ++ b'.' ∷ fraction) ≡ (whole, some fraction)
unfolding split_point
split_point-point [] fraction h = refl
split_point-point (c ∷ whole) fraction h =
    let rest = split_point-point whole fraction (ground arith) in ground arith

parse_parts :
    (text whole : Text) (f : Option Text) (decimals : ℕ) (fraction : Text)
    → split_point text ≡ (whole, f)
    → is_amount whole f ≡ true
    → length (fraction_of f) ≤ decimals
    → pad_end (fraction_of f) decimals ≡ fraction
    → parse_amount text decimals ≡ ok (pos (read_digits 0 (whole ++ fraction)))
unfolding parse_amount
parse_parts text whole f decimals fraction parts good short padded =
    rw parts (rw good (rw (not-ltb_of_le decimals (length (fraction_of f)) short) (rw padded refl)))

all_of_is_digits : (text : Text) → is_digits text ≡ true → IsDigits text
unfolding is_digits
all_of_is_digits [] h = refl
all_of_is_digits (c ∷ text) h = h

-- What the parser makes of digits, with a point and more digits if there are any.
parse_shown :
    (whole stripped fraction : Text) (decimals : ℕ)
    → is_digits whole ≡ true
    → IsDigits stripped
    → length stripped ≤ decimals
    → pad_end stripped decimals ≡ fraction
    → parse_amount (if is_empty_text stripped then whole else whole ++ b'.' ∷ stripped) decimals
      ≡ ok (pos (read_digits 0 (whole ++ fraction)))
unfolding is_digits is_amount
parse_shown whole [] fraction decimals h k short padded =
    parse_parts whole whole none decimals fraction
      (split_point-digits whole (all_of_is_digits whole h)) h short padded
parse_shown whole (c ∷ stripped) fraction decimals h k short padded =
    parse_parts (whole ++ b'.' ∷ c ∷ stripped) whole (some (c ∷ stripped)) decimals fraction
      (split_point-point whole (c ∷ stripped) (all_of_is_digits whole h)) (ground arith) short
      padded

is_digits_of_all : (text : Text) → 0 < length text → IsDigits text → is_digits text ≡ true
unfolding is_digits
is_digits_of_all [] h k = absurd (omega arith)
is_digits_of_all (c ∷ text) h k = k

-- The padded digits: digits all, more than `decimals` of them, with the amount's value.
IsDigits-pad_start : (n width : ℕ) → IsDigits (pad_start (decimal n) width)
unfolding pad_start
IsDigits-pad_start n width =
    all-append (replicate (width - length (decimal n)) b'0') (decimal n)
      (all-replicate (width - length (decimal n)))
      (all_of_is_digits (decimal n) (is_digits-decimal n))

length-pad_start : (text : Text) (width : ℕ) → width ≤ length (pad_start text width)
unfolding pad_start
length-pad_start text width = omega (
  arith,
  length-append (replicate (width - length text) b'0') text,
  length-replicate {A = ℕ} (width - length text) b'0',
)

value-pad_start : (n width : ℕ) → read_digits 0 (pad_start (decimal n) width) ≡ n
unfolding pad_start
value-pad_start n width =
    read_digits-pad_start (width - length (decimal n)) (decimal n) ∙ read_digits-decimal n

parse-format_absolute :
    (n decimals : ℕ) → parse_amount (format_absolute n decimals) decimals ≡ ok (pos n)
unfolding format_absolute
parse-format_absolute n zero =
    let padded = pad_start (decimal n) 1 in
    parse_shown padded [] [] 0
      (is_digits_of_all padded (omega (arith, length-pad_start (decimal n) 1))
        (IsDigits-pad_start n 1))
      refl (omega arith) pad_end-nil
    ∙ ap (λ t. ok (pos (read_digits 0 t))) (append-nil padded)
    ∙ ap (λ m. ok (pos m)) (value-pad_start n 1)
parse-format_absolute n (suc d) =
    let decimals = suc d in
    let padded = pad_start (decimal n) (decimals + 1) in
    let at = length padded - decimals in
    let whole = take at padded in
    let fraction = drop at padded in
    let long = length-pad_start (decimal n) (decimals + 1) in
    let parts = take-append-drop at padded in
    let digits : IsDigits (whole ++ fraction) =
      subst IsDigits (sym parts) (IsDigits-pad_start n (decimals + 1)) in
    let size : length fraction ≡ decimals = omega (arith, length-drop at padded, long) in
    let some_decimals : (suc d == 0) ≡ false = ground arith in
    rw (some_decimals, format_absolute)
      (parse_shown whole (strip_zeros fraction) fraction decimals
          (is_digits_of_all whole (omega (arith, length-take at padded, long))
            (all-append_left whole fraction digits))
          (all-strip_zeros fraction (all-append_right whole fraction digits))
          (omega (arith, length-strip_zeros fraction, size))
          (subst (λ k. pad_end (strip_zeros fraction) k ≡ fraction) size
            (pad_end-strip_zeros fraction))
        ∙ ap (λ t. ok (pos (read_digits 0 t))) parts
        ∙ ap (λ m. ok (pos m)) (value-pad_start n (decimals + 1)))

-- For every number of decimals, the text that shows an amount is parsed as that amount.
pub parse_amount-format_amount :
    (n decimals : ℕ) → parse_amount (format_amount (pos n) decimals) decimals ≡ ok (pos n)
unfolding format_amount
parse_amount-format_amount n decimals =
    let positive : ltb_ℤ (pos n) (pos 0) ≡ false = ground arith in
    rw (positive, format_amount) (parse-format_absolute n decimals)
