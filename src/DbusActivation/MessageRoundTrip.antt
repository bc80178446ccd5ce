-- ===== src/DbusActivation/MessageRoundTrip.antt =====
-- internal/dbusactivation/protocol.go: requests and results are read back as they were written.
use servicectl.Base.{
  ℕ, ◌<◌, ◌≤◌, ◌^◌, Bool, true, false, not, [], ◌∷◌, ◌++◌, append-nil, ◌≡◌, refl, ap, sym, ◌∙◌,
  length, Result, ok, err, ◌>>=◌, if◌then◌else◌, nat_eq, arith, subst, >>=-eq-ok,
}
use servicectl.Base.Text.{Text, take, drop, take-append, drop-append}
use servicectl.DbusActivation.Wire.{
  WireError, bad_frontend, bad_code, put_number, read_number, write_string, read_string, read_sized,
  is_utf8, number_from-put_number,
}
use servicectl.DbusActivation.Messages.{
  ActivateRequest, ActivationResult, encode_activate, decode_activate, encode_activation_result,
  decode_activation_result, valid_frontend, valid_result_code, validate_bus_name, is_bus_name,
  all_read, max_bus_name,
}

read_number-put_number :
    (n : ℕ) (rest : Text) → n < 2 ^ 16 → read_number 2 (put_number 2 n ++ rest) ≡ ok (n, rest)
unfolding read_number put_number take drop
read_number-put_number n rest low = ground (arith, number_from-put_number 2 n low)

write_string-ok :
    (value sized : Text)
    → write_string 2 value ≡ ok sized
    → (is_utf8 value ≡ true)
      × (length value < 2 ^ 16)
      × (put_number 2 (length value) ++ value ≡ sized)
unfolding write_string
write_string-ok value sized h = (ground arith, ground arith, ground arith)

take_all : (s : Text) → take (length s) s ≡ s
take_all s = ap (take (length s)) (sym (append-nil s)) ∙ take-append s []

drop_all : (s : Text) → drop (length s) s ≡ []
drop_all s = ap (drop (length s)) (sym (append-nil s)) ∙ drop-append s []

read_string-all :
    (value : Text) (maximum : ℕ)
    → is_utf8 value ≡ true
    → length value ≤ maximum
    → read_string (length value) maximum value ≡ ok (value, [])
unfolding read_string
read_string-all value maximum good short = rw (take_all value, drop_all value, good) (ground arith)

-- A string is read back, to the end of the payload.
read_sized-write_string :
    (value sized : Text) (maximum : ℕ)
    → length value ≤ maximum
    → write_string 2 value ≡ ok sized
    → read_sized 2 maximum sized ≡ ok (value, [])
unfolding read_sized
read_sized-write_string value sized maximum short h =
    let (good, low, same) = write_string-ok value sized h in
    subst (λ s. read_sized 2 maximum s ≡ ok (value, [])) same
      (ap (λ r. r >>= (λ (size, rest). read_string size maximum rest))
          (read_number-put_number (length value) value low)
        ∙ read_string-all value maximum good short)

length-write_string : (value sized : Text) → write_string 2 value ≡ ok sized → length value < 2 ^ 16
length-write_string value sized h = (write_string-ok value sized h).1

is_bus_name-short : (name : Text) → is_bus_name name ≡ true → length name ≤ max_bus_name
unfolding is_bus_name
is_bus_name-short name h = ground arith

validate_bus_name-ok :
    (name got : Text) → validate_bus_name name ≡ ok got → (name ≡ got) × (is_bus_name name ≡ true)
unfolding validate_bus_name
validate_bus_name-ok name got h = (ground arith, ground arith)

guard_passed :
    {A : Type 0} (b : Bool) (e : WireError) (x : Result WireError A) (a : A)
    → (if not b then err e else x) ≡ ok a
    → (b ≡ true) × (x ≡ ok a)
guard_passed true e x a h = (refl, h)
guard_passed false e x a h = cc

guard_passes :
    {A : Type 0} (b : Bool) (e : WireError) (x : Result WireError A) (a : A)
    → b ≡ true
    → x ≡ ok a
    → (if not b then err e else x) ≡ ok a
guard_passes true e x a h k = k
guard_passes false e x a h k = cc

encode_activate-ok :
    (r : ActivateRequest) (payload : Text)
    → encode_activate r ≡ ok payload
    → (sized : Text) × (valid_frontend r.frontend ≡ true)
      × (validate_bus_name r.bus_name ≡ ok r.bus_name)
      × (length r.bus_name ≤ max_bus_name)
      × (write_string 2 r.bus_name ≡ ok sized)
      × (r.frontend ∷ sized ≡ payload)
unfolding encode_activate
encode_activate-ok r payload h =
    let (known, rest) =
      guard_passed (valid_frontend r.frontend) (bad_frontend r.frontend) _ payload h in
    let (sized, first, last) =
      >>=-eq-ok (validate_bus_name r.bus_name >>= (λ name. write_string 2 name))
        (λ sized. ok (r.frontend ∷ sized)) rest in
    let (name, valid, written) =
      >>=-eq-ok (validate_bus_name r.bus_name) (λ name. write_string 2 name) first in
    let (same, good) = validate_bus_name-ok r.bus_name name valid in
    (
      sized,
      known,
      subst (λ n. validate_bus_name r.bus_name ≡ ok n) (sym same) valid,
      is_bus_name-short r.bus_name good,
      subst (λ n. write_string 2 n ≡ ok sized) (sym same) written,
      cc,
    )

-- A request that EncodeActivate accepts is decoded from its payload as it was.
pub decode_activate-encode_activate :
    (r : ActivateRequest) (payload : Text)
    → encode_activate r ≡ ok payload
    → decode_activate payload ≡ ok r
unfolding decode_activate all_read
decode_activate-encode_activate r payload h =
    let (sized, known, valid, short, written, same) = encode_activate-ok r payload h in
    subst (λ p. decode_activate p ≡ ok r) same
      (guard_passes (valid_frontend r.frontend) (bad_frontend r.frontend) _ r known
        (rw (read_sized-write_string r.bus_name sized max_bus_name short written, valid) refl))

ok_injective : {A : Type 0} {a b : A} → ◌≡◌ {A = Result WireError A} (ok a) (ok b) → a ≡ b
ok_injective h = cc

code_fits : (c : ℕ) → valid_result_code c ≡ true → c < 2 ^ 16
unfolding valid_result_code
code_fits c h = ground arith

-- A result that EncodeActivationResult accepts is decoded from its payload as it was.
pub decode_activation_result-encode_activation_result :
    (r : ActivationResult) (payload : Text)
    → encode_activation_result r ≡ ok payload
    → decode_activation_result payload ≡ ok r
unfolding encode_activation_result decode_activation_result all_read
decode_activation_result-encode_activation_result r payload h =
    let (known, rest) = guard_passed (valid_result_code r.code) (bad_code r.code) _ payload h in
    let (sized, written, same) =
      >>=-eq-ok (write_string 2 r.detail) (λ sized. ok (put_number 2 r.code ++ sized)) rest in
    let low : r.code < 2 ^ 16 = code_fits r.code known in
    let short : length r.detail ≤ 65536 =
      omega (arith, length-write_string r.detail sized written) in
    subst (λ p. decode_activation_result p ≡ ok r) (ok_injective same)
      (rw (read_number-put_number r.code sized low) (
        guard_passes (valid_result_code r.code) (bad_code r.code) _ r known
          (rw (read_sized-write_string r.detail sized 65536 short written) refl)))
