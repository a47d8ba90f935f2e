-- ===== src/Base/Outcome.antt =====
-- errors.go: the error values; what `fmt.Errorf` wraps round one is not modelled. A function
-- that returns `(value, error)` returns a `Result`.
use mathlib.Core.Path.{◌≡◌, refl}

pub data Error : Type 0 where
  err_parse err_short_message err_bad_start_line err_bad_header err_bad_uri err_bad_address : Error
  err_no_via err_no_from err_no_to err_no_call_id err_no_cseq err_no_contact : Error
  err_dialog_not_found err_tx_not_found err_tx_exists err_tx_terminated : Error
  err_transport_closed err_invalid_response err_unsupported err_timeout err_max_forwards : Error

pub data Result {ℓ} (A : Type ℓ) : Type ℓ where
  ok : A → Result A
  err : Error → Result A

infixl 5 ◌>>=◌
abbrev pub ◌>>=◌ {ℓ κ} : {A : Type ℓ} {B : Type κ} → Result A → (A → Result B) → Result B
err failure >>= next = err failure
ok a >>= next = next a

-- A chain that succeeds has a first step that does.
pub bind-eq-ok {ℓ κ} :
    {A : Type ℓ} {B : Type κ} (first : Result A) (next : A → Result B) {last : B}
    → (first >>= next) ≡ ok last
    → (a : A) × ((next a ≡ ok last) × (first ≡ ok a))
bind-eq-ok (err failure) next e = cc
bind-eq-ok (ok a) next e = (a, (e, refl))
