-- ===== src/Errors.antt =====
-- The exceptions of psyexp_net/errors.py and those of Python that the modelled code raises or lets
-- through, and the results of code that may raise. Only the text of a VersionMismatchError is kept,
-- since the program sends it on.
pub mod Loops
use psyexp_net.Prelude.{String, ◌⊎◌, inl, inr, Bool, true, false, Option, none, some, ◌≡◌, refl}
use psyexp_net.Enums.{ErrorCode}

pub data Error : Type 0 where
  configuration protocol duplicate_client : Error
  -- with its text
  version_mismatch : String → Error
  ack_timeout queue_overflow authentication : Error
  key_error type_error value_error attribute_error index_error : Error
  timeout runtime : Error
  -- of pyzmq, OSError, and of zeroconf
  zmq_error os_error service_error : Error

-- The class attribute `code`, which some of the exceptions have.
pub code : Error → Option ErrorCode
code duplicate_client = some ErrorCode.duplicate_client_id
code ack_timeout = some ErrorCode.ack_timeout
code queue_overflow = some ErrorCode.queue_overflow
code authentication = some ErrorCode.auth_failed
code _ = none

-- isinstance(e, ProtocolError)
pub is_protocol_error : Error → Bool
is_protocol_error protocol = true
is_protocol_error (version_mismatch _) = true
is_protocol_error _ = false

pub data Result {ℓ} (A : Type ℓ) : Type ℓ where
  ok : A → Result A
  err : Error → Result A

infixl 5 ◌>>=◌
abbrev pub ◌>>=◌ {ℓ κ} : {A : Type ℓ} {B : Type κ} → Result A → (A → Result B) → Result B
ok a >>= f = f a
err e >>= f = err e

-- The value that must be there, or the exception.
abbrev pub need {ℓ} : {A : Type ℓ} → Error → Option A → Result A
need e none = err e
need e (some a) = ok a

pub Result-cases {ℓ} :
    {A : Type ℓ} (r : Result A) → ((a : A) × (r ≡ ok a)) ⊎ ((e : Error) × (r ≡ err e))
Result-cases (ok a) = inl (a, refl)
Result-cases (err e) = inr (e, refl)
