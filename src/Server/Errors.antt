-- ===== src/Server/Errors.antt =====
-- `ApiError` of src/server.rs: what a failing handler answers, and how it becomes a response.
use mr_boxington_cache.Prelude.{
  ℕ, zero, suc, ◌+◌, ◌/◌, ◌%◌, Bool, true, false, [], ◌∷◌, nat_beq, if◌then◌else◌, Option, none,
  some,
}
use mr_boxington_cache.Prelude.Bytes.{Text, text}

pub record ApiError : Type 0 where
  pub status : ℕ
  pub message : Text
  pub advertise_protocol : Bool

-- A failure of a store or of the local disk: an exhausted connection pool, or any other fault.
pub data Fault : Type 0 where
  pool_timed_out : Fault
  fault : Text → Fault

unfoldable pub new : ℕ → Text → ApiError
new status message = record { status = status; message = message; advertise_protocol = false }

unfoldable pub bad_request : Text → ApiError
unfolding new
bad_request m = new 400 m

unfoldable pub unauthorized : Text → ApiError
unfolding new
unauthorized m = new 401 m

unfoldable pub forbidden : Text → ApiError
unfolding new
forbidden m = new 403 m

unfoldable pub not_found : Text → ApiError
unfolding new
not_found m = new 404 m

unfoldable pub conflict : Text → ApiError
unfolding new
conflict m = new 409 m

unfoldable pub precondition : Text → ApiError
unfolding new
precondition m = new 412 m

unfoldable pub too_large : Text → ApiError
unfolding new
too_large m = new 413 m

unfoldable pub unprocessable : Text → ApiError
unfolding new
unprocessable m = new 422 m

unfoldable pub precondition_required : Text → ApiError
unfolding new
precondition_required m = new 428 m

unfoldable pub unavailable : Text → ApiError
unfolding new
unavailable m = new 503 m

unfoldable pub upgrade_required : ApiError
upgrade_required = record {
  status = 426;
  message = text "mbx cache protocol version 1 is required";
  advertise_protocol = true;
}

-- A full connection pool clears on its own; anything else is a fault, and is not described.
unfoldable pub internal : Fault → ApiError
unfolding new
internal pool_timed_out = new 503 (text "database busy, retry later")
internal (fault m) = new 500 (text "internal server error")

-- What `into_response` sends: the status, the error as the body, and two headers.
pub record ErrorResponse : Type 0 where
  pub status : ℕ
  pub error : Text
  pub protocol : Option Text
  pub retry_after : Option Text

unfoldable pub into_response : ApiError → ErrorResponse
into_response e = record {
  status = e.status;
  error = e.message;
  protocol = if e.advertise_protocol then some (text "1") else none;
  retry_after = if nat_beq e.status 503 then some (text "1") else none;
}

-- A number in decimal, of at most `fuel` digits.
unfoldable pub decimal_digits : ℕ → ℕ → Text → Text
decimal_digits zero n acc = acc
decimal_digits (suc fuel) n acc =
    let acc' = (b'0' + n % 10) ∷ acc in
    let more = decimal_digits fuel (n / 10) acc' in if nat_beq (n / 10) 0 then acc' else more

-- `to_string` of a `u64`, which has 20 digits at most.
unfoldable pub decimal : ℕ → Text
unfolding decimal_digits
decimal n = decimal_digits 20 n []
