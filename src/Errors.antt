-- ===== src/Errors.antt =====
-- src/error.rs: the crate's error type, its HTTP status and its message. A function that may fail
-- returns `Result`; one that also changes state is an action of `Exec`, in the module of that name.
use lazyd.Base.{ℕ, Text, Option, none, some, Bool, true, false}

-- `std::io::Error`, as far as the crate looks at it: the code of the system and the display.
pub record IoError : Type 0 where
  pub raw_os_error : Option ℕ
  pub display : Text

-- `serde_json::Error` and `reqwest::Error` are only displayed, so they stand as their display.
pub data Error : Type 0 where
  bad_request : Text → Error
  conflict : Text → Error
  not_found : Text → Error
  io : IoError → Error
  json : Text → Error
  http : Text → Error
  remote : Text → Error
  fanotify : Text → Error

pub data Result {ℓ} (Value : Type ℓ) : Type ℓ where
  ok : (value : Value) → Result Value
  err : (problem : Error) → Result Value

-- The `?` of the source, where no state is at hand
abbrev pub and_then {ℓ κ} : {V : Type ℓ} {W : Type κ} → Result V → (V → Result W) → Result W
and_then (err problem) next = err problem
and_then (ok value) next = next value

infixl 5 ◌>>=◌ ◌>>◌
abbrev pub ◌>>=◌ {ℓ κ} : {V : Type ℓ} {W : Type κ} → Result V → (V → Result W) → Result W
outcome >>= next = and_then outcome next

abbrev pub ◌>>◌ {ℓ} : {W : Type ℓ} → Result (Unit {0}) → Result W → Result W
test >> next = and_then test (λ _. next)

-- `if test { return Err(e) }`
abbrev pub reject_if : Bool → Error → Result (Unit {0})
reject_if true e = err e
reject_if false e = ok tt

-- `Option::ok_or_else`
abbrev pub ok_or {ℓ} : {A : Type ℓ} → Option A → Error → Result A
ok_or none e = err e
ok_or (some a) e = ok a

-- `Error::status_code`
unfoldable pub status_code : Error → ℕ
status_code (bad_request _) = 400
status_code (not_found _) = 404
status_code (conflict _) = 409
status_code _ = 500

-- `Error::message`, which `Display` writes
unfoldable pub message : Error → Text
message (bad_request msg) = msg
message (conflict msg) = msg
message (not_found msg) = msg
message (remote msg) = msg
message (fanotify msg) = msg
message (io e) = e.display
message (json display) = display
message (http display) = display
