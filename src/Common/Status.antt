-- ===== src/Common/Status.antt =====
-- `tonic::Status`, the error value of every service: a code and a message.
use bastionlab.Prelude.{String, Outcome, nat_eq, string_eq, list_eq}

pub data Code : Type 0 where
  unknown invalid_argument not_found permission_denied failed_precondition aborted : Code
  out_of_range internal unauthenticated : Code

pub record Status : Type 0 where
  pub code : Code
  pub message : String

abbrev pub status : Code → String → Status
status c m = record { code = c; message = m }

-- `?` in a function that returns `Result<T, Status>`.
abbrev pub Fallible {ℓ} : Type ℓ → Type ℓ
Fallible A = Outcome Status A
