-- ===== src/App.antt =====
-- src/app.rs: the HTTP interface. The text of an error's message is not modelled.
pub mod Auth
pub mod Execute
pub mod Handlers
pub mod Router
pub mod Http
use command_api.Prelude.{ℕ, String, Bool, false}

-- The status and the code of an `ApiError` (src/model.rs).
pub record ApiError : Type 0 where
  pub status : ℕ
  pub code : String

-- `ApiErrorDetail` and `ApiErrorBody`
pub record ApiErrorDetail : Type 0 where
  pub code : String

pub record ApiErrorBody : Type 0 where
  pub success : Bool
  pub error : ApiErrorDetail

-- The status and the body of the answer.
unfoldable pub into_response : ApiError → ℕ × ApiErrorBody
into_response e = (e.status, record { success = false; error = record { code = e.code } })
