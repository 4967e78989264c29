-- ===== src/Http.antt =====
-- One HTTP request as gin hands it on, and internal/response/response.go. A handler of a chain takes
-- what `c.Next()` runs; a handler that aborts does not call it.
pub mod Auth
pub mod RateLimit
pub mod Middleware
pub mod Answers
pub mod Passing
pub mod Admission
use go_order_lab.Prelude.{ℕ, Bool, true, false, Option, none, some, Text, codes, text_eq}
use go_order_lab.Model.{UserRole}

-- The body is `code`, `message` and, without an error, `data`.
pub record Response (A : Type 0) : Type 0 where
  pub status : ℕ
  pub code : ℕ
  pub message : Text
  pub payload : Option A

-- The parts of the request that the middleware reads, the values behind `c.Set`, and what is written so far.
pub record Context (A : Type 0) : Type 0 where
  pub method : Text
  pub full_path : Text
  pub url_path : Text
  pub authorization : Text
  pub trace_header : Text
  pub user_id : Option ℕ
  pub user_role : Option UserRole
  pub trace_id : Option Text
  pub trace_reply : Option Text
  pub response : Option (Response A)
  pub aborted : Bool

abbrev pub Chain : Type 0 → Type 0 → Type 0
Chain A S = Context A × S → Context A × S

abbrev pub Handler : Type 0 → Type 0 → Type 0
Handler A S = Chain A S → Chain A S

module _ {A : Type 0} where
  -- The status line of a response goes out with its first write.
  abbrev pub write : Response A → Context A → Context A
  write r c = elim c.response [ none ↦ record c { response = some r } | some _ ↦ c ]

  abbrev pub success_of : ℕ → Text → A → Response A
  success_of status message x = record {
    status = status;
    code = 0;
    message = message;
    payload = some x;
  }

  abbrev pub ok_response : A → Response A
  ok_response = success_of 200 (codes "ok")

  abbrev pub created_response : A → Response A
  created_response = success_of 201 (codes "created")

  abbrev pub accepted_response : A → Response A
  accepted_response = success_of 202 (codes "accepted")

  abbrev pub error_response : ℕ → Text → Response A
  error_response status message = record {
    status = status;
    code = status;
    message = message;
    payload = none;
  }

  -- `response.Error` and `c.Abort`
  abbrev pub refuse : ℕ → Text → Context A → Context A
  refuse status message c = record (write (error_response status message) c) { aborted = true }
