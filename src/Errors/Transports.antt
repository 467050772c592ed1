-- ===== src/Errors/Transports.antt =====
-- The transports report an error as the table of docs/adr/ADR-004-error-model.md says
-- (crates/turul-a2a/src/error.rs).
use turul_a2a.Prelude.{
  ℕ, suc, ℤ, pos, negsuc, String, Option, none, some, List, [], ◌∷◌, ◌≡◌, refl, ◌==◌, if◌then◌else◌,
}
use turul_a2a.Errors.{A2aError, http_status, jsonrpc_code, error_reason, grpc_status}

-- A row of the table: the code is written without its minus sign.
pub record Row : Type 0 where
  pub code : ℕ
  pub http : ℕ
  pub grpc : String
  pub reason : Option String

abbrev row : ℕ → ℕ → String → Option String → Row
row code http grpc reason = record { code = code; http = http; grpc = grpc; reason = reason }

abbrev pub key_mappings : List Row
key_mappings =
    row 32001 404 "NOT_FOUND" (some "TASK_NOT_FOUND")
    ∷ row 32002 400 "FAILED_PRECONDITION" (some "TASK_NOT_CANCELABLE")
    ∷ row 32003 400 "FAILED_PRECONDITION" (some "PUSH_NOTIFICATION_NOT_SUPPORTED")
    ∷ row 32004 400 "FAILED_PRECONDITION" (some "UNSUPPORTED_OPERATION")
    ∷ row 32005 400 "INVALID_ARGUMENT" (some "CONTENT_TYPE_NOT_SUPPORTED")
    ∷ row 32006 500 "INTERNAL" (some "INVALID_AGENT_RESPONSE")
    ∷ row 32007 400 "FAILED_PRECONDITION" (some "EXTENDED_AGENT_CARD_NOT_CONFIGURED")
    ∷ row 32008 400 "FAILED_PRECONDITION" (some "EXTENSION_SUPPORT_REQUIRED")
    ∷ row 32009 400 "FAILED_PRECONDITION" (some "VERSION_NOT_SUPPORTED")
    ∷ row 32602 400 "INVALID_ARGUMENT" none
    ∷ row 32603 500 "INTERNAL" none
    ∷ []

unfoldable pub row_at : ℕ → List Row → Option Row
row_at code [] = none
row_at code (r ∷ rows) = if r.code == code then some r else row_at code rows

-- The row of a JSON-RPC code
unfoldable pub documented : ℤ → Option Row
unfolding row_at
documented (pos _) = none
documented (negsuc n) = row_at (suc n) key_mappings

-- What the four functions report, as a row
abbrev pub reported : ℕ → A2aError → Row
reported code e = record {
  code = code;
  http = http_status e;
  grpc = grpc_status e;
  reason = error_reason e;
}

-- Every error has a negative JSON-RPC code that stands in the documented table, and in the row of
-- that code stand its HTTP status, its gRPC status and its reason.
pub jsonrpc_code-documented :
    (e : A2aError)
    → (n : ℕ) × (jsonrpc_code e ≡ negsuc n)
      × (documented (jsonrpc_code e) ≡ some (reported (suc n) e))
unfolding jsonrpc_code documented http_status grpc_status error_reason
jsonrpc_code-documented (A2aError.task_not_found _) = (_, refl, refl)
jsonrpc_code-documented (A2aError.task_not_cancelable _) = (_, refl, refl)
jsonrpc_code-documented A2aError.push_notification_not_supported = (_, refl, refl)
jsonrpc_code-documented (A2aError.unsupported_operation _) = (_, refl, refl)
jsonrpc_code-documented (A2aError.content_type_not_supported _) = (_, refl, refl)
jsonrpc_code-documented (A2aError.invalid_agent_response _) = (_, refl, refl)
jsonrpc_code-documented A2aError.extended_agent_card_not_configured = (_, refl, refl)
jsonrpc_code-documented (A2aError.extension_support_required _) = (_, refl, refl)
jsonrpc_code-documented (A2aError.version_not_supported _) = (_, refl, refl)
jsonrpc_code-documented (A2aError.invalid_request _) = (_, refl, refl)
jsonrpc_code-documented (A2aError.internal _) = (_, refl, refl)
