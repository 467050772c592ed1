-- ===== src/Errors.antt =====
-- `A2aError` and how each transport reports it (crates/turul-a2a/src/error.rs), with the codes and
-- names of crates/turul-a2a-types/src/wire.rs.
pub mod Transports
use turul_a2a.Prelude.{ℕ, ℤ, negsuc, String, Option, none, some}
use turul_a2a.Storage.State.{StorageError}

pub data A2aError : Type 0 where
  task_not_found : String → A2aError
  task_not_cancelable : String → A2aError
  push_notification_not_supported : A2aError
  unsupported_operation : String → A2aError
  content_type_not_supported : String → A2aError
  invalid_agent_response : String → A2aError
  extended_agent_card_not_configured : A2aError
  extension_support_required : String → A2aError
  version_not_supported : String → A2aError
  invalid_request : String → A2aError
  internal : String → A2aError

-- `A2aError::http_status`
unfoldable pub http_status : A2aError → ℕ
http_status (A2aError.task_not_found _) = 404
http_status (A2aError.task_not_cancelable _) = 400
http_status A2aError.push_notification_not_supported = 400
http_status (A2aError.unsupported_operation _) = 400
http_status (A2aError.content_type_not_supported _) = 400
http_status (A2aError.invalid_agent_response _) = 500
http_status A2aError.extended_agent_card_not_configured = 400
http_status (A2aError.extension_support_required _) = 400
http_status (A2aError.version_not_supported _) = 400
http_status (A2aError.invalid_request _) = 400
http_status (A2aError.internal _) = 500

-- `A2aError::jsonrpc_code`; `negsuc n` is -(n + 1).
unfoldable pub jsonrpc_code : A2aError → ℤ
jsonrpc_code (A2aError.task_not_found _) = negsuc 32000
jsonrpc_code (A2aError.task_not_cancelable _) = negsuc 32001
jsonrpc_code A2aError.push_notification_not_supported = negsuc 32002
jsonrpc_code (A2aError.unsupported_operation _) = negsuc 32003
jsonrpc_code (A2aError.content_type_not_supported _) = negsuc 32004
jsonrpc_code (A2aError.invalid_agent_response _) = negsuc 32005
jsonrpc_code A2aError.extended_agent_card_not_configured = negsuc 32006
jsonrpc_code (A2aError.extension_support_required _) = negsuc 32007
jsonrpc_code (A2aError.version_not_supported _) = negsuc 32008
jsonrpc_code (A2aError.invalid_request _) = negsuc 32601
jsonrpc_code (A2aError.internal _) = negsuc 32602

-- `A2aError::error_reason`
unfoldable pub error_reason : A2aError → Option String
error_reason (A2aError.task_not_found _) = some "TASK_NOT_FOUND"
error_reason (A2aError.task_not_cancelable _) = some "TASK_NOT_CANCELABLE"
error_reason A2aError.push_notification_not_supported = some "PUSH_NOTIFICATION_NOT_SUPPORTED"
error_reason (A2aError.unsupported_operation _) = some "UNSUPPORTED_OPERATION"
error_reason (A2aError.content_type_not_supported _) = some "CONTENT_TYPE_NOT_SUPPORTED"
error_reason (A2aError.invalid_agent_response _) = some "INVALID_AGENT_RESPONSE"
error_reason A2aError.extended_agent_card_not_configured = some "EXTENDED_AGENT_CARD_NOT_CONFIGURED"
error_reason (A2aError.extension_support_required _) = some "EXTENSION_SUPPORT_REQUIRED"
error_reason (A2aError.version_not_supported _) = some "VERSION_NOT_SUPPORTED"
error_reason _ = none

-- `A2aError::grpc_status`
unfoldable pub grpc_status : A2aError → String
grpc_status (A2aError.task_not_found _) = "NOT_FOUND"
grpc_status (A2aError.task_not_cancelable _) = "FAILED_PRECONDITION"
grpc_status A2aError.push_notification_not_supported = "FAILED_PRECONDITION"
grpc_status (A2aError.unsupported_operation _) = "FAILED_PRECONDITION"
grpc_status (A2aError.content_type_not_supported _) = "INVALID_ARGUMENT"
grpc_status (A2aError.invalid_agent_response _) = "INTERNAL"
grpc_status A2aError.extended_agent_card_not_configured = "FAILED_PRECONDITION"
grpc_status (A2aError.extension_support_required _) = "FAILED_PRECONDITION"
grpc_status (A2aError.version_not_supported _) = "FAILED_PRECONDITION"
grpc_status (A2aError.invalid_request _) = "INVALID_ARGUMENT"
grpc_status (A2aError.internal _) = "INTERNAL"

-- `From<A2aStorageError> for A2aError`; `display` is the derived text of a storage error.
unfoldable pub of_storage : (StorageError → String) → StorageError → A2aError
of_storage display (StorageError.task_not_found id) = A2aError.task_not_found id
of_storage display (StorageError.terminal_state id _) = A2aError.task_not_cancelable id
of_storage display (StorageError.terminal_state_already_set id _) = A2aError.task_not_cancelable id
of_storage display (StorageError.invalid_transition id _ _) = A2aError.task_not_cancelable id
of_storage display (StorageError.invalid_list_request message) = A2aError.invalid_request message
of_storage display other = A2aError.internal (display other)
