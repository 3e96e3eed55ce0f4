-- ===== src/Availability/Codes.antt =====
-- `FAILURE_CLASS_BY_CODE` of src/availability.ts, by class.
use herdr_tools.Base.{String, List, [], ◌∷◌, ◌++◌, map}
use herdr_tools.Base.Dict.{Dict}

-- `LAUNCH_FAILURE_CLASSES`.
pub data FailureClass : Type 0 where
  quota auth unsupported_config permission_prompt transport task_failure : FailureClass

abbrev all_of : FailureClass → List String → Dict FailureClass
all_of c codes = map (λ code. (code, c)) codes

abbrev quota_codes : List String
quota_codes =
    "quota_exceeded" ∷ "quota_exhausted" ∷ "insufficient_quota" ∷ "account_quota_exceeded"
    ∷ "billing_exhausted" ∷ "credits_exhausted" ∷ "rate_limit" ∷ "rate_limited"
    ∷ "rate_limit_exceeded" ∷ "too_many_requests" ∷ "resource_exhausted" ∷ "overloaded"
    ∷ "capacity_exceeded" ∷ "capacity_exhausted" ∷ []

abbrev auth_codes : List String
auth_codes =
    "unauthorized" ∷ "unauthenticated" ∷ "forbidden" ∷ "denied" ∷ "auth_failed"
    ∷ "authentication_failed" ∷ "authentication_required" ∷ "invalid_credentials"
    ∷ "invalid_api_key" ∷ "credentials_expired" ∷ "token_expired" ∷ "login_required"
    ∷ "permission_denied" ∷ "access_denied" ∷ "account_disabled" ∷ []

abbrev unsupported_config_codes : List String
unsupported_config_codes =
    "unsupported_config" ∷ "invalid_config" ∷ "config_not_supported" ∷ "unsupported_model"
    ∷ "model_not_found" ∷ "unknown_model" ∷ "unsupported_capability" ∷ "capability_unsupported"
    ∷ "unsupported_operation" ∷ "HANDOFF_TARGET_UNVERIFIED" ∷ "INVALID_PROFILE"
    ∷ "INVALID_PROFILE_OVERRIDE" ∷ "INVALID_CATALOG" ∷ "CHAIN_UNRESOLVABLE"
    ∷ "PROFILE_RESOLUTION_INVALID" ∷ "PROFILE_SKILL_PATH_ESCAPES_SCOPE"
    ∷ "PROFILE_SKILL_TREE_UNSAFE" ∷ "PROFILE_SKILL_SOURCE_NOT_APPROVED"
    ∷ "PROFILE_SKILL_BUNDLE_STALE" ∷ "PROFILE_SKILL_BUNDLE_REGISTRY_INVALID" ∷ []

abbrev permission_prompt_codes : List String
permission_prompt_codes =
    "permission_prompt" ∷ "permission_required" ∷ "interactive_permission_required"
    ∷ "approval_required" ∷ "approval_needed" ∷ "consent_required" ∷ "user_consent_required" ∷ []

abbrev transport_codes : List String
transport_codes =
    "CLI_NOT_FOUND" ∷ "CLI_INCOMPATIBLE" ∷ "CLI_PROTOCOL_ERROR" ∷ "CLI_TIMEOUT"
    ∷ "CLI_OUTPUT_OVERFLOW" ∷ "BACKEND_UNAVAILABLE" ∷ "READ_FAILED" ∷ "READ_MALFORMED"
    ∷ "READ_TIMEOUT" ∷ "POSTSTATE_UNAVAILABLE" ∷ "POSTSTATE_IDENTITY_UNAVAILABLE"
    ∷ "TARGET_IDENTITY_UNAVAILABLE" ∷ "PROMPT_DISPATCH_UNKNOWN" ∷ "PROFILE_CATALOG_UNAVAILABLE"
    ∷ "PROFILE_LAUNCH_FROZEN" ∷ "ROUTER_LOG_UNAVAILABLE" ∷ "REVIEW_LOG_UNAVAILABLE"
    ∷ "AVAILABILITY_LOG_UNAVAILABLE" ∷ "SUPERVISION_UNAVAILABLE" ∷ "SUPERVISION_SOCKET_UNAVAILABLE"
    ∷ "SUPERVISION_SOCKET_CLOSED" ∷ "SUPERVISION_REQUEST_TIMEOUT" ∷ "PANE_WRITE_LOCK_UNAVAILABLE"
    ∷ "PROJECT_SCOPE_DISCOVERY_ERROR" ∷ "agent_start_transport_failed" ∷ "transport_failed"
    ∷ "connection_failed" ∷ "connect_failed" ∷ "connection_refused" ∷ "network_error"
    ∷ "network_unreachable" ∷ "timeout" ∷ "timed_out" ∷ "unavailable" ∷ "deadline_exceeded" ∷ []

abbrev task_failure_codes : List String
task_failure_codes =
    "ABORTED" ∷ "INVALID_INPUT" ∷ "LAUNCH_FAILED" ∷ "READY_TIMEOUT" ∷ "PROMPT_UNCONFIRMED"
    ∷ "SUPERVISION_UNCONFIRMED" ∷ "POSTSTATE_IDENTITY_CHANGED" ∷ "POSTSTATE_CONTRADICTORY"
    ∷ "TARGET_IDENTITY_CHANGED" ∷ "TARGET_BLOCKED" ∷ "AGENT_NAME_TAKEN" ∷ "ADOPT_TARGET_UNQUALIFIED"
    ∷ "PAYLOAD_TOO_LARGE" ∷ "PAYLOAD_TOO_LARGE_FOR_INLINE" ∷ "BATCH_NAME_COLLISION"
    ∷ "BATCH_CHILD_NAME_INVALID" ∷ "BATCH_PLACEMENT_INVALID" ∷ "BATCH_ROUTE_EMPTY"
    ∷ "agent_start_failed" ∷ "agent_pane_busy" ∷ "agent_name_taken" ∷ "agent_not_found"
    ∷ "agent_blocked" ∷ "agent_prompt_stalled" ∷ "tab_create_failed" ∷ []

unfoldable pub failure_class_by_code : Dict FailureClass
failure_class_by_code =
    all_of quota quota_codes
    ++ all_of auth auth_codes
    ++ all_of unsupported_config unsupported_config_codes
    ++ all_of permission_prompt permission_prompt_codes
    ++ all_of transport transport_codes
    ++ all_of task_failure task_failure_codes
