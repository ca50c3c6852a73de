-- ===== src/Routes/Errors.antt =====
-- The exceptions that each service may raise, and those that may leave a handler.
pub mod Bodies
pub mod Services
pub mod Handlers
pub mod Routing
use multi_tenant_saas_api.Base.{Bool, true, false}
use multi_tenant_saas_api.Exec.{
  Error, integrity_error, operational_error, runtime_error, validation_error, http_exception,
  organisation_not_found, tenant_access_denied, permission_denied, project_not_found,
  api_key_not_found, organisation_slug_already_exists, target_user_not_found,
  membership_already_exists, membership_not_found, last_owner_protection, idempotency_conflict,
}

-- A failure of the database or of the validation of a response, or a broken assumption.
abbrev pub is_internal : Error → Bool
is_internal integrity_error = true
is_internal operational_error = true
is_internal runtime_error = true
is_internal validation_error = true
is_internal e = false

-- What may leave a handler.
abbrev pub is_answered : Error → Bool
is_answered (http_exception h) = true
is_answered e = is_internal e

abbrev pub of_tenant : Error → Bool
of_tenant organisation_not_found = true
of_tenant tenant_access_denied = true
of_tenant permission_denied = true
of_tenant e = is_internal e

abbrev pub of_project : Error → Bool
of_project project_not_found = true
of_project e = of_tenant e

abbrev pub of_key : Error → Bool
of_key api_key_not_found = true
of_key e = of_tenant e

abbrev pub of_slug : Error → Bool
of_slug organisation_slug_already_exists = true
of_slug e = is_internal e

abbrev pub of_organisation : Error → Bool
of_organisation organisation_slug_already_exists = true
of_organisation e = of_tenant e

abbrev pub of_members : Error → Bool
of_members target_user_not_found = true
of_members e = of_tenant e

abbrev pub of_new_member : Error → Bool
of_new_member membership_already_exists = true
of_new_member e = of_members e

abbrev pub of_removal : Error → Bool
of_removal last_owner_protection = true
of_removal membership_not_found = true
of_removal e = of_tenant e

abbrev pub of_role : Error → Bool
of_role target_user_not_found = true
of_role e = of_removal e

abbrev pub of_lookup : Error → Bool
of_lookup idempotency_conflict = true
of_lookup e = is_internal e

abbrev pub of_checked_lookup : Error → Bool
of_checked_lookup idempotency_conflict = true
of_checked_lookup e = of_tenant e
