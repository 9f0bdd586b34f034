-- ===== src/Errors.antt =====
-- The exceptions that the services raise, one constructor for each message, and results.
use first_brief.Prelude.{◌≡◌, ◌⊎◌, inl, inr, refl}

pub data Error : Type 0 where
  -- PermissionDenied
  no_capability not_assigned_approver audience_outside_site no_message_access : Error
  different_approver_required : Error
  -- DoesNotExist, IntegrityError, MultipleObjectsReturned
  does_not_exist integrity_error several_objects : Error
  -- StaleMessageError
  stale_message : Error
  -- ValidationError of the lifecycle commands
  key_used_for_other_command wrong_status justification_required not_draft pdfs_missing : Error
  subtype_missing validity_not_justified not_due_for_release not_due_to_be_effective : Error
  not_due_to_expire automatic_archive_disabled reason_required already_effective : Error
  past_release_time expiry_required expiry_not_in_future supersession_exists : Error
  title_or_release_changed release_not_in_future effective_not_in_future : Error
  -- ValidationError of the rights, of `clean` and of Django's own field validation
  audience_required unknown_right audience_group_missing subtype_outside_audience : Error
  wrong_content_type subtype_of_other_type subtype_required expiry_not_after_release : Error
  expiry_before_effective effective_before_release effective_required effective_unused : Error
  text_required version_immutable message_id_immutable invalid_fields : Error
  -- other components
  session_unavailable session_without_version : Error
  file_too_large binary_content not_utf8 wrong_columns malformed_csv no_data_rows : Error
  row_error attribute_error malformed_header : Error
  not_staged preview_mismatch stop_iteration key_missing : Error
  too_many_rows unknown_report report_unavailable : Error
  unacceptable_password no_compliant_password no_email_address no_feedback_recipient : Error
  unknown_timezone not_a_preview session_not_active not_mandatory : Error
  -- OverflowError
  overflow : Error
  -- an exception of code outside the repository, such as the mail server's
  external_failure : Error

pub data Result {ℓ} (A : Type ℓ) : Type ℓ where
  ok : A → Result A
  err : Error → Result A

pub Result-cases {ℓ} :
    {A : Type ℓ} (r : Result A) → ((a : A) × (r ≡ ok a)) ⊎ ((e : Error) × (r ≡ err e))
Result-cases (ok a) = inl (a, refl)
Result-cases (err e) = inr (e, refl)

-- A result is a value, and the value is as stated.
abbrev pub Gives : {A : Type 0} → Result A → (A → Type 0) → Type 0
Gives {A = A} r holds = (a : A) × (r ≡ ok a) × holds a
