-- ===== src/Operations/Policy.antt =====
-- `update_policy` of firstbrief/operations/services.py, with the validators of the columns in
-- firstbrief/operations/models.py.
use first_brief.Prelude.{
  ℕ, String, Bool, false, not, ◌&&◌, ◌||◌, Option, some, List, [], ◌∷◌, if◌then◌else◌, leb, ◌==◌,
  text_length, any_char,
}
use first_brief.Identity.Access.{has_capability, manage_configuration}
use first_brief.Errors.{Result, ok, err, Error}
use first_brief.Identity.Model.{User}
use first_brief.Assurance.Audit.{Subject, Context, record_event}
use first_brief.Operations.Model.{OperationalPolicy}
use Prim.Native.Char.{code}
use first_brief.Assurance.Model.{Datum, AuditEvent}

-- `[0-9A-Fa-f]`, by code points
abbrev is_hex : ℕ → Bool
is_hex c = (leb 48 c && leb c 57) || (leb 65 c && leb c 70) || (leb 97 c && leb c 102)

-- `^#[0-9A-Fa-f]{6}$` of at most 7 characters
unfoldable pub is_colour : String → Bool
is_colour String.[] = false
is_colour (String.◌∷◌ c s) =
    code c == 35 && text_length s == 6 && not (any_char (λ d. not (is_hex d)) s)

-- `full_clean`: the validators of the columns.
unfoldable pub is_valid_policy : OperationalPolicy → Bool
unfolding is_colour
is_valid_policy p =
    leb 1 p.pre_effective_hours
    && leb p.pre_effective_hours 720
    && is_colour p.pre_effective_colour
    && leb 15 p.idle_timeout_seconds
    && leb p.idle_timeout_seconds 900

abbrev policy_subject : Option Subject
policy_subject = some (record { class_name = "OperationalPolicy"; key = 1 })

-- The policy that is stored, and the log; the table has one row.
unfoldable pub update_policy :
    Context
    → User
    → OperationalPolicy
    → List AuditEvent
    → Result (OperationalPolicy × List AuditEvent)
unfolding is_valid_policy
update_policy c actor policy log =
    if has_capability actor manage_configuration
    then if is_valid_policy policy
      then ok (
        policy,
        record_event c "operations.policy.updated" (some actor.pk) policy_subject []
            (("pre_effective_hours", Datum.number policy.pre_effective_hours)
              ∷ ("pre_effective_colour", Datum.text policy.pre_effective_colour)
              ∷ ("idle_timeout_seconds", Datum.number policy.idle_timeout_seconds)
              ∷ [])
            "" log,
      )
      else err Error.invalid_fields
    else err Error.no_capability
