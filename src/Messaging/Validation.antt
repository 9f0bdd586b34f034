-- ===== src/Messaging/Validation.antt =====
-- The validation of a message and of a version: `clean` of firstbrief/messaging/models.py, run by
-- Django's `full_clean` after the checks of single columns, and the audience and date checks of
-- firstbrief/messaging/services.py. Where several checks fail together Django reports them all;
-- here the first one stands for the refusal.
pub mod Frame
use first_brief.Prelude.{
  ℕ, Bool, true, false, not, ◌&&◌, Option, none, some, ltb, leb, ◌==◌, if◌then◌else◌, is_blank,
  some_and, is_some,
}
use first_brief.Errors
use first_brief.Errors.{Error, Result, ok, err}
use first_brief.Configuration.{MessageType, MessageSubType, ContentType}
use first_brief.Messaging.Model.{Kind, Message, MessageVersion}
use first_brief.Store.{◌>>=◌, ◌>>◌, Env, Tx, gets, guard, refuse}

abbrev is_text : ContentType → Bool
is_text ContentType.text = true
is_text ContentType.pdf = false

abbrev pub is_pdf : ContentType → Bool
is_pdf ContentType.text = false
is_pdf ContentType.pdf = true

abbrev is_botd : Kind → Bool
is_botd Kind.botd = true
is_botd Kind.instruction = false

-- `subtype is not None and subtype.message_type_id != self.message_type_id`
abbrev of_other_type : ℕ → Option MessageSubType → Bool
of_other_type type_id none = false
of_other_type type_id (some subtype) = not (subtype.message_type_id == type_id)

subtype_clean : Env → Message → Option ℕ → Result (Unit {0})
subtype_clean env message none =
    if (env.message_type message.message_type_id).has_subtypes
    then err Error.subtype_required
    else ok tt
subtype_clean env message (some subtype_id) =
    if of_other_type message.message_type_id (env.message_subtype subtype_id)
    then err Error.subtype_of_other_type
    else ok tt

-- `Message.clean`
unfoldable pub message_clean : Env → Message → Result (Unit {0})
unfolding subtype_clean
message_clean env message =
    let content = (env.message_type message.message_type_id).default_content_type in
    if is_botd message.kind && not (is_text content)
    then err Error.wrong_content_type
    else if not (is_botd message.kind) && not (is_pdf content)
    then err Error.wrong_content_type
    else subtype_clean env message message.subtype_id

-- `MessageVersion.clean`
unfoldable pub version_clean : MessageType → MessageVersion → Result (Unit {0})
version_clean type v =
    if leb v.expiry_at v.release_at
    then err Error.expiry_not_after_release
    else if some_and v.effective_at (λ e. ltb v.expiry_at e)
    then err Error.expiry_before_effective
    else if some_and v.effective_at (λ e. ltb e v.release_at)
    then err Error.effective_before_release
    else if type.has_effective_date && not (is_some v.effective_at)
    then err Error.effective_required
    else if not type.has_effective_date && is_some v.effective_at
    then err Error.effective_unused
    else if is_text type.default_content_type && is_blank v.text_content
    then err Error.text_required
    else ok tt

abbrev lift : Result (Unit {0}) → Tx (Unit {0})
lift (ok u) db = ok (u, db)
lift (err e) db = err e

-- `message.full_clean()`
unfoldable pub message_full_clean : Env → Message → Tx (Unit {0})
message_full_clean env message = do
  valid ← gets (λ db. env.message_fields db message)
  guard valid Error.invalid_fields
  lift (message_clean env message)

-- `version.full_clean()`, for a version of a message of the given type
unfoldable pub version_full_clean : Env → ℕ → MessageVersion → Tx (Unit {0})
version_full_clean env type_id version = do
  valid ← gets (λ db. env.version_fields db version)
  guard valid Error.invalid_fields
  lift (version_clean (env.message_type type_id) version)

-- `_validate_future_dates`
unfoldable pub validate_future_dates : ℕ → ℕ → Option ℕ → ℕ → Tx (Unit {0})
validate_future_dates now release_at effective_at expiry_at = do
  refuse (leb release_at now) Error.release_not_in_future
  refuse (some_and effective_at (λ e. leb e now)) Error.effective_not_in_future
  refuse (leb expiry_at now) Error.expiry_not_in_future
