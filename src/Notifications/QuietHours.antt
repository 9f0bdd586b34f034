-- ===== src/Notifications/QuietHours.antt =====
-- `apply_quiet_hours` and the times of notifications, firstbrief/notifications/services.py.
use first_brief.Prelude.{
  ℕ, ◌+◌, ◌-◌, ◌*◌, Bool, ◌&&◌, ◌||◌, Option, none, some, ltb, leb, if◌then◌else◌, or_else,
}
use first_brief.Errors.{Error, Result, ok, err}
use first_brief.Messaging.Model.{MessageVersion}
use first_brief.Notifications.Model.{Anchor, LocalTime, Zone, Offset}
use first_brief.Store.{Env}

-- Microseconds.
abbrev pub minute : ℕ
minute = 60000000

abbrev pub day : ℕ
day = 86400000000

-- Whether a wall-clock time lies in the quiet hours, which may span midnight.
unfoldable pub in_quiet : ℕ → ℕ → ℕ → Bool
in_quiet start stop time =
    if ltb start stop then leb start time && ltb time stop else leb start time || ltb time stop

-- The day on which the quiet hours that hold at a wall-clock time end.
unfoldable pub end_day : ℕ → ℕ → LocalTime → ℕ
end_day start stop local =
    if ltb start stop then local.day else if leb start local.time then local.day + 1 else local.day

leave_quiet : Zone → ℕ → ℕ → ℕ → ℕ
unfolding in_quiet end_day
leave_quiet zone start stop value =
    let local = zone.to_local value in
    if in_quiet start stop local.time
    then zone.to_instant (record { day = end_day start stop local; time = stop })
    else value

in_zone : Option Zone → ℕ → ℕ → ℕ → Result ℕ
unfolding leave_quiet
in_zone none start stop value = err Error.unknown_timezone
in_zone (some zone) start stop value = ok (leave_quiet zone start stop value)

between : Env → Option ℕ → Option ℕ → ℕ → Result ℕ
unfolding in_zone
between env (some start) (some stop) value =
    in_zone (env.zone_info env.notification_policy.timezone_name) start stop value
between env none stop value = ok value
between env (some start) none value = ok value

unfoldable pub apply_quiet_hours : Env → ℕ → Result ℕ
unfolding between
apply_quiet_hours env value =
    between env env.notification_policy.quiet_hours_start env.notification_policy.quiet_hours_end
      value

-- `_anchor_time`
unfoldable pub anchor_time : MessageVersion → Anchor → ℕ → ℕ
anchor_time version Anchor.now event_time = event_time
anchor_time version Anchor.release event_time = version.release_at
anchor_time version Anchor.effective event_time = or_else version.effective_at version.release_at

-- `_notification_time`
unfoldable pub notification_time : Env → MessageVersion → ℕ → Anchor → Offset → Result ℕ
notification_time env version event_time anchor offset =
    apply_quiet_hours env
      (anchor_time version anchor event_time + offset.later * minute - offset.earlier * minute)
