-- ===== src/Operations/Examples.antt =====
-- The theorems about reading, applied to one open viewing session.
use first_brief.Prelude.Tables.{lookup}
use first_brief.Prelude.{none, some, true, false, [], ◌∷◌, ◌≡◌, refl, any}
use first_brief.Errors.{Result, Error, ok, err}
use first_brief.Assurance.Audit.{Context}
use first_brief.Operations.Model.{ℤ, Viewed, Readings, ReadingPosition}
use first_brief.Operations.Reading.{close_message_view, save_reading_position, put_position}
use first_brief.Operations.Reading.Laws.{
  Closed, close_message_view-Closed, close_counts_once, InDocument,
  save_reading_position-InDocument,
}

abbrev noon : Context
noon = record { now = 90000000; correlation_id = "c3" }

abbrev notice : Viewed
notice = record { pk = 1; current_version_number = 2; audience_mandatory = true }

abbrev reading : Readings
reading = record {
  receipts = [];
  sessions =
      (
        40,
        record {
          user_pk = 8;
          message_pk = 1;
          version_number = some 2;
          mandatory_at_open = true;
          browser_session_key = "b";
          opened_at = 60000000;
          closed_at = none;
          active_seconds = 0;
        },
      )
      ∷ [];
  positions = [];
  events = [];
  notifications = [];
  audit = [];
}

abbrev readings_of : Result Readings → Readings
readings_of (ok rs) = rs
readings_of (err e) = reading

abbrev after_closing : Readings
after_closing = readings_of (close_message_view noon 8 notice 40 (ℤ.pos 20) true false reading)

closing_runs : close_message_view noon 8 notice 40 (ℤ.pos 20) true false reading ≡ ok after_closing
unfolding close_message_view lookup
closing_runs = refl

close_message_view-Closed_example : Closed noon 8 notice 40 (ℤ.pos 20) true reading after_closing
close_message_view-Closed_example =
    close_message_view-Closed noon 8 notice 40 (ℤ.pos 20) true false reading closing_runs

close_counts_once_example :
    close_message_view noon 8 notice 40 (ℤ.pos 20) true false after_closing
    ≡ err Error.session_not_active
close_counts_once_example =
    close_counts_once noon noon 8 8 notice notice 40 (ℤ.pos 20) (ℤ.pos 20) true true false false
      reading closing_runs

abbrev last_page : ReadingPosition
last_page = record { user_pk = 8; message_pk = 1; version_number = 2; page = 12; total_pages = 12 }

saving_runs :
    save_reading_position 8 notice 40 (ℤ.pos 30) (ℤ.pos 12) reading
    ≡ ok (last_page, record reading { positions = last_page ∷ [] })
unfolding save_reading_position lookup put_position any
saving_runs = refl

save_reading_position-InDocument_example : InDocument last_page
save_reading_position-InDocument_example =
    save_reading_position-InDocument 8 notice 40 (ℤ.pos 30) (ℤ.pos 12) reading saving_runs
