-- ===== src/Operations/Reading/Laws.antt =====
-- Closing a view counts once and within bounds; reading positions stay inside the document.
use first_brief.Operations.Reading.Touched.{with_receipt-Touched}
use first_brief.Prelude.{
  ◌+◌, ◌*◌, ◌-◌, ◌&&◌, ◌==◌, false, refl, find, filter, or_else, ℕ, ◌≤◌, min, max, ◌≡◌, inl, inr,
  Bool, true, Option, none, some, arith, update_where, Bool-cases, Option-cases,
}
use first_brief.Prelude.Tables.{lookup, lookup-adjust}
use first_brief.Errors.{Error, ok, err}
use first_brief.Assurance.Audit.{Context}
use first_brief.Operations.Model.{
  MessageReceipt, ℤ, Viewed, MessageViewSession, ReadingPosition, Readings,
}
use first_brief.Operations.Reading.{
  new_receipt, open_session, close_message_view, write_close, is_open, credited, elapsed,
  at_least_zero, read_receipt, is_receipt, with_receipt, position_in, save_reading_position,
  clamped,
}

-- The seconds that a receipt holds, none where there is no receipt.
abbrev pub seconds_of : Option MessageReceipt → ℕ
seconds_of none = 0
seconds_of (some r) = r.cumulative_view_seconds

-- What closing a view finds and writes, in the terms of the code.
pub record Closing (c : Context) (actor : ℕ) (message : Viewed) (session_pk : ℕ) (active : ℤ)
    (clear : Bool) (rs rs' : Readings) : Type 0 where
  pub session : MessageViewSession
  pub seconds : ℕ
  pub found : lookup session_pk rs.sessions ≡ some session
  pub was_open : is_open actor message.pk session ≡ true
  pub within_active : seconds ≤ at_least_zero active
  pub within_elapsed : seconds ≤ elapsed c.now session.opened_at
  pub within_limit : seconds ≤ 14400
  pub receipts :
      rs'.receipts
      ≡ update_where
          (is_receipt actor message.pk)
          (read_receipt c.now clear seconds)
          (with_receipt actor message.pk rs.receipts)
  pub closed :
      lookup session_pk rs'.sessions
      ≡ some (record session { active_seconds = seconds; closed_at = some c.now })

-- What closing a view finds and writes, with the seconds that it credits and the receipt that it
-- leaves.
pub record Closed (c : Context) (actor : ℕ) (message : Viewed) (session_pk : ℕ) (active : ℤ)
    (clear : Bool) (rs rs' : Readings) : Type 0 where
  pub session : MessageViewSession
  pub seconds : ℕ
  pub found : lookup session_pk rs.sessions ≡ some session
  pub was_open : is_open actor message.pk session ≡ true
  pub within_active : seconds ≤ at_least_zero active
  pub within_elapsed : seconds * 1000000 ≤ (c.now - session.opened_at) + 5000000
  pub within_limit : seconds ≤ 14400
  pub receipt : MessageReceipt
  pub read : find (is_receipt actor message.pk) rs'.receipts ≡ some receipt
  pub added :
      receipt.cumulative_view_seconds
      ≡ seconds_of (find (is_receipt actor message.pk) rs.receipts) + seconds
  pub others :
      (u p : ℕ)
      → (u == actor && p == message.pk) ≡ false
      → filter (is_receipt u p) rs'.receipts ≡ filter (is_receipt u p) rs.receipts
  pub closed :
      lookup session_pk rs'.sessions
      ≡ some (record session { active_seconds = seconds; closed_at = some c.now })

with_grace :
    (now opened_at seconds : ℕ)
    → seconds ≤ elapsed now opened_at
    → seconds * 1000000 ≤ (now - opened_at) + 5000000
with_grace now opened_at seconds within = omega (arith, within)

module _ (clear : Bool) (now actor pk : ℕ) where
  seconds-added :
      (r : Option MessageReceipt) (seconds : ℕ)
      → (read_receipt now clear seconds (or_else r (new_receipt actor pk))).cumulative_view_seconds
        ≡ seconds_of r + seconds
  seconds-added none seconds = refl
  seconds-added (some r) seconds = refl

min_bounds : (a b c : ℕ) → (min a (min b c) ≤ a) × (min a (min b c) ≤ b) × (min a (min b c) ≤ c)
min_bounds a b c = (omega arith, omega arith, omega arith)

module _ (c : Context) (actor : ℕ) (message : Viewed) (session_pk : ℕ) (active : ℤ)
    (clear lifecycle_changed : Bool) (rs : Readings) where
  written :
      {rs' : Readings} (s : MessageViewSession) (seconds : ℕ)
      → lookup session_pk rs.sessions ≡ some s
      → is_open actor message.pk s ≡ true
      → (seconds ≤ at_least_zero active) × (seconds ≤ elapsed c.now s.opened_at) × (seconds ≤ 14400)
      → rs' ≡ write_close c actor message session_pk s seconds clear lifecycle_changed rs
      → Closing c actor message session_pk active clear rs rs'
  unfolding write_close
  written s seconds found was_open (a, b, d) same = record {
    session = s;
    seconds = seconds;
    found = found;
    was_open = was_open;
    within_active = a;
    within_elapsed = b;
    within_limit = d;
    receipts = ground arith;
    closed = ground (
      arith,
      lookup-adjust session_pk session_pk
          (λ row. record row { active_seconds = seconds; closed_at = some c.now }) rs.sessions,
    );
  }

  pub close_message_view-Closing :
      {rs' : Readings}
      → close_message_view c actor message session_pk active clear lifecycle_changed rs ≡ ok rs'
      → Closing c actor message session_pk active clear rs rs'
  unfolding close_message_view open_session
  close_message_view-Closing {rs'} done = elim (Option-cases (lookup session_pk rs.sessions)) [
    | inl missing ↦ ground arith
    | inr (s, found) ↦ elim (Bool-cases (is_open actor message.pk s)) [
      | inr over ↦ ground arith
      | inl was_open ↦
          let seconds = credited c.now s active in
          let same : rs'
              ≡ write_close c actor message session_pk s seconds clear lifecycle_changed rs =
            ground arith in
          written s seconds found was_open
            (min_bounds (at_least_zero active) (elapsed c.now s.opened_at) 14400) same
    ]
  ]

  -- Closing a view that succeeds finds an open session of that user and message and closes it with a
  -- number of seconds that is at most the reported activity, at most the elapsed time with five
  -- seconds of grace, and at most four hours; the same seconds are added to those of the receipt,
  -- which is created where there is none, and the receipts of other readers and messages stay as
  -- they were.
  pub close_message_view-Closed :
      {rs' : Readings}
      → close_message_view c actor message session_pk active clear lifecycle_changed rs ≡ ok rs'
      → Closed c actor message session_pk active clear rs rs'
  close_message_view-Closed {rs'} done =
      let h = close_message_view-Closing {rs' = rs'} done in
      let t =
        with_receipt-Touched actor message.pk (read_receipt c.now clear h.seconds)
          (λ r. (refl, refl)) rs.receipts in
      record {
        session = h.session;
        seconds = h.seconds;
        found = h.found;
        was_open = h.was_open;
        within_active = h.within_active;
        within_elapsed = with_grace c.now h.session.opened_at h.seconds h.within_elapsed;
        within_limit = h.within_limit;
        receipt = read_receipt c.now clear h.seconds (
            or_else (find (is_receipt actor message.pk) rs.receipts)
              (new_receipt actor message.pk));
        read = rw h.receipts t.own;
        added =
            seconds-added clear c.now actor message.pk
              (find (is_receipt actor message.pk) rs.receipts) h.seconds;
        others = λ u p other. rw h.receipts (t.others u p other);
        closed = h.closed;
      }

-- After a view was closed, closing the same session again fails, whoever asks and whatever is
-- reported, so a session is credited once.
pub close_counts_once :
    (c c' : Context) (actor actor' : ℕ) (message message' : Viewed) (session_pk : ℕ)
    (active active' : ℤ) (clear clear' changed changed' : Bool) (rs : Readings) {rs' : Readings}
    → close_message_view c actor message session_pk active clear changed rs ≡ ok rs'
    → close_message_view c' actor' message' session_pk active' clear' changed' rs'
      ≡ err Error.session_not_active
unfolding close_message_view open_session
close_counts_once c c' actor actor' message message' session_pk active active' clear clear' changed
      changed' rs done =
    let h = close_message_view-Closed c actor message session_pk active clear changed rs done in
    ground (arith, h.closed)

-- The page and the number of pages that are stored lie in the document.
pub record InDocument (p : ReadingPosition) : Type 0 where
  pub first : 1 ≤ p.page
  pub last : p.page ≤ p.total_pages
  pub limit : p.total_pages ≤ 5000

page_bounds :
    (page total : ℕ)
    → (1 ≤ min (max page 1) (min (max total 1) 5000))
      × (min (max page 1) (min (max total 1) 5000) ≤ min (max total 1) 5000)
      × (min (max total 1) 5000 ≤ 5000)
page_bounds page total = (omega arith, omega arith, omega arith)

in_document :
    (actor pk : ℕ) (number : Option ℕ) (page total : ℤ) (rs : Readings) {p : ReadingPosition}
    {rs' : Readings}
    → position_in actor pk number page total rs ≡ ok (p, rs')
    → InDocument p
unfolding position_in
in_document actor pk none page total rs done = ground arith
in_document actor pk (some number) page total rs {p} done =
    let (a, b, d) = page_bounds (at_least_zero page) (at_least_zero total) in
    let at : p.page ≡ clamped page (clamped total 5000) = ground arith in
    let of : p.total_pages ≡ clamped total 5000 = ground arith in
    record { first = rw at a; last = rw at (rw of b); limit = rw of d }

-- A reading position that is saved has a page between 1 and its number of pages, which is at most
-- 5000, whatever integers the browser sent.
pub save_reading_position-InDocument :
    (actor : ℕ) (message : Viewed) (session_pk : ℕ) (page total : ℤ) (rs : Readings)
    {p : ReadingPosition} {rs' : Readings}
    → save_reading_position actor message session_pk page total rs ≡ ok (p, rs')
    → InDocument p
unfolding save_reading_position
save_reading_position-InDocument actor message session_pk page total rs {p} {rs'} done =
    elim (Option-cases (open_session actor message.pk (lookup session_pk rs.sessions))) [
      | inl missing ↦ ground arith
      | inr (s, found) ↦
          in_document actor message.pk s.version_number page total rs {p = p} {rs' = rs'}
            (ground arith)
    ]
