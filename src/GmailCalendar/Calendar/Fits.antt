-- ===== src/GmailCalendar/Calendar/Fits.antt =====
-- The strings of an event fit the arrays of calendar.c, whatever the document holds.
use code_samples.Base.{
  ℕ, zero, suc, ◌-◌, ◌<◌, ◌≤◌, ◌≡◌, Bool, true, false, ◌&&◌, Option, none, some, length, arith,
  Bytes, codes, Bool-cases, inl, inr, if◌then◌else◌,
}
use code_samples.GmailCalendar.Json.{
  Json, Status, ok, error, failed, is_end_object, is_property_name, is_text,
}
use code_samples.GmailCalendar.Oauth.Invariant.{FitsRoom, length-c_string}
use code_samples.GmailCalendar.Calendar.{
  CalendarEvent, no_event, summary_max, time_max, location_max, copy_string_token, attempt,
  skip_rest, put_time, time_of, read_time, read_value, and_then, visit_loop,
}

pub record Fits (e : CalendarEvent) : Type 0 where
  pub summary_fits : length e.summary < summary_max
  pub start_fits : length e.start < time_max
  pub end_fits : length e.end < time_max
  pub location_fits : length e.location < location_max

module _ (j : Json) (promise : FitsRoom j) where
  length-copy_string_token :
      (t : j.Token) (dest : Bytes) (cap : ℕ)
      → length dest < cap
      → length (copy_string_token j t dest cap) < cap
  unfolding copy_string_token
  length-copy_string_token t dest cap fits =
      let out = j.get_string t (cap - 1) dest in
      let bound : length out.1 ≤ cap - 1 = promise t (cap - 1) dest (omega arith) in
      let shorter = length-c_string out.1 in ground arith

  -- A result whose event fits.
  abbrev Kept : Option (Status × j.Reader × CalendarEvent) → Type 0
  Kept none = Unit
  Kept (some (status, r, e)) = Fits e

  attempt-Kept :
      (e : CalendarEvent) (s : Status × j.Reader)
      (k : j.Reader → Option (Status × j.Reader × CalendarEvent))
      → Fits e
      → ((r : j.Reader) → Kept (k r))
      → Kept (attempt j e s k)
  attempt-Kept e (ok, r) k fits each = each r
  attempt-Kept e (error code, r) k fits each = fits

  skip_rest-Kept : (k : ℕ) (e : CalendarEvent) (r : j.Reader) → Fits e → Kept (skip_rest j k e r)
  unfolding skip_rest
  skip_rest-Kept zero e r fits = tt
  skip_rest-Kept (suc k) e r fits = attempt-Kept e (j.next_token r) _ fits (λ r1.
      elim (Bool-cases (is_end_object (j.kind (j.current r1)))) [
        | inl over ↦ rw over fits
        | inr on ↦ elim (Bool-cases (is_property_name (j.kind (j.current r1)))) [
          | inl name ↦
              rw (on, name)
                (attempt-Kept e (j.next_token r1) _ fits (λ r2.
                  attempt-Kept e (j.skip_children r2) _ fits (λ r3. skip_rest-Kept k e r3 fits)))
          | inr other ↦ rw (on, other) (skip_rest-Kept k e r1 fits)
        ]
      ])

  put_time-Fits :
      (is_start : Bool) (text : Bytes) (e : CalendarEvent)
      → length text < time_max
      → Fits e
      → Fits (put_time j is_start text e)
  put_time-Fits true text e short fits = record {
    summary_fits = fits.summary_fits;
    start_fits = short;
    end_fits = fits.end_fits;
    location_fits = fits.location_fits;
  }
  put_time-Fits false text e short fits = record {
    summary_fits = fits.summary_fits;
    start_fits = fits.start_fits;
    end_fits = short;
    location_fits = fits.location_fits;
  }

  length-time_of :
      (is_start : Bool) (e : CalendarEvent) → Fits e → length (time_of j is_start e) < time_max
  length-time_of true e fits = fits.start_fits
  length-time_of false e fits = fits.end_fits

  read_time-Kept :
      (k : ℕ) (is_start : Bool) (r : j.Reader) (e : CalendarEvent)
      → Fits e
      → Kept (read_time j k is_start r e)
  unfolding read_time
  read_time-Kept k is_start r e fits =
      let (found, r1, tok) = j.find_property r (codes "dateTime") in
      let text = copy_string_token j tok (time_of j is_start e) time_max in
      elim (Bool-cases (failed found)) [
        | inl missing ↦ rw missing (put_time-Fits is_start (codes "(all-day)") e (omega arith) fits)
        | inr there ↦ rw there (
            skip_rest-Kept k (put_time j is_start text e) r1 (
              put_time-Fits is_start text e
                (length-copy_string_token tok (time_of j is_start e) time_max
                  (length-time_of is_start e fits))
                fits))
      ]

  -- Tests in a row keep what all their branches keep.
  if-Kept :
      (b : Bool) (x y : Option (Status × j.Reader × CalendarEvent))
      → Kept x
      → Kept y
      → Kept (if b then x else y)
  if-Kept true x y good other = good
  if-Kept false x y good other = other

  with_summary :
      (e : CalendarEvent) (s : Bytes)
      → length s < summary_max
      → Fits e
      → Fits (record e { summary = s })
  with_summary e s short fits = record {
    summary_fits = short;
    start_fits = fits.start_fits;
    end_fits = fits.end_fits;
    location_fits = fits.location_fits;
  }

  with_location :
      (e : CalendarEvent) (s : Bytes)
      → length s < location_max
      → Fits e
      → Fits (record e { location = s })
  with_location e s short fits = record {
    summary_fits = fits.summary_fits;
    start_fits = fits.start_fits;
    end_fits = fits.end_fits;
    location_fits = short;
  }

  read_value-Kept :
      (k : ℕ) (name : j.Token) (r : j.Reader) (e : CalendarEvent)
      → Fits e
      → Kept (read_value j k name r e)
  unfolding read_value
  read_value-Kept k name r e fits =
      let token = j.current r in
      if-Kept (j.is_text_equal name (codes "summary") && is_text (j.kind token)) _ _
        (with_summary e _ (length-copy_string_token token e.summary summary_max fits.summary_fits)
          fits)
        (if-Kept (j.is_text_equal name (codes "location") && is_text (j.kind token)) _ _
          (with_location e _
            (length-copy_string_token token e.location location_max fits.location_fits) fits)
          (if-Kept _ _ _ (read_time-Kept k _ r e fits)
            (attempt-Kept e (j.skip_children r) _ fits (λ r1. fits))))

  and_then-Kept :
      (o : Option (Status × j.Reader × CalendarEvent))
      (k : j.Reader → CalendarEvent → Option (Status × j.Reader × CalendarEvent))
      → Kept o
      → ((r : j.Reader) (e : CalendarEvent) → Fits e → Kept (k r e))
      → Kept (and_then j o k)
  and_then-Kept none k fits each = tt
  and_then-Kept (some (ok, r, e)) k fits each = each r e fits
  and_then-Kept (some (error code, r, e)) k fits each = fits

  visit_loop-Kept : (k : ℕ) (r : j.Reader) (e : CalendarEvent) → Fits e → Kept (visit_loop j k r e)
  unfolding visit_loop
  visit_loop-Kept zero r e fits = tt
  visit_loop-Kept (suc k) r e fits = attempt-Kept e (j.next_token r) _ fits (λ r1.
      let name = j.current r1 in
      elim (Bool-cases (is_end_object (j.kind name))) [
        | inl over ↦ rw over fits
        | inr on ↦ elim (Bool-cases (is_property_name (j.kind name))) [
          | inl property ↦
              rw (on, property)
                (attempt-Kept e (j.next_token r1) _ fits (λ r2.
                  and_then-Kept (read_value j k name r2 e) _ (read_value-Kept k name r2 e fits)
                    (λ r3 e' fits'. visit_loop-Kept k r3 e' fits')))
          | inr other ↦ rw (on, other) fits
        ]
      ])

  -- Whatever the document holds, the strings that `visit_event` gathers of an event fit their
  -- arrays, with a NUL, provided that the reader leaves no more bytes in a buffer than it has room
  -- for.
  pub visit_loop-Fits :
      (fuel : ℕ) (r r' : j.Reader) (status : Status) (e : CalendarEvent)
      → visit_loop j fuel r no_event ≡ some (status, r', e)
      → Fits e
  visit_loop-Fits fuel r r' status e same =
      of_result (visit_loop j fuel r no_event)
        (visit_loop-Kept fuel r no_event (record {
          summary_fits = omega arith;
          start_fits = omega arith;
          end_fits = omega arith;
          location_fits = omega arith;
        }))
        same
    where
      of_result :
          (o : Option (Status × j.Reader × CalendarEvent))
          → Kept o
          → o ≡ some (status, r', e)
          → Fits e
      of_result none kept same' = ground arith
      of_result (some (s, q, found)) kept same' = ground arith
