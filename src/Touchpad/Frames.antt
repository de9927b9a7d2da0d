-- ===== src/Touchpad/Frames.antt =====
-- The frames of touch reports, in apps/core-daemon/src/touchpad/recognizer.rs.
use flowtile_wm.Base.{
  ℕ, ◌+◌, ◌*◌, ◌/◌, ◌%◌, pos, Bool, not, ◌&&◌, ◌||◌, Option, none, some, List, if◌then◌else◌, ltb,
  leb, ◌==◌, length, get_elem?, is_some_and, is_none, and_then,
}
use flowtile_wm.Base.Map.{Map, empty, put, values}
use flowtile_wm.Touchpad.Gestures.{TouchpadGesture}
use flowtile_wm.Touchpad.Swipe.{RawTouchContact, SwipeRecognizer, process_contacts}

pub record ParsedRawTouchpadReport : Type 0 where
  pub scan_time : ℕ
  pub contact_count : ℕ
  pub contact : Option RawTouchContact

pub record RawTouchpadFrameAssembler : Type 0 where
  pub active_scan_time : Option ℕ
  pub expected_contacts : ℕ
  pub contacts : Map RawTouchContact
  pub recognizer : SwipeRecognizer

unfoldable pub begin_frame : ℕ → ℕ → RawTouchpadFrameAssembler → RawTouchpadFrameAssembler
begin_frame scan_time contact_count a = record a {
  active_scan_time = some scan_time;
  expected_contacts = contact_count;
  contacts = empty;
}

unfoldable pub add_contact :
    Option RawTouchContact → RawTouchpadFrameAssembler → RawTouchpadFrameAssembler
add_contact none a = a
add_contact (some contact) a = record a { contacts = put contact.contact_id contact a.contacts }

unfoldable pub should_flush_current_frame : ℕ → RawTouchpadFrameAssembler → Bool
should_flush_current_frame reported_contact_count a =
    reported_contact_count == 0
    || (ltb 0 a.expected_contacts && leb a.expected_contacts (length a.contacts))

unfoldable pub flush_frame :
    RawTouchpadFrameAssembler → Option TouchpadGesture × RawTouchpadFrameAssembler
flush_frame a =
    let (gesture, recognizer) = process_contacts (values a.contacts) a.recognizer in
    (
      gesture,
      record {
        active_scan_time = none;
        expected_contacts = 0;
        contacts = empty;
        recognizer = recognizer;
      },
    )

-- A frame that is complete is flushed.
unfoldable pub flush_if_complete :
    ℕ → RawTouchpadFrameAssembler → Option TouchpadGesture × RawTouchpadFrameAssembler
unfolding should_flush_current_frame flush_frame
flush_if_complete contact_count a =
    if should_flush_current_frame contact_count a then flush_frame a else (none, a)

-- `gesture.or_else(|| self.flush_frame())` flushes only if there is no gesture yet.
unfoldable pub process_report :
    ParsedRawTouchpadReport
    → RawTouchpadFrameAssembler
    → Option TouchpadGesture × RawTouchpadFrameAssembler
unfolding begin_frame add_contact flush_frame flush_if_complete should_flush_current_frame
process_report report a =
    let (gesture, flushed) = flush_frame a in
    let begun =
      add_contact report.contact (begin_frame report.scan_time report.contact_count flushed) in
    let opened =
      if is_none a.active_scan_time
      then begin_frame report.scan_time report.contact_count a
      else a in
    if is_some_and a.active_scan_time (λ active. not (active == report.scan_time))
    then elim gesture [
      | some g ↦ (some g, begun)
      | none ↦ flush_if_complete report.contact_count begun
    ]
    else flush_if_complete report.contact_count (add_contact report.contact opened)

-- Two bytes, the lower first.
abbrev pub u16_from_le_bytes : ℕ → ℕ → ℕ
u16_from_le_bytes low high = low + high * 256

-- The offset of the header in a report, by the length of the report.
abbrev pub header_offset : ℕ → Option ℕ
header_offset len = if leb 10 len then some 1 else if leb 9 len then some 0 else none

infixl 5 ◌>>=◌
abbrev ◌>>=◌ : {A B : Type 0} → Option A → (A → Option B) → Option B
m >>= f = and_then m f

-- The bytes of a report are less than 256.
unfoldable pub parse_sample_touchpad_report : List ℕ → Option ParsedRawTouchpadReport
parse_sample_touchpad_report report = do
  offset ← header_offset (length report)
  header ← get_elem? report offset
  x_low ← get_elem? report (offset + 1)
  x_high ← get_elem? report (offset + 2)
  y_low ← get_elem? report (offset + 3)
  y_high ← get_elem? report (offset + 4)
  time_low ← get_elem? report (offset + 5)
  time_high ← get_elem? report (offset + 6)
  contact_count ← get_elem? report (offset + 7)
  some (record {
    scan_time = u16_from_le_bytes time_low time_high;
    contact_count = contact_count;
    contact =
        if header / 2 % 2 == 1 && header % 2 == 1
        then some (record {
          contact_id = header / 4 % 4;
          x = pos (u16_from_le_bytes x_low x_high);
          y = pos (u16_from_le_bytes y_low y_high);
        })
        else none;
  })
