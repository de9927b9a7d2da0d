-- ===== src/Touchpad/Swipe.antt =====
-- Swipes from the centroids of the contacts, in apps/core-daemon/src/touchpad/recognizer.rs.
use flowtile_wm.Base.{
  ℕ, suc, ◌*◌, ◌/◌, max, ℤ, pos, negsuc, sub_ℕ, ◌+ℤ◌, not, ◌&&◌, Option, none, some, List, [], ◌∷◌,
  if◌then◌else◌, leb, ltb_ℤ, ◌==◌, length, unwrap_or, and_then,
}
use flowtile_wm.Base.Words.{as_i32, as_u32, wrap_sub_i32}
use flowtile_wm.Touchpad.Gestures.{
  TouchpadGesture, three_finger_swipe_left, three_finger_swipe_right, three_finger_swipe_up,
  three_finger_swipe_down, four_finger_swipe_left, four_finger_swipe_right, four_finger_swipe_up,
  four_finger_swipe_down,
}

pub record RawTouchContact : Type 0 where
  pub contact_id : ℕ
  pub x : ℤ
  pub y : ℤ

pub record RawTouchPoint : Type 0 where
  pub x : ℤ
  pub y : ℤ

pub record SwipeSession : Type 0 where
  pub finger_count : ℕ
  pub start_centroid : RawTouchPoint
  pub last_centroid : RawTouchPoint

pub record SwipeRecognizer : Type 0 where
  pub session : Option SwipeSession

-- `i32::abs` and `*` on an `i32`, which wrap around.
unfoldable pub abs_i32 : ℤ → ℤ
abs_i32 (pos n) = pos n
abs_i32 (negsuc n) = as_i32 (suc n)

unfoldable pub scale_i32 : ℤ → ℕ → ℤ
scale_i32 (pos n) k = as_i32 (as_u32 (pos (n * k)))
scale_i32 (negsuc n) k = as_i32 (as_u32 (sub_ℕ 0 (suc n * k)))

-- `i64` division by a count, which rounds towards zero.
unfoldable pub div_count : ℤ → ℕ → ℤ
div_count (pos n) k = pos (n / k)
div_count (negsuc n) k = sub_ℕ 0 (suc n / k)

abbrev pub swipe_distance_threshold : ℕ
swipe_distance_threshold = 120

-- The gesture of a direction, for three and for four fingers.
abbrev pub for_fingers : ℕ → TouchpadGesture → TouchpadGesture → Option TouchpadGesture
for_fingers count three four =
    if count == 3 then some three else if count == 4 then some four else none

unfoldable pub recognize_swipe : SwipeSession → Option TouchpadGesture
recognize_swipe session =
    let delta_x = wrap_sub_i32 session.last_centroid.x session.start_centroid.x in
    let delta_y = wrap_sub_i32 session.last_centroid.y session.start_centroid.y in
    let abs_x = abs_i32 delta_x in
    let abs_y = abs_i32 delta_y in
    let horizontal = not (ltb_ℤ (scale_i32 abs_x 2) (scale_i32 abs_y 3)) in
    let vertical = not (ltb_ℤ (scale_i32 abs_y 2) (scale_i32 abs_x 3)) in
    if ltb_ℤ abs_x (pos swipe_distance_threshold) && ltb_ℤ abs_y (pos swipe_distance_threshold)
    then none
    else if horizontal && not vertical && ltb_ℤ (pos 0) delta_x
    then for_fingers session.finger_count three_finger_swipe_right four_finger_swipe_right
    else if horizontal && not vertical && ltb_ℤ delta_x (pos 0)
    then for_fingers session.finger_count three_finger_swipe_left four_finger_swipe_left
    else if not horizontal && vertical && ltb_ℤ (pos 0) delta_y
    then for_fingers session.finger_count three_finger_swipe_down four_finger_swipe_down
    else if not horizontal && vertical && ltb_ℤ delta_y (pos 0)
    then for_fingers session.finger_count three_finger_swipe_up four_finger_swipe_up
    else none

abbrev pub sum_x : List RawTouchContact → ℤ
sum_x [] = pos 0
sum_x (c ∷ cs) = c.x +ℤ sum_x cs

abbrev pub sum_y : List RawTouchContact → ℤ
sum_y [] = pos 0
sum_y (c ∷ cs) = c.y +ℤ sum_y cs

-- The sums of at most four `i32` are within an `i64`, and so is their number.
unfoldable pub centroid_for_contacts : List RawTouchContact → RawTouchPoint
unfolding div_count
centroid_for_contacts contacts = record {
  x = as_i32 (as_u32 (div_count (sum_x contacts) (length contacts)));
  y = as_i32 (as_u32 (div_count (sum_y contacts) (length contacts)));
}

unfoldable pub finish_current_session : SwipeRecognizer → Option TouchpadGesture × SwipeRecognizer
finish_current_session recognizer =
    (and_then recognizer.session recognize_swipe, record { session = none })

unfoldable pub process_contacts :
    List RawTouchContact → SwipeRecognizer → Option TouchpadGesture × SwipeRecognizer
process_contacts contacts recognizer =
    let finger_count = length contacts in
    let centroid = centroid_for_contacts contacts in
    let session = unwrap_or recognizer.session (record {
      finger_count = finger_count;
      start_centroid = centroid;
      last_centroid = centroid;
    }) in
    if not (leb 3 finger_count && leb finger_count 4) then finish_current_session recognizer else (
      none,
      record {
        session = some (record session {
          finger_count = max session.finger_count finger_count;
          last_centroid = centroid;
        });
      },
    )
