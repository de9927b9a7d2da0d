-- ===== src/Touchpad/Sessions.antt =====
-- The life of a swipe session in apps/core-daemon/src/touchpad/recognizer.rs.
use flowtile_wm.Base.{
  ℕ, ◌≡◌, refl, Bool, true, false, ◌&&◌, Option, none, some, List, [], ◌∷◌, ◌++◌, map, leb, max,
  length, All, arith,
}
use flowtile_wm.Touchpad.Gestures.{TouchpadGesture}
use flowtile_wm.Touchpad.Swipe.{
  RawTouchContact, RawTouchPoint, SwipeSession, SwipeRecognizer, recognize_swipe,
  centroid_for_contacts, finish_current_session, process_contacts,
}

-- Whether the contacts of a frame are those of three or four fingers.
abbrev pub is_swiping : List RawTouchContact → Bool
is_swiping contacts = leb 3 (length contacts) && leb (length contacts) 4

-- The recognizer after some frames, and the gestures that they gave.
unfoldable pub process_frames :
    List (List RawTouchContact) → SwipeRecognizer → List (Option TouchpadGesture) × SwipeRecognizer
process_frames [] r = ([], r)
process_frames (contacts ∷ frames) r =
    let (gesture, after) = process_contacts contacts r in
    let (gestures, last) = process_frames frames after in (gesture ∷ gestures, last)

abbrev pub most_fingers : List (List RawTouchContact) → ℕ
most_fingers [] = 0
most_fingers (contacts ∷ frames) = max (length contacts) (most_fingers frames)

abbrev pub last_frame : List RawTouchContact → List (List RawTouchContact) → List RawTouchContact
last_frame first [] = first
last_frame first (next ∷ frames) = last_frame next frames

-- The session that some frames of three or four fingers make.
abbrev pub session_of : List RawTouchContact → List (List RawTouchContact) → SwipeSession
session_of first frames = record {
  finger_count = most_fingers (first ∷ frames);
  start_centroid = centroid_for_contacts first;
  last_centroid = centroid_for_contacts (last_frame first frames);
}

-- A frame of three or four fingers gives no gesture.
frame-during :
    (contacts : List RawTouchContact) (s : SwipeSession)
    → is_swiping contacts ≡ true
    → process_contacts contacts (record { session = some s }) ≡ (
      none,
      record {
        session = some (record {
          finger_count = max s.finger_count (length contacts);
          start_centroid = s.start_centroid;
          last_centroid = centroid_for_contacts contacts;
        });
      },
    )
unfolding process_contacts
frame-during contacts s h = rw h refl

max_self : (n : ℕ) → max n n ≡ n
max_self n = omega arith

max-zero : (n : ℕ) → max n 0 ≡ n
max-zero n = omega arith

max_assoc : (a b c : ℕ) → max (max a b) c ≡ max a (max b c)
max_assoc a b c = omega arith

frame-first :
    (contacts : List RawTouchContact)
    → is_swiping contacts ≡ true
    → process_contacts contacts (record { session = none }) ≡ (
      none,
      record {
        session = some (record {
          finger_count = length contacts;
          start_centroid = centroid_for_contacts contacts;
          last_centroid = centroid_for_contacts contacts;
        });
      },
    )
unfolding process_contacts
frame-first contacts h = rw (h, max_self (length contacts)) refl

frame-last :
    (contacts : List RawTouchContact) (s : SwipeSession)
    → is_swiping contacts ≡ false
    → process_contacts contacts (record { session = some s })
      ≡ (recognize_swipe s, record { session = none })
unfolding process_contacts finish_current_session
frame-last contacts s h = rw h refl

abbrev pub silence : List (List RawTouchContact) → List (Option TouchpadGesture)
silence = map (λ contacts. none)

-- Frames from an open session on, and then one that ends it.
process_frames-open :
    (start : RawTouchPoint) (count : ℕ) (first lifted : List RawTouchContact)
    (frames : List (List RawTouchContact))
    → All (λ contacts. is_swiping contacts ≡ true) frames
    → is_swiping lifted ≡ false
    → process_frames (frames ++ lifted ∷ []) (record {
      session = some (record {
        finger_count = count;
        start_centroid = start;
        last_centroid = centroid_for_contacts first;
      });
    })
      ≡ (
        silence frames
            ++ recognize_swipe (record {
              finger_count = max count (most_fingers frames);
              start_centroid = start;
              last_centroid = centroid_for_contacts (last_frame first frames);
            })
              ∷ [],
        record { session = none },
      )
unfolding process_frames
process_frames-open start count first lifted [] h k =
    rw (frame-last lifted _ k, max-zero count) refl
process_frames-open start count first lifted (contacts ∷ frames) (h, hs) k =
    rw
      (
        frame-during contacts _ h,
        process_frames-open start (max count (length contacts)) contacts lifted frames hs k,
        max_assoc count (length contacts) (most_fingers frames),
      )
      refl

-- From no session, frames of three or four fingers give no gesture. The first frame of fewer or more
-- fingers gives what the swipe from the centroid of the first to that of the last of them is, with the
-- largest of their finger counts, and leaves no session.
pub process_frames-swipe :
    (first lifted : List RawTouchContact) (frames : List (List RawTouchContact))
    → is_swiping first ≡ true
    → All (λ contacts. is_swiping contacts ≡ true) frames
    → is_swiping lifted ≡ false
    → process_frames (first ∷ frames ++ lifted ∷ []) (record { session = none }) ≡ (
      silence (first ∷ frames) ++ recognize_swipe (session_of first frames) ∷ [],
      record { session = none },
    )
unfolding process_frames
process_frames-swipe first lifted frames h hs k =
    rw
      (
        frame-first first h,
        process_frames-open (centroid_for_contacts first) (length first) first lifted frames hs k,
      )
      refl
