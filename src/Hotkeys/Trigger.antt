-- ===== src/Hotkeys/Trigger.antt =====
-- The parser of triggers in apps/core-daemon/src/hotkeys/trigger.rs. A text is the list of its code
-- points.
use Prim.Native.Nat.{bit_or}
use flowtile_wm.Base.{
  ℕ, ◌+◌, ◌-◌, Bool, not, ◌&&◌, ◌||◌, Option, none, some, String, List, [], ◌∷◌, map, if◌then◌else◌,
  leb, ◌==◌, retain, is_empty, Result, ok, err, and_then_ok,
}
use flowtile_wm.Base.Text.{codes, trim, eq_codes, to_ascii_lower, to_ascii_upper, split, parse_u32}
use flowtile_wm.Hotkeys.Keys.{Win32}

pub record ParsedTrigger : Type 0 where
  pub register_modifiers : ℕ
  pub required_modifiers : ℕ
  pub key : ℕ

-- The errors, which the source tells apart by their texts.
pub data TriggerError : Type 0 where
  empty_trigger : TriggerError
  several_keys : (trigger : List ℕ) → TriggerError
  no_key : (trigger : List ℕ) → TriggerError
  unsupported_key : (token : List ℕ) → TriggerError

pub data Modifier : Type 0 where
  alt control shift win : Modifier

abbrev pub is_text : String → List ℕ → Bool
is_text text token = eq_codes token (codes text)

unfoldable pub modifier_named : List ℕ → Option Modifier
modifier_named token =
    let lower = map to_ascii_lower token in
    if is_text "alt" lower
    then some alt
    else if is_text "ctrl" lower || is_text "control" lower
    then some control
    else if is_text "shift" lower
    then some shift
    else if is_text "win" lower || is_text "windows" lower
    then some win
    else none

-- `'A'..='Z'` and `'0'..='9'`.
abbrev is_letter_or_digit : ℕ → Bool
is_letter_or_digit c = (leb 65 c && leb c 90) || (leb 48 c && leb c 57)

-- The arms with a literal text, in order.
abbrev named_key : List ℕ → Option ℕ
named_key name =
    if is_text "SPACE" name
    then some 32
    else if is_text "TAB" name
    then some 9
    else if is_text "ENTER" name
    then some 13
    else if is_text "ESC" name || is_text "ESCAPE" name
    then some 27
    else if is_text "BACKSPACE" name
    then some 8
    else if is_text "DELETE" name || is_text "DEL" name
    then some 46
    else if is_text "HOME" name
    then some 36
    else if is_text "END" name
    then some 35
    else if is_text "PAGEUP" name || is_text "PGUP" name
    then some 33
    else if is_text "PAGEDOWN" name || is_text "PGDN" name
    then some 34
    else if is_text "LEFT" name
    then some 37
    else if is_text "UP" name
    then some 38
    else if is_text "RIGHT" name
    then some 39
    else if is_text "DOWN" name
    then some 40
    else none

-- `trim_start_matches('F')`.
unfoldable pub without_f : List ℕ → List ℕ
without_f [] = []
without_f (c ∷ s) = let rest = without_f s in if c == 70 then rest else c ∷ s

-- The last two arms: a function key or an error.
unfoldable pub function_key : List ℕ → List ℕ → Result TriggerError ℕ
function_key token [] = err (unsupported_key token)
function_key token (c ∷ s) =
    if c == 70
    then elim (parse_u32 (without_f (c ∷ s))) [
      | none ↦ err (unsupported_key token)
      | some number ↦
          if leb 1 number && leb number 24
          then ok (112 + number - 1)
          else err (unsupported_key token)
    ]
    else err (unsupported_key token)

abbrev key_of_name : List ℕ → List ℕ → Result TriggerError ℕ
key_of_name token name = elim (named_key name) [ some vk ↦ ok vk | none ↦ function_key token name ]

-- A text of one byte is one code point below 128.
abbrev key_of_normalized : List ℕ → List ℕ → Result TriggerError ℕ
key_of_normalized token (c ∷ []) = if is_letter_or_digit c then ok c else key_of_name token (c ∷ [])
key_of_normalized token [] = key_of_name token []
key_of_normalized token (c ∷ d ∷ s) = key_of_name token (c ∷ d ∷ s)

unfoldable pub resolve_virtual_key : List ℕ → Result TriggerError ℕ
resolve_virtual_key token = key_of_normalized token (map to_ascii_upper (trim token))

unfoldable pub trigger_tokens : List ℕ → List (List ℕ)
trigger_tokens trigger = retain (λ token. not (is_empty token)) (map trim (split 43 trigger))

module _ (w : Win32) where
  abbrev pub modifier_bit : Modifier → ℕ
  modifier_bit alt = w.mod_alt
  modifier_bit control = w.mod_control
  modifier_bit shift = w.mod_shift
  modifier_bit win = w.mod_win

  -- The loop over the tokens: the mask and the token of the key.
  unfoldable pub scan_tokens :
      List ℕ → List (List ℕ) → ℕ → Option (List ℕ) → Result TriggerError (ℕ × Option (List ℕ))
  scan_tokens trigger [] mask key = ok (mask, key)
  scan_tokens trigger (token ∷ tokens) mask key = elim (modifier_named token) [
    | some modifier ↦ scan_tokens trigger tokens (bit_or mask (modifier_bit modifier)) key
    | none ↦ elim key [
      | none ↦ scan_tokens trigger tokens mask (some token)
      | some other ↦ err (several_keys trigger)
    ]
  ]

  -- What follows the loop.
  abbrev pub parsed : List ℕ → ℕ → Option (List ℕ) → Result TriggerError ParsedTrigger
  parsed trigger mask none = err (no_key trigger)
  parsed trigger mask (some token) = and_then_ok (resolve_virtual_key token) (λ key. ok (record {
    register_modifiers = bit_or mask w.mod_norepeat;
    required_modifiers = mask;
    key = key;
  }))

  unfoldable pub parse_trigger : List ℕ → Result TriggerError ParsedTrigger
  parse_trigger trigger =
      if is_empty (trigger_tokens trigger)
      then err empty_trigger
      else and_then_ok (scan_tokens trigger (trigger_tokens trigger) 0 none)
          (λ scanned. parsed trigger scanned.0 scanned.1)
