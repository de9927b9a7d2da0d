-- ===== src/Hotkeys/Triggers.antt =====
-- What the parser of triggers in apps/core-daemon/src/hotkeys/trigger.rs makes of the tokens.
use Prim.Native.Nat.{bit_or}
use mathlib.Core.Bool.{or_assoc, or-false}
use flowtile_wm.Base.{
  ℕ, ◌≡◌, refl, sym, ap, ◌∙◌, Bool, true, false, ◌||◌, Option, none, some, inl, inr, Option-cases,
  List, [], ◌∷◌, if◌then◌else◌, ◌==◌, ==_iff, any, retain, is_empty, Result, ok, err, and_then_ok,
}
use flowtile_wm.Hotkeys.Keys.{Win32, IsWin32}
use flowtile_wm.Hotkeys.Masks.{Modifiers, mask_of, modifiers, both, both_sound}
use flowtile_wm.Hotkeys.Trigger.{
  ParsedTrigger, TriggerError, empty_trigger, several_keys, no_key, Modifier, alt, control, shift,
  win, modifier_named, modifier_bit, scan_tokens, parsed, trigger_tokens, parse_trigger,
}

abbrev pub eq_modifier : Modifier → Modifier → Bool
eq_modifier alt alt = true
eq_modifier control control = true
eq_modifier shift shift = true
eq_modifier win win = true
eq_modifier _ _ = false

abbrev pub is_modifier : Option Modifier → Modifier → Bool
is_modifier none m = false
is_modifier (some n) m = eq_modifier n m

abbrev pub is_key : Option Modifier → Bool
is_key none = true
is_key (some n) = false

-- Whether some token is the name of a modifier, and the tokens that are none.
unfoldable pub mentions : Modifier → List (List ℕ) → Bool
mentions m = any (λ token. is_modifier (modifier_named token) m)

unfoldable pub key_tokens : List (List ℕ) → List (List ℕ)
key_tokens = retain (λ token. is_key (modifier_named token))

unfoldable pub mentioned : List (List ℕ) → Modifiers
mentioned tokens = record {
  control = mentions control tokens;
  alt = mentions alt tokens;
  shift = mentions shift tokens;
  win = mentions win tokens;
}

-- Adding a modifier to a mask.
add : Modifier → Modifiers → Modifiers
add m n = record {
  control = n.control || eq_modifier m control;
  alt = n.alt || eq_modifier m alt;
  shift = n.shift || eq_modifier m shift;
  win = n.win || eq_modifier m win;
}

abbrev value : Modifier → ℕ
value alt = 1
value control = 2
value shift = 4
value win = 8

added : Modifier → Bool → Bool → Bool → Bool → Bool
added m c a s l =
    bit_or (mask_of (modifiers c a s l)) (value m) == mask_of (add m (modifiers c a s l))

added_everywhere :
    (m : Modifier) → both (λ c. both (λ a. both (λ s. both (λ l. added m c a s l)))) ≡ true
unfolding both added add
added_everywhere alt = refl
added_everywhere control = refl
added_everywhere shift = refl
added_everywhere win = refl

bit_or-add : (m : Modifier) (n : Modifiers) → bit_or (mask_of n) (value m) ≡ mask_of (add m n)
unfolding added add
bit_or-add m n =
    let h₁ = both_sound _ (added_everywhere m) n.control in
    let h₂ = both_sound _ h₁ n.alt in
    let h₃ = both_sound _ h₂ n.shift in (==_iff _ _).0 (both_sound _ h₃ n.win)

-- The modifiers of two sources.
join : Modifiers → Modifiers → Modifiers
join m n = record {
  control = m.control || n.control;
  alt = m.alt || n.alt;
  shift = m.shift || n.shift;
  win = m.win || n.win;
}

abbrev listed : Option (List ℕ) → List (List ℕ) → List (List ℕ)
listed none tokens = tokens
listed (some token) tokens = token ∷ tokens

-- The mask and the token of the key, from the modifiers and the tokens of keys.
abbrev pub found : List ℕ → ℕ → List (List ℕ) → Result TriggerError (ℕ × Option (List ℕ))
found trigger mask [] = ok (mask, none)
found trigger mask (token ∷ []) = ok (mask, some token)
found trigger mask (token ∷ other ∷ more) = err (several_keys trigger)

module _ (w : Win32) (v : IsWin32 w) where
  bit-value : (m : Modifier) → modifier_bit w m ≡ value m
  bit-value alt = v.alt
  bit-value control = v.control
  bit-value shift = v.shift
  bit-value win = v.win

  bit-added :
      (m : Modifier) (n : Modifiers) → bit_or (mask_of n) (modifier_bit w m) ≡ mask_of (add m n)
  bit-added m n = ap (bit_or (mask_of n)) (bit-value m) ∙ bit_or-add m n

  add-mentioned :
      (n : Modifiers) (m : Modifier) (token : List ℕ) (tokens : List (List ℕ))
      → modifier_named token ≡ some m
      → join (add m n) (mentioned tokens) ≡ join n (mentioned (token ∷ tokens))
  unfolding mentioned mentions join add
  add-mentioned n m token tokens e =
      rw
        (
          e,
          or_assoc n.control (eq_modifier m control) (mentions control tokens),
          or_assoc n.alt (eq_modifier m alt) (mentions alt tokens),
          or_assoc n.shift (eq_modifier m shift) (mentions shift tokens),
          or_assoc n.win (eq_modifier m win) (mentions win tokens),
        )
        refl

  skip :
      (n : Modifiers) (token : List ℕ) (tokens : List (List ℕ))
      → modifier_named token ≡ none
      → mentioned (token ∷ tokens) ≡ mentioned tokens
  unfolding mentioned mentions
  skip n token tokens e = rw e refl

  join-nothing : (n : Modifiers) → join n (mentioned []) ≡ n
  unfolding mentioned mentions join
  join-nothing n = rw (or-false n.control, or-false n.alt, or-false n.shift, or-false n.win) refl

  scan-modifier :
      (trigger : List ℕ) (token : List ℕ) (tokens : List (List ℕ)) (n : Modifiers)
      (key : Option (List ℕ)) (m : Modifier)
      → modifier_named token ≡ some m
      → scan_tokens w trigger tokens (mask_of (add m n)) key
        ≡ found trigger
            (mask_of (join (add m n) (mentioned tokens)))
            (listed key (key_tokens tokens))
      → scan_tokens w trigger (token ∷ tokens) (mask_of n) key
        ≡ found trigger
            (mask_of (join n (mentioned (token ∷ tokens))))
            (listed key (key_tokens (token ∷ tokens)))
  unfolding scan_tokens key_tokens
  scan-modifier trigger token tokens n key m e rest =
      rw (e, scan_tokens)
        (ap (λ k. scan_tokens w trigger tokens k key) (bit-added m n)
          ∙ rest
          ∙ ap (λ k. found trigger (mask_of k) (listed key (key_tokens tokens)))
              (add-mentioned n m token tokens e))

  -- The loop finds the modifiers that are mentioned and the tokens of keys, in any order.
  scan_tokens_found :
      (trigger : List ℕ) (tokens : List (List ℕ)) (n : Modifiers) (key : Option (List ℕ))
      → scan_tokens w trigger tokens (mask_of n) key
        ≡ found trigger (mask_of (join n (mentioned tokens))) (listed key (key_tokens tokens))
  unfolding scan_tokens key_tokens
  scan_tokens_found trigger [] n none = ap (λ k. ok (mask_of k, none)) (sym (join-nothing n))
  scan_tokens_found trigger [] n (some token) =
      ap (λ k. ok (mask_of k, some token)) (sym (join-nothing n))
  scan_tokens_found trigger (token ∷ tokens) n none = elim (Option-cases (modifier_named token)) [
    | inl e ↦
        rw (e, scan_tokens)
          (scan_tokens_found trigger tokens n (some token)
            ∙ ap (λ k. found trigger (mask_of (join n k)) (token ∷ key_tokens tokens))
                (sym (skip n token tokens e)))
    | inr (m, e) ↦
        scan-modifier trigger token tokens n none m e
          (scan_tokens_found trigger tokens (add m n) none)
  ]
  scan_tokens_found trigger (token ∷ tokens) n (some other) =
      elim (Option-cases (modifier_named token)) [
        | inl e ↦ rw (e, scan_tokens) refl
        | inr (m, e) ↦
            scan-modifier trigger token tokens n (some other) m e
              (scan_tokens_found trigger tokens (add m n) (some other))
      ]

-- What the parser should give: the first that applies of no token, no key, several keys, and the key
-- with the modifiers that are mentioned.
abbrev described_tokens : Win32 → List ℕ → List (List ℕ) → Result TriggerError ParsedTrigger
described_tokens w trigger tokens = elim (key_tokens tokens) [
  | [] ↦ err (if is_empty tokens then empty_trigger else no_key trigger)
  | key ∷ more ↦
      if is_empty more
      then parsed w trigger (mask_of (mentioned tokens)) (some key)
      else err (several_keys trigger)
]

unfoldable pub described : Win32 → List ℕ → Result TriggerError ParsedTrigger
described w trigger = described_tokens w trigger (trigger_tokens trigger)

described_tokens_found :
    (w : Win32) (trigger : List ℕ) (token : List ℕ) (tokens keys : List (List ℕ)) (mask : ℕ)
    → and_then_ok (found trigger mask keys) (λ scanned. parsed w trigger scanned.0 scanned.1)
      ≡ elim keys [
        | [] ↦ err (no_key trigger)
        | key ∷ more ↦
            if is_empty more then parsed w trigger mask (some key) else err (several_keys trigger)
      ]
described_tokens_found w trigger token tokens [] mask = refl
described_tokens_found w trigger token tokens (key ∷ []) mask = refl
described_tokens_found w trigger token tokens (key ∷ other ∷ more) mask = refl

-- A trigger parses as the modifiers that its tokens mention, in any order and number, together with
-- its only token that is none, which must be the name of a key; otherwise it has the error for no
-- token, no key, several keys or an unknown key. The masks of Win32 have their documented values.
pub parse_trigger-described :
    (w : Win32) → IsWin32 w → (trigger : List ℕ) → parse_trigger w trigger ≡ described w trigger
unfolding parse_trigger described key_tokens mentioned join
parse_trigger-described w v trigger = by_tokens (trigger_tokens trigger)
  where
    by_tokens :
        (tokens : List (List ℕ))
        → (if is_empty tokens
            then err empty_trigger
            else and_then_ok
                (scan_tokens w trigger tokens 0 none)
                (λ scanned. parsed w trigger scanned.0 scanned.1))
          ≡ described_tokens w trigger tokens
    by_tokens [] = refl
    by_tokens (token ∷ tokens) =
        rw (scan_tokens_found w v trigger (token ∷ tokens) (modifiers false false false false) none)
          (described_tokens_found w trigger token tokens (key_tokens (token ∷ tokens)) _)
