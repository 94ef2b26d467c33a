-- ===== src/Domain/Ids.antt =====
-- crates/domain/src/ids.rs: the text of an identity. A text is the list of its bytes, and an
-- identity is its text.
use slotpilot.Prelude.{
  ℕ, Bool, true, Option, none, some, List, [], ◌∷◌, length, if◌then◌else◌, within, ◌==◌, ◌&&◌, ◌||◌,
}
use slotpilot.Prelude.Results.{Result, ok, err}

pub data IdError : Type 0 where
  wrong_prefix : List ℕ → IdError
  invalid_length invalid_character : IdError

unfoldable pub strip_prefix : List ℕ → List ℕ → Option (List ℕ)
strip_prefix [] text = some text
strip_prefix (p ∷ ps) [] = none
strip_prefix (p ∷ ps) (b ∷ bs) = let rest = strip_prefix ps bs in if p == b then rest else none

abbrev pub is_portable : ℕ → Bool
is_portable byte = within 97 122 byte || within 48 57 byte

abbrev pub all_portable : List ℕ → Bool
all_portable [] = true
all_portable (b ∷ bs) = is_portable b && all_portable bs

-- `from_str` of the identity type with this prefix.
unfoldable pub parse_id : List ℕ → List ℕ → Result IdError (List ℕ)
parse_id prefix text = elim (strip_prefix prefix text) [
  | none ↦ err (wrong_prefix prefix)
  | some payload ↦
      if within 8 64 (length payload)
      then if all_portable payload then ok text else err invalid_character
      else err invalid_length
]

-- "rxw_".
abbrev pub receive_window_prefix : List ℕ
receive_window_prefix = 114 ∷ 120 ∷ 119 ∷ 95 ∷ []
