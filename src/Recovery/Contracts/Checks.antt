-- ===== src/Recovery/Contracts/Checks.antt =====
-- The helpers of contracts.py that check one field: identifiers, reasons, digests and revisions.
use lil_tweak.Prelude.{
  ℕ, Bool, false, ◌&&◌, ◌||◌, String, Option, some, none, List, [], ◌∷◌, leb, nat_eq, all, length,
  string_Eq, option_Eq, Result, ok, guard,
}
use lil_tweak.Prelude.Text.{codes, is_hex_text, is_lower, is_upper, is_digit}

abbrev pub schema_version : String
schema_version = "failure-recovery-v1"

-- A `ValueError` is known by its text.
abbrev pub Checked : Type 0 → Type 0
Checked A = Result String A

is_alnum : ℕ → Bool
is_alnum c = is_upper c || is_lower c || is_digit c

-- `[A-Za-z0-9._:/-]`
is_id_char : ℕ → Bool
unfolding is_alnum
is_id_char c =
    is_alnum c || nat_eq c b'.' || nat_eq c b'_' || nat_eq c b':' || nat_eq c b'/' || nat_eq c b'-'

is_id_codes : List ℕ → Bool
unfolding is_id_char
is_id_codes [] = false
is_id_codes (c ∷ rest) = is_alnum c && all is_id_char rest && leb (length rest) 255

-- `_ID.fullmatch(value)`
unfoldable pub is_id : String → Bool
unfolding is_id_codes codes
is_id value = is_id_codes (codes value)

is_reason_codes : List ℕ → Bool
is_reason_codes [] = false
is_reason_codes (c ∷ rest) =
    is_lower c && all (λ d. is_lower d || is_digit d || nat_eq d b'_') rest && leb (length rest) 127

-- `_REASON.fullmatch(value)`
unfoldable pub is_reason : String → Bool
unfolding is_reason_codes codes
is_reason value = is_reason_codes (codes value)

-- `_REVISION.fullmatch(value)`
unfoldable pub is_revision : String → Bool
unfolding is_hex_text
is_revision value = is_hex_text 40 value || is_hex_text 64 value

unfoldable pub require_id : String → String → Checked (Unit {0})
require_id value code = guard (is_id value) code

-- `if value is not None: _require_id(value, code)`
unfoldable pub require_optional_id : Option String → String → Checked (Unit {0})
unfolding require_id
require_optional_id none code = ok tt
require_optional_id (some value) code = require_id value code

unfoldable pub require_digest : Option String → String → Checked (Unit {0})
require_digest none code = ok tt
require_digest (some value) code = guard (is_hex_text 64 value) code

unfoldable pub require_revision : Option String → Checked (Unit {0})
require_revision none = ok tt
require_revision (some value) = guard (is_revision value) "source_revision_invalid"
