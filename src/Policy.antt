-- ===== src/Policy.antt =====
-- agent/internal/policy/policy.go: which requests a read-only device may send. The patterns of the
-- source are data, and `matches` finds whether one of them describes a whole text.
pub mod Clear
pub mod Version
pub mod Allowed
mod Tests
use docker_mobile.Base.{
  ℕ, ◌-◌, ◌/◌, ◌%◌, Bool, false, ◌&&◌, ◌||◌, not, Option, none, some, List, [], ◌∷◌, leb,
  if◌then◌else◌, nat_beq, Text, codes, ◌==◌, text_eq, cut_prefix, has_prefix, split, contains_byte,
}

-- A part of a pattern: a fixed text, a first byte and any number of further bytes of two classes, or
-- one of several texts.
pub data Piece : Type 0 where
  exactly : Text → Piece
  word : (ℕ → Bool) → (ℕ → Bool) → Piece
  one_of : List Text → Piece

pub between : ℕ → ℕ → ℕ → Bool
between low high c = leb low c && leb c high

-- `[A-Za-z0-9]`
pub letter_or_digit : ℕ → Bool
unfolding between
letter_or_digit c = between b'A' b'Z' c || (between b'a' b'z' c || between b'0' b'9' c)

-- `[A-Za-z0-9_.-]`
pub id_rest : ℕ → Bool
unfolding letter_or_digit contains_byte
id_rest c = letter_or_digit c || contains_byte c (codes "_.-")

-- `[A-Za-z0-9_.:@/-]`
pub image_rest : ℕ → Bool
unfolding letter_or_digit contains_byte
image_rest c = letter_or_digit c || contains_byte c (codes "_.:@/-")

abbrev pub id_seg : Piece
id_seg = word letter_or_digit id_rest

abbrev pub image_seg : Piece
image_seg = word letter_or_digit image_rest

-- `readOnly`.
abbrev pub read_only : List (List Piece)
read_only =
    (exactly (codes "/_ping") ∷ [])
    ∷ (exactly (codes "/version") ∷ [])
    ∷ (exactly (codes "/info") ∷ [])
    ∷ (exactly (codes "/system/df") ∷ [])
    ∷ (exactly (codes "/events") ∷ [])
    ∷ (exactly (codes "/containers/json") ∷ [])
    ∷ (exactly (codes "/containers/")
        ∷ id_seg
        ∷ exactly (codes "/")
        ∷ one_of (codes "json" ∷ codes "logs" ∷ codes "stats" ∷ [])
        ∷ [])
    ∷ (exactly (codes "/images/json") ∷ [])
    ∷ (exactly (codes "/images/")
        ∷ image_seg
        ∷ exactly (codes "/")
        ∷ one_of (codes "json" ∷ codes "history" ∷ [])
        ∷ [])
    ∷ (exactly (codes "/networks") ∷ [])
    ∷ (exactly (codes "/networks/") ∷ id_seg ∷ [])
    ∷ (exactly (codes "/volumes") ∷ [])
    ∷ (exactly (codes "/volumes/") ∷ id_seg ∷ [])
    ∷ (exactly (codes "/agent/v1/whoami") ∷ [])
    ∷ []

-- After a prefix, if the text has it.
after_prefix : (Text → Bool) → Option Text → Bool
after_prefix rest none = false
after_prefix rest (some s) = rest s

-- Any number of bytes of a class, and then the rest.
pub run_then : (ℕ → Bool) → (Text → Bool) → Text → Bool
run_then next rest [] = rest []
run_then next rest (c ∷ s) =
    let further = run_then next rest s in rest (c ∷ s) || (next c && further)

word_then : (ℕ → Bool) → (ℕ → Bool) → (Text → Bool) → Text → Bool
unfolding run_then
word_then first next rest [] = false
word_then first next rest (c ∷ s) = first c && run_then next rest s

any_then : List Text → (Text → Bool) → Text → Bool
unfolding after_prefix
any_then [] rest s = false
any_then (t ∷ ts) rest s = after_prefix rest (cut_prefix t s) || any_then ts rest s

unfoldable pub matches : List Piece → Text → Bool
unfolding after_prefix word_then any_then
matches [] s = s == []
matches (exactly t ∷ ps) s = after_prefix (matches ps) (cut_prefix t s)
matches (word first next ∷ ps) s = word_then first next (matches ps) s
matches (one_of ts ∷ ps) s = any_then ts (matches ps) s

-- Whether a pattern of the list describes the path.
unfoldable pub listed : List (List Piece) → Text → Bool
listed [] path = false
listed (p ∷ ps) path = matches p path || listed ps path

-- The digits at the start of a text, and what follows them.
drop_digits : Text → Text
drop_digits [] = []
drop_digits (c ∷ s) = let rest = drop_digits s in if between b'0' b'9' c then rest else c ∷ s

has_digit : Text → Bool
has_digit [] = false
has_digit (c ∷ s) = between b'0' b'9' c

-- What follows `^[0-9]+`.
after_number : Option Text → Option Text
unfolding has_digit drop_digits
after_number none = none
after_number (some s) = if has_digit s then some (drop_digits s) else none

after_dot : Option Text → Option Text
after_dot none = none
after_dot (some s) = cut_prefix (codes ".") s

ends_number : Option Text → Option Text
ends_number none = none
ends_number (some []) = some []
ends_number (some (c ∷ s)) = if nat_beq c b'/' then some (c ∷ s) else none

-- What follows the version where `apiVersion` matches, from the slash on; the empty text where the
-- version is the end of the path.
unfoldable pub after_version : Text → Option Text
unfolding after_number after_dot ends_number
after_version path =
    ends_number (after_number (after_dot (after_number (cut_prefix (codes "/v") path))))

-- The path without its version. A path that ends with the version is refused.
unfoldable pub unversioned : Text → Option Text → Option Text
unversioned path none = some path
unversioned path (some []) = none
unversioned path (some (c ∷ s)) = some (c ∷ s)

is_listed : Option Text → Bool
unfolding listed
is_listed none = false
is_listed (some path) = listed read_only path

-- `strings.Contains(path, "//")`.
unfoldable pub has_double_slash : Text → Bool
has_double_slash [] = false
has_double_slash (c ∷ s) = has_prefix (codes "//") (c ∷ s) || has_double_slash s

unfoldable pub has_dot_segment : List Text → Bool
has_dot_segment [] = false
has_dot_segment (t ∷ ts) = t == codes "." || (t == codes ".." || has_dot_segment ts)

-- What a server further down might read differently.
unfoldable pub is_ambiguous : Text → Bool
is_ambiguous path =
    contains_byte b'%' path
    || (contains_byte 92 path || (has_double_slash path || has_dot_segment (split b'/' path)))

-- `AllowedReadOnly`.
unfoldable pub allowed_read_only : Text → Text → Bool
unfolding is_listed
allowed_read_only method path =
    (method == codes "GET" || method == codes "HEAD")
    && (not (is_ambiguous path) && is_listed (unversioned path (after_version path)))
