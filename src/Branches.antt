-- ===== src/Branches.antt =====
-- branches.py: what a branch name is, and the tag that it publishes to. Names and tags are lists of
-- code points; the regular expressions are matched character by character.
pub mod Grammar
pub mod RoundTrip
mod Tests
use pyboltzmann.Prelude.{
  ℕ, ◌+◌, Bool, true, false, not, ◌&&◌, ◌||◌, Option, none, some, List, [], ◌∷◌, ◌++◌, leb, ltb,
  eqb, if◌then◌else◌, length, drop, all,
}
use pyboltzmann.Prelude.Order.{◌==◌}
use pyboltzmann.Prelude.Bytes.{bytes_order}
use pyboltzmann.Prelude.Texts.{Text, codes, starts_with, replace}
use pyboltzmann.Exceptions.{Result, ok, raise, invalid_branch_name, ◌>>=◌}

abbrev pub default_branch : Text
default_branch = codes "main"

abbrev pub default_tag : Text
default_tag = codes "latest"

abbrev pub branch_tag_prefix : Text
branch_tag_prefix = codes "br."

abbrev pub max_tag_length : ℕ
max_tag_length = 128

-- `[A-Za-z0-9]`
unfoldable pub is_alnum : ℕ → Bool
is_alnum c =
    (leb b'A' c && leb c b'Z') || ((leb b'a' c && leb c b'z') || (leb b'0' c && leb c b'9'))

-- `[A-Za-z0-9_-]`
unfoldable pub is_segment_char : ℕ → Bool
unfolding is_alnum
is_segment_char c = is_alnum c || (eqb c b'_' || eqb c b'-')

-- `[A-Za-z0-9_]` and `[A-Za-z0-9._-]`
unfoldable pub is_tag_start : ℕ → Bool
unfolding is_alnum
is_tag_start c = is_alnum c || eqb c b'_'

unfoldable pub is_tag_char : ℕ → Bool
unfolding is_segment_char
is_tag_char c = is_segment_char c || eqb c b'.'

-- `_NAME.fullmatch(name)`, at the start of a segment or within one
unfoldable pub match_name : Bool → Text → Bool
unfolding is_segment_char
match_name at_start [] = not at_start
match_name true (c ∷ rest) = is_alnum c && match_name false rest
match_name false (c ∷ rest) = match_name (eqb c b'/') rest && (eqb c b'/' || is_segment_char c)

-- `_TAG.fullmatch(tag)`
unfoldable pub match_tag : Text → Bool
unfolding is_tag_start is_tag_char
match_tag [] = false
match_tag (c ∷ rest) = is_tag_start c && (all is_tag_char rest && leb (length rest) 127)

unfoldable pub validate_branch_name : Text → Result Text
unfolding match_name
validate_branch_name name =
    if not (match_name true name)
    then raise invalid_branch_name
    else if not (name == default_branch)
        && ltb max_tag_length (length branch_tag_prefix + length name)
    then raise invalid_branch_name
    else ok name

unfoldable pub tag_for : Text → Text → Result Text
unfolding validate_branch_name
tag_for name tag_of_default = do
  _ ← validate_branch_name name
  ok (
      if name == default_branch
      then tag_of_default
      else branch_tag_prefix ++ replace b'/' b'.' name)

unfoldable pub branch_for_tag : Text → Text → Option Text
unfolding validate_branch_name match_tag
branch_for_tag tag tag_of_default =
    if tag == tag_of_default
    then some default_branch
    else if not (starts_with tag branch_tag_prefix) || not (match_tag tag)
    then none
    else let name : Text = replace b'.' b'/' (drop (length branch_tag_prefix) tag) in
      elim (validate_branch_name name) [
        | raise _ ↦ none
        | ok _ ↦ if name == default_branch then none else some name
      ]
