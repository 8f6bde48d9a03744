-- ===== src/Branches/Grammar.antt =====
-- branches.py: the grammar of names against its description by segments, and what `validate_branch_name`
-- answers.
use pyboltzmann.Prelude.{
  ◌+◌, ◌≡◌, refl, Bool, true, false, not, ◌&&◌, ◌||◌, [], ◌∷◌, arith, eqb, leb, if◌then◌else◌,
  length, all,
}
use pyboltzmann.Prelude.Order.{◌==◌}
use pyboltzmann.Prelude.Bytes.{bytes_order}
use pyboltzmann.Prelude.Texts.{Text, replace, split}
use pyboltzmann.Exceptions.{ok, raise, invalid_branch_name}
use pyboltzmann.Branches

-- A segment: characters of a segment, the first a letter or a digit.
abbrev pub is_segment : Text → Bool
is_segment [] = false
is_segment (c ∷ rest) = Branches.is_alnum c && all Branches.is_segment_char rest

abbrev pub is_name : Text → Bool
is_name name = is_segment ((split b'/' name).0) && all is_segment ((split b'/' name).1)

match_name-split :
    (name : Text)
    → (Branches.match_name true name ≡ is_name name)
      × (Branches.match_name false name ≡ (
          all Branches.is_segment_char ((split b'/' name).0)
          && all is_segment ((split b'/' name).1)))
unfolding Branches.match_name all
match_name-split [] = (refl, refl)
match_name-split (c ∷ rest) =
    let ih = match_name-split rest in (ground (arith, ih.0, ih.1), ground (arith, ih.0, ih.1))

-- A branch name is valid exactly if it splits at `/` into segments that each start with a letter or a
-- digit and go on with letters, digits, `_` and `-`, and if it is the default branch or its tag fits in
-- 128 characters; any other name is refused.
pub validate_branch_name-is_name :
    (name : Text)
    → Branches.validate_branch_name name ≡ (
        if is_name name && (name == Branches.default_branch || leb (3 + length name) 128)
        then ok name
        else raise invalid_branch_name)
unfolding Branches.validate_branch_name
validate_branch_name-is_name name = ground (arith, (match_name-split name).0)

-- A valid name holds no `.`, and its characters fit a tag once `/` is replaced.
pub match_name_no_dot :
    (at_start : Bool) (name : Text)
    → Branches.match_name at_start name ≡ true
    → all (λ c. not (eqb c b'.')) name ≡ true
unfolding Branches.match_name all
match_name_no_dot at_start [] h = refl
match_name_no_dot true (c ∷ rest) h = ground (arith, match_name_no_dot false rest)
match_name_no_dot false (c ∷ rest) h = ground (arith, match_name_no_dot (eqb c b'/') rest)

pub match_name-replace :
    (at_start : Bool) (name : Text)
    → Branches.match_name at_start name ≡ true
    → all Branches.is_tag_char (replace b'/' b'.' name) ≡ true
unfolding Branches.match_name Branches.is_tag_char all replace
match_name-replace at_start [] h = refl
match_name-replace true (c ∷ rest) h = ground (arith, match_name-replace false rest)
match_name-replace false (c ∷ rest) h = ground (arith, match_name-replace (eqb c b'/') rest)
