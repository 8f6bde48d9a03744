-- ===== src/Branches/Tests.antt =====
-- branches.py on names and tags.
use pyboltzmann.Prelude.{◌≡◌, arith, refl, true, false, Option, none, some}
use pyboltzmann.Prelude.Bytes.{bytes_lt}
use pyboltzmann.Prelude.Order.{◌==◌}
use pyboltzmann.Prelude.Texts.{Text, codes, starts_with}
use pyboltzmann.Exceptions.{ok, raise, invalid_branch_name}
use pyboltzmann.Branches.{validate_branch_name, tag_for, branch_for_tag, default_tag}
use pyboltzmann.Branches.Grammar.{is_name, validate_branch_name-is_name}
use pyboltzmann.Branches.RoundTrip.{
  branch_for_tag-tag_for, tag_for-branch_for_tag, tag_for-injective,
}

abbrev feature : Text
feature = codes "feature/new-index_2"

abbrev feature_tag : Text
feature_tag = codes "br.feature.new-index_2"

feature_ok : tag_for feature default_tag ≡ ok feature_tag
unfolding tag_for ◌==◌ bytes_lt pyboltzmann.Prelude.Texts.replace
feature_ok = refl

-- A release tag and `br.main` name no branch.
release_tag : branch_for_tag (codes "v1") default_tag ≡ none
unfolding branch_for_tag ◌==◌ bytes_lt starts_with
release_tag = refl

main_tag : branch_for_tag (codes "br.main") default_tag ≡ none
unfolding branch_for_tag ◌==◌ bytes_lt starts_with pyboltzmann.Prelude.all
    pyboltzmann.Prelude.Texts.replace pyboltzmann.Prelude.drop
main_tag = refl

dotted : validate_branch_name (codes "a.b") ≡ raise invalid_branch_name
unfolding validate_branch_name ◌==◌ bytes_lt
dotted = refl

trailing : validate_branch_name (codes "a/") ≡ raise invalid_branch_name
unfolding validate_branch_name ◌==◌ bytes_lt
trailing = refl

feature_found : branch_for_tag feature_tag default_tag ≡ some feature
unfolding branch_for_tag ◌==◌ bytes_lt starts_with pyboltzmann.Prelude.all
    pyboltzmann.Prelude.Texts.replace pyboltzmann.Prelude.drop
feature_found = refl

default_tag_free : starts_with default_tag (codes "br.") ≡ false
unfolding starts_with
default_tag_free = refl

tag_not_default : feature_tag ≡ default_tag → feature ≡ codes "main"
tag_not_default e = ground arith

branch_for_tag-tag_for_example : branch_for_tag feature_tag default_tag ≡ some feature
branch_for_tag-tag_for_example =
    branch_for_tag-tag_for feature feature_tag default_tag tag_not_default feature_ok

tag_for-branch_for_tag_example : tag_for feature default_tag ≡ ok feature_tag
tag_for-branch_for_tag_example =
    tag_for-branch_for_tag feature_tag default_tag feature feature_found

tag_for-injective_case : feature ≡ feature
tag_for-injective_case =
    tag_for-injective feature feature feature_tag default_tag default_tag_free feature_ok feature_ok

validate_branch_name-is_name_example : validate_branch_name feature ≡ ok feature
unfolding validate_branch_name is_name ◌==◌ bytes_lt pyboltzmann.Prelude.all
validate_branch_name-is_name_example = validate_branch_name-is_name feature
