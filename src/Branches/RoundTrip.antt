-- ===== src/Branches/RoundTrip.antt =====
-- branches.py: `tag_for` and `branch_for_tag` are inverse to each other.
use pyboltzmann.Prelude.{
  ◌+◌, ◌≡◌, ◌⊎◌, refl, sym, ap, ◌∙◌, inl, inr, true, false, not, ◌||◌, some, [], ◌∷◌, ◌++◌, arith,
  eqb, leb, Bool-cases, if◌then◌else◌, length, all, drop, drop-append,
}
use pyboltzmann.Prelude.Order.{◌==◌, ==_sound, ==_refl}
use pyboltzmann.Prelude.Bytes.{bytes_lt, bytes_order}
use pyboltzmann.Prelude.Texts.{
  Text, replace, starts_with, starts_with-append, starts_with-drop, replace-replace, length-replace,
}
use pyboltzmann.Exceptions.{ok, Result-cases}
use pyboltzmann.Branches
use pyboltzmann.Branches.Grammar.{match_name_no_dot, match_name-replace}

abbrev body : Text → Text
body name = replace b'/' b'.' name

-- What a name that is validated looks like.
validate_branch_name_ok :
    (name checked : Text)
    → Branches.validate_branch_name name ≡ ok checked
    → (Branches.match_name true name ≡ true)
      × (((name == Branches.default_branch) || leb (3 + length name) 128) ≡ true)
      × (checked ≡ name)
unfolding Branches.validate_branch_name
validate_branch_name_ok name checked h = ground arith

tag_for_ok :
    (name tag tag_of_default : Text)
    → Branches.tag_for name tag_of_default ≡ ok tag
    → (Branches.validate_branch_name name ≡ ok name)
      × (tag ≡ (
          if name == Branches.default_branch
          then tag_of_default
          else Branches.branch_tag_prefix ++ body name))
unfolding Branches.tag_for Branches.validate_branch_name
tag_for_ok name tag tag_of_default h = ground arith

match_tag-body :
    (name : Text)
    → Branches.match_name true name ≡ true
    → leb (3 + length name) 128 ≡ true
    → Branches.match_tag (Branches.branch_tag_prefix ++ body name) ≡ true
unfolding Branches.match_tag all
match_tag-body name m h =
    ground (arith, match_name-replace true name m, length-replace b'/' b'.' name)

-- A branch other than the default one is found by its tag, if that is not the default's.
branch_for_tag-body :
    (name tag_of_default : Text)
    → Branches.validate_branch_name name ≡ ok name
    → (name == Branches.default_branch) ≡ false
    → ((Branches.branch_tag_prefix ++ body name) == tag_of_default) ≡ false
    → Branches.branch_for_tag (Branches.branch_tag_prefix ++ body name) tag_of_default ≡ some name
unfolding Branches.branch_for_tag
branch_for_tag-body name tag_of_default v n d =
    let (m, l, _) = validate_branch_name_ok name name v in
    let shape = match_tag-body name m (ground arith) in
    let start = starts_with-append Branches.branch_tag_prefix (body name) in
    let back : replace b'.' b'/' (drop 3 (Branches.branch_tag_prefix ++ body name)) ≡ name =
      ap (replace b'.' b'/') (drop-append Branches.branch_tag_prefix (body name))
      ∙ replace-replace b'/' b'.' name (match_name_no_dot true name m) in
    rw d (rw start (rw shape (rw back (rw v (rw back (rw n refl))))))

-- The tag of a branch names that branch, whatever the default tag, as long as the tag of a branch
-- that is not the default one is not the default's own.
pub branch_for_tag-tag_for :
    (name tag tag_of_default : Text)
    → (tag ≡ tag_of_default → name ≡ Branches.default_branch)
    → Branches.tag_for name tag_of_default ≡ ok tag
    → Branches.branch_for_tag tag tag_of_default ≡ some name
unfolding Branches.branch_for_tag
branch_for_tag-tag_for name tag tag_of_default own h =
    let (v, t) = tag_for_ok name tag tag_of_default h in
    elim (Bool-cases (name == Branches.default_branch)) [
      | inl e ↦
          let t' : tag ≡ tag_of_default = t ∙ rw e refl in
          ground (arith, ==_refl tag_of_default, ==_sound name Branches.default_branch e)
      | inr n ↦
          let t' : tag ≡ Branches.branch_tag_prefix ++ body name = t ∙ rw n refl in
          let other : (tag == tag_of_default) ≡ false =
            ground (arith, ==_sound tag tag_of_default, own, ==_refl Branches.default_branch) in
          let other' = ap (λ t. t == tag_of_default) (sym t') ∙ other in
          ap (λ t. Branches.branch_for_tag t tag_of_default) t'
          ∙ branch_for_tag-body name tag_of_default v n other'
    ]

slash_free :
    (text : Text) → all Branches.is_tag_char text ≡ true → all (λ c. not (eqb c b'/')) text ≡ true
unfolding all Branches.is_tag_char
slash_free [] h = refl
slash_free (c ∷ text) h = ground (arith, slash_free text)

-- What follows `br.` in a tag holds no `/`.
match_tag-drop :
    (tag : Text) → Branches.match_tag tag ≡ true → all (λ c. not (eqb c b'/')) (drop 3 tag) ≡ true
unfolding Branches.match_tag all drop
match_tag-drop (a ∷ []) h = refl
match_tag-drop (a ∷ b ∷ []) h = refl
match_tag-drop (a ∷ b ∷ c ∷ tag) h = slash_free tag (ground arith)
match_tag-drop [] h = refl

-- The two ways in which a tag names a branch.
branch_for_tag_cases :
    (tag tag_of_default name : Text)
    → Branches.branch_for_tag tag tag_of_default ≡ some name
    → ((tag ≡ tag_of_default) × (name ≡ Branches.default_branch))
      ⊎ ((starts_with tag Branches.branch_tag_prefix ≡ true)
          × (Branches.match_tag tag ≡ true)
          × (name ≡ replace b'.' b'/' (drop 3 tag))
          × (Branches.validate_branch_name name ≡ ok name)
          × ((name == Branches.default_branch) ≡ false))
unfolding Branches.branch_for_tag
branch_for_tag_cases tag tag_of_default name h = elim (Bool-cases (tag == tag_of_default)) [
  | inl e ↦ inl (==_sound tag tag_of_default e, ground arith)
  | inr n ↦ elim (Result-cases (Branches.validate_branch_name (replace b'.' b'/' (drop 3 tag)))) [
    | inl (c, v) ↦
        let (_, _, same) = validate_branch_name_ok (replace b'.' b'/' (drop 3 tag)) c v in
        ground arith
    | inr (e, v) ↦ absurd (ground arith)
  ]
]

-- A tag that names a branch is the tag that this branch publishes to.
pub tag_for-branch_for_tag :
    (tag tag_of_default name : Text)
    → Branches.branch_for_tag tag tag_of_default ≡ some name
    → Branches.tag_for name tag_of_default ≡ ok tag
unfolding Branches.tag_for ◌==◌ bytes_lt
tag_for-branch_for_tag tag tag_of_default name h =
    elim (branch_for_tag_cases tag tag_of_default name h) [
      | inl (t, n) ↦ rw n (rw t refl)
      | inr (s, m, n, v, k) ↦
          let back : body name ≡ drop 3 tag =
            ap (replace b'/' b'.') n
            ∙ replace-replace b'.' b'/' (drop 3 tag) (match_tag-drop tag m) in
          let whole = starts_with-drop Branches.branch_tag_prefix tag s in
          rw v (rw k (rw back (rw whole refl)))
    ]

tag_for_own :
    (name tag tag_of_default : Text)
    → starts_with tag_of_default Branches.branch_tag_prefix ≡ false
    → Branches.tag_for name tag_of_default ≡ ok tag
    → tag ≡ tag_of_default
    → name ≡ Branches.default_branch
tag_for_own name tag tag_of_default h p same =
    let (v, t) = tag_for_ok name tag tag_of_default p in
    elim (Bool-cases (name == Branches.default_branch)) [
      | inl e ↦ ==_sound name Branches.default_branch e
      | inr n ↦
          let t' : tag_of_default ≡ Branches.branch_tag_prefix ++ body name =
            sym same ∙ (t ∙ rw n refl) in
          let clash =
            ap (λ u. starts_with u Branches.branch_tag_prefix) t'
            ∙ starts_with-append Branches.branch_tag_prefix (body name) in
          absurd (ground arith)
    ]

-- Two branches do not share a tag, if the tag of the default branch does not start with `br.`.
pub tag_for-injective :
    (a b tag tag_of_default : Text)
    → starts_with tag_of_default Branches.branch_tag_prefix ≡ false
    → Branches.tag_for a tag_of_default ≡ ok tag
    → Branches.tag_for b tag_of_default ≡ ok tag
    → a ≡ b
tag_for-injective a b tag tag_of_default h p q =
    let first =
      branch_for_tag-tag_for a tag tag_of_default (tag_for_own a tag tag_of_default h p) p in
    let second =
      branch_for_tag-tag_for b tag tag_of_default (tag_for_own b tag tag_of_default h q) q in
    ground arith
