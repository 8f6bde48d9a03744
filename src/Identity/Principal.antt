-- ===== src/Identity/Principal.antt =====
-- identity/principal.py: the grammar of actor identifiers. Whether an identifier is refused is modelled,
-- and not the wording of the reason.
pub mod Grammar
pub mod Words
pub mod Forms
mod Tests
use pyboltzmann.Prelude.{
  ℕ, Bool, true, false, not, ◌&&◌, ◌||◌, Option, none, some, List, [], ◌∷◌, leb, ltb, eqb,
  if◌then◌else◌, length, all,
}
use pyboltzmann.Prelude.Texts.{Text, split, has_char, before, after}
use pyboltzmann.Exceptions.{Result, ok, raise, actor_id}

abbrev pub max_actor_id : ℕ
max_actor_id = 320

abbrev pub max_local_part : ℕ
max_local_part = 64

abbrev pub max_domain : ℕ
max_domain = 255

abbrev pub max_label : ℕ
max_label = 63

abbrev pub max_segment : ℕ
max_segment = 128

-- `_LOWER`, and with each of the extra sets
unfoldable pub is_lower : ℕ → Bool
is_lower c = (leb b'a' c && leb c b'z') || (leb b'0' c && leb c b'9')

unfoldable pub is_local_char : ℕ → Bool
unfolding is_lower
is_local_char c =
    is_lower c || (eqb c b'.' || (eqb c b'_' || (eqb c b'%' || (eqb c b'+' || eqb c b'-'))))

unfoldable pub is_label_char : ℕ → Bool
unfolding is_lower
is_label_char c = is_lower c || eqb c b'-'

unfoldable pub is_segment_char : ℕ → Bool
unfolding is_lower
is_segment_char c = is_lower c || (eqb c b'.' || (eqb c b'_' || eqb c b'-'))

pub data ActorIdForm : Type 0 where
  address namespaced : ActorIdForm

unfoldable pub runs_over : Text → (ℕ → Bool) → Bool
runs_over [] allowed = false
runs_over (c ∷ value) allowed = all allowed (c ∷ value)

-- `value[0]` and `value[-1]` pass a test.
unfoldable pub first_is : (ℕ → Bool) → Text → Bool
first_is p [] = false
first_is p (c ∷ value) = p c

unfoldable pub last_is : (ℕ → Bool) → Text → Bool
last_is p [] = false
last_is p (c ∷ []) = p c
last_is p (c ∷ d ∷ value) = last_is p (d ∷ value)

unfoldable pub bounded_by_alphanumerics : Text → Bool
unfolding first_is last_is is_lower
bounded_by_alphanumerics value = first_is is_lower value && last_is is_lower value

unfoldable pub valid_label : Text → Bool
unfolding runs_over is_label_char bounded_by_alphanumerics
valid_label label =
    (leb 1 (length label) && leb (length label) max_label)
    && (runs_over label is_label_char && bounded_by_alphanumerics label)

-- `len(labels) < 2` fails: there is another label after the first.
unfoldable pub is_several : List Text → Bool
is_several [] = false
is_several _ = true

unfoldable pub all_labels : List Text → Bool
unfolding valid_label
all_labels [] = true
all_labels (label ∷ labels) = valid_label label && all_labels labels

unfoldable pub valid_domain : Text → Bool
unfolding is_several all_labels
valid_domain domain =
    (leb 1 (length domain) && leb (length domain) max_domain)
    && (is_several (split b'.' domain).1
        && all_labels ((split b'.' domain).0 ∷ (split b'.' domain).1))

unfoldable pub valid_segment : Text → Bool
unfolding runs_over is_segment_char bounded_by_alphanumerics
valid_segment segment =
    (leb 1 (length segment) && leb (length segment) max_segment)
    && (runs_over segment is_segment_char && bounded_by_alphanumerics segment)

-- `".." in local`
unfoldable pub has_double_dot : Text → Bool
has_double_dot [] = false
has_double_dot (c ∷ []) = false
has_double_dot (c ∷ d ∷ value) = (eqb c b'.' && eqb d b'.') || has_double_dot (d ∷ value)

-- The loop over the characters, and the test for capitals: whitespace is not printable here.
unfoldable pub is_printable : ℕ → Bool
is_printable c = ltb 32 c && ltb c 127

unfoldable pub is_upper : ℕ → Bool
is_upper c = leb b'A' c && leb c b'Z'

unfoldable pub is_empty : Text → Bool
is_empty [] = true
is_empty _ = false

-- `value.count("/") > 1`: there is another one after the first.
unfoldable pub has_several_slashes : Text → Bool
unfolding has_char after
has_several_slashes value = has_char b'/' (after b'/' value)

unfoldable pub refuses_address : Text → Text → Bool
unfolding is_empty runs_over is_local_char first_is last_is has_double_dot has_char valid_domain
refuses_address local domain =
    if is_empty local
    then true
    else if ltb max_local_part (length local)
    then true
    else if not (runs_over local is_local_char)
    then true
    else if first_is (λ c. eqb c b'.') local || last_is (λ c. eqb c b'.') local
    then true
    else if has_double_dot local
    then true
    else if is_empty domain
    then true
    else if not (has_char b'.' domain)
    then true
    else not (valid_domain domain)

unfoldable pub refuses_namespaced : Text → Text → Bool
unfolding is_empty valid_segment
refuses_namespaced namespace name =
    if is_empty namespace
    then true
    else if is_empty name
    then true
    else if not (valid_segment namespace)
    then true
    else not (valid_segment name)

-- `_refusal(value) is not None`
unfoldable pub refusal : Text → Bool
unfolding is_empty is_printable is_upper has_char before after refuses_address refuses_namespaced
refusal value =
    if is_empty value
    then true
    else if ltb max_actor_id (length value)
    then true
    else if not (all is_printable value)
    then true
    else if not (all (λ c. not (is_upper c)) value)
    then true
    else if has_char b'@' value && has_char b'/' value
    then true
    else if has_char b'@' value
    then refuses_address (before b'@' value) (after b'@' value)
    else if not (has_char b'/' value)
    then true
    else if has_several_slashes value
    then true
    else refuses_namespaced (before b'/' value) (after b'/' value)

unfoldable pub actor_id_form : Text → Option ActorIdForm
unfolding refusal
actor_id_form value =
    if refusal value
    then none
    else if has_char b'@' value
    then some ActorIdForm.address
    else some ActorIdForm.namespaced

unfoldable pub is_actor_id : Text → Bool
unfolding refusal
is_actor_id value = not (refusal value)

unfoldable pub parse_actor_id : Text → Result Text
unfolding refusal
parse_actor_id value = if refusal value then raise actor_id else ok value
