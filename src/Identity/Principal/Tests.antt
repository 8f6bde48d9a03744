-- ===== src/Identity/Principal/Tests.antt =====
-- identity/principal.py on identifiers of both forms.
use pyboltzmann.Prelude.{◌≡◌, refl, Bool, true, false, Option, none, some}
use pyboltzmann.Prelude.Texts.{codes}
use pyboltzmann.Exceptions.{ok, raise, actor_id}
use pyboltzmann.Identity.Principal
use pyboltzmann.Identity.Principal.Forms.{is_actor_id-forms, actor_id_form-forms}

person : Principal.parse_actor_id (codes "alex@example.org") ≡ ok (codes "alex@example.org")
unfolding Principal.parse_actor_id pyboltzmann.Prelude.all
person = refl

both : Principal.parse_actor_id (codes "alex@example.org/x") ≡ raise actor_id
unfolding Principal.parse_actor_id pyboltzmann.Prelude.all
both = refl

capital : Principal.is_actor_id (codes "Alex@example.org") ≡ false
unfolding Principal.is_actor_id pyboltzmann.Prelude.all
capital = refl

is_actor_id-forms_example : Principal.is_actor_id (codes "anthropic/claude-code") ≡ true
unfolding Principal.is_actor_id pyboltzmann.Prelude.all
    pyboltzmann.Identity.Principal.Words.is_address
    pyboltzmann.Identity.Principal.Words.is_namespaced
    pyboltzmann.Identity.Principal.Words.is_segment pyboltzmann.Identity.Principal.Words.is_word
    pyboltzmann.Identity.Principal.Words.alphanumeric pyboltzmann.Identity.Principal.Words.ends_word
is_actor_id-forms_example = is_actor_id-forms (codes "anthropic/claude-code")

actor_id_form-forms_case :
    Principal.actor_id_form (codes "alex@example.org") ≡ some Principal.ActorIdForm.address
unfolding Principal.actor_id_form pyboltzmann.Prelude.all
    pyboltzmann.Identity.Principal.Words.is_address pyboltzmann.Identity.Principal.Words.is_local
    pyboltzmann.Identity.Principal.Words.is_atom pyboltzmann.Identity.Principal.Words.atom_char
    pyboltzmann.Identity.Principal.Words.is_domain pyboltzmann.Identity.Principal.Words.is_label
    pyboltzmann.Identity.Principal.Words.is_word pyboltzmann.Identity.Principal.Words.ends_word
actor_id_form-forms_case = actor_id_form-forms (codes "alex@example.org")
