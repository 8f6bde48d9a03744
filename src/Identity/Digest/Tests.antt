-- ===== src/Identity/Digest/Tests.antt =====
-- identity/digest.py on a digest of 32 bytes.
use pyboltzmann.Prelude.{◌≡◌, refl, true, List, [], ◌∷◌, ◌++◌}
use pyboltzmann.Prelude.Texts.{Text}
use pyboltzmann.Exceptions.{ok, raise, digest_format}
use pyboltzmann.Identity.{Digest}
use pyboltzmann.Identity.Digest.{str, parse}
use pyboltzmann.Identity.Digest.Laws.{parse-str, str-parse}
use pyboltzmann.Identity.Toy.{toy_digest}

abbrev sample : Digest
sample = toy_digest (1 ∷ 2 ∷ [])

-- The pattern of a digest lets a final newline through, and `__post_init__` does not.
newline : parse (str sample ++ 10 ∷ []) ≡ raise digest_format
unfolding parse str pyboltzmann.Prelude.Texts.starts_with pyboltzmann.Prelude.drop toy_digest
    pyboltzmann.Prelude.all
newline = refl

parse-str_case : parse (str sample) ≡ ok sample
unfolding toy_digest pyboltzmann.Prelude.all
parse-str_case = parse-str sample refl

str-parse_case : str sample ≡ str sample
str-parse_case = str-parse (str sample) sample parse-str_case
