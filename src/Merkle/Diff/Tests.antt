-- ===== src/Merkle/Diff/Tests.antt =====
-- Two compositions that share one block: a run of merkle/diff.py, and the theorems at it.
use pyboltzmann.Prelude.{◌≡◌, ◌↔◌, true, List, [], ◌∷◌}
use pyboltzmann.Prelude.Sets.{union, difference, SameMembers}
use pyboltzmann.Exceptions.{ok}
use pyboltzmann.Identity.{BlockId, block_order}
use pyboltzmann.Identity.Toy.{toy, block}
use pyboltzmann.Merkle.Diff.{CompositionDiff, diff, is_empty}
use pyboltzmann.Merkle.Diff.Laws.{
  Separates, diff-Separates, diff_applies, is_empty-diff, difference_of, diff_lem,
}

abbrev old : List BlockId
old = block 4 ∷ block 9 ∷ []

abbrev new : List BlockId
new = block 7 ∷ block 9 ∷ []

diff-Separates_example :
    (d : CompositionDiff) × (diff old new ≡ ok d) × ((b : BlockId) → Separates d old new b)
diff-Separates_example = diff-Separates old new

abbrev changes : CompositionDiff
changes = difference_of old new

diff_applies_case : SameMembers (union (difference old changes.removed) changes.added) new
diff_applies_case = diff_applies old new changes (diff_lem old new)

is_empty-diff_case : (is_empty changes ≡ true) ↔ SameMembers old new
is_empty-diff_case = is_empty-diff old new changes (diff_lem old new)
