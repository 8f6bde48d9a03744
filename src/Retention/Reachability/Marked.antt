-- ===== src/Retention/Reachability/Marked.antt =====
-- The walk of retention/reachability.py marks exactly what the snapshots need.
use mathlib.Core.Path.{subst}
use pyboltzmann.Prelude.{
  ◌≡◌, ◌↔◌, refl, ap, sym, ◌∙◌, inl, inr, true, List, [], ◌∷◌, ◌++◌, arith, In, here, there,
  In-cases,
}
use pyboltzmann.Prelude.Sets.{contains}
use pyboltzmann.Prelude.Bytes.{bytes_order}
use pyboltzmann.Exceptions.{ok, bind_ok, ok_eq}
use pyboltzmann.Identity.{Digest}
use pyboltzmann.Identity.Hashing.{Sha256}
use pyboltzmann.Identity.Serialization.Canonical.{JsonLibrary}
use pyboltzmann.Store.Memory.{MemoryBlockStore}
use pyboltzmann.Retention.Reachability
use pyboltzmann.Retention.Reachability.{
  Snapshot, ModuleRef, Decoders, raws, index_of, tolerated, named_in,
}
use pyboltzmann.Retention.Reachability.Needs.{
  in_append, in_cons, in_raws, ModuleNeeds, Needs, document, parent, module_of,
}
use pyboltzmann.Retention.Reachability.Members.{module_need_lem}

module _ ⦃sha : Sha256⦄ ⦃json : JsonLibrary⦄ (decoders : Decoders) (s : MemoryBlockStore) where
  modules_need_lem :
      (rs : List ModuleRef) (keep : List Digest) (d : Digest)
      → Reachability.modules_need decoders s rs ≡ ok keep
      → (contains d keep ≡ true) ↔ ((r : ModuleRef) × In r rs × ModuleNeeds decoders s r d)
  unfolding Reachability.modules_need contains
  modules_need_lem [] keep d h = (λ m. absurd (ground arith), λ m. elim m.1 [ ])
  modules_need_lem (r ∷ rs) keep d h =
      let (found, read, h1) =
        bind_ok (Reachability.read_composition decoders s r.composition) _ keep h in
      let (members, walk, h2) = bind_ok (Reachability.members_need decoders s found) _ keep h1 in
      let (rest, more, all) = bind_ok (Reachability.modules_need decoders s rs) _ keep h2 in
      let (here_needs, back) = module_need_lem decoders s r found members d read walk in
      let (below, above) = modules_need_lem rs rest d more in
      let (split, join) =
        in_append d (r.composition.raw ∷ index_of r.index_digest ++ members) rest in
      let same : r.composition.raw ∷ index_of r.index_digest ++ members ++ rest ≡ keep =
        ok_eq (r.composition.raw ∷ index_of r.index_digest ++ members ++ rest) keep all in
      (
        λ m. elim (split (ap (contains d) same ∙ m)) [
          | inl k ↦ (r, here, here_needs k)
          | inr k ↦ let (o, i, n) = below k in (o, there i, n)
        ],
        λ m.
            let (o, i, n) = m in
            ap (contains d) (sym same)
            ∙ join (elim (In-cases r o rs i) [
              | inl e ↦ inl (back (subst (λ x. ModuleNeeds decoders s x d) (sym e) n))
              | inr j ↦ inr (above (o, j, n))
            ]),
      )

  Needs-kept :
      (snapshot : Snapshot) (named : List Digest) (d : Digest)
      → Reachability.modules_need decoders s snapshot.modules ≡ ok named
      → Needs decoders s snapshot d
      → contains d (snapshot.digest.raw ∷ raws snapshot.parents ++ named) ≡ true
  Needs-kept snapshot named d walk document =
      (in_cons d d (raws snapshot.parents ++ named)).1 (inl refl)
  Needs-kept snapshot named _ walk (parent p i) =
      (in_cons p.raw snapshot.digest.raw (raws snapshot.parents ++ named)).1 (
        inr (
          (in_append p.raw (raws snapshot.parents) named).1
            (inl ((in_raws p.raw snapshot.parents).1 (p, i, refl)))))
  Needs-kept snapshot named d walk (module_of r e i n) =
      (in_cons d snapshot.digest.raw (raws snapshot.parents ++ named)).1 (
        inr (
          (in_append d (raws snapshot.parents) named).1
            (inr ((modules_need_lem snapshot.modules named d walk).1 (r, i, n)))))

  reachable_from_lem :
      (snapshot : Snapshot) (keep : List Digest) (d : Digest)
      → Reachability.reachable_from decoders snapshot s ≡ ok keep
      → (contains d keep ≡ true) ↔ Needs decoders s snapshot d
  unfolding Reachability.reachable_from
  reachable_from_lem snapshot keep d h =
      let (named, walk, all) =
        bind_ok (Reachability.modules_need decoders s snapshot.modules) _ keep h in
      let same : snapshot.digest.raw ∷ raws snapshot.parents ++ named ≡ keep =
        ok_eq (snapshot.digest.raw ∷ raws snapshot.parents ++ named) keep all in
      (
        λ m.
            elim ((in_cons d snapshot.digest.raw (raws snapshot.parents ++ named)).0
              (ap (contains d) same ∙ m)) [
                | inl q ↦ subst (Needs decoders s snapshot) (sym q) document
                | inr k ↦ elim ((in_append d (raws snapshot.parents) named).0 k) [
                  | inl j ↦
                      let (p, i, q) = (in_raws d snapshot.parents).0 j in
                      subst (Needs decoders s snapshot) (sym q) (parent p i)
                  | inr j ↦
                      let (r, i, n) = (modules_need_lem snapshot.modules named d walk).0 j in
                      module_of r d i n
                ]
              ],
        λ n. ap (contains d) (sym same) ∙ Needs-kept snapshot named d walk n,
      )

  -- Where the walk over retained snapshots succeeds, it marks exactly what one of them needs: its document,
  -- those of its parents, and of each module the composition document, the index, the blocks of the
  -- composition and the content that they name, as far as the documents can be read.
  pub mark-Needs :
      (snapshots : List Snapshot) (keep : List Digest) (d : Digest)
      → Reachability.mark decoders snapshots s ≡ ok keep
      → (contains d keep ≡ true)
        ↔ ((snapshot : Snapshot) × In snapshot snapshots × Needs decoders s snapshot d)
  unfolding Reachability.mark contains
  mark-Needs [] keep d h = (λ m. absurd (ground arith), λ m. elim m.1 [ ])
  mark-Needs (snapshot ∷ snapshots) keep d h =
      let (needed, walk, h1) = bind_ok (Reachability.reachable_from decoders snapshot s) _ keep h in
      let (rest, more, all) = bind_ok (Reachability.mark decoders snapshots s) _ keep h1 in
      let (found, back) = reachable_from_lem snapshot needed d walk in
      let (below, above) = mark-Needs snapshots rest d more in
      let (split, join) = in_append d needed rest in
      let same : needed ++ rest ≡ keep = ok_eq (needed ++ rest) keep all in
      (
        λ m. elim (split (ap (contains d) same ∙ m)) [
          | inl k ↦ (snapshot, here, found k)
          | inr k ↦ let (o, i, n) = below k in (o, there i, n)
        ],
        λ m.
            let (o, i, n) = m in
            ap (contains d) (sym same)
            ∙ join (elim (In-cases snapshot o snapshots i) [
              | inl e ↦ inl (back (subst (λ x. Needs decoders s x d) (sym e) n))
              | inr j ↦ inr (above (o, j, n))
            ]),
      )
