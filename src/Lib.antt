-- ===== src/Lib.antt =====
-- A model of pyboltzmann, an SDK for versioned, content-addressed knowledge, and its correctness.
--
-- A brain is a set of modules, one for each memory type. A version of a module is a set of immutable
-- blocks, each named by its digest, and the version is named by the Merkle root of that set. Two
-- histories of one brain are reconciled by set arithmetic on the blocks of each module.
--
--   Prelude       shared names, lists, linear orders, Python's sets and dictionaries, sorting,
--                 bytes and texts
--   Exceptions    src/boltzmann/exceptions.py; the result of code that raises
--   Identity      src/boltzmann/identity/: Digest (digest.py), Hashing (hashing.py), Json and
--                 Serialization (serialization.py), Principal (principal.py)
--   Blocks        src/boltzmann/blocks/: MemoryType (memory_type.py), Block (what semantic.py and
--                 procedural.py hold that others read)
--   Branches      src/boltzmann/branches.py
--   Brain         src/boltzmann/brain.py: Branching (the ref table, the head pointer and the operations on
--                 branches), History (`_reachable_from`), Pruning (`history` and `prune`)
--   Store         src/boltzmann/store/: what is asked of a store (base.py), and Memory, the store in
--                 memory (memory.py) with its contract
--   Merkle        src/boltzmann/merkle/: Tree (tree.py), Proof (proof.py), Diff (diff.py)
--   Module        src/boltzmann/module/: Composition (composition.py, with Document), Ledger (ledger.py, with the
--                 records of src/boltzmann/blocks/provenance.py), Installed (module.py)
--   Retention     src/boltzmann/retention/: Cascade and Plan (cascade.py), Policy (policy.py), Reachability
--                 (reachability.py, with reachable_signatures of src/boltzmann/authenticity/record.py)
--   Authenticity  src/boltzmann/authenticity/: Wire (wire.py), Chain (chain.py), TrustRoot
--                 (trust_root.py, with scopes.py)
--   Reconcile     src/boltzmann/reconcile/: Merge (merge.py), Ancestry and Ancestor
--                 (ancestry.py)
--
-- How the code is represented. A digest is its raw bytes; its algorithm is always sha256, and the
-- order of the hex strings is that of the bytes. A Python set is a list of which only membership is
-- read (and its size in the walk along first parents, where an element stands in it once), and what
-- the code sorts is sorted here. `_subtree_hash` and the methods that call it return the tree with
-- its cache beside their result. SHA-256 comes from hashlib and is a parameter with the size of its
-- digests as its one law: where a statement would need a collision-free hash, it offers a pair of
-- colliding inputs instead. Code that raises returns a `Result`.
--
-- Recursion of the source that is not structural runs on fuel: a span's hash and path on the length
-- of the span, the inner loop of a proof on the position, the closure of citations on the number of
-- recorded ones, the walk of a drop on the number of structural edges, and a walk over parents on the
-- number of snapshots that are held or, in `_reachable_from`, of the parents that are named.
-- `walk_first_parents` has one more than its own limit, MAX_WALK. `out_of_fuel` stands for a run that has
-- not ended, and the theorems about the callers show that they never meet it.
--
-- The provenance ledger reads blocks through two parameters, the store's `is_resolvable` and the
-- module's `get`, and keeps of a record the fields that it uses.
--
-- A snapshot document stands decoded under its digest in the `History` of a store; what the walks read
-- of it is its parents.
--
-- Text that the code walks is a list of code points. `json.loads` and the package rfc8785 are the
-- parameter `JsonLibrary`: its law is that a plain value is serialized, and that its bytes decode to the
-- value with the members of objects in canonical order.
--
-- The walk of a prune reads the documents of snapshots and of blocks through the parameter `Decoders`; the
-- layout's index and the signature index stand decoded.
--
-- Not modelled: messages of exceptions, the pydantic validation of field types, file and network
-- access, signatures, and the parts that the manifest lists as not modelled.
pub mod Prelude
pub mod Exceptions
pub mod Identity
pub mod Blocks
pub mod Merkle
pub mod Store
pub mod Module
pub mod Retention
pub mod Reconcile
pub mod Authenticity
pub mod Branches
pub mod Brain
