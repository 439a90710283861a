-- ===== src/Lib.antt =====
-- Verification of memory-blackbox: a tamper-evident ledger of an agent's memory operations, the
-- provenance graph beside it, and the queries over both.
--
-- The program appends every write, retrieval, action and rollback to a SQLite table. Each row's
-- entry hash covers its canonical payload and the entry hash of the row before, and is signed.
-- Checkpoints sign the Merkle root of all entry hashes. Edges join records to what was derived from
-- them; blast_radius follows them forward, and rollback quarantines what it finds by appending an
-- event. An engine records each memory operation as such a row with its edges; a wrapped client, a
-- gateway and a sidecar stand between an agent and its memory backend and call the engine. A
-- checkpoint can be published to an external log, against which the ledger is checked later. The
-- parts, with their code and their files here:
--
--   src/memory_blackbox/crypto/         Crypto: hashing, signing, keys, and the key file in
--                                       Crypto/KeyFiles
--   src/memory_blackbox/merkle/tree.py  Merkle: roots and inclusion proofs, with the view of a list
--                                       of leaves as a tree in Merkle/Trees; verify_merkle is in
--                                       Ledger/Merkle, the tree head of RFC 6962 in Merkle/Rfc
--   src/memory_blackbox/model/          Model: JSON values, canonical form, records, edges, ids
--   src/memory_blackbox/ledger/         Storage: the tables, as lists in the order of their keys;
--                                       Ledger: the store and the chain verification
--   src/memory_blackbox/dag/            Dag: the edge table and the traversals
--   src/memory_blackbox/query/          Query: blast_radius, rollback, timeline, trace (its order
--                                       and its roots in Query/Ranking, Query/Candidates and
--                                       Query/Roots) and, in Query/Integrity, verify
--   src/memory_blackbox/capture/        Capture: engine.py in Capture/Engine, wrapper.py in
--                                       Capture/Proxies, gateway.py and sidecar.py in the modules
--                                       of their names
--   src/memory_blackbox/anchor/         Anchor: base.py in Anchor/Statement, store.py and
--                                       receipt.py in Anchor/Store, verify.py in Anchor/Verify,
--                                       file_witness.py in Anchor/FileWitness, and rekor.py in the
--                                       modules of Anchor/Rekor
--   src/memory_blackbox/adapters/       Adapters: memory_md.py in Adapters/MemoryMd, with
--                                       last_write_hash of ledger/store.py; reconcile of base.py
--                                       in Adapters/Reconcile
--   src/memory_blackbox/exporters/      Exporters: dot.py and mermaid.py in Exporters/Graph,
--                                       sarif.py in Exporters/Sarif
--   src/memory_blackbox/config.py       Config, with anchor/factory.py
--   src/memory_blackbox/cli.py          Cli: the commands verify, anchor and anchor-status
--   src/memory_blackbox/detectors/      Detectors: write_rate.py, unicode_smuggling.py and
--                                       provenance_missing.py
--   Prelude, Codec                      shared helpers, and Python's hex, UTF-8 and str methods
--   Tests                               runs on concrete data
--
-- A method that changes the database returns the new store; one that may raise returns a `Result`.
-- The clock, fresh ids and random bits come in as arguments. BLAKE3 and Ed25519 are the functions
-- of `Primitives`; `IsSound` states what the code relies on (32-byte digests, byte values, and that
-- a signature made with a key verifies under its public key). Nothing says that BLAKE3 has no
-- collisions: theorems that need it conclude `... ⊎ Collision`, with two different inputs of one
-- digest. orjson is the record `Orjson`, with `IsRoundTrip` where its output is read back. The
-- witnesses instantiate both with concrete functions.
--
-- Code that the source only calls is a parameter: the detectors of an engine (Inspect, over a state
-- for each), the extractors of a proxied method (WriteMap, ReadMap) and the backend that is
-- called, the log of an anchor (the record Anchor over the state L of the log), `str` and `int` on
-- parsed values (Casts, with AreCasts for their behaviour on texts and numbers), `str.lower`, and
-- the comparison of two times of a trace. The file witness is the list of the lines of its file;
-- `WritesObjects` states that orjson writes an object as no blank line. The log of Rekor is a state
-- L with an opener that answers a request and changes the state; SHA-256, base64, the JSON parsers,
-- urlparse, the PEM of a key and the text of a time are the record `Packages`. The content of the
-- watched files, the text of decoded bytes and the characters that are alphanumeric are functions,
-- and json of a key file is the record `FileFormat`, with IsFaithful where it is read back.
--
-- Loops: `merge_levels` and `proof_steps` run on the number of leaves, which every level lowers;
-- `forward_closure` on the number of seeds plus edges and `backward` on one plus the number of
-- edges, since a node enters the queue once; `skip_levels` on the index that it halves. The
-- theorems on them show that this is enough. Python's integers are ℕ here; `compose` keeps the masks
-- of the id's fields, and an integer below 0 in an inclusion proof is none of the model.
--
-- Scores are carried as opaque numbers, since they are only stored, and the detectors' times are
-- numbers of one unit. Not modelled: the detectors that match regular expressions or keep scores
-- and the drift query, which rest on floats or on the package re; the mappings of third-party
-- clients' methods; the markdown report, the demo and the other commands, which call the modelled
-- operations and print; what the commands print; a failing disk or a second writer of the database;
-- the texts of summaries.
pub mod Prelude
pub mod Cli
pub mod Codec
pub mod Config
pub mod Crypto
pub mod Merkle
pub mod Model
pub mod Storage
pub mod Ledger
pub mod Dag
pub mod Query
pub mod Capture
pub mod Adapters
pub mod Anchor
pub mod Detectors
pub mod Exporters
pub mod Tests
