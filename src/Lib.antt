-- ===== src/Lib.antt =====
-- A verification library for tvix, the Rust implementation of Nix.
--
-- castore holds the content-addressed data model: directories of named nodes that refer to one
-- another by digest, relative paths into them, and the protobuf messages that they are exchanged as.
-- nix-compat holds the formats of Nix: the nixbase32 notation, store paths, hashes, and the archive
-- format NAR, in which a file system tree is written and read as one stream, and the packets of the wire
-- protocol. eval is the evaluator: its compiler tracks the locals of nested scopes and functions, and
-- writes bytecode; of its values the attribute sets are modelled, of its builtins the comparison of
-- versions.
--
-- Which file models what:
--   Prelude: shared names, Boolean tests, lists over native numbers, byte strings, `Result`.
--   Castore.Component: castore/src/path/component.rs, the names of nodes (`validate_name`).
--   Castore.Path: castore/src/path/mod.rs (`Path`, `PathBuf`); Join has the joining of names,
--     Components the laws of paths as sequences of names, HostPath those of `from_host_path`.
--   Castore.Nodes: castore/src/digests.rs, castore/src/nodes/symlink_target.rs,
--     castore/src/nodes/mod.rs and castore/src/errors.rs.
--   Castore.Nodes.Directory: castore/src/nodes/directory.rs; Insertion and Order have its laws.
--   Castore.Proto: castore/src/proto/mod.rs over the messages of castore/protos/castore.proto; Kinds
--     treats the lists of a message alike, Messages are its three kinds, RoundTrip reads what was
--     written, Canonical, Accepts and Accepted say what reading accepts, Size compares the two
--     notions of size.
--   Castore.OrderValidator: castore/src/directoryservice/order_validator.rs; Closure has its laws.
--   Castore.Fs: castore/src/fs/mod.rs (lookups, and the children of a directory), over Inodes, which is
--     castore/src/fs/inodes.rs, and Tracker, castore/src/fs/inode_tracker.rs; Invariant, Growth, Put and
--     Replace under it, and Children and Lookup have the laws.
--   Castore.Examples: the theorems at concrete inputs, and tests.
--   NixCompat.Nixbase32: nix-compat/src/nixbase32.rs. Bits treats its masks and shifts, Cells the bytes
--     by index, Characters what is encoded, Halfway the state between two characters of a decoding,
--     RoundTrip a decoding of what was encoded, Safety a decoding of anything.
--   NixCompat.StorePath: nix-compat/src/store_path/mod.rs; Names has the laws of names, RoundTrip and
--     Safety those of parsing. Its Utils is nix-compat/src/store_path/utils.rs, where Compress treats
--     `compress_hash`, Built `build_ca_path` and References its self-references.
--   NixCompat.NixHash: nix-compat/src/nixhash (mod.rs, algos.rs, ca_hash.rs); Texts parses what was
--     printed in nixbase32, Hex what was printed in hexadecimal.
--   NixCompat.Nar: nix-compat/src/nar, the tokens of wire/mod.rs and the tags of wire/tag.rs. Read is
--     reader/read.rs, Reader is reader/mod.rs, Writer is writer/sync.rs, Tree has trees, their archives by
--     the grammar, and callers of both; Pieces, Copying, Reading, Writing, RoundTrip and Buffers
--     have the laws of what was written, Total, Steps and Termination those of any input, Examples
--     the theorems at a concrete tree.
--   NixCompat.Wire: nix-compat/src/wire/bytes/mod.rs; Writer is writer.rs beside it. Position says what was
--     sent when, Rounds and Flushing treat the loops, Writes and Polls the operations, Examples has the
--     theorems at a concrete writer.
--   NixCompat.Examples: the theorems at concrete inputs, and tests.
--   Eval.Chunk: eval/src/chunk.rs, the bytecode of the evaluator. Jumps treats `patch_jump`; Elements, Search
--     and Spans treat `get_span`.
--   Eval.Scope: eval/src/compiler/scope.rs, the locals that the compiler tracks. Index treats the index by
--     name, Resolve the lookups, Ends `end_scope`, Nesting runs of operations with nested scopes; Steps
--     and Closing under it have what one operation and what the end of a scope does.
--   Eval.Upvalues: the contexts of eval/src/compiler/mod.rs and the upvalues of
--     eval/src/compiler/bindings.rs. Tracing follows an upvalue to its local, Captures treats
--     `resolve_upvalue`.
--   Eval.Attrs: eval/src/value/attrs.rs, attribute sets. Map is their `BTreeMap`, Updates compares the
--     representations, Construction treats `construct`, with what its loop does in Explained.
--   Eval.Versions: eval/src/builtins/versions.rs, the parts of versions. Comparison treats `cmp`.
--   Eval.Examples: the theorems at concrete inputs.
--
-- Conventions. Bytes are natural numbers, and a byte string is a list of them. A u64 keeps its
-- bound: `checked_add` refuses what exceeds it, and plain addition is written modulo 2 ^ 64, as in a
-- release build. A `BTreeMap` is the sorted list of its entries, a `HashSet` a list with a
-- membership test, a `HashMap` the function that looks its keys up. Loops recur on lists or count down; the two loops that copy the contents of a
-- file in an archive have its length as fuel, since every round copies a byte or more, and the
-- caller that reads a tree has the length of its input, since every entry takes some of it. An index
-- out of range, and `unreachable!()`, is `panic` in a `Failure`, or `none` where no other error can
-- arise.
--
-- Parameters. The byte-string searches of the bstr crate are the record `Bstr` with their documented
-- laws. The digest of a directory (BLAKE3 over the encoding that prost generates) is the argument
-- `digest` of the order validators. `binary_search_by` is an argument of `get_span`, with the laws
-- that std documents. SHA-256 and the hexadecimal encoder are the arguments `sha256` and `hexlower`
-- of the store paths that are built. The components of a host path are those that std yields.
--
-- The buffers of the readers and writers of archives are a function that says how many of the bytes
-- that are left are shown, at least one where any are left; an interrupted `read` is retried by the
-- code and leaves no trace.
--
-- The writer under a writer of packets is the record `AsyncWrite`, with the contract that tokio documents
-- and a function that says what it received; its rounds are at most 17, which the theorems show to be
-- enough, and panics show as `none`.
--
-- The lookups of the file system are steps one after the other, so a race of two threads is not
-- seen; the directory service and the provider of the root's nodes are arguments, and may fail in
-- any way.
--
-- Not modelled: the handles and attributes of the file system, network and database backends, the
-- evaluator but for its bytecode, scopes, upvalues, attribute sets and versions, and the other Nix
-- formats (derivations, NARInfo, the daemon protocol). Of NAR, the async twins, the listing, and the
-- assertions and the poisoning that debug builds have. `declare_constant` is no step of the runs of a
-- scope, since it only runs before the first scope opens, and no output size of `compress_hash` is 0.
pub mod Prelude
pub mod Castore
pub mod NixCompat
pub mod Eval
