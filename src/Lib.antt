-- ===== src/Lib.antt =====
-- The verification library of yrs, the Rust core of the y-crdt document store.
--
-- An update of a document is described by identifiers (client, clock). Sets of identifiers are maps
-- from a client to sorted clock ranges (yrs/src/ids.rs, yrs/src/id_set.rs), what a replica has seen is
-- a clock per client (yrs/src/state_vector.rs), and both travel as numbers of variable length
-- (yrs/src/encoding), those of the blocks in columns of runs (yrs/src/updates). A block of an update is
-- put among the items of its parent by its origins (yrs/src/block.rs), once the blocks that it depends
-- on are there (yrs/src/update.rs). Replicas ask each other for updates by messages
-- (yrs/src/sync/protocol.rs). Beside the documents, replicas
-- tell each other the states of their users (yrs/src/sync/awareness.rs). This library models these
-- parts.
--
-- The parts and their files:
-- - Ids: `IdRanges<T>` of yrs/src/ids.rs, with `insert_with` (Ids/Insert), `remove` (Ids/Remove), `merge`
--   (Ids/Union), `exclude` (Ids/Exclude), `intersect` (Ids/Intersect), `contains_clock` and `find_start`
--   (Ids/Query), and `IdRange::subset_of` of yrs/src/id_set.rs (Ids/Subset). Ids/Order, Ids/Push and
--   Ids/Canonical hold the lemmas that they share. `value_at` is the abstract view: the value of a
--   clock, if some range holds it. `IsCanonical` is the invariant that the source calls canonical.
-- - IdMap: `IdMapInner<T>` of yrs/src/ids.rs and, with values `()`, `IdSet` of yrs/src/id_set.rs.
--   IdMap/Values says what every operation does to the value of an identifier, IdMap/Valid that the
--   operations keep the invariant, IdMap/Algebra which laws the union has. IdMap/Build models `map`,
--   `from_ranges` and `IdSet::insert`, and IdMap/Codec the encoding of an `IdSet`.
-- - BTree: the operations of `std::collections::BTreeMap` that the source calls, on a list of entries.
-- - Encoding: errors and results of reads of yrs/src/encoding/read.rs, and the numbers of
--   yrs/src/encoding/varint.rs: Encoding/VarInt without sign, Encoding/VarInt/Signed with a sign.
-- - StateVector: `StateVector` and `Snapshot` of yrs/src/state_vector.rs, with StateVector/Codec for the
--   encoding of a vector.
-- - Columns: the encoders and decoders of yrs/src/updates/encoder.rs and yrs/src/updates/decoder.rs that
--   the second version of the encoding has for each column: Columns/UIntOpt, Columns/IntDiff and
--   Columns/Rle, over the runs of Columns/Runs, then Columns/Strings, and Columns/Frame for
--   `EncoderV2::to_vec` and `DecoderV2::new`, which put the columns together and take them apart, with
--   Columns/Usize for the length of a column.
--   Encoding/Buffers has `write_buf` and `read_buf`, which the frame uses.
-- - Awareness: yrs/src/sync/awareness.rs, with `apply_update_internal` in Awareness/Apply. What it does to
--   the states is in Awareness/States, which state of a remote client stays in Awareness/Rank, repeated and swapped updates in Awareness/Converge, `update` and
--   `update_with_clients` in Awareness/Publish, events and summaries in Awareness/Summary, the codec in
--   Awareness/Codec, and a state that goes from one instance to another in Awareness/Spread.
-- - Block: `detect_conflict`, `resolve_conflict` and the linking of `integrate_item` of
--   yrs/src/block.rs. Block/Segment describes doubly linked lists on the heap, Block/Link the linking,
--   Block/Resolve the loop over the items between the neighbours, as a count of the items that come
--   before (`place`), Block/Integrate all of it, and Block/Converge concurrent insertions.
-- - BlockStore: the lists of blocks of yrs/src/block_store.rs, with BlockStore/Find for `find_index` and
--   BlockStore/Push for `push`.
-- - Block/Content and Block/Wire: the codec of contents and of blocks, `ItemContent::encode` and `decode`,
--   `Item::encode` and `Update::decode_block`, with the bits of the flag byte in Block/Wire/Flags.
-- - Update: `BlockPicker` and the loop of `Update::integrate` of yrs/src/update.rs, over what it needs of a
--   transaction (`Target`). Update/Counts and Update/Steps count the blocks that the picker moves,
--   Update/Fuel has the bound on the rounds, Update/Sound what the picker relies on, Update/Drain the
--   blocks that are given up, Update/Lossless that none is lost. Update/Garbage fills `Target` for
--   blocks without content. Update/Codec is `encode_diff` and `decode`, in the first version of the
--   encoding, with Update/Codec/Slices for yrs/src/slice.rs and Update/Codec/Sent for the blocks that an
--   empty replica is sent.
-- - Protocol: messages and handlers of yrs/src/sync/protocol.rs, with the handlers in Protocol/Handle over
--   what they call of a document (`Store`), streams of messages in Protocol/Stream, the bytes that a read
--   consumes in Protocol/Consume, and the exchange of a new connection in Protocol/Handshake.
-- - HashMap: `insert` of a hash map, on a list of entries.
-- - Common: tests, lists and automation that the parts share. Examples: concrete runs.
--
-- How the code is read:
-- - A `SmallVec` is a list; an index into it is a cut by take and drop, and a loop that walks two
--   vectors is a recursion over what is left of them. A function that changes its receiver returns it.
-- - Values of ranges are a type with an instance of `Merge`, whose `==` is equality of values.
-- - Clocks are natural numbers. A range is two clocks, and nothing in Ids adds to a clock, so 32 bits
--   do not matter there. `StateVector::inc_by`, BlockStore and the loop of `Update::integrate` add, and
--   the sums are checked there; a clock as `i32` is moved up by 2 ^ 31.
-- - A client is the number that `ClientID::get` gives. `ClientID::new`, without the feature
--   `small-client`, asserts that it has 53 bits: Encoding/Client has it as a panic, as in a build with
--   debug assertions, and every decoder of clients goes through it.
-- - The loops of a decoder run on the count that was read.
-- - Arithmetic is checked, as in a build with overflow checks: an overflow is the result `panic`.
-- - Bytes are natural numbers, and bits are taken by masks and shifts as in the source, cut to the width
--   of the type.
-- - In Awareness the clocks wrap at 32 bits, as in a build without overflow checks, and the theorems that
--   rest on it bound them. The time and the flags of the subscribers are arguments, and a call returns
--   the events it fires.
-- - In Block a pointer is a number and the heap a function; the lookup of an identifier in the block
--   store is a parameter. An item that the linking would delete is returned. The loops have fuel, and
--   one more than the items between the neighbours is enough; `find_index` has one round for every block
--   and one more.
-- - The loop of `Update::integrate` has two rounds of fuel for every block, since a block is put on the
--   stack at most once before it is integrated or given up; `handle` has one for every byte and one
--   more. A block of an update has the identifiers that `missing_dependency` looks up.
-- - The codecs of `Any`, `TypeRef` and `Options` are an interface whose laws are hypotheses, as is the test
--   for UTF-8 and the split of a text of the standard library.
-- - The loop of `find_start` has one round of fuel for every range and one more; a number of 64 bits is
--   written with fuel for 10 groups of 7 bits, one of 32 bits with 5, one of 128 bits with 19.
--
-- Not modelled: the splitting, squashing and deletion of blocks, transactions, shared types, undo,
-- sticky indexes, paths, merging of updates, the codec of `Any`, and the foreign function interfaces. Of
-- integrate_item, what it does to the content, the lengths and the sets of changes. Of the protocol, its
-- asynchronous variant, which has the same handlers.
pub mod Common
pub mod Ids
pub mod BTree
pub mod HashMap
pub mod IdMap
pub mod Encoding
pub mod StateVector
pub mod Columns
pub mod Awareness
pub mod Block
pub mod BlockStore
pub mod Update
pub mod Protocol
pub mod Examples
