-- ===== src/Lib.antt =====
-- capnp-es is a Cap'n Proto runtime in TypeScript: messages made of segments, their stream
-- framing and packed encoding, and an RPC layer over them. This library models parts of src/ and
-- proves what makes them correct.
--
-- The parts, and the files that model them (a camelCase name of the source is the same name in
-- snake_case here):
--
-- * Packing (src/serialization/packing.ts): `pack`, `unpack` and their helpers on lists of bytes.
--   The index into a source buffer is the suffix that starts there. Packing/Format defines the
--   packed format without the code, as the relation `Packs`; Tag, Count, Encode, Unpack and
--   Decode connect the code to it, and RoundTrip and Total hold the theorems.
-- * Serialization/Word (`padToWord` of src/util.ts), Serialization/Arena
--   (src/serialization/arena), Serialization/Message (allocation: src/serialization/segment.ts
--   and message.ts), Serialization/Access (the unsigned getters and setters of segment.ts) and
--   Serialization/Framing (the stream framing of message.ts). Array buffers are shared objects: a
--   heap is a list of buffers, a segment or an arena refers to one by its index. A message is a
--   record with the heap, the arena, the segments and the flag `readonly`; an operation takes the
--   message and returns the next one.
-- * Serialization/Context, Serialization/ObjectSize, Serialization/Pointer
--   (src/serialization/pointers/pointer.ts, pointer.utils.ts and orphan.ts), Serialization/Struct
--   (struct.utils.ts) and Serialization/List (the files of list/, data.ts and interface.ts):
--   pointers, structs and lists. A context is a message with its traversal limit and its table of
--   capabilities; the code is a function from a context to a result with the next context, in do
--   blocks. A pointer names its segment by the id. Pointer/Codec and Pointer/Target hold what the
--   getters read of a known word and where a struct pointer leads; Pointer/RoundTrip,
--   Struct/RoundTrip, Struct/Numbers32, Struct/Init and Struct/Erased hold the theorems.
--   Serialization/Root has `getRoot`, `initRoot` and `setRoot`
--   of message.ts. List/Methods has methods of lists over the reading of an element, which is a parameter.
-- * Rpc/Queue and Rpc/CallQueue (src/rpc/queue.ts, call-queue.ts, and parts of answer.ts and
--   call.ts): the ring arithmetic over a storage of slots, and the queue of calls on top of it.
--   What a flush does to fulfillers and answers is the list of `Effect`s in their order.
-- * Rpc/HeldClient (src/rpc/fulfiller/embargo-client.ts, src/rpc/queue-client.ts): clients that
--   hold calls back in such a queue.
-- * Rpc/Fulfiller (src/rpc/fulfiller/fulfiller.ts): the states of a promised result and the split
--   of its queue by capability.
-- * Rpc/IdGen (src/rpc/idgen.ts) and Rpc/RefCount (src/rpc/refcount.ts, ref.ts): ids and
--   reference counts, with the steps of their clients as a relation.
-- * Rpc/Conn (src/rpc/conn.ts, with question.ts, answer.ts, import-client.ts, join.ts and client.ts,
--   which reach back into it): a connection is one record, with its tables and with lists of the
--   objects that the tables share, an object named by its index. Wire is the data type of the
--   messages, State the record and the small monad of code that throws (the state comes back in
--   either case); Questions, Exports, Imports and Answers have the operations of each table, Caps the
--   descriptors of capabilities, Fulfill an answer's results, Handlers, Returns and Calls the
--   handlers, Dispatch and Shutdown the rest, and Asking what this side sends. Messages that are sent,
--   warnings and calls of other clients go to a log. Rpc/Slots has the arrays with nulls that questions
--   and exports share. Valid has the invariant of both through every operation, and Valid/Reach the
--   states that can be reached; Exports/Counts, Exports/Added and Imports/Refs count references, and
--   Settling and Waiters say how questions and answers end.
-- * Errors (src/errors.ts): the errors that are thrown, and results. Prelude holds shared lemmas,
--   Tests small runs and the theorems applied to them.
--
-- Conn calls IdGen, RefCount and CallQueue. Framing calls Packing and Message; Message calls Arena; Struct and List call Pointer, which
-- calls Message; CallQueue calls Queue, HeldClient calls CallQueue, and Fulfiller calls both of
-- these.
--
-- Bounds and fuel. The loops of `pack`, `unpack` and `getUnpackedByteLength` and that of `flushTo`
-- and `rejectAll` run on fuel: the number of bytes and of slots, which suffices since each round
-- takes one at least. `none` says that the fuel ran out. `erase` and `copyFrom` recurse on the
-- depth limit of the pointer, which the constructor keeps at 1 or more. `dig` follows as many
-- settled pipelines as the field `hops` of `World` says, where the source has no bound, and throws
-- `out_of_hops` beyond. `reject` of an answer goes down one level more than there are answers,
-- since an answer that is done is not rejected again. Numbers are natural numbers, and offsets that
-- may be negative are integers; the sums of the source stay below 2 ^ 53. `padToWord` of segments
-- that are framed and of lists converts to int32 (Serialization/Word/Int32). In allocations, copies
-- and data sections `pad_to_word` stands for it, which is the same for sizes below 2 ^ 31 - 7. A
-- value that is larger than a byte in the `number[]` of `pack` does not arise.
--
-- Parameters. `placeParams` of src/rpc/call.ts runs code of the caller and is an argument of
-- `copy_call` and `push`; in `pipeline_call` of a fulfiller, which asks for the length of its queue
-- before that code runs, the argument also says what the code leaves of the fulfiller. Where a
-- transform leads (`transformPtr` and `Interface.fromPointer`) is an argument of Fulfiller's
-- `empty_queue`. While a call queue is flushed, the target's `call` does not throw. What the
-- `reject` of an answer throws is an argument of `reject_all`. Neither reaches back into the queue.
--
-- What a connection uses of a content, of the registry and of methods are the fields of `World`;
-- clients that a connection calls or closes do not reach back into it at once, and its transport
-- does not throw. What `close` throws as an export is released is the field `close_fails` of
-- `Conn`, any function of the client and of all that was done before; as the connection shuts down
-- the source drops what `close` throws, and elsewhere `close` does not throw.
--
-- Not modelled: content that moves between two messages (deep copies, defaults and orphans stay in
-- one message), a tag word with a negative length in a copy, `relocateTo`, fields of floating point
-- numbers, `copyBuffer` of data, text, the other methods of lists; promised exports
-- (`addExportPromise`) and the clients of other connections; servers and pipelines; the printing of
-- messages (`dump`, `toString`); transports and the platform's finalization registry; generated
-- schemas; the schema compiler, which prints source text. Of a message after an error nothing is
-- said.
pub mod Prelude
pub mod Errors
pub mod Packing
pub mod Tests
pub mod Rpc
pub mod Serialization
