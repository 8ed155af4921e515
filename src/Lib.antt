-- ===== src/Lib.antt =====
-- A verification library of python-oracledb: the parts of its thin driver that read and write the
-- bytes of the database protocol and keep its statements, its vectors, its connect descriptors and
-- tnsnames.ora files, and its pool of connections.
--
-- Files and the code that they model (paths from the repository's root):
-- - Prelude: shared names, integers, lists, the lemmas on bits and on order.
-- - Bytes: byte order and packing of machine integers, src/oracledb/impl/base/buffer.pyx.
-- - Errors: the errors that are raised (src/oracledb/errors.py, `_raise_err`) and results.
-- - Buffer: the classes Buffer and GrowableBuffer of src/oracledb/impl/base/buffer.pyx. A method
--   takes a Buffer and returns a result with the changed one; a method's name is that of the source
--   less its leading underscore. Buffer/Integer has the integers in the universal format and
--   Buffer/Skip the methods that skip, Buffer/Terminated the null-terminated bytes and texts,
--   Buffer/Length the bytes behind a length, with the chunks that ReadBuffer of
--   src/oracledb/impl/thin/packet.pyx reads. Buffer/Room, Append, Raw, Stream and RoundTrip have
--   the lemmas: how a write makes room, what it appends, what a read takes.
-- - Number: Buffer.write_oracle_number and Buffer.parse_oracle_number. Number scans the decimal
--   text, Number/Wire has the bytes, Number/Text the text of a parsed number, Number/Length,
--   Mantissa, RoundTrip and Inverse the proofs.
-- - Temporal: dates and intervals of the class Buffer; the constructors of Python's datetime module
--   are arguments.
-- - Float: Buffer.write_binary_double, parse_binary_double and their like for floats;
--   Float/RoundTrip has the proofs.
-- - Statement: the classes Statement and BindInfo of src/oracledb/impl/thin/statement.pyx, without
--   their variables; Statement/Binds has `_add_bind` and `_determine_statement_type`.
-- - StatementParser: the class StatementParser of src/oracledb/impl/thin/statement.pyx and
--   BaseParser of src/oracledb/impl/base/parsers.pyx. StatementParser has the scans over comments,
--   quoted strings, spaces and words, StatementParser/Bind `_parse_bind_name` and
--   StatementParser/Main the loop of `parse`, and `_prepare`. StatementParser/Tokens says what the
--   text of a list of tokens means, with no positions; Scans, Names, Agrees, Rounds, Meaning and
--   Whole prove it of the parser; Progress and Ends that it ends; Grouped has the binds by name.
--   The tables of characters of CPython are an argument, the record Characters.
-- - StatementCache: the class StatementCache of src/oracledb/impl/thin/statement_cache.pyx, on a
--   heap that statements are shared through; StatementCache/Dict has its dictionary and its sets.
--   Its users call get_statement and return_statement; a new text goes to the statement parser.
--   Close writes the cursors to close with Buffer's write_ub4. Eviction, Lease and Reuse have the
--   proofs.
-- - Pool: the connection pool of src/oracledb/impl/thin/pool.pyx, classes BaseThinPoolImpl,
--   ThinPoolImpl and PooledConnRequest. Pool/Request has acquire and fulfill, Pool/Background what
--   the background task does, Pool/Return how connections go back, expire and are dropped,
--   Pool/Steps the runs; the other files have the proofs. Connecting, pinging and closing a
--   connection are the protocol's: their outcomes are arguments of the steps.
-- - Packet: packets and the class ReadBuffer of src/oracledb/impl/thin/packet.pyx. The packets that
--   the transport will return are a list. Packet/Chunks has the class ChunkedBytesBuffer,
--   Packet/Control what a control packet says, Packet/Read the reads over several packets; the
--   other files have the proofs.
-- - Rowid: the text of rowids, _convert_base64 and _encode_rowid of
--   src/oracledb/impl/thin/utils.pyx and ReadBuffer.read_urowid of
--   src/oracledb/impl/thin/packet.pyx; Rowid/Text has the proofs.
-- - WriteBuffer: the class WriteBuffer of src/oracledb/impl/thin/packet.pyx, with Buffer.write_raw
--   as it works there. The packets that are sent are a list; WriteBuffer/Header, Payload and
--   Transfer have the proofs.
-- - Vector: the classes VectorEncoder and VectorDecoder of src/oracledb/impl/base/vector.pyx, on
--   the buffers of Buffer and with the floats of Float. Vector/RoundTrip, Elements, Header and
--   Inverse have the proofs.
-- - ConnectString: the connect descriptors of the class ConnectStringParser of
--   src/oracledb/impl/base/parsers.pyx: `_parse_descriptor_key_value_pair` and
--   `_set_descriptor_arg`. ConnectString/Descriptor has descriptors as trees; Ends, RoundTrip and
--   Trees have the proofs.
-- - Tnsnames: the class TnsnamesFileParser of src/oracledb/impl/base/parsers.pyx. Tnsnames/Lines
--   has files as lists of comments and entries; Keys, Values and Entries have the proofs; Aliases
--   follows a descriptor from the file to its dictionary.
-- - Tests: the theorems at concrete values.
--
-- A byte is a number below 256. A machine integer is a natural number with its wrap-around written
-- out. The memory of a buffer is a list of its maximum size, and a pointer into it is the list of
-- the bytes that are read through it. An error is a value; the object is lost when a method raises,
-- but for a pool, which keeps the changes made until then.
--
-- Fuel: the loop of write_raw has two rounds, which is enough for a growable buffer (one call makes
-- room for the rest) and for a plain one (the second does not start). The loop that writes chunks
-- has a round for each byte, and each round writes one at least.
--
-- A pool is one record with the fields of all its connections and requests, which are numbers. A
-- method under the lock is a function on it; a step of Pool/Steps is one such method, and a run is
-- any sequence of the steps that the background task, callers and the timer can take, since waiting
-- for a notification changes no state. The number of a run is that of its steps by which a pool may
-- pass its maximum. Times are whole numbers.
--
-- The loop that reads over several packets has a round for each packet that there is; each round
-- takes one. The loop that writes over several packets has two rounds more than bytes: every round
-- but the first, which may find the packet full, writes a byte at least, and the last may write
-- none.
--
-- The loop of the statement parser has a round more than characters; each round moves the position.
--
-- The parser of connect descriptors has as fuel the number of characters and one, for the depth of
-- the parentheses and for the loop over the characters of a value: each pair and each round takes
-- one.
--
-- The parser of tnsnames.ora files has as fuel, for the loops over characters, their number and
-- one; each round takes one. The rounds of its loop over entries and of the loop over the parts of
-- a value are an argument: the first takes a round for each entry and two, and the second does not
-- always end.
--
-- The loop of skip_raw_bytes has one round, which is enough where enough bytes are left; where they
-- are not the loop of the source does not end.
--
-- Not modelled: the parameters that a connect string sets, and easy connect strings; OSON; the
-- objects and LOBs that a ReadBuffer reads and a WriteBuffer writes, sockets, messages,
-- connections, and the Python API above them, which depend on a server; thick mode, which calls
-- ODPI-C.
pub mod Prelude
pub mod Bytes
pub mod Errors
pub mod ConnectString
pub mod Buffer
pub mod Number
pub mod Float
pub mod Statement
pub mod StatementCache
pub mod Temporal
pub mod Tnsnames
pub mod Vector
pub mod StatementParser
pub mod Packet
pub mod WriteBuffer
pub mod Pool
pub mod Rowid
mod Tests
