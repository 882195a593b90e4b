-- ===== src/Lib.antt =====
-- dbuf-demo-go is a demonstration of the DBUF protocol: a binary format for values, and a protocol of
-- requests and responses over QUIC streams that is built on it.
--
-- The parts of the program and the modules that model them:
--
--   * basic/const.go, the numbers of the registry and of the parse types: Basic.Registry,
--     Basic.ParseType, Basic.Const, and Basic.Code for the results of CheckComplete.
--   * basic/val.go: values and their constructors (Basic.Val), Compare, Equal and SliceEqual
--     (Basic.Compare), the integers (Basic.Number: Uint64, Int64, GetU64, GetI64), and the floats
--     (Basic.Float: Float64, GetFloat64).
--   * basic/error.go: errors as values and ErrorToVal (Basic.Error).
--   * basic/encode.go: the encoder over its buffer and index (Basic.Encode).
--   * basic/decode.go: the decoder (Basic.Decode), ValidateKeysUnique and FindKey (Basic.Keys), and
--     CheckComplete, the check of a stream that comes in buffers (Basic.Check).
--
--   * protocol/const.go and protocol/stream.go: the registry numbers (Protocol.Names), the reader of a
--     stream and ReadFull (Protocol.Reader), the start of a stream (Protocol.Stream: ReadStreamGroup,
--     ReadHeaderInitial, GetHeaderParams), and its body and footer (Protocol.Body:
--     GetBodyLengthProperties, ReadCheckValue, GetContent, GetSingleBody). They use the decoder and
--     CheckComplete of basic/decode.go on what they have read.
--   * protocol/header.go: GetPathProperties, the authority, the path and the operation of a request
--     (Protocol.Path), and the store of headers of a connection (Protocol.Store: GetHeaderStoreParams
--     in Params, HeaderStoreCacheItem in Item, HeaderStoreCache with Store and Load in Cache, and
--     GetHeaderStoreProperties in Merge and Properties). GetHeaderStoreProperties stores or loads an
--     item and merges its headers with those of the request, which GetPathProperties and
--     GetBodyLengthProperties then read.
--   * protocol/authentication.go: ValidateKeyParams, which Store calls for an item with an identity
--     (Protocol.Store.Authentication).
--   * protocol/identity.go: ParseIdentityWrite (Protocol.Identity) and CreateIdentity
--     (Protocol.Identity.Create), which puts into the storage what Store asks it for.
--   * protocol/dispatch.go and protocol/message.go: RequestResponse, the headers of a response,
--     InitRequest and Respond (Protocol.Dispatch, and Protocol.Writer for what is written when an error
--     stops it), RoutePaths and DeliverMessage (Protocol.Message), which read the path and the item of a
--     request and answer it, and Execute (Protocol.Execute), which serves the requests of a stream one
--     behind the other with a route that is a parameter. RoutePaths is such a route
--     (Protocol.Execute.Delivered).
--   * protocol/request.go and the rest of those files, the side of the client: a request and the response
--     to it (Protocol.Request), and Protocol.Client: GetKey and SetupNewIdentity in Keys, HeaderStoreState
--     in HeaderStore, and SendMessage in Message.
--   * data/storage.go and data/db.go: BadgerStorage (Data.Storage).
--   * connection/key_manager.go: TestKeyManager (Connection.KeyManager), and what a key manager promises
--     (Connection.KeyManager.Spec), a state machine for each authority.
--   * connection/connection.go: HandleStream, HandleUniStream and HandleDatagram, which call Execute
--     (Connection.Streams), and the loops that accept, HandleConnection, Listen and Dial
--     (Connection.Accept). Connection.Steps has the states of a connection while it is served.
--   * demo-client and demo-server: LoadKeyManager with the function that saves the keys, MakeAuthorityRef
--     and main (Demo.Client), and DefaultRouteFunc with the storage that it opens (Demo.Server).
--
-- What the program calls and does not hold is a parameter: the floating-point numbers, the database
-- badger (Data.Database, with the laws that the code relies on), the exporter of TLS, the signatures
-- of ed25519, JSON, the capacity that Go gives a slice (Protocol.Outside), the random bytes of an
-- identity and of a key, the application that receives messages, and, for a client, the stream of
-- each call. Calls that change a state are functions from the state to a result and the state that is
-- left (Protocol.Action). A mutex is held over the whole of each call, so calls of several goroutines
-- are a sequence of steps (Protocol.Store.Cache.Steps). In Connection.Steps a handler runs whole
-- before the next one.
--
-- Basic.Wire is not in the program: it describes the wire format as a function on values, and the
-- encoder and the decoder are each compared with it. The function names are those of the program in
-- lower case with underscores, so WriteValue is write_value; the loops have functions of their own.
--
-- The representation. A byte, a uint32 and a uint64 are natural numbers, and the operations that wrap
-- around do so in the model. An int64 is its bit pattern. A byte slice that may be nil is an optional
-- list. A call returns a value, an error, a panic for an index out of bounds, or, in the model only,
-- the news that a loop ran out of fuel. The loop of DecodeSequence has a round of fuel for each byte
-- that is left, and each round reads a byte; the loop of CheckComplete has two rounds for each byte and
-- three more, since a slice may be empty and then costs a round with no byte read.
-- A reader is the bytes that are still to come and the error behind them. The loop of GetContent has a
-- round of fuel for each byte of the stream and one more, since every value takes a byte at least. A
-- call that returns an error returns nothing else in the model; only DecodeSequence and, for Execute,
-- GetPathProperties, whose callers read what they return beside their error, have both. For what is
-- behind a body after an error, Protocol.Body.Taken has GetSingleBody with the reader as a state. The
-- loop of Execute has a round of fuel for each byte of the stream and two more, since every header
-- takes a byte, and the first byte may have been read before.
--
-- Not modelled: the debug output ToString, the texts of errors and the logs; QUIC itself, of which the
-- handlers see the bytes of streams and the loops a list of what they accept; and of the two demo
-- programs the settings from the environment, the certificates and the sockets.
pub mod Common
pub mod Basic
pub mod Data
pub mod Protocol
mod Runs
pub mod Connection
pub mod Demo
