-- ===== src/Lib.antt =====
-- pysnmp: what its protocol engine decides, caches, frames and translates, modelled definition by
-- definition.
--
-- The parts and the code they model, and how they meet at run time:
--   Framing     pysnmp/carrier/asyncio/stream/base.py: `decodeMessageLength` and
--               `SnmpStreamProtocol.data_received`, which cut a byte stream into messages.
--   Stream      pysnmp/carrier/asyncio/stream/base.py: `StreamAsyncioTransport`, its connections and the
--               queue of messages that wait for one, and what can happen to it (Stream/Events).
--   Dispatcher  pysnmp/carrier/base.py: `AbstractTransportDispatcher`, to which the transports hand the
--               messages and which routes each to a receiver; Dispatcher/Jobs counts outstanding work.
--   PduDispatch pysnmp/proto/rfc3412.py: `MsgAndPduDispatcher`, which the transports' messages come to and
--               which sends requests (PduDispatch/Send), hands messages to applications and requesters
--               (PduDispatch/Receive) and gives up on requests (PduDispatch/Expire and, for the two sweeps
--               over them, PduDispatch/Expire/Sweeps).
--   MpCache     pysnmp/proto/mpmod/cache.py: what a message processing model remembers of a message
--               until it is answered or its tick of the clock comes.
--   RequestCache pysnmp/proto/cache.py and pysnmp/proto/secmod/cache.py: the caches of the message
--               dispatcher and of the security models.
--   NextId      pysnmp/nextid.py: the generator of the identifiers that the caches use for keys.
--   LocalKey    pysnmp/proto/secmod/rfc3414/localkey.py: the password-to-key hash.
--   Usm         pysnmp/proto/secmod/rfc3414/service.py: `processIncomingMsg` (Usm/User, Usm/Checks and
--               Usm/Incoming, by the steps of RFC 3414), `__generateRequestOrResponseMsg` (Usm/Sender,
--               Usm/Outgoing) over the state of Usm/State; the authentication services hmacmd5.py,
--               hmacsha.py, noauth.py and pysnmp/proto/secmod/rfc7860/auth/hmacsha2.py (Usm/Mac); and both
--               directions together (Usm/Exchange).
--   ReadCache   pysnmp/cache.py: the bounded cache for the keys so made, which evicts what is read least.
--   Proxy       pysnmp/proto/proxy/rfc2576.py: `v1ToV2` (Proxy/In) and `v2ToV1` (Proxy/Out), with
--               the constraints of pysnmp/proto/rfc1902.py that a value meets on the way.
--   Vacm        pysnmp/proto/acmod/rfc3415.py: `_addAccessEntry` and `_getFamilyViewName` (Vacm/Access),
--               the view tree (Vacm/Views), `isAccessAllowed` over its four cached tables (Vacm/Model),
--               and its caller `__verifyAccess` of pysnmp/entity/rfc3413/cmdrsp.py with the void model of
--               pysnmp/proto/acmod/void.py (Vacm/Model/Caller).
--   Indices     pysnmp/smi/indices.py: `OrderedDict` and `OidOrderedDict`, which GETNEXT walks.
--   Base        shared helpers: native numbers, lists, a Python dict as an association list in insertion
--               order, the order of tuples, a stable sort.
--
-- State is a record with the attributes of the class, an operation a function from state to state, and
-- an exception a constructor of the result. Attribute and method names keep their words, in snake case.
-- Octets and sub-identifiers are native numbers, OIDs and strings lists of them.
--
-- Loops are structural. `drain` of Framing runs on fuel, one round for each octet and one more, which is
-- enough since a message has two octets at least. `walk` of Indices runs as often as there are keys.
--
-- Parameters: `isPrefixOf` of pyasn1 in Vacm/Views, under the law that it compares the first
-- sub-identifiers; the hash function in LocalKey, under the law of hashlib that updates concatenate; the
-- routing function, the addresses and the messages in Dispatcher; the remembered arguments in MpCache
-- and RequestCache; in Usm what hashlib and hmac digest, the decoder and the encoder of pyasn1 with its
-- message classes, the readings of the clock, and the ciphers and `localizeKey` of the services; in
-- PduDispatch the calls of the message processing models, the applications' callbacks and the answer of
-- the transports to a message. The theorems on sweeps assume, in each state that the sweep reaches, that
-- the callback called there returns and leaves alone the requests that were pending when it began.
--
-- Not modelled: sockets, asyncio and the event loop; when the timer callbacks of the dispatcher are
-- called, by floating-point times; the checks that pyasn1 makes when a value is cloned to v1, or to a
-- v2c type that constrains no more than its v1 type; keys of the ordered dictionaries that are dotted
-- strings; a `maxSize` of 0 in ReadCache; the overflow of a Counter32; the padding and the salts of
-- the ciphers behind `privServices`, whose block ciphers are another package's; the observers of
-- execution points; the message processing models, the command generators and the MIB instrumentation,
-- which stand outside. The datastore that Usm reads is its two tables and its counters, without the
-- tree of managed objects around them.
pub mod Base
pub mod Framing
pub mod Stream
pub mod PduDispatch
pub mod Dispatcher
pub mod MpCache
pub mod RequestCache
pub mod NextId
pub mod LocalKey
pub mod ReadCache
pub mod Proxy
pub mod Usm
pub mod Vacm
pub mod Indices
