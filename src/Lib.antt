-- ===== src/Lib.antt =====
-- SimIMS: a minimal IMS core (P-CSCF, I-CSCF, S-CSCF) in C++.
--
-- The parts, the file here that models each, and the source that it follows:
--
-- - Common: src/common/types.hpp, error codes and results.
-- - Uri: src/sip/uri_utils.cpp, the URI of a name-addr header value. Uri.Endpoints: the identity and
--   the endpoint of a URI that osip has parsed.
-- - Store, Store.Memory: src/sip/store.hpp and src/sip/memory_store.cpp. The S-CSCF registrar and the
--   session router keep and look up registrations there. The state is the table `Bindings`.
-- - Media: src/rtp/media_session.hpp and .cpp, the table of media sessions that the P-CSCF keeps
--   beside its calls. Media.Invite has the operations that follow an INVITE.
-- - Message: src/sip/message.cpp, the parts of a message that the transaction layer reads.
--   Message.Forwarding: what the proxies change in it, and createResponse. Message.Headers: the header
--   fields by name, the contacts and the expiry that the registrar reads, where `Osip` has what osip
--   prints and parses.
-- - Transaction: src/sip/transaction.hpp and .cpp. Transaction.Server and Transaction.Client are the
--   two kinds of transaction, Transaction.Layer the tables that TransactionLayer keeps of them. A
--   locked section of a transaction is one function; the statements on interleavings are about lists
--   of such sections (Transaction.Server) and of operations of the layer (Transaction.Layer.Steps).
--   The proxies and the services above send and get their messages through the layer.
-- - Bencode: src/rtp/bencode.cpp, the encoding of the messages to RTPengine. Bencode.Parse is the
--   decoder, whose position is an index into the data modulo 2^64.
-- - Milenage: src/crypt/milenage.cpp, the authentication functions, on Milenage.Rijndael, the block
--   cipher. Milenage.Reference and Milenage.Tables have the specifications they are compared with.
-- - Aka: src/crypt/milenage_adapter.cpp, src/diameter/aka_vector_builder.cpp and the part of
--   src/diameter/mongo_hss_client.cpp that answers a MAR. Aka.Sequence is advanceSqn of
--   src/db/mongo_subscriber_repository.cpp: a caller is a state between two calls of the database, and
--   the database an atomic replacement of a number that is compared. Its five attempts are the
--   source's bound.
-- - Proxy: src/sip/proxy_core.cpp. Proxy.Stateful is forwardStateful. Proxy.Hops and Proxy.Back are
--   about requests through several proxies and responses back through them.
-- - Router: src/s-cscf/session_router.hpp and .cpp, the table of dialogs of the S-CSCF.
--   Router.Handlers has the handlers of requests, on Proxy, with the actions that they take, and the
--   callbacks of responses; Router.Calls a specification of the dialogs of one call.
-- - Auth: src/s-cscf/auth_manager.cpp and parse_digest_authorization of src/sip/uri_utils.cpp. The
--   challenges carry the vectors of Aka; MD5 is a parameter.
-- - Hss: src/diameter/ihss_client.hpp and types.hpp, the interface that the registrar, the providers of
--   authentication and the I-CSCF share, a record of functions on a state of the outside.
-- - Registrar: src/s-cscf/registrar.cpp. Registrar.Handlers has handleRegister with its two branches,
--   on Store.Memory; a provider of authentication is a record of functions (i_auth_provider.hpp).
-- - Challenges: ims_aka_auth_provider.cpp and digest_credential_store.cpp of src/s-cscf, with
--   Challenges.Digest for digest_auth_provider.cpp. The AKA provider unlocks its mutex for the call to
--   the HSS, so its operations are lists of locked sections there, and the calls are composed of them.
-- - Subscribers: the searches of src/db/mongo_subscriber_repository.cpp, and the answers to UAR, SAR
--   and LIR of src/diameter/mongo_hss_client.cpp. The database is a record of functions.
-- - Icscf: src/i-cscf/icscf_service.cpp and scscf_selector.cpp, on Hss and Proxy.
-- - Pcscf: src/p-cscf/pcscf_service.hpp and .cpp, where requests come from and go. Pcscf.Anchoring is
--   what it does with media sessions, on Media, with rtpengine and the PCF as records of functions;
--   Pcscf.Handlers has the handlers of requests, on Proxy. A handler is one step, though the source
--   takes its mutexes for single operations. Pcscf.Cases lists the ways through the handlers.
-- - Scscf: src/s-cscf/scscf_service.cpp, the providers that are configured, the subscriptions to
--   registration events and the cleanup of the store.
--
-- Strings are lists of bytes (Prelude.Text), hash maps lists of entries (Prelude.Table); the order of
-- such a list stands for the order of iteration, and the statements hold for every order. Numbers are
-- natural numbers. A method that holds a mutex is one step of its state, and reads the clock once,
-- as the argument `now`. Two definitions use fuel. `digits` is given the number plus one, which is
-- more than it has digits. The decoder `parse` is given the size of the data plus one: each level and
-- each element takes at least one byte of what the encoder writes. The other loops run over lists.
--
-- The outcomes of creating a message, of cloning and of sending it are arguments, since osip and
-- the transports decide them. Arguments are also what osip parses and prints, and the branches and
-- tags that are drawn. Where a set of IMPUs is iterated, a list of its elements, each once, stands
-- for it. Not modelled: sockets, transports and event loops, since they are input and output;
-- osip, eXosip, MongoDB and OpenSSL, which are libraries; the content type of a body; the stub
-- clients of the HSS; the client of RTPengine, a parameter of Pcscf, which waits for datagrams;
-- the DNS resolver, whose records are those of c-ares; configuration and logging. A call that the
-- exception of a number's conversion leaves has an outcome that says so; what becomes of the
-- process then is not modelled.
pub mod Prelude
pub mod Common
pub mod Uri
pub mod Store
pub mod Media
pub mod Message
pub mod Transaction
pub mod Bencode
pub mod Milenage
pub mod Aka
pub mod Proxy
pub mod Router
pub mod Auth
pub mod Hss
pub mod Registrar
pub mod Challenges
pub mod Subscribers
pub mod Icscf
pub mod Scscf
pub mod Pcscf
