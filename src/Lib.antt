-- ===== src/Lib.antt =====
-- coap-rs: a CoAP client and server with observe, block-wise transfers, a router, discovery and
-- EDHOC.
--
-- The program. A server reads a packet, gives it to the block handler of `coap_lite` and then to the
-- observer, and forwards it to the application if both let it pass; what the application answers goes
-- through the server once more. The router is an application that selects a handler by path and
-- method. A client sends a request, in blocks where its payload is long, and fetches the blocks of
-- the response, or observes a resource. The handlers of the router take their arguments from a
-- request by extractors. An EDHOC exchange runs in two requests to one route: the Responder keeps
-- what it needs between them in a store that the requests share.
--
-- The files.
--   Common: Boolean tests, conditionals, Option as the chain of steps that may panic, lists, and
--     the operations of `HashMap` and `HashSet` that the program calls (Basics, Lists, Maps,
--     Sizes), and of `BTreeMap` (Ordered); Results has the results that carry an error.
--   Coap: the messages as the program sees them, and what it takes from `coap_lite` and `std`.
--   Observer: src/observer.rs. The struct's maps are association lists, and each function that
--     changes them is a function of the whole observer; a panic is `none`. Handler has the handlers
--     and the timer. Views, Invariant, Registrations, Removal, Behaviour and Keys hold the proofs on
--     the maps, Handler/Notices, Deliveries, Changes, Retries, Safety and Retransmission those on
--     the handlers, and Encode the integer option and the tag.
--   Client: src/client.rs. Download has `receive`, `receive_with_etag_validation` and
--     `handle_blockwise`, Upload has `send_request`; there the answers of the transport are a
--     list. Transport has the waiting requests, `receive_loop` and the attempts to send a message,
--     with numbers for the channels' senders and the attempts' results as a list;
--     Transport/Requests lets requests interleave with the loop, and Transport/Receivers is
--     `MessageReceiver`. Observing has `observe_with`, the handling of a message and the task that
--     waits for messages, whose events are a list; the registry is followed up to that task, and
--     not by it. Urls has the requests that take a URL, the answer to a discovery, and multicast.
--   Discovery: src/discovery.rs, links, their attributes, queries and the writer of the link format.
--   Router: src/router/mod.rs, method_routing.rs, request.rs and response.rs; Router/Routes is
--     src/router/route.rs, and Responses is what handlers return.
--   Server: src/server.rs, `intercept_request`, `intercept_response` and the answer. Runs has the
--     loop of `run`, whose handlers end in any order, Multicast the groups of the UDP listener, and
--     Listening its loop and the one of src/dtls.rs.
--   Build: src/request.rs, the builder of a request.
--   Extract: src/router/extract. Parameters and Access are path/de.rs, the deserializers of path
--     parameters and the accesses that they give to a visitor; Extract itself has the errors, their
--     responses and the other extractors, and Tuples is tuple.rs and the call of handler.rs. Arity,
--     Pairs and Entries are about tuples, lists of pairs and maps.
--   Edhoc: src/edhoc/mod.rs. Edhoc itself has the errors and the messages that carry them, Responder
--     the store and both legs of an exchange, each section under one lock a function of its own,
--     Initiator `edhoc_initiate`, and Initiator/Serving the route of src/edhoc/router.rs.
--     Responder/Worlds lets exchanges interleave, and Responder/Registering is what a step adds.
--   Tests: concrete endpoints and inputs.
--
-- Parameters. `Endpoint`, `Codec`, `Regex`, `LinkWriter`, `BlockHandler`, `Lakers`,
-- `InitiatorLakers`, `CborDecoder`, `Printer`, `Parsers`, `UrlReader` and `Visitor` are records of
-- what the program calls in other crates. A theorem that relies on one of them says so by a
-- hypothesis: no address prints a dollar sign (as `SocketAddr`'s `Display`), a block of a size
-- that a block value names can be built, a splice at the end of a vector appends, a visitor takes
-- elements until there is none, and the messages of `lakers` carry the connection identifiers.
--
-- Bounds. Message numbers are 16 bits wide and sequence numbers 32: `increment` panics or wraps as
-- the build does, and the theorems that need it ask for room. The loops are recursions on lists:
-- `chunks` takes as many rounds as there are bytes, which is enough for a positive size, and
-- `receive` stops where the transport has no answer left. A reader of a path's parameters has a bound
-- on the elements that it takes; more than the parameters is enough.
--
-- Not modelled: sockets and tasks, the constructors and settings of a client, the DTLS handshake,
-- the timeouts, the cryptography of EDHOC, and `parse_link_format`, whose parser is `coap_lite`'s.
pub mod Common
pub mod Coap
pub mod Observer
pub mod Client
pub mod Discovery
pub mod Router
pub mod Server
pub mod Build
pub mod Edhoc
pub mod Extract
mod Tests
