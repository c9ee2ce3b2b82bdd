-- ===== src/Lib.antt =====
-- crow_core is the web framework of a BMC: an HTTP server whose router hands each request to the
-- handler registered for its URL and method, with the helpers that the handlers and the connections
-- use.
--
-- The parts modelled, with paths from the root of the repository:
-- * Common and its children hold what the others share: tests on numbers, lists, a string as the list
--   of its bytes (Text), and strtoll and strtoull (Strtol).
-- * Hex is utils/hex_utils.hpp: intToHexString, bytesToHexString, hexCharToNibble, hexStringToBytes.
-- * Base64 is the encoder and the decoder of http/utility.hpp and their use on the chunks of a file in
--   http/http_base64_file_body.hpp. An encoder's three members are a record that each call takes and
--   gives back with the output; base64Decode gives the flag and the output that it leaves.
-- * Trie is class Trie of http/routing.hpp: the nodes are a list, and a node number is an index in it.
--   `add` is in Trie, `find` in Trie/Find, isSimpleNode, optimizeNode and optimize in Trie/Optimize.
--   An exception is a result. Rules are told apart by their paths, lists of labels (Trie/Edges,
--   Trie/Invariant); Trie/Routes says what `find` answers in terms of the paths.
-- * Verb is http/verb.hpp.
-- * Router is BaseRule, `methods` and class Router of http/routing.hpp: the rules and the trie of each
--   method are a record, and the router is the list of the nine. validate gives an Outcome, handle a
--   Handled: the status or the call that the code makes, with the Allow header. Router/Build and
--   Router/Adding are about registering, Router/Validate about the router built, Router/Lookup about
--   findRoute, Router/Handling about handle, and Router/Methods about the bits of the methods.
-- * Tags is the tags of http/utility.hpp's black_magic: getParameterTag of a rule and of an argument's
--   type, computeParameterTagFromArgsList and isParameterTagCompatible, whose loop has fuel: the first
--   tag and one more, since each round divides it by 6.
-- * Ip is ipv4VerifyIpAndGetBitcount of utils/ip_utils.hpp, as two functions: with the count of the
--   bits of a mask, and without.
-- * Messages is fillMessageArgs and getLogFromRegistry of include/registries.hpp; the JSON object that
--   the latter makes is a record of its members.
-- * Json is the values of nlohmann::json: the kinds of a value, and an object as its members in the order of
--   their keys, with find, operator[], erase, push_back, items and get_ptr as the library documents them;
--   an exception is `none`.
-- * Errors is redfish_event/src/error_messages.cpp. Errors/Registry and its children are the registry and
--   the enumeration of include/registries/base_message_registry.hpp, Errors/Logs and its children the
--   functions for the messages: f is the one that returns JSON, f_response the one that takes a response.
--   Errors/Adding is about what messages add up to, Errors/Filled about the registry's templates,
--   Errors/Logs/Calls and Errors/Logs/Sent about all the functions at once.
-- * Headers is the fields of a response's header, which boost keeps; insert and erase are written as it
--   documents them. Headers/Values reads them name by name.
-- * Response is struct Response of http/http_response.hpp; Response/Fields is
--   http/complete_response_fields.hpp and security_headers.hpp, Response/Completing completeRequest of
--   http/http_connection.hpp up to doWrite, and Response/NotModified a request with an If-None-Match.
--   Response/Steps has the operations as steps on several responses, moves between them included, and
--   Response/Completion counts the handlers that are called.
-- * Sessions is sessions.hpp: the store is a record that each operation takes and gives back with its
--   result. Sessions/Generating is generateUserSession, Sessions/Restoring the two functions fromJson;
--   Sessions/Invariant has the operations as steps, and Sessions/Operations the store as a map from
--   tokens to sessions.
-- * Subscriptions is http/event_service_store.hpp, and Persistence is http/persistent_data.hpp: what is
--   read from the file's JSON into both stores, and what is written.
-- * Html is include/json_html_serializer.hpp: decode and dumpEscaped, whose state is a record with the
--   string buffer (a write past its end is `none`), Html/Integers its numbers and Html/Values its values.
--   Html/Decoding, Html/Safe, Html/Written, Html/Ascii and Html/Overflow are about dumpEscaped.
-- * HumanSort is include/human_sort.hpp.
-- * ContentTypes is http/http_utility.hpp.
--
-- Fuel, and why it is enough: the loop of `add` has a round for each character and one more, since a
-- round takes a character or a tag; `find` a call for each node, since a child has a larger number than
-- its parent; `optimizeNode` a depth of one for each node, for the same reason, and one merge more than
-- there are nodes at each, since a merge puts the children of a node at larger numbers;
-- `fillMessageArgs` a round for each character and one more, since a round takes the `%`;
-- `countDigits` six rounds and `dumpInteger` eleven, since a number of 64 bits has 20 digits;
-- `alphanumComp` one for each character of both texts and one more, since a round takes some of both;
-- and `getPreferedContentType` one for each character and two more, since a round takes the first.
--
-- Parameters: strtod, with the type of its values, and the type of the handlers; of the JSON library
-- dump, to_cbor and the hash of a value, and what dumpfloat prints; the clock, and the numbers that the
-- random device gives; of boost `set` of a header field, what keep_alive and content_length do with the
-- fields, and the size of a body.
--
-- Not modelled: what a rule does when it is called, the input and output of sockets and files, boost,
-- nghttp2 and OpenSSL, and logging.

pub mod Base64
pub mod Common
pub mod ContentTypes
pub mod Errors
pub mod Headers
pub mod Hex
pub mod Html
pub mod HumanSort
pub mod Ip
pub mod Json
pub mod Messages
pub mod Persistence
pub mod Response
pub mod Router
pub mod Sessions
pub mod Subscriptions
pub mod Tags
pub mod Trie
pub mod Verb
