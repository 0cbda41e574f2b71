-- ===== src/Lib.antt =====
-- NOX for OpenFlow 1.3 with its REST interface: a model of the components that carry the
-- controller's own logic, and the theorems about them. Numbers are natural numbers; where the code
-- has a machine integer the wrap-around is written out. What a component hands to the core (messages,
-- events, timers) is a log in its state, oldest first, and each handler is a function on that state.
-- Undefined behaviour of C++ is a value of its own (Common/Outcome.antt), and so is an exception.
--
-- Common.antt: tests, lists, keys, ordered association lists, outcomes of calls.
-- Lldp.antt: Port, Link and the frames of create_lldp and parse_lldp
--   (src/nox/netapps/discovery/discovery.cc), with datapathid::from_bytes
--   (src/include/netinet++/datapathid.hh), on a little-endian host.
-- Discovery.antt: the component Discovery of the same file and its events
--   (src/nox/netapps/discovery/link-event.hh). Discovery/Defs.antt has a function for each of
--   its member functions; `Call` is one call of a handler or timer callback, `run` a history of them.
--   The clock is an argument of the calls that read it. Discovery uses Lldp.
-- OpenFlow.antt: Actions, Instruction, FlowMod (src/lib/actions.cc, src/lib/instructions.cc,
--   src/lib/flowmod.cc) and what the components use of Flow (src/include/flow.hh).
-- LearningSwitch.antt: the component Switch (src/nox/coreapps/switch/switch.cc), which builds its
--   messages with OpenFlow.
-- Messenger.antt: the receive loop of messenger_connection
--   (src/nox/coreapps/messenger/messenger_core.cc), over a record `Processor` for the virtual functions
--   of message_processor, and the processors of src/nox/coreapps/messenger/messenger.cc and, for its
--   framing only, src/nox/coreapps/messenger/jsonmessenger.cc.
-- Ethernet.antt: the text forms of ethernetaddr (src/lib/netinet++/ethernetaddr.cc).
-- EventDispatcher.antt: Event_dispatcher (src/lib/event-dispatcher.cc), which calls the handlers of
--   the components, for handlers that do not block.
-- Classifier.antt: the packet classifier. Classifier.antt and Classifier/Building.antt,
--   Traversal.antt are the nodes of the tree (src/include/cnode.hh), Results.antt the iterator over the
--   rules found (src/include/cnode-result.hh), Ids.antt and Table.antt the classifier
--   (src/include/classifier.hh), PacketExpr.antt what a rule matches (src/include/expr.hh,
--   src/lib/expr.cc). Expr and Data, the template arguments, are the instance arguments SplitFields
--   and Query, which PacketExpr.antt fills. The other children hold the proofs.
-- Kernel.antt: the kernel that installs the components (src/builtin/kernel.cc, src/nox/kernel.hh,
--   src/builtin/deployer.cc); a result has the kernel after the call, exceptions included.
-- TimerDispatcher.antt: Timer_dispatcher and Timer (src/lib/timer-dispatcher.cc), which call the
--   callbacks of the components, for callbacks that do not block.
-- Interserver.antt: JSON values (src/lib/json_object.cc, src/lib/json-util.cc) and the components of
--   src/nox/coreapps/interserver, from the client to the switch and back:
--   HttpServer.antt: interserver.cc, which hands a request to the core and waits for the response.
--   Processor.antt: Request_processor (request_processor.cc). It calls Msg_resolver (Resolver.antt,
--     msg_resolver.cc); the JSON parser, atoi, datapathid::string and send_openflow_msg are parameters.
--   Builders.antt: interact_builders.cc. Arguments has check_args and the reading of arguments,
--     Tables the lists of keys, ActionFields, InstructionFields, MatchFields and Parts the builders of
--     the parts of a message, Queries and Changes the interactors, Registry their registration. The C
--     library and the JSON parser are the record `Libc`. The other children hold the proofs.
--   Answers.antt: interact_answer.cc, which turns a switch's message into a text; oflib's structs and
--     its functions to print them are parameters.
-- Tests.antt: the theorems at concrete inputs.
--
-- Fuel: the loop of processBlock is bounded by a number of rounds; the size of the block read is
-- enough for binary messages of at least three bytes and for JSON, where each round takes a byte.
-- A poll of the timers fires at most the timers that it has admitted. A search of the classifier
-- visits each node once, so that the number of nodes is enough; an iterator takes a rule in each
-- round. What is proved of building a tree and of the kernel holds for any fuel. All other loops
-- follow a list.
--
-- Not modelled: threads, sockets, SSL and logging, which run the handlers; the pointer from a rule of
-- the classifier to its node, with the change of a priority and the deletion of all rules found; the
-- reading of component descriptions; the OpenFlow C libraries, which pack and print the messages; the JSON
-- parser; cpp-netlib, which runs the HTTP handlers.
pub mod Common
pub mod Ethernet
pub mod EventDispatcher
pub mod Kernel
pub mod Classifier
pub mod TimerDispatcher
pub mod Lldp
pub mod Discovery
pub mod OpenFlow
pub mod Messenger
pub mod Interserver
pub mod Tests
pub mod LearningSwitch
