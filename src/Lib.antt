-- ===== src/Lib.antt =====
-- Verification of the core of the TreeFrog web framework.
--
-- A message on a WebSocket is read in two stages. TAbstractWebSocket::parse() of
-- src/tabstractwebsocket.cpp turns the bytes received into frames (src/twebsocketframe.h and
-- .cpp), and TWebSocket::readRequest() of src/twebsocket.cpp joins the payloads of the frames up
-- to a final one and starts a worker with the messages. A request over HTTP is answered by
-- src/tactioncontext.cpp: it finds the action by the table of routes of src/turlroute.cpp, loads
-- the session (src/tsessionmanager.cpp, src/tsessioncookiestore.cpp), runs the controller
-- (src/tactioncontroller.cpp) by src/tdispatcher.h, ends the transactions of
-- src/tdatabasecontext.cpp and src/tsqltransaction.cpp, and writes a response. Actions check forms
-- by src/tformvalidator.cpp. A worker of src/twebsocketworker.cpp runs the handler of an endpoint
-- (src/twebsocketendpoint.cpp) for a message, and then the tasks that it has queued: these write
-- to the sockets and subscribe and publish. The processes of an application exchange messages over
-- the bus of src/tsystembus.cpp, and WebSockets publish to topics by src/tpublisher.cpp. Views
-- show long lists with the paginator of src/tpaginator.cpp. Actions are guarded by the access
-- rules of src/taccessvalidator.cpp. Mails and HTTP messages carry the headers of
-- src/tinternetmessageheader.cpp, and sessions and caches can be kept in Redis, whose protocol is
-- spoken by src/tredisdriver.cpp. The templates of views are turned into C++ by
-- tools/tmake/erbparser.cpp, which has the values escaped by src/thttputility.cpp. Actions take
-- connections of databases from the pools of src/tsqldatabasepool.cpp and
-- src/tkvsdatabasepool.cpp, and query them by the criteria of src/tcriteria.cpp. Responses wait in
-- src/tsendbuffer.cpp and are sent by src/tepollsocket.cpp. Each request is written to the access
-- log by src/taccesslog.cpp.
--
-- Files:
-- Base: the shared names, the lists over the native numbers, texts as lists of code units, bytes in
--   big-endian order, bit operations, and the parameters that stand for Unicode functions of Qt.
-- WebSocket/OpCode, Frame: TWebSocketFrame, with its members as a record and its methods as functions.
-- WebSocket/Parser: parse(). The list of frames is its finished part and the frame that `pfrm` points
--   to; each round of the loop is `step`, and `goto parse_end`, `break` and `return -1` are `stop`.
-- WebSocket/Messages: canReadRequest() and readRequest(); a worker is the list of its messages.
-- WebSocket/Sending: sendText() and the other functions that send a frame, and a proof about them.
-- WebSocket/Termination, RoundTrip, Assembly, Delivery, Interleaving: proofs about these.
-- Route/Directive, Parse, Find: TRoute, TRouting and TUrlRoute; the list of routes is an argument.
-- Route/Matching, Selection: what a match is, and proofs.
-- SystemBus: TSystemBusMessage and the reading side of TSystemBus; SystemBus/Stream and Wrapping: proofs.
-- Paginator: TPaginator; Paginator/Pages, Bar and Reach: proofs.
-- Access: TAccessValidator; Access/Decision and Grants: proofs.
-- Header: TInternetMessageHeader; Header/Lookup and Parsing: proofs. qstricmp() and trimmed() of Qt are
--   parameters, the first one with the laws of an equivalence.
-- Redis: the parser of replies and the texts of requests of TRedisDriver; Redis/Request: request(), with
--   what the socket delivers as a list; Redis/Laws, Arrays and Termination: proofs. The conversions of
--   decimal numbers are parameters, with the law that an int is read back.
-- Publisher: TPublisher and Pub, with the receivers connected to the signals; Publisher/Delivery and
--   Flags: proofs.
-- Endpoint, Endpoint/Tasks: TWebSocketEndpoint. The functions that an application overrides are a record of
--   functions, and `none` is an exception that one of them throws.
-- Worker: TWebSocketWorker; Worker/Loop: its loop over the tasks, with the state that the workers share;
--   Worker/Sockets: the flags, the keep-alive timer and the output of a TAbstractWebSocket;
--   Worker/Stable, Keeping: a rule that proves a property of a socket for all tasks and modes;
--   Worker/Closing, Leaving, Answering, Opening: proofs.
-- Erb, Erb/Tags, Trimming, Converter: ErbParser of tools/tmake with the code that it writes, and
--   ErbConverter::escapeNewline(). A position is the characters before it and after it.
-- Erb/Cutting, Termination, Rounds, Literals, Rendering, Emission, Templates, Quotes: proofs about these.
-- Pool: the connections of one database in TSqlDatabasePool and TKvsDatabasePool; Pool/Conservation,
--   Turns and Opening: proofs, with threads that take turns at whole operations.
-- Transaction: TSqlTransaction, with the calls that it makes of the drivers as a list.
-- DatabaseContext: the SQL databases of TDatabaseContext, over Transaction and Pool; DatabaseContext/Holding,
--   Operations, Quiet, Idle and Disabled: proofs.
-- Lz4: lz4Compress() and lz4Uncompress() of src/tglobal.cpp, over the functions of LZ4 as a parameter;
--   Lz4/RoundTrip: proofs.
-- Session: TSession and TSessionManager over a store; Session/Cookie: TSessionCookieStore, with its codecs
--   as a parameter; Session/Cookie/Reading and Session/Generating: proofs.
-- Action/Exceptions: code that changes a state and throws; Action/Controller: TActionController;
--   Action/Response: the writeResponse() of TActionContext; Action/Steps: the steps of execute() for a
--   controller, in the order of the code, with the request and the state in Action/Steps/Parts;
--   Action: execute(). The functions that an application overrides
--   are a record of functions that change the controller and the databases and can throw.
-- Action/Answering, Forgery, Unfinished, Continuing: proofs.
-- SendBuffer: TSendBuffer; EpollSocket: the queue of a TEpollSocket and its send(), with the answers of
--   the system as a list; SendBuffer/Reading, EpollSocket/Queue and Stream: proofs.
-- Dispatcher: TDispatcher::invoke(); Dispatcher/Choice: proofs.
-- FormValidator: TFormValidator; FormValidator/Meaning: what the rules mean, stated apart from the code;
--   FormValidator/Rules and Checking: proofs.
-- HttpUtility: escapes and words in MIME of THttpUtility; HttpUtility/Reasons: its table of reasons;
--   HttpUtility/Escaping and Words: proofs.
-- Criteria: TCriteria, and the part of TCriteriaConverter that joins texts; Criteria/Joining and Negation:
--   proofs.
-- AccessLog: TAccessLog::toByteArray(); AccessLog/Layouts: proofs.
-- Tests: the code run on concrete inputs.
--
-- Numbers that are machine-width keep their bounds written out where the code can leave them: the
-- length of a message of the bus, the bytes still missing in a frame, the sizes that a byte array
-- has, the end of the page bar and the limit of a body. It is assumed that fewer than 2 GiB wait at
-- once on a WebSocket, whose number is an int, and that the numbers of databases are below 100, as
-- the names of connections have two digits for them. The loop of TAbstractWebSocket::parse() has one
-- unit of fuel for each byte received and that of readRequest() one for each frame; the parsers of
-- headers, of replies and of templates, and semicolonTrim(), have one for each byte. This is enough,
-- as every round takes a byte, a frame or a part of the text. getSqlDatabase() tries two times and
-- generateId() three times, as the code does. The loop of recvAll() has any fuel, and `none` where
-- it runs out.
--
-- Not modelled: sockets, threads, the drivers of databases, logging and the messages written to the logs;
-- the rendering of views; the stores of sessions in files and databases; the key-value databases of a
-- context. The files of the public directory, the Unicode functions of Qt (lower case, trimming, codecs),
-- QVariant, regular expressions, dates and URLs are parameters.
pub mod Base
pub mod WebSocket
pub mod Route
pub mod SendBuffer
pub mod Lz4
pub mod SystemBus
pub mod Access
pub mod Header
pub mod Redis
pub mod Publisher
pub mod Erb
pub mod Pool
pub mod Transaction
pub mod DatabaseContext
pub mod Session
pub mod Action
pub mod Dispatcher
pub mod EpollSocket
pub mod FormValidator
pub mod HttpUtility
pub mod AccessLog
pub mod Criteria
pub mod Endpoint
pub mod Worker
pub mod Paginator
pub mod Tests
