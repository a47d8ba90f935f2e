-- ===== src/Lib.antt =====
-- A verification library of the SIP and GB/T 28181 signalling stack of this repository.
--
-- The program. `params.go`, `uri.go`, `headers.go`, `headers_map.go` and `message.go` are the data
-- of SIP: parameters, URIs, typed headers, the header collection and messages. `parser.go` reads a
-- message, and cuts a TCP stream into messages. `transaction.go` keeps client and server
-- transactions in one table, `dialog.go` the dialogs, and `proxy.go` forks a request to several
-- targets and sends one response back. `resolver.go` orders the targets that DNS gives. `ua.go` is
-- the user agent on top of transactions and dialogs, and `b2bua.go` bridges the calls of two of
-- them. `gb28181/` has a device that registers with a platform, and the platform's queries and
-- media sessions.
--
-- The files.
--   Base, Base/*: shared helpers: Boolean tests, lists and integers over the native numbers, the
--     functions of Go's `strings` and `strconv` that the source calls, on lists of bytes, and
--     results with the errors of `errors.go`.
--   Params, Params/Laws: `params.go` (Params, ParseParams).
--   Uri, Uri/Clean: `uri.go` (ParseUri, Uri.String, Uri.Equal).
--   Header/*: `headers.go`: CanonicalName (Name), ParseVia (Via), ParseAddress and
--     ParseNameAddrList (Address), ParseAuth (Auth and the modules below it), the other typed
--     headers (Fields).
--   Headers, Headers/Laws: `headers_map.go` (Add, Prepend, Set, Get, All, Del).
--   Message, Message/Reason: `message.go` (Request, Response, accessors, SetBody, Validate, render).
--   Parser, Parser/Block, Parser/Accepts: `parser.go` (ParseMessage, parseHeaderBlock,
--     newTypedHeader).
--   Parser/Stream, Parser/Stream/*: `parser.go` (StreamSplitter.Feed, splitOne).
--   Tx/Types, Tx/Client, Tx/Server, Tx/Manager and the modules below them: `transaction.go`
--     (ClientTx.receive, timeout, startRetransmit, Cancel; ServerTx.Respond, receiveACK;
--     TxManager.handleRequest, handleResponse, Request).
--   Dialog/*: `dialog.go` (Dialog in State, DialogManager in Index, CSeq numbers in Sequence).
--   Proxy/*: `proxy.go` (pickBestResponse in Best, prepareBranch in Forward and Hops, a group of
--     branches in Fork, Verdict and Winner, requests within a dialog in InDialog and Legs).
--     Proxy/Initial has handleInitial and the branches that fork sends.
--   Resolver, Resolver/Shuffle, Resolver/Target: `resolver.go` (shuffleSRV, ResolveTarget).
--   Transport, Transport/*: `transport.go` (the table of stream connections, Send's choice,
--     dispatch).
--   Ua/*: `ua.go` (handleRequest, findDialog and handleBye in Inbound and Bye, DigestResponse in
--     Digest, Register and Respond in Requests, ClientInviteSession in Invite, Hangup and
--     sendAndWait in Hangup); Ua/Fault joins handleRequest with that of `transaction.go`.
--   B2bua, B2bua/Teardown: `b2bua.go` (handleIngressInvite, handleLegBye).
--   Gb28181/Xml, Gb28181/Sdp: `gb28181/xml.go` (Envelope, Parse, ParseSSRC) and `gb28181/sdp.go`
--     (Build, ParseSDP); what Build writes is read in Gb28181/Ssrc, Port, Lines and Offer.
--   Gb28181/Platform, Gb28181/Calls, Gb28181/Devices, Gb28181/Registry:
--     `gb28181/platform.go` (onRegister, onMessage, deviceAddr; the queries and INVITEs; the state
--     over a run).
--   Gb28181/Device, Gb28181/Serving, Gb28181/Handshake: `gb28181/device.go` (register; onMessage,
--     onInvite and the loop; the REGISTER of a device at the platform).
--   Examples/*: concrete inputs.
--
-- How state is modelled. A transaction is a record; each method is a function from it to a new one
-- and a list of actions (messages handed to the transport, timers started, the key forgotten). The
-- manager applies them to its table, an association list. A pointer to a dialog is a number into a
-- store, so that a change through the pointer is seen while the index keeps its old key. Goroutines
-- are sequences of inputs in the order in which they take the lock; a theorem over all sequences
-- covers every interleaving of those steps. Where ClientTx goes on after it has released the lock,
-- the deliveries of receive and timeout and Request's write of the first state are inputs of their
-- own. A final response that Respond
-- is given again is the object that the transaction stores, and has an input of its own. A nil pointer that the code follows and a slice with
-- bad bounds are results of their own.
--
-- Text is a list of bytes. The rune loop of ParseUri is taken byte by byte, and folding of case is
-- that of ASCII. Integers are ℤ where the source has int, and a CSeq number wraps at 2^32. Durations
-- are milliseconds.
--
-- The user agent and its users are joined by effects: what a handler hands to a transaction, to a
-- callback or to a hook is a list in the order of the calls. The events of a transaction that a
-- caller reads are a list, which ends where the caller's deadline comes first.
--
-- Arguments of the model, for code that is not in the repository or not deterministic: the error of
-- the transport for a message, random numbers, branches, tags and Call-IDs, the clock, the equality
-- of two hosts as IP addresses, net.ParseIP, the sums of md5, sha256 and sha512, the verb %q, and
-- the encoder and decoder of encoding/xml. Of the sums, one theorem asks that they are plain text.
--
-- Fuel. `drain`, the loop of Feed, gets one round more than the buffer has bytes, which is enough
-- unless a head declares a negative length, since every other round takes four bytes. `retransmit`
-- takes a number of rounds above Timer F, and each round adds a positive interval. The two loops of
-- shuffleSRV get the lengths of their lists, since each round removes a record.
--
-- Hangup makes at most three attempts, which its loop counts down.
--
-- Not modelled: sockets, TLS and reading loops (`transport.go`), the DNS lookups themselves, logging,
-- the commands, metrics other than `tx_events_dropped`, and texts of errors. Of the user agent's
-- callers, the timers and sleeps are left out, and Platform.onRegister and onMessage are taken with
-- a transaction that is not nil.
pub mod Base
pub mod Params
pub mod Uri
pub mod Header
pub mod Headers
pub mod Message
pub mod Parser
pub mod Tx
pub mod Dialog
pub mod Proxy
pub mod Resolver
pub mod Transport
pub mod Ua
pub mod B2bua
pub mod Gb28181
mod Examples
