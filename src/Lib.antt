-- ===== src/Lib.antt =====
-- tp, a tool that shares clipboard pastes between the machines of a local network.
--
-- A daemon keeps pastes in memory (store.go). A sender's code (code.go) is stretched to a secret. A
-- receiver finds daemons over mDNS (mdns.go), and proves to each over TLS that it knows the secret
-- of one of its pastes by CPace (pake.go, wire.go, daemon.go, fetch.go): the daemon offers one share
-- and tag for each paste among decoys, the receiver confirms one, and the daemon answers with the
-- sealed payload. Limits (limits.go) bound the guesses; pins (pins.go) record known hosts.
--
-- Files:
--   Prelude and children: names passed on, Boolean tests, lists, integers, texts, maps as lists.
--   Store (store.go: newStore, add, candidates, paddedCount, take, burn, list, del, clear, sweep);
--     Store/History has the methods as steps of a history, Hex the keys, Random the shuffle.
--   Limiter (limits.go: bucket.take, allowPeer, allowExchange, fail, sweep).
--   Wire (wire.go: writeFrame, readFrame), Errors (the error values).
--   Pake/Encoding (pake.go: prependLen, lvCat, oCat, lexGreater), Pake/Side (calculateGenerator,
--     scalarMultVfy, sessionKey, confirm; wire.go: channelID and pakeSide), Pake/Crypto (the
--     primitives, as a record of operations and laws), Pake/Toy (an instance of it for tests).
--   Offer (daemon.go: buildOffer, matchConfirmation; fetch.go: matchOffer).
--   Session (daemon.go: handshake, openExchange, readHello), Client (fetch.go: exchange).
--   Fetch (fetch.go: fanOut and fetch, as a state with steps); Fetch/Asking (fetchFrom, checkPin,
--     clientTLSConfig).
--   Code (code.go: init, newCode, newDigitCode, canonical, digitCode, expand).
--   Pins (pins.go: readPins, savePin, writePins).
--   Identity (identity.go: hostID, loadOrCreateKey, createKey).
--   Accept (daemon.go: serveData, retryableAccept).
--   Control (daemon.go: handlePost, parsePostOptions, handleList, handleDelete, handleDeleteAll,
--     shouldStop).
--   Interfaces (interfaces.go: refresh, serves, usableInterfaces, ip4, sameAddrs).
--   Discovery (mdns.go: peerTable, collectInstances, readTXT, learnPeers), Discovery/Responder
--     (buildRecords, syncGroups, networkChanged, answerQuestions, scheduleAnswer, allowLegacy),
--     Discovery/Loops (announceLoop, browseLoop), Discovery/History (announcements, sweeps and
--     changes of the network as events on the peer table).
--   Background (daemon.go: sweepLoop, netLoop, handlePeers, waitForPeers), Background/Startup
--     (runDaemon, listenData, listenControl).
--   Commands (commands.go: cmdPost, cmdGet, cmdDel, discover, cmdList, decodeControlResponse),
--     Commands/Startup (control, ensureDaemon, waitForSock; main.go: lookup, run).
--   System (daemon.go: runDaemon's goroutines and controlMux, as events on one state).
--   Platform (env.go), Platform/Paths (util.go, uninstall.go), Platform/Build (version.go,
--     completion.go), Doctor (doctor.go).
--   Store/Abstract is the contract of Store: slots that are empty, spent or hold a payload.
-- A file named Runs holds tests and examples.
--
-- State is passed explicitly: a method under a lock is one step, and the times and random draws that
-- it reads are arguments. A Go int that the code keeps non-negative is a natural number. Fuel: the
-- loop of paddedCount has seven rounds, as it doubles 4 at most seven times up to 512; the loop of
-- prependLen has one round more than the length, and each makes its number smaller. The loop of
-- handlePost runs on the list of codes that are drawn. A token of a bucket is counted in exact units
-- where the code has float64. The goroutines of fetch, and the responder's questions with its timer, are step
-- relations, so every order of the scheduler is a run; the loops of serveData, sweepLoop, waitForSock
-- and waitForPeers run on the list of what they meet.
--
-- Not modelled: the cryptographic primitives, TLS, sockets, the mDNS packet format, the file system,
-- Unicode tables and the word list (parameters, or inputs of the definitions); the constant time of
-- comparisons; goroutines other than as sequences of steps, where System takes a
-- handshake as one step; flag parsing, HTTP and JSON; the installation, the
-- texts of the completion scripts and the certificate of loadIdentity.
pub mod Prelude
mod Hex
mod Random
mod Errors
pub mod Store
pub mod Limiter
pub mod Wire
pub mod Pake
pub mod Offer
pub mod Code
pub mod Client
pub mod Session
pub mod Control
pub mod Pins
pub mod Accept
pub mod Identity
pub mod Fetch
pub mod Commands
pub mod Background
pub mod Platform
pub mod Doctor
pub mod System
pub mod Discovery
pub mod Interfaces
