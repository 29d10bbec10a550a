-- ===== src/Lib.antt =====
-- Lanos: a program that sends files between the devices of a local network (core/, in Go).
--
-- Parts and how they interact. A sender cuts a file into chunks, lists their hashes in a manifest
-- and sends manifest and chunks as frames on a stream; many streams share one connection. The
-- receiver decodes the frames, hands them to the streams, checks and stores each chunk, and
-- assembles the file once it has all of them. On each side managers keep the transfers with their
-- statuses, a queue bounds how many run for a peer, and a registry holds what to call when a
-- transfer is cancelled. A received file is saved under a path that the sender proposes and the
-- receiver makes safe. Peers are found by announcements and probed, trusted by their key, and dialed
-- at the best of their addresses. A file or a folder can also be shared with any browser.
--
-- Transfer/Status    core/transfer/state.go (`Status` in core/transfer/manager.go): the machine of
--                    the statuses; Lifecycle gives its edges as a relation.
-- Transfer/Cancel    core/transfer/cancel.go: the registry of callbacks. A callback is a number, a
--                    call of one an effect; Once counts the effects.
-- Transfer/Manager   core/transfer/manager.go: the outgoing transfers. History and Lifetime are
--                    about any sequence of calls, Budget about the limit of active transfers.
-- Transfer/Queue     core/transfer/queue.go: pending tasks of each peer, with caps by direction.
--                    Steps has the interleavings of enqueuing, dispatching, ending and closing as a
--                    step relation, Invariant and Reach what holds in every reachable state.
-- Transfer/Chunk     core/transfer/chunk.go: reading a file in chunks, the manifest, the writer with
--                    its resume state. Pieces is the specification: a list cut into pieces.
-- Transfer/Path      core/transfer/path.go: where a received file is saved. Sanitized is about the
--                    names, Within about the directory, Conflict about names that are taken.
-- Share              core/share/types.go, with Manager for core/share/manager.go and Server for the
--                    handlers of core/share/server.go. Access is about who gets a file, Bans and
--                    Limits about bans and downloads, History about any sequence of calls.
--                    Attempts has the interleavings of attempts at a password, Bound their number.
-- Net/Ip, Address    core/net/addrselect.go: the addresses, the choice of a source (Source), the
--                    order of the destinations (Order, Result), ports and hosts (Port, HostPort).
--                    Select has `SelectAddresses`.
-- Net/Conn           core/net/dial.go: `EncryptedConn` and its frames. Pipe is about what is read of
--                    what was written.
-- Discovery          core/discovery/discovery.go, prober.go and device.go: the known devices, the
--                    events and the probes; Txt is core/discovery/txt.go. Presence is about any run,
--                    Probing about one device.
-- Identity           core/identity/trusted_devices.go: TrustStore, with Hex for Go's encoding/hex.
-- Receive            core/receive/manager.go: the incoming transfers.
-- Transport/Frame    core/transport/frame.go: the frames, encoded and decoded.
-- Transport/Mux      core/transport/stream.go: the streams of a connection. A `*Stream` is a
--                    reference into a store, since registry, accept channel and callers share it.
-- Common             what the others share: lists over native numbers, Boolean tests, integers,
--                    results, texts and paths as Go's strings and path/filepath treat them, and Go
--                    maps as association lists.
--
-- Concurrency. Each method that holds its lock throughout is one step; the theorems on sequences of
-- calls and on the step relations are about every order of such steps. A method that lets its lock go
-- is one step where calls run one after the other; where they interleave, each of its parts is a step:
-- `Queue.Close` (Transfer/Queue/Steps) and `CheckPassword` (Share/Attempts). A Go `select` with several
-- ready cases takes the one that an argument names, and a wait is the result `none`.
--
-- Parameters. crc32, sha256, new ids, the time, the order in which Go ranges over a map, and whether
-- a call of the operating system or a write on the connection succeeds are arguments, and so are
-- `os.Stat`, `net.ParseIP`, `IP.String`, `net.SplitHostPort`, `strconv.Atoi` and `url.QueryEscape`.
-- The hypotheses on them are that a checksum is below 2^32, that the text of an IPv6 address has no
-- "%" and no "]", that decrypting a message undoes its encryption, and that
-- `Atoi` and `QueryUnescape` read what was printed and escaped.
--
-- Integers. Lengths and counters are natural numbers; int64 sizes and uint32 stream ids wrap where
-- the code can reach the bound (`chunk_count`, `open_stream`).
--
-- Fuel. `build_loop` takes one unit for each chunk, `serve` one for each frame; the theorems about
-- them ask for more units than the input has bytes, or frames, or supply them. `decimal` has five
-- digits, enough for a port and for the 9999 numbers of `try_numbers`.
--
-- Not modelled: goroutines, timers and blocking as such, logging, JSON, directories and file modes;
-- the key exchange (core/transport/noise.go and `Dial` of core/net/dial.go), the mDNS library, the
-- HTTP servers with their pages and zip streams, storage, configuration, the mobile bindings and the
-- user interface. Paths are those of Unix.
pub mod Common
pub mod Discovery
pub mod Identity
pub mod Net
pub mod Receive
pub mod Share
pub mod Transfer
pub mod Transport
