-- ===== src/Lib.antt =====
-- Verification library of teleproxy, an MTProto proxy for Telegram. A client's connection arrives
-- through an optional PROXY protocol header, the access lists, and one of several transports (fake
-- TLS, WebSocket after an HTTP upgrade, or plain obfuscated2), whose frames carry packets that go
-- to a data centre of the table. The library has one module per parser, table or store:
--
--   ProxyProtocol  src/net/net-proxy-protocol.c, the header of version 1 and 2
--   Acl            src/net/net-ip-acl.c, the access lists, their files and the decision
--   Http           src/net/net-http-parse.c, the incremental parser of request headers
--   Ws             src/net/net-websocket.c, the upgrade request, frame headers and masks
--   Drs            src/net/net-tcp-drs.c, the records of the output and the delays between them
--   Obfs2          src/net/net-obfs2-parse.c, the handshake with its secrets, and frame lengths
--   Tls            src/net/net-tls-parse.c, ClientHello and ServerHello
--   Ja4            src/net/net-ja4.c, the fingerprint of a ClientHello, and the tables of counts
--   DcTable        src/mtproto/mtproto-dc-table.c, the data centres' addresses and overrides
--   TopIps         src/net/net-tcp-rpc-ext-top-ips.c, the traffic per client address
--   UniqBloom      src/net/net-tcp-rpc-ext-uniq-bloom.c, the filter that counts distinct addresses
--   Timers         src/net/net-timers.c, the heap of a thread's timers
--   Secrets        src/net/net-tcp-rpc-ext-server.c and net-tcp-rpc-ext-drain.c, the slots of the
--                  secrets: the checks on a new connection, the addresses, the reload and the drain
--   ExtConn        src/mtproto/mtproto-proxy.c, the table of external connections, which ties clients
--                  to middle-end servers, the handlers of connections that come and go, a
--                  server's packets (Serve) and the choice of a query's connection (Forward)
--   Base           what the modules share: tests on numbers, lists of bytes, xor, integers
--
-- Functions keep the C functions' names; the part behind a loop's body, a branch or a `case` is a
-- function of its own, named for what it does. The parsers do not call each other: the connection
-- code, which is not modelled, passes the input from one to the next. Secrets calls the parser of
-- Obfs2 with the secrets in use, and the filter of UniqBloom and the table of TopIps for a client
-- that it lets in.
--
-- Conventions. A byte is a number below 256, a buffer or a raw_message the list of its bytes (the
-- calls rwm_fetch_lookup, rwm_fetch_data and rwm_skip_data are `take` and `drop`). Unsigned
-- numbers, and signed ones where the code relies on their wrap-around (the build has -fwrapv), are
-- bit patterns with `% 2 ^ w` written out; other signed numbers are ℤ. Output arguments and changed
-- structures are part of the result. A read outside a buffer is an outcome of its own in Tls and
-- Ja4. A failed assertion is an outcome in Http, Timers, Drs and ExtConn, and so is a write behind the
-- array of the heap in Timers. Times are ticks of a clock. What a
-- pointer of the timer heap points to is a number, the timer's name; an external connection's block
-- is a number too, and its doubly linked lists are lists of these. Parameters stand for SHA-256,
-- SHA-1, base64, AES-256-CTR, random numbers, inet_pton, inet_addr, strtol, atoi, files and memory, and
-- in ExtConn for whether a descriptor still has its connection and for the connections of a target.
--
-- Fuel. The loops of Tls (extensions, server names, records) and Ja4 run on the length of the
-- buffer: each round reads a byte at least, and it is proved that they end. The loop of Http runs
-- on 16 rounds for a byte and 13 more; Http/Ranks counts the rounds that a state can take before a
-- byte, at most 12, and it is proved that the fuel does not run out. The loops of Timers run on the
-- index and on the size of the heap, the loop over the timers that are due on any number above the
-- number of timers, that of Drs on the number of bytes and 1 more, and it is proved that they end.
-- The search of ExtConn for a free slot draws random numbers: its fuel bounds the draws, and it is
-- proved that it ends when one of so many draws hits a free slot. All other loops are structural.
--
-- Not modelled: sockets, events, jobs, the OpenSSL wrappers, the third-party TOML and QR code
-- copies, statistics, the command line, and the words of a forwarded query.
pub mod Base
pub mod Ws
pub mod Obfs2
pub mod Tls
pub mod DcTable
pub mod Acl
pub mod ProxyProtocol
pub mod Http
pub mod TopIps
pub mod UniqBloom
pub mod Timers
pub mod Secrets
pub mod Drs
pub mod Ja4
pub mod ExtConn
