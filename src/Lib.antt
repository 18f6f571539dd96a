-- ===== src/Lib.antt =====
-- A verification library for mysql8-audit-proxy, a proxy in front of MySQL servers. Clients log in to
-- the proxy under names such as `user@host`, the proxy forwards what they send to the target
-- server, and keeps an audit log of it. The users and their passwords stand in a configuration
-- file, which an administrator changes by SQL statements. A tool prints the logs.
--
-- SendPacket: pkg/mysqlproxy/sendpacket/sendpacket.go, the record of the audit log. `EncodePacket`
--   is `encode_packet` over a parameter `write`, the `io.Writer`; `DecodePacket` is
--   `decode_packet`, an action on the caller's packet and the decoder, which holds its reused
--   buffer and the input that is left.
-- LogDecoder: cmd/mysql8-audit-log-decoder. `formatPacket` is `format_packet`, where `none` is a
--   panic, `filePrint` is `file_print` on the records of a log, and LogDecoder/Commands has the
--   table of commap.go. The bytes of the constants mysql.COM_... are a parameter `byte_of`, and
--   theorems that need it say that they differ. The loop has fuel for one round per byte and one
--   more; each record takes 40 bytes at least, so that it never runs out.
-- Proxy: pkg/mysqlproxy. Proxy/Target has `addPort`, `getUserPass` and `getTargetInfo` of
--   proxysrv.go; Proxy/Session has the provider of userprovider.go and what `sessionWorker` makes
--   of a login name. The user manager's `GetPassword` is a parameter.
--   Proxy/Shutdown has the goroutines of main.go that end the program, as a step relation on the queue,
--   the sessions and the worker of the log; a session's packets are any list.
-- ClientSess: pkg/mysqlproxy/clntsess.go. Relay has `Proxy`, which runs the task of SendTask and the copy
--   of Timeoutnet side by side, and `sessionWorker` behind the handshake; the other modules have
--   the debugging writers, with the text that they print, and `PrintCapability`, whose loop takes one
--   round for each of the 32 bits at most.
-- ServerConfig: pkg/serverconfig. Query has the functions of sqlparse.go on a query that was parsed;
--   Crypt, Config, Manager and Service have serverconfig.go: encryption, the file and the index,
--   the operations on the servers in memory, and the exported methods, which read the file, change
--   the servers and write the file. Handler has confighandler.go and the visitor of sqlparse.go; the
--   visits that the parser makes of a statement are its input. Accounts has a table of users with
--   plain passwords, and what it means that the file holds it; Service/Overlapping has `Insert` in two
--   halves, between which other calls may run. A Go map is an association list. The
--   loop of `columnsToConfig` has a round for each value, and it goes on by one value at least.
-- Timeoutnet: pkg/timeoutnet/timeoutnet.go. `WriteTo` is `write_to` over the results of the reads, one
--   by one, and a parameter `write`; it may also wait for a read that has not returned yet. The
--   contexts of the program are cancelled, and have no deadline.
-- SendTask: pkg/mysqlproxy/sendtask.go. `readFullMysqlPacket` over the results of the connection's
--   reads, by recursion on them; Buffer has `resizeSlice`, Packets `writeBufferAndSend`, and Worker
--   the loop that sends on the client's packets and pushes them to the log. Each round of the loop
--   comes with what it meets: the packet from the pool, the time, whether the context is done, and
--   whether the queue takes the packet. The write to the target is a parameter. Packets are values;
--   Pool has them as objects behind pointers, with the steps that pass the pointers on.
-- AuditLog: pkg/mysqlproxy/log. AuditLog has the worker of auditlogwriter.go, which writes the
--   queue's packets to a compressed file and changes the file with the ticks: its `select` is a list of
--   events, the files are a function from paths to the texts of their gzip members, and each system
--   call that may fail takes its fate from a list. Names has `time2Path`; Reader has filereader.go
--   and the tool's opening of a file, where the first read of the decompressed bytes is a
--   parameter; Printing has the tool's `main` over its arguments. ErrorReader has errorreader.go. A
--   file is its complete members; a member that is still open is the bytes that its writer has taken, of
--   which the compressor may have passed on some to the file.
-- GeneratePem: pkg/generatepem/generatepem.go. `Generate` is `generate` over a record `Crypto` of what it
--   calls, which returns values or errors.
-- ProxySrv: pkg/mysqlproxy/proxysrv.go again: `Start` is `start_server` on the results of the calls of
--   `Accept`, and `sessionWorker` is `serve`, over a parameter for the handshake. A panic in a session
--   ends the program; the closing of the connections is left out.
-- Base: lists, texts and bytes as lists of natural numbers, base64, and actions that may fail.
--
-- The proxy's sessions ask the provider for passwords, which asks the manager; the manager stores
-- what the console's statements insert. A session's task pushes packets to the queue, the writer of
-- the log takes them from it and encodes them, and the tool opens the files and decodes them:
-- AuditLog/Archive and AuditLog/Printing put the writer and the tool together, ClientSess/Relay the
-- console, the session, the log and the tool, and ProxySrv the server and its sessions.
--
-- Parameters, with what is asked of them: AES-GCM (`Gcm`: what was sealed can be opened), JSON
-- (`Json`: a theorem that reads a written file asks that this configuration is read back,
-- or, of `IsReadable`, that each configuration of such texts is),
-- regular expressions, the random source, the writers of records and packets, the first read of
-- a log file, keys and certificates, and the errors of the file system.
--
-- Not modelled: networking, the MySQL handshake and the flags that ConnectToMySQL changes, which are the
-- MySQL library's; the parsing of SQL, which is a library's; locks, and the goroutines but for those
-- of Proxy/Shutdown, SendTask/Pool and ServerConfig/Service/Overlapping; command-line flags, and
-- packaging, which is glue.
pub mod Base
pub mod SendPacket
pub mod LogDecoder
pub mod Proxy
pub mod ServerConfig
pub mod Timeoutnet
pub mod SendTask
pub mod AuditLog
pub mod ClientSess
pub mod GeneratePem
pub mod ProxySrv
