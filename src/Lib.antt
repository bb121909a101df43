-- ===== src/Lib.antt =====
-- srepod is a gateway that shows static repositories to OAI-PMH harvesters. A CGI program, the
-- gateway, tests the environment and the query of a request, opens the repository, and prints the
-- answer to one of six verbs, or an error. What it reads of the repository goes through an interface
-- of C functions. A registry takes requests for new repositories and leaves lock files in a spool
-- directory; a daemon takes the locks and starts a child for each, which makes the cache. The
-- operator configures all of them by files of names and values, and their pages by templates.
--
-- Prelude: numbers, lists, C strings, and what the code takes from <stdio.h>.
-- HashTable: src/cconfig/hash.c. The record HashTable is `struct h_struct`, a chain is a list of
--   items, and each operation has the name that it has in the code. Lookup is about hash_val and
--   hash_add, Shape about the invariant, Items and Iterate about the iterator, and Refine about the
--   finite map that a client sees.
-- Config: src/cconfig/cconfig.c. A Config is a handle: its table and the content of its file. It
--   calls the operations of HashTable as the code does.
-- Time: src/time/timefunc.c. parse_date and the number by which dates are compared.
-- Template: src/template/template.c. parse_template and args_template.
-- Gateway: src/gateway.c. Uri is is_uri, Env is has_secure_env, Keys is has_valid_keys, Dates is
--   has_valid_dates, Commands has the cmd_ functions, and Main has cmd_error and main.
--   Gateway/Repository is the interface src/oai-gdbm/oai-interface.h.
-- Session: src/session/session.c. Files is the disk: names, and the files behind them. A Process has
--   the table lock_hash, which is a HashTable, and the disk, which all processes share. Locked is
--   about create_lock and release_lock, ReadWrite about read_lock and write_lock, Locking and Next
--   about next_lock.
-- Daemon: src/daemon/main.c and src/daemon/child.c. The array of requests is a list of slots; a round
--   of `loop` is a function of what `fork` does, and Steps puts rounds and signals into any order.
--   Check and Locks are about check_status, Loop and Round about a round, Race about a `fork` that
--   fails and a signal that comes early, and Child is the child.
-- Registry: src/registry/registry.c. Pages has the pages, Store has register_database and dbpath, and
--   Requests has process_request and main; a Site is what they ask of their host. They create locks of
--   Session, and read and write the configuration of Config. Urls is about valid_url, Status about
--   valid_env, Allowed, Pending and Later about process_request, and Entry about the configuration.
--   Unregister is src/registry/unregister.c, which takes a repository out again, and Lines and Friends
--   are about the file of friends that it leaves. Terminator is src/registry/terminator.c, which leaves
--   a lock for a repository that is to be taken out; Terminated and Marked are about its
--   process_request.
-- HttpHead: src/oai-gdbm/http_head.c. The lines of an answer go through parse_header; Callback and
--   Fields are about the fields that they fill.
-- OaiGdbm: src/oai-gdbm/oai-gdbm.c, the repository that the gateway reads. Listing is oai_list,
--   Describe has oai_identify and oai_listmetadataformats, Open is oai_open_repository, and Interface
--   makes the functions the Repository of Gateway. Keys, Items and Agree are about lists, Opened and
--   Outdated about the opening, which reads and creates the locks of Session, and Errors about two
--   errors.
-- Transform: src/transform_c/parser.c, which makes a database of the XML of a repository. The record
--   Parser is its global variables, Stacks has src/transform_c/stackli.c and the calls of gdbm, Start, End
--   and Handlers have the handlers, and handle_all takes the calls of expat in their order. Entities
--   is about escape, Inside and Copy about the metadata of a record.
-- Tests: runs of all of these on small inputs.
--
-- An access out of bounds is a result of its own: `past_end`, `overread` and `crashed` in Gateway, and
-- `none` elsewhere. Bytes are numbers; `char` is signed, as the code is built. Storage is always
-- there. A string is shorter than 2^24 bytes, so that no sum of its bytes overflows an `int`, and a
-- path is shorter than 1024. The loop of config_save runs on fuel, one round more than the table has
-- items, and the printing of a number on one round more than the number; all other loops are
-- structural.
--
-- Not modelled: the copies of curl, expat, gdbm, cgi-util and md5 in the repository. The calls of
-- cgi-util are the record Cgi, whose documented behaviour is the record Answers, and the digest of
-- md5 is a field of Host. The calls of gdbm are the record Gdbm, with its documented behaviour in
-- IsUnchanged, and what libcurl receives is a parameter of simple_header. In Transform what expat reports is
-- a list of events, and what gdbm has is a function of the calls so far. Also the handlers of the
-- parsers of namespaces, the installation, the logs, the signals that are ignored, the locks on files,
-- and the functions that only give memory back.
pub mod Prelude
pub mod HashTable
pub mod Config
pub mod Time
pub mod Template
pub mod Gateway
pub mod Session
pub mod Daemon
pub mod Registry
pub mod HttpHead
pub mod OaiGdbm
pub mod Transform
mod Tests
