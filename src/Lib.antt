-- ===== src/Lib.antt =====
-- Verification of the demo programs of the C++ tutorial: a small database, a chat, a shell and a
-- text game. Each is a program of its own; what the library covers of each is said below, by file.
--
-- Values. `std::uint32_t` and its like are natural numbers with the wrap-around written out
-- (`% 2 ^ w`), `std::size_t` is a natural number, `std::int64_t` is the integer that it holds. A
-- `std::string` and a `std::vector<unsigned char>` are lists of bytes. An exception is `throw` in
-- `Outcome`; what a function does to its object is state passing.
--
-- Bytes (demo-db/include/binary.h): little-endian integers and strings. The copies of these
-- functions in demo-db/src/wal.cpp, demo-chat/src/protocol.cpp and demo-chat/src/history.cpp are
-- modelled by the same definitions.
--
-- Db.PageManager (demo-db/include/page.h, page_manager.h, demo-db/src/page_manager.cpp): the page
-- file behind its LRU cache. The operating system is the contents of the file by page and the list
-- of what the coming system calls do: move some bytes, be interrupted, fail; after the list, calls
-- move all that is left. `write` and
-- `read` that return 0 in the middle of a page are not modelled. Db.PageManager.Cache has the two
-- containers, Transfer the loops round `pread` and `pwrite`, Invariant what the manager keeps; the
-- other child modules have one operation each.
--
-- Db.Wal (demo-db/src/wal.cpp): the write-ahead log. The file is its bytes. `log_insert` appends a
-- record and `replay` reads from the start; the loop of `replay` has the length of the file as
-- fuel, and every round takes 25 bytes. Failing system calls are not modelled, but a crash in the
-- middle of a write is: it leaves a piece of the record.
--
-- Db.Sql (demo-db/include/sql.h, demo-db/src/sql.cpp): the tokenizer of statements and, in
-- Db.Sql.Parser, the recursive descent over its tokens. The state of the parser is the tokens from
-- its position on. The loop of the tokenizer has the length of the line as fuel, the loops over
-- things with commas between them the number of tokens; every round takes one at least. Columns,
-- values and names are kept as the code keeps them; `toupper` and the character classes are those
-- of the "C" locale.
--
-- Chat.Protocol (demo-chat/include/protocol.h, demo-chat/src/protocol.cpp, and the loop of
-- demo-chat/utils/rooms_chat_server.cpp that calls it): frames, and the buffer of a connection.
-- What handles a message, and may throw, is an argument; `process_message` of Chat.Rooms is one. The
-- loop has the length of the buffer as fuel, and a frame takes six bytes at least.
--
-- Chat.History (demo-chat/include/history.h, demo-chat/src/history.cpp): the file of messages.
-- The loop of `recent` has the length of the file as fuel, and a record takes four bytes at least.
--
-- Rpg (demo-rpg/include, demo-rpg/src): Items (item.cpp, inventory.cpp), Player (player.cpp),
-- Places (location.cpp, world.cpp), Commands (commands.cpp) and Game (game.cpp), each over the one
-- before. A `std::unordered_map` from strings is an association list (Prelude.Tables). What is
-- printed is left out, and the handler of `load`, which reads files, is a parameter. An `int` is an
-- integer, and the sum of healing, which may leave the range of `int`, wraps around.
--
-- Shell.Tokenizer (demo-shell/src/exec_runner.cpp) and Shell.Pipeline (demo-shell/src/pipeline.cpp,
-- demo-shell/include/pipeline.h): the parser of command lines, up to the list of commands with
-- their arguments and redirects. The loop of the tokenizer has the length of the line as fuel, and
-- every round takes a character.
--
-- Shell.Builtins (demo-shell/src/builtins.cpp): aliases, history with its file, export, unset, echo
-- and the dispatch of commands. The state is the two static variables and the environment. The exit
-- codes of `cd`, `pwd` and `type` are an argument.
--
-- Rpg.Events (demo-rpg/include/event_bus.h, events.h): the event bus.
--
-- Db.PageStore: the calls that the tree makes, with what they promise; Db.PageManager.Store shows
-- that the page manager keeps it, from every coherent state with no failing call to come.
--
-- Db.BTree (demo-db/include/btree.h, demo-db/src/btree.cpp): the B+ tree over such a store.
-- BTree/Layout has the nodes and their bytes, BTree/Search the bounds of <algorithm> on sorted keys,
-- BTree the state with its root, the metadata of page 0, opening, `find`, `find_all`, `scan` and
-- `height`, and BTree/Insertion the splits, `insert` and `insert_dup`. A caller's callback is the
-- list of what it was given. The descents and the list of leaves are loops on fuel; the number of
-- levels, and of leaves, is enough. BTree/Shape has the trees that the pages stand for,
-- BTree/OnPages the tree over the page manager,
-- BTree/Inserting what `insert` does to the tree: Chains and Sound have the children of a node and the
-- invariant of the pages, Leaves, Parents, Takes and Shares the cases of the code, Roots the whole tree,
-- Clients what find and scan see of it. The fuel is more than the height of the tree, which an
-- insertion raises by one at most.
--
-- Chat.Rooms (demo-chat/utils/rooms_chat_server.cpp): clients, rooms and what each message does. The
-- two maps are functions of their keys, a set of descriptors a list without repetitions, an
-- exception an outcome that keeps what was done before it. Rooms/Sets has the sets, Rooms/Reachable the
-- life of the server as steps; the poll loop is not modelled, only what it does with an accepted
-- and with an ended connection.
--
-- Db.Database (demo-db/src/database.cpp): the conditions, the plans and their rows, over the trees of
-- the table and of an index. Database/Selecting has SELECT as a whole, Database/Changes INSERT, which
-- writes to the log, the tree and the indexes, the checkpoint, and what the constructor does with the
-- tree and the log of the table. Database/Inserting, Recovery and Checkpoint are about these together: a
-- database starts from a page manager on what is in the file, which after a crash need not be what a
-- client saw. The fuel is that of the tree, for each row.
--
-- Rpg.Saves (demo-rpg/src/save_manager.cpp), Rpg.Worlds (demo-rpg/src/world_parser.cpp) and
-- Rpg.Streams, what both use of the streams of the standard library: lines, words, and integers of 32
-- bits. Saves/Writing has `write`, Saves/Reading `read`; Saves/Words to Saves/Filling have the parts of
-- the round trip, Game/Slots the commands `save` and `load` over a table of files. Ten decimal and
-- eight hexadecimal digits are enough for 32 bits.
--
-- Not modelled: sockets, threads, processes, signals and terminals; the
-- CREATE and the catalog of the database; what runs a pipeline; the tests and the tutorial's text.
pub mod Bytes
pub mod Chat
pub mod Db
pub mod Prelude
pub mod Rpg
pub mod Shell
