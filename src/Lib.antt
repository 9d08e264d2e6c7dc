-- ===== src/Lib.antt =====
-- A model of the core of the FastCGI REST API library: the C files of src/ of the repository, and the
-- example server.
--
-- The program's parts. A server registers callbacks with a priority (src/hook.c), urls with a verb and
-- the endpoint that they lead to (src/url.c), and named variables per request and per endpoint
-- (src/var.c). The urls and the variables lie in chained hash tables (src/ht.c). An endpoint (src/end.c)
-- has a pool of memory blocks for its variables, and src/req.c has a pool of requests. When the socket is
-- readable, `fra_p_req_handle_new` takes a request, accepts the connection, parses the verb and the url,
-- finds the endpoint, gives the request a block, runs the hooks and the callback of the endpoint, and
-- gives all back. src/poll.c polls the file descriptors and calls their callbacks, that handler for the
-- socket; src/glob.c starts and stops all these. src/conf.c reads a configuration from JSON files, which
-- name the plugins that src/pl.c loads.
--
-- The files.
--   Common: numbers, lists, return codes (`Rc`: 0 is `ok`, any other code is `failed`), runs that may have
--     undefined behaviour (`Run`, with `fault`), and heap blocks. Common.Sys holds the parameters,
--     Common.Growth the test that src/end.c and src/req.c share.
--   Ht: src/ht.c. A bucket is a list of keys with values, a pointer into the table its bucket and its
--     place there. `put` is `fra_p_ht_set`; the others keep their names. Ht.View reads a table as a map,
--     Ht.Client has the calls of a user of a table.
--   Url: src/url.c. An element of the table is a url's first node with the nodes that are linked to it.
--   Hook: src/hook.c, with one list per type of hook; a list's nodes stand for their addresses.
--   Var: src/var.c. `Store` is a map with the size of the block that its variables lie in; `reg` and
--     `var_get` are the functions that the public ones call.
--   End: src/end.c. `Pool` is the list of the free blocks with its counters, and the blocks that are
--     allocated.
--   Req: src/req.c. Req.Params has `set_param` and `set_url`; Req.Handle has `get_req`,
--     `req_maybe_free` and `fra_p_req_handle_new`, cut at its labels and its calls, Req.Frame what
--     that handler leaves as it is, Req.Lost the runs in which no connection is accepted.
--   Poll: src/poll.c, with the sizes of its two arrays and its mutex. Poll.Loop is `fra_glob_poll`, to which
--     `poll` and the mutex answer with a list of rounds, one for each turn of its loop.
--   Pl: src/pl.c. The list of plugins is a list; the dynamic linker is the record `Dl`.
--   Conf: src/conf.c. Conf.Values holds the values and `set_value`, Conf.Plugins `set_plugins`, Conf.Env the
--     parameters of the loading, and Conf.Load `conf_load_recurse` and `fra_p_conf_load`, cut at the branches
--     of their loops. Conf.Load.Included lists the files that a file includes.
--   Glob: src/glob.c, with the start and the stop of src/req.c and src/var.c, on the static variables of all
--     files together.
--   Server: `fra_p_req_handle_new` as the callback that `fra_p_poll_init` registers. Server.Sequence calls it
--     for one request after another, Server.Loop and Server.Turns run it under `fra_glob_poll`. What it gets
--     from outside is a function of the state, which has all that was written before.
--   Demo: example/fra-server-example.c. `main` is a list of calls, each of which is checked; `server` adds its
--     loop. Demo.Calls has each call, Demo.Setup all of them, Demo.Main the start, Demo.Loop the whole,
--     Demo.Obliges its hooks, Demo.Answers the urls that it knows.
--   Examples: the parameters at concrete values, and the theorems applied to them.
--
-- What is assumed. bstrlib's comparisons and the bundled MurmurHash3 are the record `Strings`, and the
-- machine's floating-point values, NaN left out, the record `Floats`. A pointer to a callback is a number,
-- 0 for NULL, and `call` gives what it does to a world that holds none of the program's own tables. The
-- calls of the fcgi library are a list of events; what it returns is the record `Input`. A connection
-- that is not accepted has no stream, and printing to it is undefined.
--
-- Locks. `fra_p_pthreads` is 0, as src/lock.c sets it, so the macros of src/lock.h do nothing; only
-- `fra_p_url_init`, and the pool of requests in Req.Locked, are also modelled with threads. src/req.c
-- unlocks the mutex of that pool on the error path of `get_req` without the macro, which is undefined where
-- it is not locked (the library is built without NO_PTHREADS); src/poll.c locks its mutex without the macros, too.
--
-- The file system, jsmn and the JSON path library are the record `Env` of Conf.Env: what they return for a
-- file, a text or a directory, the same each time. In src/conf.c the number of allocations that still
-- succeed is a part of the state; in the other files a failing allocation is a flag.
--
-- Bounds. The size of a block of variables is of type `size_t`, taken modulo 2 ^ 64; an `int` that is read
-- from a configuration is taken modulo 2 ^ 32; the counters of the pools are natural numbers, since they
-- start at 0 and stay exact. The loops follow a list and need no fuel. `conf_load_recurse` has fuel, one
-- unit for each file that is open at once; it is enough where a rank falls from a file to the files that it
-- includes and the fuel exceeds the rank of the first one. Files that include each other in a cycle have
-- no such rank.
--
-- Not modelled: the release of memory where nothing else depends on it, logging, the hash function, which
-- is a copy of another library, the tests, and what the example's callbacks print.
pub mod Common
pub mod Ht
pub mod Url
pub mod Hook
pub mod Var
pub mod End
pub mod Req
pub mod Poll
pub mod Pl
pub mod Conf
pub mod Glob
pub mod Server
pub mod Demo
pub mod Examples
