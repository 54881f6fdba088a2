-- ===== src/Lib.antt =====
-- A verification of wish, a library for programs that are reached over SSH.
--
-- A server hands each session to a chain of middlewares, each a function of the next handler. The
-- development models the session as far as the program looks at it and what is sent to it (wish.go:
-- Session), the composition of middlewares (options.go, WithMiddleware) and the small middlewares
-- of accesscontrol, activeterm, comment, elapsed, logging and recover (Middleware), the middleware
-- that serves git (git/git.go: Git), the package scp, which copies trees of files to and from a
-- client (Scp), the making of servers and their options (Server), the rate limiter (RateLimiter),
-- the files of keys (Authorized), commands (Cmd), the programs of bubbletea (Bubbletea), and some
-- of the example programs (Examples).
--
-- Base has the shared names, the byte strings and the lemmas on lists. FilePath and Strconv are the
-- functions of Go's path/filepath (on unix) and strconv that the code calls.
--
-- Session: a handler is a function of the session and of the world. The world is what has been
-- sent, logged and closed, the clock, and a state of the application; a panic is a value. The
-- handlers that are modelled do not advance the clock, so a duration over one of them is the
-- difference of two equal times; over another handler, which is a parameter, it is what that one
-- makes of the clock. Middleware: with_middleware is WithMiddleware, the other definitions are the
-- Middleware functions of their packages. What fmt and the loggers make of their arguments is a
-- parameter.
--
-- Git: git_middleware is Middleware, serve its switch, git_pack is gitPack (upload and receive are
-- its two cases), ensure_repo is EnsureRepo, ensure_default_branch and run_git bear their names,
-- fatal is Fatal. The hooks, os.Stat, os.MkdirAll, go-git and the command git are the fields of the
-- record Host; each call of a hook or at a path is noted in the state, in order, the look at the
-- branches of a repository with its opening. The texts that wrap an error are left out: they are
-- only logged.
--
-- RateLimiter: rate_limit is the Middleware of ratelimiter, allow its Allow, new_rate_limiter its
-- NewRateLimiter; the cache and the token buckets are the record Limits.
--
-- Authorized: is_authorized is isAuthorized of options.go, authorized_keys and trusted_user_ca_keys
-- are the handlers of WithAuthorizedKeys and WithTrustedUserCAKeys. The ssh packages are the record
-- Ssh; a file is the lines that the calls of ReadLine deliver.
--
-- Server: new_server is NewServer of wish.go, and each option of options.go bears its name. The
-- server is the fields that the options set; Host is what they call of ssh, keygen and os. The
-- files of keys are read anew for each key that is offered, from the disk as it is then.
--
-- Bubbletea: the package bubbletea. make_opts is makeOpts of tea_unix.go, make_opts_other the one
-- of tea_other.go, make_options is MakeOptions, default_program is newDefaultProgramHandler, and
-- middleware_with_program_handler is the function of that name without its goroutine.
-- Bubbletea.Watch is the session and that goroutine, as a relation of steps: the session is in Run,
-- behind it, behind Kill, or behind cancel; the goroutine picks any of what is ready, a change of
-- the window or the end of the context, and a message may panic; the client changes the window and
-- leaves when it likes, and the package behind the session may close the channel of the changes at
-- any time, behind which a receive gives the zero size. Send and Quit are one step each, so a Send
-- that waits for the program is a goroutine that is not picked for a while.
--
-- Cmd: command_context is CommandContext of cmd.go, perform is Cmd.Run, and run what it connects
-- the command to; do_run is doRun of cmd_unix.go, and of cmd_windows.go, where the call that waits
-- is another one. Runner is what they call of os/exec and of the terminal.
--
-- Server.Kept says what NewServer leaves of a server behind its last option. Server.Admission joins
-- Server and Authorized: what a server that was made with a file of keys lets in.
--
-- Examples: programs of examples/ that have logic of their own. Examples.Copying is the server that
-- examples/scp/main.go makes, with its subsystem. Examples.Sftp is the sftp handler of
-- examples/scp/main.go, list_at its ListAt; a page is a call of it. Examples.Chat is
-- examples/multichat/main.go: update is Update, on_key and on_code its two switches, and the room
-- the list of programs. A session that begins, a program that handles a message of its own, and a
-- goroutine of send that gets a message through are one step each, in any order. A Race is what
-- appends to the list of programs without a lock do to each other: a program is lost from the list,
-- or put back. Examples.GitMenu is gitListMiddleware of examples/git/main.go, and the handler that
-- main makes with it. Examples.Auth is the server that examples/multi-auth/main.go makes.
-- Examples.Identity is the server of examples/identity/main.go, and a map of users without an order
-- of its entries, which is a quotient of lists. Examples.Script is the handler that
-- examples/exec/main.go makes, over perform. Examples.Terminal is the model of
-- examples/bubbletea/main.go, which is sent the changes of Bubbletea.Watch. Examples.Shutdown is
-- main of examples/graceful-shutdown/main.go, and the goroutine in it, as steps of two threads that
-- meet at the channel done; what comes from outside, the signals and what ListenAndServe and
-- Shutdown return, is the list of inputs of the steps. Examples.Editor is the model of
-- examples/bubbletea-exec/main.go, with the commands that it asks for run by perform.
--
-- Scp.Info: GetInfo of scp/scp.go. Scp.Dispatch: its Middleware. Scp.Entry: the entries of
-- scp/scp.go and their Write methods, over a writer that fails when its room is used up.
-- Scp.Stream: the buffered reader and scp/limit_reader.go; a list of cuts says how much each read
-- delivers. Scp.Header: the regular expressions of scp/copy_from_client.go. Scp.Receive:
-- copyFromClient and handleNewFile there; the handler is a record, and its Write a program that
-- asks its reader for bytes. Scp.FileSystem: prefixed, chtimes, Mkdir and Write of
-- scp/filesystem.go, over an operating system given by its calls; Scp.FileSystem.Reads: Glob,
-- WalkDir, NewDirEntry and NewFileEntry, over what the disk gives for a path. Scp.FileSystem.Stores
-- says what the calls of a disk on which nothing fails do (Works), with two writes to an open file
-- the same as one of both. Scp.Readers is scp/fs.go, the handler over an fs.FS, and the file system
-- handler as one of what is copied to a client: their state is the number of the files that are
-- open. Scp.Send: the Append methods of scp/scp.go, copyToClient and closeAll of
-- scp/copy_to_client.go. Scp.Send.Apart and Scp.Send.Rebuilt are about the Append methods,
-- Scp.Send.Whole about a tree that a handler holds (Holds: what Glob, WalkDir and the two other
-- methods give for it). Scp.Readers.Kept says what it is for a disk to keep a tree (Keeps: what
-- Glob, Rel, WalkDir, Stat and Open give for its paths). Scp.RoundTrip joins the sending and the
-- receiving side. Scp.Memory is a handler in memory, for the tests.
--
-- Fuel: copy_from_client has one round more than the stream has bytes, since a round that goes on
-- consumes a line; copy_loop has one more than the size, since a read delivers a byte at least.
-- Numbers are natural: times before 1970 are sent like unknown ones, and sizes fit in 63 bits where
-- it matters.
--
-- Not modelled: the inside of the cache and of the token buckets of the rate limiter, of os/exec
-- and of the terminals, which are other packages; WriteString and Environ, which only call;
-- testsession, which opens a listener and a client for tests; and the other examples, which only
-- put the packages together or show one option.
pub mod Base
pub mod FilePath
pub mod Strconv
pub mod Scp
pub mod Session
pub mod Middleware
pub mod Git
pub mod Authorized
pub mod RateLimiter
pub mod Cmd
pub mod Server
pub mod Examples
pub mod Bubbletea
