-- ===== src/Lib.antt =====
-- SmartWeb is a web server that keeps the metadata of its resources as RDF in a SPARQL store,
-- and imports whole trees of resources from bundles whose graph is N-Quads. This library models
-- its Go code over native numbers, and proves what its parts promise to one another. Paths are
-- from the repository's root.
--
-- The parts:
-- - Base: the names that all modules share; Go's strings as lists of bytes, with the functions
--   of package strings that the program calls.
-- - Utf8: runes and their encoding, which the language itself uses in string(r), in range loops
--   and in ReadRune. A rune is the bit pattern of its int32.
-- - FilePath: the functions of Go's packages path and path/filepath that the program calls, as
--   they work on slashes. Names and Split hold lemmas on paths of plain names.
-- - Turtle: turtle/escape.go, the escaping of strings and IRIs.
-- - Nquads: package nquads. Node and Statement are literals.go and nquads.go, Writer is
--   writer.go, Stream is the buffered reader that reader.go embeds, and Reader is reader.go, one
--   function for each method: readSpaces is read_spaces, readIri is read_iri, and so on. The
--   reader is a record of the bytes unread, the error behind them, and the flag eofIsError; a
--   method is a function of it that returns a result and the reader as it leaves it, also when
--   it fails.
-- - Sparql: package sparql. Client is client.go, from the values to the request and from its
--   answer to the result. Literals is literals.go, each run of strings.Replace as a table; Query
--   is query.go, with the regular expression matched by hand; Terms holds a scanner for the
--   strings of SPARQL's grammar and the bytes that it allows in an IRI.
-- - Bundle: package bundle and the command swbundle. Writer is bundle/writer.go over a record of
--   the calls of archive/zip, Reader bundle/reader.go, with the channel of GraphStatements as
--   the list of what it yields and the way it ends, and Command is cmd/swbundle/main.go, in
--   which a directory is a tree. Lines, Yields, Texts, Headers, RoundTrip and Stored hold
--   proofs, and Memory is an archive in memory that keeps the laws. The loop of GraphStatements
--   recurs on fuel, one more than the bytes of the graph.
-- - Server2: package server2. Url is isSubUrl of server2/bundle.go, and Bundle is the rest of
--   that file: Inserter is the type inserter and its methods, each a function of the inserter to
--   the one that it leaves, and Statements is makeStatements, the loop over the channel as a
--   recursion on the list of what the channel yields. url.Parse and URL.String belong to net/url
--   and are arguments. Posting is handlePOSTBundle and getBundleSHA1 of the same file, over
--   package os as Server/Writing names it. Parents is urlParents of server2/server.go; its loop
--   recurs on fuel, one more than the length of the path, and a path of plain names loses at
--   least a byte in each round. Auth is the loop of checkAuth in server2/auth.go over the
--   bindings that the store has returned, in their order, and Access is the rest of checkAuth
--   and the test with which ServeHTTP of server2/server.go lets a request in; the store is an
--   argument. Response is what a handler sends, with handleError, and Query is
--   server2/sparql.go, in which the store's endpoints are arguments. Resources is handleGET,
--   handlePUT and handleDELETE of server2/server.go, over the calls of package os that
--   Server/Writing names and a store that answers queries and updates. Serve is ServeHTTP of
--   server2/server.go, over a record of what the store answers and one of what belongs to
--   libraries, and Keygen the routing of server2/keygen.go. Below, Guarded, Ancestors, Votes,
--   Allowed, Kept, Granted, Runs, Confined, Tree and Grouped hold proofs.
-- - Server: package server, the first server. Entry is FSEntry of server/filesystem.go as the
--   path that it stands for, Paths is getEntry of server/server.go, and Files what the
--   operations of FSEntry read of the file system, which is an argument. The authenticator of
--   server/auth.go is in Nonces, with times as numbers of nanoseconds, Domains, for the metadata
--   of an entry and of its parents, with proofs in its children, Authenticator, for
--   checkRequest, and Challenges, for Authenticate. Writing is the part of FSEntry that changes
--   files, over a record of the calls of package os: Laws is what is relied on of these, and
--   Memory a file system that keeps to it. Handlers is handleGET, handlePUT and handleDELETE of
--   server/server.go, and Serve its ServeHTTP, from the authenticator to the handlers; MD5,
--   SHA-256, the random source and what the header parser leaves are arguments; HeaderParser is
--   that parser, the rules of server/headerparse.peg.go as functions from the state before a
--   match to the one behind it, with Execute and the callbacks in its child Execute. A loop of a
--   rule and auth_params recur on fuel, one more than the runes that are unread. A loop over an
--   entry and its parents recurs on the entry's level, which is one less for each parent.
-- - Httpmux: httpmux/httpmux.go, from the bytes of a connection to the server that gets it.
--
-- The import of a bundle joins the parts: Nquads reads the bundle's graph into statements,
-- makeStatements turns these into one SPARQL update by the encoders of Sparql, and each graph
-- that it drops or fills has been compared with the URL that the bundle was sent to.
--
-- A loop of the reader recurs on fuel, one more than the bytes that are unread when it starts.
-- Each round takes a byte or ends the loop, so that is enough. A slice that is appended to is a
-- list, and nil is none of an Option.
--
-- What is not modelled: the log, the underlying io.Writer and io.Reader beyond the bytes and the
-- error that they yield, the panic of a loop of the authenticator that goes on past an entry
-- whose Parent panics, and the parts that PROJECT.json lists as not_modelled.
pub mod Base
pub mod Utf8
pub mod FilePath
pub mod Turtle
pub mod Nquads
pub mod Sparql
pub mod Bundle
pub mod Server2
pub mod Server
pub mod Httpmux
