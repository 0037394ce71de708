-- ===== src/Lib.antt =====
-- A verification library for the core of RouteLang's runtime, a gateway written in C++.
--
-- The program's parts that are modelled, and how they interact. A connection's bytes arrive in
-- buffers; a chunked body is read by ChunkedParser::feed, called in a loop by the callbacks of a
-- connection. A request's path and method select a route: paths are split into segments, methods
-- become slots, and RouteTrie holds the routes that the configuration inserts. The parsers read a
-- request or a response from a buffer. The lexer is the first pass over a configuration.
--
-- - Common: the names, tests, list and bit lemmas that the other modules share.
-- - Chunked: include/rut/runtime/chunked_parser.h and src/runtime/chunked_parser.cc. The parser's
--   three fields are a record, `feed` is `Chunked.feed`; one round of its loop is `round`, the case
--   Data is `bulk_copy`. `Chunked.Loop.scan_body` is the loop of src/runtime/callbacks.cc over one
--   buffer. `Chunked.Bytewise.run` is a reading one byte at a time: it shares `round`
--   with `feed` in every state but Data, where it takes a single byte in place of the bulk copy.
--   `Chunked.Wire` is the grammar of the format.
-- - Method: include/rut/runtime/route_method.h, with the method enumerations.
-- - Canon: include/rut/runtime/route_canon.h, which the dispatch applies to a path before the trie.
-- - Pool: SlabPool of include/rut/runtime/slab_pool.h, a pool of a fixed number of objects: its free
--   stack and its in-use map, after init has mapped its memory.
-- - Upstream: include/rut/runtime/upstream_pool.h, the upstream connections of a shard and which of
--   them are idle. `Upstream.Refinement.slab` is its view as a slab pool.
-- - Tokens: RouteTrie::tokenize_segments of src/runtime/route_trie.cc.
-- - Trie: RouteTrie of include/rut/runtime/route_trie.h and src/runtime/route_trie.cc. The node
--   pool is a list of nodes; `clear`, `find_child` and `insert` with its rollback are functions on
--   it. `Trie.Reach.route_at` is the abstract view: the route held for a path of labels and a slot.
-- - Trie.Match: match_key and match of RouteTrie. `search` is the loop over the stack of frames,
--   `consider` what it does with a terminal. `Trie.Match.Rank.described` describes a candidate by
--   its path of labels and the routes that the trie holds, without nodes or frames, and
--   `Trie.Match.Precedence.precedes` orders paths without the masks and tests of `consider`.
-- - Http: include/rut/runtime/http_parser.h and src/runtime/http_parser.cc. `Http.Bytes` are the
--   loads, str_ci_eq and parse_uint, `Http.Tables` and `Http.Scan` the tables and scanners of
--   src/runtime/simd, `Http.Semantic` the headers that the parser reads, `Http.Block` the loop over
--   the header lines, which `Http.Request` (HttpParser::parse) and `Http.Response`
--   (HttpResponseParser::parse) share but for the storing of a header. `Http.Block.Grammar`,
--   `Http.Request.Laws` and `Http.Response.Laws` are the grammar of the two formats, as text.
-- - Http.Validation: include/rut/common/http_header_validation.h, the response headers that a program
--   sets.
-- - Select: src/runtime/route_select.cc, which chooses between dispatch by bytes and the trie.
-- - Lexer: src/compiler/lexer.cc, the first pass of the compiler over a configuration.
--   `Lexer.round` is one round of the loop of `lex` and `Lexer.Runs.Runs` the loop without fuel.
--   `Lexer.Position` counts lines and columns from the text alone.
--
-- Conventions. A byte is a number, a buffer or a `Str` the list of its bytes. Machine words are
-- numbers with their wrap-around written out where a value can leave its range; lengths and
-- positions in a buffer are bounded by its length, a u32, and do not wrap.
-- Fuel. `scan_body` takes a bound on its rounds; a round that goes on consumes at least one byte,
-- so the length of the buffer is enough, which its theorems prove. `search` takes 4097 rounds, the
-- capacity of the node pool: it never pops a node twice, so they are enough and its stack of the
-- same capacity never overflows, which `Trie.Match.Bound` proves on the way.
--
-- The loops over comma-separated tokens and over header lines take the length of what is left, since
-- a round reads a byte or more.
-- The lexer's loop takes the length of the source, since a round passes a byte or more. Its line and
-- column stay below 2 ^ 32 for a source shorter than 2 ^ 32 - 1 bytes.
--
-- Not modelled: what a parser's output holds after Incomplete or Error, the SIMD variants of the
-- scanners, sockets, event loops, timers, TLS, logging and metrics (system calls and threads), the
-- adaptive radix tree, the JIT, the compiler's passes behind the lexer, the simulator, and the
-- third-party libraries (llhttp, zstd).
pub mod Common
pub mod Chunked
pub mod Method
pub mod Pool
pub mod Tokens
pub mod Canon
pub mod Http
pub mod Lexer
pub mod Select
pub mod Upstream
pub mod Trie
