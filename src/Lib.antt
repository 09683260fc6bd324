-- ===== src/Lib.antt =====
-- vek is a scripting language for the web: a lexer and compiler produce bytecode, a stack machine runs
-- it over garbage-collected objects, and a web server with a router is part of the runtime. The parts
-- modelled here, each in a file of its name with its proofs in modules below it:
--
-- * Lexer (src/lexer.c, src/lexer.h). A pointer into the NUL-terminated source is the list of the bytes
--   from it to the NUL, so that `is_at_end` is the empty list, reading at the end gives NUL, and a length
--   is a difference of two list lengths, of tokens below 2 ^ 31 bytes. A function on the mutable lexer returns the token and the new
--   lexer. Its loops are structural. `Keywords` has the keyword table, `Scan` the scanning helpers and
--   `Next` the function `lexer_next_token`.
-- * ObjMap (the map operations of src/object.c, and object.h). A table is a list of slots that are
--   empty, a tombstone or live. Keys are interned, so that a key is the address of its string, and the
--   hash that the string caches is a parameter, of which nothing is assumed. The loops that probe take
--   fuel, and `none` says that a loop is still running: `capacity` rounds are enough on a valid map, and
--   no number of rounds is enough on some others. The 32-bit counters wrap as written. Allocation always
--   succeeds.
-- * Router (src/router.c, src/router.h). A node of the trie is its segment, kind, handlers and
--   children; a handler is an address. A function that changes a node in place returns the new node, and
--   `find_or_create_child` takes what its caller does to the child that it returns. The recursion of
--   `match_recursive` is on the trie, so that it needs no fuel. The parameters are the elements of the
--   array that `count` counts. `Routes` says which routes a trie has, apart from any order of search.
-- * Http (src/http_parser.c, src/http_parser.h). A position in the buffer is the list of the bytes from
--   it to the end, and a pointer with a length into the request is the bytes. A stage that fails gives
--   the result `error`. The loop over the header lines takes fuel, `running` says that it has not ended,
--   and more fuel than the buffer has bytes is enough. The content length wraps as a 64-bit `size_t`.
-- * Vebc (src/vebc_writer.c, src/vebc_loader.c and their headers), the container for bytecode. Each
--   array of the builder with its count is a list, and a file is its contents. A position in the file is
--   the list of the bytes from it to the end, and an offset that the loader keeps is such a position. The
--   hash of the sections is an argument of the writer. The recursions are on counts and lists.
--   `Functions` takes a function object apart, reading the objects that its constants point at from the
--   collector's heap, and `Entry` makes one, whose constants are values or the contents of objects.
-- * Sha256 (src/sha256.c). A word is a number below 2 ^ 32 and `~x` is 2 ^ 32 - 1 - x; the loops are on
--   counts and lists.
-- * Gc (src/gc.c, src/gc.h and `vm_mark_roots` of src/vm.c), the mark and sweep collector. The tracked
--   objects are a list, a pointer is an address that is looked up there, and the gray stack has its top
--   first. `World` is what a collection reads and writes. Tracing takes fuel, of which the number of
--   tracked objects is enough, since each is popped at most once. `References` says what tracing follows
--   apart from the order, and `Trace.Reach` what can be reached.
-- * Object (src/object.c, src/object.h and the objects of src/vm.h). An object is its address, flags and
--   kind; `alloc_object` takes the address that the C library's allocator gives.
-- * Intern (the table of interned strings of src/object.c). An entry is the address of a string with its
--   bytes. Its loops take fuel like those of ObjMap, to which `AsMap` reduces them: the table is a map
--   object whose keys are the `Codes` of the strings.
-- * Chunk (src/chunk.c, src/chunk.h). A growing array is a list with its capacity, and the statistics of
--   Memory pass through each operation. No `int` overflows within 2 ^ 30 writes.
-- * Vm (the stack, frames and upvalues of src/vm.c, and vm.h). A pointer into the stack is an index. An
--   upvalue is known by its address and is open or closed; the open ones are a list in the order of their
--   `next` fields. The loops are structural.
-- * Compress (src/stdlib_compress.c), CRC-32, stored DEFLATE blocks and gzip. The loops take fuel: a round
--   for each block and one to stop, or one more than the input has bytes. A native is the function on the
--   bytes of its argument, with `none` for nil.
-- * Value (src/value.h), NaN boxing. A value, a double and an integer are the numbers of their 64 bits.
-- * Ratelimit (src/stdlib_ratelimit.c), token buckets. A key is the address of its interned string, a bucket
--   is a record, and the store is the list of its assignments. Signed overflow gives `none`.
-- * Slug (src/stdlib_slug.c), the function of the standard library that makes slugs, on bytes.
-- * Memory (src/memory.c, src/memory.h). The C library's allocator succeeds, and the address that
--   it gives for a page is an argument. Pointers have 64 bits. The collection that `heap_alloc` may start is left out.
--
-- The parts meet as in the program: the collector traces the values of Value and the slots of ObjMap,
-- removes strings from Intern and counts what it frees in Memory, as Chunk and Object do; the lexer, the router and the HTTP parser share the byte strings and
-- the tests of Prelude, and the containers work on lists of bytes. Prelude has the helpers on lists, bits
-- and tests that all of them use. `Tests` below a part has runs of its functions on small inputs.
--
-- Not modelled: the compiler, the virtual machine but for its roots, stack, upvalues, calls and returns, the event loop and the server around the
-- router, the database, the command line and most of the standard library. Printing, files, sockets and
-- threads are input and output; sqlite3.h is another project's header.
pub mod Chunk
pub mod Compress
pub mod Gc
pub mod Http
pub mod Intern
pub mod Lexer
pub mod Memory
pub mod ObjMap
pub mod Object
pub mod Prelude
pub mod Ratelimit
pub mod Router
pub mod Sha256
pub mod Slug
pub mod Value
pub mod Vebc
pub mod Vm
