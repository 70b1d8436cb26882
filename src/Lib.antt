-- ===== src/Lib.antt =====
-- A model of memccache, a compiler cache that keeps its results in memcached, with the theorems
-- that make its parts correct. The sources are the C files under src/ of the repository.
--
-- The parts and how they fit together:
-- - Args (src/args.c): the argument array of a compiler call. An array is a list of cells, which
--   are NULL or a string, beside argc; a structure holds a list of strings if its first cells are
--   these and the next is NULL. Args.Atfile is the parser of @file contents.
-- - Mdfour (src/mdfour.c, src/mdfour.h): the MD4 digest, on 32-bit words with their wrap-around.
--   The tail buffer and its length are one list. Memccached takes the digests of chunks from it.
-- - Memccached (src/memccached.c): the framing of a result in a value, the chunks of a big value
--   and the calls that store and fetch them. The server is the record Memcached of the calls that
--   the source makes, and its state is passed from call to call. A failed assertion or a read
--   outside the buffer is a reply of its own, as is an index with a length of 2^31 bytes or more.
-- - Manifest (src/manifest.c, src/manifest.h): the file that maps included files to objects. A
--   reader is a function of the bytes ahead to a value and the rest, or an error; gzgetc and
--   gzputc see the bytes before compression. Manifest.Verify is the search of manifest_get over a
--   disk and two hash tables, Manifest.Lookup the same search without tables; Manifest.Dated is
--   about files with a date. Manifest.Entry is manifest_put, in which paths and file infos are
--   found by two more tables.
-- - Hash (src/hash.c): the digest with its debug logs. Hashutil (src/hashutil.c,
--   src/macroskip.h): the search for __DATE__ and __TIME__; Hashutil.Source hashes texts and
--   files, which the manifest needs.
-- - Exitfn (src/exitfn.c): the list of functions to call at the exit.
-- - Cleanup (src/cleanup.c): the removal of the oldest files of a directory that is too large. It
--   uses the traversal and removal of Util.Files; Stats.Flush calls clean_up_dir, and makes the
--   calls back into the statistics with what it yields. Cleanup.Unlinked says which paths are
--   removed. num_files is followed below 2^32 files.
-- - Lockfile (src/lockfile.c): locks as symbolic links. Lockfile.Stale has the laws of the system
--   calls while no other process acts and the caller may make and remove its own two locks.
-- - Cachepath (get_path_in_cache of src/ccache.c): where a result is stored.
-- - Language (src/language.c, and get_extension and remove_extension of src/util.c): languages by
--   file extension.
-- - Compopt (src/compopt.c): the table of compiler options. bsearch is a parameter.
-- - Counters (src/counters.c) and Stats (src/stats.c, the enumeration of src/ccache.h): arrays of
--   32-bit counters and the text file that holds them. Stats.Flush has the operations on files,
--   whose reading, replacing and locking is an interface with laws.
-- - Util (src/util.c): the text of a digest and the parts of paths; Util.Files the removal of
--   files and the traversal of a directory, which is a tree of what the system calls deliver;
--   Util.Relative relative paths.
-- - Conf (src/conf.c, src/confitems.c and the two gperf tables): the configuration. A field of
--   struct conf is a tagged value in the list of all fields, a setting goes through the table of
--   items to its parser and verifier, and a file is the list of what parse_line makes of the
--   buffers of fgets. Conf.Edited is about a file that conf_set_value_in_file has changed. Doubles,
--   getenv and the calls of the file system are parameters. Util.Environ replaces variables in a
--   string.
-- - Process (cc_process_args of src/ccache.c): the pass over the compiler's arguments, which sorts
--   them for the preprocessor and the compiler. A round takes one argument, with the one behind it;
--   Process.Options and Process.Flags have the tests of a round from the last to the first, and
--   Process.Loop the loop; Process.Nearest is the search of make_relative_path for a directory
--   that exists. The argument structures are the lists of strings that they hold.
-- - Base: tests, lists, byte strings, byte order, the conversions of the C library, and the
--   interface of a hash table, which leaves open what a key inserted twice has as its value.
--
-- Loops with a bound are structural. Those on fuel are the chunk loop, which takes a byte at
-- least in each round and has the length of the value; the parser of a statistics file, with the
-- length of its text; the growth of an allocation, with the new size, since a round adds 32;
-- decimal and octal printing, with the number; the search for macros, with the length of the text,
-- since each skip is at least 1; and the replacement of variables, with the length of the string.
-- The lock is acquired on fuel given by the caller, as it can wait for other processes without
-- end; the creation of parent directories has its fuel from there.
-- The loop over the compiler's arguments has its fuel from the caller too, since files of arguments
-- can make it endless; the search for an existing parent directory has two more than the length of
-- the path, and where it does not end the pass has an outcome of its own.
-- The theorems are about the definitions with that fuel.
--
-- Not modelled: the main program (src/ccache.c but for its parts above), what cc_process_args does
-- behind its loop, process creation, the Windows branches, arithmetic on doubles,
-- formatting for display, allocation failure, logging, and the copies of other projects'
-- libraries in src/ (zlib, lz4, hash tables, snprintf, getopt, minitrace).
pub mod Args
pub mod Base
pub mod Cachepath
pub mod Cleanup
pub mod Compopt
pub mod Conf
pub mod Counters
pub mod Exitfn
pub mod Hash
pub mod Hashutil
pub mod Language
pub mod Lockfile
pub mod Manifest
pub mod Mdfour
pub mod Memccached
pub mod Process
pub mod Stats
pub mod Util
