-- ===== src/Lib.antt =====
-- The configuration loader of this repository (configloader/): a C program that reads nginx-like
-- configuration files, merges them and writes the result.
--
-- `main` (configloader/main.c) reads its options (configloader/cli.c), opens the output file and then
-- the inputs (configloader/filesystem.c over configloader/fs_low.c), reads each input, merges the
-- blocks (configloader/configfile_merge.c) and writes the merged one.
--
-- A file is read by `config_deserialize` (configloader/configfile_deserialize.c): a lexer reads
-- tokens off the stream into growing buffers, and a recursive parser turns them into directives and
-- blocks by the operations of configloader/configfile.c. `config_serialize`
-- (configloader/configfile_serialize.c) writes a block through the printer (configloader/printer.c).
-- On the way both log through configloader/logger.c, and in a few places through
-- configloader/sysunsafe.c, which hands an `echo` command to the shell.
--
-- Base       shared names, Boolean tests on numbers, lists, texts as lists of bytes
-- Runtime    the C library as far as the program relies on it: a World with the answers that the
--            allocator will give, the number of live allocations, the log level, and what was
--            written; the outcome of a run (a value, a fault, or fuel used up). Runtime.Files has
--            `fopen` and `fclose` over a file system that is passed beside the World;
--            Runtime.Ensures, Runtime.Ends, Runtime.Leaves and Runtime.Later have postconditions
--            of runs
-- Printer    configloader/printer.c
-- Logger     configloader/logger.c
-- Sysunsafe  configloader/sysunsafe.c; Guards is about which commands are run
-- Configfile configloader/configfile.c; Data has the structures, DirectiveOps and BlockOps the
--            operations, Memory, BlockMemory, BlockCopy and Access their theorems
-- Lexer      the lexer of configfile_deserialize.c; Described describes the tokens by tables and searches;
--            Reference is the lexer without memory, Skipped, Progress and Texts are about its
--            tokens, Buffers, Correct and Agrees about `lex_token`
-- Parser     the parser of configfile_deserialize.c; Grammar describes which block a stream stands
--            for, as a relation; Tokens has the token lists; Steps, Stores, Exits and Correct are
--            about its runs, Lifetime about what is left, Fuel about the fuel, Present about NULL
--            strings
-- Merge      configloader/configfile_merge.c; Union describes the merged block without memory,
--            Equal has the tests for equality and Compare is about them, Scanning has the merging
--            of the directives, Matches about the pairs of matching subblocks, Stages about the
--            union in the steps of `merge_into`; Scans, Correct, Arrays, Places, Lifetime and
--            Several are about the result and what is left allocated; Lookup and Find are about
--            what is looked up, Directives and Paths about what is looked up in a merged block
-- Easy       configloader/configfile_easy.c; Endings has how its functions end, Correct what they
--            build
-- Serializer configloader/configfile_serialize.c; Render describes the written text, Emits and
--            Correct are about its runs
-- RoundTrip  the serializer and the deserializer together; Words and Printable are about texts of
--            bare words, Unions and Again about merging what was written
-- FsLow      configloader/fs_low.c, with the macros of configloader/fsops.h
-- Filesystem configloader/filesystem.c; Checks is about paths and modes, Open about opening and
--            closing, Counts about which streams are open and closed
-- Cli        configloader/cli.c
-- Sysinfo    configloader/sysinfo.c, with the macros of configloader/system.h for pipes; Buffer is
--            about the array that `sysinfo_get_uname_a` fills
-- Main       configloader/main.c; Merging has `merge_config_files`, Load is about reading the
--            inputs, Correct and Success about the whole way from the inputs to the written text;
--            Program has the rest, Opening, Closing and Verdicts are about the files, Run about
--            `run`, Starting about what is logged first, Whole, Sources and Succeeding about `main`
-- Tests      the theorems at examples, and runs of the parser and of the merge
--
-- A function of the C code has a definition of the same name. A pointer is an `Option`, with
-- `none` for NULL; a function that changes an object through a pointer returns the object. An
-- array and its count are one list. A run takes the allocator's answers from the World, so a
-- theorem for every World is a theorem for every pattern of refused requests; behind the end of
-- the list every request is granted. "Only after a refused request" is said of the Worlds whose
-- list holds a refusal, and "every request is granted" of the others. Memory is counted, not
-- addressed: a `free` with nothing allocated is a fault, but use after free cannot be expressed. A
-- `%s` of NULL, a store through NULL, and `strcmp` or `strncmp` of NULL are faults.
--
-- The parser is recursive in the tokens of a stream, so it runs on fuel, one unit for a token.
-- `config_deserialize` gives it one more than the length of the stream, and every token but the
-- end takes at least one byte, so the fuel is never used up, which the results below include.
-- Merging recurses over the second block. Lengths, counts and the capacities of buffers do not
-- wrap, since a wrap needs 2^63 bytes in memory. A store behind the capacity of a buffer of the
-- lexer or of the array of the options is a fault. In sysunsafe.c a message whose length is no
-- `int` is not logged, as there; where message_len + 32 overflows, for the last 32 lengths below
-- 2^31, the sum is taken without its sign, which C leaves undefined.
--
-- The calls of `parse_opt` that argp makes, the text that `%d` and `%p` print, which files there are,
-- which openings are refused, which calls of `fclose` fail, and what `popen`, `fread` and `pclose`
-- give for a pipe are parameters. A file is known by its path, so two paths of one file count as two
-- files. `fclose` records the stream that it is called with.
--
-- Not modelled: the shell and the terminal; the exits of argp itself, for --help, --version and
-- unknown options; what a program beside this one does to the files; a
-- failing `ungetc` or `fprintf`; the Python tools in obfuscator/ and webservice/.
pub mod Base
pub mod Runtime
pub mod Printer
pub mod Logger
pub mod Sysunsafe
pub mod Configfile
pub mod Lexer
pub mod Parser
pub mod Merge
pub mod Easy
pub mod Serializer
pub mod RoundTrip
pub mod Cli
pub mod FsLow
pub mod Filesystem
pub mod Sysinfo
pub mod Main
mod Tests
