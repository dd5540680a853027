-- ===== src/Lib.antt =====
-- The Z shell 3.0 with its Windows port: the library `winzsh` models parts of the shell's core in
-- Src/, by shallow embedding. A C function of the source is a function here, under the same name;
-- globals are the fields of a record that a command takes and returns.
--
-- The parts and their files.
--
-- - Chars: the table of character classes, Src/utils.c `inittyptab`, and `tulower` and `tuupper`.
--   WORDCHARS is an argument. Zle takes the three tests that its motions use as a record, `Classes`.
-- - Meta: metafied strings, Src/utils.c `metafy`, `unmetafy`, `metalen`,
--   `ztrcmp`, `ztrlen` and `ztrsub`. The laws are in Meta/RoundTrip and Meta/Order.
-- - Parens: `skipparens` of Src/utils.c.
-- - Modifiers: `remtpath`, `remtext`, `rembutext`, `remlpaths`, `makeuppercase`, `makelowercase`,
--   `makecapitals`, `quote` and `quotebreak` of Src/hist.c. Modifiers/Laws has what they cut and keep,
--   Modifiers/Quotes how the shell reads quoted words and how many bytes they take. Modifiers/Subst
--   has `subst` and `convamps`, on a `strstr` that is written out, and its Laws what they replace.
-- - HashTable: the generic tables of Src/hashtable.c, which hold the shell's aliases, functions,
--   parameters, builtins and commands. The hash function is a parameter. HashTable/Chain has the laws
--   of one chain, HashTable/Valid the invariant `IsTable`, and HashTable/Refines and HashTable/Remove
--   the view of a table as a map from names to nodes.
-- - LinkList: the doubly linked lists of Src/linklist.c, which hold the words of commands, on a heap
--   of addresses. LinkList/Nodes has lists of addresses, LinkList/Seg the predicate `IsList`, that a
--   heap holds a list, LinkList/Insert, Splice, Remove, Roll and Walk what the functions do to it, and
--   LinkList/Queue the list as a queue.
-- - Pattern: the patterns of Src/glob.c. Pattern has the tokens and the compiled patterns, `Comp`,
--   Pattern/Parse `parsecomp`, `parsecompsw` and `parsereg`, Pattern/Scan the loop of `doesmatch` over
--   the bytes of one piece, Pattern/Match the rest of `doesmatch`, `excluded` and `domatch`.
--   Pattern/Tokenize has `tokenize`, and its Quoted follows a quoted string from there to the answer.
--   Pattern/Glob has simple patterns and the relation `Matches`; its Reads and Compiles follow the
--   compiler, its Pieces, Steps, Closures and Decides the matcher, and its Loops a pattern that never
--   ends.
-- - Number: `zstrtol` of Src/utils.c. A shell integer, `zlong`, has 32 bits here, and is a natural
--   number below 2 ^ 32, its bit pattern.
-- - Math: arithmetic evaluation, Src/math.c. Math/Token has the tokens and their tables, Math/Word
--   what the operators compute, Math/State the globals and the interface `Shell` to the parameters
--   of Src/params.c, Math/Lex `zzlex`, Math/Op `push`, `getcvar`, `setvar`, `op` and `bop`, and
--   Math/Parse `mathparse`, `mathevall`, `matheval` and `mathevalarg`. Math/Op/Division has the cases of
--   `op` that divide. Math/Parse/Steps says how a run
--   may change the state, Math/Parse/Results what follows. Math/Tree has expressions as trees, how
--   they are written and what they mean; Math/Tree/Numeral and Math/Tree/Lexed have the tokens of a
--   written one, Math/Tree/Rounds the rounds of the parser on them, Math/Tree/Levels the precedences,
--   and Math/Tree/Parses, Math/Tree/Operators and Math/Tree/Evaluates the induction.
-- - Words: `findsep`, `wordcount`, `sepsplit` and `sepjoin` of Src/utils.c with a separator that is
--   given.
-- - Zle: the line editor.
--   - Zle/Scan: the loops `while (cs != ll && p(line[cs])) cs++` and their kin, which all the motions
--     are made of.
--   - Zle/Text: the edit buffer, Src/zle_utils.c `sizeline`, `spaceinline`, `shiftchars`, `foredel`,
--     `backdel`, `findbol`, `findeol` and `findline`; Zle/Text/Space has their laws.
--   - Zle/Move: the cursor commands of Src/zle_move.c; Zle/Bracket: its `vimatchbracket`.
--   - Zle/Word: the word motions of Src/zle_word.c; Zle/Case: its case changes; Zle/KillWord: its
--     deletions, kills and transpositions, and `copyprevword` of Src/zle_misc.c.
--   - Zle/Kill: `cut`, `forekill` and `backkill` of Src/zle_utils.c, and the kill and yank commands
--     of Src/zle_misc.c, with the cut buffer, the kill ring and the vi buffers.
--   - Zle/Edit: `selfinsert`, `deletechar`, `backwarddeletechar` and the transpositions of
--     Src/zle_misc.c.
--   - Zle/Quote: `makequote`, `quoteline` and `quoteregion` of Src/zle_misc.c. Its Laws read quoted
--     bytes as the shell does.
--   - Zle/Undo: `initundo` and `addundo` of Src/zle_utils.c and `undo` of Src/zle_misc.c.
-- - Tests: the theorems at concrete inputs.
-- - Prelude: the names that the modules share, lists, memory as a function from offsets, integers,
--   strings, and the results of a run with fuel (Prelude/Runs).
--
-- A buffer is memory, a function from offsets to bytes, with its length beside it: an update is a
-- write in the order of the source, and a byte behind the end is there, as it is in C. A byte is a
-- natural number below 256, as `char` is unsigned in the Makefiles. Where the source would read or
-- write before a buffer, the result is `none`, or the comment of the definition says why the byte
-- read has no effect. `zmult`, the argument of a command, is an integer: a command with a negative
-- one calls its opposite, as in the source. `feep` is a flag of the result.
--
-- Fuel. `addhashnode` and `expandhashtable` call one another; a table that expands has at most
-- twice as many nodes as the old one had chains, which fit the new one without a second expansion,
-- so a depth of two is enough. The rounds of `sizeline` are bounded by the size asked for, as
-- every round multiplies the size by 4. Scans go at most to the end of the line. Every round of
-- `mathparse` and every call of it reads a token, so that `mathevall` has the length of the string
-- and 2 as its fuel. The fuel of `parsereg` is the depth of its calls, and every call takes a
-- byte. The fuel of `domatch` is the depth of calls and jumps: a simple pattern needs the length
-- of the string and twice that of the pattern, but for some patterns no fuel is enough. The fuel
-- of `countlinknodes` and `freelinklist` is more than the number of nodes.
--
-- What C does not define is a result of its own: `undefined` for the quotient of the least integer
-- and -1 and for a shift by 32 bits or more, `stuck` where a byte outside a string or a value
-- outside a stack is read. Sums, differences, products and powers wrap. `mathevall` is the
-- outermost call; an inner one, which a parameter may cause, is part of the interface `Shell`.
--
-- Not modelled: splitting at the characters of IFS, the lexer and the parser of commands, expansion, execution, parameters, the walk
-- over directories and the qualifiers of Src/glob.c, and the list of the history; the commands of
-- the editor that read keys or draw the screen; jobs, signals and the Windows port, which are
-- system calls; the copies of termcap, libseh and ansi2knr, which are other projects' code.
-- Allocation does not fail, and freed memory is not read.
pub mod Prelude
pub mod Chars
pub mod Meta
pub mod Modifiers
pub mod Parens
pub mod Pattern
pub mod Number
pub mod Math
pub mod HashTable
pub mod LinkList
pub mod Words
pub mod Zle
pub mod Tests
