-- ===== src/Lib.antt =====
-- Verification of protocyte, a plugin of protoc that writes C++ for protobuf schemas.
--
-- The plugin reads its parameter, indexes and checks the descriptors of a request, builds a model of
-- their messages, and writes headers and sources whose names and paths it spells so that every
-- platform and every C++ compiler takes them. A scanner of .proto files tells the build which files
-- a schema imports. The parts meet in texts: the parameter gives the prefixes and the budgets of
-- paths, the model gives names to the scopes, and the descriptors give numbers to the model.
--
-- What models which part:
-- - Common: tests on numbers, lists, texts, integers, and Result, what a function that may raise
--   ProtocyteError returns. Each part lists the places at which it raises as constructors. A check
--   is a value of the block that holds it, so a function stops at the first check that raises.
-- - Names, for src/protocyte/names.py: cpp_identifier and its helpers (Identifier), the C++ keywords
--   (Keywords), EmittedNameScope with reserve (Scope) and allocate (Allocate). A scope is the list of
--   its names with the uses of each, in the order in which the dictionary was filled.
-- - Paths, for src/protocyte/paths.py: normalize_generated_path (Segment) and the base of a generated
--   file under budgets of bytes (Base). The digest of hashlib is a parameter, of which 64 hexadecimal
--   digits are assumed where it is needed. Decode is a decoder to compare the encoding with.
-- - Scanner, for src/protocyte/import_scanner.py: string literals (Literal, Unicode), the statements
--   of _import_names (Imports), canonical virtual paths and patterns for CMake (VirtualPath).
--   os.path.normpath is a parameter.
-- - Parameters, for src/protocyte/parameters.py: the transport in hexadecimal digits (Transport),
--   the parts of the parameter and the options that they make (Parse), the checks of prefixes
--   (Prefix) and of GeneratorOptions (Options). Decimal, float and int of a text are the record
--   Numbers, which is a parameter.
-- - Model, for src/protocyte/model.py: the checks of fields, reserved names and ranges, messages,
--   map entries and enums (Descriptor), the index of files and the import graph (Files), the boxing
--   of recursive fields (Graph), and the integers of constant expressions (Integer). The names of
--   files are checked as in src/protocyte/descriptor_set.py.
-- - Expression, for the constant expressions of src/protocyte/model.py: _tokenize and the literals of
--   its tokens (Literal), _ExprParser over any operations on values (Syntax, Parser), the numbers,
--   typed values, operators, functions and casts (Number, Value, Operate, Functions, Casts, Call),
--   and their composition (Evaluate). Tree has the syntax trees that a text of tokens stands for,
--   with their values, as the specification of the parser; Types has the families and the kinds of
--   those values. Floats, the tables of characters, ast.literal_eval and resolve_name are
--   parameters, and the functions of src/protocyte/_deterministic_math.py are a record that Rounding
--   fills; messages of errors are left out.
-- - Rounding, for src/protocyte/_deterministic_math.py: the rounding of a ratio of integers to the
--   bits of a float (the module itself), exact powers and the functions over decimals (Power).
--   Decimals and the floats of bits are parameters. The result is the record that Expression takes.
-- - Dependency, for src/protocyte/dependency_file.py: the escaping of paths. str.isalpha is a
--   parameter.
--
-- Texts. Names, Paths and Scanner work on UTF-8 bytes, so that str.encode is the identity; where
-- the source asks for a character, it asks for an ASCII one, or the part decodes. Parameters,
-- Expression and Dependency work on code points, since str.strip and str.isalpha look outside of
-- ASCII. Numbers of descriptors are 32 bits wide and are only compared, so that they are plain
-- integers.
--
-- Loops. A loop over a list is recursion on it. The loops of the scanner have fuel for one
-- round at each byte, since a round takes at least one byte. _can_reach has the
-- edges of the graph and two for fuel: each round takes a name off the stack, and a name is put there
-- once for each edge of a name that is seen for the first time; the import graph is followed likewise.
-- The parser of expressions has one round more for each loop than there are tokens, since a round takes
-- a token, and recurses on the room that is left under the limit of nesting.
--
-- Not modelled: the emission of C++ (src/protocyte/cpp.py), the constants that refer to each other
-- and the building of messages in src/protocyte/model.py, the rest of descriptor sets and dependency
-- files, the scanner's walk of the file system, the CMake and release scripts, the debugger's
-- printers and the C++ runtime. The first of these are still to be done; the others are input and
-- output, or another language.
mod Common
pub mod Names
pub mod Paths
pub mod Scanner
pub mod Model
pub mod Parameters
pub mod Dependency
pub mod Expression
pub mod Rounding
