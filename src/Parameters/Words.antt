-- ===== src/Parameters/Words.antt =====
-- The keywords that src/protocyte/parameters.py keeps out of namespaces, in the order of the source.
use Prim.Native.String.{String}
use protocyte.Common.{Bytes, List, [], ◌∷◌, map, codes}

unfoldable pub namespace_keyword_texts : List String
namespace_keyword_texts =
    "alignas" ∷ "alignof" ∷ "and" ∷ "and_eq" ∷ "asm" ∷ "atomic_cancel" ∷ "atomic_commit"
    ∷ "atomic_noexcept" ∷ "auto" ∷ "bitand" ∷ "bitor" ∷ "bool" ∷ "break" ∷ "case" ∷ "catch" ∷ "char"
    ∷ "char8_t" ∷ "char16_t" ∷ "char32_t" ∷ "class" ∷ "compl" ∷ "concept" ∷ "const" ∷ "const_cast"
    ∷ "consteval" ∷ "constexpr" ∷ "constinit" ∷ "continue" ∷ "co_await" ∷ "co_return" ∷ "co_yield"
    ∷ "decltype" ∷ "default" ∷ "delete" ∷ "do" ∷ "double" ∷ "dynamic_cast" ∷ "else" ∷ "enum"
    ∷ "explicit" ∷ "export" ∷ "extern" ∷ "false" ∷ "float" ∷ "for" ∷ "friend" ∷ "goto" ∷ "if"
    ∷ "inline" ∷ "int" ∷ "long" ∷ "mutable" ∷ "namespace" ∷ "new" ∷ "noexcept" ∷ "not" ∷ "not_eq"
    ∷ "nullptr" ∷ "operator" ∷ "or" ∷ "or_eq" ∷ "private" ∷ "protected" ∷ "public" ∷ "reflexpr"
    ∷ "register" ∷ "reinterpret_cast" ∷ "requires" ∷ "return" ∷ "short" ∷ "signed" ∷ "sizeof"
    ∷ "static" ∷ "static_assert" ∷ "static_cast" ∷ "struct" ∷ "switch" ∷ "synchronized" ∷ "template"
    ∷ "this" ∷ "thread_local" ∷ "throw" ∷ "true" ∷ "try" ∷ "typedef" ∷ "typeid" ∷ "typename"
    ∷ "union" ∷ "unsigned" ∷ "using" ∷ "virtual" ∷ "void" ∷ "volatile" ∷ "wchar_t" ∷ "while" ∷ "xor"
    ∷ "xor_eq" ∷ []

unfoldable pub namespace_keywords : List Bytes
unfolding namespace_keyword_texts
namespace_keywords = map codes namespace_keyword_texts
