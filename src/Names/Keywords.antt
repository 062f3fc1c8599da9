-- ===== src/Names/Keywords.antt =====
-- The C++ keywords of `CPP_KEYWORDS` in src/protocyte/names.py, in the order of the source.
use protocyte.Common.{Bytes, List, [], ◌∷◌, ◌++◌, map, codes}
use Prim.Native.String.{String}

unfoldable pub keyword_texts : List String
keyword_texts =
    "alignas" ∷ "alignof" ∷ "and" ∷ "and_eq" ∷ "asm" ∷ "atomic_cancel" ∷ "atomic_commit"
    ∷ "atomic_noexcept" ∷ "auto" ∷ "bitand" ∷ "bitor" ∷ "bool" ∷ "break" ∷ "case" ∷ "catch" ∷ "char"
    ∷ "char8_t" ∷ "char16_t" ∷ "char32_t" ∷ "class" ∷ "compl" ∷ "concept" ∷ "const" ∷ "consteval"
    ∷ "constexpr" ∷ "constinit" ∷ "const_cast" ∷ "continue" ∷ "co_await" ∷ "co_return" ∷ "co_yield"
    ∷ "decltype" ∷ "default" ∷ "delete" ∷ "do" ∷ "double" ∷ "dynamic_cast" ∷ "else" ∷ "enum"
    ∷ "explicit" ∷ "export" ∷ "extern" ∷ "false" ∷ "float" ∷ "for" ∷ "friend" ∷ "goto" ∷ "if"
    ∷ "inline" ∷ "int" ∷ "long" ∷ "mutable" ∷ "namespace" ∷ "new" ∷ "noexcept" ∷ "not" ∷ "not_eq"
    ∷ "nullptr" ∷ "operator" ∷ "or" ∷ "or_eq" ∷ "private" ∷ "protected" ∷ "public" ∷ "reflexpr"
    ∷ "register" ∷ "reinterpret_cast" ∷ "requires" ∷ "return" ∷ "short" ∷ "signed" ∷ "sizeof"
    ∷ "static" ∷ "static_assert" ∷ "static_cast" ∷ "struct" ∷ "switch" ∷ "synchronized" ∷ "template"
    ∷ "this" ∷ "thread_local" ∷ "throw" ∷ "true" ∷ "try" ∷ "typedef" ∷ "typeid" ∷ "typename"
    ∷ "union" ∷ "unsigned" ∷ "using" ∷ "virtual" ∷ "void" ∷ "volatile" ∷ "wchar_t" ∷ "while" ∷ "xor"
    ∷ "xor_eq" ∷ []

unfoldable pub cpp_keywords : List Bytes
unfolding keyword_texts
cpp_keywords = map codes keyword_texts

-- _KEYWORD_ESCAPED_IDENTIFIERS
unfoldable pub keyword_escaped_identifiers : List Bytes
unfolding cpp_keywords
keyword_escaped_identifiers = map (λ k. k ++ codes "_") cpp_keywords
