-- ===== src/Names/Scope.antt =====
-- `EmittedNameScope` of src/protocyte/names.py: its dictionary, `reserve`, `_can_add` and
-- `_can_add_all`.
pub mod Lookup
pub mod Coexist
use protocyte.Common.{
  Bool, true, false, not, ◌&&◌, Option, none, some, List, [], ◌∷◌, ◌++◌, Bytes, text_eq, all, any,
  if◌then◌else◌, Result, ok, err,
}
use protocyte.Names.Identifier.{is_portable_identifier}
use protocyte.Names.Member.{EmittedNameUse, NameError, use_eq}

-- dict[str, list[EmittedNameUse]]
abbrev pub Uses : Type 0
Uses = List (Bytes × List EmittedNameUse)

-- uses.get(name, ())
unfoldable pub uses_of : Bytes → Uses → List EmittedNameUse
uses_of name [] = []
uses_of name ((key, found) ∷ rest) = if text_eq key name then found else uses_of name rest

-- uses.setdefault(name, []).append(use)
unfoldable pub add_use : Bytes → EmittedNameUse → Uses → Uses
add_use name use_ [] = (name, use_ ∷ []) ∷ []
add_use name use_ ((key, found) ∷ rest) =
    if text_eq key name
    then (key, found ++ use_ ∷ []) ∷ rest
    else (key, found) ∷ add_use name use_ rest

-- item.signature is not None and item.signature != signature
unfoldable pub differs : Bytes → EmittedNameUse → Bool
differs signature item = elim item.signature [
  | none ↦ false
  | some other ↦ not (text_eq other signature)
]

unfoldable pub can_overload : EmittedNameUse → List EmittedNameUse → Bool
unfolding differs
can_overload use_ [] = true
can_overload use_ (item ∷ existing) = elim use_.signature [
  | none ↦ false
  | some signature ↦ all (differs signature) (item ∷ existing)
]

-- _can_add(name, use, staged)
unfoldable pub can_add : Uses → Bytes → EmittedNameUse → List EmittedNameUse → Bool
unfolding is_portable_identifier can_overload uses_of
can_add uses name use_ staged =
    if not (is_portable_identifier name)
    then false
    else can_overload use_ (uses_of name uses ++ staged)

-- The loop of _can_add_all(rendered).
unfoldable pub can_add_all : Uses → Uses → List (Bytes × EmittedNameUse) → Bool
unfolding can_add add_use
can_add_all uses staged [] = true
can_add_all uses staged ((name, use_) ∷ rendered) =
    can_add uses name use_ (uses_of name staged)
    && can_add_all uses (add_use name use_ staged) rendered

unfoldable pub add_all : Uses → List (Bytes × EmittedNameUse) → Uses
unfolding add_use
add_all uses [] = uses
add_all uses ((name, use_) ∷ rendered) = add_all (add_use name use_ uses) rendered

unfoldable pub reserve : Uses → Bytes → EmittedNameUse → Result NameError Uses
unfolding can_add add_use use_eq
reserve uses name use_ =
    if any (use_eq use_) (uses_of name uses)
    then ok uses
    else if not (can_add uses name use_ [])
    then err NameError.name_conflict
    else ok (add_use name use_ uses)

-- The dictionary of EmittedNameAllocator.
abbrev pub Scopes : Type 0
Scopes = List (Bytes × Uses)

-- `EmittedNameAllocator.scope`: the scope of the label, which is made when there is none.
unfoldable pub scope : Bytes → Scopes → Uses × Scopes
unfolding text_eq
scope label [] = ([], (label, []) ∷ [])
scope label ((key, uses) ∷ scopes) =
    let (found, rest) = scope label scopes in
    if text_eq key label then (uses, (key, uses) ∷ scopes) else (found, (key, uses) ∷ rest)
