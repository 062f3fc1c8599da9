-- ===== src/Model/Graph.antt =====
-- `_can_reach` and `_mark_recursive_boxes` of src/protocyte/model.py: which singular message fields
-- lie on a cycle of message types and are boxed.
pub mod Ends
pub mod Reach
pub mod Boxes
use protocyte.Common.{
  ℕ, zero, suc, ◌+◌, Bool, true, false, not, ◌&&◌, Option, none, some, List, [], ◌∷◌, ◌++◌, Bytes,
  text_eq, text_in, if◌then◌else◌, length,
}

-- dict[str, set[str]]; the order within a set does not matter to the result.
abbrev pub Graph : Type 0
Graph = List (Bytes × List Bytes)

-- graph.get(name, ())
unfoldable pub successors : Graph → Bytes → List Bytes
successors [] name = []
successors ((key, targets) ∷ graph) name =
    if text_eq key name then targets else successors graph name

-- stack.extend(names), with the end of the Python list, where `pop` takes, in front
unfoldable pub push_all : List Bytes → List Bytes → List Bytes
push_all [] stack = stack
push_all (name ∷ names) stack = push_all names (name ∷ stack)

-- The loop of `_can_reach`; `none` says that the fuel ran out.
unfoldable pub can_reach_loop : ℕ → Graph → Bytes → List Bytes → List Bytes → Option Bool
unfolding successors push_all
can_reach_loop zero graph goal stack seen = none
can_reach_loop (suc fuel) graph goal [] seen = some false
can_reach_loop (suc fuel) graph goal (current ∷ stack) seen =
    let skip = can_reach_loop fuel graph goal stack seen in
    let visit =
      can_reach_loop fuel graph goal (push_all (successors graph current) stack) (current ∷ seen) in
    if text_eq current goal then some true else if text_in current seen then skip else visit

-- The edges that have not been followed.
unfoldable pub unseen_edges : Graph → List Bytes → ℕ
unseen_edges [] seen = 0
unseen_edges ((key, targets) ∷ graph) seen =
    if text_in key seen then unseen_edges graph seen else length targets + unseen_edges graph seen

-- Every round takes a name from the stack, and a name is put there once for each edge.
unfoldable pub can_reach : Graph → Bytes → Bytes → Option Bool
unfolding can_reach_loop unseen_edges
can_reach graph start goal = can_reach_loop (unseen_edges graph [] + 2) graph goal (start ∷ []) []

-- The parts of FieldModel and MessageModel that the pass reads and writes. `message_type` is the
-- full name of the field's message type; a model is found by it in the dictionary.
pub record BoxField : Type 0 where
  pub is_message : Bool
  pub repeated : Bool
  pub message_type : Option Bytes
  pub recursive_box : Bool

pub record BoxMessage : Type 0 where
  pub full_name : Bytes
  pub is_map_entry : Bool
  pub fields : List BoxField

-- kind == "message" and not repeated and message_type
unfoldable pub direct_target : BoxField → Option Bytes
direct_target f = if f.is_message && not f.repeated then f.message_type else none

unfoldable pub direct_targets : List BoxField → List Bytes
unfolding direct_target
direct_targets [] = []
direct_targets (f ∷ fields) = elim (direct_target f) [
  | none ↦ direct_targets fields
  | some target ↦ target ∷ direct_targets fields
]

-- The first loop: an edge for every direct field of a message that is no map entry.
unfoldable pub box_graph : List BoxMessage → Graph
unfolding direct_targets
box_graph [] = []
box_graph (m ∷ messages) =
    (m.full_name, (if m.is_map_entry then [] else direct_targets m.fields)) ∷ box_graph messages

is_found : Option Bool → Bool
is_found none = false
is_found (some found) = found

-- The second loop at one field of `owner`.
unfoldable pub box_field : Graph → Bytes → BoxField → BoxField
unfolding direct_target can_reach is_found
box_field graph owner f = elim (direct_target f) [
  | none ↦ f
  | some target ↦
      if is_found (can_reach graph target owner) then record f { recursive_box = true } else f
]

unfoldable pub box_fields : Graph → Bytes → List BoxField → List BoxField
unfolding box_field
box_fields graph owner [] = []
box_fields graph owner (f ∷ fields) = box_field graph owner f ∷ box_fields graph owner fields

unfoldable pub box_messages : Graph → List BoxMessage → List BoxMessage
unfolding box_fields
box_messages graph [] = []
box_messages graph (m ∷ messages) =
    (if m.is_map_entry then m else record m { fields = box_fields graph m.full_name m.fields })
    ∷ box_messages graph messages

-- messages.values() in the order of the dictionary
unfoldable pub mark_recursive_boxes : List BoxMessage → List BoxMessage
unfolding box_graph box_messages
mark_recursive_boxes messages = box_messages (box_graph messages) messages
