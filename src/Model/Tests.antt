-- ===== src/Model/Tests.antt =====
-- Tests and worked instances for src/protocyte/model.py.
use protocyte.Common.{◌≡◌, refl, ◌↔◌, Bool, true, false, some, List, [], ◌∷◌, Bytes, codes, text_eq}
use protocyte.Model.Graph.{can_reach, BoxField, BoxMessage, box_graph, mark_recursive_boxes}
use protocyte.Model.Graph.Reach.{Reaches, can_reach-Reaches}

abbrev to : Bytes → BoxField
to name = record {
  is_message = true;
  repeated = false;
  message_type = some name;
  recursive_box = false;
}

abbrev many : Bytes → BoxField
many name = record {
  is_message = true;
  repeated = true;
  message_type = some name;
  recursive_box = false;
}

-- A holds B, B holds A and itself in a list, C holds A.
abbrev messages : List BoxMessage
messages =
    record { full_name = codes "A"; is_map_entry = false; fields = to (codes "B") ∷ [] }
    ∷ record {
      full_name = codes "B";
      is_map_entry = false;
      fields = to (codes "A") ∷ many (codes "B") ∷ [];
    }
    ∷ record { full_name = codes "C"; is_map_entry = false; fields = to (codes "A") ∷ [] }
    ∷ []

abbrev boxed : BoxField → BoxField
boxed f = record f { recursive_box = true }

cycle_boxed :
    mark_recursive_boxes messages
    ≡ record { full_name = codes "A"; is_map_entry = false; fields = boxed (to (codes "B")) ∷ [] }
      ∷ record {
        full_name = codes "B";
        is_map_entry = false;
        fields = boxed (to (codes "A")) ∷ many (codes "B") ∷ [];
      }
      ∷ record { full_name = codes "C"; is_map_entry = false; fields = to (codes "A") ∷ [] }
      ∷ []
unfolding mark_recursive_boxes text_eq
cycle_boxed = refl

can_reach-Reaches_example :
    (found : Bool) × (can_reach (box_graph messages) (codes "C") (codes "B") ≡ some found)
    × ((found ≡ true) ↔ Reaches (box_graph messages) (codes "C") (codes "B"))
can_reach-Reaches_example = can_reach-Reaches (box_graph messages) (codes "C") (codes "B")
