-- ===== src/Model/Graph/Boxes.antt =====
-- Which fields `_mark_recursive_boxes` marks.
use protocyte.Model.Graph.{Graph}
