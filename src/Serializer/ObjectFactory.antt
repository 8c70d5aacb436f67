-- ===== src/Serializer/ObjectFactory.antt =====
-- `ObjectFactory`: the registered classes. A factory function makes a new object in its initial
-- state, so the map holds that object.
use sc4051_dist_system_proj.Prelude.{Bytes, List, Option, none, some, same}
use sc4051_dist_system_proj.Prelude.Assoc
use sc4051_dist_system_proj.Result.{Result, ok, err, unknown_class}

abbrev pub Creators : Type 0 → Type 0
Creators O = List (Bytes × O)

module _ {O : Type 0} where
  -- `creators[className] = ...`
  unfoldable pub register_class : Bytes → O → Creators O → Creators O
  register_class class_name initial creators = Assoc.insert same class_name initial creators

  created : Bytes → Option O → Result O
  created class_name none = err (unknown_class class_name)
  created class_name (some object) = ok object

  unfoldable pub create_object : Creators O → Bytes → Result O
  unfolding created
  create_object creators class_name = created class_name (Assoc.lookup same class_name creators)
