-- ===== src/Debug.antt =====
-- agent/debug.rs: dumps of class files.
pub mod Returns
use phasic_j.Base.{Text, codes, Option, none, some, [], ◌++◌}
use phasic_j.FilePath.{push, parent}
use phasic_j.Host.{FileSystem, io, try}
use phasic_j.Jvm.World.{M, pure, fail}
use phasic_j.Panic.{null_result}

-- The path of the dump of a class.
unfoldable pub dump_path : Text → Text → Text
dump_path prefix class_name = push (push [] prefix) (class_name ++ codes ".class")

module _ {X : Type 0} (fs : FileSystem X) where
  unfoldable pub dump_below : Text → Text → Option Text → M X (Option (Unit {0}))
  dump_below path class_data none = fail null_result
  dump_below path class_data (some dir) = try (io (fs.create_dir_all dir)) λ _.
      try (io (fs.create path)) λ file. try (io (fs.write_all file class_data)) λ _. pure (some tt)

  unfoldable pub dump_class_to_file : Text → Text → Text → M X (Option (Unit {0}))
  dump_class_to_file prefix class_name class_data =
      let path = dump_path prefix class_name in dump_below path class_data (parent path)
