-- ===== src/Debug/Returns.antt =====
-- The dump of a class never panics.
use phasic_j.Base.{refl, Text, codes, [], ◌++◌}
use phasic_j.Debug.{dump_path, dump_below, dump_class_to_file}
use phasic_j.FilePath.{push}
use phasic_j.FilePath.Last.{LastIs, LastIs-append, push-LastIs, parent-LastIs}
use phasic_j.Host.{FileSystem}
use phasic_j.Jvm.World.{World}
use phasic_j.Jvm.Ends.{IsDone, try-io-IsDone}

dump_path-LastIs : (prefix class_name : Text) → LastIs b's' (dump_path prefix class_name)
unfolding dump_path codes
dump_path-LastIs prefix class_name =
    push-LastIs b's' (push [] prefix) (class_name ++ codes ".class")
      (LastIs-append b's' class_name (codes ".class") (codes ".clas", refl))

module _ {X : Type 0} (fs : FileSystem X) where
  -- Whatever the prefix, the class's name and the file system's answers, dump_class_to_file
  -- returns, with success or an error, and never panics on a missing parent.
  pub dump_class_to_file-IsDone :
      (prefix class_name class : Text) (w : World X)
      → IsDone (dump_class_to_file fs prefix class_name class w)
  unfolding dump_class_to_file dump_below
  dump_class_to_file-IsDone prefix class_name class w =
      let path = dump_path prefix class_name in
      let (dir, e) = parent-LastIs b's' path refl (dump_path-LastIs prefix class_name) in
      rw e (
        try-io-IsDone (fs.create_dir_all dir) _ w λ _ w₁.
          try-io-IsDone (fs.create path) _ w₁
            λ fd w₂. try-io-IsDone (fs.write_all fd class) _ w₂ λ _ w₃. tt)
