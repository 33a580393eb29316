-- ===== src/Svm/Embed.antt =====
-- agent/experimental/svm/rust/embed/lib.rs: the embedded library of the isolate, written to a file
-- on first use.
pub mod File
use phasic_j.Base.{Text, codes, Option, none, some, ◌++◌, if◌then◌else◌}
use phasic_j.FilePath.{push, parent}
use phasic_j.Host.{FileSystem, io, try}
use phasic_j.Jvm.World.{M, pure, fail}
use phasic_j.Panic.{done, null_result}

-- `svm_file_name!()`, which depends on the operating system.
pub data TargetOs : Type 0 where
  linux macos : TargetOs

unfoldable pub svm_file_name : TargetOs → Text
svm_file_name linux = codes "libsvm.so"
svm_file_name macos = codes "libsvm.dylib"

-- `format!("phasicj/{svm}.temp/sha1/{sha1}/{svm}", …)`
unfoldable pub svm_relative_path : TargetOs → Text → Text
svm_relative_path os sha1 =
    codes "phasicj/"
    ++ (svm_file_name os ++ (codes ".temp/sha1/" ++ (sha1 ++ (codes "/" ++ svm_file_name os))))

-- `svm_default_temp_file_path`, from the system's directory of temporary files.
unfoldable pub svm_default_temp_file_path : TargetOs → Text → Text → Text
svm_default_temp_file_path os temp_dir sha1 = push temp_dir (svm_relative_path os sha1)

module _ {X : Type 0} (fs : FileSystem X) (svm : Text) where
  -- The body of the `if`, below an existing parent.
  unfoldable pub write_svm : Text → Text → M X (Option (Unit {0}))
  write_svm file_path parent_path = try (io (fs.create_dir_all parent_path)) λ _.
      try (io (fs.create file_path)) λ file.
        try (io (fs.write_all file svm)) λ _. try (io (fs.sync_all file)) λ _. pure (some tt)

  unfoldable pub write_svm_below : Text → Option Text → M X (Option (Unit {0}))
  write_svm_below file_path none = fail null_result
  write_svm_below file_path (some parent_path) = write_svm file_path parent_path

  unfoldable pub write_svm_file_if_missing : Text → M X (Option (Unit {0}))
  write_svm_file_if_missing file_path w =
      if fs.exists file_path w
      then done (some tt) w
      else write_svm_below file_path (parent file_path) w
