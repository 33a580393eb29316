-- ===== src/RtJar.antt =====
-- agent/rt/embed/lib.rs: the embedded jar of runtime classes, written to a file on first use.
pub mod Keeps
pub mod Missing
pub mod Returns
use phasic_j.Base.{ℕ, Bool, true, false, Text, codes, Option, none, some, if◌then◌else◌}
use phasic_j.FilePath.{push, parent}
use phasic_j.Host.{FileSystem, IoReply, Host, io, try}
use phasic_j.Jvm.World.{World, M, pure, fail}
use phasic_j.Panic.{done, null_result}

-- `rt_jar_default_temp_file_path`, from the system's directory of temporary files.
unfoldable pub rt_jar_default_temp_file_path : Text → Text → Text
rt_jar_default_temp_file_path temp_dir sha1 =
    push (push (push temp_dir (codes "phasicj/rt.jar.temp/sha1")) sha1) (codes "rt.jar")

module _ {X : Type 0} (fs : FileSystem X) (rt_jar : Text) where
  -- The body of the `if`, below an existing parent.
  unfoldable pub write_rt_jar : Text → Text → M X (Option (Unit {0}))
  write_rt_jar file_path parent_path = try (io (fs.create_dir_all parent_path)) λ _.
      try (io (fs.create file_path)) λ file.
        try (io (fs.write_all file rt_jar)) λ _. try (io (fs.sync_all file)) λ _. pure (some tt)

  unfoldable pub write_below : Text → Option Text → M X (Option (Unit {0}))
  write_below file_path none = fail null_result
  write_below file_path (some parent_path) = write_rt_jar file_path parent_path

  unfoldable pub write_rt_jar_file_if_missing : Text → M X (Option (Unit {0}))
  write_rt_jar_file_if_missing file_path w =
      if fs.exists file_path w then done (some tt) w else write_below file_path (parent file_path) w
