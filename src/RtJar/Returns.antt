-- ===== src/RtJar/Returns.antt =====
-- The writing of the jar to its default path never panics.
use phasic_j.Base.{refl, inl, inr, Bool-cases, Text, codes, some}
use phasic_j.FilePath.{push}
use phasic_j.FilePath.Last.{LastIs, push-LastIs, parent-LastIs}
use phasic_j.Host.{FileSystem}
use phasic_j.Jvm.World.{World}
use phasic_j.RtJar.{
  rt_jar_default_temp_file_path, write_rt_jar, write_below, write_rt_jar_file_if_missing,
}
use phasic_j.Jvm.Ends.{IsDone, try-io-IsDone}

pub jar-LastIs : (temp_dir sha1 : Text) → LastIs b'r' (rt_jar_default_temp_file_path temp_dir sha1)
unfolding rt_jar_default_temp_file_path codes
jar-LastIs temp_dir sha1 =
    push-LastIs b'r' (push (push temp_dir (codes "phasicj/rt.jar.temp/sha1")) sha1) (codes "rt.jar")
      (codes "rt.ja", refl)

module _ {X : Type 0} (fs : FileSystem X) where
  write_below-IsDone :
      (content path dir : Text) (w : World X) → IsDone (write_below fs content path (some dir) w)
  unfolding write_below write_rt_jar
  write_below-IsDone content path dir w = try-io-IsDone (fs.create_dir_all dir) _ w λ _ w₁.
      try-io-IsDone (fs.create path) _ w₁ λ fd w₂.
        try-io-IsDone (fs.write_all fd content) _ w₂
          λ _ w₃. try-io-IsDone (fs.sync_all fd) _ w₃ λ _ w₄. tt

  -- At its default path, whatever the temporary directory, the hash and the file system's answers,
  -- write_rt_jar_file_if_missing returns, with success or an error, and never panics on a missing
  -- parent.
  pub write_rt_jar_file_if_missing-IsDone :
      (rt_jar temp_dir sha1 : Text) (w : World X)
      → IsDone
          (write_rt_jar_file_if_missing fs rt_jar (rt_jar_default_temp_file_path temp_dir sha1) w)
  unfolding write_rt_jar_file_if_missing
  write_rt_jar_file_if_missing-IsDone rt_jar temp_dir sha1 w =
      let path = rt_jar_default_temp_file_path temp_dir sha1 in
      let (dir, e) = parent-LastIs b'r' path refl (jar-LastIs temp_dir sha1) in
      elim (Bool-cases (fs.exists path w)) [
        | inl x ↦ rw x tt
        | inr x ↦ rw (x, e) (write_below-IsDone rt_jar path dir w)
      ]
