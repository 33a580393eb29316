-- ===== src/Svm/Embed/File.antt =====
-- The file of the embedded library, beside that of the embedded jar.
use phasic_j.Base.{
  ℕ, arith, ◌≡◌, ◌≢◌, refl, inl, inr, Text, codes, Option, false, Bool-cases, sym, ◌∙◌, ◌==◌,
}
use phasic_j.FilePath.Last.{LastIs, LastIs-append, parent-LastIs, push-LastIs, LastIs-unique}
use phasic_j.Host.{FileSystem}
use phasic_j.Jvm.Ends.{Leaves, Leaves-try}
use phasic_j.Jvm.World.{World}
use phasic_j.RtJar.{rt_jar_default_temp_file_path}
use phasic_j.RtJar.Missing.{IsFiles}
use phasic_j.Svm.Embed.{
  TargetOs, linux, macos, svm_file_name, svm_relative_path, svm_default_temp_file_path, write_svm,
  write_svm_below, write_svm_file_if_missing,
}
use phasic_j.RtJar.Returns.{jar-LastIs}

abbrev last_of : TargetOs → ℕ
last_of linux = b'o'
last_of macos = b'b'

name-LastIs : (os : TargetOs) → LastIs (last_of os) (svm_file_name os)
unfolding svm_file_name codes
name-LastIs linux = (codes "libsvm.s", refl)
name-LastIs macos = (codes "libsvm.dyli", refl)

svm-LastIs :
    (os : TargetOs) (temp_dir sha1 : Text)
    → LastIs (last_of os) (svm_default_temp_file_path os temp_dir sha1)
unfolding svm_default_temp_file_path svm_relative_path
svm-LastIs os temp_dir sha1 = push-LastIs (last_of os) temp_dir (svm_relative_path os sha1) (
    LastIs-append _ (codes "phasicj/") _ (
      LastIs-append _ (svm_file_name os) _ (
        LastIs-append _ (codes ".temp/sha1/") _
          (LastIs-append _ sha1 _ (LastIs-append _ (codes "/") _ (name-LastIs os))))))

-- On both operating systems, in one temporary directory, the default path of the embedded library
-- is never that of the embedded jar, whatever their hashes.
svm_default_temp_file_path-apart :
    (os : TargetOs) (temp_dir sha1 jar_sha1 : Text)
    → svm_default_temp_file_path os temp_dir sha1 ≢ rt_jar_default_temp_file_path temp_dir jar_sha1
svm_default_temp_file_path-apart linux temp_dir sha1 jar_sha1 e = omega (
  arith,
  LastIs-unique b'o' b'r' _ (svm-LastIs linux temp_dir sha1) (rw e (jar-LastIs temp_dir jar_sha1)),
)
svm_default_temp_file_path-apart macos temp_dir sha1 jar_sha1 e = omega (
  arith,
  LastIs-unique b'b' b'r' _ (svm-LastIs macos temp_dir sha1) (rw e (jar-LastIs temp_dir jar_sha1)),
)

-- What else is relied on of a file system, one in which different paths are different files: a call
-- on one file leaves the content of all others.
pub record KeepsOthers {X : Type 0} {fs : FileSystem X} (F : IsFiles fs) : Type 0 where
  pub create_dir_all :
      (dir : Text) (w : World X) (q : Text)
      → F.content (fs.create_dir_all dir w).world q ≡ F.content w q
  pub create :
      (path : Text) (w : World X) (q : Text)
      → q ≢ path
      → F.content (fs.create path w).world q ≡ F.content w q
  pub write_all :
      (fd : ℕ) (s : Text) (w : World X) (q : Text)
      → q ≢ F.path_of w fd
      → F.content (fs.write_all fd s w).world q ≡ F.content w q

last_ne : (os : TargetOs) → (last_of os == b'/') ≡ false
last_ne linux = refl
last_ne macos = refl

module _ {X : Type 0} {fs : FileSystem X} {F : IsFiles fs} (K : KeepsOthers F) (svm : Text) where
  write_svm-Leaves :
      (path dir q : Text) (c : Option Text) (w : World X)
      → q ≢ path
      → F.content w q ≡ c
      → Leaves (λ w'. F.content w' q ≡ c) (write_svm fs svm path dir w)
  unfolding write_svm
  write_svm-Leaves path dir q c w ne h =
      let Same : World X → Type 0 = λ w'. F.content w' q ≡ c in
      let h₁ = K.create_dir_all dir w q ∙ h in
      Leaves-try Same (fs.create_dir_all dir) _ w h₁ λ _ _.
        let w₁ = (fs.create_dir_all dir w).world in
        let h₂ = K.create path w₁ q ne ∙ h₁ in
        Leaves-try Same (fs.create path) _ w₁ h₂ λ fd e.
          let w₂ = (fs.create path w₁).world in
          let h₃ = K.write_all fd svm w₂ q (rw (F.create_ok path fd w₁ e).1 ne) ∙ h₂ in
          Leaves-try Same (fs.write_all fd svm) _ w₂ h₃ λ _ _.
            let w₃ = (fs.write_all fd svm w₂).world in
            let h₄ = F.sync_keeps fd w₃ q ∙ h₃ in Leaves-try Same (fs.sync_all fd) _ w₃ h₄ λ _ _. h₄

  -- On both operating systems, and a file system on which different paths are different files:
  -- writing the embedded library to its default path returns, with success or an error, never
  -- panics, and leaves the embedded jar at its default path as it was, whatever the hashes and the
  -- file system's answers.
  pub write_svm_file_if_missing-content :
      (os : TargetOs) (temp_dir sha1 jar_sha1 : Text) (c : Option Text) (w : World X)
      → F.content w (rt_jar_default_temp_file_path temp_dir jar_sha1) ≡ c
      → Leaves
          (λ w'. F.content w' (rt_jar_default_temp_file_path temp_dir jar_sha1) ≡ c)
          (write_svm_file_if_missing fs svm (svm_default_temp_file_path os temp_dir sha1) w)
  unfolding write_svm_file_if_missing write_svm_below
  write_svm_file_if_missing-content os temp_dir sha1 jar_sha1 c w h =
      let path = svm_default_temp_file_path os temp_dir sha1 in
      let jar = rt_jar_default_temp_file_path temp_dir jar_sha1 in
      let apart = svm_default_temp_file_path-apart os temp_dir sha1 jar_sha1 in
      let (dir, e) = parent-LastIs (last_of os) path (last_ne os) (svm-LastIs os temp_dir sha1) in
      elim (Bool-cases (fs.exists path w)) [
        | inl x ↦ rw x h
        | inr x ↦ rw (x, e) (write_svm-Leaves path dir jar c w (λ same. apart (sym same)) h)
      ]
