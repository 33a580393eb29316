-- ===== src/RtJar/Missing.antt =====
-- What `write_rt_jar_file_if_missing` leaves in the file.
use phasic_j.Base.{ℕ, ◌≡◌, ◌∙◌, true, false, Text, Option, none, some, [], ◌++◌}
use phasic_j.FilePath.{parent}
use phasic_j.Host.{FileSystem}
use phasic_j.Jvm.World.{World}
use phasic_j.Panic.{done}
use phasic_j.RtJar.{write_rt_jar, write_below, write_rt_jar_file_if_missing}

-- What is relied on of a file system: `content` is the bytes of a regular file, and `path_of` the
-- path that a handle was opened for.
pub record IsFiles {X : Type 0} (fs : FileSystem X) : Type 0 where
  pub content : World X → Text → Option Text
  pub path_of : World X → ℕ → Text
  pub exists_of_content :
      (path c : Text) (w : World X) → content w path ≡ some c → fs.exists path w ≡ true
  pub create_ok :
      (path : Text) (fd : ℕ) (w : World X)
      → (fs.create path w).result ≡ some fd
      → (content (fs.create path w).world path ≡ some [])
        × (path_of (fs.create path w).world fd ≡ path)
  -- A write that succeeds has written all; one that fails has written some of the bytes.
  pub write_ok :
      (fd : ℕ) (c s : Text) (w : World X)
      → content w (path_of w fd) ≡ some c
      → (fs.write_all fd s w).result ≡ some tt
      → content (fs.write_all fd s w).world (path_of w fd) ≡ some (c ++ s)
  pub write_failed :
      (fd : ℕ) (c s : Text) (w : World X)
      → content w (path_of w fd) ≡ some c
      → (fs.write_all fd s w).result ≡ none
      → (n : Text) × (content (fs.write_all fd s w).world (path_of w fd) ≡ some n)
  pub sync_keeps :
      (fd : ℕ) (w : World X) (path : Text) → content (fs.sync_all fd w).world path ≡ content w path

module _ {X : Type 0} {fs : FileSystem X} (F : IsFiles fs) (rt_jar path : Text) (w : World X) where
  -- A file that exists is trusted: the function changes nothing, whatever the file holds.
  pub write_rt_jar_file_if_missing-existing :
      (c : Text)
      → F.content w path ≡ some c
      → write_rt_jar_file_if_missing fs rt_jar path w ≡ done (some tt) w
  unfolding write_rt_jar_file_if_missing
  write_rt_jar_file_if_missing-existing c e = rw (F.exists_of_content path c w e)

module _ {X : Type 0} {fs : FileSystem X} (F : IsFiles fs) (rt_jar path dir : Text)
    (w : World X) where
  -- The worlds behind the first three calls.
  abbrev made : World X
  made = (fs.create_dir_all dir w).world

  abbrev opened : World X
  opened = (fs.create path made).world

  abbrev written : ℕ → World X
  written fd = (fs.write_all fd rt_jar opened).world

  -- The call succeeds in making the directory and in creating the file.
  pub record Opens (fd : ℕ) : Type 0 where
    pub missing : fs.exists path w ≡ false
    pub parent_is : parent path ≡ some dir
    pub made_ok : (fs.create_dir_all dir w).result ≡ some tt
    pub opened_ok : (fs.create path made).result ≡ some fd

  empty_file : {fd : ℕ} → Opens fd → F.content opened (F.path_of opened fd) ≡ some []
  empty_file {fd} o = let (e, p) = F.create_ok path fd made o.opened_ok in rw p e

  -- If the jar is missing and every call on the file system succeeds, write_rt_jar_file_if_missing
  -- succeeds, the file then holds exactly the embedded jar, and a second call succeeds and changes
  -- nothing.
  pub write_rt_jar_file_if_missing-content :
      {fd : ℕ}
      → Opens fd
      → (fs.write_all fd rt_jar opened).result ≡ some tt
      → (fs.sync_all fd (written fd)).result ≡ some tt
      → let w' = (fs.sync_all fd (written fd)).world in
        (write_rt_jar_file_if_missing fs rt_jar path w ≡ done (some tt) w')
        × (F.content w' path ≡ some rt_jar)
        × (write_rt_jar_file_if_missing fs rt_jar path w' ≡ done (some tt) w')
  unfolding write_rt_jar_file_if_missing write_below write_rt_jar
  write_rt_jar_file_if_missing-content {fd} o wrote synced =
      let (e, p) = F.create_ok path fd made o.opened_ok in
      let held =
        F.sync_keeps fd (written fd) path
        ∙ (rw p at (F.write_ok fd [] rt_jar opened (empty_file o) wrote)) in
      (
        rw (o.missing, o.parent_is, o.made_ok, o.opened_ok, wrote, synced),
        held,
        write_rt_jar_file_if_missing-existing F rt_jar path (fs.sync_all fd (written fd)).world
            rt_jar held,
      )

  -- If the file of the jar is missing, its directory and the file can be made, and the write fails,
  -- the call returns an error and leaves a file; a second call takes that file for the jar, and
  -- returns success with the content unchanged.
  pub write_rt_jar_file_if_missing-truncated :
      {fd : ℕ}
      → Opens fd
      → (fs.write_all fd rt_jar opened).result ≡ none
      → let w' = written fd in
        (c : Text) × (F.content w' path ≡ some c)
        × (write_rt_jar_file_if_missing fs rt_jar path w ≡ done none w')
        × (write_rt_jar_file_if_missing fs rt_jar path w' ≡ done (some tt) w')
  unfolding write_rt_jar_file_if_missing write_below write_rt_jar
  write_rt_jar_file_if_missing-truncated {fd} o failed =
      let (e, p) = F.create_ok path fd made o.opened_ok in
      let (c, left) = F.write_failed fd [] rt_jar opened (empty_file o) failed in
      let held = rw p at left in
      (
        c,
        held,
        rw (o.missing, o.parent_is, o.made_ok, o.opened_ok, failed),
        write_rt_jar_file_if_missing-existing F rt_jar path (written fd) c held,
      )
