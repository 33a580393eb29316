-- ===== src/Tests/Files.antt =====
-- The theorems on the embedded files with a small disk.
use phasic_j.Base.{
  ◌≡◌, ◌≢◌, ◌++◌, inl, inr, [], Option, Bool-cases, text_eq_iff, refl, Bool, true, false, Text,
  codes, text_eq, none, some,
}
use phasic_j.FilePath.{parent}
use phasic_j.Panic.{done}
use phasic_j.RtJar.{rt_jar_default_temp_file_path, write_rt_jar_file_if_missing}
use phasic_j.RtJar.Missing.{
  Opens, write_rt_jar_file_if_missing-content, write_rt_jar_file_if_missing-truncated,
}
use phasic_j.Jvm.Ends.{Leaves}
use phasic_j.Jvm.World.{World}
use phasic_j.Svm.Embed.{linux, svm_default_temp_file_path, write_svm_file_if_missing}
use phasic_j.Svm.Embed.File.{KeepsOthers, write_svm_file_if_missing-content}
use phasic_j.Tests.Fixtures.{Machine, world, disk, disk_files, set_file, write_to}

abbrev jar : Text
jar = codes "PK"

abbrev jar_file : Text
jar_file = codes "/t/j"

-- The world behind the write, on a disk that may be full.
abbrev left : Bool → World Machine
left full = ((disk full).write_all 0 jar ((disk full).create jar_file world).world).world

sound_disk-Opens : Opens (disk_files false) jar jar_file (codes "/t") world 0
unfolding codes parent text_eq
sound_disk-Opens = record { missing = refl; parent_is = refl; made_ok = refl; opened_ok = refl }

full_disk-Opens : Opens (disk_files true) jar jar_file (codes "/t") world 0
unfolding codes parent text_eq
full_disk-Opens = record { missing = refl; parent_is = refl; made_ok = refl; opened_ok = refl }

write_rt_jar_file_if_missing-content_example :
    (write_rt_jar_file_if_missing (disk false) jar jar_file world ≡ done (some tt) (left false))
    × ((left false).host.files jar_file ≡ some jar)
    × (write_rt_jar_file_if_missing (disk false) jar jar_file (left false)
        ≡ done (some tt) (left false))
unfolding codes text_eq
write_rt_jar_file_if_missing-content_example =
    write_rt_jar_file_if_missing-content (disk_files false) jar jar_file (codes "/t") world
      sound_disk-Opens refl refl

write_rt_jar_file_if_missing-truncated_example :
    (c : Text) × ((left true).host.files jar_file ≡ some c)
    × (write_rt_jar_file_if_missing (disk true) jar jar_file world ≡ done none (left true))
    × (write_rt_jar_file_if_missing (disk true) jar jar_file (left true)
        ≡ done (some tt) (left true))
unfolding codes text_eq
write_rt_jar_file_if_missing-truncated_example =
    write_rt_jar_file_if_missing-truncated (disk_files true) jar jar_file (codes "/t") world
      full_disk-Opens refl

set_file-other :
    (q path : Text) (c : Text) (w : World Machine)
    → q ≢ path
    → (set_file path c w).host.files q ≡ w.host.files q
set_file-other q path c w ne = elim (Bool-cases (text_eq q path)) [
  | inl e ↦ absurd (ne ((text_eq_iff q path).0 e))
  | inr e ↦ rw e refl
]

write_to-other :
    (full : Bool) (s : Text) (f : Option Text) (w : World Machine) (q : Text)
    → q ≢ w.host.current
    → (write_to full s f w).world.host.files q ≡ w.host.files q
write_to-other full s none w q ne = refl
write_to-other true s (some c) w q ne = refl
write_to-other false s (some c) w q ne = set_file-other q w.host.current (c ++ s) w ne

abbrev disk_others : (full : Bool) → KeepsOthers (disk_files full)
disk_others full = record {
  create_dir_all = λ dir w q. refl;
  create = λ path w q ne. set_file-other q path [] w ne;
  write_all = λ fd s w q ne. write_to-other full s (w.host.files w.host.current) w q ne;
}

-- The library is not written, since the disk is full.
write_svm_file_if_missing-content_example :
    Leaves
      (λ w'. w'.host.files (rt_jar_default_temp_file_path (codes "/tmp") (codes "a9")) ≡ none)
      (write_svm_file_if_missing
        (disk true)
        (codes "ELF")
        (svm_default_temp_file_path linux (codes "/tmp") (codes "a9"))
        world)
write_svm_file_if_missing-content_example =
    write_svm_file_if_missing-content (disk_others true) (codes "ELF") linux (codes "/tmp")
      (codes "a9") (codes "a9") none world refl
