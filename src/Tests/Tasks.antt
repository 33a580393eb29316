-- ===== src/Tests/Tasks.antt =====
-- Two requests that wait for the daemon's mutex at the same time.
use phasic_j.Base.{◌≡◌, refl, true, false, codes, none, some, [], ◌∷◌}
use phasic_j.Daemon.Tasks.{
  System, idle, waiting, holding, inserted, replied, update, pick, arrive, acquire, insert, release,
  start, Reach, here, later,
}
use phasic_j.Daemon.Tasks.Linear.{IsLinear, Extends, Reach-IsLinear}
use phasic_j.Daemon.Tasks.Progress.{is_finished, Reach-finishes}
use phasic_j.Tests.Daemon.{Table, sqlite, recorder}

-- The request that came second gets the mutex first.
abbrev overtaken : System Table
overtaken = record {
  shared = record { recorder = recorder; held = true };
  places =
      update (update (update (λ i. idle) 0 (waiting (codes "a"))) 1 (waiting (codes "b"))) 1
        (holding (codes "b"));
}

overtaken-Reach : Reach (sqlite true none) (start recorder) overtaken
overtaken-Reach =
    later (later (later here (pick 0 (arrive (codes "a")))) (pick 1 (arrive (codes "b"))))
      (pick 1 (acquire refl refl))

abbrev written : System Table
written = record {
  shared = record {
    recorder = record recorder { database_connection = some (codes "b" ∷ []) };
    held = false;
  };
  places = update (update overtaken.places 1 (inserted (codes "b"))) 1 (replied (codes "b"));
}

written-Reach : Reach (sqlite true none) overtaken written
written-Reach = later (later here (pick 1 (insert (some (codes "b" ∷ [])) refl))) (pick 1 release)

Reach-IsLinear_example :
    (h : IsLinear (sqlite true none) recorder overtaken) × Extends (sqlite true none) h written
Reach-IsLinear_example = Reach-IsLinear (sqlite true none) overtaken-Reach written-Reach

Reach-finishes_example :
    (t : System Table) × Reach (sqlite true none) overtaken t × (is_finished (t.places 0) ≡ true)
Reach-finishes_example = Reach-finishes (sqlite true none) overtaken-Reach 0 refl
