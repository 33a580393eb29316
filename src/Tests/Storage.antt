-- ===== src/Tests/Storage.antt =====
-- The theorem on the storage as a cell, at a small input.
use phasic_j.Base.{refl, true, none, [], ◌∷◌}
use phasic_j.Jvm.EnvStorage.Cell.{
  init_with, read, release, perform, execute, in_turn, Agrees, execute-Agrees,
}
use phasic_j.Tests.Fixtures.{world, jvm, jvm_storage}
use phasic_j.Tests.Jvm.{plain_conf, path-IsStorable}

execute-Agrees_example :
    let cs = read ∷ init_with plain_conf ∷ read ∷ release ∷ init_with plain_conf ∷ [] in
    Agrees (jvm_storage true) (in_turn (execute (jvm true)) cs world) (in_turn perform cs none)
execute-Agrees_example =
    execute-Agrees (jvm_storage true)
      (read ∷ init_with plain_conf ∷ read ∷ release ∷ init_with plain_conf ∷ []) world none
      (path-IsStorable, (path-IsStorable, tt)) refl
