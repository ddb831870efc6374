-- ===== src/Tests/Paths.antt =====
-- Tests of paths.
use rosetta_mq.Prelude.{◌≡◌, refl, none, some, []}
use rosetta_mq.Text.{codes}
use rosetta_mq.Util.{parent, resolve_path}

parent_tests :
    (parent (codes "conf/a.toml") ≡ some (codes "conf"))
    × (parent (codes "a.toml") ≡ some [])
    × (parent (codes "/a.toml") ≡ some (codes "/"))
    × (parent (codes "/") ≡ none)
    × (parent (codes "a//b/./") ≡ some (codes "a"))
    × (parent (codes "./a") ≡ some (codes "."))
unfolding parent
parent_tests = (refl, refl, refl, refl, refl, refl)

resolve_path_tests :
    (resolve_path (codes "conf") (codes "a.proto") ≡ codes "conf/a.proto")
    × (resolve_path (codes "conf") (codes "/a.proto") ≡ codes "/a.proto")
    × (resolve_path [] (codes "a.proto") ≡ codes "a.proto")
unfolding resolve_path
resolve_path_tests = (refl, refl, refl)
