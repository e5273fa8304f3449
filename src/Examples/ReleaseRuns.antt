-- ===== src/Examples/ReleaseRuns.antt =====
-- Runs of the choice of an artifact and of the comparison of releases.
use whs_dynamic.Base.{
  starts_with, replace_code, lower_code, list_eq, nat_eq, List, [], ◌∷◌, ◌++◌, some, not, ◌&&◌, ◌≡◌,
  refl, Text, codes,
}
use whs_dynamic.Pipeline.Artifacts.{guess_package_name, select_artifact, before_version}
use whs_dynamic.Pipeline.Artifacts.Chosen.{guess_package_name-wheel}
use whs_dynamic.StaticScan.{Hashes, has_file, diff_trees}
use whs_dynamic.StaticScan.Releases.{lists, is_changed, diff_trees_lem}

-- `my-demo-1.0.whl`
guess_package_name-wheel_example :
    guess_package_name (codes "my-demo" ++ b'-' ∷ b'1' ∷ (codes ".0" ++ codes ".whl"))
    ≡ codes "my-demo"
unfolding before_version
guess_package_name-wheel_example =
    guess_package_name-wheel b'm' b'1' (codes "y-demo") (codes ".0") refl refl

abbrev workspace_files : List Text
workspace_files = codes "six-1.0.whl" ∷ codes "Demo-1.0.tar.gz" ∷ codes "demo-1.0-py3.whl" ∷ []

-- The wheel of the package is chosen: neither its dependency nor its source archive.
chosen_wheel :
    select_artifact workspace_files (codes "demo") (codes "wheel") ≡ some (codes "demo-1.0-py3.whl")
unfolding select_artifact starts_with replace_code lower_code
chosen_wheel = refl

abbrev earlier : Hashes
earlier = (codes "a.py", codes "11") ∷ (codes "b.py", codes "22") ∷ []

abbrev analysed : Hashes
analysed = (codes "b.py", codes "33") ∷ (codes "c.py", codes "44") ∷ []

-- `b.py` is in both, with other contents.
diff_trees_lem_example :
    (lists (codes "b.py") (diff_trees (codes "1.0") earlier analysed).files_added
      ≡ (has_file analysed (codes "b.py") && not (has_file earlier (codes "b.py"))))
    × (lists (codes "b.py") (diff_trees (codes "1.0") earlier analysed).files_removed
        ≡ (has_file earlier (codes "b.py") && not (has_file analysed (codes "b.py"))))
    × (lists (codes "b.py") (diff_trees (codes "1.0") earlier analysed).files_changed
        ≡ is_changed earlier analysed (codes "b.py"))
diff_trees_lem_example = diff_trees_lem (codes "1.0") earlier analysed (codes "b.py")
