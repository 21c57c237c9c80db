-- ===== src/Permission/Path/Examples.antt =====
-- The theorems on paths at concrete inputs.
use hai_code.Base.{◌≡◌, ◌&&◌, codes}
use hai_code.Permission.Path.{is_absolute, is_path_within}
use hai_code.Permission.Path.Containment.{is_prefix, is_path_within-is_prefix}
use hai_code.Permission.Path.Containment.{segments}

is_path_within-is_prefix_example :
    is_path_within (codes "/home/../home/user2") (codes "/home/user") ≡ (
      is_absolute (codes "/home/../home/user2")
      && (is_absolute (codes "/home/user")
          && is_prefix (segments (codes "/home/user")) (segments (codes "/home/../home/user2"))))
is_path_within-is_prefix_example =
    is_path_within-is_prefix (codes "/home/../home/user2") (codes "/home/user")
