-- ===== src/Examples/Texts.antt =====
-- The models of Go's functions on texts at concrete texts.
use osc_bsu_csi_driver.Prelude.{◌≡◌, refl, true, false, [], ◌∷◌}
use osc_bsu_csi_driver.Go.Strings.{contains, lines, trim_space, base}

lines_test : lines "a\nbc\n" ≡ "a" ∷ "bc" ∷ "" ∷ []
unfolding lines
lines_test = refl

contains_test : contains "  type:    LUKS2" "type:" ≡ true
unfolding contains
contains_test = refl

contains_not : contains "typ" "type:" ≡ false
unfolding contains
contains_not = refl

trim_space_test : trim_space " \t42 7\n\n" ≡ "42 7"
unfolding trim_space
trim_space_test = refl

base_test : base "/dev/sdb" ≡ "sdb"
unfolding base
base_test = refl

base_of_folder : base "/dev/mapper//" ≡ "mapper"
unfolding base
base_of_folder = refl

base_of_root : base "//" ≡ "/"
unfolding base
base_of_root = refl
