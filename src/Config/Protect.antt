-- ===== src/Config/Protect.antt =====
-- ConfigProtect of pkg/config/config_protect.go: the files that the installer does not overwrite.
use Prim.Native.Char.{code}
use Prim.Native.String.{[], ◌∷◌}
use text.Mathlib.Text.{starts_with}
use luet.Prelude
use luet.Prelude.{
  ℕ, String, Bool, true, false, List, ◌&&◌, ◌||◌, ◌==◌, not, any, if◌then◌else◌, nat_eq,
}
use luet.GoMap.{Map, has, put}
use luet.Result.{Result, ok, panic, ◌>>=◌}

pub record ConfigProtectConfFile : Type 0 where
  pub filename : String
  pub name : String
  pub directories : List String

pub record ConfigProtect : Type 0 where
  pub annotation_dir : String
  pub map_protected : Map Bool

-- A path with the slash in front that it may lack.
unfoldable pub slashed : String → String
slashed [] = []
slashed (c ∷ s) = if nat_eq (code c) b'/' then c ∷ s else "/" ∷ c ∷ s

-- file[0:1] of an empty text is out of range.
unfoldable pub with_slash : String → Result String
unfolding slashed
with_slash file = if file == "" then panic else ok (slashed file)

unfoldable pub new_config_protect : (annotation_dir : String) → ConfigProtect
unfolding slashed
new_config_protect annotation_dir = record {
  annotation_dir = slashed annotation_dir;
  map_protected = luet.Prelude.[];
}

-- `clean` is filepath.Clean.
module _ (clean : String → String) where
  abbrev pub is_under : String → List ConfigProtectConfFile → Bool
  is_under file = any (λ conf. any (λ dir. starts_with file (clean dir)) conf.directories)

  -- The tests of the loop: a directory of a file of the configuration, or that of the annotation.
  unfoldable pub is_protectable :
      List ConfigProtectConfFile → (annotation_dir : String) → String → Bool
  is_protectable confs annotation_dir file =
      is_under file confs || (not (annotation_dir == "") && starts_with file (clean annotation_dir))

  -- The loop of Map.
  unfoldable pub map_each :
      List ConfigProtectConfFile → List String → ConfigProtect → Result ConfigProtect
  unfolding with_slash is_protectable
  map_each confs luet.Prelude.[] c = ok c
  map_each confs (luet.Prelude.◌∷◌ f files) c = do
    file ← with_slash f
    map_each confs files (
        if is_protectable confs c.annotation_dir file
        then record c { map_protected = put file true c.map_protected }
        else c)

  -- `skip` is LuetCfg.ConfigProtectSkip, `confs` is GetConfigProtectConfFiles.
  unfoldable pub map_files :
      (skip : Bool)
      → List ConfigProtectConfFile
      → List String
      → ConfigProtect
      → Result ConfigProtect
  unfolding map_each
  map_files skip confs files c = if skip then ok c else map_each confs files c

unfoldable pub protected : String → ConfigProtect → Result Bool
unfolding with_slash
protected f c = do file ← with_slash f; ok (has file c.map_protected)

unfoldable pub add_annotation_dir : String → ConfigProtect → ConfigProtect
add_annotation_dir d c = record c { annotation_dir = d }

-- key[1:]
unfoldable pub without_slash : String → Result String
without_slash [] = panic
without_slash (c ∷ key) = ok key

-- GetProtectFiles, on the paths in the order of a range.
unfoldable pub get_protect_files : (with_slash : Bool) → List String → Result (List String)
unfolding without_slash
get_protect_files with_slash luet.Prelude.[] = ok luet.Prelude.[]
get_protect_files with_slash (luet.Prelude.◌∷◌ key ks) = do
  file ← if with_slash then ok key else without_slash key
  ans ← get_protect_files with_slash ks
  ok (luet.Prelude.◌∷◌ file ans)
